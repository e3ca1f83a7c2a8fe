-- ===== src/Monitor/Screen/Tests.antt =====
-- Runs of the monitor's keys, and their theorems at concrete inputs.
use robotics_pacific_rim.Base.{ℕ, ◌≡◌, refl, true, false, none, [], ◌++◌, arith, length, Text, text}
use robotics_pacific_rim.Base.Result.{ok, err}
use robotics_pacific_rim.Monitor.Model.View.{visible_endpoints}
use robotics_pacific_rim.Monitor.Model.Runs.{model_runs}
use robotics_pacific_rim.Monitor.Samples.{host, options, endpoints, names, answers, ready}
use robotics_pacific_rim.Monitor.Screen.Keys.{
  KeyEvent, down, move_selection, render_clamp, filter_key, keys_run,
}
use robotics_pacific_rim.Monitor.Screen.World.{
  World, call_collect, press, draw, answer, pressed, drawn, answered, opened, Reachable, start,
  step,
}
use robotics_pacific_rim.Monitor.Screen.Modes.{
  check_options, is_accepted, apply_preset, check_options-Reachable,
}
use robotics_pacific_rim.Monitor.Screen.Overlap.{IsSound, Reachable-IsSound}
use robotics_pacific_rim.Monitor.Screen.Paging.{IsShown, move_selection-IsShown}
use robotics_pacific_rim.Monitor.Screen.Editing.{filter_key-backspace}

abbrev key_named : Text → Text → KeyEvent
key_named name sequence = record { name = name; sequence = sequence; ctrl = false; meta = false }

abbrev detail_key : KeyEvent
detail_key = key_named (text "l") (text "l")

-- The first collection, a key while it runs, its answers, and a frame.
abbrev first_world : World ℕ
first_world = call_collect host (opened host options 40000 endpoints [] [] names)

abbrev second_world : World ℕ
second_world = press host detail_key 30 first_world

abbrev third_world : World ℕ
third_world = answer host 50100 answers second_world

abbrev last_world : World ℕ
last_world = draw host 30 third_world

busy_while_pressed : second_world.in_flight ≡ 1
unfolding model_runs keys_run call_collect press answer draw
busy_while_pressed = refl

first_open : first_world.is_open ≡ true
unfolding model_runs call_collect
first_open = refl

third_open : third_world.is_open ≡ true
unfolding model_runs keys_run call_collect press answer
third_open = refl

detail_mode_on : last_world.model.options.detail_mode ≡ true
unfolding model_runs keys_run call_collect press answer draw
detail_mode_on = refl

abbrev last_reachable : Reachable host options last_world
last_reachable =
    step
      (step (step (start 40000 endpoints [] [] names) (pressed detail_key 30 first_open))
        (answered 50100 answers (rw busy_while_pressed (omega arith))))
      (drawn 30 third_open)

Reachable-IsSound_example : IsSound host last_world
Reachable-IsSound_example = Reachable-IsSound host options last_world last_reachable

options_checked : check_options options ≡ ok options
unfolding check_options apply_preset
options_checked = refl

check_options-Reachable_example : is_accepted last_world.model.options ≡ true
check_options-Reachable_example =
    check_options-Reachable host options options last_world options_checked last_reachable

-- A sampling time that is no number is let through, one that is out of range is not.
nan_accepted :
    check_options (record options { ros2_sample_seconds = none })
    ≡ ok (record options { ros2_sample_seconds = none })
unfolding check_options apply_preset
nan_accepted = refl

preset_accepted :
    check_options (record options { preset_mode = true })
    ≡ ok (record options {
      preset_mode = true;
      detail_mode = true;
      observe_all_mode = true;
      process_mode = true;
      chart_mode = true;
    })
unfolding check_options apply_preset
preset_accepted = refl

active_refused :
    check_options (record options { active_mode = true })
    ≡ err (text "Active mode[-a] only use for Detail mode[-l].")
unfolding check_options apply_preset
active_refused = refl

two_listed : length (visible_endpoints host ready) ≡ 2
unfolding model_runs
two_listed = refl

no_detail : ready.detail_view ≡ none
unfolding model_runs
no_detail = refl

default_rows : ready.options ≡ options
unfolding model_runs
default_rows = refl

move_selection-IsShown_example :
    IsShown host 30 (render_clamp host 30 (move_selection host down 30 ready))
move_selection-IsShown_example =
    move_selection-IsShown host down 30 ready (rw two_listed (omega arith)) no_detail
      (rw default_rows (omega arith))

abbrev a_key : KeyEvent
a_key = key_named (text "a") (text "a")

abbrev back_key : KeyEvent
back_key = key_named (text "Backspace") []

filter_key-backspace_example :
    ((filter_key host a_key ready).filter_text ≡ ready.filter_text ++ text "a")
    × ((filter_key host back_key (filter_key host a_key ready)).filter_text ≡ ready.filter_text)
    × ((filter_key host back_key (filter_key host a_key ready)).filter_input_mode
        ≡ ready.filter_input_mode)
    × ((filter_key host back_key (filter_key host a_key ready)).selected_line ≡ none)
unfolding keys_run
filter_key-backspace_example =
    filter_key-backspace host a_key back_key 97 ready
      (record {
        sequence = refl;
        plain = refl;
        no_enter = refl;
        no_escape = refl;
        no_backspace = refl;
      })
      refl refl
