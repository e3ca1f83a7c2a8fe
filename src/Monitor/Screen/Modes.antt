-- ===== src/Monitor/Screen/Modes.antt =====
-- The options that `main` accepts, and what the keys do to them (monitor/pr-monitor/src/index.ts).
use robotics_pacific_rim.Base.{
  ℕ, ◌≡◌, ◌⊎◌, inl, inr, Bool, true, false, not, ◌&&◌, ◌||◌, arith, leb, if◌then◌else◌, Bool-cases,
  Option, none, some, Option-cases, Text, text,
}
use robotics_pacific_rim.Base.Result.{Result, ok, ◌>>◌, ensure}
use robotics_pacific_rim.Monitor.Types.{MonitorOptions, Host, ℤ, pos, negsuc}
use robotics_pacific_rim.Monitor.Model.State.{MonitorModel, new_model}
use robotics_pacific_rim.Monitor.Model.Collect.{begin_collect, initialize}
use robotics_pacific_rim.Monitor.Model.Options.{
  options-ensure_all, options-begin_collect, options-finish_collect,
}
use robotics_pacific_rim.Monitor.Screen.Keys.{
  KeyEvent, Delta, up, down, move_selection, filter_key, open_detail, page_right, option_key,
  list_key, handle_key, render_clamp, normalize_key_name,
}
use robotics_pacific_rim.Monitor.Screen.World.{
  World, call_collect, press, draw, answer, Step, pressed, ticked, drawn, answered, Reachable,
  start, step,
}

-- The preset of `main`.
unfoldable pub apply_preset : MonitorOptions → MonitorOptions
apply_preset o =
    if o.preset_mode
    then record o {
      detail_mode = true;
      observe_all_mode = true;
      process_mode = true;
      chart_mode = true;
    }
    else o

-- `low <= value && value <= high`, for bounds above 0.
abbrev pub is_in_range : ℕ → ℕ → ℤ → Bool
is_in_range low high (pos n) = leb low n && leb n high
is_in_range low high (negsuc n) = false

-- `!(value < low || value > high)`, which NaN passes.
abbrev pub is_not_outside : ℕ → ℕ → Option ℤ → Bool
is_not_outside low high none = true
is_not_outside low high (some value) = is_in_range low high value

-- What `main` does with the options before it makes the model.
unfoldable pub check_options : MonitorOptions → Result Text MonitorOptions
check_options options =
    let o = apply_preset options in
    ensure (o.detail_mode || not o.observe_all_mode)
      (text "Observe all mode[-o] only use for Detail mode[-l].")
    >> (ensure (o.detail_mode || not o.active_mode)
          (text "Active mode[-a] only use for Detail mode[-l].")
        >> (ensure (is_in_range 10 100 o.chart_width)
              (text "Invalid [chart_width], range 10 - 100.")
            >> (ensure (is_in_range 20 100 o.process_width)
                  (text "Invalid [process_width], range 20 - 100.")
                >> (ensure (is_not_outside 1 10 o.ros2_sample_seconds)
                      (text "Invalid [ros2-sample-seconds], range 1 - 10.")
                    >> ok o))))

-- The options that `main` goes on with.
unfoldable pub is_accepted : MonitorOptions → Bool
is_accepted o =
    (o.detail_mode || not o.observe_all_mode)
    && (o.detail_mode || not o.active_mode)
    && is_in_range 10 100 o.chart_width
    && is_in_range 20 100 o.process_width
    && is_not_outside 1 10 o.ros2_sample_seconds

check_options-is_accepted :
    (options o : MonitorOptions) → check_options options ≡ ok o → is_accepted o ≡ true
unfolding check_options is_accepted
check_options-is_accepted options o h = let p = apply_preset options in ground (arith, h)

module _ (host : Host) where
  open host use {Real}

  option_key-is_accepted :
      (name : Text) (o : MonitorOptions)
      → is_accepted o ≡ true
      → is_accepted (option_key host name o) ≡ true
  unfolding option_key is_accepted
  option_key-is_accepted name o h = ground arith

  options-render_clamp :
      (height : ℕ) (m : MonitorModel Real) → (render_clamp host height m).options ≡ m.options
  unfolding render_clamp
  options-render_clamp height m = ground arith

  options-move_selection :
      (delta : Delta) (height : ℕ) (m : MonitorModel Real)
      → (move_selection host delta height m).options ≡ m.options
  unfolding move_selection
  options-move_selection delta height m = ground arith

  options-open_detail : (m : MonitorModel Real) → (open_detail host m).options ≡ m.options
  unfolding open_detail
  options-open_detail m = ground arith

  options-filter_key :
      (key : KeyEvent) (m : MonitorModel Real) → (filter_key host key m).options ≡ m.options
  unfolding filter_key
  options-filter_key key m = ground arith

  -- A key changes no option but by `option_key`.
  options-list_key :
      (name : Text) (height : ℕ) (m : MonitorModel Real)
      → ((list_key host name height m).options ≡ m.options)
        ⊎ ((list_key host name height m).options ≡ option_key host name m.options)
  unfolding list_key page_right
  options-list_key name height m = ground (
    arith,
    options-move_selection up height m,
    options-move_selection down height m,
    options-open_detail m,
  )

  list_key-is_accepted :
      (name : Text) (height : ℕ) (m : MonitorModel Real)
      → is_accepted m.options ≡ true
      → is_accepted (list_key host name height m).options ≡ true
  list_key-is_accepted name height m h = elim (options-list_key name height m) [
    | inl same ↦ rw same h
    | inr changed ↦ rw changed (option_key-is_accepted name m.options h)
  ]

  handle_key-is_accepted :
      (key : KeyEvent) (height : ℕ) (m : MonitorModel Real)
      → is_accepted m.options ≡ true
      → is_accepted (handle_key host key height m).model.options ≡ true
  unfolding handle_key
  handle_key-is_accepted key height m h =
      ground
        (arith, options-filter_key key m, list_key-is_accepted (normalize_key_name key) height m h)

  call_collect-is_accepted :
      (w : World Real)
      → is_accepted w.model.options ≡ true
      → is_accepted (call_collect host w).model.options ≡ true
  unfolding call_collect
  call_collect-is_accepted w h = elim (Option-cases (begin_collect host w.model)) [
    | inl e ↦ rw (e, call_collect) h
    | inr (m, e) ↦ rw (e, call_collect, options-begin_collect host w.model m e) h
  ]

  press-is_accepted :
      (key : KeyEvent) (height : ℕ) (w : World Real)
      → is_accepted w.model.options ≡ true
      → is_accepted (press host key height w).model.options ≡ true
  unfolding press
  press-is_accepted key height w h =
      let next = handle_key-is_accepted key height w.model h in
      elim (Bool-cases (handle_key host key height w.model).collects) [
        | inl e ↦ rw e (call_collect-is_accepted _ next)
        | inr e ↦ rw e next
      ]

  Step-is_accepted :
      (v w : World Real)
      → Step host v w
      → is_accepted v.model.options ≡ true
      → is_accepted w.model.options ≡ true
  unfolding answer draw
  Step-is_accepted v w (pressed key height _) h = press-is_accepted key height v h
  Step-is_accepted v w (ticked _) h = call_collect-is_accepted v h
  Step-is_accepted v w (drawn height _) h = rw (options-render_clamp height v.model) h
  Step-is_accepted v w (answered now ss _) h = rw (options-finish_collect host now ss v.model) h

  Reachable-is_accepted :
      (options : MonitorOptions) (w : World Real)
      → is_accepted options ≡ true
      → Reachable host options w
      → is_accepted w.model.options ≡ true
  unfolding initialize new_model
  Reachable-is_accepted options w h (start now endpoints sources errors collectors) =
      call_collect-is_accepted _ (rw (options-ensure_all host _ endpoints) h)
  Reachable-is_accepted options w h (step {v} r s) =
      Step-is_accepted v w s (Reachable-is_accepted options v h r)

  -- The options that `main` checks when the monitor starts stay as it checked them while the monitor
  -- runs: what is observed or active only in detail mode is so only in detail mode, whatever keys
  -- are pressed, the widths stay in their ranges, and the sampling time stays in its range or NaN.
  pub check_options-Reachable :
      (options o : MonitorOptions) (w : World Real)
      → check_options options ≡ ok o
      → Reachable host o w
      → is_accepted w.model.options ≡ true
  check_options-Reachable options o w h r =
      Reachable-is_accepted o w (check_options-is_accepted options o h) r
