-- ===== src/Monitor/Screen/Keys.antt =====
-- The keys and the frames of the monitor (monitor/pr-monitor/src/index.ts). What a frame draws is
-- not modelled: only what it does to the model.
use Prim.Native.Nat.{max, min}
use robotics_pacific_rim.Base.{
  ℕ, ◌+◌, ◌-◌, ◌*◌, ◌/◌, Bool, true, false, not, ◌&&◌, ◌||◌, Option, none, some, List, [], ◌∷◌,
  ◌++◌, ltb, leb, ◌==◌, if◌then◌else◌, is_some, length, take, get_elem?, Text, text, eq_text, lower,
  join, string_runs,
}
use robotics_pacific_rim.Monitor.Types.{EndpointInfo, MonitorOptions, Host, to_nat}
use robotics_pacific_rim.Monitor.Format.{clamp, build_inspect_command}
use robotics_pacific_rim.Monitor.Model.State.{MonitorModel}
use robotics_pacific_rim.Monitor.Model.View.{visible_endpoints}

-- The fields of a KeyEvent that the code reads.
pub record KeyEvent : Type 0 where
  pub name : Text
  pub sequence : Text
  pub ctrl : Bool
  pub meta : Bool

-- What a key leads to: the changed model, whether `shutdown` is called, and whether the handler
-- goes on to `model.collect()`.
pub record KeyOutcome (R : Type 0) : Type 0 where
  pub model : MonitorModel R
  pub shuts_down : Bool
  pub collects : Bool

unfoldable pub normalize_key_name : KeyEvent → Text
normalize_key_name key =
    let name = lower key.name in
    if eq_text name (text "return")
    then text "enter"
    else if eq_text name (text "esc")
    then text "escape"
    else if eq_text name (text " ")
    then text "space"
    else if eq_text name (text "arrowup")
    then text "up"
    else if eq_text name (text "arrowdown")
    then text "down"
    else if eq_text name (text "arrowleft")
    then text "left"
    else if eq_text name (text "arrowright")
    then text "right"
    else name

-- The halves of a surrogate pair.
abbrev pub is_high : ℕ → Bool
is_high c = leb 55296 c && leb c 56319

abbrev pub is_low : ℕ → Bool
is_low c = leb 56320 c && leb c 57343

-- `Array.from(text)`: a surrogate pair is one element.
unfoldable pub code_points : Text → List Text
code_points [] = []
code_points (c ∷ []) = (c ∷ []) ∷ []
code_points (c ∷ d ∷ s) =
    let paired = (c ∷ d ∷ []) ∷ code_points s in
    let single = (c ∷ []) ∷ code_points (d ∷ s) in if is_high c && is_low d then paired else single

-- `slice(0, -1)`.
unfoldable pub drop_last {ℓ} : {A : Type ℓ} → List A → List A
drop_last xs = take (length xs - 1) xs

unfoldable pub erase_last : Text → Text
erase_last s = join [] (drop_last (code_points s))

pub data Delta : Type 0 where
  up down : Delta

unfoldable pub terminal_rows : ℕ → ℕ
terminal_rows terminal_height = max 3 (terminal_height - 3)

abbrev has_rows : MonitorOptions → Bool
has_rows options = ltb 0 (to_nat options.rows)

-- `Math.ceil(total / rows)`, for `rows` above 0.
abbrev pub pages_of : ℕ → ℕ → ℕ
pages_of total rows = max 1 ((total + (rows - 1)) / rows)

module _ (host : Host) where
  open host use {Real}

  unfoldable pub selection_rows : MonitorOptions → ℕ → ℕ
  selection_rows options terminal_height =
      terminal_rows (if has_rows options then to_nat options.rows else terminal_height)

  -- A selected line that is moved; the line before 0 is 0, as `clamp` has it.
  abbrev moved_line : Delta → ℕ → ℕ → ℕ
  moved_line up total i = clamp (i - 1) 0 (total - 1)
  moved_line down total i = clamp (i + 1) 0 (total - 1)

  abbrev first_line : Delta → ℕ → ℕ → ℕ → ℕ
  first_line down total page rows = page * rows
  first_line up total page rows = min (total - 1) ((page + 1) * rows - 1)

  unfoldable pub move_selection : Delta → ℕ → MonitorModel Real → MonitorModel Real
  move_selection delta terminal_height m =
      let rows = selection_rows m.options terminal_height in
      let total = length (visible_endpoints host m) in
      let line : ℕ = elim m.selected_line [
        | none ↦ first_line delta total m.current_page rows
        | some i ↦ moved_line delta total i
      ] in
      if total == 0
      then record m { selected_line = none }
      else record m { selected_line = some line; current_page = line / rows }

  abbrev unselected : ℕ → MonitorModel Real → MonitorModel Real
  unselected page m = record m { current_page = page; selected_line = none }

  unfoldable pub filter_key : KeyEvent → MonitorModel Real → MonitorModel Real
  filter_key key m =
      let name = normalize_key_name key in
      if eq_text name (text "enter") || eq_text name (text "escape")
      then record m { filter_input_mode = false }
      else if eq_text name (text "backspace")
      then unselected 0 (record m { filter_text = erase_last m.filter_text })
      else if (length key.sequence == 1) && not key.ctrl && not key.meta
      then unselected 0 (record m { filter_text = m.filter_text ++ key.sequence })
      else m

  -- The endpoint of the selected line, if there is one.
  abbrev selected_endpoint : MonitorModel Real → Option (EndpointInfo Real)
  selected_endpoint m = elim m.selected_line [
    | none ↦ none
    | some i ↦ get_elem? (visible_endpoints host m) i
  ]

  unfoldable pub open_detail : MonitorModel Real → MonitorModel Real
  open_detail m = elim (selected_endpoint m) [
    | none ↦ m
    | some e ↦ record m {
      detail_view = some e;
      last_jump_message = build_inspect_command e m.options;
    }
  ]

  unfoldable pub page_right : ℕ → MonitorModel Real → MonitorModel Real
  page_right terminal_height m =
      let total = length (visible_endpoints host m) in
      unselected (min (pages_of total (terminal_rows terminal_height) - 1) (m.current_page + 1)) m

  -- The keys that change an option.
  unfoldable pub option_key : Text → MonitorOptions → MonitorOptions
  option_key name o =
      if eq_text name (text "t")
      then record o { count_mode = not o.count_mode }
      else if eq_text name (text "l")
      then (if o.detail_mode
          then record o { detail_mode = false; observe_all_mode = false; active_mode = false }
          else record o { detail_mode = true })
      else if eq_text name (text "o") && o.detail_mode
      then record o { observe_all_mode = not o.observe_all_mode }
      else if eq_text name (text "e")
      then record o { profiler_mode = not o.profiler_mode }
      else if eq_text name (text "s")
      then record o { ser_mode = not o.ser_mode }
      else if eq_text name (text "a") && o.detail_mode
      then record o { active_mode = not o.active_mode }
      else if eq_text name (text "y")
      then record o { pubsub_mode = not o.pubsub_mode }
      else if eq_text name (text "p")
      then record o { process_mode = not o.process_mode }
      else if eq_text name (text "c")
      then record o { chart_mode = not o.chart_mode }
      else o

  -- The keys of the list, after those that shut down.
  unfoldable pub list_key : Text → ℕ → MonitorModel Real → MonitorModel Real
  list_key name terminal_height m =
      if eq_text name (text "space")
      then record m { paused = not m.paused }
      else if eq_text name (text "left")
      then unselected (m.current_page - 1) m
      else if eq_text name (text "right")
      then page_right terminal_height m
      else if eq_text name (text "up")
      then move_selection up terminal_height m
      else if eq_text name (text "down")
      then move_selection down terminal_height m
      else if eq_text name (text "enter")
      then open_detail m
      else if eq_text name (text "z")
      then record m { selected_line = none }
      else if eq_text name (text "i")
      then record m { filter_input_mode = true }
      else record m { options = option_key name m.options }

  -- The branches of `handleKey` in their order. `enter` and `escape` close an open detail view;
  -- `q` leaves from it without a collection.
  unfoldable pub handle_key : KeyEvent → ℕ → MonitorModel Real → KeyOutcome Real
  handle_key key terminal_height m =
      let name = normalize_key_name key in
      let quit = eq_text name (text "q") in
      let escape = eq_text name (text "escape") in
      if m.filter_input_mode
      then record { model = filter_key key m; shuts_down = false; collects = false }
      else if is_some m.detail_view && (eq_text name (text "enter") || escape)
      then record { model = record m { detail_view = none }; shuts_down = false; collects = false }
      else if is_some m.detail_view && quit
      then record { model = m; shuts_down = true; collects = false }
      else if quit || escape
      then record { model = m; shuts_down = true; collects = true }
      else record { model = list_key name terminal_height m; shuts_down = false; collects = true }

  -- The rows of the list in a frame of the given height.
  unfoldable pub content_rows : MonitorOptions → ℕ → ℕ
  content_rows options height =
      terminal_rows (if has_rows options then min height (to_nat options.rows) else height)

  -- What a frame does to the page and to the selected line before it draws them.
  unfoldable pub render_clamp : ℕ → MonitorModel Real → MonitorModel Real
  render_clamp height m =
      let total = length (visible_endpoints host m) in
      let page = clamp m.current_page 0 (pages_of total (content_rows m.options height) - 1) in
      let line : Option ℕ = elim m.selected_line [
        | none ↦ none
        | some i ↦ if ltb i total then some i else (if total == 0 then none else some (total - 1))
      ] in
      if is_some m.detail_view then m else record m { current_page = page; selected_line = line }

-- To be unfolded by tests that run this code.
unfoldable pub keys_run : Unit {0}
unfolding string_runs clamp normalize_key_name code_points drop_last erase_last terminal_rows
    selection_rows move_selection filter_key open_detail page_right option_key list_key handle_key
    content_rows render_clamp
keys_run = tt
