-- ===== src/Monitor/Model/State.antt =====
-- The state of the monitor and what collecting does to it (monitor/pr-monitor/src/model.ts).
use Prim.Native.Nat.{max}
use robotics_pacific_rim.Base.{
  ℕ, Bool, false, Option, none, List, [], ◌∷◌, ◌++◌, ltb, if◌then◌else◌, is_some, length, Text,
  text, eq_text,
}
use robotics_pacific_rim.Base.Assoc.{Assoc, get, put}
use robotics_pacific_rim.Monitor.Types.{
  EndpointInfo, EndpointStats, EndpointHistory, DetailSample, CollectorStatus, MonitorOptions, ℤ,
  to_nat,
}

-- The class MonitorModel. `collectors` holds the collectors' names; a selected line of -1 is none.
pub record MonitorModel (R : Type 0) : Type 0 where
  pub options : MonitorOptions
  pub endpoints : List (EndpointInfo R)
  pub stats : Assoc (EndpointStats R)
  pub histories : Assoc (EndpointHistory R)
  pub details : Assoc (List (DetailSample R))
  pub collector_statuses : List CollectorStatus
  pub collectors : List Text
  pub collecting : Bool
  pub filter_text : Text
  pub paused : Bool
  pub selected_line : Option ℕ
  pub current_page : ℕ
  pub filter_input_mode : Bool
  pub detail_view : Option (EndpointInfo R)
  pub last_jump_message : Text
  pub total_rate : R
  pub active_count : ℕ
  pub discovery_status : Text

-- The loop `while (values.length > max) values.shift()`.
unfoldable pub shift_while {ℓ} : {A : Type ℓ} → ℕ → List A → List A
shift_while limit [] = []
shift_while limit (x ∷ xs) =
    let rest = shift_while limit xs in if ltb limit (length (x ∷ xs)) then rest else x ∷ xs

abbrev pub push {ℓ} : {A : Type ℓ} → List A → A → List A
push xs x = xs ++ x ∷ []

-- `update(map.get(key))` on an object that stands in the map: nothing if the key is missing, as a
-- change of a fresh object that no map holds is lost.
unfoldable pub modify {ℓ} : {V : Type ℓ} → Text → (V → V) → Assoc V → Assoc V
modify k f [] = []
modify k f ((j, v) ∷ m) = if eq_text j k then (j, f v) ∷ m else (j, v) ∷ modify k f m

-- `if (!map.has(key)) map.set(key, value)`.
unfoldable pub ensure_key {ℓ} : {V : Type ℓ} → Text → V → Assoc V → Assoc V
ensure_key k v m = if is_some (get k m) then m else put k v m

abbrev pub detail_limit : ℕ
detail_limit = 80

-- `Math.max(26, chartWidth)`; a negative width counts as 0 in it.
abbrev pub history_limit : ℤ → ℕ
history_limit chart_width = max 26 (to_nat chart_width)

unfoldable pub empty_history : (R : Type 0) → EndpointHistory R
empty_history R = record { freq = []; rate = []; loss = []; latency = [] }

-- The model that the constructor makes.
unfoldable pub new_model : {R : Type 0} → R → MonitorOptions → MonitorModel R
new_model zero_real options = record {
  options = options;
  endpoints = [];
  stats = [];
  histories = [];
  details = [];
  collector_statuses = [];
  collectors = [];
  collecting = false;
  filter_text = options.filter;
  paused = false;
  selected_line = none;
  current_page = 0;
  filter_input_mode = false;
  detail_view = none;
  last_jump_message = [];
  total_rate = zero_real;
  active_count = 0;
  discovery_status = text "discovering project routes";
}
