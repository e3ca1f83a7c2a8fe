-- ===== src/Dashboard/Transports.antt =====
-- The transports that the dashboard sums up over all routes
-- (dashboard/packages/api/src/routers/dashboard.ts).
pub mod Totals
use robotics_pacific_rim.Base.{
  ℕ, zero, suc, ◌+◌, ◌-◌, ◌*◌, ◌/◌, ◌%◌, ◌^◌, ◌≤◌, ◌<◌, Ordering, String, ◌≡◌, refl, sym, ap, ap₂,
  ◌∙◌, subst, fun_ext, ◌≢◌, ◌↔◌, ◌⊎◌, inl, inr, Bool, true, false, not, ◌&&◌, ◌||◌, Option, none,
  some, List, [], ◌∷◌, ◌++◌, map, append_assoc, append-nil, map-append, arith, ltb, leb, ◌==◌,
  if◌then◌else◌, ltb→lt, lt→ltb, leb→le, ==_iff, tests, Bool-cases, Option-cases, and-eq-true,
  or_else, is_some, length, take, drop, replicate, get_elem?, all, any, find, select, Each,
  or_else-Each, if-keeps, length-append, length-replicate, length-take, length-drop, length-map,
  All, All-append, Text, text, eq_text, eq_text_iff, eq_text_refl, has_text, is_empty, or_text,
  is_space, trim_start, trim_end, trim, starts_with, includes, ends_with, lower_unit, lower,
  is_upper_letter, is_lower_letter, is_digit, is_letter, join, before, string_runs,
}
use robotics_pacific_rim.Base.Assoc.{Assoc, get, put}
use robotics_pacific_rim.Base.Distinct.{add}
use robotics_pacific_rim.Base.Sort.{insert, sort, IsOrder, IsSorted, sort-IsSorted}
use robotics_pacific_rim.Dashboard.Routes.{BindingSummary, CommunicationRoute}
use robotics_pacific_rim.Dashboard.Details.{
  TransportFamily, cyclonedds, fastdds, nats, ros2, transport_family,
}

pub record TransportCounter : Type 0 where
  pub bindings : ℕ
  pub route_ids : List Text

pub record TransportSummary : Type 0 where
  pub bindings : ℕ
  pub name : Text
  pub routes : ℕ

abbrev pub family_text : TransportFamily → Text
family_text cyclonedds = text "cyclonedds"
family_text fastdds = text "fastdds"
family_text nats = text "nats"
family_text ros2 = text "ros2"

abbrev pub supported_transport_families : List Text
supported_transport_families = text "ros2" ∷ text "cyclonedds" ∷ text "fastdds" ∷ text "nats" ∷ []

abbrev pub no_counter : TransportCounter
no_counter = record { bindings = 0; route_ids = [] }

abbrev name_or : Option TransportFamily → Text → Text
name_or none transport = transport
name_or (some family) transport = family_text family

-- `transportFamily(binding.transport) ?? binding.transport`.
unfoldable pub counted_name : BindingSummary → Text
unfolding transport_family
counted_name binding = name_or (transport_family binding.transport) binding.transport

abbrev pub counted : Text → TransportCounter → TransportCounter
counted route_id counter = record {
  bindings = suc counter.bindings;
  route_ids = add eq_text route_id counter.route_ids;
}

-- One binding of a route.
unfoldable pub count_binding :
    Text → Assoc TransportCounter → BindingSummary → Assoc TransportCounter
unfolding put get add eq_text counted_name
count_binding route_id counters binding =
    let name = counted_name binding in
    put name (counted route_id (or_else (get name counters) no_counter)) counters

unfoldable pub count_bindings :
    Text → Assoc TransportCounter → List BindingSummary → Assoc TransportCounter
unfolding count_binding
count_bindings route_id counters [] = counters
count_bindings route_id counters (binding ∷ bindings) =
    count_bindings route_id (count_binding route_id counters binding) bindings

unfoldable pub count_routes :
    Assoc TransportCounter → List CommunicationRoute → Assoc TransportCounter
unfolding count_bindings
count_routes counters [] = counters
count_routes counters (route ∷ routes) =
    count_routes (count_bindings route.id counters route.bindings) routes

abbrev pub start_counters : List Text → Assoc TransportCounter
start_counters [] = []
start_counters (family ∷ families) = (family, no_counter) ∷ start_counters families

abbrev pub summaries : Assoc TransportCounter → List TransportSummary
summaries [] = []
summaries ((name, counter) ∷ counters) =
    record { name = name; bindings = counter.bindings; routes = length counter.route_ids }
    ∷ summaries counters

-- `indexOf`, or the number of families where the name is none of them.
abbrev index_from : ℕ → Text → List Text → ℕ
index_from i name [] = i
index_from i name (family ∷ families) =
    let rest = index_from (suc i) name families in if eq_text family name then i else rest

unfoldable pub transport_sort_index : Text → ℕ
unfolding eq_text
transport_sort_index name = index_from 0 name supported_transport_families

-- The comparator's answer is at most 0: more bindings first, then by the index of the family.
unfoldable pub summary_le : TransportSummary → TransportSummary → Bool
unfolding transport_sort_index
summary_le left right =
    if right.bindings == left.bindings
    then leb (transport_sort_index left.name) (transport_sort_index right.name)
    else ltb right.bindings left.bindings

unfoldable pub summarize_transports : List CommunicationRoute → List TransportSummary
unfolding count_routes sort summary_le
summarize_transports routes =
    sort summary_le (summaries (count_routes (start_counters supported_transport_families) routes))
