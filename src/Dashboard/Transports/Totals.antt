-- ===== src/Dashboard/Transports/Totals.antt =====
-- The summary of transports counts every binding once
-- (dashboard/packages/api/src/routers/dashboard.ts).
use robotics_pacific_rim.Base.{
  ℕ, suc, ◌+◌, ◌≡◌, refl, ap, ◌∙◌, inl, inr, Bool, true, false, List, [], ◌∷◌, arith, ltb, leb,
  ◌==◌, if◌then◌else◌, Bool-cases, or_else, length, Text, eq_text,
}
use robotics_pacific_rim.Base.Assoc.{Assoc, get, put}
use robotics_pacific_rim.Base.Sort.{insert, sort, IsOrder, IsSorted, sort-IsSorted}
use robotics_pacific_rim.Dashboard.Routes.{BindingSummary, CommunicationRoute}
use robotics_pacific_rim.Dashboard.Transports.{
  TransportCounter, TransportSummary, no_counter, counted_name, counted, count_binding,
  count_bindings, count_routes, start_counters, supported_transport_families, summaries, summary_le,
  summarize_transports,
}

abbrev pub total : List TransportSummary → ℕ
total [] = 0
total (summary ∷ rest) = summary.bindings + total rest

-- The number of bindings of all routes.
abbrev pub binding_count : List CommunicationRoute → ℕ
binding_count [] = 0
binding_count (route ∷ routes) = length route.bindings + binding_count routes

total-insert :
    (summary : TransportSummary) (rest : List TransportSummary)
    → total (insert summary_le summary rest) ≡ summary.bindings + total rest
unfolding insert
total-insert summary [] = refl
total-insert summary (other ∷ rest) = ground (arith, total-insert summary rest)

total-sort : (rest : List TransportSummary) → total (sort summary_le rest) ≡ total rest
unfolding sort
total-sort [] = refl
total-sort (summary ∷ rest) =
    total-insert summary (sort summary_le rest) ∙ ap (λ n. summary.bindings + n) (total-sort rest)

-- Writing a counter replaces what the name had.
total-put :
    (name : Text) (counter : TransportCounter) (counters : Assoc TransportCounter)
    → total (summaries (put name counter counters))
        + (or_else (get name counters) no_counter).bindings
      ≡ total (summaries counters) + counter.bindings
unfolding put get
total-put name counter [] = omega arith
total-put name counter ((other, c) ∷ counters) =
    let ih = total-put name counter counters in
    elim (Bool-cases (eq_text other name)) [
      | inl e ↦ rw e (omega arith)
      | inr e ↦ rw e (omega (arith, ih))
    ]

total-count_binding :
    (route_id : Text) (counters : Assoc TransportCounter) (binding : BindingSummary)
    → total (summaries (count_binding route_id counters binding)) ≡ suc (total (summaries counters))
unfolding count_binding
total-count_binding route_id counters binding =
    let old = or_else (get (counted_name binding) counters) no_counter in
    let t = total-put (counted_name binding) (counted route_id old) counters in omega (arith, t)

total-count_bindings :
    (route_id : Text) (counters : Assoc TransportCounter) (bindings : List BindingSummary)
    → total (summaries (count_bindings route_id counters bindings))
      ≡ length bindings + total (summaries counters)
unfolding count_bindings
total-count_bindings route_id counters [] = omega arith
total-count_bindings route_id counters (binding ∷ bindings) = omega (
  arith,
  total-count_bindings route_id (count_binding route_id counters binding) bindings,
  total-count_binding route_id counters binding,
)

total-count_routes :
    (counters : Assoc TransportCounter) (routes : List CommunicationRoute)
    → total (summaries (count_routes counters routes))
      ≡ binding_count routes + total (summaries counters)
unfolding count_routes
total-count_routes counters [] = omega arith
total-count_routes counters (route ∷ routes) = omega (
  arith,
  total-count_routes (count_bindings route.id counters route.bindings) routes,
  total-count_bindings route.id counters route.bindings,
)

abbrev more_or_before : ℕ → ℕ → ℕ → ℕ → Bool
more_or_before left i right j = if right == left then leb i j else ltb right left

more_or_before_total :
    (m i n j : ℕ) → more_or_before m i n j ≡ false → more_or_before n j m i ≡ true
more_or_before_total m i n j h = ground arith

more_or_before_trans :
    (m i n j k l : ℕ)
    → more_or_before m i n j ≡ true
    → more_or_before n j k l ≡ true
    → more_or_before m i k l ≡ true
more_or_before_trans m i n j k l g h = ground arith

summary_le-IsOrder : IsOrder summary_le
unfolding summary_le
summary_le-IsOrder = record {
  total = λ x y h. more_or_before_total x.bindings _ y.bindings _ h;
  trans = λ x y z h k. more_or_before_trans x.bindings _ y.bindings _ z.bindings _ h k;
}

-- The summary's numbers of bindings add up to that of all routes, and it is sorted: more bindings
-- first, and in the order of the supported families where the numbers are equal.
pub summarize_transports-total :
    (routes : List CommunicationRoute)
    → (total (summarize_transports routes) ≡ binding_count routes)
      × IsSorted summary_le (summarize_transports routes)
unfolding summarize_transports
summarize_transports-total routes =
    let counters = count_routes (start_counters supported_transport_families) routes in
    (
      total-sort (summaries counters)
          ∙ total-count_routes (start_counters supported_transport_families) routes
          ∙ omega arith,
      sort-IsSorted summary_le-IsOrder (summaries counters),
    )
