-- ===== src/Monitor/Tests.antt =====
-- Runs of the monitor, and its theorems at concrete inputs.
use robotics_pacific_rim.Base.{
  ℕ, ◌-◌, ◌≤◌, ◌≡◌, ◌↔◌, refl, true, false, none, some, List, [], ◌∷◌, ◌++◌, map, length, drop,
  select, All, text,
}
use robotics_pacific_rim.Base.Assoc.{values}
use mathlib.Core.List.{Perm}
use robotics_pacific_rim.Base.Sort.{IsSorted}
use robotics_pacific_rim.Base.Locale.{lex_le-IsOrder}
use robotics_pacific_rim.Monitor.Types.{EndpointInfo, ProcessInfo}
use robotics_pacific_rim.Monitor.Model.State.{new_model, shift_while}
use robotics_pacific_rim.Monitor.Model.Sampling.{merge_processes, apply_snapshots}
use robotics_pacific_rim.Monitor.Model.Collect.{begin_collect}
use robotics_pacific_rim.Monitor.Model.Invariant.{IsConsistent}
use robotics_pacific_rim.Monitor.Model.Preserved.{
  begin_collect-IsConsistent, initialize-IsConsistent,
}
use robotics_pacific_rim.Monitor.Model.Shape.{SameShape, IsTracked, urls, finish_collect-SameShape}
use robotics_pacific_rim.Monitor.Model.Maps.{shift_while-drop}
use robotics_pacific_rim.Monitor.Model.Begin.{begin_collect-IsTracked}
use robotics_pacific_rim.Monitor.Model.Stale.{IsCurrent, finish_collect-IsCurrent}
use robotics_pacific_rim.Monitor.Model.Counts.{Grows, finish_collect-Grows}
use robotics_pacific_rim.Monitor.Model.Totals.{active, finish_collect-active_count}
use robotics_pacific_rim.Monitor.Model.Processes.{IsMerge, merge_processes-IsMerge}
use robotics_pacific_rim.Monitor.Model.Runs.{model_runs}
use robotics_pacific_rim.Monitor.Model.Listed.{
  IsListed, by_url, active_ones, other_ones, visible_endpoints-IsSorted,
}
use robotics_pacific_rim.Monitor.Model.View.{visible_endpoints, is_visible}
use robotics_pacific_rim.Monitor.Samples.{
  host, process_named, endpoints, names, answers, first, ready, started, collected,
}

started_collects : begin_collect host ready ≡ some started
unfolding model_runs
started_collects = refl

one_at_a_time : begin_collect host started ≡ none
unfolding model_runs
one_at_a_time = refl

-- The endpoint with a sample is active, and the other one is not.
collected_actives : map (λ s. s.active) (values collected.stats) ≡ true ∷ false ∷ []
unfolding model_runs
collected_actives = refl

collected_statuses :
    map (λ s. s.message) collected.collector_statuses
    ≡ text "2 routes from 1 project files" ∷ text "connection refused" ∷ text "1 sample" ∷ []
unfolding model_runs
collected_statuses = refl

merged_processes :
    map (λ e. map (λ p. p.name) e.process_list) collected.endpoints
    ≡ (text "client" ∷ text "server" ∷ []) ∷ (text "server" ∷ []) ∷ []
unfolding model_runs
merged_processes = refl

visible_order :
    map (λ e. e.url) (visible_endpoints host ready) ≡ text "dds://a" ∷ text "dds://b" ∷ []
unfolding model_runs
visible_order = refl

active_first :
    map (λ e. e.url) (visible_endpoints host collected) ≡ text "dds://b" ∷ text "dds://a" ∷ []
unfolding model_runs
active_first = refl

first-IsConsistent : IsConsistent first
unfolding new_model
first-IsConsistent = record {
  distinct_stats = tt;
  distinct_histories = tt;
  distinct_details = tt;
  honest = tt;
  short_histories = tt;
  short_details = tt;
}

abbrev ready_IsConsistent : IsConsistent ready
ready_IsConsistent =
    initialize-IsConsistent host 40000 endpoints (text "a.yaml" ∷ []) [] names first
      first-IsConsistent

abbrev started_IsConsistent : IsConsistent started
started_IsConsistent =
    begin_collect-IsConsistent host ready started started_collects ready_IsConsistent

abbrev started_tracked : All (IsTracked started) (urls started)
started_tracked =
    let (a, b, c, d, tracked) = begin_collect-IsTracked host ready started started_collects in
    tracked

begin_collect-IsTracked_example :
    (ready.paused ≡ false)
    × (ready.collecting ≡ false)
    × (started.collecting ≡ true)
    × (started.endpoints ≡ ready.endpoints)
    × All (IsTracked started) (urls started)
begin_collect-IsTracked_example = begin_collect-IsTracked host ready started started_collects

finish_collect-SameShape_example : SameShape started collected
finish_collect-SameShape_example = finish_collect-SameShape host 50100 answers started

finish_collect-IsCurrent_example : All (IsCurrent host 50100 collected) (urls started)
finish_collect-IsCurrent_example =
    finish_collect-IsCurrent host 50100 answers started started_tracked

finish_collect-Grows_example : Grows started collected
finish_collect-Grows_example = finish_collect-Grows host 50100 answers started

finish_collect-active_count_example :
    (collected.active_count
      ≡ active host (apply_snapshots host 50100 started started.collectors answers).stats)
    × (active host collected.stats ≤ collected.active_count)
finish_collect-active_count_example = finish_collect-active_count host 50100 answers started

abbrev old_processes : List (ProcessInfo ℕ)
old_processes = process_named (text "server") 7 ∷ process_named (text "client") 9 ∷ []

abbrev new_processes : List (ProcessInfo ℕ)
new_processes = process_named (text "client") 9 ∷ process_named (text "client") 3 ∷ []

merge_processes-IsMerge_example :
    IsMerge host (old_processes ++ new_processes) (merge_processes host old_processes new_processes)
merge_processes-IsMerge_example =
    merge_processes-IsMerge host old_processes new_processes lex_le-IsOrder

visible_endpoints-IsSorted_example :
    Perm (visible_endpoints host collected) (select (is_visible host collected) collected.endpoints)
    × ((e : EndpointInfo ℕ) → (is_visible host collected e ≡ true) ↔ IsListed host collected e)
    × (visible_endpoints host collected
        ≡ active_ones host collected (visible_endpoints host collected)
          ++ other_ones host collected (visible_endpoints host collected))
    × IsSorted (by_url host) (active_ones host collected (visible_endpoints host collected))
    × IsSorted (by_url host) (other_ones host collected (visible_endpoints host collected))
visible_endpoints-IsSorted_example = visible_endpoints-IsSorted host collected lex_le-IsOrder

shift_while-drop_example :
    shift_while 2 (text "abcd") ≡ drop (length (text "abcd") - 2) (text "abcd")
shift_while-drop_example = shift_while-drop 2 (text "abcd")

-- Without the endpoint that is not active.
active_alone :
    map
      (λ (e : EndpointInfo ℕ). e.url)
      (visible_endpoints host
        (record collected { options = record collected.options { active_mode = true } }))
    ≡ text "dds://b" ∷ []
unfolding model_runs
active_alone = refl
