-- ===== src/Monitor/Model/Runs.antt =====
-- What tests that run the monitor's model unfold (monitor/pr-monitor/src/model.ts).
use robotics_pacific_rim.Base.{string_runs}
use robotics_pacific_rim.Base.Assoc.{get, put}
use robotics_pacific_rim.Monitor.Model.State.{shift_while, modify, ensure_key, empty_history}
use robotics_pacific_rim.Monitor.Model.Sampling.{
  zero_stats, ensure_endpoint_state, update_collector_status, append_history, append_history_sample,
  append_detail, sampled_stats, apply_found, apply_sample, apply_samples, apply_snapshot,
  apply_snapshots, has_observed_value, has_endpoint,
}
use robotics_pacific_rim.Monitor.Model.Collect.{
  refresh_totals, append_missing, append_missing_history, tick_all, begin_collect, finish_collect,
  ensure_all, initialize, is_stale,
}
use robotics_pacific_rim.Base.Sort.{sort, insert}
use robotics_pacific_rim.Base.Decimal.{show_nat}
use robotics_pacific_rim.Base.Locale.{lex_le}
use robotics_pacific_rim.Monitor.Model.State.{new_model}
use robotics_pacific_rim.Monitor.Model.Sampling.{
  update_status, process_key, merge_into, by_process, merge_processes, set_processes,
}
use robotics_pacific_rim.Monitor.Model.Collect.{count_active, sum_rates}
use robotics_pacific_rim.Monitor.Model.View.{
  split_pieces, split_filter, haystack, is_active, passes_urls, matches_term, passes_terms,
  passes_pubsub, is_visible, by_activity, visible_endpoints,
}

-- To be unfolded by tests that run this code.
unfoldable pub model_runs : Unit {0}
unfolding string_runs get put sort insert show_nat lex_le shift_while modify ensure_key
    empty_history new_model update_status zero_stats ensure_endpoint_state update_collector_status
    has_observed_value process_key merge_into by_process merge_processes append_history
    append_history_sample append_detail sampled_stats set_processes apply_found has_endpoint
    apply_sample apply_samples apply_snapshot apply_snapshots count_active sum_rates refresh_totals
    is_stale append_missing append_missing_history tick_all begin_collect finish_collect ensure_all
    initialize split_pieces split_filter haystack is_active passes_urls matches_term passes_terms
    passes_pubsub is_visible by_activity visible_endpoints
model_runs = tt
