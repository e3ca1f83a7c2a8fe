-- ===== src/Monitor/Model/Collect.antt =====
-- Collecting: MonitorModel.initialize and collect (monitor/pr-monitor/src/model.ts). The clock is an
-- argument, `now`; the collectors' answers are the argument `snapshots`.
use robotics_pacific_rim.Base.{
  ℕ, zero, suc, ◌+◌, ◌-◌, Bool, true, false, not, ◌&&◌, ◌||◌, Option, none, some, List, [], ◌∷◌,
  ◌++◌, map, ltb, if◌then◌else◌, is_some, length, Text, text, is_empty,
}
use robotics_pacific_rim.Base.Assoc.{get, values}
use robotics_pacific_rim.Base.Decimal.{show_nat}
use robotics_pacific_rim.Monitor.Types.{EndpointInfo, EndpointStats, CollectorSnapshot, Host}
use robotics_pacific_rim.Monitor.Model.State.{MonitorModel, modify}
use robotics_pacific_rim.Monitor.Model.Sampling.{
  Settled, append_history, apply_snapshots, ensure_endpoint_state,
}

abbrev pub rest_stats : {R : Type 0} → EndpointStats R → EndpointStats R
rest_stats stats = record stats { active = false; stable = false }

abbrev pub add_tick : {R : Type 0} → EndpointStats R → EndpointStats R
add_tick stats = record stats { ticks = stats.ticks + 1 }

module _ (host : Host) where
  open host use {Real, zero_real, add_real, is_positive, time_string, locale_le}

  unfoldable pub count_active : List (EndpointStats Real) → ℕ
  count_active [] = 0
  count_active (s ∷ ss) = (if s.active then 1 else 0) + count_active ss

  unfoldable pub sum_rates : Real → List (EndpointStats Real) → Real
  sum_rates total [] = total
  sum_rates total (s ∷ ss) = sum_rates (elim s.rate [ none ↦ total | some r ↦ add_real total r ]) ss

  unfoldable pub refresh_totals : MonitorModel Real → MonitorModel Real
  refresh_totals m = record m {
    active_count = count_active (values m.stats);
    total_rate = sum_rates zero_real (values m.stats);
  }

  -- `!stats.lastSeenAt || now - stats.lastSeenAt > 10_000`.
  unfoldable pub is_stale : ℕ → Option ℕ → Bool
  is_stale now none = true
  is_stale now (some zero) = true
  is_stale now (some (suc t)) = ltb 10000 (now - suc t)

  unfoldable pub append_missing : ℕ → MonitorModel Real → EndpointInfo Real → MonitorModel Real
  append_missing now m endpoint = elim (get endpoint.url m.stats) [
    | none ↦ m
    | some stats ↦
        if is_some (get endpoint.url m.histories) && is_stale now stats.last_seen_at
        then record m {
          stats = modify endpoint.url rest_stats m.stats;
          histories =
              modify endpoint.url
                (λ history.
                  append_history host history zero_real zero_real zero_real zero_real
                    m.options.chart_width)
                m.histories;
        }
        else m
  ]

  unfoldable pub append_missing_history :
      ℕ → MonitorModel Real → List (EndpointInfo Real) → MonitorModel Real
  append_missing_history now m [] = m
  append_missing_history now m (e ∷ es) = append_missing_history now (append_missing now m e) es

  unfoldable pub tick_all : MonitorModel Real → List (EndpointInfo Real) → MonitorModel Real
  tick_all m [] = m
  tick_all m (e ∷ es) =
      let ready = ensure_endpoint_state host m e in
      tick_all (record ready { stats = modify e.url add_tick ready.stats }) es

  -- `collect` up to its `await`: nothing happens while the monitor is paused or a collection runs.
  unfoldable pub begin_collect : MonitorModel Real → Option (MonitorModel Real)
  begin_collect m =
      if m.paused || m.collecting
      then none
      else some (tick_all (record m { collecting = true }) m.endpoints)

  -- `collect` from its `await` on, to the `finally`.
  unfoldable pub finish_collect :
      ℕ → List (Settled (CollectorSnapshot Real)) → MonitorModel Real → MonitorModel Real
  finish_collect now snapshots m =
      let sampled = apply_snapshots host now m m.collectors snapshots in
      let totals = refresh_totals sampled in
      let done = append_missing_history now totals totals.endpoints in
      record done { collecting = false }

  unfoldable pub ensure_all : MonitorModel Real → List (EndpointInfo Real) → MonitorModel Real
  ensure_all m [] = m
  ensure_all m (e ∷ es) = ensure_all (ensure_endpoint_state host m e) es

  -- `initialize`, from the discovered endpoints, sources and errors and the collectors' names.
  unfoldable pub initialize :
      ℕ
      → List (EndpointInfo Real)
      → List Text
      → List Text
      → List Text
      → MonitorModel Real
      → MonitorModel Real
  initialize now endpoints sources errors collectors m =
      let status =
        show_nat (length endpoints)
        ++ (text " routes from "
            ++ (show_nat (length sources)
                ++ (text " project files"
                    ++ (if is_empty errors
                        then []
                        else text " ("
                          ++ (show_nat (length errors) ++ text " parse warnings)"))))) in
      let ready =
        ensure_all (record m { endpoints = endpoints; discovery_status = status }) endpoints in
      record ready {
        collectors = collectors;
        collector_statuses =
            record {
              name = text "discovery";
              is_ok = not (is_empty endpoints);
              message = status;
              updated_at = now;
            }
            ∷ map
                (λ name. record {
                  name = name;
                  is_ok = false;
                  message = text "waiting for first sample";
                  updated_at = 0;
                })
                collectors;
      }
