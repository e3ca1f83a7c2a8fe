-- ===== src/Monitor/Model/Preserved.antt =====
-- The invariant of the monitor's state holds through every collection (monitor/pr-monitor/src/model.ts).
use robotics_pacific_rim.Base.{
  ℕ, ◌≡◌, refl, inl, inr, true, ◌&&◌, ◌||◌, some, List, [], ◌∷◌, arith, Bool-cases, Option-cases,
  is_some, Text,
}
use robotics_pacific_rim.Base.Assoc.{get}
use robotics_pacific_rim.Monitor.Types.{
  EndpointInfo, EndpointStats, CollectorSample, CollectorSnapshot, Host,
}
use robotics_pacific_rim.Monitor.Model.State.{MonitorModel, modify}
use robotics_pacific_rim.Monitor.Model.Sampling.{
  Settled, fulfilled, rejected, ensure_endpoint_state, update_collector_status, apply_sample,
  apply_samples, apply_snapshot, apply_snapshots, has_endpoint,
}
use robotics_pacific_rim.Monitor.Model.Collect.{
  refresh_totals, append_missing, append_missing_history, rest_stats, add_tick, tick_all,
  begin_collect, finish_collect, ensure_all, initialize, is_stale,
}
use robotics_pacific_rim.Monitor.Model.Maps.{modify-Values}
use robotics_pacific_rim.Monitor.Model.Invariant.{
  IsWithin, IsHonest, IsConsistent, modify-HasDistinct, ensure_endpoint_state-IsConsistent,
  update_collector_status-IsConsistent, append_history-IsWithin, apply_found-IsConsistent,
}

module _ (host : Host) where
  open host use {Real, zero_real}

  apply_sample-IsConsistent :
      (m : MonitorModel Real) (sample : CollectorSample Real)
      → IsConsistent m
      → IsConsistent (apply_sample host m sample)
  unfolding apply_sample
  apply_sample-IsConsistent m sample c =
      elim (Bool-cases (has_endpoint host sample.url m.endpoints)) [
        | inl e ↦ rw e (apply_found-IsConsistent host sample m c)
        | inr e ↦ rw e c
      ]

  apply_samples-IsConsistent :
      (m : MonitorModel Real) (samples : List (CollectorSample Real))
      → IsConsistent m
      → IsConsistent (apply_samples host m samples)
  unfolding apply_samples
  apply_samples-IsConsistent m [] c = c
  apply_samples-IsConsistent m (s ∷ samples) c =
      apply_samples-IsConsistent (apply_sample host m s) samples (apply_sample-IsConsistent m s c)

  apply_snapshots-IsConsistent :
      (now : ℕ) (m : MonitorModel Real) (names : List Text)
      (snapshots : List (Settled (CollectorSnapshot Real)))
      → IsConsistent m
      → IsConsistent (apply_snapshots host now m names snapshots)
  unfolding apply_snapshots apply_snapshot
  apply_snapshots-IsConsistent now m [] snapshots c = c
  apply_snapshots-IsConsistent now m (name ∷ names) [] c = c
  apply_snapshots-IsConsistent now m (name ∷ names) (fulfilled s ∷ snapshots) c =
      apply_snapshots-IsConsistent now (apply_snapshot host now m name (fulfilled s)) names
        snapshots
        (apply_samples-IsConsistent (update_collector_status host now name s.status m) s.samples
          (update_collector_status-IsConsistent host now name s.status m c))
  apply_snapshots-IsConsistent now m (name ∷ names) (rejected reason ∷ snapshots) c =
      apply_snapshots-IsConsistent now (apply_snapshot host now m name (rejected reason)) names
        snapshots (update_collector_status-IsConsistent host now name _ m c)

  append_missing-IsConsistent :
      (now : ℕ) (m : MonitorModel Real) (e : EndpointInfo Real)
      → IsConsistent m
      → IsConsistent (append_missing host now m e)
  unfolding append_missing
  append_missing-IsConsistent now m e c = elim (Option-cases (get e.url m.stats)) [
    | inl none_there ↦ rw (none_there, append_missing) c
    | inr (s, there) ↦
        rw (there, append_missing)
          (elim (Bool-cases (is_some (get e.url m.histories) && is_stale host now s.last_seen_at)) [
            | inr fresh ↦ rw fresh c
            | inl stale ↦ rw stale (record {
              distinct_stats = modify-HasDistinct e.url rest_stats m.stats c.distinct_stats;
              distinct_histories = modify-HasDistinct e.url _ m.histories c.distinct_histories;
              distinct_details = c.distinct_details;
              honest = modify-Values IsHonest e.url rest_stats m.stats (λ v _ h. cc) c.honest;
              short_histories =
                  modify-Values (IsWithin _) e.url _ m.histories
                    (λ h _.
                      append_history-IsWithin host h zero_real zero_real zero_real zero_real
                        m.options.chart_width)
                    c.short_histories;
              short_details = c.short_details;
            })
          ])
  ]

  append_missing_history-IsConsistent :
      (now : ℕ) (m : MonitorModel Real) (es : List (EndpointInfo Real))
      → IsConsistent m
      → IsConsistent (append_missing_history host now m es)
  unfolding append_missing_history
  append_missing_history-IsConsistent now m [] c = c
  append_missing_history-IsConsistent now m (e ∷ es) c =
      append_missing_history-IsConsistent now (append_missing host now m e) es
        (append_missing-IsConsistent now m e c)

  add_tick-IsHonest : (s : EndpointStats Real) → IsHonest s → IsHonest (add_tick s)
  add_tick-IsHonest s h stable = let (active, ticks) = h stable in (active, omega arith)

  tick_all-IsConsistent :
      (m : MonitorModel Real) (es : List (EndpointInfo Real))
      → IsConsistent m
      → IsConsistent (tick_all host m es)
  unfolding tick_all
  tick_all-IsConsistent m [] c = c
  tick_all-IsConsistent m (e ∷ es) c =
      let ready = ensure_endpoint_state host m e in
      let r = ensure_endpoint_state-IsConsistent host m e c in
      tick_all-IsConsistent (record ready { stats = modify e.url add_tick ready.stats }) es
        (record {
          distinct_stats = modify-HasDistinct e.url add_tick ready.stats r.distinct_stats;
          distinct_histories = r.distinct_histories;
          distinct_details = r.distinct_details;
          honest = modify-Values IsHonest e.url add_tick ready.stats add_tick-IsHonest r.honest;
          short_histories = r.short_histories;
          short_details = r.short_details;
        })

  ensure_all-IsConsistent :
      (m : MonitorModel Real) (es : List (EndpointInfo Real))
      → IsConsistent m
      → IsConsistent (ensure_all host m es)
  unfolding ensure_all
  ensure_all-IsConsistent m [] c = c
  ensure_all-IsConsistent m (e ∷ es) c =
      ensure_all-IsConsistent (ensure_endpoint_state host m e) es
        (ensure_endpoint_state-IsConsistent host m e c)

  -- The invariant speaks of four fields alone.
  pub same_maps-IsConsistent :
      (m m' : MonitorModel Real)
      → m.stats ≡ m'.stats
      → m.histories ≡ m'.histories
      → m.details ≡ m'.details
      → m.options.chart_width ≡ m'.options.chart_width
      → IsConsistent m
      → IsConsistent m'
  same_maps-IsConsistent m m' es eh ed ew c = record {
    distinct_stats = rw (← es) c.distinct_stats;
    distinct_histories = rw (← eh) c.distinct_histories;
    distinct_details = rw (← ed) c.distinct_details;
    honest = rw (← es) c.honest;
    short_histories = rw (← eh, ← ew) c.short_histories;
    short_details = rw (← ed) c.short_details;
  }

  pub begin_collect-IsConsistent :
      (m m' : MonitorModel Real) → begin_collect host m ≡ some m' → IsConsistent m → IsConsistent m'
  unfolding begin_collect
  begin_collect-IsConsistent m m' h c = elim (Bool-cases (m.paused || m.collecting)) [
    | inl busy ↦ cc (rw busy at h)
    | inr free ↦
        let e : tick_all host (record m { collecting = true }) m.endpoints ≡ m' =
          cc (rw free at h) in
        rw (← e) (
          tick_all-IsConsistent (record m { collecting = true }) m.endpoints
            (same_maps-IsConsistent m _ refl refl refl refl c))
  ]

  pub finish_collect-IsConsistent :
      (now : ℕ) (snapshots : List (Settled (CollectorSnapshot Real))) (m : MonitorModel Real)
      → IsConsistent m
      → IsConsistent (finish_collect host now snapshots m)
  unfolding finish_collect refresh_totals
  finish_collect-IsConsistent now snapshots m c =
      let sampled = apply_snapshots-IsConsistent now m m.collectors snapshots c in
      let totals =
        same_maps-IsConsistent _
          (refresh_totals host (apply_snapshots host now m m.collectors snapshots)) refl refl refl
          refl sampled in
      let done = append_missing_history-IsConsistent now _ _ totals in
      same_maps-IsConsistent _ _ refl refl refl refl done

  pub initialize-IsConsistent :
      (now : ℕ) (endpoints : List (EndpointInfo Real)) (sources errors collectors : List Text)
      (m : MonitorModel Real)
      → IsConsistent m
      → IsConsistent (initialize host now endpoints sources errors collectors m)
  unfolding initialize
  initialize-IsConsistent now endpoints sources errors collectors m c =
      same_maps-IsConsistent _ _ refl refl refl refl
        (ensure_all-IsConsistent _ endpoints (same_maps-IsConsistent m _ refl refl refl refl c))
