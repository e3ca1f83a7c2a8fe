-- ===== src/Monitor/Model/Totals.antt =====
-- The totals of a collection (monitor/pr-monitor/src/model.ts).
use robotics_pacific_rim.Base.{
  ℕ, ◌≤◌, ◌≡◌, refl, ◌∙◌, inl, inr, ◌&&◌, List, [], ◌∷◌, arith, Bool-cases, Option-cases, is_some,
  Text, eq_text,
}
use robotics_pacific_rim.Base.Assoc.{Assoc, get, values}
use robotics_pacific_rim.Monitor.Types.{EndpointInfo, EndpointStats, CollectorSnapshot, Host}
use robotics_pacific_rim.Monitor.Model.State.{MonitorModel, modify}
use robotics_pacific_rim.Monitor.Model.Sampling.{Settled, apply_snapshots}
use robotics_pacific_rim.Monitor.Model.Collect.{
  refresh_totals, append_missing, append_missing_history, rest_stats, finish_collect, is_stale,
}
use robotics_pacific_rim.Monitor.Model.Collect.{count_active}

module _ (host : Host) where
  open host use {Real}

  abbrev pub active : Assoc (EndpointStats Real) → ℕ
  active m = count_active host (values m)

  active-modify-rest :
      (k : Text) (m : Assoc (EndpointStats Real)) → active (modify k rest_stats m) ≤ active m
  unfolding modify count_active
  active-modify-rest k [] = omega arith
  active-modify-rest k ((j, s) ∷ m) =
      let rest = active-modify-rest k m in
      elim (Bool-cases (eq_text j k)) [
        | inl h ↦ rw h (omega arith)
        | inr h ↦ rw h (omega (arith, rest))
      ]

  append_missing-active :
      (now : ℕ) (m : MonitorModel Real) (e : EndpointInfo Real)
      → (active (append_missing host now m e).stats ≤ active m.stats)
        × ((append_missing host now m e).active_count ≡ m.active_count)
  unfolding append_missing
  append_missing-active now m e = elim (Option-cases (get e.url m.stats)) [
    | inl none_there ↦ rw (none_there, append_missing) (omega arith, refl)
    | inr (s, there) ↦
        rw (there, append_missing)
          (elim (Bool-cases (is_some (get e.url m.histories) && is_stale host now s.last_seen_at)) [
            | inr fresh ↦ rw fresh (omega arith, refl)
            | inl stale ↦ rw stale (active-modify-rest e.url m.stats, refl)
          ])
  ]

  append_missing_history-active :
      (now : ℕ) (m : MonitorModel Real) (es : List (EndpointInfo Real))
      → (active (append_missing_history host now m es).stats ≤ active m.stats)
        × ((append_missing_history host now m es).active_count ≡ m.active_count)
  unfolding append_missing_history
  append_missing_history-active now m [] = (omega arith, refl)
  append_missing_history-active now m (e ∷ es) =
      let (less, same) = append_missing-active now m e in
      let (less_rest, same_rest) =
        append_missing_history-active now (append_missing host now m e) es in
      (omega (arith, less, less_rest), same_rest ∙ same)

  -- The active count that a collection leaves is the number of endpoints that were active after
  -- the samples, before the stale ones were put to rest: it is never below the number of active
  -- endpoints that the collection leaves.
  pub finish_collect-active_count :
      (now : ℕ) (ss : List (Settled (CollectorSnapshot Real))) (m : MonitorModel Real)
      → ((finish_collect host now ss m).active_count
          ≡ active (apply_snapshots host now m m.collectors ss).stats)
        × (active (finish_collect host now ss m).stats
            ≤ (finish_collect host now ss m).active_count)
  unfolding finish_collect refresh_totals
  finish_collect-active_count now ss m =
      let sampled = apply_snapshots host now m m.collectors ss in
      let (less, same) =
        append_missing_history-active now (refresh_totals host sampled) sampled.endpoints in
      (same, rw same less)
