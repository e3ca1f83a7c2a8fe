-- ===== src/Monitor/Model/Options.antt =====
-- Collecting leaves the options alone (monitor/pr-monitor/src/model.ts).
use robotics_pacific_rim.Base.{
  ℕ, ◌≡◌, refl, ◌∙◌, inl, inr, true, ◌||◌, some, List, [], ◌∷◌, arith, Bool-cases, Text,
}
use robotics_pacific_rim.Monitor.Types.{EndpointInfo, CollectorSnapshot, CollectorSample, Host}
use robotics_pacific_rim.Monitor.Model.State.{MonitorModel, modify}
use robotics_pacific_rim.Monitor.Model.Sampling.{
  Settled, fulfilled, rejected, ensure_endpoint_state, apply_snapshots, apply_snapshot,
  apply_samples, apply_sample, apply_found, update_collector_status,
}
use robotics_pacific_rim.Monitor.Model.Collect.{
  begin_collect, finish_collect, ensure_all, tick_all, append_missing_history, append_missing,
  refresh_totals, add_tick,
}

module _ (host : Host) where
  open host use {Real}

  pub options-ensure_all :
      (m : MonitorModel Real) (es : List (EndpointInfo Real))
      → (ensure_all host m es).options ≡ m.options
  unfolding ensure_all ensure_endpoint_state
  options-ensure_all m [] = refl
  options-ensure_all m (e ∷ es) = options-ensure_all (ensure_endpoint_state host m e) es

  options-tick_all :
      (m : MonitorModel Real) (es : List (EndpointInfo Real))
      → (tick_all host m es).options ≡ m.options
  unfolding tick_all ensure_endpoint_state
  options-tick_all m [] = refl
  options-tick_all m (e ∷ es) =
      let ready = ensure_endpoint_state host m e in
      options-tick_all (record ready { stats = modify e.url add_tick ready.stats }) es

  pub options-begin_collect :
      (m m' : MonitorModel Real) → begin_collect host m ≡ some m' → m'.options ≡ m.options
  unfolding begin_collect
  options-begin_collect m m' h = elim (Bool-cases (m.paused || m.collecting)) [
    | inl busy ↦ cc (rw busy at h)
    | inr free ↦
        let marked = record m { collecting = true } in
        let e : tick_all host marked m.endpoints ≡ m' = cc (rw free at h) in
        rw (← e) (options-tick_all marked m.endpoints)
  ]

  options-apply_sample :
      (m : MonitorModel Real) (s : CollectorSample Real)
      → (apply_sample host m s).options ≡ m.options
  unfolding apply_sample apply_found
  options-apply_sample m s = ground arith

  options-apply_samples :
      (m : MonitorModel Real) (samples : List (CollectorSample Real))
      → (apply_samples host m samples).options ≡ m.options
  unfolding apply_samples
  options-apply_samples m [] = refl
  options-apply_samples m (s ∷ samples) =
      options-apply_samples (apply_sample host m s) samples ∙ options-apply_sample m s

  options-apply_snapshots :
      (now : ℕ) (m : MonitorModel Real) (names : List Text)
      (ss : List (Settled (CollectorSnapshot Real)))
      → (apply_snapshots host now m names ss).options ≡ m.options
  unfolding apply_snapshots apply_snapshot update_collector_status
  options-apply_snapshots now m [] ss = refl
  options-apply_snapshots now m (name ∷ names) [] = refl
  options-apply_snapshots now m (name ∷ names) (fulfilled s ∷ ss) =
      options-apply_snapshots now (apply_snapshot host now m name (fulfilled s)) names ss
      ∙ options-apply_samples _ s.samples
  options-apply_snapshots now m (name ∷ names) (rejected reason ∷ ss) =
      options-apply_snapshots now (apply_snapshot host now m name (rejected reason)) names ss

  options-append_missing :
      (now : ℕ) (m : MonitorModel Real) (e : EndpointInfo Real)
      → (append_missing host now m e).options ≡ m.options
  unfolding append_missing
  options-append_missing now m e = ground arith

  options-append_missing_history :
      (now : ℕ) (m : MonitorModel Real) (es : List (EndpointInfo Real))
      → (append_missing_history host now m es).options ≡ m.options
  unfolding append_missing_history
  options-append_missing_history now m [] = refl
  options-append_missing_history now m (e ∷ es) =
      options-append_missing_history now (append_missing host now m e) es
      ∙ options-append_missing now m e

  pub options-finish_collect :
      (now : ℕ) (ss : List (Settled (CollectorSnapshot Real))) (m : MonitorModel Real)
      → (finish_collect host now ss m).options ≡ m.options
  unfolding finish_collect refresh_totals
  options-finish_collect now ss m =
      options-append_missing_history now _ _ ∙ options-apply_snapshots now m m.collectors ss
