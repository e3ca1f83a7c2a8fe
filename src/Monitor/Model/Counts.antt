-- ===== src/Monitor/Model/Counts.antt =====
-- The counters of an endpoint only grow (monitor/pr-monitor/src/model.ts).
use robotics_pacific_rim.Base.{
  ℕ, ◌≤◌, ◌≡◌, inl, inr, Bool, true, false, ◌&&◌, Option, none, some, List, [], ◌∷◌, arith,
  if◌then◌else◌, Bool-cases, Option-cases, is_some, Text, eq_text,
}
use robotics_pacific_rim.Base.Assoc.{Assoc, get}
use robotics_pacific_rim.Monitor.Types.{
  EndpointInfo, EndpointStats, CollectorSample, CollectorSnapshot, Host,
}
use robotics_pacific_rim.Monitor.Numbers.{
  is_not_below, is_not_below_refl, is_not_below_trans, add_number-max_zero,
}
use robotics_pacific_rim.Monitor.Model.State.{MonitorModel, modify}
use robotics_pacific_rim.Monitor.Model.Sampling.{
  Settled, fulfilled, rejected, update_collector_status, sampled_stats, apply_found, apply_sample,
  apply_samples, apply_snapshot, apply_snapshots, has_endpoint,
}
use robotics_pacific_rim.Monitor.Model.Collect.{
  refresh_totals, append_missing, append_missing_history, rest_stats, finish_collect, is_stale,
}
use mathlib.Core.Option
use robotics_pacific_rim.Monitor.Model.Maps.{get-modify}

-- The entry is still there, with no fewer ticks, and with a sequence number that is NaN or not below
-- the old one.
abbrev pub AtLeast : {R : Type 0} → Option (EndpointStats R) → Option (EndpointStats R) → Type 0
AtLeast none o = Unit
AtLeast (some s) none = ⊥
AtLeast (some s) (some s') = (is_not_below s.seq s'.seq ≡ true) × (s.ticks ≤ s'.ticks)

AtLeast-refl : {R : Type 0} (o : Option (EndpointStats R)) → AtLeast o o
AtLeast-refl none = tt
AtLeast-refl (some s) = (is_not_below_refl s.seq, omega arith)

AtLeast-trans :
    {R : Type 0} (a b c : Option (EndpointStats R)) → AtLeast a b → AtLeast b c → AtLeast a c
AtLeast-trans none b c h k = tt
AtLeast-trans (some s) none c h k = absurd h
AtLeast-trans (some s) (some t) none h k = absurd k
AtLeast-trans (some s) (some t) (some u) (p, q) (p', q') =
    (is_not_below_trans s.seq t.seq u.seq p p', omega arith)

abbrev pub Grows : {R : Type 0} → MonitorModel R → MonitorModel R → Type 0
Grows m m' = (url : Text) → AtLeast (get url m.stats) (get url m'.stats)

Grows-trans : {R : Type 0} (a b c : MonitorModel R) → Grows a b → Grows b c → Grows a c
Grows-trans a b c h k url =
    AtLeast-trans (get url a.stats) (get url b.stats) (get url c.stats) (h url) (k url)

-- An update that lowers neither counter.
abbrev IsRaise : {R : Type 0} → (EndpointStats R → EndpointStats R) → Type 0
IsRaise f = (s : _) → (is_not_below s.seq (f s).seq ≡ true) × (s.ticks ≤ (f s).ticks)

AtLeast-map :
    {R : Type 0} (b : Bool) (f : EndpointStats R → EndpointStats R) (o : Option (EndpointStats R))
    → IsRaise f
    → AtLeast o (if b then Option.map f o else o)
AtLeast-map b f none r = tt
AtLeast-map true f (some s) r = r s
AtLeast-map false f (some s) r = (is_not_below_refl s.seq, omega arith)

modify-AtLeast :
    {R : Type 0} (k url : Text) (f : EndpointStats R → EndpointStats R)
    (m : Assoc (EndpointStats R))
    → IsRaise f
    → AtLeast (get url m) (get url (modify k f m))
modify-AtLeast k url f m r = rw (get-modify k url f m) (AtLeast-map (eq_text k url) f (get url m) r)

module _ (host : Host) where
  open host use {Real}

  apply_sample-Grows :
      (m : MonitorModel Real) (sample : CollectorSample Real) → Grows m (apply_sample host m sample)
  unfolding apply_sample apply_found sampled_stats
  apply_sample-Grows m sample url = elim (Bool-cases (has_endpoint host sample.url m.endpoints)) [
    | inr h ↦ rw h (AtLeast-refl (get url m.stats))
    | inl h ↦
        rw h (
          modify-AtLeast sample.url url _ m.stats (λ s. (add_number-max_zero s.seq _, omega arith)))
  ]

  apply_samples-Grows :
      (m : MonitorModel Real) (ss : List (CollectorSample Real)) → Grows m (apply_samples host m ss)
  unfolding apply_samples
  apply_samples-Grows m [] url = AtLeast-refl (get url m.stats)
  apply_samples-Grows m (s ∷ ss) url =
      let next = apply_sample host m s in
      Grows-trans m next (apply_samples host next ss) (apply_sample-Grows m s)
        (apply_samples-Grows next ss) url

  apply_snapshot-Grows :
      (now : ℕ) (m : MonitorModel Real) (name : Text) (s : Settled (CollectorSnapshot Real))
      → Grows m (apply_snapshot host now m name s)
  unfolding apply_snapshot update_collector_status
  apply_snapshot-Grows now m name (fulfilled s) url =
      apply_samples-Grows (update_collector_status host now name s.status m) s.samples url
  apply_snapshot-Grows now m name (rejected reason) url = AtLeast-refl (get url m.stats)

  apply_snapshots-Grows :
      (now : ℕ) (m : MonitorModel Real) (names : List Text)
      (ss : List (Settled (CollectorSnapshot Real)))
      → Grows m (apply_snapshots host now m names ss)
  unfolding apply_snapshots
  apply_snapshots-Grows now m [] ss url = AtLeast-refl (get url m.stats)
  apply_snapshots-Grows now m (name ∷ names) [] url = AtLeast-refl (get url m.stats)
  apply_snapshots-Grows now m (name ∷ names) (s ∷ ss) url =
      let next = apply_snapshot host now m name s in
      Grows-trans m next (apply_snapshots host now next names ss)
        (apply_snapshot-Grows now m name s) (apply_snapshots-Grows now next names ss) url

  append_missing-Grows :
      (now : ℕ) (m : MonitorModel Real) (e : EndpointInfo Real)
      → Grows m (append_missing host now m e)
  unfolding append_missing
  append_missing-Grows now m e url = elim (Option-cases (get e.url m.stats)) [
    | inl h ↦ rw (h, append_missing) (AtLeast-refl (get url m.stats))
    | inr (v, h) ↦
        rw (h, append_missing)
          (elim (Bool-cases (is_some (get e.url m.histories) && is_stale host now v.last_seen_at)) [
            | inr k ↦ rw k (AtLeast-refl (get url m.stats))
            | inl k ↦ rw k (
                modify-AtLeast e.url url rest_stats m.stats
                  (λ s. (is_not_below_refl s.seq, omega arith)))
          ])
  ]

  append_missing_history-Grows :
      (now : ℕ) (m : MonitorModel Real) (es : List (EndpointInfo Real))
      → Grows m (append_missing_history host now m es)
  unfolding append_missing_history
  append_missing_history-Grows now m [] url = AtLeast-refl (get url m.stats)
  append_missing_history-Grows now m (e ∷ es) url =
      let next = append_missing host now m e in
      Grows-trans m next (append_missing_history host now next es) (append_missing-Grows now m e)
        (append_missing_history-Grows now next es) url

  -- Whatever the collectors answer, the end of a collection drops no statistics, lowers no number of
  -- ticks, and lowers no sequence number, which may become NaN.
  pub finish_collect-Grows :
      (now : ℕ) (ss : List (Settled (CollectorSnapshot Real))) (m : MonitorModel Real)
      → Grows m (finish_collect host now ss m)
  unfolding finish_collect refresh_totals
  finish_collect-Grows now ss m =
      let sampled = apply_snapshots host now m m.collectors ss in
      let totals = refresh_totals host sampled in
      Grows-trans m totals (append_missing_history host now totals sampled.endpoints)
        (apply_snapshots-Grows now m m.collectors ss)
        (append_missing_history-Grows now totals sampled.endpoints)
