-- ===== src/Monitor/Model/Shape.antt =====
-- Which endpoints and map keys the monitor has (monitor/pr-monitor/src/model.ts).
use robotics_pacific_rim.Base.{
  ℕ, ◌≡◌, refl, ap, sym, ◌∙◌, inl, inr, Bool, true, false, ◌&&◌, List, [], ◌∷◌, map, if◌then◌else◌,
  Bool-cases, Option-cases, is_some, Text, eq_text, has_text,
}
use robotics_pacific_rim.Base.Assoc.{Assoc, get, keys}
use robotics_pacific_rim.Monitor.Types.{
  ProcessInfo, EndpointInfo, CollectorSample, CollectorSnapshot, Host,
}
use robotics_pacific_rim.Monitor.Model.State.{MonitorModel, modify}
use robotics_pacific_rim.Monitor.Model.Sampling.{
  Settled, fulfilled, rejected, update_collector_status, apply_found, apply_sample, apply_samples,
  apply_snapshot, apply_snapshots, has_endpoint,
}
use robotics_pacific_rim.Monitor.Model.Collect.{
  refresh_totals, append_missing, append_missing_history, finish_collect, is_stale,
}
use robotics_pacific_rim.Monitor.Model.Maps.{keys-modify}
use robotics_pacific_rim.Monitor.Model.Sampling.{set_processes}

abbrev pub urls : {R : Type 0} → MonitorModel R → List Text
urls m = map (λ e. e.url) m.endpoints

-- What an endpoint is besides the processes that are found to use it.
abbrev pub without_processes : {R : Type 0} → EndpointInfo R → EndpointInfo R
without_processes e = record e { process_list = [] }

-- The same endpoints but for their processes, in order, and the same keys of the three maps, in
-- order.
pub record SameShape {R : Type 0} (m m' : MonitorModel R) : Type 0 where
  pub stats : keys m'.stats ≡ keys m.stats
  pub histories : keys m'.histories ≡ keys m.histories
  pub details : keys m'.details ≡ keys m.details
  pub endpoints : map without_processes m'.endpoints ≡ map without_processes m.endpoints

SameShape-trans :
    {R : Type 0} {a b c : MonitorModel R} → SameShape a b → SameShape b c → SameShape a c
SameShape-trans h k = record {
  stats = k.stats ∙ h.stats;
  histories = k.histories ∙ h.histories;
  details = k.details ∙ h.details;
  endpoints = k.endpoints ∙ h.endpoints;
}

SameShape-refl : {R : Type 0} (a : MonitorModel R) → SameShape a a
SameShape-refl a = record { stats = refl; histories = refl; details = refl; endpoints = refl }

pub urls-SameShape : {R : Type 0} (m m' : MonitorModel R) → SameShape m m' → urls m' ≡ urls m
urls-SameShape m m' s =
    urls_lem m'.endpoints ∙ ap (map (λ e. e.url)) s.endpoints ∙ sym (urls_lem m.endpoints)
  where
    urls_lem :
        {R : Type 0} (es : List (EndpointInfo R))
        → map (λ e. e.url) es ≡ map (λ e. e.url) (map without_processes es)
    urls_lem [] = refl
    urls_lem (e ∷ es) = ap (λ us. e.url ∷ us) (urls_lem es)

-- The endpoint of the URL has an entry in each of the three maps.
pub record IsTracked {R : Type 0} (m : MonitorModel R) (url : Text) : Type 0 where
  pub stats : has_text url (keys m.stats) ≡ true
  pub histories : has_text url (keys m.histories) ≡ true
  pub details : has_text url (keys m.details) ≡ true

pub IsTracked-SameShape :
    {R : Type 0} (m m' : MonitorModel R) (url : Text)
    → SameShape m m'
    → IsTracked m url
    → IsTracked m' url
IsTracked-SameShape m m' url s t = record {
  stats = rw s.stats t.stats;
  histories = rw s.histories t.histories;
  details = rw s.details t.details;
}

keys-modify_if :
    {V : Type 0} (b : Bool) (k : Text) (f : V → V) (m : Assoc V)
    → keys (if b then modify k f m else m) ≡ keys m
keys-modify_if true k f m = keys-modify k f m
keys-modify_if false k f m = refl

module _ (host : Host) where
  open host use {Real}

  without_processes-set_processes :
      (url : Text) (ps : List (ProcessInfo Real)) (es : List (EndpointInfo Real))
      → map without_processes (set_processes host url ps es) ≡ map without_processes es
  unfolding set_processes
  without_processes-set_processes url ps [] = refl
  without_processes-set_processes url ps (e ∷ es) = elim (Bool-cases (eq_text e.url url)) [
    | inl h ↦ rw h refl
    | inr h ↦ rw h (ap (λ us. without_processes e ∷ us) (without_processes-set_processes url ps es))
  ]

  apply_sample-SameShape :
      (m : MonitorModel Real) (sample : CollectorSample Real)
      → SameShape m (apply_sample host m sample)
  unfolding apply_sample apply_found
  apply_sample-SameShape m sample = elim (Bool-cases (has_endpoint host sample.url m.endpoints)) [
    | inr h ↦ rw h (SameShape-refl m)
    | inl h ↦ rw h (record {
      stats = keys-modify sample.url _ m.stats;
      histories = keys-modify_if _ sample.url _ m.histories;
      details = keys-modify_if _ sample.url _ m.details;
      endpoints = without_processes-set_processes sample.url _ m.endpoints;
    })
  ]

  apply_samples-SameShape :
      (m : MonitorModel Real) (samples : List (CollectorSample Real))
      → SameShape m (apply_samples host m samples)
  unfolding apply_samples
  apply_samples-SameShape m [] = SameShape-refl m
  apply_samples-SameShape m (s ∷ samples) =
      SameShape-trans (apply_sample-SameShape m s)
        (apply_samples-SameShape (apply_sample host m s) samples)

  apply_snapshot-SameShape :
      (now : ℕ) (m : MonitorModel Real) (name : Text) (s : Settled (CollectorSnapshot Real))
      → SameShape m (apply_snapshot host now m name s)
  unfolding apply_snapshot update_collector_status
  apply_snapshot-SameShape now m name (fulfilled s) =
      SameShape-trans (record { stats = refl; histories = refl; details = refl; endpoints = refl })
        (apply_samples-SameShape (update_collector_status host now name s.status m) s.samples)
  apply_snapshot-SameShape now m name (rejected reason) = record {
    stats = refl;
    histories = refl;
    details = refl;
    endpoints = refl;
  }

  pub apply_snapshots-SameShape :
      (now : ℕ) (m : MonitorModel Real) (names : List Text)
      (ss : List (Settled (CollectorSnapshot Real)))
      → SameShape m (apply_snapshots host now m names ss)
  unfolding apply_snapshots
  apply_snapshots-SameShape now m [] ss = SameShape-refl m
  apply_snapshots-SameShape now m (name ∷ names) [] = SameShape-refl m
  apply_snapshots-SameShape now m (name ∷ names) (s ∷ ss) =
      SameShape-trans (apply_snapshot-SameShape now m name s)
        (apply_snapshots-SameShape now (apply_snapshot host now m name s) names ss)

  pub append_missing-SameShape :
      (now : ℕ) (m : MonitorModel Real) (e : EndpointInfo Real)
      → SameShape m (append_missing host now m e)
  unfolding append_missing
  append_missing-SameShape now m e = elim (Option-cases (get e.url m.stats)) [
    | inl h ↦ rw (h, append_missing) (SameShape-refl m)
    | inr (s, h) ↦
        rw (h, append_missing)
          (elim (Bool-cases (is_some (get e.url m.histories) && is_stale host now s.last_seen_at)) [
            | inr k ↦ rw k (SameShape-refl m)
            | inl k ↦ rw k (record {
              stats = keys-modify e.url _ m.stats;
              histories = keys-modify e.url _ m.histories;
              details = refl;
              endpoints = refl;
            })
          ])
  ]

  append_missing_history-SameShape :
      (now : ℕ) (m : MonitorModel Real) (es : List (EndpointInfo Real))
      → SameShape m (append_missing_history host now m es)
  unfolding append_missing_history
  append_missing_history-SameShape now m [] = SameShape-refl m
  append_missing_history-SameShape now m (e ∷ es) =
      SameShape-trans (append_missing-SameShape now m e)
        (append_missing_history-SameShape now (append_missing host now m e) es)

  -- What the collectors answer changes of the endpoints nothing but the lists of their processes, and
  -- keeps the keys of the three maps.
  pub finish_collect-SameShape :
      (now : ℕ) (ss : List (Settled (CollectorSnapshot Real))) (m : MonitorModel Real)
      → SameShape m (finish_collect host now ss m)
  unfolding finish_collect refresh_totals
  finish_collect-SameShape now ss m =
      let a = apply_snapshots-SameShape now m m.collectors ss in
      let sampled = apply_snapshots host now m m.collectors ss in
      let b =
        append_missing_history-SameShape now (refresh_totals host sampled) sampled.endpoints in
      record {
        stats = b.stats ∙ a.stats;
        histories = b.histories ∙ a.histories;
        details = b.details ∙ a.details;
        endpoints = b.endpoints ∙ a.endpoints;
      }
