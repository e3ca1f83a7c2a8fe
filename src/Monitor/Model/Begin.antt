-- ===== src/Monitor/Model/Begin.antt =====
-- What the start of a collection does (monitor/pr-monitor/src/model.ts).
use robotics_pacific_rim.Base.{
  ◌≡◌, refl, sym, subst, inl, inr, true, false, ◌||◌, some, List, [], ◌∷◌, map, arith, Bool-cases,
  All, Text, eq_text_refl, has_text,
}
use robotics_pacific_rim.Base.Assoc.{Assoc, keys}
use robotics_pacific_rim.Monitor.Types.{EndpointInfo, Host}
use robotics_pacific_rim.Monitor.Model.State.{MonitorModel, modify, ensure_key}
use robotics_pacific_rim.Monitor.Model.Sampling.{zero_stats, ensure_endpoint_state}
use robotics_pacific_rim.Monitor.Model.Collect.{add_tick, tick_all, begin_collect}
use robotics_pacific_rim.Monitor.Model.Maps.{keys-modify}
use robotics_pacific_rim.Monitor.Model.Maps.{has-keys-ensure}
use robotics_pacific_rim.Monitor.Model.Shape.{urls, IsTracked}

module _ (host : Host) where
  open host use {Real}

  -- One round of the loop over the endpoints.
  tick_one : MonitorModel Real → EndpointInfo Real → MonitorModel Real
  tick_one m e =
      let ready = ensure_endpoint_state host m e in
      record ready { stats = modify e.url add_tick ready.stats }

  has_key :
      {V : Type 0} (k j : Text) (v : V) (m : Assoc V)
      → has_text j (keys m) ≡ true
      → has_text j (keys (ensure_key k v m)) ≡ true
  has_key k j v m h = rw (has-keys-ensure k j v m) (ground arith)

  has_key_self :
      {V : Type 0} (k : Text) (v : V) (m : Assoc V) → has_text k (keys (ensure_key k v m)) ≡ true
  has_key_self k v m = rw (has-keys-ensure k k v m, eq_text_refl k) refl

  tick_one-IsTracked :
      (m : MonitorModel Real) (e : EndpointInfo Real) (url : Text)
      → IsTracked m url
      → IsTracked (tick_one m e) url
  unfolding tick_one ensure_endpoint_state
  tick_one-IsTracked m e url t = record {
    stats =
        rw (keys-modify e.url add_tick (ensure_key e.url (zero_stats host) m.stats))
          (has_key e.url url _ m.stats t.stats);
    histories = has_key e.url url _ m.histories t.histories;
    details = has_key e.url url _ m.details t.details;
  }

  tick_one-IsTracked_self :
      (m : MonitorModel Real) (e : EndpointInfo Real) → IsTracked (tick_one m e) e.url
  unfolding tick_one ensure_endpoint_state
  tick_one-IsTracked_self m e = record {
    stats =
        rw (keys-modify e.url add_tick (ensure_key e.url (zero_stats host) m.stats))
          (has_key_self e.url _ m.stats);
    histories = has_key_self e.url _ m.histories;
    details = has_key_self e.url _ m.details;
  }

  tick_all-IsTracked :
      (m : MonitorModel Real) (es : List (EndpointInfo Real)) (url : Text)
      → IsTracked m url
      → IsTracked (tick_all host m es) url
  unfolding tick_all tick_one
  tick_all-IsTracked m [] url t = t
  tick_all-IsTracked m (e ∷ es) url t =
      tick_all-IsTracked (tick_one m e) es url (tick_one-IsTracked m e url t)

  tick_all-all :
      (m : MonitorModel Real) (es : List (EndpointInfo Real))
      → All (IsTracked (tick_all host m es)) (map (λ e. e.url) es)
  unfolding tick_all tick_one
  tick_all-all m [] = tt
  tick_all-all m (e ∷ es) = (
    tick_all-IsTracked (tick_one m e) es e.url (tick_one-IsTracked_self m e),
    tick_all-all (tick_one m e) es,
  )

  endpoints-tick_all :
      (m : MonitorModel Real) (es : List (EndpointInfo Real))
      → (tick_all host m es).endpoints ≡ m.endpoints
  unfolding tick_all ensure_endpoint_state tick_one
  endpoints-tick_all m [] = refl
  endpoints-tick_all m (e ∷ es) = endpoints-tick_all (tick_one m e) es

  collecting-tick_all :
      (m : MonitorModel Real) (es : List (EndpointInfo Real))
      → (tick_all host m es).collecting ≡ m.collecting
  unfolding tick_all ensure_endpoint_state tick_one
  collecting-tick_all m [] = refl
  collecting-tick_all m (e ∷ es) = collecting-tick_all (tick_one m e) es

  -- A collection that starts has found the monitor neither paused nor collecting, marks it as
  -- collecting, keeps its endpoints, and tracks each of them from then on.
  pub begin_collect-IsTracked :
      (m m' : MonitorModel Real)
      → begin_collect host m ≡ some m'
      → (m.paused ≡ false)
        × (m.collecting ≡ false)
        × (m'.collecting ≡ true)
        × (m'.endpoints ≡ m.endpoints)
        × All (IsTracked m') (urls m')
  unfolding begin_collect
  begin_collect-IsTracked m m' h = elim (Bool-cases (m.paused || m.collecting)) [
    | inl busy ↦ cc (rw busy at h)
    | inr free ↦
        let marked = record m { collecting = true } in
        let e : tick_all host marked m.endpoints ≡ m' = cc (rw free at h) in
        let ticked = tick_all host marked m.endpoints in
        let tracked : All (IsTracked ticked) (urls ticked) =
          subst (λ es. All (IsTracked ticked) (map (λ f. f.url) es))
            (sym (endpoints-tick_all marked m.endpoints)) (tick_all-all marked m.endpoints) in
        (
          ground arith,
          ground arith,
          rw (← e) (collecting-tick_all marked m.endpoints),
          rw (← e) (endpoints-tick_all marked m.endpoints),
          subst (λ x. All (IsTracked x) (urls x)) e tracked,
        )
  ]
