-- ===== src/Monitor/Model/Stale.antt =====
-- Endpoints that were not seen for ten seconds (monitor/pr-monitor/src/model.ts).
use robotics_pacific_rim.Base.{
  ℕ, ◌≡◌, ◌∙◌, inl, inr, true, false, ◌&&◌, Option, none, some, List, [], ◌∷◌, map, arith,
  Bool-cases, Option-cases, is_some, All, Text, eq_text, eq_text_refl, has_text,
}
use robotics_pacific_rim.Base.Assoc.{get, keys}
use robotics_pacific_rim.Monitor.Types.{EndpointInfo, EndpointStats, CollectorSnapshot, Host}
use robotics_pacific_rim.Monitor.Model.State.{MonitorModel}
use robotics_pacific_rim.Monitor.Model.Sampling.{Settled, apply_snapshots}
use robotics_pacific_rim.Monitor.Model.Collect.{
  refresh_totals, append_missing, append_missing_history, rest_stats, finish_collect, is_stale,
}
use mathlib.Core.Option
use robotics_pacific_rim.Monitor.Model.Maps.{get-modify, is_some-get}
use robotics_pacific_rim.Monitor.Model.Shape.{
  urls, urls-SameShape, IsTracked, append_missing-SameShape, apply_snapshots-SameShape,
}

abbrev pub IsResting : {R : Type 0} → EndpointStats R → Type 0
IsResting s = (s.active ≡ false) × (s.stable ≡ false)

rest-IsResting :
    {R : Type 0} (o : Option (EndpointStats R)) (s : EndpointStats R)
    → Option.map rest_stats o ≡ some s
    → IsResting s
rest-IsResting none s h = cc
rest-IsResting (some v) s h = (ground arith, ground arith)

module _ (host : Host) (now : ℕ) where
  open host use {Real}

  -- If the endpoint of the URL was last seen more than ten seconds ago, or never, it is shown as
  -- neither active nor stable.
  abbrev pub IsCurrent : MonitorModel Real → Text → Type 0
  IsCurrent m url =
      (s : EndpointStats Real)
      → get url m.stats ≡ some s
      → is_stale host now s.last_seen_at ≡ true
      → IsResting s

  append_missing-IsCurrent :
      (m : MonitorModel Real) (e : EndpointInfo Real) (url : Text)
      → IsCurrent m url
      → IsCurrent (append_missing host now m e) url
  unfolding append_missing
  append_missing-IsCurrent m e url c = elim (Option-cases (get e.url m.stats)) [
    | inl h ↦ rw (h, append_missing) c
    | inr (v, h) ↦
        rw (h, append_missing)
          (elim (Bool-cases (is_some (get e.url m.histories) && is_stale host now v.last_seen_at)) [
            | inr k ↦ rw k c
            | inl k ↦ rw k (λ s p stale. elim (Bool-cases (eq_text e.url url)) [
              | inl same ↦
                  rest-IsResting (get url m.stats) s
                    (rw (get-modify e.url url rest_stats m.stats, same) at p)
              | inr other ↦ c s (rw (get-modify e.url url rest_stats m.stats, other) at p) stale
            ])
          ])
  ]

  append_missing-IsCurrent_self :
      (m : MonitorModel Real) (e : EndpointInfo Real)
      → has_text e.url (keys m.histories) ≡ true
      → IsCurrent (append_missing host now m e) e.url
  unfolding append_missing
  append_missing-IsCurrent_self m e t =
      let history : is_some (get e.url m.histories) ≡ true = is_some-get e.url m.histories ∙ t in
      elim (Option-cases (get e.url m.stats)) [
        | inl h ↦ rw (h, append_missing) (λ s p stale. cc (p, h))
        | inr (v, h) ↦
            rw (h, append_missing)
              (elim (Bool-cases (is_stale host now v.last_seen_at)) [
                | inr k ↦
                    rw (history, k)
                      (λ s p stale. let e : v ≡ s = cc (p, h) in cc (rw e at k, stale))
                | inl k ↦
                    rw (history, k)
                      (λ s p stale.
                        rest-IsResting (get e.url m.stats) s
                          (rw (get-modify e.url e.url rest_stats m.stats, eq_text_refl e.url) at p))
              ])
      ]

  AllCurrent : MonitorModel Real → List (EndpointInfo Real) → Type 0
  AllCurrent m es = All (λ e. IsCurrent m e.url) es

  append_missing_history-IsCurrent :
      (m : MonitorModel Real) (es : List (EndpointInfo Real)) (url : Text)
      → IsCurrent m url
      → IsCurrent (append_missing_history host now m es) url
  unfolding append_missing_history
  append_missing_history-IsCurrent m [] url c = c
  append_missing_history-IsCurrent m (e ∷ es) url c =
      append_missing_history-IsCurrent (append_missing host now m e) es url
        (append_missing-IsCurrent m e url c)

  append_missing_history-all :
      (m : MonitorModel Real) (es : List (EndpointInfo Real))
      → All (λ e. has_text e.url (keys m.histories) ≡ true) es
      → All (λ e. IsCurrent (append_missing_history host now m es) e.url) es
  unfolding append_missing_history
  append_missing_history-all m [] h = tt
  append_missing_history-all m (e ∷ es) (t, h) = (
    append_missing_history-IsCurrent (append_missing host now m e) es e.url
        (append_missing-IsCurrent_self m e t),
    append_missing_history-all (append_missing host now m e) es (moved es h),
  )
    where
      moved :
          (fs : List (EndpointInfo Real))
          → All (λ f. has_text f.url (keys m.histories) ≡ true) fs
          → All (λ f. has_text f.url (keys (append_missing host now m e).histories) ≡ true) fs
      moved fs h = rw (append_missing-SameShape host now m e).histories h

All-map {ℓ κ μ} :
    {A : Type ℓ} {B : Type κ} (P : B → Type μ) (f : A → B) (xs : List A)
    → All P (map f xs)
    → All (λ x. P (f x)) xs
All-map P f [] h = tt
All-map P f (x ∷ xs) (p, h) = (p, All-map P f xs h)

map-All {ℓ κ μ} :
    {A : Type ℓ} {B : Type κ} (P : B → Type μ) (f : A → B) (xs : List A)
    → All (λ x. P (f x)) xs
    → All P (map f xs)
map-All P f [] h = tt
map-All P f (x ∷ xs) (p, h) = (p, map-All P f xs h)

All-imp {ℓ κ μ} :
    {A : Type ℓ} (P : A → Type κ) (Q : A → Type μ) (xs : List A)
    → ((x : A) → P x → Q x)
    → All P xs
    → All Q xs
All-imp P Q [] f h = tt
All-imp P Q (x ∷ xs) f (p, h) = (f x p, All-imp P Q xs f h)

-- When a collection ends, every tracked endpoint that was last seen more than ten seconds before,
-- or never, is shown as neither active nor stable, whatever the collectors answered.
pub finish_collect-IsCurrent :
    (host : Host) (now : ℕ) (ss : List (Settled (CollectorSnapshot host.Real)))
    (m : MonitorModel host.Real)
    → All (IsTracked m) (urls m)
    → All (IsCurrent host now (finish_collect host now ss m)) (urls m)
unfolding finish_collect refresh_totals
finish_collect-IsCurrent host now ss m tracked =
    let sampled = apply_snapshots host now m m.collectors ss in
    let shape = apply_snapshots-SameShape host now m m.collectors ss in
    let same_urls = urls-SameShape m sampled shape in
    let histories : All (λ u. has_text u (keys sampled.histories) ≡ true) (urls sampled) =
      rw same_urls
        (All-imp (IsTracked m) _ (urls m) (λ u t. rw shape.histories t.histories) tracked) in
    let totals = refresh_totals host sampled in
    let all = append_missing_history-all host now totals sampled.endpoints (
      All-map (λ u. has_text u (keys sampled.histories) ≡ true) (λ e. e.url) sampled.endpoints
        histories) in
    rw (← same_urls) (
      map-All (IsCurrent host now (append_missing_history host now totals sampled.endpoints))
        (λ e. e.url) sampled.endpoints all)
