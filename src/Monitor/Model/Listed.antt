-- ===== src/Monitor/Model/Listed.antt =====
-- The list of endpoints that the monitor shows, and its order (monitor/pr-monitor/src/model.ts).
use robotics_pacific_rim.Base.{
  ◌≡◌, ◌≢◌, ◌⊎◌, ◌↔◌, refl, ap, inl, inr, All, Bool-cases, Bool, true, false, not, ◌&&◌, ◌||◌, List,
  [], ◌∷◌, ◌++◌, arith, if◌then◌else◌, select, has_text, is_empty,
}
use robotics_pacific_rim.Monitor.Types.{EndpointInfo, Host, publisher, subscriber, has_bits}
use robotics_pacific_rim.Monitor.Model.State.{MonitorModel}
use mathlib.Core.List.{Perm}
use robotics_pacific_rim.Base.Sort.{IsSorted, IsOrder, sort-IsSorted, sort-perm}
use robotics_pacific_rim.Monitor.Model.View.{
  split_filter, is_active, passes_urls, matches_term, passes_terms, passes_pubsub, is_visible,
  by_activity, visible_endpoints,
}

-- Boolean guards, and what they say.
and_all :
    (a b c d : Bool) → (a && b && c && d) ≡ true → (a ≡ true) × (b ≡ true) × (c ≡ true) × (d ≡ true)
and_all a b c d h = (ground (arith, h), ground (arith, h), ground (arith, h), ground (arith, h))

all_and : (a b c d : Bool) → a ≡ true → b ≡ true → c ≡ true → d ≡ true → (a && b && c && d) ≡ true
all_and a b c d h i j k = rw (h, i, j, k) refl

guarded :
    {A : Type 0} (xs : List A) (black b : Bool)
    → (is_empty xs || (if black then not b else b)) ≡ true
    → xs ≢ []
    → b ≡ not black
guarded [] black b h k = absurd (k refl)
guarded (x ∷ xs) black b h k = ground (arith, h)

unguarded :
    {A : Type 0} (xs : List A) (black b : Bool)
    → (xs ≢ [] → b ≡ not black)
    → (is_empty xs || (if black then not b else b)) ≡ true
unguarded [] black b h = refl
unguarded (x ∷ xs) black b h = let e : b ≡ not black = h (λ k. cc k) in ground (arith, e)

either : (a b c : Bool) → (not a || b || c) ≡ true → a ≡ true → (b ≡ true) ⊎ (c ≡ true)
either a true c h k = inl refl
either a false c h k = inr (ground (arith, h, k))

unimplied : (a b : Bool) → (a ≡ true → b ≡ true) → (not a || b) ≡ true
unimplied true b h = h refl
unimplied false b h = refl

uneither : (a b c : Bool) → (a ≡ true → (b ≡ true) ⊎ (c ≡ true)) → (not a || b || c) ≡ true
uneither false b c h = refl
uneither true b c h = elim (h refl) [ inl e ↦ ground (arith, e) | inr e ↦ ground (arith, e) ]

module _ (host : Host) where
  open host use {Real, locale_le}

  -- What the options and the filter text ask of an endpoint that is listed. In black mode the given
  -- URLs and terms are those of the endpoints that are hidden.
  pub record IsListed (m : MonitorModel Real) (e : EndpointInfo Real) : Type 0 where
    pub urls : m.options.urls ≢ [] → has_text e.url m.options.urls ≡ not m.options.black_mode
    pub terms :
        split_filter m.filter_text ≢ []
        → matches_term host (split_filter m.filter_text) e ≡ not m.options.black_mode
    pub pubsub :
        m.options.pubsub_mode ≡ true
        → (has_bits e.type publisher ≡ true) ⊎ (has_bits e.type subscriber ≡ true)
    pub active : m.options.active_mode ≡ true → is_active host m e ≡ true

  is_visible-IsListed :
      (m : MonitorModel Real) (e : EndpointInfo Real) → is_visible host m e ≡ true → IsListed m e
  unfolding is_visible passes_urls passes_terms passes_pubsub
  is_visible-IsListed m e h =
      let (u, t, p, a) =
        and_all (passes_urls host m.options e)
          (passes_terms host m.options (split_filter m.filter_text) e)
          (passes_pubsub host m.options e) (not m.options.active_mode || is_active host m e) h in
      record {
        urls = guarded m.options.urls m.options.black_mode _ u;
        terms = guarded (split_filter m.filter_text) m.options.black_mode _ t;
        pubsub = λ k. either _ _ _ p k;
        active = λ k. ground (arith, a, k);
      }

  IsListed-is_visible :
      (m : MonitorModel Real) (e : EndpointInfo Real) → IsListed m e → is_visible host m e ≡ true
  unfolding is_visible passes_urls passes_terms passes_pubsub
  IsListed-is_visible m e l =
      let u : passes_urls host m.options e ≡ true =
        unguarded m.options.urls m.options.black_mode _ l.urls in
      let t : passes_terms host m.options (split_filter m.filter_text) e ≡ true =
        unguarded (split_filter m.filter_text) m.options.black_mode _ l.terms in
      let p : passes_pubsub host m.options e ≡ true = uneither _ _ _ l.pubsub in
      let a : (not m.options.active_mode || is_active host m e) ≡ true = unimplied _ _ l.active in
      all_and _ _ _ _ u t p a

  by_activity-IsOrder : (m : MonitorModel Real) → IsOrder locale_le → IsOrder (by_activity host m)
  unfolding by_activity
  by_activity-IsOrder m order = record {
    total = λ x y h. ground (arith, order.total x.url y.url);
    trans = λ x y z h k. ground (arith, order.trans x.url y.url z.url);
  }

  abbrev pub by_url : EndpointInfo Real → EndpointInfo Real → Bool
  by_url left right = locale_le left.url right.url

  -- The active ones of the endpoints, and the others.
  abbrev pub active_ones : MonitorModel Real → List (EndpointInfo Real) → List (EndpointInfo Real)
  active_ones m es = select (is_active host m) es

  abbrev pub other_ones : MonitorModel Real → List (EndpointInfo Real) → List (EndpointInfo Real)
  other_ones m es = select (λ e. not (is_active host m e)) es

  module _ (m : MonitorModel Real) where
    none_active :
        (x : EndpointInfo Real) (ys : List (EndpointInfo Real))
        → is_active host m x ≡ false
        → All (λ y. by_activity host m x y ≡ true) ys
        → active_ones m ys ≡ []
    unfolding by_activity
    none_active x [] h a = refl
    none_active x (y ∷ ys) h (p, a) =
        let e : is_active host m y ≡ false = ground (arith, h, p) in rw e (none_active x ys h a)

    active-by_url :
        (x : EndpointInfo Real) (ys : List (EndpointInfo Real))
        → is_active host m x ≡ true
        → All (λ y. by_activity host m x y ≡ true) ys
        → All (λ y. by_url x y ≡ true) (active_ones m ys)
    unfolding by_activity
    active-by_url x [] h a = tt
    active-by_url x (y ∷ ys) h (p, a) = elim (Bool-cases (is_active host m y)) [
      | inl e ↦ rw e (ground (arith, h, p, e), active-by_url x ys h a)
      | inr e ↦ rw e (active-by_url x ys h a)
    ]

    other-by_url :
        (x : EndpointInfo Real) (ys : List (EndpointInfo Real))
        → is_active host m x ≡ false
        → All (λ y. by_activity host m x y ≡ true) ys
        → All (λ y. by_url x y ≡ true) (other_ones m ys)
    unfolding by_activity
    other-by_url x [] h a = tt
    other-by_url x (y ∷ ys) h (p, a) = elim (Bool-cases (is_active host m y)) [
      | inl e ↦ rw e (other-by_url x ys h a)
      | inr e ↦ rw e (ground (arith, h, p, e), other-by_url x ys h a)
    ]

    -- A list in the comparator's order is its active endpoints and then the others, each by URL.
    split_by_activity :
        (xs : List (EndpointInfo Real))
        → IsSorted (by_activity host m) xs
        → (xs ≡ active_ones m xs ++ other_ones m xs)
          × IsSorted by_url (active_ones m xs)
          × IsSorted by_url (other_ones m xs)
    split_by_activity [] s = (refl, tt, tt)
    split_by_activity (x ∷ xs) (a, s) =
        let (split, active, others) = split_by_activity xs s in
        elim (Bool-cases (is_active host m x)) [
          | inl e ↦ rw e (ap (λ l. x ∷ l) split, (active-by_url x xs e a, active), others)
          | inr e ↦
              let none_left = none_active x xs e a in
              rw (e, none_left)
                (ap (λ l. x ∷ l) (rw none_left at split), tt, (other-by_url x xs e a, others))
        ]

  -- The list holds exactly the endpoints that the options and the filter text ask for, each as often
  -- as the model has it: first the active ones and then the others, each by URL. (The locale's order
  -- must be total and transitive.)
  pub visible_endpoints-IsSorted :
      (m : MonitorModel Real)
      → IsOrder locale_le
      → Perm (visible_endpoints host m) (select (is_visible host m) m.endpoints)
        × ((e : EndpointInfo Real) → (is_visible host m e ≡ true) ↔ IsListed m e)
        × (visible_endpoints host m
            ≡ active_ones m (visible_endpoints host m) ++ other_ones m (visible_endpoints host m))
        × IsSorted by_url (active_ones m (visible_endpoints host m))
        × IsSorted by_url (other_ones m (visible_endpoints host m))
  unfolding visible_endpoints
  visible_endpoints-IsSorted m order =
      let (split, active, others) =
        split_by_activity m _
          (sort-IsSorted (by_activity-IsOrder m order) (select (is_visible host m) m.endpoints)) in
      (
        sort-perm (by_activity host m) _,
        λ e. (is_visible-IsListed m e, IsListed-is_visible m e),
        split,
        active,
        others,
      )
