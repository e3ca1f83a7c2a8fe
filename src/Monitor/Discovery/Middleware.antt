-- ===== src/Monitor/Discovery/Middleware.antt =====
-- Which contract address a middleware selects (monitor/pr-monitor/src/discovery.ts).
use robotics_pacific_rim.Base.{
  ◌≡◌, refl, ap, ap₂, arith, ◌++◌, before, starts_with, sym, ◌∙◌, subst, ◌⊎◌, inl, inr, Bool, true,
  some, List, [], ◌∷◌, Bool-cases, Option-cases, find, All, Text, text, eq_text, eq_text_iff,
  has_text, string_runs,
}
use robotics_pacific_rim.Monitor.Discovery.Draft.{
  ContractAddress, drop_scheme, transport_from_url, replace_url_scheme, normal_name,
  is_cyclone_dds_rmw_middleware, normalize_middleware, middleware_of, rmw_names,
  address_for_middleware, has_transport,
}

find-some {ℓ} : {A : Type ℓ} (p : A → Bool) (xs : List A) (x : A) → find p xs ≡ some x → p x ≡ true
find-some p [] x h = cc
find-some p (y ∷ ys) x h = elim (Bool-cases (p y)) [
  | inl e ↦ let same : y ≡ x = cc (rw e at h) in rw (← same) e
  | inr e ↦ find-some p ys x (rw e at h)
]

has-All : (P : Text → Type 0) (t : Text) (ts : List Text) → All P ts → has_text t ts ≡ true → P t
unfolding has_text
has-All P t [] a h = cc
has-All P t (u ∷ ts) (p, a) h = elim (Bool-cases (eq_text t u)) [
  | inl e ↦ subst P (sym ((eq_text_iff t u).0 e)) p
  | inr e ↦ has-All P t ts a (rw e at h)
]

-- The names of CycloneDDS's RMW all stand for the transport `cyclonedds`.
normalize_middleware-rmw :
    (value : Text)
    → is_cyclone_dds_rmw_middleware value ≡ true
    → normalize_middleware value ≡ text "cyclonedds"
unfolding is_cyclone_dds_rmw_middleware normalize_middleware middleware_of normal_name string_runs
normalize_middleware-rmw value h =
    has-All (λ name. middleware_of name ≡ text "cyclonedds") (normal_name value) rmw_names
      (refl, (refl, (refl, (refl, (refl, (refl, tt)))))) h

transport-replace :
    (url : Text)
    → transport_from_url (replace_url_scheme url (text "cyclonedds")) ≡ text "cyclonedds"
unfolding transport_from_url replace_url_scheme string_runs
transport-replace url = refl

starts_with-split : (p s : Text) → starts_with p s ≡ true → (rest : Text) × (s ≡ p ++ rest)
unfolding starts_with
starts_with-split [] s h = (s, refl)
starts_with-split (c ∷ p) [] h = cc
starts_with-split (c ∷ p) (d ∷ s) h =
    let (rest, e) = starts_with-split p s (ground (arith, h)) in
    let same : d ≡ c = ground (arith, h) in (rest, ap₂ (λ x xs. x ∷ xs) same e)

-- A text has no separator, or it is what stands before the first one, the separator, and a rest.
before-split :
    (sep s : Text) → (s ≡ before sep s) ⊎ ((rest : Text) × (s ≡ before sep s ++ (sep ++ rest)))
unfolding before
before-split sep [] = inl refl
before-split sep (c ∷ s) = elim (Bool-cases (starts_with sep (c ∷ s))) [
  | inl e ↦ rw e (inr (starts_with-split sep (c ∷ s) e))
  | inr e ↦ rw e (elim (before-split sep s) [
    | inl h ↦ inl (ap (λ xs. c ∷ xs) h)
    | inr (rest, h) ↦ inr (rest, ap (λ xs. c ∷ xs) h)
  ])
]

-- The URL `url` is `rest` behind the scheme of ROS 2, or is the scheme's name alone.
abbrev pub IsRos2 : Text → Text → Type 0
IsRos2 url rest = (url ≡ text "ros2://" ++ rest) ⊎ ((url ≡ text "ros2") × (rest ≡ text "ros2"))

replaced_url :
    (url : Text)
    → transport_from_url url ≡ text "ros2"
    → (rest : Text) × IsRos2 url rest
      × (replace_url_scheme url (text "cyclonedds") ≡ text "cyclonedds://" ++ rest)
unfolding transport_from_url replace_url_scheme drop_scheme string_runs
replaced_url url h = elim (before-split (text "://") url) [
  | inl e ↦ let same : url ≡ text "ros2" = e ∙ h in (text "ros2", inr (same, refl), rw same refl)
  | inr (rest, e) ↦
      let same : url ≡ text "ros2://" ++ rest = e ∙ ap (λ t. t ++ (text "://" ++ rest)) h in
      (rest, inl same, rw same (ground arith))
]

-- The address that a middleware selects is of the middleware's transport: one of the contract's
-- addresses as it stands, or its first ROS 2 address under the scheme `cyclonedds` in place of its
-- own, with the address itself as the URL at run time.
pub record IsSelected (addresses : List ContractAddress) (middleware : Text) (a : ContractAddress)
    : Type 0 where
  pub transport : transport_from_url a.url ≡ normalize_middleware middleware
  pub origin :
      (find (has_transport (normalize_middleware middleware)) addresses ≡ some a)
      ⊎ ((r : ContractAddress) × (find (has_transport (text "ros2")) addresses ≡ some r)
          × (is_cyclone_dds_rmw_middleware middleware ≡ true)
          × ((rest : Text) × IsRos2 r.url rest × (a.url ≡ text "cyclonedds://" ++ rest))
          × (a.runtime_url ≡ some r.url)
          × (a.ser_type ≡ r.ser_type)
          × (a.schema_type ≡ r.schema_type))

-- A selected address has the middleware's transport and comes from the contract.
pub address_for_middleware-IsSelected :
    (addresses : List ContractAddress) (middleware : Text) (a : ContractAddress)
    → address_for_middleware addresses middleware ≡ some a
    → IsSelected addresses middleware a
unfolding address_for_middleware
address_for_middleware-IsSelected addresses middleware a h =
    elim (Bool-cases (is_cyclone_dds_rmw_middleware middleware)) [
      | inr plain ↦ native_lem (rw plain at h)
      | inl rmw ↦ elim (Option-cases (find (has_transport (text "ros2")) addresses)) [
        | inl e ↦ native_lem (rw (rmw, e) at h)
        | inr (r, e) ↦
            let same : replaced r ≡ a = cc (rw (rmw, e) at h) in
            rw (← same) (record {
              transport = transport-replace r.url ∙ sym (normalize_middleware-rmw middleware rmw);
              origin = inr (
                r,
                e,
                rmw,
                replaced_url r.url ((eq_text_iff _ _).0 (find-some _ addresses r e)),
                refl,
                refl,
                refl,
              );
            })
      ]
    ]
  where
    replaced : ContractAddress → ContractAddress
    replaced r = record r {
      url = replace_url_scheme r.url (text "cyclonedds");
      runtime_url = some r.url;
    }

    native_lem :
        find (has_transport (normalize_middleware middleware)) addresses ≡ some a
        → IsSelected addresses middleware a
    native_lem e = record {
      transport = (eq_text_iff _ _).0 (find-some _ addresses a e);
      origin = inl e;
    }
