-- ===== src/Monitor/Discovery/Addresses.antt =====
-- Drafts and addresses have URLs (monitor/pr-monitor/src/discovery.ts).
use robotics_pacific_rim.Base.{
  ℕ, zero, suc, ◌≡◌, subst, inl, inr, Bool, true, false, ◌||◌, Option, none, some, List, [], ◌∷◌,
  map, arith, ◌==◌, Bool-cases, Option-cases, or_else, all, find, All, All-append, Text, text,
  eq_text, is_empty, or_text,
}
use robotics_pacific_rim.Base.Assoc.{Assoc, get, put, get-put}
use robotics_pacific_rim.Monitor.Types.{publisher, subscriber, server, client, SchemaType}
use robotics_pacific_rim.Monitor.Yaml.Value.{
  YamlValue, YamlObject, entries, as_object, field, text_field,
}
use robotics_pacific_rim.Monitor.Discovery.Draft.{
  EndpointDraft, ContractAddress, SectionName, services, topics, endpoint_type_for,
  replace_url_scheme, address_for_middleware, has_transport, is_cyclone_dds_rmw_middleware,
}
use robotics_pacific_rim.Monitor.Discovery.Interface.{
  flat_map, draft_if, address_if, address_list, addresses_of, interface_route, or_type,
}
use robotics_pacific_rim.Monitor.Discovery.Communication.{contract_addresses, selected_addresses}

-- A draft has a URL and is of one of the four types.
pub record IsDraft (d : EndpointDraft) : Type 0 where
  pub url : is_empty d.url ≡ false
  pub type :
      (d.type == publisher || d.type == subscriber || d.type == server || d.type == client) ≡ true

abbrev pub HasUrl : ContractAddress → Type 0
HasUrl a = is_empty a.url ≡ false

abbrev pub IsRole : ℕ → Type 0
IsRole t = (t == publisher || t == subscriber || t == server || t == client) ≡ true

pub endpoint_type_for-IsRole :
    (section : SectionName) (role direction : Text)
    → IsRole (endpoint_type_for section role direction)
unfolding endpoint_type_for
endpoint_type_for-IsRole services role direction = ground arith
endpoint_type_for-IsRole topics role direction = ground arith

or_type-IsRole : (a b : ℕ) → IsRole a → IsRole b → IsRole (or_type a b)
or_type-IsRole zero b h k = k
or_type-IsRole (suc a) b h k = h

pub flat_map-All {ℓ κ μ} :
    {A : Type ℓ} {B : Type κ} (P : B → Type μ) (f : A → List B) (xs : List A)
    → ((x : A) → All P (f x))
    → All P (flat_map f xs)
unfolding flat_map
flat_map-All P f [] h = tt
flat_map-All P f (x ∷ xs) h = All-append P (f x) (flat_map f xs) (h x) (flat_map-All P f xs h)

pub map-All {ℓ κ μ ν} :
    {A : Type ℓ} {B : Type κ} (P : A → Type μ) (Q : B → Type ν) (f : A → B) (xs : List A)
    → ((x : A) → P x → Q (f x))
    → All P xs
    → All Q (map f xs)
map-All P Q f [] h a = tt
map-All P Q f (x ∷ xs) h (p, a) = (h x p, map-All P Q f xs h a)

find-All {ℓ κ} :
    {A : Type ℓ} (P : A → Type κ) (p : A → Bool) (xs : List A) (x : A)
    → All P xs
    → find p xs ≡ some x
    → P x
find-All P p [] x a h = cc
find-All P p (y ∷ ys) x (q, a) h = elim (Bool-cases (p y)) [
  | inl e ↦ let same : y ≡ x = cc (rw e at h) in subst P same q
  | inr e ↦ find-All P p ys x a (rw e at h)
]

pub draft_if-IsDraft : (d : EndpointDraft) → IsRole d.type → All IsDraft (draft_if d)
draft_if-IsDraft d r = elim (Bool-cases (is_empty d.url)) [
  | inl e ↦ rw e tt
  | inr e ↦ rw e (record { url = e; type = r }, tt)
]

address_if-HasUrl : (a : ContractAddress) → All HasUrl (address_if a)
address_if-HasUrl a = elim (Bool-cases (is_empty a.url)) [ inl e ↦ rw e tt | inr e ↦ rw e (e, tt) ]

address_list-HasUrl :
    (schema : SchemaType) (ser : Text) (es : List (Text × YamlValue))
    → All HasUrl (address_list schema ser es)
unfolding address_list
address_list-HasUrl schema ser [] = tt
address_list-HasUrl schema ser ((transport, raw) ∷ rest) =
    All-append HasUrl (address_if _) (address_list schema ser rest) (address_if-HasUrl _)
      (address_list-HasUrl schema ser rest)

addresses_of-HasUrl :
    (schema : SchemaType) (ser : Text) (o : Option YamlObject)
    → All HasUrl (addresses_of schema ser o)
unfolding addresses_of
addresses_of-HasUrl schema ser none = tt
addresses_of-HasUrl schema ser (some o) = address_list-HasUrl schema ser (entries o)

pub interface_route_sound :
    (section : SectionName) (source name : Text) (route : YamlObject)
    → All IsDraft (interface_route section source name route).0
      × All HasUrl (interface_route section source name route).1
unfolding interface_route
interface_route_sound section source name route =
    let role = text_field (text "role") route in
    let direction = text_field (text "direction") route in
    let addresses = addresses_of-HasUrl _ _ (as_object (field (text "addresses") route)) in
    (
      All-append IsDraft _ _
          (map-All HasUrl IsDraft _ _
            (λ a u. record { url = u; type = endpoint_type_for-IsRole section role direction })
            addresses)
          (flat_map-All IsDraft _ _ (λ b.
            let way = or_text (text_field (text "direction") b) direction in
            draft_if-IsDraft _ (
              or_type-IsRole (endpoint_type_for section role way)
                (endpoint_type_for section role direction)
                (endpoint_type_for-IsRole section role way)
                (endpoint_type_for-IsRole section role direction)))),
      addresses,
    )

address_for_middleware-HasUrl :
    (addresses : List ContractAddress) (middleware : Text) (a : ContractAddress)
    → All HasUrl addresses
    → address_for_middleware addresses middleware ≡ some a
    → HasUrl a
unfolding address_for_middleware replace_url_scheme
address_for_middleware-HasUrl addresses middleware a all h =
    elim (Bool-cases (is_cyclone_dds_rmw_middleware middleware)) [
      | inr plain ↦ find-All HasUrl _ addresses a all (rw plain at h)
      | inl rmw ↦ elim (Option-cases (find (has_transport (text "ros2")) addresses)) [
        | inl e ↦ find-All HasUrl _ addresses a all (rw (rmw, e) at h)
        | inr (r, e) ↦ let h' = rw (rmw, e) at h in cc
      ]
    ]

pub selected_addresses-HasUrl :
    (addresses : List ContractAddress) (middlewares : List Text)
    → All HasUrl addresses
    → All HasUrl (selected_addresses addresses middlewares)
unfolding selected_addresses
selected_addresses-HasUrl addresses [] all = all
selected_addresses-HasUrl addresses (m ∷ ms) all = flat_map-All HasUrl _ (m ∷ ms) (λ middleware.
    elim (Option-cases (address_for_middleware addresses middleware)) [
      | inl e ↦ rw e tt
      | inr (a, e) ↦ rw e (address_for_middleware-HasUrl addresses middleware a all e, tt)
    ])

-- Every address of the index has a URL.
abbrev pub HasUrls : Assoc (List ContractAddress) → Type 0
HasUrls index = (ref : Text) → All HasUrl (or_else (get ref index) [])

pub contract_addresses-HasUrl :
    (index : Assoc (List ContractAddress)) (ref : Text)
    → HasUrls index
    → All HasUrl (contract_addresses (some index) ref)
unfolding contract_addresses
contract_addresses-HasUrl index ref h = elim (Bool-cases (is_empty ref)) [
  | inl e ↦ rw e tt
  | inr e ↦ rw e (h ref)
]

pub put-HasUrls :
    (k : Text) (addresses : List ContractAddress) (index : Assoc (List ContractAddress))
    → All HasUrl addresses
    → HasUrls index
    → HasUrls (put k addresses index)
put-HasUrls k addresses index a h ref = elim (Bool-cases (eq_text k ref)) [
  | inl e ↦ rw (get-put k ref addresses index, e) a
  | inr e ↦ rw (get-put k ref addresses index, e) (h ref)
]
