-- ===== src/Monitor/Collectors/Contexts.antt =====
-- The ROS contexts that the collectors ask (monitor/pr-monitor/src/collectors.ts).
use robotics_pacific_rim.Base.{
  ℕ, zero, suc, ◌≤◌, ◌≡◌, refl, ap₂, ◌∙◌, inl, inr, Bool, true, false, ◌&&◌, List, [], ◌∷◌, map,
  arith, leb, if◌then◌else◌, Bool-cases, is_some, length, take, all, All, Text, text, eq_text,
  eq_text_iff, has_text, is_empty, or_text, trim,
}
use robotics_pacific_rim.Base.Assoc.{Assoc, get, put, keys, values, HasDistinct}
use robotics_pacific_rim.Base.Decimal.{show_nat, read_nat}
use robotics_pacific_rim.Monitor.Model.State.{ensure_key}
use robotics_pacific_rim.Monitor.Model.Maps.{ensure_key-HasDistinct, Values, ensure_key-Values}
use robotics_pacific_rim.Monitor.Collectors.Domains.{
  RosRuntimeContext, is_name_unit, is_number, normalize_domain_id, dash_runs, drop_dashes,
  drop_end_dashes, sanitize_container_name_part, normalize_ros_distro, key_of, normal_context,
  contexts_by_key, dedupe_ros_runtime_contexts,
}

abbrev IsName : Text → Type 0
IsName s = all is_name_unit s ≡ true

if-IsName : (b : Bool) (s t : Text) → IsName s → IsName t → IsName (if b then s else t)
if-IsName true s t h k = h
if-IsName false s t h k = k

cons-IsName : (c : ℕ) (s : Text) → is_name_unit c ≡ true → IsName s → IsName (c ∷ s)
cons-IsName c s e h = rw (e, h) refl

dash_runs-IsName : (in_run : Bool) (s : Text) → IsName (dash_runs in_run s)
unfolding dash_runs
dash_runs-IsName in_run [] = refl
dash_runs-IsName in_run (c ∷ s) = elim (Bool-cases (is_name_unit c)) [
  | inl e ↦ rw (e, e) (dash_runs-IsName false s)
  | inr e ↦ rw e (
      if-IsName in_run (dash_runs true s) (b'-' ∷ dash_runs true s) (dash_runs-IsName true s)
        (cons-IsName b'-' (dash_runs true s) refl (dash_runs-IsName true s)))
]

drop_dashes-IsName : (s : Text) → IsName s → IsName (drop_dashes s)
unfolding drop_dashes
drop_dashes-IsName [] h = refl
drop_dashes-IsName (c ∷ s) h = ground (arith, drop_dashes-IsName s)

drop_end_dashes-IsName : (s : Text) → IsName s → IsName (drop_end_dashes s)
unfolding drop_end_dashes
drop_end_dashes-IsName [] h = refl
drop_end_dashes-IsName (c ∷ s) h = ground (arith, drop_end_dashes-IsName s)

or_default-IsName :
    (s : Text)
    → IsName s
    → IsName (or_text s (text "default")) × (is_empty (or_text s (text "default")) ≡ false)
or_default-IsName [] h = (refl, refl)
or_default-IsName (c ∷ s) h = (h, refl)

sanitize-IsName :
    (s : Text)
    → IsName (sanitize_container_name_part s) × (is_empty (sanitize_container_name_part s) ≡ false)
unfolding sanitize_container_name_part
sanitize-IsName s =
    or_default-IsName _ (drop_end_dashes-IsName _ (drop_dashes-IsName _ (dash_runs-IsName false s)))

-- A domain id from 0 to 232, and a distribution's name of units that a container's name may have.
pub record IsNormal (c : RosRuntimeContext) : Type 0 where
  pub domain : ℕ
  pub in_range : domain ≤ 232
  pub shown : c.domain_id ≡ show_nat domain
  pub named : all is_name_unit c.ros_distro ≡ true
  pub non_empty : is_empty c.ros_distro ≡ false

normal_domain :
    (value : Text)
    → is_empty (normalize_domain_id value) ≡ false
    → (n : ℕ) × (n ≤ 232) × (normalize_domain_id value ≡ show_nat n)
unfolding normalize_domain_id
normal_domain value h =
    let n = read_nat (trim value) in
    elim (Bool-cases (is_number (trim value) && leb n 232)) [
      | inl e ↦ (n, ground arith, rw e refl)
      | inr e ↦ cc (rw e at h)
    ]

normal_context-IsNormal :
    (c : RosRuntimeContext)
    → is_empty (normal_context c).domain_id ≡ false
    → IsNormal (normal_context c)
unfolding normal_context normalize_ros_distro
normal_context-IsNormal c h =
    let (n, range, shown) = normal_domain c.domain_id h in
    let (named, non_empty) = sanitize-IsName (or_text (trim c.ros_distro) (text "humble")) in
    record { domain = n; in_range = range; shown = shown; named = named; non_empty = non_empty }

-- Each context stands under its own key.
abbrev IsKeyed : Assoc RosRuntimeContext → Type 0
IsKeyed m = All (λ e. e.0 ≡ key_of e.1) m

put-IsKeyed :
    (k : Text) (c : RosRuntimeContext) (m : Assoc RosRuntimeContext)
    → k ≡ key_of c
    → IsKeyed m
    → IsKeyed (put k c m)
unfolding put
put-IsKeyed k c [] e h = (e, tt)
put-IsKeyed k c ((j, d) ∷ m) e (q, h) = elim (Bool-cases (eq_text j k)) [
  | inl same ↦ rw same ((eq_text_iff j k).0 same ∙ e, h)
  | inr other ↦ rw other (q, put-IsKeyed k c m e h)
]

ensure_key-IsKeyed :
    (c : RosRuntimeContext) (m : Assoc RosRuntimeContext)
    → IsKeyed m
    → IsKeyed (ensure_key (key_of c) c m)
unfolding ensure_key
ensure_key-IsKeyed c m h = elim (Bool-cases (is_some (get (key_of c) m))) [
  | inl e ↦ rw e h
  | inr e ↦ rw e (put-IsKeyed (key_of c) c m refl h)
]

keys-IsKeyed : (m : Assoc RosRuntimeContext) → IsKeyed m → keys m ≡ map key_of (values m)
keys-IsKeyed [] h = refl
keys-IsKeyed ((k, c) ∷ m) (e, h) = ap₂ (λ j js. j ∷ js) e (keys-IsKeyed m h)

record IsTable (m : Assoc RosRuntimeContext) : Type 0 where
  distinct : HasDistinct (keys m)
  keyed : IsKeyed m
  normal : Values IsNormal m

contexts_by_key-IsTable :
    (m : Assoc RosRuntimeContext) (cs : List RosRuntimeContext)
    → IsTable m
    → IsTable (contexts_by_key m cs)
unfolding contexts_by_key
contexts_by_key-IsTable m [] t = t
contexts_by_key-IsTable m (c ∷ cs) t =
    let normal = normal_context c in
    elim (Bool-cases (is_empty normal.domain_id)) [
      | inl e ↦ rw e (contexts_by_key-IsTable m cs t)
      | inr e ↦ rw e (
          contexts_by_key-IsTable (ensure_key (key_of normal) normal m) cs (record {
            distinct = ensure_key-HasDistinct (key_of normal) normal m t.distinct;
            keyed = ensure_key-IsKeyed normal m t.keyed;
            normal =
                ensure_key-Values IsNormal (key_of normal) normal m (normal_context-IsNormal c e)
                  t.normal;
          }))
    ]

take-All :
    (P : RosRuntimeContext → Type 0) (n : ℕ) (m : Assoc RosRuntimeContext)
    → Values P m
    → All P (take n (values m))
take-All P zero m h = tt
take-All P (suc n) [] h = tt
take-All P (suc n) ((k, c) ∷ m) (p, h) = (p, take-All P n m h)

has-take :
    (t : Text) (n : ℕ) (cs : List RosRuntimeContext)
    → has_text t (map key_of cs) ≡ false
    → has_text t (map key_of (take n cs)) ≡ false
unfolding has_text
has-take t zero cs h = refl
has-take t (suc n) [] h = refl
has-take t (suc n) (c ∷ cs) h = ground (arith, has-take t n cs)

take-HasDistinct :
    (n : ℕ) (cs : List RosRuntimeContext)
    → HasDistinct (map key_of cs)
    → HasDistinct (map key_of (take n cs))
take-HasDistinct zero cs h = tt
take-HasDistinct (suc n) [] h = tt
take-HasDistinct (suc n) (c ∷ cs) (new, h) = (has-take (key_of c) n cs new, take-HasDistinct n cs h)

take_bound : (n : ℕ) (cs : List RosRuntimeContext) → length (take n cs) ≤ n
take_bound zero cs = omega arith
take_bound (suc n) [] = omega arith
take_bound (suc n) (c ∷ cs) = omega (arith, take_bound n cs)

-- Whatever contexts were found: at most 16 are asked, no two with the same domain id and
-- distribution, each with a domain id from 0 to 232 and a distribution's name that is not empty and
-- has only letters, digits, underscores, dots and dashes.
pub dedupe_ros_runtime_contexts-IsNormal :
    (contexts : List RosRuntimeContext)
    → (length (dedupe_ros_runtime_contexts contexts) ≤ 16)
      × HasDistinct (map key_of (dedupe_ros_runtime_contexts contexts))
      × All IsNormal (dedupe_ros_runtime_contexts contexts)
unfolding dedupe_ros_runtime_contexts
dedupe_ros_runtime_contexts-IsNormal contexts =
    let table = contexts_by_key [] contexts in
    let t =
      contexts_by_key-IsTable [] contexts (record { distinct = tt; keyed = tt; normal = tt }) in
    (
      take_bound 16 (values table),
      take-HasDistinct 16 (values table) (rw (← keys-IsKeyed table t.keyed) t.distinct),
      take-All IsNormal 16 table t.normal,
    )
