-- ===== src/Dashboard/Details/Bound.antt =====
-- The bindings of a detail route: each has a transport, and no two have the same; and the transport
-- families that they belong to (dashboard/packages/api/src/routers/dashboard.ts).
use robotics_pacific_rim.Base.{
  ◌≡◌, refl, ap, ◌∙◌, ◌↔◌, Bool, true, false, ◌||◌, Option, none, some, List, [], ◌∷◌, arith, any,
  Text, eq_text, eq_text_iff, is_empty,
}
use robotics_pacific_rim.Base.Distinct.{
  has, set_of, IsDistinct, has-set_of, set_of-IsDistinct, set_of-distinct,
}
use robotics_pacific_rim.Dashboard.Details.{
  TransportFamily, cyclonedds, fastdds, nats, ros2, eq_family, cons_some, families,
  transport_family, transport_families_from_transports, DetailBindingSummary, DetailPartialBinding,
  DetailRouteDraft, put_detail_binding,
}
use robotics_pacific_rim.Dashboard.Details.Parse.{transports_of}

abbrev pub IsDetailBound : List DetailBindingSummary → Type 0
IsDetailBound bindings =
    IsDistinct eq_text (transports_of bindings) × (has eq_text [] (transports_of bindings) ≡ false)

module _ (route : DetailRouteDraft) (binding : DetailPartialBinding) where
  has-put_detail_binding :
      (t transport : Text) (bindings : List DetailBindingSummary)
      → has eq_text t (transports_of (put_detail_binding route binding transport bindings))
        ≡ (eq_text t transport || has eq_text t (transports_of bindings))
  unfolding put_detail_binding has
  has-put_detail_binding t transport [] = ground arith
  has-put_detail_binding t transport (b ∷ bindings) = ground (
    arith,
    eq_text_iff b.transport transport,
    eq_text_iff t transport,
    eq_text_iff t b.transport,
    has-put_detail_binding t transport bindings,
  )

  put_detail_binding-IsDistinct :
      (transport : Text) (bindings : List DetailBindingSummary)
      → IsDistinct eq_text (transports_of bindings)
      → IsDistinct eq_text (transports_of (put_detail_binding route binding transport bindings))
  unfolding put_detail_binding has
  put_detail_binding-IsDistinct transport [] h = (refl, tt)
  put_detail_binding-IsDistinct transport (b ∷ bindings) h = ground (
    arith,
    eq_text_iff b.transport transport,
    has-put_detail_binding b.transport transport bindings,
    put_detail_binding-IsDistinct transport bindings,
  )

  pub put_detail_binding-IsDetailBound :
      (transport : Text) (bindings : List DetailBindingSummary)
      → is_empty transport ≡ false
      → IsDetailBound bindings
      → IsDetailBound (put_detail_binding route binding transport bindings)
  unfolding eq_text
  put_detail_binding-IsDetailBound [] bindings e h = cc
  put_detail_binding-IsDetailBound (c ∷ transport) bindings e h = (
    put_detail_binding-IsDistinct (c ∷ transport) bindings h.0,
    has-put_detail_binding [] (c ∷ transport) bindings ∙ h.1,
  )

-- The set of transports repeats the bindings' own, in their order.
pub set_of-IsDetailBound :
    (bindings : List DetailBindingSummary)
    → IsDetailBound bindings
    → set_of eq_text (transports_of bindings) ≡ transports_of bindings
set_of-IsDetailBound bindings h = set_of-distinct eq_text eq_text_iff (transports_of bindings) h.0

eq_family_sound : (f g : TransportFamily) → eq_family f g ≡ true → f ≡ g
eq_family_sound cyclonedds cyclonedds h = refl
eq_family_sound cyclonedds fastdds h = cc
eq_family_sound cyclonedds nats h = cc
eq_family_sound cyclonedds ros2 h = cc
eq_family_sound fastdds cyclonedds h = cc
eq_family_sound fastdds fastdds h = refl
eq_family_sound fastdds nats h = cc
eq_family_sound fastdds ros2 h = cc
eq_family_sound nats cyclonedds h = cc
eq_family_sound nats fastdds h = cc
eq_family_sound nats nats h = refl
eq_family_sound nats ros2 h = cc
eq_family_sound ros2 cyclonedds h = cc
eq_family_sound ros2 fastdds h = cc
eq_family_sound ros2 nats h = cc
eq_family_sound ros2 ros2 h = refl

eq_family_refl : (f : TransportFamily) → eq_family f f ≡ true
eq_family_refl cyclonedds = refl
eq_family_refl fastdds = refl
eq_family_refl nats = refl
eq_family_refl ros2 = refl

pub eq_family_iff : (f g : TransportFamily) → (eq_family f g ≡ true) ↔ (f ≡ g)
eq_family_iff f g = (eq_family_sound f g, λ e. rw e (eq_family_refl g))

abbrev in_family : TransportFamily → Option TransportFamily → Bool
in_family f none = false
in_family f (some g) = eq_family f g

has-cons_some :
    (f : TransportFamily) (o : Option TransportFamily) (fs : List TransportFamily)
    → has eq_family f (cons_some o fs) ≡ (in_family f o || has eq_family f fs)
unfolding has
has-cons_some f none fs = refl
has-cons_some f (some g) fs = refl

has-families :
    (f : TransportFamily) (transports : List Text)
    → has eq_family f (families transports)
      ≡ any (λ transport. in_family f (transport_family transport)) transports
unfolding has
has-families f [] = refl
has-families f (transport ∷ transports) =
    has-cons_some f (transport_family transport) (families transports)
    ∙ ap (λ b. in_family f (transport_family transport) || b) (has-families f transports)

-- The families are without repetition, and a family is among them when it is that of a transport.
abbrev pub IsFamilySet : List Text → List TransportFamily → Type 0
IsFamilySet transports fs =
    IsDistinct eq_family fs
    × ((f : TransportFamily)
        → has eq_family f fs
          ≡ any (λ transport. in_family f (transport_family transport)) transports)

pub transport_families-IsFamilySet :
    (transports : List Text)
    → IsFamilySet transports (transport_families_from_transports transports)
unfolding transport_families_from_transports
transport_families-IsFamilySet transports = (
  set_of-IsDistinct eq_family eq_family_iff (families transports),
  λ f. has-set_of eq_family eq_family_iff f (families transports) ∙ has-families f transports,
)
