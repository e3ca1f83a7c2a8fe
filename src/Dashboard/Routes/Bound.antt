-- ===== src/Dashboard/Routes/Bound.antt =====
-- The bindings of a route: each has a transport, and no two have the same
-- (dashboard/packages/api/src/routers/dashboard.ts).
use robotics_pacific_rim.Base.{
  ◌≡◌, refl, ◌∙◌, false, ◌||◌, List, [], ◌∷◌, arith, Text, eq_text, eq_text_iff, has_text, is_empty,
}
use robotics_pacific_rim.Base.Assoc.{HasDistinct}
use robotics_pacific_rim.Dashboard.Routes.{BindingSummary, PartialBinding, put_binding}

abbrev pub transports : List BindingSummary → List Text
transports [] = []
transports (binding ∷ bindings) = binding.transport ∷ transports bindings

-- Every binding has a transport, and no two have the same.
abbrev pub IsBound : List BindingSummary → Type 0
IsBound bindings = HasDistinct (transports bindings) × (has_text [] (transports bindings) ≡ false)

has_text-put_binding :
    (t : Text) (binding : PartialBinding) (transport : Text) (bindings : List BindingSummary)
    → has_text t (transports (put_binding binding transport bindings))
      ≡ (eq_text t transport || has_text t (transports bindings))
unfolding put_binding has_text
has_text-put_binding t binding transport [] = ground arith
has_text-put_binding t binding transport (b ∷ bindings) = ground (
  arith,
  eq_text_iff b.transport transport,
  eq_text_iff t transport,
  eq_text_iff t b.transport,
  has_text-put_binding t binding transport bindings,
)

put_binding-HasDistinct :
    (binding : PartialBinding) (transport : Text) (bindings : List BindingSummary)
    → HasDistinct (transports bindings)
    → HasDistinct (transports (put_binding binding transport bindings))
unfolding put_binding has_text
put_binding-HasDistinct binding transport [] h = (refl, tt)
put_binding-HasDistinct binding transport (b ∷ bindings) h = ground (
  arith,
  eq_text_iff b.transport transport,
  has_text-put_binding b.transport binding transport bindings,
  put_binding-HasDistinct binding transport bindings,
)

pub put_binding-IsBound :
    (binding : PartialBinding) (transport : Text) (bindings : List BindingSummary)
    → is_empty transport ≡ false
    → IsBound bindings
    → IsBound (put_binding binding transport bindings)
unfolding eq_text
put_binding-IsBound binding [] bindings e h = cc
put_binding-IsBound binding (c ∷ transport) bindings e h = (
  put_binding-HasDistinct binding (c ∷ transport) bindings h.0,
  has_text-put_binding [] binding (c ∷ transport) bindings ∙ h.1,
)
