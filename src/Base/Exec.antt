-- ===== src/Base/Exec.antt =====
-- Code that may throw and that acts on a world of type `W`. What was done before a throw stays done,
-- so the world comes back beside the error too.
use robotics_pacific_rim.Base.Result.{Result, ok, err}

abbrev pub Exec : Type 0 → Type 0 → Type 0 → Type 0
Exec W E A = W → Result E A × W

module _ {W E : Type 0} where
  abbrev pub pure : {A : Type 0} → A → Exec W E A
  pure a w = (ok a, w)

  abbrev pub throw : {A : Type 0} → E → Exec W E A
  throw e w = (err e, w)

  -- A pure computation that may throw.
  abbrev pub lift : {A : Type 0} → Result E A → Exec W E A
  lift r w = (r, w)

  abbrev pub continue : {A B : Type 0} → Result E A → (A → Exec W E B) → Exec W E B
  continue (ok a) f w = f a w
  continue (err e) f w = (err e, w)

  infixl 5 ◌>>=◌ ◌>>◌
  abbrev pub ◌>>=◌ : {A B : Type 0} → Exec W E A → (A → Exec W E B) → Exec W E B
  ◌>>=◌ m f w = continue (m w).0 f (m w).1

  abbrev pub ◌>>◌ : {A B : Type 0} → Exec W E A → Exec W E B → Exec W E B
  m >> k = m >>= λ _. k
