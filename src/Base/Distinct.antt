-- ===== src/Base/Distinct.antt =====
-- JavaScript's `Set`, as the list of its elements in their order of insertion, over a Boolean
-- equality.
use mathlib.Core.Path.{◌≡◌, refl, sym, ◌∙◌}
use mathlib.Core.Logic.{◌↔◌, inl, inr}
use mathlib.Core.Bool.{Bool, true, false, ◌||◌}
use mathlib.Core.List.{List, [], ◌∷◌, ◌++◌, append-nil, append_assoc}
use native.Mathlib.Omega.{arith}
use robotics_pacific_rim.Base.Tests.{if◌then◌else◌, Bool-cases}
use robotics_pacific_rim.Base.Lists.{All}

module _ {ℓ} {A : Type ℓ} (eq : A → A → Bool) where
  unfoldable pub has : A → List A → Bool
  has x [] = false
  has x (y ∷ ys) = eq x y || has x ys

  -- `set.add(x)`.
  unfoldable pub add : A → List A → List A
  unfolding has
  add x xs = if has x xs then xs else xs ++ x ∷ []

  unfoldable pub add_all : List A → List A → List A
  unfolding add
  add_all set [] = set
  add_all set (x ∷ xs) = add_all (add x set) xs

  -- `new Set(xs)`, and `[...new Set(xs)]`.
  unfoldable pub set_of : List A → List A
  unfolding add_all
  set_of xs = add_all [] xs

  -- No two of the elements are equal.
  abbrev pub IsDistinct : List A → Type 0
  IsDistinct [] = Unit
  IsDistinct (x ∷ xs) = (has x xs ≡ false) × IsDistinct xs

  has-append : (x : A) (xs ys : List A) → has x (xs ++ ys) ≡ (has x xs || has x ys)
  unfolding has
  has-append x [] ys = refl
  has-append x (y ∷ xs) ys = ground (arith, has-append x xs ys)

module _ {ℓ} {A : Type ℓ} (eq : A → A → Bool) (eq_iff : (x y : A) → (eq x y ≡ true) ↔ (x ≡ y)) where
  has-add : (x y : A) (xs : List A) → has eq x (add eq y xs) ≡ (has eq x xs || eq x y)
  unfolding add has
  has-add x y xs = ground (arith, eq_iff x y, has-append eq x xs (y ∷ []))

  has-add_all :
      (x : A) (set xs : List A) → has eq x (add_all eq set xs) ≡ (has eq x set || has eq x xs)
  unfolding add_all has
  has-add_all x set [] = ground arith
  has-add_all x set (y ∷ xs) = ground (arith, has-add_all x (add eq y set) xs, has-add x y set)

  -- A set has the elements of the list that it is made of.
  pub has-set_of : (x : A) (xs : List A) → has eq x (set_of eq xs) ≡ has eq x xs
  unfolding set_of has
  has-set_of x xs = has-add_all x [] xs

  append-IsDistinct :
      (x : A) (xs : List A) → has eq x xs ≡ false → IsDistinct eq xs → IsDistinct eq (xs ++ x ∷ [])
  unfolding has
  append-IsDistinct x [] h d = (refl, tt)
  append-IsDistinct x (y ∷ xs) h d =
      ground (arith, eq_iff x y, eq_iff y x, has-append eq y xs (x ∷ []), append-IsDistinct x xs)

  add-IsDistinct : (x : A) (xs : List A) → IsDistinct eq xs → IsDistinct eq (add eq x xs)
  unfolding add
  add-IsDistinct x xs d = elim (Bool-cases (has eq x xs)) [
    | inl e ↦ rw e d
    | inr e ↦ rw e (append-IsDistinct x xs e d)
  ]

  add_all-IsDistinct : (set xs : List A) → IsDistinct eq set → IsDistinct eq (add_all eq set xs)
  unfolding add_all
  add_all-IsDistinct set [] d = d
  add_all-IsDistinct set (x ∷ xs) d = add_all-IsDistinct (add eq x set) xs (add-IsDistinct x set d)

  pub set_of-IsDistinct : (xs : List A) → IsDistinct eq (set_of eq xs)
  unfolding set_of
  set_of-IsDistinct xs = add_all-IsDistinct [] xs tt

  abbrev IsNew : List A → List A → Type 0
  IsNew set xs = All (λ x. has eq x set ≡ false) xs

  snoc-IsNew :
      (x : A) (set ys : List A) → has eq x ys ≡ false → IsNew set ys → IsNew (set ++ x ∷ []) ys
  unfolding has
  snoc-IsNew x set [] h n = tt
  snoc-IsNew x set (y ∷ ys) h n =
      ground (arith, eq_iff x y, eq_iff y x, has-append eq y set (x ∷ []), snoc-IsNew x set ys)

  add_all-IsNew :
      (set xs : List A) → IsDistinct eq xs → IsNew set xs → add_all eq set xs ≡ set ++ xs
  unfolding add_all add
  add_all-IsNew set [] d n = sym (append-nil set)
  add_all-IsNew set (x ∷ xs) d n = rw (n.0) (
      add_all-IsNew (set ++ x ∷ []) xs d.1 (snoc-IsNew x set xs d.0 n.1)
      ∙ append_assoc set (x ∷ []) xs)

  all-IsNew : (xs : List A) → IsNew [] xs
  unfolding has
  all-IsNew [] = tt
  all-IsNew (x ∷ xs) = (refl, all-IsNew xs)

  -- A list without repetition is its own set.
  pub set_of-distinct : (xs : List A) → IsDistinct eq xs → set_of eq xs ≡ xs
  unfolding set_of
  set_of-distinct xs d = add_all-IsNew [] xs d (all-IsNew xs)
