-- ===== src/Base/Decimal.antt =====
-- `String(n)` for a whole number, and its inverse.
use robotics_pacific_rim.Base.Tests.{if◌then◌else◌, ltb, Bool-cases}
use robotics_pacific_rim.Base.Lists.{All, All-append}
use robotics_pacific_rim.Base.Strings.{Text, is_digit, is_empty}
use Prim.Native.Nat.{ℕ, zero, suc, ◌+◌, ◌-◌, ◌*◌, ◌/◌, ◌%◌, ◌<◌}
use mathlib.Core.Path.{◌≡◌, refl}
use mathlib.Core.Logic.{inl, inr}
use mathlib.Core.Bool.{true, false}
use mathlib.Core.List.{[], ◌∷◌, ◌++◌, foldl, foldl-append}
use native.Mathlib.Omega.{arith}

-- The digits of `n`, on fuel above `n`.
show_from : ℕ → ℕ → Text
show_from zero n = []
show_from (suc f) n =
    let more = show_from f (n / 10) ++ (48 + n % 10) ∷ [] in
    if ltb n 10 then (48 + n) ∷ [] else more

unfoldable pub show_nat : ℕ → Text
unfolding show_from
show_nat n = show_from (suc n) n

abbrev shift : ℕ → ℕ → ℕ
shift n c = n * 10 + (c - 48)

-- `parseInt` of a run of decimal digits.
unfoldable pub read_nat : Text → ℕ
read_nat s = foldl shift 0 s

show_from_lem : (f n : ℕ) → n < f → read_nat (show_from f n) ≡ n
unfolding show_from read_nat
show_from_lem zero n h = absurd (omega arith)
show_from_lem (suc f) n h = elim (Bool-cases (ltb n 10)) [
  | inl small ↦ rw small (omega arith)
  | inr large ↦
      rw large (rw foldl-append (rw (show_from_lem f (n / 10) (ground arith)) (omega arith)))
]

-- Printing a number and reading it back gives the number.
pub read_nat-show_nat : (n : ℕ) → read_nat (show_nat n) ≡ n
unfolding show_nat
read_nat-show_nat n = show_from_lem (suc n) n (omega arith)

show_from_digits : (f n : ℕ) → n < f → All (λ c. is_digit c ≡ true) (show_from f n)
unfolding show_from
show_from_digits zero n h = absurd (omega arith)
show_from_digits (suc f) n h = elim (Bool-cases (ltb n 10)) [
  | inl small ↦ rw small (ground arith, tt)
  | inr large ↦ rw large (
      All-append (λ c. is_digit c ≡ true) (show_from f (n / 10)) ((48 + n % 10) ∷ [])
        (show_from_digits f (n / 10) (ground arith)) (ground arith, tt))
]

-- The text of a number has decimal digits alone.
pub show_nat_digits : (n : ℕ) → All (λ c. is_digit c ≡ true) (show_nat n)
unfolding show_nat
show_nat_digits n = show_from_digits (suc n) n (omega arith)

snoc-full : (s : Text) (c : ℕ) → is_empty (s ++ c ∷ []) ≡ false
snoc-full [] c = refl
snoc-full (d ∷ s) c = refl

pub show_nat_full : (n : ℕ) → is_empty (show_nat n) ≡ false
unfolding show_nat show_from
show_nat_full n = elim (Bool-cases (ltb n 10)) [
  | inl small ↦ rw small refl
  | inr large ↦ rw large (snoc-full (show_from n (n / 10)) (48 + n % 10))
]

show_nat_test : show_nat 65535 ≡ 54 ∷ 53 ∷ 53 ∷ 51 ∷ 53 ∷ []
unfolding show_nat
show_nat_test = refl
