-- ===== src/Monitor/Numbers.antt =====
-- The arithmetic of the sequence numbers (monitor/pr-monitor/src/model.ts): numbers of JavaScript
-- that are whole, infinite or NaN.
use robotics_pacific_rim.Base.{
  ℕ, suc, ◌+◌, ◌-◌, ◌≡◌, refl, inl, inr, Bool-cases, Bool, true, false, arith, leb, ◌==◌,
  if◌then◌else◌,
}
use robotics_pacific_rim.Monitor.Types.{
  ℤ, pos, negsuc, to_nat, Number, whole, infinity, minus_infinity, not_a_number,
}

infixl 6 ◌+ℤ◌
abbrev pub ◌+ℤ◌ : ℤ → ℤ → ℤ
pos m +ℤ pos n = pos (m + n)
pos m +ℤ negsuc n = if leb (suc n) m then pos (m - suc n) else negsuc (n - m)
negsuc m +ℤ pos n = if leb (suc m) n then pos (n - suc m) else negsuc (m - n)
negsuc m +ℤ negsuc n = negsuc (suc (m + n))

abbrev pub leb_ℤ : ℤ → ℤ → Bool
leb_ℤ (pos m) (pos n) = leb m n
leb_ℤ (pos m) (negsuc n) = false
leb_ℤ (negsuc m) (pos n) = true
leb_ℤ (negsuc m) (negsuc n) = leb n m

abbrev is_same_ℤ : ℤ → ℤ → Bool
is_same_ℤ (pos m) (pos n) = m == n
is_same_ℤ (pos m) (negsuc n) = false
is_same_ℤ (negsuc m) (pos n) = false
is_same_ℤ (negsuc m) (negsuc n) = m == n

-- `a + b`.
unfoldable pub add_number : Number → Number → Number
add_number not_a_number b = not_a_number
add_number a not_a_number = not_a_number
add_number (whole i) (whole j) = whole (i +ℤ j)
add_number (whole i) infinity = infinity
add_number (whole i) minus_infinity = minus_infinity
add_number infinity minus_infinity = not_a_number
add_number infinity b = infinity
add_number minus_infinity infinity = not_a_number
add_number minus_infinity b = minus_infinity

-- `Math.max(0, a)`.
unfoldable pub max_zero : Number → Number
max_zero (whole i) = whole (pos (to_nat i))
max_zero infinity = infinity
max_zero minus_infinity = whole (pos 0)
max_zero not_a_number = not_a_number

-- `a === b`.
unfoldable pub is_same : Number → Number → Bool
is_same (whole i) (whole j) = is_same_ℤ i j
is_same infinity infinity = true
is_same minus_infinity minus_infinity = true
is_same a b = false

-- The second number is NaN, or it is not below the first, which is then a number.
unfoldable pub is_not_below : Number → Number → Bool
is_not_below a not_a_number = true
is_not_below not_a_number b = false
is_not_below (whole i) (whole j) = leb_ℤ i j
is_not_below (whole i) infinity = true
is_not_below (whole i) minus_infinity = false
is_not_below infinity infinity = true
is_not_below infinity b = false
is_not_below minus_infinity b = true

leb_ℤ_trans : (i j k : ℤ) → leb_ℤ i j ≡ true → leb_ℤ j k ≡ true → leb_ℤ i k ≡ true
leb_ℤ_trans (pos i) (pos j) (pos k) h l = ground (arith, h, l)
leb_ℤ_trans (pos i) (pos j) (negsuc k) h l = l
leb_ℤ_trans (pos i) (negsuc j) k h l = cc
leb_ℤ_trans (negsuc i) j (pos k) h l = refl
leb_ℤ_trans (negsuc i) (pos j) (negsuc k) h l = cc
leb_ℤ_trans (negsuc i) (negsuc j) (negsuc k) h l = ground (arith, h, l)

pub is_not_below_trans :
    (a b c : Number) → is_not_below a b ≡ true → is_not_below b c ≡ true → is_not_below a c ≡ true
unfolding is_not_below
is_not_below_trans a b not_a_number h k = refl
is_not_below_trans (whole i) (whole j) (whole l) h k = leb_ℤ_trans i j l h k
is_not_below_trans (whole i) infinity (whole l) h k = cc
is_not_below_trans (whole i) minus_infinity (whole l) h k = cc
is_not_below_trans (whole i) not_a_number (whole l) h k = cc
is_not_below_trans (whole i) b infinity h k = refl
is_not_below_trans (whole i) (whole j) minus_infinity h k = cc
is_not_below_trans (whole i) infinity minus_infinity h k = cc
is_not_below_trans (whole i) minus_infinity minus_infinity h k = cc
is_not_below_trans (whole i) not_a_number minus_infinity h k = cc
is_not_below_trans infinity (whole j) c h k = cc
is_not_below_trans infinity infinity c h k = k
is_not_below_trans infinity minus_infinity c h k = cc
is_not_below_trans infinity not_a_number (whole l) h k = cc
is_not_below_trans infinity not_a_number infinity h k = refl
is_not_below_trans infinity not_a_number minus_infinity h k = cc
is_not_below_trans minus_infinity b (whole l) h k = refl
is_not_below_trans minus_infinity b infinity h k = refl
is_not_below_trans minus_infinity b minus_infinity h k = refl
is_not_below_trans not_a_number (whole j) c h k = cc
is_not_below_trans not_a_number infinity c h k = cc
is_not_below_trans not_a_number minus_infinity c h k = cc
is_not_below_trans not_a_number not_a_number c h k = k

pub is_not_below_refl : (a : Number) → is_not_below a a ≡ true
unfolding is_not_below
is_not_below_refl (whole (pos i)) = ground arith
is_not_below_refl (whole (negsuc i)) = ground arith
is_not_below_refl infinity = refl
is_not_below_refl minus_infinity = refl
is_not_below_refl not_a_number = refl

leb_ℤ-add : (i : ℤ) (n : ℕ) → leb_ℤ i (i +ℤ pos n) ≡ true
leb_ℤ-add (pos m) n = ground arith
leb_ℤ-add (negsuc m) n = elim (Bool-cases (leb (suc m) n)) [
  | inl e ↦ rw e refl
  | inr e ↦ rw e (ground arith)
]

-- Adding the larger of 0 and a number lowers nothing.
pub add_number-max_zero : (a b : Number) → is_not_below a (add_number a (max_zero b)) ≡ true
unfolding is_not_below add_number max_zero
add_number-max_zero (whole i) (whole j) = leb_ℤ-add i (to_nat j)
add_number-max_zero (whole i) minus_infinity = leb_ℤ-add i 0
add_number-max_zero (whole i) infinity = refl
add_number-max_zero (whole i) not_a_number = refl
add_number-max_zero infinity (whole j) = refl
add_number-max_zero infinity infinity = refl
add_number-max_zero infinity minus_infinity = refl
add_number-max_zero infinity not_a_number = refl
add_number-max_zero minus_infinity (whole j) = refl
add_number-max_zero minus_infinity infinity = refl
add_number-max_zero minus_infinity minus_infinity = refl
add_number-max_zero minus_infinity not_a_number = refl
add_number-max_zero not_a_number b = refl
