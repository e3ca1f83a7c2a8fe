-- ===== src/Deploy/Plain.antt =====
-- The character classes of the deployment's patterns against the units that a shell treats
-- specially (dashboard/packages/api/src/routers/deploy.ts).
use robotics_pacific_rim.Base.{
  ℕ, zero, suc, ◌≤◌, ◌<◌, ◌≡◌, ◌≢◌, refl, Text, text, All, ltb, is_letter, is_digit, ◌==◌,
  and-eq-true, Bool, true, false, not, ◌&&◌, ◌||◌, List, [], ◌∷◌, arith,
}
use robotics_pacific_rim.Deploy.Input.{
  Number, whole, negative, other, is_integer_within, all_units, is_word_unit, is_host_unit,
  is_user_unit, is_host, is_user, is_user_tail, is_package_name,
}

-- The units by which a shell takes a word apart or expands it, but for `$`.
abbrev pub shell_units : List ℕ
shell_units = text " ;|&<>()`'\"*?[]{}#~!=%^,+\\"

abbrev pub has_unit : ℕ → List ℕ → Bool
has_unit c [] = false
has_unit c (d ∷ ds) = c == d || has_unit c ds

-- White space, control characters, quotes, separators, globs, and all beyond ASCII.
unfoldable pub is_shell_special : ℕ → Bool
is_shell_special c = ltb c 32 || ltb 126 c || has_unit c shell_units

-- A word that a shell reads as it stands.
abbrev pub IsPlainWord : Text → Type 0
IsPlainWord = All (λ c. (is_shell_special c ≡ false) × (c ≢ b'$'))

-- A plain word, but that one `$` may end it.
abbrev pub IsPlainUser : Text → Type 0
IsPlainUser [] = Unit
IsPlainUser (c ∷ []) = is_shell_special c ≡ false
IsPlainUser (c ∷ d ∷ s) = ((is_shell_special c ≡ false) × (c ≢ b'$')) × IsPlainUser (d ∷ s)

-- A test of every unit under a bound, and what it says of one of them.
holds_below : (ℕ → Bool) → ℕ → Bool
holds_below test zero = true
holds_below test (suc bound) = holds_below test bound && test bound

holds_at :
    (test : ℕ → Bool) (bound c : ℕ) → c < bound → holds_below test bound ≡ true → test c ≡ true
unfolding holds_below
holds_at test zero c lt h = absurd (omega arith)
holds_at test (suc bound) c lt h = ground (arith, holds_at test bound c)

-- The widest of the character classes, with the `$` of the user pattern.
abbrev is_allowed : ℕ → Bool
is_allowed c = is_user_unit c || c == b'$'

allowed_table : holds_below (λ c. not (is_allowed c && is_shell_special c)) 128 ≡ true
unfolding holds_below is_shell_special
allowed_table = refl

allowed-lt : (c : ℕ) → is_allowed c ≡ true → c < 128
allowed-lt c h = ground arith

allowed_plain : (c : ℕ) → is_allowed c ≡ true → is_shell_special c ≡ false
allowed_plain c h = let k = holds_at _ 128 c (allowed-lt c h) allowed_table in ground arith

pub user_unit_plain : (c : ℕ) → is_user_unit c ≡ true → (is_shell_special c ≡ false) × (c ≢ b'$')
user_unit_plain c h = (allowed_plain c (rw h refl), ground arith)

all_units_plain :
    (p : ℕ → Bool) (s : Text)
    → ((c : ℕ) → p c ≡ true → is_user_unit c ≡ true)
    → all_units p s ≡ true
    → IsPlainWord s
all_units_plain p [] sub h = tt
all_units_plain p (c ∷ s) sub h =
    let (here, later) = and-eq-true (p c) (all_units p s) h in
    (user_unit_plain c (sub c here), all_units_plain p s sub later)

letter-user : (c : ℕ) → is_letter c ≡ true → is_user_unit c ≡ true
letter-user c h = rw h refl

letter_or_digit : (c : ℕ) → (is_letter c || is_digit c) ≡ true → is_user_unit c ≡ true
letter_or_digit c h = ground arith

first-user : (c : ℕ) → (is_letter c || c == b'_') ≡ true → is_user_unit c ≡ true
first-user c h = ground arith

host-user : (c : ℕ) → is_host_unit c ≡ true → is_user_unit c ≡ true
host-user c h = ground arith

word-user : (c : ℕ) → is_word_unit c ≡ true → is_user_unit c ≡ true
word-user c h = rw h refl

pub is_host-IsPlainWord : (s : Text) → is_host s ≡ true → IsPlainWord s
unfolding is_host
is_host-IsPlainWord [] h = tt
is_host-IsPlainWord (c ∷ s) h =
    let (here, later) = and-eq-true (is_letter c || is_digit c) (all_units is_host_unit s) h in
    (user_unit_plain c (letter_or_digit c here), all_units_plain is_host_unit s host-user later)

pub is_package_name-IsPlainWord : (s : Text) → is_package_name s ≡ true → IsPlainWord s
unfolding is_package_name
is_package_name-IsPlainWord [] h = tt
is_package_name-IsPlainWord (c ∷ s) h =
    let (here, later) = and-eq-true (is_letter c) (all_units is_word_unit s) h in
    (user_unit_plain c (letter-user c here), all_units_plain is_word_unit s word-user later)

is_user_tail-IsPlainUser : (c : ℕ) (s : Text) → is_user_tail (c ∷ s) ≡ true → IsPlainUser (c ∷ s)
unfolding is_user_tail
is_user_tail-IsPlainUser c [] h = allowed_plain c h
is_user_tail-IsPlainUser c (d ∷ s) h =
    let (here, later) = and-eq-true (is_user_unit c) (is_user_tail (d ∷ s)) h in
    (user_unit_plain c here, is_user_tail-IsPlainUser d s later)

pub is_user-IsPlainUser : (s : Text) → is_user s ≡ true → IsPlainUser s
unfolding is_user
is_user-IsPlainUser [] h = tt
is_user-IsPlainUser (c ∷ []) h =
    let (here, later) = and-eq-true (is_letter c || c == b'_') (is_user_tail []) h in
    (user_unit_plain c (first-user c here)).0
is_user-IsPlainUser (c ∷ d ∷ s) h =
    let (here, later) = and-eq-true (is_letter c || c == b'_') (is_user_tail (d ∷ s)) h in
    (user_unit_plain c (first-user c here), is_user_tail-IsPlainUser d s later)

-- A word that no command line takes for an option.
abbrev pub IsNoOption : Text → Type 0
IsNoOption [] = ⊥
IsNoOption (c ∷ s) = c ≢ b'-'

abbrev pub IsWithin : ℕ → ℕ → Number → Type 0
IsWithin lo hi n = (k : ℕ) × (n ≡ whole k) × (lo ≤ k) × (k ≤ hi)

pub is_integer_within-IsWithin :
    (lo hi : ℕ) (n : Number) → is_integer_within lo hi n ≡ true → IsWithin lo hi n
unfolding is_integer_within
is_integer_within-IsWithin lo hi (whole k) h = (k, refl, ground arith, ground arith)
is_integer_within-IsWithin lo hi (negative k) h = cc
is_integer_within-IsWithin lo hi (other t) h = cc

pub is_host-IsNoOption : (s : Text) → is_host s ≡ true → IsNoOption s
unfolding is_host
is_host-IsNoOption [] h = cc
is_host-IsNoOption (c ∷ s) h = ground arith

pub is_user-IsNoOption : (s : Text) → is_user s ≡ true → IsNoOption s
unfolding is_user
is_user-IsNoOption [] h = cc
is_user-IsNoOption (c ∷ s) h = ground arith

pub is_package_name-IsNoOption : (s : Text) → is_package_name s ≡ true → IsNoOption s
unfolding is_package_name
is_package_name-IsNoOption [] h = cc
is_package_name-IsNoOption (c ∷ s) h = ground arith
