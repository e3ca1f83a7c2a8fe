-- ===== src/Dashboard/Formats/Field.antt =====
-- A field's line, written and read (dashboard/packages/api/src/routers/dashboard.ts).
use robotics_pacific_rim.Base.{
  ℕ, ◌≡◌, refl, ap, inl, inr, true, false, Option, none, some, [], ◌∷◌, ◌++◌, arith, ◌==◌,
  Bool-cases, All, Text, text, eq_text, is_empty, is_space, trim_start, is_digit,
}
use robotics_pacific_rim.Base.Decimal.{show_nat, show_nat_digits, show_nat_full}
use robotics_pacific_rim.Dashboard.Names.{is_word_start, is_word_unit}
use robotics_pacific_rim.Dashboard.Joined.{span-append, trim_start-full}
use robotics_pacific_rim.Dashboard.Formats.{
  DataFieldSummary, after_prefix, spaced, then_do, digits_at, is_type_unit, field_at, proto_field,
  first_of,
}

-- A type that the pattern of a field takes: a word with dots and angle brackets.
abbrev pub IsTypeName : Text → Type 0
IsTypeName [] = ⊥
IsTypeName (c ∷ s) = (is_word_start c ≡ true) × All (λ d. is_type_unit d ≡ true) s

abbrev pub IsWord : Text → Type 0
IsWord [] = ⊥
IsWord (c ∷ s) = (is_word_start c ≡ true) × All (λ d. is_word_unit d ≡ true) s

pub start-full : (c : ℕ) → is_word_start c ≡ true → is_space c ≡ false
unfolding is_space
start-full c h = ground arith

digit-full : (c : ℕ) → is_digit c ≡ true → is_space c ≡ false
unfolding is_space
digit-full c h = ground arith

digits_at-digits :
    (s : Text)
    → All (λ c. is_digit c ≡ true) s
    → is_empty s ≡ false
    → digits_at (trim_start (32 ∷ (s ++ text ";"))) ≡ some s
unfolding trim_start is_space
digits_at-digits [] h e = cc
digits_at-digits (c ∷ s) h e =
    rw (digit-full c h.0, span-append is_digit (c ∷ s) [] b';' h refl) refl

-- The line of a field without its indentation.
abbrev pub field_text : Text → Text → ℕ → Text
field_text type name n = type ++ (b' ' ∷ (name ++ (text " = " ++ (show_nat n ++ text ";"))))

abbrev pub field_of : Text → Text → ℕ → DataFieldSummary
field_of type name n = record { type = type; name = name; number = show_nat n }

pub field_at-field_text :
    (type name : Text) (n : ℕ)
    → IsTypeName type
    → IsWord name
    → field_at (field_text type name n) ≡ some (field_of type name n)
unfolding field_at
field_at-field_text [] name n h k = absurd h
field_at-field_text (c ∷ type) [] n h k = absurd k
field_at-field_text (c ∷ type) (d ∷ name) n h k =
    let tail = text "= " ++ (show_nat n ++ text ";") in
    rw
      (
        h.0,
        span-append is_type_unit type ((d ∷ name) ++ 32 ∷ tail) 32 h.1 refl,
        trim_start-full d (name ++ 32 ∷ tail) (start-full d k.0),
        k.0,
        span-append is_word_unit name tail 32 k.1 refl,
      )
      (ap
        (λ o.
          then_do o (λ number. some (record { type = c ∷ type; name = d ∷ name; number = number })))
        (digits_at-digits (show_nat n) (show_nat_digits n) (show_nat_full n)))

pub type-full : (c : ℕ) → is_type_unit c ≡ true → is_space c ≡ false
unfolding is_space
type-full c h = ground arith

type-not-space : (c : ℕ) → is_type_unit c ≡ true → (c == 32) ≡ false
type-not-space c h = ground arith

start-type : (c : ℕ) → is_word_start c ≡ true → is_type_unit c ≡ true
start-type c h = ground arith

pub type-units : (type : Text) → IsTypeName type → All (λ d. is_type_unit d ≡ true) type
type-units [] h = absurd h
type-units (c ∷ type) h = (start-type c h.0, h.1)

repeated-units : All (λ d. is_type_unit d ≡ true) (text "repeated")
repeated-units = (refl, (refl, (refl, (refl, (refl, (refl, (refl, (refl, tt))))))))

only : {A : Type 0} {o : Option A} (a : A) → o ≡ none → first_of o (some a) ≡ some a
only a e = rw e refl

then_do-none :
    {A B C : Type 0} (o : Option A) (f : A → Option B) (g : B → Option C)
    → then_do o f ≡ none
    → then_do o (λ a. then_do (f a) g) ≡ none
then_do-none none f g h = refl
then_do-none (some a) f g h = rw h refl

-- What `repeated` and white space begin is no type name, unless it is that word.
spaced-after_prefix :
    (p type rest : Text)
    → All (λ d. is_type_unit d ≡ true) p
    → All (λ d. is_type_unit d ≡ true) type
    → eq_text p type ≡ false
    → then_do (after_prefix p (type ++ 32 ∷ rest)) spaced ≡ none
unfolding eq_text
spaced-after_prefix [] [] rest h k e = cc
spaced-after_prefix [] (d ∷ type) rest h k e = rw (type-full d k.0) refl
spaced-after_prefix (c ∷ p) [] rest h k e = rw (type-not-space c h.0) refl
spaced-after_prefix (c ∷ p) (d ∷ type) rest h k e = elim (Bool-cases (c == d)) [
  | inl q ↦ rw q (spaced-after_prefix p type rest h.1 k.1 (ground (arith, q, e)))
  | inr q ↦ rw q refl
]

-- The whole pattern takes the line of a field.
pub proto_field-field_text :
    (type name : Text) (n : ℕ)
    → IsTypeName type
    → IsWord name
    → eq_text (text "repeated") type ≡ false
    → proto_field (field_text type name n) ≡ some (field_of type name n)
unfolding proto_field
proto_field-field_text type name n h k e = rw (field_at-field_text type name n h k) (
    only (field_of type name n) (
      then_do-none (after_prefix (text "repeated") (field_text type name n)) spaced field_at
        (spaced-after_prefix (text "repeated") type _ repeated-units (type-units type h) e)))
