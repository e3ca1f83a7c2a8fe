-- ===== src/Dashboard/Formats/Message.antt =====
-- A message that is written is read back (dashboard/packages/api/src/routers/dashboard.ts).
use robotics_pacific_rim.Base.{
  ℕ, suc, ◌≡◌, refl, Bool, true, false, not, ◌&&◌, List, [], ◌∷◌, ◌++◌, arith, ◌==◌, all, All,
  All-append, Text, text, eq_text, trim, is_digit,
}
use robotics_pacific_rim.Base.Result.{ok}
use robotics_pacific_rim.Base.Decimal.{show_nat, show_nat_digits}
use robotics_pacific_rim.Dashboard.Names.{
  is_word_start, is_word_unit, is_word, validate_data_field_name,
}
use robotics_pacific_rim.Dashboard.Joined.{is_plain, trim-all, All-mono}
use robotics_pacific_rim.Dashboard.Formats.{DataFieldSummary, is_type_unit, count_unit}
use robotics_pacific_rim.Dashboard.Formats.Field.{
  IsTypeName, IsWord, field_text, field_of, type-units, type-full,
}
use robotics_pacific_rim.Dashboard.Formats.Render.{DataFormatField, field_lines, proto_field_line}

-- A type that the reader takes, other than the word `repeated`, and a name that is a word.
abbrev pub IsProtoField : DataFormatField → Type 0
IsProtoField field =
    IsTypeName field.type × IsWord field.name × (eq_text (text "repeated") field.type ≡ false)

abbrev pub summaries : ℕ → List DataFormatField → List DataFieldSummary
summaries n [] = []
summaries n (field ∷ fields) = field_of field.type field.name n ∷ summaries (suc n) fields

abbrev pub raw_lines : ℕ → List DataFormatField → List Text
raw_lines n [] = []
raw_lines n (field ∷ fields) =
    (text "  " ++ field_text field.type field.name n) ∷ raw_lines (suc n) fields

word-type : (c : ℕ) → is_word_unit c ≡ true → is_type_unit c ≡ true
word-type c h = ground arith

start-word : (c : ℕ) → is_word_start c ≡ true → is_word_unit c ≡ true
start-word c h = ground arith

pub word-units : (w : Text) → IsWord w → All (λ c. is_type_unit c ≡ true) w
word-units [] h = absurd h
word-units (c ∷ w) h = (word-type c (start-word c h.0), All-mono word-type w h.1)

pub trim-units : (s : Text) → All (λ c. is_type_unit c ≡ true) s → trim s ≡ s
trim-units s h = trim-all s (All-mono type-full s h)

all-word : (w : Text) → All (λ c. is_word_unit c ≡ true) w → all is_word_unit w ≡ true
all-word [] h = refl
all-word (c ∷ w) h = rw (h.0) (all-word w h.1)

is_word-IsWord : (w : Text) → IsWord w → is_word w ≡ true
is_word-IsWord [] h = absurd h
is_word-IsWord (c ∷ w) h = rw (h.0) (all-word w h.1)

pub validate-IsWord : (w : Text) → IsWord w → validate_data_field_name w ≡ ok w
unfolding validate_data_field_name
validate-IsWord w h = rw (trim-units w (word-units w h), is_word-IsWord w h) refl

pub field_lines-raw :
    (n : ℕ) (fields : List DataFormatField)
    → All IsProtoField fields
    → field_lines proto_field_line n fields ≡ ok (raw_lines n fields)
unfolding field_lines
field_lines-raw n [] h = refl
field_lines-raw n (field ∷ fields) h =
    rw
      (
        validate-IsWord field.name h.0.1,
        trim-units field.type (type-units field.type h.0.0),
        field_lines-raw (suc n) fields h.1,
      )
      refl

-- What a line of a field is made of: neither a brace nor a line terminator.
abbrev pub is_inert : ℕ → Bool
is_inert c = is_plain c && (not (c == b'{') && not (c == b'}'))

pub type-inert : (c : ℕ) → is_type_unit c ≡ true → is_inert c ≡ true
type-inert c h = ground arith

digit-inert : (c : ℕ) → is_digit c ≡ true → is_inert c ≡ true
digit-inert c h = ground arith

pub inert-plain : (c : ℕ) → is_inert c ≡ true → is_plain c ≡ true
inert-plain c h = ground arith

pub field_text-inert :
    (type name : Text) (n : ℕ)
    → IsTypeName type
    → IsWord name
    → All (λ c. is_inert c ≡ true) (field_text type name n)
field_text-inert type name n h k =
    let P = λ (c : ℕ). is_inert c ≡ true in
    let number =
      All-append P (show_nat n) (text ";") (All-mono digit-inert (show_nat n) (show_nat_digits n))
        (refl, tt) in
    let named =
      All-append P name (text " = " ++ (show_nat n ++ text ";"))
        (All-mono type-inert name (word-units name k)) (refl, (refl, (refl, number))) in
    All-append P type (b' ' ∷ (name ++ (text " = " ++ (show_nat n ++ text ";"))))
      (All-mono type-inert type (type-units type h)) (refl, named)

pub count-inert :
    (s : Text) → All (λ c. is_inert c ≡ true) s → (count_unit b'{' s ≡ 0) × (count_unit b'}' s ≡ 0)
count-inert [] h = (refl, refl)
count-inert (c ∷ s) h = let ih = count-inert s h.1 in ground (arith, ih, h.0)
