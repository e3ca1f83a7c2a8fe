-- ===== src/Dashboard/Formats/RoundTrip.antt =====
-- The reader run over the lines of a message that the dashboard wrote
-- (dashboard/packages/api/src/routers/dashboard.ts).
use robotics_pacific_rim.Base.{
  ℕ, suc, ◌≡◌, refl, sym, ap, ap₂, ◌∙◌, subst, true, false, none, some, List, [], ◌∷◌, ◌++◌,
  append_assoc, append-nil, arith, ◌==◌, All, All-append, Text, text, eq_text, is_space, trim_start,
  trim_end, trim, starts_with,
}
use robotics_pacific_rim.Base.Result.{ok}
use robotics_pacific_rim.Base.Decimal.{show_nat}
use robotics_pacific_rim.Dashboard.Lines.{join_lines}
use robotics_pacific_rim.Dashboard.Names.{is_word_start, is_word_unit}
use robotics_pacific_rim.Dashboard.Joined.{
  is_plain, IsPlain, split_lines-join_lines, span-append, trim_end-full, All-mono,
}
use robotics_pacific_rim.Dashboard.Formats.{
  field_at, ModuleDataFormatItem, proto_message, proto_field, message_item, start_proto_format,
  update_proto_message, ProtoState, is_silent, defined, proto_step, proto_lines, proto_start,
  finished, parse_proto_formats,
}
use robotics_pacific_rim.Dashboard.Formats.Field.{
  IsTypeName, IsWord, field_text, field_of, start-full, proto_field-field_text,
}
use robotics_pacific_rim.Dashboard.Formats.Message.{
  IsProtoField, summaries, raw_lines, word-units, field_lines-raw, type-inert, inert-plain,
  field_text-inert, count-inert,
}
use robotics_pacific_rim.Dashboard.Formats.Render.{DataFormatField, render_proto_message}

snoc-field_text :
    (type name : Text) (n : ℕ)
    → field_text type name n ≡ (type ++ (b' ' ∷ (name ++ (text " = " ++ show_nat n)))) ++ text ";"
snoc-field_text type name n = simp (append_assoc)

start-loud : (c : ℕ) → is_word_start c ≡ true → (47 == c) ≡ false
start-loud c h = ground arith

trim-field :
    (type name : Text) (n : ℕ)
    → IsTypeName type
    → trim (text "  " ++ field_text type name n) ≡ field_text type name n
unfolding trim trim_start is_space
trim-field [] name n h = absurd h
trim-field (c ∷ type) name n h = rw (start-full c h.0) (
    subst (λ s. trim_end s ≡ s) (sym (snoc-field_text (c ∷ type) name n))
      (trim_end-full ((c ∷ type) ++ (b' ' ∷ (name ++ (text " = " ++ show_nat n)))) b';' refl))

loud-field :
    (type name : Text) (n : ℕ) → IsTypeName type → is_silent (field_text type name n) ≡ false
unfolding starts_with
loud-field [] name n h = absurd h
loud-field (c ∷ type) name n h = rw (start-loud c h.0) refl

-- The state inside a message: its item, and the lines that it has so far.
abbrev inside : ModuleDataFormatItem → List Text → ProtoState
inside current lines = record {
  items = [];
  current = some current;
  brace_depth = 1;
  current_definition_lines = lines;
}

update-field :
    (current : ModuleDataFormatItem) (type name : Text) (n : ℕ)
    → IsTypeName type
    → IsWord name
    → eq_text (text "repeated") type ≡ false
    → update_proto_message (field_text type name n) current 1
      ≡ (record current { fields = current.fields ++ field_of type name n ∷ [] }, 1)
unfolding update_proto_message
update-field current type name n h k e =
    let counts = count-inert (field_text type name n) (field_text-inert type name n h k) in
    rw (proto_field-field_text type name n h k e, counts.0, counts.1) refl

step-field :
    (path : Text) (current : ModuleDataFormatItem) (lines : List Text) (field : DataFormatField)
    (n : ℕ)
    → IsProtoField field
    → let raw = text "  " ++ field_text field.type field.name n in
      proto_step path (inside current lines) raw (some current)
      ≡ inside
          (record current { fields = current.fields ++ field_of field.type field.name n ∷ [] })
          (lines ++ raw ∷ [])
step-field path current lines field n h =
    rw
      (
        trim-field field.type field.name n h.0,
        loud-field field.type field.name n h.0,
        update-field current field.type field.name n h.0 h.1 h.2,
      )
      refl

lines-fields :
    (path : Text) (current : ModuleDataFormatItem) (lines rest : List Text)
    (fields : List DataFormatField) (n : ℕ)
    → All IsProtoField fields
    → proto_lines path (inside current lines) (raw_lines n fields ++ rest)
      ≡ proto_lines path
          (inside
            (record current { fields = current.fields ++ summaries n fields })
            (lines ++ raw_lines n fields))
          rest
unfolding proto_lines
lines-fields path current lines rest [] n h = rw (append-nil current.fields, append-nil lines) refl
lines-fields path current lines rest (field ∷ fields) n h =
    let raw = text "  " ++ field_text field.type field.name n in
    let one = field_of field.type field.name n in
    ap (λ state. proto_lines path state (raw_lines (suc n) fields ++ rest))
      (step-field path current lines field n h.0)
    ∙ lines-fields path (record current { fields = current.fields ++ one ∷ [] }) (lines ++ raw ∷ [])
        rest fields (suc n) h.1
    ∙ ap₂ (λ fs ls. proto_lines path (inside (record current { fields = fs }) ls) rest)
        (append_assoc current.fields (one ∷ []) (summaries (suc n) fields))
        (append_assoc lines (raw ∷ []) (raw_lines (suc n) fields))

abbrev header : Text → Text
header name = text "message " ++ (name ++ text " {")

abbrev message_lines : Text → List DataFormatField → List Text
message_lines name fields = header name ∷ (raw_lines 1 fields ++ text "}" ∷ [])

trim-header : (name : Text) → trim (header name) ≡ header name
unfolding trim trim_start is_space
trim-header name =
    subst (λ s. trim_end s ≡ s)
      (append_assoc (text "message ") (name ++ text " ") (text "{")
        ∙ ap (λ s. text "message " ++ s) (append_assoc name (text " ") (text "{")))
      (trim_end-full (text "message " ++ (name ++ text " ")) b'{' refl)

proto_message-header : (name : Text) → IsWord name → proto_message (header name) ≡ some name
unfolding proto_message trim_start is_space
proto_message-header [] h = absurd h
proto_message-header (c ∷ name) h =
    rw (start-full c h.0, h.0, span-append is_word_unit name (text "{") 32 h.1 refl) refl

-- The item of a message that was written with its fields.
abbrev pub item_with : Text → Text → List DataFormatField → Text → ModuleDataFormatItem
item_with path name fields t = record (message_item path (header name) name) {
  fields = summaries 1 fields;
  definition = trim_end t;
}

step-header :
    (path name : Text)
    → IsWord name
    → proto_step path proto_start (header name) none
      ≡ inside (message_item path (header name) name) (header name ∷ [])
unfolding starts_with start_proto_format
step-header path name h = rw (trim-header name, proto_message-header name h) refl

step-close :
    (path : Text) (current : ModuleDataFormatItem) (lines : List Text)
    → proto_step path (inside current lines) (text "}") (some current)
      ≡ record proto_start { items = defined current (lines ++ text "}" ∷ []) ∷ [] }
unfolding starts_with trim trim_start is_space trim_end update_proto_message proto_field field_at
step-close path current lines = refl

lines-message :
    (path name : Text) (fields : List DataFormatField)
    → IsWord name
    → All IsProtoField fields
    → proto_lines path proto_start (message_lines name fields) ≡ record proto_start {
      items = item_with path name fields (join_lines (message_lines name fields)) ∷ [];
    }
unfolding proto_lines
lines-message path name fields h k =
    let item = message_item path (header name) name in
    ap (λ state. proto_lines path state (raw_lines 1 fields ++ text "}" ∷ []))
      (step-header path name h)
    ∙ lines-fields path item (header name ∷ []) (text "}" ∷ []) fields 1 k
    ∙ step-close path (record item { fields = summaries 1 fields })
        (header name ∷ raw_lines 1 fields)

raw_lines-IsPlain :
    (n : ℕ) (fields : List DataFormatField)
    → All IsProtoField fields
    → All IsPlain (raw_lines n fields)
raw_lines-IsPlain n [] h = tt
raw_lines-IsPlain n (field ∷ fields) h = (
  (
    refl,
    (
      refl,
      All-mono inert-plain (field_text field.type field.name n)
          (field_text-inert field.type field.name n h.0.0 h.0.1),
    ),
  ),
  raw_lines-IsPlain (suc n) fields h.1,
)

header-IsPlain : (name : Text) → IsWord name → IsPlain (header name)
header-IsPlain name h =
    All-append (λ c. is_plain c ≡ true) (text "message ") (name ++ text " {")
      (refl, (refl, (refl, (refl, (refl, (refl, (refl, (refl, tt))))))))
      (All-append (λ c. is_plain c ≡ true) name (text " {")
        (All-mono inert-plain name (All-mono type-inert name (word-units name h)))
        (refl, (refl, tt)))

message_lines-IsPlain :
    (name : Text) (fields : List DataFormatField)
    → IsWord name
    → All IsProtoField fields
    → All IsPlain (message_lines name fields)
message_lines-IsPlain name fields h k = (
  header-IsPlain name h,
  All-append IsPlain (raw_lines 1 fields) (text "}" ∷ []) (raw_lines-IsPlain 1 fields k)
      ((refl, tt), tt),
)

-- A message with a name that is a word, and fields whose names are words and whose types the reader
-- takes (and are not `repeated`), is written; and the text, read back, is that one message, with the
-- fields in their order and numbered from 1, and the text for its definition.
pub parse_proto_formats-render :
    (path name : Text) (fields : List DataFormatField)
    → IsWord name
    → All IsProtoField fields
    → (t : Text) × (render_proto_message name fields ≡ ok t)
      × (parse_proto_formats t path ≡ item_with path name fields t ∷ [])
unfolding render_proto_message parse_proto_formats
parse_proto_formats-render path name fields h k =
    let t = join_lines (message_lines name fields) in
    let split =
      split_lines-join_lines (header name) (raw_lines 1 fields ++ text "}" ∷ [])
        (message_lines-IsPlain name fields h k) in
    (
      t,
      rw (field_lines-raw 1 fields k) refl,
      ap (λ (state : ProtoState). finished state state.current)
          (ap (proto_lines path proto_start) split ∙ lines-message path name fields h k),
    )
