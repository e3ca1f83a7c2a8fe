-- ===== src/Dashboard/Formats.antt =====
-- The data formats of a service: protocol buffers, ROS messages and services, DDS structs, read from
-- their files (dashboard/packages/api/src/routers/dashboard.ts).
pub mod Fields
pub mod Render
pub mod Field
pub mod Message
pub mod RoundTrip
use robotics_pacific_rim.Base.{
  ℕ, zero, suc, ◌+◌, ◌-◌, ◌*◌, ◌/◌, ◌%◌, ◌^◌, ◌≤◌, ◌<◌, Ordering, String, ◌≡◌, refl, sym, ap, ap₂,
  ◌∙◌, subst, fun_ext, ◌≢◌, ◌↔◌, ◌⊎◌, inl, inr, Bool, true, false, not, ◌&&◌, ◌||◌, Option, none,
  some, List, [], ◌∷◌, ◌++◌, map, append_assoc, append-nil, map-append, arith, ltb, leb, ◌==◌,
  if◌then◌else◌, ltb→lt, lt→ltb, leb→le, ==_iff, tests, Bool-cases, Option-cases, and-eq-true,
  or_else, is_some, length, take, drop, replicate, get_elem?, all, any, find, select, Each,
  or_else-Each, if-keeps, length-append, length-replicate, length-take, length-drop, length-map,
  All, All-append, Text, text, eq_text, eq_text_iff, eq_text_refl, has_text, is_empty, or_text,
  is_space, trim_start, trim_end, trim, starts_with, includes, ends_with, lower_unit, lower,
  is_upper_letter, is_lower_letter, is_digit, is_letter, join, before, string_runs,
}
use robotics_pacific_rim.Base.Decimal.{show_nat}
use robotics_pacific_rim.Dashboard.Lines.{span, split_lines, join_lines, is_dot}
use robotics_pacific_rim.Dashboard.Names.{is_word_start, is_word_unit}

pub data DataFormatKind : Type 0 where
  proto : DataFormatKind
  msg : DataFormatKind
  srv : DataFormatKind
  dds_idl : DataFormatKind

pub record DataFieldSummary : Type 0 where
  pub name : Text
  pub number : Text
  pub type : Text

pub record ModuleDataFormatItem : Type 0 where
  pub definition : Text
  pub fields : List DataFieldSummary
  pub id : Text
  pub kind : DataFormatKind
  pub name : Text
  pub path : Text
  pub source : Text

-- A word from the beginning, `[A-Za-z_]` and then units of a test, and what is behind it.
abbrev pub word_at : (ℕ → Bool) → Text → Option (Text × Text)
word_at p [] = none
word_at p (c ∷ s) =
    let (run, rest) = span p s in if is_word_start c then some (c ∷ run, rest) else none

-- What is behind a prefix.
abbrev pub after_prefix : Text → Text → Option Text
after_prefix [] s = some s
after_prefix (c ∷ p) [] = none
after_prefix (c ∷ p) (d ∷ s) = let rest = after_prefix p s in if c == d then rest else none

-- `\s+`: what is behind white space that is there.
abbrev pub spaced : Text → Option Text
spaced [] = none
spaced (c ∷ s) = if is_space c then some (trim_start s) else none

abbrev pub then_do : {A B : Type 0} → Option A → (A → Option B) → Option B
then_do none f = none
then_do (some a) f = f a

-- `\s*` and the unit.
abbrev pub unit_behind : ℕ → Text → Option Text
unit_behind c s = after_prefix (c ∷ []) (trim_start s)

-- The name in `PROTO_MESSAGE_REGEX`.
unfoldable pub proto_message : Text → Option Text
unfolding span trim_start is_space
proto_message line = then_do (after_prefix (text "message") line) λ s.
    then_do (spaced s)
      λ s. then_do (word_at is_word_unit s) λ w. then_do (unit_behind b'{' w.1) λ _. some w.0

abbrev pub is_type_unit : ℕ → Bool
is_type_unit c = is_word_unit c || c == b'.' || c == b'<' || c == b'>'

abbrev pub digits_at : Text → Option Text
digits_at s = let run = (span is_digit s).0 in if is_empty run then none else some run

-- `PROTO_FIELD_REGEX` behind its optional beginning.
unfoldable pub field_at : Text → Option DataFieldSummary
unfolding span trim_start is_space
field_at line = then_do (word_at is_type_unit line) λ t. then_do (spaced t.1) λ s.
    then_do (word_at is_word_unit s) λ n. then_do (unit_behind b'=' n.1) λ s.
      then_do (digits_at (trim_start s))
        λ number. some (record { type = t.0; name = n.0; number = number })

abbrev pub first_of : {A : Type 0} → Option A → Option A → Option A
first_of none o = o
first_of (some a) o = some a

-- The pattern tries `repeated\s+` before it does without.
unfoldable pub proto_field : Text → Option DataFieldSummary
unfolding field_at trim_start is_space
proto_field line =
    first_of (then_do (after_prefix (text "repeated") line) λ s. then_do (spaced s) field_at)
      (field_at line)

abbrev pub count_unit : ℕ → Text → ℕ
count_unit c [] = 0
count_unit c (d ∷ s) = let n = count_unit c s in if c == d then suc n else n

abbrev pub message_item : Text → Text → Text → ModuleDataFormatItem
message_item path line name = record {
  id = path ++ (text ":proto:" ++ name);
  name = name;
  kind = proto;
  source = text "message";
  path = path;
  definition = line;
  fields = [];
}

abbrev started : Text → Text → Option Text → Option ModuleDataFormatItem × ℕ
started path line none = (none, 0)
started path line (some name) = (some (message_item path line name), 1)

-- `startProtoFormat`: the message that begins, and the depth of its braces.
unfoldable pub start_proto_format : Text → Text → Option ModuleDataFormatItem × ℕ
unfolding proto_message
start_proto_format line path = started path line (proto_message line)

abbrev with_field : ModuleDataFormatItem → Option DataFieldSummary → ModuleDataFormatItem
with_field current none = current
with_field current (some field) = record current { fields = current.fields ++ field ∷ [] }

-- `updateProtoMessage`: the message with the line's field, and the depth of braces behind the line.
-- The caller tests the depth for `<= 0` only, so that it may stop at 0 here.
unfoldable pub update_proto_message : Text → ModuleDataFormatItem → ℕ → ModuleDataFormatItem × ℕ
unfolding proto_field
update_proto_message line current brace_depth = (
  with_field current (proto_field line),
  (brace_depth + count_unit b'{' line) - count_unit b'}' line,
)

-- The variables of the loop in `parseProtoFormats`.
pub record ProtoState : Type 0 where
  pub items : List ModuleDataFormatItem
  pub current : Option ModuleDataFormatItem
  pub brace_depth : ℕ
  pub current_definition_lines : List Text

abbrev pub defined : ModuleDataFormatItem → List Text → ModuleDataFormatItem
defined current lines = record current { definition = trim_end (join_lines lines) }

abbrev pub begin_message : ProtoState → Text → Option ModuleDataFormatItem × ℕ → ProtoState
begin_message state raw (none, depth) = record state {
  current = none;
  brace_depth = depth;
  current_definition_lines = [];
}
begin_message state raw (some current, depth) = record state {
  current = some current;
  brace_depth = depth;
  current_definition_lines = raw ∷ [];
}

abbrev pub in_message : ProtoState → Text → ModuleDataFormatItem × ℕ → ProtoState
in_message state raw (current, depth) =
    let lines = state.current_definition_lines ++ raw ∷ [] in
    if depth == 0
    then record {
      items = state.items ++ defined current lines ∷ [];
      current = none;
      brace_depth = depth;
      current_definition_lines = [];
    }
    else record state {
      current = some current;
      brace_depth = depth;
      current_definition_lines = lines;
    }

abbrev pub is_silent : Text → Bool
is_silent trimmed = is_empty trimmed || starts_with (text "//") trimmed

abbrev pub proto_step : Text → ProtoState → Text → Option ModuleDataFormatItem → ProtoState
proto_step path state raw none =
    if is_silent (trim raw)
    then state
    else begin_message state raw (start_proto_format (trim raw) path)
proto_step path state raw (some current) =
    if is_silent (trim raw)
    then record state { current_definition_lines = state.current_definition_lines ++ raw ∷ [] }
    else in_message state raw (update_proto_message (trim raw) current state.brace_depth)

unfoldable pub proto_lines : Text → ProtoState → List Text → ProtoState
unfolding start_proto_format update_proto_message trim starts_with trim_end join_lines
proto_lines path state [] = state
proto_lines path state (raw ∷ lines) =
    proto_lines path (proto_step path state raw state.current) lines

abbrev pub finished : ProtoState → Option ModuleDataFormatItem → List ModuleDataFormatItem
finished state none = state.items
finished state (some current) = state.items ++ defined current state.current_definition_lines ∷ []

abbrev pub proto_start : ProtoState
proto_start = record { items = []; current = none; brace_depth = 0; current_definition_lines = [] }

unfoldable pub parse_proto_formats : Text → Text → List ModuleDataFormatItem
unfolding proto_lines split_lines trim_end join_lines
parse_proto_formats t path =
    let state = proto_lines path proto_start (split_lines t) in finished state state.current
