-- ===== src/Dashboard/Blocks.antt =====
-- Blocks of a YAML file, found by their indentation and edited in the list of its lines
-- (dashboard/packages/api/src/routers/dashboard.ts).
pub mod Edit
pub mod Insert
pub mod Blank
pub mod Exists
pub mod Total
use robotics_pacific_rim.Base.{
  ℕ, zero, suc, ◌+◌, ◌-◌, ◌*◌, ◌/◌, ◌%◌, ◌^◌, ◌≤◌, ◌<◌, Ordering, String, ◌≡◌, refl, sym, ap, ap₂,
  ◌∙◌, subst, fun_ext, ◌≢◌, ◌↔◌, ◌⊎◌, inl, inr, Bool, true, false, not, ◌&&◌, ◌||◌, Option, none,
  some, List, [], ◌∷◌, ◌++◌, map, append_assoc, append-nil, map-append, arith, ltb, leb, ◌==◌,
  if◌then◌else◌, ltb→lt, lt→ltb, leb→le, ==_iff, tests, Bool-cases, Option-cases, and-eq-true,
  or_else, is_some, length, take, drop, replicate, get_elem?, all, any, find, select, Each,
  or_else-Each, if-keeps, length-append, length-replicate, length-take, length-drop, length-map,
  All, All-append, Text, text, eq_text, eq_text_iff, eq_text_refl, has_text, is_empty, or_text,
  is_space, trim_start, trim_end, trim, starts_with, includes, ends_with, lower_unit, lower,
  is_upper_letter, is_lower_letter, is_digit, is_letter, join, before, string_runs,
}
use robotics_pacific_rim.Base.Result.{Result, ok, err}
use robotics_pacific_rim.Dashboard.Lines.{
  LineInfo, line_info, split_lines, splice, file_text, replace_line_range,
}
use robotics_pacific_rim.Dashboard.Routes.{CommunicationSection, section_text}

-- What the editing functions throw: that a block is not there, or that it is.
pub data EditFailure : Type 0 where
  unable_to_locate : Text → Text → EditFailure
  already_exists : Text → Text → EditFailure

-- A line that is not blank and not deeper than an indentation ends a block.
abbrev pub ends_block : ℕ → Text → Bool
ends_block indent line =
    not (is_empty (line_info line).trimmed) && leb (line_info line).indent indent

abbrev pub is_header : ℕ → Text → Text → Bool
is_header indent name line =
    (line_info line).indent == indent && eq_text (line_info line).trimmed (name ++ text ":")

-- The index of the first line that ends the block; the lines begin at an index.
unfoldable pub block_end : ℕ → ℕ → List Text → ℕ
unfolding line_info
block_end indent i [] = i
block_end indent i (line ∷ lines) =
    let rest = block_end indent (suc i) lines in if ends_block indent line then i else rest

-- The loop of `yamlChildBlockRange` over the lines from an index.
unfoldable pub child_block : ℕ → Text → ℕ → List Text → Option (ℕ × ℕ)
unfolding line_info block_end eq_text
child_block parent_indent name i [] = none
child_block parent_indent name i (line ∷ lines) =
    let rest = child_block parent_indent name (suc i) lines in
    if ends_block parent_indent line
    then none
    else if is_header (parent_indent + 2) name line
    then some (i, block_end (parent_indent + 2) (suc i) lines)
    else rest

unfoldable pub yaml_child_block_range : List Text → ℕ → ℕ → Text → Option (ℕ × ℕ)
unfolding child_block
yaml_child_block_range lines start parent_indent name =
    child_block parent_indent name (suc start) (drop (suc start) lines)

abbrev pub is_section_line : CommunicationSection → LineInfo → Bool
is_section_line section current =
    current.indent == 2
    && (eq_text current.trimmed (section_text section ++ text ":")
        || eq_text current.trimmed (section_text section ++ text ": {}"))

abbrev pub is_communication : Text → Bool
is_communication line =
    (line_info line).indent == 0 && eq_text (line_info line).trimmed (text "communication:")

-- The loop of `communicationSectionStart`, in the communication block or before it.
unfoldable pub section_from : CommunicationSection → Bool → ℕ → List Text → Option ℕ
unfolding line_info eq_text
section_from section in_communication i [] = none
section_from section in_communication i (line ∷ lines) =
    let inside = section_from section true (suc i) lines in
    let further = section_from section in_communication (suc i) lines in
    if is_communication line
    then inside
    else if in_communication && ends_block 0 line
    then none
    else if in_communication && is_section_line section (line_info line)
    then some i
    else further

unfoldable pub communication_section_start : List Text → CommunicationSection → Option ℕ
unfolding section_from
communication_section_start lines section = section_from section false 0 lines

-- The section's name in a message, `section.slice(0, -1)`.
abbrev pub singular : CommunicationSection → Text
singular CommunicationSection.services = text "service"
singular CommunicationSection.topics = text "topic"

abbrev replace_range :
    List Text → CommunicationSection → Text → Option Text → Option (ℕ × ℕ) → Result EditFailure Text
replace_range lines section name replacement none = err (unable_to_locate (singular section) name)
replace_range lines section name replacement (some (start, end)) =
    ok (replace_line_range lines start end replacement)

abbrev range_in : List Text → ℕ → Text → Option ℕ → Option (ℕ × ℕ)
range_in lines parent_indent name none = none
range_in lines parent_indent name (some start) =
    yaml_child_block_range lines start parent_indent name

unfoldable pub replace_yaml_route_block :
    Text → CommunicationSection → Text → Option Text → Result EditFailure Text
unfolding split_lines communication_section_start yaml_child_block_range replace_line_range
replace_yaml_route_block t section name replacement =
    let lines = split_lines t in
    replace_range lines section name replacement
      (range_in lines 2 name (communication_section_start lines section))

unfoldable pub route_block_exists : List Text → ℕ → ℕ → Text → Bool
unfolding yaml_child_block_range
route_block_exists lines section_start parent_indent name =
    is_some (yaml_child_block_range lines section_start parent_indent name)

-- `lines.findIndex(...)`, from an index.
unfoldable pub find_index : (Text → Bool) → ℕ → List Text → Option ℕ
find_index p i [] = none
find_index p i (line ∷ lines) =
    let rest = find_index p (suc i) lines in if p line then some i else rest

abbrev pub is_top_section : CommunicationSection → Text → Bool
is_top_section section line =
    (line_info line).indent == 0
    && eq_text (line_info line).trimmed (section_text section ++ text ":")

unfoldable pub replace_top_level_yaml_block :
    Text → CommunicationSection → Text → Option Text → Result EditFailure Text
unfolding split_lines find_index yaml_child_block_range replace_line_range line_info eq_text
replace_top_level_yaml_block t section name replacement =
    let lines = split_lines t in
    replace_range lines section name replacement
      (range_in lines 0 name (find_index (is_top_section section) 0 lines))
