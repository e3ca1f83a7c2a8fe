-- ===== src/Dashboard/Blocks/Edit.antt =====
-- Appending a route's block to a section that is there or is made
-- (dashboard/packages/api/src/routers/dashboard.ts).
use robotics_pacific_rim.Base.{
  ℕ, zero, suc, Bool, false, not, ◌&&◌, Option, none, some, List, [], ◌∷◌, ◌++◌, ltb, if◌then◌else◌,
  or_else, length, drop, replicate, get_elem?, Text, text, eq_text, is_empty, trim_end, trim,
}
use robotics_pacific_rim.Base.Result.{Result, ok, err}
use robotics_pacific_rim.Dashboard.Lines.{line_info, split_lines, splice, file_text}
use robotics_pacific_rim.Dashboard.Routes.{CommunicationSection, section_text}
use robotics_pacific_rim.Dashboard.Blocks.{
  EditFailure, already_exists, is_communication, singular, block_end, communication_section_start,
  route_block_exists, find_index, is_top_section,
}

abbrev pub is_blank : Text → Bool
is_blank line = is_empty (line_info line).trimmed

abbrev pub line_at : List Text → ℕ → Text
line_at lines i = or_else (get_elem? lines i) []

-- A section that is empty on its line gets the form that takes children.
unfoldable pub ensure_block_section : List Text → ℕ → CommunicationSection → List Text
unfolding line_info eq_text splice
ensure_block_section lines section_start section =
    let current = line_info (line_at lines section_start) in
    if eq_text current.trimmed (section_text section ++ text ": {}")
    then splice section_start (suc section_start)
        ((replicate current.indent 32 ++ (section_text section ++ text ":")) ∷ []) lines
    else lines

abbrev pub ensure_found : List Text → ℕ → CommunicationSection → Option ℕ → List Text × ℕ
ensure_found lines communication_start section (some existing) =
    (ensure_block_section lines existing section, existing)
ensure_found lines communication_start section none =
    let section_start =
      block_end 0 (suc communication_start) (drop (suc communication_start) lines) in
    (
      splice section_start section_start ((text "  " ++ (section_text section ++ text ":")) ∷ [])
          lines,
      section_start,
    )

unfoldable pub ensure_communication_section : List Text → ℕ → CommunicationSection → List Text × ℕ
unfolding ensure_block_section communication_section_start block_end splice
ensure_communication_section lines communication_start section =
    ensure_found lines communication_start section (communication_section_start lines section)

-- The loop that removes the blank lines at an index: each round takes one line out. It needs a
-- round for each line there, and one to stop; `none` is that the rounds are used up.
unfoldable pub remove_blank : ℕ → List Text → ℕ → Option (List Text)
unfolding splice line_info
remove_blank zero lines insert_at = none
remove_blank (suc rounds) lines insert_at =
    let rest = remove_blank rounds (splice insert_at (suc insert_at) [] lines) insert_at in
    if ltb insert_at (length lines) && is_blank (line_at lines insert_at) then rest else some lines

abbrev pub insert_index : ℕ → Option (List Text) → Option (List Text × ℕ)
insert_index insert_at none = none
insert_index insert_at (some lines) = some (lines, block_end 2 insert_at (drop insert_at lines))

-- The lines without the blank ones, and the index at which a route is inserted.
unfoldable pub route_insert_index : List Text → ℕ → Option (List Text × ℕ)
unfolding remove_blank block_end
route_insert_index lines section_start =
    insert_index (suc section_start) (remove_blank (suc (length lines)) lines (suc section_start))

-- The lines of a text without white space at its end, which are none for the empty text.
abbrev pub lines_of : Text → List Text
lines_of [] = []
lines_of (c ∷ t) = split_lines (c ∷ t)

-- `lines.at(-1)?.trim()` is truthy.
abbrev last_is_full : List Text → Bool
last_is_full [] = false
last_is_full (line ∷ []) = not (is_empty (trim line))
last_is_full (line ∷ next ∷ lines) = last_is_full (next ∷ lines)

-- The index of a heading, which is added at the end when it is missing.
abbrev pub with_heading : List Text → Text → Option ℕ → List Text × ℕ
with_heading lines heading (some start) = (lines, start)
with_heading lines heading none =
    let parted = if last_is_full lines then lines ++ [] ∷ [] else lines in
    (parted ++ heading ∷ [], length parted)

abbrev pub insert_block : List Text → ℕ → Text → List Text
insert_block lines insert_at replacement =
    splice insert_at insert_at (split_lines (trim_end replacement)) lines

abbrev inserted : Text → Option (List Text × ℕ) → Option Text
inserted replacement none = none
inserted replacement (some (lines, insert_at)) =
    some (file_text (insert_block lines insert_at replacement))

-- In the communication block; the result is `none` where the loop over blank lines ran out.
unfoldable pub append_in_section :
    List Text → ℕ → CommunicationSection → Text → Text → Result EditFailure (Option Text)
unfolding route_block_exists route_insert_index splice split_lines trim_end file_text
append_in_section lines section_start section name replacement =
    if route_block_exists lines section_start 2 name
    then err (already_exists (singular section) name)
    else ok (inserted replacement (route_insert_index lines section_start))

unfoldable pub append_yaml_route_block :
    Text → CommunicationSection → Text → Text → Result EditFailure (Option Text)
unfolding trim_end trim split_lines find_index ensure_communication_section append_in_section
    line_info eq_text
append_yaml_route_block t section name replacement =
    let lines = lines_of (trim_end t) in
    let (with_communication, communication_start) =
      with_heading lines (text "communication:") (find_index is_communication 0 lines) in
    let (with_section, section_start) =
      ensure_communication_section with_communication communication_start section in
    append_in_section with_section section_start section name replacement

abbrev append_top_level :
    List Text → ℕ → CommunicationSection → Text → Text → Result EditFailure Text
append_top_level lines section_start section name replacement =
    if route_block_exists lines section_start 0 name
    then err (already_exists (singular section) name)
    else ok (
        file_text (
          insert_block lines (block_end 0 (suc section_start) (drop (suc section_start) lines))
            replacement))

unfoldable pub append_top_level_yaml_route_block :
    Text → CommunicationSection → Text → Text → Result EditFailure Text
unfolding trim_end trim split_lines find_index route_block_exists block_end splice file_text
    line_info eq_text
append_top_level_yaml_route_block t section name replacement =
    let lines = lines_of (trim_end t) in
    let (with_section, section_start) =
      with_heading lines (section_text section ++ text ":")
        (find_index (is_top_section section) 0 lines) in
    append_top_level with_section section_start section name replacement
