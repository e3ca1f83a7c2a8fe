-- ===== src/Dashboard/Lines.antt =====
-- Lines of YAML and source text, as the dashboard reads them
-- (dashboard/packages/api/src/routers/dashboard.ts). The code's regular expressions are functions
-- that run over the units of the text.
use robotics_pacific_rim.Base.{
  ℕ, suc, Bool, false, not, ◌&&◌, ◌||◌, Option, none, some, List, [], ◌∷◌, ◌++◌, leb, ◌==◌,
  if◌then◌else◌, take, drop, all, Text, text, eq_text, is_empty, is_space, trim_start, trim_end,
  trim, starts_with, ends_with, is_digit, is_letter, join, string_runs,
}

-- `text.split(/\r?\n/)`: at a return before a line feed the line has ended.
abbrev starts_with_feed : Text → Bool
starts_with_feed [] = false
starts_with_feed (c ∷ s) = c == 10

abbrev cons_first : ℕ → List Text → List Text
cons_first c [] = (c ∷ []) ∷ []
cons_first c (line ∷ lines) = (c ∷ line) ∷ lines

unfoldable pub split_lines : Text → List Text
split_lines [] = [] ∷ []
split_lines (c ∷ s) =
    let lines = split_lines s in
    if c == 10
    then [] ∷ lines
    else if c == 13 && starts_with_feed s
    then lines
    else cons_first c lines

unfoldable pub join_lines : List Text → Text
unfolding join
join_lines lines = join (10 ∷ []) lines

-- What `.` in a regular expression takes: no line terminator.
abbrev pub is_dot : ℕ → Bool
is_dot c = not (c == 10 || c == 13 || c == 0x2028 || c == 0x2029)

unfoldable pub count_leading_spaces : Text → ℕ
count_leading_spaces [] = 0
count_leading_spaces (c ∷ s) = let n = count_leading_spaces s in if c == 32 then suc n else 0

-- `slice(1, -1)`.
abbrev pub drop_last : Text → Text
drop_last [] = []
drop_last (c ∷ []) = []
drop_last (c ∷ d ∷ s) = c ∷ drop_last (d ∷ s)

abbrev pub inner : Text → Text
inner s = drop_last (drop 1 s)

unfoldable pub scalar_value : Text → Text
unfolding trim starts_with ends_with
scalar_value value =
    let trimmed = trim value in
    if (starts_with (text "\"") trimmed && ends_with (text "\"") trimmed)
      || (starts_with (text "'") trimmed && ends_with (text "'") trimmed)
    then inner trimmed
    else trimmed

-- The end of `/\s+#.*$/` behind a first space: more of them, a hash, and no terminator.
abbrev has_hash : Text → Bool
has_hash [] = false
has_hash (c ∷ s) = if c == b'#' then all is_dot s else is_space c && has_hash s

-- The replacement happens at the leftmost place where the pattern fits.
unfoldable pub strip_inline_comment : Text → Text
unfolding is_space
strip_inline_comment [] = []
strip_inline_comment (c ∷ s) =
    let rest = strip_inline_comment s in if is_space c && has_hash s then [] else c ∷ rest

pub record LineInfo : Type 0 where
  pub indent : ℕ
  pub trimmed : Text

unfoldable pub line_info : Text → LineInfo
unfolding strip_inline_comment count_leading_spaces trim
line_info line =
    let without_comment = strip_inline_comment line in
    record { indent = count_leading_spaces without_comment; trimmed = trim without_comment }

-- `ParsedLine`.
pub record ParsedLine : Type 0 where
  pub indent : ℕ
  pub line_number : ℕ
  pub raw : Text
  pub trimmed : Text

unfoldable pub parsed_communication_line : Text → ℕ → Option ParsedLine
unfolding strip_inline_comment count_leading_spaces trim
parsed_communication_line raw_line line_number =
    let line = strip_inline_comment raw_line in
    let trimmed = trim line in
    if is_empty trimmed
    then none
    else some (record {
      indent = count_leading_spaces line;
      line_number = line_number;
      raw = line;
      trimmed = trimmed;
    })

abbrev pub is_key_unit : ℕ → Bool
is_key_unit c = is_letter c || is_digit c || c == b'_' || c == b'.' || c == b'-'

abbrev pub is_route_unit : ℕ → Bool
is_route_unit c = is_key_unit c || c == b'/'

-- The longest beginning of units that pass a test, and what is behind it.
unfoldable pub span : (ℕ → Bool) → Text → Text × Text
span p [] = ([], [])
span p (c ∷ s) = let (run, rest) = span p s in if p c then (c ∷ run, rest) else ([], c ∷ s)

-- `KEY_VALUE_REGEX` and `scalarValue`. No unit of a key is a colon.
abbrev key_value : Text → Text → Option (Text × Text)
key_value [] rest = none
key_value (k ∷ key) [] = none
key_value (k ∷ key) (c ∷ rest) =
    let value = trim_start rest in
    if c == b':' && all is_dot value then some (k ∷ key, scalar_value value) else none

unfoldable pub parse_key_value : Text → Option (Text × Text)
unfolding span trim_start scalar_value
parse_key_value trimmed_line = let (key, rest) = span is_key_unit trimmed_line in key_value key rest

-- `ROUTE_KEY_REGEX`: the name that its group takes.
unfoldable pub route_key : Text → Option Text
unfolding span eq_text
route_key trimmed_line =
    let (name, rest) = span is_route_unit trimmed_line in
    if not (is_empty name) && eq_text rest (text ":") then some name else none

-- The lines of a block behind its first: up to a line that is not blank and not deeper.
abbrev block_rest : ℕ → List Text → List Text
block_rest start_indent [] = []
block_rest start_indent (line ∷ lines) =
    let rest = block_rest start_indent lines in
    if not (is_empty (trim line)) && leb (count_leading_spaces line) start_indent
    then []
    else line ∷ rest

abbrev block_of : List Text → List Text
block_of [] = [] ∷ []
block_of (start ∷ lines) = start ∷ block_rest (count_leading_spaces start) lines

unfoldable pub yaml_block_from_line : Text → ℕ → Text
unfolding split_lines count_leading_spaces trim trim_end join_lines
yaml_block_from_line t start_line =
    trim_end (join_lines (block_of (drop start_line (split_lines t))))

-- A falsy replacement, the empty text as well as `null`, leaves no lines.
unfoldable pub replacement_lines : Option Text → List Text
unfolding trim_end split_lines
replacement_lines none = []
replacement_lines (some []) = []
replacement_lines (some (c ∷ t)) = split_lines (trim_end (c ∷ t))

-- `lines.splice(start, end - start, ...replacement)`, for indices that are in order.
unfoldable pub splice {ℓ} : {A : Type ℓ} → ℕ → ℕ → List A → List A → List A
splice start end replacement lines = take start lines ++ (replacement ++ drop end lines)

-- The text of a file: the lines, without white space at the end, and a line feed.
unfoldable pub file_text : List Text → Text
unfolding trim_end join_lines
file_text lines = trim_end (join_lines lines) ++ 10 ∷ []

unfoldable pub replace_line_range : List Text → ℕ → ℕ → Option Text → Text
unfolding splice replacement_lines file_text
replace_line_range lines start end replacement =
    file_text (splice start end (replacement_lines replacement) lines)

-- To be unfolded by tests that run code over lines.
unfoldable pub lines_run : Unit {0}
unfolding split_lines join_lines count_leading_spaces scalar_value strip_inline_comment line_info
    parsed_communication_line span parse_key_value route_key yaml_block_from_line replacement_lines
    splice file_text replace_line_range string_runs
lines_run = tt
