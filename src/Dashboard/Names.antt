-- ===== src/Dashboard/Names.antt =====
-- Names that the dashboard takes and makes (dashboard/packages/api/src/routers/dashboard.ts). The
-- regular expressions are tests over the units.
use robotics_pacific_rim.Base.{
  ℕ, Bool, true, false, not, ◌&&◌, ◌||◌, List, [], ◌∷◌, ◌++◌, map, ◌==◌, if◌then◌else◌, or_else,
  take, get_elem?, all, any, Text, text, eq_text, is_empty, trim, starts_with, ends_with,
  is_upper_letter, is_lower_letter, is_digit, is_letter, join, string_runs,
}
use robotics_pacific_rim.Base.Result.{Result, ok, err}
use robotics_pacific_rim.Dashboard.Lines.{is_route_unit}

pub data NameFailure : Type 0 where
  invalid_module_name : Text → NameFailure
  uppercase_module_name : Text → NameFailure
  invalid_data_format_name : Text → NameFailure
  invalid_field_name : Text → NameFailure
  invalid_route_name : Text → NameFailure
  service_type_field : Text → NameFailure

abbrev dash_to_underscore : ℕ → ℕ
dash_to_underscore c = if c == b'-' then b'_' else c

unfoldable pub to_package_name : Text → Text
to_package_name value = map dash_to_underscore value

unfoldable pub to_service_name : Text → Text
unfolding to_package_name ends_with
to_service_name value =
    let package_name = to_package_name value in
    if ends_with (text "_service") package_name
    then package_name
    else package_name ++ text "_service"

abbrev pub is_kebab_unit : ℕ → Bool
is_kebab_unit c = is_lower_letter c || is_digit c

-- What follows a unit of `[a-z0-9]`, or a dash: `[a-z0-9]*(?:-[a-z0-9]+)*$`.
unfoldable pub is_kebab_rest : Bool → Text → Bool
is_kebab_rest after_dash [] = not after_dash
is_kebab_rest after_dash (c ∷ s) =
    if is_kebab_unit c
    then is_kebab_rest false s
    else c == b'-' && (not after_dash && is_kebab_rest true s)

-- `MODULE_NAME_REGEX`.
unfoldable pub is_module_name : Text → Bool
unfolding is_kebab_rest
is_module_name [] = false
is_module_name (c ∷ s) = is_lower_letter c && is_kebab_rest false s

unfoldable pub is_numeric_rest : Bool → Text → Bool
is_numeric_rest after_dash [] = not after_dash
is_numeric_rest after_dash (c ∷ s) =
    if is_digit c
    then is_numeric_rest false s
    else c == b'-' && (not after_dash && is_numeric_rest true s)

-- `PURE_NUMERIC_MODULE_NAME_REGEX`.
unfoldable pub is_pure_numeric : Text → Bool
unfolding is_numeric_rest
is_pure_numeric s = is_numeric_rest true s

unfoldable pub validate_module_name : Text → Result NameFailure Text
unfolding trim is_module_name is_pure_numeric
validate_module_name value =
    let raw = trim value in
    if is_empty raw
    then err (invalid_module_name value)
    else if any is_upper_letter raw
    then err (uppercase_module_name value)
    else if not (is_module_name raw) || is_pure_numeric raw
    then err (invalid_module_name value)
    else ok raw

abbrev pub is_word_unit : ℕ → Bool
is_word_unit c = is_letter c || is_digit c || c == b'_'

abbrev pub is_word_start : ℕ → Bool
is_word_start c = is_letter c || c == b'_'

-- `/^[A-Za-z_][A-Za-z0-9_]*$/`.
abbrev pub is_word : Text → Bool
is_word [] = false
is_word (c ∷ s) = is_word_start c && all is_word_unit s

unfoldable pub validate_data_format_name : Text → Result NameFailure Text
unfolding trim
validate_data_format_name value =
    let raw = trim value in if is_word raw then ok raw else err (invalid_data_format_name value)

unfoldable pub validate_data_field_name : Text → Result NameFailure Text
unfolding trim
validate_data_field_name value =
    let raw = trim value in if is_word raw then ok raw else err (invalid_field_name value)

-- `ROUTE_NAME_REGEX`: behind a slash at least one unit, behind a letter or `_` any number.
abbrev pub is_route_name : Text → Bool
is_route_name [] = false
is_route_name (c ∷ s) =
    (if c == b'/' then not (is_empty s) else is_word_start c) && all is_route_unit s

unfoldable pub validate_route_name : Text → Result NameFailure Text
unfolding trim
validate_route_name value =
    let name = trim value in if is_route_name name then ok name else err (invalid_route_name value)

abbrev pub is_rooted : Text → Bool
is_rooted route_name = starts_with (text "/") route_name

unfoldable pub route_reference : Text → Text → Text
unfolding starts_with
route_reference service_name route_name =
    if is_rooted route_name then route_name else service_name ++ (b'.' ∷ route_name)

unfoldable pub ros2_route_address : Text → Text → Text
unfolding starts_with
ros2_route_address service_name route_name =
    if is_rooted route_name then route_name else b'/' ∷ (service_name ++ (b'/' ∷ route_name))

abbrev cons_part : ℕ → List Text → List Text
cons_part c [] = (c ∷ []) ∷ []
cons_part c (p ∷ ps) = (c ∷ p) ∷ ps

-- The parts of a path between its separators.
unfoldable pub split_slash : Text → List Text
split_slash [] = [] ∷ []
split_slash (c ∷ s) =
    let parts = split_slash s in if c == b'/' then [] ∷ parts else cons_part c parts

abbrev part : List Text → ℕ → Text
part parts i = or_else (get_elem? parts i) []

-- A missing part and an empty one are both falsy. The separator is the slash.
unfoldable pub module_name_from_config_path : Text → Text
unfolding split_slash eq_text join
module_name_from_config_path config_path =
    let parts = split_slash config_path in
    if eq_text (part parts 0) (text "module")
      && (eq_text (part parts 1) (text "service") && not (is_empty (part parts 2)))
    then text "module-" ++ part parts 2
    else if eq_text (part parts 0) (text "module") && not (is_empty (part parts 1))
    then text "module-" ++ part parts 1
    else if eq_text (part parts 0) (text "infra") && not (is_empty (part parts 1))
    then text "infra-" ++ part parts 1
    else join (text "-") (take 2 parts)

unfoldable pub names_run : Unit {0}
unfolding to_package_name to_service_name is_kebab_rest is_module_name is_numeric_rest
    is_pure_numeric validate_module_name validate_data_format_name validate_data_field_name
    validate_route_name route_reference ros2_route_address split_slash module_name_from_config_path
    string_runs
names_run = tt
