-- ===== src/Dashboard/Formats/Fields.antt =====
-- The fields of DDS structs and of ROS messages, and the items of their files
-- (dashboard/packages/api/src/routers/dashboard.ts).
use robotics_pacific_rim.Base.{
  ℕ, suc, ◌-◌, Bool, false, not, ◌&&◌, List, [], ◌∷◌, ◌++◌, map, ◌==◌, if◌then◌else◌, or_else,
  length, take, get_elem?, select, Text, text, eq_text, has_text, is_empty, or_text, is_space,
  trim_end, trim, starts_with, ends_with, join,
}
use robotics_pacific_rim.Base.Decimal.{show_nat}
use robotics_pacific_rim.Dashboard.Lines.{split_lines, is_dot, drop_last}
use robotics_pacific_rim.Dashboard.Formats.{
  msg, srv, dds_idl, DataFieldSummary, ModuleDataFormatItem, parse_proto_formats,
}

-- A comment goes to the next line terminator.
unfoldable pub drop_dots : Text → Text
drop_dots [] = []
drop_dots (c ∷ s) = let rest = drop_dots s in if is_dot c then rest else c ∷ s

-- `line.replace(/\/\/.*/, "")`.
unfoldable pub without_slashes : Text → Text
unfolding starts_with drop_dots
without_slashes [] = []
without_slashes (c ∷ s) =
    let rest = without_slashes s in
    if starts_with (text "//") (c ∷ s) then drop_dots s else c ∷ rest

-- `line.replace(/#.*/, "")`.
unfoldable pub without_hash : Text → Text
unfolding drop_dots
without_hash [] = []
without_hash (c ∷ s) = let rest = without_hash s in if c == b'#' then drop_dots s else c ∷ rest

abbrev starts_with_space : Text → Bool
starts_with_space [] = false
starts_with_space (c ∷ s) = is_space c

abbrev cons_word : ℕ → List Text → List Text
cons_word c [] = (c ∷ []) ∷ []
cons_word c (w ∷ ws) = (c ∷ w) ∷ ws

-- `line.split(/\s+/)`.
unfoldable pub split_space : Text → List Text
unfolding is_space
split_space [] = [] ∷ []
split_space (c ∷ s) =
    let words = split_space s in
    if is_space c then if starts_with_space s then words else [] ∷ words else cons_word c words

abbrev init : List Text → List Text
init [] = []
init (w ∷ []) = []
init (w ∷ v ∷ ws) = w ∷ init (v ∷ ws)

abbrev last_word : List Text → Text
last_word [] = []
last_word (w ∷ []) = w
last_word (w ∷ v ∷ ws) = last_word (v ∷ ws)

unfoldable pub without_semicolon : Text → Text
unfolding ends_with
without_semicolon line = if ends_with (text ";") line then drop_last line else line

abbrev dds_field : ℕ → Text → DataFieldSummary
dds_field number line =
    let parts = split_space line in
    record { type = join (text " ") (init parts); name = last_word parts; number = show_nat number }

-- `map` with the index, which begins at 0 where the number begins at 1.
abbrev number_lines : (ℕ → Text → DataFieldSummary) → ℕ → List Text → List DataFieldSummary
number_lines f n [] = []
number_lines f n (line ∷ lines) = f n line ∷ number_lines f (suc n) lines

abbrev is_dds_line : Text → Bool
is_dds_line line =
    not (is_empty line)
    && (not (starts_with (text "struct ") line)
        && (not (starts_with (text "interface ") line)
            && (not (starts_with (text "module ") line)
                && not (has_text line (text "{" ∷ text "};" ∷ text "}" ∷ [])))))

abbrev is_named : DataFieldSummary → Bool
is_named field = not (is_empty field.type) && not (is_empty field.name)

unfoldable pub parse_dds_idl_fields : Text → List DataFieldSummary
unfolding split_lines without_slashes trim starts_with has_text eq_text without_semicolon
    split_space join show_nat
parse_dds_idl_fields t =
    let lines = select is_dds_line (map (λ line. trim (without_slashes line)) (split_lines t)) in
    select is_named (number_lines dds_field 1 (map without_semicolon lines))

abbrev ros_field : ℕ → Text → DataFieldSummary
ros_field number line =
    let parts = split_space line in
    record {
      type = or_else (get_elem? parts 0) [];
      name = or_text (or_else (get_elem? parts 1) []) line;
      number = show_nat number;
    }

abbrev is_ros_line : Text → Bool
is_ros_line line = not (is_empty line) && not (starts_with (text "---") line)

unfoldable pub parse_ros_fields : Text → List DataFieldSummary
unfolding split_lines without_hash trim starts_with split_space show_nat
parse_ros_fields t =
    number_lines ros_field 1
      (select is_ros_line (map (λ line. trim (without_hash line)) (split_lines t)))

-- What stands behind the last slash, `path.basename(file)`.
abbrev base_name : Text → Text → Text
base_name taken [] = taken
base_name taken (c ∷ s) =
    let deeper = base_name [] s in
    let here = base_name (taken ++ c ∷ []) s in if c == b'/' then deeper else here

-- `path.basename(file, suffix)` for a file that ends with the suffix and is longer.
abbrev stem : Text → Text → Text
stem file suffix = let name = base_name [] file in take (length name - length suffix) name

unfoldable pub parse_data_format_file : Text → Text → Text → List ModuleDataFormatItem
unfolding ends_with parse_proto_formats parse_dds_idl_fields parse_ros_fields trim_end
parse_data_format_file file relative_path t =
    if ends_with (text ".proto") file
    then parse_proto_formats t relative_path
    else if ends_with (text ".idl") file
    then record {
      id = relative_path ++ text ":dds_idl";
      name = stem file (text ".idl");
      kind = dds_idl;
      source = text "OMG DDS IDL";
      path = relative_path;
      definition = trim_end t;
      fields = parse_dds_idl_fields t;
    }
      ∷ []
    else if ends_with (text ".srv") file
    then record {
      id = relative_path ++ text ":srv";
      name = stem file (text ".srv");
      kind = srv;
      source = text "ros2 service";
      path = relative_path;
      definition = trim_end t;
      fields = parse_ros_fields t;
    }
      ∷ []
    else record {
      id = relative_path ++ text ":msg";
      name = stem file (text ".msg");
      kind = msg;
      source = text "ros2 message";
      path = relative_path;
      definition = trim_end t;
      fields = parse_ros_fields t;
    }
      ∷ []
