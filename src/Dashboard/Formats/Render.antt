-- ===== src/Dashboard/Formats/Render.antt =====
-- The definitions that the dashboard writes for new data formats, and its edits of a file of
-- messages (dashboard/packages/api/src/routers/dashboard.ts).
use robotics_pacific_rim.Base.{
  ℕ, suc, ◌+◌, Bool, true, false, not, ◌&&◌, ◌||◌, Option, none, some, List, [], ◌∷◌, ◌++◌, leb,
  if◌then◌else◌, or_else, Text, text, trim_end, trim, starts_with, includes,
}
use robotics_pacific_rim.Base.Result.{Result, ok, ◌>>=◌, ◌>>◌, ensure}
use robotics_pacific_rim.Base.Decimal.{show_nat}
use robotics_pacific_rim.Dashboard.Lines.{
  split_lines, join_lines, splice, file_text, replacement_lines,
}
use robotics_pacific_rim.Dashboard.Names.{
  NameFailure, service_type_field, validate_data_format_name, validate_data_field_name,
}
use robotics_pacific_rim.Dashboard.Formats.{DataFormatKind, proto, msg, srv, dds_idl, count_unit}

-- A field that is asked for.
pub record DataFormatField : Type 0 where
  pub name : Text
  pub type : Text

pub record CreateDataFormatInput : Type 0 where
  pub fields : List DataFormatField
  pub kind : DataFormatKind
  pub name : Text
  pub response_fields : Option (List DataFormatField)

-- The lines of the fields, numbered; the first name that is refused throws.
unfoldable pub field_lines :
    (ℕ → DataFormatField → Result NameFailure Text)
    → ℕ
    → List DataFormatField
    → Result NameFailure (List Text)
field_lines f n [] = ok []
field_lines f n (field ∷ fields) = do
  line ← f n field
  lines ← field_lines f (suc n) fields
  ok (line ∷ lines)

abbrev pub proto_field_line : ℕ → DataFormatField → Result NameFailure Text
proto_field_line n field = do
  name ← validate_data_field_name field.name
  ok (text "  " ++ (trim field.type ++ (b' ' ∷ (name ++ (text " = " ++ (show_nat n ++ text ";"))))))

unfoldable pub render_proto_message : Text → List DataFormatField → Result NameFailure Text
unfolding field_lines validate_data_field_name trim show_nat join_lines
render_proto_message name fields = do
  lines ← field_lines proto_field_line 1 fields
  ok (join_lines ((text "message " ++ (name ++ text " {")) ∷ (lines ++ text "}" ∷ [])))

-- `(^|\/)srv\/` somewhere: at the beginning, or behind a slash.
unfoldable pub is_ros2_service_type_reference : Text → Bool
unfolding trim starts_with includes
is_ros2_service_type_reference type =
    let normalized = trim type in
    starts_with (text "srv/") normalized
    || includes (text "/srv/") normalized
    || starts_with (text "std_srvs/") normalized

abbrev ros_field_line : ℕ → DataFormatField → Result NameFailure Text
ros_field_line n field =
    let type = trim field.type in
    ensure (not (is_ros2_service_type_reference type)) (service_type_field type)
    >> (validate_data_field_name field.name >>= λ name. ok (type ++ (b' ' ∷ name)))

unfoldable pub render_ros_fields : List DataFormatField → Result NameFailure Text
unfolding field_lines is_ros2_service_type_reference validate_data_field_name trim join_lines
render_ros_fields fields = do lines ← field_lines ros_field_line 1 fields; ok (join_lines lines)

abbrev dds_field_line : ℕ → DataFormatField → Result NameFailure Text
dds_field_line n field = do
  name ← validate_data_field_name field.name
  ok (text "  " ++ (trim field.type ++ (b' ' ∷ (name ++ text ";"))))

unfoldable pub render_dds_idl_struct : Text → List DataFormatField → Result NameFailure Text
unfolding field_lines validate_data_field_name trim join_lines
render_dds_idl_struct name fields = do
  lines ← field_lines dds_field_line 1 fields
  ok (join_lines ((text "struct " ++ (name ++ text " {")) ∷ (lines ++ text "};" ∷ [])))

abbrev when_full : Text → Text → Text
when_full [] shown = []
when_full (c ∷ s) shown = shown

abbrev render_service : List DataFormatField → List DataFormatField → Result NameFailure Text
render_service fields response_fields = do
  request ← render_ros_fields fields
  response ← render_ros_fields response_fields
  ok (
      request
      ++ (when_full request (10 ∷ []) ++ (text "---" ++ when_full response (10 ∷ response))))

abbrev render_as : DataFormatKind → Text → CreateDataFormatInput → Result NameFailure Text
render_as proto name input = render_proto_message name input.fields
render_as srv name input = render_service input.fields (or_else input.response_fields [])
render_as dds_idl name input = render_dds_idl_struct name input.fields
render_as msg name input = render_ros_fields input.fields

unfoldable pub render_data_format_definition : CreateDataFormatInput → Result NameFailure Text
unfolding validate_data_format_name render_proto_message render_ros_fields render_dds_idl_struct
render_data_format_definition input = do
  name ← validate_data_format_name input.name
  render_as input.kind name input

-- The number of lines up to the one behind which a message ends: the first line is never the last.
-- The sum of braces can go below 0, where a message ends too.
unfoldable pub message_end : ℕ → ℕ → Bool → List Text → ℕ
message_end opened closed is_first [] = 0
message_end opened closed is_first (line ∷ lines) =
    let opened' = opened + count_unit b'{' line in
    let closed' = closed + count_unit b'}' line in
    let rest = message_end opened' closed' false lines in
    if leb opened' closed' && not is_first then 1 else suc rest

abbrev is_message_line : Text → Text → Bool
is_message_line name line = starts_with (text "message " ++ name) (trim line)

-- `replaceProtoMessageBlock`, from an index; `none` where the message is not located.
unfoldable pub replace_message_from : List Text → Text → Option Text → ℕ → List Text → Option Text
unfolding starts_with trim message_end splice replacement_lines file_text
replace_message_from all_lines name replacement i [] = none
replace_message_from all_lines name replacement i (line ∷ lines) =
    let further = replace_message_from all_lines name replacement (suc i) lines in
    if is_message_line name line
    then some (
        file_text (
          splice i (i + message_end 0 0 true (line ∷ lines)) (replacement_lines replacement)
            all_lines))
    else further

unfoldable pub replace_proto_message_block : Text → Text → Option Text → Option Text
unfolding replace_message_from split_lines
replace_proto_message_block t name replacement =
    replace_message_from (split_lines t) name replacement 0 (split_lines t)

-- `none` where the message exists.
unfoldable pub append_proto_message_block : Text → Text → Text → Option Text
unfolding includes trim_end
append_proto_message_block t name replacement =
    if includes (text "message " ++ name) t
    then none
    else some (trim_end t ++ (10 ∷ 10 ∷ (trim_end replacement ++ 10 ∷ [])))
