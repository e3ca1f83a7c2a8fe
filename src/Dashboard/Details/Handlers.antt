-- ===== src/Dashboard/Details/Handlers.antt =====
-- The handlers for a line of the detail page's parser, and the run over the lines
-- (dashboard/packages/api/src/routers/dashboard.ts).
use robotics_pacific_rim.Base.{
  ℕ, ◌+◌, Bool, true, false, ◌&&◌, ◌||◌, Option, none, some, [], leb, ◌==◌, if◌then◌else◌, is_some,
  drop, Text, text, eq_text, trim,
}
use robotics_pacific_rim.Dashboard.Lines.{
  ParsedLine, scalar_value, parse_key_value, route_key, yaml_block_from_line,
}
use robotics_pacific_rim.Dashboard.Routes.{CommunicationSection, when, section_of}
use robotics_pacific_rim.Dashboard.Routes.Parse.{is_item}
use robotics_pacific_rim.Dashboard.Details.{
  DetailPartialBinding, no_detail_binding, DetailRouteDraft, append_detail_binding, append_to_draft,
  append_detail_transport, apply_detail_binding_value,
}
use robotics_pacific_rim.Dashboard.Details.Parse.{
  Nested, addresses, contract, payload, DetailCommunicationParseState, complete_detail_route,
  create_detail_route, apply_detail_route_value, DetailParseLayout, DetailHandled,
}

unfoldable pub handle_detail_top_level :
    DetailCommunicationParseState → ParsedLine → DetailParseLayout → DetailHandled
unfolding complete_detail_route eq_text
handle_detail_top_level state line layout =
    when (layout.top_level_communication && line.indent == 0)
      (record (if state.in_communication then complete_detail_route state else state) {
        in_communication = eq_text line.trimmed (text "communication:");
        section = none;
      })

abbrev pub enter_detail_section :
    DetailCommunicationParseState → Option CommunicationSection → DetailHandled
enter_detail_section state none = none
enter_detail_section state (some section) =
    some (record (complete_detail_route state) { section = some section })

unfoldable pub handle_detail_section :
    DetailCommunicationParseState → ParsedLine → DetailParseLayout → DetailHandled
unfolding complete_detail_route eq_text
handle_detail_section state line layout =
    if line.indent == layout.section_indent
    then enter_detail_section state (section_of line.trimmed)
    else none

module _ (t path : Text) (layout : DetailParseLayout) where
  abbrev pub enter_detail_route :
      DetailCommunicationParseState → ℕ → Option Text → Option CommunicationSection → DetailHandled
  enter_detail_route state n none section = none
  enter_detail_route state n (some name) none = none
  enter_detail_route state n (some name) (some section) =
      some (record (complete_detail_route state) {
        current_route =
            some (create_detail_route (yaml_block_from_line t n) layout.source path section name);
      })

  unfoldable pub handle_detail_route_start :
      DetailCommunicationParseState → ParsedLine → DetailHandled
  unfolding complete_detail_route create_detail_route route_key yaml_block_from_line
  handle_detail_route_start state line =
      if line.indent == layout.route_indent
      then enter_detail_route state line.line_number (route_key line.trimmed) state.section
      else none

-- `line.trimmed.slice(0, -1)`, for the three keys that open a nested value.
abbrev pub nested_of : Text → Option Nested
nested_of trimmed =
    if eq_text trimmed (text "payload:")
    then some payload
    else if eq_text trimmed (text "contract:")
    then some contract
    else if eq_text trimmed (text "addresses:")
    then some addresses
    else none

abbrev pub apply_route_pair : DetailRouteDraft → Option (Text × Text) → DetailRouteDraft
apply_route_pair route none = route
apply_route_pair route (some (key, value)) = apply_detail_route_value route key value

-- A value of the route itself, where the line opens no nested value and no list.
abbrev pub plain_route_value : DetailRouteDraft → Text → DetailRouteDraft
plain_route_value route trimmed =
    if is_some (nested_of trimmed)
      || (eq_text trimmed (text "bindings:") || eq_text trimmed (text "middlewares:"))
    then route
    else apply_route_pair route (parse_key_value trimmed)

abbrev pub route_value :
    DetailCommunicationParseState → Option DetailRouteDraft → Text → DetailHandled
route_value state none trimmed = none
route_value state (some route) trimmed = some (record state {
  current_nested = nested_of trimmed;
  in_middlewares = eq_text trimmed (text "middlewares:");
  current_route = some (plain_route_value route trimmed);
})

unfoldable pub handle_detail_route_value :
    DetailCommunicationParseState → ParsedLine → DetailParseLayout → DetailHandled
unfolding apply_detail_route_value parse_key_value eq_text
handle_detail_route_value state line layout =
    if line.indent == layout.value_indent
    then route_value state state.current_route line.trimmed
    else none

abbrev pub nested_value :
    DetailCommunicationParseState → Option DetailRouteDraft → Option (Text × Text) → DetailHandled
nested_value state none pair = none
nested_value state (some route) none = none
nested_value state (some route) (some (key, value)) =
    some (record state { current_route = some (apply_detail_route_value route key value) })

unfoldable pub handle_detail_nested_value :
    DetailCommunicationParseState → ParsedLine → DetailParseLayout → DetailHandled
unfolding apply_detail_route_value parse_key_value
handle_detail_nested_value state line layout =
    if is_some state.current_nested && line.indent == layout.nested_value_indent
    then nested_value state state.current_route (parse_key_value line.trimmed)
    else none

abbrev pub detail_list_value :
    DetailCommunicationParseState → Option DetailRouteDraft → Text → DetailHandled
detail_list_value state none transport = none
detail_list_value state (some route) transport =
    some (record state { current_route = some (append_detail_transport route transport []) })

unfoldable pub handle_detail_list_value :
    DetailCommunicationParseState → ParsedLine → DetailParseLayout → DetailHandled
unfolding append_detail_transport scalar_value is_item
handle_detail_list_value state line layout =
    if state.in_middlewares && (line.indent == layout.nested_value_indent && is_item line.trimmed)
    then detail_list_value state state.current_route (scalar_value (drop 2 line.trimmed))
    else none

abbrev pub is_addresses : Option Nested → Bool
is_addresses (some addresses) = true
is_addresses nested = false

abbrev pub detail_address_value :
    DetailCommunicationParseState → Option DetailRouteDraft → Option (Text × Text) → DetailHandled
detail_address_value state none pair = none
detail_address_value state (some route) none = none
detail_address_value state (some route) (some (key, value)) =
    some (record state { current_route = some (append_detail_transport route key value) })

unfoldable pub handle_detail_address_value :
    DetailCommunicationParseState → ParsedLine → DetailParseLayout → DetailHandled
unfolding append_detail_transport parse_key_value
handle_detail_address_value state line layout =
    if is_addresses state.current_nested && line.indent == layout.nested_value_indent
    then detail_address_value state state.current_route (parse_key_value line.trimmed)
    else none

abbrev apply_binding_pair : DetailPartialBinding → Option (Text × Text) → DetailPartialBinding
apply_binding_pair binding none = binding
apply_binding_pair binding (some (key, value)) = apply_detail_binding_value binding key value

abbrev pub detail_binding_start :
    DetailCommunicationParseState → Option DetailRouteDraft → Text → DetailHandled
detail_binding_start state none trimmed = none
detail_binding_start state (some route) trimmed = some (record state {
  current_route = some (append_detail_binding route state.current_binding);
  current_binding =
      some (apply_binding_pair no_detail_binding (parse_key_value (trim (drop 2 trimmed))));
})

unfoldable pub handle_detail_binding_start :
    DetailCommunicationParseState → ParsedLine → DetailParseLayout → DetailHandled
unfolding append_to_draft apply_detail_binding_value parse_key_value is_item trim
handle_detail_binding_start state line layout =
    if line.indent == layout.binding_indent && is_item line.trimmed
    then detail_binding_start state state.current_route line.trimmed
    else none

abbrev pub detail_binding_value :
    DetailCommunicationParseState
    → Option DetailPartialBinding
    → Option (Text × Text)
    → DetailHandled
detail_binding_value state none pair = none
detail_binding_value state (some binding) none = none
detail_binding_value state (some binding) (some (key, value)) =
    some (record state { current_binding = some (apply_detail_binding_value binding key value) })

unfoldable pub handle_detail_binding_value :
    DetailCommunicationParseState → ParsedLine → DetailParseLayout → DetailHandled
unfolding apply_detail_binding_value parse_key_value
handle_detail_binding_value state line layout =
    if leb (layout.binding_indent + 2) line.indent
    then detail_binding_value state state.current_binding (parse_key_value line.trimmed)
    else none
