-- ===== src/Dashboard/Routes/Parse.antt =====
-- The values of a route and of its bindings, and the run over the lines of a configuration
-- (dashboard/packages/api/src/routers/dashboard.ts).
use robotics_pacific_rim.Base.{
  ℕ, suc, Bool, false, ◌&&◌, Option, none, some, List, [], ◌∷◌, leb, ◌==◌, if◌then◌else◌, or_else,
  is_some, drop, Text, text, eq_text, has_text, or_text, trim, starts_with,
}
use robotics_pacific_rim.Dashboard.Lines.{
  ParsedLine, split_lines, scalar_value, parsed_communication_line, parse_key_value,
}
use robotics_pacific_rim.Dashboard.Routes.{
  CommunicationRoute, PartialBinding, no_binding, append_to, append_binding,
  CommunicationParseState, complete_route, Handled, when, update_communication_scope,
  update_communication_section, start_route,
}

-- A binding that says its transport, and the direction of its route.
abbrev pub binding_to : CommunicationRoute → Text → Option Text → PartialBinding
binding_to route transport address = record no_binding {
  address = address;
  direction = some route.direction;
  middleware = some transport;
  transport = some transport;
}

abbrev with_direction : Text → Option PartialBinding → Option PartialBinding
with_direction direction none = none
with_direction direction (some binding) = some (record binding { direction = some direction })

-- The pair of a line in the metadata of a route.
unfoldable pub apply_metadata :
    CommunicationParseState → CommunicationRoute → Text → Text → CommunicationParseState
unfolding has_text eq_text append_to
apply_metadata state route key value =
    if has_text key
      (text "service_type" ∷ text "message_type" ∷ text "service_ref" ∷ text "topic_ref" ∷ [])
    then record state { current_route = some (record route { message_type = value }) }
    else if eq_text key (text "direction")
    then record state {
      current_route = some (record route { direction = value });
      current_binding = with_direction value state.current_binding;
    }
    else if eq_text key (text "middleware")
    then record state { current_route = some (append_to route (binding_to route value none)) }
    else state

abbrev pub apply_metadata_pair :
    CommunicationParseState → CommunicationRoute → Option (Text × Text) → CommunicationParseState
apply_metadata_pair state route none = state
apply_metadata_pair state route (some (key, value)) = apply_metadata state route key value

-- The metadata of the route that the state has.
abbrev pub metadata_of :
    CommunicationParseState
    → Option CommunicationRoute
    → Option (Text × Text)
    → CommunicationParseState
metadata_of state none pair = state
metadata_of state (some route) pair = apply_metadata_pair state route pair

unfoldable pub update_route_metadata : CommunicationParseState → ParsedLine → Handled
unfolding apply_metadata parse_key_value eq_text
update_route_metadata state line =
    when (is_some state.current_route && line.indent == 6)
      (record (metadata_of state state.current_route (parse_key_value line.trimmed)) {
        in_middlewares = eq_text line.trimmed (text "middlewares:");
        in_addresses = eq_text line.trimmed (text "addresses:");
      })

unfoldable pub is_item : Text → Bool
unfolding starts_with
is_item trimmed = starts_with (text "- ") trimmed

abbrev pub list_value : CommunicationParseState → Option CommunicationRoute → Text → Handled
list_value state none transport = none
list_value state (some route) transport =
    some (record state { current_route = some (append_to route (binding_to route transport none)) })

unfoldable pub update_route_list_value : CommunicationParseState → ParsedLine → Handled
unfolding append_to scalar_value is_item
update_route_list_value state line =
    if state.in_middlewares && (line.indent == 8 && is_item line.trimmed)
    then list_value state state.current_route (scalar_value (drop 2 line.trimmed))
    else none

abbrev pub address_value :
    CommunicationParseState → Option CommunicationRoute → Option (Text × Text) → Handled
address_value state none pair = none
address_value state (some route) none = none
address_value state (some route) (some (key, value)) = some (record state {
  current_route = some (
      append_to (record route { message_type = or_text route.message_type value })
        (binding_to route key (some value)));
})

unfoldable pub update_address_value : CommunicationParseState → ParsedLine → Handled
unfolding append_to parse_key_value
update_address_value state line =
    if state.in_addresses && line.indent == 8
    then address_value state state.current_route (parse_key_value line.trimmed)
    else none

abbrev transport_of_pair : Option (Text × Text) → Option Text
transport_of_pair none = none
transport_of_pair (some (key, value)) = if eq_text key (text "transport") then some value else none

abbrev pub begin_binding : CommunicationParseState → Option CommunicationRoute → Text → Handled
begin_binding state none trimmed = none
begin_binding state (some route) trimmed = some (record state {
  current_route = append_binding (some route) state.current_binding;
  current_binding = some (record no_binding {
    transport = transport_of_pair (parse_key_value (trim (drop 2 trimmed)));
    direction = some route.direction;
  });
})

unfoldable pub start_binding : CommunicationParseState → ParsedLine → Handled
unfolding append_to parse_key_value is_item trim eq_text
start_binding state line =
    if line.indent == 8 && is_item line.trimmed
    then begin_binding state state.current_route line.trimmed
    else none

unfoldable pub apply_binding_value : PartialBinding → Text → Text → PartialBinding
unfolding has_text eq_text
apply_binding_value binding key value =
    if eq_text key (text "transport")
    then record binding { transport = some value }
    else if eq_text key (text "middleware")
    then record binding {
      middleware = some value;
      transport = some (or_else binding.transport value);
    }
    else if has_text key (text "subject" ∷ text "service" ∷ text "topic" ∷ [])
    then record binding { address = some value }
    else if eq_text key (text "direction")
    then record binding { direction = some value }
    else if eq_text key (text "queue_group")
    then record binding { queue_group = some value }
    else if eq_text key (text "queue_size")
    then record binding { queue_size = some value }
    else binding

abbrev apply_pair : PartialBinding → Option (Text × Text) → PartialBinding
apply_pair binding none = binding
apply_pair binding (some (key, value)) = apply_binding_value binding key value

abbrev pub change_binding : CommunicationParseState → Option PartialBinding → Text → Handled
change_binding state none trimmed = none
change_binding state (some binding) trimmed =
    some (record state { current_binding = some (apply_pair binding (parse_key_value trimmed)) })

unfoldable pub update_binding : CommunicationParseState → ParsedLine → Handled
unfolding apply_binding_value parse_key_value
update_binding state line =
    if leb 10 line.indent then change_binding state state.current_binding line.trimmed else none

-- The handlers for a line inside a section, in their order; a line that none takes is ignored.
abbrev pub in_section : Text → Text → CommunicationParseState → ParsedLine → CommunicationParseState
in_section config_path module_name state line =
    or_else (start_route state line config_path module_name) (
      or_else (update_route_metadata state line) (
        or_else (update_route_list_value state line) (
          or_else (update_address_value state line)
            (or_else (start_binding state line) (or_else (update_binding state line) state)))))

abbrev pub in_communication :
    Text → Text → CommunicationParseState → ParsedLine → CommunicationParseState
in_communication config_path module_name state line =
    or_else (update_communication_section state line)
      (if is_some state.section then in_section config_path module_name state line else state)

unfoldable pub parse_communication_line :
    CommunicationParseState → ParsedLine → Text → Text → CommunicationParseState
unfolding update_communication_scope update_communication_section start_route update_route_metadata
    update_route_list_value update_address_value start_binding update_binding
parse_communication_line state line config_path module_name =
    or_else (update_communication_scope state line) (
      if state.in_communication then in_communication config_path module_name state line else state)

abbrev pub parse_line :
    Text → Text → CommunicationParseState → Option ParsedLine → CommunicationParseState
parse_line config_path module_name state none = state
parse_line config_path module_name state (some line) =
    parse_communication_line state line config_path module_name

-- The loop over the numbered lines.
unfoldable pub parse_lines :
    Text → Text → ℕ → List Text → CommunicationParseState → CommunicationParseState
unfolding parse_communication_line parsed_communication_line
parse_lines config_path module_name n [] state = state
parse_lines config_path module_name n (raw ∷ lines) state =
    parse_lines config_path module_name (suc n) lines
      (parse_line config_path module_name state (parsed_communication_line raw n))

abbrev pub start_state : CommunicationParseState
start_state = record {
  in_communication = false;
  section = none;
  current_route = none;
  current_binding = none;
  in_middlewares = false;
  in_addresses = false;
  routes = [];
}

unfoldable pub parse_communication_routes : Text → Text → Text → List CommunicationRoute
unfolding parse_lines complete_route split_lines
parse_communication_routes t config_path module_name =
    (complete_route (parse_lines config_path module_name 0 (split_lines t) start_state)).routes
