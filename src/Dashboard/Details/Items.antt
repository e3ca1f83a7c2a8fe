-- ===== src/Dashboard/Details/Items.antt =====
-- The detail parser's order of handlers, its loop over the lines, and its two layouts
-- (dashboard/packages/api/src/routers/dashboard.ts).
use robotics_pacific_rim.Base.{
  ℕ, suc, true, false, Option, none, some, List, [], ◌∷◌, if◌then◌else◌, or_else, is_some, Text,
}
use robotics_pacific_rim.Dashboard.Lines.{ParsedLine, split_lines, parsed_communication_line}
use robotics_pacific_rim.Dashboard.Details.{config, idl, ModuleCommunicationItem}
use robotics_pacific_rim.Dashboard.Details.Parse.{
  DetailCommunicationParseState, complete_detail_route, DetailParseLayout,
  create_detail_parse_state,
}
use robotics_pacific_rim.Dashboard.Details.Handlers.{
  handle_detail_top_level, handle_detail_section, handle_detail_route_start,
  handle_detail_route_value, handle_detail_nested_value, handle_detail_list_value,
  handle_detail_address_value, handle_detail_binding_start, handle_detail_binding_value,
}

module _ (t path : Text) (layout : DetailParseLayout) where
  -- The handlers for a line of a route, in their order.
  abbrev pub in_route : DetailCommunicationParseState → ParsedLine → DetailCommunicationParseState
  in_route state line = or_else (handle_detail_route_value state line layout) (
      or_else (handle_detail_list_value state line layout) (
        or_else (handle_detail_address_value state line layout) (
          or_else (handle_detail_nested_value state line layout) (
            or_else (handle_detail_binding_start state line layout)
              (or_else (handle_detail_binding_value state line layout) state)))))

  abbrev pub in_detail_section :
      DetailCommunicationParseState → ParsedLine → DetailCommunicationParseState
  in_detail_section state line =
      or_else (handle_detail_route_start t path layout state line)
        (if is_some state.current_route then in_route state line else state)

  abbrev pub in_detail_communication :
      DetailCommunicationParseState → ParsedLine → DetailCommunicationParseState
  in_detail_communication state line =
      or_else (handle_detail_section state line layout)
        (if is_some state.section then in_detail_section state line else state)

  unfoldable pub parse_detail_communication_line :
      DetailCommunicationParseState → ParsedLine → DetailCommunicationParseState
  unfolding handle_detail_top_level handle_detail_section handle_detail_route_start
      handle_detail_route_value handle_detail_nested_value handle_detail_list_value
      handle_detail_address_value handle_detail_binding_start handle_detail_binding_value
  parse_detail_communication_line state line =
      or_else (handle_detail_top_level state line layout)
        (if state.in_communication then in_detail_communication state line else state)

  abbrev pub detail_line :
      DetailCommunicationParseState → Option ParsedLine → DetailCommunicationParseState
  detail_line state none = state
  detail_line state (some line) = parse_detail_communication_line state line

  unfoldable pub detail_lines :
      ℕ → List Text → DetailCommunicationParseState → DetailCommunicationParseState
  unfolding parse_detail_communication_line parsed_communication_line
  detail_lines n [] state = state
  detail_lines n (raw ∷ lines) state =
      detail_lines (suc n) lines (detail_line state (parsed_communication_line raw n))

  unfoldable pub parse_detail_communication_items : List ModuleCommunicationItem
  unfolding detail_lines complete_detail_route create_detail_parse_state split_lines
  parse_detail_communication_items =
      (complete_detail_route (
        detail_lines 0 (split_lines t)
          (create_detail_parse_state layout.starts_in_communication))).items

unfoldable pub config_layout : DetailParseLayout
config_layout = record {
  source = config;
  starts_in_communication = false;
  top_level_communication = true;
  section_indent = 2;
  route_indent = 4;
  value_indent = 6;
  nested_value_indent = 8;
  binding_indent = 8;
}

unfoldable pub interface_layout : DetailParseLayout
interface_layout = record {
  source = idl;
  starts_in_communication = true;
  top_level_communication = false;
  section_indent = 0;
  route_indent = 2;
  value_indent = 4;
  nested_value_indent = 6;
  binding_indent = 6;
}

unfoldable pub parse_config_communication_items : Text → Text → List ModuleCommunicationItem
unfolding parse_detail_communication_items config_layout
parse_config_communication_items t path = parse_detail_communication_items t path config_layout

unfoldable pub parse_public_interface_items : Text → Text → List ModuleCommunicationItem
unfolding parse_detail_communication_items interface_layout
parse_public_interface_items t path = parse_detail_communication_items t path interface_layout
