-- ===== src/Dashboard/Routes/Steps.antt =====
-- Each handler of the route parser keeps what holds of its state
-- (dashboard/packages/api/src/routers/dashboard.ts).
use robotics_pacific_rim.Base.{
  Each, or_else-Each, if-keeps, when-Each, refl, ◌&&◌, Option, none, some, arith, ◌==◌, is_some,
  Text, has_text,
}
use robotics_pacific_rim.Dashboard.Lines.{ParsedLine, parse_key_value, route_key}
use robotics_pacific_rim.Dashboard.Routes.{
  CommunicationSection, CommunicationRoute, PartialBinding, CommunicationParseState, create_route,
  section_of, enter_section, enter_route, update_communication_scope, update_communication_section,
  start_route,
}
use robotics_pacific_rim.Dashboard.Routes.Parse.{
  binding_to, apply_metadata, metadata_of, update_route_metadata, list_value,
  update_route_list_value, address_value, update_address_value, begin_binding, start_binding,
  change_binding, update_binding, in_section, parse_communication_line,
}
use robotics_pacific_rim.Dashboard.Routes.Kept.{
  IsRoute, IsState, append_to-IsRoute, append_binding-Each, complete_route-IsState,
}

module _ (config_path module_name : Text) where
  abbrev RouteHere : CommunicationRoute → Type 0
  RouteHere = IsRoute config_path module_name

  abbrev StateHere : CommunicationParseState → Type 0
  StateHere = IsState config_path module_name

  -- The handlers' answers, by the parts of the line that they read.
  module _ (state : CommunicationParseState) (h : StateHere state) where
    enter_section-Each :
        (section : Option CommunicationSection) → Each StateHere (enter_section state section)
    enter_section-Each none = tt
    enter_section-Each (some section) = complete_route-IsState config_path module_name state h

    enter_route-Each :
        (name : Option Text) (section : Option CommunicationSection)
        → Each StateHere (enter_route state config_path module_name name section)
    unfolding create_route has_text
    enter_route-Each none section = tt
    enter_route-Each (some name) none = tt
    enter_route-Each (some name) (some section) = (
      (refl, refl, (section, refl, refl), (tt, refl)),
      (complete_route-IsState config_path module_name state h).1,
    )

    metadata_of-IsState :
        (route : Option CommunicationRoute) (pair : Option (Text × Text))
        → Each RouteHere route
        → StateHere (metadata_of state route pair)
    unfolding apply_metadata
    metadata_of-IsState none pair k = h
    metadata_of-IsState (some route) none k = h
    metadata_of-IsState (some route) (some (key, value)) k =
        ground
          (arith, append_to-IsRoute config_path module_name route (binding_to route value none) k)

    list_value-Each :
        (route : Option CommunicationRoute) (transport : Text)
        → Each RouteHere route
        → Each StateHere (list_value state route transport)
    list_value-Each none transport k = tt
    list_value-Each (some route) transport k =
        (append_to-IsRoute config_path module_name route _ k, h.1)

    address_value-Each :
        (route : Option CommunicationRoute) (pair : Option (Text × Text))
        → Each RouteHere route
        → Each StateHere (address_value state route pair)
    address_value-Each none pair k = tt
    address_value-Each (some route) none k = tt
    address_value-Each (some route) (some (key, value)) k =
        (append_to-IsRoute config_path module_name _ _ k, h.1)

    begin_binding-Each :
        (route : Option CommunicationRoute) (trimmed : Text)
        → Each RouteHere route
        → Each StateHere (begin_binding state route trimmed)
    begin_binding-Each none trimmed k = tt
    begin_binding-Each (some route) trimmed k =
        (append_binding-Each config_path module_name (some route) state.current_binding k, h.1)

    change_binding-Each :
        (binding : Option PartialBinding) (trimmed : Text)
        → Each StateHere (change_binding state binding trimmed)
    change_binding-Each none trimmed = tt
    change_binding-Each (some binding) trimmed = h

    module _ (line : ParsedLine) where
      scope-Each : Each StateHere (update_communication_scope state line)
      unfolding update_communication_scope
      scope-Each =
          if-keeps (Each StateHere) (line.indent == 0) _ none
            (if-keeps StateHere state.in_communication _ state
              (complete_route-IsState config_path module_name state h) h)
            tt

      section-Each : Each StateHere (update_communication_section state line)
      unfolding update_communication_section
      section-Each = when-Each StateHere _ _ (enter_section-Each (section_of line.trimmed))

      start_route-Each : Each StateHere (start_route state line config_path module_name)
      unfolding start_route
      start_route-Each =
          when-Each StateHere _ _ (enter_route-Each (route_key line.trimmed) state.section)

      metadata-Each : Each StateHere (update_route_metadata state line)
      unfolding update_route_metadata
      metadata-Each =
          if-keeps (Each StateHere) (is_some state.current_route && line.indent == 6) _ none
            (metadata_of-IsState state.current_route (parse_key_value line.trimmed) h.0) tt

      list-Each : Each StateHere (update_route_list_value state line)
      unfolding update_route_list_value
      list-Each = when-Each StateHere _ _ (list_value-Each state.current_route _ h.0)

      address-Each : Each StateHere (update_address_value state line)
      unfolding update_address_value
      address-Each = when-Each StateHere _ _ (address_value-Each state.current_route _ h.0)

      start_binding-Each : Each StateHere (start_binding state line)
      unfolding start_binding
      start_binding-Each =
          when-Each StateHere _ _ (begin_binding-Each state.current_route line.trimmed h.0)

      update_binding-Each : Each StateHere (update_binding state line)
      unfolding update_binding
      update_binding-Each =
          when-Each StateHere _ _ (change_binding-Each state.current_binding line.trimmed)

      in_section-IsState : StateHere (in_section config_path module_name state line)
      in_section-IsState =
          or_else-Each StateHere (start_route state line config_path module_name) _ start_route-Each
            (or_else-Each StateHere (update_route_metadata state line) _ metadata-Each (
              or_else-Each StateHere (update_route_list_value state line) _ list-Each (
                or_else-Each StateHere (update_address_value state line) _ address-Each (
                  or_else-Each StateHere (start_binding state line) _ start_binding-Each (
                    or_else-Each StateHere (update_binding state line) state update_binding-Each
                      h)))))

      pub line-IsState : StateHere (parse_communication_line state line config_path module_name)
      unfolding parse_communication_line
      line-IsState = or_else-Each StateHere (update_communication_scope state line) _ scope-Each (
          if-keeps StateHere state.in_communication _ state
            (or_else-Each StateHere (update_communication_section state line) _ section-Each
              (if-keeps StateHere (is_some state.section) _ state in_section-IsState h))
            h)
