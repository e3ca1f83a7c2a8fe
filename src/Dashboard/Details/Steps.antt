-- ===== src/Dashboard/Details/Steps.antt =====
-- Each handler of the detail parser keeps what holds of its state
-- (dashboard/packages/api/src/routers/dashboard.ts).
use robotics_pacific_rim.Base.{
  ℕ, refl, ◌&&◌, Option, none, some, [], ◌==◌, is_some, drop, Each, or_else-Each, if-keeps,
  when-Each, Text,
}
use robotics_pacific_rim.Base.Distinct.{has}
use robotics_pacific_rim.Dashboard.Lines.{ParsedLine, scalar_value, parse_key_value, route_key}
use robotics_pacific_rim.Dashboard.Routes.{CommunicationSection, section_of}
use robotics_pacific_rim.Dashboard.Details.{DetailPartialBinding, DetailRouteDraft}
use robotics_pacific_rim.Dashboard.Details.Parse.{
  DetailCommunicationParseState, complete_detail_route, create_detail_route, DetailParseLayout,
}
use robotics_pacific_rim.Dashboard.Details.Handlers.{
  handle_detail_top_level, enter_detail_section, handle_detail_section, enter_detail_route,
  handle_detail_route_start, route_value, handle_detail_route_value, nested_value,
  handle_detail_nested_value, detail_list_value, handle_detail_list_value, detail_address_value,
  handle_detail_address_value, detail_binding_start, handle_detail_binding_start,
  detail_binding_value, handle_detail_binding_value,
}
use robotics_pacific_rim.Dashboard.Details.Items.{
  in_route, in_detail_section, in_detail_communication, parse_detail_communication_line,
}
use robotics_pacific_rim.Dashboard.Details.Drafts.{
  IsDraft, IsDetailState, append_detail_binding-IsDraft, append_detail_transport-IsDraft,
  complete-IsDetailState, apply_detail_route_value-IsDraft, plain_route_value-IsDraft,
}

module _ (t path : Text) (layout : DetailParseLayout) where
  abbrev DraftHere : DetailRouteDraft → Type 0
  DraftHere = IsDraft t path layout

  abbrev StateHere : DetailCommunicationParseState → Type 0
  StateHere = IsDetailState t path layout

  -- The handlers' answers, by the parts of the line that they read.
  module _ (state : DetailCommunicationParseState) (h : StateHere state) where
    enter_detail_section-Each :
        (section : Option CommunicationSection)
        → Each StateHere (enter_detail_section state section)
    enter_detail_section-Each none = tt
    enter_detail_section-Each (some section) = complete-IsDetailState t path layout state h

    enter_detail_route-Each :
        (n : ℕ) (name : Option Text) (section : Option CommunicationSection)
        → Each StateHere (enter_detail_route t path layout state n name section)
    unfolding create_detail_route has
    enter_detail_route-Each n none section = tt
    enter_detail_route-Each n (some name) none = tt
    enter_detail_route-Each n (some name) (some section) = (
      (refl, refl, (n, refl), (section, refl), (tt, refl)),
      (complete-IsDetailState t path layout state h).1,
    )

    route_value-Each :
        (route : Option DetailRouteDraft) (trimmed : Text)
        → Each DraftHere route
        → Each StateHere (route_value state route trimmed)
    route_value-Each none trimmed k = tt
    route_value-Each (some route) trimmed k =
        (plain_route_value-IsDraft t path layout route trimmed k, h.1)

    nested_value-Each :
        (route : Option DetailRouteDraft) (pair : Option (Text × Text))
        → Each DraftHere route
        → Each StateHere (nested_value state route pair)
    nested_value-Each none pair k = tt
    nested_value-Each (some route) none k = tt
    nested_value-Each (some route) (some (key, value)) k =
        (apply_detail_route_value-IsDraft t path layout route key value k, h.1)

    list_value-Each :
        (route : Option DetailRouteDraft) (transport : Text)
        → Each DraftHere route
        → Each StateHere (detail_list_value state route transport)
    list_value-Each none transport k = tt
    list_value-Each (some route) transport k =
        (append_detail_transport-IsDraft t path layout route transport [] k, h.1)

    address_value-Each :
        (route : Option DetailRouteDraft) (pair : Option (Text × Text))
        → Each DraftHere route
        → Each StateHere (detail_address_value state route pair)
    address_value-Each none pair k = tt
    address_value-Each (some route) none k = tt
    address_value-Each (some route) (some (key, value)) k =
        (append_detail_transport-IsDraft t path layout route key value k, h.1)

    binding_start-Each :
        (route : Option DetailRouteDraft) (trimmed : Text)
        → Each DraftHere route
        → Each StateHere (detail_binding_start state route trimmed)
    binding_start-Each none trimmed k = tt
    binding_start-Each (some route) trimmed k =
        (append_detail_binding-IsDraft t path layout route state.current_binding k, h.1)

    binding_value-Each :
        (binding : Option DetailPartialBinding) (pair : Option (Text × Text))
        → Each StateHere (detail_binding_value state binding pair)
    binding_value-Each none pair = tt
    binding_value-Each (some binding) none = tt
    binding_value-Each (some binding) (some (key, value)) = h

    module _ (line : ParsedLine) where
      top_level-Each : Each StateHere (handle_detail_top_level state line layout)
      unfolding handle_detail_top_level
      top_level-Each =
          if-keeps (Each StateHere) (layout.top_level_communication && line.indent == 0) _ none
            (if-keeps StateHere state.in_communication (complete_detail_route state) state
              (complete-IsDetailState t path layout state h) h)
            tt

      section-Each : Each StateHere (handle_detail_section state line layout)
      unfolding handle_detail_section
      section-Each = when-Each StateHere _ _ (enter_detail_section-Each (section_of line.trimmed))

      route_start-Each : Each StateHere (handle_detail_route_start t path layout state line)
      unfolding handle_detail_route_start
      route_start-Each =
          when-Each StateHere _ _
            (enter_detail_route-Each line.line_number (route_key line.trimmed) state.section)

      handle_route_value-Each : Each StateHere (handle_detail_route_value state line layout)
      unfolding handle_detail_route_value
      handle_route_value-Each =
          when-Each StateHere _ _ (route_value-Each state.current_route line.trimmed h.0)

      handle_nested_value-Each : Each StateHere (handle_detail_nested_value state line layout)
      unfolding handle_detail_nested_value
      handle_nested_value-Each =
          when-Each StateHere _ _
            (nested_value-Each state.current_route (parse_key_value line.trimmed) h.0)

      handle_list_value-Each : Each StateHere (handle_detail_list_value state line layout)
      unfolding handle_detail_list_value
      handle_list_value-Each =
          when-Each StateHere _ _
            (list_value-Each state.current_route (scalar_value (drop 2 line.trimmed)) h.0)

      handle_address_value-Each : Each StateHere (handle_detail_address_value state line layout)
      unfolding handle_detail_address_value
      handle_address_value-Each =
          when-Each StateHere _ _
            (address_value-Each state.current_route (parse_key_value line.trimmed) h.0)

      handle_binding_start-Each : Each StateHere (handle_detail_binding_start state line layout)
      unfolding handle_detail_binding_start
      handle_binding_start-Each =
          when-Each StateHere _ _ (binding_start-Each state.current_route line.trimmed h.0)

      handle_binding_value-Each : Each StateHere (handle_detail_binding_value state line layout)
      unfolding handle_detail_binding_value
      handle_binding_value-Each =
          when-Each StateHere _ _
            (binding_value-Each state.current_binding (parse_key_value line.trimmed))

      in_route-IsDetailState : StateHere (in_route t path layout state line)
      in_route-IsDetailState =
          or_else-Each StateHere (handle_detail_route_value state line layout) _
            handle_route_value-Each
            (or_else-Each StateHere (handle_detail_list_value state line layout) _
              handle_list_value-Each
              (or_else-Each StateHere (handle_detail_address_value state line layout) _
                handle_address_value-Each
                (or_else-Each StateHere (handle_detail_nested_value state line layout) _
                  handle_nested_value-Each
                  (or_else-Each StateHere (handle_detail_binding_start state line layout) _
                    handle_binding_start-Each
                    (or_else-Each StateHere (handle_detail_binding_value state line layout) state
                      handle_binding_value-Each h)))))

      in_section-IsDetailState : StateHere (in_detail_section t path layout state line)
      in_section-IsDetailState =
          or_else-Each StateHere (handle_detail_route_start t path layout state line) _
            route_start-Each
            (if-keeps StateHere (is_some state.current_route) (in_route t path layout state line)
              state in_route-IsDetailState h)

      in_communication-IsDetailState : StateHere (in_detail_communication t path layout state line)
      in_communication-IsDetailState =
          or_else-Each StateHere (handle_detail_section state line layout) _ section-Each (
            if-keeps StateHere (is_some state.section) (in_detail_section t path layout state line)
              state in_section-IsDetailState h)

      pub line-IsDetailState : StateHere (parse_detail_communication_line t path layout state line)
      unfolding parse_detail_communication_line
      line-IsDetailState =
          or_else-Each StateHere (handle_detail_top_level state line layout) _ top_level-Each (
            if-keeps StateHere state.in_communication
              (in_detail_communication t path layout state line) state
              in_communication-IsDetailState h)
