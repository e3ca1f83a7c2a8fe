-- ===== src/Dashboard/Routes/Kept.antt =====
-- The routes that are read from a configuration and what adding bindings keeps of them
-- (dashboard/packages/api/src/routers/dashboard.ts).
use robotics_pacific_rim.Base.{
  Each, ◌≡◌, refl, inl, inr, Option, none, some, List, Bool-cases, length, All, All-append, Text,
  is_empty,
}
use robotics_pacific_rim.Dashboard.Routes.Bound.{IsBound, put_binding-IsBound}
use robotics_pacific_rim.Dashboard.Routes.{
  CommunicationSection, kind_of_section, CommunicationRoute, PartialBinding, transport_from_binding,
  route_status_from_bindings, append_to, append_binding, push_route, CommunicationParseState,
  complete_route, route_id,
}

module _ (config_path module_name : Text) where
  -- The route says the file and the module it is from, and its id is made of the file, the section
  -- it stands in and its name.
  abbrev pub IsRoute : CommunicationRoute → Type 0
  IsRoute route =
      (route.config_path ≡ config_path)
      × (route.module_name ≡ module_name)
      × ((section : CommunicationSection) × (route.id ≡ route_id config_path section route.name)
          × (route.kind ≡ kind_of_section section))
      × IsBound route.bindings

  abbrev pub IsFinished : CommunicationRoute → Type 0
  IsFinished route =
      IsRoute route × (route.status ≡ route_status_from_bindings (length route.bindings))

  -- A state whose routes, the one being read included, are such.
  abbrev pub IsState : CommunicationParseState → Type 0
  IsState state = Each IsRoute state.current_route × All IsFinished state.routes

  pub append_to-IsRoute :
      (route : CommunicationRoute) (binding : PartialBinding)
      → IsRoute route
      → IsRoute (append_to route binding)
  unfolding append_to
  append_to-IsRoute route binding h =
      elim (Bool-cases (is_empty (transport_from_binding binding))) [
        | inl e ↦ rw e h
        | inr e ↦ rw e (
          h.0,
          h.1,
          h.2,
          put_binding-IsBound binding (transport_from_binding binding) route.bindings e h.3,
        )
      ]

  pub append_binding-Each :
      (route : Option CommunicationRoute) (binding : Option PartialBinding)
      → Each IsRoute route
      → Each IsRoute (append_binding route binding)
  append_binding-Each none binding h = tt
  append_binding-Each (some route) none h = h
  append_binding-Each (some route) (some binding) h = append_to-IsRoute route binding h

  push_route-IsFinished :
      (routes : List CommunicationRoute) (route : Option CommunicationRoute)
      → All IsFinished routes
      → Each IsRoute route
      → All IsFinished (push_route routes route)
  push_route-IsFinished routes none h k = h
  push_route-IsFinished routes (some route) h k = All-append IsFinished routes _ h ((k, refl), tt)

  pub complete_route-IsState :
      (state : CommunicationParseState) → IsState state → IsState (complete_route state)
  unfolding complete_route
  complete_route-IsState state h = (
    tt,
    push_route-IsFinished state.routes (append_binding state.current_route state.current_binding)
        h.1 (append_binding-Each state.current_route state.current_binding h.0),
  )
