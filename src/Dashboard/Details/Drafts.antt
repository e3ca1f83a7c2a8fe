-- ===== src/Dashboard/Details/Drafts.antt =====
-- The drafts and the finished items of the detail parser, and what its steps keep of them
-- (dashboard/packages/api/src/routers/dashboard.ts).
use robotics_pacific_rim.Base.{
  ℕ, ◌≡◌, refl, ap₂, inl, inr, Option, none, some, arith, Bool-cases, Each, if-keeps, All,
  All-append, Text, is_empty,
}
use robotics_pacific_rim.Dashboard.Lines.{parse_key_value, yaml_block_from_line}
use robotics_pacific_rim.Dashboard.Routes.{
  CommunicationSection, kind_of_section, transport_from_binding,
}
use robotics_pacific_rim.Dashboard.Details.{
  DetailPartialBinding, ModuleCommunicationItem, DetailRouteDraft, append_detail_binding,
  append_to_draft, append_detail_transport, create_detail_binding,
}
use robotics_pacific_rim.Dashboard.Details.Parse.{
  DetailCommunicationParseState, transports_of, with_own_binding, item_id, item_of, complete_draft,
  complete_detail_route, apply_detail_route_value, DetailParseLayout,
}
use robotics_pacific_rim.Dashboard.Details.Handlers.{plain_route_value, apply_route_pair}
use robotics_pacific_rim.Dashboard.Details.Bound.{
  IsDetailBound, put_detail_binding-IsDetailBound, set_of-IsDetailBound, IsFamilySet,
  transport_families-IsFamilySet,
}

module _ (t path : Text) (layout : DetailParseLayout) where
  -- A draft is from the file and the source that are read, its definition is a block of the text,
  -- and its kind is that of a section.
  abbrev pub IsDraft : DetailRouteDraft → Type 0
  IsDraft route =
      (route.path ≡ path)
      × (route.source ≡ layout.source)
      × ((n : ℕ) × (route.definition ≡ yaml_block_from_line t n))
      × ((section : CommunicationSection) × (route.kind ≡ kind_of_section section))
      × IsDetailBound route.bindings

  abbrev pub IsItem : ModuleCommunicationItem → Type 0
  IsItem item =
      (item.path ≡ path)
      × (item.source ≡ layout.source)
      × ((n : ℕ) × (item.definition ≡ yaml_block_from_line t n))
      × ((section : CommunicationSection) × (item.kind ≡ kind_of_section section))
      × (item.id ≡ item_id layout.source path item.kind item.name)
      × (item.transports ≡ transports_of item.bindings)
      × IsFamilySet item.transports item.transport_families
      × IsDetailBound item.bindings

  abbrev pub IsDetailState : DetailCommunicationParseState → Type 0
  IsDetailState state = Each IsDraft state.current_route × All IsItem state.items

  append_to_draft-IsDraft :
      (route : DetailRouteDraft) (binding : DetailPartialBinding)
      → IsDraft route
      → IsDraft (append_to_draft route binding)
  unfolding append_to_draft
  append_to_draft-IsDraft route binding h =
      elim (Bool-cases (is_empty (transport_from_binding binding.partial))) [
        | inl e ↦ rw e h
        | inr e ↦ rw e (
          h.0,
          h.1,
          h.2,
          h.3,
          put_detail_binding-IsDetailBound route binding (transport_from_binding binding.partial)
              route.bindings e h.4,
        )
      ]

  pub append_detail_binding-IsDraft :
      (route : DetailRouteDraft) (binding : Option DetailPartialBinding)
      → IsDraft route
      → IsDraft (append_detail_binding route binding)
  append_detail_binding-IsDraft route none h = h
  append_detail_binding-IsDraft route (some binding) h = append_to_draft-IsDraft route binding h

  pub append_detail_transport-IsDraft :
      (route : DetailRouteDraft) (transport address : Text)
      → IsDraft route
      → IsDraft (append_detail_transport route transport address)
  unfolding append_detail_transport
  append_detail_transport-IsDraft route transport address h =
      if-keeps IsDraft (is_empty transport) route
        (append_to_draft route (create_detail_binding transport route address)) h
        (append_to_draft-IsDraft route (create_detail_binding transport route address) h)

  with_own_binding-IsDraft :
      (route : DetailRouteDraft) → IsDraft route → IsDraft (with_own_binding route)
  with_own_binding-IsDraft route h = elim (Bool-cases (is_empty route.bindings)) [
    | inl e ↦ rw e (append_to_draft-IsDraft route route.route_binding h)
    | inr e ↦ rw e h
  ]

  item_of-IsItem : (route : DetailRouteDraft) → IsDraft route → IsItem (item_of route)
  unfolding item_of
  item_of-IsItem route h = (
    h.0,
    h.1,
    h.2,
    h.3,
    ap₂ (λ s p. item_id s p route.kind route.name) h.1 h.0,
    set_of-IsDetailBound route.bindings h.4,
    transport_families-IsFamilySet (item_of route).transports,
    h.4,
  )

  complete_draft-IsDetailState :
      (state : DetailCommunicationParseState) (route : Option DetailRouteDraft)
      → IsDetailState state
      → state.current_route ≡ route
      → Each IsDraft route
      → IsDetailState (complete_draft state route)
  complete_draft-IsDetailState state none h e k = h
  complete_draft-IsDetailState state (some route) h e k = (
    tt,
    All-append IsItem state.items _ h.1 (
      item_of-IsItem _ (
          with_own_binding-IsDraft (append_detail_binding route state.current_binding)
            (append_detail_binding-IsDraft route state.current_binding k)),
      tt,
    ),
  )

  pub complete-IsDetailState :
      (state : DetailCommunicationParseState)
      → IsDetailState state
      → IsDetailState (complete_detail_route state)
  unfolding complete_detail_route
  complete-IsDetailState state h = complete_draft-IsDetailState state state.current_route h refl h.0

  pub apply_detail_route_value-IsDraft :
      (route : DetailRouteDraft) (key value : Text)
      → IsDraft route
      → IsDraft (apply_detail_route_value route key value)
  unfolding apply_detail_route_value
  apply_detail_route_value-IsDraft route key value h = ground arith

  pub plain_route_value-IsDraft :
      (route : DetailRouteDraft) (trimmed : Text)
      → IsDraft route
      → IsDraft (plain_route_value route trimmed)
  plain_route_value-IsDraft route trimmed h =
      if-keeps IsDraft _ route (apply_route_pair route (parse_key_value trimmed)) h
        (pair-IsDraft (parse_key_value trimmed))
    where
      pair-IsDraft : (pair : Option (Text × Text)) → IsDraft (apply_route_pair route pair)
      pair-IsDraft none = h
      pair-IsDraft (some (key, value)) = apply_detail_route_value-IsDraft route key value h
