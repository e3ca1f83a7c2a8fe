-- ===== src/Monitor/Discovery/Collected.antt =====
-- What is collected from the YAML files (monitor/pr-monitor/src/discovery.ts).
use robotics_pacific_rim.Base.{
  ◌≡◌, sym, ◌∙◌, inl, inr, Bool, true, false, ◌||◌, Option, none, some, List, [], ◌∷◌, ◌++◌,
  append_assoc, append-nil, ltb, if◌then◌else◌, Bool-cases, Option-cases, length, All, All-append,
  Text, text, eq_text, is_empty, or_text,
}
use robotics_pacific_rim.Base.Result.{Result, ok, err}
use robotics_pacific_rim.Base.Assoc.{Assoc}
use robotics_pacific_rim.Monitor.Yaml.Value.{
  YamlValue, YamlObject, entries, as_object, field, as_array, text_field,
}
use robotics_pacific_rim.Monitor.Discovery.Draft.{
  ContractAddress, SectionName, services, topics, idl_service_name_from_source,
}
use robotics_pacific_rim.Monitor.Discovery.Interface.{
  Found, draft_if, interface_route, interface_routes, interface_section, collect_interface_yaml,
  objects_of,
}
use robotics_pacific_rim.Monitor.Discovery.Communication.{
  direct_drafts, bridged_drafts, contract_drafts, contract_draft, binding_drafts, binding_draft,
  route_draft, direction_of, middlewares_of, ref_key, contract_addresses, both_sections,
  communication_route, communication_routes, communication_section,
}
use robotics_pacific_rim.Monitor.Discovery.Collect.{
  Collection, collect_communication_config, collect_bridge_config, collect_parsed, collect_files,
}
use robotics_pacific_rim.Monitor.Discovery.Addresses.{
  IsDraft, HasUrl, HasUrls, endpoint_type_for-IsRole, flat_map-All, map-All, draft_if-IsDraft,
  interface_route_sound, selected_addresses-HasUrl, contract_addresses-HasUrl, put-HasUrls,
}

-- All drafts are drafts with a URL and a role, and all indexed addresses have URLs.
pub record IsFound (found : Found) : Type 0 where
  pub drafts : All IsDraft found.drafts
  pub index : HasUrls found.contract_index

interface_routes-IsFound :
    (section : SectionName) (source : Text) (routes : List (Text × YamlValue)) (found : Found)
    → IsFound found
    → IsFound (interface_routes section source routes found)
unfolding interface_routes
interface_routes-IsFound section source [] found f = f
interface_routes-IsFound section source ((name, raw) ∷ rest) found f =
    elim (Option-cases (as_object (some raw))) [
      | inl e ↦ rw (e, interface_routes) (interface_routes-IsFound section source rest found f)
      | inr (route, e) ↦
          let (drafts, addresses) = interface_route_sound section source name route in
          rw (e, interface_routes)
            (interface_routes-IsFound section source rest _ (record {
              drafts = All-append IsDraft found.drafts _ f.drafts drafts;
              index =
                  if_index
                    (is_empty (idl_service_name_from_source source)
                      || is_empty (interface_route section source name route).1)
                    _ _ f.index (put-HasUrls _ _ _ addresses f.index);
            }))
    ]
  where
    if_index :
        (b : Bool) (i j : Assoc (List ContractAddress))
        → HasUrls i
        → HasUrls j
        → HasUrls (if b then i else j)
    if_index true i j h k = h
    if_index false i j h k = k

interface_section-IsFound :
    (section : SectionName) (key : Text) (parsed : YamlObject) (source : Text) (found : Found)
    → IsFound found
    → IsFound (interface_section section key parsed source found)
unfolding interface_section
interface_section-IsFound section key parsed source found f =
    elim (Option-cases (as_object (field key parsed))) [
      | inl e ↦ rw (e, interface_section) f
      | inr (routes, e) ↦
          rw (e, interface_section)
            (interface_routes-IsFound section source (entries routes) found f)
    ]

abbrev AllIndexed : Option (Assoc (List ContractAddress)) → Type 0
AllIndexed none = Unit
AllIndexed (some index) = HasUrls index

indexed-HasUrl :
    (index : Option (Assoc (List ContractAddress))) (ref : Text)
    → AllIndexed index
    → All HasUrl (contract_addresses index ref)
unfolding contract_addresses
indexed-HasUrl none ref h = tt
indexed-HasUrl (some index) ref h = contract_addresses-HasUrl index ref h

-- The parts of one route.
module _ (section : SectionName) (source name : Text) (route : YamlObject) where
  direct_drafts-IsDraft : All IsDraft (direct_drafts section source name route)
  unfolding direct_drafts route_draft
  direct_drafts-IsDraft = elim (Bool-cases (is_empty (text_field (text "transport") route))) [
    | inl e ↦ rw e tt
    | inr e ↦ rw e (draft_if-IsDraft _ (endpoint_type_for-IsRole section [] (direction_of route)))
  ]

  bridged_drafts-IsDraft : All IsDraft (bridged_drafts section source name route)
  unfolding bridged_drafts route_draft
  bridged_drafts-IsDraft =
      elim (Bool-cases (eq_text (text_field (text "transport") route) (text "nats_topic"))) [
        | inl e ↦
            rw e (draft_if-IsDraft _ (endpoint_type_for-IsRole section [] (direction_of route)))
        | inr e ↦ rw e tt
      ]

  contract_drafts-IsDraft :
      (index : Option (Assoc (List ContractAddress)))
      → AllIndexed index
      → All IsDraft (contract_drafts section source index name route)
  unfolding contract_drafts contract_draft route_draft
  contract_drafts-IsDraft index h =
      map-All HasUrl IsDraft (contract_draft section source name route) _
        (λ a u. record { url = u; type = endpoint_type_for-IsRole section [] (direction_of route) })
        (selected_addresses-HasUrl _ (middlewares_of route)
          (indexed-HasUrl index (text_field (ref_key section) route) h))

  binding_drafts-IsDraft : All IsDraft (binding_drafts section source name route)
  unfolding binding_drafts route_draft
  binding_drafts-IsDraft =
      flat_map-All IsDraft (λ b. draft_if (binding_draft section source name route b))
        (objects_of (as_array (field (text "bindings") route)))
        (λ b. draft_if-IsDraft (binding_draft section source name route b) (
          endpoint_type_for-IsRole section []
            (or_text (text_field (text "direction") b) (direction_of route))))

communication_route-IsDraft :
    (section : SectionName) (source : Text) (index : Option (Assoc (List ContractAddress)))
    (name : Text) (route : YamlObject)
    → AllIndexed index
    → All IsDraft (communication_route section source index name route)
unfolding communication_route
communication_route-IsDraft section source index name route h =
    let bindings = binding_drafts section source name route in
    let contract = contract_drafts section source index name route in
    let bridged = bridged_drafts section source name route in
    All-append IsDraft (direct_drafts section source name route) (bridged ++ (contract ++ bindings))
      (direct_drafts-IsDraft section source name route)
      (All-append IsDraft bridged (contract ++ bindings)
        (bridged_drafts-IsDraft section source name route)
        (All-append IsDraft contract bindings
          (contract_drafts-IsDraft section source name route index h)
          (binding_drafts-IsDraft section source name route)))

communication_routes-IsDraft :
    (section : SectionName) (source : Text) (index : Option (Assoc (List ContractAddress)))
    (routes : List (Text × YamlValue))
    → AllIndexed index
    → All IsDraft (communication_routes section source index routes)
unfolding communication_routes
communication_routes-IsDraft section source index [] h = tt
communication_routes-IsDraft section source index ((name, raw) ∷ rest) h =
    elim (Option-cases (as_object (some raw))) [
      | inl e ↦
          rw (e, communication_routes) (communication_routes-IsDraft section source index rest h)
      | inr (route, e) ↦
          rw (e, communication_routes)
            (All-append IsDraft (communication_route section source index name route) _
              (communication_route-IsDraft section source index name route h)
              (communication_routes-IsDraft section source index rest h))
    ]

communication_section-IsDraft :
    (section : SectionName) (key source : Text) (index : Option (Assoc (List ContractAddress)))
    (communication : YamlObject)
    → AllIndexed index
    → All IsDraft (communication_section section key source index communication)
unfolding communication_section
communication_section-IsDraft section key source index communication h =
    elim (Option-cases (as_object (field key communication))) [
      | inl e ↦ rw (e, communication_section) tt
      | inr (routes, e) ↦
          rw (e, communication_section)
            (communication_routes-IsDraft section source index (entries routes) h)
    ]

both_sections-IsDraft :
    (source : Text) (index : Option (Assoc (List ContractAddress))) (o : Option YamlObject)
    → AllIndexed index
    → All IsDraft (both_sections source index o)
unfolding both_sections
both_sections-IsDraft source index none h = tt
both_sections-IsDraft source index (some communication) h =
    All-append IsDraft (communication_section services (text "services") source index communication)
      _ (communication_section-IsDraft services (text "services") source index communication h)
      (communication_section-IsDraft topics (text "topics") source index communication h)

collect_parsed-IsFound :
    (parsed : YamlObject) (source : Text) (found : Found)
    → IsFound found
    → IsFound (collect_parsed parsed source found)
unfolding collect_parsed collect_interface_yaml collect_communication_config collect_bridge_config
collect_parsed-IsFound parsed source found f =
    let first =
      interface_section-IsFound topics (text "topics") parsed source _
        (interface_section-IsFound services (text "services") parsed source found f) in
    record {
      drafts =
          All-append IsDraft _ _
            (All-append IsDraft _ _ first.drafts
              (both_sections-IsDraft source (some _) _ first.index))
            (both_sections-IsDraft source none _ tt);
      index = first.index;
    }

-- The errors of the files that could not be parsed, in order.
abbrev pub errors_of : List (Text × Result Text YamlObject) → List Text
errors_of [] = []
errors_of ((source, err message) ∷ files) = (source ++ (text ": " ++ message)) ∷ errors_of files
errors_of ((source, ok parsed) ∷ files) = errors_of files

-- Whatever the files hold: the loop over them reports exactly those that cannot be parsed, in their
-- order, and goes on; every draft that it collects has a URL and one of the four types, and so has
-- every address of the contract index a URL.
pub collect_files-IsFound :
    (files : List (Text × Result Text YamlObject)) (c : Collection)
    → IsFound c.found
    → IsFound (collect_files files c).found
      × ((collect_files files c).errors ≡ c.errors ++ errors_of files)
unfolding collect_files
collect_files-IsFound [] c f = (f, sym (append-nil c.errors))
collect_files-IsFound ((source, err message) ∷ files) c f =
    let line = source ++ (text ": " ++ message) in
    let (found, errors) =
      collect_files-IsFound files (record c { errors = c.errors ++ line ∷ [] }) f in
    (found, errors ∙ append_assoc c.errors (line ∷ []) (errors_of files))
collect_files-IsFound ((source, ok parsed) ∷ files) c f =
    collect_files-IsFound files
      (record c {
        found = collect_parsed parsed source c.found;
        sources =
            if ltb (length c.found.drafts) (length (collect_parsed parsed source c.found).drafts)
            then c.sources ++ source ∷ []
            else c.sources;
      })
      (collect_parsed-IsFound parsed source c.found f)
