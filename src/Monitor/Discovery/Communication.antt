-- ===== src/Monitor/Discovery/Communication.antt =====
-- Drafts from communication sections (monitor/pr-monitor/src/discovery.ts).
use robotics_pacific_rim.Base.{
  not, Option, none, some, List, [], ◌∷◌, ◌++◌, map, if◌then◌else◌, or_else, select, Text, text,
  eq_text, is_empty, or_text,
}
use robotics_pacific_rim.Base.Assoc.{Assoc, get}
use robotics_pacific_rim.Monitor.Types.{SchemaType, proto, flatbuffers, blob}
use robotics_pacific_rim.Monitor.Yaml.Value.{
  YamlValue, YamlObject, field, field_of, as_object, as_array, as_string, entries, text_field,
}
use robotics_pacific_rim.Monitor.Discovery.Draft.{
  EndpointDraft, ContractAddress, SectionName, services, topics, endpoint_type_for,
  schema_type_for_format, route_url, address_for_middleware,
}
use robotics_pacific_rim.Monitor.Discovery.Interface.{
  draft_if, flat_map, objects_of, url_from_binding,
}

abbrev pub ref_key : SectionName → Text
ref_key services = text "service_ref"
ref_key topics = text "topic_ref"

-- The addresses that a reference selects: by each middleware, if the route names any.
unfoldable pub selected_addresses : List ContractAddress → List Text → List ContractAddress
selected_addresses addresses [] = addresses
selected_addresses addresses (m ∷ ms) =
    flat_map
      (λ middleware. elim (address_for_middleware addresses middleware) [
        | none ↦ []
        | some a ↦ a ∷ []
      ])
      (m ∷ ms)

abbrev own_schema : SchemaType → SchemaType → SchemaType
own_schema proto contract = contract
own_schema flatbuffers contract = flatbuffers
own_schema blob contract = blob

-- The addresses that a reference names, if it is given and there is an index.
unfoldable pub contract_addresses :
    Option (Assoc (List ContractAddress)) → Text → List ContractAddress
contract_addresses none ref = []
contract_addresses (some index) ref = if is_empty ref then [] else or_else (get ref index) []

unfoldable pub route_type_of : YamlObject → Text
route_type_of route = or_text (text_field (text "service_type") route) (
    or_text (text_field (text "message_type") route) (
      or_text (as_string (field_of (text "type") (as_object (field (text "payload") route))))
        (text "unknown")))

unfoldable pub route_schema : YamlObject → SchemaType
route_schema route =
    schema_type_for_format
      (as_string (field_of (text "format") (as_object (field (text "payload") route))))

unfoldable pub route_draft : SectionName → Text → Text → YamlObject → Text → Text → EndpointDraft
route_draft section source name route url direction = record {
  type = endpoint_type_for section [] direction;
  url = url;
  runtime_url = none;
  ser_type = route_type_of route;
  schema_type = route_schema route;
  source = source;
  route_name = name;
}

abbrev pub direction_of : YamlObject → Text
direction_of route = text_field (text "direction") route

-- The pushes of one route, in their order: its own transport, the ROS 2 topic behind a NATS topic,
-- the contract that it refers to, and its bindings.
unfoldable pub direct_drafts : SectionName → Text → Text → YamlObject → List EndpointDraft
direct_drafts section source name route =
    if is_empty (text_field (text "transport") route)
    then []
    else draft_if
        (route_draft section source name route (url_from_binding route) (direction_of route))

unfoldable pub bridged_drafts : SectionName → Text → Text → YamlObject → List EndpointDraft
bridged_drafts section source name route =
    let url = route_url (text "ros2") (text_field (text "ros_topic") route) in
    if eq_text (text_field (text "transport") route) (text "nats_topic")
    then draft_if (route_draft section source name route url (direction_of route))
    else []

unfoldable pub contract_draft :
    SectionName → Text → Text → YamlObject → ContractAddress → EndpointDraft
contract_draft section source name route a =
    record (route_draft section source name route a.url (direction_of route)) {
      runtime_url = a.runtime_url;
      ser_type =
          if eq_text (route_type_of route) (text "unknown")
          then a.ser_type
          else route_type_of route;
      schema_type = own_schema (route_schema route) a.schema_type;
    }

unfoldable pub middlewares_of : YamlObject → List Text
middlewares_of route =
    select (λ t. not (is_empty t))
      (map (λ v. as_string (some v)) (as_array (field (text "middlewares") route)))

unfoldable pub contract_drafts :
    SectionName
    → Text
    → Option (Assoc (List ContractAddress))
    → Text
    → YamlObject
    → List EndpointDraft
contract_drafts section source index name route = map (contract_draft section source name route) (
    selected_addresses (contract_addresses index (text_field (ref_key section) route))
      (middlewares_of route))

abbrev pub binding_draft : SectionName → Text → Text → YamlObject → YamlObject → EndpointDraft
binding_draft section source name route b =
    route_draft section source name route (url_from_binding b)
      (or_text (text_field (text "direction") b) (direction_of route))

unfoldable pub binding_drafts : SectionName → Text → Text → YamlObject → List EndpointDraft
binding_drafts section source name route =
    flat_map (λ b. draft_if (binding_draft section source name route b))
      (objects_of (as_array (field (text "bindings") route)))

-- One route of `collectCommunicationRoutes`; a bridge has no contract index.
unfoldable pub communication_route :
    SectionName
    → Text
    → Option (Assoc (List ContractAddress))
    → Text
    → YamlObject
    → List EndpointDraft
communication_route section source index name route =
    direct_drafts section source name route
    ++ (bridged_drafts section source name route
        ++ (contract_drafts section source index name route
            ++ binding_drafts section source name route))

unfoldable pub communication_routes :
    SectionName
    → Text
    → Option (Assoc (List ContractAddress))
    → List (Text × YamlValue)
    → List EndpointDraft
communication_routes section source index [] = []
communication_routes section source index ((name, raw) ∷ rest) = elim (as_object (some raw)) [
  | none ↦ communication_routes section source index rest
  | some route ↦
      communication_route section source index name route
      ++ communication_routes section source index rest
]

unfoldable pub communication_section :
    SectionName
    → Text
    → Text
    → Option (Assoc (List ContractAddress))
    → YamlObject
    → List EndpointDraft
communication_section section key source index communication =
    elim (as_object (field key communication)) [
      | none ↦ []
      | some routes ↦ communication_routes section source index (entries routes)
    ]

unfoldable pub both_sections :
    Text → Option (Assoc (List ContractAddress)) → Option YamlObject → List EndpointDraft
both_sections source index none = []
both_sections source index (some communication) =
    communication_section services (text "services") source index communication
    ++ communication_section topics (text "topics") source index communication
