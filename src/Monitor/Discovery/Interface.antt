-- ===== src/Monitor/Discovery/Interface.antt =====
-- Drafts from interface files (monitor/pr-monitor/src/discovery.ts).
use robotics_pacific_rim.Base.{
  ℕ, zero, suc, ◌||◌, Option, none, some, List, [], ◌∷◌, ◌++◌, map, if◌then◌else◌, Text, text,
  eq_text, is_empty, or_text,
}
use robotics_pacific_rim.Base.Assoc.{Assoc, put}
use robotics_pacific_rim.Monitor.Types.{SchemaType}
use robotics_pacific_rim.Monitor.Yaml.Value.{
  YamlValue, YamlObject, field, field_of, as_object, as_array, as_string, entries, text_field,
}
use robotics_pacific_rim.Monitor.Discovery.Draft.{
  EndpointDraft, ContractAddress, SectionName, services, topics, endpoint_type_for,
  schema_type_for_format, route_url, idl_service_name_from_source,
}

-- The drafts and the index of contracts, which the code appends to.
pub record Found : Type 0 where
  pub drafts : List EndpointDraft
  pub contract_index : Assoc (List ContractAddress)

unfoldable pub url_from_binding : YamlObject → Text
url_from_binding binding =
    let transport = text_field (text "transport") binding in
    if eq_text transport (text "ros2_service")
    then route_url (text "ros2") (text_field (text "service") binding)
    else if eq_text transport (text "ros2_topic")
    then route_url (text "ros2")
        (or_text (text_field (text "topic") binding) (text_field (text "ros_topic") binding))
    else if eq_text transport (text "nats_rpc") || eq_text transport (text "nats_topic")
    then route_url (text "nats") (text_field (text "subject") binding)
    else if eq_text transport (text "grpc")
    then route_url (text "grpc") (text_field (text "service") binding)
    else if eq_text transport (text "cyclonedds") || eq_text transport (text "dds_topic")
    then route_url (text "cyclonedds") (text_field (text "topic") binding)
    else []

unfoldable pub flat_map {ℓ κ} : {A : Type ℓ} {B : Type κ} → (A → List B) → List A → List B
flat_map f [] = []
flat_map f (x ∷ xs) = f x ++ flat_map f xs

-- `a || b` on numbers.
abbrev pub or_type : ℕ → ℕ → ℕ
or_type zero b = b
or_type (suc a) b = suc a

-- The draft, if there is a URL.
abbrev pub draft_if : EndpointDraft → List EndpointDraft
draft_if d = if is_empty d.url then [] else d ∷ []

abbrev pub address_if : ContractAddress → List ContractAddress
address_if a = if is_empty a.url then [] else a ∷ []

abbrev pub first_object : Option YamlObject → Option YamlObject → Option YamlObject
first_object none o = o
first_object (some a) o = some a

-- `asObject` on each element of an array, without those that are not objects.
unfoldable pub objects_of : List YamlValue → List YamlObject
objects_of [] = []
objects_of (v ∷ vs) = elim (as_object (some v)) [
  | none ↦ objects_of vs
  | some o ↦ o ∷ objects_of vs
]

unfoldable pub address_list : SchemaType → Text → List (Text × YamlValue) → List ContractAddress
address_list schema ser [] = []
address_list schema ser ((transport, raw) ∷ rest) =
    address_if (record {
      schema_type = schema;
      ser_type = ser;
      url = route_url transport (as_string (some raw));
      runtime_url = none;
    })
    ++ address_list schema ser rest

unfoldable pub addresses_of : SchemaType → Text → Option YamlObject → List ContractAddress
addresses_of schema ser none = []
addresses_of schema ser (some addresses) = address_list schema ser (entries addresses)

-- One route of an interface file: its drafts, and its addresses for the contract index.
unfoldable pub interface_route :
    SectionName → Text → Text → YamlObject → List EndpointDraft × List ContractAddress
interface_route section source name route =
    let contract =
      first_object (as_object (field (text "contract") route))
        (as_object (field (text "payload") route)) in
    let ser =
      or_text (as_string (field_of (text "type") contract))
        (or_text (text_field (text "type") route) (text "unknown")) in
    let schema =
      schema_type_for_format (
        or_text (as_string (field_of (text "format") contract)) (text_field (text "data") route)) in
    let role = text_field (text "role") route in
    let direction = text_field (text "direction") route in
    let addresses = addresses_of schema ser (as_object (field (text "addresses") route)) in
    let draft : ℕ → Text → EndpointDraft = λ type url. record {
      type = type;
      url = url;
      runtime_url = none;
      ser_type = ser;
      schema_type = schema;
      source = source;
      route_name = name;
    } in
    let of_address = map (λ a. draft (endpoint_type_for section role direction) a.url) addresses in
    let of_binding : YamlObject → List EndpointDraft = λ b. draft_if (
      draft
        (or_type
          (endpoint_type_for section role (or_text (text_field (text "direction") b) direction))
          (endpoint_type_for section role direction))
        (url_from_binding b)) in
    (
      of_address ++ flat_map of_binding (objects_of (as_array (field (text "bindings") route))),
      addresses,
    )

unfoldable pub interface_routes : SectionName → Text → List (Text × YamlValue) → Found → Found
interface_routes section source [] found = found
interface_routes section source ((name, raw) ∷ rest) found = elim (as_object (some raw)) [
  | none ↦ interface_routes section source rest found
  | some route ↦
      let (drafts, addresses) = interface_route section source name route in
      let service = idl_service_name_from_source source in
      interface_routes section source rest (record {
        drafts = found.drafts ++ drafts;
        contract_index =
            if is_empty service || is_empty addresses
            then found.contract_index
            else put (service ++ (b'.' ∷ name)) addresses found.contract_index;
      })
]

-- `collectInterfaceSection` and `collectInterfaceYaml`.
unfoldable pub interface_section : SectionName → Text → YamlObject → Text → Found → Found
interface_section section key parsed source found = elim (as_object (field key parsed)) [
  | none ↦ found
  | some routes ↦ interface_routes section source (entries routes) found
]

unfoldable pub collect_interface_yaml : YamlObject → Text → Found → Found
collect_interface_yaml parsed source found =
    interface_section topics (text "topics") parsed source
      (interface_section services (text "services") parsed source found)
