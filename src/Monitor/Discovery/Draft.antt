-- ===== src/Monitor/Discovery/Draft.antt =====
-- Endpoint drafts and what is read off URLs, sources, roles and middleware names
-- (monitor/pr-monitor/src/discovery.ts).
use robotics_pacific_rim.Base.{
  ℕ, ◌+◌, Bool, not, ◌&&◌, ◌||◌, Option, none, some, List, [], ◌∷◌, ◌++◌, map, ◌==◌, if◌then◌else◌,
  length, drop, all, find, Text, text, eq_text, has_text, is_empty, trim, starts_with, includes,
  lower, is_digit, is_letter, before,
}
use robotics_pacific_rim.Monitor.Types.{
  publisher, subscriber, server, client, SchemaType, proto, flatbuffers, blob, EndpointInfo,
}

pub record EndpointDraft : Type 0 where
  pub type : ℕ
  pub url : Text
  pub runtime_url : Option Text
  pub ser_type : Text
  pub schema_type : SchemaType
  pub source : Text
  pub route_name : Text

pub record ContractAddress : Type 0 where
  pub schema_type : SchemaType
  pub ser_type : Text
  pub url : Text
  pub runtime_url : Option Text

pub data SectionName : Type 0 where
  services topics : SectionName

unfoldable pub endpoint_type_for : SectionName → Text → Text → ℕ
endpoint_type_for section role direction =
    let normalized = lower (role ++ (text " " ++ direction)) in
    let default : ℕ = elim section [ services ↦ server | topics ↦ publisher ] in
    if includes (text "client") normalized
    then client
    else if includes (text "server") normalized
    then server
    else if includes (text "publish") normalized
    then publisher
    else if includes (text "subscribe") normalized
    then subscriber
    else default

unfoldable pub schema_type_for_format : Text → SchemaType
schema_type_for_format format =
    if includes (text "flat") (lower format)
    then flatbuffers
    else if includes (text "blob") (lower format)
    then blob
    else proto

-- `replace(/^\/+/, "")`.
unfoldable pub drop_slashes : Text → Text
drop_slashes [] = []
drop_slashes (c ∷ s) = let rest = drop_slashes s in if c == b'/' then rest else c ∷ s

unfoldable pub route_url : Text → Text → Text
route_url scheme value =
    if is_empty (trim value) then [] else scheme ++ (text "://" ++ drop_slashes (trim value))

-- `url.split("://")[0]`.
unfoldable pub transport_from_url : Text → Text
transport_from_url url = before (text "://") url

-- A unit of a scheme, `[a-z0-9+.-]` without regard to case.
abbrev is_scheme_unit : ℕ → Bool
is_scheme_unit c = is_letter c || is_digit c || c == b'+' || c == b'.' || c == b'-'

-- `url.replace(/^[a-z0-9+.-]+:\/\//i, "")`.
unfoldable pub drop_scheme : Text → Text
drop_scheme url =
    let scheme = before (text "://") url in
    if not (is_empty scheme) && all is_scheme_unit scheme && not (length scheme == length url)
    then drop (length scheme + 3) url
    else url

unfoldable pub replace_url_scheme : Text → Text → Text
replace_url_scheme url scheme = scheme ++ (text "://" ++ drop_scheme url)

abbrev underscored : ℕ → ℕ
underscored c = if c == b'-' then b'_' else c

-- `value.trim().toLowerCase().replace(/-/g, "_")`.
unfoldable pub normal_name : Text → Text
normal_name value = map underscored (lower (trim value))

abbrev pub rmw_names : List Text
rmw_names =
    (text "cyclonedds"
      ∷ text "cyclone_dds"
      ∷ text "rmw_cyclonedds"
      ∷ text "rmw_cyclonedds_cpp"
      ∷ text "cyclonedds_rmw"
      ∷ text "cyclonedds_rmw_cyclonedds"
      ∷ [])

unfoldable pub is_cyclone_dds_rmw_middleware : Text → Bool
is_cyclone_dds_rmw_middleware value = has_text (normal_name value) rmw_names

-- `normalizeMiddleware` from the normal name on.
unfoldable pub middleware_of : Text → Text
middleware_of name =
    if has_text name (text "ros2_topic" ∷ text "ros2_service" ∷ text "rmw_ros2" ∷ [])
    then text "ros2"
    else if has_text name (text "nats_topic" ∷ text "nats_rpc" ∷ [])
    then text "nats"
    else if has_text name
        (text "dds" ∷ text "dds_topic" ∷ text "cyclonedds_topic" ∷ text "cyclonedds_native" ∷ [])
    then text "cyclonedds"
    else if is_cyclone_dds_rmw_middleware name
    then text "cyclonedds"
    else name

unfoldable pub normalize_middleware : Text → Text
normalize_middleware value = middleware_of (normal_name value)

abbrev pub has_transport : Text → ContractAddress → Bool
has_transport transport address = eq_text (transport_from_url address.url) transport

unfoldable pub address_for_middleware : List ContractAddress → Text → Option ContractAddress
address_for_middleware addresses middleware =
    let native = find (has_transport (normalize_middleware middleware)) addresses in
    let ros2 : Option ContractAddress = find (has_transport (text "ros2")) addresses in
    if is_cyclone_dds_rmw_middleware middleware
    then elim ros2 [
      | none ↦ native
      | some address ↦ some (record address {
        url = replace_url_scheme address.url (text "cyclonedds");
        runtime_url = some address.url;
      })
    ]
    else native

-- `source.match(/^pkg\/idl\/([^/]+)\/public\/interfaces\.yaml$/)`, its group.
unfoldable pub idl_service_name_from_source : Text → Text
idl_service_name_from_source source =
    let rest = drop 8 source in
    let name = before (text "/") rest in
    if starts_with (text "pkg/idl/") source && eq_text rest (name ++ text "/public/interfaces.yaml")
    then name
    else []

unfoldable pub is_public_interface_source : Text → Bool
is_public_interface_source source = not (is_empty (idl_service_name_from_source source))

unfoldable pub endpoint_from_draft : {R : Type 0} → EndpointDraft → EndpointInfo R
endpoint_from_draft draft = record {
  type = draft.type;
  url = draft.url;
  runtime_url = draft.runtime_url;
  ser_type = draft.ser_type;
  schema_type = draft.schema_type;
  process_list = [];
  sources = draft.source ∷ [];
  route_names = draft.route_name ∷ [];
}
