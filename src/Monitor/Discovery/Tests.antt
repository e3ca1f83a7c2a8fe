-- ===== src/Monitor/Discovery/Tests.antt =====
-- Runs of discovery, and its theorems at concrete inputs.
use robotics_pacific_rim.Base.{
  ℕ, ◌≡◌, refl, none, some, List, [], ◌∷◌, map, All, Text, text, join, string_runs,
}
use robotics_pacific_rim.Base.Result.{Result, ok}
use robotics_pacific_rim.Base.Assoc.{get, put}
use robotics_pacific_rim.Base.Sort.{sort, insert}
use robotics_pacific_rim.Base.Locale.{lex_le}
use robotics_pacific_rim.Monitor.Types.{proto}
use robotics_pacific_rim.Monitor.Yaml.Value.{
  field, field_of, as_object, as_array, as_string, entries, items, text_field,
}
use robotics_pacific_rim.Monitor.Yaml.Parse.{parse_runs}
use robotics_pacific_rim.Monitor.Discovery.Draft.{
  ContractAddress, endpoint_type_for, schema_type_for_format, drop_slashes, route_url,
  transport_from_url, drop_scheme, replace_url_scheme, normal_name, is_cyclone_dds_rmw_middleware,
  middleware_of, normalize_middleware, address_for_middleware, idl_service_name_from_source,
  is_public_interface_source, endpoint_from_draft,
}
use robotics_pacific_rim.Monitor.Discovery.Merge.{
  hidden_public_runtime_urls, is_kept, add_text, absorb, merge_draft, merge_drafts, by_scheme,
  kept_drafts, endpoints_of,
}
use robotics_pacific_rim.Monitor.Discovery.Interface.{
  flat_map, url_from_binding, objects_of, address_list, addresses_of, interface_route,
  interface_routes, interface_section, collect_interface_yaml,
}
use robotics_pacific_rim.Monitor.Discovery.Communication.{
  selected_addresses, contract_addresses, route_type_of, route_schema, route_draft, direct_drafts,
  bridged_drafts, contract_draft, middlewares_of, contract_drafts, binding_drafts,
  communication_route, communication_routes, communication_section, both_sections,
}
use robotics_pacific_rim.Monitor.Discovery.Collect.{
  collect_communication_config, collect_bridge_config, collect_parsed, collect_files,
}
use robotics_pacific_rim.Monitor.Discovery.Merged.{IsMerged}
use robotics_pacific_rim.Monitor.Discovery.Addresses.{IsDraft}
use robotics_pacific_rim.Monitor.Discovery.Collected.{errors_of}
use robotics_pacific_rim.Monitor.Discovery.Discover.{
  DiscoveryResult, parse_files, collected, discover_project_endpoints,
  discover_project_endpoints-IsMerged,
}
use robotics_pacific_rim.Monitor.Discovery.Middleware.{
  IsSelected, address_for_middleware-IsSelected,
}

abbrev lines : List Text → Text
lines ls = join (10 ∷ []) ls

abbrev interface_file : Text
interface_file = lines (
    text "topics:"
    ∷ text "  pose:"
    ∷ text "    contract:"
    ∷ text "      type: Pose"
    ∷ text "    addresses:"
    ∷ text "      ros2: /pose"
    ∷ [])

abbrev config_file : Text
config_file = lines (
    text "communication:"
    ∷ text "  topics:"
    ∷ text "    pose_in:"
    ∷ text "      topic_ref: arm.pose"
    ∷ text "      direction: subscribe"
    ∷ text "      middlewares:"
    ∷ text "        - rmw_cyclonedds"
    ∷ [])

abbrev files : List (Text × Result Text Text)
files =
    (text "pkg/idl/arm/public/interfaces.yaml", ok interface_file)
    ∷ (text "module/service/arm/config.yaml", ok config_file)
    ∷ (text "module/service/leg/config.yaml", ok (text "- bad"))
    ∷ []

abbrev same_text : Text → Text
same_text s = s

abbrev found : DiscoveryResult ℕ
found = discover_project_endpoints same_text lex_le files

-- The public ROS 2 address is hidden behind the CycloneDDS one.
found_urls : map (λ e. e.url) found.endpoints ≡ text "cyclonedds://pose" ∷ []
unfolding string_runs parse_runs get put sort insert lex_le field field_of as_object as_array
    as_string entries items text_field endpoint_type_for schema_type_for_format drop_slashes
    route_url transport_from_url drop_scheme replace_url_scheme normal_name
    is_cyclone_dds_rmw_middleware middleware_of normalize_middleware address_for_middleware
    idl_service_name_from_source is_public_interface_source endpoint_from_draft
    hidden_public_runtime_urls is_kept add_text absorb merge_draft merge_drafts by_scheme
    kept_drafts endpoints_of flat_map url_from_binding objects_of address_list addresses_of
    interface_route interface_routes interface_section collect_interface_yaml selected_addresses
    contract_addresses route_type_of route_schema route_draft direct_drafts bridged_drafts
    contract_draft middlewares_of contract_drafts binding_drafts communication_route
    communication_routes communication_section both_sections collect_communication_config
    collect_bridge_config collect_parsed collect_files discover_project_endpoints
found_urls = refl

discover_project_endpoints-IsMerged_example :
    (found.errors ≡ errors_of (parse_files same_text files))
    × All IsDraft (collected same_text files).found.drafts
    × IsMerged (kept_drafts (collected same_text files).found.drafts) found.endpoints
discover_project_endpoints-IsMerged_example =
    discover_project_endpoints-IsMerged same_text lex_le files

abbrev ros2_address : ContractAddress
ros2_address = record {
  schema_type = proto;
  ser_type = text "Pose";
  url = text "ros2://pose";
  runtime_url = none;
}

abbrev dds_address : ContractAddress
dds_address = record ros2_address {
  url = text "cyclonedds://pose";
  runtime_url = some (text "ros2://pose");
}

selects_dds : address_for_middleware (ros2_address ∷ []) (text "RMW-CycloneDDS") ≡ some dds_address
unfolding address_for_middleware is_cyclone_dds_rmw_middleware normal_name normalize_middleware
    middleware_of transport_from_url replace_url_scheme drop_scheme string_runs
selects_dds = refl

address_for_middleware-IsSelected_example :
    IsSelected (ros2_address ∷ []) (text "RMW-CycloneDDS") dds_address
address_for_middleware-IsSelected_example =
    address_for_middleware-IsSelected (ros2_address ∷ []) (text "RMW-CycloneDDS") dds_address
      selects_dds
