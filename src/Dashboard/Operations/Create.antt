-- ===== src/Dashboard/Operations/Create.antt =====
-- The operations that add a data format, or a route to a configuration or a public interface
-- (dashboard/packages/api/src/routers/dashboard.ts).
use robotics_pacific_rim.Base.{
  Bool, true, false, not, ◌&&◌, ◌||◌, Option, none, some, List, [], ◌∷◌, ◌++◌, map, if◌then◌else◌,
  or_else, find, Text, text, eq_text, is_empty, trim_end, join,
}
use robotics_pacific_rim.Base.Result.{Result, ok, err, ◌>>=◌, ◌>>◌, ensure}
use robotics_pacific_rim.Base.Assoc.{get, put}
use robotics_pacific_rim.Dashboard.Lines.{join_lines}
use robotics_pacific_rim.Dashboard.Names.{validate_data_format_name, route_reference}
use robotics_pacific_rim.Dashboard.Routes.{RouteKind, service, topic}
use robotics_pacific_rim.Dashboard.Details.{ModuleCommunicationItem}
use robotics_pacific_rim.Dashboard.Blocks.Edit.{append_yaml_route_block}
use robotics_pacific_rim.Dashboard.Paths.{path_text}
use robotics_pacific_rim.Dashboard.Formats.{
  DataFormatKind, proto, msg, srv, dds_idl, ModuleDataFormatItem,
}
use robotics_pacific_rim.Dashboard.Formats.Render.{
  CreateDataFormatInput, render_data_format_definition, append_proto_message_block,
}
use robotics_pacific_rim.Dashboard.Interfaces.{is_service}
use robotics_pacific_rim.Dashboard.Transports.{family_text}
use robotics_pacific_rim.Dashboard.Values.Projects.{
  ModuleSummary, read_module_project, service_name_of,
}
use robotics_pacific_rim.Dashboard.Operations.{
  OperationFailure, name_failure, edit_failure, unknown_module, format_failure, DashboardState,
  lift, found, section_of_kind, is_proto, is_ros, written, write_ros2_package_metadata,
}

abbrev pub kind_name : DataFormatKind → Text
kind_name proto = text "proto"
kind_name msg = text "msg"
kind_name srv = text "srv"
kind_name dds_idl = text "dds_idl"

abbrev is_srv : DataFormatKind → Bool
is_srv srv = true
is_srv kind = false

abbrev file_parts : DataFormatKind → Text → Text → List Text
file_parts proto name service_name = text "pb" ∷ (service_name ++ text ".proto") ∷ []
file_parts dds_idl name service_name = text "dds" ∷ service_name ∷ (name ++ text ".idl") ∷ []
file_parts msg name service_name =
    text "ros2" ∷ service_name ∷ text "msg" ∷ (name ++ text ".msg") ∷ []
file_parts srv name service_name =
    text "ros2" ∷ service_name ∷ text "srv" ∷ (name ++ text ".srv") ∷ []

unfoldable pub data_format_file_path : List Text → DataFormatKind → Text → Text → Text
unfolding join
data_format_file_path repo_root kind name service_name =
    path_text
      (repo_root ++ text "pkg" ∷ text "idl" ∷ service_name ∷ file_parts kind name service_name)

abbrev new_proto_file : Text → Text
new_proto_file service_name = join_lines (
    text "syntax = \"proto3\";"
    ∷ []
    ∷ (text "package pacific_rim." ++ (service_name ++ text ".protocols.pb;"))
    ∷ []
    ∷ [])

abbrev refuse_existing : DataFormatKind → Text → Option Text → Result OperationFailure (Unit {0})
refuse_existing kind name none = ok tt
refuse_existing kind name (some t) =
    err (format_failure (kind_name kind ++ (text " \"" ++ (name ++ text "\" already exists."))))

-- The text of the file that a new format is in.
abbrev format_text :
    DataFormatKind → Text → Text → Text → Option Text → Result OperationFailure Text
format_text kind name service_name definition existing =
    if is_proto kind
    then found (format_failure (text "Proto message \"" ++ (name ++ text "\" already exists."))) (
        append_proto_message_block (or_else existing (new_proto_file service_name)) name definition)
    else (refuse_existing kind name existing >> ok (trim_end definition ++ 10 ∷ []))

module _ {S : Type 0} (le : Text → Text → Bool) (repo_root : List Text)
    (projects : List ModuleSummary) where
  -- `createDataFormatItem`.
  unfoldable pub create_data_format_item :
      Text → CreateDataFormatInput → DashboardState S → Result OperationFailure (DashboardState S)
  unfolding read_module_project service_name_of validate_data_format_name
      render_data_format_definition data_format_file_path append_proto_message_block get put
      write_ros2_package_metadata trim_end join_lines
  create_data_format_item module_name input state = do
    summary ← lift unknown_module (read_module_project projects module_name)
    name ← lift name_failure (validate_data_format_name input.name)
    ensure (is_srv input.kind || not (is_empty input.fields))
        (format_failure (kind_name input.kind ++ text " requires at least one field."))
    definition ← lift name_failure (render_data_format_definition input)
    let service_name = service_name_of summary
    let path = data_format_file_path repo_root input.kind name service_name
    t ← format_text input.kind name service_name definition (get path state.files)
    ok (record {
      files =
          if is_ros input.kind
          then write_ros2_package_metadata le repo_root service_name (put path t state.files)
          else put path t state.files;
      cached_snapshot = none;
    })

-- A service with its public items, of `readPublicInterfaceCatalog`.
pub record ServicePublicInterfaceCatalog : Type 0 where
  pub interfaces : List ModuleCommunicationItem
  pub service_name : Text

pub record ServiceDataFormatCatalog : Type 0 where
  pub formats : List ModuleDataFormatItem
  pub service_name : Text

abbrev eq_kind : RouteKind → RouteKind → Bool
eq_kind service kind = is_service kind
eq_kind topic kind = not (is_service kind)

abbrev public_route :
    RouteKind → Text → Option ServicePublicInterfaceCatalog → Option ModuleCommunicationItem
public_route kind route_name none = none
public_route kind route_name (some provider) =
    find (λ item. eq_kind item.kind kind && eq_text item.name route_name) provider.interfaces

abbrev reference_key : RouteKind → Text
reference_key service = text "service_ref"
reference_key topic = text "topic_ref"

abbrev consumer_direction : RouteKind → Text
consumer_direction service = text "client"
consumer_direction topic = text "subscribe"

abbrev middlewares_of : ModuleCommunicationItem → List Text
middlewares_of item =
    if is_empty item.transport_families
    then item.transports
    else map family_text item.transport_families

-- The block of a consumer's route; without middlewares it has an empty line for their heading.
unfoldable pub consumer_route_block : RouteKind → Text → Text → List Text → Text
unfolding route_reference join_lines
consumer_route_block kind provider_service route_name middlewares = join_lines (
    (text "    " ++ (route_name ++ text ":"))
    ∷ (text "      "
        ++ (reference_key kind ++ (text ": " ++ route_reference provider_service route_name)))
    ∷ (text "      direction: " ++ consumer_direction kind)
    ∷ (if is_empty middlewares then [] else text "      middlewares:")
    ∷ map (λ middleware. text "        - " ++ middleware) middlewares)

pub record ConsumerInput : Type 0 where
  pub kind : RouteKind
  pub module_name : Text
  pub provider_service : Text
  pub route_name : Text

abbrev kind_word : RouteKind → Text
kind_word service = text "service"
kind_word topic = text "topic"

module _ {S : Type 0} (repo_root : List Text) (projects : List ModuleSummary) where
  -- `createConsumerCommunicationItem`, of the public interfaces that are read, and with the path of
  -- the module's configuration.
  unfoldable pub create_consumer_communication_item :
      List ServicePublicInterfaceCatalog
      → (ModuleSummary → Text)
      → ConsumerInput
      → DashboardState S
      → Result OperationFailure (DashboardState S)
  unfolding read_module_project service_name_of eq_text route_reference consumer_route_block
      append_yaml_route_block get put
  create_consumer_communication_item catalog config_path_of input state = do
    summary ← lift unknown_module (read_module_project projects input.module_name)
    ensure (not (eq_text input.provider_service (service_name_of summary)))
        (format_failure (text "Consumer route must reference another service."))
    item ←
        found
          (format_failure (
            text "Unknown public "
            ++ (kind_word input.kind
                ++ (text " \""
                    ++ (route_reference input.provider_service input.route_name ++ text "\".")))))
          (public_route input.kind input.route_name
            (find (λ provider. eq_text provider.service_name input.provider_service) catalog))
    let path = config_path_of summary
    next ← lift edit_failure (
        append_yaml_route_block (or_else (get path state.files) []) (section_of_kind input.kind)
          input.route_name
          (consumer_route_block input.kind input.provider_service input.route_name
            (middlewares_of item)))
    t ← found (format_failure []) next
    ok (written repo_root path t state)
