-- ===== src/Dashboard/Operations/Provide.antt =====
-- The operation that adds a route to a service's public interface
-- (dashboard/packages/api/src/routers/dashboard.ts).
use robotics_pacific_rim.Base.{
  Bool, not, ◌&&◌, Option, none, some, List, [], ◌∷◌, ◌++◌, or_else, is_some, find, Text, text,
  eq_text, join,
}
use robotics_pacific_rim.Base.Result.{Result, ok, ◌>>=◌, ◌>>◌, ensure}
use robotics_pacific_rim.Base.Assoc.{get, put}
use robotics_pacific_rim.Dashboard.Names.{validate_route_name}
use robotics_pacific_rim.Dashboard.Blocks.Edit.{append_top_level_yaml_route_block}
use robotics_pacific_rim.Dashboard.Paths.{path_text}
use robotics_pacific_rim.Dashboard.Formats.{DataFormatKind, ModuleDataFormatItem}
use robotics_pacific_rim.Dashboard.Interfaces.{
  ProviderInput, validate_provider_communication_input, provider_public_route_block, is_service,
}
use robotics_pacific_rim.Dashboard.Values.Projects.{
  ModuleSummary, read_module_project, service_name_of,
}
use robotics_pacific_rim.Dashboard.Operations.{
  OperationFailure, name_failure, edit_failure, provider_failure, unknown_module, format_failure,
  DashboardState, lift, found, section_of_kind, is_proto, written,
}
use robotics_pacific_rim.Dashboard.Operations.Create.{ServiceDataFormatCatalog, kind_name}

abbrev eq_format : DataFormatKind → DataFormatKind → Bool
eq_format kind other = eq_text (kind_name kind) (kind_name other)

-- The format of a kind and a name in a service's catalog; an output's name can be missing.
abbrev format_in :
    DataFormatKind → Option Text → Option ServiceDataFormatCatalog → Option ModuleDataFormatItem
format_in kind none formats = none
format_in kind (some name) none = none
format_in kind (some name) (some formats) =
    find (λ item. eq_format item.kind kind && eq_text item.name name) formats.formats

pub record CreateProviderInput : Type 0 where
  pub input : ProviderInput
  pub open input use *
  pub input_name : Text
  pub module_name : Text
  pub name : Text
  pub output_name : Option Text

abbrev unknown_format : CreateProviderInput → Text
unknown_format request =
    text "Unknown "
    ++ (kind_name request.format
        ++ (text " data format \""
            ++ (request.data_service ++ (b'.' ∷ (request.input_name ++ text "\".")))))

module _ {S : Type 0} (repo_root : List Text) (projects : List ModuleSummary) where
  -- `createProviderCommunicationItem`, of the data formats that are read.
  unfoldable pub create_provider_communication_item :
      List ServiceDataFormatCatalog
      → CreateProviderInput
      → DashboardState S
      → Result OperationFailure (DashboardState S)
  unfolding read_module_project service_name_of validate_route_name
      validate_provider_communication_input eq_text provider_public_route_block
      append_top_level_yaml_route_block get put join
  create_provider_communication_item catalog request state = do
    summary ← lift unknown_module (read_module_project projects request.module_name)
    let service_name = service_name_of summary
    route_name ← lift name_failure (validate_route_name request.name)
    lift provider_failure (validate_provider_communication_input request.input service_name)
    let formats = find (λ item. eq_text item.service_name request.data_service) catalog
    let output_format = format_in request.format request.output_name formats
    input_format ←
        found (format_failure (unknown_format request))
          (format_in request.format (some request.input_name) formats)
    ensure
        (not (is_service request.kind && (is_proto request.format && not (is_some output_format))))
        (format_failure (text "Proto service routes require both input and output types."))
    let public_path = path_text (
        repo_root
        ++ text "pkg" ∷ text "idl" ∷ service_name ∷ text "public" ∷ text "interfaces.yaml" ∷ [])
    t ← lift edit_failure (
        append_top_level_yaml_route_block (or_else (get public_path state.files) [])
          (section_of_kind request.kind) route_name
          (provider_public_route_block request.input input_format output_format route_name
            service_name))
    ok (written repo_root public_path t state)
