-- ===== src/Dashboard/StateTests.antt =====
-- Runs of the dashboard's operations and summaries, and their theorems at concrete inputs
-- (dashboard/packages/api/src/routers/dashboard.ts).
use robotics_pacific_rim.Base.{
  ℕ, ◌≡◌, ◌↔◌, refl, Bool, true, false, none, some, List, [], ◌∷◌, ◌++◌, map, select, Text, text,
  eq_text, string_runs,
}
use robotics_pacific_rim.Base.Result.{ok}
use robotics_pacific_rim.Base.Assoc.{get}
use robotics_pacific_rim.Base.Sort.{IsSorted}
use robotics_pacific_rim.Dashboard.Lines.{join_lines, lines_run}
use robotics_pacific_rim.Dashboard.Routes.{
  topic, BindingSummary, CommunicationRoute, single_binding,
}
use robotics_pacific_rim.Dashboard.Details.{idl, config, ModuleCommunicationItem}
use robotics_pacific_rim.Dashboard.Names.{names_run}
use robotics_pacific_rim.Dashboard.Paths.{path_text, absolute_repo_path, IsInside, is_under}
use robotics_pacific_rim.Dashboard.Interfaces.{merge_module_communication_items}
use robotics_pacific_rim.Dashboard.Interfaces.Merged.{
  IsDuplicate, merge_module_communication_items-IsDuplicate,
}
use robotics_pacific_rim.Dashboard.Transports.{TransportSummary, summary_le, summarize_transports}
use robotics_pacific_rim.Dashboard.Transports.Totals.{
  total, binding_count, summarize_transports-total,
}
use robotics_pacific_rim.Dashboard.Operations.{
  CommunicationItemInput, DashboardState, module_service_root, idl_root, write_communication_item,
}
use robotics_pacific_rim.Dashboard.Operations.Frame.{IsEdit, write_communication_item-IsInside}

abbrev item_of : Text → Text → ModuleCommunicationItem
item_of name direction = record {
  bindings = [];
  definition = [];
  direction = direction;
  format = [];
  id = [];
  kind = topic;
  message_type = [];
  name = name;
  path = [];
  role = [];
  source = config;
  transport_families = [];
  transports = [];
}

-- A provider that the interface has, one that it has under the message's name, one of the module's
-- own, and a consumer.
abbrev config_items : List ModuleCommunicationItem
config_items =
    item_of (text "pose") (text "publish")
    ∷ record (item_of (text "arm_pose") (text "publish")) { message_type = text "arm.pose" }
    ∷ item_of (text "heat") (text "publish")
    ∷ item_of (text "map") (text "subscribe")
    ∷ []

abbrev idl_items : List ModuleCommunicationItem
idl_items = record (item_of (text "pose") (text "publish")) { source = idl } ∷ []

merged_items :
    map (λ item. item.name) (merge_module_communication_items (text "arm") config_items idl_items)
    ≡ text "heat" ∷ text "map" ∷ text "pose" ∷ []
unfolding merge_module_communication_items lines_run
merged_items = refl

merge_module_communication_items-IsDuplicate_example :
    (keep : ModuleCommunicationItem → Bool) × (merge_module_communication_items
        (text "arm")
        config_items
        idl_items
      ≡ select keep config_items ++ idl_items)
    × ((item : ModuleCommunicationItem)
        → (keep item ≡ true) ↔ ¬ IsDuplicate (text "arm") idl_items item)
merge_module_communication_items-IsDuplicate_example =
    merge_module_communication_items-IsDuplicate (text "arm") config_items idl_items

abbrev binding_of : Text → BindingSummary
binding_of transport = record {
  transport = transport;
  middleware = transport;
  address = [];
  direction = [];
  queue_group = [];
  queue_size = [];
}

abbrev routes : List CommunicationRoute
routes =
    record {
      id = text "pose";
      module_name = text "arm";
      config_path = [];
      kind = topic;
      name = text "pose";
      direction = [];
      message_type = [];
      bindings = binding_of (text "nats_core") ∷ binding_of (text "zenoh") ∷ [];
      status = single_binding;
    }
    ∷ []

abbrev summary_of : Text → ℕ → TransportSummary
summary_of name n = record { name = name; bindings = n; routes = n }

summary_of_routes :
    summarize_transports routes
    ≡ summary_of (text "nats") 1
      ∷ summary_of (text "zenoh") 1
      ∷ summary_of (text "ros2") 0
      ∷ summary_of (text "cyclonedds") 0
      ∷ summary_of (text "fastdds") 0
      ∷ []
unfolding summarize_transports string_runs
summary_of_routes = refl

summarize_transports-total_example :
    (total (summarize_transports routes) ≡ binding_count routes)
    × IsSorted summary_le (summarize_transports routes)
summarize_transports-total_example = summarize_transports-total routes

abbrev repo : List Text
repo = text "repo" ∷ []

abbrev interface_path : Text
interface_path = text "pkg/idl/arm/public/interfaces.yaml"

abbrev deletion : CommunicationItemInput
deletion = record {
  definition = none;
  kind = topic;
  module_name = text "arm";
  name = text "pose";
  path = interface_path;
  source = idl;
}

abbrev start : DashboardState ℕ
start = record {
  files =
      (
        text "repo/pkg/idl/arm/public/interfaces.yaml",
        join_lines (text "topics:" ∷ text "  pose:" ∷ text "    role: publisher" ∷ []),
      )
      ∷ [];
  cached_snapshot = some (5, 7);
}

abbrev after : DashboardState ℕ
after = record {
  files =
      (text "repo/pkg/idl/arm/public/interfaces.yaml", join_lines (text "topics:" ∷ [] ∷ [])) ∷ [];
  cached_snapshot = none;
}

pose_is_deleted : write_communication_item repo deletion start ≡ ok after
unfolding write_communication_item lines_run names_run
pose_is_deleted = refl

write_communication_item-IsInside_example :
    (p : List Text) × IsInside repo p
    × (absolute_repo_path repo interface_path (module_service_root ∷ idl_root ∷ []) ≡ ok p)
    × (is_under (module_service_root ∷ idl_root ∷ []) interface_path ≡ true)
    × ((t : Text) × (next : Text) × (get (path_text p) start.files ≡ some t)
        × IsEdit deletion t next
        × (get (path_text p) after.files ≡ some next))
    × ((other : Text)
        → eq_text (path_text p) other ≡ false
        → get other after.files ≡ get other start.files)
    × (after.cached_snapshot ≡ none)
write_communication_item-IsInside_example =
    write_communication_item-IsInside repo deletion start after pose_is_deleted
