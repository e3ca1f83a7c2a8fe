-- ===== src/Dashboard/Tests.antt =====
-- Runs of the dashboard's code on small inputs, and the theorems at concrete inputs
-- (dashboard/packages/api/src/routers/dashboard.ts).
use robotics_pacific_rim.Base.{
  ◌+◌, ◌≡◌, refl, true, false, none, some, List, [], ◌∷◌, ◌++◌, map, arith, All, Text, trim_end,
  text, eq_text, starts_with,
}
use robotics_pacific_rim.Base.Result.{ok}
use robotics_pacific_rim.Dashboard.Lines.{join_lines, splice, lines_run}
use robotics_pacific_rim.Dashboard.Routes.{
  CommunicationSection, topic, BindingSummary, observer_pending,
}
use robotics_pacific_rim.Dashboard.Routes.Parse.{parse_communication_routes}
use robotics_pacific_rim.Dashboard.Routes.Kept.{IsFinished}
use robotics_pacific_rim.Dashboard.Routes.Sound.{parse_communication_routes-IsFinished}
use robotics_pacific_rim.Dashboard.Details.{ModuleCommunicationItem}
use robotics_pacific_rim.Dashboard.Details.Items.{
  interface_layout, parse_detail_communication_items, parse_public_interface_items,
}
use robotics_pacific_rim.Dashboard.Details.Drafts.{IsItem}
use robotics_pacific_rim.Dashboard.Details.Sound.{parse_detail_communication_items-IsItem}
use robotics_pacific_rim.Dashboard.Blocks.{yaml_child_block_range, replace_yaml_route_block}
use robotics_pacific_rim.Dashboard.Blocks.Edit.{append_yaml_route_block, lines_of}
use robotics_pacific_rim.Dashboard.Blocks.Insert.{section_end, yaml_child_block_range-splice}
use robotics_pacific_rim.Dashboard.Blocks.Exists.{has_route}
use robotics_pacific_rim.Dashboard.Blocks.Total.{Answers, append_yaml_route_block_total}
use robotics_pacific_rim.Dashboard.Names.{
  names_run, validate_module_name, module_name_from_config_path,
}
use robotics_pacific_rim.Dashboard.Paths.{
  is_absolute, is_under, resolve, IsInside, absolute_repo_path, absolute_repo_path-IsInside,
}
use robotics_pacific_rim.Dashboard.Formats.{parse_proto_formats}
use robotics_pacific_rim.Dashboard.Formats.Render.{
  DataFormatField, render_proto_message, replace_proto_message_block,
}
use robotics_pacific_rim.Dashboard.Formats.RoundTrip.{item_with, parse_proto_formats-render}

abbrev config_lines : List Text
config_lines =
    text "name: arm"
    ∷ text "communication:"
    ∷ text "  topics:"
    ∷ text "    pose: # where it is"
    ∷ text "      message_type: geometry_msgs/Pose"
    ∷ text "      direction: publish"
    ∷ text "      bindings:"
    ∷ text "        - transport: ros2_fastdds"
    ∷ text "          topic: /arm/pose"
    ∷ text "        - transport: nats"
    ∷ []

abbrev config_text : Text
config_text = join_lines config_lines

abbrev binding_of : Text → Text → BindingSummary
binding_of transport address = record {
  transport = transport;
  middleware = transport;
  address = address;
  direction = text "publish";
  queue_group = [];
  queue_size = [];
}

routes_are_read :
    parse_communication_routes config_text (text "module/arm/config.yaml") (text "module-arm")
    ≡ record {
      id = text "module/arm/config.yaml:topics:pose";
      module_name = text "module-arm";
      config_path = text "module/arm/config.yaml";
      kind = topic;
      name = text "pose";
      direction = text "publish";
      message_type = text "geometry_msgs/Pose";
      bindings =
          binding_of (text "ros2_fastdds") (text "/arm/pose") ∷ binding_of (text "nats") [] ∷ [];
      status = observer_pending;
    }
      ∷ []
unfolding parse_communication_routes lines_run
routes_are_read = refl

parse_communication_routes-IsFinished_example :
    All
      (IsFinished (text "module/arm/config.yaml") (text "module-arm"))
      (parse_communication_routes config_text (text "module/arm/config.yaml") (text "module-arm"))
parse_communication_routes-IsFinished_example =
    parse_communication_routes-IsFinished config_text (text "module/arm/config.yaml")
      (text "module-arm")

abbrev interface_lines : List Text
interface_lines =
    text "services:"
    ∷ text "  grasp:"
    ∷ text "    role: server"
    ∷ text "    data: proto"
    ∷ text "    addresses:"
    ∷ text "      nats: robot.rpc.arm.grasp"
    ∷ []

-- What the page shows of an item: name, format, transports, and the address of its first binding.
abbrev shown : List ModuleCommunicationItem → List (Text × Text × List Text × List Text)
shown [] = []
shown (item ∷ items) =
    (item.name, item.format, item.transports, map (λ binding. binding.address) item.bindings)
    ∷ shown items

items_are_read :
    shown (parse_public_interface_items (join_lines interface_lines) (text "interfaces.yaml"))
    ≡ (text "grasp", text "proto", text "nats" ∷ [], text "robot.rpc.arm.grasp" ∷ []) ∷ []
unfolding parse_public_interface_items lines_run
items_are_read = refl

parse_detail_communication_items-IsItem_example :
    All (IsItem (join_lines interface_lines) (text "interfaces.yaml") interface_layout) (
      parse_detail_communication_items
        (join_lines interface_lines)
        (text "interfaces.yaml")
        interface_layout)
parse_detail_communication_items-IsItem_example =
    parse_detail_communication_items-IsItem (join_lines interface_lines) (text "interfaces.yaml")
      interface_layout

abbrev map_block : List Text
map_block = text "    map:" ∷ text "      direction: subscribe" ∷ []

map_is_found :
    yaml_child_block_range (splice 10 10 map_block config_lines) 2 2 (text "map") ≡ some (10, 12)
unfolding yaml_child_block_range lines_run
map_is_found = refl

yaml_child_block_range-splice_example :
    (yaml_child_block_range
        (splice
          (section_end 2 config_lines 2)
          (section_end 2 config_lines 2)
          map_block
          config_lines)
        2
        2
        (text "map")
      ≡ some (section_end 2 config_lines 2, section_end 2 config_lines 2 + 2))
    × (splice (section_end 2 config_lines 2) (section_end 2 config_lines 2 + 2) [] (
          splice
            (section_end 2 config_lines 2)
            (section_end 2 config_lines 2)
            map_block
            config_lines)
        ≡ config_lines)
unfolding yaml_child_block_range lines_run
yaml_child_block_range-splice_example =
    yaml_child_block_range-splice config_lines map_block 2 2 (text "map") (omega arith)
      (refl, (refl, tt)) refl

append_yaml_route_block_total_example :
    Answers
      (has_route (lines_of (trim_end config_text)) CommunicationSection.topics (text "map"))
      CommunicationSection.topics
      (text "map")
      (append_yaml_route_block config_text CommunicationSection.topics
        (text "map")
        (join_lines map_block))
append_yaml_route_block_total_example =
    append_yaml_route_block_total config_text CommunicationSection.topics (text "map")
      (join_lines map_block)

-- Appending a route to a file without the section, and deleting it again.
abbrev map_file : Text
map_file = join_lines (text "communication:" ∷ text "  topics:" ∷ (map_block ++ [] ∷ []))

map_is_appended :
    append_yaml_route_block
      (text "communication:")
      CommunicationSection.topics
      (text "map")
      (join_lines map_block)
    ≡ ok (some map_file)
unfolding append_yaml_route_block lines_run
map_is_appended = refl

map_is_deleted :
    replace_yaml_route_block map_file CommunicationSection.topics (text "map") none
    ≡ ok (join_lines (text "communication:" ∷ text "  topics:" ∷ [] ∷ []))
unfolding replace_yaml_route_block lines_run
map_is_deleted = refl

module_names :
    (validate_module_name (text " action-planner ") ≡ ok (text "action-planner"))
    × (module_name_from_config_path (text "module/service/arm/config.yaml") ≡ text "module-arm")
unfolding names_run validate_module_name module_name_from_config_path
module_names = (refl, refl)

abbrev repo : List Text
repo = text "srv" ∷ text "repo" ∷ []

abbrev roots : List Text
roots = text "module/service" ∷ text "pkg/idl" ∷ []

-- The way up is only refused where it leaves the repository: this path leaves the allowed roots.
path_leaves_roots :
    absolute_repo_path repo (text "module/service/../../README.md") roots
    ≡ ok (text "srv" ∷ text "repo" ∷ text "README.md" ∷ [])
unfolding absolute_repo_path lines_run names_run
path_leaves_roots = refl

path_is_resolved :
    absolute_repo_path repo (text "pkg/idl/arm/public/interfaces.yaml") roots
    ≡ ok (
        text "srv"
        ∷ text "repo"
        ∷ text "pkg"
        ∷ text "idl"
        ∷ text "arm"
        ∷ text "public"
        ∷ text "interfaces.yaml"
        ∷ [])
unfolding absolute_repo_path lines_run names_run
path_is_resolved = refl

absolute_repo_path-IsInside_example :
    (starts_with (text "../") (text "pkg/idl/arm/public/interfaces.yaml") ≡ false)
    × (is_absolute (text "pkg/idl/arm/public/interfaces.yaml") ≡ false)
    × (is_under roots (text "pkg/idl/arm/public/interfaces.yaml") ≡ true)
    × ((text "srv"
          ∷ text "repo"
          ∷ text "pkg"
          ∷ text "idl"
          ∷ text "arm"
          ∷ text "public"
          ∷ text "interfaces.yaml"
          ∷ [])
        ≡ resolve repo (text "pkg/idl/arm/public/interfaces.yaml"))
    × IsInside repo (
        text "srv"
        ∷ text "repo"
        ∷ text "pkg"
        ∷ text "idl"
        ∷ text "arm"
        ∷ text "public"
        ∷ text "interfaces.yaml"
        ∷ [])
absolute_repo_path-IsInside_example =
    absolute_repo_path-IsInside repo (text "pkg/idl/arm/public/interfaces.yaml") roots
      (text "srv"
        ∷ text "repo"
        ∷ text "pkg"
        ∷ text "idl"
        ∷ text "arm"
        ∷ text "public"
        ∷ text "interfaces.yaml"
        ∷ [])
      path_is_resolved

abbrev pose_fields : List DataFormatField
pose_fields =
    record { name = text "x"; type = text "double" }
    ∷ record { name = text "frame_id"; type = text "string" }
    ∷ []

parse_proto_formats-render_example :
    (t : Text) × (render_proto_message (text "Pose") pose_fields ≡ ok t)
    × (parse_proto_formats t (text "arm.proto")
        ≡ item_with (text "arm.proto") (text "Pose") pose_fields t ∷ [])
unfolding eq_text
parse_proto_formats-render_example =
    parse_proto_formats-render (text "arm.proto") (text "Pose") pose_fields
      (refl, (refl, (refl, (refl, tt))))
      (
        ((refl, (refl, (refl, (refl, (refl, (refl, tt)))))), (refl, tt), refl),
        (
          (
            (refl, (refl, (refl, (refl, (refl, (refl, tt)))))),
            (refl, (refl, (refl, (refl, (refl, (refl, (refl, (refl, tt)))))))),
            refl,
          ),
          tt,
        ),
      )

-- A message that opens and closes on one line is not closed: it takes in the message behind it.
one_line_message_goes_on :
    map
      (λ item. item.name)
      (parse_proto_formats
        (join_lines (
          text "message Empty {}" ∷ text "message Pose {" ∷ text "  double x = 1;" ∷ text "}" ∷ []))
        (text "arm.proto"))
    ≡ text "Empty" ∷ []
unfolding parse_proto_formats lines_run
one_line_message_goes_on = refl

-- The message is found by a beginning of its name.
longer_name_is_taken :
    replace_proto_message_block
      (join_lines (text "message PoseArray {" ∷ text "}" ∷ text "message Pose {" ∷ text "}" ∷ []))
      (text "Pose")
      none
    ≡ some (join_lines (text "message Pose {" ∷ text "}" ∷ [] ∷ []))
unfolding replace_proto_message_block lines_run
longer_name_is_taken = refl
