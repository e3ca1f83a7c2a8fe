-- ===== src/Dashboard/Ros2.antt =====
-- The ROS 2 package of a service's interfaces: its dependencies, its CMake file and its manifest
-- (dashboard/packages/api/src/routers/dashboard.ts).
use robotics_pacific_rim.Base.{
  ℕ, Bool, true, false, not, ◌&&◌, ◌||◌, Option, none, some, List, [], ◌∷◌, ◌++◌, map, ◌==◌,
  if◌then◌else◌, any, Text, text, eq_text, is_empty, trim, includes, is_digit, join,
}
use robotics_pacific_rim.Base.Distinct.{add, add_all}
use robotics_pacific_rim.Base.Sort.{sort}
use robotics_pacific_rim.Dashboard.Lines.{split_lines, join_lines}
use robotics_pacific_rim.Dashboard.Names.{split_slash}
use robotics_pacific_rim.Dashboard.Formats.Fields.{without_hash, split_space}

-- Where the removal of `<=\d+` stands: outside of a bound, behind its `<`, or in its digits.
pub data BoundState : Type 0 where
  outside : BoundState
  behind_less : BoundState
  in_digits : BoundState

abbrev begins_bound : Text → Bool
begins_bound (c ∷ d ∷ s) = c == b'=' && is_digit d
begins_bound s = false

-- `replace(/<=\d+/g, "")`.
unfoldable pub without_bounds : BoundState → Text → Text
without_bounds state [] = []
without_bounds outside (c ∷ s) =
    if c == b'<' && begins_bound s
    then without_bounds behind_less s
    else c ∷ without_bounds outside s
without_bounds behind_less (c ∷ s) = without_bounds in_digits s
without_bounds in_digits (c ∷ s) =
    if is_digit c
    then without_bounds in_digits s
    else if c == b'<' && begins_bound s
    then without_bounds behind_less s
    else c ∷ without_bounds outside s

abbrev has_unit : ℕ → Text → Bool
has_unit c s = any (λ d. c == d) s

-- `replace(/\[[^\]]*\]/g, "")`: a bracket that is never closed stays.
unfoldable pub without_brackets : Bool → Text → Text
without_brackets inside [] = []
without_brackets true (c ∷ s) = without_brackets (not (c == b']')) s
without_brackets false (c ∷ s) =
    if c == b'[' && has_unit b']' s then without_brackets true s else c ∷ without_brackets false s

abbrev first_text : List Text → Text
first_text [] = []
first_text (t ∷ ts) = t

-- The package that the type of a line names, if it is another one.
unfoldable pub line_dependency : Text → Text → Option Text
unfolding without_bounds without_brackets split_space split_slash without_hash trim includes eq_text
line_dependency service_name raw_line =
    let line = trim (without_hash raw_line) in
    let type = without_brackets false (without_bounds outside (first_text (split_space line))) in
    let pkg = first_text (split_slash type) in
    if is_empty line || eq_text line (text "---")
    then none
    else if not (includes (text "/") type)
    then none
    else if is_empty pkg || eq_text pkg service_name
    then none
    else some pkg

abbrev add_some : Option Text → List Text → List Text
add_some none dependencies = dependencies
add_some (some pkg) dependencies = add eq_text pkg dependencies

unfoldable pub lines_dependencies : Text → List Text → List Text → List Text
unfolding line_dependency add eq_text
lines_dependencies service_name dependencies [] = dependencies
lines_dependencies service_name dependencies (raw_line ∷ lines) =
    lines_dependencies service_name (add_some (line_dependency service_name raw_line) dependencies)
      lines

-- `le` is the order of `localeCompare`.
module _ (le : Text → Text → Bool) where
  unfoldable pub ros2_definition_dependencies : Text → Text → List Text
  unfolding lines_dependencies split_lines sort
  ros2_definition_dependencies content service_name =
      sort le (lines_dependencies service_name [] (split_lines content))

  abbrev all_dependencies : Text → List Text → List Text → List Text
  all_dependencies service_name dependencies [] = dependencies
  all_dependencies service_name dependencies (content ∷ contents) =
      all_dependencies service_name
        (add_all eq_text dependencies (ros2_definition_dependencies content service_name)) contents

  -- Of the texts of the interface files.
  unfoldable pub ros2_interface_dependencies : List Text → Text → List Text
  unfolding ros2_definition_dependencies add_all sort eq_text
  ros2_interface_dependencies contents service_name =
      sort le (all_dependencies service_name [] contents)

-- `.filter((line, index, lines) => line || lines[index - 1] !== "")`: of empty lines the first stays.
unfoldable pub single_empty : Bool → List Text → List Text
single_empty after_empty [] = []
single_empty after_empty (line ∷ lines) =
    if is_empty line && after_empty
    then single_empty true lines
    else line ∷ single_empty (is_empty line) lines

abbrev dependency_line : List Text → Text
dependency_line [] = []
dependency_line (d ∷ ds) = text "  DEPENDENCIES " ++ join (text " ") (d ∷ ds)

unfoldable pub render_ros2_package_cmake : Text → List Text → List Text → Text
unfolding single_empty join join_lines
render_ros2_package_cmake service_name interface_files dependencies = join_lines (
    single_empty false (
      text "cmake_minimum_required(VERSION 3.8)"
      ∷ (text "project(" ++ (service_name ++ text ")"))
      ∷ []
      ∷ text "find_package(ament_cmake REQUIRED)"
      ∷ text "find_package(rosidl_default_generators REQUIRED)"
      ∷ (map (λ dependency. text "find_package(" ++ (dependency ++ text " REQUIRED)")) dependencies
          ++ []
            ∷ text "rosidl_generate_interfaces(${PROJECT_NAME}"
            ∷ (map (λ file. text "  \"" ++ (file ++ text "\"")) interface_files
                ++ dependency_line dependencies
                  ∷ text ")"
                  ∷ []
                  ∷ text "ament_export_dependencies(rosidl_default_runtime)"
                  ∷ text "ament_package()"
                  ∷ []
                  ∷ []))))

unfoldable pub render_ros2_package_xml : Text → List Text → Text
unfolding join_lines
render_ros2_package_xml service_name dependencies = join_lines (
    text "<?xml version=\"1.0\"?>"
    ∷ text "<package format=\"3\">"
    ∷ (text "  <name>" ++ (service_name ++ text "</name>"))
    ∷ text "  <version>0.1.0</version>"
    ∷ (text "  <description>ROS2 interfaces for the "
        ++ (service_name ++ text " public contract.</description>"))
    ∷ text "  <maintainer email=\"dev@example.com\">Pacific-Rim Developers</maintainer>"
    ∷ text "  <license>TODO</license>"
    ∷ []
    ∷ text "  <buildtool_depend>ament_cmake</buildtool_depend>"
    ∷ text "  <build_depend>rosidl_default_generators</build_depend>"
    ∷ (map (λ dependency. text "  <depend>" ++ (dependency ++ text "</depend>")) dependencies
        ++ []
          ∷ text "  <exec_depend>rosidl_default_runtime</exec_depend>"
          ∷ []
          ∷ text "  <member_of_group>rosidl_interface_packages</member_of_group>"
          ∷ []
          ∷ text "  <export>"
          ∷ text "    <build_type>ament_cmake</build_type>"
          ∷ text "  </export>"
          ∷ text "</package>"
          ∷ []
          ∷ []))
