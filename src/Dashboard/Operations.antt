-- ===== src/Dashboard/Operations.antt =====
-- The operations of the dashboard that write: on the files of the repository and on the snapshot that
-- is kept (dashboard/packages/api/src/routers/dashboard.ts). An operation answers the new state; the
-- query of the module's detail that follows it only reads.
pub mod Create
pub mod Provide
pub mod Frame
use robotics_pacific_rim.Base.{
  ℕ, zero, suc, ◌+◌, ◌-◌, ◌*◌, ◌/◌, ◌%◌, ◌^◌, ◌≤◌, ◌<◌, Ordering, String, ◌≡◌, refl, sym, ap, ap₂,
  ◌∙◌, subst, fun_ext, ◌≢◌, ◌↔◌, ◌⊎◌, inl, inr, Bool, true, false, not, ◌&&◌, ◌||◌, Option, none,
  some, List, [], ◌∷◌, ◌++◌, map, append_assoc, append-nil, map-append, arith, ltb, leb, ◌==◌,
  if◌then◌else◌, ltb→lt, lt→ltb, leb→le, ==_iff, tests, Bool-cases, Option-cases, and-eq-true,
  or_else, is_some, length, take, drop, replicate, get_elem?, all, any, find, select, Each,
  or_else-Each, if-keeps, length-append, length-replicate, length-take, length-drop, length-map,
  All, All-append, Text, text, eq_text, eq_text_iff, eq_text_refl, has_text, is_empty, or_text,
  is_space, trim_start, trim_end, trim, starts_with, includes, ends_with, lower_unit, lower,
  is_upper_letter, is_lower_letter, is_digit, is_letter, join, before, string_runs,
}
use robotics_pacific_rim.Base.Result.{Result, ok, err, ◌>>=◌, ◌>>◌, ensure, bind-ok}
use robotics_pacific_rim.Base.Assoc.{Assoc, get, put}
use robotics_pacific_rim.Base.Sort.{sort}
use robotics_pacific_rim.Dashboard.Routes.{CommunicationSection, RouteKind, service, topic}
use robotics_pacific_rim.Dashboard.Details.{CommunicationSource, config, idl}
use robotics_pacific_rim.Dashboard.Blocks.{
  EditFailure, replace_yaml_route_block, replace_top_level_yaml_block,
}
use robotics_pacific_rim.Dashboard.Names.{NameFailure, split_slash}
use robotics_pacific_rim.Dashboard.Paths.{PathFailure, path_text, absolute_repo_path}
use robotics_pacific_rim.Dashboard.Formats.{DataFormatKind, proto, msg, srv, dds_idl}
use robotics_pacific_rim.Dashboard.Formats.Render.{replace_proto_message_block}
use robotics_pacific_rim.Dashboard.Interfaces.{ProviderFailure}
use robotics_pacific_rim.Dashboard.Ros2.{
  ros2_interface_dependencies, render_ros2_package_cmake, render_ros2_package_xml,
}
use robotics_pacific_rim.Dashboard.Values.Projects.{
  ModuleSummary, read_module_project, service_name_of,
}

-- What an operation throws.
pub data OperationFailure : Type 0 where
  path_failure : PathFailure → OperationFailure
  edit_failure : EditFailure → OperationFailure
  name_failure : NameFailure → OperationFailure
  provider_failure : ProviderFailure → OperationFailure
  no_such_file : Text → OperationFailure
  unknown_module : Text → OperationFailure
  message_not_located : Text → OperationFailure
  format_failure : Text → OperationFailure

-- The files by their paths, and the snapshot that is kept, if any, with the time of its making.
pub record DashboardState (S : Type 0) : Type 0 where
  pub files : Assoc Text
  pub cached_snapshot : Option (ℕ × S)

abbrev pub lift : {E A : Type 0} → (E → OperationFailure) → Result E A → Result OperationFailure A
lift f (err e) = err (f e)
lift f (ok a) = ok a

abbrev pub found : {A : Type 0} → OperationFailure → Option A → Result OperationFailure A
found e none = err e
found e (some a) = ok a

abbrev pub read_file : Text → Assoc Text → Result OperationFailure Text
read_file path files = found (no_such_file path) (get path files)

unfoldable pub remove_file : Text → Assoc Text → Assoc Text
unfolding eq_text
remove_file path [] = []
remove_file path ((other, t) ∷ files) =
    let rest = remove_file path files in if eq_text other path then rest else (other, t) ∷ rest

abbrev pub section_of_kind : RouteKind → CommunicationSection
section_of_kind service = CommunicationSection.services
section_of_kind topic = CommunicationSection.topics

abbrev pub module_service_root : Text
module_service_root = text "module/service"

abbrev pub idl_root : Text
idl_root = text "pkg/idl"

pub record CommunicationItemInput : Type 0 where
  pub definition : Option Text
  pub kind : RouteKind
  pub module_name : Text
  pub name : Text
  pub path : Text
  pub source : CommunicationSource

abbrev pub edited_text :
    CommunicationItemInput → CommunicationSource → Text → Result EditFailure Text
edited_text input config t =
    replace_yaml_route_block t (section_of_kind input.kind) input.name input.definition
edited_text input idl t =
    replace_top_level_yaml_block t (section_of_kind input.kind) input.name input.definition

module _ {S : Type 0} (repo_root : List Text) where
  -- The state with a file written and no snapshot kept.
  abbrev pub written : Text → Text → DashboardState S → DashboardState S
  written path t state = record { files = put path t state.files; cached_snapshot = none }

  -- `writeCommunicationItem`: the edit of an item, or without a definition its deletion.
  unfoldable pub write_communication_item :
      CommunicationItemInput → DashboardState S → Result OperationFailure (DashboardState S)
  unfolding absolute_repo_path get put replace_yaml_route_block replace_top_level_yaml_block join
  write_communication_item input state = do
    file_path ←
        lift path_failure
          (absolute_repo_path repo_root input.path (module_service_root ∷ idl_root ∷ []))
    t ← read_file (path_text file_path) state.files
    next_text ← lift edit_failure (edited_text input input.source t)
    ok (written (path_text file_path) next_text state)

-- A file directly in a directory.
abbrev name_in : Text → Text → Option Text
name_in [] file = if any (λ c. c == b'/') file then none else some file
name_in (c ∷ dir) [] = none
name_in (c ∷ dir) (d ∷ file) = let rest = name_in dir file in if c == d then rest else none

abbrev with_extension : Text → Option Text → List Text → List Text
with_extension extension none names = names
with_extension extension (some name) names =
    if ends_with extension name then name ∷ names else names

abbrev names_in : Text → Text → Assoc Text → List Text
names_in dir extension [] = []
names_in dir extension ((file, t) ∷ files) =
    with_extension extension (name_in (dir ++ text "/") file) (names_in dir extension files)

module _ (le : Text → Text → Bool) where
  unfoldable pub list_files_with_extension : Text → Text → Assoc Text → List Text
  unfolding ends_with sort
  list_files_with_extension root extension files = sort le (names_in root extension files)

  abbrev texts_of : Text → Assoc Text → List Text → List Text
  texts_of package_dir files [] = []
  texts_of package_dir files (name ∷ names) =
      or_else (get (package_dir ++ (b'/' ∷ name)) files) [] ∷ texts_of package_dir files names

  abbrev with_metadata : Text → Text → List Text → Assoc Text → Assoc Text
  with_metadata service_name package_dir [] files =
      remove_file (package_dir ++ text "/package.xml")
        (remove_file (package_dir ++ text "/CMakeLists.txt") files)
  with_metadata service_name package_dir (name ∷ names) files =
      let dependencies =
        ros2_interface_dependencies le (texts_of package_dir files (name ∷ names)) service_name in
      put (package_dir ++ text "/package.xml") (render_ros2_package_xml service_name dependencies) (
        put (package_dir ++ text "/CMakeLists.txt")
          (render_ros2_package_cmake service_name (name ∷ names) dependencies) files)

  -- `writeRos2PackageMetadata`: the interface files are those of the listing, which are all there.
  unfoldable pub write_ros2_package_metadata : List Text → Text → Assoc Text → Assoc Text
  unfolding list_files_with_extension ros2_interface_dependencies render_ros2_package_cmake
      render_ros2_package_xml put get remove_file sort join
  write_ros2_package_metadata repo_root service_name files =
      let package_dir =
        path_text
          (repo_root ++ text "pkg" ∷ text "idl" ∷ service_name ∷ text "ros2" ∷ service_name ∷ []) in
      let msg_files = list_files_with_extension (package_dir ++ text "/msg") (text ".msg") files in
      let srv_files = list_files_with_extension (package_dir ++ text "/srv") (text ".srv") files in
      with_metadata service_name package_dir
        (sort le (
          map (λ file. text "msg/" ++ file) msg_files
          ++ map (λ file. text "srv/" ++ file) srv_files))
        files

pub record DataFormatItemInput : Type 0 where
  pub definition : Option Text
  pub kind : DataFormatKind
  pub module_name : Text
  pub name : Text
  pub path : Text

abbrev pub is_proto : DataFormatKind → Bool
is_proto proto = true
is_proto kind = false

abbrev pub is_ros : DataFormatKind → Bool
is_ros msg = true
is_ros srv = true
is_ros kind = false

-- The file of a format that has a file of its own: written, or removed where the definition is
-- missing or empty.
abbrev write_or_remove : Text → Option Text → Assoc Text → Result OperationFailure (Assoc Text)
write_or_remove path none files = read_file path files >>= λ _. ok (remove_file path files)
write_or_remove path (some []) files = read_file path files >>= λ _. ok (remove_file path files)
write_or_remove path (some (c ∷ t)) files = ok (put path (trim_end (c ∷ t) ++ 10 ∷ []) files)

abbrev write_format : DataFormatItemInput → Text → Assoc Text → Result OperationFailure (Assoc Text)
write_format input path files =
    if is_proto input.kind
    then (do
      t ← read_file path files
      next ←
          found (message_not_located input.name)
            (replace_proto_message_block t input.name input.definition)
      ok (put path next files))
    else write_or_remove path input.definition files

module _ {S : Type 0} (le : Text → Text → Bool) (repo_root : List Text)
    (projects : List ModuleSummary) where
  -- `writeDataFormatItem`.
  unfoldable pub write_data_format_item :
      DataFormatItemInput → DashboardState S → Result OperationFailure (DashboardState S)
  unfolding read_module_project service_name_of absolute_repo_path replace_proto_message_block get
      put remove_file write_ros2_package_metadata trim_end join
  write_data_format_item input state = do
    summary ← lift unknown_module (read_module_project projects input.module_name)
    file_path ← lift path_failure (absolute_repo_path repo_root input.path (idl_root ∷ []))
    files ← write_format input (path_text file_path) state.files
    ok (record {
      files =
          if is_ros input.kind
          then write_ros2_package_metadata le repo_root (service_name_of summary) files
          else files;
      cached_snapshot = none;
    })

abbrev snapshot_ttl_ms : ℕ
snapshot_ttl_ms = 1000

abbrev kept_or_made :
    {S : Type 0} → ℕ → S → DashboardState S → Option (ℕ × S) → S × DashboardState S
kept_or_made now fresh state none = (fresh, record state { cached_snapshot = some (now, fresh) })
kept_or_made now fresh state (some (created_at, value)) =
    if ltb (now - created_at) snapshot_ttl_ms
    then (value, state)
    else (fresh, record state { cached_snapshot = some (now, fresh) })

-- `createSnapshot`: the value that is kept, while it is younger than the limit, or a fresh one. Where
-- the clock went back the difference is below 0 there and 0 here, and the value is kept as well.
unfoldable pub create_snapshot : {S : Type 0} → ℕ → S → DashboardState S → S × DashboardState S
create_snapshot now fresh state = kept_or_made now fresh state state.cached_snapshot
