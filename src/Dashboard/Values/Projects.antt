-- ===== src/Dashboard/Values/Projects.antt =====
-- The modules that the project files describe, and the module that a name asks for
-- (dashboard/packages/api/src/routers/dashboard.ts).
use robotics_pacific_rim.Base.{
  ℕ, String, Bool, ◌||◌, Option, none, some, List, [], ◌∷◌, ◌++◌, map, or_else, length, get_elem?,
  find, select, Text, text, eq_text, has_text, starts_with,
}
use robotics_pacific_rim.Base.Result.{Result, ok, err}
use robotics_pacific_rim.Base.Sort.{sort}
use robotics_pacific_rim.Base.Locale.{lex_le}
use robotics_pacific_rim.Dashboard.Names.{split_slash}
use robotics_pacific_rim.Dashboard.Interfaces.{without_first}
use robotics_pacific_rim.Dashboard.Values.{Json, string, as_string_array, as_record, field, keys_of}

pub record ModuleSummary : Type 0 where
  pub critical : Bool
  pub dependency_count : ℕ
  pub frameworks : List Text
  pub languages : List Text
  pub name : Text
  pub project_type : Text
  pub root : Text
  pub runtime : Bool
  pub scope : Text
  pub tags : List Text
  pub target_names : List Text

abbrev core_projects : List Text
core_projects =
    text "module-smoke_001_service"
    ∷ text "module-middleware_pub_test_service"
    ∷ text "module-middleware_sub_test_service"
    ∷ text "module-middleware_rpc_client_test_service"
    ∷ text "module-middleware_rpc_server_test_service"
    ∷ []

-- `typeof value === "string" ? value : fallback`.
abbrev string_or : Json → Text → Text
string_or (string s) fallback = s
string_or json fallback = fallback

-- `tag.replace(prefix, "")` on the tag that is found, or the first part of the root.
abbrev scope_of : Option Text → Text → Text
scope_of (some tag) root = without_first (text "scope:") tag
scope_of none root = or_else (get_elem? (split_slash root) 0) (text "unknown")

-- A project file: its directory's name, its directory from the repository's root, and its value.
pub record ProjectFile : Type 0 where
  pub directory_name : Text
  pub directory : Text
  pub parsed : Json

unfoldable pub project_summary : ProjectFile → ModuleSummary
unfolding field starts_with has_text without_first split_slash sort lex_le eq_text
project_summary file =
    let value = λ (name : String). field (as_record file.parsed) (text name) in
    let tags = as_string_array (value "tags") in
    let name = string_or (value "name") file.directory_name in
    let root = string_or (value "root") file.directory in
    let project_type = string_or (value "projectType") (text "unknown") in
    record {
      name = name;
      root = root;
      scope = scope_of (find (starts_with (text "scope:")) tags) root;
      project_type = project_type;
      runtime =
          eq_text project_type (text "application") || has_text (text "platform:runtime") tags;
      tags = tags;
      languages =
          map (without_first (text "language:")) (select (starts_with (text "language:")) tags);
      frameworks = map (without_first (text "framework:")) (
          select (λ tag. starts_with (text "framework:") tag || starts_with (text "ros2:") tag)
            tags);
      dependency_count = length (as_string_array (value "implicitDependencies"));
      target_names = sort lex_le (keys_of (as_record (value "targets")));
      critical = has_text name core_projects;
    }

-- `readProjectSummaries`, of the files that are found; `le` is the order of `localeCompare`.
unfoldable pub read_project_summaries : (Text → Text → Bool) → List ProjectFile → List ModuleSummary
unfolding project_summary sort
read_project_summaries le files =
    sort (λ left right. le left.root right.root) (map project_summary files)

abbrev last_part : List Text → Text
last_part [] = []
last_part (p ∷ []) = p
last_part (p ∷ q ∷ ps) = last_part (q ∷ ps)

-- `path.basename` of a root that ends in no slash.
unfoldable pub service_name_of : ModuleSummary → Text
unfolding split_slash
service_name_of summary = last_part (split_slash summary.root)

abbrev found_or : Option ModuleSummary → Option ModuleSummary → Text → Result Text ModuleSummary
found_or (some summary) by_root name = ok summary
found_or none (some summary) name = ok summary
found_or none none name = err (text "Unknown module \"" ++ (name ++ text "\"."))

-- By the project's name, and then by the directory of its root.
unfoldable pub read_module_project : List ModuleSummary → Text → Result Text ModuleSummary
unfolding service_name_of eq_text
read_module_project projects module_name =
    found_or (find (λ project. eq_text project.name module_name) projects)
      (find (λ project. eq_text (service_name_of project) module_name) projects) module_name
