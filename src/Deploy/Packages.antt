-- ===== src/Deploy/Packages.antt =====
-- The packages that can be deployed, read from their `package.xml` files
-- (dashboard/packages/api/src/routers/deploy.ts). The file system is a parameter.
use robotics_pacific_rim.Base.{
  ℕ, string_runs, Text, text, trim, starts_with, has_text, length, drop, find, is_empty, ◌==◌,
  or_else, if◌then◌else◌, Bool, not, ◌&&◌, Option, none, some, List, [], ◌∷◌, ◌++◌, map,
}
use robotics_pacific_rim.Base.Result.{Result, ok, err, ◌>>=◌}
use robotics_pacific_rim.Base.Sort.{sort}
use robotics_pacific_rim.Deploy.Input.{Failure, unknown_package, is_package_name}

-- The units before the first `<`, and what begins there.
unfoldable pub span_content : Text → Text × Text
span_content [] = ([], [])
span_content (c ∷ s) =
    let (content, rest) = span_content s in if c == b'<' then ([], c ∷ s) else (c ∷ content, rest)

abbrev pub open_tag : Text → Text
open_tag tag = b'<' ∷ (tag ++ b'>' ∷ [])

abbrev pub close_tag : Text → Text
close_tag tag = b'<' ∷ b'/' ∷ (tag ++ b'>' ∷ [])

-- The pattern `<tag>\s*([^<]+?)\s*</tag>` behind its opening tag: a content of at least one unit
-- and the closing tag. The captured group, trimmed, is the content, trimmed.
unfoldable pub content_at : Text → Text → Option Text
content_at tag s =
    let (content, rest) = span_content s in
    if not (is_empty content) && starts_with (close_tag tag) rest then some (trim content) else none

abbrev pub first_of_two {ℓ} : {A : Type ℓ} → Option A → Option A → Option A
first_of_two none o = o
first_of_two (some a) o = some a

-- `xml.match(pattern)` takes the leftmost place where the pattern fits.
unfoldable pub match_tag : Text → Text → Option Text
match_tag tag [] = none
match_tag tag (c ∷ s) =
    first_of_two
      (if starts_with (open_tag tag) (c ∷ s)
        then content_at tag (drop (length (open_tag tag)) (c ∷ s))
        else none)
      (match_tag tag s)

unfoldable pub parse_xml_tag : Text → Text → Text
parse_xml_tag xml tag = or_else (match_tag tag xml) []

unfoldable pub parse_ros_package_name : Text → Text
parse_ros_package_name xml = parse_xml_tag xml (text "name")

unfoldable pub parse_ros_package_description : Text → Text
parse_ros_package_description xml = parse_xml_tag xml (text "description")

pub record DeployPackageSummary : Type 0 where
  pub description : Text
  pub module_root : Text
  pub name : Text
  pub service_name : Text

pub record DirEntry : Type 0 where
  pub entry_name : Text
  pub is_directory : Bool

-- What the code takes from Node: files, paths and the order of a locale.
pub record Node : Type 0 where
  pub exists : Text → Bool
  pub read_dir : Text → Result Failure (List DirEntry)
  pub read_file : Text → Result Failure Text
  pub path_join : List Text → Text
  pub path_sep : ℕ
  -- `left.localeCompare(right) <= 0`
  pub locale_le : Text → Text → Bool

unfoldable pub normalize_path : ℕ → Text → Text
normalize_path sep = map (λ c. if c == sep then b'/' else c)

module _ (node : Node) where
  open node use {exists, read_dir, read_file, path_join, path_sep, locale_le}

  unfoldable pub service_root : Text
  service_root = path_join (text "module" ∷ text "service" ∷ [])

  -- The package of a directory from the text of its `package.xml`, if its name is valid.
  unfoldable pub package_from : DirEntry → Text → Option DeployPackageSummary
  package_from entry xml =
      if is_package_name (parse_ros_package_name xml)
      then some (record {
        description = parse_ros_package_description xml;
        module_root = normalize_path path_sep (path_join (service_root ∷ entry.entry_name ∷ []));
        name = parse_ros_package_name xml;
        service_name = entry.entry_name;
      })
      else none

  -- One round of the loop of `readDeployPackages`: `none` is `continue`.
  unfoldable pub read_package : Text → DirEntry → Result Failure (Option DeployPackageSummary)
  read_package root entry =
      let package_path = path_join (root ∷ entry.entry_name ∷ text "package.xml" ∷ []) in
      if entry.is_directory && exists package_path
      then (read_file package_path >>= λ xml. ok (package_from entry xml))
      else ok none

  abbrev pub add_found :
      Option DeployPackageSummary → List DeployPackageSummary → List DeployPackageSummary
  add_found none ps = ps
  add_found (some p) ps = p ∷ ps

  unfoldable pub read_entries : Text → List DirEntry → Result Failure (List DeployPackageSummary)
  read_entries root [] = ok []
  read_entries root (entry ∷ entries) = do
    found ← read_package root entry
    rest ← read_entries root entries
    ok (add_found found rest)

  abbrev pub by_name : DeployPackageSummary → DeployPackageSummary → Bool
  by_name left right = locale_le left.name right.name

  unfoldable pub read_deploy_packages : Text → Result Failure (List DeployPackageSummary)
  read_deploy_packages repo_root =
      let root = path_join (repo_root ∷ service_root ∷ []) in
      if exists root
      then (do
        entries ← read_dir root
        packages ← read_entries root entries
        ok (sort by_name packages))
      else ok []

-- `packageNames.find((name) => !availableNames.has(name))`.
unfoldable pub missing_package : List Text → List Text → Option Text
missing_package available names = find (λ name. not (has_text name available)) names

-- `if (missingPackageName)`: the empty name would not throw.
unfoldable pub check_missing : Option Text → Result Failure (Unit {0})
check_missing none = ok tt
check_missing (some []) = ok tt
check_missing (some (c ∷ s)) = err (unknown_package (c ∷ s))

unfoldable pub assert_packages_exist : Node → List Text → Text → Result Failure (Unit {0})
assert_packages_exist node names repo_root = do
  packages ← read_deploy_packages node repo_root
  check_missing (missing_package (map (λ p. p.name) packages) names)

-- To be unfolded by tests that run this code.
unfoldable pub packages_run : Unit {0}
unfolding string_runs is_package_name span_content content_at match_tag parse_xml_tag
    parse_ros_package_name parse_ros_package_description normalize_path service_root package_from
    read_package read_entries read_deploy_packages missing_package check_missing
    assert_packages_exist sort
packages_run = tt
