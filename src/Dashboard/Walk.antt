-- ===== src/Dashboard/Walk.antt =====
-- The search for files under a directory (dashboard/packages/api/src/routers/dashboard.ts). A
-- directory is its entries, in the order in which they are listed.
use robotics_pacific_rim.Base.{
  ℕ, zero, suc, Bool, not, ◌&&◌, ◌||◌, Option, none, some, List, [], ◌∷◌, ◌++◌, if◌then◌else◌, any,
  Text, text, eq_text, has_text, starts_with, includes, ends_with,
}
use robotics_pacific_rim.Base.Sort.{sort}
use robotics_pacific_rim.Dashboard.Names.{module_name_from_config_path}
use robotics_pacific_rim.Dashboard.Routes.{CommunicationRoute}
use robotics_pacific_rim.Dashboard.Routes.Parse.{parse_communication_routes}

mutual
  pub data Entry : Type 0 where
    file : Text → Entry
    directory : Text → Entries → Entry
    -- A link, a socket or another that is neither.
    special : Text → Entry

  pub data Entries : Type 0 where
    none_left : Entries
    listed : Entry → Entries → Entries

abbrev skipped_dirs : List Text
skipped_dirs =
    text ".git" ∷ text "node_modules" ∷ text "out" ∷ text "build" ∷ text "install" ∷ text "log" ∷ []

abbrev is_skipped : Text → Bool
is_skipped name = has_text name skipped_dirs

abbrev inside : Text → Text → Text
inside root name = root ++ (b'/' ∷ name)

-- `walkForExtensions` and `walkForFiles`, which differ in the test on a file's name; the number is
-- one more than `maxDepth`, and 0 where that is below 0.
unfoldable mutual
  unfolding has_text eq_text

  pub walk_entries : (Text → Bool) → Text → ℕ → Entries → List Text
  walk_entries wanted root zero entries = []
  walk_entries wanted root (suc depth) none_left = []
  walk_entries wanted root (suc depth) (listed entry entries) =
      walk_entry wanted root depth entry ++ walk_entries wanted root (suc depth) entries

  pub walk_entry : (Text → Bool) → Text → ℕ → Entry → List Text
  walk_entry wanted root depth (file name) =
      if not (is_skipped name) && wanted name then inside root name ∷ [] else []
  walk_entry wanted root depth (directory name entries) =
      let found = walk_entries wanted (inside root name) depth entries in
      if is_skipped name then [] else found
  walk_entry wanted root depth (special name) = []

-- A root that does not exist has no files.
abbrev walk : (Text → Bool) → Text → ℕ → Option Entries → List Text
walk wanted root depth none = []
walk wanted root depth (some entries) = walk_entries wanted root depth entries

unfoldable pub walk_for_extensions : Text → List Text → ℕ → Option Entries → List Text
unfolding walk_entries ends_with
walk_for_extensions root extensions depth entries =
    walk (λ name. any (λ item. ends_with item name) extensions) root depth entries

unfoldable pub walk_for_files : Text → Text → ℕ → Option Entries → List Text
unfolding walk_entries eq_text
walk_for_files root file_name depth entries =
    walk (λ name. eq_text name file_name) root depth entries

-- A configuration file that was read: its path from the repository's root, and its text.
pub record ConfigFile : Type 0 where
  pub relative_path : Text
  pub raw : Text

abbrev has_communication : Text → Bool
has_communication raw =
    includes (10 ∷ text "communication:") raw || starts_with (text "communication:") raw

abbrev routes_of : List ConfigFile → List CommunicationRoute
routes_of [] = []
routes_of (config ∷ configs) =
    (if has_communication config.raw
      then parse_communication_routes config.raw config.relative_path
          (module_name_from_config_path config.relative_path)
      else [])
    ++ routes_of configs

abbrev sort_name : CommunicationRoute → Text
sort_name route = route.module_name ++ (b':' ∷ route.name)

-- `readCommunicationRoutes`, of the files that are found; `le` is the order of `localeCompare`.
unfoldable pub read_communication_routes :
    (Text → Text → Bool) → List ConfigFile → List CommunicationRoute
unfolding parse_communication_routes module_name_from_config_path includes starts_with sort
read_communication_routes le configs =
    sort (λ left right. le (sort_name left) (sort_name right)) (routes_of configs)
