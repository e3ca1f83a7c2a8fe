-- ===== src/Monitor/Discovery/Collect.antt =====
-- Collecting drafts from parsed YAML files (monitor/pr-monitor/src/discovery.ts).
use robotics_pacific_rim.Base.{
  none, some, List, [], ◌∷◌, ◌++◌, ltb, if◌then◌else◌, length, Text, text,
}
use robotics_pacific_rim.Base.Result.{Result, ok, err}
use robotics_pacific_rim.Monitor.Yaml.Value.{YamlObject, field, field_of, as_object}
use robotics_pacific_rim.Monitor.Discovery.Interface.{Found, collect_interface_yaml}
use robotics_pacific_rim.Monitor.Discovery.Communication.{both_sections}

unfoldable pub collect_communication_config : YamlObject → Text → Found → Found
collect_communication_config parsed source found = record found {
  drafts =
      found.drafts
      ++ both_sections source (some found.contract_index)
          (as_object (field (text "communication") parsed));
}

unfoldable pub collect_bridge_config : YamlObject → Text → Found → Found
collect_bridge_config parsed source found = record found {
  drafts =
      found.drafts
      ++ both_sections source none
          (as_object (field_of (text "communication") (as_object (field (text "adapter") parsed))));
}

-- What the loop over the files leaves: `parse` failures are errors of the file and add nothing.
pub record Collection : Type 0 where
  pub found : Found
  pub sources : List Text
  pub errors : List Text

unfoldable pub collect_parsed : YamlObject → Text → Found → Found
collect_parsed parsed source found =
    collect_bridge_config parsed source
      (collect_communication_config parsed source (collect_interface_yaml parsed source found))

unfoldable pub collect_files : List (Text × Result Text YamlObject) → Collection → Collection
collect_files [] c = c
collect_files ((source, err message) ∷ files) c =
    collect_files files (record c { errors = c.errors ++ (source ++ (text ": " ++ message)) ∷ [] })
collect_files ((source, ok parsed) ∷ files) c =
    let found = collect_parsed parsed source c.found in
    collect_files files (record c {
      found = found;
      sources =
          if ltb (length c.found.drafts) (length found.drafts)
          then c.sources ++ source ∷ []
          else c.sources;
    })
