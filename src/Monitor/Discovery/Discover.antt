-- ===== src/Monitor/Discovery/Discover.antt =====
-- `discoverProjectEndpoints` (monitor/pr-monitor/src/discovery.ts) from the files on. Which
-- files there are, and their contents or what reading them threw, come from the file system.
use robotics_pacific_rim.Base.{◌≡◌, Bool, List, [], map, All, Text}
use robotics_pacific_rim.Base.Result.{Result, ◌>>=◌}
use robotics_pacific_rim.Base.Assoc.{get}
use robotics_pacific_rim.Monitor.Types.{EndpointInfo}
use robotics_pacific_rim.Monitor.Yaml.Value.{YamlObject}
use robotics_pacific_rim.Monitor.Yaml.Parse.{parse_yaml_subset}
use robotics_pacific_rim.Monitor.Discovery.Merge.{kept_drafts, endpoints_of}
use robotics_pacific_rim.Monitor.Discovery.Merged.{IsMerged, endpoints_of-IsMerged}
use robotics_pacific_rim.Monitor.Discovery.Collect.{Collection, collect_files}
use robotics_pacific_rim.Monitor.Discovery.Addresses.{IsDraft}
use robotics_pacific_rim.Monitor.Discovery.Collected.{IsFound, errors_of, collect_files-IsFound}

pub record DiscoveryResult (R : Type 0) : Type 0 where
  pub endpoints : List (EndpointInfo R)
  pub sources : List Text
  pub errors : List Text

abbrev pub empty_collection : Collection
empty_collection = record {
  found = record { drafts = []; contract_index = [] };
  sources = [];
  errors = [];
}

-- What reading and parsing a file gives.
abbrev pub parse_files :
    (Text → Text) → List (Text × Result Text Text) → List (Text × Result Text YamlObject)
parse_files float_text files = map (λ f. (f.0, f.1 >>= parse_yaml_subset float_text)) files

-- The drafts of all files.
abbrev pub collected : (Text → Text) → List (Text × Result Text Text) → Collection
collected float_text files = collect_files (parse_files float_text files) empty_collection

unfoldable pub discover_project_endpoints :
    {R : Type 0}
    → (Text → Text)
    → (Text → Text → Bool)
    → List (Text × Result Text Text)
    → DiscoveryResult R
discover_project_endpoints float_text locale_le files =
    let c = collected float_text files in
    record {
      endpoints = endpoints_of locale_le c.found.drafts;
      sources = c.sources;
      errors = c.errors;
    }

-- Discovery reports exactly the files that cannot be read or parsed, in their order, collects only
-- drafts that have a URL and one of the four types, and gives, in some order, one endpoint for each
-- URL of the drafts that are not hidden: with the bits of all drafts of that URL, exactly their
-- sources and route names, each once, and no processes.
pub discover_project_endpoints-IsMerged :
    {R : Type 0} (float_text : Text → Text) (locale_le : Text → Text → Bool)
    (files : List (Text × Result Text Text))
    → ((discover_project_endpoints {R = R} float_text locale_le files).errors
        ≡ errors_of (parse_files float_text files))
      × All IsDraft (collected float_text files).found.drafts
      × IsMerged
          (kept_drafts (collected float_text files).found.drafts)
          (discover_project_endpoints {R = R} float_text locale_le files).endpoints
unfolding discover_project_endpoints get
discover_project_endpoints-IsMerged float_text locale_le files =
    let (found, errors) =
      collect_files-IsFound (parse_files float_text files) empty_collection empty_IsFound in
    (errors, found.drafts, endpoints_of-IsMerged locale_le _)
  where
    empty_IsFound : IsFound empty_collection.found
    empty_IsFound = record { drafts = tt; index = λ ref. tt }
