-- ===== src/Monitor/Collectors/Tests.antt =====
-- Runs of the collectors' helpers, and their theorems at concrete inputs.
use robotics_pacific_rim.Base.{
  ℕ, ◌≤◌, ◌≡◌, refl, some, List, [], ◌∷◌, map, length, All, Text, text, string_runs,
}
use robotics_pacific_rim.Base.Assoc.{HasDistinct, get, put}
use robotics_pacific_rim.Base.Decimal.{show_nat, read_nat}
use robotics_pacific_rim.Monitor.Model.State.{ensure_key}
use robotics_pacific_rim.Monitor.Model.View.{split_pieces}
use robotics_pacific_rim.Monitor.Types.{EndpointInfo}
use robotics_pacific_rim.Monitor.Samples.{endpoint}
use robotics_pacific_rim.Monitor.Collectors.Rounds.{
  dds_routes, collect_cyclone_dds, live_endpoints, topic_endpoints, collect_ros2, sampled_at,
}
use robotics_pacific_rim.Monitor.Collectors.Rounds.Fair.{cyclone_dds-fair, ros2-fair}
use robotics_pacific_rim.Monitor.Collectors.Quote.{
  shell_quote, shell_single_quote, escape_quotes, shell_words, between, shell_words-shell_quote,
}
use robotics_pacific_rim.Monitor.Collectors.Domains.{
  RosRuntimeContext, normalize_domain_id, domains_from, part_domain_ids, unique, all_domain_ids,
  parse_domain_ids, dash_runs, drop_dashes, drop_end_dashes, sanitize_container_name_part,
  normalize_ros_distro, key_of, normal_context, contexts_by_key, dedupe_ros_runtime_contexts,
}
use robotics_pacific_rim.Monitor.Collectors.Contexts.{
  IsNormal, dedupe_ros_runtime_contexts-IsNormal,
}

abbrev arguments : List Text
arguments = text "ros2" ∷ text "it's $HOME; reboot" ∷ [] ∷ []

quoted_arguments : shell_quote arguments ≡ text "'ros2' 'it'\\''s $HOME; reboot' ''"
unfolding shell_quote shell_single_quote escape_quotes string_runs
quoted_arguments = refl

shell_words-shell_quote_example : shell_words between [] (shell_quote arguments) ≡ some arguments
shell_words-shell_quote_example = shell_words-shell_quote arguments

domain_ids : parse_domain_ids (text "1-3, 2 7 9-x") ≡ text "1" ∷ text "2" ∷ text "3" ∷ text "7" ∷ []
unfolding parse_domain_ids all_domain_ids unique part_domain_ids domains_from normalize_domain_id
    split_pieces string_runs show_nat read_nat
domain_ids = refl

abbrev context : Text → Text → RosRuntimeContext
context domain distro = record { domain_id = domain; ros_distro = distro; source = text "env" }

abbrev contexts : List RosRuntimeContext
contexts =
    context (text " 7") (text "humble")
    ∷ context (text "7") []
    ∷ context (text "300") (text "humble")
    ∷ context (text "0") (text "jazzy; ls")
    ∷ []

deduped :
    map key_of (dedupe_ros_runtime_contexts contexts) ≡ text "7:humble" ∷ text "0:jazzy-ls" ∷ []
unfolding dedupe_ros_runtime_contexts contexts_by_key normal_context normalize_ros_distro
    sanitize_container_name_part drop_end_dashes drop_dashes dash_runs normalize_domain_id
    ensure_key get put string_runs show_nat read_nat
deduped = refl

dedupe_ros_runtime_contexts-IsNormal_example :
    (length (dedupe_ros_runtime_contexts contexts) ≤ 16)
    × HasDistinct (map key_of (dedupe_ros_runtime_contexts contexts))
    × All IsNormal (dedupe_ros_runtime_contexts contexts)
dedupe_ros_runtime_contexts-IsNormal_example = dedupe_ros_runtime_contexts-IsNormal contexts

-- Two topics and a service of ROS2, and two routes of CycloneDDS.
abbrev round_endpoints : List (EndpointInfo ℕ)
round_endpoints =
    endpoint (text "ros2://a")
    ∷ endpoint (text "cyclonedds://c")
    ∷ endpoint (text "ros2:///b")
    ∷ endpoint (text "ros2://b")
    ∷ endpoint (text "ros2://s")
    ∷ endpoint (text "cyclonedds://d")
    ∷ []

abbrev round_topics : List Text
round_topics = text "/a" ∷ text "/b" ∷ []

abbrev round_services : List Text
round_services = text "/s" ∷ []

abbrev urls_at : ℕ → List Text
urls_at k =
    map (λ (e : EndpointInfo ℕ). e.url)
      (sampled_at (collect_ros2 round_topics round_services round_endpoints) k 0)

-- In the turn of the service, the first topic is measured once more.
ros2_rounds :
    map urls_at (0 ∷ 1 ∷ 2 ∷ 3 ∷ [])
    ≡ (text "ros2://a" ∷ [])
      ∷ (text "ros2://b" ∷ [])
      ∷ (text "ros2://a" ∷ [])
      ∷ (text "ros2://a" ∷ [])
      ∷ []
unfolding collect_ros2 string_runs
ros2_rounds = refl

cyclone_dds-fair_example :
    (k : ℕ) × (k ≤ length (dds_routes round_endpoints))
    × (sampled_at (collect_cyclone_dds round_endpoints) k 7 ≡ endpoint (text "cyclonedds://d") ∷ [])
unfolding dds_routes
cyclone_dds-fair_example =
    cyclone_dds-fair round_endpoints 7 1 (endpoint (text "cyclonedds://d")) refl

ros2-fair_example :
    (k : ℕ) × (k ≤ length (live_endpoints round_topics round_services round_endpoints))
    × (sampled_at (collect_ros2 round_topics round_services round_endpoints) k 2
        ≡ endpoint (text "ros2://b") ∷ [])
unfolding topic_endpoints string_runs
ros2-fair_example =
    ros2-fair round_topics round_services round_endpoints 2 1 (endpoint (text "ros2://b")) refl
