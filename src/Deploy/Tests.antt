-- ===== src/Deploy/Tests.antt =====
-- Runs of the deployment code, and its theorems at concrete inputs.
use robotics_pacific_rim.Base.{
  ◌≡◌, refl, true, false, none, some, List, [], ◌∷◌, ◌++◌, arith, if◌then◌else◌, All, Text, text,
  eq_text, has_text, includes, join, string_runs,
}
use robotics_pacific_rim.Base.Result.{ok, err}
use robotics_pacific_rim.Base.Locale.{lex_le, lex_le-IsOrder}
use robotics_pacific_rim.Base.Sort.{IsOrder, IsSorted}
use robotics_pacific_rim.Deploy.Input.{
  whole, DeployTargetInput, DeployImageBaseInput, DeployImageInput, invalid_host, command_failed,
  message, requested, validate_deploy_target, normalize_deploy_package_names,
}
use robotics_pacific_rim.Deploy.Command.{
  DeployImageCommand, pr_command, build_deploy_image_args, build_deploy_image_commands,
  command_for_display, command_runs,
}
use robotics_pacific_rim.Deploy.Packages.{
  Node, DeployPackageSummary, parse_xml_tag, read_deploy_packages, by_name, packages_run,
}
use robotics_pacific_rim.Deploy.Run.{names_of, deploy_package, stream_deploy_package, stream_each}
use robotics_pacific_rim.Deploy.Plain.{IsPlainUser}
use robotics_pacific_rim.Deploy.Safety.{IsSafeTarget, validate_deploy_target-IsSafeTarget}
use robotics_pacific_rim.Deploy.Names.{
  IsRequestSet, normalize_deploy_package_names-IsRequestSet, normalize_deploy_package_names_total,
}
use robotics_pacific_rim.Deploy.Words.{build_deploy_image_args-plain}
use robotics_pacific_rim.Deploy.Redaction.{command_for_display-password}
use robotics_pacific_rim.Deploy.Commands.{accepted-known, names_in}
use robotics_pacific_rim.Deploy.Manifest.{
  parse_xml_tag-element, element, IsValidPackage, read_deploy_packages-IsSorted,
}
use robotics_pacific_rim.Deploy.Order.{
  wrote, ran, Answers, recording_run, recording_write, accepted, follow_plan, stream_plan,
  deploy_plan, forget_value, stream_deploy_package-follow_plan, deploy_package-follow_plan,
}

abbrev target : DeployTargetInput
target = record {
  host = text " 192.0.2.20 ";
  port = some (whole 2222);
  user = some (text "jetson");
}

abbrev base : DeployImageBaseInput
base = record {
  target = target;
  domain_id = some (whole 42);
  dry_run = true;
  logs_tail = some (whole 80);
  no_cache = false;
  no_logs = false;
  password = none;
  platform = none;
  pull = false;
}

abbrev request : DeployImageInput
request = record {
  base = base;
  package_name = none;
  package_names = some (text "remote" ∷ text "motion_control" ∷ text "remote " ∷ []);
}

abbrev args_of : Text → List Text → List Text
args_of name rest =
    text "ros2:deploy"
    ∷ text "--host"
    ∷ text "192.0.2.20"
    ∷ text "--user"
    ∷ text "jetson"
    ∷ text "--port"
    ∷ text "2222"
    ∷ text "--packages-select"
    ∷ name
    ∷ text "--domain-id"
    ∷ text "42"
    ∷ text "--logs-tail"
    ∷ text "80"
    ∷ rest

abbrev dry : List Text
dry = text "--dry-run" ∷ []

built_remote : build_deploy_image_args base (text "remote") ≡ ok (args_of (text "remote") dry)
unfolding command_runs
built_remote = refl

shell_words_refused :
    validate_deploy_target (record target { host = text "robot.local; reboot" })
    ≡ err (invalid_host (text "robot.local; reboot"))
unfolding command_runs
shell_words_refused = refl

refused_message : message (invalid_host (text "a b")) ≡ text "Invalid deploy host \"a b\"."
unfolding message
refused_message = refl

abbrev commands : List DeployImageCommand
commands =
    record { args = args_of (text "remote") dry; package_name = text "remote" }
    ∷ record { args = args_of (text "motion_control") dry; package_name = text "motion_control" }
    ∷ []

built_commands : build_deploy_image_commands request ≡ ok commands
unfolding command_runs
built_commands = refl

-- A repository with two service directories.
abbrev manifest : Text → Text
manifest name = text "<package>" ++ element (text "name") name (text "</package>")

abbrev node : Node
node = record {
  exists = λ path. true;
  read_dir = λ path. ok (
      record { entry_name = text "remote_service"; is_directory = true }
      ∷ record { entry_name = text "README.md"; is_directory = false }
      ∷ record { entry_name = text "motion_service"; is_directory = true }
      ∷ []);
  read_file = λ path.
      ok
        (manifest (if includes (text "remote") path then text "remote" else text "motion_control"));
  path_join = join (text "/");
  path_sep = b'/';
  locale_le = lex_le;
}

accepted-request : accepted (text ".") node request ≡ ok commands
unfolding command_runs packages_run accepted lex_le
accepted-request = refl

-- `git pull` answers, and the deployment of the first package fails.
abbrev failing : Answers
failing command args =
    if eq_text command pr_command
    then err (command_failed (text "no route"))
    else ok (record { stderr = []; stdout = [] })

first_fails :
    stream_deploy_package (λ _. recording_run failing) recording_write (text ".") node request []
    ≡ (
      err (command_failed (text "no route")),
      wrote (text "$ git pull origin main" ++ 10 ∷ [])
          ∷ ran (text "git") (text "pull" ∷ text "origin" ∷ text "main" ∷ []) (text ".")
          ∷ wrote (
              10
              ∷ (text "$ "
                  ++ (command_for_display pr_command (args_of (text "remote") dry) ++ 10 ∷ [])))
          ∷ ran pr_command (args_of (text "remote") dry) (text ".")
          ∷ [],
    )
unfolding command_runs packages_run accepted lex_le stream_deploy_package stream_each
first_fails = refl

parse_xml_tag-element_example :
    parse_xml_tag
      (text "<package>" ++ element (text "name") (text " remote ") (text "<name>x</name>"))
      (text "name")
    ≡ text "remote"
unfolding string_runs
parse_xml_tag-element_example =
    parse_xml_tag-element (text "name") (text "<package>") (text " remote ") (text "<name>x</name>")
      (refl, (refl, (refl, (refl, (refl, (refl, (refl, (refl, (refl, tt))))))))) (λ e. cc)
      (omega arith)

validate_deploy_target-IsSafeTarget_example :
    IsSafeTarget (record { host = text "192.0.2.20"; port = whole 2222; user = text "jetson" })
unfolding command_runs
validate_deploy_target-IsSafeTarget_example =
    validate_deploy_target-IsSafeTarget target
      (record { host = text "192.0.2.20"; port = whole 2222; user = text "jetson" }) refl

normalize_deploy_package_names-IsRequestSet_example :
    IsRequestSet (requested none request.package_names) (text "remote" ∷ text "motion_control" ∷ [])
unfolding command_runs
normalize_deploy_package_names-IsRequestSet_example =
    normalize_deploy_package_names-IsRequestSet request (text "remote" ∷ text "motion_control" ∷ [])
      refl

normalize_deploy_package_names_total_example :
    (names : List Text) × (normalize_deploy_package_names request ≡ ok names)
unfolding command_runs
normalize_deploy_package_names_total_example =
    normalize_deploy_package_names_total request (λ e. cc) (refl, (refl, (refl, tt)))

build_deploy_image_args-plain_example : All IsPlainUser (args_of (text "remote") dry)
build_deploy_image_args-plain_example =
    build_deploy_image_args-plain base (text "remote") (args_of (text "remote") dry) refl
      built_remote

abbrev with_secret : Text → List Text
with_secret p = args_of (text "remote") (text "--password" ∷ p ∷ dry)

command_for_display-password_example :
    command_for_display pr_command (with_secret (text "hunter2"))
    ≡ command_for_display pr_command (with_secret (text "a b"))
unfolding command_runs
command_for_display-password_example =
    command_for_display-password base (text "remote") (text "hunter2") (text "a b")
      (with_secret (text "hunter2")) (with_secret (text "a b")) (λ e. cc) (λ e. cc) (λ e. cc)
      (λ e. cc) refl refl

accepted-known_example :
    (packages : List DeployPackageSummary) × (read_deploy_packages node (text ".") ≡ ok packages)
    × All (λ n. has_text n (names_in packages) ≡ true) (names_of commands)
accepted-known_example = accepted-known (text ".") node request commands accepted-request

stream_deploy_package-follow_plan_example :
    stream_deploy_package (λ _. recording_run failing) recording_write (text ".") node request []
    ≡ follow_plan failing
        (text ".")
        (stream_plan failing (text "."))
        (accepted (text ".") node request)
        []
stream_deploy_package-follow_plan_example =
    stream_deploy_package-follow_plan failing (text ".") node request []

deploy_package-follow_plan_example :
    forget_value failing
      (text ".")
      (deploy_package (recording_run failing) (text ".") node request [])
    ≡ follow_plan failing
        (text ".")
        (deploy_plan failing (text "."))
        (accepted (text ".") node request)
        []
deploy_package-follow_plan_example = deploy_package-follow_plan failing (text ".") node request []

node-IsOrder : IsOrder (by_name node)
node-IsOrder = record {
  total = λ x y. lex_le-IsOrder.total x.name y.name;
  trans = λ x y z. lex_le-IsOrder.trans x.name y.name z.name;
}

abbrev summary : Text → Text → DeployPackageSummary
summary directory name = record {
  description = [];
  module_root = text "module/service/" ++ directory;
  name = name;
  service_name = directory;
}

abbrev listed : List DeployPackageSummary
listed =
    summary (text "motion_service") (text "motion_control")
    ∷ summary (text "remote_service") (text "remote")
    ∷ []

read_deploy_packages-IsSorted_example : IsSorted (by_name node) listed × All IsValidPackage listed
unfolding packages_run lex_le
read_deploy_packages-IsSorted_example =
    read_deploy_packages-IsSorted node (text ".") listed node-IsOrder refl
