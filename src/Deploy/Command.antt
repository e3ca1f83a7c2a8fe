-- ===== src/Deploy/Command.antt =====
-- The `./pr` command lines of a deployment (dashboard/packages/api/src/routers/deploy.ts).
use robotics_pacific_rim.Base.{
  Text, text, eq_text, join, string_runs, or_else, if◌then◌else◌, Bool, Option, none, some, List,
  [], ◌∷◌, ◌++◌,
}
use robotics_pacific_rim.Base.Result.{Result, ok, ◌>>=◌, ◌>>◌, ensure}
use robotics_pacific_rim.Base.Decimal.{show_nat}
use robotics_pacific_rim.Deploy.Input.{
  Number, show_number, is_integer_within, DeployImageBaseInput, DeployImageInput, Failure,
  invalid_domain, invalid_tail, default_domain, default_tail, DeployTarget, validate_deploy_target,
  validate_package_name, normalize_deploy_package_names, normalized_platform, is_host,
  is_package_name, is_user, is_user_tail, is_platform, requested, collect_names,
}

pub record DeployImageCommand : Type 0 where
  pub args : List Text
  pub package_name : Text

abbrev pub pr_command : Text
pr_command = text "./pr"

abbrev pub password_flag : Text
password_flag = text "--password"

-- `if (input.password) args.push("--password", input.password)`: an empty password is none.
unfoldable pub password_args : Option Text → List Text
password_args none = []
password_args (some []) = []
password_args (some (c ∷ s)) = password_flag ∷ (c ∷ s) ∷ []

unfoldable pub platform_args : Option Text → List Text
platform_args none = []
platform_args (some platform) = text "--platform" ∷ platform ∷ []

abbrev pub flag : Bool → Text → List Text
flag b name = if b then name ∷ [] else []

-- The arguments that are always there.
unfoldable pub target_args : DeployTarget → Text → Number → Number → List Text
target_args target name domain_id logs_tail =
    text "ros2:deploy"
    ∷ text "--host"
    ∷ target.host
    ∷ text "--user"
    ∷ target.user
    ∷ text "--port"
    ∷ show_number target.port
    ∷ text "--packages-select"
    ∷ name
    ∷ text "--domain-id"
    ∷ show_number domain_id
    ∷ text "--logs-tail"
    ∷ show_number logs_tail
    ∷ []

unfoldable pub switch_args : DeployImageBaseInput → List Text
switch_args input =
    flag input.pull (text "--pull")
    ++ (flag input.no_cache (text "--no-cache")
        ++ (flag input.no_logs (text "--no-logs") ++ flag input.dry_run (text "--dry-run")))

unfoldable pub build_deploy_image_args : DeployImageBaseInput → Text → Result Failure (List Text)
build_deploy_image_args input package_name = do
  target ← validate_deploy_target input.target
  name ← validate_package_name package_name
  let domain_id = or_else input.domain_id default_domain
  let logs_tail = or_else input.logs_tail default_tail
  ensure (is_integer_within 0 232 domain_id) (invalid_domain domain_id)
  ensure (is_integer_within 0 5000 logs_tail) (invalid_tail logs_tail)
  platform ← normalized_platform input.platform
  ok (
      target_args target name domain_id logs_tail
      ++ (password_args input.password ++ (platform_args platform ++ switch_args input)))

-- The `map` of `buildDeployImageCommands`; the first package that throws ends it.
unfoldable pub build_each :
    DeployImageBaseInput → List Text → Result Failure (List DeployImageCommand)
build_each input [] = ok []
build_each input (name ∷ names) = do
  args ← build_deploy_image_args input name
  commands ← build_each input names
  ok (record { args = args; package_name = name } ∷ commands)

unfoldable pub build_deploy_image_commands :
    DeployImageInput → Result Failure (List DeployImageCommand)
build_deploy_image_commands input = do
  names ← normalize_deploy_package_names input
  build_each input.base names

-- The `map` of `commandForDisplay`, with the argument that stands before.
unfoldable pub redact : Text → List Text → List Text
redact previous [] = []
redact previous (arg ∷ args) =
    (if eq_text previous password_flag then text "<redacted>" else arg) ∷ redact arg args

-- `args[-1]` is `undefined`, which is not the flag; nor is the empty text.
unfoldable pub command_for_display : Text → List Text → Text
command_for_display command args = join (text " ") (command ∷ redact [] args)

-- To be unfolded by tests that run this code.
unfoldable pub command_runs : Unit {0}
unfolding string_runs show_number show_nat is_integer_within is_host is_package_name is_user_tail
    is_user is_platform validate_deploy_target validate_package_name requested collect_names
    normalize_deploy_package_names normalized_platform target_args password_args platform_args
    switch_args build_deploy_image_args build_each build_deploy_image_commands redact
    command_for_display
command_runs = tt
