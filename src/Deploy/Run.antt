-- ===== src/Deploy/Run.antt =====
-- Running the commands of a deployment (dashboard/packages/api/src/routers/deploy.ts). The child
-- processes and the writer of output chunks are parameters, which act on a world `W`.
use robotics_pacific_rim.Base.{
  Text, text, trim, join, is_empty, select, not, List, [], ◌∷◌, ◌++◌, map,
}
use robotics_pacific_rim.Base.Exec.{Exec, pure, lift, ◌>>=◌, ◌>>◌}
use robotics_pacific_rim.Deploy.Input.{DeployImageInput, Failure}
use robotics_pacific_rim.Deploy.Command.{
  DeployImageCommand, pr_command, build_deploy_image_commands, command_for_display,
}
use robotics_pacific_rim.Deploy.Packages.{Node, assert_packages_exist}

-- What a finished command leaves behind.
pub record Output : Type 0 where
  pub stderr : Text
  pub stdout : Text

pub record DeployPackageCommandResult : Type 0 where
  pub command : Text
  pub package_name : Text
  pub output : Output
  pub open output use *

pub record DeployCommandResult : Type 0 where
  pub command : Text
  pub deploy : Output
  pub deployments : List DeployPackageCommandResult
  pub git_pull : Output

abbrev pub git_pull_args : List Text
git_pull_args = text "pull" ∷ text "origin" ∷ text "main" ∷ []

-- `runCommand(command, args, cwd)`, and `runCommand` with the writer that the stream hands over.
abbrev pub CommandRunner : Type 0 → Type 0
CommandRunner W = Text → List Text → Text → Exec W Failure Output

abbrev pub Writer : Type 0 → Type 0
Writer W = Text → Exec W Failure (Unit {0})

abbrev pub names_of : List DeployImageCommand → List Text
names_of = map (λ c. c.package_name)

module _ {W : Type 0} (run : CommandRunner W) (repo_root : Text) where
  -- The loop of `deployPackage`.
  unfoldable pub deploy_each :
      List DeployImageCommand → Exec W Failure (List DeployPackageCommandResult)
  deploy_each [] = pure []
  deploy_each (command ∷ commands) = do
    deploy ← run pr_command command.args repo_root
    deployments ← deploy_each commands
    pure (
        record {
          command = command_for_display pr_command command.args;
          package_name = command.package_name;
          output = deploy;
        }
        ∷ deployments)

  -- `texts.map(trim).filter(Boolean).join("\n\n")`.
  unfoldable pub joined : List Text → Text
  joined texts = join (10 ∷ 10 ∷ []) (select (λ t. not (is_empty t)) (map trim texts))

  unfoldable pub deploy_package : Node → DeployImageInput → Exec W Failure DeployCommandResult
  deploy_package node input = do
    commands ← lift (build_deploy_image_commands input)
    lift (assert_packages_exist node (names_of commands) repo_root)
    git_pull ← run (text "git") git_pull_args repo_root
    deployments ← deploy_each commands
    pure (record {
      command = join (10 ∷ []) (map (λ d. d.command) deployments);
      deploy = record {
        stderr = joined (map (λ d. d.output.stderr) deployments);
        stdout = joined (map (λ d. d.output.stdout) deployments);
      };
      deployments = deployments;
      git_pull = git_pull;
    })

module _ {W : Type 0} (run : Writer W → CommandRunner W) (on_chunk : Writer W)
    (repo_root : Text) where
  -- The loop of `streamDeployPackage`.
  unfoldable pub stream_each : List DeployImageCommand → Exec W Failure (Unit {0})
  stream_each [] = pure tt
  stream_each (command ∷ commands) = do
    on_chunk (10 ∷ (text "$ " ++ (command_for_display pr_command command.args ++ 10 ∷ [])))
    run on_chunk pr_command command.args repo_root
    stream_each commands

  unfoldable pub stream_deploy_package : Node → DeployImageInput → Exec W Failure (Unit {0})
  stream_deploy_package node input = do
    commands ← lift (build_deploy_image_commands input)
    lift (assert_packages_exist node (names_of commands) repo_root)
    on_chunk (text "$ git pull origin main" ++ 10 ∷ [])
    run on_chunk (text "git") git_pull_args repo_root
    stream_each commands
