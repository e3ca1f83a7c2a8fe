-- ===== src/Deploy/Order.antt =====
-- In which order a deployment acts, and where it stops (dashboard/packages/api/src/routers/deploy.ts).
use robotics_pacific_rim.Base.{
  ◌≡◌, refl, ◌∙◌, inl, inr, Option, none, some, List, [], ◌∷◌, ◌++◌, append_assoc, append-nil, Text,
  text,
}
use robotics_pacific_rim.Base.Result.{Result, ok, err, ◌>>=◌, ◌>>◌, Result-cases}
use robotics_pacific_rim.Base.Exec.{continue, pure}
use robotics_pacific_rim.Deploy.Input.{DeployImageInput, Failure}
use robotics_pacific_rim.Deploy.Command.{
  DeployImageCommand, pr_command, build_deploy_image_commands, command_for_display,
}
use robotics_pacific_rim.Deploy.Packages.{Node, assert_packages_exist}
use robotics_pacific_rim.Deploy.Run.{
  Output, CommandRunner, Writer, git_pull_args, names_of, deploy_each, deploy_package, stream_each,
  stream_deploy_package,
}

-- What an observer of a deployment sees, in order.
pub data Event : Type 0 where
  wrote : Text → Event
  ran : Text → List Text → Text → Event

abbrev pub Trace : Type 0
Trace = List Event

-- How the commands answer; a failure is a throw.
abbrev pub Answers : Type 0
Answers = Text → List Text → Result Failure Output

-- The world that records what is done to it.
abbrev pub recording_run : Answers → CommandRunner Trace
recording_run answers command args cwd trace =
    (answers command args, trace ++ ran command args cwd ∷ [])

abbrev pub recording_write : Writer Trace
recording_write chunk trace = (ok tt, trace ++ wrote chunk ∷ [])

-- The plan: what would be done if nothing failed, with the answer to each step.
pub record Planned : Type 0 where
  pub event : Event
  pub fails : Option Failure

abbrev pub failure_of : {A : Type 0} → Result Failure A → Option Failure
failure_of (ok a) = none
failure_of (err e) = some e

-- The specification: steps are done in order up to the first that fails, that one included.
unfoldable pub done_of : List Planned → Trace
done_of [] = []
done_of (step ∷ steps) = step.event ∷ elim step.fails [ none ↦ done_of steps | some e ↦ [] ]

unfoldable pub outcome_of : List Planned → Result Failure (Unit {0})
outcome_of [] = ok tt
outcome_of (step ∷ steps) = elim step.fails [ none ↦ outcome_of steps | some e ↦ err e ]

-- What has to be accepted before anything is done.
unfoldable pub accepted : Text → Node → DeployImageInput → Result Failure (List DeployImageCommand)
accepted cwd node input = do
  commands ← build_deploy_image_commands input
  assert_packages_exist node (names_of commands) cwd
  ok commands

module _ (answers : Answers) (cwd : Text) where
  abbrev pub running : Text → List Text → Planned
  running command args = record {
    event = ran command args cwd;
    fails = failure_of (answers command args);
  }

  abbrev pub writing : Text → Planned
  writing chunk = record { event = wrote chunk; fails = none }

  -- Each command is shown before it runs.
  abbrev pub stream_plan_each : List DeployImageCommand → List Planned
  stream_plan_each [] = []
  stream_plan_each (c ∷ cs) =
      writing (10 ∷ (text "$ " ++ (command_for_display pr_command c.args ++ 10 ∷ [])))
      ∷ running pr_command c.args
      ∷ stream_plan_each cs

  abbrev pub stream_plan : List DeployImageCommand → List Planned
  stream_plan commands =
      writing (text "$ git pull origin main" ++ 10 ∷ [])
      ∷ running (text "git") git_pull_args
      ∷ stream_plan_each commands

  stream_each_lem :
      (commands : List DeployImageCommand) (trace : Trace)
      → stream_each (λ _. recording_run answers) recording_write cwd commands trace
        ≡ (outcome_of (stream_plan_each commands), trace ++ done_of (stream_plan_each commands))
  unfolding stream_each done_of outcome_of
  stream_each_lem [] trace = rw append-nil refl
  stream_each_lem (c ∷ cs) trace = elim (Result-cases (answers pr_command c.args)) [
    | inl (out, e) ↦ rw e (stream_each_lem cs _ ∙ rw (append_assoc, append_assoc) refl)
    | inr (f, e) ↦ rw e (rw append_assoc refl)
  ]

  abbrev pub follow_plan :
      (List DeployImageCommand → List Planned)
      → Result Failure (List DeployImageCommand)
      → Trace
      → Result Failure (Unit {0}) × Trace
  follow_plan plan (ok commands) trace =
      (outcome_of (plan commands), trace ++ done_of (plan commands))
  follow_plan plan (err f) trace = (err f, trace)

  -- The streamed deployment follows its plan: `git pull` is announced and run, then each package's
  -- command is announced and run, in order, up to the first command that fails, whose failure is
  -- thrown. If the input is refused, or a package is unknown, nothing at all is written or run.
  pub stream_deploy_package-follow_plan :
      (node : Node) (input : DeployImageInput) (trace : Trace)
      → stream_deploy_package (λ _. recording_run answers) recording_write cwd node input trace
        ≡ follow_plan stream_plan (accepted cwd node input) trace
  unfolding stream_deploy_package done_of outcome_of accepted
  stream_deploy_package-follow_plan node input trace =
      elim (Result-cases (build_deploy_image_commands input)) [
        | inr (f, e) ↦ rw e refl
        | inl (commands, e) ↦
            rw e (elim (Result-cases (assert_packages_exist node (names_of commands) cwd)) [
              | inr (f, e') ↦ rw e' refl
              | inl (_, e') ↦ rw e' (elim (Result-cases (answers (text "git") git_pull_args)) [
                | inl (out, g) ↦
                    rw g (stream_each_lem commands _ ∙ rw (append_assoc, append_assoc) refl)
                | inr (f, g) ↦ rw g (rw append_assoc refl)
              ])
            ])
      ]

  -- The plan of `deployPackage`, which announces nothing.
  abbrev pub deploy_plan_each : List DeployImageCommand → List Planned
  deploy_plan_each [] = []
  deploy_plan_each (c ∷ cs) = running pr_command c.args ∷ deploy_plan_each cs

  abbrev pub deploy_plan : List DeployImageCommand → List Planned
  deploy_plan commands = running (text "git") git_pull_args ∷ deploy_plan_each commands

  abbrev pub forget : {A : Type 0} → Result Failure A → Result Failure (Unit {0})
  forget (ok a) = ok tt
  forget (err f) = err f

  abbrev pub forget_value :
      {A : Type 0} → Result Failure A × Trace → Result Failure (Unit {0}) × Trace
  forget_value (r, trace) = (forget r, trace)

  -- What is made of a result at the end changes neither what was done nor a failure.
  forget-continue :
      {A B : Type 0} (r : Result Failure A) (g : A → B) (trace : Trace)
      → forget_value (continue r (λ a. pure (g a)) trace) ≡ (forget r, trace)
  forget-continue (ok a) g trace = refl
  forget-continue (err f) g trace = refl

  deploy_each_lem :
      (commands : List DeployImageCommand) (trace : Trace)
      → forget_value (deploy_each (recording_run answers) cwd commands trace)
        ≡ (outcome_of (deploy_plan_each commands), trace ++ done_of (deploy_plan_each commands))
  unfolding deploy_each done_of outcome_of
  deploy_each_lem [] trace = rw append-nil refl
  deploy_each_lem (c ∷ cs) trace = elim (Result-cases (answers pr_command c.args)) [
    | inl (out, e) ↦
        let rest =
          deploy_each (recording_run answers) cwd cs (trace ++ ran pr_command c.args cwd ∷ []) in
        rw e (forget-continue rest.0 _ rest.1 ∙ deploy_each_lem cs _ ∙ rw append_assoc refl)
    | inr (f, e) ↦ rw e refl
  ]

  -- `deployPackage` does the same without announcing: `git pull`, then each package's command in
  -- order up to the first that fails, whose failure is thrown; nothing if the input is refused or
  -- a package is unknown.
  pub deploy_package-follow_plan :
      (node : Node) (input : DeployImageInput) (trace : Trace)
      → forget_value (deploy_package (recording_run answers) cwd node input trace)
        ≡ follow_plan deploy_plan (accepted cwd node input) trace
  unfolding deploy_package done_of outcome_of accepted
  deploy_package-follow_plan node input trace =
      elim (Result-cases (build_deploy_image_commands input)) [
        | inr (f, e) ↦ rw e refl
        | inl (commands, e) ↦
            rw e (elim (Result-cases (assert_packages_exist node (names_of commands) cwd)) [
              | inr (f, e') ↦ rw e' refl
              | inl (_, e') ↦ rw e' (elim (Result-cases (answers (text "git") git_pull_args)) [
                | inl (out, g) ↦
                    let rest =
                      deploy_each (recording_run answers) cwd commands
                        (trace ++ ran (text "git") git_pull_args cwd ∷ []) in
                    rw g (
                      forget-continue rest.0 _ rest.1
                      ∙ deploy_each_lem commands _
                      ∙ rw append_assoc refl)
                | inr (f, g) ↦ rw g refl
              ])
            ])
      ]
