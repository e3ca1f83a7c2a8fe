-- ===== src/Deploy/Safety.antt =====
-- What an accepted deployment input cannot hold (dashboard/packages/api/src/routers/deploy.ts).
use robotics_pacific_rim.Base.{◌≡◌, Text, trim, or_else, true, arith}
use robotics_pacific_rim.Base.Result.{ok}
use robotics_pacific_rim.Deploy.Input.{
  is_integer_within, DeployTargetInput, DeployTarget, is_host, is_user, is_package_name,
  validate_deploy_target, validate_package_name, default_user, default_port,
}
use robotics_pacific_rim.Deploy.Plain.{
  IsPlainWord, IsPlainUser, IsNoOption, IsWithin, is_host-IsPlainWord, is_user-IsPlainUser,
  is_host-IsNoOption, is_user-IsNoOption, is_integer_within-IsWithin,
}

pub record IsSafeTarget (t : DeployTarget) : Type 0 where
  pub host_plain : IsPlainWord t.host
  pub host_value : IsNoOption t.host
  pub user_plain : IsPlainUser t.user
  pub user_value : IsNoOption t.user
  pub port_range : IsWithin 1 65535 t.port

-- What acceptance of a target means, field by field.
pub record Accepted (input : DeployTargetInput) (t : DeployTarget) : Type 0 where
  pub host : t.host ≡ trim input.host
  pub user : t.user ≡ trim (or_else input.user default_user)
  pub port : t.port ≡ or_else input.port default_port
  pub host_ok : is_host t.host ≡ true
  pub user_ok : is_user t.user ≡ true
  pub port_ok : is_integer_within 1 65535 t.port ≡ true

pub validate_deploy_target-Accepted :
    (input : DeployTargetInput) (t : DeployTarget)
    → validate_deploy_target input ≡ ok t
    → Accepted input t
unfolding validate_deploy_target
validate_deploy_target-Accepted input t h = ground arith

-- An accepted target has a host and a user without white space, quotes, separators, globs or
-- other units that a shell treats specially (one `$` may end the user), neither can be taken for
-- an option, and the port is a whole number from 1 to 65535.
pub validate_deploy_target-IsSafeTarget :
    (input : DeployTargetInput) (t : DeployTarget)
    → validate_deploy_target input ≡ ok t
    → IsSafeTarget t
validate_deploy_target-IsSafeTarget input t h =
    let a = validate_deploy_target-Accepted input t h in
    record {
      host_plain = is_host-IsPlainWord t.host a.host_ok;
      host_value = is_host-IsNoOption t.host a.host_ok;
      user_plain = is_user-IsPlainUser t.user a.user_ok;
      user_value = is_user-IsNoOption t.user a.user_ok;
      port_range = is_integer_within-IsWithin 1 65535 t.port a.port_ok;
    }

pub validate_package_name-ok :
    (p name : Text)
    → validate_package_name p ≡ ok name
    → (name ≡ trim p) × (is_package_name name ≡ true)
unfolding validate_package_name
validate_package_name-ok p name h = ground arith

abbrev pub IsPackageName : Text → Type 0
IsPackageName t = is_package_name t ≡ true
