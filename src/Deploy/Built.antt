-- ===== src/Deploy/Built.antt =====
-- How an accepted command line is made up, and what follows for its words
-- (dashboard/packages/api/src/routers/deploy.ts).
use robotics_pacific_rim.Base.{◌≡◌, refl, Text, or_else, Bool, true, false, Option, List, ◌++◌}
use robotics_pacific_rim.Base.Result.{ok, ensure, bind-ok}
use robotics_pacific_rim.Deploy.Input.{
  Number, is_integer_within, DeployImageBaseInput, DeployTarget, Failure, validate_deploy_target,
  validate_package_name, normalized_platform, default_domain, default_tail, invalid_domain,
  invalid_tail,
}
use robotics_pacific_rim.Deploy.Command.{
  target_args, password_args, platform_args, switch_args, build_deploy_image_args,
}

abbrev pub domain_of : DeployImageBaseInput → Number
domain_of input = or_else input.domain_id default_domain

abbrev pub tail_of : DeployImageBaseInput → Number
tail_of input = or_else input.logs_tail default_tail

-- The steps of a call that returned.
pub record Built (input : DeployImageBaseInput) (package_name : Text) (args : List Text)
    : Type 0 where
  pub target : DeployTarget
  pub name : Text
  pub platform : Option Text
  pub target_ok : validate_deploy_target input.target ≡ ok target
  pub name_ok : validate_package_name package_name ≡ ok name
  pub domain_ok : is_integer_within 0 232 (domain_of input) ≡ true
  pub tail_ok : is_integer_within 0 5000 (tail_of input) ≡ true
  pub platform_ok : normalized_platform input.platform ≡ ok platform
  pub made_up :
      target_args target name (domain_of input) (tail_of input)
        ++ (password_args input.password ++ (platform_args platform ++ switch_args input))
      ≡ args

ensure-ok : (b : Bool) (e : Failure) {u : Unit {0}} → ensure b e ≡ ok u → b ≡ true
ensure-ok true e h = refl
ensure-ok false e h = cc

pub build_deploy_image_args-Built :
    (input : DeployImageBaseInput) (package_name : Text) (args : List Text)
    → build_deploy_image_args input package_name ≡ ok args
    → Built input package_name args
unfolding build_deploy_image_args
build_deploy_image_args-Built input package_name args h =
    let (target, e1, h1) = bind-ok (validate_deploy_target input.target) _ h in
    let (name, e2, h2) = bind-ok (validate_package_name package_name) _ h1 in
    let (_, e3, h3) =
      bind-ok
        (ensure (is_integer_within 0 232 (domain_of input)) (invalid_domain (domain_of input))) _
        h2 in
    let (_, e4, h4) =
      bind-ok (ensure (is_integer_within 0 5000 (tail_of input)) (invalid_tail (tail_of input))) _
        h3 in
    let (platform, e5, h5) = bind-ok (normalized_platform input.platform) _ h4 in
    record {
      target = target;
      name = name;
      platform = platform;
      target_ok = e1;
      name_ok = e2;
      domain_ok = ensure-ok _ _ e3;
      tail_ok = ensure-ok _ _ e4;
      platform_ok = e5;
      made_up = cc;
    }

-- The same steps with another password go the same way.
pub Built-build :
    (input : DeployImageBaseInput) (package_name : Text) (args : List Text) (p : Option Text)
    (b : Built input package_name args)
    → build_deploy_image_args (record input { password = p }) package_name
      ≡ ok (
          target_args b.target b.name (domain_of input) (tail_of input)
          ++ (password_args p ++ (platform_args b.platform ++ switch_args input)))
unfolding build_deploy_image_args switch_args
Built-build input package_name args p b =
    rw (b.target_ok, b.name_ok, b.domain_ok, b.tail_ok, b.platform_ok) refl
