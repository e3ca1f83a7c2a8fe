-- ===== src/Deploy/Redaction.antt =====
-- What `commandForDisplay` shows of a password (dashboard/packages/api/src/routers/deploy.ts).
use robotics_pacific_rim.Base.{
  ◌≡◌, refl, sym, ap, ◌∙◌, ◌≢◌, some, List, [], ◌∷◌, ◌++◌, arith, Text, text, eq_text_iff,
  eq_text_refl, join,
}
use robotics_pacific_rim.Base.Result.{ok, ok-injective}
use robotics_pacific_rim.Deploy.Input.{DeployImageBaseInput}
use robotics_pacific_rim.Deploy.Command.{
  pr_command, password_flag, target_args, password_args, platform_args, switch_args,
  build_deploy_image_args, redact, command_for_display,
}
use robotics_pacific_rim.Deploy.Built.{
  domain_of, tail_of, build_deploy_image_args-Built, Built-build,
}

-- Behind two passwords that are not the flag itself the same words are shown.
redact_behind :
    (p q : Text) (back : List Text)
    → p ≢ password_flag
    → q ≢ password_flag
    → redact p back ≡ redact q back
unfolding redact
redact_behind p q [] np nq = refl
redact_behind p q (a ∷ back) np nq =
    ground (arith, eq_text_iff p password_flag, eq_text_iff q password_flag)

redact_password :
    (previous : Text) (front : List Text) (p q : Text) (back : List Text)
    → p ≢ password_flag
    → q ≢ password_flag
    → redact previous (front ++ password_flag ∷ p ∷ back)
      ≡ redact previous (front ++ password_flag ∷ q ∷ back)
unfolding redact
redact_password previous [] p q back np nq =
    rw (eq_text_refl password_flag, redact_behind p q back np nq) refl
redact_password previous (a ∷ front) p q back np nq = rw (redact_password a front p q back np nq)

password_args_cons : (p : Text) → p ≢ [] → password_args (some p) ≡ password_flag ∷ p ∷ []
unfolding password_args
password_args_cons [] h = absurd (h refl)
password_args_cons (c ∷ s) h = refl

abbrev with_password : DeployImageBaseInput → Text → DeployImageBaseInput
with_password input p = record input { password = some p }

-- What is shown of an accepted command line does not depend on its password: two inputs that
-- differ in the password alone, neither empty nor the text "--password", are shown alike.
pub command_for_display-password :
    (input : DeployImageBaseInput) (package_name p q : Text) (args args' : List Text)
    → p ≢ []
    → q ≢ []
    → p ≢ password_flag
    → q ≢ password_flag
    → build_deploy_image_args (record input { password = some p }) package_name ≡ ok args
    → build_deploy_image_args (record input { password = some q }) package_name ≡ ok args'
    → command_for_display pr_command args ≡ command_for_display pr_command args'
unfolding command_for_display
command_for_display-password input package_name p q args args' ep eq np nq h h' =
    let b = build_deploy_image_args-Built (with_password input p) package_name args h in
    let same = Built-build (with_password input p) package_name args (some q) b in
    let front = target_args b.target b.name (domain_of input) (tail_of input) in
    let back = platform_args b.platform ++ switch_args (with_password input p) in
    let whole = λ (x : List Text). front ++ (x ++ back) in
    let shape : front ++ password_flag ∷ p ∷ back ≡ args =
      sym (ap whole (password_args_cons p ep)) ∙ b.made_up in
    let shape' : front ++ password_flag ∷ q ∷ back ≡ args' =
      sym (ap whole (password_args_cons q eq)) ∙ ok-injective (sym same ∙ h') in
    ap (λ words. join (text " ") (pr_command ∷ words))
      (sym (ap (redact []) shape) ∙ redact_password [] front p q back np nq ∙ ap (redact []) shape')
