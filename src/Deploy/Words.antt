-- ===== src/Deploy/Words.antt =====
-- Every word of an accepted command line without a password is harmless to a shell
-- (dashboard/packages/api/src/routers/deploy.ts).
use robotics_pacific_rim.Base.{
  ℕ, ◌≡◌, refl, subst, inl, inr, Bool, true, false, not, ◌&&◌, Option, none, some, List, [], ◌∷◌,
  arith, ◌==◌, Bool-cases, All, All-append, Text, text, eq_text, eq_text_iff, is_digit,
}
use robotics_pacific_rim.Base.Result.{ok}
use robotics_pacific_rim.Base.Decimal.{show_nat, show_nat_digits}
use robotics_pacific_rim.Deploy.Input.{
  Number, show_number, DeployImageBaseInput, DeployTarget, is_platform, normalized_platform,
}
use robotics_pacific_rim.Deploy.Command.{
  target_args, password_args, platform_args, switch_args, flag, build_deploy_image_args,
}
use robotics_pacific_rim.Deploy.Plain.{
  IsPlainWord, IsPlainUser, IsWithin, is_shell_special, user_unit_plain,
  is_package_name-IsPlainWord, is_integer_within-IsWithin,
}
use robotics_pacific_rim.Deploy.Safety.{
  IsSafeTarget, validate_deploy_target-IsSafeTarget, validate_package_name-ok,
}
use robotics_pacific_rim.Deploy.Built.{build_deploy_image_args-Built}

plain_word_user : (s : Text) → IsPlainWord s → IsPlainUser s
plain_word_user [] h = tt
plain_word_user (c ∷ []) (h, _) = h.0
plain_word_user (c ∷ d ∷ s) (h, k) = (h, plain_word_user (d ∷ s) k)

is_plain_text : Text → Bool
is_plain_text [] = true
is_plain_text (c ∷ s) = (not (is_shell_special c) && not (c == b'$')) && is_plain_text s

is_plain_text_sound : (s : Text) → is_plain_text s ≡ true → IsPlainWord s
unfolding is_plain_text
is_plain_text_sound [] h = tt
is_plain_text_sound (c ∷ s) h = ((ground arith, ground arith), is_plain_text_sound s (ground arith))

-- A literal of the program, checked by evaluation.
literal : (s : Text) → is_plain_text s ≡ true → IsPlainUser s
literal s h = plain_word_user s (is_plain_text_sound s h)

digits_plain : (s : Text) → All (λ c. is_digit c ≡ true) s → IsPlainWord s
digits_plain [] h = tt
digits_plain (c ∷ s) (d, h) = (user_unit_plain c (ground arith), digits_plain s h)

show_number_plain : (lo hi : ℕ) (n : Number) → IsWithin lo hi n → IsPlainUser (show_number n)
unfolding show_number
show_number_plain lo hi n (k, e, _, _) =
    rw e (plain_word_user (show_nat k) (digits_plain (show_nat k) (show_nat_digits k)))

platform_plain : (t : Text) → is_platform t ≡ true → IsPlainUser t
unfolding is_platform is_plain_text is_shell_special
platform_plain t h = elim (Bool-cases (eq_text t (text "linux/amd64"))) [
  | inl a ↦ rw ((eq_text_iff t _).0 a) (literal (text "linux/amd64") refl)
  | inr na ↦ elim (Bool-cases (eq_text t (text "linux/arm64"))) [
    | inl b ↦ rw ((eq_text_iff t _).0 b) (literal (text "linux/arm64") refl)
    | inr nb ↦
        let e : eq_text t (text "linux/arm/v7") ≡ true = ground arith in
        rw ((eq_text_iff t _).0 e) (literal (text "linux/arm/v7") refl)
  ]
]

normalized_platform-ok :
    (p : Option Text) (t : Text) → normalized_platform p ≡ ok (some t) → is_platform t ≡ true
unfolding normalized_platform
normalized_platform-ok none t h = cc
normalized_platform-ok (some q) t h = ground arith

platform_args_plain :
    (p q : Option Text) → normalized_platform p ≡ ok q → All IsPlainUser (platform_args q)
unfolding platform_args is_plain_text is_shell_special
platform_args_plain p none h = tt
platform_args_plain p (some t) h =
    (literal (text "--platform") refl, (platform_plain t (normalized_platform-ok p t h), tt))

flag_plain : (b : Bool) (name : Text) → IsPlainUser name → All IsPlainUser (flag b name)
flag_plain true name h = (h, tt)
flag_plain false name h = tt

switch_args_plain : (input : DeployImageBaseInput) → All IsPlainUser (switch_args input)
unfolding switch_args is_plain_text is_shell_special
switch_args_plain input =
    All-append IsPlainUser (flag input.pull (text "--pull")) _
      (flag_plain input.pull _ (literal (text "--pull") refl))
      (All-append IsPlainUser (flag input.no_cache (text "--no-cache")) _
        (flag_plain input.no_cache _ (literal (text "--no-cache") refl))
        (All-append IsPlainUser (flag input.no_logs (text "--no-logs")) _
          (flag_plain input.no_logs _ (literal (text "--no-logs") refl))
          (flag_plain input.dry_run _ (literal (text "--dry-run") refl))))

target_args_plain :
    (t : DeployTarget) (name : Text) (d l : Number)
    → IsSafeTarget t
    → IsPlainWord name
    → IsWithin 0 232 d
    → IsWithin 0 5000 l
    → All IsPlainUser (target_args t name d l)
unfolding target_args is_plain_text is_shell_special
target_args_plain t name d l s n wd wl = (
  literal (text "ros2:deploy") refl,
  (
    literal (text "--host") refl,
    (
      plain_word_user t.host s.host_plain,
      (
        literal (text "--user") refl,
        (
          s.user_plain,
          (
            literal (text "--port") refl,
            (
              show_number_plain 1 65535 t.port s.port_range,
              (
                literal (text "--packages-select") refl,
                (
                  plain_word_user name n,
                  (
                    literal (text "--domain-id") refl,
                    (
                      show_number_plain 0 232 d wd,
                      (literal (text "--logs-tail") refl, (show_number_plain 0 5000 l wl, tt)),
                    ),
                  ),
                ),
              ),
            ),
          ),
        ),
      ),
    ),
  ),
)

no_password_args : (p : Option Text) → p ≡ none → All IsPlainUser (password_args p)
unfolding password_args
no_password_args p h = rw h tt

-- In the arguments that are built for an input without a password, every word is free of white
-- space, quotes, separators, globs and whatever else a shell treats specially; only one `$` may
-- end a word (the user name's).
pub build_deploy_image_args-plain :
    (input : DeployImageBaseInput) (package_name : Text) (args : List Text)
    → input.password ≡ none
    → build_deploy_image_args input package_name ≡ ok args
    → All IsPlainUser args
build_deploy_image_args-plain input package_name args no_password h =
    let b = build_deploy_image_args-Built input package_name args h in
    let (_, good) = validate_package_name-ok package_name b.name b.name_ok in
    let words =
      All-append IsPlainUser (target_args b.target b.name _ _) _
        (target_args_plain b.target b.name _ _
          (validate_deploy_target-IsSafeTarget input.target b.target b.target_ok)
          (is_package_name-IsPlainWord b.name good) (is_integer_within-IsWithin 0 232 _ b.domain_ok)
          (is_integer_within-IsWithin 0 5000 _ b.tail_ok))
        (All-append IsPlainUser (password_args input.password) _
          (no_password_args input.password no_password)
          (All-append IsPlainUser (platform_args b.platform) (switch_args input)
            (platform_args_plain input.platform b.platform b.platform_ok)
            (switch_args_plain input))) in
    subst (All IsPlainUser) b.made_up words
