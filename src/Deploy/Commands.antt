-- ===== src/Deploy/Commands.antt =====
-- The commands of a deployment: one for each package, and only for known packages
-- (dashboard/packages/api/src/routers/deploy.ts).
use robotics_pacific_rim.Base.{
  ◌≡◌, refl, sym, ap, ◌∙◌, inl, inr, true, Option, none, some, List, [], ◌∷◌, map, arith,
  Bool-cases, All, Text, has_text,
}
use robotics_pacific_rim.Base.Result.{ok, bind-ok, ok-injective}
use robotics_pacific_rim.Deploy.Input.{
  DeployImageBaseInput, DeployImageInput, normalize_deploy_package_names, is_package_name,
}
use robotics_pacific_rim.Deploy.Command.{
  DeployImageCommand, build_deploy_image_args, build_each, build_deploy_image_commands,
}
use robotics_pacific_rim.Deploy.Packages.{
  Node, DeployPackageSummary, read_deploy_packages, missing_package, check_missing,
  assert_packages_exist,
}
use robotics_pacific_rim.Deploy.Run.{names_of}
use robotics_pacific_rim.Deploy.Safety.{IsPackageName}
use robotics_pacific_rim.Deploy.Names.{normalize_deploy_package_names-IsRequestSet}
use robotics_pacific_rim.Deploy.Order.{accepted}

abbrev pub IsBuiltFrom : DeployImageBaseInput → DeployImageCommand → Type 0
IsBuiltFrom input c = build_deploy_image_args input c.package_name ≡ ok c.args

build_each-names :
    (input : DeployImageBaseInput) (names : List Text) (commands : List DeployImageCommand)
    → build_each input names ≡ ok commands
    → (names_of commands ≡ names) × All (IsBuiltFrom input) commands
unfolding build_each
build_each-names input [] commands h = let e : [] ≡ commands = ok-injective h in rw (← e) (refl, tt)
build_each-names input (name ∷ names) commands h =
    let (args, built, h1) = bind-ok (build_deploy_image_args input name) _ h in
    let (rest, later, h2) = bind-ok (build_each input names) _ h1 in
    let (same, all_built) = build_each-names input names rest later in
    let e : record { args = args; package_name = name } ∷ rest ≡ commands = ok-injective h2 in
    rw (← e) (ap (λ ns. name ∷ ns) same, (built, all_built))

-- When commands are built, there is one for each name of the normalised request, in its order,
-- and its arguments are those built for that name.
build_deploy_image_commands-names :
    (input : DeployImageInput) (commands : List DeployImageCommand)
    → build_deploy_image_commands input ≡ ok commands
    → (normalize_deploy_package_names input ≡ ok (names_of commands))
      × All (IsBuiltFrom input.base) commands
unfolding build_deploy_image_commands
build_deploy_image_commands-names input commands h =
    let (names, normal, built) = bind-ok (normalize_deploy_package_names input) _ h in
    let (same, all_built) = build_each-names input.base names commands built in
    (normal ∙ ap ok (sym same), all_built)

abbrev pub names_in : List DeployPackageSummary → List Text
names_in = map (λ p. p.name)

missing_package-none :
    (available names : List Text)
    → missing_package available names ≡ none
    → All (λ n. has_text n available ≡ true) names
unfolding missing_package
missing_package-none available [] h = tt
missing_package-none available (n ∷ names) h =
    (ground arith, missing_package-none available names (ground arith))

missing_package-valid :
    (available names : List Text) (t : Text)
    → All IsPackageName names
    → missing_package available names ≡ some t
    → IsPackageName t
unfolding missing_package
missing_package-valid available [] t v h = cc
missing_package-valid available (n ∷ names) t (v, vs) h = elim (Bool-cases (has_text n available)) [
  | inl known ↦ missing_package-valid available names t vs (ground arith)
  | inr unknown ↦ let e : n ≡ t = ground arith in rw (← e) v
]

check_missing-ok :
    (o : Option Text) {u : Unit {0}}
    → ((t : Text) → o ≡ some t → IsPackageName t)
    → check_missing o ≡ ok u
    → o ≡ none
unfolding check_missing is_package_name
check_missing-ok none valid h = refl
check_missing-ok (some []) valid h = cc (valid [] refl)
check_missing-ok (some (c ∷ s)) valid h = cc

-- A deployment is accepted only if each of its commands is for a package that the repository has.
pub accepted-known :
    (cwd : Text) (node : Node) (input : DeployImageInput) (commands : List DeployImageCommand)
    → accepted cwd node input ≡ ok commands
    → (packages : List DeployPackageSummary) × (read_deploy_packages node cwd ≡ ok packages)
      × All (λ n. has_text n (names_in packages) ≡ true) (names_of commands)
unfolding accepted assert_packages_exist
accepted-known cwd node input commands h =
    let (found, built, h1) = bind-ok (build_deploy_image_commands input) _ h in
    let (_, asserted, h2) = bind-ok (assert_packages_exist node (names_of found) cwd) _ h1 in
    let same : found ≡ commands = ok-injective h2 in
    let (packages, read, checked) = bind-ok (read_deploy_packages node cwd) _ asserted in
    let (normal, _) = build_deploy_image_commands-names input found built in
    let names = normalize_deploy_package_names-IsRequestSet input (names_of found) normal in
    let none_missing =
      check_missing-ok (missing_package (names_in packages) (names_of found))
        (λ t e. missing_package-valid (names_in packages) (names_of found) t names.valid e)
        checked in
    (
      packages,
      read,
      rw (← same) (missing_package-none (names_in packages) (names_of found) none_missing),
    )
