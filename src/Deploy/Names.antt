-- ===== src/Deploy/Names.antt =====
-- The package names that a deployment runs over (dashboard/packages/api/src/routers/deploy.ts).
use robotics_pacific_rim.Base.{
  ◌≡◌, ◌≢◌, refl, ap, Text, eq_text, eq_text_iff, eq_text_refl, has_text, trim, All, All-append,
  if◌then◌else◌, Bool, true, false, ◌||◌, List, [], ◌∷◌, ◌++◌, map, arith,
}
use robotics_pacific_rim.Base.Result.{ok, bind-ok}
use robotics_pacific_rim.Base.Assoc.{HasDistinct}
use robotics_pacific_rim.Deploy.Input.{
  DeployImageInput, is_package_name, validate_package_name, requested, collect_names,
  normalize_deploy_package_names,
}
use robotics_pacific_rim.Deploy.Safety.{IsPackageName, validate_package_name-ok}

-- A name from the trimmed requests, in a list or among those seen before.
abbrev is_wanted : Text → List Text → List Text → Bool
is_wanted t seen requests = has_text t seen || has_text t (map trim requests)

has_text-snoc :
    (t n : Text) (ns : List Text) → has_text t (ns ++ n ∷ []) ≡ (has_text t ns || eq_text t n)
unfolding has_text
has_text-snoc t n [] = ground arith
has_text-snoc t n (m ∷ ns) = ground (arith, has_text-snoc t n ns)

HasDistinct-snoc :
    (n : Text) (ns : List Text)
    → has_text n ns ≡ false
    → HasDistinct ns
    → HasDistinct (ns ++ n ∷ [])
unfolding has_text
HasDistinct-snoc n [] h d = (refl, tt)
HasDistinct-snoc n (m ∷ ns) h d =
    ground (arith, has_text-snoc m n ns, eq_text_iff n m, eq_text_iff m n, HasDistinct-snoc n ns)

-- What the loop over the requested names has done when it returns.
pub record Collected (seen requests names : List Text) : Type 0 where
  pub distinct : HasDistinct names
  pub valid : All IsPackageName names
  pub same : (t : Text) → has_text t names ≡ is_wanted t seen requests

-- One round: the trimmed name goes to the end, unless it was seen.
abbrev seen_after : Text → List Text → List Text
seen_after name seen = if has_text name seen then seen else seen ++ name ∷ []

seen_after-HasDistinct :
    (name : Text) (seen : List Text) → HasDistinct seen → HasDistinct (seen_after name seen)
seen_after-HasDistinct name seen d = ground (arith, HasDistinct-snoc name seen)

seen_after-valid :
    (name : Text) (seen : List Text)
    → IsPackageName name
    → All IsPackageName seen
    → All IsPackageName (seen_after name seen)
seen_after-valid name seen v h = ground (arith, All-append IsPackageName seen (name ∷ []) h (v, tt))

has_text_of_eq :
    (t n : Text) (seen : List Text) → eq_text t n ≡ true → has_text t seen ≡ has_text n seen
has_text_of_eq t n seen e = ap (λ u. has_text u seen) ((eq_text_iff t n).0 e)

has_text-seen_after :
    (t name : Text) (seen : List Text)
    → has_text t (seen_after name seen) ≡ (has_text t seen || eq_text t name)
has_text-seen_after t name seen =
    ground (arith, has_text-snoc t name seen, has_text_of_eq t name seen)

collect_names-Collected :
    (seen requests names : List Text)
    → collect_names seen requests ≡ ok names
    → HasDistinct seen
    → All IsPackageName seen
    → Collected seen requests names
unfolding collect_names has_text
collect_names-Collected seen [] names h d v =
    let e : seen ≡ names = cc in
    record { distinct = rw (← e) d; valid = rw (← e) v; same = λ t. rw (← e) (ground arith) }
collect_names-Collected seen (p ∷ rest) names h d v =
    let (name, first, later) = bind-ok (validate_package_name p) _ h in
    let (trimmed, good) = validate_package_name-ok p name first in
    let c =
      collect_names-Collected (seen_after name seen) rest names later
        (seen_after-HasDistinct name seen d) (seen_after-valid name seen good v) in
    record {
      distinct = c.distinct;
      valid = c.valid;
      same = λ t. rw (← trimmed) (ground (arith, c.same t, has_text-seen_after t name seen));
    }

abbrev pub IsValidRequest : Text → Type 0
IsValidRequest p = is_package_name (trim p) ≡ true

collect_names_total :
    (seen requests : List Text)
    → All IsValidRequest requests
    → (names : List Text) × (collect_names seen requests ≡ ok names)
unfolding collect_names validate_package_name
collect_names_total seen [] h = (seen, refl)
collect_names_total seen (p ∷ rest) (v, h) =
    let (names, e) = collect_names_total (seen_after (trim p) seen) rest h in (names, rw v e)

-- What the code promises of the names that it returns.
pub record IsRequestSet (requests names : List Text) : Type 0 where
  pub distinct : HasDistinct names
  pub valid : All IsPackageName names
  pub same : (t : Text) → has_text t names ≡ has_text t (map trim requests)
  pub some_name : names ≢ []

-- The names that are returned are valid package names, none twice, at least one, and exactly the
-- requested names, trimmed: those of the list if it has any, else the single one.
pub normalize_deploy_package_names-IsRequestSet :
    (input : DeployImageInput) (names : List Text)
    → normalize_deploy_package_names input ≡ ok names
    → IsRequestSet (requested input.package_name input.package_names) names
unfolding normalize_deploy_package_names
normalize_deploy_package_names-IsRequestSet input names h =
    let requests = requested input.package_name input.package_names in
    let (found, collected, checked) = bind-ok (collect_names [] requests) _ h in
    let same : found ≡ names = ground arith in
    let c = collect_names-Collected [] requests names (rw (← same) collected) tt tt in
    record {
      distinct = c.distinct;
      valid = c.valid;
      same = λ t. unfold has_text in c.same t;
      some_name = ground arith;
    }

Collected-some :
    (requests names : List Text) → requests ≢ [] → Collected [] requests names → names ≢ []
unfolding has_text
Collected-some [] names ne c = absurd (ne refl)
Collected-some (p ∷ rest) [] ne c = cc (c.same (trim p), eq_text_refl (trim p))
Collected-some (p ∷ rest) (n ∷ names) ne c = λ e. cc

-- If at least one name is requested, and every requested name, trimmed, is a valid package name,
-- then names are returned.
pub normalize_deploy_package_names_total :
    (input : DeployImageInput)
    → requested input.package_name input.package_names ≢ []
    → All IsValidRequest (requested input.package_name input.package_names)
    → (names : List Text) × (normalize_deploy_package_names input ≡ ok names)
unfolding normalize_deploy_package_names
normalize_deploy_package_names_total input ne h =
    let requests = requested input.package_name input.package_names in
    let (names, e) = collect_names_total [] requests h in
    let c = collect_names-Collected [] requests names e tt tt in
    let some_name : names ≢ [] = Collected-some requests names ne c in (names, rw e (ground arith))
