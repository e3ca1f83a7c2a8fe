-- ===== src/Deploy/Manifest.antt =====
-- Reading `package.xml` files (dashboard/packages/api/src/routers/deploy.ts).
use robotics_pacific_rim.Base.{
  ◌≡◌, refl, ap, ◌∙◌, ◌≢◌, inl, inr, true, false, ◌&&◌, Option, none, some, List, [], ◌∷◌, ◌++◌,
  arith, Bool-cases, length, drop, All, Text, text, trim, starts_with,
}
use robotics_pacific_rim.Base.Result.{ok, bind-ok, ok-injective}
use robotics_pacific_rim.Base.Sort.{sort, IsSorted, IsOrder, sort-IsSorted, sort-All}
use robotics_pacific_rim.Deploy.Packages.{
  span_content, open_tag, close_tag, content_at, match_tag, parse_xml_tag, Node, DirEntry,
  DeployPackageSummary, package_from, read_package, read_entries, by_name, add_found, service_root,
  read_deploy_packages,
}
use robotics_pacific_rim.Deploy.Safety.{IsPackageName}

-- No `<` in a text.
abbrev pub IsContent : Text → Type 0
IsContent = All (λ c. c ≢ b'<')

span_content-append :
    (content rest : Text)
    → IsContent content
    → span_content (content ++ b'<' ∷ rest) ≡ (content, b'<' ∷ rest)
unfolding span_content
span_content-append [] rest h = refl
span_content-append (c ∷ content) rest (n, h) =
    rw (span_content-append content rest h) (ground arith)

pub starts_with-append : (p s : Text) → starts_with p (p ++ s) ≡ true
unfolding starts_with
starts_with-append [] s = refl
starts_with-append (c ∷ p) s = ground (arith, starts_with-append p s)

pub drop-append : (p s : Text) → drop (length p) (p ++ s) ≡ s
drop-append [] s = refl
drop-append (c ∷ p) s = drop-append p s

content_at-append :
    (tag content rest : Text)
    → content ≢ []
    → IsContent content
    → content_at tag (content ++ (close_tag tag ++ rest)) ≡ some (trim content)
unfolding content_at
content_at-append tag content rest ne h =
    rw (span_content-append content _ h, starts_with-append (close_tag tag) rest) (ground arith)

-- The opening tag begins nowhere in the first text, read before the second.
abbrev pub HasNoTag : Text → Text → Text → Type 0
HasNoTag tag [] behind = Unit
HasNoTag tag (c ∷ s) behind =
    (starts_with (open_tag tag) (c ∷ (s ++ behind)) ≡ false) × HasNoTag tag s behind

abbrev pub element : Text → Text → Text → Text
element tag content rest = open_tag tag ++ (content ++ (close_tag tag ++ rest))

match_tag-element :
    (tag content rest : Text)
    → content ≢ []
    → IsContent content
    → match_tag tag (element tag content rest) ≡ some (trim content)
unfolding match_tag
match_tag-element tag content rest ne h =
    rw (starts_with-append (open_tag tag) (content ++ (close_tag tag ++ rest))) (
      rw (drop-append (open_tag tag) (content ++ (close_tag tag ++ rest)))
        (rw (content_at-append tag content rest ne h) refl))

match_tag-behind :
    (tag front behind : Text)
    → HasNoTag tag front behind
    → match_tag tag (front ++ behind) ≡ match_tag tag behind
unfolding match_tag
match_tag-behind tag [] behind h = refl
match_tag-behind tag (c ∷ front) behind (n, h) = rw n (match_tag-behind tag front behind h)

-- The value of a tag is the trimmed text of its first element: whatever stands before, as long as
-- the opening tag does not begin there, and whatever follows, if the element's text is not empty
-- and holds no `<`.
pub parse_xml_tag-element :
    (tag front content rest : Text)
    → HasNoTag tag front (element tag content rest)
    → content ≢ []
    → IsContent content
    → parse_xml_tag (front ++ element tag content rest) tag ≡ trim content
unfolding parse_xml_tag
parse_xml_tag-element tag front content rest n ne h =
    rw (match_tag-behind tag front (element tag content rest) n)
      (rw (match_tag-element tag content rest ne h) refl)

abbrev pub IsValidPackage : DeployPackageSummary → Type 0
IsValidPackage p = IsPackageName p.name

module _ (node : Node) where
  package_from-valid :
      (entry : DirEntry) (xml : Text) (p : DeployPackageSummary)
      → package_from node entry xml ≡ some p
      → IsValidPackage p
  unfolding package_from
  package_from-valid entry xml p h = ground arith

  read_package-valid :
      (root : Text) (entry : DirEntry) (p : DeployPackageSummary)
      → read_package node root entry ≡ ok (some p)
      → IsValidPackage p
  unfolding read_package
  read_package-valid root entry p h =
      let path = node.path_join (root ∷ entry.entry_name ∷ text "package.xml" ∷ []) in
      elim (Bool-cases (entry.is_directory && node.exists path)) [
        | inr no_file ↦ cc (rw no_file at h)
        | inl there ↦
            let (xml, _, e) = bind-ok (node.read_file path) _ (rw there at h) in
            package_from-valid entry xml p (ok-injective e)
      ]

  add_found-valid :
      (o : Option DeployPackageSummary) (ps : List DeployPackageSummary)
      → ((p : DeployPackageSummary) → o ≡ some p → IsValidPackage p)
      → All IsValidPackage ps
      → All IsValidPackage (add_found node o ps)
  add_found-valid none ps v h = h
  add_found-valid (some p) ps v h = (v p refl, h)

  read_entries-valid :
      (root : Text) (entries : List DirEntry) (ps : List DeployPackageSummary)
      → read_entries node root entries ≡ ok ps
      → All IsValidPackage ps
  unfolding read_entries
  read_entries-valid root [] ps h = let e : [] ≡ ps = ok-injective h in rw (← e) tt
  read_entries-valid root (entry ∷ entries) ps h =
      let (found, first, h1) = bind-ok (read_package node root entry) _ h in
      let (rest, later, h2) = bind-ok (read_entries node root entries) _ h1 in
      let e : add_found node found rest ≡ ps = ok-injective h2 in
      rw (← e) (
        add_found-valid found rest (λ p q. read_package-valid root entry p (first ∙ ap ok q))
          (read_entries-valid root entries rest later))

  -- The packages that are listed stand in the order of their names, and each has a valid name.
  -- (The locale's order on names must be total and transitive.)
  pub read_deploy_packages-IsSorted :
      (repo_root : Text) (ps : List DeployPackageSummary)
      → IsOrder (by_name node)
      → read_deploy_packages node repo_root ≡ ok ps
      → IsSorted (by_name node) ps × All IsValidPackage ps
  unfolding read_deploy_packages
  read_deploy_packages-IsSorted repo_root ps order h =
      let root = node.path_join (repo_root ∷ service_root node ∷ []) in
      elim (Bool-cases (node.exists root)) [
        | inr no_root ↦ let e : [] ≡ ps = ok-injective (rw no_root at h) in rw (← e) (tt, tt)
        | inl there ↦
            let (entries, _, h1) = bind-ok (node.read_dir root) _ (rw there at h) in
            let (found, read, h2) = bind-ok (read_entries node root entries) _ h1 in
            let e : sort (by_name node) found ≡ ps = ok-injective h2 in
            rw (← e) (
              sort-IsSorted order found,
              sort-All (by_name node) IsValidPackage found
                  (read_entries-valid root entries found read),
            )
      ]
