-- ===== src/Dashboard/Paths.antt =====
-- The paths that the dashboard may edit (dashboard/packages/api/src/routers/dashboard.ts). A path
-- that is resolved is the list of its segments, on a system whose separator is the slash.
use robotics_pacific_rim.Base.{
  ℕ, zero, suc, ◌≡◌, refl, sym, ap₂, ◌∙◌, inl, inr, Bool, true, false, not, ◌||◌, List, [], ◌∷◌,
  ◌++◌, append-nil, arith, if◌then◌else◌, Bool-cases, length, replicate, Text, text, eq_text,
  eq_text_iff, is_empty, starts_with, join,
}
use robotics_pacific_rim.Base.Result.{Result, ok, err}
use mathlib.Core.Bool.{false≢true}
use robotics_pacific_rim.Dashboard.Names.{split_slash}

pub data PathFailure : Type 0 where
  outside_repository : Text → PathFailure
  not_editable : Text → PathFailure

abbrev pub is_absolute : Text → Bool
is_absolute p = starts_with (text "/") p

abbrev pop : List Text → List Text
pop [] = []
pop (s ∷ []) = []
pop (s ∷ t ∷ segments) = s ∷ pop (t ∷ segments)

-- One part of a path, from a directory: an empty part and a dot stay, two dots go up.
unfoldable pub step : List Text → Text → List Text
unfolding eq_text
step here s =
    if is_empty s || eq_text s (text ".")
    then here
    else if eq_text s (text "..")
    then pop here
    else here ++ s ∷ []

unfoldable pub walk : List Text → List Text → List Text
unfolding step
walk here [] = here
walk here (s ∷ parts) = walk (step here s) parts

-- `path.resolve(base, p)` for a base that is resolved.
unfoldable pub resolve : List Text → Text → List Text
unfolding walk split_slash starts_with
resolve base p = walk (if is_absolute p then [] else base) (split_slash p)

-- `path.relative(from, to)` between resolved paths, by its segments.
unfoldable pub relative : List Text → List Text → List Text
unfolding eq_text
relative [] to = to
relative (f ∷ from) [] = replicate (suc (length from)) (text "..")
relative (f ∷ from) (t ∷ to) =
    let rest = relative from to in
    if eq_text f t then rest else replicate (suc (length from)) (text "..") ++ t ∷ to

abbrev pub path_text : List Text → Text
path_text segments = join (text "/") segments

-- `normalized.startsWith(`${root}/`)` for one of the roots.
unfoldable pub is_under : List Text → Text → Bool
unfolding starts_with
is_under [] p = false
is_under (root ∷ roots) p = starts_with (root ++ text "/") p || is_under roots p

-- The repository's root is resolved; the separator is the slash already, so that a path is
-- normalized as it stands.
unfoldable pub absolute_repo_path : List Text → Text → List Text → Result PathFailure (List Text)
unfolding starts_with is_under resolve relative join
absolute_repo_path repo_root relative_path allowed_roots =
    if starts_with (text "../") relative_path || is_absolute relative_path
    then err (outside_repository relative_path)
    else if not (is_under allowed_roots relative_path)
    then err (not_editable relative_path)
    else let absolute_path = resolve repo_root relative_path in
      let back = path_text (relative repo_root absolute_path) in
      if starts_with (text "..") back || is_absolute back
      then err (outside_repository relative_path)
      else ok absolute_path

-- The path goes from the root, by the segments that follow it.
abbrev pub IsInside : List Text → List Text → Type 0
IsInside root p = (inner : List Text) × (p ≡ root ++ inner)

path_text-up :
    (n : ℕ) (rest : List Text)
    → starts_with (text "..") (path_text (replicate (suc n) (text "..") ++ rest)) ≡ true
unfolding starts_with join
path_text-up zero [] = refl
path_text-up zero (s ∷ rest) = refl
path_text-up (suc n) rest = refl

relative-IsInside :
    (from to : List Text)
    → starts_with (text "..") (path_text (relative from to)) ≡ false
    → IsInside from to
unfolding relative
relative-IsInside [] to h = (to, refl)
relative-IsInside (f ∷ from) [] h =
    let up = path_text-up (length from) [] in
    let up' : starts_with (text "..") (path_text (replicate (suc (length from)) (text "..")))
        ≡ true =
      rw (← append-nil (replicate (suc (length from)) (text ".."))) up in
    absurd (false≢true (sym h ∙ up'))
relative-IsInside (f ∷ from) (t ∷ to) h = elim (Bool-cases (eq_text f t)) [
  | inl e ↦
      let (inner, p) = relative-IsInside from to (rw e at h) in
      (inner, ap₂ ◌∷◌ (sym ((eq_text_iff f t).0 e)) p)
  | inr e ↦ absurd (false≢true (sym (rw e at h) ∙ path_text-up (length from) (t ∷ to)))
]

-- A path that may be edited does not begin by going up and is not absolute, begins with an allowed
-- root, and is resolved to a path inside the repository.
pub absolute_repo_path-IsInside :
    (repo_root : List Text) (relative_path : Text) (allowed_roots : List Text) (p : List Text)
    → absolute_repo_path repo_root relative_path allowed_roots ≡ ok p
    → (starts_with (text "../") relative_path ≡ false)
      × (is_absolute relative_path ≡ false)
      × (is_under allowed_roots relative_path ≡ true)
      × (p ≡ resolve repo_root relative_path)
      × IsInside repo_root p
unfolding absolute_repo_path
absolute_repo_path-IsInside repo_root relative_path allowed_roots p h =
    let inside = relative-IsInside repo_root (resolve repo_root relative_path) in
    ground (arith, inside)
