-- ===== src/Dashboard/Blocks/Total.antt =====
-- Appending a route to a configuration always answers
-- (dashboard/packages/api/src/routers/dashboard.ts).
use robotics_pacific_rim.Base.{
  ℕ, suc, ◌+◌, ◌≤◌, ◌<◌, ◌≡◌, ◌⊎◌, inl, inr, refl, sym, subst, is_some, ◌∙◌, Bool, true, false,
  ◌&&◌, Option, none, some, List, [], ◌∷◌, ◌++◌, arith, if◌then◌else◌, length, take, drop, Each,
  if-keeps, length-append, length-take, length-drop, Text, text, trim_end,
}
use robotics_pacific_rim.Base.Result.{Result, ok, err}
use robotics_pacific_rim.Dashboard.Lines.{line_info, splice}
use robotics_pacific_rim.Dashboard.Routes.{CommunicationSection}
use robotics_pacific_rim.Dashboard.Blocks.{
  EditFailure, already_exists, singular, route_block_exists, range_in, block_end, section_from,
  communication_section_start, find_index, is_communication, ends_block, is_section_line,
}
use robotics_pacific_rim.Dashboard.Blocks.Edit.{
  ensure_block_section, ensure_found, ensure_communication_section, lines_of, with_heading,
  append_yaml_route_block,
}
use robotics_pacific_rim.Dashboard.Blocks.Exists.{
  has_route, none_after, same_after, added_none, lines_none,
}
use robotics_pacific_rim.Dashboard.Blocks.Blank.{append_in_section_total}

-- What an index that a search found, if any, is below.
abbrev Below : ℕ → Option ℕ → Type 0
Below n o = Each (λ k. k < n) o

find_index-Below :
    (p : Text → Bool) (i : ℕ) (lines : List Text) → Below (i + length lines) (find_index p i lines)
unfolding find_index
find_index-Below p i [] = tt
find_index-Below p i (line ∷ lines) =
    if-keeps (Below (i + suc (length lines))) (p line) (some i) (find_index p (suc i) lines)
      (omega arith)
      (subst (λ n. Below n (find_index p (suc i) lines)) (omega arith)
        (find_index-Below p (suc i) lines))

section_from-Below :
    (section : CommunicationSection) (inside : Bool) (i : ℕ) (lines : List Text)
    → Below (i + length lines) (section_from section inside i lines)
unfolding section_from
section_from-Below section inside i [] = tt
section_from-Below section inside i (line ∷ lines) =
    let P = Below (i + suc (length lines)) in
    let later = λ (b : Bool).
      subst (λ n. Below n (section_from section b (suc i) lines)) (add_suc i (length lines))
        (section_from-Below section b (suc i) lines) in
    let starts = inside && is_section_line section (line_info line) in
    let further = section_from section inside (suc i) lines in
    let found = if starts then some i else further in
    let ends = inside && ends_block 0 line in
    if-keeps P (is_communication line) (section_from section true (suc i) lines)
      (if ends then none else found) (later true)
      (if-keeps P ends none found tt
        (if-keeps P starts (some i) further (omega arith) (later inside)))
  where
    add_suc : (a b : ℕ) → suc a + b ≡ a + suc b
    add_suc a b = omega arith

block_end-le : (indent i : ℕ) (lines : List Text) → block_end indent i lines ≤ i + length lines
unfolding block_end
block_end-le indent i [] = omega arith
block_end-le indent i (line ∷ lines) = ground (arith, block_end-le indent (suc i) lines)

length-splice_one :
    (start end : ℕ) (line : Text) (lines : List Text)
    → start ≤ length lines
    → end ≤ suc start
    → start < length (splice start end (line ∷ []) lines)
unfolding splice
length-splice_one start end line lines h k =
    let outer = length-append (take start lines) ((line ∷ []) ++ drop end lines) in
    let taken = length-take start lines h in omega (arith, outer, taken)

ensure_block_section-lt :
    (lines : List Text) (start : ℕ) (section : CommunicationSection)
    → start < length lines
    → start < length (ensure_block_section lines start section)
unfolding ensure_block_section
ensure_block_section-lt lines start section h =
    if-keeps (λ (l : List Text). start < length l) _ _ lines
      (length-splice_one start (suc start) _ lines (omega arith) (omega arith)) h

ensure_found-lt :
    (lines : List Text) (start : ℕ) (section : CommunicationSection) (found : Option ℕ)
    → start < length lines
    → Below (length lines) found
    → (ensure_found lines start section found).1 < length (ensure_found lines start section found).0
ensure_found-lt lines start section none h b =
    let ended = block_end-le 0 (suc start) (drop (suc start) lines) in
    let left = length-drop (suc start) lines in
    length-splice_one (block_end 0 (suc start) (drop (suc start) lines))
      (block_end 0 (suc start) (drop (suc start) lines)) _ lines (omega (arith, ended, left))
      (omega arith)
ensure_found-lt lines start section (some found) h b = ensure_block_section-lt lines found section b

with_heading-lt :
    (lines : List Text) (heading : Text) (found : Option ℕ)
    → Below (length lines) found
    → (with_heading lines heading found).1 < length (with_heading lines heading found).0
with_heading-lt lines heading (some found) b = b
with_heading-lt lines heading none b = snoc _
  where
    snoc : (xs : List Text) → length xs < length (xs ++ heading ∷ [])
    snoc xs = let n = length-append xs (heading ∷ []) in omega (arith, n)

from_zero : (n : ℕ) (o : Option ℕ) → Below (0 + n) o → Below n o
from_zero n o = subst (λ k. Below k o) (omega arith)

-- What appending a route may answer with: the new text, if the route is not there, or else the error
-- that names the section's kind and the route.
abbrev pub Answers : Bool → CommunicationSection → Text → Result EditFailure (Option Text) → Type 0
Answers exists section name r =
    ((exists ≡ false) × ((t : Text) × (r ≡ ok (some t))))
    ⊎ ((exists ≡ true) × (r ≡ err (already_exists (singular section) name)))

answers :
    (b : Bool) (section : CommunicationSection) (name t : Text)
    → Answers b section name
        (if b then err (already_exists (singular section) name) else ok (some t))
answers true section name t = inr (refl, refl)
answers false section name t = inl (refl, (t, refl))

-- Once the section is there, it has a block of the name just if it had one before.
ensure_found-exists :
    (lines : List Text) (start : ℕ) (section : CommunicationSection) (name : Text)
    (found : Option ℕ)
    → start < length lines
    → Below (length lines) found
    → route_block_exists
        (ensure_found lines start section found).0
        (ensure_found lines start section found).1
        2
        name
      ≡ is_some (range_in lines 2 name found)
ensure_found-exists lines start section name none h b =
    let ended = block_end-le 0 (suc start) (drop (suc start) lines) in
    let left = length-drop (suc start) lines in
    none_after lines start _ name h (omega (arith, ended, left, h))
ensure_found-exists lines start section name (some found) h b =
    same_after lines section found name b

-- A heading that is added has no section.
with_heading-has_route :
    (lines : List Text) (section : CommunicationSection) (name : Text) (found : Option ℕ)
    → find_index is_communication 0 lines ≡ found
    → has_route (with_heading lines (text "communication:") found).0 section name
      ≡ has_route lines section name
with_heading-has_route lines section name (some start) h = refl
with_heading-has_route lines section name none h =
    rw (added_none lines section h, lines_none lines section h) refl

-- For every text, section, name and block: if the text, read as an edit of the route reads it, has
-- the section with a block of the name, appending answers with the error that the section has the
-- name already, and else with a new text. No loop runs out of its rounds, and there is no other
-- error.
pub append_yaml_route_block_total :
    (t : Text) (section : CommunicationSection) (name replacement : Text)
    → Answers
        (has_route (lines_of (trim_end t)) section name)
        section
        name
        (append_yaml_route_block t section name replacement)
unfolding append_yaml_route_block ensure_communication_section communication_section_start
append_yaml_route_block_total t section name replacement =
    let lines = lines_of (trim_end t) in
    let headed = with_heading lines (text "communication:") (find_index is_communication 0 lines) in
    let headed_lt =
      with_heading-lt lines (text "communication:") (find_index is_communication 0 lines)
        (from_zero _ _ (find_index-Below is_communication 0 lines)) in
    let below = from_zero _ _ (section_from-Below section false 0 headed.0) in
    let found = section_from section false 0 headed.0 in
    let e = ensure_found headed.0 headed.1 section found in
    let ensured_lt = ensure_found-lt headed.0 headed.1 section found headed_lt below in
    let exists : route_block_exists e.0 e.1 2 name ≡ has_route lines section name =
      ensure_found-exists headed.0 headed.1 section name found headed_lt below
      ∙ with_heading-has_route lines section name (find_index is_communication 0 lines) refl in
    subst (Answers (has_route lines section name) section name)
      (sym (append_in_section_total e.0 e.1 section name replacement ensured_lt))
      (rw exists (answers (has_route lines section name) section name _))
