-- ===== src/Dashboard/Blocks/Blank.antt =====
-- The loop that takes the blank lines out behind a section's heading ends
-- (dashboard/packages/api/src/routers/dashboard.ts).
use robotics_pacific_rim.Base.{
  ℕ, zero, suc, ◌<◌, ◌≡◌, refl, ap, ◌∙◌, subst, inl, inr, not, some, List, [], ◌∷◌, ◌++◌,
  append-nil, arith, ltb, if◌then◌else◌, Bool-cases, length, take, drop, length-append, length-take,
  length-drop, Text, is_empty,
}
use robotics_pacific_rim.Base.Result.{ok, err}
use robotics_pacific_rim.Dashboard.Lines.{splice, file_text}
use robotics_pacific_rim.Dashboard.Routes.{CommunicationSection}
use robotics_pacific_rim.Dashboard.Blocks.{already_exists, singular, route_block_exists}
use robotics_pacific_rim.Dashboard.Blocks.Edit.{
  is_blank, line_at, remove_blank, route_insert_index, insert_block, append_in_section,
}
use robotics_pacific_rim.Dashboard.Blocks.Insert.{section_end, splice-append, take-append-drop}

-- The lines from the first that is not blank.
unfoldable pub drop_blank : List Text → List Text
drop_blank [] = []
drop_blank (line ∷ lines) =
    let rest = drop_blank lines in if is_blank line then rest else line ∷ lines

line_at-append :
    (xs : List Text) (line : Text) (lines : List Text)
    → line_at (xs ++ line ∷ lines) (length xs) ≡ line
line_at-append [] line lines = refl
line_at-append (x ∷ xs) line lines = line_at-append xs line lines

splice-one :
    (xs : List Text) (line : Text) (lines : List Text)
    → splice (length xs) (suc (length xs)) [] (xs ++ line ∷ lines) ≡ xs ++ lines
splice-one xs line lines =
    ap (λ n. splice (length xs) n [] (xs ++ line ∷ lines)) (omega arith)
    ∙ splice-append xs (line ∷ []) lines []

ltb-length : (xs ys : List Text) → ltb (length xs) (length (xs ++ ys)) ≡ not (is_empty ys)
ltb-length xs [] = rw (append-nil xs) (ground arith)
ltb-length xs (y ∷ ys) = let n = length-append xs (y ∷ ys) in ground (arith, n)

remove_blank-append :
    (rounds : ℕ) (xs ys : List Text)
    → length ys < rounds
    → remove_blank rounds (xs ++ ys) (length xs) ≡ some (xs ++ drop_blank ys)
unfolding remove_blank drop_blank
remove_blank-append zero xs ys h = absurd (omega arith)
remove_blank-append (suc rounds) xs [] h = rw (ltb-length xs []) refl
remove_blank-append (suc rounds) xs (line ∷ lines) h = elim (Bool-cases (is_blank line)) [
  | inl e ↦
      rw (ltb-length xs (line ∷ lines), line_at-append xs line lines, e, splice-one xs line lines)
        (remove_blank-append rounds xs lines (omega arith))
  | inr e ↦ rw (ltb-length xs (line ∷ lines), line_at-append xs line lines, e) refl
]

-- The lines without the blank ones behind a heading.
abbrev pub cleaned : List Text → ℕ → List Text
cleaned lines start = take (suc start) lines ++ drop_blank (drop (suc start) lines)

remove_blank-cleaned :
    (lines : List Text) (start : ℕ)
    → start < length lines
    → remove_blank (suc (length lines)) lines (suc start) ≡ some (cleaned lines start)
remove_blank-cleaned lines start h =
    let taken = length-take (suc start) lines (omega arith) in
    let left = length-drop (suc start) lines in
    subst (λ l. remove_blank (suc (length lines)) l (suc start) ≡ some (cleaned lines start))
      (take-append-drop (suc start) lines)
      (subst
        (λ n.
          remove_blank (suc (length lines)) (take (suc start) lines ++ drop (suc start) lines) n
          ≡ some (cleaned lines start))
        taken
        (remove_blank-append (suc (length lines)) (take (suc start) lines) (drop (suc start) lines)
          (omega arith)))

-- Behind a heading among the lines, the loop over the blank lines ends within a round for each line
-- and one more: a new route is refused exactly when its name has a block there, and otherwise it is
-- put where the section ends, in the lines without the blank ones behind the heading.
pub append_in_section_total :
    (lines : List Text) (start : ℕ) (section : CommunicationSection) (name replacement : Text)
    → start < length lines
    → append_in_section lines start section name replacement ≡ (
        if route_block_exists lines start 2 name
        then err (already_exists (singular section) name)
        else ok (
            some (
              file_text (
                insert_block
                  (cleaned lines start)
                  (section_end 2 (cleaned lines start) start)
                  replacement))))
unfolding append_in_section route_insert_index
append_in_section_total lines start section name replacement h =
    rw (remove_blank-cleaned lines start h) refl
