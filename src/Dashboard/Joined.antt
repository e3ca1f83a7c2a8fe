-- ===== src/Dashboard/Joined.antt =====
-- Lines that are joined and split again (dashboard/packages/api/src/routers/dashboard.ts).
use robotics_pacific_rim.Base.{
  ℕ, ◌≡◌, refl, ap, ◌∙◌, Bool, true, false, not, ◌&&◌, ◌||◌, List, [], ◌∷◌, ◌++◌, arith, ◌==◌,
  if◌then◌else◌, All, Text, is_empty, is_space, trim_start, trim_end, trim, join,
}
use robotics_pacific_rim.Dashboard.Lines.{split_lines, join_lines, span}

-- Neither a line feed nor a return.
abbrev pub is_plain : ℕ → Bool
is_plain c = not (c == 10 || c == 13)

abbrev pub IsPlain : Text → Type 0
IsPlain line = All (λ c. is_plain c ≡ true) line

split_lines-feed :
    (line rest : Text) → IsPlain line → split_lines (line ++ 10 ∷ rest) ≡ line ∷ split_lines rest
unfolding split_lines
split_lines-feed [] rest h = refl
split_lines-feed (c ∷ line) rest h = let ih = split_lines-feed line rest h.1 in ground (arith, ih)

split_lines-plain : (line : Text) → IsPlain line → split_lines line ≡ line ∷ []
unfolding split_lines
split_lines-plain [] h = refl
split_lines-plain (c ∷ line) h = let ih = split_lines-plain line h.1 in ground (arith, ih)

pub split_lines-join_lines :
    (line : Text) (lines : List Text)
    → All IsPlain (line ∷ lines)
    → split_lines (join_lines (line ∷ lines)) ≡ line ∷ lines
unfolding join_lines join
split_lines-join_lines line [] h = split_lines-plain line h.0
split_lines-join_lines line (next ∷ lines) h =
    split_lines-feed line (join_lines (next ∷ lines)) h.0
    ∙ ap (λ l. line ∷ l) (split_lines-join_lines next lines h.1)

-- A run of units of a test ends at a unit that fails it.
pub span-append :
    (p : ℕ → Bool) (run rest : Text) (c : ℕ)
    → All (λ d. p d ≡ true) run
    → p c ≡ false
    → span p (run ++ c ∷ rest) ≡ (run, c ∷ rest)
unfolding span
span-append p [] rest c h e = rw e refl
span-append p (d ∷ run) rest c h e =
    rw (h.0) (ap (λ r. (d ∷ r.0, r.1)) (span-append p run rest c h.1 e))

-- White space at neither end.
pub trim_start-full : (c : ℕ) (s : Text) → is_space c ≡ false → trim_start (c ∷ s) ≡ c ∷ s
unfolding trim_start
trim_start-full c s e = rw e refl

pub trim_end-full : (s : Text) (c : ℕ) → is_space c ≡ false → trim_end (s ++ c ∷ []) ≡ s ++ c ∷ []
unfolding trim_end
trim_end-full [] c e = rw e refl
trim_end-full (d ∷ s) c e = rw (trim_end-full s c e) (full s)
  where
    full :
        (s : Text)
        → (if is_space d && is_empty (s ++ c ∷ []) then [] else d ∷ (s ++ c ∷ []))
          ≡ d ∷ (s ++ c ∷ [])
    full [] = ground arith
    full (x ∷ s) = ground arith

trim_end-all : (s : Text) → All (λ c. is_space c ≡ false) s → trim_end s ≡ s
unfolding trim_end
trim_end-all [] h = refl
trim_end-all (c ∷ s) h = rw (trim_end-all s h.1, h.0) refl

-- A text without white space is its own trimmed text.
pub trim-all : (s : Text) → All (λ c. is_space c ≡ false) s → trim s ≡ s
unfolding trim trim_start
trim-all [] h = refl
trim-all (c ∷ s) h = rw (h.0) (trim_end-all (c ∷ s) h)

pub All-mono : {P Q : ℕ → Type 0} → ((c : ℕ) → P c → Q c) → (s : Text) → All P s → All Q s
All-mono f [] h = tt
All-mono f (c ∷ s) h = (f c h.0, All-mono f s h.1)
