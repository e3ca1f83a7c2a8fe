-- ===== src/Dashboard/Blocks/Insert.antt =====
-- A block that is appended to a section is found again, and taking it out restores the lines
-- (dashboard/packages/api/src/routers/dashboard.ts).
use robotics_pacific_rim.Base.{
  ℕ, zero, suc, ◌+◌, ◌<◌, ◌≡◌, refl, sym, ap, ap₂, ◌∙◌, subst, inl, inr, true, false, none, some,
  List, [], ◌∷◌, ◌++◌, append_assoc, arith, if◌then◌else◌, Bool-cases, length, take, drop,
  length-append, length-take, All, Text,
}
use robotics_pacific_rim.Dashboard.Lines.{splice}
use robotics_pacific_rim.Dashboard.Blocks.{
  ends_block, is_header, block_end, child_block, yaml_child_block_range,
}

pub take-length_append {ℓ} : {A : Type ℓ} (xs ys : List A) → take (length xs) (xs ++ ys) ≡ xs
take-length_append [] ys = refl
take-length_append (x ∷ xs) ys = ap (λ l. x ∷ l) (take-length_append xs ys)

pub drop-length_append {ℓ} : {A : Type ℓ} (xs ys : List A) → drop (length xs) (xs ++ ys) ≡ ys
drop-length_append [] ys = refl
drop-length_append (x ∷ xs) ys = drop-length_append xs ys

pub take-append-drop {ℓ} : {A : Type ℓ} (n : ℕ) (xs : List A) → take n xs ++ drop n xs ≡ xs
take-append-drop zero xs = refl
take-append-drop (suc n) [] = refl
take-append-drop (suc n) (x ∷ xs) = ap (λ l. x ∷ l) (take-append-drop n xs)

pub drop_add {ℓ} :
    {A : Type ℓ} (xs ys : List A) (n : ℕ) → drop (length xs + n) (xs ++ ys) ≡ drop n ys
drop_add [] ys n = ap (λ k. drop k ys) (omega arith)
drop_add (x ∷ xs) ys n = rw (add_suc (length xs) n) (drop_add xs ys n)
  where
    add_suc : (a b : ℕ) → suc a + b ≡ suc (a + b)
    add_suc a b = omega arith

pub splice-append {ℓ} :
    {A : Type ℓ} (xs ys zs new : List A)
    → splice (length xs) (length xs + length ys) new (xs ++ (ys ++ zs)) ≡ xs ++ (new ++ zs)
unfolding splice
splice-append xs ys zs new =
    rw
      (
        take-length_append xs (ys ++ zs),
        drop_add xs (ys ++ zs) (length ys),
        drop-length_append ys zs,
      )
      refl

-- The lines before the one that ends a block, and those from it on.
abbrev body : ℕ → List Text → List Text
body indent [] = []
body indent (line ∷ lines) =
    let rest = body indent lines in if ends_block indent line then [] else line ∷ rest

abbrev behind : ℕ → List Text → List Text
behind indent [] = []
behind indent (line ∷ lines) =
    let rest = behind indent lines in if ends_block indent line then line ∷ lines else rest

body-append-behind :
    (indent : ℕ) (lines : List Text) → body indent lines ++ behind indent lines ≡ lines
body-append-behind indent [] = refl
body-append-behind indent (line ∷ lines) = ground (arith, body-append-behind indent lines)

block_end-body :
    (indent i : ℕ) (lines : List Text) → block_end indent i lines ≡ i + length (body indent lines)
unfolding block_end
block_end-body indent i [] = omega arith
block_end-body indent i (line ∷ lines) = ground (arith, block_end-body indent (suc i) lines)

abbrev Ends : ℕ → List Text → Type 0
Ends indent [] = Unit
Ends indent (line ∷ lines) = ends_block indent line ≡ true

ends_block_mono :
    (indent : ℕ) (line : Text) → ends_block indent line ≡ true → ends_block (indent + 2) line ≡ true
ends_block_mono indent line h = ground arith

behind-Ends : (indent : ℕ) (lines : List Text) → Ends (indent + 2) (behind indent lines)
behind-Ends indent [] = tt
behind-Ends indent (line ∷ lines) = elim (Bool-cases (ends_block indent line)) [
  | inl e ↦ rw e (ends_block_mono indent line e)
  | inr e ↦ rw e (behind-Ends indent lines)
]

-- A header at its indentation, and lines that are blank or deeper.
abbrev pub IsBlock : ℕ → Text → List Text → Type 0
IsBlock indent name [] = ⊥
IsBlock indent name (header ∷ lines) =
    (is_header indent name header ≡ true) × All (λ line. ends_block indent line ≡ false) lines

block_end-All :
    (indent i : ℕ) (lines rest : List Text)
    → All (λ line. ends_block indent line ≡ false) lines
    → Ends indent rest
    → block_end indent i (lines ++ rest) ≡ i + length lines
unfolding block_end
block_end-All indent i [] [] h e = omega arith
block_end-All indent i [] (line ∷ rest) h e = rw e (omega arith)
block_end-All indent i (line ∷ lines) rest h e =
    rw (h.0) (block_end-All indent (suc i) lines rest h.1 e ∙ omega arith)

header-ends :
    (indent : ℕ) (name header : Text)
    → is_header (indent + 2) name header ≡ true
    → ends_block indent header ≡ false
header-ends indent name header h = ground arith

module _ (indent : ℕ) (name : Text) where
  child_block-here :
      (i : ℕ) (block rest : List Text)
      → IsBlock (indent + 2) name block
      → Ends (indent + 2) rest
      → child_block indent name i (block ++ rest) ≡ some (i, i + length block)
  unfolding child_block
  child_block-here i [] rest b e = absurd b
  child_block-here i (header ∷ lines) rest b e =
      rw (header-ends indent name header b.0, b.0)
        (ap (λ n. some (i, n)) (block_end-All (indent + 2) (suc i) lines rest b.1 e ∙ omega arith))

  child_block-none :
      (i : ℕ) (line : Text) (lines : List Text)
      → ends_block indent line ≡ false
      → child_block indent name i (line ∷ lines) ≡ none
      → child_block indent name (suc i) lines ≡ none
  unfolding child_block
  child_block-none i line lines e h = ground arith

  child_block-deeper :
      (i : ℕ) (line : Text) (lines others : List Text)
      → ends_block indent line ≡ false
      → child_block indent name i (line ∷ lines) ≡ none
      → child_block indent name i (line ∷ others) ≡ child_block indent name (suc i) others
  unfolding child_block
  child_block-deeper i line lines others e h = ground arith

  child_block-inserted :
      (i : ℕ) (block lines : List Text)
      → IsBlock (indent + 2) name block
      → child_block indent name i lines ≡ none
      → child_block indent name i (body indent lines ++ (block ++ behind indent lines))
        ≡ some (i + length (body indent lines), (i + length (body indent lines)) + length block)
  child_block-inserted i block [] b h =
      child_block-here i block [] b tt ∙ ap₂ (λ m n. some (m, n)) (omega arith) (omega arith)
  child_block-inserted i block (line ∷ lines) b h = elim (Bool-cases (ends_block indent line)) [
    | inl e ↦ rw e (
        child_block-here i block (line ∷ lines) b (ends_block_mono indent line e)
        ∙ ap₂ (λ m n. some (m, n)) (omega arith) (omega arith))
    | inr e ↦ rw e (
        child_block-deeper i line lines (body indent lines ++ (block ++ behind indent lines)) e h
        ∙ child_block-inserted (suc i) block lines b (child_block-none i line lines e h)
        ∙ ap₂ (λ m n. some (m, n)) (omega arith) (omega arith))
  ]

-- Where the lines of the section at an index end.
abbrev pub section_end : ℕ → List Text → ℕ → ℕ
section_end indent lines start = block_end indent (suc start) (drop (suc start) lines)

splice-in :
    (xs zs new : List Text) (at : ℕ)
    → at ≡ length xs
    → splice at at new (xs ++ zs) ≡ xs ++ (new ++ zs)
unfolding splice
splice-in xs zs new at e = rw (e, take-length_append xs zs, drop-length_append xs zs) refl

splice-out :
    (xs ys zs : List Text) (at : ℕ)
    → at ≡ length xs
    → splice at (at + length ys) [] (xs ++ (ys ++ zs)) ≡ xs ++ zs
splice-out xs ys zs at e = rw e (splice-append xs ys zs [])

drop-prefix : (xs ys zs : List Text) (n : ℕ) → n ≡ length xs → drop n ((xs ++ ys) ++ zs) ≡ ys ++ zs
drop-prefix xs ys zs n e = rw (e, append_assoc xs ys zs) (drop-length_append xs (ys ++ zs))

module _ (lines block : List Text) (start indent : ℕ) (name : Text) where
  abbrev kept : List Text
  kept = take (suc start) lines ++ body indent (drop (suc start) lines)

  abbrev after : List Text
  after = behind indent (drop (suc start) lines)

  kept-append-after : kept ++ after ≡ lines
  kept-append-after =
      append_assoc (take (suc start) lines) (body indent (drop (suc start) lines)) after
      ∙ ap (λ l. take (suc start) lines ++ l) (body-append-behind indent (drop (suc start) lines))
      ∙ take-append-drop (suc start) lines

  section_end-kept : start < length lines → section_end indent lines start ≡ length kept
  section_end-kept h =
      let counted = length-append (take (suc start) lines) (body indent (drop (suc start) lines)) in
      let taken = length-take (suc start) lines (omega arith) in
      let ended = block_end-body indent (suc start) (drop (suc start) lines) in
      omega (arith, counted, taken, ended)

  splice-kept :
      start < length lines
      → splice (section_end indent lines start) (section_end indent lines start) block lines
        ≡ kept ++ (block ++ after)
  splice-kept h =
      subst
        (λ l.
          splice (section_end indent lines start) (section_end indent lines start) block l
          ≡ kept ++ (block ++ after))
        kept-append-after
        (splice-in kept after block (section_end indent lines start) (section_end-kept h))

  -- A block with the header of its name, appended where the section of a line ends that has no such
  -- block, is the one that the name then finds, and taking out what was found restores the lines.
  pub yaml_child_block_range-splice :
      start < length lines
      → IsBlock (indent + 2) name block
      → yaml_child_block_range lines start indent name ≡ none
      → let at = section_end indent lines start in
        (yaml_child_block_range (splice at at block lines) start indent name
          ≡ some (at, at + length block))
        × (splice at (at + length block) [] (splice at at block lines) ≡ lines)
  unfolding yaml_child_block_range
  yaml_child_block_range-splice h b missing = rw (splice-kept h) (
    ap (child_block indent name (suc start)) (
          drop-prefix (take (suc start) lines) (body indent (drop (suc start) lines))
            (block ++ after) (suc start) (sym (length-take (suc start) lines (omega arith))))
        ∙ child_block-inserted indent name (suc start) block (drop (suc start) lines) b missing
        ∙ ap (λ n. some (n, n + length block))
            (sym (block_end-body indent (suc start) (drop (suc start) lines))),
    splice-out kept block after (section_end indent lines start) (section_end-kept h)
        ∙ kept-append-after,
  )
