-- ===== src/Dashboard/Blocks/Exists.antt =====
-- Making sure of a section neither adds a route to it nor hides one
-- (dashboard/packages/api/src/routers/dashboard.ts).
use robotics_pacific_rim.Base.{
  ℕ, zero, suc, ◌+◌, ◌-◌, ◌≤◌, ◌<◌, ◌≡◌, inl, inr, refl, ap, sym, ◌∙◌, Bool, true, false,
  Bool-cases, none, List, if-keeps, [], ◌∷◌, ◌++◌, append_assoc, append-nil, arith, is_some, length,
  drop, Text, text,
}
use robotics_pacific_rim.Dashboard.Lines.{splice, lines_run}
use robotics_pacific_rim.Dashboard.Routes.{CommunicationSection}
use robotics_pacific_rim.Dashboard.Blocks.{
  range_in, yaml_child_block_range, child_block, route_block_exists, block_end, section_from,
  find_index, is_communication, ends_block,
}
use robotics_pacific_rim.Dashboard.Blocks.Edit.{ensure_block_section, with_heading}

drop-splice_one :
    (k : ℕ) (line : Text) (lines : List Text)
    → k < length lines
    → drop (suc k) (splice k (suc k) (line ∷ []) lines) ≡ drop (suc k) lines
unfolding splice
drop-splice_one k line [] h = grind (arith, h)
drop-splice_one zero line (x ∷ lines) h = refl
drop-splice_one (suc k) line (x ∷ lines) h = drop-splice_one k line lines (omega (arith, h))

drop-splice_new :
    (k : ℕ) (line : Text) (lines : List Text)
    → k ≤ length lines
    → drop (suc k) (splice k k (line ∷ []) lines) ≡ drop k lines
unfolding splice
drop-splice_new zero line lines h = refl
drop-splice_new (suc k) line [] h = grind (arith, h)
drop-splice_new (suc k) line (x ∷ lines) h = drop-splice_new k line lines (omega (arith, h))

drop-nil : (m : ℕ) → ◌≡◌ {A = List Text} (drop m []) []
drop-nil zero = refl
drop-nil (suc m) = refl

drop-drop : (n k m : ℕ) (lines : List Text) → n ≡ k + m → drop n lines ≡ drop m (drop k lines)
drop-drop n zero m lines h = ap (λ i. drop i lines) {x = n} {y = m} (omega (arith, h))
drop-drop zero (suc k) m lines h = grind (arith, h)
drop-drop (suc n) (suc k) m [] h = sym (drop-nil m)
drop-drop (suc n) (suc k) m (x ∷ lines) h = drop-drop n k m lines (omega (arith, h))

block_end-ge : (i : ℕ) (lines : List Text) → i ≤ block_end 0 i lines
unfolding block_end
block_end-ge i [] = omega arith
block_end-ge i (line ∷ lines) = ground (arith, block_end-ge (suc i) lines)

deeper : (line : Text) → ends_block 0 line ≡ true → ends_block 2 line ≡ true
deeper line h = ground (arith, h)

-- At the line that ends the communication block no route follows.
child_block-end :
    (name : Text) (m i j : ℕ) (lines : List Text)
    → block_end 0 i lines ≡ i + m
    → child_block 2 name j (drop m lines) ≡ none
unfolding child_block block_end
child_block-end name zero i j [] h = refl
child_block-end name (suc m) i j [] h = refl
child_block-end name zero i j (line ∷ lines) h = elim (Bool-cases (ends_block 0 line)) [
  | inl e ↦ rw (deeper line e) refl
  | inr e ↦
      let ge = block_end-ge (suc i) lines in
      let same : block_end 0 (suc i) lines ≡ i + 0 = rw e at h in grind (arith, ge, same)
]
child_block-end name (suc m) i j (line ∷ lines) h = elim (Bool-cases (ends_block 0 line)) [
  | inl e ↦ let same : i ≡ i + suc m = rw e at h in grind (arith, same)
  | inr e ↦
      let same : block_end 0 (suc i) lines ≡ i + suc m = rw e at h in
      child_block-end name m (suc i) j lines (omega (arith, same))
]

section_from-skip :
    (section : CommunicationSection) (xs ys : List Text) (i j : ℕ)
    → find_index is_communication i xs ≡ none
    → (n : ℕ) × (section_from section false j (xs ++ ys) ≡ section_from section false n ys)
unfolding section_from find_index
section_from-skip section [] ys i j h = (j, refl)
section_from-skip section (x ∷ xs) ys i j h = elim (Bool-cases (is_communication x)) [
  | inl e ↦ cc (rw e at h)
  | inr e ↦ let (n, k) = section_from-skip section xs ys (suc i) (suc j) (rw e at h) in (n, rw e k)
]

-- The text has the section, and in it a block of the name.
abbrev pub has_route : List Text → CommunicationSection → Text → Bool
has_route lines section name = is_some (range_in lines 2 name (section_from section false 0 lines))

pub none_after :
    (lines : List Text) (c : ℕ) (line name : Text)
    → c < length lines
    → block_end 0 (suc c) (drop (suc c) lines) ≤ length lines
    → route_block_exists
        (splice
          (block_end 0 (suc c) (drop (suc c) lines))
          (block_end 0 (suc c) (drop (suc c) lines))
          (line ∷ [])
          lines)
        (block_end 0 (suc c) (drop (suc c) lines))
        2
        name
      ≡ false
unfolding route_block_exists yaml_child_block_range
none_after lines c line name h b =
    let e = block_end 0 (suc c) (drop (suc c) lines) in
    let ge = block_end-ge (suc c) (drop (suc c) lines) in
    let rest : drop (suc e) (splice e e (line ∷ []) lines) ≡ drop (e - suc c) (drop (suc c) lines) =
      drop-splice_new e line lines b ∙ drop-drop e (suc c) (e - suc c) lines (omega (arith, ge)) in
    let nothing : child_block 2 name (suc e) (drop (suc e) (splice e e (line ∷ []) lines)) ≡ none =
      ap (child_block 2 name (suc e)) rest
      ∙ child_block-end name (e - suc c) (suc c) (suc e) (drop (suc c) lines) (omega (arith, ge)) in
    ap is_some nothing

-- The heading of a section that was there is at most rewritten, and the lines behind it stay.
pub same_after :
    (lines : List Text) (section : CommunicationSection) (found : ℕ) (name : Text)
    → found < length lines
    → route_block_exists (ensure_block_section lines found section) found 2 name
      ≡ is_some (yaml_child_block_range lines found 2 name)
unfolding route_block_exists yaml_child_block_range ensure_block_section
same_after lines section found name h =
    if-keeps
      (λ (l : List Text).
        is_some (child_block 2 name (suc found) (drop (suc found) l))
        ≡ is_some (child_block 2 name (suc found) (drop (suc found) lines)))
      _ _ lines
      (ap (λ l. is_some (child_block 2 name (suc found) l)) (drop-splice_one found _ lines h)) refl

-- Without the heading there is no section, also when the heading is added at the end.
pub lines_none :
    (lines : List Text) (section : CommunicationSection)
    → find_index is_communication 0 lines ≡ none
    → section_from section false 0 lines ≡ none
unfolding section_from
lines_none lines section h =
    let (n, k) = section_from-skip section lines [] 0 0 h in
    ap (section_from section false 0) (sym (append-nil lines)) ∙ k

pub added_none :
    (lines : List Text) (section : CommunicationSection)
    → find_index is_communication 0 lines ≡ none
    → section_from section false 0 (with_heading lines (text "communication:") none).0 ≡ none
unfolding section_from lines_run
added_none lines section h =
    if-keeps (λ (xs : List Text). section_from section false 0 (xs ++ heading ∷ []) ≡ none) _
      (lines ++ [] ∷ []) lines
      (let (n, k) = section_from-skip section lines ([] ∷ heading ∷ []) 0 0 h in
        ap (section_from section false 0) (append_assoc lines ([] ∷ []) (heading ∷ [])) ∙ k)
      (let (n, k) = section_from-skip section lines (heading ∷ []) 0 0 h in k)
  where
    heading : Text
    heading = text "communication:"
