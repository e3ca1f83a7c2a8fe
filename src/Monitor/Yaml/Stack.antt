-- ===== src/Monitor/Yaml/Stack.antt =====
-- The stack of open containers (monitor/pr-monitor/src/yaml.ts).
use robotics_pacific_rim.Base.{
  ℕ, ◌≡◌, refl, ◌∙◌, inl, inr, Bool, true, false, Option, none, some, List, [], ◌∷◌, map, arith,
  ltb, Bool-cases,
}
use robotics_pacific_rim.Monitor.Yaml.Parse.{
  Container, mapping, sequence, Slot, at_key, at_end, Frame, plug, closes, pop_while, pop_all,
}

abbrev pub is_mapping : Container → Bool
is_mapping (mapping o) = true
is_mapping (sequence a) = false

-- The first indent is deeper than the second; the root's indent is above all.
abbrev pub is_deeper : Option ℕ → Option ℕ → Bool
is_deeper none outer = false
is_deeper (some i) none = true
is_deeper (some i) (some j) = ltb j i

-- The root mapping is at the bottom, and each container is deeper than the one that it is in.
abbrev pub IsStack : List Frame → Type 0
IsStack [] = ⊥
IsStack (f ∷ []) = (f.indent ≡ none) × (is_mapping f.value ≡ true)
IsStack (f ∷ g ∷ fs) = (is_deeper f.indent g.indent ≡ true) × IsStack (g ∷ fs)

-- There is a top, and a line of this indent is inside it.
abbrev pub IsInside : ℕ → List Frame → Type 0
IsInside indent [] = ⊥
IsInside indent (f ∷ fs) = closes indent f ≡ false

pub replace_top :
    (f f' : Frame) (fs : List Frame)
    → f'.indent ≡ f.indent
    → is_mapping f'.value ≡ is_mapping f.value
    → IsStack (f ∷ fs)
    → IsStack (f' ∷ fs)
replace_top f f' [] i m (root, map) = (i ∙ root, m ∙ map)
replace_top f f' (g ∷ fs) i m (deeper, rest) = (rw i deeper, rest)

plug-same :
    (child parent : Frame)
    → ((plug child parent).indent ≡ parent.indent)
      × (is_mapping (plug child parent).value ≡ is_mapping parent.value)
unfolding plug
plug-same child parent = go parent.slot parent.value refl refl
  where
    go :
        (slot : Slot) (value : Container)
        → parent.slot ≡ slot
        → parent.value ≡ value
        → ((plug child parent).indent ≡ parent.indent)
          × (is_mapping (plug child parent).value ≡ is_mapping parent.value)
    go (at_key key) (mapping o) s v = rw (s, v) (refl, refl)
    go (at_key key) (sequence a) s v = rw (s, v) (refl, refl)
    go at_end (mapping o) s v = rw (s, v) (refl, refl)
    go at_end (sequence a) s v = rw (s, v) (refl, refl)

pop_while-IsStack :
    (indent : ℕ) (f : Frame) (fs : List Frame)
    → IsStack (f ∷ fs)
    → IsStack (pop_while indent f fs) × IsInside indent (pop_while indent f fs)
unfolding pop_while
pop_while-IsStack indent f [] (root, map) =
    let e : closes indent f ≡ false = rw root refl in rw e ((root, map), e)
pop_while-IsStack indent f (g ∷ fs) (deeper, rest) = elim (Bool-cases (closes indent f)) [
  | inl e ↦
      let (same_indent, same_kind) = plug-same f g in
      rw e (
        pop_while-IsStack indent (plug f g) fs
          (replace_top g (plug f g) fs same_indent same_kind rest))
  | inr e ↦ rw e ((deeper, rest), e)
]

pub pop_all-IsStack :
    (indent : ℕ) (stack : List Frame)
    → IsStack stack
    → IsStack (pop_all indent stack) × IsInside indent (pop_all indent stack)
unfolding pop_all
pop_all-IsStack indent [] s = absurd s
pop_all-IsStack indent (f ∷ fs) s = pop_while-IsStack indent f fs s

pub inside-deeper :
    (indent : ℕ) (f : Frame) → closes indent f ≡ false → is_deeper (some indent) f.indent ≡ true
inside-deeper indent f h = go f.indent refl
  where
    go : (i : Option ℕ) → f.indent ≡ i → is_deeper (some indent) f.indent ≡ true
    go none e = rw e refl
    go (some i) e = let h' = rw e at h in rw e (ground arith)
