-- ===== src/Monitor/Screen/Editing.antt =====
-- Editing the filter (monitor/pr-monitor/src/index.ts).
use robotics_pacific_rim.Base.{
  ℕ, ◌-◌, ◌≡◌, refl, sym, ap, ◌∙◌, inl, inr, true, false, not, ◌&&◌, ◌||◌, none, List, [], ◌∷◌,
  ◌++◌, append-nil, arith, ◌==◌, Bool-cases, length, take, length-append, Text, text, eq_text, join,
}
use robotics_pacific_rim.Monitor.Types.{Host}
use robotics_pacific_rim.Monitor.Model.State.{MonitorModel}
use robotics_pacific_rim.Monitor.Screen.Keys.{
  KeyEvent, normalize_key_name, filter_key, code_points, drop_last, erase_last, is_high, is_low,
}

take-length-append {ℓ} : {A : Type ℓ} (xs ys : List A) → take (length xs) (xs ++ ys) ≡ xs
take-length-append [] [] = refl
take-length-append [] (y ∷ ys) = refl
take-length-append (x ∷ xs) ys = ap (λ zs. x ∷ zs) (take-length-append xs ys)

drop_last-snoc {ℓ} : {A : Type ℓ} (xs : List A) (x : A) → drop_last (xs ++ x ∷ []) ≡ xs
unfolding drop_last
drop_last-snoc xs x =
    let e : length (xs ++ x ∷ []) - 1 ≡ length xs = omega (arith, length-append xs (x ∷ [])) in
    rw e (take-length-append xs (x ∷ []))

join-cons : (x : Text) (xs : List Text) → join [] (x ∷ xs) ≡ x ++ join [] xs
unfolding join
join-cons x [] = sym (append-nil x)
join-cons x (y ∷ xs) = refl

-- No unit gets lost in the elements of a text.
join-code_points : (s : Text) → join [] (code_points s) ≡ s
unfolding code_points join
join-code_points [] = refl
join-code_points (c ∷ []) = refl
join-code_points (c ∷ d ∷ s) = elim (Bool-cases (is_high c && is_low d)) [
  | inl pair ↦
      rw pair (join-cons (c ∷ d ∷ []) (code_points s) ∙ ap (λ t. c ∷ d ∷ t) (join-code_points s))
  | inr single ↦
      rw single
        (join-cons (c ∷ []) (code_points (d ∷ s)) ∙ ap (λ t. c ∷ t) (join-code_points (d ∷ s)))
]

code_points-snoc :
    (s : Text) (c : ℕ)
    → is_low c ≡ false
    → code_points (s ++ c ∷ []) ≡ code_points s ++ (c ∷ []) ∷ []
unfolding code_points
code_points-snoc [] c low = refl
code_points-snoc (a ∷ []) c low =
    let e : (is_high a && is_low c) ≡ false = ground arith in rw e refl
code_points-snoc (a ∷ b ∷ s) c low = elim (Bool-cases (is_high a && is_low b)) [
  | inl pair ↦ rw pair (ap (λ cs. (a ∷ b ∷ []) ∷ cs) (code_points-snoc s c low))
  | inr single ↦ rw single (ap (λ cs. (a ∷ []) ∷ cs) (code_points-snoc (b ∷ s) c low))
]

erase_last-snoc : (s : Text) (c : ℕ) → is_low c ≡ false → erase_last (s ++ c ∷ []) ≡ s
unfolding erase_last
erase_last-snoc s c low =
    rw (code_points-snoc s c low, drop_last-snoc (code_points s) (c ∷ [])) (join-code_points s)

-- A key that types the unit `c`.
pub record TypesUnit (key : KeyEvent) (c : ℕ) : Type 0 where
  pub sequence : key.sequence ≡ c ∷ []
  pub plain : (key.ctrl || key.meta) ≡ false
  pub no_enter : eq_text (normalize_key_name key) (text "enter") ≡ false
  pub no_escape : eq_text (normalize_key_name key) (text "escape") ≡ false
  pub no_backspace : eq_text (normalize_key_name key) (text "backspace") ≡ false

-- While the filter is edited, a key that types a unit adds it, and backspace takes it away again,
-- unless the unit is the second half of a surrogate pair; the mode stays, and no line is selected.
pub filter_key-backspace :
    (host : Host) (typing back : KeyEvent) (c : ℕ) (m : MonitorModel host.Real)
    → TypesUnit typing c
    → normalize_key_name back ≡ text "backspace"
    → is_low c ≡ false
    → ((filter_key host typing m).filter_text ≡ m.filter_text ++ c ∷ [])
      × ((filter_key host back (filter_key host typing m)).filter_text ≡ m.filter_text)
      × ((filter_key host back (filter_key host typing m)).filter_input_mode ≡ m.filter_input_mode)
      × ((filter_key host back (filter_key host typing m)).selected_line ≡ none)
unfolding filter_key eq_text
filter_key-backspace host typing back c m t b low =
    let one : (length typing.sequence == 1) ≡ true = rw t.sequence refl in
    let plain : (not typing.ctrl && not typing.meta) ≡ true = ground (arith, t.plain) in
    rw (t.no_enter, t.no_escape, t.no_backspace, one, plain, t.sequence, b)
      (refl, erase_last-snoc m.filter_text c low, refl, refl)
