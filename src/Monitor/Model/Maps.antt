-- ===== src/Monitor/Model/Maps.antt =====
-- The maps of the monitor under `modify`, `ensure_key` and the shifting loop
-- (monitor/pr-monitor/src/model.ts).
use robotics_pacific_rim.Base.{
  ℕ, suc, ◌-◌, ◌≤◌, ◌≡◌, refl, ap, inl, inr, true, ◌||◌, List, [], ◌∷◌, arith, ltb, if◌then◌else◌,
  ltb→lt, Bool-cases, is_some, length, drop, length-drop, All, Text, eq_text, eq_text_iff, has_text,
}
use mathlib.Core.Option
use native.Mathlib.Nat.{zero-sub}
use robotics_pacific_rim.Base.Assoc.{
  Assoc, get, put, keys, HasDistinct, has-keys-put, put-HasDistinct,
}
use robotics_pacific_rim.Monitor.Model.State.{shift_while, modify, ensure_key}

-- The loop leaves the last `limit` elements.
pub shift_while-drop {ℓ} :
    {A : Type ℓ} (limit : ℕ) (xs : List A) → shift_while limit xs ≡ drop (length xs - limit) xs
unfolding shift_while
shift_while-drop limit [] = rw (zero-sub limit) refl
shift_while-drop limit (x ∷ xs) = elim (Bool-cases (ltb limit (length (x ∷ xs)))) [
  | inl more ↦
      let e : suc (length xs) - limit ≡ suc (length xs - limit) =
        omega (arith, ltb→lt limit (suc (length xs)) more) in
      rw (more, e) (shift_while-drop limit xs)
  | inr fits ↦ let e : suc (length xs) - limit ≡ 0 = ground arith in rw (fits, e) refl
]

pub length-shift_while {ℓ} :
    {A : Type ℓ} (limit : ℕ) (xs : List A) → length (shift_while limit xs) ≤ limit
length-shift_while limit xs =
    rw (shift_while-drop limit xs, length-drop (length xs - limit) xs) (omega arith)

module _ {ℓ} {V : Type ℓ} where
  pub keys-modify : (k : Text) (f : V → V) (m : Assoc V) → keys (modify k f m) ≡ keys m
  unfolding modify
  keys-modify k f [] = refl
  keys-modify k f ((j, v) ∷ m) = elim (Bool-cases (eq_text j k)) [
    | inl e ↦ rw e refl
    | inr e ↦ rw e (ap (λ ks. j ∷ ks) (keys-modify k f m))
  ]

  pub get-modify :
      (k j : Text) (f : V → V) (m : Assoc V)
      → get j (modify k f m) ≡ (if eq_text k j then Option.map f (get j m) else get j m)
  unfolding modify get
  get-modify k j f [] = ground arith
  get-modify k j f ((i, v) ∷ m) =
      ground (arith, eq_text_iff k j, eq_text_iff i k, eq_text_iff i j, get-modify k j f m)

  pub is_some-get : (k : Text) (m : Assoc V) → is_some (get k m) ≡ has_text k (keys m)
  unfolding get has_text
  is_some-get k [] = refl
  is_some-get k ((j, v) ∷ m) = ground (arith, is_some-get k m, eq_text_iff j k, eq_text_iff k j)

  pub ensure_key-HasDistinct :
      (k : Text) (v : V) (m : Assoc V)
      → HasDistinct (keys m)
      → HasDistinct (keys (ensure_key k v m))
  unfolding ensure_key
  ensure_key-HasDistinct k v m h = ground (arith, put-HasDistinct k v m h)

  -- The key is there, and no key is lost.
  pub has-keys-ensure :
      (k j : Text) (v : V) (m : Assoc V)
      → has_text j (keys (ensure_key k v m)) ≡ (eq_text j k || has_text j (keys m))
  unfolding ensure_key
  has-keys-ensure k j v m =
      ground (arith, has-keys-put k j v m, is_some-get k m, eq_text_iff j k, has_text_of_eq j k m)
    where
      has_text_of_eq :
          (j k : Text) (m : Assoc V)
          → eq_text j k ≡ true
          → has_text j (keys m) ≡ has_text k (keys m)
      has_text_of_eq j k m e = ap (λ t. has_text t (keys m)) ((eq_text_iff j k).0 e)

module _ {ℓ κ} {V : Type ℓ} (P : V → Type κ) where
  -- `P` of every value of a map.
  abbrev pub Values : Assoc V → Type κ
  Values m = All (λ e. P e.1) m

  pub put-Values : (k : Text) (v : V) (m : Assoc V) → P v → Values m → Values (put k v m)
  unfolding put
  put-Values k v [] p h = (p, tt)
  put-Values k v ((j, w) ∷ m) p (q, h) = elim (Bool-cases (eq_text j k)) [
    | inl e ↦ rw e (p, h)
    | inr e ↦ rw e (q, put-Values k v m p h)
  ]

  pub ensure_key-Values :
      (k : Text) (v : V) (m : Assoc V) → P v → Values m → Values (ensure_key k v m)
  unfolding ensure_key
  ensure_key-Values k v m p h = elim (Bool-cases (is_some (get k m))) [
    | inl e ↦ rw e h
    | inr e ↦ rw e (put-Values k v m p h)
  ]

  pub modify-Values :
      (k : Text) (f : V → V) (m : Assoc V)
      → ((v : V) → P v → P (f v))
      → Values m
      → Values (modify k f m)
  unfolding modify
  modify-Values k f [] keep h = tt
  modify-Values k f ((j, v) ∷ m) keep (p, h) = elim (Bool-cases (eq_text j k)) [
    | inl e ↦ rw e (keep v p, h)
    | inr e ↦ rw e (p, modify-Values k f m keep h)
  ]
