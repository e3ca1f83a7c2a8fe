-- ===== src/Base/Assoc.antt =====
-- A JavaScript `Map` or object with string keys: entries in insertion order, each key once.
use mathlib.Core.Path.{◌≡◌, refl}
use mathlib.Core.Bool.{false, ◌||◌}
use mathlib.Core.Option.{Option, none, some}
use mathlib.Core.List.{List, [], ◌∷◌}
use native.Mathlib.Omega.{arith}
use robotics_pacific_rim.Base.Tests.{if◌then◌else◌}
use robotics_pacific_rim.Base.Strings.{Text, eq_text, eq_text_iff, has_text}

abbrev pub Assoc {ℓ} : Type ℓ → Type ℓ
Assoc V = List (Text × V)

module _ {ℓ} {V : Type ℓ} where
  -- `map.get(key)`.
  unfoldable pub get : Text → Assoc V → Option V
  get k [] = none
  get k ((j, v) ∷ m) = if eq_text j k then some v else get k m

  -- `map.set(key, value)`: an old key keeps its place, a new one comes last.
  unfoldable pub put : Text → V → Assoc V → Assoc V
  put k v [] = (k, v) ∷ []
  put k v ((j, w) ∷ m) = if eq_text j k then (j, v) ∷ m else (j, w) ∷ put k v m

  abbrev pub keys : Assoc V → List Text
  keys [] = []
  keys ((k, v) ∷ m) = k ∷ keys m

  abbrev pub values : Assoc V → List V
  values [] = []
  values ((k, v) ∷ m) = v ∷ values m

  pub get-put :
      (k j : Text) (v : V) (m : Assoc V)
      → get j (put k v m) ≡ (if eq_text k j then some v else get j m)
  unfolding get put
  get-put k j v [] = refl
  get-put k j v ((i, w) ∷ m) =
      ground (arith, eq_text_iff k j, eq_text_iff i k, eq_text_iff i j, get-put k j v m)

  -- Writing a key adds it to the keys, and loses none.
  pub has-keys-put :
      (k j : Text) (v : V) (m : Assoc V)
      → has_text j (keys (put k v m)) ≡ (eq_text j k || has_text j (keys m))
  unfolding put has_text
  has-keys-put k j v [] = ground (arith, eq_text_iff j k)
  has-keys-put k j v ((i, w) ∷ m) =
      ground (arith, eq_text_iff j k, eq_text_iff i k, eq_text_iff j i, has-keys-put k j v m)

-- No key stands twice.
abbrev pub HasDistinct : List Text → Type 0
HasDistinct [] = Unit
HasDistinct (t ∷ ts) = (has_text t ts ≡ false) × HasDistinct ts

module _ {ℓ} {V : Type ℓ} where
  pub put-HasDistinct :
      (k : Text) (v : V) (m : Assoc V) → HasDistinct (keys m) → HasDistinct (keys (put k v m))
  unfolding put has_text
  put-HasDistinct k v [] h = (refl, tt)
  put-HasDistinct k v ((i, w) ∷ m) h =
      ground (arith, eq_text_iff i k, has-keys-put k i v m, put-HasDistinct k v m)
