-- ===== src/Base/Locale.antt =====
-- A concrete order on texts, by code units: a value for the locale's order, which is a parameter.
use mathlib.Core.Path.{◌≡◌, refl}
use mathlib.Core.Bool.{Bool, true, false, ◌&&◌, ◌||◌}
use mathlib.Core.List.{[], ◌∷◌}
use native.Mathlib.Omega.{arith}
use robotics_pacific_rim.Base.Tests.{ltb, ◌==◌}
use robotics_pacific_rim.Base.Strings.{Text}
use robotics_pacific_rim.Base.Sort.{IsOrder}

unfoldable pub lex_le : Text → Text → Bool
lex_le [] t = true
lex_le (c ∷ s) [] = false
lex_le (c ∷ s) (d ∷ t) = ltb c d || (c == d && lex_le s t)

lex_le_total : (s t : Text) → lex_le s t ≡ false → lex_le t s ≡ true
unfolding lex_le
lex_le_total [] t h = cc
lex_le_total (c ∷ s) [] h = refl
lex_le_total (c ∷ s) (d ∷ t) h = ground (arith, lex_le_total s t)

lex_le_trans : (s t u : Text) → lex_le s t ≡ true → lex_le t u ≡ true → lex_le s u ≡ true
unfolding lex_le
lex_le_trans [] t u h k = refl
lex_le_trans (c ∷ s) [] u h k = cc
lex_le_trans (c ∷ s) (d ∷ t) [] h k = cc
lex_le_trans (c ∷ s) (d ∷ t) (e ∷ u) h k = ground (arith, lex_le_trans s t u)

pub lex_le-IsOrder : IsOrder lex_le
lex_le-IsOrder = record { total = lex_le_total; trans = lex_le_trans }
