-- ===== src/Prelude/Order.antt =====
-- The order of Python's texts, by code points.
use mathlib.Core.Path.{◌≡◌, refl}
use mathlib.Core.Bool.{Bool, true, false, ◌&&◌, ◌||◌}
use mathlib.Core.List.{[], ◌∷◌}
use native.Mathlib.Omega.{arith}
use customer_service.Prelude.Tests.{ltb, ◌==◌}
use customer_service.Prelude.Text.{Text}

-- s < t
unfoldable pub before : Text → Text → Bool
before s [] = false
before [] (d ∷ t) = true
before (c ∷ s) (d ∷ t) = ltb c d || (c == d && before s t)

pub before_trans : (s t u : Text) → before s t ≡ false → before t u ≡ false → before s u ≡ false
unfolding before
before_trans s t [] h k = refl
before_trans [] (d ∷ t) u h k = absurd (ground (arith, h))
before_trans s [] (e ∷ u) h k = absurd (ground (arith, k))
before_trans (c ∷ s) (d ∷ t) (e ∷ u) h k = ground (arith, h, k, before_trans s t u)

pub before_irrefl : (s : Text) → before s s ≡ false
unfolding before
before_irrefl [] = refl
before_irrefl (c ∷ s) = ground (arith, before_irrefl s)

pub before-asym : (s t : Text) → before s t ≡ true → before t s ≡ false
unfolding before
before-asym [] (d ∷ t) h = refl
before-asym s [] h = absurd (ground (arith, h))
before-asym (c ∷ s) (d ∷ t) h = ground (arith, h, before-asym s t)
