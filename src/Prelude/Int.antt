-- ===== src/Prelude/Int.antt =====
-- Python's `int`, and what the program does with positions that may be negative.
use Prim.Native.Nat.{ℕ, suc, ◌+◌, ◌-◌}
use mathlib.Core.Bool.{Bool}
use native.Mathlib.Decide.{ℕ_discrete}
use customer_service.Prelude.Tests.{ltb, leb, if◌then◌else◌}

-- `negsuc n` is -1 - n
pub data ℤ : Type 0 where
  pos : ℕ → ℤ
  negsuc : ℕ → ℤ

unfoldable pub ℤ_discrete : Discrete ℤ
unfolding ℕ_discrete
ℤ_discrete = hlevel ℕ_discrete

abbrev pub pos_part : ℤ → ℕ
pos_part (pos n) = n
pos_part (negsuc n) = 0

abbrev pub neg_part : ℤ → ℕ
neg_part (pos n) = 0
neg_part (negsuc n) = suc n

-- a - b of two counts
abbrev pub sub_ℕ : ℕ → ℕ → ℤ
sub_ℕ a b = if leb b a then pos (a - b) else negsuc (b - a - 1)

-- abs(a - b), and a < b
abbrev pub distance_of : ℕ → ℕ → ℕ
distance_of a b = if leb b a then a - b else b - a

unfoldable pub distance : ℤ → ℤ → ℕ
distance a b = distance_of (pos_part a + neg_part b) (pos_part b + neg_part a)

unfoldable pub lt_int : ℤ → ℤ → Bool
lt_int a b = ltb (pos_part a + neg_part b) (pos_part b + neg_part a)
