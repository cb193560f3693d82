-- ===== src/Prelude/Colons.antt =====
-- Texts that colons join, and how they come apart again.
use Prim.Native.Nat.{ℕ}
use mathlib.Core.Path.{◌≡◌, refl, sym, ap, ap₂, subst}
use mathlib.Core.Logic.{inl, inr}
use mathlib.Core.Bool.{false}
use mathlib.Core.List.{[], ◌∷◌, ◌++◌}
use native.Mathlib.Omega.{arith}
use customer_service.Prelude.Tests.{◌==◌, Bool-cases}
use customer_service.Prelude.Lists.{All}
use customer_service.Prelude.Text.{Text, replace}

-- no colon stands in a text
abbrev pub IsPlain : Text → Type 0
IsPlain t = All (λ c. c == b':' ≡ false) t

pub replace-IsPlain : (t : Text) → IsPlain (replace b':' b'_' t)
unfolding replace
replace-IsPlain [] = tt
replace-IsPlain (c ∷ t) = elim (Bool-cases (c == b':')) [
  | inl e ↦ rw e (refl, replace-IsPlain t)
  | inr e ↦ rw e (e, replace-IsPlain t)
]

abbrev head_of : ℕ → Text → ℕ
head_of n [] = n
head_of n (c ∷ t) = c

abbrev tail_of : Text → Text
tail_of [] = []
tail_of (c ∷ t) = t

-- a text is read up to its first colon in one way only
pub first_colon :
    (a b s t : Text) → IsPlain a → IsPlain b → a ++ b':' ∷ s ≡ b ++ b':' ∷ t → (a ≡ b) × (s ≡ t)
first_colon [] [] s t p q e = (refl, ap tail_of e)
first_colon [] (d ∷ b) s t p q e = absurd (ground (arith, ap (head_of 0) e, q.0))
first_colon (c ∷ a) [] s t p q e = absurd (ground (arith, ap (head_of 0) e, p.0))
first_colon (c ∷ a) (d ∷ b) s t p q e =
    let (h, k) = first_colon a b s t p.1 q.1 (ap tail_of e) in
    (ap₂ (λ x y. x ∷ y) (ap (head_of 0) e) h, k)

not_plain : (b t : Text) → IsPlain (b ++ b':' ∷ t) → ⊥
not_plain [] t h = ground (arith, h.0)
not_plain (d ∷ b) t h = not_plain b t h.1

-- and behind its last one
pub last_colon :
    (a b s t : Text) → IsPlain s → IsPlain t → a ++ b':' ∷ s ≡ b ++ b':' ∷ t → (a ≡ b) × (s ≡ t)
last_colon [] [] s t p q e = (refl, ap tail_of e)
last_colon [] (d ∷ b) s t p q e = absurd (not_plain b t (subst IsPlain (ap tail_of e) p))
last_colon (c ∷ a) [] s t p q e = absurd (not_plain a s (subst IsPlain (sym (ap tail_of e)) q))
last_colon (c ∷ a) (d ∷ b) s t p q e =
    let (h, k) = last_colon a b s t p q (ap tail_of e) in
    (ap₂ (λ x y. x ∷ y) (ap (head_of 0) e) h, k)

pub append-cancel : (a s t : Text) → a ++ s ≡ a ++ t → s ≡ t
append-cancel [] s t e = e
append-cancel (c ∷ a) s t e = append-cancel a s t (ap tail_of e)
