-- ===== src/Prelude/Text.antt =====
-- Python's `str` as its code points, with the methods that the program uses.
use Prim.Native.Nat.{ℕ}
use Prim.Native.Char.{code}
use Prim.Native.String.{String}
use mathlib.Core.Bool.{Bool, true, false, ◌&&◌, ◌||◌}
use mathlib.Core.Path.{◌≡◌, refl, ap, ◌∙◌}
use mathlib.Core.Logic.{◌⊎◌, inl, inr, ite}
use mathlib.Core.Option.{Option, none, some}
use mathlib.Core.List.{List, [], ◌∷◌, ◌++◌, reverse, reverse-append, reverse-reverse}
use native.Mathlib.Decide.{ℕ_discrete}
use customer_service.Prelude.Tests.{leb, ◌==◌, if◌then◌else◌, Bool-cases}

abbrev pub Text : Type 0
Text = List ℕ

-- a literal's code points
abbrev pub codes : String → Text
codes String.[] = []
codes (String.◌∷◌ c s) = code c ∷ codes s

unfoldable pub Text-discrete : Discrete Text
unfolding ℕ_discrete
Text-discrete = hlevel ℕ_discrete

-- the characters that `str.strip()` removes
unfoldable pub is_space : ℕ → Bool
is_space c =
    (leb 9 c && leb c 13)
    || ((leb 28 c && leb c 32)
        || (c == 133
            || (c == 160
                || (c == 5760
                    || ((leb 8192 c && leb c 8202)
                        || (c == 8232
                            || (c == 8233 || (c == 8239 || (c == 8287 || c == 12288)))))))))

unfoldable pub strip_left : Text → Text
unfolding is_space
strip_left [] = []
strip_left (c ∷ s) = if is_space c then strip_left s else c ∷ s

-- s.strip()
unfoldable pub strip : Text → Text
unfolding strip_left
strip s = reverse (strip_left (reverse (strip_left s)))

-- s or fallback
abbrev pub or_else : Text → Text → Text
or_else [] fallback = fallback
or_else (c ∷ s) fallback = c ∷ s

unfoldable pub starts_with : Text → Text → Bool
starts_with [] s = true
starts_with (c ∷ p) [] = false
starts_with (c ∷ p) (d ∷ s) = c == d && starts_with p s

-- s.endswith(suffix)
unfoldable pub ends_with : Text → Text → Bool
unfolding starts_with
ends_with suffix s = starts_with (reverse suffix) (reverse s)

-- part in s
unfoldable pub contains : Text → Text → Bool
unfolding starts_with
contains part [] = starts_with part []
contains part (c ∷ s) = starts_with part (c ∷ s) || contains part s

-- s.replace(a, b) for two characters
unfoldable pub replace : ℕ → ℕ → Text → Text
replace a b [] = []
replace a b (c ∷ s) = (if c == a then b else c) ∷ replace a b s

-- a == b
abbrev pub same : Text → Text → Bool
same a b = ite (Text-discrete a b) true false

-- text or "", and whether a text is not empty
abbrev pub text_of : Option Text → Text
text_of none = []
text_of (some t) = t

abbrev pub has_text : Text → Bool
has_text [] = false
has_text (_ ∷ _) = true

-- `sep.join(parts)`
unfoldable pub join : Text → List Text → Text
join sep [] = []
join sep (x ∷ []) = x
join sep (x ∷ (y ∷ ys)) = x ++ (sep ++ join sep (y ∷ ys))

strip_left-strip_left : (s : Text) → strip_left (strip_left s) ≡ strip_left s
unfolding strip_left
strip_left-strip_left [] = refl
strip_left-strip_left (c ∷ s) = elim (Bool-cases (is_space c)) [
  | inl e ↦ rw e (strip_left-strip_left s)
  | inr e ↦ rw e (rw e)
]

strip_left-last :
    (s : Text) (c : ℕ) → is_space c ≡ false → strip_left (s ++ c ∷ []) ≡ strip_left s ++ c ∷ []
unfolding strip_left
strip_left-last [] c h = rw h
strip_left-last (d ∷ s) c h = elim (Bool-cases (is_space d)) [
  | inl e ↦ rw e (strip_left-last s c h)
  | inr e ↦ rw e
]

-- what a left strip leaves is empty or begins with a character that is kept
strip_left-head :
    (s : Text)
    → (strip_left s ≡ []) ⊎ ((c : ℕ) × (t : Text) × (strip_left s ≡ c ∷ t) × (is_space c ≡ false))
unfolding strip_left
strip_left-head [] = inl refl
strip_left-head (c ∷ s) = elim (Bool-cases (is_space c)) [
  | inl e ↦ rw e (strip_left-head s)
  | inr e ↦ inr (c, s, rw e, e)
]

strip_left-strip : (s : Text) → strip_left (strip s) ≡ strip s
unfolding strip
strip_left-strip s = elim (strip_left-head s) [
  | inl e ↦ rw e (unfold strip_left in refl)
  | inr (c, t, e, h) ↦
      let front : reverse (strip_left (reverse (c ∷ t))) ≡ c ∷ reverse (strip_left (reverse t)) =
        ap (λ x. reverse (strip_left x)) (reverse-append (c ∷ []) t)
        ∙ ap reverse (strip_left-last (reverse t) c h)
        ∙ reverse-append (strip_left (reverse t)) (c ∷ []) in
      rw (e, front) (unfold strip_left in rw h)
]

-- s.strip().strip()
pub strip-strip : (s : Text) → strip (strip s) ≡ strip s
unfolding strip
strip-strip s =
    ap (λ x. reverse (strip_left (reverse x))) (strip_left-strip s)
    ∙ ap (λ x. reverse (strip_left x)) (reverse-reverse (strip_left (reverse (strip_left s))))
    ∙ ap reverse (strip_left-strip_left (reverse (strip_left s)))
