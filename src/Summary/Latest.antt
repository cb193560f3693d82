-- ===== src/Summary/Latest.antt =====
-- Which facts the loops of app/context/summary/facts.py leave, of those that yield to a later one.
use customer_service.Prelude.{
  ◌≡◌, refl, sym, ap, ◌∙◌, Bool, true, false, ◌&&◌, ◌||◌, not, arith, if◌then◌else◌, List, [], ◌∷◌,
  ◌++◌, keep_if, Bool-cases, inl, inr,
}
use mathlib.Core.List.{append_assoc}
use customer_service.Prelude.Text.{Text, strip, same, has_text}
use customer_service.Summary.{prepend_loop, gives_way, exclusive_loop}

module _ (yields : Text → Text → Bool) where
  -- an entry of the list that is not blank has the text give way
  unfoldable pub is_replaced : Text → List Text → Bool
  is_replaced text [] = false
  is_replaced text (item ∷ items) =
      (has_text (strip item) && yields (strip item) text) || is_replaced text items

  unfoldable pub survivors : List Text → List Text
  unfolding is_replaced
  survivors [] = []
  survivors (item ∷ items) =
      let rest = survivors items in
      if has_text (strip item) && not (is_replaced (strip item) items)
      then strip item ∷ rest
      else rest

  unfoldable pub left_over : List Text → List Text → List Text
  unfolding survivors
  left_over existing items = keep_if (λ x. not (is_replaced x items)) existing ++ survivors items

  keep_if-keep_if :
      (p q r : Text → Bool) (xs : List Text)
      → ((x : Text) → r x ≡ (p x && q x))
      → keep_if q (keep_if p xs) ≡ keep_if r xs
  keep_if-keep_if p q r [] h = refl
  keep_if-keep_if p q r (x ∷ xs) h = rw (h x) (ground (arith, keep_if-keep_if p q r xs h))

  keep_if-append :
      (p : Text → Bool) (xs ys : List Text) → keep_if p (xs ++ ys) ≡ keep_if p xs ++ keep_if p ys
  keep_if-append p [] ys = refl
  keep_if-append p (x ∷ xs) ys = ground (arith, keep_if-append p xs ys)

  left_over-nil : (out : List Text) → left_over out [] ≡ out
  unfolding left_over
  left_over-nil [] = refl
  left_over-nil (x ∷ out) = ap (◌∷◌ x) (left_over-nil out)

  left_over-blank :
      (out : List Text) (item : Text) (items : List Text)
      → has_text (strip item) ≡ false
      → left_over out (item ∷ items) ≡ left_over out items
  unfolding left_over
  left_over-blank out item items e = rw e refl

  -- an entry that is taken
  left_over-taken :
      (out : List Text) (item : Text) (items : List Text)
      → has_text (strip item) ≡ true
      → left_over (keep_if (λ x. not (yields (strip item) x)) out ++ strip item ∷ []) items
        ≡ left_over out (item ∷ items)
  unfolding left_over
  left_over-taken out item items e =
      ap (λ l. l ++ survivors items)
        (keep_if-append (λ x. not (is_replaced x items))
            (keep_if (λ x. not (yields (strip item) x)) out) (strip item ∷ [])
          ∙ ap (λ l. l ++ keep_if (λ x. not (is_replaced x items)) (strip item ∷ []))
              (keep_if-keep_if (λ x. not (yields (strip item) x)) (λ x. not (is_replaced x items))
                (λ x. not (is_replaced x (item ∷ items))) out (λ x. rw e (ground arith))))
      ∙ append_assoc (keep_if (λ x. not (is_replaced x (item ∷ items))) out) _ (survivors items)
      ∙ ap (keep_if (λ x. not (is_replaced x (item ∷ items))) out ++◌) last
    where
      last :
          keep_if (λ x. not (is_replaced x items)) (strip item ∷ []) ++ survivors items
          ≡ survivors (item ∷ items)
      last = rw e (ground arith)

pub exclusive_loop-left_over :
    (labels out : List Text) → exclusive_loop out labels ≡ left_over gives_way out labels
unfolding exclusive_loop
exclusive_loop-left_over [] out = sym (left_over-nil gives_way out)
exclusive_loop-left_over (item ∷ labels) out = elim (Bool-cases (has_text (strip item))) [
  | inl e ↦ rw e (exclusive_loop-left_over labels _ ∙ left_over-taken gives_way out item labels e)
  | inr e ↦
      rw e (exclusive_loop-left_over labels out ∙ sym (left_over-blank gives_way out item labels e))
]

abbrev pub repeats : Text → Text → Bool
repeats text x = same x text

pub prepend_loop-left_over :
    (incoming out : List Text) → prepend_loop out incoming ≡ left_over repeats out incoming
unfolding prepend_loop
prepend_loop-left_over [] out = sym (left_over-nil repeats out)
prepend_loop-left_over (item ∷ incoming) out = elim (Bool-cases (has_text (strip item))) [
  | inl e ↦ rw e (prepend_loop-left_over incoming _ ∙ left_over-taken repeats out item incoming e)
  | inr e ↦
      rw e (prepend_loop-left_over incoming out ∙ sym (left_over-blank repeats out item incoming e))
]
