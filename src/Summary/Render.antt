-- ===== src/Summary/Render.antt =====
-- The loop of `render` of app/context/summary/facts.py, and the length of what it gives.
use customer_service.Prelude.{
  ℕ, zero, suc, ◌-◌, ◌≤◌, ◌<◌, ◌≡◌, refl, ap, max, true, false, Option, some, arith, leb, ◌==◌,
  List, [], ◌∷◌, length, length-drop, Bool-cases, Option-cases, inl, inr,
}
use customer_service.Prelude.Text.{Text}
use customer_service.Context.Window.{last_n}
use customer_service.Policy.Slots.{SessionSlots}
use customer_service.Summary.{
  StructuredSummary, has_spare, rest, resolve_summary_max_chars, resolve, has_content, lines,
  shorter, shrink, facts, render, finalize_structured,
}

pub length-last_n : {A : Type 0} (n : ℕ) (xs : List A) → 0 < n → length (last_n n xs) ≤ n
unfolding last_n
length-last_n n xs pos =
    (let e : (n == 0) ≡ false = ground arith in
      rw e (omega (arith, length-drop (length xs - n) xs)))

length-rest : (xs : List Text) → has_spare xs ≡ true → length (rest xs) < length xs
length-rest [] h = absurd (ground arith)
length-rest (x ∷ xs) h = omega arith

carried : (a s s' : StructuredSummary) → some a ≡ some s' → facts a < facts s → facts s' < facts s
carried a s s' e h = (let q : a ≡ s' = ground arith in let k = ap facts q in omega arith)

shorter-facts : (s s' : StructuredSummary) → shorter s ≡ some s' → facts s' < facts s
unfolding shorter
shorter-facts s s' e = elim (Bool-cases (has_spare s.confirmed)) [
  | inl a ↦
      carried (record s { confirmed = rest s.confirmed }) s s' (rw a at e)
        (omega (arith, length-rest s.confirmed a))
  | inr a ↦ elim (Bool-cases (has_spare s.pending)) [
    | inl b ↦
        carried (record s { pending = rest s.pending }) s s' (rw (a, b) at e)
          (omega (arith, length-rest s.pending b))
    | inr b ↦ elim (Bool-cases (has_spare s.orders)) [
      | inl c ↦
          carried (record s { orders = rest s.orders }) s s' (rw (a, b, c) at e)
            (omega (arith, length-rest s.orders c))
      | inr c ↦ elim (Bool-cases (has_spare s.courses)) [
        | inl d ↦
            carried (record s { courses = rest s.courses }) s s' (rw (a, b, c, d) at e)
              (omega (arith, length-rest s.courses d))
        | inr d ↦ cc (rw (a, b, c, d) at e)
      ]
    ]
  ]
]

-- what a loop that ends within the limit gives
abbrev pub IsWithin : ℕ → Option Text → Type 0
IsWithin limit o = (text : Text) × (o ≡ some text) × (length text ≤ limit)

shrink-IsWithin :
    (fuel limit : ℕ) (s : StructuredSummary)
    → facts s < fuel
    → 0 < limit
    → IsWithin limit (shrink fuel limit s)
unfolding shrink
shrink-IsWithin zero limit s more pos = absurd (omega arith)
shrink-IsWithin (suc fuel) limit s more pos = elim (Bool-cases (leb (length (lines s)) limit)) [
  | inl e ↦ rw e (lines s, refl, ground arith)
  | inr e ↦ elim (Option-cases (shorter s)) [
    | inl f ↦ rw (e, f) (last_n limit (lines s), refl, length-last_n limit (lines s) pos)
    | inr (s', f) ↦
        rw (e, f) (shrink-IsWithin fuel limit s' (omega (arith, shorter-facts s s' f)) pos)
  ]
]

-- Under a limit the summary is rendered whatever it holds: the loop that drops facts ends, and the
-- text that is kept is no longer than the limit, which is never below 80.
pub finalize_structured-IsWithin :
    (setting max_chars : ℕ) (s : StructuredSummary) (slots : Option SessionSlots)
    → IsWithin (max 80 max_chars) (finalize_structured setting s slots (some max_chars))
unfolding finalize_structured render resolve_summary_max_chars
finalize_structured-IsWithin setting max_chars s slots =
    elim (Bool-cases (has_content (resolve s slots))) [
      | inl e ↦ rw e (
          shrink-IsWithin (suc (facts (resolve s slots))) (max 80 max_chars) (resolve s slots)
            (omega arith) (omega arith))
      | inr e ↦ rw e ([], refl, omega arith)
    ]
