-- ===== src/Policy/Types.antt =====
-- Intents, targets and decisions (app/schemas.py), and the order signals of app/agents/policy.py.
-- A confidence is a number of hundredths; only its order matters. Python's `\d` is an argument.
use customer_service.Prelude.{
  ℕ, ◌≤◌, ◌≡◌, refl, Bool, true, ◌&&◌, ◌||◌, Option, none, some, arith, leb, if◌then◌else◌, List,
  [], ◌∷◌, ◌++◌, length, any, all, Bool-cases, inl, inr,
}
use customer_service.Prelude.Text.{Text, codes, contains, text_of, has_text}

pub data Intent : Type 0 where
  course_consult order mixed ambiguous chitchat handoff : Intent

pub data RouteTarget : Type 0 where
  rag tool supervisor to_handoff to_chitchat : RouteTarget

-- `intent_to_target`
unfoldable pub intent_to_target : Intent → RouteTarget
intent_to_target course_consult = rag
intent_to_target order = tool
intent_to_target mixed = supervisor
intent_to_target ambiguous = supervisor
intent_to_target handoff = to_handoff
intent_to_target chitchat = to_chitchat

-- `RouteDecision`
pub record RouteDecision : Type 0 where
  pub intent : Intent
  pub target : RouteTarget
  pub confidence : ℕ
  pub order_no : Option Text
  pub course_query : Option Text
  pub needs_clarification : Bool
  pub clarification_question : Option Text
  pub reason : Text

-- a text that Python's `if` takes for true, and `a or b`
abbrev pub is_given : Option Text → Bool
is_given t = has_text (text_of t)

abbrev pub or_text : Option Text → Option Text → Option Text
or_text a b = if is_given a then a else b

-- `FORCE_ORDER_HINTS`
abbrev pub force_order_hints : List Text
force_order_hints = codes "订单" ∷ codes "退款" ∷ codes "物流" ∷ codes "单号" ∷ codes "查单" ∷ []

module _ (is_digit : ℕ → Bool) where
  -- `_ORDER_NO_RE.search`: all before the digits is optional in that expression, so its group is the
  -- first run of eight digits or more; `run` are the digits right before the rest
  unfoldable pub first_run : Text → Text → Option Text
  first_run run [] = if leb 8 (length run) then some run else none
  first_run run (c ∷ rest) =
      let longer = first_run (run ++ c ∷ []) rest in
      let later = first_run [] rest in
      if is_digit c then longer else if leb 8 (length run) then some run else later

  -- `extract_query_order_no`
  unfoldable pub extract_query_order_no : Text → Option Text
  extract_query_order_no text = first_run [] text

  -- `query_has_order_signal`
  unfoldable pub query_has_order_signal : Text → Bool
  query_has_order_signal text =
      is_given (extract_query_order_no text) || any (λ token. contains token text) force_order_hints

  all-append : (xs ys : Text) → all is_digit (xs ++ ys) ≡ (all is_digit xs && all is_digit ys)
  all-append [] ys = refl
  all-append (x ∷ xs) ys = ground (arith, all-append xs ys)

  first_run-digits :
      (run rest number : Text)
      → all is_digit run ≡ true
      → first_run run rest ≡ some number
      → (8 ≤ length number) × (all is_digit number ≡ true)
  unfolding first_run
  first_run-digits run [] number h e = elim (Bool-cases (leb 8 (length run))) [
    | inl p ↦
        (let e' = rw p at e in let q : run ≡ number = ground arith in rw (← q) (ground arith, h))
    | inr p ↦ cc (rw p at e)
  ]
  first_run-digits run (c ∷ rest) number h e = elim (Bool-cases (is_digit c)) [
    | inl d ↦ first_run-digits (run ++ c ∷ []) rest number (rw (all-append, h, d) refl) (rw d at e)
    | inr d ↦ elim (Bool-cases (leb 8 (length run))) [
      | inl p ↦
          (let e' = rw (d, p) at e in
            let q : run ≡ number = ground arith in rw (← q) (ground arith, h))
      | inr p ↦ first_run-digits [] rest number refl (rw (d, p) at e)
    ]
  ]

  -- The number that a question is found to name has at least eight characters, all of them digits.
  pub extract_query_order_no-digits :
      (text number : Text)
      → extract_query_order_no text ≡ some number
      → (8 ≤ length number) × (all is_digit number ≡ true)
  unfolding extract_query_order_no
  extract_query_order_no-digits text number e = first_run-digits [] text number refl e
