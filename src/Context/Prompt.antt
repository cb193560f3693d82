-- ===== src/Context/Prompt.antt =====
-- The history as a prompt shows it, and short questions made longer: `format_history_for_prompt`,
-- `expand_query` and `order_no_from_history` of app/context/window.py.
use customer_service.Prelude.{
  ℕ, ◌+◌, ◌-◌, ◌≤◌, ◌<◌, ◌≡◌, ◌⊎◌, inl, inr, max, Bool, true, false, Option, none, some, arith, leb,
  if◌then◌else◌, List, [], ◌∷◌, ◌++◌, reverse, length, take, Bool-cases,
}
use customer_service.Prelude.Text.{Text, codes, strip, text_of, has_text, join}
use customer_service.Policy.Types.{or_text, is_given, extract_query_order_no}
use customer_service.Context.Messages.{human, ai, Message, token_sum}
use customer_service.Context.Window.{
  Settings, history_limits, prompt_summary_line, prompt_summary_tokens, recent_messages,
  recent_human_texts,
}
use customer_service.Context.Window.Laws.{select_bounds}

-- the line of one message; messages of other kinds and blank ones have none
abbrev with_role : Text → Text → Option Text
with_role role [] = none
with_role role (c ∷ t) = some (role ++ (codes "：" ++ (c ∷ t)))

abbrev line_of : Message → Option Text
line_of m = elim m.kind [
  | human ↦ with_role (codes "用户") (strip m.content)
  | ai ↦ with_role (codes "助手") (strip m.content)
  | _ ↦ none
]

unfoldable pub lines_of : List Message → List Text
lines_of [] = []
lines_of (m ∷ ms) =
    let rest = lines_of ms in elim (line_of m) [ none ↦ rest | some line ↦ line ∷ rest ]

abbrev short_query_chars : ℕ
short_query_chars = 12

abbrev joined : Text → Text → Text
joined front text = if has_text text then strip (front ++ (codes " " ++ text)) else front

abbrev expanded : List Text → Text → Text
expanded [] text = text
expanded (p ∷ priors) text = joined (join (codes " ") (reverse (take 2 (p ∷ priors)))) text

-- `expand_query`
unfoldable pub expand_query : Text → List Message → Option Text → Option Text → Text
unfolding recent_human_texts join
expand_query query messages last_course_query last_course_name =
    let text = strip query in
    let course_hint = strip (text_of (or_text last_course_name last_course_query)) in
    if leb short_query_chars (length text)
    then text
    else if has_text course_hint
    then joined course_hint text
    else expanded (recent_human_texts messages true) text

-- the first text that names an order
unfoldable pub first_order_no : (ℕ → Bool) → List Text → Option Text
first_order_no is_digit [] = none
first_order_no is_digit (t ∷ ts) =
    let later = first_order_no is_digit ts in
    if is_given (extract_query_order_no is_digit t)
    then extract_query_order_no is_digit t
    else later

-- `order_no_from_history`; `extract_order_no` of app/services/order.py has the same expression
unfoldable pub order_no_from_history : (ℕ → Bool) → List Message → Option Text
unfolding first_order_no recent_human_texts
order_no_from_history is_digit messages =
    first_order_no is_digit (recent_human_texts messages false)

module _ (count_tokens : Text → ℕ) (cfg : Settings) where
  -- what is left for messages beside the summary; `max` makes up for a difference below 1
  unfoldable pub message_budget : Option ℕ → Option Text → Option ℕ
  unfolding prompt_summary_line prompt_summary_tokens history_limits
  message_budget token_budget summary =
      if has_text (prompt_summary_line summary)
      then some (
          max 1
            ((history_limits cfg token_budget none).0 - prompt_summary_tokens count_tokens summary))
      else token_budget

  -- the messages that the prompt shows
  unfoldable pub shown : List Message → Option ℕ → Option ℕ → Option Text → List Message
  unfolding recent_messages message_budget
  shown messages limit token_budget summary =
      recent_messages count_tokens cfg messages limit (message_budget token_budget summary) none

  -- `format_history_for_prompt`
  unfoldable pub format_history_for_prompt : List Message → Option ℕ → Option ℕ → Option Text → Text
  unfolding shown lines_of join
  format_history_for_prompt messages limit token_budget summary =
      let line = prompt_summary_line summary in
      join (10 ∷ []) (
        (if has_text line then line ∷ [] else [])
        ++ lines_of (shown messages limit token_budget summary))

  summary-free :
      (summary : Option Text)
      → has_text (prompt_summary_line summary) ≡ false
      → prompt_summary_tokens count_tokens summary ≡ 0
  unfolding prompt_summary_tokens
  summary-free summary h = ground (arith, h)

  -- As long as the summary itself leaves room in the token budget, the summary and the messages that
  -- a prompt shows beside it fit the budget together, unless no more than the wanted minimum of
  -- messages is shown.
  pub shown-within :
      (messages : List Message) (token_budget : Option ℕ) (summary : Option Text)
      → prompt_summary_tokens count_tokens summary < (history_limits cfg token_budget none).0
      → (prompt_summary_tokens count_tokens summary
            + token_sum count_tokens (shown messages none token_budget summary)
          ≤ (history_limits cfg token_budget none).0)
        ⊎ (length (shown messages none token_budget summary)
            ≤ (history_limits cfg token_budget none).1)
  unfolding shown recent_messages message_budget history_limits
  shown-within messages token_budget summary room =
      elim (Bool-cases (has_text (prompt_summary_line summary))) [
        | inl e ↦
            let rest = max 1 (
              (history_limits cfg token_budget none).0
              - prompt_summary_tokens count_tokens summary) in
            rw e (elim (select_bounds count_tokens cfg messages (some rest) none).1 [
              | inl h ↦ inl (omega (arith, h, room))
              | inr h ↦ inr h
            ])
        | inr e ↦ rw e (elim (select_bounds count_tokens cfg messages token_budget none).1 [
          | inl h ↦ inl (omega (arith, h, summary-free summary e))
          | inr h ↦ inr h
        ])
      ]
