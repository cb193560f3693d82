-- ===== src/Context/Window.antt =====
-- The window of recent messages, app/context/window.py. The token counter is a parameter: it calls
-- tiktoken, with the byte count as a fallback.
pub mod Pick
pub mod Laws
use customer_service.Prelude.{
  ℕ, zero, suc, ◌+◌, ◌-◌, max, Bool, true, false, ◌&&◌, not, Option, none, some, ltb, leb, ◌==◌,
  if◌then◌else◌, List, [], ◌∷◌, ◌++◌, map, reverse, length, take, drop,
}
use customer_service.Prelude.Text.{Text, codes, strip, or_else}
use customer_service.Context.Messages.{Kind, human, ai, Message, is_human, message_token_count}

-- the settings that the window reads
pub record Settings : Type 0 where
  pub history_token_budget : ℕ
  pub history_min_messages : ℕ

abbrev given : Option ℕ → ℕ → ℕ
given none default = default
given (some n) default = n

-- `history_limits`: each limit is at least 1
unfoldable pub history_limits : Settings → Option ℕ → Option ℕ → ℕ × ℕ
history_limits cfg token_budget min_keep = (
  max 1 (given token_budget cfg.history_token_budget),
  max 1 (given min_keep cfg.history_min_messages),
)

-- `SUMMARY_PROMPT_PREFIX`
abbrev pub summary_prompt_prefix : Text
summary_prompt_prefix = codes "更早对话摘要："

abbrev text_of : Option Text → Text
text_of none = []
text_of (some t) = t

abbrev prefixed : Text → Text
prefixed [] = []
prefixed (c ∷ t) = summary_prompt_prefix ++ (c ∷ t)

-- `prompt_summary_line`
unfoldable pub prompt_summary_line : Option Text → Text
unfolding strip
prompt_summary_line summary = prefixed (strip (text_of summary))

-- `messages[-n:]`: with `n` 0 Python's slice is the whole list
unfoldable pub last_n {ℓ} : {A : Type ℓ} → ℕ → List A → List A
last_n n xs = if n == 0 then xs else drop (length xs - n) xs

abbrev is_empty {ℓ} : {A : Type ℓ} → List A → Bool
is_empty [] = true
is_empty (_ ∷ _) = false

-- `recent_human_texts`: the texts of the user's messages, newest first
unfoldable pub human_texts : List Message → List Text
human_texts [] = []
human_texts (m ∷ ms) =
    let rest = human_texts ms in if is_human m.kind then m.content ∷ rest else rest

-- `items[:-1]`
unfoldable pub without_last {ℓ} : {A : Type ℓ} → List A → List A
without_last xs = take (length xs - 1) xs

unfoldable pub recent_human_texts : List Message → Bool → List Text
unfolding human_texts without_last
recent_human_texts messages exclude_last =
    let items = human_texts messages in reverse (if exclude_last then without_last items else items)

module _ (count_tokens : Text → ℕ) where
  -- `prompt_summary_tokens`
  unfoldable pub prompt_summary_tokens : Option Text → ℕ
  unfolding prompt_summary_line
  prompt_summary_tokens summary =
      let line = prompt_summary_line summary in if is_empty line then 0 else count_tokens line

  -- the loop of `select_messages_by_tokens`, over the messages from the newest on
  unfoldable pub select_loop : ℕ → ℕ → List Message → List Message → ℕ → List Message
  unfolding message_token_count
  select_loop budget keep [] selected total = selected
  select_loop budget keep (m ∷ ms) selected total =
      let cost = message_token_count count_tokens m in
      let rest = select_loop budget keep ms (selected ++ m ∷ []) (total + cost) in
      if not (is_empty selected) && (ltb budget (total + cost) && leb keep (length selected))
      then selected
      else rest

  module _ (cfg : Settings) where
    -- `select_messages_by_tokens`
    unfoldable pub select_messages_by_tokens : List Message → Option ℕ → Option ℕ → List Message
    unfolding history_limits select_loop
    select_messages_by_tokens [] token_budget min_keep = []
    select_messages_by_tokens (m ∷ ms) token_budget min_keep =
        let (budget, keep) = history_limits cfg token_budget min_keep in
        reverse (select_loop budget keep (reverse (m ∷ ms)) [] 0)

    -- `recent_messages`; a negative limit is as no limit
    unfoldable pub recent_messages : List Message → Option ℕ → Option ℕ → Option ℕ → List Message
    unfolding last_n select_messages_by_tokens
    recent_messages messages none token_budget min_keep =
        select_messages_by_tokens messages token_budget min_keep
    recent_messages messages (some limit) token_budget min_keep =
        last_n limit (select_messages_by_tokens messages token_budget min_keep)

    -- `overflow_messages`
    unfoldable pub overflow_messages : List Message → Option ℕ → Option ℕ → List Message
    unfolding select_messages_by_tokens
    overflow_messages messages token_budget min_keep =
        let selected = select_messages_by_tokens messages token_budget min_keep in
        if leb (length messages) (length selected)
        then []
        else take (length messages - length selected) messages

    -- the ids of the messages that have one
    unfoldable pub ids : List Message → List Text
    ids [] = []
    ids (m ∷ ms) = let rest = ids ms in elim m.id [ none ↦ rest | some i ↦ i ∷ rest ]

    -- `trim_message_updates`: the ids of its `RemoveMessage`s
    unfoldable pub trim_message_updates : List Message → Option ℕ → Option ℕ → Option ℕ → List Text
    unfolding overflow_messages ids
    trim_message_updates messages keep token_budget min_keep =
        ids (
          overflow_messages messages token_budget (elim keep [ none ↦ min_keep | some k ↦ some k ]))
