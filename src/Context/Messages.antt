-- ===== src/Context/Messages.antt =====
-- The messages of a conversation, as app/context reads the message classes of langchain_core.
use customer_service.Prelude.{
  ℕ, ◌+◌, ◌≡◌, refl, ap, ◌∙◌, Option, arith, List, [], ◌∷◌, ◌++◌, reverse, Bool, true, false,
}
use mathlib.Core.List.{reverse-append}
use customer_service.Prelude.Text.{Text}

pub data Kind : Type 0 where
  human ai system other : Kind

pub record Message : Type 0 where
  pub kind : Kind
  pub content : Text
  pub id : Option Text

abbrev pub is_human : Kind → Bool
is_human human = true
is_human _ = false

abbrev pub is_ai : Kind → Bool
is_ai ai = true
is_ai _ = false

abbrev pub is_system : Kind → Bool
is_system system = true
is_system _ = false

-- `MESSAGE_TOKEN_OVERHEAD`
abbrev pub message_token_overhead : ℕ
message_token_overhead = 4

-- the token counter of app/context/window.py, which calls tiktoken, is a parameter
module _ (count_tokens : Text → ℕ) where
  -- `message_token_count`
  unfoldable pub message_token_count : Message → ℕ
  message_token_count m = count_tokens m.content + message_token_overhead

  -- `sum(message_token_count(m) for m in messages)`
  unfoldable pub token_sum : List Message → ℕ
  token_sum [] = 0
  token_sum (m ∷ ms) = message_token_count m + token_sum ms

  pub token_sum-append : (xs ys : List Message) → token_sum (xs ++ ys) ≡ token_sum xs + token_sum ys
  unfolding token_sum
  token_sum-append [] ys = omega arith
  token_sum-append (x ∷ xs) ys = omega (arith, token_sum-append xs ys)

  pub token_sum-reverse : (xs : List Message) → token_sum (reverse xs) ≡ token_sum xs
  unfolding token_sum
  token_sum-reverse [] = refl
  token_sum-reverse (x ∷ xs) =
      ap token_sum (reverse-append (x ∷ []) xs)
      ∙ omega (arith, token_sum-append (reverse xs) (x ∷ []), token_sum-reverse xs)
