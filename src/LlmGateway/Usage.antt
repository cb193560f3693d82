-- ===== src/LlmGateway/Usage.antt =====
-- What a call is charged: `_usage_from_message` and `_estimate_usage` of app/llm_gateway/gateway.py,
-- and the usage of one turn, `begin_turn_usage`, `take_turn_usage` and `_record_turn_step`, whose
-- context variable is a value that is passed on. Token counts are natural numbers.
use customer_service.Prelude.{
  ℕ, ◌+◌, ◌<◌, ◌≡◌, refl, Bool, false, Option, none, some, arith, ◌==◌, if◌then◌else◌, List, [],
  ◌∷◌, ◌++◌,
}
use customer_service.Prelude.Text.{Text}
use customer_service.LlmGateway.Stores.{TokenUsage, no_usage, normalized}

-- the dictionary of counts that a message carries, under both spellings; a missing count is `none`
pub record Counts : Type 0 where
  pub input_tokens : Option ℕ
  pub prompt_tokens : Option ℕ
  pub output_tokens : Option ℕ
  pub completion_tokens : Option ℕ
  pub total_tokens : Option ℕ

-- `a or b` of two counts, and `int(a or b)` with a number as the last resort
abbrev pub or_count : Option ℕ → Option ℕ → Option ℕ
or_count none b = b
or_count (some n) b = if n == 0 then b else some n

abbrev pub or_number : Option ℕ → ℕ → ℕ
or_number none n = n
or_number (some m) n = if m == 0 then n else m

-- a message's two places for counts; `none` is a place that is absent or empty
pub record Message : Type 0 where
  pub usage_metadata : Option Counts
  pub token_usage : Option Counts

charged : ℕ → ℕ → Option ℕ → TokenUsage
charged prompt completion total = record {
  prompt_tokens = prompt;
  completion_tokens = completion;
  total_tokens = or_number total (prompt + completion);
  cached = false;
}

-- the two places prefer opposite spellings
from_metadata : Counts → TokenUsage
unfolding charged
from_metadata m =
    charged (or_number (or_count m.input_tokens m.prompt_tokens) 0)
      (or_number (or_count m.output_tokens m.completion_tokens) 0) m.total_tokens

from_token_usage : Counts → TokenUsage
unfolding charged
from_token_usage m =
    charged (or_number (or_count m.prompt_tokens m.input_tokens) 0)
      (or_number (or_count m.completion_tokens m.output_tokens) 0) m.total_tokens

-- `_usage_from_message`; `none` is a missing message
unfoldable pub usage_from_message : Option Message → TokenUsage
unfolding from_metadata from_token_usage
usage_from_message none = no_usage
usage_from_message (some m) = elim m.usage_metadata [
  | some c ↦ from_metadata c
  | none ↦ elim m.token_usage [ some c ↦ from_token_usage c | none ↦ no_usage ]
]

-- `_estimate_usage`, with the token counter of app/context/window.py
unfoldable pub estimate_usage : (Text → ℕ) → Text → Text → TokenUsage
estimate_usage count_tokens payload result = record {
  prompt_tokens = count_tokens payload;
  completion_tokens = count_tokens result;
  total_tokens = count_tokens payload + count_tokens result;
  cached = false;
}

-- the usage that a finished call commits
unfoldable pub usage_of_call : (Text → ℕ) → Text → Text → Option Message → TokenUsage
unfolding usage_from_message estimate_usage normalized
usage_of_call count_tokens payload result message =
    let u = usage_from_message message in
    normalized (if u.total_tokens == 0 then estimate_usage count_tokens payload result else u)

-- `TurnUsageStep`
pub record TurnUsageStep : Type 0 where
  pub tag : Text
  pub usage : TokenUsage
  pub cached : Bool

-- the context variable `_TURN_USAGE`
abbrev pub Turn : Type 0
Turn = Option (List TurnUsageStep)

-- `begin_turn_usage`
abbrev pub begin_turn : Turn
begin_turn = some []

-- `_record_turn_step`: outside a turn nothing is recorded
unfoldable pub record_turn_step : Text → TokenUsage → Bool → Turn → Turn
record_turn_step tag usage cached none = none
record_turn_step tag usage cached (some steps) =
    some (steps ++ record { tag = tag; usage = usage; cached = cached } ∷ [])

-- `sum(step.… for step in steps)`
unfoldable pub sum_of : (TurnUsageStep → ℕ) → List TurnUsageStep → ℕ
sum_of f [] = 0
sum_of f (x ∷ xs) = f x + sum_of f xs

-- `TurnUsage`
pub record TurnUsage : Type 0 where
  pub prompt_tokens : ℕ
  pub completion_tokens : ℕ
  pub total_tokens : ℕ
  pub steps : List TurnUsageStep

abbrev steps_of : Turn → List TurnUsageStep
steps_of none = []
steps_of (some steps) = steps

-- `take_turn_usage`
unfoldable pub take_turn : Turn → TurnUsage × Turn
unfolding sum_of
take_turn t =
    let steps = steps_of t in
    (
      record {
        prompt_tokens = sum_of (λ s. s.usage.prompt_tokens) steps;
        completion_tokens = sum_of (λ s. s.usage.completion_tokens) steps;
        total_tokens = sum_of (λ s. s.usage.total_tokens) steps;
        steps = steps;
      },
      none,
    )

sum_of-append :
    (f : TurnUsageStep → ℕ) (xs ys : List TurnUsageStep)
    → sum_of f (xs ++ ys) ≡ sum_of f xs + sum_of f ys
unfolding sum_of
sum_of-append f [] ys = omega arith
sum_of-append f (x ∷ xs) ys = omega (arith, sum_of-append f xs ys)

-- One more recorded call raises the turn's total by that call's total, and taking the usage ends
-- the turn: what is recorded afterwards is lost until a turn begins.
pub take_turn-record :
    (tag : Text) (u : TokenUsage) (cached : Bool) (steps : List TurnUsageStep)
    → ((take_turn (record_turn_step tag u cached (some steps))).0.total_tokens
        ≡ (take_turn (some steps)).0.total_tokens + u.total_tokens)
      × ((take_turn (record_turn_step tag u cached (take_turn (some steps)).1)).0.total_tokens ≡ 0)
unfolding take_turn record_turn_step
take_turn-record tag u cached steps = (
  omega (
    arith,
    sum_of-append (λ s. s.usage.total_tokens) steps
        (record { tag = tag; usage = u; cached = cached } ∷ []),
  ),
  refl,
)

-- A committed usage always has a total: when the prompt and the answer count at least one token
-- between them, a call is never free.
pub usage_of_call-charged :
    (count_tokens : Text → ℕ) (payload result : Text) (message : Option Message)
    → 0 < count_tokens payload + count_tokens result
    → 0 < (usage_of_call count_tokens payload result message).total_tokens
unfolding usage_of_call
usage_of_call-charged count_tokens payload result message h = ground arith
