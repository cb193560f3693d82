-- ===== src/LlmGateway/Calls.antt =====
-- The retry loop and the circuit around it: `_is_transient`, `_retry_call`, `_aretry_call`,
-- `_call_with_circuit` and `_acall_with_circuit` of app/llm_gateway/gateway.py (the async twins have
-- the same statements behind `await`). The upstream model is an argument, its answer at each attempt.
pub mod Retry
pub mod Outcomes
use customer_service.Prelude.{
  ℕ, zero, suc, ◌+◌, max, Bool, true, false, ◌||◌, ◌&&◌, Option, none, some, ltb, if◌then◌else◌,
  List, [], ◌∷◌, ◌++◌,
}
use customer_service.Prelude.Text.{Text, codes, contains}
use customer_service.LlmGateway.Circuit.{
  Config, World, guard, record_success, record_failure, Admission, admitted, rejected,
}

-- An `Exception` other than the two of app/llm_gateway/exceptions.py: whether its class is one of
-- `_TRANSIENT_TYPES`, and its class name and message in lower case.
pub record Failure : Type 0 where
  pub transient_type : Bool
  pub name : Text
  pub message : Text

-- What can be raised. `cancelled` is a `BaseException` that `except Exception` does not catch:
-- `asyncio.CancelledError` or `GeneratorExit`.
pub data Error : Type 0 where
  quota_exceeded : Error
  circuit_open : ℕ → ℕ → Error
  failed : Failure → Error
  cancelled : Error
  assertion : Error

pub data Outcome (A : Type 0) : Type 0 where
  returns : A → Outcome A
  raises : Error → Outcome A

-- `_is_transient`
unfoldable pub is_transient : Failure → Bool
is_transient e =
    e.transient_type
    || (contains (codes "timeout") e.name
        || (contains (codes "timeout") e.message || contains (codes "connection") e.name))

-- what a call leaves: its outcome, the upstream calls made, the errors given to `inc_llm_error`
pub record Attempted (A : Type 0) : Type 0 where
  pub outcome : Outcome A
  pub calls : ℕ
  pub errors : List Error

module _ {A : Type 0} where
  abbrev settled : Outcome A → ℕ → Attempted A
  settled o attempt = record { outcome = o; calls = attempt + 1; errors = [] }

  abbrev given_up : Failure → ℕ → Attempted A
  given_up e attempt = record {
    outcome = raises (failed e);
    calls = attempt + 1;
    errors = failed e ∷ [];
  }

  -- One round of the loop; `again` is the rest of it. An open circuit that the upstream call meets
  -- itself is an `Exception` as well, and none of its texts makes it transient.
  unfoldable pub round : Outcome A → Bool → ℕ → Attempted A → Attempted A
  round (raises (failed e)) more attempt again =
      if more && is_transient e then again else given_up e attempt
  round (raises (circuit_open n cooldown)) more attempt again = record {
    outcome = raises (circuit_open n cooldown);
    calls = attempt + 1;
    errors = circuit_open n cooldown ∷ [];
  }
  round o more attempt again = settled o attempt

  -- `last_error` as a round leaves it
  abbrev last_error : Outcome A → Option Error
  last_error (raises e) = some e
  last_error (returns _) = none

  -- `for attempt in range(attempts)`, with the rounds that are left; behind the loop stands
  -- `assert last_error is not None; raise last_error`
  unfoldable pub retry_loop : (ℕ → Outcome A) → ℕ → ℕ → Option Error → Attempted A
  unfolding round
  retry_loop fn zero attempt none = record {
    outcome = raises assertion;
    calls = attempt;
    errors = [];
  }
  retry_loop fn zero attempt (some e) = record { outcome = raises e; calls = attempt; errors = [] }
  retry_loop fn (suc left) attempt last =
      let again = retry_loop fn left (attempt + 1) (last_error (fn attempt)) in
      round (fn attempt) (ltb 0 left) attempt again

  -- `_retry_call`
  unfoldable pub retry_call : (ℕ → Outcome A) → ℕ → Attempted A
  unfolding retry_loop
  retry_call fn max_retries = retry_loop fn (max 1 (max_retries + 1)) 0 none

  -- the `except` clauses behind the call, with the clock at that moment
  unfoldable pub settle : Config → ℕ → Outcome A → World → World
  settle c now (returns a) w = record_success w
  settle c now (raises (failed e)) w = record_failure c now w
  settle c now (raises _) w = w

  -- `except LlmCircuitOpenError` counts that error once more
  abbrev recount : Outcome A → List Error
  recount (raises (circuit_open n cooldown)) = circuit_open n cooldown ∷ []
  recount _ = []

  -- a rejected guard raises before the `try`
  unfoldable pub after_guard : Config → ℕ → Attempted A → Admission × World → Attempted A × World
  unfolding settle
  after_guard c now r (rejected n cooldown, w) =
      (record { outcome = raises (circuit_open n cooldown); calls = 0; errors = [] }, w)
  after_guard c now r (admitted, w) =
      (record r { errors = r.errors ++ recount r.outcome }, settle c now r.outcome w)

  -- `_call_with_circuit(lambda: self._retry_call(…))`, the guard at one time and the end at another
  unfoldable pub call_with_circuit :
      Config → ℕ → ℕ → (ℕ → Outcome A) → ℕ → World → Attempted A × World
  unfolding after_guard
  call_with_circuit c begin now fn max_retries w =
      after_guard c now (retry_call fn max_retries) (guard c begin w)
