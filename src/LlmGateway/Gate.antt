-- ===== src/LlmGateway/Gate.antt =====
-- `GatewayChatModel._gated` of app/llm_gateway/gateway.py with `_assert_quota`, `_read_llm_cache`,
-- `_write_llm_cache` and `_commit`; `_agated` has the same statements behind `await`. The upstream
-- model, the byte codec of app/llm_gateway/cache_codec.py, the SHA-256 fingerprint and the token
-- counter are arguments. Metrics and log lines are not modelled.
pub mod Laws
pub mod Keeps
pub mod Remember
use customer_service.Prelude.{
  ℕ, ◌+◌, ◌-◌, Bool, true, false, ◌&&◌, not, Option, none, some, leb, if◌then◌else◌, List, [], ◌∷◌,
  ◌++◌, length,
}
use customer_service.Prelude.Text.{Text, codes}
use customer_service.LlmGateway.Circuit.{Config, World}
use customer_service.LlmGateway.Calls.{
  Outcome, returns, raises, quota_exceeded, Attempted, call_with_circuit,
}
use customer_service.LlmGateway.Stores.{
  Store, TokenUsage, no_usage, get_quota, add_usage, add_cache_hit, get_cache, set_cache,
}
use customer_service.LlmGateway.Usage.{Message, Turn, record_turn_step, usage_of_call}

-- `CallPolicy`, as far as the gate reads it
pub record CallPolicy : Type 0 where
  pub usage_tag : Text
  pub cache_enabled : Bool
  pub enforce_quota : Bool

-- the settings that the gate reads
pub record Settings : Type 0 where
  pub llm_cache_enabled : Bool
  pub llm_daily_token_limit : ℕ
  pub llm_max_retries : ℕ
  pub llm_cache_max_chars : ℕ
  pub llm_cache_ttl_seconds : ℕ
  pub circuit : Config

-- the clock at the lookup, at the guard, at the end of the upstream call and at the write
pub record Times : Type 0 where
  pub lookup : ℕ
  pub begin : ℕ
  pub end : ℕ
  pub write : ℕ

-- what calls share
pub record Shared : Type 0 where
  pub store : Store
  pub circuit : World
  pub turn : Turn

-- One call's request: its tenant and day, its prompt as text and the fingerprint of it all.
pub record Request : Type 0 where
  pub tenant : Text
  pub day : Text
  pub payload : Text
  pub fingerprint : Text

-- `f"{tenant}:{fingerprint}"`
abbrev pub cache_key : Request → Text
cache_key q = q.tenant ++ (codes ":" ++ q.fingerprint)

-- What the gate is given of an answer: its text, the counts it carries, and the codec.
pub record Answers (R : Type 0) : Type 0 where
  pub text : R → Text
  pub message : R → Option Message
  pub encode : R → Option Text
  pub decode : Text → Option R
  pub count_tokens : Text → ℕ

-- what a call of the gate does: its outcome and the number of upstream calls
pub record Gated (R : Type 0) : Type 0 where
  pub outcome : Outcome R
  pub calls : ℕ

-- `_assert_quota`: whether the tenant may call
unfoldable pub assert_quota : Settings → CallPolicy → Request → Store → Bool × Store
assert_quota cfg policy q s =
    if not policy.enforce_quota
    then (true, s)
    else if leb cfg.llm_daily_token_limit 0
    then (true, s)
    else let (snapshot, s') = get_quota q.tenant q.day s in
      (not (leb cfg.llm_daily_token_limit snapshot.row.total_tokens), s')

module _ {R : Type 0} (answers : Answers R) where
  -- `_read_llm_cache`: no entry, an empty one and one that does not decode are misses
  abbrev decoded : Option Text → Option R
  decoded none = none
  decoded (some []) = none
  decoded (some (b ∷ bytes)) = answers.decode (b ∷ bytes)

  unfoldable pub read_cache : Text → ℕ → Store → Option R × Store
  read_cache key now s = let (bytes, s') = get_cache key now s in (decoded bytes, s')

  -- `_write_llm_cache`: what cannot be encoded is not stored
  unfoldable pub write_cache : Text → R → ℕ → ℕ → Store → Store
  write_cache key result ttl now s = elim (answers.encode result) [
    | none ↦ s
    | some blob ↦ set_cache key blob ttl now s
  ]

  module _ (cfg : Settings) (policy : CallPolicy) (q : Request) (times : Times) where
    -- `cache_on`
    abbrev pub cache_on : Bool
    cache_on = policy.cache_enabled && cfg.llm_cache_enabled

    pub usage_of : R → TokenUsage
    unfolding usage_of_call
    usage_of result =
        usage_of_call answers.count_tokens q.payload (answers.text result) (answers.message result)

    -- `_commit`
    unfoldable pub commit : TokenUsage → Shared → Shared
    commit usage w = record w {
      store = (add_usage q.tenant usage q.day w.store).1;
      turn = record_turn_step policy.usage_tag usage false w.turn;
    }

    -- the answer is stored if it is short enough
    unfoldable pub remember : R → Shared → Shared
    remember result w =
        if cache_on && leb (length (answers.text result)) cfg.llm_cache_max_chars
        then record w {
          store = write_cache (cache_key q) result cfg.llm_cache_ttl_seconds times.write w.store;
        }
        else w

    -- what follows the upstream call
    unfoldable pub finish : Attempted R × World → Shared → Gated R × Shared
    unfolding usage_of commit remember
    finish (r, circuit) w = elim r.outcome [
      | returns result ↦ (
        record { outcome = returns result; calls = r.calls },
        remember result (commit (usage_of result) (record w { circuit = circuit })),
      )
      | raises e ↦ (record { outcome = raises e; calls = r.calls }, record w { circuit = circuit })
    ]

    unfoldable pub call_upstream : (ℕ → Outcome R) → Shared → Gated R × Shared
    unfolding finish
    call_upstream fn w =
        finish
          (call_with_circuit cfg.circuit times.begin times.end fn cfg.llm_max_retries w.circuit) w

    -- a hit is counted, and costs nothing
    unfoldable pub hit : R → Shared → Gated R × Shared
    hit result w = (
      record { outcome = returns result; calls = 0 },
      record w {
        store = add_cache_hit q.tenant q.day w.store;
        turn = record_turn_step policy.usage_tag no_usage true w.turn;
      },
    )

    -- a lookup, and the upstream model behind it
    unfoldable pub look_up : (ℕ → Outcome R) → Option R × Store → Shared → Gated R × Shared
    unfolding hit call_upstream
    look_up fn (some result, s) w = hit result (record w { store = s })
    look_up fn (none, s) w = call_upstream fn (record w { store = s })

    unfoldable pub admit : (ℕ → Outcome R) → Bool × Store → Shared → Gated R × Shared
    unfolding look_up
    admit fn (false, s) w =
        (record { outcome = raises quota_exceeded; calls = 0 }, record w { store = s })
    admit fn (true, s) w =
        if cache_on
        then look_up fn (read_cache (cache_key q) times.lookup s) w
        else call_upstream fn (record w { store = s })

    -- `_gated`
    unfoldable pub gated : (ℕ → Outcome R) → Shared → Gated R × Shared
    unfolding admit
    gated fn w = admit fn (assert_quota cfg policy q w.store) w
