-- ===== src/LlmGateway/Gate/Laws.antt =====
-- What `_gated` of app/llm_gateway/gateway.py charges, and whom it refuses.
use customer_service.Prelude.{
  ℕ, ◌+◌, ◌≤◌, ◌<◌, ◌≡◌, refl, ap, ◌∙◌, Bool, true, false, Option, none, some, arith, ◌==◌,
  if◌then◌else◌, Bool-cases, inl, inr, ◌⊎◌,
}
use customer_service.Prelude.Text.{Text}
use customer_service.LlmGateway.Circuit.{Config, World, Admission, guard, admitted, rejected}
use customer_service.LlmGateway.Calls.{
  Error, Outcome, returns, raises, quota_exceeded, Attempted, retry_call, after_guard,
  call_with_circuit,
}
use customer_service.LlmGateway.Calls.Retry.{retry_call-Settles}
use customer_service.LlmGateway.Stores.{
  Store, Row, Account, row_of, TokenUsage, normalized, get_quota, get_cache, set_cache,
}
use customer_service.LlmGateway.Stores.Quota.{
  row_of-add_usage, row_of-add_cache_hit, row_of-get_quota, get_quota-row_of, cache-get_quota,
}
use customer_service.LlmGateway.Usage.{usage_of_call}
use customer_service.LlmGateway.Gate.{
  Settings, CallPolicy, Request, Times, Answers, Shared, Gated, assert_quota, read_cache,
  write_cache, usage_of, commit, remember, finish, call_upstream, look_up, cache_on, cache_key,
  admit, gated,
}

-- two stores with the same rows
abbrev pub SameRows : Store → Store → Type 0
SameRows s s' = (k : Account) → row_of k s' ≡ row_of k s

set_cache-SameRows :
    (key value : Text) (ttl now : ℕ) (s : Store) → SameRows s (set_cache key value ttl now s)
unfolding set_cache row_of
set_cache-SameRows key value ttl now s k = refl

get_cache-SameRows : (key : Text) (now : ℕ) (s : Store) → SameRows s (get_cache key now s).1
unfolding get_cache row_of
get_cache-SameRows key now s k = ground arith

assert_quota-SameRows :
    (cfg : Settings) (policy : CallPolicy) (q : Request) (s : Store)
    → SameRows s (assert_quota cfg policy q s).1
unfolding assert_quota
assert_quota-SameRows cfg policy q s k = ground (arith, row_of-get_quota k q.tenant q.day s)

pub Outcome-cases :
    {R : Type 0} (o : Outcome R) → ((r : R) × (o ≡ returns r)) ⊎ ((e : Error) × (o ≡ raises e))
Outcome-cases (returns r) = inl (r, refl)
Outcome-cases (raises e) = inr (e, refl)

after_guard-calls :
    {R : Type 0} (c : Config) (now : ℕ) (x : Attempted R) (g : Admission × World)
    → 0 < x.calls
    → (r : R) → (after_guard c now x g).0.outcome ≡ returns r
    → 0 < (after_guard c now x g).0.calls
unfolding after_guard
after_guard-calls c now x (rejected n k, w) pos r e = cc
after_guard-calls c now x (admitted, w) pos r e = pos

-- an answer is never made up: it took an upstream call
returned-calls :
    {R : Type 0} (c : Config) (begin now : ℕ) (fn : ℕ → Outcome R) (n : ℕ) (w : World) (r : R)
    → (call_with_circuit c begin now fn n w).0.outcome ≡ returns r
    → 0 < (call_with_circuit c begin now fn n w).0.calls
unfolding call_with_circuit
returned-calls c begin now fn n w r e =
    after_guard-calls c now (retry_call fn n) (guard c begin w)
      (let s = retry_call-Settles fn n in omega (arith, s.counted)) r e

module _ {R : Type 0} (answers : Answers R) where
  read_cache-SameRows :
      (key : Text) (now : ℕ) (s : Store) → SameRows s (read_cache answers key now s).1
  unfolding read_cache
  read_cache-SameRows key now s = get_cache-SameRows key now s

  write_cache-SameRows :
      (key : Text) (result : R) (ttl now : ℕ) (s : Store)
      → SameRows s (write_cache answers key result ttl now s)
  unfolding write_cache
  write_cache-SameRows key result ttl now s k =
      elim (answers.encode result)
        as (λ o.
          row_of k (elim o [ none ↦ s | some blob ↦ set_cache key blob ttl now s ]) ≡ row_of k s) [
            | none ↦ refl
            | some blob ↦ set_cache-SameRows key blob ttl now s k
          ]

  module _ (cfg : Settings) (policy : CallPolicy) (q : Request) (times : Times) where
    -- what a finished call of the gate cost
    abbrev pub charge : Gated R → ℕ
    charge g = elim g.outcome [
      | returns r ↦ if g.calls == 0 then 0 else (usage_of answers cfg policy q times r).total_tokens
      | raises _ ↦ 0
    ]

    abbrev pub total : Shared → ℕ
    total w = (row_of (q.tenant, q.day) w.store).total_tokens

    normalized-usage_of :
        (r : R)
        → (normalized (usage_of answers cfg policy q times r)).total_tokens
          ≡ (usage_of answers cfg policy q times r).total_tokens
    unfolding usage_of usage_of_call normalized
    normalized-usage_of r = ground arith

    remember-total :
        (r : R) (w : Shared) → total (remember answers cfg policy q times r w) ≡ total w
    unfolding remember
    remember-total r w = ground (
      arith,
      write_cache-SameRows (cache_key q) r cfg.llm_cache_ttl_seconds times.write w.store
          (q.tenant, q.day),
    )

    commit-total :
        (u : TokenUsage) (w : Shared)
        → total (commit answers cfg policy q times u w) ≡ total w + (normalized u).total_tokens
    unfolding commit
    commit-total u w = ground (arith, row_of-add_usage (q.tenant, q.day) q.tenant q.day u w.store)

    finish-total :
        (x : Attempted R × World) (w : Shared)
        → ((r : R) → x.0.outcome ≡ returns r → 0 < x.0.calls)
        → total (finish answers cfg policy q times x w).1
          ≡ total w + charge (finish answers cfg policy q times x w).0
    unfolding finish
    finish-total (x, circuit) w called = elim (Outcome-cases x.outcome) [
      | inl (r, e) ↦
          rw (e, remember-total, commit-total) (ground (arith, called r e, normalized-usage_of r))
      | inr (e, p) ↦ rw p (omega arith)
    ]

    call_upstream-total :
        (fn : ℕ → Outcome R) (w : Shared)
        → total (call_upstream answers cfg policy q times fn w).1
          ≡ total w + charge (call_upstream answers cfg policy q times fn w).0
    unfolding call_upstream
    call_upstream-total fn w =
        finish-total
          (call_with_circuit cfg.circuit times.begin times.end fn cfg.llm_max_retries w.circuit) w
          (returned-calls cfg.circuit times.begin times.end fn cfg.llm_max_retries w.circuit)

    look_up-total :
        (fn : ℕ → Outcome R) (x : Option R × Store) (w : Shared)
        → SameRows w.store x.1
        → total (look_up answers cfg policy q times fn x w).1
          ≡ total w + charge (look_up answers cfg policy q times fn x w).0
    unfolding look_up
    look_up-total fn (some r, s) w same = ground (
      arith,
      row_of-add_cache_hit (q.tenant, q.day) q.tenant q.day s,
      ap (λ (r : Row). r.total_tokens) (same (q.tenant, q.day)),
    )
    look_up-total fn (none, s) w same = omega (
      arith,
      call_upstream-total fn (record w { store = s }),
      ap (λ (r : Row). r.total_tokens) (same (q.tenant, q.day)),
    )

    admit-total :
        (fn : ℕ → Outcome R) (x : Bool × Store) (w : Shared)
        → SameRows w.store x.1
        → total (admit answers cfg policy q times fn x w).1
          ≡ total w + charge (admit answers cfg policy q times fn x w).0
    unfolding admit
    admit-total fn (false, s) w same =
        omega (arith, ap (λ (r : Row). r.total_tokens) (same (q.tenant, q.day)))
    admit-total fn (true, s) w same = elim (Bool-cases (cache_on answers cfg policy q times)) [
      | inl e ↦ rw e (
          look_up-total fn (read_cache answers (cache_key q) times.lookup s) w
            (λ k. read_cache-SameRows (cache_key q) times.lookup s k ∙ same k))
      | inr e ↦ rw e (
          omega (
            arith,
            call_upstream-total fn (record w { store = s }),
            ap (λ (r : Row). r.total_tokens) (same (q.tenant, q.day)),
          ))
    ]

    refuses :
        (s : Store)
        → policy.enforce_quota ≡ true
        → 0 < cfg.llm_daily_token_limit
        → cfg.llm_daily_token_limit ≤ (row_of (q.tenant, q.day) s).total_tokens
        → assert_quota cfg policy q s ≡ (false, (get_quota q.tenant q.day s).1)
    unfolding assert_quota
    refuses s enforced limited over = ground (arith, get_quota-row_of q.tenant q.day s)

    -- A call of the gate raises the tenant's total of the day by exactly the usage of its answer if
    -- the answer came from the upstream model, and by nothing in every other case: a refusal for
    -- quota, an answer from the cache, an open circuit, a failed or a cancelled call.
    pub gated-total :
        (fn : ℕ → Outcome R) (w : Shared)
        → total (gated answers cfg policy q times fn w).1
          ≡ total w + charge (gated answers cfg policy q times fn w).0
    unfolding gated
    gated-total fn w =
        admit-total fn (assert_quota cfg policy q w.store) w
          (assert_quota-SameRows cfg policy q w.store)

    -- A tenant that has used up its daily limit is refused before anything else happens: no lookup,
    -- no upstream call, no change of the breaker or the turn, and no row of the accounts changes.
    pub gated_over_quota :
        (fn : ℕ → Outcome R) (w : Shared)
        → policy.enforce_quota ≡ true
        → 0 < cfg.llm_daily_token_limit
        → cfg.llm_daily_token_limit ≤ total w
        → ((gated answers cfg policy q times fn w).0
            ≡ record { outcome = raises quota_exceeded; calls = 0 })
          × ((gated answers cfg policy q times fn w).1.circuit ≡ w.circuit)
          × ((gated answers cfg policy q times fn w).1.turn ≡ w.turn)
          × ((gated answers cfg policy q times fn w).1.store.cache ≡ w.store.cache)
          × SameRows w.store (gated answers cfg policy q times fn w).1.store
    unfolding gated
    gated_over_quota fn w enforced limited over = rw (refuses w.store enforced limited over) (
      refl,
      refl,
      refl,
      cache-get_quota q.tenant q.day w.store,
      λ k. row_of-get_quota k q.tenant q.day w.store,
    )
