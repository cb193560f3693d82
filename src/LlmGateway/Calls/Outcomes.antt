-- ===== src/LlmGateway/Calls/Outcomes.antt =====
-- What a call through the circuit does to the breaker: `_call_with_circuit` of
-- app/llm_gateway/gateway.py.
use customer_service.Prelude.{
  ℕ, ◌+◌, ◌≤◌, ◌<◌, ◌≡◌, refl, true, false, some, arith, List, All, ◌⊎◌, inl, inr,
}
use customer_service.LlmGateway.Circuit.{
  Config, World, current, record_success, record_failure, count_failure, fresh,
}
use customer_service.LlmGateway.Circuit.Probe.{
  guard_all, IsRejected, IsProbing, guard-admitted_probe, no_second_probe,
}
use customer_service.LlmGateway.Calls.{
  Failure, Error, quota_exceeded, failed, cancelled, Outcome, returns, raises, Attempted,
  retry_call, settle, call_with_circuit,
}

module _ {A : Type 0} (c : Config) (begin now opened : ℕ) (fn : ℕ → Outcome A) (max_retries : ℕ)
    (w : World) (enabled : 0 < c.threshold) (is_open : (current w).opened_at ≡ some opened)
    (over : opened + c.cooldown ≤ begin) (idle : (current w).probe_in_flight ≡ false) where
  abbrev probe : Attempted A × World
  probe = call_with_circuit c begin now fn max_retries w

  abbrev probed : World
  probed = record w { state = some (record (current w) { probe_in_flight = true }) }

  probe-settle : probe.1 ≡ settle c now (retry_call fn max_retries).outcome probed
  unfolding call_with_circuit
  probe-settle = rw (guard-admitted_probe c begin opened w enabled is_open over idle)

  -- A probe that returns closes the breaker and forgets all failures.
  pub returned_probe :
      (a : A) → (retry_call fn max_retries).outcome ≡ returns a → current probe.1 ≡ fresh
  unfolding settle record_success
  returned_probe a o = rw (probe-settle, o)

  -- A probe that fails after its retries counts one failure, gives the probe back and starts a new
  -- cooldown at the moment it failed, in a breaker that had reached its threshold.
  pub failed_probe :
      (e : Failure)
      → c.threshold ≤ (current w).failures
      → (retry_call fn max_retries).outcome ≡ raises (failed e)
      → ((current probe.1).failures ≡ (current w).failures + 1)
        × ((current probe.1).opened_at ≡ some now)
        × ((current probe.1).probe_in_flight ≡ false)
  unfolding settle record_failure count_failure
  failed_probe e h o = rw (probe-settle, o, is_open) (ground arith, ground arith, ground arith)

  -- A probe that is cancelled, or that meets an exhausted quota, leaves the breaker open with the
  -- probe still in flight: every later guard then raises, at whatever time it runs, so no call
  -- reaches the upstream model again unless one that was under way before records its outcome.
  pub lost_probe_locks_out :
      (e : Error) (later : List ℕ)
      → (e ≡ cancelled) ⊎ (e ≡ quota_exceeded)
      → (retry_call fn max_retries).outcome ≡ raises e
      → IsProbing probe.1 × All IsRejected (guard_all c later probe.1).0
  unfolding settle
  lost_probe_locks_out e later (inl p) o =
      rw (probe-settle, o, p)
        (
          (opened, is_open, refl),
          (no_second_probe c later probed enabled (opened, is_open, refl)).0,
        )
  lost_probe_locks_out e later (inr p) o =
      rw (probe-settle, o, p)
        (
          (opened, is_open, refl),
          (no_second_probe c later probed enabled (opened, is_open, refl)).0,
        )
