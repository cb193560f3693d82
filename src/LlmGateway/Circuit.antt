-- ===== src/LlmGateway/Circuit.antt =====
-- The circuit breaker of app/llm_gateway/circuit.py. The module variable `_STATE` and the two
-- counters that `inc_llm_circuit` raises are the fields of `World`. Each function reads and writes
-- `_STATE` under `_LOCK`, so a call is one atomic step; the counters, which are raised behind the
-- lock, go with it. What the clock reads is an argument, in ticks.
-- Differences of times are written as sums, since `-` on ℕ stops at 0.
pub mod Reach
pub mod Probe
pub mod Threshold
use customer_service.Prelude.{
  ℕ, ◌+◌, ◌-◌, Bool, true, false, Option, none, some, ltb, leb, if◌then◌else◌,
}

-- `llm_circuit_failure_threshold` and `llm_circuit_cooldown_seconds`
pub record Config : Type 0 where
  pub threshold : ℕ
  pub cooldown : ℕ

-- `_BreakerState`
pub record Breaker : Type 0 where
  pub failures : ℕ
  pub opened_at : Option ℕ
  pub probe_in_flight : Bool

abbrev pub fresh : Breaker
fresh = record { failures = 0; opened_at = none; probe_in_flight = false }

-- the process: `_STATE`, and the counts of the events "open" and "reject"
pub record World : Type 0 where
  pub state : Option Breaker
  pub opens : ℕ
  pub rejects : ℕ

abbrev pub start : World
start = record { state = none; opens = 0; rejects = 0 }

pub data Label : Type 0 where
  closed half_open is_open : Label

-- `CircuitSnapshot`
pub record Snapshot : Type 0 where
  pub label : Label
  pub failures : ℕ
  pub cooldown_remaining : ℕ

-- what the guard does: it returns, or raises `LlmCircuitOpenError(failures, cooldown)`
pub data Admission : Type 0 where
  admitted : Admission
  rejected : ℕ → ℕ → Admission

-- `_STATE or _BreakerState()`
abbrev pub current : World → Breaker
current w = elim w.state [ none ↦ fresh | some b ↦ b ]

-- `_snapshot_locked`; `max(0.0, cooldown - (now - opened_at))` is a difference that stops at 0
snapshot_opened : Breaker → ℕ → ℕ → Option ℕ → Snapshot
snapshot_opened b cooldown now none = record {
  label = closed;
  failures = b.failures;
  cooldown_remaining = 0;
}
snapshot_opened b cooldown now (some opened) =
    let remaining = (cooldown + opened) - now in
    record {
      label = if leb remaining 0 then half_open else is_open;
      failures = b.failures;
      cooldown_remaining = remaining;
    }

unfoldable pub snapshot_locked : Breaker → ℕ → ℕ → Snapshot
unfolding snapshot_opened
snapshot_locked b cooldown now = snapshot_opened b cooldown now b.opened_at

-- `snapshot_llm_breaker`
unfoldable pub snapshot : Config → ℕ → World → Snapshot
unfolding snapshot_locked
snapshot c now w = snapshot_locked (current w) c.cooldown now

-- `reset_llm_breaker` and `record_llm_success`
unfoldable pub reset : World → World
reset w = record w { state = some fresh }

unfoldable pub record_success : World → World
record_success w = record w { state = some fresh }

-- `_reject`
pub reject : ℕ → Config → World → Admission × World
reject failures c w = (rejected failures c.cooldown, record w { rejects = w.rejects + 1 })

-- the part of the guard that runs under the lock
unfoldable pub guard_opened : Config → ℕ → World → Breaker → Option ℕ → Admission × World
unfolding reject
guard_opened c now w b none = (admitted, record w { state = some b })
guard_opened c now w b (some opened) =
    if ltb now (c.cooldown + opened)
    then reject b.failures c (record w { state = some b })
    else if b.probe_in_flight
    then reject b.failures c (record w { state = some b })
    else (admitted, record w { state = some (record b { probe_in_flight = true }) })

-- `guard_llm_circuit`
unfoldable pub guard : Config → ℕ → World → Admission × World
unfolding guard_opened
guard c now w =
    if leb c.threshold 0
    then (admitted, w)
    else guard_opened c now w (current w) (current w).opened_at

-- one more failure, as a closed or an open breaker takes it
unfoldable pub count_failure : Config → ℕ → World → Breaker → Option ℕ → World
count_failure c now w b was_opened =
    if leb c.threshold (b.failures + 1)
    then record w {
      state = some (record b { failures = b.failures + 1; opened_at = some now });
      opens = elim was_opened [ none ↦ w.opens + 1 | some _ ↦ w.opens ];
    }
    else record w { state = some (record b { failures = b.failures + 1 }) }

-- `record_llm_failure`
unfoldable pub record_failure : Config → ℕ → World → World
unfolding count_failure
record_failure c now w =
    let b = record (current w) { probe_in_flight = false } in
    if leb c.threshold 0
    then record w { state = some b }
    else count_failure c now w b (current w).opened_at
