-- ===== src/LlmGateway/Tests.antt =====
-- Runs of the gateway's definitions on small inputs, and its theorems at inputs that meet their
-- hypotheses.
use customer_service.Prelude.{
  ℕ, ◌≡◌, ◌≤◌, length, take, refl, true, false, some, arith, ltb, ◌==◌, if◌then◌else◌, List, [],
  ◌∷◌, All, inl,
}
use customer_service.Prelude.Text.{codes}
use customer_service.LlmGateway.Circuit.{
  Config, World, start, current, Admission, admitted, rejected, guard, record_success,
  record_failure,
}
use customer_service.LlmGateway.Circuit.Reach
use customer_service.LlmGateway.Circuit.Reach.{Reach, IsSound}
use customer_service.LlmGateway.Circuit.Threshold
use customer_service.LlmGateway.Circuit.Threshold.{fail_all}
use customer_service.LlmGateway.Circuit.Probe
use customer_service.LlmGateway.Circuit.Probe.{Event, admissions, guard_all, IsRejected, IsProbing}
use customer_service.LlmGateway.Calls.{
  Failure, failed, cancelled, Outcome, returns, raises, is_transient, retry_call, call_with_circuit,
}
use customer_service.LlmGateway.Calls.Retry.{Settles, retry_call-Settles}
use customer_service.LlmGateway.Calls.Outcomes

-- two failures open the breaker for ten ticks
abbrev two : Config
two = record { threshold = 2; cooldown = 10 }

abbrev opened : World
opened = fail_all two (3 ∷ 5 ∷ []) start

opened_run : opened ≡ record {
  state = some (record { failures = 2; opened_at = some 5; probe_in_flight = false });
  opens = 1;
  rejects = 0;
}
unfolding fail_all record_failure
opened_run = refl

abbrev half_opened : World
half_opened = record {
  state = some (record { failures = 2; opened_at = some 5; probe_in_flight = false });
  opens = 1;
  rejects = 0;
}

guards_run :
    (guard_all two (7 ∷ 15 ∷ 16 ∷ []) half_opened).0 ≡ rejected 2 10 ∷ admitted ∷ rejected 2 10 ∷ []
unfolding guard_all guard
guards_run = refl

Reach-IsSound_example : IsSound two 5 (record_failure two 5 (record_failure two 3 start))
Reach-IsSound_example =
    Reach.Reach-IsSound (omega arith)
      (Reach.next (Reach.next (Reach.here 3) (omega arith) Reach.fails) (omega arith) Reach.fails)

fail_all-opens_example :
    ((current (fail_all two (3 ∷ 5 ∷ []) (record_success start))).failures ≡ 2)
    × (Threshold.is_closed (current (fail_all two (3 ∷ 5 ∷ []) (record_success start))).opened_at
        ≡ ltb 2 2)
    × ((fail_all two (3 ∷ 5 ∷ []) (record_success start)).opens ≡ (if ltb 2 2 then 0 else 1))
fail_all-opens_example = Threshold.fail_all-opens two (3 ∷ 5 ∷ []) start (omega arith)

-- two calls meet the probe, then it answers, and a third is let through
abbrev late : List Event
late = Event.arrives 16 ∷ Event.arrives 99 ∷ Event.succeeds ∷ Event.arrives 100 ∷ []

one_probe_example :
    (rest : List Admission) × (admissions two (Event.arrives 15 ∷ late) half_opened
      ≡ admitted ∷ rest)
    × (2 ≤ length rest)
    × All IsRejected (take 2 rest)
one_probe_example = Probe.one_probe two 15 5 late half_opened (omega arith) refl refl (omega arith)

abbrev timeout : Failure
timeout = record { transient_type = true; name = codes "timeouterror"; message = [] }

-- an upstream model that fails once and then answers
abbrev flaky : ℕ → Outcome ℕ
flaky n = if n == 0 then raises (failed timeout) else returns 42

flaky_run : retry_call flaky 2 ≡ record { outcome = returns 42; calls = 2; errors = [] }
unfolding retry_call is_transient
flaky_run = refl

retry_call-Settles_example : Settles flaky 0 2 (retry_call flaky 2)
retry_call-Settles_example = retry_call-Settles flaky 2

-- an upstream call that is cancelled, and one that always times out
abbrev gone : ℕ → Outcome ℕ
gone n = raises cancelled

abbrev down : ℕ → Outcome ℕ
down n = raises (failed timeout)

gone_run : (retry_call gone 2).outcome ≡ raises cancelled
unfolding retry_call is_transient
gone_run = refl

down_run : (retry_call down 2).outcome ≡ raises (failed timeout)
unfolding retry_call is_transient
down_run = refl

lost_probe_locks_out_example :
    IsProbing (call_with_circuit two 15 20 gone 2 half_opened).1
    × All IsRejected
        (guard_all two (16 ∷ 1000000 ∷ []) (call_with_circuit two 15 20 gone 2 half_opened).1).0
lost_probe_locks_out_example =
    Outcomes.lost_probe_locks_out two 15 20 5 gone 2 half_opened (omega arith) refl (omega arith)
      refl cancelled (16 ∷ 1000000 ∷ []) (inl refl) gone_run
