-- ===== src/LlmGateway/Circuit/Probe.antt =====
-- The half-open state of app/llm_gateway/circuit.py: one probe, and what becomes of it.
use customer_service.Prelude.{
  ℕ, suc, ◌+◌, ◌≤◌, ◌<◌, ◌≡◌, refl, true, false, some, arith, List, [], ◌∷◌, All, length, take,
}
use customer_service.LlmGateway.Circuit.{
  Config, World, current, guard, guard_opened, reject, reset, record_success, record_failure,
  Admission, admitted, rejected,
}
use customer_service.LlmGateway.Circuit.Reach.{guard_enabled}

-- the guards of calls that arrive one after the other, at the given times
unfoldable pub guard_all : Config → List ℕ → World → List Admission × World
guard_all c [] w = ([], w)
guard_all c (t ∷ ts) w =
    let (a, w') = guard c t w in let (rest, w'') = guard_all c ts w' in (a ∷ rest, w'')

abbrev pub IsRejected : Admission → Type 0
IsRejected admitted = ⊥
IsRejected (rejected _ _) = Unit

-- an open breaker whose probe has not come back
abbrev pub IsProbing : World → Type 0
IsProbing w =
    (opened : ℕ) × ((current w).opened_at ≡ some opened) × ((current w).probe_in_flight ≡ true)

-- the world after a guard that raised: the reject is counted, the breaker is as it was
abbrev refused : Config → World → Admission × World
refused c w = reject (current w).failures c (record w { state = some (current w) })

guard-refused_probing :
    (c : Config) (now : ℕ) (w : World) → 0 < c.threshold → IsProbing w → guard c now w ≡ refused c w
unfolding guard_opened reject
guard-refused_probing c now w en (opened, e, p) = rw (guard_enabled c now w en, e) (ground arith)

guard-refused_early :
    (c : Config) (now opened : ℕ) (w : World)
    → 0 < c.threshold
    → (current w).opened_at ≡ some opened
    → now < opened + c.cooldown
    → guard c now w ≡ refused c w
unfolding guard_opened reject
guard-refused_early c now opened w en e h = rw (guard_enabled c now w en, e) (ground arith)

pub guard-admitted_probe :
    (c : Config) (now opened : ℕ) (w : World)
    → 0 < c.threshold
    → (current w).opened_at ≡ some opened
    → opened + c.cooldown ≤ now
    → (current w).probe_in_flight ≡ false
    → guard c now w
      ≡ (admitted, record w { state = some (record (current w) { probe_in_flight = true }) })
unfolding guard_opened reject
guard-admitted_probe c now opened w en e h p = rw (guard_enabled c now w en, e) (ground arith)

-- While a probe is in flight every guard raises, at whatever time it runs: as long as no call records
-- an outcome, none passes, however long after the cooldown it comes.
pub no_second_probe :
    (c : Config) (ts : List ℕ) (w : World)
    → 0 < c.threshold
    → IsProbing w
    → All IsRejected (guard_all c ts w).0
      × IsProbing (guard_all c ts w).1
      × ((guard_all c ts w).1.rejects ≡ w.rejects + length ts)
unfolding guard_all reject
no_second_probe c [] w en p = (tt, p, omega arith)
no_second_probe c (t ∷ ts) w en p =
    rw (guard-refused_probing c t w en p)
      (let (r, q, k) = no_second_probe c ts (refused c w).1 en p in ((tt, r), q, omega (arith, k)))

-- what calls do to the breaker, in any order: one arrives at a time, one records its outcome, be it
-- the probe or a call that was let through before; and the breaker may be reset
pub data Event : Type 0 where
  arrives : ℕ → Event
  succeeds : Event
  fails : ℕ → Event
  resets : Event

-- what the guards of the calls that arrive do
unfoldable pub admissions : Config → List Event → World → List Admission
admissions c [] w = []
admissions c (arrives t ∷ es) w = let (a, w') = guard c t w in a ∷ admissions c es w'
admissions c (succeeds ∷ es) w = admissions c es (record_success w)
admissions c (fails t ∷ es) w = admissions c es (record_failure c t w)
admissions c (resets ∷ es) w = admissions c es (reset w)

-- how many calls arrive before an outcome is recorded or the breaker is reset
abbrev pub arrivals : List Event → ℕ
arrivals (arrives t ∷ es) = suc (arrivals es)
arrivals _ = 0

waiting-refused :
    (c : Config) (es : List Event) (w : World)
    → 0 < c.threshold
    → IsProbing w
    → (arrivals es ≤ length (admissions c es w))
      × All IsRejected (take (arrivals es) (admissions c es w))
unfolding admissions reject
waiting-refused c [] w en p = (omega arith, tt)
waiting-refused c (arrives t ∷ es) w en p =
    rw (guard-refused_probing c t w en p)
      (let (k, r) = waiting-refused c es (refused c w).1 en p in (omega (arith, k), (tt, r)))
waiting-refused c (succeeds ∷ es) w en p = (omega arith, tt)
waiting-refused c (fails t ∷ es) w en p = (omega arith, tt)
waiting-refused c (resets ∷ es) w en p = (omega arith, tt)

-- With a positive threshold, when the cooldown is over and no probe is out, the first call that
-- arrives is let through, and all that arrive after it are rejected, at whatever times, until some
-- call records an outcome, the probe or one that was let through before the breaker opened, or the
-- breaker is reset; whatever happens after that.
pub one_probe :
    (c : Config) (now opened : ℕ) (es : List Event) (w : World)
    → 0 < c.threshold
    → (current w).opened_at ≡ some opened
    → (current w).probe_in_flight ≡ false
    → opened + c.cooldown ≤ now
    → (rest : List Admission) × (admissions c (arrives now ∷ es) w ≡ admitted ∷ rest)
      × (arrivals es ≤ length rest)
      × All IsRejected (take (arrivals es) rest)
unfolding admissions
one_probe c now opened es w en e p h = rw (guard-admitted_probe c now opened w en e h p) (
    let w' : World = record w { state = some (record (current w) { probe_in_flight = true }) } in
    let (k, r) = waiting-refused c es w' en (opened, e, refl) in (admissions c es w', refl, k, r))

-- Until the cooldown is over the guards of an open breaker reject every call and leave it as it is.
pub cooldown_refuses :
    (c : Config) (opened : ℕ) (ts : List ℕ) (w : World)
    → 0 < c.threshold
    → (current w).opened_at ≡ some opened
    → All (λ t. t < opened + c.cooldown) ts
    → All IsRejected (guard_all c ts w).0
      × (current (guard_all c ts w).1 ≡ current w)
      × ((guard_all c ts w).1.rejects ≡ w.rejects + length ts)
unfolding guard_all reject
cooldown_refuses c opened [] w en e h = (tt, refl, omega arith)
cooldown_refuses c opened (t ∷ ts) w en e h = rw (guard-refused_early c t opened w en e h.0) (
    let (r, q, k) = cooldown_refuses c opened ts (refused c w).1 en e h.1 in
    ((tt, r), q, omega (arith, k)))
