-- ===== src/LlmGateway/Circuit/Reach.antt =====
-- The breaker as a transition system: any calls in any order, from any thread, while the clock
-- does not run backwards. The shape of every state that the process can reach.
use customer_service.Prelude.{ℕ, ◌≤◌, ◌<◌, ◌≡◌, refl, false, Option, none, some, arith}
use customer_service.LlmGateway.Circuit.{
  Config, Breaker, World, start, current, reset, record_success, guard, guard_opened,
  record_failure, count_failure,
}

-- A call of the breaker that reads the clock at `now`.
pub data Step (c : Config) (now : ℕ) (w : World) : World → Type 0 where
  guards : Step c now w (guard c now w).1
  succeeds : Step c now w (record_success w)
  fails : Step c now w (record_failure c now w)
  resets : Step c now w (reset w)

-- The worlds that calls up to a time can lead to.
pub data Reach (c : Config) : ℕ → World → Type 0 where
  here : (now : ℕ) → Reach c now start
  next :
      {earlier now : ℕ} {w v : World}
      → Reach c earlier w
      → earlier ≤ now
      → Step c now w v
      → Reach c now v

-- A closed breaker is below its threshold and has no probe out; an open one has reached the
-- threshold, and was opened in the past.
abbrev Shape : Config → ℕ → Breaker → Option ℕ → Type 0
Shape c now b none = (b.failures < c.threshold) × (b.probe_in_flight ≡ false)
Shape c now b (some opened) = (c.threshold ≤ b.failures) × (opened ≤ now)

abbrev pub IsSound : Config → ℕ → World → Type 0
IsSound c now w = Shape c now (current w) (current w).opened_at

Shape-later :
    (c : Config) (earlier now : ℕ) (b : Breaker) (o : Option ℕ)
    → earlier ≤ now
    → Shape c earlier b o
    → Shape c now b o
Shape-later c earlier now b none le s = s
Shape-later c earlier now b (some t) le s = (s.0, omega arith)

guard_opened-Shape :
    (c : Config) (now : ℕ) (w : World) (b : Breaker) (o : Option ℕ)
    → b.opened_at ≡ o
    → Shape c now b o
    → IsSound c now (guard_opened c now w b o).1
unfolding guard_opened
guard_opened-Shape c now w b none e s = rw e s
guard_opened-Shape c now w b (some t) e s = ground arith

count_failure-Shape :
    (c : Config) (now : ℕ) (w : World) (b : Breaker) (o : Option ℕ)
    → b.opened_at ≡ o
    → b.probe_in_flight ≡ false
    → (Shape c now b o)
    → IsSound c now (count_failure c now w b o)
unfolding count_failure
count_failure-Shape c now w b none e quiet s = ground arith
count_failure-Shape c now w b (some t) e quiet s = ground arith

-- With a positive threshold the guard and the failure count go on to look at the state.
pub guard_enabled :
    (c : Config) (now : ℕ) (w : World)
    → 0 < c.threshold
    → guard c now w ≡ guard_opened c now w (current w) (current w).opened_at
unfolding guard
guard_enabled c now w en = ground arith

unfoldable pub quieted : World → Breaker
quieted w = record (current w) { probe_in_flight = false }

pub record_failure_enabled :
    (c : Config) (now : ℕ) (w : World)
    → 0 < c.threshold
    → record_failure c now w ≡ count_failure c now w (quieted w) (current w).opened_at
unfolding record_failure quieted
record_failure_enabled c now w en = ground arith

quieted-Shape :
    (c : Config) (now : ℕ) (w : World) (o : Option ℕ)
    → Shape c now (current w) o
    → Shape c now (quieted w) o
unfolding quieted
quieted-Shape c now w none s = (s.0, refl)
quieted-Shape c now w (some t) s = s

-- Every call keeps a sound state.
pub Step-IsSound :
    {c : Config} {now : ℕ} {w v : World}
    → 0 < c.threshold
    → Step c now w v
    → IsSound c now w
    → IsSound c now v
unfolding record_success reset quieted
Step-IsSound {c} {now} {w} en guards s =
    rw (guard_enabled c now w en)
      (guard_opened-Shape c now w (current w) (current w).opened_at refl s)
Step-IsSound en succeeds s = (en, refl)
Step-IsSound {c} {now} {w} en fails s = rw (record_failure_enabled c now w en) (
    count_failure-Shape c now w (quieted w) (current w).opened_at refl refl
      (quieted-Shape c now w (current w).opened_at s))
Step-IsSound en resets s = (en, refl)

-- With a positive threshold, in every reachable state a closed breaker has counted fewer failures
-- than the threshold and has no probe in flight, and an open one has counted at least the threshold
-- and was opened no later than now.
pub Reach-IsSound :
    {c : Config} {now : ℕ} {w : World} → 0 < c.threshold → Reach c now w → IsSound c now w
Reach-IsSound en (here now) = (en, refl)
Reach-IsSound {c} en (next {earlier = earlier} {now = now} {w = w} r le st) =
    Step-IsSound en st
      (Shape-later c earlier now (current w) (current w).opened_at le (Reach-IsSound en r))
