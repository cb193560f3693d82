-- ===== src/LlmGateway/Circuit/Threshold.antt =====
-- When the breaker opens, and when the guard of app/llm_gateway/circuit.py lets a call through.
use customer_service.Prelude.{
  ℕ, suc, ◌+◌, ◌<◌, ◌≡◌, refl, Bool, true, false, Option, none, some, arith, ltb, if◌then◌else◌,
  List, [], ◌∷◌, length, ◌||◌,
}
use customer_service.LlmGateway.Circuit.{
  Config, Breaker, World, current, record_success, guard, guard_opened, record_failure,
  count_failure, admitted, rejected, reject,
}
use mathlib.Core.Path.{subst}
use native.Mathlib.Nat.{add-zero, zero-add}
use customer_service.LlmGateway.Circuit.Reach.{guard_enabled, record_failure_enabled, quieted}

-- calls that fail one after the other, at the given times
unfoldable pub fail_all : Config → List ℕ → World → World
fail_all c [] w = w
fail_all c (t ∷ ts) w = fail_all c ts (record_failure c t w)

abbrev pub is_closed : Option ℕ → Bool
is_closed none = true
is_closed (some _) = false

-- what a world has after `n` failures in a row, from `opens` events before them
abbrev pub Counted : Config → ℕ → ℕ → World → Type 0
Counted c n opens w =
    ((current w).failures ≡ n)
    × (is_closed (current w).opened_at ≡ ltb n c.threshold)
    × (w.opens ≡ (if ltb n c.threshold then opens else opens + 1))

count_failure-Counted :
    (c : Config) (now n opens : ℕ) (w : World) (b : Breaker) (o : Option ℕ)
    → b.opened_at ≡ o
    → b.failures ≡ n
    → is_closed o ≡ ltb n c.threshold
    → w.opens ≡ (if ltb n c.threshold then opens else opens + 1)
    → Counted c (suc n) opens (count_failure c now w b o)
unfolding count_failure
count_failure-Counted c now n opens w b none e f g k = (ground arith, ground arith, ground arith)
count_failure-Counted c now n opens w b (some t) e f g k =
    (ground arith, ground arith, ground arith)

record_failure-Counted :
    (c : Config) (now n opens : ℕ) (w : World)
    → 0 < c.threshold
    → Counted c n opens w
    → Counted c (suc n) opens (record_failure c now w)
unfolding quieted
record_failure-Counted c now n opens w en h =
    rw (record_failure_enabled c now w en)
      (count_failure-Counted c now n opens w (quieted w) (current w).opened_at refl h.0 h.1 h.2)

fail_all-Counted :
    (c : Config) (ts : List ℕ) (n opens : ℕ) (w : World)
    → 0 < c.threshold
    → Counted c n opens w
    → Counted c (n + length ts) opens (fail_all c ts w)
unfolding fail_all
fail_all-Counted c [] n opens w en h = rw add-zero h
fail_all-Counted c (t ∷ ts) n opens w en h =
    subst (λ k. Counted c k opens (fail_all c ts (record_failure c t w))) (omega arith)
      (fail_all-Counted c ts (suc n) opens (record_failure c t w) en
        (record_failure-Counted c t n opens w en h))

-- With a positive threshold, after a success, failures in a row are counted exactly, the breaker
-- stays closed until their number reaches the threshold and is open from then on, and the event
-- "open" is emitted once, when it is reached, and never again.
pub fail_all-opens :
    (c : Config) (ts : List ℕ) (w : World)
    → 0 < c.threshold
    → ((current (fail_all c ts (record_success w))).failures ≡ length ts)
      × (is_closed (current (fail_all c ts (record_success w))).opened_at
          ≡ ltb (length ts) c.threshold)
      × ((fail_all c ts (record_success w)).opens
          ≡ (if ltb (length ts) c.threshold then w.opens else w.opens + 1))
unfolding record_success
fail_all-opens c ts w en =
    rw zero-add at
      (fail_all-Counted c ts 0 w.opens (record_success w) en (refl, ground arith, ground arith))

-- The guard's decision, in full: it rejects exactly when the breaker is enabled and open, and
-- the cooldown is not over or a probe is in flight.
abbrev pub blocked : Config → ℕ → Breaker → Option ℕ → Bool
blocked c now b none = false
blocked c now b (some opened) = ltb now (c.cooldown + opened) || b.probe_in_flight

guard_opened_decides :
    (c : Config) (now : ℕ) (w : World) (b : Breaker) (o : Option ℕ)
    → (guard_opened c now w b o).0
      ≡ (if blocked c now b o then rejected b.failures c.cooldown else admitted)
unfolding guard_opened reject
guard_opened_decides c now w b none = refl
guard_opened_decides c now w b (some t) = ground arith

-- With a positive threshold the guard raises exactly when the breaker is open and either its
-- cooldown is not over or a probe is in flight, and then it reports the failures counted and the
-- cooldown.
pub guard_decides :
    (c : Config) (now : ℕ) (w : World)
    → 0 < c.threshold
    → (guard c now w).0 ≡ (
        if blocked c now (current w) (current w).opened_at
        then rejected (current w).failures c.cooldown
        else admitted)
guard_decides c now w en =
    rw (guard_enabled c now w en) (guard_opened_decides c now w (current w) (current w).opened_at)

-- A disabled breaker (threshold 0) admits every call, changes nothing, and never opens.
pub guard_disabled :
    (c : Config) (now later : ℕ) (w : World)
    → c.threshold ≡ 0
    → (guard c now w ≡ (admitted, w))
      × ((current (record_failure c later w)).opened_at ≡ (current w).opened_at)
unfolding guard record_failure
guard_disabled c now later w e = (ground arith, ground arith)
