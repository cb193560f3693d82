-- ===== src/ChatSlots/Redis/Refines.antt =====
-- The two slot stores of app/chat_slots.py under the same calls.
use customer_service.Prelude.{ℕ, ◌≤◌, ◌≡◌, refl, ap, ap₂, List, [], ◌∷◌}
use customer_service.Prelude.Text.{Text}
use customer_service.ChatSlots.{Store, empty, Acquired, acquire, release, in_flight}
use customer_service.ChatSlots.Leases.{IsValid}
use customer_service.ChatSlots.Invariant.{
  Fresh, Owns, empty-IsValid, purge-IsValid, acquire-IsValid, release-IsValid,
}
use customer_service.ChatSlots.Redis.{SortedSets, redis_acquire, redis_release, redis_in_flight}
use customer_service.ChatSlots.Redis.Sim.{Sim, fresh-Sim, acquire-Sim, in_flight-Sim, release-Sim}

-- a call of a slot store, with the clock and the new token: a tenant, its time to live in seconds
pub data Call : Type 0 where
  acquires : Text → ℕ → ℕ → Text → Call
  releases : Text → Text → Call
  counts : ℕ → Call

pub data Reply : Type 0 where
  acquired : Acquired → Reply
  released : Reply
  counted : ℕ → Reply

module _ (gl tl : ℕ) where
  -- the calls on the store in the process
  unfoldable pub run : List Call → Store → List Reply
  run [] s = []
  run (acquires u ttl now k ∷ cs) s =
      acquired (acquire u gl tl ttl now k s).0 ∷ run cs (acquire u gl tl ttl now k s).1
  run (releases u k ∷ cs) s = released ∷ run cs (release u k s)
  run (counts now ∷ cs) s = counted (in_flight now s).0 ∷ run cs (in_flight now s).1

  -- Calls as the application makes them, from a moment on: the clock does not run backwards, a token
  -- is new, and a slot is given back by its tenant.
  abbrev pub IsHistory : ℕ → Store → List Call → Type 0
  IsHistory t s [] = Unit
  IsHistory t s (acquires u ttl now k ∷ cs) =
      (t ≤ now) × Fresh k s × IsHistory now (acquire u gl tl ttl now k s).1 cs
  IsHistory t s (releases u k ∷ cs) = Owns u k s × IsHistory t (release u k s) cs
  IsHistory t s (counts now ∷ cs) = (t ≤ now) × IsHistory now (in_flight now s).1 cs

  module _ (redis : SortedSets) where
    open redis use {Server, fresh}

    -- the same calls on the shared store
    unfoldable pub run_redis : List Call → Server → List Reply
    run_redis [] r = []
    run_redis (acquires u ttl now k ∷ cs) r =
        acquired (redis_acquire redis u gl tl ttl now k r).0
        ∷ run_redis cs (redis_acquire redis u gl tl ttl now k r).1
    run_redis (releases u k ∷ cs) r = released ∷ run_redis cs (redis_release redis u k r)
    run_redis (counts now ∷ cs) r =
        counted (redis_in_flight redis now r).0 ∷ run_redis cs (redis_in_flight redis now r).1

    run-Sim :
        (t : ℕ) (cs : List Call) (s : Store) (r : Server)
        → IsValid s
        → Sim redis t s r
        → IsHistory t s cs
        → run cs s ≡ run_redis cs r
    unfolding run run_redis in_flight
    run-Sim t [] s r v sim h = refl
    run-Sim t (acquires u ttl now k ∷ cs) s r v sim (later, new, h) =
        let (same, sim') = acquire-Sim redis t now s r v sim later u gl tl ttl k in
        ap₂ (λ a rest. acquired a ∷ rest) same
          (run-Sim now cs (acquire u gl tl ttl now k s).1
            (redis_acquire redis u gl tl ttl now k r).1 (acquire-IsValid u gl tl ttl now k s new v)
            sim' h)
    run-Sim t (releases u k ∷ cs) s r v sim (own, h) = ap (◌∷◌ released) (
        run-Sim t cs (release u k s) (redis_release redis u k r) (release-IsValid u k s own v)
          (release-Sim redis t u k s r sim) h)
    run-Sim t (counts now ∷ cs) s r v sim (later, h) =
        let (same, sim') = in_flight-Sim redis t now s r v sim later in
        ap₂ (λ n rest. counted n ∷ rest) same
          (run-Sim now cs (in_flight now s).1 (redis_in_flight redis now r).1
            (purge-IsValid now s v) sim' h)

    -- The shared store is the store in the process, seen from outside: on any calls as the application
    -- makes them, from an empty start, the two give the same replies, refusals and counts included,
    -- though the shared one purges no more than the sets that a call touches. The server answers, and
    -- its commands do what their documentation says.
    pub run-run_redis : (cs : List Call) → IsHistory 0 empty cs → run cs empty ≡ run_redis cs fresh
    run-run_redis cs h = run-Sim 0 cs empty fresh empty-IsValid (fresh-Sim redis) h
