-- ===== src/SessionLock/Tests.antt =====
-- A server whose values expire, and small runs of the locks of app/session_cache.py.
use customer_service.Prelude.{
  ℕ, ◌+◌, ◌≤◌, ◌≡◌, refl, Bool, true, false, Option, none, some, arith, ltb, if◌then◌else◌, ite,
  ◌==◌, [],
}
use customer_service.Prelude.Text.{Text, codes, Text-discrete}
use customer_service.Prelude.Dict.{get, put, among}
use customer_service.SessionLock.{ExpiringKeys, wait, Waited, try_local, try_shared, lock_key}
use customer_service.SessionLock.Wait
use customer_service.SessionLock.Wait.{IsFair}
use customer_service.SessionLock.Exclusion
use customer_service.SessionLock.Exclusion.{Turn}
use customer_service.SessionLock.Local

-- a value and its end, under each key
abbrev Table : Type 0
Table = Text → Option (Text × ℕ)

abbrev alive : ℕ → Option (Text × ℕ) → Option Text
alive t none = none
alive t (some (v, end)) = if ltb t end then some v else none

abbrev write : Text → Text → ℕ → ℕ → Table → Option Text → Bool × Table
write key v px now s none = (true, λ k. ite (Text-discrete key k) (some (v, now + px)) (s k))
write key v px now s (some w) = (false, s)

alive_earlier :
    (e : Option (Text × ℕ)) (t later : ℕ) (v : Text)
    → t ≤ later
    → alive later e ≡ some v
    → alive t e ≡ some v
alive_earlier none t later v h p = p
alive_earlier (some (w, end)) t later v h p = ground (arith, h, p)

alive-ite :
    {P : Type 0} (d : Dec P) (t : ℕ) (a b : Option (Text × ℕ))
    → alive t (ite d a b) ≡ ite d (alive t a) (alive t b)
alive-ite (yes p) t a b = refl
alive-ite (no p) t a b = refl

abbrev server : ExpiringKeys
server = record {
  Server = Table;
  find = λ k t s. alive t (s k);
  set_nx_px = λ key v px now s. write key v px now s (alive now (s key));
  del = λ key s k. ite (Text-discrete key k) none (s k);
  find_earlier = λ k t later s v h p. alive_earlier (s k) t later v h p;
  set_free = λ key v px now s e.
      rw e (refl, λ k t h. alive-ite (Text-discrete key k) t (some (v, now + px)) (s k));
  set_taken = λ key v w px now s e. rw e;
  find-del = λ key s k t. alive-ite (Text-discrete key k) t none (s k);
}

-- a lock that comes free at the third try, on a clock that ticks from 10
wait-IsFair_example :
    (w : Waited) × (wait (λ n. n == 2) (λ n. 10 + n) 15 6 0 ≡ some w)
    × IsFair (λ n. n == 2) (λ n. 10 + n) 15 0 w
wait-IsFair_example = Wait.wait-IsFair (λ n. n == 2) (λ n. 10 + n) 15 (λ n. omega arith)

abbrev thread : Text
thread = codes "t:u:s"

abbrev turn : Turn
turn = record { thread_id = thread; since = 4 }

abbrev started : Exclusion.World server 100
started = record { server = λ k. none; now = 4; turns = [] }

running :
    Exclusion.Reach server 100 (λ k. none) (Exclusion.entered server 100 started thread (codes "1"))
unfolding get try_shared Text-discrete lock_key
running =
    Exclusion.Reach.next (Exclusion.Reach.here 4)
      (Exclusion.Step.enters thread (codes "1") refl refl)

Reach-IsExclusive_example : codes "1" ≡ codes "1"
unfolding get put Text-discrete
Reach-IsExclusive_example =
    Exclusion.Reach-IsExclusive server 100 (λ k. none)
      (Exclusion.entered server 100 started thread (codes "1")) running (codes "1") (codes "1") turn
      turn refl refl refl (omega arith) (omega arith)

abbrev idle : Local.World
idle = record { held = []; turns = [] }

busy : Local.Reach (Local.entered idle thread (codes "1"))
unfolding get among try_local
busy = Local.Reach.next Local.Reach.here (Local.Step.enters thread (codes "1") refl refl)

Reach-IsHeld_example : Local.IsHeld (Local.entered idle thread (codes "1"))
Reach-IsHeld_example = Local.Reach-IsHeld (Local.entered idle thread (codes "1")) busy
