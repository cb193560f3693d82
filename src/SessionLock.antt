-- ===== src/SessionLock.antt =====
-- The locks that let one turn at a time run on a conversation, app/session_cache.py: the loop that
-- waits for a lock, the lock of one process (`AsyncDictSessionLock`, whose sync methods have the same
-- statements) and the lock that workers share (`RedisSessionLock`, `AsyncRedisSessionLock`). The Redis
-- server is a parameter; one command or script is one step on it.
pub mod Wait
pub mod Local
pub mod Exclusion
pub mod Tests
use customer_service.Prelude.{
  ℕ, zero, suc, ◌+◌, ◌*◌, ◌≤◌, ◌<◌, ◌≡◌, max, Bool, true, false, not, Option, none, some, leb, ltb,
  if◌then◌else◌, List, [], ◌∷◌, ◌++◌, keep_if, ite,
}
use customer_service.Prelude.Text.{Text, codes, Text-discrete, same}
use customer_service.Prelude.Dict.{among}

-- what `acquire` does: it returns a token, at some try, or raises `SessionBusyError`
pub data Waited : Type 0 where
  got : ℕ → Waited
  session_busy : Waited

-- the milliseconds of a lease: `max(1000, int(ttl_seconds * 1000))` in whole seconds
unfoldable pub ttl_ms : ℕ → ℕ
ttl_ms ttl_seconds = max 1000 (ttl_seconds * 1000)

module _ (tries : ℕ → Bool) (clock : ℕ → ℕ) (deadline : ℕ) where
  -- the loop of `acquire`: whether try `n` succeeds, and the clock behind it; `none` would be a loop
  -- that has not ended after as many rounds as the fuel
  unfoldable pub wait : ℕ → ℕ → Option Waited
  wait zero n = none
  wait (suc fuel) n =
      let again = wait fuel (suc n) in
      if tries n then some (got n) else if leb deadline (clock n) then some session_busy else again

-- `AsyncDictSessionLock`: one try of its loop, and `release`, which does not look at the token
unfoldable pub try_local : Text → List Text → Bool × List Text
try_local thread_id held =
    if among Text-discrete thread_id held then (false, held) else (true, thread_id ∷ held)

unfoldable pub release_local : Text → List Text → List Text
release_local thread_id held = keep_if (λ x. not (same x thread_id)) held

-- `_key`
unfoldable pub lock_key : Text → Text
lock_key thread_id = codes "cs:session:lock:" ++ (codes "{" ++ (thread_id ++ codes "}"))

-- A server with values that expire: what is found under a key at a time, behind SET with NX and PX
-- and behind DEL. A value that is found has been there, and one that is gone stays away.
pub record ExpiringKeys : Type 1 where
  pub Server : Type 0
  pub find : Text → ℕ → Server → Option Text
  pub set_nx_px : Text → Text → ℕ → ℕ → Server → Bool × Server
  pub del : Text → Server → Server
  pub find_earlier :
      (k : Text) (t later : ℕ) (s : Server) (v : Text)
      → t ≤ later
      → find k later s ≡ some v
      → find k t s ≡ some v
  pub set_free :
      (key v : Text) (px now : ℕ) (s : Server)
      → find key now s ≡ none
      → ((set_nx_px key v px now s).0 ≡ true)
        × ((k : Text) (t : ℕ)
            → now ≤ t
            → find k t (set_nx_px key v px now s).1
              ≡ ite (Text-discrete key k) (if ltb t (now + px) then some v else none) (find k t s))
  pub set_taken :
      (key v w : Text) (px now : ℕ) (s : Server)
      → find key now s ≡ some w
      → set_nx_px key v px now s ≡ (false, s)
  pub find-del :
      (key : Text) (s : Server) (k : Text) (t : ℕ)
      → find k t (del key s) ≡ ite (Text-discrete key k) none (find k t s)

module _ (redis : ExpiringKeys) where
  open redis use {Server, find, set_nx_px, del}

  -- `RedisSessionLock`: one try of its loop, with a new token
  unfoldable pub try_shared : Text → Text → ℕ → ℕ → Server → Bool × Server
  try_shared thread_id new px now s = set_nx_px (lock_key thread_id) new px now s

  -- `_UNLOCK_LUA`
  unfoldable pub unlock_lua : Text → Text → ℕ → Server → Server
  unlock_lua key mine now s = elim (find key now s) [
    | none ↦ s
    | some v ↦ if same v mine then del key s else s
  ]

  -- `release`
  unfoldable pub release_shared : Text → Text → ℕ → Server → Server
  unfolding unlock_lua
  release_shared thread_id mine now s = unlock_lua (lock_key thread_id) mine now s
