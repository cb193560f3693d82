-- ===== src/ChatSlots/Redis.antt =====
-- The slots that workers share, `RedisChatSlotStore` of app/chat_slots.py, with its Lua scripts. The
-- Redis server is a parameter: its sorted-set commands with what their documentation says. A script
-- runs alone on the server, so it is one step. The server is one that answers.
pub mod Scores
pub mod Sim
pub mod Refines
pub mod Tests
use customer_service.Prelude.{
  ℕ, ◌+◌, ◌≡◌, ◌≢◌, max, Bool, true, false, Option, none, some, leb, if◌then◌else◌, List, [], ◌∷◌,
  ◌++◌, length, ite,
}
use customer_service.Prelude.Text.{Text, codes, Text-discrete}
use customer_service.Prelude.Dict.{Dict, get, Distinct}
use customer_service.ChatSlots.{Leases, Acquired, token, busy, cluster, tenant}

-- `GLOBAL_KEY`
abbrev pub global_key : Text
global_key = codes "cs:chat:inflight:{cs:chat}"

-- `tenant_slot_key`
abbrev pub tenant_slot_key : Text → Text
tenant_slot_key tenant_id = codes "cs:chat:tenant:{cs:chat}:" ++ tenant_id

-- a score, if it is above a bound
abbrev pub above : ℕ → Option ℕ → Option ℕ
above now none = none
above now (some score) = if leb score now then none else some score

-- A server with sorted sets: what a member's score is after each command, and that ZCARD counts the
-- members.
pub record SortedSets : Type 1 where
  pub Server : Type 0
  pub fresh : Server
  pub score : Text → Text → Server → Option ℕ
  pub zremrangebyscore : Text → ℕ → Server → Server
  pub zadd : Text → ℕ → Text → Server → Server
  pub zrem : Text → Text → Server → Server
  pub zcard : Text → Server → ℕ
  pub score-fresh : (key m : Text) → score key m fresh ≡ none
  pub score-zremrangebyscore :
      (key : Text) (now : ℕ) (s : Server) (k m : Text)
      → score k m (zremrangebyscore key now s)
        ≡ ite (Text-discrete key k) (above now (score k m s)) (score k m s)
  pub score-zadd :
      (key : Text) (e : ℕ) (j : Text) (s : Server) (k m : Text)
      → score k m (zadd key e j s)
        ≡ ite (Text-discrete key k) (ite (Text-discrete j m) (some e) (score k m s)) (score k m s)
  pub score-zrem :
      (key j : Text) (s : Server) (k m : Text)
      → score k m (zrem key j s)
        ≡ ite (Text-discrete key k) (ite (Text-discrete j m) none (score k m s)) (score k m s)
  pub zcard-counts :
      (key : Text) (s : Server) (d : Dict Text ℕ)
      → Distinct Text-discrete d
      → ((m : Text) → score key m s ≡ get Text-discrete m d)
      → zcard key s ≡ length d

-- what `_ACQUIRE_LUA` returns: 1, -1 or -2
pub data Code : Type 0 where
  one minus_one minus_two : Code

module _ (redis : SortedSets) where
  open redis use {Server, zremrangebyscore, zadd, zrem, zcard}

  -- `_ACQUIRE_LUA` behind its two purges
  unfoldable pub take_lua : Text → ℕ → ℕ → ℕ → Text → Server → Code × Server
  take_lua key global_limit tenant_limit expire_at k s =
      if leb global_limit (zcard global_key s)
      then (minus_one, s)
      else if leb tenant_limit (zcard key s)
      then (minus_two, s)
      else (one, zadd key expire_at k (zadd global_key expire_at k s))

  unfoldable pub purge_lua : Text → ℕ → Server → Server
  purge_lua key now s = zremrangebyscore key now (zremrangebyscore global_key now s)

  -- `_ACQUIRE_LUA`
  unfoldable pub acquire_lua : Text → ℕ → ℕ → ℕ → ℕ → Text → Server → Code × Server
  unfolding take_lua purge_lua
  acquire_lua key now global_limit tenant_limit expire_at k s =
      take_lua key global_limit tenant_limit expire_at k (purge_lua key now s)

  -- `_RELEASE_LUA` and `_COUNT_LUA`
  unfoldable pub release_lua : Text → Text → Server → Server
  release_lua key k s = zrem key k (zrem global_key k s)

  unfoldable pub count_lua : ℕ → Server → ℕ × Server
  count_lua now s =
      (zcard global_key (zremrangebyscore global_key now s), zremrangebyscore global_key now s)

  -- the reply to a code
  abbrev pub reply : Text → Code → Acquired
  reply k minus_one = busy cluster
  reply k minus_two = busy tenant
  reply k one = token k

  -- `acquire`, `release` and `in_flight`
  unfoldable pub redis_acquire : Text → ℕ → ℕ → ℕ → ℕ → Text → Server → Acquired × Server
  unfolding acquire_lua
  redis_acquire tenant_id global_limit tenant_limit ttl_seconds now k s =
      let (code, s') =
        acquire_lua (tenant_slot_key tenant_id) now global_limit tenant_limit
          (now + max 1 ttl_seconds) k s in
      (reply k code, s')

  unfoldable pub redis_release : Text → Text → Server → Server
  unfolding release_lua
  redis_release tenant_id k s = release_lua (tenant_slot_key tenant_id) k s

  unfoldable pub redis_in_flight : ℕ → Server → ℕ × Server
  unfolding count_lua
  redis_in_flight now s = count_lua now s
