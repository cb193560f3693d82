-- ===== src/LlmGateway/Stores.antt =====
-- `MemoryGatewayStore` of app/llm_gateway/stores.py: the tokens that each tenant used on each day,
-- and the cache of short answers; `TokenUsage` and `QuotaSnapshot` of app/llm_gateway/types.py. Each
-- method holds the store's lock, so it is one step. The clock and the day are arguments.
pub mod Cache
pub mod Quota
use customer_service.Prelude.{
  ℕ, zero, suc, ◌+◌, Bool, true, false, ◌&&◌, not, Option, none, some, ltb, ◌==◌, if◌then◌else◌,
  List, [],
}
use customer_service.Prelude.Text.{Text, Text-discrete}
use customer_service.Prelude.Dict.{Dict, get, put, pop}

-- `TokenUsage`
pub record TokenUsage : Type 0 where
  pub prompt_tokens : ℕ
  pub completion_tokens : ℕ
  pub total_tokens : ℕ
  pub cached : Bool

abbrev pub no_usage : TokenUsage
no_usage = record { prompt_tokens = 0; completion_tokens = 0; total_tokens = 0; cached = false }

-- `TokenUsage.normalized`: `self.total_tokens or (self.prompt_tokens + self.completion_tokens)`
unfoldable pub normalized : TokenUsage → TokenUsage
normalized u = record u {
  total_tokens =
      if u.total_tokens == 0 then u.prompt_tokens + u.completion_tokens else u.total_tokens;
}

-- a row of `_quota`, and what a `QuotaSnapshot` reports of it
pub record Row : Type 0 where
  pub prompt_tokens : ℕ
  pub completion_tokens : ℕ
  pub total_tokens : ℕ
  pub requests : ℕ
  pub cache_hits : ℕ

abbrev pub new_row : Row
new_row = record {
  prompt_tokens = 0;
  completion_tokens = 0;
  total_tokens = 0;
  requests = 0;
  cache_hits = 0;
}

pub record QuotaSnapshot : Type 0 where
  pub tenant_id : Text
  pub day : Text
  pub row : Row

abbrev pub Account : Type 0
Account = Text × Text

unfoldable pub Account-discrete : Discrete Account
unfolding Text-discrete
Account-discrete = hlevel Text-discrete

-- an entry of `_cache`: the bytes, and when they expire, 0 for never
abbrev pub Entry : Type 0
Entry = Text × ℕ

pub record Store : Type 0 where
  pub quota : Dict Account Row
  pub cache : Dict Text Entry

abbrev pub empty : Store
empty = record { quota = []; cache = [] }

abbrev pub or_new : Option Row → Row
or_new none = new_row
or_new (some r) = r

-- the row that `_row` returns
unfoldable pub row_of : Account → Store → Row
row_of key s = or_new (get Account-discrete key s.quota)

-- `_row`: the row, and the store in which it now stands
row : Account → Store → Row × Store
unfolding row_of
row key s = elim (get Account-discrete key s.quota) [
  | none ↦ (new_row, record s { quota = put Account-discrete key new_row s.quota })
  | some r ↦ (r, s)
]

abbrev write : Account → Row → Store → Store
write key r s = record s { quota = put Account-discrete key r s.quota }

-- `get_quota`
unfoldable pub get_quota : Text → Text → Store → QuotaSnapshot × Store
unfolding row
get_quota tenant_id day s =
    let (r, s') = row (tenant_id, day) s in
    (record { tenant_id = tenant_id; day = day; row = r }, s')

-- one more call's tokens on a row
abbrev pub add_to_row : TokenUsage → Row → Row
add_to_row u r = record r {
  prompt_tokens = r.prompt_tokens + u.prompt_tokens;
  completion_tokens = r.completion_tokens + u.completion_tokens;
  total_tokens = r.total_tokens + u.total_tokens;
  requests = r.requests + 1;
}

-- `add_usage`
unfoldable pub add_usage : Text → TokenUsage → Text → Store → QuotaSnapshot × Store
unfolding row normalized
add_usage tenant_id usage day s =
    let (r, s') = row (tenant_id, day) s in
    let r' = add_to_row (normalized usage) r in
    (record { tenant_id = tenant_id; day = day; row = r' }, write (tenant_id, day) r' s')

-- `add_cache_hit`
unfoldable pub add_cache_hit : Text → Text → Store → Store
unfolding row
add_cache_hit tenant_id day s =
    let (r, s') = row (tenant_id, day) s in
    write (tenant_id, day) (record r { cache_hits = r.cache_hits + 1 }) s'

-- `get_cache`: an entry that has expired is dropped
unfoldable pub get_cache : Text → ℕ → Store → Option Text × Store
get_cache key now s = elim (get Text-discrete key s.cache) [
  | none ↦ (none, s)
  | some (value, expires) ↦
      if not (expires == 0) && ltb expires now
      then (none, record s { cache = pop Text-discrete key s.cache })
      else (some value, s)
]

-- `set_cache`: with `ttl` 0 the entry never expires
unfoldable pub set_cache : Text → Text → ℕ → ℕ → Store → Store
set_cache key value ttl now s =
    let expires = if ltb 0 ttl then now + ttl else 0 in
    record s { cache = put Text-discrete key (value, expires) s.cache }
