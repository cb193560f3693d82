-- ===== src/ToolCache.antt =====
-- The cache of tool results, app/tool_cache.py: the snapshot of the session, and behind it a store
-- with expiry, here the one in the process. JSON, the validation of reports and their fields are
-- parameters. `now` is the time of a call.
pub mod Keys
pub mod Orders
pub mod Tests
use customer_service.Prelude.{
  ℕ, ◌+◌, ◌≡◌, ◌<◌, Bool, true, false, ◌&&◌, ◌||◌, not, Option, none, some, List, [], ◌∷◌, ◌++◌,
  take, if◌then◌else◌, ltb, ◌==◌, any,
}
use customer_service.Prelude.Text.{
  Text, codes, Text-discrete, same, strip, has_text, text_of, replace,
}
use customer_service.Prelude.Dict.{Dict, get, put, pop}

-- a report of a tool, the dictionary that a session keeps of it with its key (the stripped number of
-- an order, the key beside the result of a course), and the JSON text of a cached one
pub record Reports : Type 1 where
  pub Report : Type 0
  pub SessionSnapshot : Type 0
  pub key_in : SessionSnapshot → Text
  pub model_validate : SessionSnapshot → Option Report
  pub cached_at_in : SessionSnapshot → ℕ
  pub dumps : Report → ℕ → Text
  pub loads : Text → Option (Report × ℕ)
  pub dumps-filled : (report : Report) (now : ℕ) → has_text (dumps report now) ≡ true
  pub loads-dumps : (report : Report) (now : ℕ) → loads (dumps report now) ≡ some (report, now)

pub data ToolCacheSource : Type 0 where
  session redis : ToolCacheSource

-- `_redis_key`
unfoldable pub redis_key : Text → Text → Text → Text → Text
redis_key tenant_id user_id tool resource_key =
    codes "cs:tool:result:"
    ++ (tenant_id ++ b':' ∷ (user_id ++ b':' ∷ (tool ++ b':' ∷ replace b':' b'_' resource_key)))

-- `_MemoryToolCacheStore`: a value, and when it expires, 0 for never
abbrev pub MemoryStore : Type 0
MemoryStore = Dict Text (Text × ℕ)

abbrev pub looked_up : Text → ℕ → MemoryStore → Option (Text × ℕ) → Option Text × MemoryStore
looked_up key now rows none = (none, rows)
looked_up key now rows (some (value, expires)) =
    if not (expires == 0) && ltb expires now
    then (none, pop Text-discrete key rows)
    else (some value, rows)

-- `_MemoryToolCacheStore.get`
unfoldable pub memory_get : Text → ℕ → MemoryStore → Option Text × MemoryStore
memory_get key now rows = looked_up key now rows (get Text-discrete key rows)

-- `_MemoryToolCacheStore.set`
unfoldable pub memory_set : Text → Text → ℕ → ℕ → MemoryStore → MemoryStore
memory_set key value ttl now rows =
    put Text-discrete key (value, (if ltb 0 ttl then now + ttl else 0)) rows

-- what both caches do with a report; a `cached_at` that is missing is 0
module _ (reports : Reports) where
  open reports use {Report, SessionSnapshot, key_in, model_validate, cached_at_in, dumps, loads}

  pub record CachedToolResult : Type 0 where
    pub payload : Report
    pub cached_at : ℕ
    pub source : ToolCacheSource

  abbrev pub or_now : ℕ → ℕ → ℕ
  or_now now cached_at = if cached_at == 0 then now else cached_at

  abbrev pub read_blob : ℕ → Option (Report × ℕ) → Option CachedToolResult
  read_blob now none = none
  read_blob now (some (report, cached_at)) =
      some (record { payload = report; cached_at = or_now now cached_at; source = redis })

  abbrev pub read_raw : ℕ → Option Text → Option CachedToolResult
  read_raw now none = none
  read_raw now (some raw) = if has_text raw then read_blob now (loads raw) else none

  -- the look-up in the store
  unfoldable pub from_store : Text → ℕ → MemoryStore → Option CachedToolResult × MemoryStore
  unfolding memory_get
  from_store key now rows = let (raw, rows') = memory_get key now rows in (read_raw now raw, rows')

  abbrev pub validated : ℕ → ℕ → Option Report → Option CachedToolResult
  validated now cached_at none = none
  validated now cached_at (some report) =
      some (record { payload = report; cached_at = or_now now cached_at; source = session })

  -- the look-up in the snapshot of the session, which counts for its own key
  unfoldable pub from_session : Text → ℕ → Option SessionSnapshot → Option CachedToolResult
  from_session key now none = none
  from_session key now (some snapshot) =
      if same (key_in snapshot) key
      then validated now (cached_at_in snapshot) (model_validate snapshot)
      else none

  abbrev pub or_store :
      Text → ℕ → MemoryStore → Option CachedToolResult → Option CachedToolResult × MemoryStore
  or_store key now rows none = from_store key now rows
  or_store key now rows (some result) = (some result, rows)

  -- `put_cached_order` and `put_cached_course` from the key of the report on
  unfoldable pub put_report :
      Bool → Bool → Text → ℕ → Text → Text → Text → Report → ℕ → MemoryStore → MemoryStore
  unfolding memory_set redis_key
  put_report enabled cacheable key ttl tool tenant_id user_id report now rows =
      if enabled && (cacheable && (has_text (strip key) && ltb 0 ttl))
      then memory_set (redis_key tenant_id user_id tool (strip key)) (dumps report now) ttl now rows
      else rows

  -- `get_cached_course`; the key in the snapshot stands for the key beside it
  unfoldable pub get_cached_course :
      Bool
      → Option SessionSnapshot
      → Text
      → Text
      → Text
      → ℕ
      → MemoryStore
      → Option CachedToolResult × MemoryStore
  unfolding from_session from_store redis_key
  get_cached_course enabled snapshot resource_key tenant_id user_id now rows =
      if enabled && has_text (strip resource_key)
      then or_store (redis_key tenant_id user_id (codes "course_retrieve") (strip resource_key)) now
          rows (from_session (strip resource_key) now snapshot)
      else (none, rows)

  -- `get_cached_order`; the access is tested before anything is read
  unfoldable pub get_cached_order :
      (Text → Text → Option Text → Bool)
      → Bool
      → Option SessionSnapshot
      → Text
      → Text
      → Text
      → ℕ
      → MemoryStore
      → Option CachedToolResult × MemoryStore
  unfolding from_session from_store redis_key
  get_cached_order can_access enabled snapshot order_no tenant_id user_id now rows =
      if enabled
        && (has_text (strip order_no) && can_access (strip order_no) tenant_id (some user_id))
      then or_store (redis_key tenant_id user_id (codes "order_query") (strip order_no)) now rows
          (from_session (strip order_no) now snapshot)
      else (none, rows)

-- `is_cacheable_order_report` and `is_cacheable_course_result`, of the field that they read
unfoldable pub is_cacheable_order_report : Text → Bool
is_cacheable_order_report current_status =
    not (any (same current_status) (codes "busy" ∷ codes "error" ∷ codes "not_found" ∷ []))

unfoldable pub is_cacheable_course_result : Text → Bool
is_cacheable_course_result course_name =
    not (any (same (strip course_name)) ([] ∷ codes "未找到课程" ∷ []))
