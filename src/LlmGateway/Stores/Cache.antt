-- ===== src/LlmGateway/Stores/Cache.antt =====
-- What the answer cache of app/llm_gateway/stores.py returns.
use customer_service.Prelude.{
  ℕ, ◌+◌, ◌≡◌, ◌≢◌, ◌||◌, Option, none, some, arith, ltb, leb, ◌==◌, if◌then◌else◌,
}
use customer_service.Prelude.Text.{Text, Text-discrete}
use customer_service.Prelude.Dict.{get, get-put, get-pop}
use customer_service.LlmGateway.Stores.{
  Store, Entry, TokenUsage, get_cache, set_cache, add_usage, add_cache_hit,
}

-- An answer that was stored at `now` is returned until its time to live is over, the last moment
-- included, and without limit if that time is 0; afterwards it is a miss.
pub get_cache-set_cache :
    (s : Store) (key value : Text) (ttl now later : ℕ)
    → (get_cache key later (set_cache key value ttl now s)).0
      ≡ (if ttl == 0 || leb later (now + ttl) then some value else none)
unfolding get_cache set_cache
get_cache-set_cache s key value ttl now later =
    ground
      (arith, get-put Text-discrete key key (value, if ltb 0 ttl then now + ttl else 0) s.cache)

-- Storing one answer changes what no other key returns.
pub get_cache-set_cache_ne :
    (s : Store) (key other value : Text) (ttl now later : ℕ)
    → key ≢ other
    → (get_cache other later (set_cache key value ttl now s)).0 ≡ (get_cache other later s).0
unfolding get_cache set_cache
get_cache-set_cache_ne s key other value ttl now later h =
    ground
      (arith, get-put Text-discrete key other (value, if ltb 0 ttl then now + ttl else 0) s.cache)

-- what the cache holds under a key, expired or not
abbrev pub entry : Text → Store → Option Entry
entry key s = get Text-discrete key s.cache

pub get_cache_of_entry :
    (key : Text) (now : ℕ) (s t : Store)
    → entry key t ≡ entry key s
    → (get_cache key now t).0 ≡ (get_cache key now s).0
unfolding get_cache
get_cache_of_entry key now s t e = rw (get_cache, e) (ground arith)

-- a lookup that finds something changes nothing
pub get_cache_found :
    (key value : Text) (now : ℕ) (s : Store)
    → (get_cache key now s).0 ≡ some value
    → (get_cache key now s).1 ≡ s
unfolding get_cache
get_cache_found key value now s e = ground (arith, e)

pub entry-get_cache_ne :
    (key other : Text) (now : ℕ) (s : Store)
    → key ≢ other
    → entry other (get_cache key now s).1 ≡ entry other s
unfolding get_cache
entry-get_cache_ne key other now s n = ground (arith, get-pop Text-discrete key other s.cache, n)

pub entry-set_cache_ne :
    (key other value : Text) (ttl now : ℕ) (s : Store)
    → key ≢ other
    → entry other (set_cache key value ttl now s) ≡ entry other s
unfolding set_cache
entry-set_cache_ne key other value ttl now s n =
    ground (
      arith,
      get-put Text-discrete key other (value, if ltb 0 ttl then now + ttl else 0) s.cache,
      n,
    )

pub cache-add_usage :
    (t : Text) (u : TokenUsage) (d : Text) (s : Store) → (add_usage t u d s).1.cache ≡ s.cache
unfolding add_usage
cache-add_usage t u d s = ground arith

pub cache-add_cache_hit : (t d : Text) (s : Store) → (add_cache_hit t d s).cache ≡ s.cache
unfolding add_cache_hit
cache-add_cache_hit t d s = ground arith
