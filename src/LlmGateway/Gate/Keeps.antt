-- ===== src/LlmGateway/Gate/Keeps.antt =====
-- What a call of `_gated` of app/llm_gateway/gateway.py leaves of the answers of others.
use customer_service.Prelude.{
  ℕ, ◌≡◌, ◌≢◌, refl, ap, ◌∙◌, Bool, Bool-cases, true, false, ◌&&◌, Option, Option-cases, none, some,
  ◌⊎◌, inl, inr, arith, leb, length, ◌∷◌,
}
use customer_service.Prelude.Text.{Text, Text-discrete}
use customer_service.Prelude.Dict.{get}
use customer_service.LlmGateway.Circuit.{World}
use customer_service.LlmGateway.Calls.{Outcome, Attempted, call_with_circuit}
use customer_service.LlmGateway.Stores.{Store, get_cache, add_usage, add_cache_hit}
use customer_service.LlmGateway.Stores.Cache.{
  entry, get_cache_found, entry-get_cache_ne, entry-set_cache_ne, cache-add_usage,
  cache-add_cache_hit,
}
use customer_service.LlmGateway.Stores.Quota.{cache-get_quota}
use customer_service.LlmGateway.Gate.Laws.{Outcome-cases}
use customer_service.LlmGateway.Gate.{
  Settings, CallPolicy, Request, Times, Answers, Shared, assert_quota, read_cache, write_cache,
  commit, usage_of, remember, finish, call_upstream, hit, look_up, admit, gated, cache_on,
  cache_key,
}

pub cache-assert_quota :
    (cfg : Settings) (policy : CallPolicy) (q : Request) (s : Store)
    → (assert_quota cfg policy q s).1.cache ≡ s.cache
unfolding assert_quota
cache-assert_quota cfg policy q s = ground (arith, cache-get_quota q.tenant q.day s)

entry_same : (key : Text) (s t : Store) → t.cache ≡ s.cache → entry key t ≡ entry key s
entry_same key s t e = ap (λ c. get Text-discrete key c) e

module _ {R : Type 0} (answers : Answers R) (cfg : Settings) (policy : CallPolicy) (q : Request)
    (times : Times) (key : Text) where
  -- the call does not write under the key
  abbrev Avoids : Type 0
  Avoids = (cache_on answers cfg policy q times ≡ false) ⊎ (cache_key q ≢ key)

  entry-write_cache :
      (r : R) (s : Store)
      → cache_key q ≢ key
      → entry key (write_cache answers (cache_key q) r cfg.llm_cache_ttl_seconds times.write s)
        ≡ entry key s
  unfolding write_cache
  entry-write_cache r s n = elim (Option-cases (answers.encode r)) [
    | inl e ↦ rw (write_cache, e) refl
    | inr (blob, e) ↦
        rw (write_cache, e)
          (entry-set_cache_ne (cache_key q) key blob cfg.llm_cache_ttl_seconds times.write s n)
  ]

  entry-remember :
      (r : R) (w : Shared)
      → Avoids
      → entry key (remember answers cfg policy q times r w).store ≡ entry key w.store
  unfolding remember
  entry-remember r w (inl off) = rw off refl
  entry-remember r w (inr n) =
      elim (Bool-cases (
        cache_on answers cfg policy q times
        && leb (length (answers.text r)) cfg.llm_cache_max_chars)) [
          | inl e ↦ rw e (entry-write_cache r w.store n)
          | inr e ↦ rw e refl
        ]

  entry-finish :
      (x : Attempted R × World) (w : Shared)
      → Avoids
      → entry key (finish answers cfg policy q times x w).1.store ≡ entry key w.store
  unfolding finish commit
  entry-finish (x, circuit) w h = elim (Outcome-cases x.outcome) [
    | inl (r, e) ↦ rw e (
        entry-remember r
          (commit answers cfg policy q times (usage_of answers cfg policy q times r)
            (record w { circuit = circuit }))
          h
        ∙ entry_same key w.store
            (add_usage q.tenant (usage_of answers cfg policy q times r) q.day w.store).1
            (cache-add_usage q.tenant (usage_of answers cfg policy q times r) q.day w.store))
    | inr (p, e) ↦ rw e refl
  ]

  entry-call_upstream :
      (fn : ℕ → Outcome R) (w : Shared)
      → Avoids
      → entry key (call_upstream answers cfg policy q times fn w).1.store ≡ entry key w.store
  unfolding call_upstream
  entry-call_upstream fn w h =
      entry-finish
        (call_with_circuit cfg.circuit times.begin times.end fn cfg.llm_max_retries w.circuit) w h

  entry-look_up :
      (fn : ℕ → Outcome R) (x : Option R × Store) (w : Shared)
      → cache_key q ≢ key
      → entry key (look_up answers cfg policy q times fn x w).1.store ≡ entry key x.1
  unfolding look_up hit
  entry-look_up fn (some r, s) w n =
      entry_same key s (add_cache_hit q.tenant q.day s) (cache-add_cache_hit q.tenant q.day s)
  entry-look_up fn (none, s) w n = entry-call_upstream fn (record w { store = s }) (inr n)

  -- a call under another key
  entry-admit_ne :
      (fn : ℕ → Outcome R) (x : Bool × Store) (w : Shared)
      → cache_key q ≢ key
      → entry key (admit answers cfg policy q times fn x w).1.store ≡ entry key x.1
  unfolding admit read_cache
  entry-admit_ne fn (false, s) w n = refl
  entry-admit_ne fn (true, s) w n = elim (Bool-cases (cache_on answers cfg policy q times)) [
    | inl e ↦ rw e (
        entry-look_up fn (read_cache answers (cache_key q) times.lookup s) w n
        ∙ entry-get_cache_ne (cache_key q) key times.lookup s n)
    | inr e ↦ rw e (entry-call_upstream fn (record w { store = s }) (inr n))
  ]

  entry-look_up_found :
      (fn : ℕ → Outcome R) (x : Option R × Store) (w : Shared) (r : R)
      → x.0 ≡ some r
      → entry key (look_up answers cfg policy q times fn x w).1.store ≡ entry key x.1
  unfolding look_up hit
  entry-look_up_found fn (some a, s) w r e =
      entry_same key s (add_cache_hit q.tenant q.day s) (cache-add_cache_hit q.tenant q.day s)
  entry-look_up_found fn (none, s) w r e = cc e

  -- a call that finds an answer under its key, or does not use the cache
  entry-admit_found :
      (fn : ℕ → Outcome R) (x : Bool × Store) (w : Shared) (bytes : Text) (r : R)
      → (get_cache (cache_key q) times.lookup x.1).0 ≡ some bytes
      → (read_cache answers (cache_key q) times.lookup x.1).0 ≡ some r
      → entry key (admit answers cfg policy q times fn x w).1.store ≡ entry key x.1
  unfolding admit
  entry-admit_found fn (false, s) w bytes r found read = refl
  entry-admit_found fn (true, s) w bytes r found read =
      elim (Bool-cases (cache_on answers cfg policy q times)) [
        | inl e ↦ rw e (
            entry-look_up_found fn (read_cache answers (cache_key q) times.lookup s) w r read
            ∙ same_store)
        | inr e ↦ rw e (entry-call_upstream fn (record w { store = s }) (inl e))
      ]
    where
      same_store : entry key (read_cache answers (cache_key q) times.lookup s).1 ≡ entry key s
      same_store =
          unfold read_cache in
          entry_same key s (get_cache (cache_key q) times.lookup s).1
            (ap (λ (t : Store). t.cache) (get_cache_found (cache_key q) bytes times.lookup s found))

  pub entry-gated_ne :
      (fn : ℕ → Outcome R) (w : Shared)
      → cache_key q ≢ key
      → entry key (gated answers cfg policy q times fn w).1.store ≡ entry key w.store
  unfolding gated
  entry-gated_ne fn w n =
      entry-admit_ne fn (assert_quota cfg policy q w.store) w n
      ∙ entry_same key w.store (assert_quota cfg policy q w.store).1
          (cache-assert_quota cfg policy q w.store)

  pub entry-gated_found :
      (fn : ℕ → Outcome R) (w : Shared) (first : ℕ) (rest : Text) (r : R)
      → (get_cache (cache_key q) times.lookup (assert_quota cfg policy q w.store).1).0
        ≡ some (first ∷ rest)
      → answers.decode (first ∷ rest) ≡ some r
      → entry key (gated answers cfg policy q times fn w).1.store ≡ entry key w.store
  unfolding gated read_cache
  entry-gated_found fn w first rest r found decodes =
      entry-admit_found fn (assert_quota cfg policy q w.store) w (first ∷ rest) r found
        (rw found decodes)
      ∙ entry_same key w.store (assert_quota cfg policy q w.store).1
          (cache-assert_quota cfg policy q w.store)
