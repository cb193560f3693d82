-- ===== src/LlmGateway/Gate/Remember.antt =====
-- The short-answer cache through calls of `_gated` of app/llm_gateway/gateway.py.
use customer_service.Prelude.{
  ℕ, ◌+◌, ◌≤◌, ◌<◌, ◌≡◌, ◌∙◌, Bool, true, false, Option, none, some, arith, leb, le→leb, ◌==◌, ◌||◌,
  ◌∷◌, length, inl, inr, ◌≢◌, ◌⊎◌, ap, List, [], All,
}
use customer_service.Prelude.Text.{Text, Text-discrete}
use customer_service.Prelude.Dict.{get}
use customer_service.LlmGateway.Circuit.{World}
use customer_service.LlmGateway.Calls.{Outcome, returns, Attempted, call_with_circuit}
use customer_service.LlmGateway.Stores.{Store, get_cache}
use customer_service.LlmGateway.Stores.Cache.{entry, get_cache-set_cache, get_cache_of_entry}
use customer_service.LlmGateway.Gate.Keeps.{cache-assert_quota, entry-gated_ne, entry-gated_found}
use customer_service.LlmGateway.Gate.Laws.{Outcome-cases}
use customer_service.LlmGateway.Gate.{
  Settings, CallPolicy, Request, Times, Answers, Shared, assert_quota, read_cache, write_cache,
  commit, usage_of, remember, finish, hit, look_up, admit, gated, cache_on, cache_key,
}

-- a call of the gate, whoever makes it
pub record Call (R : Type 0) : Type 0 where
  pub policy : CallPolicy
  pub request : Request
  pub times : Times
  pub upstream : ℕ → Outcome R

-- calls that run one after the other
unfoldable pub gated_all : {R : Type 0} → Answers R → Settings → List (Call R) → Shared → Shared
gated_all answers cfg [] w = w
gated_all answers cfg (c ∷ calls) w =
    gated_all answers cfg calls (gated answers cfg c.policy c.request c.times c.upstream w).1

-- whether an answer that was written at one time is still there at another
abbrev pub is_alive : ℕ → ℕ → ℕ → Bool
is_alive ttl written now = ttl == 0 || leb now (written + ttl)

module _ {R : Type 0} (answers : Answers R) (cfg : Settings) (policy : CallPolicy) (q : Request)
    (r : R) (first : ℕ) (rest : Text) (encodes : answers.encode r ≡ some (first ∷ rest))
    (decodes : answers.decode (first ∷ rest) ≡ some r)
    (caching : (policy.cache_enabled ≡ true) × (cfg.llm_cache_enabled ≡ true))
    (short : length (answers.text r) ≤ cfg.llm_cache_max_chars) where
  -- the store has the answer, from one moment on
  abbrev Knows : ℕ → Store → Type 0
  Knows written s =
      (now : ℕ)
      → is_alive cfg.llm_cache_ttl_seconds written now ≡ true
      → (get_cache (cache_key q) now s).0 ≡ some (first ∷ rest)

  remember-Knows :
      (times : Times) (w : Shared)
      → Knows times.write (remember answers cfg policy q times r w).store
  unfolding remember write_cache
  remember-Knows times w now alive =
      rw
        (
          caching.0,
          caching.1,
          le→leb (length (answers.text r)) cfg.llm_cache_max_chars short,
          write_cache,
          encodes,
        )
        (get_cache-set_cache w.store (cache_key q) (first ∷ rest) cfg.llm_cache_ttl_seconds
            times.write now
          ∙ rw alive)

  finish-Knows :
      (times : Times) (x : Attempted R × World) (w : Shared)
      → (finish answers cfg policy q times x w).0.outcome ≡ returns r
      → Knows times.write (finish answers cfg policy q times x w).1.store
  unfolding finish
  finish-Knows times (x, circuit) w done = elim (Outcome-cases x.outcome) [
    | inl (a, e) ↦
        let same : a ≡ r = cc (rw e at done) in
        rw (e, same)
          (remember-Knows times (
            commit answers cfg policy q times (usage_of answers cfg policy q times r)
              (record w { circuit = circuit })))
    | inr (e, p) ↦ cc (rw p at done)
  ]

  look_up-Knows :
      (times : Times) (fn : ℕ → Outcome R) (x : Option R × Store) (w : Shared)
      → (look_up answers cfg policy q times fn x w).0.outcome ≡ returns r
      → 0 < (look_up answers cfg policy q times fn x w).0.calls
      → Knows times.write (look_up answers cfg policy q times fn x w).1.store
  unfolding look_up
  look_up-Knows times fn (some a, s) w done called = absurd (omega arith)
  look_up-Knows times fn (none, s) w done called =
      finish-Knows times
        (call_with_circuit cfg.circuit times.begin times.end fn cfg.llm_max_retries w.circuit)
        (record w { store = s }) done

  admit-Knows :
      (times : Times) (fn : ℕ → Outcome R) (x : Bool × Store) (w : Shared)
      → (admit answers cfg policy q times fn x w).0.outcome ≡ returns r
      → 0 < (admit answers cfg policy q times fn x w).0.calls
      → Knows times.write (admit answers cfg policy q times fn x w).1.store
  unfolding admit
  admit-Knows times fn (false, s) w done called = absurd (omega arith)
  admit-Knows times fn (true, s) w done called =
      let on : cache_on answers cfg policy q times ≡ true = rw (caching.0, caching.1) in
      rw on (
        look_up-Knows times fn (read_cache answers (cache_key q) times.lookup s) w (rw on at done)
          (rw on at called))

  admit-hit :
      (times : Times) (fn : ℕ → Outcome R) (x : Bool × Store) (w : Shared)
      → x.0 ≡ true
      → (get_cache (cache_key q) times.lookup x.1).0 ≡ some (first ∷ rest)
      → (admit answers cfg policy q times fn x w).0 ≡ record { outcome = returns r; calls = 0 }
  unfolding admit look_up read_cache hit
  admit-hit times fn (false, s) w ok found = cc
  admit-hit times fn (true, s) w ok found = rw (caching.0, caching.1, found, decodes)

  -- a call under another key, or one within the time to live of what was written at a moment
  abbrev pub Spares : ℕ → Call R → Type 0
  Spares written c =
      (cache_key c.request ≢ cache_key q)
      ⊎ ((cache_key c.request ≡ cache_key q)
          × (is_alive cfg.llm_cache_ttl_seconds written c.times.lookup ≡ true))

  Knows-entry :
      (written : ℕ) (s t : Store)
      → entry (cache_key q) t ≡ entry (cache_key q) s
      → Knows written s
      → Knows written t
  Knows-entry written s t e h now alive = get_cache_of_entry (cache_key q) now s t e ∙ h now alive

  gated-Knows :
      (written : ℕ) (c : Call R) (w : Shared)
      → Spares written c
      → Knows written w.store
      → Knows written (gated answers cfg c.policy c.request c.times c.upstream w).1.store
  gated-Knows written c w (inl n) h =
      Knows-entry written w.store _
        (entry-gated_ne answers cfg c.policy c.request c.times (cache_key q) c.upstream w n) h
  gated-Knows written c w (inr (same, alive)) h =
      Knows-entry written w.store _
        (entry-gated_found answers cfg c.policy c.request c.times (cache_key q) c.upstream w first
          rest r
          (ap (λ key. (get_cache key c.times.lookup admitted).0) same
            ∙ get_cache_of_entry (cache_key q) c.times.lookup w.store admitted (
                ap (λ cache. get Text-discrete (cache_key q) cache)
                  (cache-assert_quota cfg c.policy c.request w.store))
            ∙ h c.times.lookup alive)
          decodes)
        h
    where
      admitted : Store
      admitted = (assert_quota cfg c.policy c.request w.store).1

  gated_all-Knows :
      (written : ℕ) (calls : List (Call R)) (w : Shared)
      → All (Spares written) calls
      → Knows written w.store
      → Knows written (gated_all answers cfg calls w).store
  unfolding gated_all
  gated_all-Knows written [] w p h = h
  gated_all-Knows written (c ∷ calls) w p h =
      gated_all-Knows written calls (gated answers cfg c.policy c.request c.times c.upstream w).1
        p.1 (gated-Knows written c w p.0 h)

  -- Calls of the gate that run one after the other, with the cache on: once one has got an answer
  -- from the upstream model, and the answer is short enough and survives the codec, a later call with
  -- the same request whose lookup comes within the time to live of the write returns that very answer
  -- with no upstream call, whatever the upstream model would say now, as long as the tenant's quota
  -- admits the call. In between there may be any calls, of any tenants, prompts and outcomes, of which
  -- those under the same key look up within the time to live too.
  pub gated-gated :
      (times again : Times) (fn other : ℕ → Outcome R) (between : List (Call R)) (w : Shared)
      → (gated answers cfg policy q times fn w).0.outcome ≡ returns r
      → 0 < (gated answers cfg policy q times fn w).0.calls
      → All (Spares times.write) between
      → is_alive cfg.llm_cache_ttl_seconds times.write again.lookup ≡ true
      → (assert_quota cfg policy q
          (gated_all answers cfg between (gated answers cfg policy q times fn w).1).store).0
        ≡ true
      → (gated answers cfg policy q again other
          (gated_all answers cfg between (gated answers cfg policy q times fn w).1)).0
        ≡ record { outcome = returns r; calls = 0 }
  unfolding gated
  gated-gated times again fn other between w done called spare alive quota =
      admit-hit again other (assert_quota cfg policy q later.store) later quota (
        get_cache_of_entry (cache_key q) again.lookup later.store
          (assert_quota cfg policy q later.store).1
          (ap (λ cache. get Text-discrete (cache_key q) cache)
            (cache-assert_quota cfg policy q later.store))
        ∙ gated_all-Knows times.write between (gated answers cfg policy q times fn w).1 spare
            (admit-Knows times fn (assert_quota cfg policy q w.store) w done called) again.lookup
            alive)
    where
      later : Shared
      later = gated_all answers cfg between (gated answers cfg policy q times fn w).1
