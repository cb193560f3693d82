-- ===== src/ChatSlots/Redis/Sim.antt =====
-- The store in the process and the shared one of app/chat_slots.py, step by step.
use customer_service.Prelude.{
  ℕ, ◌+◌, ◌≤◌, ◌≡◌, refl, sym, ap, ◌∙◌, max, none, some, arith, leb, length, ite, if_pos,
  Bool-cases, inl, inr,
}
use customer_service.Prelude.Text.{Text, Text-discrete}
use customer_service.Prelude.Dict.{get, get-put, get-pop}
use customer_service.ChatSlots.{
  Store, empty, purge, held_of, set_default, grant, take_slot, acquire, release, in_flight,
}
use customer_service.ChatSlots.Leases.{IsValid, purge-live}
use customer_service.ChatSlots.Invariant.{purge-IsValid, held_of-set_default, global-set_default}
use customer_service.ChatSlots.Redis.{
  SortedSets, global_key, tenant_slot_key, above, reply, take_lua, purge_lua, redis_acquire,
  redis_release, redis_in_flight,
}
use customer_service.ChatSlots.Redis.Scores.{
  at_global, at_tenant, past_global, at_tenants, get-live, above-above, purged_or_not, written,
  written_part, get-held_grant, get-held_release,
}

module _ (redis : SortedSets) where
  open redis use {
    Server, fresh, score, score-fresh, score-zremrangebyscore, score-zadd, score-zrem, zcard-counts,
    zcard, zadd, zrem, zremrangebyscore,
  }

  -- The stores hold the same leases, but for those that are over by a moment.
  pub record Sim (t : ℕ) (s : Store) (r : Server) : Type 0 where
    pub whole :
        (now : ℕ) (m : Text)
        → t ≤ now
        → above now (score global_key m r) ≡ above now (get Text-discrete m s.global)
    pub parts :
        (now : ℕ) (u m : Text)
        → t ≤ now
        → above now (score (tenant_slot_key u) m r) ≡ above now (get Text-discrete m (held_of u s))

  pub fresh-Sim : Sim 0 empty fresh
  unfolding get
  fresh-Sim = record {
    whole = λ now m h. ap (above now) (score-fresh global_key m);
    parts = λ now u m h. ap (above now) (score-fresh (tenant_slot_key u) m);
  }

  score-purge_whole :
      (u m : Text) (now : ℕ) (r : Server)
      → score global_key m (purge_lua redis (tenant_slot_key u) now r)
        ≡ above now (score global_key m r)
  unfolding purge_lua
  score-purge_whole u m now r =
      score-zremrangebyscore (tenant_slot_key u) now (zremrangebyscore global_key now r) global_key
        m
      ∙ at_tenant _ _ u
      ∙ score-zremrangebyscore global_key now r global_key m
      ∙ at_global _ _

  -- one tenant's set after a command on the whole and on some tenant's
  score-purge_part :
      (u v m : Text) (now : ℕ) (r : Server)
      → score (tenant_slot_key v) m (purge_lua redis (tenant_slot_key u) now r)
        ≡ ite
            (Text-discrete u v)
            (above now (score (tenant_slot_key v) m r))
            (score (tenant_slot_key v) m r)
  unfolding purge_lua
  score-purge_part u v m now r =
      score-zremrangebyscore (tenant_slot_key u) now (zremrangebyscore global_key now r)
        (tenant_slot_key v) m
      ∙ at_tenants _ _ u v
      ∙ ap (λ x. ite (Text-discrete u v) (above now x) x)
          (score-zremrangebyscore global_key now r (tenant_slot_key v) m ∙ past_global _ _ v)

  score-grant_whole :
      (u k m : Text) (e : ℕ) (r : Server)
      → score global_key m (zadd (tenant_slot_key u) e k (zadd global_key e k r))
        ≡ ite (Text-discrete k m) (some e) (score global_key m r)
  score-grant_whole u k m e r =
      score-zadd (tenant_slot_key u) e k (zadd global_key e k r) global_key m
      ∙ at_tenant _ _ u
      ∙ score-zadd global_key e k r global_key m
      ∙ at_global _ _

  score-grant_part :
      (u v k m : Text) (e : ℕ) (r : Server)
      → score (tenant_slot_key v) m (zadd (tenant_slot_key u) e k (zadd global_key e k r))
        ≡ ite
            (Text-discrete u v)
            (ite (Text-discrete k m) (some e) (score (tenant_slot_key v) m r))
            (score (tenant_slot_key v) m r)
  score-grant_part u v k m e r =
      score-zadd (tenant_slot_key u) e k (zadd global_key e k r) (tenant_slot_key v) m
      ∙ at_tenants _ _ u v
      ∙ ap (λ x. ite (Text-discrete u v) (ite (Text-discrete k m) (some e) x) x)
          (score-zadd global_key e k r (tenant_slot_key v) m ∙ past_global _ _ v)

  score-release_whole :
      (u k m : Text) (r : Server)
      → score global_key m (redis_release redis u k r)
        ≡ ite (Text-discrete k m) none (score global_key m r)
  unfolding redis_release
  score-release_whole u k m r =
      score-zrem (tenant_slot_key u) k (zrem global_key k r) global_key m
      ∙ at_tenant _ _ u
      ∙ score-zrem global_key k r global_key m
      ∙ at_global _ _

  score-release_part :
      (u v k m : Text) (r : Server)
      → score (tenant_slot_key v) m (redis_release redis u k r)
        ≡ ite
            (Text-discrete u v)
            (ite (Text-discrete k m) none (score (tenant_slot_key v) m r))
            (score (tenant_slot_key v) m r)
  unfolding redis_release
  score-release_part u v k m r =
      score-zrem (tenant_slot_key u) k (zrem global_key k r) (tenant_slot_key v) m
      ∙ at_tenants _ _ u v
      ∙ ap (λ x. ite (Text-discrete u v) (ite (Text-discrete k m) none x) x)
          (score-zrem global_key k r (tenant_slot_key v) m ∙ past_global _ _ v)

  module _ (t now : ℕ) (s : Store) (r : Server) (v : IsValid s) (sim : Sim t s r)
      (later : t ≤ now) where
    -- after the purge the two agree to the letter, in the whole and for the tenant that asks
    purged_whole :
        (u m : Text)
        → score global_key m (purge_lua redis (tenant_slot_key u) now r)
          ≡ get Text-discrete m (purge now s).global
    purged_whole u m =
        score-purge_whole u m now r
        ∙ sim.whole now m later
        ∙ sym (get-live now m s.global v.distinct)
        ∙ ap (get Text-discrete m) (sym (purge-live now s v).0)

    live_part :
        (u m : Text)
        → get Text-discrete m (held_of u (purge now s))
          ≡ above now (get Text-discrete m (held_of u s))
    live_part u m =
        ap (get Text-discrete m) ((purge-live now s v).1 u)
        ∙ get-live now m (held_of u s) (v.held_distinct u)

    purged_part :
        (u m : Text)
        → score (tenant_slot_key u) m (purge_lua redis (tenant_slot_key u) now r)
          ≡ get Text-discrete m (held_of u (purge now s))
    purged_part u m =
        score-purge_part u u m now r
        ∙ if_pos (Text-discrete u u) refl _ _
        ∙ sim.parts now u m later
        ∙ sym (live_part u m)

    purge-Sim : (u : Text) → Sim now (purge now s) (purge_lua redis (tenant_slot_key u) now r)
    purge-Sim u = record {
      whole = λ n m h. ap (above n) (purged_whole u m);
      parts = λ n w m h.
          ap (above n) (score-purge_part u w m now r)
          ∙ purged_or_not (Text-discrete u w) now n (score (tenant_slot_key w) m r) h
          ∙ sim.parts n w m (omega arith)
          ∙ sym (
              ap (above n) (live_part w m)
              ∙ above-above now n (get Text-discrete m (held_of w s)) h);
    }

    counted_whole :
        (u : Text)
        → zcard global_key (purge_lua redis (tenant_slot_key u) now r) ≡ length (purge now s).global
    counted_whole u =
        zcard-counts global_key (purge_lua redis (tenant_slot_key u) now r) (purge now s).global
          (purge-IsValid now s v).distinct (purged_whole u)

    counted_part :
        (u : Text)
        → zcard (tenant_slot_key u) (purge_lua redis (tenant_slot_key u) now r)
          ≡ length (held_of u (set_default u (purge now s)))
    counted_part u =
        zcard-counts (tenant_slot_key u) (purge_lua redis (tenant_slot_key u) now r)
          (held_of u (purge now s)) ((purge-IsValid now s v).held_distinct u) (purged_part u)
        ∙ ap length (sym (held_of-set_default u u (purge now s)))

  -- stores with the same leases stand in the same relation
  same-Sim :
      (t : ℕ) (s s' : Store) (r : Server)
      → s'.global ≡ s.global
      → ((u : Text) → held_of u s' ≡ held_of u s)
      → Sim t s r
      → Sim t s' r
  same-Sim t s s' r g h sim = record {
    whole = λ now m l. rw g (sim.whole now m l);
    parts = λ now u m l. rw (h u) (sim.parts now u m l);
  }

  default-Sim : (t : ℕ) (u : Text) (s : Store) (r : Server) → Sim t s r → Sim t (set_default u s) r
  default-Sim t u s r sim =
      same-Sim t s (set_default u s) r (global-set_default u s) (λ w. held_of-set_default u w s) sim

  grant-Sim :
      (t : ℕ) (u k : Text) (e : ℕ) (s : Store) (r : Server)
      → Sim t s r
      → Sim t (grant u k e s) (zadd (tenant_slot_key u) e k (zadd global_key e k r))
  unfolding grant
  grant-Sim t u k e s r sim = record {
    whole = λ now m l.
        ap (above now) (score-grant_whole u k m e r)
        ∙ written (Text-discrete k m) now (some e) _ _ (sim.whole now m l)
        ∙ sym (ap (above now) (get-put Text-discrete k m e s.global));
    parts = λ now w m l.
        ap (above now) (score-grant_part u w k m e r)
        ∙ written_part (Text-discrete u w) (Text-discrete k m) now (some e) _ _
            (sim.parts now w m l)
        ∙ sym (ap (above now) (get-held_grant u w k m e s));
  }

  pub release-Sim :
      (t : ℕ) (u k : Text) (s : Store) (r : Server)
      → Sim t s r
      → Sim t (release u k s) (redis_release redis u k r)
  unfolding release
  release-Sim t u k s r sim = record {
    whole = λ now m l.
        ap (above now) (score-release_whole u k m r)
        ∙ written (Text-discrete k m) now none _ _ (sim.whole now m l)
        ∙ sym (ap (above now) (get-pop Text-discrete k m s.global));
    parts = λ now w m l.
        ap (above now) (score-release_part u w k m r)
        ∙ written_part (Text-discrete u w) (Text-discrete k m) now none _ _ (sim.parts now w m l)
        ∙ sym (ap (above now) (get-held_release u w k m s));
  }

  -- both stores decide alike, given that they count alike
  take-Sim :
      (now : ℕ) (u : Text) (gl tl e : ℕ) (k : Text) (s : Store) (r : Server)
      → Sim now s r
      → zcard global_key r ≡ length s.global
      → zcard (tenant_slot_key u) r ≡ length (held_of u (set_default u s))
      → ((take_slot u gl tl e k s).0
          ≡ reply redis k (take_lua redis (tenant_slot_key u) gl tl e k r).0)
        × Sim now (take_slot u gl tl e k s).1 (take_lua redis (tenant_slot_key u) gl tl e k r).1
  unfolding take_slot take_lua
  take-Sim now u gl tl e k s r sim whole part = elim (Bool-cases (leb gl (length s.global))) [
    | inl a ↦ rw (whole, a) (refl, sim)
    | inr a ↦ elim (Bool-cases (leb tl (length (held_of u (set_default u s))))) [
      | inl b ↦ rw (whole, a, part, b) (refl, default-Sim now u s r sim)
      | inr b ↦
          rw (whole, a, part, b)
            (refl, grant-Sim now u k e (set_default u s) r (default-Sim now u s r sim))
    ]
  ]

  module _ (t now : ℕ) (s : Store) (r : Server) (v : IsValid s) (sim : Sim t s r)
      (later : t ≤ now) where
    pub acquire-Sim :
        (u : Text) (gl tl ttl : ℕ) (k : Text)
        → ((acquire u gl tl ttl now k s).0 ≡ (redis_acquire redis u gl tl ttl now k r).0)
          × Sim now (acquire u gl tl ttl now k s).1 (redis_acquire redis u gl tl ttl now k r).1
    unfolding acquire redis_acquire
    acquire-Sim u gl tl ttl k =
        take-Sim now u gl tl (now + max 1 ttl) k (purge now s)
          (purge_lua redis (tenant_slot_key u) now r) (purge-Sim t now s r v sim later u)
          (counted_whole t now s r v sim later u) (counted_part t now s r v sim later u)

    pub in_flight-Sim :
        ((in_flight now s).0 ≡ (redis_in_flight redis now r).0)
        × Sim now (in_flight now s).1 (redis_in_flight redis now r).1
    unfolding in_flight redis_in_flight
    in_flight-Sim = (
      sym (
          zcard-counts global_key (zremrangebyscore global_key now r) (purge now s).global
            (purge-IsValid now s v).distinct counted_score),
      record {
        whole = λ n m h. ap (above n) (counted_score m);
        parts = λ n w m h.
            ap (above n)
              (score-zremrangebyscore global_key now r (tenant_slot_key w) m ∙ past_global _ _ w)
            ∙ sim.parts n w m (omega arith)
            ∙ sym (
                ap (above n) (live_part t now s r v sim later w m)
                ∙ above-above now n (get Text-discrete m (held_of w s)) h);
      },
    )
      where
        counted_score :
            (m : Text)
            → score global_key m (zremrangebyscore global_key now r)
              ≡ get Text-discrete m (purge now s).global
        counted_score m =
            score-zremrangebyscore global_key now r global_key m
            ∙ at_global _ _
            ∙ sim.whole now m later
            ∙ sym (get-live now m s.global v.distinct)
            ∙ ap (get Text-discrete m) (sym (purge-live now s v).0)
