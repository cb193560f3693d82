-- ===== src/ToolCache/Orders.antt =====
-- What the cache of order reports returns, app/tool_cache.py.
use customer_service.Prelude.{
  ℕ, ◌+◌, ◌≤◌, ◌<◌, ◌≡◌, ◌≢◌, refl, ap, ◌∙◌, Bool, Bool-cases, true, false, not, ◌&&◌, Option, none,
  some, ◌⊎◌, inl, inr, arith, ltb, ◌==◌, if◌then◌else◌,
}
use customer_service.Prelude.Text.{Text, codes, Text-discrete, strip, has_text}
use customer_service.Prelude.Dict.{get, put, get-put_self, get-put_ne}
use customer_service.ToolCache.{
  Reports, redis, redis_key, MemoryStore, looked_up, memory_get, memory_set, CachedToolResult,
  read_raw, from_store, from_session, or_store, put_report, get_cached_order,
}
use customer_service.Prelude.Colons.{IsPlain}
use customer_service.ToolCache.Keys.{redis_key-injective}

module _ (reports : Reports) where
  open reports use {Report, SessionSnapshot, dumps, loads}

  -- what is read under another key does not change
  looked_up-rows :
      (key : Text) (now : ℕ) (rows rows' : MemoryStore) (o : Option (Text × ℕ))
      → (looked_up key now rows o).0 ≡ (looked_up key now rows' o).0
  looked_up-rows key now rows rows' none = refl
  looked_up-rows key now rows rows' (some (value, expires)) =
      elim (Bool-cases (not (expires == 0) && ltb expires now)) [
        | inl e ↦ rw e refl
        | inr e ↦ rw e refl
      ]

  from_store-put_ne :
      (key other value : Text) (ttl before now : ℕ) (rows : MemoryStore)
      → other ≢ key
      → (from_store reports key now (memory_set other value ttl before rows)).0
        ≡ (from_store reports key now rows).0
  unfolding from_store memory_get memory_set
  from_store-put_ne key other value ttl before now rows n = ap (read_raw reports now) (
      ap
        (λ o.
          (looked_up key now
            (put Text-discrete other (value, (if ltb 0 ttl then before + ttl else 0)) rows) o).0)
        (get-put_ne Text-discrete other key _ rows n)
      ∙ looked_up-rows key now
          (put Text-discrete other (value, (if ltb 0 ttl then before + ttl else 0)) rows) rows
          (get Text-discrete key rows))

  or_store-same :
      (key : Text) (now : ℕ) (rows rows' : MemoryStore) (o : Option (CachedToolResult reports))
      → (from_store reports key now rows).0 ≡ (from_store reports key now rows').0
      → (or_store reports key now rows o).0 ≡ (or_store reports key now rows' o).0
  or_store-same key now rows rows' none e = e
  or_store-same key now rows rows' (some r) e = refl

  -- Whatever is cached for another tenant or another user, of whatever tool: a look-up of an order
  -- returns the same as before. Names of tenants and tools have no colon.
  pub get_cached_order-put_report :
      (can_access : Text → Text → Option Text → Bool) (enabled : Bool)
      (snapshot : Option SessionSnapshot) (order_no tenant user : Text) (now : ℕ)
      (tenant' user' tool key : Text) (cacheable : Bool) (ttl before : ℕ) (report : Report)
      (rows : MemoryStore)
      → IsPlain tenant
      → IsPlain tenant'
      → IsPlain tool
      → (tenant' ≢ tenant) ⊎ (user' ≢ user)
      → (get_cached_order reports can_access enabled snapshot order_no tenant user now
          (put_report reports enabled cacheable key ttl tool tenant' user' report before rows)).0
        ≡ (get_cached_order reports can_access enabled snapshot order_no tenant user now rows).0
  unfolding get_cached_order put_report
  get_cached_order-put_report can_access enabled snapshot order_no tenant user now tenant' user'
        tool key cacheable ttl before report rows p p' q other =
      elim (Bool-cases (
        enabled && (has_text (strip order_no) && can_access (strip order_no) tenant (some user)))) [
          | inr e ↦ rw e refl
          | inl e ↦ rw e (
              or_store-same (redis_key tenant user (codes "order_query") (strip order_no)) now _
                rows (from_session reports (strip order_no) now snapshot)
                (elim (Bool-cases (enabled && (cacheable && (has_text (strip key) && ltb 0 ttl)))) [
                  | inr f ↦ rw f refl
                  | inl f ↦
                      rw f (from_store-put_ne _ _ (dumps report before) ttl before now rows apart)
                ]))
        ]
    where
      apart :
          redis_key tenant' user' tool (strip key)
          ≢ redis_key tenant user (codes "order_query") (strip order_no)
      apart e =
          let same =
            redis_key-injective tenant' tenant user' user tool (codes "order_query") (strip key)
              (strip order_no) p' p q
              (
                refl,
                (refl, (refl, (refl, (refl, (refl, (refl, (refl, (refl, (refl, (refl, tt)))))))))),
              )
              e in
          elim other [ inl n ↦ n same.0 | inr n ↦ n same.1 ]

  from_store-put_self :
      (key : Text) (report : Report) (ttl before now : ℕ) (rows : MemoryStore)
      → 0 < before
      → 0 < ttl
      → now ≤ before + ttl
      → (from_store reports key now (memory_set key (dumps report before) ttl before rows)).0
        ≡ some (record { payload = report; cached_at = before; source = redis })
  unfolding from_store memory_get memory_set
  from_store-put_self key report ttl before now rows h t l =
      ap
        (λ o.
          read_raw reports now
            (looked_up key now
              (put Text-discrete key (dumps report before, (if ltb 0 ttl then before + ttl else 0))
                rows)
              o).0)
        (get-put_self Text-discrete key _ rows)
      ∙ rw
          (
            the_ttl,
            alive,
            reports.dumps-filled report before,
            reports.loads-dumps report before,
            stamp,
          )
          refl
    where
      the_ttl : ltb 0 ttl ≡ true
      the_ttl = ground (arith, t)

      alive : (not ((before + ttl) == 0) && ltb (before + ttl) now) ≡ false
      alive = ground (arith, l)

      stamp : (before == 0) ≡ false
      stamp = ground (arith, h)

  -- A report that may be cached, of a number that is not blank, is found again as long as its time to
  -- live lasts, with the moment it was cached, by whoever asks as the same user of the same tenant and
  -- may see the order, unless the session has a report of it itself.
  pub get_cached_order-put :
      (can_access : Text → Text → Option Text → Bool) (snapshot : Option SessionSnapshot)
      (order_no tenant user : Text) (ttl before now : ℕ) (report : Report) (rows : MemoryStore)
      → has_text (strip order_no) ≡ true
      → can_access (strip order_no) tenant (some user) ≡ true
      → from_session reports (strip order_no) now snapshot ≡ none
      → 0 < before
      → 0 < ttl
      → now ≤ before + ttl
      → (get_cached_order reports can_access true snapshot order_no tenant user now (
          put_report reports true true order_no ttl
            (codes "order_query")
            tenant
            user
            report
            before
            rows)).0
        ≡ some (record { payload = report; cached_at = before; source = redis })
  unfolding get_cached_order put_report
  get_cached_order-put can_access snapshot order_no tenant user ttl before now report rows filled
        access absent h t l =
      rw (the_ttl, filled, access, absent)
        (rw the_ttl at (
          from_store-put_self (redis_key tenant user (codes "order_query") (strip order_no)) report
            ttl before now rows h t l))
    where
      the_ttl : ltb 0 ttl ≡ true
      the_ttl = ground (arith, t)
