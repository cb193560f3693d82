-- ===== src/ChatSlots/Reach.antt =====
-- Any calls of the slot store of app/chat_slots.py, in any order, and the states they lead to.
use customer_service.Prelude.{ℕ, ◌+◌, ◌≤◌, ◌<◌, ap, max, arith, length, length-keep_if-le, ltb}
use customer_service.Prelude.Text.{Text, Text-discrete}
use customer_service.Prelude.Dict.{get, length-put-le, length-pop-le}
use customer_service.ChatSlots.{
  Store, empty, purge, held_of, set_default, grant, acquire, release, in_flight,
}
use customer_service.ChatSlots.Leases.{IsValid, purge-live}
use customer_service.ChatSlots.Invariant.{
  Fresh, Owns, empty-IsValid, purge-IsValid, acquire-IsValid, release-IsValid, take_slot_rule,
  held_of-set_default, global-set_default, held_of-grant, held_of-release,
}

-- A call under fixed limits. A token from `uuid4` is fresh, and a token is given back by its tenant.
pub data Step (global_limit tenant_limit : ℕ) (s : Store) : Store → Type 0 where
  acquires :
      (t : Text) (ttl now : ℕ) (k : Text)
      → Fresh k s
      → Step global_limit tenant_limit s (acquire t global_limit tenant_limit ttl now k s).1
  releases : (t k : Text) → Owns t k s → Step global_limit tenant_limit s (release t k s)
  counts : (now : ℕ) → Step global_limit tenant_limit s (in_flight now s).1

pub data Reach (global_limit tenant_limit : ℕ) : Store → Type 0 where
  here : Reach global_limit tenant_limit empty
  next :
      {s s' : Store}
      → Reach global_limit tenant_limit s
      → Step global_limit tenant_limit s s'
      → Reach global_limit tenant_limit s'

abbrev pub IsWithin : ℕ → ℕ → Store → Type 0
IsWithin global_limit tenant_limit s =
    (length s.global ≤ global_limit) × ((t : Text) → length (held_of t s) ≤ tenant_limit)

module _ (gl tl : ℕ) where
  purge-IsWithin :
      (now : ℕ) (s : Store) → IsValid s → IsWithin gl tl s → IsWithin gl tl (purge now s)
  purge-IsWithin now s v w =
      let (g, h) = purge-live now s v in
      let running = λ (l : Text × ℕ). ltb now l.1 in
      (
        omega (arith, ap length g, length-keep_if-le running s.global),
        λ t.
            let e = ap length (h t) in
            let n = length-keep_if-le running (held_of t s) in let m = w.1 t in omega arith,
      )

  grant-IsWithin :
      (t k : Text) (e : ℕ) (s : Store)
      → length s.global < gl
      → length (held_of t s) < tl
      → IsWithin gl tl s
      → IsWithin gl tl (grant t k e s)
  unfolding grant
  grant-IsWithin t k e s room place w = (
    omega (arith, length-put-le Text-discrete k e s.global),
    λ u.
        ground
          (arith, held_of-grant t u k e s, length-put-le Text-discrete k e (held_of u s), w.1 u),
  )

  release-IsWithin : (t k : Text) (s : Store) → IsWithin gl tl s → IsWithin gl tl (release t k s)
  unfolding release
  release-IsWithin t k s w = (
    omega (arith, length-pop-le Text-discrete k s.global),
    λ u.
        ground (arith, held_of-release t u k s, length-pop-le Text-discrete k (held_of u s), w.1 u),
  )

  acquire-IsWithin :
      (t : Text) (ttl now : ℕ) (k : Text) (s : Store)
      → IsValid s
      → IsWithin gl tl s
      → IsWithin gl tl (acquire t gl tl ttl now k s).1
  unfolding acquire
  acquire-IsWithin t ttl now k s v w =
      let p : IsWithin gl tl (purge now s) = purge-IsWithin now s v w in
      let same : IsWithin gl tl (set_default t (purge now s)) = (
        omega (arith, p.0, ap length (global-set_default t (purge now s))),
        λ u.
            let e = ap length (held_of-set_default t u (purge now s)) in
            let m = p.1 u in omega arith,
      ) in
      take_slot_rule (IsWithin gl tl) t gl tl (now + max 1 ttl) k (purge now s) p same λ room place.
        grant-IsWithin t k (now + max 1 ttl) (set_default t (purge now s))
          (omega (arith, ap length (global-set_default t (purge now s))))
          (omega (arith, ap length (held_of-set_default t t (purge now s)))) same

  Step-keeps :
      {s s' : Store}
      → Step gl tl s s'
      → IsValid s × IsWithin gl tl s
      → IsValid s' × IsWithin gl tl s'
  unfolding in_flight
  Step-keeps {s} (acquires t ttl now k fresh) (v, w) =
      (acquire-IsValid t gl tl ttl now k s fresh v, acquire-IsWithin t ttl now k s v w)
  Step-keeps {s} (releases t k own) (v, w) = (release-IsValid t k s own v, release-IsWithin t k s w)
  Step-keeps {s} (counts now) (v, w) = (purge-IsValid now s v, purge-IsWithin now s v w)

  -- In every state that calls with fresh tokens and owners' releases can lead to, the store is valid,
  -- at most as many slots are taken as the global limit allows, and no tenant holds more than its
  -- own limit.
  pub Reach-keeps : {s : Store} → Reach gl tl s → IsValid s × IsWithin gl tl s
  unfolding get
  Reach-keeps here = (empty-IsValid, (omega arith, λ t. omega arith))
  Reach-keeps (next r st) = Step-keeps st (Reach-keeps r)
