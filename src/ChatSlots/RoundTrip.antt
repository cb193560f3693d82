-- ===== src/ChatSlots/RoundTrip.antt =====
-- `acquire` and then `release` of app/chat_slots.py.
use customer_service.Prelude.{ℕ, ◌+◌, ◌≡◌, ◌∙◌, max, arith, none, some, Option-cases, inl, inr}
use customer_service.Prelude.Text.{Text, Text-discrete}
use customer_service.Prelude.Dict.{get, pop-put_absent}
use customer_service.ChatSlots.{
  Store, token, purge, held_of, set_default, grant, take_slot, acquire, release,
}
use customer_service.ChatSlots.Leases.{live, IsValid, purge-live}
use customer_service.ChatSlots.Invariant.{
  Fresh, purge-Fresh, same-IsValid, purge-IsValid, held_of-set_default, global-set_default,
  held_of-grant, held_of-release,
}

-- a token that is fresh in the whole is held by no tenant
absent_held :
    (t k : Text) (s : Store) → IsValid s → Fresh k s → get Text-discrete k (held_of t s) ≡ none
absent_held t k s v f = elim (Option-cases (get Text-discrete k (held_of t s))) [
  | inl e ↦ e
  | inr (x, e) ↦ let b : get Text-discrete k s.global ≡ some x = v.backed t k x e in cc
]

release-grant :
    (t k : Text) (e : ℕ) (s : Store)
    → IsValid s
    → Fresh k s
    → ((release t k (grant t k e s)).global ≡ s.global)
      × ((u : Text) → held_of u (release t k (grant t k e s)) ≡ held_of u s)
unfolding release grant
release-grant t k e s v f = (
  pop-put_absent Text-discrete k e s.global f,
  λ u. ground (
    arith,
    held_of-release t u k (grant t k e s),
    held_of-grant t u k e s,
    pop-put_absent Text-discrete k e (held_of u s) (absent_held u k s v f),
  ),
)

granted_state :
    (t : Text) (gl tl e : ℕ) (k : Text) (s : Store)
    → (take_slot t gl tl e k s).0 ≡ token k
    → (take_slot t gl tl e k s).1 ≡ grant t k e (set_default t s)
unfolding take_slot
granted_state t gl tl e k s h = ground arith

-- A slot that is taken and given back leaves the store as the purge alone would: the leases that run
-- on, in the whole and under each tenant, and no others.
pub release-acquire :
    (t : Text) (global_limit tenant_limit ttl now : ℕ) (k : Text) (s : Store)
    → IsValid s
    → Fresh k s
    → (acquire t global_limit tenant_limit ttl now k s).0 ≡ token k
    → ((release t k (acquire t global_limit tenant_limit ttl now k s).1).global ≡ live now s.global)
      × ((u : Text)
          → held_of u (release t k (acquire t global_limit tenant_limit ttl now k s).1)
            ≡ live now (held_of u s))
unfolding acquire
release-acquire t gl tl ttl now k s v f got =
    let p = purge now s in
    let d = set_default t p in
    let (g, h) = purge-live now s v in
    let w : IsValid d =
      same-IsValid p d (global-set_default t p) (λ u. held_of-set_default t u p)
        (purge-IsValid now s v) in
    let (a, b) =
      release-grant t k (now + max 1 ttl) d w
        (rw (global-set_default t p) (purge-Fresh now k s f)) in
    rw (granted_state t gl tl (now + max 1 ttl) k p got)
      (a ∙ global-set_default t p ∙ g, λ u. b u ∙ held_of-set_default t u p ∙ h u)
