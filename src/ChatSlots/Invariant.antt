-- ===== src/ChatSlots/Invariant.antt =====
-- The methods of app/chat_slots.py on a valid store.
use customer_service.Prelude.{
  ℕ, ◌+◌, ◌<◌, ◌≡◌, ◌≢◌, sym, ap, ◌∙◌, false, none, some, max, arith, leb, if◌then◌else◌, List, [],
  length, Bool-cases, Option-cases, inl, inr, ◌⊎◌, ite, if_pos, if_neg,
}
use customer_service.Prelude.Text.{Text, Text-discrete}
use customer_service.Prelude.Dict.{
  get, put, pop, pop_all, among, get-put, get-pop, get-pop_all, get-pop_all-some, pop_all-Distinct,
  put-Distinct, pop-Distinct,
}
use customer_service.ChatSlots.{
  Store, empty, Acquired, token, busy, cluster, tenant, stale, drop_tokens, purge, held_of,
  set_default, grant, take_slot, acquire, release,
}
use customer_service.ChatSlots.Leases.{
  live, IsValid, purge-live, drop_tokens-global, held_of-drop_tokens,
}

pub empty-IsValid : IsValid empty
unfolding get
empty-IsValid = record {
  distinct = tt;
  held_distinct = λ t. tt;
  backed = λ t k e p. cc;
  alone = λ t u k e f p q. cc;
}

pub held_of-set_default : (t u : Text) (s : Store) → held_of u (set_default t s) ≡ held_of u s
unfolding set_default
held_of-set_default t u s = ground (arith, get-put Text-discrete t u [] s.tenants)

pub global-set_default : (t : Text) (s : Store) → (set_default t s).global ≡ s.global
unfolding set_default
global-set_default t s = ground arith

-- two stores that hold the same leases
pub same-IsValid :
    (s s' : Store)
    → s'.global ≡ s.global
    → ((t : Text) → held_of t s' ≡ held_of t s)
    → IsValid s
    → IsValid s'
same-IsValid s s' g h v = record {
  distinct = rw g v.distinct;
  held_distinct = λ t. rw (h t) (v.held_distinct t);
  backed = λ t k e p. rw g (v.backed t k e (rw (h t) at p));
  alone = λ t u k e f p q. v.alone t u k e f (rw (h t) at p) (rw (h u) at q);
}

popped-IsValid :
    (ks : List Text) (s s' : Store)
    → s'.global ≡ pop_all Text-discrete ks s.global
    → ((t : Text) → held_of t s' ≡ pop_all Text-discrete ks (held_of t s))
    → IsValid s
    → IsValid s'
popped-IsValid ks s s' g h v = record {
  distinct = rw g (pop_all-Distinct Text-discrete ks s.global v.distinct);
  held_distinct =
      λ t. rw (h t) (pop_all-Distinct Text-discrete ks (held_of t s) (v.held_distinct t));
  backed = λ t k e p. rw (g, get-pop_all, (kept t k e p).0) (v.backed t k e (kept t k e p).1);
  alone = λ t u k e f p q. v.alone t u k e f (kept t k e p).1 (kept u k f q).1;
}
  where
    kept :
        (t k : Text) (e : ℕ)
        → get Text-discrete k (held_of t s') ≡ some e
        → (among Text-discrete k ks ≡ false) × (get Text-discrete k (held_of t s) ≡ some e)
    kept t k e p = get-pop_all-some Text-discrete ks k (held_of t s) e (rw (h t) at p)

pub purge-IsValid : (now : ℕ) (s : Store) → IsValid s → IsValid (purge now s)
unfolding purge
purge-IsValid now s v =
    popped-IsValid (stale now s.global) s (drop_tokens (stale now s.global) s)
      (drop_tokens-global (stale now s.global) s)
      (λ t. held_of-drop_tokens t (stale now s.global) s) v

pub held_of-grant :
    (t u k : Text) (e : ℕ) (s : Store)
    → held_of u (grant t k e s)
      ≡ ite (Text-discrete t u) (put Text-discrete k e (held_of u s)) (held_of u s)
unfolding grant
held_of-grant t u k e s =
    ground (arith, get-put Text-discrete t u (put Text-discrete k e (held_of t s)) s.tenants)

-- what a fresh token is: nobody holds it
abbrev pub Fresh : Text → Store → Type 0
Fresh k s = get Text-discrete k s.global ≡ none

-- a lease after a grant is the new one or an old one
granted :
    (t k u j : Text) (e x : ℕ) (s : Store)
    → get Text-discrete j (held_of u (grant t k e s)) ≡ some x
    → ((t ≡ u) × (k ≡ j) × (e ≡ x)) ⊎ (get Text-discrete j (held_of u s) ≡ some x)
granted t k u j e x s h =
    ground (arith, held_of-grant t u k e s, get-put Text-discrete k j e (held_of u s))

module _ (t k : Text) (e : ℕ) (s : Store) (fresh : Fresh k s) (v : IsValid s) where
  -- the fresh token is in no lease
  not-fresh : (u j : Text) (x : ℕ) → get Text-discrete j (held_of u s) ≡ some x → k ≢ j
  not-fresh u j x p same =
      let b : get Text-discrete j s.global ≡ some x = v.backed u j x p in
      let f : get Text-discrete j s.global ≡ none = rw same at fresh in cc

  grant-IsValid : IsValid (grant t k e s)
  unfolding grant
  grant-IsValid = record {
    distinct = put-Distinct Text-discrete k e s.global v.distinct;
    held_distinct = λ u. rw (held_of-grant t u k e s) (elim (Text-discrete t u) [
      | yes p ↦ rw (if_pos _ p) (put-Distinct Text-discrete k e (held_of u s) (v.held_distinct u))
      | no p ↦ rw (if_neg _ p) (v.held_distinct u)
    ]);
    backed = λ u j x p. elim (granted t k u j e x s p) [
      | inl (_, a, b) ↦ ground (arith, get-put Text-discrete k j e s.global)
      | inr q ↦
          ground (arith, get-put Text-discrete k j e s.global, not-fresh u j x q, v.backed u j x q)
    ];
    alone = λ u w j x y p q. elim (granted t k u j e x s p) [
      | inl (a, b, _) ↦ elim (granted t k w j e y s q) [
        | inl (c, _, _) ↦ sym a ∙ c
        | inr d ↦ absurd (not-fresh w j y d b)
      ]
      | inr a ↦ elim (granted t k w j e y s q) [
        | inl (_, c, _) ↦ absurd (not-fresh u j x a c)
        | inr d ↦ v.alone u w j x y a d
      ]
    ];
  }

pub held_of-release :
    (t u k : Text) (s : Store)
    → held_of u (release t k s)
      ≡ ite (Text-discrete t u) (pop Text-discrete k (held_of u s)) (held_of u s)
unfolding release pop
held_of-release t u k s = elim (Option-cases (get Text-discrete t s.tenants)) [
  | inl e ↦ ground (arith, e)
  | inr (held, e) ↦
      ground (arith, e, get-put Text-discrete t u (pop Text-discrete k held) s.tenants)
]

-- A release gives back a token of its tenant, or one that nobody holds any more.
abbrev pub Owns : Text → Text → Store → Type 0
Owns t k s = (u : Text) → t ≢ u → get Text-discrete k (held_of u s) ≡ none

released :
    (t u k j : Text) (x : ℕ) (s : Store)
    → Owns t k s
    → get Text-discrete j (held_of u (release t k s)) ≡ some x
    → (k ≢ j) × (get Text-discrete j (held_of u s) ≡ some x)
released t u k j x s own h = elim (Text-discrete t u) [
  | yes p ↦ ground (arith, held_of-release t u k s, get-pop Text-discrete k j (held_of u s))
  | no p ↦ ground (arith, held_of-release t u k s, own u p)
]

pub release-IsValid : (t k : Text) (s : Store) → Owns t k s → IsValid s → IsValid (release t k s)
unfolding release
release-IsValid t k s own v = record {
  distinct = pop-Distinct Text-discrete k s.global v.distinct;
  held_distinct = λ u. rw (held_of-release t u k s) (elim (Text-discrete t u) [
    | yes p ↦ rw (if_pos _ p) (pop-Distinct Text-discrete k (held_of u s) (v.held_distinct u))
    | no p ↦ rw (if_neg _ p) (v.held_distinct u)
  ]);
  backed = λ u j x p.
      let (a, b) = released t u k j x s own p in
      ground (arith, get-pop Text-discrete k j s.global, v.backed u j x b);
  alone = λ u w j x y p q.
      v.alone u w j x y (released t u k j x s own p).1 (released t w k j y s own q).1;
}

-- what holds on each branch of `acquire` behind its purge
pub take_slot_rule :
    (P : Store → Type 0) (t : Text) (global_limit tenant_limit e : ℕ) (k : Text) (s : Store)
    → P s
    → P (set_default t s)
    → (length s.global < global_limit
        → length (held_of t s) < tenant_limit
        → P (grant t k e (set_default t s)))
    → P (take_slot t global_limit tenant_limit e k s).1
unfolding take_slot
take_slot_rule P t gl tl e k s p q r = elim (Bool-cases (leb gl (length s.global))) [
  | inl a ↦ rw a p
  | inr a ↦ elim (Bool-cases (leb tl (length (held_of t (set_default t s))))) [
    | inl b ↦ rw (a, b) q
    | inr b ↦
        rw (a, b) (r (ground arith) (let c = ap length (held_of-set_default t t s) in ground arith))
  ]
]

pub purge-Fresh : (now : ℕ) (k : Text) (s : Store) → Fresh k s → Fresh k (purge now s)
unfolding purge
purge-Fresh now k s f =
    rw drop_tokens-global (get-pop_all Text-discrete (stale now s.global) k s.global ∙ ground arith)

-- `acquire` in terms of what runs on
module _ (t : Text) (global_limit tenant_limit ttl now : ℕ) (k : Text) (s : Store) where
  abbrev acquired : Acquired × Store
  acquired = acquire t global_limit tenant_limit ttl now k s

  -- On a valid store `acquire` refuses for the cluster exactly when the leases that run on have
  -- reached the global limit, else for the tenant exactly when the tenant's own have reached the
  -- tenant's limit, and else it returns the token.
  pub acquire_decides :
      IsValid s
      → acquired.0 ≡ (
          if leb global_limit (length (live now s.global))
          then busy cluster
          else if leb tenant_limit (length (live now (held_of t s)))
          then busy tenant
          else token k)
  unfolding acquire
  acquire_decides v =
      let (g, h) = purge-live now s v in
      rw (← g, ← h t, ← held_of-set_default t t (purge now s)) (ground arith)

  -- With a fresh token `acquire` keeps a valid store valid, whether it grants or refuses.
  pub acquire-IsValid : Fresh k s → IsValid s → IsValid acquired.1
  unfolding acquire
  acquire-IsValid fresh v =
      let v' : IsValid (purge now s) = purge-IsValid now s v in
      let w : IsValid (set_default t (purge now s)) =
        same-IsValid (purge now s) (set_default t (purge now s))
          (global-set_default t (purge now s)) (λ u. held_of-set_default t u (purge now s)) v' in
      take_slot_rule IsValid t global_limit tenant_limit (now + max 1 ttl) k (purge now s) v' w
        λ _ _.
          grant-IsValid t k (now + max 1 ttl) (set_default t (purge now s))
            (rw (global-set_default t (purge now s)) (purge-Fresh now k s fresh)) w
