-- ===== src/ChatSlots/Leases.antt =====
-- The purge of app/chat_slots.py and the leases that run on.
use customer_service.Prelude.{
  ℕ, ◌≡◌, refl, ap, ◌∙◌, Bool, false, Option, none, some, arith, ltb, leb, List, [], ◌∷◌, keep_if,
}
use customer_service.Prelude.Text.{Text, Text-discrete}
use customer_service.Prelude.Dict.{
  get, pop, pop_all, pop_all-nil, pop_all-cons, among, get-map_values, Distinct,
}
use customer_service.ChatSlots.{Leases, Store, stale, drop_tokens, drop_token, purge, held_of}

-- the leases that run on after a moment
abbrev pub live : ℕ → Leases → Leases
live now d = keep_if (λ (l : Text × ℕ). ltb now l.1) d

abbrev over : ℕ → Option ℕ → Bool
over now none = false
over now (some expiry) = leb expiry now

among-stale :
    (now : ℕ) (k : Text) (g : Leases)
    → Distinct Text-discrete g
    → among Text-discrete k (stale now g) ≡ over now (get Text-discrete k g)
unfolding among stale get
among-stale now k [] h = refl
among-stale now k ((j, e) ∷ g) h = ground (arith, among-stale now k g h.1)

-- every lease of one dictionary stands in another, with the same end
abbrev pub Backed : Leases → Leases → Type 0
Backed d g = (k : Text) (e : ℕ) → get Text-discrete k d ≡ some e → get Text-discrete k g ≡ some e

pop_all-live :
    (now : ℕ) (g d : Leases)
    → Distinct Text-discrete g
    → Distinct Text-discrete d
    → Backed d g
    → pop_all Text-discrete (stale now g) d ≡ live now d
unfolding get
pop_all-live now g [] hg hd b = pop_all-nil Text-discrete (stale now g)
pop_all-live now g ((k, e) ∷ d) hg hd b =
    let here : among Text-discrete k (stale now g) ≡ leb e now =
      among-stale now k g hg ∙ ap (over now) (b k e (ground arith)) in
    let rest = pop_all-live now g d hg hd.1 (λ j x p. b j x (ground arith)) in
    pop_all-cons Text-discrete (stale now g) k e d ∙ ground (arith, here, rest)

pub drop_tokens-global :
    (ks : List Text) (s : Store) → (drop_tokens ks s).global ≡ pop_all Text-discrete ks s.global
unfolding drop_tokens drop_token pop_all
drop_tokens-global [] s = refl
drop_tokens-global (k ∷ ks) s = drop_tokens-global ks (drop_token k s)

held_of-drop_token :
    (t k : Text) (s : Store) → held_of t (drop_token k s) ≡ pop Text-discrete k (held_of t s)
unfolding drop_token pop
held_of-drop_token t k s =
    ground (arith, get-map_values Text-discrete (pop Text-discrete k) t s.tenants)

pub held_of-drop_tokens :
    (t : Text) (ks : List Text) (s : Store)
    → held_of t (drop_tokens ks s) ≡ pop_all Text-discrete ks (held_of t s)
unfolding drop_tokens pop_all
held_of-drop_tokens t [] s = refl
held_of-drop_tokens t (k ∷ ks) s =
    held_of-drop_tokens t ks (drop_token k s)
    ∙ ap (pop_all Text-discrete ks) (held_of-drop_token t k s)

-- No token stands twice, in the whole or under one tenant; what a tenant holds is held in the whole,
-- with the same end; and no token is held by two tenants.
pub record IsValid (s : Store) : Type 0 where
  pub distinct : Distinct Text-discrete s.global
  pub held_distinct : (t : Text) → Distinct Text-discrete (held_of t s)
  pub backed : (t : Text) → Backed (held_of t s) s.global
  pub alone :
      (t u k : Text) (e f : ℕ)
      → get Text-discrete k (held_of t s) ≡ some e
      → get Text-discrete k (held_of u s) ≡ some f
      → t ≡ u

-- On a valid store a purge leaves exactly the leases that run on, in the whole and under each
-- tenant: a worker that died without a release holds its slot no longer than its lease.
pub purge-live :
    (now : ℕ) (s : Store)
    → IsValid s
    → ((purge now s).global ≡ live now s.global)
      × ((t : Text) → held_of t (purge now s) ≡ live now (held_of t s))
unfolding purge
purge-live now s v = (
  drop_tokens-global (stale now s.global) s
      ∙ pop_all-live now s.global s.global v.distinct v.distinct (λ k e p. p),
  λ t.
      held_of-drop_tokens t (stale now s.global) s
      ∙ pop_all-live now s.global (held_of t s) v.distinct (v.held_distinct t) (v.backed t),
)
