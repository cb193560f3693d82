-- ===== src/ChatSlots/Redis/Scores.antt =====
-- The keys of the shared slots of app/chat_slots.py, and scores that are over by a moment.
use customer_service.Prelude.{
  ℕ, ◌≤◌, ◌≡◌, ◌≢◌, refl, sym, ap, ◌∙◌, Option, none, some, arith, [], ◌∷◌, drop, ite, if_pos,
  if_neg,
}
use customer_service.Prelude.Text.{Text, Text-discrete}
use customer_service.Prelude.Dict.{get, put, pop, get-put, get-pop, Distinct}
use customer_service.ChatSlots.{Leases, Store, held_of, grant, release}
use customer_service.ChatSlots.Leases.{live}
use customer_service.ChatSlots.Invariant.{held_of-grant, held_of-release}
use customer_service.ChatSlots.Redis.{global_key, tenant_slot_key, above}

tenant_slot_key_injective : (t u : Text) → tenant_slot_key t ≡ tenant_slot_key u → t ≡ u
tenant_slot_key_injective t u e = ap (drop 25) e

head_of : Text → ℕ
head_of [] = 0
head_of (c ∷ s) = c

global-tenant : (t : Text) → global_key ≢ tenant_slot_key t
unfolding head_of
global-tenant t e = (let k = ap (λ s. head_of (drop 8 s)) e in omega arith)

tenant-global : (t : Text) → tenant_slot_key t ≢ global_key
tenant-global t e = global-tenant t (sym e)

module _ {A : Type 0} (x y : A) where
  pub at_global : ite (Text-discrete global_key global_key) x y ≡ x
  at_global = if_pos _ refl x y

  pub at_tenant : (t : Text) → ite (Text-discrete (tenant_slot_key t) global_key) x y ≡ y
  at_tenant t = if_neg _ (tenant-global t) x y

  pub past_global : (t : Text) → ite (Text-discrete global_key (tenant_slot_key t)) x y ≡ y
  past_global t = if_neg _ (global-tenant t) x y

  pub at_tenants :
      (t u : Text)
      → ite (Text-discrete (tenant_slot_key t) (tenant_slot_key u)) x y
        ≡ ite (Text-discrete t u) x y
  at_tenants t u = elim (Text-discrete t u) [
    | yes p ↦ if_pos _ (ap tenant_slot_key p) x y ∙ sym (if_pos _ p x y)
    | no p ↦ if_neg _ (λ q. p (tenant_slot_key_injective t u q)) x y ∙ sym (if_neg _ p x y)
  ]

-- looking up in what runs on
pub get-live :
    (now : ℕ) (m : Text) (d : Leases)
    → Distinct Text-discrete d
    → get Text-discrete m (live now d) ≡ above now (get Text-discrete m d)
unfolding get
get-live now m [] h = refl
get-live now m ((k, e) ∷ d) h = elim (Text-discrete k m) [
  | yes p ↦
      let gone : get Text-discrete m d ≡ none = rw p at h.0 in
      let later = get-live now m d h.1 in ground arith
  | no p ↦ (let later = get-live now m d h.1 in ground arith)
]

pub above-above :
    (now later : ℕ) (x : Option ℕ) → now ≤ later → above later (above now x) ≡ above later x
above-above now later none h = refl
above-above now later (some e) h = ground arith

-- a purge that may have happened already makes no difference to a later one
pub purged_or_not :
    {P : Type 0} (d : Dec P) (now later : ℕ) (x : Option ℕ)
    → now ≤ later
    → above later (ite d (above now x) x) ≡ above later x
purged_or_not (yes p) now later x h = above-above now later x h
purged_or_not (no p) now later x h = refl

-- equal up to a moment, before and after the same write
pub written :
    {P : Type 0} (d : Dec P) (now : ℕ) (w x y : Option ℕ)
    → above now x ≡ above now y
    → above now (ite d w x) ≡ above now (ite d w y)
written (yes p) now w x y h = refl
written (no p) now w x y h = h

pub written_part :
    {P Q : Type 0} (d : Dec P) (c : Dec Q) (now : ℕ) (w x y : Option ℕ)
    → above now x ≡ above now y
    → above now (ite d (ite c w x) x) ≡ above now (ite d (ite c w y) y)
written_part (yes p) c now w x y h = written c now w x y h
written_part (no p) c now w x y h = h

-- what a tenant holds behind a grant and behind a release
pub get-held_grant :
    (u w k m : Text) (e : ℕ) (s : Store)
    → get Text-discrete m (held_of w (grant u k e s))
      ≡ ite
          (Text-discrete u w)
          (ite (Text-discrete k m) (some e) (get Text-discrete m (held_of w s)))
          (get Text-discrete m (held_of w s))
get-held_grant u w k m e s =
    ap (get Text-discrete m) (held_of-grant u w k e s) ∙ through (Text-discrete u w)
  where
    through :
        {P : Type 0} (d : Dec P)
        → get Text-discrete m (ite d (put Text-discrete k e (held_of w s)) (held_of w s))
          ≡ ite d
              (ite (Text-discrete k m) (some e) (get Text-discrete m (held_of w s)))
              (get Text-discrete m (held_of w s))
    through (yes p) = get-put Text-discrete k m e (held_of w s)
    through (no p) = refl

pub get-held_release :
    (u w k m : Text) (s : Store)
    → get Text-discrete m (held_of w (release u k s))
      ≡ ite
          (Text-discrete u w)
          (ite (Text-discrete k m) none (get Text-discrete m (held_of w s)))
          (get Text-discrete m (held_of w s))
get-held_release u w k m s =
    ap (get Text-discrete m) (held_of-release u w k s) ∙ through (Text-discrete u w)
  where
    through :
        {P : Type 0} (d : Dec P)
        → get Text-discrete m (ite d (pop Text-discrete k (held_of w s)) (held_of w s))
          ≡ ite d
              (ite (Text-discrete k m) none (get Text-discrete m (held_of w s)))
              (get Text-discrete m (held_of w s))
    through (yes p) = get-pop Text-discrete k m (held_of w s)
    through (no p) = refl
