-- ===== src/ChatSlots.antt =====
-- The slots for concurrent conversations, `MemoryChatSlotStore` of app/chat_slots.py. Each method
-- holds the store's lock, so a call is one atomic step. The clock is an argument, in seconds, and
-- so is the token that `uuid.uuid4` makes.
pub mod Leases
pub mod Invariant
pub mod Reach
pub mod RoundTrip
pub mod Redis
pub mod Tests
use customer_service.Prelude.{
  ℕ, ◌+◌, max, Bool, true, false, Option, none, some, leb, if◌then◌else◌, List, [], ◌∷◌, length,
}
use customer_service.Prelude.Text.{Text, Text-discrete}
use customer_service.Prelude.Dict.{Dict, get, put, pop, pop_all, map_values}

-- tokens with the time at which they expire
abbrev pub Leases : Type 0
Leases = Dict Text ℕ

-- `_global` and `_tenants`
pub record Store : Type 0 where
  pub global : Leases
  pub tenants : Dict Text Leases

abbrev pub empty : Store
empty = record { global = []; tenants = [] }

-- `BusyReason`, and what `acquire` does: it returns the token, or raises `ChatSlotBusy(reason)`
pub data BusyReason : Type 0 where
  cluster tenant : BusyReason

pub data Acquired : Type 0 where
  token : Text → Acquired
  busy : BusyReason → Acquired

-- `[token for token, exp in self._global.items() if exp <= now]`
unfoldable pub stale : ℕ → Leases → List Text
stale now [] = []
stale now ((k, exp) ∷ d) = if leb exp now then k ∷ stale now d else stale now d

-- one round of the loop of `_purge`
drop_token : Text → Store → Store
drop_token k s = record {
  global = pop Text-discrete k s.global;
  tenants = map_values (pop Text-discrete k) s.tenants;
}

pub drop_tokens : List Text → Store → Store
drop_tokens [] s = s
drop_tokens (k ∷ ks) s = drop_tokens ks (drop_token k s)

-- `_purge`
unfoldable pub purge : ℕ → Store → Store
unfolding drop_tokens drop_token stale
purge now s = drop_tokens (stale now s.global) s

abbrev pub or_empty : Option Leases → Leases
or_empty none = []
or_empty (some held) = held

-- what a tenant holds
abbrev pub held_of : Text → Store → Leases
held_of tenant_id s = or_empty (get Text-discrete tenant_id s.tenants)

-- `self._tenants.setdefault(tenant_id, {})`
unfoldable pub set_default : Text → Store → Store
set_default tenant_id s = elim (get Text-discrete tenant_id s.tenants) [
  | none ↦ record s { tenants = put Text-discrete tenant_id [] s.tenants }
  | some _ ↦ s
]

-- the two writes of a successful `acquire`
unfoldable pub grant : Text → Text → ℕ → Store → Store
grant tenant_id k expire_at s = record {
  global = put Text-discrete k expire_at s.global;
  tenants =
      put Text-discrete tenant_id (put Text-discrete k expire_at (held_of tenant_id s)) s.tenants;
}

-- `acquire` behind its purge
unfoldable pub take_slot : Text → ℕ → ℕ → ℕ → Text → Store → Acquired × Store
unfolding set_default grant
take_slot tenant_id global_limit tenant_limit expire_at k s =
    if leb global_limit (length s.global)
    then (busy cluster, s)
    else if leb tenant_limit (length (held_of tenant_id (set_default tenant_id s)))
    then (busy tenant, set_default tenant_id s)
    else (token k, grant tenant_id k expire_at (set_default tenant_id s))

-- `acquire`; a lease lasts at least one second
unfoldable pub acquire : Text → ℕ → ℕ → ℕ → ℕ → Text → Store → Acquired × Store
unfolding take_slot
acquire tenant_id global_limit tenant_limit ttl_seconds now k s =
    take_slot tenant_id global_limit tenant_limit (now + max 1 ttl_seconds) k (purge now s)

-- `release`; a tenant that is not known is left so
unfoldable pub release : Text → Text → Store → Store
release tenant_id k s = record {
  global = pop Text-discrete k s.global;
  tenants = elim (get Text-discrete tenant_id s.tenants) [
    | none ↦ s.tenants
    | some held ↦ put Text-discrete tenant_id (pop Text-discrete k held) s.tenants
  ];
}

-- `in_flight`
unfoldable pub in_flight : ℕ → Store → ℕ × Store
in_flight now s = (length (purge now s).global, purge now s)
