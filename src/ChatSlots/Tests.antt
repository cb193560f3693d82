-- ===== src/ChatSlots/Tests.antt =====
-- The slot store of app/chat_slots.py on a small history.
use customer_service.Prelude.{◌≡◌, refl, length, leb, if◌then◌else◌}
use customer_service.Prelude.Text.{Text, codes, Text-discrete}
use customer_service.Prelude.Dict.{get, put, pop, map_values}
use customer_service.ChatSlots.{
  Store, empty, token, busy, tenant, cluster, acquire, release, purge, held_of,
}
use customer_service.ChatSlots.Leases.{IsValid, live}
use customer_service.ChatSlots.Invariant
use customer_service.ChatSlots.Invariant.{Fresh}
use customer_service.ChatSlots.Reach
use customer_service.ChatSlots.Reach.{Step, IsWithin}
use customer_service.ChatSlots.RoundTrip

abbrev acme : Text
acme = codes "acme"

abbrev demo : Text
demo = codes "demo"

abbrev one : Text
one = codes "1"

abbrev two : Text
two = codes "2"

-- a store with one slot taken by `acme`, at most three in the whole and one per tenant
abbrev taken : Store
taken = (acquire acme 3 1 30 0 one empty).1

one-Fresh : Fresh one empty
unfolding get
one-Fresh = refl

two-Fresh : Fresh two taken
unfolding acquire purge get Text-discrete put pop map_values
two-Fresh = refl

taken-Reach : Reach.Reach 3 1 taken
taken-Reach = Reach.Reach.next Reach.Reach.here (Step.acquires acme 30 0 one one-Fresh)

taken-IsValid : IsValid taken
taken-IsValid = (Reach.Reach-keeps 3 1 taken-Reach).0

refused : (acquire acme 3 1 30 5 two taken).0 ≡ busy tenant
unfolding acquire purge get Text-discrete put pop map_values
refused = refl

expired : (acquire acme 3 1 30 30 two taken).0 ≡ token two
unfolding acquire purge get Text-discrete put pop map_values
expired = refl

acquire_decides_example : (acquire acme 3 1 30 5 two taken).0 ≡ (
    if leb 3 (length (live 5 taken.global))
    then busy cluster
    else if leb 1 (length (live 5 (held_of acme taken)))
    then busy tenant
    else token two)
acquire_decides_example = Invariant.acquire_decides acme 3 1 30 5 two taken taken-IsValid

Reach-keeps_example : IsValid taken × IsWithin 3 1 taken
Reach-keeps_example = Reach.Reach-keeps 3 1 taken-Reach

release-acquire_example :
    ((release acme two (acquire acme 3 1 30 30 two taken).1).global ≡ live 30 taken.global)
    × ((u : Text)
        → held_of u (release acme two (acquire acme 3 1 30 30 two taken).1)
          ≡ live 30 (held_of u taken))
release-acquire_example =
    RoundTrip.release-acquire acme 3 1 30 30 two taken taken-IsValid two-Fresh expired
