-- ===== src/SessionCache/Tests/Workers.antt =====
-- Two workers on the shared cache of app/session_cache.py.
use customer_service.Prelude.{◌≡◌, refl, sym, ap, ◌∙◌, arith, Option, some, [], ◌∷◌}
use mathlib.Core.Path.{subst}
use customer_service.Prelude.Text.{codes, Text-discrete}
use customer_service.Prelude.Dict.{Dict, get, put, get-put_self}
use customer_service.SessionCache.{dict_session_cache}
use customer_service.SessionCache.Payloads.{Atom, Typed, Payload, integer, text}
use customer_service.SessionCache.Codec.{envelope, IsCarried}
use customer_service.SessionCache.RoundTrip.{IsTidy}
use customer_service.SessionCache.Saver.{
  Workspace, slice, load, persist, write, or_new, keep_latest,
}
use customer_service.SessionCache.Saver.Slices.{nothing, Payload-eq, pruned}
use customer_service.SessionCache.Saver.Shared
use customer_service.SessionCache.Saver.Shared.{IsLocal}
use customer_service.SessionCache.Saver.Prune
use customer_service.SessionCache.Saver.Prune.{IsPruned}
use customer_service.SessionCache.Tests.{
  python, thread, saved, payload, payload-IsTidy, payload-IsCarried,
}

-- a checkpoint that refers to one channel
abbrev versions : Typed → Option (Dict Atom Atom)
versions typed = some ((text (codes "c"), integer 1) ∷ [])

abbrev busy : Workspace
busy = record {
  storage = (thread, payload.storage) ∷ [];
  writes = payload.writes;
  blobs = payload.blobs;
}

empty : dict_session_cache.Cache
unfolding dict_session_cache
empty = []

-- a base operation that puts a conversation's first checkpoint
abbrev first : Workspace → Unit {0} × Workspace
first w = (tt, record w { storage = put Text-discrete thread payload.storage w.storage })

first-IsLocal : IsLocal thread first
unfolding slice
first-IsLocal w w' e = (
  refl,
  Payload-eq
      (ap or_new (get-put_self Text-discrete thread payload.storage w.storage)
        ∙ sym (ap or_new (get-put_self Text-discrete thread payload.storage w'.storage)))
      (ap (λ (p : Payload). p.writes) e) (ap (λ (p : Payload). p.blobs) e),
)

write_everywhere_example :
    ((write dict_session_cache python versions first thread empty nothing).0
      ≡ (write dict_session_cache python versions first thread empty busy).0)
    × ((write dict_session_cache python versions first thread empty nothing).1
        ≡ (write dict_session_cache python versions first thread empty busy).1)
write_everywhere_example =
    Shared.write_everywhere dict_session_cache python versions first thread empty nothing busy
      first-IsLocal

kept_payload : pruned versions (slice thread busy) ≡ payload
unfolding pruned slice get Text-discrete keep_latest
kept_payload = refl

slice-load_persisted_example :
    slice thread
      (load dict_session_cache python versions thread
        (persist dict_session_cache python versions thread empty busy).0
        nothing).1
    ≡ pruned versions (slice thread busy)
slice-load_persisted_example =
    Shared.slice-load_persisted dict_session_cache python versions thread busy empty nothing
      (λ e. absurd (ground (arith, sym (ap (λ (p : Payload). p.storage) kept_payload) ∙ e)))
      (subst IsTidy (sym kept_payload) payload-IsTidy)
      (subst (λ p. IsCarried (envelope p)) (sym kept_payload) payload-IsCarried)

keep_latest-IsPruned_example :
    IsPruned versions
      (([], (codes "1", saved) ∷ ((codes "2", saved) ∷ [])) ∷ (codes "n", []) ∷ [])
      (keep_latest versions
        (([], (codes "1", saved) ∷ ((codes "2", saved) ∷ [])) ∷ (codes "n", []) ∷ [])).ns_map
unfolding get Text-discrete
keep_latest-IsPruned_example =
    Prune.keep_latest-IsPruned versions
      (([], (codes "1", saved) ∷ ((codes "2", saved) ∷ [])) ∷ (codes "n", []) ∷ [])
      ((refl, (refl, tt)), (tt, tt))
