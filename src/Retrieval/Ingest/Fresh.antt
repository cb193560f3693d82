-- ===== src/Retrieval/Ingest/Fresh.antt =====
-- What an ingest of app/rag/vectorstore.py leaves live of a tenant.
use customer_service.Prelude.{
  ◌≡◌, sym, ap, ◌∙◌, Bool-cases, true, false, not, Option, Option-cases, none, some, inl, inr,
  arith, List, [], ◌∷◌, ◌++◌, keep_if, All, All-In, All-of_In, All-weaken, All-append, In,
}
use mathlib.Core.Path.{subst}
use customer_service.Prelude.Text.{Text, Text-discrete, has_text}
use customer_service.Prelude.Dict.{Dict, get, among}
use customer_service.Retrieval.{Document}
use customer_service.Retrieval.Search.Own.{All-map}
use customer_service.Retrieval.Ingest.{
  DocumentStores, source_of, hash_of, live_source_hashes, wanted_hashes, wanted_by_source,
  plan_wanted, retire_unwanted, is_kept, is_stale, retire, soft_delete_stale, with_new,
  without_stale, write, no_changes, ingest_tenant,
}
use customer_service.Retrieval.Ingest.Hashes.{HasHash, IsLive, wanted_found, live_found}
use customer_service.Retrieval.Ingest.Planned.{
  documents-with_new, All-wanted_by_source, All-plan_wanted, retired_stays, unwanted_is_retired,
  changed_is_retired,
}

module _ (stores : DocumentStores) (digest : Text → Text) (wanted : List Document)
    (same_hash : All (HasHash digest) wanted) where
  abbrev wanted_hash : Dict Text Text
  wanted_hash = wanted_hashes wanted []

  -- a live document is of a wanted source, in the wanted version
  abbrev IsFresh : Document → Type 0
  IsFresh d = d.deleted ≡ false → get Text-discrete (source_of d) wanted_hash ≡ some (hash_of d)

  abbrev pub IsWanted : Document → Type 0
  IsWanted d = get Text-discrete (source_of d) wanted_hash ≡ some (hash_of d)

  all-IsWanted : All IsWanted wanted
  all-IsWanted = All-of_In IsWanted wanted (λ d i.
      wanted_found digest d wanted [] same_hash i
      ∙ ap some (sym (All-In (HasHash digest) d wanted same_hash i)))

  new-IsWanted :
      (live : Dict Text Text)
      → All IsWanted
          (plan_wanted (wanted_by_source wanted []) live wanted_hash (no_changes stores)).new_docs
  new-IsWanted live =
      All-plan_wanted IsWanted _ live wanted_hash _
        (All-wanted_by_source IsWanted wanted [] all-IsWanted tt) tt

  retire-IsFresh :
      (sources : List Text) (d : Document) → IsWanted d → IsFresh (retire sources wanted_hash d)
  retire-IsFresh sources d h = elim (Bool-cases (is_stale sources wanted_hash d)) [
    | inl e ↦ rw e (λ _. h)
    | inr e ↦ rw e (λ _. h)
  ]

  module _ (old : Text → Text) (docs : List Document) (same_old : All (IsLive old) docs) where
    abbrev live : Dict Text Text
    live = live_source_hashes docs []

    abbrev retired : List Text
    retired =
        retire_unwanted wanted_hash live
          (plan_wanted (wanted_by_source wanted []) live wanted_hash
            (no_changes stores)).retire_sources

    retired_is_stale :
        (d : Document)
        → among Text-discrete (source_of d) retired ≡ true
        → d.deleted ≡ false
        → is_kept (get Text-discrete (source_of d) wanted_hash) (hash_of d) ≡ false
        → is_stale retired wanted_hash d ≡ true
    retired_is_stale d a e k = ground (arith, a, e, k)

    differs : (w h : Text) → (h ≡ w → ⊥) → is_kept (some w) h ≡ false
    differs w h n = ground (arith, n)

    stays-IsFresh : (d : Document) → In d docs → is_stale retired wanted_hash d ≡ false → IsFresh d
    stays-IsFresh d i e o = elim (Option-cases (get Text-discrete (source_of d) wanted_hash)) [
      | inl n ↦ absurd (
          ground (
            arith,
            retired_is_stale d
                (unwanted_is_retired wanted_hash (source_of d) (old (source_of d)) live _ found n) o
                (ap (λ x. is_kept x (hash_of d)) n),
            e,
          ))
      | inr (w, p) ↦ elim (Text-discrete (hash_of d) w) [
        | yes q ↦ p ∙ ap some (sym q)
        | no q ↦ absurd (
            ground (
              arith,
              retired_is_stale d
                  (retired_stays wanted_hash (source_of d) live _ (
                    changed_is_retired (wanted_by_source wanted []) live (source_of d)
                      (old (source_of d)) w wanted_hash (no_changes stores) found p
                      (λ r. q ((All-In (IsLive old) d docs same_old i o).1 ∙ r))))
                  o (ap (λ x. is_kept x (hash_of d)) p ∙ differs w (hash_of d) q),
              e,
            ))
      ]
    ]
      where
        found : get Text-discrete (source_of d) live ≡ some (old (source_of d))
        found = live_found old d docs [] same_old i o

    old-IsFresh : (d : Document) → In d docs → IsFresh (retire retired wanted_hash d)
    old-IsFresh d i = elim (Bool-cases (is_stale retired wanted_hash d)) [
      | inl e ↦ rw e (λ o. absurd (ground (arith, o)))
      | inr e ↦ rw e (stays-IsFresh d i e)
    ]

  open stores use {Store, documents, from_documents, add_documents}

  -- the live documents of a store
  abbrev live_of : Store → List Document
  live_of store = keep_if (λ d. not d.deleted) (documents store)

  -- the source of every live document is wanted, in the version of the document
  abbrev pub AllFresh : Option Store → Type 0
  AllFresh none = Unit
  AllFresh (some store) = All IsWanted (live_of store)

  fresh-live :
      (ds : List Document) → All IsFresh ds → All IsWanted (keep_if (λ d. not d.deleted) ds)
  fresh-live [] h = tt
  fresh-live (d ∷ ds) h = elim (Bool-cases d.deleted) [
    | inl e ↦ simp e (fresh-live ds h.1)
    | inr e ↦ simp e (h.0 e, fresh-live ds h.1)
  ]

  kept_part :
      (old : Text → Text) (ds : List Document)
      → All (λ d. (has_text (source_of d) ≡ true) × HasHash old d) (keep_if (λ d. not d.deleted) ds)
      → All (IsLive old) ds
  kept_part old [] h = tt
  kept_part old (d ∷ ds) h = elim (Bool-cases d.deleted) [
    | inl e ↦ ((λ o. absurd (ground (arith, e, o))), kept_part old ds (simp e at h))
    | inr e ↦ let k = simp e at h in ((λ _. k.0), kept_part old ds k.1)
  ]

  abbrev KeptFresh : List Text → Document → Type 0
  KeptFresh sources d = IsFresh (retire sources wanted_hash d)

  write_none-AllFresh :
      (new : List Document) (sources : List Text)
      → All IsFresh new
      → AllFresh (write stores none new sources wanted_hash).0
  write_none-AllFresh [] [] h = tt
  write_none-AllFresh [] (s ∷ sources) h =
      fresh-live _ (subst (All IsFresh) (sym (stores.documents-from [])) h)
  write_none-AllFresh (d ∷ new) sources h =
      fresh-live _ (subst (All IsFresh) (sym (stores.documents-from (d ∷ new))) h)

  without_stale-AllFresh :
      (store : Store) (sources : List Text)
      → All (KeptFresh sources) (documents store)
      → All IsFresh (documents (without_stale stores store sources wanted_hash).0)
  unfolding among soft_delete_stale
  without_stale-AllFresh store [] h = h
  without_stale-AllFresh store (s ∷ sources) h =
      subst (All IsFresh) (sym (stores.documents-change (retire (s ∷ sources) wanted_hash) store))
        (All-map IsFresh (retire (s ∷ sources) wanted_hash) (documents store) h)

  write_some-AllFresh :
      (store : Store) (new : List Document) (sources : List Text)
      → All (KeptFresh sources) (documents store ++ new)
      → AllFresh (write stores (some store) new sources wanted_hash).0
  write_some-AllFresh store new sources h = fresh-live _ (
      without_stale-AllFresh (with_new stores store new) sources
        (subst (All (KeptFresh sources)) (documents-with_new stores store new) h))

  abbrev pub AllLive : (Text → Text) → Option Store → Type 0
  AllLive old none = Unit
  AllLive old (some store) =
      All (λ d. (has_text (source_of d) ≡ true) × HasHash old d) (live_of store)

  -- If the hash of the wanted documents is a function of their source, and that of the live documents
  -- of the store too, which all have a source, then the documents that are live behind an ingest of
  -- the tenant are of wanted sources, in the wanted version. The store may be absent before.
  pub ingest_tenant-AllFresh :
      (old : Text → Text) (store : Option Store)
      → AllLive old store
      → AllFresh (ingest_tenant stores store wanted).store
  unfolding ingest_tenant
  ingest_tenant-AllFresh old none h =
      write_none-AllFresh _ _ (All-weaken IsWanted IsFresh _ (λ d p _. p) (new-IsWanted []))
  ingest_tenant-AllFresh old (some store) h =
      let k = kept_part old (documents store) h in
      write_some-AllFresh store _ _ (
        All-append (KeptFresh (retired old (documents store) k)) (documents store) _
          (All-of_In _ (documents store) (old-IsFresh old (documents store) k))
          (All-weaken IsWanted _ _ (retire-IsFresh (retired old (documents store) k))
            (new-IsWanted (live old (documents store) k))))
