-- ===== src/Retrieval/Ingest/Whole.antt =====
-- That an ingest of app/rag/vectorstore.py leaves nothing out that is wanted.
use customer_service.Prelude.{
  ◌≡◌, refl, sym, ap, ◌∙◌, Bool, Bool-cases, true, false, not, ◌&&◌, Option, none, some, ◌⊎◌, inl,
  inr, arith, List, [], ◌∷◌, ◌++◌, map, keep_if, All, All-In, In, In-append_left, In-append_right,
  if_pos, if_neg, if◌then◌else◌,
}
use mathlib.Core.Path.{subst}
use mathlib.Core.Option.{some-injective, none-ne-some}
use customer_service.Prelude.Text.{Text, Text-discrete, has_text}
use customer_service.Prelude.Dict.{Dict, get, get-put}
use customer_service.Retrieval.{Document}
use customer_service.Retrieval.Ingest.{
  DocumentStores, source_of, hash_of, live_source_hashes, wanted_hashes, or_empty, wanted_by_source,
  matches, Changes, change, plan_wanted, is_kept, is_stale, retire, soft_delete_stale, with_new,
  without_stale, write, no_changes, ingest_tenant,
}
use customer_service.Retrieval.Ingest.Hashes.{HasHash, wanted_found}
use customer_service.Retrieval.Ingest.Planned.{documents-with_new}

module _ {A : Type 0} where
  In-keep_if : (p : A → Bool) (x : A) (xs : List A) → p x ≡ true → In x xs → In x (keep_if p xs)
  In-keep_if p x [] h i = i
  In-keep_if p x (y ∷ xs) h (inl q) = rw (ap p (sym q) ∙ h) (inl q)
  In-keep_if p x (y ∷ xs) h (inr i) = elim (Bool-cases (p y)) [
    | inl e ↦ rw e (inr (In-keep_if p x xs h i))
    | inr e ↦ rw e (In-keep_if p x xs h i)
  ]

  In-map : {B : Type 0} (f : A → B) (x : A) (xs : List A) → In x xs → In (f x) (map f xs)
  In-map f x [] i = absurd i
  In-map f x (y ∷ xs) (inl q) = inl (ap f q)
  In-map f x (y ∷ xs) (inr i) = inr (In-map f x xs i)

-- the documents of a source are all grouped under it
grouped_stays :
    (s : Text) (d : Document) (ds : List Document) (g : Dict Text (List Document))
    → In d (or_empty (get Text-discrete s g))
    → In d (or_empty (get Text-discrete s (wanted_by_source ds g)))
unfolding wanted_by_source
grouped_stays s d [] g h = h
grouped_stays s d (x ∷ ds) g h = grouped_stays s d ds _ (elim (Text-discrete (source_of x) s) [
  | yes p ↦
      subst (λ o. In d (or_empty o))
        (sym (
          get-put Text-discrete (source_of x) s _ g ∙ if_pos (Text-discrete (source_of x) s) p _ _))
        (In-append_left d (or_empty (get Text-discrete (source_of x) g)) _
          (subst (λ t. In d (or_empty (get Text-discrete t g))) (sym p) h))
  | no p ↦
      subst (λ o. In d (or_empty o))
        (sym (
          get-put Text-discrete (source_of x) s _ g ∙ if_neg (Text-discrete (source_of x) s) p _ _))
        h
])

grouped_found :
    (d : Document) (ds : List Document) (g : Dict Text (List Document))
    → In d ds
    → In d (or_empty (get Text-discrete (source_of d) (wanted_by_source ds g)))
unfolding wanted_by_source
grouped_found d [] g i = absurd i
grouped_found d (x ∷ ds) g (inr i) = grouped_found d ds _ i
grouped_found d (x ∷ ds) g (inl q) = grouped_stays (source_of d) d ds _ (
    subst (λ o. In d (or_empty o))
      (sym (
        get-put Text-discrete (source_of x) (source_of d) _ g
        ∙ if_pos (Text-discrete (source_of x) (source_of d)) (ap source_of (sym q)) _ _))
      (In-append_right d (or_empty (get Text-discrete (source_of x) g)) (x ∷ []) (inl q)))

module _ (g : Dict Text (List Document)) (live : Dict Text Text) where
  In-change :
      (d : Document) (source digest : Text) (changes : Changes)
      → In d changes.new_docs
      → In d (change g live source digest changes).new_docs
  In-change d source digest changes h =
      elim (Bool-cases (has_text digest && matches (get Text-discrete source live) digest)) [
        | inl e ↦ rw e h
        | inr e ↦ rw e (In-append_left d changes.new_docs _ h)
      ]

  In-plan_wanted :
      (d : Document) (items : Dict Text Text) (changes : Changes)
      → In d changes.new_docs
      → In d (plan_wanted g live items changes).new_docs
  unfolding plan_wanted
  In-plan_wanted d [] changes h = h
  In-plan_wanted d ((source, digest) ∷ items) changes h =
      In-plan_wanted d items _ (In-change d source digest changes h)

  -- a source that is not live as it is wanted is written with all its documents
  changed_is_new :
      (s w : Text) (d : Document) (items : Dict Text Text) (changes : Changes)
      → get Text-discrete s items ≡ some w
      → has_text w && matches (get Text-discrete s live) w ≡ false
      → In d (or_empty (get Text-discrete s g))
      → In d (plan_wanted g live items changes).new_docs
  unfolding get plan_wanted
  changed_is_new s w d [] changes e n i = absurd (none-ne-some _ e)
  changed_is_new s w d ((source, digest) ∷ items) changes e n i = elim (Text-discrete source s) [
    | no p ↦ changed_is_new s w d items _ (sym (if_neg (Text-discrete source s) p _ _) ∙ e) n i
    | yes p ↦
        let q : digest ≡ w = some-injective _ _ (sym (if_pos (Text-discrete source s) p _ _) ∙ e) in
        In-plan_wanted d items _ (written source digest (sym p) (sym q))
  ]
    where
      written :
          (source digest : Text)
          → s ≡ source
          → w ≡ digest
          → In d (change g live source digest changes).new_docs
      written source digest p q =
          subst (λ x. In d (change g live x digest changes).new_docs) p
            (subst (λ x. In d (change g live s x changes).new_docs) q
              (rw n (In-append_right d changes.new_docs (or_empty (get Text-discrete s g)) i)))

-- a live hash is that of a live document
live_origin :
    (s l : Text) (ds : List Document) (hashes : Dict Text Text)
    → get Text-discrete s (live_source_hashes ds hashes) ≡ some l
    → ((d : Document) × In d ds × (d.deleted ≡ false) × (source_of d ≡ s) × (hash_of d ≡ l))
      ⊎ (get Text-discrete s hashes ≡ some l)
unfolding live_source_hashes
live_origin s l [] hashes e = inr e
live_origin s l (x ∷ ds) hashes e = elim (live_origin s l ds _ e) [
  | inl (d, i, o, p, q) ↦ inl (d, inr i, o, p, q)
  | inr f ↦ elim (Bool-cases (not x.deleted && has_text (source_of x))) [
    | inr c ↦ inr (rw c at f)
    | inl c ↦ elim (Text-discrete (source_of x) s) [
      | no p ↦ inr (
          sym (
            get-put Text-discrete (source_of x) s _ hashes
            ∙ if_neg (Text-discrete (source_of x) s) p _ _)
          ∙ (rw c at f))
      | yes p ↦ inl (
        x,
        inl refl,
        live_if x.deleted (has_text (source_of x)) c,
        p,
        some-injective _ _ (
            sym (
              get-put Text-discrete (source_of x) s _ hashes
              ∙ if_pos (Text-discrete (source_of x) s) p _ _)
            ∙ (rw c at f)),
      )
    ]
  ]
]
  where
    live_if : (a b : Bool) → not a && b ≡ true → a ≡ false
    live_if a b h = ground (arith, h)

module _ (stores : DocumentStores) where
  open stores use {Store, documents}

  -- the documents that are live in a store that may be absent
  abbrev pub live_documents_of : Option Store → List Document
  live_documents_of none = []
  live_documents_of (some store) = keep_if (λ d. not d.deleted) (documents store)

module _ (stores : DocumentStores) (wanted_hash : Dict Text Text) where
  open stores use {Store, documents}

  In-live :
      (d : Document) (store : Store)
      → d.deleted ≡ false
      → In d (documents store)
      → In d (live_documents_of stores (some store))
  In-live d store e i = In-keep_if (λ x. not x.deleted) d (documents store) (ap not e) i

  write_none-In :
      (d : Document) (new : List Document) (sources : List Text)
      → d.deleted ≡ false
      → In d new
      → In d (live_documents_of stores (write stores none new sources wanted_hash).0)
  write_none-In d [] sources e i = absurd i
  write_none-In d (x ∷ new) sources e i =
      In-live d (stores.from_documents (x ∷ new)) e
        (subst (In d) (sym (stores.documents-from (x ∷ new))) i)

  without_stale-In :
      (d : Document) (store : Store) (sources : List Text)
      → is_stale sources wanted_hash d ≡ false
      → In d (documents store)
      → In d (documents (without_stale stores store sources wanted_hash).0)
  unfolding soft_delete_stale
  without_stale-In d store [] n i = i
  without_stale-In d store (s ∷ sources) n i =
      subst (In d) (sym (stores.documents-change (retire (s ∷ sources) wanted_hash) store)) (
        subst (λ x. In x (map (retire (s ∷ sources) wanted_hash) (documents store)))
          (unchanged (is_stale (s ∷ sources) wanted_hash d) n)
          (In-map (retire (s ∷ sources) wanted_hash) d (documents store) i))
    where
      unchanged : (b : Bool) → b ≡ false → (if b then record d { deleted = true } else d) ≡ d
      unchanged true h = absurd (ground (arith, h))
      unchanged false h = refl

  kept-fresh :
      (d : Document) (sources : List Text)
      → get Text-discrete (source_of d) wanted_hash ≡ some (hash_of d)
      → has_text (hash_of d) ≡ true
      → is_stale sources wanted_hash d ≡ false
  kept-fresh d sources e h =
      let k : is_kept (get Text-discrete (source_of d) wanted_hash) (hash_of d) ≡ true =
        ap (λ o. is_kept o (hash_of d)) e ∙ ground (arith, h) in
      ground (arith, k)

  write_some-In :
      (d : Document) (store : Store) (new : List Document) (sources : List Text)
      → d.deleted ≡ false
      → get Text-discrete (source_of d) wanted_hash ≡ some (hash_of d)
      → has_text (hash_of d) ≡ true
      → In d (documents store ++ new)
      → In d (live_documents_of stores (write stores (some store) new sources wanted_hash).0)
  write_some-In d store new sources o e h i = In-live d _ o (
      without_stale-In d (with_new stores store new) sources (kept-fresh d sources e h)
        (subst (In d) (documents-with_new stores store new) i))

module _ (stores : DocumentStores) (digest : Text → Text) (wanted : List Document)
    (same_hash : All (HasHash digest) wanted) where
  abbrev hashes : Dict Text Text
  hashes = wanted_hashes wanted []

  hash_found :
      (d : Document) → In d wanted → get Text-discrete (source_of d) hashes ≡ some (hash_of d)
  hash_found d i =
      wanted_found digest d wanted [] same_hash i
      ∙ ap some (sym (All-In (HasHash digest) d wanted same_hash i))

  new_found :
      (d : Document) (live : Dict Text Text)
      → In d wanted
      → has_text (hash_of d) && matches (get Text-discrete (source_of d) live) (hash_of d) ≡ false
      → In d (plan_wanted (wanted_by_source wanted []) live hashes (no_changes stores)).new_docs
  new_found d live i n =
      changed_is_new (wanted_by_source wanted []) live (source_of d) (hash_of d) d hashes
        (no_changes stores) (hash_found d i) n (grouped_found d wanted [] i)

  matched : (h : Text) (o : Option Text) → has_text h && matches o h ≡ true → o ≡ some h
  matched h none e = absurd (ground (arith, e))
  matched h (some x) e = ground (arith, e)

  -- If the hash of the wanted documents is a function of their source, then of every wanted document
  -- that has a hash and is not deleted, some document of the same source and hash is live behind an
  -- ingest of the tenant, whether or not there was a store before.
  pub ingest_tenant_whole :
      (store : Option stores.Store) (d : Document)
      → In d wanted
      → d.deleted ≡ false
      → has_text (hash_of d) ≡ true
      → (e : Document) × In e (live_documents_of stores (ingest_tenant stores store wanted).store)
        × (source_of e ≡ source_of d)
        × (hash_of e ≡ hash_of d)
  unfolding ingest_tenant get live_source_hashes
  ingest_tenant_whole none d i o h =
      (d, write_none-In stores hashes d _ _ o (new_found d [] i (ground arith)), refl, refl)
  ingest_tenant_whole (some store) d i o h =
      elim (Bool-cases
        (has_text (hash_of d) && matches (get Text-discrete (source_of d) live) (hash_of d))) [
          | inr n ↦ (
            d,
            write_some-In stores hashes d store _ _ o (hash_found d i) h
                (In-append_right d (stores.documents store) _ (new_found d live i n)),
            refl,
            refl,
          )
          | inl e ↦ there (
              live_origin (source_of d) (hash_of d) (stores.documents store) []
                (matched (hash_of d) _ e))
        ]
    where
      live : Dict Text Text
      live = live_source_hashes (stores.documents store) []

      there :
          ((x : Document) × In x (stores.documents store)
              × (x.deleted ≡ false)
              × (source_of x ≡ source_of d)
              × (hash_of x ≡ hash_of d))
            ⊎ (get Text-discrete (source_of d) [] ≡ some (hash_of d))
          → (x : Document) × In x
              (live_documents_of stores (ingest_tenant stores (some store) wanted).store)
            × (source_of x ≡ source_of d)
            × (hash_of x ≡ hash_of d)
      there (inr n) = absurd (none-ne-some _ n)
      there (inl (x, j, off, p, q)) = (
        x,
        write_some-In stores hashes x store _ _ off
            (ap (λ s. get Text-discrete s hashes) p ∙ hash_found d i ∙ ap some (sym q))
            (ap has_text q ∙ h) (In-append_left x (stores.documents store) _ j),
        p,
        q,
      )
