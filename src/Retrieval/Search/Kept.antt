-- ===== src/Retrieval/Search/Kept.antt =====
-- The lexical search of app/rag/vectorstore.py: the indexes that it keeps are those of the stores, and
-- what it returns.
use customer_service.Prelude.{
  ℕ, ◌≡◌, refl, sym, Bool, Bool-cases, true, false, not, Option, none, some, inl, inr, arith, List,
  [], ◌∷◌, All, All-of_In, All-weaken, if◌then◌else◌,
}
use mathlib.Core.Path.{subst}
use customer_service.Prelude.Text.{Text, Text-discrete}
use customer_service.Prelude.Dict.{Dict, get, put, values, All-put, All-get, All-put_entry}
use customer_service.Prelude.Sort.{All-sort}
use customer_service.Retrieval.{
  Document, Key, Key-discrete, document_key, is_retrieval_chunk, matches_course,
}
use customer_service.Retrieval.Fusion.{Scores, descending}
use customer_service.Retrieval.Search.{
  Faiss, Words, live_documents, tokenize, Bm25Index, build, above_zero, searched, search, Lexical,
  built, cached, bm25_index, is_better, best_of, found_in, best_in, search_bm25,
}
use customer_service.Retrieval.Search.Own.{
  Holds, Holds-bind, All-keep_if, All-take, IsStored, IsOwn, AllOwn, IsScope, IsCoded, IsKept,
  matches_stored, search_scopes-IsScope,
}

module _ (floats : Scores) (faiss : Faiss floats) (words : Words floats) where
  open floats use {Score, less}
  open faiss use {Store, documents}

  module _ (P : Document → Type 0) where
    All-above_zero :
        (ds : List Document) (scores : List Score)
        → All P ds
        → All (λ (e : Document × Score). P e.0) (above_zero floats faiss words ds scores)
    unfolding above_zero
    All-above_zero [] scores h = tt
    All-above_zero (d ∷ ds) [] h = tt
    All-above_zero (d ∷ ds) (score ∷ scores) h = elim (Bool-cases (less floats.zero score)) [
      | inl e ↦ rw e (h.0, All-above_zero ds scores h.1)
      | inr e ↦ rw e (All-above_zero ds scores h.1)
    ]

    All-searched :
        (index : Bm25Index floats faiss words) (tokens : List Text) (k : ℕ)
        → All P index.documents
        → All (λ (e : Document × Score). P e.0) (searched floats faiss words index tokens k)
    unfolding descending
    All-searched index [] k h = tt
    All-searched index (t ∷ tokens) k h =
        All-take (λ (e : Document × Score). P e.0) k _
          (All-sort _ (λ (e : Document × Score). P e.0) _ (All-above_zero index.documents _ h))

    abbrev Documents : Option (Bm25Index floats faiss words) → Type 0
    Documents none = Unit
    Documents (some index) = All P index.documents

    All-found_in :
        (o : Option (Bm25Index floats faiss words)) (query : Text) (k : ℕ)
        → Documents o
        → All (λ (e : Document × Score). P e.0) (found_in floats faiss words o query k)
    unfolding search
    All-found_in none query k h = tt
    All-found_in (some index) query k h = All-searched index (tokenize floats faiss words query) k h

    Documents-build : (ds : List Document) → All P ds → Documents (build floats faiss words ds)
    unfolding build
    Documents-build [] h = tt
    Documents-build (d ∷ ds) h = h

  module _ (indexes : Dict Text Store) (tenant_id course_code : Text) where
    abbrev Stored : Document → Type 0
    Stored d = IsStored floats faiss words indexes tenant_id course_code d

    abbrev Own : List (Document × Score) → Type 0
    Own ranked = AllOwn floats faiss words indexes tenant_id course_code ranked

    abbrev OwnBest : Dict Key (Document × Score) → Type 0
    OwnBest best = Own (values best)

    abbrev KeptIndexes : Lexical floats faiss words → Type 0
    KeptIndexes lexical = IsKept floats faiss words indexes tenant_id course_code lexical

    -- what a lexical index may hold
    abbrev IsIndexed : Document → Type 0
    IsIndexed d = Stored d × (is_retrieval_chunk d ≡ true) × (d.deleted ≡ false)

    not-false : (b : Bool) → not b ≡ true → b ≡ false
    not-false b h = ground arith

    built-IsIndexed :
        (scope : Text) (o : Option Store) (query : Text) (k : ℕ)
        → IsScope floats faiss words indexes tenant_id course_code scope
        → get Text-discrete scope indexes ≡ o
        → All
            (λ (e : Document × Score). IsIndexed e.0)
            (found_in floats faiss words (built floats faiss words o) query k)
    unfolding live_documents
    built-IsIndexed scope none query k s e = tt
    built-IsIndexed scope (some store) query k s e = All-found_in IsIndexed _ query k (
        Documents-build IsIndexed _ (
          All-weaken (λ d. (Stored d × (not d.deleted ≡ true)) × (is_retrieval_chunk d ≡ true))
            IsIndexed _ (λ d h. (h.0.0, h.1, not-false d.deleted h.0.1))
            (All-keep_if (λ d. Stored d × (not d.deleted ≡ true)) is_retrieval_chunk _
              (All-keep_if Stored (λ d. not d.deleted) (documents store)
                (All-of_In Stored (documents store) (λ d i. record {
                  scope = scope;
                  store = store;
                  of_tenant = s;
                  kept = e;
                  held = i;
                }))))))

    abbrev Right : Text × Option (Bm25Index floats faiss words) → Type 0
    Right e = e.1 ≡ built floats faiss words (get Text-discrete e.0 indexes)

    -- the index of a scope is the one of its store, and stays so
    bm25_index-IsKept :
        (scope : Text) (lexical : Lexical floats faiss words)
        → KeptIndexes lexical
        → ((bm25_index floats faiss words indexes scope lexical).0
            ≡ built floats faiss words (get Text-discrete scope indexes))
          × KeptIndexes (bm25_index floats faiss words indexes scope lexical).1
    unfolding bm25_index
    bm25_index-IsKept scope lexical h = go (get Text-discrete scope lexical) refl
      where
        go :
            (o : Option (Option (Bm25Index floats faiss words)))
            → get Text-discrete scope lexical ≡ o
            → ((cached floats faiss words indexes scope lexical o).0
                ≡ built floats faiss words (get Text-discrete scope indexes))
              × KeptIndexes (cached floats faiss words indexes scope lexical o).1
        go (some index) e = (All-get Text-discrete Right scope lexical index h e, h)
        go none e = (refl, All-put_entry Text-discrete Right scope _ lexical refl h)

    module _ (coded : IsCoded floats faiss words indexes tenant_id course_code) where
      best-Own :
          (d : Document) (score : Score) (best : Dict Key (Document × Score))
          → IsIndexed d
          → matches_course d course_code ≡ some true
          → OwnBest best
          → OwnBest (
              if is_better floats faiss words (get Key-discrete (document_key d) best) score
              then put Key-discrete (document_key d) (d, score) best
              else best)
      best-Own d score best (stored, chunk, live) m k =
          elim (Bool-cases
            (is_better floats faiss words (get Key-discrete (document_key d) best) score)) [
              | inl e ↦ rw e (
                  All-put Key-discrete
                    (λ (x : Document × Score).
                      IsOwn floats faiss words indexes tenant_id course_code x.0)
                    (document_key d) (d, score) best
                    (record { in_store = stored; chunk = chunk; live = live; course = m }) k)
              | inr e ↦ rw e k
            ]

      best_of-IsOwn :
          (found : List (Document × Score)) (best : Dict Key (Document × Score))
          → All (λ (e : Document × Score). IsIndexed e.0) found
          → OwnBest best
          → Holds OwnBest (best_of floats faiss words course_code found best)
      unfolding best_of
      best_of-IsOwn [] best h k = k
      best_of-IsOwn ((d, score) ∷ found) best h k =
          elim (matches_stored floats faiss words indexes tenant_id course_code coded d h.0.0) [
            | inr m ↦ rw m (best_of-IsOwn found best h.1 k)
            | inl m ↦ rw m (best_of-IsOwn found _ h.1 (best-Own d score best h.0 m k))
          ]

      abbrev Outcome : Option (Dict Key (Document × Score)) × Lexical floats faiss words → Type 0
      Outcome r = Holds OwnBest r.0 × KeptIndexes r.1

      best_in-IsOwn :
          (query : Text) (k : ℕ) (scopes : List Text) (lexical : Lexical floats faiss words)
          (best : Dict Key (Document × Score))
          → All (IsScope floats faiss words indexes tenant_id course_code) scopes
          → KeptIndexes lexical
          → OwnBest best
          → Outcome (best_in floats faiss words indexes query k course_code scopes lexical best)
      unfolding best_in
      best_in-IsOwn query k [] lexical best s h b = (b, h)
      best_in-IsOwn query k (scope ∷ scopes) lexical best s h b =
          go (λ best' x. best_in-IsOwn query k scopes step.1 best' s.1 kept.1 x)
            (best_of floats faiss words course_code (found_in floats faiss words step.0 query k)
              best)
            (best_of-IsOwn _ best
              (subst
                (λ i.
                  All (λ (e : Document × Score). IsIndexed e.0)
                    (found_in floats faiss words i query k))
                (sym kept.0)
                (built-IsIndexed scope (get Text-discrete scope indexes) query k s.0 refl))
              b)
        where
          step : Option (Bm25Index floats faiss words) × Lexical floats faiss words
          step = bm25_index floats faiss words indexes scope lexical

          kept :
              (step.0 ≡ built floats faiss words (get Text-discrete scope indexes))
              × KeptIndexes step.1
          kept = bm25_index-IsKept scope lexical h

          go :
              ((best' : Dict Key (Document × Score))
                → OwnBest best'
                → Outcome
                    (best_in floats faiss words indexes query k course_code scopes step.1 best'))
              → (o : Option (Dict Key (Document × Score))) → Holds OwnBest o
              → Outcome (elim o [
                | none ↦ (none, step.1)
                | some best' ↦
                    best_in floats faiss words indexes query k course_code scopes step.1 best'
              ])
          go next none x = absurd x
          go next (some best') x = next best' x

      -- the lexical search gives documents that the tenant may see, and keeps right indexes
      pub search_bm25-IsOwn :
          (query : Text) (fetch_k : ℕ) (lexical : Lexical floats faiss words)
          → KeptIndexes lexical
          → Holds Own
              (search_bm25 floats faiss words indexes query tenant_id fetch_k course_code lexical).0
            × KeptIndexes
                (search_bm25 floats faiss words indexes query tenant_id fetch_k course_code
                  lexical).1
      unfolding search_bm25 descending
      search_bm25-IsOwn query fetch_k lexical h =
          let r =
            best_in-IsOwn query _ _ lexical []
              (search_scopes-IsScope floats faiss words indexes tenant_id course_code) h tt in
          (
            Holds-bind OwnBest Own _ _ r.0 (λ b o.
                All-take
                  (λ (e : Document × Score).
                    IsOwn floats faiss words indexes tenant_id course_code e.0)
                  fetch_k _
                  (All-sort (λ (a c : Document × Score). less c.1 a.1)
                    (λ (e : Document × Score).
                      IsOwn floats faiss words indexes tenant_id course_code e.0)
                    (values b) o)),
            r.1,
          )
