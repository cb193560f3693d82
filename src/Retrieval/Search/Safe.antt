-- ===== src/Retrieval/Search/Safe.antt =====
-- A search of app/rag/vectorstore.py as a whole: it returns, and only what the tenant may see.
use customer_service.Prelude.{
  ℕ, ◌≤◌, Bool-cases, Option, none, some, inl, inr, List, [], ◌∷◌, All, All-append, length,
}
use customer_service.Prelude.Text.{Text}
use customer_service.Prelude.Dict.{Dict}
use customer_service.Retrieval.{Document}
use customer_service.Retrieval.Fusion.{Scores}
use customer_service.Retrieval.Search.{◌>>=◌, Faiss, Words, Lexical, search_vector}
use customer_service.Retrieval.Search.Hits.{SearchHit, Ranked}
use customer_service.Retrieval.Search.Tenant.{
  Settings, lexical_ranked, Found, query_hits, single_query_hits, Gathered, gather, gather_queries,
  nothing_gathered, multi_query_hits, active_queries, found_by, TenantSearchResult,
  search_tenant_documents,
}
use customer_service.Retrieval.Search.Own.{
  Holds, Holds-bind, All-map, IsOwn, IsCoded, IsKept, search_vector-IsOwn,
}
use customer_service.Retrieval.Search.Kept.{search_bm25-IsOwn}
use customer_service.Retrieval.Search.Ranked.{
  IsScoring, hits_from_ranked_lists-IsOwn, query_hits-IsOwn, result_of-IsOwn,
}

module _ (floats : Scores) (faiss : Faiss floats) (words : Words floats) (settings : Settings) where
  open floats use {Score}
  open faiss use {Store}

  module _ (indexes : Dict Text Store) (tenant_id course_code : Text) where
    abbrev Own : Document → Type 0
    Own d = IsOwn floats faiss words indexes tenant_id course_code d

    abbrev OwnRanked : Ranked floats → Type 0
    OwnRanked ranked = All (λ (e : Document × Score). Own e.0) ranked

    abbrev pub OwnHits : List (SearchHit floats) → Type 0
    OwnHits hits = All (λ (h : SearchHit floats). Own h.document) hits

    abbrev KeptIndexes : Lexical floats faiss words → Type 0
    KeptIndexes lexical = IsKept floats faiss words indexes tenant_id course_code lexical

    -- what the search for one query finds, and the indexes that it leaves
    abbrev OwnFound : Found floats faiss words settings → Type 0
    OwnFound found =
        OwnHits found.hits × OwnRanked found.vector_ranked × OwnRanked found.bm25_ranked

    abbrev Outcome :
        Option (Found floats faiss words settings) × Lexical floats faiss words → Type 0
    Outcome r = Holds OwnFound r.0 × KeptIndexes r.1

    module _ (coded : IsCoded floats faiss words indexes tenant_id course_code) where
      lexical_ranked-IsOwn :
          (query : Text) (fetch_k : ℕ) (lexical : Lexical floats faiss words)
          → KeptIndexes lexical
          → Holds OwnRanked
              (lexical_ranked floats faiss words settings indexes query tenant_id fetch_k
                course_code lexical).0
            × KeptIndexes
                (lexical_ranked floats faiss words settings indexes query tenant_id fetch_k
                  course_code lexical).1
      lexical_ranked-IsOwn query fetch_k lexical h = elim (Bool-cases settings.rag_hybrid_enabled) [
        | inl e ↦ rw e (
            search_bm25-IsOwn floats faiss words indexes tenant_id course_code coded query fetch_k
              lexical h)
        | inr e ↦ rw e (tt, h)
      ]

      single-IsOwn :
          (query : Text) (fetch_k fuse_limit : ℕ) (lexical : Lexical floats faiss words)
          → KeptIndexes lexical
          → Outcome (
              single_query_hits floats faiss words settings indexes query tenant_id fetch_k
                fuse_limit course_code lexical)
      unfolding single_query_hits
      single-IsOwn query fetch_k fuse_limit lexical h =
          go (search_vector floats faiss words indexes query tenant_id fetch_k course_code) (
            search_vector-IsOwn floats faiss words indexes tenant_id course_code coded query
              fetch_k)
        where
          found : Option (Ranked floats) × Lexical floats faiss words
          found =
              lexical_ranked floats faiss words settings indexes query tenant_id fetch_k course_code
                lexical

          go :
              (o : Option (Ranked floats))
              → Holds OwnRanked o
              → Outcome (elim o [
                | none ↦ (none, lexical)
                | some vector_ranked ↦ (
                  (found.0 >>= λ bm25_ranked. some (record {
                    hits =
                        query_hits floats faiss words settings fuse_limit vector_ranked bm25_ranked;
                    vector_ranked = vector_ranked;
                    bm25_ranked = bm25_ranked;
                  })),
                  found.1,
                )
              ])
          go none x = absurd x
          go (some v) x =
              let r = lexical_ranked-IsOwn query fetch_k lexical h in
              (
                Holds-bind OwnRanked OwnFound found.0 _ r.0 (λ b y. (
                  query_hits-IsOwn floats faiss words settings indexes tenant_id course_code
                      fuse_limit v b x y,
                  x,
                  y,
                )),
                r.1,
              )

      -- what a loop over queries has gathered
      abbrev OwnGathered : Gathered floats faiss words settings → Type 0
      OwnGathered g = All (All Own) g.ranked_lists × OwnRanked g.last_vector × OwnRanked g.last_bm25

      abbrev GatheredOutcome :
          Option (Gathered floats faiss words settings) × Lexical floats faiss words → Type 0
      GatheredOutcome r = Holds OwnGathered r.0 × KeptIndexes r.1

      gather-IsOwn :
          (f : Found floats faiss words settings) (g : Gathered floats faiss words settings)
          → OwnFound f
          → OwnGathered g
          → OwnGathered (gather floats faiss words settings f g)
      gather-IsOwn f g (hits, v, b) (lists, x, y) = (
        All-append (All Own) g.ranked_lists _ lists
            (All-map Own (λ (z : SearchHit floats). z.document) f.hits hits, tt),
        v,
        b,
      )

      gather_queries-IsOwn :
          (queries : List Text) (fetch_k fuse_limit : ℕ) (lexical : Lexical floats faiss words)
          (g : Gathered floats faiss words settings)
          → KeptIndexes lexical
          → OwnGathered g
          → GatheredOutcome (
              gather_queries floats faiss words settings indexes queries tenant_id fetch_k
                fuse_limit course_code lexical g)
      unfolding gather_queries
      gather_queries-IsOwn [] fetch_k fuse_limit lexical g h o = (o, h)
      gather_queries-IsOwn (query ∷ queries) fetch_k fuse_limit lexical g h o =
          go
            (λ f x.
              gather_queries-IsOwn queries fetch_k fuse_limit found.1
                (gather floats faiss words settings f g) one.1 (gather-IsOwn f g x o))
            found.0 one.0
        where
          found : Option (Found floats faiss words settings) × Lexical floats faiss words
          found =
              single_query_hits floats faiss words settings indexes query tenant_id fetch_k
                fuse_limit course_code lexical

          one : Outcome found
          one = single-IsOwn query fetch_k fuse_limit lexical h

          more :
              Found floats faiss words settings
              → Option (Gathered floats faiss words settings) × Lexical floats faiss words
          more f =
              gather_queries floats faiss words settings indexes queries tenant_id fetch_k
                fuse_limit course_code found.1 (gather floats faiss words settings f g)

          go :
              ((f : Found floats faiss words settings) → OwnFound f → GatheredOutcome (more f))
              → (o : Option (Found floats faiss words settings)) → Holds OwnFound o
              → GatheredOutcome (elim o [ none ↦ (none, found.1) | some f ↦ more f ])
          go next none x = absurd x
          go next (some f) x = next f x

      multi-IsOwn :
          (queries : List Text) (fetch_k fuse_limit : ℕ) (lexical : Lexical floats faiss words)
          → KeptIndexes lexical
          → Outcome (
              multi_query_hits floats faiss words settings indexes queries tenant_id fetch_k
                fuse_limit course_code lexical)
      unfolding multi_query_hits
      multi-IsOwn queries fetch_k fuse_limit lexical h =
          let r =
            gather_queries-IsOwn queries fetch_k fuse_limit lexical
              (nothing_gathered floats faiss words settings) h (tt, tt, tt) in
          (
            Holds-bind OwnGathered OwnFound _ _ r.0 (λ g o. (
              hits_from_ranked_lists-IsOwn floats faiss words settings indexes tenant_id course_code
                  g.ranked_lists g.vector_maps g.bm25_maps settings.rag_rrf_k fuse_limit o.0,
              o.1,
              o.2,
            )),
            r.1,
          )

      found_by-IsOwn :
          (query : Text) (queries : List Text) (fetch_k fuse_limit : ℕ)
          (lexical : Lexical floats faiss words)
          → KeptIndexes lexical
          → Outcome (
              found_by floats faiss words settings indexes query queries tenant_id fetch_k
                fuse_limit course_code lexical)
      found_by-IsOwn query [] fetch_k fuse_limit lexical h =
          single-IsOwn query fetch_k fuse_limit lexical h
      found_by-IsOwn query (q ∷ []) fetch_k fuse_limit lexical h =
          single-IsOwn query fetch_k fuse_limit lexical h
      found_by-IsOwn query (q ∷ (r ∷ queries)) fetch_k fuse_limit lexical h =
          multi-IsOwn (q ∷ (r ∷ queries)) fetch_k fuse_limit lexical h

      -- If the code of a course can be read off every stored document, the cross-encoder gives a score
      -- per text or fails, and the kept lexical indexes are those of the stores, then a search returns:
      -- at most `k` hits, each a retrieval chunk that is stored under the tenant, or under the
      -- platform if no course is asked for, not deleted and of the course. The lexical indexes that it
      -- leaves are those of the stores again.
      pub search_tenant_documents-IsOwn :
          (predict : List Text → Option (List Score))
          → IsScoring floats faiss words settings predict
          → (query : Text) (k : ℕ) (retrieval_queries : List Text)
            (lexical : Lexical floats faiss words)
          → KeptIndexes lexical
          → Holds
              (λ (result : TenantSearchResult floats faiss words settings).
                OwnHits result.hits × (length result.hits ≤ k))
              (search_tenant_documents floats faiss words settings predict indexes query tenant_id k
                course_code retrieval_queries lexical).0
            × KeptIndexes
                (search_tenant_documents floats faiss words settings predict indexes query tenant_id
                  k course_code retrieval_queries lexical).1
      unfolding search_tenant_documents
      search_tenant_documents-IsOwn predict even query k retrieval_queries lexical h =
          let r =
            found_by-IsOwn query
              (active_queries floats faiss words settings query retrieval_queries) _ _ lexical h in
          (
            Holds-bind OwnFound
                (λ (result : TenantSearchResult floats faiss words settings).
                  OwnHits result.hits × (length result.hits ≤ k))
                _ _ r.0
                (λ found f.
                  result_of-IsOwn floats faiss words settings indexes tenant_id course_code predict
                    even query k _ found f),
            r.1,
          )
