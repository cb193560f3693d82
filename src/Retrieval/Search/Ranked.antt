-- ===== src/Retrieval/Search/Ranked.antt =====
-- The steps of a search of app/rag/vectorstore.py behind the two ranked lists lose nothing of what
-- holds of these: every hit stays one that the tenant may see.
use customer_service.Prelude.{
  ℕ, suc, ◌≤◌, ◌≡◌, refl, ap, ◌∙◌, min, Bool-cases, false, ◌&&◌, Option, none, some, inl, inr,
  arith, List, [], ◌∷◌, map, All, take, length, length-take, ◌==◌,
}
use customer_service.Prelude.Text.{Text, has_text}
use customer_service.Prelude.Dict.{Dict}
use customer_service.Prelude.Sort.{All-sort}
use customer_service.Retrieval.{Document, Key}
use customer_service.Retrieval.Fusion.{Scores, descending}
use customer_service.Retrieval.Fusion.Ranks.{fusion-All}
use customer_service.Retrieval.Search.{Faiss, Words, Lexical}
use customer_service.Retrieval.Search.Hits.{
  SearchHit, Ranked, hit_of, only_documents, fuse_hits, hits_from_ranked_lists, vector_hit,
  rescored, degraded, rerank_hits,
}
use customer_service.Retrieval.Search.Tenant.{
  Settings, Found, query_hits, TenantSearchResult, not_empty, reranked, with_fallback, result_of,
}
use customer_service.Retrieval.Search.Own.{
  Holds, Holds-bind, Holds-if, All-take, All-map, IsOwn, IsKept,
}

module _ (floats : Scores) (faiss : Faiss floats) (words : Words floats) (settings : Settings) where
  open floats use {Score, less}
  open faiss use {Store}

  -- the cross-encoder scores every text that it is given
  abbrev pub IsScoring : (List Text → Option (List Score)) → Type 0
  IsScoring predict =
      (texts : List Text) (scores : List Score)
      → predict texts ≡ some scores
      → length scores ≡ length texts

  module _ (indexes : Dict Text Store) (tenant_id course_code : Text) where
    abbrev Own : Document → Type 0
    Own d = IsOwn floats faiss words indexes tenant_id course_code d

    abbrev OwnRanked : Ranked floats → Type 0
    OwnRanked ranked = All (λ (e : Document × Score). Own e.0) ranked

    abbrev pub OwnHits : List (SearchHit floats) → Type 0
    OwnHits hits = All (λ (h : SearchHit floats). Own h.document) hits

    abbrev KeptIndexes : Lexical floats faiss words → Type 0
    KeptIndexes lexical = IsKept floats faiss words indexes tenant_id course_code lexical

    hit_of-IsOwn :
        (vector_map bm25_map : Dict Key Score) (ranked : Ranked floats)
        → OwnRanked ranked
        → OwnHits (map (hit_of floats vector_map bm25_map) ranked)
    hit_of-IsOwn vector_map bm25_map ranked h =
        All-map (λ (x : SearchHit floats). Own x.document) (hit_of floats vector_map bm25_map)
          ranked h

    fuse_hits-IsOwn :
        (vector_ranked bm25_ranked : Ranked floats) (rrf_k limit : ℕ)
        → OwnRanked vector_ranked
        → OwnRanked bm25_ranked
        → OwnHits (fuse_hits floats vector_ranked bm25_ranked rrf_k limit)
    unfolding fuse_hits
    fuse_hits-IsOwn vector_ranked bm25_ranked rrf_k limit v b = hit_of-IsOwn _ _ _ (
        fusion-All floats rrf_k Own
          (only_documents floats vector_ranked ∷ only_documents floats bm25_ranked ∷ []) limit
          (All-map Own (λ e. e.0) vector_ranked v, (All-map Own (λ e. e.0) bm25_ranked b, tt)))

    pub hits_from_ranked_lists-IsOwn :
        (lists : List (List Document)) (vector_maps bm25_maps : List (Dict Key Score))
        (rrf_k limit : ℕ)
        → All (All Own) lists
        → OwnHits (hits_from_ranked_lists floats lists vector_maps bm25_maps rrf_k limit)
    unfolding hits_from_ranked_lists
    hits_from_ranked_lists-IsOwn lists vector_maps bm25_maps rrf_k limit h =
        hit_of-IsOwn _ _ _ (fusion-All floats rrf_k Own lists limit h)

    pub query_hits-IsOwn :
        (limit : ℕ) (vector_ranked bm25_ranked : Ranked floats)
        → OwnRanked vector_ranked
        → OwnRanked bm25_ranked
        → OwnHits (query_hits floats faiss words settings limit vector_ranked bm25_ranked)
    query_hits-IsOwn limit vector_ranked bm25_ranked v b =
        elim (Bool-cases settings.rag_hybrid_enabled) [
          | inl e ↦ rw e (fuse_hits-IsOwn vector_ranked bm25_ranked settings.rag_rrf_k limit v b)
          | inr e ↦ rw e (
              All-map (λ (x : SearchHit floats). Own x.document) (vector_hit floats false)
                (take limit vector_ranked)
                (All-take (λ (x : Document × Score). Own x.0) limit vector_ranked v))
        ]

    -- what the search for one query finds
    abbrev OwnFound : Found floats faiss words settings → Type 0
    OwnFound found =
        OwnHits found.hits × OwnRanked found.vector_ranked × OwnRanked found.bm25_ranked

    abbrev Outcome :
        Option (Found floats faiss words settings) × Lexical floats faiss words → Type 0
    Outcome r = Holds OwnFound r.0 × KeptIndexes r.1

    rescored-IsOwn :
        (hits : List (SearchHit floats)) (scores : List Score)
        → length scores ≡ length hits
        → OwnHits hits
        → Holds OwnHits (rescored floats hits scores)
    unfolding rescored
    rescored-IsOwn [] [] l h = tt
    rescored-IsOwn [] (s ∷ scores) l h = absurd (ground (arith, l))
    rescored-IsOwn (x ∷ hits) [] l h = absurd (ground (arith, l))
    rescored-IsOwn (x ∷ hits) (s ∷ scores) l h =
        Holds-bind OwnHits OwnHits (rescored floats hits scores) _
          (rescored-IsOwn hits scores (omega (arith, l)) h.1) (λ rest r. (h.0, r))

    module _ (predict : List Text → Option (List Score)) (even : IsScoring predict) where
      length-map : {A B : Type 0} (f : A → B) (xs : List A) → length (map f xs) ≡ length xs
      length-map f [] = refl
      length-map f (x ∷ xs) = ap suc (length-map f xs)

      rerank_hits-IsOwn :
          (hits : List (SearchHit floats)) (top_k : ℕ)
          → OwnHits hits
          → Holds OwnHits (rerank_hits floats predict hits top_k)
      unfolding rerank_hits descending
      rerank_hits-IsOwn [] top_k h = tt
      rerank_hits-IsOwn (x ∷ []) top_k h = elim (Bool-cases (top_k == 0)) [
        | inl e ↦ rw e tt
        | inr e ↦ rw e h
      ]
      rerank_hits-IsOwn (x ∷ (y ∷ hits)) top_k h = elim (Bool-cases (top_k == 0)) [
        | inl e ↦ rw e tt
        | inr e ↦ rw e (
            go (predict (map (λ (z : SearchHit floats). z.document.page_content) (x ∷ (y ∷ hits))))
              (even _))
      ]
        where
          go :
              (o : Option (List Score))
              → ((scores : List Score)
                  → o ≡ some scores
                  → length scores
                    ≡ length
                        (map (λ (z : SearchHit floats). z.document.page_content) (x ∷ (y ∷ hits))))
              → Holds OwnHits (degraded floats (x ∷ (y ∷ hits)) top_k o)
          go none l = All-take (λ (z : SearchHit floats). Own z.document) top_k (x ∷ (y ∷ hits)) h
          go (some scores) l =
              Holds-bind OwnHits OwnHits (rescored floats (x ∷ (y ∷ hits)) scores) _
                (rescored-IsOwn (x ∷ (y ∷ hits)) scores
                  (l scores refl
                    ∙ length-map (λ (z : SearchHit floats). z.document.page_content)
                        (x ∷ (y ∷ hits)))
                  h)
                (λ ranked r.
                  All-take (λ (z : SearchHit floats). Own z.document) top_k _
                    (All-sort (λ (a b : SearchHit floats). less b.score a.score)
                      (λ (z : SearchHit floats). Own z.document) ranked r))

      reranked-IsOwn :
          (hits : List (SearchHit floats)) (k : ℕ)
          → OwnHits hits
          → Holds OwnHits (reranked floats faiss words settings predict hits k)
      reranked-IsOwn hits k h =
          Holds-if OwnHits
            (settings.rag_rerank_enabled && not_empty floats faiss words settings hits) _
            (some (take k hits)) (rerank_hits-IsOwn hits (min settings.rag_rerank_top_k k) h)
            (All-take (λ (z : SearchHit floats). Own z.document) k hits h)

      with_fallback-IsOwn :
          (found : Found floats faiss words settings) (k : ℕ) (hits : List (SearchHit floats))
          → OwnFound found
          → OwnHits hits
          → OwnHits (with_fallback floats faiss words settings course_code found k hits).0
      with_fallback-IsOwn found k [] (f, v, b) h = elim (Bool-cases (has_text course_code)) [
        | inl e ↦ rw e (
            All-map (λ (z : SearchHit floats). Own z.document) _ _
              (query_hits-IsOwn k found.vector_ranked found.bm25_ranked v b))
        | inr e ↦ rw e tt
      ]
      with_fallback-IsOwn found k (x ∷ hits) f h = h

      -- the hits of a result: of the tenant, and at most so many
      abbrev pub OwnResult : ℕ → TenantSearchResult floats faiss words settings → Type 0
      OwnResult k result = OwnHits result.hits × (length result.hits ≤ k)

      pub result_of-IsOwn :
          (query : Text) (k : ℕ) (queries : List Text) (found : Found floats faiss words settings)
          → OwnFound found
          → Holds
              (OwnResult k)
              (result_of floats faiss words settings predict query k course_code queries found)
      result_of-IsOwn query k queries found f =
          Holds-bind OwnHits (OwnResult k) _ _ (reranked-IsOwn found.hits k f.0) (λ hits h. (
            All-take (λ (z : SearchHit floats). Own z.document) k _
                (with_fallback-IsOwn found k hits f h),
            omega (
              arith,
              length-take k (with_fallback floats faiss words settings course_code found k hits).0,
            ),
          ))
