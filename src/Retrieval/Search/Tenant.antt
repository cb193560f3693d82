-- ===== src/Retrieval/Search/Tenant.antt =====
-- A search in the chunks of a tenant, from the plan to the hits, `search_tenant_documents` of
-- app/rag/vectorstore.py.
use customer_service.Prelude.{
  ℕ, max, min, Bool, true, false, ◌&&◌, Option, none, some, List, [], ◌∷◌, ◌++◌, map, length, take,
  keep_if, if◌then◌else◌,
}
use customer_service.Prelude.Text.{Text, strip, has_text}
use customer_service.Prelude.Dict.{Dict}
use customer_service.Retrieval.{Document, Key}
use customer_service.Retrieval.Fusion.{Scores}
use customer_service.Retrieval.Plan.{RetrievalPlan, Limits, resolve_retrieval_plan}
use customer_service.Retrieval.Search.{
  ◌>>=◌, Faiss, Words, Lexical, default_fetch_k, search_vector, search_bm25,
}
use customer_service.Retrieval.Search.Hits.{
  SearchHit, Ranked, score_map, fuse_hits, vector_hit, hits_from_ranked_lists, rerank_hits,
}

pub record Settings : Type 0 where
  pub limits : Limits
  pub rag_hybrid_enabled : Bool
  pub rag_rrf_k : ℕ
  pub rag_rerank_enabled : Bool
  pub rag_rerank_fetch_k : ℕ
  pub rag_rerank_top_k : ℕ
  pub rag_dynamic_k_enabled : Bool

module _ (floats : Scores) (faiss : Faiss floats) (words : Words floats) (settings : Settings) where
  open floats use {Score}
  open faiss use {Store}

  abbrev Index : Type 0
  Index = Lexical floats faiss words

  -- `_search_bm25` if the search is hybrid
  abbrev pub lexical_ranked :
      Dict Text Store → Text → Text → ℕ → Text → Index → Option (Ranked floats) × Index
  lexical_ranked indexes query tenant_id fetch_k course_code lexical =
      if settings.rag_hybrid_enabled
      then search_bm25 floats faiss words indexes query tenant_id fetch_k course_code lexical
      else (some [], lexical)

  -- what a single query gives: the hits, and both ranked lists
  pub record Found : Type 0 where
    pub hits : List (SearchHit floats)
    pub vector_ranked : Ranked floats
    pub bm25_ranked : Ranked floats

  abbrev pub query_hits : ℕ → Ranked floats → Ranked floats → List (SearchHit floats)
  query_hits limit vector_ranked bm25_ranked =
      if settings.rag_hybrid_enabled
      then fuse_hits floats vector_ranked bm25_ranked settings.rag_rrf_k limit
      else map (vector_hit floats false) (take limit vector_ranked)

  -- `_single_query_hits`
  unfoldable pub single_query_hits :
      Dict Text Store → Text → Text → ℕ → ℕ → Text → Index → Option Found × Index
  single_query_hits indexes query tenant_id fetch_k fuse_limit course_code lexical =
      elim (search_vector floats faiss words indexes query tenant_id fetch_k course_code) [
        | none ↦ (none, lexical)
        | some vector_ranked ↦
            let (found, lexical') =
              lexical_ranked indexes query tenant_id fetch_k course_code lexical in
            (
              (found >>= λ bm25_ranked. some (record {
                hits = query_hits fuse_limit vector_ranked bm25_ranked;
                vector_ranked = vector_ranked;
                bm25_ranked = bm25_ranked;
              })),
              lexical',
            )
      ]

  -- what the loop over several queries gathers
  pub record Gathered : Type 0 where
    pub ranked_lists : List (List Document)
    pub vector_maps : List (Dict Key Score)
    pub bm25_maps : List (Dict Key Score)
    pub last_vector : Ranked floats
    pub last_bm25 : Ranked floats

  abbrev pub gather : Found → Gathered → Gathered
  gather found g = record {
    ranked_lists = g.ranked_lists ++ map (λ (h : SearchHit floats). h.document) found.hits ∷ [];
    vector_maps = g.vector_maps ++ score_map floats found.vector_ranked [] ∷ [];
    bm25_maps = g.bm25_maps ++ score_map floats found.bm25_ranked [] ∷ [];
    last_vector = found.vector_ranked;
    last_bm25 = found.bm25_ranked;
  }

  unfoldable pub gather_queries :
      Dict Text Store → List Text → Text → ℕ → ℕ → Text → Index → Gathered → Option Gathered × Index
  unfolding single_query_hits score_map
  gather_queries indexes [] tenant_id fetch_k fuse_limit course_code lexical g = (some g, lexical)
  gather_queries indexes (query ∷ queries) tenant_id fetch_k fuse_limit course_code lexical g =
      let (found, lexical') =
        single_query_hits indexes query tenant_id fetch_k fuse_limit course_code lexical in
      elim found [
        | none ↦ (none, lexical')
        | some f ↦
            gather_queries indexes queries tenant_id fetch_k fuse_limit course_code lexical'
              (gather f g)
      ]

  abbrev pub nothing_gathered : Gathered
  nothing_gathered = record {
    ranked_lists = [];
    vector_maps = [];
    bm25_maps = [];
    last_vector = [];
    last_bm25 = [];
  }

  -- `_multi_query_hits`
  unfoldable pub multi_query_hits :
      Dict Text Store → List Text → Text → ℕ → ℕ → Text → Index → Option Found × Index
  unfolding gather_queries
  multi_query_hits indexes queries tenant_id fetch_k fuse_limit course_code lexical =
      let (gathered, lexical') =
        gather_queries indexes queries tenant_id fetch_k fuse_limit course_code lexical
          nothing_gathered in
      (
        (gathered >>= λ g. some (record {
          hits =
              hits_from_ranked_lists floats g.ranked_lists g.vector_maps g.bm25_maps
                settings.rag_rrf_k fuse_limit;
          vector_ranked = g.last_vector;
          bm25_ranked = g.last_bm25;
        })),
        lexical',
      )

  abbrev or_query : Text → List Text → List Text
  or_query query [] = query ∷ []
  or_query query (q ∷ qs) = q ∷ qs

  -- the queries that are searched for
  abbrev pub active_queries : Text → List Text → List Text
  active_queries query retrieval_queries =
      or_query query (keep_if has_text (map strip (or_query query retrieval_queries)))

  abbrev pub found_by :
      Dict Text Store → Text → List Text → Text → ℕ → ℕ → Text → Index → Option Found × Index
  found_by indexes query (q ∷ (r ∷ queries)) tenant_id fetch_k fuse_limit course_code lexical =
      multi_query_hits indexes (q ∷ (r ∷ queries)) tenant_id fetch_k fuse_limit course_code lexical
  found_by indexes query queries tenant_id fetch_k fuse_limit course_code lexical =
      single_query_hits indexes query tenant_id fetch_k fuse_limit course_code lexical

  pub record TenantSearchResult : Type 0 where
    pub hits : List (SearchHit floats)
    pub fetch_k : ℕ
    pub query_profile : Text
    pub fused_count : ℕ
    pub rerank_enabled : Bool
    pub rerank_top_k : ℕ
    pub low_confidence_fallback : Bool
    pub retrieval_queries : List Text

  abbrev pub not_empty : {A : Type 0} → List A → Bool
  not_empty [] = false
  not_empty (x ∷ xs) = true

  abbrev pub reranked :
      (List Text → Option (List Score))
      → List (SearchHit floats)
      → ℕ
      → Option (List (SearchHit floats))
  reranked predict hits k =
      if settings.rag_rerank_enabled && not_empty hits
      then rerank_hits floats predict hits (min settings.rag_rerank_top_k k)
      else some (take k hits)

  -- the fallback of a course with no hit, marked as unsure
  abbrev pub relaxed : Found → ℕ → List (SearchHit floats)
  relaxed found k =
      map (λ (h : SearchHit floats). record h { low_confidence = true })
        (query_hits k found.vector_ranked found.bm25_ranked)

  abbrev pub with_fallback :
      Text → Found → ℕ → List (SearchHit floats) → List (SearchHit floats) × Bool
  with_fallback course_code found k [] =
      if has_text course_code then (relaxed found k, not_empty (relaxed found k)) else ([], false)
  with_fallback course_code found k (h ∷ hits) = (h ∷ hits, false)

  abbrev plan_of : Text → ℕ → Text → RetrievalPlan
  plan_of query k course_code = resolve_retrieval_plan query k course_code settings.limits

  abbrev pub fetch_of : Text → ℕ → Text → ℕ
  fetch_of query k course_code =
      if settings.rag_dynamic_k_enabled
      then (plan_of query k course_code).fetch_k
      else default_fetch_k k

  abbrev pub result_of :
      (List Text → Option (List Score))
      → Text
      → ℕ
      → Text
      → List Text
      → Found
      → Option TenantSearchResult
  result_of predict query k course_code queries found = do
    hits ← reranked predict found.hits k
    some (record {
      hits = take k (with_fallback course_code found k hits).0;
      fetch_k = fetch_of query k course_code;
      query_profile = (plan_of query k course_code).profile;
      fused_count = length found.hits;
      rerank_enabled = settings.rag_rerank_enabled && not_empty found.hits;
      rerank_top_k =
          if settings.rag_rerank_enabled && not_empty found.hits
          then min settings.rag_rerank_top_k k
          else 0;
      low_confidence_fallback = (with_fallback course_code found k hits).1;
      retrieval_queries = queries;
    })

  -- `search_tenant_documents`
  unfoldable pub search_tenant_documents :
      (List Text → Option (List Score))
      → Dict Text Store
      → Text
      → Text
      → ℕ
      → Text
      → List Text
      → Index
      → Option TenantSearchResult × Index
  unfolding single_query_hits multi_query_hits rerank_hits
  search_tenant_documents predict indexes query tenant_id k course_code retrieval_queries lexical =
      let fetch_k = fetch_of query k course_code in
      let fuse_limit =
        (if settings.rag_rerank_enabled
          then max fetch_k settings.rag_rerank_fetch_k
          else fetch_k) in
      let (found, lexical') =
        found_by indexes query (active_queries query retrieval_queries) tenant_id fetch_k fuse_limit
          course_code lexical in
      (
        (found >>= result_of predict query k course_code (active_queries query retrieval_queries)),
        lexical',
      )
