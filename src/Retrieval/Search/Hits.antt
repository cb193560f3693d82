-- ===== src/Retrieval/Search/Hits.antt =====
-- From ranked lists to the hits of a search, app/rag/vectorstore.py and app/rag/reranker.py. The
-- cross-encoder is a parameter: the scores it gives, or none when it fails or comes too late.
use customer_service.Prelude.{
  ℕ, Bool, true, false, Option, none, some, List, [], ◌∷◌, map, take, if◌then◌else◌, ◌==◌,
}
use customer_service.Prelude.Text.{Text}
use customer_service.Prelude.Dict.{Dict, get, put}
use customer_service.Retrieval.{Document, Key, Key-discrete, document_key}
use customer_service.Retrieval.Fusion.{Scores, or_zero, descending, reciprocal_rank_fusion}
use customer_service.Retrieval.Search.{◌>>=◌}

module _ (floats : Scores) where
  open floats use {Score, less, zero as no_score}

  pub record SearchHit : Type 0 where
    pub document : Document
    pub score : Score
    pub vector_sim : Score
    pub bm25_score : Score
    pub low_confidence : Bool

  -- `passes_min_score`
  unfoldable pub passes_min_score : SearchHit → Score → Bool
  passes_min_score hit min_score =
      if less no_score min_score
      then (if less hit.vector_sim min_score then less no_score hit.bm25_score else true)
      else true

  abbrev pub Ranked : Type 0
  Ranked = List (Document × Score)

  -- `{document_key(document): score for …}`
  unfoldable pub score_map : Ranked → Dict Key Score → Dict Key Score
  score_map [] scores = scores
  score_map ((d, score) ∷ ranked) scores =
      score_map ranked (put Key-discrete (document_key d) score scores)

  abbrev pub hit_of : Dict Key Score → Dict Key Score → Document × Score → SearchHit
  hit_of vector_map bm25_map (d, rrf) = record {
    document = d;
    score = rrf;
    vector_sim = or_zero floats (get Key-discrete (document_key d) vector_map);
    bm25_score = or_zero floats (get Key-discrete (document_key d) bm25_map);
    low_confidence = false;
  }

  abbrev pub only_documents : Ranked → List Document
  only_documents ranked = map (λ e. e.0) ranked

  -- `_fuse_hits`
  unfoldable pub fuse_hits : Ranked → Ranked → ℕ → ℕ → List SearchHit
  unfolding score_map
  fuse_hits vector_ranked bm25_ranked rrf_k limit =
      map (hit_of (score_map vector_ranked []) (score_map bm25_ranked [])) (
        reciprocal_rank_fusion floats
          (only_documents vector_ranked ∷ only_documents bm25_ranked ∷ []) rrf_k limit)

  abbrev largest : Score → Score → Score
  largest a b = if less a b then b else a

  unfoldable pub max_map : Dict Key Score → Dict Key Score → Dict Key Score
  max_map merged [] = merged
  max_map merged ((key, score) ∷ scores) =
      max_map
        (put Key-discrete key (largest (or_zero floats (get Key-discrete key merged)) score) merged)
        scores

  unfoldable pub max_maps : Dict Key Score → List (Dict Key Score) → Dict Key Score
  unfolding max_map
  max_maps merged [] = merged
  max_maps merged (scores ∷ more) = max_maps (max_map merged scores) more

  -- `_hits_from_ranked_lists`
  unfoldable pub hits_from_ranked_lists :
      List (List Document) → List (Dict Key Score) → List (Dict Key Score) → ℕ → ℕ → List SearchHit
  unfolding max_maps
  hits_from_ranked_lists ranked_lists vector_maps bm25_maps rrf_k limit =
      map (hit_of (max_maps [] vector_maps) (max_maps [] bm25_maps))
        (reciprocal_rank_fusion floats ranked_lists rrf_k limit)

  -- the hits of a vector search alone
  abbrev pub vector_hit : Bool → Document × Score → SearchHit
  vector_hit low (d, sim) = record {
    document = d;
    score = sim;
    vector_sim = sim;
    bm25_score = no_score;
    low_confidence = low;
  }

  -- `zip(hits, scores, strict=True)`
  unfoldable pub rescored : List SearchHit → List Score → Option (List SearchHit)
  rescored [] [] = some []
  rescored [] (s ∷ ss) = none
  rescored (h ∷ hs) [] = none
  rescored (h ∷ hs) (s ∷ ss) = rescored hs ss >>= λ rest. some (record h { score = s } ∷ rest)

  abbrev pub degraded : List SearchHit → ℕ → Option (List Score) → Option (List SearchHit)
  degraded hits top_k none = some (take top_k hits)
  degraded hits top_k (some scores) = rescored hits scores >>= λ ranked.
      some (take top_k (descending floats (λ hit. hit.score) ranked))

  -- `rerank_hits`; the cross-encoder gets the text of every hit
  unfoldable pub rerank_hits :
      (List Text → Option (List Score)) → List SearchHit → ℕ → Option (List SearchHit)
  unfolding rescored
  rerank_hits predict [] top_k = some []
  rerank_hits predict (hit ∷ []) top_k = if top_k == 0 then some [] else some (hit ∷ [])
  rerank_hits predict (hit ∷ (next ∷ hits)) top_k =
      if top_k == 0
      then some []
      else degraded (hit ∷ (next ∷ hits)) top_k
          (predict (map (λ (h : SearchHit). h.document.page_content) (hit ∷ (next ∷ hits))))
