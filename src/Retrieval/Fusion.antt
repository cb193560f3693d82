-- ===== src/Retrieval/Fusion.antt =====
-- Ranked lists merged by reciprocal rank, `reciprocal_rank_fusion` of app/rag/lexical.py. Floats are
-- a parameter, with a strict order of which the two laws hold that sorting needs (no NaN).
pub mod Ranks
use customer_service.Prelude.{
  ℕ, suc, ◌+◌, ◌≡◌, Bool, true, false, Option, none, some, List, [], ◌∷◌, take, if◌then◌else◌,
}
use customer_service.Prelude.Dict.{Dict, get, put}
use customer_service.Prelude.Sort.{sort}
use customer_service.Retrieval.{Document, Key, Key-discrete, document_key}

pub record Scores : Type 1 where
  pub Score : Type 0
  pub zero : Score
  pub one : Score
  pub plus : Score → Score → Score
  pub minus : Score → Score → Score
  pub half : Score → Score
  pub reciprocal : ℕ → Score
  pub less : Score → Score → Bool
  pub less-asym : (a b : Score) → less a b ≡ true → less b a ≡ false
  pub less_trans : (a b c : Score) → less b a ≡ false → less c b ≡ false → less c a ≡ false

module _ (floats : Scores) where
  open floats use {Score, plus, reciprocal, less, zero as no_score}

  -- `scores` and `docs`
  pub record Fused : Type 0 where
    pub scores : Dict Key Score
    pub docs : Dict Key Document

  -- `d.get(key, 0.0)`
  abbrev pub or_zero : Option Score → Score
  or_zero none = no_score
  or_zero (some score) = score

  -- the loop over one ranking, from a rank on
  unfoldable pub fuse_ranking : ℕ → ℕ → List Document → Fused → Fused
  fuse_ranking rrf_k rank [] state = state
  fuse_ranking rrf_k rank (d ∷ ranking) state = fuse_ranking rrf_k (suc rank) ranking (record {
    scores =
        put Key-discrete (document_key d)
          (plus (or_zero (get Key-discrete (document_key d) state.scores))
            (reciprocal (rrf_k + rank)))
          state.scores;
    docs = put Key-discrete (document_key d) d state.docs;
  })

  unfoldable pub fuse_rankings : ℕ → List (List Document) → Fused → Fused
  unfolding fuse_ranking
  fuse_rankings rrf_k [] state = state
  fuse_rankings rrf_k (ranking ∷ rankings) state =
      fuse_rankings rrf_k rankings (fuse_ranking rrf_k 1 ranking state)

  -- `[(docs[key], score) for key, score in …]`; every key of the scores is one of the documents
  abbrev pub with_document :
      Option Document → Score → List (Document × Score) → List (Document × Score)
  with_document none score rest = rest
  with_document (some d) score rest = (d, score) ∷ rest

  unfoldable pub with_documents : Dict Key Document → List (Key × Score) → List (Document × Score)
  with_documents docs [] = []
  with_documents docs ((key, score) ∷ ordered) =
      with_document (get Key-discrete key docs) score (with_documents docs ordered)

  -- `sorted(…, key=…, reverse=True)`, which keeps the order of equal entries
  unfoldable pub descending : {A : Type 0} → (A → Score) → List A → List A
  descending score entries = sort (λ a b. less (score b) (score a)) entries

  abbrev pub nothing_fused : Fused
  nothing_fused = record { scores = []; docs = [] }

  -- `reciprocal_rank_fusion`
  unfoldable pub reciprocal_rank_fusion : List (List Document) → ℕ → ℕ → List (Document × Score)
  unfolding fuse_rankings with_documents descending
  reciprocal_rank_fusion ranked_lists rrf_k limit =
      let fused = fuse_rankings rrf_k ranked_lists nothing_fused in
      with_documents fused.docs (take limit (descending (λ item. item.1) fused.scores))
