-- ===== src/Retrieval/Fusion/Ranks.antt =====
-- The scores that a fusion of app/rag/lexical.py gives, and the documents that it returns.
use customer_service.Prelude.{
  ℕ, zero, suc, ◌+◌, ◌≤◌, ◌≡◌, refl, sym, ap, ◌∙◌, Option, none, some, arith, List, [], ◌∷◌, ◌++◌,
  All, All-In, All-weaken, take, length, ite, if_pos, if_neg,
}
use mathlib.Core.Option.{some-injective, none-ne-some}
use customer_service.Prelude.Dict.{
  Dict, get, values, get-put, In-get, All-put, Distinct, put-Distinct,
}
use customer_service.Prelude.Sort.{All-sort}
use customer_service.Retrieval.{Document, Key, Key-discrete, document_key}
use customer_service.Retrieval.Fusion.{
  Scores, Fused, or_zero, fuse_ranking, fuse_rankings, with_document, with_documents, descending,
  nothing_fused, reciprocal_rank_fusion,
}

-- the ranks at which a document stands in a list, and in several
ranks_in : Key → ℕ → List Document → List ℕ
ranks_in key rank [] = []
ranks_in key rank (d ∷ ranking) =
    ite (Key-discrete (document_key d) key) (rank ∷ ranks_in key (suc rank) ranking)
      (ranks_in key (suc rank) ranking)

pub ranks_of : Key → List (List Document) → List ℕ
unfolding ranks_in
ranks_of key [] = []
ranks_of key (ranking ∷ rankings) = ranks_in key 1 ranking ++ ranks_of key rankings

module _ (floats : Scores) (rrf_k : ℕ) where
  open floats use {Score, plus, reciprocal}

  -- one reciprocal after the other; a document that stands nowhere has no score
  pub score_of : Option Score → List ℕ → Option Score
  score_of o [] = o
  score_of o (rank ∷ ranks) =
      score_of (some (plus (or_zero floats o) (reciprocal (rrf_k + rank)))) ranks

  score_of-append :
      (o : Option Score) (xs ys : List ℕ) → score_of o (xs ++ ys) ≡ score_of (score_of o xs) ys
  unfolding score_of
  score_of-append o [] ys = refl
  score_of-append o (x ∷ xs) ys =
      score_of-append (some (plus (or_zero floats o) (reciprocal (rrf_k + x)))) xs ys

  get-fuse_ranking :
      (key : Key) (rank : ℕ) (ranking : List Document) (state : Fused floats)
      → get Key-discrete key (fuse_ranking floats rrf_k rank ranking state).scores
        ≡ score_of (get Key-discrete key state.scores) (ranks_in key rank ranking)
  unfolding fuse_ranking ranks_in score_of
  get-fuse_ranking key rank [] state = refl
  get-fuse_ranking key rank (d ∷ ranking) state =
      get-fuse_ranking key (suc rank) ranking _ ∙ elim (Key-discrete (document_key d) key) [
        | yes p ↦
            ap (λ o. score_of o (ranks_in key (suc rank) ranking))
              (get-put Key-discrete (document_key d) key _ state.scores
                ∙ if_pos (Key-discrete (document_key d) key) p _ _)
            ∙ ap
                (λ k.
                  score_of
                    (some (
                      plus (or_zero floats (get Key-discrete k state.scores))
                        (reciprocal (rrf_k + rank))))
                    (ranks_in key (suc rank) ranking))
                p
            ∙ ap (score_of (get Key-discrete key state.scores))
                (sym (if_pos (Key-discrete (document_key d) key) p _ _))
        | no p ↦
            ap (λ o. score_of o (ranks_in key (suc rank) ranking))
              (get-put Key-discrete (document_key d) key _ state.scores
                ∙ if_neg (Key-discrete (document_key d) key) p _ _)
            ∙ ap (score_of (get Key-discrete key state.scores))
                (sym (if_neg (Key-discrete (document_key d) key) p _ _))
      ]

  get-fuse_rankings :
      (key : Key) (rankings : List (List Document)) (state : Fused floats)
      → get Key-discrete key (fuse_rankings floats rrf_k rankings state).scores
        ≡ score_of (get Key-discrete key state.scores) (ranks_of key rankings)
  unfolding fuse_rankings ranks_of score_of
  get-fuse_rankings key [] state = refl
  get-fuse_rankings key (ranking ∷ rankings) state =
      get-fuse_rankings key rankings _
      ∙ ap (λ o. score_of o (ranks_of key rankings)) (get-fuse_ranking key 1 ranking state)
      ∙ sym (
          score_of-append (get Key-discrete key state.scores) (ranks_in key 1 ranking)
            (ranks_of key rankings))

  -- what holds of every ranked document holds of every one that is kept
  module _ (P : Document → Type 0) where
    fuse_ranking-All :
        (rank : ℕ) (ranking : List Document) (state : Fused floats)
        → All P ranking
        → All P (values state.docs)
        → All P (values (fuse_ranking floats rrf_k rank ranking state).docs)
    unfolding fuse_ranking
    fuse_ranking-All rank [] state h k = k
    fuse_ranking-All rank (d ∷ ranking) state h k =
        fuse_ranking-All (suc rank) ranking _ h.1
          (All-put Key-discrete P (document_key d) d state.docs h.0 k)

    fuse_rankings-All :
        (rankings : List (List Document)) (state : Fused floats)
        → All (All P) rankings
        → All P (values state.docs)
        → All P (values (fuse_rankings floats rrf_k rankings state).docs)
    unfolding fuse_rankings
    fuse_rankings-All [] state h k = k
    fuse_rankings-All (ranking ∷ rankings) state h k =
        fuse_rankings-All rankings _ h.1 (fuse_ranking-All 1 ranking state h.0 k)

    with_documents-All :
        (docs : Dict Key Document) (ordered : List (Key × Score))
        → All P (values docs)
        → All (λ e. P e.0) (with_documents floats docs ordered)
    unfolding with_documents
    with_documents-All docs [] h = tt
    with_documents-All docs ((key, score) ∷ ordered) h =
        kept (with_documents-All docs ordered h) (get Key-discrete key docs) refl
      where
        kept :
            All (λ e. P e.0) (with_documents floats docs ordered)
            → (o : Option Document) → get Key-discrete key docs ≡ o
            → All (λ e. P e.0) (with_document floats o score (with_documents floats docs ordered))
        kept rest none e = rest
        kept rest (some d) e = (All-In P d (values docs) h (In-get Key-discrete key docs d e), rest)

    pub fusion-All :
        (rankings : List (List Document)) (limit : ℕ)
        → All (All P) rankings
        → All (λ e. P e.0) (reciprocal_rank_fusion floats rankings rrf_k limit)
    unfolding reciprocal_rank_fusion
    fusion-All rankings limit h =
        with_documents-All _ _ (fuse_rankings-All rankings (nothing_fused floats) h tt)

  -- the two dictionaries of a fusion: each document under its own key, no key twice
  record IsFused (state : Fused floats) : Type 0 where
    keyed : (k : Key) (d : Document) → get Key-discrete k state.docs ≡ some d → document_key d ≡ k
    distinct : Distinct Key-discrete state.scores

  fuse_ranking-IsFused :
      (rank : ℕ) (ranking : List Document) (state : Fused floats)
      → IsFused state
      → IsFused (fuse_ranking floats rrf_k rank ranking state)
  unfolding fuse_ranking
  fuse_ranking-IsFused rank [] state inv = inv
  fuse_ranking-IsFused rank (d ∷ ranking) state inv =
      fuse_ranking-IsFused (suc rank) ranking _ (record {
        keyed = λ k e found. (elim (Key-discrete (document_key d) k) [
          | yes p ↦
              ap document_key (
                sym (
                  some-injective _ _ (
                    sym (
                      get-put Key-discrete (document_key d) k d state.docs
                      ∙ if_pos (Key-discrete (document_key d) k) p _ _)
                    ∙ found)))
              ∙ p
          | no p ↦ inv.keyed k e (
              sym (
                get-put Key-discrete (document_key d) k d state.docs
                ∙ if_neg (Key-discrete (document_key d) k) p _ _)
              ∙ found)
        ]);
        distinct = put-Distinct Key-discrete (document_key d) _ state.scores inv.distinct;
      })

  fuse_rankings-IsFused :
      (rankings : List (List Document)) (state : Fused floats)
      → IsFused state
      → IsFused (fuse_rankings floats rrf_k rankings state)
  unfolding fuse_rankings
  fuse_rankings-IsFused [] state inv = inv
  fuse_rankings-IsFused (ranking ∷ rankings) state inv =
      fuse_rankings-IsFused rankings _ (fuse_ranking-IsFused 1 ranking state inv)

  -- the entries of a dictionary are what is found in it
  entries_found :
      (d : Dict Key Score)
      → Distinct Key-discrete d
      → All (λ e. get Key-discrete e.0 d ≡ some e.1) d
  unfolding get
  entries_found [] v = tt
  entries_found ((k, s) ∷ d) v = (
    if_pos (Key-discrete k k) refl _ _,
    All-weaken _ _ d
        (λ e found.
          if_neg (Key-discrete k e.0)
            (λ p. none-ne-some _ (sym v.0 ∙ ap (λ x. get Key-discrete x d) p ∙ found)) _ _
          ∙ found)
        (entries_found d v.1),
  )

  All-take : {A : Type 0} (P : A → Type 0) (n : ℕ) (xs : List A) → All P xs → All P (take n xs)
  All-take P zero xs h = tt
  All-take P (suc n) [] h = tt
  All-take P (suc n) (x ∷ xs) h = (h.0, All-take P n xs h.1)

  nothing_IsFused : IsFused (nothing_fused floats)
  unfolding get
  nothing_IsFused = record { keyed = λ k d e. absurd (none-ne-some _ e); distinct = tt }

  module _ (rankings : List (List Document)) where
    abbrev fused : Fused floats
    fused = fuse_rankings floats rrf_k rankings (nothing_fused floats)

    -- the score that a document should have
    abbrev pub HasScore : Document × Score → Type 0
    HasScore (d, s) = score_of none (ranks_of (document_key d) rankings) ≡ some s

    scored :
        (ordered : List (Key × Score))
        → All (λ e. get Key-discrete e.0 fused.scores ≡ some e.1) ordered
        → All HasScore (with_documents floats fused.docs ordered)
    unfolding with_documents
    scored [] h = tt
    scored ((key, score) ∷ ordered) h =
        one (scored ordered h.1) (get Key-discrete key fused.docs) refl
      where
        one :
            All HasScore (with_documents floats fused.docs ordered)
            → (o : Option Document) → get Key-discrete key fused.docs ≡ o
            → All HasScore (with_document floats o score (with_documents floats fused.docs ordered))
        one rest none e = rest
        one rest (some d) e = (
          ap (λ k. score_of none (ranks_of k rankings))
                ((fuse_rankings-IsFused rankings (nothing_fused floats) nothing_IsFused).keyed key d
                  e)
              ∙ sym (
                  get-fuse_rankings key rankings (nothing_fused floats)
                  ∙ ap (λ o. score_of o (ranks_of key rankings)) (unfold get in refl))
              ∙ h.0,
          rest,
        )

    length-with_document :
        (o : Option Document) (s : Score) (rest : List (Document × Score))
        → length (with_document floats o s rest) ≤ suc (length rest)
    length-with_document none s rest = omega arith
    length-with_document (some d) s rest = omega arith

    at_most :
        (n : ℕ) (ordered : List (Key × Score))
        → length (with_documents floats fused.docs (take n ordered)) ≤ n
    unfolding with_documents
    at_most zero ordered = omega arith
    at_most (suc n) [] = omega arith
    at_most (suc n) ((key, score) ∷ ordered) = omega (
      arith,
      at_most n ordered,
      length-with_document (get Key-discrete key fused.docs) score
          (with_documents floats fused.docs (take n ordered)),
    )

    -- A document in the fusion has the sum of 1/(k + rank) over all its ranks in all the lists, and
    -- the fusion returns at most as many documents as the limit.
    pub fusion-HasScore :
        (limit : ℕ)
        → All HasScore (reciprocal_rank_fusion floats rankings rrf_k limit)
          × (length (reciprocal_rank_fusion floats rankings rrf_k limit) ≤ limit)
    unfolding reciprocal_rank_fusion descending
    fusion-HasScore limit = (
      scored _ (
          All-take _ limit _ (
            All-sort (λ a b. floats.less b.1 a.1) _ fused.scores
              (entries_found fused.scores
                (fuse_rankings-IsFused rankings (nothing_fused floats) nothing_IsFused).distinct))),
      at_most limit _,
    )
