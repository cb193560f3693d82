-- ===== src/Retrieval/Tests/Stores.antt =====
-- Small runs of the searches and the ingest of app/rag/, with stores that are lists.
use customer_service.Prelude.{
  ℕ, suc, ◌+◌, ◌-◌, ◌≡◌, ◌≤◌, refl, sym, ap, ◌∙◌, arith, true, false, Option, none, some, List, [],
  ◌∷◌, ◌++◌, map, length, ltb, In, All, All-of_In, inl, inr,
}
use mathlib.Core.Path.{subst}
use mathlib.Core.Option.{some-injective}
use customer_service.Prelude.Text.{Text, codes, Text-discrete}
use customer_service.Prelude.Int.{pos}
use customer_service.Prelude.Dict.{Dict, In-get}
use customer_service.Retrieval.{Document, matches_course, document_course_code}
use customer_service.Retrieval.Fusion.{Scores, reciprocal_rank_fusion}
use customer_service.Retrieval.Fusion.Ranks
use customer_service.Retrieval.Fusion.Ranks.{HasScore}
use customer_service.Retrieval.Search.{Faiss, Words}
use customer_service.Retrieval.Search.Tenant.{Settings, TenantSearchResult, search_tenant_documents}
use customer_service.Retrieval.Search.Own.{Holds, IsCoded, IsKept, All-map}
use customer_service.Retrieval.Search.Safe
use customer_service.Retrieval.Search.Ranked.{IsScoring}
use customer_service.Retrieval.Search.Safe.{OwnHits}
use customer_service.Retrieval.Ingest.{DocumentStores, source_of, hash_of, ingest_tenant}
use customer_service.Retrieval.Ingest.Fresh
use customer_service.Retrieval.Ingest.Fresh.{AllFresh}
use customer_service.Retrieval.Ingest.Whole
use customer_service.Retrieval.Ingest.Whole.{live_documents_of}

abbrev chunk : ℕ → Text → Document
chunk n version = record {
  ident = n;
  page_content = n ∷ [];
  source = some (codes "c.md");
  section = some (codes "s");
  chunk = some (pos n);
  chunk_role = some (codes "child");
  parent_id = none;
  course_code = some (codes "c");
  course_file = none;
  content_hash = some version;
  deleted = false;
}

abbrev whole_numbers : Scores
whole_numbers = record {
  Score = ℕ;
  zero = 0;
  one = 100;
  plus = λ a b. a + b;
  minus = λ a b. a - b;
  half = λ a. a;
  reciprocal = λ n. 1000 - n;
  less = ltb;
  less-asym = λ a b h. ground (arith, h);
  less_trans = λ a b c h k. ground (arith, h, k);
}

abbrev rankings : List (List Document)
rankings =
    (chunk 1 (codes "a") ∷ chunk 2 (codes "a") ∷ [])
    ∷ (chunk 2 (codes "a") ∷ chunk 3 (codes "a") ∷ [])
    ∷ []

fusion-HasScore_example :
    All (HasScore whole_numbers 60 rankings) (reciprocal_rank_fusion whole_numbers rankings 60 2)
    × (length (reciprocal_rank_fusion whole_numbers rankings 60 2) ≤ 2)
fusion-HasScore_example = Ranks.fusion-HasScore whole_numbers 60 rankings 2

found_all : (ds : List Document) → All (λ (e : Document × ℕ). In e.0 ds) (map (λ d. (d, 1)) ds)
found_all ds =
    All-map (λ (e : Document × ℕ). In e.0 ds) (λ d. (d, 1)) ds
      (All-of_In (λ d. In d ds) ds (λ d i. i))

abbrev lists : Faiss whole_numbers
lists = record {
  Store = List Document;
  ntotal = length;
  documents = λ store. store;
  similarity_search_with_score = λ store query k. map (λ d. (d, 1)) store;
  search_within = λ store query k. found_all store;
}

abbrev one_word : Words whole_numbers
one_word = record {
  lcut = λ text. text ∷ [];
  lower = λ text. text;
  is_word = λ c. true;
  get_scores = λ tokenized query. map (λ tokens. 1) tokenized;
}

abbrev settings : Settings
settings = record {
  limits = record { rag_fetch_k_min = 4; rag_fetch_k_max = 24 };
  rag_hybrid_enabled = true;
  rag_rrf_k = 60;
  rag_rerank_enabled = true;
  rag_rerank_fetch_k = 20;
  rag_rerank_top_k = 5;
  rag_dynamic_k_enabled = true;
}

abbrev indexes : Dict Text (List Document)
indexes = (codes "acme", chunk 1 (codes "a") ∷ chunk 2 (codes "a") ∷ []) ∷ []

indexes-IsCoded : IsCoded whole_numbers lists one_word indexes (codes "acme") (codes "c")
unfolding matches_course document_course_code
indexes-IsCoded scope store e = elim (In-get Text-discrete scope indexes store e) [
  | inl p ↦ subst (All _) (sym p) (refl, (refl, tt))
  | inr i ↦ absurd i
]

abbrev predict : List Text → Option (List ℕ)
predict texts = some (map length texts)

length-map-length : (texts : List Text) → length (map length texts) ≡ length texts
length-map-length [] = refl
length-map-length (t ∷ texts) = ap suc (length-map-length texts)

predict-IsScoring : IsScoring whole_numbers lists one_word settings predict
predict-IsScoring texts scores e = ap length (sym (some-injective _ _ e)) ∙ length-map-length texts

search_tenant_documents-IsOwn_example :
    Holds
      (λ (result : TenantSearchResult whole_numbers lists one_word settings).
        OwnHits whole_numbers lists one_word settings indexes (codes "acme") (codes "c") result.hits
        × (length result.hits ≤ 3))
      (search_tenant_documents whole_numbers lists one_word settings predict indexes
        (codes "what is c")
        (codes "acme")
        3
        (codes "c")
        (codes "one" ∷ codes "two" ∷ [])
        []).0
    × IsKept whole_numbers lists one_word indexes
        (codes "acme")
        (codes "c")
        (search_tenant_documents whole_numbers lists one_word settings predict indexes
          (codes "what is c")
          (codes "acme")
          3
          (codes "c")
          (codes "one" ∷ codes "two" ∷ [])
          []).1
search_tenant_documents-IsOwn_example =
    Safe.search_tenant_documents-IsOwn whole_numbers lists one_word settings indexes (codes "acme")
      (codes "c") indexes-IsCoded predict predict-IsScoring (codes "what is c") 3
      (codes "one" ∷ codes "two" ∷ []) [] tt

abbrev writable : DocumentStores
writable = record {
  Store = List Document;
  documents = λ store. store;
  from_documents = λ ds. ds;
  add_documents = λ store ds. store ++ ds;
  change_documents = map;
  documents-from = λ ds. refl;
  documents-add = λ store ds. refl;
  documents-change = λ f store. refl;
}

ingest_tenant-AllFresh_example :
    AllFresh writable
      (λ source. codes "b")
      (chunk 3 (codes "b") ∷ [])
      (refl, tt)
      (ingest_tenant writable
        (some (chunk 1 (codes "a") ∷ chunk 2 (codes "a") ∷ []))
        (chunk 3 (codes "b") ∷ [])).store
ingest_tenant-AllFresh_example =
    Fresh.ingest_tenant-AllFresh writable (λ source. codes "b") (chunk 3 (codes "b") ∷ [])
      (refl, tt) (λ source. codes "a") (some (chunk 1 (codes "a") ∷ chunk 2 (codes "a") ∷ []))
      ((refl, refl), ((refl, refl), tt))

ingest_tenant_whole_example :
    (e : Document) × In e (
      live_documents_of writable
        (ingest_tenant writable
          (some (chunk 1 (codes "a") ∷ chunk 2 (codes "a") ∷ []))
          (chunk 3 (codes "b") ∷ [])).store)
    × (source_of e ≡ source_of (chunk 3 (codes "b")))
    × (hash_of e ≡ hash_of (chunk 3 (codes "b")))
ingest_tenant_whole_example =
    Whole.ingest_tenant_whole writable (λ source. codes "b") (chunk 3 (codes "b") ∷ []) (refl, tt)
      (some (chunk 1 (codes "a") ∷ chunk 2 (codes "a") ∷ [])) (chunk 3 (codes "b")) (inl refl) refl
      refl
