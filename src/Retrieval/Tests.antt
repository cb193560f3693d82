-- ===== src/Retrieval/Tests.antt =====
-- Small runs of the retrieval of app/rag/.
pub mod Stores
use customer_service.Prelude.{
  ℕ, suc, ◌≡◌, ◌<◌, ◌≤◌, refl, arith, Bool, true, false, Option, none, some, List, [], ◌∷◌, ◌==◌,
  length, In, All, get_elem?, ◌⊎◌,
}
use customer_service.Prelude.Text.{Text, codes, Text-discrete}
use customer_service.Prelude.Int.{ℤ, pos, negsuc}
use customer_service.Prelude.Sort.{IsSorted}
use customer_service.Retrieval.{Document, document_key}
use customer_service.Retrieval.Expand.{
  expand_hit_documents_scored, context_document, parent_lookup, RagContextItem, precedes,
}
use customer_service.Retrieval.Expand.Best.{key_of}
use customer_service.Retrieval.Expand.Covers
use customer_service.Retrieval.Expand.Covers.{IsOfSome}
use customer_service.Retrieval.Trim.{trim_rag_context_by_budget}
use customer_service.Retrieval.Trim.Bounds
use customer_service.Retrieval.Trim.Bounds.{IsTrimmed}
use customer_service.Retrieval.Trim.Top

-- two children of one section, and their parent
abbrev child : ℕ → Document
child n = record {
  ident = n;
  page_content = n ∷ [];
  source = some (codes "c.md");
  section = some (codes "s");
  chunk = some (pos n);
  chunk_role = some (codes "child");
  parent_id = none;
  course_code = some (codes "c");
  course_file = none;
  content_hash = some (codes "h");
  deleted = false;
}

abbrev corpus : List Document
corpus = child 0 ∷ child 1 ∷ child 2 ∷ []

abbrev tokens : Text → ℕ
tokens t = length t

abbrev alike : Document → Document → Bool
alike a b = a.ident == b.ident

trim-IsTrimmed_example :
    IsTrimmed tokens alike (expand_hit_documents_scored (child 1 ∷ []) corpus 1) 20 (
      trim_rag_context_by_budget tokens alike
        (expand_hit_documents_scored (child 1 ∷ []) corpus 1)
        20)
trim-IsTrimmed_example =
    Bounds.trim-IsTrimmed tokens alike (expand_hit_documents_scored (child 1 ∷ []) corpus 1) 20
      (omega arith)

alike_self : (d : Document) → alike d d ≡ true
alike_self d = ground arith

best_hit_stays_example :
    In
      (context_document (child 1) (parent_lookup corpus))
      (trim_rag_context_by_budget tokens alike
        (expand_hit_documents_scored (child 1 ∷ child 2 ∷ []) corpus 1)
        5).0
best_hit_stays_example =
    Top.best_hit_stays tokens alike alike_self (child 1) (child 2 ∷ []) corpus 1 5

abbrev expanded : List RagContextItem
expanded = expand_hit_documents_scored (child 1 ∷ []) corpus 1

expand_hits_IsFair_example :
    IsSorted precedes expanded
    × All (IsOfSome corpus 1 0 (child 1 ∷ [])) expanded
    × ((item : RagContextItem) × In item expanded
        × (key_of item ≡ document_key (context_document (child 1) (parent_lookup corpus)))
        × ((item.hit_rank < 0) ⊎ ((item.hit_rank ≡ 0) × (item.tier ≡ 0))))
expand_hits_IsFair_example = Covers.expand_hits_IsFair corpus 1 (child 1 ∷ []) 0 (child 1) refl
