-- ===== src/Retrieval/Trim.antt =====
-- The context of an answer cut to a token budget, `trim_rag_context_by_budget` of
-- app/rag/vectorstore.py. Parameters: the token counter, and pydantic's comparison of two documents.
pub mod Bounds
pub mod Top
use customer_service.Prelude.{
  ℕ, ◌+◌, ◌-◌, ◌≡◌, Bool, true, false, not, ◌&&◌, ◌||◌, Option, none, some, List, [], ◌∷◌, map, any,
  length, if◌then◌else◌, ltb, ◌==◌,
}
use customer_service.Prelude.Text.{Text, same, text_of}
use customer_service.Prelude.Order.{before}
use customer_service.Prelude.Int.{ℤ, pos, lt_int}
use customer_service.Prelude.Sort.{sort}
use customer_service.Retrieval.{Document, chunk_index, format_rag_context_chunk}
use customer_service.Retrieval.Expand.{RagContextItem, precedes}

-- `stats`
pub record Stats : Type 0 where
  pub context_tokens : ℕ
  pub context_trimmed : ℕ
  pub context_budget_exceeded : Bool

abbrev or_last : Option ℤ → ℤ
or_last none = pos 1000000000
or_last (some index) = index

-- the order of `_sort_rag_documents`
unfoldable pub stands_before : Document → Document → Bool
stands_before a b =
    before (text_of a.source) (text_of b.source)
    || (same (text_of a.source) (text_of b.source)
        && lt_int (or_last (chunk_index a)) (or_last (chunk_index b)))

unfoldable pub sort_rag_documents : List Document → List Document
sort_rag_documents documents = sort stands_before documents

abbrev pub documents_of : List RagContextItem → List Document
documents_of items = map (λ item. item.document) items

abbrev is_top : RagContextItem → Bool
is_top item = item.tier == 0 && item.hit_rank == 0

-- `next(… if item.tier == 0 and item.hit_rank == 0)`
unfoldable pub top_hit : List RagContextItem → Option RagContextItem
top_hit [] = none
top_hit (item ∷ items) = if is_top item then some item else top_hit items

module _ (count_tokens : Text → ℕ) (same_document : Document → Document → Bool) where
  abbrev pub cost : Document → ℕ
  cost document = count_tokens (format_rag_context_chunk document)

  abbrev pub total_cost : List Document → ℕ
  total_cost [] = 0
  total_cost (d ∷ documents) = cost d + total_cost documents

  -- the comparison of two items, and `item in kept`
  abbrev pub same_item : RagContextItem → RagContextItem → Bool
  same_item a b =
      same_document a.document b.document
      && (a.hit_rank == b.hit_rank && (a.tier == b.tier && a.distance == b.distance))

  -- the loop over the items, from what is kept so far: whether there is any, and its tokens
  unfoldable pub keep_within : ℕ → Bool → ℕ → List RagContextItem → List RagContextItem × ℕ
  keep_within budget kept total [] = ([], total)
  keep_within budget kept total (item ∷ items) =
      let skipped = keep_within budget kept total items in
      let taken = keep_within budget true (total + cost item.document) items in
      if kept && ltb budget (total + cost item.document) then skipped else (item ∷ taken.0, taken.1)

  -- what is kept in the end, its tokens, and whether the budget is exceeded
  abbrev pub with_top :
      ℕ → Option RagContextItem → List RagContextItem × ℕ → List RagContextItem × ℕ × Bool
  with_top budget none (kept, total) = (kept, total, false)
  with_top budget (some top) (kept, total) =
      if any (same_item top) kept
      then (kept, total, ltb budget total)
      else (top ∷ [], cost top.document, ltb budget (cost top.document))

  unfoldable pub trim_ordered : ℕ → List RagContextItem → List Document × Stats
  unfolding keep_within top_hit sort_rag_documents
  trim_ordered budget ordered =
      let (kept, total, exceeded) =
        with_top budget (top_hit ordered) (keep_within budget false 0 ordered) in
      (
        sort_rag_documents (documents_of kept),
        record {
          context_tokens = total;
          context_trimmed = length ordered - length kept;
          context_budget_exceeded = exceeded;
        },
      )

  -- without a positive budget nothing is cut
  unfoldable pub trim_unlimited : List RagContextItem → List Document × Stats
  unfolding sort_rag_documents
  trim_unlimited ordered =
      let documents = sort_rag_documents (documents_of ordered) in
      (
        documents,
        record {
          context_tokens = total_cost documents;
          context_trimmed = 0;
          context_budget_exceeded = false;
        },
      )

  abbrev pub no_stats : Stats
  no_stats = record { context_tokens = 0; context_trimmed = 0; context_budget_exceeded = false }

  -- `trim_rag_context_by_budget`
  unfoldable pub trim_rag_context_by_budget : List RagContextItem → ℕ → List Document × Stats
  unfolding trim_ordered trim_unlimited
  trim_rag_context_by_budget [] budget = ([], no_stats)
  trim_rag_context_by_budget (item ∷ items) budget =
      if budget == 0
      then trim_unlimited (sort precedes (item ∷ items))
      else trim_ordered budget (sort precedes (item ∷ items))
