-- ===== src/Retrieval/Trim/Bounds.antt =====
-- What a context cut to a budget holds, app/rag/vectorstore.py.
use customer_service.Prelude.{
  ℕ, suc, ◌+◌, ◌-◌, ◌≤◌, ◌<◌, ◌≡◌, refl, sym, ap, ◌∙◌, Bool, true, false, Option, none, some,
  Bool-cases, ◌⊎◌, inl, inr, arith, List, [], ◌∷◌, map, any, length, ltb, ◌==◌,
}
use customer_service.Prelude.Text.{Text}
use customer_service.Prelude.Sort.{sort, insert, length-sort}
use customer_service.Retrieval.{Document}
use customer_service.Retrieval.Expand.{RagContextItem, precedes}
use customer_service.Retrieval.Trim.{
  Stats, stands_before, sort_rag_documents, documents_of, top_hit, cost, total_cost, same_item,
  keep_within, with_top, trim_ordered, trim_rag_context_by_budget,
}

length-map : {A B : Type 0} (f : A → B) (xs : List A) → length (map f xs) ≡ length xs
length-map f [] = refl
length-map f (x ∷ xs) = ap suc (length-map f xs)

module _ (count_tokens : Text → ℕ) (same_document : Document → Document → Bool) where
  total_cost-insert :
      (d : Document) (ds : List Document)
      → total_cost count_tokens same_document (insert stands_before d ds)
        ≡ total_cost count_tokens same_document (d ∷ ds)
  unfolding insert
  total_cost-insert d [] = refl
  total_cost-insert d (e ∷ ds) = elim (Bool-cases (stands_before e d)) [
    | inl p ↦ rw p (omega (arith, total_cost-insert d ds))
    | inr p ↦ rw p
  ]

  total_cost-sort :
      (ds : List Document)
      → total_cost count_tokens same_document (sort stands_before ds)
        ≡ total_cost count_tokens same_document ds
  unfolding sort
  total_cost-sort [] = refl
  total_cost-sort (d ∷ ds) =
      total_cost-insert d (sort stands_before ds) ∙ omega (arith, total_cost-sort ds)

  abbrev cost_of : List RagContextItem → ℕ
  cost_of items = total_cost count_tokens same_document (documents_of items)

  -- once something is kept the rest stays within the budget
  keep_within-more :
      (budget total : ℕ) (items : List RagContextItem)
      → let out = keep_within count_tokens same_document budget true total items in
        (out.1 ≡ total + cost_of out.0)
        × (length out.0 ≤ length items)
        × ((out.1 ≤ budget) ⊎ ((out.0 ≡ []) × (out.1 ≡ total)))
  unfolding keep_within
  keep_within-more budget total [] = (omega arith, omega arith, inr (refl, refl))
  keep_within-more budget total (item ∷ items) =
      elim (Bool-cases (ltb budget (total + cost count_tokens same_document item.document))) [
        | inl over ↦
            let (a, b, c) = keep_within-more budget total items in rw over (a, omega (arith, b), c)
        | inr fits ↦
            let (a, b, c) =
              keep_within-more budget (total + cost count_tokens same_document item.document)
                items in
            rw fits (
              omega (arith, a),
              omega (arith, b),
              inl (elim c [ inl within ↦ within | inr (_, same) ↦ rw same (ground (arith, fits)) ]),
            )
      ]

  -- the first item is kept whatever it costs
  pub keep_within-first :
      (budget : ℕ) (item : RagContextItem) (items : List RagContextItem)
      → (rest : List RagContextItem) × (total : ℕ) × (keep_within count_tokens same_document budget
            false 0
            (item ∷ items)
          ≡ (item ∷ rest, total))
        × (total ≡ cost_of (item ∷ rest))
        × (length rest ≤ length items)
        × ((total ≤ budget) ⊎ (rest ≡ []))
  unfolding keep_within
  keep_within-first budget item items =
      let (a, b, c) =
        keep_within-more budget (0 + cost count_tokens same_document item.document) items in
      (
        _,
        _,
        refl,
        omega (arith, a),
        b,
        elim c [ inl within ↦ inl within | inr (none_left, _) ↦ inr none_left ],
      )

  -- what is returned, against what was asked
  abbrev pub IsTrimmed : List RagContextItem → ℕ → List Document × Stats → Type 0
  IsTrimmed items budget (docs, stats) =
      (stats.context_tokens ≡ total_cost count_tokens same_document docs)
      × (length docs + stats.context_trimmed ≡ length items)
      × ((stats.context_tokens ≤ budget) ⊎ (length docs ≡ 1))

  -- documents put in order for the prompt
  in_order :
      (kept : List RagContextItem)
      → (total_cost count_tokens same_document (sort_rag_documents (documents_of kept))
          ≡ cost_of kept)
        × (length (sort_rag_documents (documents_of kept)) ≡ length kept)
  unfolding sort_rag_documents
  in_order kept = (
    total_cost-sort (documents_of kept),
    length-sort stands_before (documents_of kept)
        ∙ length-map (λ (x : RagContextItem). x.document) kept,
  )

  as-IsTrimmed :
      (items kept : List RagContextItem) (budget total : ℕ) (exceeded : Bool)
      → total ≡ cost_of kept
      → length kept ≤ length items
      → (total ≤ budget) ⊎ (length kept ≡ 1)
      → IsTrimmed items budget (
        sort_rag_documents (documents_of kept),
        record {
          context_tokens = total;
          context_trimmed = length items - length kept;
          context_budget_exceeded = exceeded;
        },
      )
  as-IsTrimmed items kept budget total exceeded a b c =
      let (x, y) = in_order kept in
      (a ∙ sym x, omega (arith, y, b), elim c [ inl p ↦ inl p | inr p ↦ inr (y ∙ p) ])

  with_top-IsTrimmed :
      (items kept : List RagContextItem) (budget total : ℕ) (top : Option RagContextItem)
      → total ≡ cost_of kept
      → length kept ≤ length items
      → 0 < length items
      → (total ≤ budget) ⊎ (length kept ≡ 1)
      → let out = with_top count_tokens same_document budget top (kept, total) in
        IsTrimmed items budget (
          sort_rag_documents (documents_of out.0),
          record {
            context_tokens = out.1;
            context_trimmed = length items - length out.0;
            context_budget_exceeded = out.2;
          },
        )
  with_top-IsTrimmed items kept budget total none a b pos c =
      as-IsTrimmed items kept budget total false a b c
  with_top-IsTrimmed items kept budget total (some top) a b pos c =
      elim (Bool-cases (any (same_item count_tokens same_document top) kept)) [
        | inl e ↦ rw e (as-IsTrimmed items kept budget total (ltb budget total) a b c)
        | inr e ↦ rw e (
            as-IsTrimmed items (top ∷ []) budget (cost count_tokens same_document top.document)
              (ltb budget (cost count_tokens same_document top.document)) (omega arith)
              (omega arith) (inr refl))
      ]

  trim_ordered-IsTrimmed :
      (budget : ℕ) (items : List RagContextItem)
      → 0 < length items
      → IsTrimmed items budget (trim_ordered count_tokens same_document budget items)
  unfolding trim_ordered
  trim_ordered-IsTrimmed budget [] h = absurd (omega arith)
  trim_ordered-IsTrimmed budget (item ∷ items) h =
      let (rest, total, e, a, b, c) = keep_within-first budget item items in
      rw e (
        with_top-IsTrimmed (item ∷ items) (item ∷ rest) budget total (top_hit (item ∷ items)) a
          (omega (arith, b)) h
          (elim c [
            | inl p ↦ inl p
            | inr p ↦ inr (ap (λ (x : List RagContextItem). suc (length x)) p)
          ]))

  -- Cut to a positive budget, the context has the tokens that are reported, no item is unaccounted
  -- for, and it stays within the budget unless it is one document alone.
  pub trim-IsTrimmed :
      (items : List RagContextItem) (budget : ℕ)
      → 0 < budget
      → IsTrimmed items budget (trim_rag_context_by_budget count_tokens same_document items budget)
  unfolding trim_rag_context_by_budget
  trim-IsTrimmed [] budget h = (refl, omega arith, inl (omega arith))
  trim-IsTrimmed (item ∷ items) budget h =
      let same_length : length (sort precedes (item ∷ items)) ≡ suc (length items) =
        length-sort precedes (item ∷ items) in
      let test : (budget == 0) ≡ false = ground arith in
      let (a, b, c) =
        trim_ordered-IsTrimmed budget (sort precedes (item ∷ items)) (omega (arith, same_length)) in
      rw test (a, b ∙ same_length, c)
