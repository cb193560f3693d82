-- ===== src/Retrieval/Trim/Top.antt =====
-- The best hit and the token budget, app/rag/vectorstore.py: what a search found first is in the
-- context, whatever it costs.
use customer_service.Prelude.{
  ℕ, zero, suc, ◌≡◌, refl, sym, ap, ◌∙◌, Bool, true, false, some, Bool-cases, inl, inr, arith, List,
  [], ◌∷◌, map, any, All, In, All-In, ltb, ◌==◌,
}
use mathlib.Core.Path.{subst}
use mathlib.Core.Option.{some-injective}
use customer_service.Prelude.Text.{Text}
use customer_service.Prelude.Sort.{sort, IsSorted, In-sort, All-sort, sort-IsSorted}
use customer_service.Retrieval.{Document}
use customer_service.Retrieval.Expand.{
  RagContextItem, precedes, parent_lookup, context_document, expand_hit_documents_scored,
}
use customer_service.Retrieval.Expand.Best.{precedes-asym, precedes_trans}
use customer_service.Retrieval.Expand.Covers.{IsNear, IsOfSome, expand_hits_IsFair}
use customer_service.Retrieval.Trim.{
  stands_before, sort_rag_documents, documents_of, top_hit, same_item, trim_ordered, trim_unlimited,
  trim_rag_context_by_budget,
}
use customer_service.Retrieval.Trim.Bounds.{keep_within-first}

In-map : {A B : Type 0} (f : A → B) (x : A) (xs : List A) → In x xs → In (f x) (map f xs)
In-map f x [] h = absurd h
In-map f x (y ∷ xs) (inl p) = inl (ap f p)
In-map f x (y ∷ xs) (inr h) = inr (In-map f x xs h)

In-documents :
    (e : RagContextItem) (items : List RagContextItem)
    → In e items
    → In e.document (sort_rag_documents (documents_of items))
unfolding sort_rag_documents
In-documents e items h =
    In-sort stands_before e.document (documents_of items)
      (In-map (λ (x : RagContextItem). x.document) e items h)

abbrev IsTop : RagContextItem → Type 0
IsTop e = (e.hit_rank ≡ 0) × (e.tier ≡ 0)

-- what stands first, where there is something of the first rank
head_is_top : (e h : RagContextItem) → e.hit_rank ≡ 0 → e.tier ≡ 0 → precedes e h ≡ false → IsTop h
unfolding precedes
head_is_top e h a b p = ground (arith, a, b, p)

module _ (count_tokens : Text → ℕ) (same_document : Document → Document → Bool)
    (same_self : (d : Document) → same_document d d ≡ true) where
  same_item_self : (e : RagContextItem) → same_item count_tokens same_document e e ≡ true
  same_item_self e = ground (arith, same_self e.document)

  trim_ordered-head :
      (budget : ℕ) (e : RagContextItem) (items : List RagContextItem)
      → IsTop e
      → In e.document (trim_ordered count_tokens same_document budget (e ∷ items)).0
        × ((trim_ordered count_tokens same_document budget (e ∷ items)).1.context_budget_exceeded
            ≡ ltb budget
                (trim_ordered count_tokens same_document budget (e ∷ items)).1.context_tokens)
  unfolding trim_ordered top_hit
  trim_ordered-head budget e items (a, b) =
      let (rest, total, eq, _, _, _) =
        keep_within-first count_tokens same_document budget e items in
      let first : top_hit (e ∷ items) ≡ some e = unfold top_hit in ground (arith, a, b) in
      let kept : any (same_item count_tokens same_document e) (e ∷ rest) ≡ true =
        ground (arith, same_item_self e) in
      rw (eq, first, kept) (In-documents e (e ∷ rest) (inl refl), refl)

  -- the head of a sorted list with an item of the first rank and tier
  head_of :
      (P : RagContextItem → Type 0) (xs : List RagContextItem) (e : RagContextItem)
      → IsSorted precedes xs
      → All P xs
      → In e xs
      → IsTop e
      → (h : RagContextItem) × (rest : List RagContextItem) × (xs ≡ h ∷ rest) × IsTop h × P h
  head_of P [] e sorted all there top = absurd there
  head_of P (x ∷ xs) e sorted all (inl p) top = (x, xs, refl, subst IsTop p top, all.0)
  head_of P (x ∷ xs) e sorted all (inr r) top =
      (x, xs, refl, head_is_top e x top.0 top.1 (All-In _ e xs sorted.0 r), all.0)

  -- an item of the first rank and tier is kept, and the report on the budget is exact
  trim-top :
      (P : RagContextItem → Type 0) (items : List RagContextItem) (budget : ℕ) (e : RagContextItem)
      → All P items
      → In e items
      → IsTop e
      → (h : RagContextItem) × IsTop h
        × P h
        × In h.document (trim_rag_context_by_budget count_tokens same_document items budget).0
  unfolding trim_rag_context_by_budget trim_unlimited
  trim-top P [] budget e all there top = absurd there
  trim-top P (x ∷ xs) budget e all there top =
      let (h, rest, eq, top_h, p) =
        head_of P (sort precedes (x ∷ xs)) e
          (sort-IsSorted precedes precedes-asym precedes_trans (x ∷ xs))
          (All-sort precedes P (x ∷ xs) all) (In-sort precedes e (x ∷ xs) there) top in
      (
        h,
        top_h,
        p,
        elim (Bool-cases (budget == 0)) [
          | inl z ↦ rw (z, eq) (In-documents h (h ∷ rest) (inl refl))
          | inr z ↦ rw (z, eq) (trim_ordered-head budget h rest top_h).0
        ],
      )

  near_top :
      (corpus : List Document) (neighbor : ℕ) (hit d : Document) (tier : ℕ)
      → tier ≡ 0
      → IsNear corpus neighbor hit tier d
      → d ≡ hit
  near_top corpus neighbor hit d tier z (inl (_, p)) = p
  near_top corpus neighbor hit d tier z (inr (_, _, inl (one, _, _))) = absurd (omega arith)
  near_top corpus neighbor hit d tier z (inr (_, _, inr (two, _, _))) = absurd (omega arith)

  top_is_hit :
      (hit : Document) (hits corpus : List Document) (neighbor : ℕ) (h : RagContextItem)
      → IsTop h
      → IsOfSome corpus neighbor 0 (hit ∷ hits) h
      → h.document ≡ context_document hit (parent_lookup corpus)
  top_is_hit hit hits corpus neighbor h (r, z) (zero, hit', e, (_, (d, from, near))) =
      from
      ∙ ap (λ x. context_document x (parent_lookup corpus))
          (near_top corpus neighbor hit' d h.tier z near ∙ sym (some-injective _ _ e))
  top_is_hit hit hits corpus neighbor h (r, z) (suc i, hit', e, (r', _)) = absurd (omega arith)

  -- From hits to the context of the prompt: whatever the budget, the context holds the best hit, or
  -- its parent. A document is the same as itself.
  pub best_hit_stays :
      (hit : Document) (hits corpus : List Document) (neighbor budget : ℕ)
      → In
          (context_document hit (parent_lookup corpus))
          (trim_rag_context_by_budget count_tokens same_document
            (expand_hit_documents_scored (hit ∷ hits) corpus neighbor)
            budget).0
  best_hit_stays hit hits corpus neighbor budget =
      let fair = expand_hits_IsFair corpus neighbor (hit ∷ hits) 0 hit refl in
      let (e, there, _, place) = fair.2 in
      let top : IsTop e = elim place [ inl p ↦ absurd (omega arith) | inr p ↦ p ] in
      let (h, top_h, why, kept) =
        trim-top (IsOfSome corpus neighbor 0 (hit ∷ hits))
          (expand_hit_documents_scored (hit ∷ hits) corpus neighbor) budget e fair.1 there top in
      subst
        (λ d.
          In d
            (trim_rag_context_by_budget count_tokens same_document
              (expand_hit_documents_scored (hit ∷ hits) corpus neighbor) budget).0)
        (top_is_hit hit hits corpus neighbor h top_h why) kept
