-- ===== src/Retrieval/Expand/Covers.antt =====
-- Where the context of an answer comes from, and that no hit is missing in it,
-- `expand_hit_documents_scored` of app/rag/vectorstore.py.
use customer_service.Prelude.{
  ℕ, zero, suc, ◌+◌, ◌≤◌, ◌<◌, ◌≡◌, ◌≢◌, refl, sym, ap, ◌∙◌, Bool, true, false, Option, none, some,
  Option-cases, Bool-cases, ◌⊎◌, inl, inr, arith, ap₂, ◌==◌, List, [], ◌∷◌, ◌++◌, All, In,
  All-of_In, All-weaken, All-append, In-append_right, get_elem?, if_pos, if_neg,
}
use mathlib.Core.Path.{subst}
use mathlib.Core.Option.{some-injective, none-ne-some}
use customer_service.Prelude.Text.{Text, text_of, has_text}
use customer_service.Prelude.Dict.{Dict, get, get-put}
use customer_service.Prelude.Int.{ℤ, pos, negsuc, sub_ℕ, distance}
use customer_service.Prelude.Sort.{IsSorted}
use customer_service.Retrieval.{
  Document, Key, Key-discrete, document_key, is_retrieval_chunk, chunk_index, section_key,
}
use customer_service.Retrieval.Expand.{
  RagContextItem, precedes, parent_lookup, context_document, Place, Place-discrete, Chunks,
  place_at, group_at, or_none, index_chunks, found_at, section_items, items_before, items_behind,
  neighbor_at, neighbor_items, same_section, candidates, all_candidates, no_chunks,
  expand_hit_documents_scored,
}
use customer_service.Retrieval.Expand.Best.{chosen-IsSorted, chosen-All, chosen-covers, key_of}

-- what the two tables of the chunks hold, of documents with a property
record IsIndexed (P : Document → Type 0) (chunks : Chunks) : Type 0 where
  places :
      (p : Place) (d : Document)
      → get Place-discrete p chunks.by_source_chunk ≡ some d
      → P d × (text_of d.source ≡ p.0) × (chunk_index d ≡ some p.1)
  sections :
      (k : Key) (ds : List Document)
      → get Key-discrete k chunks.by_section ≡ some ds
      → All (λ d. P d × (section_key d ≡ some k)) ds

module _ (P : Document → Type 0) where
  place_at-keeps :
      (s : Bool) (o : Option ℤ) (d : Document) (t : Dict Place Document)
      → chunk_index d ≡ o
      → P d
      → ((p : Place) (e : Document)
          → get Place-discrete p t ≡ some e
          → P e × (text_of e.source ≡ p.0) × (chunk_index e ≡ some p.1))
      → (p : Place) (e : Document) → get Place-discrete p (place_at s o d t) ≡ some e
      → P e × (text_of e.source ≡ p.0) × (chunk_index e ≡ some p.1)
  place_at-keeps false o d t here h inv p e found = inv p e found
  place_at-keeps true none d t here h inv p e found = inv p e found
  place_at-keeps true (some i) d t here h inv p e found =
      elim (Place-discrete (text_of d.source, i) p) [
        | yes same ↦
            let this : d ≡ e = some-injective _ _ (
              sym (
                get-put Place-discrete (text_of d.source, i) p d t
                ∙ if_pos (Place-discrete (text_of d.source, i) p) same _ _)
              ∙ found) in
            subst (λ x. P x × (text_of x.source ≡ p.0) × (chunk_index x ≡ some p.1)) this
              (h, ap (λ (x : Place). x.0) same, here ∙ ap (λ (x : Place). some x.1) same)
        | no other ↦ inv p e (
            sym (
              get-put Place-discrete (text_of d.source, i) p d t
              ∙ if_neg (Place-discrete (text_of d.source, i) p) other _ _)
            ∙ found)
      ]

  listed :
      (k : Key) (t : Dict Key (List Document))
      → ((k : Key) (ds : List Document)
          → get Key-discrete k t ≡ some ds
          → All (λ d. P d × (section_key d ≡ some k)) ds)
      → All (λ d. P d × (section_key d ≡ some k)) (or_none (get Key-discrete k t))
  listed k t inv = elim (Option-cases (get Key-discrete k t)) [
    | inl e ↦ rw e tt
    | inr (ds, e) ↦ rw e (inv k ds e)
  ]

  group_at-keeps :
      (o : Option Key) (d : Document) (t : Dict Key (List Document))
      → section_key d ≡ o
      → P d
      → ((k : Key) (ds : List Document)
          → get Key-discrete k t ≡ some ds
          → All (λ e. P e × (section_key e ≡ some k)) ds)
      → (k : Key) (ds : List Document) → get Key-discrete k (group_at o d t) ≡ some ds
      → All (λ e. P e × (section_key e ≡ some k)) ds
  group_at-keeps none d t here h inv k ds found = inv k ds found
  group_at-keeps (some j) d t here h inv k ds found = elim (Key-discrete j k) [
    | yes same ↦
        let this : or_none (get Key-discrete j t) ++ d ∷ [] ≡ ds =
          some-injective _ _
            (sym (get-put Key-discrete j k _ t ∙ if_pos (Key-discrete j k) same _ _) ∙ found) in
        subst (λ x. All (λ e. P e × (section_key e ≡ some x)) ds) same
          (subst (All (λ e. P e × (section_key e ≡ some j))) this (
            All-append _ (or_none (get Key-discrete j t)) (d ∷ []) (listed j t inv)
              ((h, here), tt)))
    | no other ↦
        inv k ds (sym (get-put Key-discrete j k _ t ∙ if_neg (Key-discrete j k) other _ _) ∙ found)
  ]

  index_chunks-IsIndexed :
      (corpus : List Document) (chunks : Chunks)
      → All (λ d. is_retrieval_chunk d ≡ true → P d) corpus
      → IsIndexed P chunks
      → IsIndexed P (index_chunks chunks corpus)
  unfolding index_chunks
  index_chunks-IsIndexed [] chunks h inv = inv
  index_chunks-IsIndexed (d ∷ corpus) chunks h inv = elim (Bool-cases (is_retrieval_chunk d)) [
    | inr e ↦ rw e (index_chunks-IsIndexed corpus chunks h.1 inv)
    | inl e ↦ rw e (
        index_chunks-IsIndexed corpus _ h.1 (record {
          places =
              place_at-keeps (has_text (text_of d.source)) (chunk_index d) d chunks.by_source_chunk
                refl (h.0 e) inv.places;
          sections = group_at-keeps (section_key d) d chunks.by_section refl (h.0 e) inv.sections;
        }))
  ]

-- why a chunk stands in the context of a hit: it is the hit, or a chunk of the corpus for retrieval in
-- the hit's section, or one of the hit's source at most so many chunks away
abbrev pub IsNear : List Document → ℕ → Document → ℕ → Document → Type 0
IsNear corpus neighbor hit tier d =
    ((tier ≡ 0) × (d ≡ hit))
    ⊎ (In d corpus
        × (is_retrieval_chunk d ≡ true)
        × (((tier ≡ 1) × (section_key d ≡ section_key hit) × (section_key hit ≢ none))
            ⊎ ((tier ≡ 2)
                × (text_of d.source ≡ text_of hit.source)
                × ((i : ℤ) × (j : ℤ) × (chunk_index d ≡ some i)
                    × (chunk_index hit ≡ some j)
                    × (distance i j ≤ neighbor)))))

module _ (corpus : List Document) (neighbor : ℕ) where
  abbrev pub parents : Dict Text Document
  parents = parent_lookup corpus

  abbrev chunks : Chunks
  chunks = index_chunks no_chunks corpus

  abbrev IsOfCorpus : Document → Type 0
  IsOfCorpus d = In d corpus × (is_retrieval_chunk d ≡ true)

  chunks-IsIndexed : IsIndexed IsOfCorpus chunks
  chunks-IsIndexed =
      index_chunks-IsIndexed IsOfCorpus corpus no_chunks
        (All-of_In (λ d. is_retrieval_chunk d ≡ true → IsOfCorpus d) corpus (λ d h e. (h, e)))
        (record {
          places = λ p d e. absurd (unfold get in ground (arith, e));
          sections = λ k ds e. absurd (unfold get in ground (arith, e));
        })

  module _ (rank : ℕ) (hit : Document) where
    -- an item of the hit, with the chunk that it stands for
    abbrev pub IsOfHit : RagContextItem → Type 0
    IsOfHit item =
        (item.hit_rank ≡ rank)
        × ((d : Document) × (item.document ≡ context_document d parents)
            × IsNear corpus neighbor hit item.tier d)

    section_items-All :
        (i : ℤ) (k : Key) (ds : List Document)
        → section_key hit ≡ some k
        → All (λ d. IsOfCorpus d × (section_key d ≡ some k)) ds
        → All IsOfHit (section_items parents rank hit i ds)
    unfolding section_items
    section_items-All i k [] e h = tt
    section_items-All i k (d ∷ ds) e h = elim (Bool-cases (d.ident == hit.ident)) [
      | inl p ↦ rw p (section_items-All i k ds e h.1)
      | inr p ↦ rw p (
        (
          refl,
          (
            d,
            refl,
            inr (h.0.0.0, h.0.0.1, inl (refl, h.0.1 ∙ sym e, λ f. none-ne-some _ (sym f ∙ e))),
          ),
        ),
        section_items-All i k ds e h.1,
      )
    ]

    neighbor_item-All :
        (o : Option Document) (i : ℤ) (n : ℕ) (apart : ℕ)
        → get Place-discrete (text_of hit.source, i) chunks.by_source_chunk ≡ o
        → chunk_index hit ≡ some (pos n)
        → distance i (pos n) ≤ neighbor
        → All IsOfHit (neighbor_at parents rank apart o)
    neighbor_item-All none i n apart e h near = tt
    neighbor_item-All (some d) i n apart e h near =
        let (c, s, j) = chunks-IsIndexed.places (text_of hit.source, i) d e in
        ((refl, (d, refl, inr (c.0, c.1, inr (refl, s, (i, pos n, j, h, near))))), tt)

    before_distance : (n m : ℕ) → suc m ≤ neighbor → distance (sub_ℕ n (suc m)) (pos n) ≤ neighbor
    unfolding distance
    before_distance n m h = ground (arith, h)

    behind_distance : (n m : ℕ) → m ≤ neighbor → distance (pos (n + m)) (pos n) ≤ neighbor
    unfolding distance
    behind_distance n m h = ground (arith, h)

    items_before-All :
        (n m : ℕ)
        → chunk_index hit ≡ some (pos n)
        → m ≤ neighbor
        → All IsOfHit (items_before parents rank chunks.by_source_chunk (text_of hit.source) n m)
    unfolding items_before
    items_before-All n zero h near = tt
    items_before-All n (suc m) h near =
        All-append IsOfHit _ _
          (neighbor_item-All _ (sub_ℕ n (suc m)) n (suc m) refl h (before_distance n m near))
          (items_before-All n m h (omega arith))

    items_behind-All :
        (n o m : ℕ)
        → chunk_index hit ≡ some (pos n)
        → o + m ≤ suc neighbor
        → All IsOfHit (items_behind parents rank chunks.by_source_chunk (text_of hit.source) n o m)
    unfolding items_behind
    items_behind-All n o zero h near = tt
    items_behind-All n o (suc m) h near =
        All-append IsOfHit _ _
          (neighbor_item-All _ (pos (n + o)) n o refl h (behind_distance n o (omega arith)))
          (items_behind-All n (suc o) m h (omega arith))

    same_section-All :
        (o : Option Key) (i : Option ℤ)
        → section_key hit ≡ o
        → All IsOfHit (same_section parents rank chunks.by_section hit o i)
    same_section-All none i e = tt
    same_section-All (some k) none e = tt
    same_section-All (some k) (some i) e =
        section_items-All i k (or_none (get Key-discrete k chunks.by_section)) e
          (listed IsOfCorpus k chunks.by_section chunks-IsIndexed.sections)

    neighbor_items-All :
        (s : Bool) (i : Option ℤ)
        → chunk_index hit ≡ i
        → All IsOfHit
            (neighbor_items parents rank chunks.by_source_chunk neighbor (text_of hit.source) s i)
    neighbor_items-All false i e = tt
    neighbor_items-All true none e = tt
    neighbor_items-All true (some (negsuc n)) e = tt
    neighbor_items-All true (some (pos n)) e =
        All-append IsOfHit _ _ (items_before-All n neighbor e (omega arith))
          (items_behind-All n 1 neighbor e (omega arith))

    candidates-All : All IsOfHit (candidates parents rank chunks neighbor hit)
    unfolding candidates
    candidates-All = (
      (refl, (hit, refl, inl (refl, refl))),
      All-append IsOfHit _ _ (same_section-All (section_key hit) (chunk_index hit) refl)
          (neighbor_items-All (has_text (text_of hit.source)) (chunk_index hit) refl),
    )

  -- an item of some hit of the list, whose first has this rank
  abbrev pub IsOfSome : ℕ → List Document → RagContextItem → Type 0
  IsOfSome rank hits item =
      (i : ℕ) × (hit : Document) × (get_elem? hits i ≡ some hit) × IsOfHit (rank + i) hit item

  later :
      (rank : ℕ) (h : Document) (hits : List Document) (item : RagContextItem)
      → IsOfSome (suc rank) hits item
      → IsOfSome rank (h ∷ hits) item
  later rank h hits item (i, hit, e, (r, why)) = (suc i, hit, e, (r ∙ omega arith, why))

  first :
      (rank : ℕ) (h : Document) (hits : List Document) (item : RagContextItem)
      → IsOfHit rank h item
      → IsOfSome rank (h ∷ hits) item
  first rank h hits item (r, why) = (0, h, refl, (r ∙ omega arith, why))

  all_candidates-All :
      (rank : ℕ) (hits : List Document)
      → All (IsOfSome rank hits) (all_candidates parents chunks neighbor rank hits)
  unfolding all_candidates
  all_candidates-All rank [] = tt
  all_candidates-All rank (h ∷ hits) =
      All-append (IsOfSome rank (h ∷ hits)) (candidates parents rank chunks neighbor h) _
        (All-weaken _ _ (candidates parents rank chunks neighbor h) (first rank h hits)
          (candidates-All rank h))
        (All-weaken _ _ _ (later rank h hits) (all_candidates-All (suc rank) hits))

  hit_is_candidate :
      (rank i : ℕ) (hits : List Document) (hit : Document)
      → get_elem? hits i ≡ some hit
      → In (found_at parents (rank + i) 0 0 hit) (all_candidates parents chunks neighbor rank hits)
  unfolding all_candidates candidates
  hit_is_candidate rank i [] hit e = absurd (none-ne-some _ e)
  hit_is_candidate rank zero (h ∷ hits) hit e =
      inl (ap₂ (λ r d. found_at parents r 0 0 d) (omega arith) (sym (some-injective _ _ e)))
  hit_is_candidate rank (suc i) (h ∷ hits) hit e =
      In-append_right _ (candidates parents rank chunks neighbor h) _ (
        subst
          (λ r.
            In (found_at parents r 0 0 hit)
              (all_candidates parents chunks neighbor (suc rank) hits))
          (omega arith) (hit_is_candidate (suc rank) i hits hit e))

  -- The context of an answer is sorted by rank; each item stands for a hit of that rank, for a chunk
  -- in the hit's section or for one of the hit's source within the neighbourhood, the chunk itself or
  -- its parent; and every hit is there, as itself or under a hit before it.
  pub expand_hits_IsFair :
      (hits : List Document) (i : ℕ) (hit : Document)
      → get_elem? hits i ≡ some hit
      → IsSorted precedes (expand_hit_documents_scored hits corpus neighbor)
        × All (IsOfSome 0 hits) (expand_hit_documents_scored hits corpus neighbor)
        × ((item : RagContextItem) × In item (expand_hit_documents_scored hits corpus neighbor)
            × (key_of item ≡ document_key (context_document hit parents))
            × ((item.hit_rank < i) ⊎ ((item.hit_rank ≡ i) × (item.tier ≡ 0))))
  unfolding expand_hit_documents_scored
  expand_hits_IsFair hits i hit e =
      let (item, there, same, good) =
        chosen-covers (all_candidates parents chunks neighbor 0 hits)
          (found_at parents (0 + i) 0 0 hit) (hit_is_candidate 0 i hits hit e) in
      (
        chosen-IsSorted (all_candidates parents chunks neighbor 0 hits),
        chosen-All (all_candidates parents chunks neighbor 0 hits) (IsOfSome 0 hits)
            (all_candidates-All 0 hits),
        (item, there, same, rank_of_best item good),
      )
    where
      rank_of_best :
          (item : RagContextItem)
          → precedes (found_at parents (0 + i) 0 0 hit) item ≡ false
          → (item.hit_rank < i) ⊎ ((item.hit_rank ≡ i) × (item.tier ≡ 0))
      rank_of_best item good = unfold precedes in ground (arith, good)
