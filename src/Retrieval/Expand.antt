-- ===== src/Retrieval/Expand.antt =====
-- From hits to the context of an answer, `expand_hit_documents_scored` of app/rag/vectorstore.py: each
-- hit, or its parent, then the chunks of its section and its neighbours.
pub mod Best
pub mod Covers
use customer_service.Prelude.{
  ℕ, zero, suc, ◌+◌, ◌≡◌, Bool, true, false, not, ◌&&◌, ◌||◌, Option, none, some, List, [], ◌∷◌,
  ◌++◌, map, if◌then◌else◌, ltb, ◌==◌,
}
use customer_service.Prelude.Text.{Text, codes, Text-discrete, same, text_of, has_text}
use customer_service.Prelude.Dict.{Dict, get, put, values}
use customer_service.Prelude.Int.{ℤ, pos, negsuc, ℤ_discrete, sub_ℕ, distance}
use customer_service.Prelude.Sort.{sort}
use customer_service.Retrieval.{
  Document, Key, Key-discrete, document_key, is_retrieval_chunk, chunk_index, section_key,
}

-- `RagContextItem`
pub record RagContextItem : Type 0 where
  pub document : Document
  pub hit_rank : ℕ
  pub tier : ℕ
  pub distance : ℕ

-- a.sort_key() < b.sort_key()
unfoldable pub precedes : RagContextItem → RagContextItem → Bool
precedes a b =
    ltb a.hit_rank b.hit_rank
    || (a.hit_rank == b.hit_rank
        && (ltb a.tier b.tier || (a.tier == b.tier && ltb a.distance b.distance)))

-- `_better_item`
unfoldable pub better_item : Option RagContextItem → RagContextItem → Bool
unfolding precedes
better_item none candidate = true
better_item (some current) candidate = precedes candidate current

-- `_parent_lookup`
unfoldable pub parent_lookup_from : Dict Text Document → List Document → Dict Text Document
parent_lookup_from parents [] = parents
parent_lookup_from parents (d ∷ corpus) =
    parent_lookup_from
      (if same (text_of d.chunk_role) (codes "parent") && has_text (text_of d.parent_id)
        then put Text-discrete (text_of d.parent_id) d parents
        else parents)
      corpus

unfoldable pub parent_lookup : List Document → Dict Text Document
unfolding parent_lookup_from
parent_lookup corpus = parent_lookup_from [] corpus

abbrev or_hit : Document → Option Document → Document
or_hit hit none = hit
or_hit hit (some parent) = parent

-- `_context_document`
unfoldable pub context_document : Document → Dict Text Document → Document
context_document hit parents =
    if same (text_of hit.chunk_role) (codes "child") && has_text (text_of hit.parent_id)
    then or_hit hit (get Text-discrete (text_of hit.parent_id) parents)
    else hit

abbrev pub Place : Type 0
Place = Text × ℤ

unfoldable pub Place-discrete : Discrete Place
unfolding Text-discrete ℤ_discrete
Place-discrete = hlevel (Text-discrete, ℤ_discrete)

-- `by_source_chunk` and `by_section`
pub record Chunks : Type 0 where
  pub by_source_chunk : Dict Place Document
  pub by_section : Dict Key (List Document)

-- a chunk with a source and an index is found by them
abbrev pub place_at : Bool → Option ℤ → Document → Dict Place Document → Dict Place Document
place_at false index d table = table
place_at true none d table = table
place_at true (some index) d table = put Place-discrete (text_of d.source, index) d table

abbrev pub or_none : Option (List Document) → List Document
or_none none = []
or_none (some documents) = documents

-- a chunk with a section stands behind those of the section before it
abbrev pub group_at : Option Key → Document → Dict Key (List Document) → Dict Key (List Document)
group_at none d table = table
group_at (some key) d table =
    put Key-discrete key (or_none (get Key-discrete key table) ++ d ∷ []) table

-- the loop over the corpus
unfoldable pub index_chunks : Chunks → List Document → Chunks
index_chunks chunks [] = chunks
index_chunks chunks (d ∷ corpus) =
    index_chunks
      (if is_retrieval_chunk d
        then record {
          by_source_chunk =
              place_at (has_text (text_of d.source)) (chunk_index d) d chunks.by_source_chunk;
          by_section = group_at (section_key d) d chunks.by_section;
        }
        else chunks)
      corpus

module _ (parents : Dict Text Document) (hit_rank : ℕ) where
  abbrev pub found_at : ℕ → ℕ → Document → RagContextItem
  found_at tier apart document = record {
    document = context_document document parents;
    hit_rank = hit_rank;
    tier = tier;
    distance = apart;
  }

  abbrev pub apart_from : ℤ → Option ℤ → ℕ
  apart_from hit_index none = 0
  apart_from hit_index (some index) = distance index hit_index

  -- the chunks of the hit's section, the hit itself left out
  unfoldable pub section_items : Document → ℤ → List Document → List RagContextItem
  section_items hit hit_index [] = []
  section_items hit hit_index (d ∷ documents) =
      let rest = section_items hit hit_index documents in
      if d.ident == hit.ident
      then rest
      else found_at 1 (apart_from hit_index (chunk_index d)) d ∷ rest

  abbrev pub neighbor_at : ℕ → Option Document → List RagContextItem
  neighbor_at apart none = []
  neighbor_at apart (some d) = found_at 2 apart d ∷ []

  -- the chunks before the hit, the farthest first, and those behind it
  unfoldable pub items_before : Dict Place Document → Text → ℕ → ℕ → List RagContextItem
  items_before table source hit_index zero = []
  items_before table source hit_index (suc n) =
      neighbor_at (suc n) (get Place-discrete (source, sub_ℕ hit_index (suc n)) table)
      ++ items_before table source hit_index n

  unfoldable pub items_behind : Dict Place Document → Text → ℕ → ℕ → ℕ → List RagContextItem
  items_behind table source hit_index offset zero = []
  items_behind table source hit_index offset (suc n) =
      neighbor_at offset (get Place-discrete (source, pos (hit_index + offset)) table)
      ++ items_behind table source hit_index (suc offset) n

  -- those within the window, if the hit has a source and an index that is not negative
  abbrev pub neighbor_items : Dict Place Document → ℕ → Text → Bool → Option ℤ → List RagContextItem
  neighbor_items table window source false index = []
  neighbor_items table window source true none = []
  neighbor_items table window source true (some (negsuc n)) = []
  neighbor_items table window source true (some (pos n)) =
      items_before table source n window ++ items_behind table source n 1 window

  abbrev pub same_section :
      Dict Key (List Document) → Document → Option Key → Option ℤ → List RagContextItem
  same_section table hit none index = []
  same_section table hit (some key) none = []
  same_section table hit (some key) (some index) =
      section_items hit index (or_none (get Key-discrete key table))

  -- what the loop over the hits considers for one hit, in order
  unfoldable pub candidates : Chunks → ℕ → Document → List RagContextItem
  unfolding section_items items_before items_behind
  candidates chunks window hit =
      found_at 0 0 hit
      ∷ (same_section chunks.by_section hit (section_key hit) (chunk_index hit)
          ++ neighbor_items chunks.by_source_chunk window (text_of hit.source)
              (has_text (text_of hit.source)) (chunk_index hit))

-- `consider`
unfoldable pub consider : RagContextItem → Dict Key RagContextItem → Dict Key RagContextItem
unfolding better_item
consider item selected =
    if better_item (get Key-discrete (document_key item.document) selected) item
    then put Key-discrete (document_key item.document) item selected
    else selected

unfoldable pub consider_all :
    List RagContextItem → Dict Key RagContextItem → Dict Key RagContextItem
unfolding consider
consider_all [] selected = selected
consider_all (item ∷ items) selected = consider_all items (consider item selected)

-- the candidates of all hits
unfoldable pub all_candidates :
    Dict Text Document → Chunks → ℕ → ℕ → List Document → List RagContextItem
unfolding candidates
all_candidates parents chunks window hit_rank [] = []
all_candidates parents chunks window hit_rank (hit ∷ hits) =
    candidates parents hit_rank chunks window hit
    ++ all_candidates parents chunks window (suc hit_rank) hits

abbrev pub no_chunks : Chunks
no_chunks = record { by_source_chunk = []; by_section = [] }

-- `expand_hit_documents_scored`; a negative neighbourhood counts as 0
unfoldable pub expand_hit_documents_scored : List Document → List Document → ℕ → List RagContextItem
unfolding all_candidates consider_all index_chunks parent_lookup
expand_hit_documents_scored hits corpus neighbor = sort precedes (
    values (
      consider_all
        (all_candidates (parent_lookup corpus) (index_chunks no_chunks corpus) neighbor 0 hits) []))
