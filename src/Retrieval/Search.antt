-- ===== src/Retrieval/Search.antt =====
-- A search in the chunks of a tenant, app/rag/vectorstore.py: the vector search, the lexical search
-- of app/rag/lexical.py, and what a hit is. Parameters: floats, FAISS, jieba and BM25Plus. A search
-- runs under one lock on the indexes of one generation. `none` is the exception of
-- `document_course_code`.
pub mod Hits
pub mod Tenant
pub mod Own
pub mod Kept
pub mod Ranked
pub mod Safe
use customer_service.Prelude.{
  ℕ, zero, suc, ◌*◌, ◌≡◌, max, min, Bool, true, false, not, ◌&&◌, ◌||◌, Option, none, some, List,
  [], ◌∷◌, ◌++◌, map, all, length, take, keep_if, if◌then◌else◌, ltb, leb, ◌==◌, All, In,
}
use customer_service.Prelude.Text.{Text, codes, Text-discrete, same, strip, has_text}
use customer_service.Prelude.Dict.{Dict, get, put, values, among}
use customer_service.Prelude.Sort.{sort}
use customer_service.Retrieval.{
  Document, Key, Key-discrete, document_key, is_retrieval_chunk, matches_course,
}
use customer_service.Retrieval.Fusion.{Scores, descending}

infixl 5 ◌>>=◌
abbrev pub ◌>>=◌ : {A B : Type 0} → Option A → (A → Option B) → Option B
none >>= f = none
some a >>= f = f a

abbrev pub is_some : {A : Type 0} → Option A → Bool
is_some none = false
is_some (some a) = true

abbrev pub platform_tenant : Text
platform_tenant = codes "platform"

-- a FAISS index: its documents, and what it finds for a query, with distances
pub record Faiss (floats : Scores) : Type 1 where
  pub Store : Type 0
  pub ntotal : Store → ℕ
  pub documents : Store → List Document
  pub similarity_search_with_score : Store → Text → ℕ → List (Document × floats.Score)
  pub search_within :
      (store : Store) (query : Text) (k : ℕ)
      → All (λ e. In e.0 (documents store)) (similarity_search_with_score store query k)

-- jieba, Python's classes of characters, and the scores of BM25Plus for a tokenized corpus
pub record Words (floats : Scores) : Type 1 where
  pub lcut : Text → List Text
  pub lower : Text → Text
  pub is_word : ℕ → Bool
  pub get_scores : List (List Text) → List Text → List floats.Score

-- `_fetch_k` and `_vector_inner_k`
unfoldable pub default_fetch_k : ℕ → ℕ
default_fetch_k k = max (k * 3) 12

unfoldable pub vector_inner_k : ℕ → Text → ℕ → ℕ
vector_inner_k fetch_k course_code total =
    if has_text course_code
    then min total (max (fetch_k * 8) 32)
    else min total (max (fetch_k * 4) 16)

module _ {A : Type 0} (indexes : Dict Text A) where
  abbrev pub has_index : Text → Bool
  has_index scope = is_some (get Text-discrete scope indexes)

  -- `search_scopes`
  unfoldable pub search_scopes : Text → Text → List Text
  search_scopes tenant_id course_code =
      if has_text course_code
      then (if has_index tenant_id then tenant_id ∷ [] else [])
      else keep_if has_index (
          tenant_id
          ∷ (if has_index platform_tenant && not (same tenant_id platform_tenant)
              then platform_tenant ∷ []
              else []))

module _ (floats : Scores) (faiss : Faiss floats) (words : Words floats) where
  open floats use {Score, minus, one, half, less, zero as no_score}
  open faiss use {Store, ntotal, documents, similarity_search_with_score}
  open words use {lcut, lower, is_word, get_scores}

  -- `l2_to_similarity`
  unfoldable pub l2_to_similarity : Score → Score
  l2_to_similarity distance =
      let similarity = minus one (half distance) in
      if less no_score similarity then similarity else no_score

  -- `_iter_store_documents`, without the deleted ones
  unfoldable pub live_documents : Store → List Document
  live_documents store = keep_if (λ d. not d.deleted) (documents store)

  -- whether the loop of `_search_vector` takes a document
  unfoldable pub is_taken : Text → List Key → Document → Option Bool
  is_taken course_code seen document =
      if document.deleted
      then some false
      else (matches_course document course_code >>= λ ok. some (
          ok
          && (is_retrieval_chunk document
              && not (among Key-discrete (document_key document) seen))))

  abbrev pub choose :
      Option Bool
      → Option (List (Document × Score))
      → Document × Score
      → Option (List (Document × Score))
      → Option (List (Document × Score))
  choose none skipped entry behind = none
  choose (some false) skipped entry behind = skipped
  choose (some true) skipped entry behind = behind >>= λ ranked. some (entry ∷ ranked)

  -- the loop over the scored documents, with what is seen and the number of those taken
  unfoldable pub rank_vector :
      Text → ℕ → List Key → ℕ → List (Document × Score) → Option (List (Document × Score))
  unfolding is_taken l2_to_similarity
  rank_vector course_code fetch_k seen n [] = some []
  rank_vector course_code fetch_k seen n ((d, distance) ∷ scored) =
      let skipped = rank_vector course_code fetch_k seen n scored in
      let taken = rank_vector course_code fetch_k (document_key d ∷ seen) (suc n) scored in
      choose (is_taken course_code seen d) skipped (d, l2_to_similarity distance)
        (if leb fetch_k (suc n) then some [] else taken)

  abbrev pub scored_in : Text → ℕ → Text → Option Store → List (Document × Score)
  scored_in query fetch_k course_code none = []
  scored_in query fetch_k course_code (some store) =
      if ntotal store == 0
      then []
      else similarity_search_with_score store query
          (vector_inner_k fetch_k course_code (ntotal store))

  unfoldable pub scored_by : Dict Text Store → Text → ℕ → Text → List Text → List (Document × Score)
  scored_by indexes query fetch_k course_code [] = []
  scored_by indexes query fetch_k course_code (scope ∷ scopes) =
      scored_in query fetch_k course_code (get Text-discrete scope indexes)
      ++ scored_by indexes query fetch_k course_code scopes

  -- `_search_vector`
  unfoldable pub search_vector :
      Dict Text Store → Text → Text → ℕ → Text → Option (List (Document × Score))
  unfolding scored_by rank_vector
  search_vector indexes query tenant_id fetch_k course_code = rank_vector course_code fetch_k [] 0 (
      sort (λ a b. less a.1 b.1)
        (scored_by indexes query fetch_k course_code (search_scopes indexes tenant_id course_code)))

  abbrev is_ascii_alnum : ℕ → Bool
  is_ascii_alnum c =
      (leb b'0' c && leb c b'9') || ((leb b'a' c && leb c b'z') || (leb b'A' c && leb c b'Z'))

  -- whether `tokenize` keeps a token
  unfoldable pub is_token : Text → Bool
  is_token token =
      has_text token
      && (not (all (λ c. not (is_word c) || c == b'_') token)
          && (not (all (λ c. ltb c 128) token && (all is_ascii_alnum token && ltb (length token) 2))
              && not (not (all (λ c. ltb c 128) token) && ltb (length token) 2)))

  -- `tokenize`
  unfoldable pub tokenize : Text → List Text
  unfolding is_token
  tokenize text =
      if has_text (strip text)
      then keep_if is_token (map (λ piece. lower (strip piece)) (lcut (strip text)))
      else []

  -- `Bm25Index`
  pub record Bm25Index : Type 0 where
    pub documents : List Document
    pub tokenized : List (List Text)

  abbrev or_blank : List Text → List Text
  or_blank [] = [] ∷ []
  or_blank (t ∷ ts) = t ∷ ts

  -- `Bm25Index.build`
  unfoldable pub build : List Document → Option Bm25Index
  build [] = none
  build (d ∷ ds) = some (record {
    documents = d ∷ ds;
    tokenized = map (λ x. or_blank (tokenize x.page_content)) (d ∷ ds);
  })

  -- the documents with a positive score
  unfoldable pub above_zero : List Document → List Score → List (Document × Score)
  above_zero [] scores = []
  above_zero (d ∷ ds) [] = []
  above_zero (d ∷ ds) (score ∷ scores) =
      let rest = above_zero ds scores in if less no_score score then (d, score) ∷ rest else rest

  abbrev pub searched : Bm25Index → List Text → ℕ → List (Document × Score)
  searched index [] k = []
  searched index (t ∷ tokens) k = take k (
      descending floats (λ item. item.1)
        (above_zero index.documents (get_scores index.tokenized (t ∷ tokens))))

  -- `Bm25Index.search`
  unfoldable pub search : Bm25Index → Text → ℕ → List (Document × Score)
  unfolding above_zero
  search index query k = searched index (tokenize query) k

  abbrev pub Lexical : Type 0
  Lexical = Dict Text (Option Bm25Index)

  abbrev pub built : Option Store → Option Bm25Index
  built none = none
  built (some store) = build (keep_if is_retrieval_chunk (live_documents store))

  abbrev pub cached :
      Dict Text Store → Text → Lexical → Option (Option Bm25Index) → Option Bm25Index × Lexical
  cached indexes scope lexical (some index) = (index, lexical)
  cached indexes scope lexical none =
      let index = built (get Text-discrete scope indexes) in
      (index, put Text-discrete scope index lexical)

  -- `_bm25_index`: the index that is kept for a scope, or a new one, which is kept
  unfoldable pub bm25_index : Dict Text Store → Text → Lexical → Option Bm25Index × Lexical
  unfolding build live_documents
  bm25_index indexes scope lexical = cached indexes scope lexical (get Text-discrete scope lexical)

  abbrev pub is_better : Option (Document × Score) → Score → Bool
  is_better none score = true
  is_better (some previous) score = less previous.1 score

  -- the loop over what one scope gives
  unfoldable pub best_of :
      Text
      → List (Document × Score)
      → Dict Key (Document × Score)
      → Option (Dict Key (Document × Score))
  best_of course_code [] best = some best
  best_of course_code ((d, score) ∷ found) best = do
    ok ← matches_course d course_code
    best_of course_code found (
        if ok && is_better (get Key-discrete (document_key d) best) score
        then put Key-discrete (document_key d) (d, score) best
        else best)

  abbrev pub found_in : Option Bm25Index → Text → ℕ → List (Document × Score)
  found_in none query k = []
  found_in (some index) query k = search index query k

  -- the loop over the scopes; the indexes that are built on the way are kept, whatever happens
  unfoldable pub best_in :
      Dict Text Store
      → Text
      → ℕ
      → Text
      → List Text
      → Lexical
      → Dict Key (Document × Score)
      → Option (Dict Key (Document × Score)) × Lexical
  unfolding best_of bm25_index search
  best_in indexes query k course_code [] lexical best = (some best, lexical)
  best_in indexes query k course_code (scope ∷ scopes) lexical best =
      let (index, lexical') = bm25_index indexes scope lexical in
      elim (best_of course_code (found_in index query k) best) [
        | none ↦ (none, lexical')
        | some best' ↦ best_in indexes query k course_code scopes lexical' best'
      ]

  abbrev lexical_fetch : ℕ → Text → ℕ
  lexical_fetch fetch_k course_code = if has_text course_code then max (fetch_k * 4) 16 else fetch_k

  -- `_search_bm25`
  unfoldable pub search_bm25 :
      Dict Text Store
      → Text
      → Text
      → ℕ
      → Text
      → Lexical
      → Option (List (Document × Score)) × Lexical
  unfolding best_in
  search_bm25 indexes query tenant_id fetch_k course_code lexical =
      let (best, lexical') =
        best_in indexes query (lexical_fetch fetch_k course_code) course_code
          (search_scopes indexes tenant_id course_code) lexical [] in
      (
        (best >>= λ b. some (take fetch_k (descending floats (λ item. item.1) (values b)))),
        lexical',
      )
