-- ===== src/Retrieval/Search/Own.antt =====
-- What both searches of app/rag/vectorstore.py may return: chunks of the tenant's own store or of the
-- platform's one.
use customer_service.Prelude.{
  ℕ, zero, suc, ◌≡◌, refl, Bool, Bool-cases, true, false, not, ◌&&◌, Option, none, some, ◌⊎◌, inl,
  inr, arith, List, [], ◌∷◌, map, All, In, All-In, All-weaken, All-append, take, keep_if,
  if◌then◌else◌, leb, ◌==◌,
}
use customer_service.Prelude.Text.{Text, Text-discrete, same, has_text}
use customer_service.Prelude.Dict.{Dict, get, among}
use customer_service.Prelude.Sort.{All-sort}
use customer_service.Retrieval.{
  Document, Key, Key-discrete, document_key, is_retrieval_chunk, matches_course,
}
use customer_service.Retrieval.Fusion.{Scores}
use customer_service.Retrieval.Search.{
  ◌>>=◌, is_some, platform_tenant, Faiss, Words, has_index, search_scopes, is_taken, rank_vector,
  scored_in, scored_by, search_vector, Bm25Index, Lexical, built,
}

-- there is a result, and the predicate holds of it
abbrev pub Holds : {A : Type 0} → (A → Type 0) → Option A → Type 0
Holds P none = ⊥
Holds P (some a) = P a

pub Holds-bind :
    {A B : Type 0} (P : A → Type 0) (Q : B → Type 0) (o : Option A) (f : A → Option B)
    → Holds P o
    → ((a : A) → P a → Holds Q (f a))
    → Holds Q (o >>= f)
Holds-bind P Q none f h k = h
Holds-bind P Q (some a) f h k = k a h

pub Holds-if :
    {A : Type 0} (P : A → Type 0) (b : Bool) (o p : Option A)
    → Holds P o
    → Holds P p
    → Holds P (if b then o else p)
Holds-if P true o p h k = h
Holds-if P false o p h k = k

module _ {A : Type 0} where
  pub All-keep_if :
      (P : A → Type 0) (p : A → Bool) (xs : List A)
      → All P xs
      → All (λ x. P x × (p x ≡ true)) (keep_if p xs)
  All-keep_if P p [] h = tt
  All-keep_if P p (x ∷ xs) h = elim (Bool-cases (p x)) [
    | inl e ↦ rw e ((h.0, e), All-keep_if P p xs h.1)
    | inr e ↦ rw e (All-keep_if P p xs h.1)
  ]

  pub All-take : (P : A → Type 0) (n : ℕ) (xs : List A) → All P xs → All P (take n xs)
  All-take P zero xs h = tt
  All-take P (suc n) [] h = tt
  All-take P (suc n) (x ∷ xs) h = (h.0, All-take P n xs h.1)

  pub All-map :
      {B : Type 0} (P : B → Type 0) (f : A → B) (xs : List A)
      → All (λ x. P (f x)) xs
      → All P (map f xs)
  All-map P f [] h = tt
  All-map P f (x ∷ xs) h = (h.0, All-map P f xs h.1)

module _ (floats : Scores) (faiss : Faiss floats) (words : Words floats) where
  open floats use {Score, less}
  open faiss use {Store, documents, similarity_search_with_score, search_within}

  module _ (indexes : Dict Text Store) (tenant_id course_code : Text) where
    -- a scope of the tenant: its own, and without a course also the platform's
    abbrev pub IsScope : Text → Type 0
    IsScope scope =
        (scope ≡ tenant_id) ⊎ ((scope ≡ platform_tenant) × (has_text course_code ≡ false))

    pub record IsStored (d : Document) : Type 0 where
      pub scope : Text
      pub store : Store
      pub of_tenant : IsScope scope
      pub kept : get Text-discrete scope indexes ≡ some store
      pub held : In d (documents store)

    -- a document that the tenant may see
    pub record IsOwn (d : Document) : Type 0 where
      pub in_store : IsStored d
      pub chunk : is_retrieval_chunk d ≡ true
      pub live : d.deleted ≡ false
      pub course : matches_course d course_code ≡ some true

    abbrev pub AllOwn : List (Document × Score) → Type 0
    AllOwn ranked = All (λ (e : Document × Score). IsOwn e.0) ranked

    -- the code of a course can be read off every stored document
    abbrev pub IsCoded : Type 0
    IsCoded =
        (scope : Text) (store : Store)
        → get Text-discrete scope indexes ≡ some store
        → All (λ d. is_some (matches_course d course_code) ≡ true) (documents store)

    -- a kept lexical index is the one of its store
    abbrev pub IsKept : Lexical floats faiss words → Type 0
    IsKept lexical =
        All
          (λ (e : Text × Option (Bm25Index floats faiss words)).
            e.1 ≡ built floats faiss words (get Text-discrete e.0 indexes))
          lexical

    abbrev both_scopes : List Text
    both_scopes =
        tenant_id
        ∷ (if has_index indexes platform_tenant && not (same tenant_id platform_tenant)
            then platform_tenant ∷ []
            else [])

    both-IsScope : has_text course_code ≡ false → All IsScope both_scopes
    both-IsScope e =
        elim (Bool-cases
          (has_index indexes platform_tenant && not (same tenant_id platform_tenant))) [
            | inl i ↦ rw i (inl refl, (inr (refl, e), tt))
            | inr i ↦ rw i (inl refl, tt)
          ]

    pub search_scopes-IsScope : All IsScope (search_scopes indexes tenant_id course_code)
    unfolding search_scopes
    search_scopes-IsScope = elim (Bool-cases (has_text course_code)) [
      | inl e ↦ elim (Bool-cases (has_index indexes tenant_id)) [
        | inl i ↦ rw (e, i) (inl refl, tt)
        | inr i ↦ rw (e, i) tt
      ]
      | inr e ↦ rw e (
          All-weaken (λ s. IsScope s × (has_index indexes s ≡ true)) IsScope _ (λ s h. h.0)
            (All-keep_if IsScope (has_index indexes) both_scopes (both-IsScope e)))
    ]

    scored_in-IsStored :
        (query : Text) (fetch_k : ℕ) (scope : Text) (o : Option Store)
        → IsScope scope
        → get Text-discrete scope indexes ≡ o
        → All (λ e. IsStored e.0) (scored_in floats faiss words query fetch_k course_code o)
    scored_in-IsStored query fetch_k scope none h e = tt
    scored_in-IsStored query fetch_k scope (some store) h e =
        elim (Bool-cases (faiss.ntotal store == 0)) [
          | inl z ↦ rw z tt
          | inr z ↦ rw z (
              All-weaken (λ r. In r.0 (documents store)) (λ r. IsStored r.0) _
                (λ r i. record { scope = scope; store = store; of_tenant = h; kept = e; held = i })
                (search_within store query _))
        ]

    scored_by-IsStored :
        (query : Text) (fetch_k : ℕ) (scopes : List Text)
        → All IsScope scopes
        → All
            (λ e. IsStored e.0)
            (scored_by floats faiss words indexes query fetch_k course_code scopes)
    unfolding scored_by
    scored_by-IsStored query fetch_k [] h = tt
    scored_by-IsStored query fetch_k (scope ∷ scopes) h =
        All-append _ _ _ (scored_in-IsStored query fetch_k scope _ h.0 refl)
          (scored_by-IsStored query fetch_k scopes h.1)

    module _ (coded : IsCoded) where
      pub matches_stored :
          (d : Document)
          → IsStored d
          → (matches_course d course_code ≡ some true) ⊎ (matches_course d course_code ≡ some false)
      matches_stored d h =
          split (matches_course d course_code) (All-In _ d _ (coded h.scope h.store h.kept) h.held)
        where
          split : (o : Option Bool) → is_some o ≡ true → (o ≡ some true) ⊎ (o ≡ some false)
          split none e = absurd (ground (arith, e))
          split (some true) e = inl refl
          split (some false) e = inr refl

      is_taken_cases :
          (seen : List Key) (d : Document)
          → IsStored d
          → (is_taken floats faiss words course_code seen d ≡ some false)
            ⊎ ((is_taken floats faiss words course_code seen d ≡ some true) × IsOwn d)
      unfolding is_taken
      is_taken_cases seen d h = elim (Bool-cases d.deleted) [
        | inl e ↦ inl (rw e refl)
        | inr e ↦ elim (matches_stored d h) [
          | inr m ↦ inl (rw (m, e) refl)
          | inl m ↦ elim (Bool-cases (is_retrieval_chunk d)) [
            | inr c ↦ inl (rw (m, c, e) refl)
            | inl c ↦ elim (Bool-cases (among Key-discrete (document_key d) seen)) [
              | inl a ↦ inl (rw (m, c, a, e) refl)
              | inr a ↦
                  inr
                    (rw (m, c, a, e) refl, record { in_store = h; chunk = c; live = e; course = m })
            ]
          ]
        ]
      ]

      rank_vector-IsOwn :
          (fetch_k : ℕ) (seen : List Key) (n : ℕ) (scored : List (Document × Score))
          → All (λ e. IsStored e.0) scored
          → Holds AllOwn (rank_vector floats faiss words course_code fetch_k seen n scored)
      unfolding rank_vector
      rank_vector-IsOwn fetch_k seen n [] h = tt
      rank_vector-IsOwn fetch_k seen n ((d, distance) ∷ scored) h =
          elim (is_taken_cases seen d h.0) [
            | inl e ↦ rw e (rank_vector-IsOwn fetch_k seen n scored h.1)
            | inr e ↦ rw e.0 (
                Holds-bind AllOwn AllOwn _ _
                  (Holds-if AllOwn (leb fetch_k (suc n)) _ _ tt
                    (rank_vector-IsOwn fetch_k (document_key d ∷ seen) (suc n) scored h.1))
                  (λ ranked r. (e.1, r)))
          ]

      -- the vector search gives documents that the tenant may see
      pub search_vector-IsOwn :
          (query : Text) (fetch_k : ℕ)
          → Holds AllOwn
              (search_vector floats faiss words indexes query tenant_id fetch_k course_code)
      unfolding search_vector
      search_vector-IsOwn query fetch_k = rank_vector-IsOwn fetch_k [] 0 _ (
          All-sort _ (λ e. IsStored e.0) _
            (scored_by-IsStored query fetch_k _ search_scopes-IsScope))
