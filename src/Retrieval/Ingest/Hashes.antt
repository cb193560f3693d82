-- ===== src/Retrieval/Ingest/Hashes.antt =====
-- The hashes that an ingest of app/rag/vectorstore.py reads off the documents of a tenant.
use customer_service.Prelude.{
  ◌≡◌, refl, sym, ap, ◌∙◌, Bool-cases, true, false, some, inl, inr, List, [], ◌∷◌, All, In, if_pos,
  if_neg,
}
use mathlib.Core.Path.{subst}
use customer_service.Prelude.Text.{Text, Text-discrete, has_text}
use customer_service.Prelude.Dict.{Dict, get, put, get-put}
use customer_service.Retrieval.{Document}
use customer_service.Retrieval.Ingest.{source_of, hash_of, live_source_hashes, wanted_hashes}

get-put_self_or :
    (s t v : Text) (d : Dict Text Text) (w : Text)
    → (s ≡ t → v ≡ w)
    → ((s ≡ t → ⊥) → get Text-discrete t d ≡ some w)
    → get Text-discrete t (put Text-discrete s v d) ≡ some w
get-put_self_or s t v d w h k = get-put Text-discrete s t v d ∙ elim (Text-discrete s t) [
  | yes p ↦ if_pos (Text-discrete s t) p _ _ ∙ ap some (h p)
  | no p ↦ if_neg (Text-discrete s t) p _ _ ∙ k p
]

module _ (digest : Text → Text) where
  -- the hash of a document is a function of its source
  abbrev pub HasHash : Document → Type 0
  HasHash d = hash_of d ≡ digest (source_of d)

  wanted_stays :
      (s : Text) (ds : List Document) (hashes : Dict Text Text)
      → All HasHash ds
      → get Text-discrete s hashes ≡ some (digest s)
      → get Text-discrete s (wanted_hashes ds hashes) ≡ some (digest s)
  unfolding wanted_hashes
  wanted_stays s [] hashes h e = e
  wanted_stays s (d ∷ ds) hashes h e = wanted_stays s ds _ h.1 (
      get-put_self_or (source_of d) s (hash_of d) hashes (digest s) (λ p. h.0 ∙ ap digest p)
        (λ _. e))

  pub wanted_found :
      (d : Document) (ds : List Document) (hashes : Dict Text Text)
      → All HasHash ds
      → In d ds
      → get Text-discrete (source_of d) (wanted_hashes ds hashes) ≡ some (digest (source_of d))
  unfolding wanted_hashes
  wanted_found d [] hashes h i = absurd i
  wanted_found d (x ∷ ds) hashes h (inl p) =
      subst
        (λ y.
          get Text-discrete (source_of y) (wanted_hashes (x ∷ ds) hashes)
          ≡ some (digest (source_of y)))
        (sym p)
        (wanted_stays (source_of x) ds _ h.1 (
          get-put_self_or (source_of x) (source_of x) (hash_of x) hashes _ (λ _. h.0)
            (λ n. absurd (n refl))))
  wanted_found d (x ∷ ds) hashes h (inr i) = wanted_found d ds _ h.1 i

  -- a live document has a source, and the hash of it
  abbrev pub IsLive : Document → Type 0
  IsLive d = d.deleted ≡ false → (has_text (source_of d) ≡ true) × HasHash d

  live_stays :
      (s : Text) (ds : List Document) (hashes : Dict Text Text)
      → All IsLive ds
      → get Text-discrete s hashes ≡ some (digest s)
      → get Text-discrete s (live_source_hashes ds hashes) ≡ some (digest s)
  unfolding live_source_hashes
  live_stays s [] hashes h e = e
  live_stays s (d ∷ ds) hashes h e = elim (Bool-cases d.deleted) [
    | inl x ↦ live_stays s ds _ h.1 (simp x e)
    | inr x ↦ live_stays s ds _ h.1 (
        rw ((h.0 x).0) (
          simp x (
            get-put_self_or (source_of d) s (hash_of d) hashes (digest s)
              (λ p. (h.0 x).1 ∙ ap digest p) (λ _. e))))
  ]

  pub live_found :
      (d : Document) (ds : List Document) (hashes : Dict Text Text)
      → All IsLive ds
      → In d ds
      → d.deleted ≡ false
      → get Text-discrete (source_of d) (live_source_hashes ds hashes) ≡ some (digest (source_of d))
  unfolding live_source_hashes
  live_found d [] hashes h i e = absurd i
  live_found d (x ∷ ds) hashes h (inl p) e =
      subst
        (λ y.
          get Text-discrete (source_of y) (live_source_hashes (x ∷ ds) hashes)
          ≡ some (digest (source_of y)))
        (sym p) (here (subst (λ (y : Document). y.deleted ≡ false) p e))
    where
      here :
          x.deleted ≡ false
          → get Text-discrete (source_of x) (live_source_hashes (x ∷ ds) hashes)
            ≡ some (digest (source_of x))
      here o = live_stays (source_of x) ds _ h.1 (
          rw ((h.0 o).0) (
            simp o (
              get-put_self_or (source_of x) (source_of x) (hash_of x) hashes _ (λ _. (h.0 o).1)
                (λ n. absurd (n refl)))))
  live_found d (x ∷ ds) hashes h (inr i) e = live_found d ds _ h.1 i e
