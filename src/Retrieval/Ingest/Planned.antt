-- ===== src/Retrieval/Ingest/Planned.antt =====
-- What the loops of an ingest of app/rag/vectorstore.py plan: the documents that they add and the
-- sources that they retire.
use customer_service.Prelude.{
  ◌≡◌, refl, sym, ap, ◌∙◌, Bool, Bool-cases, true, false, ◌&&◌, Option, none, some, inl, inr, arith,
  List, [], ◌∷◌, All, All-In, All-append, if_pos, if_neg, if◌then◌else◌, ◌++◌,
}
use mathlib.Core.Option.{some-injective, none-ne-some}
use mathlib.Core.List.{append-nil}
use customer_service.Prelude.Text.{Text, Text-discrete, has_text}
use customer_service.Prelude.Dict.{Dict, get, values, among, All-put, In-get}
use customer_service.Retrieval.{Document}
use customer_service.Retrieval.Search.{is_some}
use customer_service.Retrieval.Ingest.{
  DocumentStores, with_new, source_of, or_empty, wanted_by_source, matches, Changes, change,
  plan_wanted, retire_unwanted,
}

-- what holds of the wanted documents holds of the new ones
module _ (P : Document → Type 0) where
  All-or_empty :
      (k : Text) (g : Dict Text (List Document))
      → All (All P) (values g)
      → All P (or_empty (get Text-discrete k g))
  All-or_empty k g h = go (get Text-discrete k g) refl
    where
      go : (o : Option (List Document)) → get Text-discrete k g ≡ o → All P (or_empty o)
      go none e = tt
      go (some ds) e = All-In (All P) ds (values g) h (In-get Text-discrete k g ds e)

  pub All-wanted_by_source :
      (ds : List Document) (g : Dict Text (List Document))
      → All P ds
      → All (All P) (values g)
      → All (All P) (values (wanted_by_source ds g))
  unfolding wanted_by_source
  All-wanted_by_source [] g h k = k
  All-wanted_by_source (d ∷ ds) g h k = All-wanted_by_source ds _ h.1 (
      All-put Text-discrete (All P) (source_of d) _ g
        (All-append P _ _ (All-or_empty (source_of d) g k) (h.0, tt)) k)

  All-change :
      (g : Dict Text (List Document)) (live : Dict Text Text) (source digest : Text)
      (changes : Changes)
      → All (All P) (values g)
      → All P changes.new_docs
      → All P (change g live source digest changes).new_docs
  All-change g live source digest changes h k =
      elim (Bool-cases (has_text digest && matches (get Text-discrete source live) digest)) [
        | inl e ↦ rw e k
        | inr e ↦ rw e (All-append P _ _ k (All-or_empty source g h))
      ]

  pub All-plan_wanted :
      (g : Dict Text (List Document)) (live items : Dict Text Text) (changes : Changes)
      → All (All P) (values g)
      → All P changes.new_docs
      → All P (plan_wanted g live items changes).new_docs
  unfolding plan_wanted
  All-plan_wanted g live [] changes h k = k
  All-plan_wanted g live ((source, digest) ∷ items) changes h k =
      All-plan_wanted g live items _ h (All-change g live source digest changes h k)

-- sources are retired, and stay so
among-add :
    (b : Bool) (s t : Text) (ts : List Text)
    → among Text-discrete s ts ≡ true
    → among Text-discrete s (if b then ts else t ∷ ts) ≡ true
unfolding among
among-add true s t ts h = h
among-add false s t ts h = ground (arith, h)

among-add_if :
    (b : Bool) (s t : Text) (ts : List Text)
    → among Text-discrete s ts ≡ true
    → among Text-discrete s (if b then t ∷ ts else ts) ≡ true
unfolding among
among-add_if true s t ts h = ground (arith, h)
among-add_if false s t ts h = h

among_self : (s t : Text) (ts : List Text) → t ≡ s → among Text-discrete s (t ∷ ts) ≡ true
unfolding among
among_self s t ts p = ground (arith, p)

module _ (wanted_hash : Dict Text Text) where
  pub retired_stays :
      (s : Text) (live : Dict Text Text) (sources : List Text)
      → among Text-discrete s sources ≡ true
      → among Text-discrete s (retire_unwanted wanted_hash live sources) ≡ true
  unfolding retire_unwanted
  retired_stays s [] sources h = h
  retired_stays s ((source, digest) ∷ live) sources h =
      retired_stays s live _
        (among-add (is_some (get Text-discrete source wanted_hash)) s source sources h)

  pub unwanted_is_retired :
      (s l : Text) (live : Dict Text Text) (sources : List Text)
      → get Text-discrete s live ≡ some l
      → get Text-discrete s wanted_hash ≡ none
      → among Text-discrete s (retire_unwanted wanted_hash live sources) ≡ true
  unfolding get retire_unwanted
  unwanted_is_retired s l [] sources h n = absurd (none-ne-some _ h)
  unwanted_is_retired s l ((source, digest) ∷ live) sources h n = elim (Text-discrete source s) [
    | yes p ↦ retired_stays s live _ (
        rw (ap (λ x. is_some (get Text-discrete x wanted_hash)) p ∙ ap is_some n)
          (among_self s source sources p))
    | no p ↦ unwanted_is_retired s l live _ (sym (if_neg (Text-discrete source s) p _ _) ∙ h) n
  ]

module _ (g : Dict Text (List Document)) (live : Dict Text Text) where
  among-change :
      (s source digest : Text) (changes : Changes)
      → among Text-discrete s changes.retire_sources ≡ true
      → among Text-discrete s (change g live source digest changes).retire_sources ≡ true
  among-change s source digest changes h =
      elim (Bool-cases (has_text digest && matches (get Text-discrete source live) digest)) [
        | inl e ↦ rw e h
        | inr e ↦ rw e (among-add_if (is_some (get Text-discrete source live)) s source _ h)
      ]

  changed_stays :
      (s : Text) (items : Dict Text Text) (changes : Changes)
      → among Text-discrete s changes.retire_sources ≡ true
      → among Text-discrete s (plan_wanted g live items changes).retire_sources ≡ true
  unfolding plan_wanted
  changed_stays s [] changes h = h
  changed_stays s ((source, digest) ∷ items) changes h =
      changed_stays s items _ (among-change s source digest changes h)

  matches-same :
      (l digest : Text) (o : Option Text)
      → o ≡ some l
      → has_text digest && matches o digest ≡ true
      → l ≡ digest
  matches-same l digest none e h = absurd (none-ne-some _ e)
  matches-same l digest (some x) e h = sym (some-injective _ _ e) ∙ ground (arith, h)

  change-retires :
      (s l source digest : Text) (changes : Changes)
      → source ≡ s
      → get Text-discrete s live ≡ some l
      → (l ≡ digest → ⊥)
      → among Text-discrete s (change g live source digest changes).retire_sources ≡ true
  change-retires s l source digest changes p h n =
      elim (Bool-cases (has_text digest && matches (get Text-discrete source live) digest)) [
        | inl e ↦ absurd (n (matches-same l digest _ (ap (λ x. get Text-discrete x live) p ∙ h) e))
        | inr e ↦
            rw (e, ap (λ x. is_some (get Text-discrete x live)) p ∙ ap is_some h)
              (among_self s source _ p)
      ]

  pub changed_is_retired :
      (s l w : Text) (items : Dict Text Text) (changes : Changes)
      → get Text-discrete s live ≡ some l
      → get Text-discrete s items ≡ some w
      → (l ≡ w → ⊥)
      → among Text-discrete s (plan_wanted g live items changes).retire_sources ≡ true
  unfolding get plan_wanted
  changed_is_retired s l w [] changes h i n = absurd (none-ne-some _ i)
  changed_is_retired s l w ((source, digest) ∷ items) changes h i n =
      elim (Text-discrete source s) [
        | no p ↦
            changed_is_retired s l w items _ h (sym (if_neg (Text-discrete source s) p _ _) ∙ i) n
        | yes p ↦ changed_stays s items _ (
            change-retires s l source digest changes p h
              (λ q. n (q ∙ some-injective _ _ (sym (if_pos (Text-discrete source s) p _ _) ∙ i))))
      ]

-- the documents of a store to which new ones are added, if there are any
pub documents-with_new :
    (stores : DocumentStores) (store : stores.Store) (new : List Document)
    → stores.documents store ++ new ≡ stores.documents (with_new stores store new)
documents-with_new stores store [] = append-nil (stores.documents store)
documents-with_new stores store (d ∷ new) = sym (stores.documents-add store (d ∷ new))
