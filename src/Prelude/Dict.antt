-- ===== src/Prelude/Dict.antt =====
-- Python's `dict` as an association list in insertion order, over keys with a decidable equality.
use Prim.Native.Nat.{◌+◌, ◌≤◌}
use mathlib.Core.Path.{◌≡◌, refl, sym, ap, ◌∙◌, subst}
use mathlib.Core.Bool.{Bool, true, false}
use mathlib.Core.Logic.{ite, if_pos, if_neg, ◌≢◌, inl, inr}
use customer_service.Prelude.Tests.{if◌then◌else◌}
use mathlib.Core.List.{List, [], ◌∷◌, ◌++◌, append-nil, append_assoc}
use mathlib.Core.Option.{Option, none, some, some-injective}
use native.Mathlib.Omega.{arith}
use customer_service.Prelude.Lists.{length, All, In}

abbrev pub Dict {ℓ} : Type ℓ → Type ℓ → Type ℓ
Dict K V = List (K × V)

module _ {ℓ} {K V : Type ℓ} (dec : Discrete K) where
  -- d.get(k)
  unfoldable pub get : K → Dict K V → Option V
  get k [] = none
  get k ((j, v) ∷ d) = ite (dec j k) (some v) (get k d)

  -- d[k] = v: an old key keeps its place, a new one goes to the end
  unfoldable pub put : K → V → Dict K V → Dict K V
  put k v [] = (k, v) ∷ []
  put k v ((j, w) ∷ d) = ite (dec j k) ((j, v) ∷ d) ((j, w) ∷ put k v d)

  -- d.pop(k, None)
  unfoldable pub pop : K → Dict K V → Dict K V
  pop k [] = []
  pop k ((j, v) ∷ d) = ite (dec j k) (pop k d) ((j, v) ∷ pop k d)

  pub get-put :
      (k j : K) (v : V) (d : Dict K V) → get j (put k v d) ≡ ite (dec k j) (some v) (get j d)
  unfolding get put
  get-put k j v [] = refl
  get-put k j v ((i, w) ∷ d) = ground (arith, get-put k j v d)

  pub get-put_self : (k : K) (v : V) (d : Dict K V) → get k (put k v d) ≡ some v
  get-put_self k v d = ground (arith, get-put k k v d)

  pub get-put_ne : (k j : K) (v : V) (d : Dict K V) → k ≢ j → get j (put k v d) ≡ get j d
  get-put_ne k j v d h = ground (arith, get-put k j v d)

  pub get-pop : (k j : K) (d : Dict K V) → get j (pop k d) ≡ ite (dec k j) none (get j d)
  unfolding get pop
  get-pop k j [] = ground arith
  get-pop k j ((i, w) ∷ d) = ground (arith, get-pop k j d)

  pub pop_absent : (k : K) (d : Dict K V) → get k d ≡ none → pop k d ≡ d
  unfolding get pop
  pop_absent k [] h = refl
  pop_absent k ((j, v) ∷ d) h = ground (arith, pop_absent k d)

  pub length-pop-le : (k : K) (d : Dict K V) → length (pop k d) ≤ length d
  unfolding pop
  length-pop-le k [] = omega arith
  length-pop-le k ((j, v) ∷ d) = ground (arith, length-pop-le k d)

  pub length-put-le : (k : K) (v : V) (d : Dict K V) → length (put k v d) ≤ length d + 1
  unfolding put
  length-put-le k v [] = omega arith
  length-put-le k v ((j, w) ∷ d) = ground (arith, length-put-le k v d)

  pub length-put_absent :
      (k : K) (v : V) (d : Dict K V) → get k d ≡ none → length (put k v d) ≡ length d + 1
  unfolding get put
  length-put_absent k v [] h = omega arith
  length-put_absent k v ((j, w) ∷ d) h = ground (arith, length-put_absent k v d)

  -- a write of a new key followed by its removal changes nothing
  pub pop-put_absent : (k : K) (v : V) (d : Dict K V) → get k d ≡ none → pop k (put k v d) ≡ d
  unfolding get put pop
  pop-put_absent k v [] h = ground arith
  pop-put_absent k v ((j, w) ∷ d) h = ground (arith, pop-put_absent k v d)

-- k in ks
unfoldable pub among {ℓ} : {K : Type ℓ} → Discrete K → K → List K → Bool
among dec k [] = false
among dec k (j ∷ js) = ite (dec j k) true (among dec k js)

module _ {ℓ} {K V : Type ℓ} (dec : Discrete K) where
  -- no key stands twice
  abbrev pub Distinct : Dict K V → Type ℓ
  Distinct [] = Unit
  Distinct ((k, v) ∷ d) = (get dec k d ≡ none) × Distinct d

  pub put-Distinct : (k : K) (v : V) (d : Dict K V) → Distinct d → Distinct (put dec k v d)
  unfolding put
  put-Distinct k v [] h = ((unfold get in refl), h)
  put-Distinct k v ((j, w) ∷ d) h = elim (dec j k) [
    | yes p ↦ rw (if_pos _ p) h
    | no p ↦ rw (if_neg _ p) (get-put_ne dec k j v d (λ q. p (sym q)) ∙ h.0, put-Distinct k v d h.1)
  ]

  pub pop-Distinct : (k : K) (d : Dict K V) → Distinct d → Distinct (pop dec k d)
  unfolding pop
  pop-Distinct k [] h = h
  pop-Distinct k ((j, w) ∷ d) h = elim (dec j k) [
    | yes p ↦ rw (if_pos _ p) (pop-Distinct k d h.1)
    | no p ↦ rw (if_neg _ p) (get-pop dec k j d ∙ ground arith, pop-Distinct k d h.1)
  ]

  -- the keys of a list of keys are removed one after the other
  unfoldable pub pop_all : List K → Dict K V → Dict K V
  pop_all [] d = d
  pop_all (k ∷ ks) d = pop_all ks (pop dec k d)

  pub pop_all-nil : (ks : List K) → pop_all ks [] ≡ []
  unfolding pop_all pop
  pop_all-nil [] = refl
  pop_all-nil (k ∷ ks) = pop_all-nil ks

  pub pop_all-cons :
      (ks : List K) (k : K) (v : V) (d : Dict K V)
      → pop_all ks ((k, v) ∷ d) ≡ (if among dec k ks then pop_all ks d else (k, v) ∷ pop_all ks d)
  unfolding pop_all pop among
  pop_all-cons [] k v d = refl
  pop_all-cons (j ∷ ks) k v d = elim (dec k j) [
    | yes p ↦ rw (if_pos _ p, if_pos _ (sym p))
    | no p ↦
        rw (if_neg _ p, if_neg _ (λ (q : j ≡ k). p (sym q))) (pop_all-cons ks k v (pop dec j d))
  ]

  pub get-pop_all :
      (ks : List K) (k : K) (d : Dict K V)
      → get dec k (pop_all ks d) ≡ (if among dec k ks then none else get dec k d)
  unfolding pop_all among
  get-pop_all [] k d = refl
  get-pop_all (j ∷ ks) k d = get-pop_all ks k (pop dec j d) ∙ ground (arith, get-pop dec j k d)

  pub get-pop_all-some :
      (ks : List K) (k : K) (d : Dict K V) (v : V)
      → get dec k (pop_all ks d) ≡ some v
      → (among dec k ks ≡ false) × (get dec k d ≡ some v)
  get-pop_all-some ks k d v h = ground (arith, get-pop_all ks k d)

  pub pop_all-Distinct : (ks : List K) (d : Dict K V) → Distinct d → Distinct (pop_all ks d)
  unfolding pop_all
  pop_all-Distinct [] d h = h
  pop_all-Distinct (k ∷ ks) d h = pop_all-Distinct ks (pop dec k d) (pop-Distinct k d h)

-- list(d.values())
abbrev pub values {ℓ} : {K V : Type ℓ} → Dict K V → List V
values [] = []
values ((k, v) ∷ d) = v ∷ values d

module _ {K V : Type 0} (dec : Discrete K) where
  pub In-get : (k : K) (d : Dict K V) (v : V) → get dec k d ≡ some v → In v (values d)
  unfolding get
  In-get k [] v h = absurd (ground (arith, h))
  In-get k ((j, w) ∷ d) v h = elim (dec j k) [
    | yes p ↦ inl (sym (some-injective _ _ (rw (if_pos _ p) at h)))
    | no p ↦ inr (In-get k d v (rw (if_neg _ p) at h))
  ]

  -- what holds of every value goes on holding behind a write
  pub All-put :
      (P : V → Type 0) (k : K) (v : V) (d : Dict K V)
      → P v
      → All P (values d)
      → All P (values (put dec k v d))
  unfolding put
  All-put P k v [] p h = (p, tt)
  All-put P k v ((j, w) ∷ d) p h = elim (dec j k) [
    | yes q ↦ rw (if_pos _ q) (p, h.1)
    | no q ↦ rw (if_neg _ q) (h.0, All-put P k v d p h.1)
  ]

module _ {K V : Type 0} (dec : Discrete K) (Q : K × V → Type 0) where
  -- what holds of every entry holds of one that is found, and goes on holding behind a write
  pub All-get : (k : K) (d : Dict K V) (v : V) → All Q d → get dec k d ≡ some v → Q (k, v)
  unfolding get
  All-get k [] v h e = absurd (ground (arith, e))
  All-get k ((j, w) ∷ d) v h e = elim (dec j k) [
    | yes p ↦
        subst Q (ap (λ x. (x, v)) p)
          (subst (λ x. Q (j, x)) (some-injective _ _ (rw (if_pos _ p) at e)) h.0)
    | no p ↦ All-get k d v h.1 (rw (if_neg _ p) at e)
  ]

  pub All-put_entry : (k : K) (v : V) (d : Dict K V) → Q (k, v) → All Q d → All Q (put dec k v d)
  unfolding put
  All-put_entry k v [] q h = (q, tt)
  All-put_entry k v ((j, w) ∷ d) q h = elim (dec j k) [
    | yes p ↦ rw (if_pos _ p) (subst (λ x. Q (x, v)) (sym p) q, h.1)
    | no p ↦ rw (if_neg _ p) (h.0, All-put_entry k v d q h.1)
  ]

-- a function on every value
unfoldable pub map_values {ℓ} : {K V : Type ℓ} → (V → V) → Dict K V → Dict K V
map_values f [] = []
map_values f ((k, v) ∷ d) = (k, f v) ∷ map_values f d

pub get-map_values {ℓ} :
    {K V : Type ℓ} (dec : Discrete K) (f : V → V) (k : K) (d : Dict K V)
    → get dec k (map_values f d) ≡ elim (get dec k d) [ none ↦ none | some v ↦ some (f v) ]
unfolding get map_values
get-map_values dec f k [] = refl
get-map_values dec f k ((j, v) ∷ d) = ground (arith, get-map_values dec f k d)

module _ {ℓ} {K V : Type ℓ} (dec : Discrete K) where
  -- d.update(es)
  unfoldable pub update : Dict K V → Dict K V → Dict K V
  unfolding put
  update [] d = d
  update ((k, v) ∷ es) d = update es (put dec k v d)

  pub get-middle :
      (d es : Dict K V) (k : K) (v : V) → Distinct dec (d ++ (k, v) ∷ es) → get dec k d ≡ none
  unfolding get
  get-middle [] es k v h = refl
  get-middle ((j, w) ∷ d) es k v h = elim (dec j k) [
    | yes p ↦ absurd (clash d (rw p at h.0))
    | no p ↦ rw (if_neg _ p) (get-middle d es k v h.1)
  ]
    where
      clash : (d : Dict K V) → get dec k (d ++ (k, v) ∷ es) ≡ none → ⊥
      clash [] e = ground (arith, e)
      clash ((i, x) ∷ d) e = elim (dec i k) [
        | yes p ↦ ground (arith, e, p)
        | no p ↦ clash d (rw (if_neg _ p) at e)
      ]

  pub put_last :
      (d : Dict K V) (k : K) (v : V) → get dec k d ≡ none → put dec k v d ≡ d ++ (k, v) ∷ []
  unfolding get put
  put_last [] k v h = refl
  put_last ((j, w) ∷ d) k v h = ground (arith, h, put_last d k v)

  update-append : (es d : Dict K V) → Distinct dec (d ++ es) → update es d ≡ d ++ es
  unfolding update
  update-append [] d h = sym (append-nil d)
  update-append ((k, v) ∷ es) d h =
      ap (update es) (put_last d k v (get-middle d es k v h))
      ∙ update-append es (d ++ (k, v) ∷ [])
          (subst (Distinct dec) (sym (append_assoc d ((k, v) ∷ []) es)) h)
      ∙ append_assoc d ((k, v) ∷ []) es

  -- an empty dictionary takes over another as it is
  pub update-nil : (es : Dict K V) → Distinct dec es → update es [] ≡ es
  update-nil es h = update-append es [] h
