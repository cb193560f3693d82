-- ===== src/Prelude/Sort.antt =====
-- Python's `sorted` with a strict order of the keys as a test: a stable sort by insertion.
use Prim.Native.Nat.{suc}
use mathlib.Core.Path.{◌≡◌, refl, ap, ◌∙◌}
use mathlib.Core.Logic.{inl, inr}
use mathlib.Core.Bool.{Bool, true, false}
use mathlib.Core.List.{List, [], ◌∷◌}
use customer_service.Prelude.Tests.{if◌then◌else◌, Bool-cases}
use customer_service.Prelude.Lists.{length, All, In}

module _ {A : Type 0} (less : A → A → Bool) where
  unfoldable pub insert : A → List A → List A
  insert x [] = x ∷ []
  insert x (y ∷ ys) = if less y x then y ∷ insert x ys else x ∷ y ∷ ys

  -- sorted(xs)
  unfoldable pub sort : List A → List A
  unfolding insert
  sort [] = []
  sort (x ∷ xs) = insert x (sort xs)

  -- nothing stands behind an entry that is above it
  abbrev pub IsSorted : List A → Type 0
  IsSorted [] = Unit
  IsSorted (x ∷ xs) = All (λ y. less y x ≡ false) xs × IsSorted xs

  length-insert : (x : A) (xs : List A) → length (insert x xs) ≡ suc (length xs)
  unfolding insert
  length-insert x [] = refl
  length-insert x (y ∷ ys) = elim (Bool-cases (less y x)) [
    | inl e ↦ rw e (ap suc (length-insert x ys))
    | inr e ↦ rw e
  ]

  pub length-sort : (xs : List A) → length (sort xs) ≡ length xs
  unfolding sort
  length-sort [] = refl
  length-sort (x ∷ xs) = length-insert x (sort xs) ∙ ap suc (length-sort xs)

  module _ (P : A → Type 0) where
    All-insert : (x : A) (xs : List A) → P x → All P xs → All P (insert x xs)
    unfolding insert
    All-insert x [] p h = (p, tt)
    All-insert x (y ∷ ys) p h = elim (Bool-cases (less y x)) [
      | inl e ↦ rw e (h.0, All-insert x ys p h.1)
      | inr e ↦ rw e (p, h)
    ]

    pub All-sort : (xs : List A) → All P xs → All P (sort xs)
    unfolding sort
    All-sort [] h = tt
    All-sort (x ∷ xs) h = All-insert x (sort xs) h.0 (All-sort xs h.1)

    All-insert_back : (x : A) (xs : List A) → All P (insert x xs) → P x × All P xs
    unfolding insert
    All-insert_back x [] h = h
    All-insert_back x (y ∷ ys) h = elim (Bool-cases (less y x)) [
      | inl e ↦ let (p, r) = All-insert_back x ys (rw e at h).1 in (p, ((rw e at h).0, r))
      | inr e ↦ rw e at h
    ]

    pub All-sort_back : (xs : List A) → All P (sort xs) → All P xs
    unfolding sort
    All-sort_back [] h = tt
    All-sort_back (x ∷ xs) h = let (p, r) = All-insert_back x (sort xs) h in (p, All-sort_back xs r)

  In-insert : (x z : A) (xs : List A) → In z (x ∷ xs) → In z (insert x xs)
  unfolding insert
  In-insert x z [] h = h
  In-insert x z (y ∷ ys) h = elim (Bool-cases (less y x)) [
    | inl e ↦ rw e (elim h [
      | inl p ↦ inr (In-insert x z ys (inl p))
      | inr r ↦ elim r [ inl p ↦ inl p | inr q ↦ inr (In-insert x z ys (inr q)) ]
    ])
    | inr e ↦ rw e h
  ]

  pub In-sort : (z : A) (xs : List A) → In z xs → In z (sort xs)
  unfolding sort
  In-sort z [] h = h
  In-sort z (x ∷ xs) h =
      In-insert x z (sort xs) (elim h [ inl p ↦ inl p | inr q ↦ inr (In-sort z xs q) ])

  -- the order is one by keys: asymmetric, and what is not above goes on being so
  module _ (asym : (x y : A) → less x y ≡ true → less y x ≡ false)
      (trans : (x y z : A) → less y x ≡ false → less z y ≡ false → less z x ≡ false) where
    below_all :
        (x y : A) (ys : List A)
        → less y x ≡ false
        → All (λ z. less z y ≡ false) ys
        → All (λ z. less z x ≡ false) ys
    below_all x y [] e h = tt
    below_all x y (z ∷ zs) e h = (trans x y z e h.0, below_all x y zs e h.1)

    IsSorted-insert : (x : A) (xs : List A) → IsSorted xs → IsSorted (insert x xs)
    unfolding insert
    IsSorted-insert x [] h = (tt, tt)
    IsSorted-insert x (y ∷ ys) h = elim (Bool-cases (less y x)) [
      | inl e ↦
          rw e (All-insert (λ z. less z y ≡ false) x ys (asym y x e) h.0, IsSorted-insert x ys h.1)
      | inr e ↦ rw e ((e, below_all x y ys e h.0), h)
    ]

    pub sort-IsSorted : (xs : List A) → IsSorted (sort xs)
    unfolding sort
    sort-IsSorted [] = tt
    sort-IsSorted (x ∷ xs) = IsSorted-insert x (sort xs) (sort-IsSorted xs)
