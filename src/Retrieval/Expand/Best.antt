-- ===== src/Retrieval/Expand/Best.antt =====
-- Of all that is considered for a context, app/rag/vectorstore.py keeps the best of every document.
use customer_service.Prelude.{
  ◌≡◌, sym, ap, ◌∙◌, true, false, some, Option-cases, Bool-cases, inl, inr, arith, List, [], ◌∷◌,
  All, In, if_pos, if_neg,
}
use mathlib.Core.Option.{some-injective}
use customer_service.Prelude.Dict.{Dict, get, values, get-put, get-put_self, In-get, All-put}
use customer_service.Prelude.Sort.{sort, IsSorted, sort-IsSorted, In-sort, All-sort}
use customer_service.Retrieval.{Key, Key-discrete, document_key}
use customer_service.Retrieval.Expand.{
  RagContextItem, precedes, better_item, consider, consider_all,
}

abbrev pub key_of : RagContextItem → Key
key_of item = document_key item.document

precedes_irrefl : (a : RagContextItem) → precedes a a ≡ false
unfolding precedes
precedes_irrefl a = ground arith

pub precedes-asym : (a b : RagContextItem) → precedes a b ≡ true → precedes b a ≡ false
unfolding precedes
precedes-asym a b h = ground (arith, h)

pub precedes_trans :
    (a b c : RagContextItem) → precedes b a ≡ false → precedes c b ≡ false → precedes c a ≡ false
unfolding precedes
precedes_trans a b c h k = ground (arith, h, k)

-- what is kept under a key has that key
abbrev IsKeyed : Dict Key RagContextItem → Type 0
IsKeyed d = (k : Key) (e : RagContextItem) → get Key-discrete k d ≡ some e → key_of e ≡ k

consider-IsKeyed :
    (x : RagContextItem) (d : Dict Key RagContextItem) → IsKeyed d → IsKeyed (consider x d)
unfolding consider
consider-IsKeyed x d h = elim (Bool-cases (better_item (get Key-discrete (key_of x) d) x)) [
  | inr p ↦ rw p h
  | inl p ↦ rw p (λ k e found. elim (Key-discrete (key_of x) k) [
    | yes same ↦
        ap key_of (
          sym (
            some-injective _ _ (
              sym (
                get-put Key-discrete (key_of x) k x d ∙ if_pos (Key-discrete (key_of x) k) same _ _)
              ∙ found)))
        ∙ same
    | no other ↦ h k e (
        sym (get-put Key-discrete (key_of x) k x d ∙ if_neg (Key-discrete (key_of x) k) other _ _)
        ∙ found)
  ])
]

-- an item that is kept for the same document, and is not behind this one
abbrev HasBest : RagContextItem → Dict Key RagContextItem → Type 0
HasBest c d =
    (e : RagContextItem) × (get Key-discrete (key_of c) d ≡ some e) × (precedes c e ≡ false)

best_of_new : (c : RagContextItem) (d : Dict Key RagContextItem) → HasBest c (consider c d)
unfolding consider better_item
best_of_new c d = elim (Option-cases (get Key-discrete (key_of c) d)) [
  | inl e ↦ rw e (c, get-put_self Key-discrete (key_of c) c d, precedes_irrefl c)
  | inr (old, e) ↦ elim (Bool-cases (precedes c old)) [
    | inl p ↦ rw (e, p) (c, get-put_self Key-discrete (key_of c) c d, precedes_irrefl c)
    | inr p ↦ rw (e, p) (old, e, p)
  ]
]

best_of_old :
    (c x : RagContextItem) (d : Dict Key RagContextItem) → HasBest c d → HasBest c (consider x d)
unfolding consider better_item
best_of_old c x d (b, found, good) =
    elim (Bool-cases (better_item (get Key-discrete (key_of x) d) x)) [
      | inr p ↦ rw p (b, found, good)
      | inl p ↦ rw p (elim (Key-discrete (key_of x) (key_of c)) [
        | yes same ↦ (
          x,
          get-put Key-discrete (key_of x) (key_of c) x d
              ∙ if_pos (Key-discrete (key_of x) (key_of c)) same _ _,
          precedes_trans x b c
              (precedes-asym x b
                (sym (ap (λ o. better_item o x) (ap (λ k. get Key-discrete k d) same ∙ found)) ∙ p))
              good,
        )
        | no other ↦ (
          b,
          get-put Key-discrete (key_of x) (key_of c) x d
              ∙ if_neg (Key-discrete (key_of x) (key_of c)) other _ _
              ∙ found,
          good,
        )
      ])
    ]

keeps_best :
    (cs : List RagContextItem) (c : RagContextItem) (d : Dict Key RagContextItem)
    → HasBest c d
    → HasBest c (consider_all cs d)
unfolding consider_all
keeps_best [] c d h = h
keeps_best (x ∷ cs) c d h = keeps_best cs c (consider x d) (best_of_old c x d h)

consider_all-IsKeyed :
    (cs : List RagContextItem) (d : Dict Key RagContextItem)
    → IsKeyed d
    → IsKeyed (consider_all cs d)
unfolding consider_all
consider_all-IsKeyed [] d h = h
consider_all-IsKeyed (x ∷ cs) d h = consider_all-IsKeyed cs (consider x d) (consider-IsKeyed x d h)

all_have_best :
    (cs : List RagContextItem) (c : RagContextItem) (d : Dict Key RagContextItem)
    → In c cs
    → HasBest c (consider_all cs d)
unfolding consider_all
all_have_best [] c d h = absurd h
all_have_best (x ∷ cs) c d (inl p) = rw p (keeps_best cs x (consider x d) (best_of_new x d))
all_have_best (x ∷ cs) c d (inr h) = all_have_best cs c (consider x d) h

-- what holds of all that is considered holds of all that is kept
consider_all-All :
    (P : RagContextItem → Type 0) (cs : List RagContextItem) (d : Dict Key RagContextItem)
    → All P cs
    → All P (values d)
    → All P (values (consider_all cs d))
unfolding consider_all consider
consider_all-All P [] d h k = k
consider_all-All P (x ∷ cs) d h k =
    consider_all-All P cs (consider x d) h.1
      (elim (Bool-cases (better_item (get Key-discrete (key_of x) d) x)) [
        | inl p ↦ rw p (All-put Key-discrete P (key_of x) x d h.0 k)
        | inr p ↦ rw p k
      ])

module _ (cs : List RagContextItem) where
  abbrev pub chosen : List RagContextItem
  chosen = sort precedes (values (consider_all cs []))

  pub chosen-IsSorted : IsSorted precedes chosen
  chosen-IsSorted =
      sort-IsSorted precedes precedes-asym precedes_trans (values (consider_all cs []))

  pub chosen-All : (P : RagContextItem → Type 0) → All P cs → All P chosen
  chosen-All P h = All-sort precedes P (values (consider_all cs [])) (consider_all-All P cs [] h tt)

  -- every candidate's document is there, with an item that is not behind the candidate
  pub chosen-covers :
      (c : RagContextItem)
      → In c cs
      → (e : RagContextItem) × In e chosen × (key_of e ≡ key_of c) × (precedes c e ≡ false)
  chosen-covers c h =
      let (e, found, good) = all_have_best cs c [] h in
      (
        e,
        In-sort precedes e (values (consider_all cs []))
            (In-get Key-discrete (key_of c) (consider_all cs []) e found),
        consider_all-IsKeyed cs [] (λ k x p. absurd (unfold get in ground (arith, p))) (key_of c) e
            found,
        good,
      )
