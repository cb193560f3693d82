-- ===== src/SessionCache/Saver/Prune.antt =====
-- What `_prune_thread` of app/session_cache.py leaves of a conversation.
use customer_service.Prelude.{
  ◌≡◌, refl, sym, ap, ap₂, ◌∙◌, false, Option, none, some, [], ◌∷◌, if_pos, if_neg, keep_if, arith,
  Bool-cases, inl, inr, All,
}
use mathlib.Core.Option.{some-injective}
use customer_service.Prelude.Text.{Text, Text-discrete, same}
use customer_service.Prelude.Dict.{Dict, get, Distinct}
use customer_service.SessionCache.Payloads.{Atom, Typed, Saved, Checkpoints}
use customer_service.Prelude.Order.{before, before_trans, before_irrefl, before-asym}
use customer_service.SessionCache.Saver.{latest, keep_latest}

-- no id of a dictionary is behind this one
abbrev pub IsNewest : Text → Checkpoints → Type 0
IsNewest k cps = All (λ e. before k e.0 ≡ false) cps

latest-IsNewest :
    (m best : Text) (cps : Checkpoints)
    → latest best cps ≡ m
    → (before m best ≡ false) × IsNewest m cps
unfolding latest
latest-IsNewest m best [] e = (rw e (before_irrefl m), tt)
latest-IsNewest m best ((k, s) ∷ cps) e = elim (Bool-cases (before best k)) [
  | inl f ↦
      let (a, b) = latest-IsNewest m k cps (rw f at e) in
      (before_trans m k best a (before-asym best k f), (a, b))
  | inr f ↦
      let (a, b) = latest-IsNewest m best cps (rw f at e) in (a, (before_trans m best k a f, b))
]

get-head : (k : Text) (s : Saved) (cps : Checkpoints) → get Text-discrete k ((k, s) ∷ cps) ≡ some s
unfolding get
get-head k s cps = if_pos (Text-discrete k k) refl _ _

get-more :
    (k j : Text) (s x : Saved) (cps : Checkpoints)
    → get Text-discrete k cps ≡ some s
    → (y : Saved) × (get Text-discrete k ((j, x) ∷ cps) ≡ some y)
unfolding get
get-more k j s x cps h = elim (Text-discrete j k) [
  | yes p ↦ (x, if_pos (Text-discrete j k) p _ _)
  | no p ↦ (s, if_neg (Text-discrete j k) p _ _ ∙ h)
]

latest-found :
    (m best : Text) (b : Saved) (cps : Checkpoints)
    → latest best cps ≡ m
    → (s : Saved) × (get Text-discrete m ((best, b) ∷ cps) ≡ some s)
unfolding latest get
latest-found m best b [] e =
    (b, ap (λ x. get Text-discrete x ((best, b) ∷ [])) (sym e) ∙ get-head best b [])
latest-found m best b ((k, s) ∷ cps) e = elim (Bool-cases (before best k)) [
  | inl f ↦ let (x, h) = latest-found m k s cps (rw f at e) in get-more m best x b ((k, s) ∷ cps) h
  | inr f ↦
      let (x, h) = latest-found m best b cps (rw f at e) in
      elim (Text-discrete best m) [
        | yes p ↦ (b, if_pos (Text-discrete best m) p _ _)
        | no p ↦
            let (y, g) = get-more m k x s cps (sym (if_neg (Text-discrete best m) p _ _) ∙ h) in
            (y, if_neg (Text-discrete best m) p _ _ ∙ g)
      ]
]

none-same :
    (k : Text) (cps : Checkpoints)
    → get Text-discrete k cps ≡ none
    → keep_if (λ e. same e.0 k) cps ≡ []
unfolding get
none-same k [] h = refl
none-same k ((j, x) ∷ cps) h = ground (arith, h, none-same k cps)

keep_if-same :
    (k : Text) (s : Saved) (cps : Checkpoints)
    → Distinct Text-discrete cps
    → get Text-discrete k cps ≡ some s
    → keep_if (λ e. same e.0 k) cps ≡ (k, s) ∷ []
unfolding get
keep_if-same k s [] v h = absurd (ground (arith, h))
keep_if-same k s ((j, x) ∷ cps) v h = elim (Text-discrete j k) [
  | yes p ↦
      let gone : get Text-discrete k cps ≡ none = rw p at v.0 in
      let found : x ≡ s = some-injective _ _ (sym (if_pos (Text-discrete j k) p _ _) ∙ h) in
      rw (if_pos _ p) (ap₂ (λ a b. a ∷ b) (ap₂ (λ a b. (a, b)) p found) (none-same k cps gone))
  | no p ↦ rw (if_neg _ p) (keep_if-same k s cps v.1 (rw (if_neg _ p) at h))
]

module _ (loads_typed : Typed → Option (Dict Atom Atom)) where
  -- one checkpoint alone, of the namespace's, with no newer one among them
  abbrev pub IsLatestOf : Checkpoints → Checkpoints → Type 0
  IsLatestOf old cps =
      (k : Text) × (s : Saved) × (cps ≡ (k, s) ∷ [])
      × (get Text-discrete k old ≡ some s)
      × IsNewest k old

  -- namespace by namespace: one without checkpoints is gone, any other has its latest
  abbrev pub IsPruned : Dict Text Checkpoints → Dict Text Checkpoints → Type 0
  IsPruned [] kept = kept ≡ []
  IsPruned ((ns, []) ∷ d) kept = IsPruned d kept
  IsPruned ((ns, (e ∷ old)) ∷ d) kept =
      (cps : Checkpoints) × (rest : Dict Text Checkpoints) × (kept ≡ (ns, cps) ∷ rest)
      × IsLatestOf (e ∷ old) cps
      × IsPruned d rest

  -- A prune drops the namespaces without checkpoints and leaves of every other, in order, the one
  -- checkpoint whose id no other comes behind, with what was saved under it.
  pub keep_latest-IsPruned :
      (d : Dict Text Checkpoints)
      → All (λ e. Distinct Text-discrete e.1) d
      → IsPruned d (keep_latest loads_typed d).ns_map
  unfolding keep_latest
  keep_latest-IsPruned [] h = refl
  keep_latest-IsPruned ((ns, []) ∷ d) h = keep_latest-IsPruned d h.1
  keep_latest-IsPruned ((ns, ((k, s) ∷ old)) ∷ d) h =
      let (x, found) = latest-found (latest k old) k s old refl in
      let (a, b) = latest-IsNewest (latest k old) k old refl in
      (
        _,
        _,
        refl,
        (latest k old, x, keep_if-same (latest k old) x ((k, s) ∷ old) h.0 found, found, (a, b)),
        keep_latest-IsPruned d h.1,
      )
