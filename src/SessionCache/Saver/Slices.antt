-- ===== src/SessionCache/Saver/Slices.antt =====
-- One conversation's part of a worker's dictionaries, app/session_cache.py, behind each operation on
-- them.
use customer_service.Prelude.{
  ◌≡◌, refl, sym, ap, ap₂, ◌∙◌, Bool, true, not, ◌||◌, Option, none, some, List, [], ◌∷◌, ◌++◌, All,
  if◌then◌else◌, if_pos, keep_if, arith, Bool-cases, inl, inr,
}
use mathlib.Core.Path.{subst}
use mathlib.Core.List.{append_assoc}
use customer_service.Prelude.Text.{Text, Text-discrete}
use customer_service.Prelude.Dict.{
  Dict, get, put, pop, update, get-put_self, get-pop, put_last, get-middle, update-nil, Distinct,
}
use customer_service.SessionCache.Payloads.{
  Atom, Typed, Key3, Key3-discrete, Key4-discrete, Tuple-discrete, Checkpoints, Writes, Payload,
}
use customer_service.SessionCache.Saver.{
  Workspace, of_thread, evict_thread, or_new, copy_storage, copy_writes, copy_payload, keep_latest,
  is_kept_cp, is_kept_blob, prune_namespaces, prune_thread, slice,
}

module _ {A : Type 0} (p : A → Bool) where
  keep_if-not : (d : List A) → keep_if p (keep_if (λ x. not (p x)) d) ≡ []
  keep_if-not [] = refl
  keep_if-not (x ∷ d) = elim (Bool-cases (p x)) [
    | inl e ↦ rw e (keep_if-not d)
    | inr e ↦ rw (e, e) (keep_if-not d)
  ]

  pub keep_if-keep_if : (d : List A) → keep_if p (keep_if p d) ≡ keep_if p d
  keep_if-keep_if [] = refl
  keep_if-keep_if (x ∷ d) = elim (Bool-cases (p x)) [
    | inl e ↦ rw (e, e) (ap (◌∷◌ x) (keep_if-keep_if d))
    | inr e ↦ rw e (keep_if-keep_if d)
  ]

  keep_if-either :
      (r : A → Bool) (d : List A)
      → keep_if p (keep_if (λ x. not (p x) || r x) d) ≡ keep_if r (keep_if p d)
  keep_if-either r [] = refl
  keep_if-either r (x ∷ d) = elim (Bool-cases (p x)) [
    | inl e ↦ elim (Bool-cases (r x)) [
      | inl f ↦ rw (e, f, e) (ap (◌∷◌ x) (keep_if-either r d))
      | inr f ↦ rw (e, f) (keep_if-either r d)
    ]
    | inr e ↦ rw (e, e) (keep_if-either r d)
  ]

module _ {K V : Type 0} (dec : Discrete K) (q : K → Bool) where
  abbrev of_keys : Dict K V → Dict K V
  of_keys d = keep_if (λ e. q e.0) d

  get-of_keys : (k : K) (d : Dict K V) → q k ≡ true → get dec k (of_keys d) ≡ get dec k d
  unfolding get
  get-of_keys k [] h = refl
  get-of_keys k ((j, v) ∷ d) h = ground (arith, h, get-of_keys k d h)

  of_keys-put :
      (k : K) (v : V) (d : Dict K V)
      → of_keys (put dec k v d) ≡ (if q k then put dec k v (of_keys d) else of_keys d)
  unfolding put
  of_keys-put k v [] = refl
  of_keys-put k v ((j, w) ∷ d) = ground (arith, of_keys-put k v d)

  -- an entry written under a key, which the entry there before decides
  of_keys-changed :
      (k : K) (f : Option V → V) (d d' : Dict K V)
      → of_keys d ≡ of_keys d'
      → of_keys (put dec k (f (get dec k d)) d) ≡ of_keys (put dec k (f (get dec k d')) d')
  of_keys-changed k f d d' e = elim (Bool-cases (q k)) [
    | inl h ↦
        let old : get dec k d ≡ get dec k d' =
          sym (get-of_keys k d h) ∙ ap (get dec k) e ∙ get-of_keys k d' h in
        of_keys-put k _ d
        ∙ ap (λ b. if b then put dec k (f (get dec k d)) (of_keys d) else of_keys d) h
        ∙ ap₂ (λ v x. put dec k (f v) x) old e
        ∙ ap (λ b. if b then put dec k (f (get dec k d')) (of_keys d') else of_keys d') (sym h)
        ∙ sym (of_keys-put k _ d')
    | inr h ↦
        of_keys-put k _ d
        ∙ ap (λ b. if b then put dec k (f (get dec k d)) (of_keys d) else of_keys d) h
        ∙ e
        ∙ ap (λ b. if b then put dec k (f (get dec k d')) (of_keys d') else of_keys d') (sym h)
        ∙ sym (of_keys-put k _ d')
  ]

  of_keys-update :
      (es d d' : Dict K V)
      → of_keys d ≡ of_keys d'
      → of_keys (update dec es d) ≡ of_keys (update dec es d')
  unfolding update
  of_keys-update [] d d' e = e
  of_keys-update ((k, v) ∷ es) d d' e =
      of_keys-update es (put dec k v d) (put dec k v d') (of_keys-changed k (λ _. v) d d' e)

of_keys-copy_writes :
    (q : Key3 → Bool) (ps d d' : Dict Key3 Writes)
    → of_keys Key3-discrete q d ≡ of_keys Key3-discrete q d'
    → of_keys Key3-discrete q (copy_writes ps d) ≡ of_keys Key3-discrete q (copy_writes ps d')
unfolding copy_writes
of_keys-copy_writes q [] d d' e = e
of_keys-copy_writes q ((k, inner) ∷ ps) d d' e =
    of_keys-copy_writes q ps _ _
      (of_keys-changed Key3-discrete q k (λ old. update Tuple-discrete inner (or_new old)) d d' e)

get-copy_storage :
    (t : Text) (ps : Dict Text Checkpoints) (s s' : Dict Text (Dict Text Checkpoints))
    → get Text-discrete t s ≡ get Text-discrete t s'
    → get Text-discrete t (copy_storage t ps s) ≡ get Text-discrete t (copy_storage t ps s')
unfolding copy_storage
get-copy_storage t [] s s' e = e
get-copy_storage t ((ns, cps) ∷ ps) s s' e = get-copy_storage t ps _ _ (
    get-put_self Text-discrete t _ s
    ∙ ap
        (λ o. some (
          put Text-discrete ns (update Text-discrete cps (or_new (get Text-discrete ns (or_new o))))
            (or_new o)))
        e
    ∙ sym (get-put_self Text-discrete t _ s'))

pub Payload-eq :
    {p p' : Payload} → p.storage ≡ p'.storage → p.writes ≡ p'.writes → p.blobs ≡ p'.blobs → p ≡ p'
Payload-eq a b c i = record { storage = a i; writes = b i; blobs = c i }

-- onto nothing, the three are copied as they are
copy_storage-append :
    (t : Text) (ps m : Dict Text Checkpoints) (s : Dict Text (Dict Text Checkpoints))
    → Distinct Text-discrete (m ++ ps)
    → All (λ e. Distinct Text-discrete e.1) ps
    → or_new (get Text-discrete t s) ≡ m
    → or_new (get Text-discrete t (copy_storage t ps s)) ≡ update Text-discrete ps m
unfolding copy_storage update
copy_storage-append t [] m s v h e = e
copy_storage-append t ((ns, cps) ∷ ps) m s v h e =
    copy_storage-append t ps (put Text-discrete ns cps m) _
      (subst (Distinct Text-discrete)
        (sym
          (ap (◌++ ps) (put_last Text-discrete m ns cps new) ∙ append_assoc m ((ns, cps) ∷ []) ps))
        v)
      h.1
      (ap or_new (get-put_self Text-discrete t _ s)
        ∙ ap
            (λ x.
              put Text-discrete ns (update Text-discrete cps (or_new (get Text-discrete ns x))) x)
            e
        ∙ ap (λ o. put Text-discrete ns (update Text-discrete cps (or_new o)) m) new
        ∙ ap (λ x. put Text-discrete ns x m) (update-nil Text-discrete cps h.0))
  where
    new : get Text-discrete ns m ≡ none
    new = get-middle Text-discrete m ps ns cps v

pub copy_storage-nil :
    (t : Text) (ps : Dict Text Checkpoints)
    → Distinct Text-discrete ps
    → All (λ e. Distinct Text-discrete e.1) ps
    → or_new (get Text-discrete t (copy_storage t ps [])) ≡ ps
copy_storage-nil t ps v h =
    copy_storage-append t ps [] [] v h (unfold get in refl) ∙ update-nil Text-discrete ps v

copy_writes-append :
    (ps m : Dict Key3 Writes)
    → Distinct Key3-discrete (m ++ ps)
    → All (λ e. Distinct Tuple-discrete e.1) ps
    → copy_writes ps m ≡ update Key3-discrete ps m
unfolding copy_writes update
copy_writes-append [] m v h = refl
copy_writes-append ((k, ws) ∷ ps) m v h =
    ap (λ o. copy_writes ps (put Key3-discrete k (update Tuple-discrete ws (or_new o)) m)) new
    ∙ ap (λ x. copy_writes ps (put Key3-discrete k x m)) (update-nil Tuple-discrete ws h.0)
    ∙ copy_writes-append ps (put Key3-discrete k ws m)
        (subst (Distinct Key3-discrete)
          (sym (ap (◌++ ps) (put_last Key3-discrete m k ws new) ∙ append_assoc m ((k, ws) ∷ []) ps))
          v)
        h.1
  where
    new : get Key3-discrete k m ≡ none
    new = get-middle Key3-discrete m ps k ws v

pub copy_writes-nil :
    (ps : Dict Key3 Writes)
    → Distinct Key3-discrete ps
    → All (λ e. Distinct Tuple-discrete e.1) ps
    → copy_writes ps [] ≡ ps
copy_writes-nil ps v h = copy_writes-append ps [] v h ∙ update-nil Key3-discrete ps v

-- a worker that has nothing
abbrev pub nothing : Workspace
nothing = record { storage = []; writes = []; blobs = [] }

-- whatever a worker held of a conversation, behind a load it holds the same
pub slice-copy_payload :
    (t : Text) (p : Option Payload) (w : Workspace)
    → slice t (copy_payload t p (evict_thread t w)) ≡ slice t (copy_payload t p nothing)
unfolding slice copy_payload evict_thread get
slice-copy_payload t none w =
    Payload-eq (ap or_new gone) (keep_if-not (λ e. of_thread t e.0.0) w.writes)
      (keep_if-not (λ e. of_thread t e.0.0) w.blobs)
  where
    gone : get Text-discrete t (pop Text-discrete t w.storage) ≡ none
    gone = get-pop Text-discrete t t w.storage ∙ if_pos (Text-discrete t t) refl _ _
slice-copy_payload t (some p) w =
    Payload-eq (ap or_new (get-copy_storage t p.storage _ _ gone))
      (of_keys-copy_writes (λ k. of_thread t k.0) p.writes _ _
        (keep_if-not (λ e. of_thread t e.0.0) w.writes))
      (of_keys-update Key4-discrete (λ k. of_thread t k.0) p.blobs _ _
        (keep_if-not (λ e. of_thread t e.0.0) w.blobs))
  where
    gone : get Text-discrete t (pop Text-discrete t w.storage) ≡ none
    gone = get-pop Text-discrete t t w.storage ∙ if_pos (Text-discrete t t) refl _ _

module _ (loads_typed : Typed → Option (Dict Atom Atom)) where
  -- what a prune makes of a conversation's part
  unfoldable pub pruned_with : Dict Text Checkpoints → Payload → Payload
  pruned_with [] p = p
  pruned_with (e ∷ ns_map) p =
      let kept = keep_latest loads_typed (e ∷ ns_map) in
      record {
        storage = kept.ns_map;
        writes = keep_if (λ x. is_kept_cp loads_typed kept x.0) p.writes;
        blobs = keep_if (λ x. is_kept_blob loads_typed kept x.0) p.blobs;
      }

  unfoldable pub pruned : Payload → Payload
  unfolding pruned_with
  pruned p = pruned_with p.storage p

  slice-prune_namespaces :
      (t : Text) (m : Dict Text Checkpoints) (w : Workspace)
      → slice t (prune_namespaces loads_typed t m w) ≡ pruned_with m (slice t w)
  unfolding slice prune_namespaces pruned_with
  slice-prune_namespaces t [] w = refl
  slice-prune_namespaces t (x ∷ m) w =
      Payload-eq (ap or_new (get-put_self Text-discrete t _ w.storage))
        (keep_if-either (λ x. of_thread t x.0.0) _ w.writes)
        (keep_if-either (λ x. of_thread t x.0.0) _ w.blobs)

  pub slice-prune_thread :
      (t : Text) (w : Workspace) → slice t (prune_thread loads_typed t w) ≡ pruned (slice t w)
  unfolding prune_thread pruned
  slice-prune_thread t w =
      slice-prune_namespaces t (or_new (get Text-discrete t w.storage)) w ∙ (unfold slice in refl)
