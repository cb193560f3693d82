-- ===== src/SessionCache/Saver/Shared.antt =====
-- Several workers behind one cache, app/session_cache.py.
use customer_service.Prelude.{◌≡◌, ◌≢◌, refl, sym, ap, ◌∙◌, Option, some, [], ◌∷◌, keep_if}
use mathlib.Core.Path.{subst}
use customer_service.Prelude.Text.{Text}
use customer_service.Prelude.Dict.{Dict, update-nil}
use customer_service.SessionCache.{SessionCache}
use customer_service.SessionCache.Payloads.{Atom, Typed, Payload, Checkpoints, Key4-discrete}
use customer_service.SessionCache.Codec.{Libraries, envelope, IsCarried, encode_checkpoint_blob}
use customer_service.SessionCache.RoundTrip.{IsTidy, decode_checkpoint_blob-encode_checkpoint_blob}
use customer_service.SessionCache.Saver.{
  Workspace, cache_key, of_thread, evict_thread, copy_payload, prune_thread, slice, fetched, opened,
  decoded, load, stored, persist, write, aresume,
}
use customer_service.SessionCache.Saver.Slices.{
  nothing, Payload-eq, copy_storage-nil, copy_writes-nil, slice-copy_payload, keep_if-keep_if,
  pruned, slice-prune_thread,
}

-- an operation of the base class on a conversation: what it returns, and what it leaves of the
-- conversation, come from the conversation's part of the dictionaries
abbrev pub IsLocal : {Result : Type 0} → Text → (Workspace → Result × Workspace) → Type 0
IsLocal t super =
    (w w' : Workspace)
    → slice t w ≡ slice t w'
    → ((super w).0 ≡ (super w').0) × (slice t (super w).1 ≡ slice t (super w').1)

module _ (shared : SessionCache) (py : Libraries)
    (loads_typed : Typed → Option (Dict Atom Atom)) where
  open shared use {Cache, find, set, delete, touch, find-set, find-delete}

  slice-load :
      (t : Text) (c : Cache) (w w' : Workspace)
      → slice t (load shared py loads_typed t c w).1 ≡ slice t (load shared py loads_typed t c w').1
  unfolding load
  slice-load t c w w' =
      slice-copy_payload t (fetched shared py loads_typed (cache_key t) c).0 w
      ∙ sym (slice-copy_payload t (fetched shared py loads_typed (cache_key t) c).0 w')

  persist-slice :
      (t : Text) (c : Cache) (w w' : Workspace)
      → slice t w ≡ slice t w'
      → (persist shared py loads_typed t c w).0 ≡ (persist shared py loads_typed t c w').0
  unfolding persist
  persist-slice t c w w' e =
      ap (λ p. stored shared py loads_typed p.storage (cache_key t) p c)
        (slice-prune_thread loads_typed t w
          ∙ ap (pruned loads_typed) e
          ∙ sym (slice-prune_thread loads_typed t w'))

  module _ {Result : Type 0} (super : Workspace → Result × Workspace) where
    -- A write returns the same and leaves the same in the cache on every worker, whatever that worker
    -- still held of this and of other conversations.
    pub write_everywhere :
        (t : Text) (c : Cache) (w w' : Workspace)
        → IsLocal t super
        → ((write shared py loads_typed super t c w).0
            ≡ (write shared py loads_typed super t c w').0)
          × ((write shared py loads_typed super t c w).1
              ≡ (write shared py loads_typed super t c w').1)
    unfolding write load
    write_everywhere t c w w' local =
        let (same_result, same_slice) =
          local (load shared py loads_typed t c w).1 (load shared py loads_typed t c w').1
            (slice-load t c w w') in
        (same_result, persist-slice t (load shared py loads_typed t c w).0 _ _ same_slice)

  -- a conversation's part, copied to a worker that has nothing, is there as it was
  slice-copy_nothing :
      (t : Text) (p : Payload)
      → IsTidy p
      → keep_if (λ e. of_thread t e.0.0) p.writes ≡ p.writes
      → keep_if (λ e. of_thread t e.0.0) p.blobs ≡ p.blobs
      → slice t (copy_payload t (some p) nothing) ≡ p
  unfolding slice copy_payload
  slice-copy_nothing t p tidy own_writes own_blobs =
      Payload-eq (copy_storage-nil t p.storage tidy.namespaces tidy.checkpoints)
        (ap (keep_if (λ e. of_thread t e.0.0)) (copy_writes-nil p.writes tidy.keys tidy.inner)
          ∙ own_writes)
        (ap (keep_if (λ e. of_thread t e.0.0)) (update-nil Key4-discrete p.blobs tidy.blob_keys)
          ∙ own_blobs)

  fetched-stored :
      (m : Dict Text Checkpoints) (key : Text) (p : Payload) (c : Cache)
      → m ≢ []
      → IsTidy p
      → IsCarried (envelope p)
      → (fetched shared py loads_typed key (stored shared py loads_typed m key p c)).0 ≡ some p
  unfolding encode_checkpoint_blob
  fetched-stored [] key p c full tidy fits = absurd (full refl)
  fetched-stored (x ∷ m) key p c full tidy fits =
      ap (λ o. (opened shared py loads_typed key (set key (encode_checkpoint_blob py p) c) o).0)
        (find-set key _ c)
      ∙ ap (λ o. (decoded shared py loads_typed key (set key (encode_checkpoint_blob py p) c) o).0)
          (decode_checkpoint_blob-encode_checkpoint_blob py p tidy fits)

  module _ (t : Text) (w : Workspace) where
    abbrev left : Payload
    left = pruned loads_typed (slice t w)

    -- What one worker puts back, another takes out as it was put, whatever it held before: of the
    -- conversation it has what the prune left, when there is a checkpoint.
    pub slice-load_persisted :
        (c : Cache) (v : Workspace)
        → left.storage ≢ []
        → IsTidy left
        → IsCarried (envelope left)
        → slice t (load shared py loads_typed t (persist shared py loads_typed t c w).0 v).1 ≡ left
    unfolding load persist slice
    slice-load_persisted c v full tidy fits =
        ap
          (λ x. slice t (
            copy_payload t
              (fetched shared py loads_typed (cache_key t)
                (stored shared py loads_typed x.storage (cache_key t) x c)).0
              (evict_thread t v)))
          (slice-prune_thread loads_typed t w)
        ∙ ap (λ o. slice t (copy_payload t o (evict_thread t v)))
            (fetched-stored left.storage (cache_key t) left c full tidy fits)
        ∙ slice-copy_payload t (some left) v
        ∙ slice-copy_nothing t left tidy
            (subst (λ (p : Payload). keep_if (λ e. of_thread t e.0.0) p.writes ≡ p.writes)
              (slice-prune_thread loads_typed t w) own_writes)
            (subst (λ (p : Payload). keep_if (λ e. of_thread t e.0.0) p.blobs ≡ p.blobs)
              (slice-prune_thread loads_typed t w) own_blobs)
      where
        own_writes :
            keep_if (λ e. of_thread t e.0.0) (slice t (prune_thread loads_typed t w)).writes
            ≡ (slice t (prune_thread loads_typed t w)).writes
        own_writes = keep_if-keep_if (λ e. of_thread t e.0.0) (prune_thread loads_typed t w).writes

        own_blobs :
            keep_if (λ e. of_thread t e.0.0) (slice t (prune_thread loads_typed t w)).blobs
            ≡ (slice t (prune_thread loads_typed t w)).blobs
        own_blobs = keep_if-keep_if (λ e. of_thread t e.0.0) (prune_thread loads_typed t w).blobs

  find-stored :
      (m : Dict Text Checkpoints) (key : Text) (p : Payload) (c c' : Cache)
      → find key (stored shared py loads_typed m key p c)
        ≡ find key (stored shared py loads_typed m key p c')
  find-stored [] key p c c' = find-delete key c ∙ sym (find-delete key c')
  find-stored (x ∷ m) key p c c' = find-set key _ c ∙ sym (find-set key _ c')

  -- Two asynchronous writes of a conversation that both had the cache's answer before either went on:
  -- what the cache holds of the conversation in the end is what the later one alone would have left,
  -- so the earlier one's write is lost.
  pub aresume-overwrites :
      {Result : Type 0} (first second : Workspace → Result × Workspace) (t : Text)
      (p : Option Payload) (c : Cache) (w : Workspace)
      → IsLocal t second
      → (let after = aresume shared py loads_typed first t p c w in
          find (cache_key t) (aresume shared py loads_typed second t p after.1 after.2).1
          ≡ find (cache_key t) (aresume shared py loads_typed second t p c w).1)
  unfolding aresume
  aresume-overwrites first second t p c w local =
      let after = aresume shared py loads_typed first t p c w in
      ap (λ x. find (cache_key t) x)
        (persist-slice t after.1 _ _
          (local (copy_payload t p (evict_thread t after.2)) (copy_payload t p (evict_thread t w))
            (slice-copy_payload t p after.2 ∙ sym (slice-copy_payload t p w))).1)
      ∙ (unfold persist in find-stored _ (cache_key t) _ after.1 c)
