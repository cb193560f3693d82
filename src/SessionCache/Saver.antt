-- ===== src/SessionCache/Saver.antt =====
-- `CachedInMemorySaver` of app/session_cache.py: a checkpointer that takes a conversation out of the
-- shared cache before each operation of langgraph's `InMemorySaver`, and puts it back behind it. That
-- class and its serializer are parameters; the sync and the async methods have the same statements.
pub mod Slices
pub mod Shared
pub mod Prune
use customer_service.Prelude.{
  ℕ, ◌≡◌, Bool, true, false, not, ◌&&◌, ◌||◌, Option, none, some, List, [], ◌∷◌, ◌++◌,
  if◌then◌else◌, ite, keep_if, ltb, ◌==◌, map, any,
}
use customer_service.Prelude.Order.{before}
use customer_service.Prelude.Text.{Text, codes, Text-discrete, same, has_text}
use customer_service.Prelude.Dict.{Dict, get, put, pop, update, among}
use customer_service.SessionCache.{SessionCache}
use customer_service.SessionCache.Payloads.{
  Atom, text, Atom-discrete, Typed, Saved, Key3, Key4, Key3-discrete, Key4-discrete, Tuple-discrete,
  Checkpoints, Writes, Payload,
}
use customer_service.SessionCache.Codec.{Libraries, encode_checkpoint_blob, decode_checkpoint_blob}

-- the dictionaries of one worker
pub record Workspace : Type 0 where
  pub storage : Dict Text (Dict Text Checkpoints)
  pub writes : Dict Key3 Writes
  pub blobs : Dict Key4 Typed

-- `_cache_key`
unfoldable pub cache_key : Text → Text
cache_key thread_id = codes "cs:session:{" ++ (thread_id ++ codes "}")

-- whether the first part of a key is the conversation
unfoldable pub of_thread : Text → Atom → Bool
unfolding Atom-discrete
of_thread thread_id a = ite (Atom-discrete a (text thread_id)) true false

-- `_evict_thread`
unfoldable pub evict_thread : Text → Workspace → Workspace
unfolding of_thread
evict_thread thread_id w = record {
  storage = pop Text-discrete thread_id w.storage;
  writes = keep_if (λ e. not (of_thread thread_id e.0.0)) w.writes;
  blobs = keep_if (λ e. not (of_thread thread_id e.0.0)) w.blobs;
}

-- `d[k]` of a `defaultdict(dict)`
abbrev pub or_new {ℓ} : {A : Type ℓ} → Option (List A) → List A
or_new none = []
or_new (some d) = d

-- the three statements of `_load` that copy a payload
unfoldable pub copy_storage :
    Text
    → Dict Text Checkpoints
    → Dict Text (Dict Text Checkpoints)
    → Dict Text (Dict Text Checkpoints)
copy_storage thread_id [] storage = storage
copy_storage thread_id ((ns, checkpoints) ∷ more) storage =
    let of_ns = or_new (get Text-discrete thread_id storage) in
    copy_storage thread_id more (
      put Text-discrete thread_id
        (put Text-discrete ns
          (update Text-discrete checkpoints (or_new (get Text-discrete ns of_ns))) of_ns)
        storage)

unfoldable pub copy_writes : Dict Key3 Writes → Dict Key3 Writes → Dict Key3 Writes
copy_writes [] writes = writes
copy_writes ((key, inner) ∷ more) writes = copy_writes more (
    put Key3-discrete key (update Tuple-discrete inner (or_new (get Key3-discrete key writes)))
      writes)

unfoldable pub copy_payload : Text → Option Payload → Workspace → Workspace
unfolding copy_storage copy_writes
copy_payload thread_id none w = w
copy_payload thread_id (some p) w = record {
  storage = copy_storage thread_id p.storage w.storage;
  writes = copy_writes p.writes w.writes;
  blobs = update Key4-discrete p.blobs w.blobs;
}

-- `max` of the ids, by the order of Python's texts
unfoldable pub latest : Text → Checkpoints → Text
unfolding before
latest best [] = best
latest best ((checkpoint_id, saved) ∷ more) =
    latest (if before best checkpoint_id then checkpoint_id else best) more

-- what `_prune_thread` finds in the namespaces: what it leaves of them, and what it keeps
pub record Kept : Type 0 where
  pub ns_map : Dict Text Checkpoints
  pub cps : List (Text × Text)
  pub blobs : List (Text × Atom × Atom)

-- one worker's view: the cache and its conversion, the serializer, which gives the `channel_versions`
-- of a checkpoint or fails, and what is kept
module _ (loads_typed : Typed → Option (Dict Atom Atom)) where
  -- the channels that the latest checkpoint refers to
  abbrev pub versions_of : Text → Option Saved → List (Text × Atom × Atom)
  versions_of ns none = []
  versions_of ns (some saved) = elim (loads_typed saved.dumped) [
    | none ↦ []
    | some versions ↦ map (λ v. (ns, v.0, v.1)) versions
  ]

  unfoldable pub keep_latest : Dict Text Checkpoints → Kept
  unfolding latest
  keep_latest [] = record { ns_map = []; cps = []; blobs = [] }
  keep_latest ((ns, []) ∷ more) = keep_latest more
  keep_latest ((ns, ((checkpoint_id, saved) ∷ checkpoints)) ∷ more) =
      let rest = keep_latest more in
      let latest_id = latest checkpoint_id checkpoints in
      let of_latest = keep_if (λ e. same e.0 latest_id) ((checkpoint_id, saved) ∷ checkpoints) in
      record {
        ns_map = (ns, of_latest) ∷ rest.ns_map;
        cps = (ns, latest_id) ∷ rest.cps;
        blobs = versions_of ns (get Text-discrete latest_id of_latest) ++ rest.blobs;
      }

  -- `(ns, checkpoint_id) in keep_cps` and `key in keep_blobs`
  abbrev pub is_kept_cp : Kept → Key3 → Bool
  is_kept_cp kept (_, ns, checkpoint_id) =
      any
        (λ c.
          ite (Atom-discrete ns (text c.0)) true false
          && ite (Atom-discrete checkpoint_id (text c.1)) true false)
        kept.cps

  abbrev pub is_kept_blob : Kept → Key4 → Bool
  is_kept_blob kept (_, ns, channel, version) =
      any
        (λ c.
          ite (Atom-discrete ns (text c.0)) true false
          && (ite (Atom-discrete channel c.1) true false
              && ite (Atom-discrete version c.2) true false))
        kept.blobs

  -- `_prune_thread`, from the namespaces on
  unfoldable pub prune_namespaces : Text → Dict Text Checkpoints → Workspace → Workspace
  unfolding keep_latest of_thread
  prune_namespaces thread_id [] w = w
  prune_namespaces thread_id (e ∷ ns_map) w =
      let kept = keep_latest (e ∷ ns_map) in
      record {
        storage = put Text-discrete thread_id kept.ns_map w.storage;
        writes = keep_if (λ x. not (of_thread thread_id x.0.0) || is_kept_cp kept x.0) w.writes;
        blobs = keep_if (λ x. not (of_thread thread_id x.0.0) || is_kept_blob kept x.0) w.blobs;
      }

  unfoldable pub prune_thread : Text → Workspace → Workspace
  unfolding prune_namespaces
  prune_thread thread_id w =
      prune_namespaces thread_id (or_new (get Text-discrete thread_id w.storage)) w

-- the conversation's part of the dictionaries, as `_persist` takes it
unfoldable pub slice : Text → Workspace → Payload
unfolding of_thread
slice thread_id w = record {
  storage = or_new (get Text-discrete thread_id w.storage);
  writes = keep_if (λ e. of_thread thread_id e.0.0) w.writes;
  blobs = keep_if (λ e. of_thread thread_id e.0.0) w.blobs;
}

module _ (shared : SessionCache) (py : Libraries)
    (loads_typed : Typed → Option (Dict Atom Atom)) where
  open shared use {Cache, find, set, delete, touch}

  -- what `_load` finds, and what it makes of the cache: what is there, and what is read of it
  abbrev pub decoded : Text → Cache → Option Payload → Option Payload × Cache
  decoded key c none = (none, delete key c)
  decoded key c (some p) = (some p, touch key c)

  abbrev pub opened : Text → Cache → Option Text → Option Payload × Cache
  opened key c none = (none, c)
  opened key c (some []) = (none, c)
  opened key c (some (b ∷ raw)) = decoded key c (decode_checkpoint_blob py (b ∷ raw))

  abbrev pub fetched : Text → Cache → Option Payload × Cache
  fetched key c = opened key c (find key c)

  -- `_load`
  unfoldable pub load : Text → Cache → Workspace → Cache × Workspace
  unfolding cache_key evict_thread copy_payload
  load thread_id c w =
      let (payload, c') = fetched (cache_key thread_id) c in
      (c', copy_payload thread_id payload (evict_thread thread_id w))

  -- `_persist`
  abbrev pub stored : Dict Text Checkpoints → Text → Payload → Cache → Cache
  stored [] key p c = delete key c
  stored (e ∷ ns_map) key p c = set key (encode_checkpoint_blob py p) c

  unfoldable pub persist : Text → Cache → Workspace → Cache × Workspace
  unfolding cache_key prune_thread slice
  persist thread_id c w =
      let w' = prune_thread loads_typed thread_id w in
      let p = slice thread_id w' in (stored p.storage (cache_key thread_id) p c, w')

  module _ {Result : Type 0} (super : Workspace → Result × Workspace) where
    -- `get_tuple`, `get_delta_channel_history` and `list`: a load, and the base class
    unfoldable pub read : Text → Cache → Workspace → Result × Cache × Workspace
    unfolding load
    read thread_id c w =
        let (c', loaded) = load thread_id c w in let (result, w') = super loaded in (result, c', w')

    -- `put` and `put_writes`
    unfoldable pub write : Text → Cache → Workspace → Result × Cache × Workspace
    unfolding load persist evict_thread
    write thread_id c w =
        let (c', loaded) = load thread_id c w in
        let (result, changed) = super loaded in
        let (after, kept) = persist thread_id c' changed in
        (result, after, evict_thread thread_id kept)

    -- `aput` and `aput_writes` from where the cache has answered: another of them may have run since
    unfoldable pub aresume : Text → Option Payload → Cache → Workspace → Result × Cache × Workspace
    unfolding copy_payload persist evict_thread
    aresume thread_id payload c w =
        let (result, changed) = super (copy_payload thread_id payload (evict_thread thread_id w)) in
        let (after, kept) = persist thread_id c changed in
        (result, after, evict_thread thread_id kept)

    -- `delete_thread`
    unfoldable pub delete_thread : Text → Cache → Workspace → Cache × Workspace
    unfolding cache_key
    delete_thread thread_id c w = (delete (cache_key thread_id) c, (super w).1)
