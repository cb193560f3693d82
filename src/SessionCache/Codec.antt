-- ===== src/SessionCache/Codec.antt =====
-- `encode_checkpoint_blob`, `decode_checkpoint_blob` and their helpers, app/session_cache.py.
use customer_service.Prelude.{
  zero, ◌≡◌, ◌<◌, Bool, true, false, Option, none, some, List, [], ◌∷◌, ◌++◌, map, length, drop,
  if◌then◌else◌, ite,
}
use customer_service.Prelude.Text.{Text, codes, Text-discrete, starts_with}
use customer_service.Prelude.Dict.{Dict, put}
use customer_service.SessionCache.Payloads.{
  Atom, null, integer, minus, text, bytes, Value, atom, array, object, Items, nil, cons, Fields,
  end, field, Typed, Saved, Write, Key3, Key4, Key3-discrete, Key4-discrete, Tuple-discrete,
  Checkpoints, Writes, Payload,
}

infixl 5 ◌>>=◌
abbrev pub ◌>>=◌ : {A B : Type 0} → Option A → (A → Option B) → Option B
none >>= f = none
some a >>= f = f a

-- the entries of a list that is packed
abbrev pub items : List Value → Items
items [] = nil
items (v ∷ vs) = cons v (items vs)

-- `_typed_to_list`
abbrev pub typed_to_list : Typed → Value
typed_to_list pair = array (items (atom (text pair.typ) ∷ atom (bytes pair.content) ∷ []))

abbrev pub encode_saved : Saved → Value
encode_saved saved =
    array (items (typed_to_list saved.dumped ∷ typed_to_list saved.meta ∷ saved.parent ∷ []))

abbrev pub encode_checkpoints : Checkpoints → Fields
encode_checkpoints [] = end
encode_checkpoints ((checkpoint_id, saved) ∷ checkpoints) =
    field checkpoint_id (encode_saved saved) (encode_checkpoints checkpoints)

abbrev pub encode_storage : Dict Text Checkpoints → Fields
encode_storage [] = end
encode_storage ((ns, checkpoints) ∷ storage) =
    field ns (object (encode_checkpoints checkpoints)) (encode_storage storage)

abbrev pub encode_tuple : List Atom → Value
encode_tuple key = array (items (map atom key))

abbrev pub encode_write : List Atom × Write → Value
encode_write (inner_key, w) = array (
    items (
      encode_tuple inner_key
      ∷ array (items (w.task_id ∷ w.channel ∷ typed_to_list w.typed ∷ w.task_path ∷ []))
      ∷ []))

abbrev pub encode_writes : Key3 × Writes → Value
encode_writes ((thread_id, checkpoint_ns, checkpoint_id), inner) = array (
    items (
      encode_tuple (thread_id ∷ checkpoint_ns ∷ checkpoint_id ∷ [])
      ∷ array (items (map encode_write inner))
      ∷ []))

abbrev pub encode_blob : Key4 × Typed → Value
encode_blob ((thread_id, checkpoint_ns, channel, version), typed) = array (
    items (
      encode_tuple (thread_id ∷ checkpoint_ns ∷ channel ∷ version ∷ []) ∷ typed_to_list typed ∷ []))

-- the dictionary that is packed
abbrev pub envelope : Payload → Value
envelope p = object (
    field (codes "v") (atom (integer 1)) (
      field (codes "storage") (object (encode_storage p.storage)) (
        field (codes "writes") (array (items (map encode_writes p.writes)))
          (field (codes "blobs") (array (items (map encode_blob p.blobs))) end))))

abbrev pub Absent : Text → Fields → Type 0
Absent k end = Unit
Absent k (field j v fs) = (j ≡ k → ⊥) × Absent k fs

abbrev pub IsCarriedAtom : Atom → Type 0
IsCarriedAtom (integer n) = n < 18446744073709551616
IsCarriedAtom (minus n) = n < 9223372036854775808
IsCarriedAtom a = Unit

-- what msgpack carries: integers of 64 bits, and no key twice in a map
abbrev mutual
  pub IsCarried : Value → Type 0
  IsCarried (atom a) = IsCarriedAtom a
  IsCarried (array vs) = AreCarried vs
  IsCarried (object fs) = AreCarriedFields fs

  pub AreCarried : Items → Type 0
  AreCarried nil = Unit
  AreCarried (cons v vs) = IsCarried v × AreCarried vs

  pub AreCarriedFields : Fields → Type 0
  AreCarriedFields end = Unit
  AreCarriedFields (field k v fs) = Absent k fs × IsCarried v × AreCarriedFields fs

-- The libraries: `ormsgpack`, `pickle.loads` of a dictionary, and Python's `str`, `encode`, `bytes` and iteration
-- on a value. `none` is an exception.
pub record Libraries : Type 0 where
  pub packb : Value → Text
  pub unpackb : Text → Option Value
  pub unpickle : Text → Option Payload
  pub str_of : Value → Text
  pub utf8 : Text → Text
  pub bytes_of : Value → Option Text
  pub iter_of : Value → Option (List Value)
  pub unpackb-packb : (v : Value) → IsCarried v → unpackb (packb v) ≡ some v
  pub str_of-text : (t : Text) → str_of (atom (text t)) ≡ t
  pub iter_of-array : (vs : List Value) → iter_of (array (items vs)) ≡ some vs

abbrev pub envelope_magic : Text
envelope_magic = codes "CSK1"

-- `loaded.get(k)`
abbrev pub field_of : Text → Fields → Option Value
field_of k end = none
field_of k (field j v fs) = ite (Text-discrete j k) (some v) (field_of k fs)

abbrev pub is_falsy : Value → Bool
is_falsy (atom null) = true
is_falsy (atom (integer zero)) = true
is_falsy (atom (text [])) = true
is_falsy (atom (bytes [])) = true
is_falsy (array nil) = true
is_falsy (object end) = true
is_falsy v = false

-- `hash`, which a dictionary takes of its keys
abbrev pub hashed : Value → Option Atom
hashed (atom a) = some a
hashed v = none

abbrev pub hashed_all : List Value → Option (List Atom)
hashed_all [] = some []
hashed_all (v ∷ vs) = hashed v >>= λ a. hashed_all vs >>= λ key. some (a ∷ key)

-- `v.items()`
abbrev pub fields_of : Value → Option Fields
fields_of (object fs) = some fs
fields_of v = none

-- `a, b = v`, and three and four names
abbrev pub two : List Value → Option (Value × Value)
two (a ∷ (b ∷ [])) = some (a, b)
two vs = none

abbrev pub three : List Value → Option (Value × Value × Value)
three (a ∷ (b ∷ (c ∷ []))) = some (a, b, c)
three vs = none

abbrev pub four : List Value → Option (Value × Value × Value × Value)
four (a ∷ (b ∷ (c ∷ (d ∷ [])))) = some (a, b, c, d)
four vs = none

module _ (py : Libraries) where
  open py use {packb, unpackb, unpickle, str_of, utf8, bytes_of, iter_of}

  unfoldable pub encode_checkpoint_blob : Payload → Text
  encode_checkpoint_blob p = envelope_magic ++ packb (envelope p)

  -- `_list_to_typed`
  abbrev to_bytes : Value → Option Text
  to_bytes (atom (bytes b)) = some b
  to_bytes (atom (text t)) = some (utf8 t)
  to_bytes v = bytes_of v

  unfoldable pub list_to_typed : Value → Option Typed
  list_to_typed pair = do
    (typ, body) ← (iter_of pair >>= two)
    content ← to_bytes body
    some (record { typ = str_of typ; content = content })

  unfoldable pub decode_saved : Value → Option Saved
  unfolding list_to_typed
  decode_saved v = do
    (dumped, meta, parent) ← (iter_of v >>= three)
    d ← list_to_typed dumped
    m ← list_to_typed meta
    some (record { dumped = d; meta = m; parent = parent })

  -- the loops of `_payload_from_msgpack`, each over the dictionary it fills
  unfoldable pub decode_checkpoints : Fields → Checkpoints → Option Checkpoints
  unfolding decode_saved
  decode_checkpoints end decoded = some decoded
  decode_checkpoints (field checkpoint_id v fs) decoded = do
    saved ← decode_saved v
    decode_checkpoints fs (put Text-discrete checkpoint_id saved decoded)

  unfoldable pub decode_storage : Fields → Dict Text Checkpoints → Option (Dict Text Checkpoints)
  unfolding decode_checkpoints
  decode_storage end storage = some storage
  decode_storage (field ns v fs) storage = do
    checkpoints ← fields_of v
    decoded ← decode_checkpoints checkpoints []
    decode_storage fs (put Text-discrete ns decoded storage)

  unfoldable pub decode_write : Value → Option (List Atom × Write)
  unfolding list_to_typed
  decode_write v = do
    (inner_key, value) ← (iter_of v >>= two)
    (task_id, channel, typed, task_path) ← (iter_of value >>= four)
    key ← (iter_of inner_key >>= hashed_all)
    t ← list_to_typed typed
    some (key, record { task_id = task_id; channel = channel; typed = t; task_path = task_path })

  unfoldable pub decode_inner : List Value → Writes → Option Writes
  unfolding decode_write
  decode_inner [] inner = some inner
  decode_inner (v ∷ vs) inner = do
    (key, write) ← decode_write v
    decode_inner vs (put Tuple-discrete key write inner)

  unfoldable pub decode_writes : List Value → Dict Key3 Writes → Option (Dict Key3 Writes)
  unfolding decode_inner
  decode_writes [] writes = some writes
  decode_writes (v ∷ vs) writes = do
    (outer_key, entries) ← (iter_of v >>= two)
    (t, n, c) ← (iter_of outer_key >>= three)
    listed ← iter_of entries
    inner ← decode_inner listed []
    thread_id ← hashed t
    checkpoint_ns ← hashed n
    checkpoint_id ← hashed c
    decode_writes vs (put Key3-discrete (thread_id, checkpoint_ns, checkpoint_id) inner writes)

  unfoldable pub decode_blobs : List Value → Dict Key4 Typed → Option (Dict Key4 Typed)
  unfolding list_to_typed
  decode_blobs [] blobs = some blobs
  decode_blobs (v ∷ vs) blobs = do
    (blob_key, pair) ← (iter_of v >>= two)
    (t, n, c, w) ← (iter_of blob_key >>= four)
    typed ← list_to_typed pair
    thread_id ← hashed t
    checkpoint_ns ← hashed n
    channel ← hashed c
    version ← hashed w
    decode_blobs vs (put Key4-discrete (thread_id, checkpoint_ns, channel, version) typed blobs)

  -- `(v or {}).items()` and the iteration over `v or []`
  abbrev items_or_empty : Option Value → Option Fields
  items_or_empty none = some end
  items_or_empty (some v) = if is_falsy v then some end else fields_of v

  abbrev iter_or_empty : Option Value → Option (List Value)
  iter_or_empty none = some []
  iter_or_empty (some v) = if is_falsy v then some [] else iter_of v

  -- `_payload_from_msgpack`
  unfoldable pub payload_from_msgpack : Fields → Option Payload
  unfolding decode_storage decode_writes decode_blobs
  payload_from_msgpack loaded = do
    fs ← items_or_empty (field_of (codes "storage") loaded)
    storage ← decode_storage fs []
    ws ← iter_or_empty (field_of (codes "writes") loaded)
    writes ← decode_writes ws []
    bs ← iter_or_empty (field_of (codes "blobs") loaded)
    blobs ← decode_blobs bs []
    some (record { storage = storage; writes = writes; blobs = blobs })

  unfoldable pub decode_checkpoint_blob : Text → Option Payload
  unfolding payload_from_msgpack starts_with
  decode_checkpoint_blob [] = none
  decode_checkpoint_blob (b ∷ raw) =
      if starts_with envelope_magic (b ∷ raw)
      then (unpackb (drop (length envelope_magic) (b ∷ raw)) >>= λ loaded.
          fields_of loaded >>= payload_from_msgpack)
      else unpickle (b ∷ raw)
