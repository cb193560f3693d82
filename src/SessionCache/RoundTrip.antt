-- ===== src/SessionCache/RoundTrip.antt =====
-- The envelope of app/session_cache.py, opened again.
use customer_service.Prelude.{◌≡◌, refl, some, List, [], ◌∷◌, map, if◌then◌else◌, All}
use customer_service.Prelude.Text.{Text, Text-discrete, starts_with}
use customer_service.Prelude.Dict.{Dict, put, update, update-nil, Distinct}
use customer_service.SessionCache.Payloads.{
  Atom, Value, atom, array, object, end, Typed, Saved, Write, Key3, Key4, Key3-discrete,
  Key4-discrete, Tuple-discrete, Checkpoints, Writes, Payload,
}
use customer_service.SessionCache.Codec.{
  items, typed_to_list, encode_saved, encode_checkpoints, encode_storage, encode_write,
  encode_writes, encode_blob, envelope, IsCarried, Libraries, is_falsy, hashed_all,
  encode_checkpoint_blob, list_to_typed, decode_saved, decode_checkpoints, decode_storage,
  decode_write, decode_inner, decode_writes, decode_blobs, payload_from_msgpack,
  decode_checkpoint_blob,
}

-- every dictionary of a payload has each key once, as a dictionary of Python has
pub record IsTidy (p : Payload) : Type 0 where
  pub namespaces : Distinct Text-discrete p.storage
  pub checkpoints : All (λ e. Distinct Text-discrete e.1) p.storage
  pub keys : Distinct Key3-discrete p.writes
  pub inner : All (λ e. Distinct Tuple-discrete e.1) p.writes
  pub blob_keys : Distinct Key4-discrete p.blobs

hashed_all-map : (key : List Atom) → hashed_all (map atom key) ≡ some key
hashed_all-map [] = refl
hashed_all-map (a ∷ key) = rw (hashed_all-map key)

module _ (py : Libraries) where
  open py use {
    packb, unpackb, unpickle, str_of, utf8, bytes_of, iter_of, unpackb-packb, str_of-text,
    iter_of-array,
  }

  list_to_typed-typed_to_list : (t : Typed) → list_to_typed py (typed_to_list t) ≡ some t
  unfolding list_to_typed
  list_to_typed-typed_to_list t = rw (iter_of-array, str_of-text)

  decode_saved-encode_saved : (s : Saved) → decode_saved py (encode_saved s) ≡ some s
  unfolding decode_saved
  decode_saved-encode_saved s =
      rw (iter_of-array)
        (rw (list_to_typed-typed_to_list s.dumped, list_to_typed-typed_to_list s.meta))

  decode_checkpoints-encode_checkpoints :
      (d acc : Checkpoints)
      → decode_checkpoints py (encode_checkpoints d) acc ≡ some (update Text-discrete d acc)
  unfolding decode_checkpoints update
  decode_checkpoints-encode_checkpoints [] acc = refl
  decode_checkpoints-encode_checkpoints ((k, s) ∷ d) acc =
      rw (decode_saved-encode_saved s)
        (decode_checkpoints-encode_checkpoints d (put Text-discrete k s acc))

  decode_storage-encode_storage :
      (d acc : Dict Text Checkpoints)
      → All (λ e. Distinct Text-discrete e.1) d
      → decode_storage py (encode_storage d) acc ≡ some (update Text-discrete d acc)
  unfolding decode_storage update
  decode_storage-encode_storage [] acc h = refl
  decode_storage-encode_storage ((ns, cps) ∷ d) acc h =
      rw (decode_checkpoints-encode_checkpoints cps [], update-nil Text-discrete cps h.0)
        (decode_storage-encode_storage d (put Text-discrete ns cps acc) h.1)

  decode_write-encode_write : (e : List Atom × Write) → decode_write py (encode_write e) ≡ some e
  unfolding decode_write
  decode_write-encode_write (key, w) = rw iter_of-array (
      rw iter_of-array
        (rw iter_of-array (rw (hashed_all-map key, list_to_typed-typed_to_list w.typed))))

  decode_inner-encode_write :
      (ws acc : Writes)
      → decode_inner py (map encode_write ws) acc ≡ some (update Tuple-discrete ws acc)
  unfolding decode_inner update
  decode_inner-encode_write [] acc = refl
  decode_inner-encode_write ((key, w) ∷ ws) acc =
      rw (decode_write-encode_write (key, w))
        (decode_inner-encode_write ws (put Tuple-discrete key w acc))

  decode_writes-encode_writes :
      (d acc : Dict Key3 Writes)
      → All (λ e. Distinct Tuple-discrete e.1) d
      → decode_writes py (map encode_writes d) acc ≡ some (update Key3-discrete d acc)
  unfolding decode_writes update
  decode_writes-encode_writes [] acc h = refl
  decode_writes-encode_writes (((t, n, c), ws) ∷ d) acc h = rw iter_of-array (
      rw iter_of-array (
        rw iter_of-array (
          rw (decode_inner-encode_write ws [], update-nil Tuple-discrete ws h.0)
            (decode_writes-encode_writes d (put Key3-discrete (t, n, c) ws acc) h.1))))

  decode_blobs-encode_blob :
      (d acc : Dict Key4 Typed)
      → decode_blobs py (map encode_blob d) acc ≡ some (update Key4-discrete d acc)
  unfolding decode_blobs update
  decode_blobs-encode_blob [] acc = refl
  decode_blobs-encode_blob (((t, n, c, w), typed) ∷ d) acc = rw iter_of-array (
      rw iter_of-array (
        rw (list_to_typed-typed_to_list typed)
          (decode_blobs-encode_blob d (put Key4-discrete (t, n, c, w) typed acc))))

  storage_fields :
      (d : Dict Text Checkpoints)
      → (if is_falsy (object (encode_storage d)) then some end else some (encode_storage d))
        ≡ some (encode_storage d)
  storage_fields [] = refl
  storage_fields (e ∷ d) = refl

  listed :
      (vs : List Value)
      → (if is_falsy (array (items vs)) then some [] else iter_of (array (items vs))) ≡ some vs
  listed [] = refl
  listed (v ∷ vs) = iter_of-array (v ∷ vs)

  -- What is encoded is decoded to the very same three dictionaries, in the same order, when no key
  -- stands twice in any of them and msgpack carries the values.
  pub decode_checkpoint_blob-encode_checkpoint_blob :
      (p : Payload)
      → IsTidy p
      → IsCarried (envelope p)
      → decode_checkpoint_blob py (encode_checkpoint_blob py p) ≡ some p
  unfolding decode_checkpoint_blob encode_checkpoint_blob payload_from_msgpack starts_with
      Text-discrete
  decode_checkpoint_blob-encode_checkpoint_blob p tidy fits = rw (unpackb-packb (envelope p) fits) (
      rw
        (
          storage_fields p.storage,
          decode_storage-encode_storage p.storage [] tidy.checkpoints,
          update-nil Text-discrete p.storage tidy.namespaces,
        )
        (rw
          (
            listed (map encode_writes p.writes),
            decode_writes-encode_writes p.writes [] tidy.inner,
            update-nil Key3-discrete p.writes tidy.keys,
          )
          (rw (
            listed (map encode_blob p.blobs),
            decode_blobs-encode_blob p.blobs [],
            update-nil Key4-discrete p.blobs tidy.blob_keys,
          ))))
