-- ===== src/SessionCache/Tests.antt =====
-- A small conversation in the shared cache of app/session_cache.py.
pub mod Machine
pub mod Workers
use customer_service.Prelude.{
  arith, ◌≡◌, ◌≢◌, refl, sym, ◌∙◌, ap, Option, none, some, List, [], ◌∷◌, map,
}
use customer_service.Prelude.Text.{Text, codes}
use customer_service.SessionCache.Payloads.{
  Atom, integer, minus, text, bytes, null, Value, atom, array, object, Items, nil, cons, Typed,
  Payload, Saved,
}
use customer_service.Prelude.Dict.{get}
use customer_service.SessionCache.Codec.{
  Libraries, items, encode_checkpoint_blob, decode_checkpoint_blob, envelope, IsCarried,
}
use customer_service.SessionCache.RoundTrip
use customer_service.SessionCache.RoundTrip.{IsTidy}
use customer_service.SessionCache.Tests.Machine.{pack, unpack, unpack-pack}

abbrev pub listed : Items → List Value
listed nil = []
listed (cons v vs) = v ∷ listed vs

pub listed-items : (vs : List Value) → listed (items vs) ≡ vs
listed-items [] = refl
listed-items (v ∷ vs) = ap (◌∷◌ v) (listed-items vs)

abbrev pub str : Value → Text
str (atom (text t)) = t
str v = []

abbrev pub iter : Value → Option (List Value)
iter (array vs) = some (listed vs)
iter v = none

abbrev pub python : Libraries
python = record {
  packb = λ v. pack v [];
  unpackb = unpack;
  unpickle = λ raw. none;
  str_of = str;
  utf8 = λ t. t;
  bytes_of = λ v. none;
  iter_of = iter;
  unpackb-packb = λ v h. unpack-pack v;
  str_of-text = λ t. refl;
  iter_of-array = λ vs. ap some (listed-items vs);
}

abbrev pub thread : Text
thread = codes "t:u:s"

abbrev pub bytes_of_one : Typed
bytes_of_one = record { typ = codes "msgpack"; content = codes "x" }

abbrev pub saved : Saved
saved = record { dumped = bytes_of_one; meta = bytes_of_one; parent = atom null }

abbrev pub payload : Payload
payload = record {
  storage = ([], (codes "1", saved) ∷ []) ∷ [];
  writes =
      (
        (text thread, text [], text (codes "1")),
        (
          text (codes "task") ∷ minus 0 ∷ [],
          record {
            task_id = atom (text (codes "task"));
            channel = atom (text (codes "c"));
            typed = bytes_of_one;
            task_path = atom (text []);
          },
        )
            ∷ [],
      )
      ∷ [];
  blobs = ((text thread, text [], text (codes "c"), integer 1), bytes_of_one) ∷ [];
}

pub payload-IsTidy : IsTidy payload
unfolding get
payload-IsTidy = record {
  namespaces = (refl, tt);
  checkpoints = ((refl, tt), tt);
  keys = (refl, tt);
  inner = ((refl, tt), tt);
  blob_keys = (refl, tt);
}

pub payload-IsCarried : IsCarried (envelope payload)
payload-IsCarried = ground arith

decode_checkpoint_blob-encode_checkpoint_blob_example :
    decode_checkpoint_blob python (encode_checkpoint_blob python payload) ≡ some payload
decode_checkpoint_blob-encode_checkpoint_blob_example =
    RoundTrip.decode_checkpoint_blob-encode_checkpoint_blob python payload payload-IsTidy
      payload-IsCarried
