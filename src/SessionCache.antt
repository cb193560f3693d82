-- ===== src/SessionCache.antt =====
-- The envelope that a conversation's checkpoints travel in, `encode_checkpoint_blob` and
-- `decode_checkpoint_blob` of app/session_cache.py, and the caches that carry it. Parameters: msgpack,
-- pickle and three conversions of Python.
pub mod Payloads
pub mod Codec
pub mod RoundTrip
pub mod Saver
pub mod Tests
use customer_service.Prelude.{◌≡◌, ◌∙◌, refl, Option, none, some, if_pos}
use customer_service.Prelude.Text.{Text, Text-discrete}
use customer_service.Prelude.Dict.{Dict, get, put, pop, get-put_self, get-pop}

-- `SessionCache`: the byte cache that workers share. What is set is found until it is deleted, and a
-- touch changes no value; the lifetime of the entries is not in it.
pub record SessionCache : Type 1 where
  pub Cache : Type 0
  pub find : Text → Cache → Option Text
  pub set : Text → Text → Cache → Cache
  pub delete : Text → Cache → Cache
  pub touch : Text → Cache → Cache
  pub find-set : (key v : Text) (c : Cache) → find key (set key v c) ≡ some v
  pub find-delete : (key : Text) (c : Cache) → find key (delete key c) ≡ none
  pub find-touch : (key k : Text) (c : Cache) → find k (touch key c) ≡ find k c

-- `DictSessionCache`
unfoldable pub dict_get : Text → Dict Text Text → Option Text
dict_get key rows = get Text-discrete key rows

unfoldable pub dict_set : Text → Text → Dict Text Text → Dict Text Text
dict_set key value rows = put Text-discrete key value rows

unfoldable pub dict_delete : Text → Dict Text Text → Dict Text Text
dict_delete key rows = pop Text-discrete key rows

unfoldable pub dict_touch : Text → Dict Text Text → Dict Text Text
dict_touch key rows = rows

unfoldable pub dict_session_cache : SessionCache
unfolding dict_get dict_set dict_delete dict_touch
dict_session_cache = record {
  Cache = Dict Text Text;
  find = dict_get;
  set = dict_set;
  delete = dict_delete;
  touch = dict_touch;
  find-set = λ key v c. get-put_self Text-discrete key v c;
  find-delete = λ key c. get-pop Text-discrete key key c ∙ if_pos (Text-discrete key key) refl _ _;
  find-touch = λ key k c. refl;
}
