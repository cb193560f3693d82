-- ===== src/SessionCache/Payloads.antt =====
-- What a conversation's checkpoints are, app/session_cache.py: the three dictionaries of langgraph's
-- `InMemorySaver`, and the values that msgpack carries. Floats and booleans are not among them.
use customer_service.Prelude.{ℕ, List, ℕ_discrete}
use customer_service.Prelude.Text.{Text}
use customer_service.Prelude.Dict.{Dict}

-- a value that can be the key of a dictionary: `None`, an integer (`minus n` is -1 - n), a text or bytes
pub data Atom : Type 0 where
  null : Atom
  integer : ℕ → Atom
  minus : ℕ → Atom
  text : Text → Atom
  bytes : Text → Atom

unfoldable pub Atom-discrete : Discrete Atom
unfolding ℕ_discrete
Atom-discrete = hlevel ℕ_discrete

mutual
  pub data Value : Type 0 where
    atom : Atom → Value
    array : Items → Value
    object : Fields → Value

  pub data Items : Type 0 where
    nil : Items
    cons : Value → Items → Items

  pub data Fields : Type 0 where
    end : Fields
    field : Text → Value → Fields → Fields

-- the pair that a serializer makes: a type and bytes
pub record Typed : Type 0 where
  pub typ : Text
  pub content : Text

pub record Saved : Type 0 where
  pub dumped : Typed
  pub meta : Typed
  pub parent : Value

pub record Write : Type 0 where
  pub task_id : Value
  pub channel : Value
  pub typed : Typed
  pub task_path : Value

-- The keys of `writes` are a thread, a namespace and a checkpoint, those of `blobs` a thread, a
-- namespace, a channel and a version.
abbrev pub Key3 : Type 0
Key3 = Atom × Atom × Atom

abbrev pub Key4 : Type 0
Key4 = Atom × Atom × Atom × Atom

unfoldable pub Key3-discrete : Discrete Key3
unfolding Atom-discrete
Key3-discrete = hlevel Atom-discrete

unfoldable pub Key4-discrete : Discrete Key4
unfolding Atom-discrete
Key4-discrete = hlevel Atom-discrete

unfoldable pub Tuple-discrete : Discrete (List Atom)
unfolding Atom-discrete
Tuple-discrete = hlevel Atom-discrete

abbrev pub Checkpoints : Type 0
Checkpoints = Dict Text Saved

abbrev pub Writes : Type 0
Writes = Dict (List Atom) Write

-- one conversation's part of the three dictionaries
pub record Payload : Type 0 where
  pub storage : Dict Text Checkpoints
  pub writes : Dict Key3 Writes
  pub blobs : Dict Key4 Typed
