-- ===== src/Kv/Store.antt =====
-- simple-kv-cpp/src/key_value_store_impl.cpp with include/kv/key_value_store.h: the store delegates
-- to the engine that it owns, whichever it is.
use build_your_own_stuff.Prelude.{Bool, Option, none, some, List, [], ◌∷◌, Text}
use build_your_own_stuff.Kv.Engine.{StorageEngine}

-- std::invalid_argument, with its text
pub data Exception : Type 0 where
  invalid_argument : Exception

pub data Construction {ℓ} (A : Type ℓ) : Type ℓ where
  constructed : A → Construction A
  throws : Exception → Construction A

-- The calls of the interface IKeyValueStore, and what they return.
pub data Command : Type 0 where
  put : Text → Text → Command
  get : Text → Command
  remove : Text → Command

pub data Reply : Type 0 where
  success : Bool → Reply
  found : Option Text → Reply

module _ (e : StorageEngine) where
  open e use {State, write, read, erase}

  pub record KeyValueStore : Type 0 where
    pub engine : State

  -- The constructor, given the pointer: `none` is null.
  unfoldable pub construct : Option State → Construction KeyValueStore
  construct none = throws invalid_argument
  construct (some engine) = constructed (record { engine = engine })

  unfoldable pub put_value : Text → Text → KeyValueStore → Bool × KeyValueStore
  put_value key value kv =
      let (r, engine) = write key value kv.engine in (r, record { engine = engine })

  unfoldable pub get_value : Text → KeyValueStore → Option Text × KeyValueStore
  get_value key kv = let (r, engine) = read key kv.engine in (r, record { engine = engine })

  unfoldable pub remove_value : Text → KeyValueStore → Bool × KeyValueStore
  remove_value key kv = let (r, engine) = erase key kv.engine in (r, record { engine = engine })

  -- One call by a client.
  unfoldable pub execute : Command → KeyValueStore → Reply × KeyValueStore
  unfolding put_value get_value remove_value
  execute (put key value) kv = let (r, kv') = put_value key value kv in (success r, kv')
  execute (get key) kv = let (r, kv') = get_value key kv in (found r, kv')
  execute (remove key) kv = let (r, kv') = remove_value key kv in (success r, kv')

  -- The replies to a sequence of calls, and the store after it.
  unfoldable pub run : List Command → KeyValueStore → List Reply × KeyValueStore
  run [] kv = ([], kv)
  run (c ∷ cs) kv = let (r, kv') = execute c kv in let (rs, kv'') = run cs kv' in (r ∷ rs, kv'')
