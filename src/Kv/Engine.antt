-- ===== src/Kv/Engine.antt =====
-- simple-kv-cpp/include/kv/storage_engine.h: the interface IStorageEngine.
use build_your_own_stuff.Prelude.{
  ◌≡◌, Bool, true, false, not, Option, none, some, [], ◌∷◌, Text, text_eq, if◌then◌else◌,
}

-- key.empty()
abbrev pub is_empty : Text → Bool
is_empty [] = true
is_empty (c ∷ cs) = false

abbrev pub has_value {ℓ} : {A : Type ℓ} → Option A → Bool
has_value none = false
has_value (some a) = true

-- The virtual methods, over the state of the engine that implements them. `read` is a const method,
-- and returns a state only for what it prints.
pub record StorageEngine : Type 1 where
  pub State : Type 0
  pub write : Text → Text → State → Bool × State
  pub read : Text → State → Option Text × State
  pub erase : Text → State → Bool × State

-- The engine answers as a map from non-empty keys to values does: `view` is what it holds under each key.
-- What its header promises of a write that fails is not part of it.
pub record IsMap (e : StorageEngine) (view : e.State → Text → Option Text) : Type 0 where
  pub reply-write : (k v : Text) (s : e.State) → (e.write k v s).0 ≡ not (is_empty k)
  pub view-write :
      (k v : Text) (s : e.State) (j : Text)
      → view (e.write k v s).1 j
        ≡ (if is_empty k then view s j else if text_eq k j then some v else view s j)
  pub reply-read :
      (k : Text) (s : e.State) → (e.read k s).0 ≡ (if is_empty k then none else view s k)
  pub view-read : (k : Text) (s : e.State) (j : Text) → view (e.read k s).1 j ≡ view s j
  pub reply-erase :
      (k : Text) (s : e.State)
      → (e.erase k s).0 ≡ (if is_empty k then false else has_value (view s k))
  pub view-erase :
      (k : Text) (s : e.State) (j : Text)
      → view (e.erase k s).1 j
        ≡ (if is_empty k then view s j else if text_eq k j then none else view s j)
