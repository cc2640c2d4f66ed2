-- ===== src/Kv/Refinement.antt =====
-- The store over any engine that answers as a map is a map from non-empty keys to values: the
-- comments of simple-kv-cpp/include/kv/key_value_store.h as a reference model.
use build_your_own_stuff.Prelude.{
  ◌≡◌, refl, ap, sym, ◌∙◌, fun_ext, false, not, Option, none, some, List, [], ◌∷◌, Text, text_eq,
  if◌then◌else◌,
}
use build_your_own_stuff.Kv.Engine.{StorageEngine, IsMap, is_empty, has_value}
use build_your_own_stuff.Kv.Store.{
  Command, put, get, remove, Reply, success, found, KeyValueStore, execute, run,
}

-- What is stored under each key.
abbrev pub Model : Type 0
Model = Text → Option Text

abbrev pub update : Text → Option Text → Model → Model
update k o m j = if text_eq k j then o else m j

unfoldable pub model_reply : Command → Model → Reply
model_reply (put k v) m = success (not (is_empty k))
model_reply (get k) m = found (if is_empty k then none else m k)
model_reply (remove k) m = success (if is_empty k then false else has_value (m k))

unfoldable pub model_after : Command → Model → Model
model_after (put k v) m j = if is_empty k then m j else update k (some v) m j
model_after (get k) m j = m j
model_after (remove k) m j = if is_empty k then m j else update k none m j

unfoldable pub model_run : List Command → Model → List Reply
unfolding model_reply model_after
model_run [] m = []
model_run (c ∷ cs) m = model_reply c m ∷ model_run cs (model_after c m)

module _ (e : StorageEngine) (view : e.State → Text → Option Text) (laws : IsMap e view) where
  abbrev pub view_of : KeyValueStore e → Model
  view_of kv = view kv.engine

  reply-execute :
      (c : Command) (kv : KeyValueStore e) → (execute e c kv).0 ≡ model_reply c (view_of kv)
  unfolding execute model_reply
  reply-execute (put k v) kv = ap success (laws.reply-write k v kv.engine)
  reply-execute (get k) kv = ap found (laws.reply-read k kv.engine)
  reply-execute (remove k) kv = ap success (laws.reply-erase k kv.engine)

  view-execute :
      (c : Command) (kv : KeyValueStore e) (j : Text)
      → view_of (execute e c kv).1 j ≡ model_after c (view_of kv) j
  unfolding execute model_after
  view-execute (put k v) kv j = laws.view-write k v kv.engine j
  view-execute (get k) kv j = laws.view-read k kv.engine j
  view-execute (remove k) kv j = laws.view-erase k kv.engine j

  -- After one call the views of the store are those of the model.
  view-execute-fun :
      (c : Command) (kv : KeyValueStore e) → view_of (execute e c kv).1 ≡ model_after c (view_of kv)
  view-execute-fun c kv = fun_ext (view-execute c kv)

  -- The replies to a sequence of calls, for an engine that answers as a map does.
  pub run-model_run :
      (cs : List Command) (kv : KeyValueStore e) → (run e cs kv).0 ≡ model_run cs (view_of kv)
  unfolding run model_run
  run-model_run [] kv = refl
  run-model_run (c ∷ cs) kv =
      cc (reply-execute c kv, run-model_run cs (execute e c kv).1, view-execute-fun c kv)

-- Two stores that hold the same, over any engines that answer as maps, cannot be told apart by a
-- client.
pub run-engines :
    (e f : StorageEngine) (ve : e.State → Text → Option Text) (vf : f.State → Text → Option Text)
    → IsMap e ve
    → IsMap f vf
    → (kv : KeyValueStore e) (kw : KeyValueStore f) → ((j : Text) → ve kv.engine j ≡ vf kw.engine j)
    → (cs : List Command) → (run e cs kv).0 ≡ (run f cs kw).0
run-engines e f ve vf le lf kv kw same cs =
    run-model_run e ve le cs kv
    ∙ ap (model_run cs) (fun_ext same)
    ∙ sym (run-model_run f vf lf cs kw)
