-- ===== src/Kv/Engines.antt =====
-- The store over the two engines of simple-kv-cpp.
use build_your_own_stuff.Prelude.{◌≡◌, List}
use build_your_own_stuff.Kv.Table.{Table}
use build_your_own_stuff.Kv.Store.{Command, KeyValueStore, run}
use build_your_own_stuff.Kv.Memory.{in_memory_engine, memory_view, in_memory-IsMap}
use build_your_own_stuff.Kv.File.{file_based_engine, file_view, file_based-IsMap}
use build_your_own_stuff.Kv.Refinement.{model_run, run-model_run}

-- For every sequence of calls, the store over the in-memory engine and the store over the file-based one return
-- what the map from non-empty keys to values does that starts with what the engine holds; the file-based one does
-- so whether or not its file can be written.
pub runs-model_run :
    (order : Table → Table) (cs : List Command) (kv : KeyValueStore in_memory_engine)
    (kw : KeyValueStore (file_based_engine order))
    → ((run in_memory_engine cs kv).0 ≡ model_run cs (memory_view kv.engine))
      × ((run (file_based_engine order) cs kw).0 ≡ model_run cs (file_view kw.engine))
runs-model_run order cs kv kw = (
  run-model_run in_memory_engine memory_view in_memory-IsMap cs kv,
  run-model_run (file_based_engine order) file_view (file_based-IsMap order) cs kw,
)
