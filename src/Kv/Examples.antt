-- ===== src/Kv/Examples.antt =====
-- The theorems on the key-value store at concrete inputs, and runs of its code.
use mathlib.Core.List.{reverse, reverse_perm}
use mathlib.Core.List.Perm
use build_your_own_stuff.Prelude.{
  ◌≡◌, refl, true, false, none, some, List, [], ◌∷◌, ◌++◌, arith, Text, codes, find, text_eq,
}
use build_your_own_stuff.Kv.Table.{Table, Distinct, lookup, assign}
use build_your_own_stuff.Kv.Engine.{IsMap}
use build_your_own_stuff.Kv.Memory
use build_your_own_stuff.Kv.Memory.{
  InMemoryStorageEngine, in_memory_engine, memory_view, in_memory-IsMap, cout_scopes, scope_lines,
}
use build_your_own_stuff.Kv.FileFormat.{newline, equals_sign, lines, load_lines, serialize}
use build_your_own_stuff.Kv.File.{
  quoted, Disk, FileBasedStorageEngine, construct, restart, read, write, file_based_engine,
  file_view, file_based-IsMap,
}
use build_your_own_stuff.Kv.Store.{Command, put, get, remove, KeyValueStore, run}
use build_your_own_stuff.Kv.Order.{lookup-load-serialize}
use build_your_own_stuff.Kv.Engines.{runs-model_run}
use build_your_own_stuff.Kv.Refinement.{run-engines, model_run}
use build_your_own_stuff.Kv.Persistence.{
  IsDurable, construct-IsDurable, run-restarted, after_calls, restarted, run-IsDurable,
}
use build_your_own_stuff.Kv.Faults.{write-unwritable, newline_cuts_value, equals_cuts_key}

-- An iteration order other than that of insertion.
abbrev backwards : Table → Table
backwards = reverse

abbrev fresh_disk : Disk
fresh_disk = record { content = none; readable = true; writable = true }

abbrev old_disk : Disk
old_disk = record { content = some (codes "a=1"); readable = true; writable = true }

abbrev read_only : Disk
read_only = record { content = some (codes "a=1"); readable = true; writable = false }

abbrev calls : List Command
calls = put (codes "a") (codes "2") ∷ put (codes "b") (codes "x=y") ∷ remove (codes "a") ∷ []

abbrev later : List Command
later = get (codes "a") ∷ get (codes "b") ∷ get [] ∷ []

abbrev empty_memory : InMemoryStorageEngine
empty_memory = record { store = []; cout = [] }

abbrev file_store : Disk → KeyValueStore (file_based_engine backwards)
file_store d = record { engine = construct (codes "kv.txt") d }

abbrev memory_store : KeyValueStore in_memory_engine
memory_store = record { engine = empty_memory }

abbrev fresh : FileBasedStorageEngine
fresh = record { file_path = codes "kv.txt"; store = []; disk = fresh_disk; cerr = [] }

read_only-construct : (construct (codes "kv.txt") read_only).disk.writable ≡ false
unfolding construct
read_only-construct = refl

-- A file with a line that holds no '=', and a last line with no newline.
lines_loaded :
    load_lines [] (lines (codes "a=1" ++ newline ∷ codes "junk" ++ newline ∷ codes "b=x=y"))
    ≡ (codes "a", codes "1") ∷ (codes "b", codes "x=y") ∷ []
unfolding load_lines lines find text_eq assign
lines_loaded = refl

run-restarted_example :
    (run
      (file_based_engine backwards)
      later
      (restarted backwards (after_calls backwards (codes "kv.txt") old_disk calls))).0
    ≡ (run
        (file_based_engine backwards)
        later
        (after_calls backwards (codes "kv.txt") old_disk calls)).0
run-restarted_example =
    run-restarted backwards reverse_perm (codes "kv.txt") old_disk calls later refl refl
      (ground arith)

run-IsDurable_test :
    IsDurable (run (file_based_engine backwards) calls (file_store fresh_disk)).1.engine
run-IsDurable_test =
    run-IsDurable backwards reverse_perm calls (file_store fresh_disk) (ground arith)
      (construct-IsDurable (codes "kv.txt") fresh_disk refl refl)

construct-IsDurable_test : IsDurable (construct (codes "kv.txt") old_disk)
construct-IsDurable_test = construct-IsDurable (codes "kv.txt") old_disk refl refl

runs-model_run_example :
    ((run in_memory_engine (put (codes "a") (codes "1") ∷ later) memory_store).0
      ≡ model_run (put (codes "a") (codes "1") ∷ later) (memory_view memory_store.engine))
    × ((run
          (file_based_engine backwards)
          (put (codes "a") (codes "1") ∷ later)
          (file_store fresh_disk)).0
        ≡ model_run
            (put (codes "a") (codes "1") ∷ later)
            (file_view (file_store fresh_disk).engine))
runs-model_run_example =
    runs-model_run backwards (put (codes "a") (codes "1") ∷ later) memory_store
      (file_store fresh_disk)

nothing_stored : (j : Text) → lookup j [] ≡ lookup j (construct (codes "kv.txt") fresh_disk).store
unfolding lookup construct
nothing_stored j = refl

run-engines_test :
    (run in_memory_engine calls memory_store).0
    ≡ (run (file_based_engine backwards) calls (file_store fresh_disk)).0
run-engines_test =
    run-engines in_memory_engine (file_based_engine backwards) memory_view file_view in_memory-IsMap
      (file_based-IsMap backwards) memory_store (file_store fresh_disk) nothing_stored calls

file_based-Contract_example : IsMap (file_based_engine backwards) file_view
file_based-Contract_example = file_based-IsMap backwards

abbrev two_entries : Table
two_entries = (codes "a", codes "1") ∷ (codes "b", []) ∷ []

two_entries-Distinct : Distinct two_entries
unfolding lookup text_eq
two_entries-Distinct = (refl, (refl, tt))

lookup-load-serialize_test :
    lookup (codes "b") (load_lines [] (lines (serialize (backwards two_entries))))
    ≡ lookup (codes "b") two_entries
lookup-load-serialize_test =
    lookup-load-serialize (backwards two_entries) two_entries (codes "b")
      (Perm.symm (reverse_perm two_entries)) two_entries-Distinct (ground arith)

write-unwritable_example :
    let e = construct (codes "kv.txt") read_only in
    let e' = (write backwards (codes "k") (codes "v") e).1 in
    ((write backwards (codes "k") (codes "v") e).0 ≡ true)
    × ((read (codes "k") e').0 ≡ some (codes "v"))
    × (e'.disk ≡ e.disk)
    × (e'.cerr
        ≡ e.cerr ++ (codes "Error: Cannot open file for writing: " ++ quoted e.file_path) ∷ [])
write-unwritable_example =
    write-unwritable backwards (codes "k") (codes "v") (construct (codes "kv.txt") read_only) refl
      read_only-construct

newline_cuts_value_test :
    (read
      (codes "k")
      (restart (write backwards (codes "k") (codes "v" ++ newline ∷ codes "w") fresh).1)).0
    ≡ some (codes "v")
newline_cuts_value_test =
    newline_cuts_value backwards reverse_perm (codes "k") (codes "v") (codes "w") fresh refl
      (ground arith) (ground arith) (ground arith) refl refl refl

equals_cuts_key_example :
    let e = restart (write backwards (codes "a" ++ equals_sign ∷ codes "b") (codes "v") fresh).1 in
    ((read (codes "a" ++ equals_sign ∷ codes "b") e).0 ≡ none)
    × ((read (codes "a") e).0 ≡ some (codes "b" ++ equals_sign ∷ codes "v"))
equals_cuts_key_example =
    equals_cuts_key backwards reverse_perm (codes "a") (codes "b") (codes "v") fresh refl
      (ground arith) (ground arith) (ground arith) refl refl refl

cout_scopes_test :
    (Memory.write [] (codes "v") empty_memory).1.cout
    ≡ scope_lines (codes "InMemoryStorageEngine::write")
cout_scopes_test = (cout_scopes [] (codes "v") empty_memory).0
