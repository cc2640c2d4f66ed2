-- ===== src/Kv/Persistence.antt =====
-- What a process that starts later finds in the file of simple-kv-cpp/src/file_based_kv_store.cpp.
use build_your_own_stuff.Prelude.{
  ◌≡◌, ap, sym, ◌∙◌, true, false, Bool-cases, Option-cases, inl, inr, Option, none, some, List, [],
  ◌∷◌, arith, Text, Perm,
}
use mathlib.Core.List.Perm
use build_your_own_stuff.Kv.Table.{
  Table, lookup, assign, without, Distinct, assign-Distinct, without-Distinct,
}
use build_your_own_stuff.Kv.Engine.{is_empty}
use build_your_own_stuff.Kv.FileFormat.{
  serialize, lines, load_lines, IsClean, IsCleanKey, IsCleanValue,
}
use build_your_own_stuff.Kv.Order.{lookup-load-serialize}
use build_your_own_stuff.Kv.Clean.{
  assign-IsClean, without-IsClean, load-IsClean, load-Distinct, without-missing,
}
use build_your_own_stuff.Kv.File.{
  Disk, FileBasedStorageEngine, open_input, construct, restart, save_to_file, write, read, erase,
  file_view, file_based_engine, file_based-IsMap,
}
use build_your_own_stuff.Kv.Store.{Command, put, get, remove, KeyValueStore, execute, run}
use build_your_own_stuff.Kv.Refinement.{run-engines}

-- The file can be opened, and a process that loads it finds what the engine holds.
pub record IsDurable (e : FileBasedStorageEngine) : Type 0 where
  pub distinct : Distinct e.store
  pub clean : IsClean e.store
  pub opens : e.disk.readable ≡ true
  pub saves : e.disk.writable ≡ true
  pub reloads : (j : Text) → lookup j (restart e).store ≡ lookup j e.store

-- What `load_from_file` makes of what it could open.
abbrev loaded : Option Text → Table
loaded none = []
loaded (some text) = load_lines [] (lines text)

store-construct : (path : Text) (d : Disk) → (construct path d).store ≡ loaded (open_input d)
unfolding construct
store-construct path d = ground arith

disk-construct : (path : Text) (d : Disk) → (construct path d).disk ≡ d
unfolding construct
disk-construct path d = ground arith

store-restart : (e : FileBasedStorageEngine) → (restart e).store ≡ loaded (open_input e.disk)
unfolding restart
store-restart e = store-construct e.file_path e.disk

loaded-IsClean : (o : Option Text) → IsClean (loaded o)
loaded-IsClean none = tt
loaded-IsClean (some text) = load-IsClean text

loaded-Distinct : (o : Option Text) → Distinct (loaded o)
loaded-Distinct none = tt
loaded-Distinct (some text) = load-Distinct text

-- A freshly constructed engine is durable, whatever its file holds, if the file can be opened.
pub construct-IsDurable :
    (path : Text) (d : Disk) → d.readable ≡ true → d.writable ≡ true → IsDurable (construct path d)
construct-IsDurable path d r w = record {
  distinct = rw store-construct (loaded-Distinct (open_input d));
  clean = rw store-construct (loaded-IsClean (open_input d));
  opens = rw disk-construct r;
  saves = rw disk-construct w;
  reloads = λ j.
      ap (lookup j) (store-restart (construct path d))
      ∙ ap (λ t. lookup j (loaded (open_input t))) (disk-construct path d)
      ∙ ap (lookup j) (sym (store-construct path d));
}

-- A call that puts only what the file format can hold.
abbrev pub IsCleanCommand : Command → Type 0
IsCleanCommand (put k v) = IsCleanKey k × IsCleanValue v
IsCleanCommand (get k) = Unit {0}
IsCleanCommand (remove k) = Unit {0}

abbrev pub AllClean : List Command → Type 0
AllClean [] = Unit {0}
AllClean (c ∷ cs) = IsCleanCommand c × AllClean cs

module _ (order : Table → Table) where
  abbrev pub FileStore : Type 0
  FileStore = KeyValueStore (file_based_engine order)

  -- The store after the calls, and after a restart of its process.
  abbrev pub after_calls : Text → Disk → List Command → FileStore
  after_calls path d cs =
      (run (file_based_engine order) cs (record { engine = construct path d })).1

  abbrev pub restarted : FileStore → FileStore
  restarted kv = record { engine = restart kv.engine }

module _ (order : Table → Table) (visits : (m : Table) → Perm (order m) m) where
  open_input-save :
      (e : FileBasedStorageEngine)
      → e.disk.readable ≡ true
      → e.disk.writable ≡ true
      → open_input (save_to_file order e).disk ≡ some (serialize (order e.store))
  unfolding open_input save_to_file
  open_input-save e r w = ground arith

  save-IsDurable :
      (e : FileBasedStorageEngine)
      → Distinct e.store
      → IsClean e.store
      → e.disk.readable ≡ true
      → e.disk.writable ≡ true
      → IsDurable (save_to_file order e)
  unfolding save_to_file
  save-IsDurable e d c r w = record {
    distinct = rw w d;
    clean = rw w c;
    opens = rw w r;
    saves = ground arith;
    reloads = λ j.
        ap (lookup j) (store-restart (save_to_file order e))
        ∙ ap (λ o. lookup j (loaded o)) (open_input-save e r w)
        ∙ lookup-load-serialize (order e.store) e.store j (Perm.symm (visits e.store)) d c
        ∙ ground arith;
  }

  -- A write of a clean key and value keeps the engine durable.
  pub write-IsDurable :
      (k v : Text) (e : FileBasedStorageEngine)
      → IsCleanKey k
      → IsCleanValue v
      → IsDurable e
      → IsDurable (write order k v e).1
  unfolding write
  write-IsDurable k v e ck cv h = elim (Bool-cases (is_empty k)) [
    | inl empty ↦ rw empty h
    | inr given ↦ rw given (
        save-IsDurable (record e { store = assign k v e.store })
          (assign-Distinct k v e.store h.distinct) (assign-IsClean k v e.store ck cv h.clean)
          h.opens h.saves)
  ]

  erase-missing :
      (k : Text) (e : FileBasedStorageEngine) → lookup k e.store ≡ none → (erase order k e).1 ≡ e
  unfolding erase
  erase-missing k e h = ground (arith, without-missing k e.store)

  erase-there :
      (k v : Text) (e : FileBasedStorageEngine)
      → is_empty k ≡ false
      → lookup k e.store ≡ some v
      → (erase order k e).1 ≡ save_to_file order (record e { store = without k e.store })
  unfolding erase
  erase-there k v e g h = ground arith

  -- So does an erasure, which saves only if the key was there.
  pub erase-IsDurable :
      (k : Text) (e : FileBasedStorageEngine) → IsDurable e → IsDurable (erase order k e).1
  erase-IsDurable k e h = elim (Bool-cases (is_empty k)) [
    | inl empty ↦ rw (erase-empty k e empty) h
    | inr given ↦ elim (Option-cases (lookup k e.store)) [
      | inl missing ↦ rw (erase-missing k e missing) h
      | inr (v, there) ↦ rw (erase-there k v e given there) (
          save-IsDurable (record e { store = without k e.store })
            (without-Distinct k e.store h.distinct) (without-IsClean k e.store h.clean) h.opens
            h.saves)
    ]
  ]
    where
      erase-empty :
          (k : Text) (e : FileBasedStorageEngine) → is_empty k ≡ true → (erase order k e).1 ≡ e
      erase-empty k e g = unfold erase in (ground arith)

  read-IsDurable : (k : Text) (e : FileBasedStorageEngine) → IsDurable e → IsDurable (read k e).1
  unfolding read
  read-IsDurable k e h = elim (Bool-cases (is_empty k)) [
    | inl empty ↦ rw empty h
    | inr given ↦ rw given h
  ]

  execute-IsDurable :
      (c : Command) (kv : FileStore order)
      → IsCleanCommand c
      → IsDurable kv.engine
      → IsDurable (execute (file_based_engine order) c kv).1.engine
  unfolding execute
  execute-IsDurable (put k v) kv c h = write-IsDurable k v kv.engine c.0 c.1 h
  execute-IsDurable (get k) kv c h = read-IsDurable k kv.engine h
  execute-IsDurable (remove k) kv c h = erase-IsDurable k kv.engine h

  -- After any calls that put clean keys and values, an engine that was durable still is.
  pub run-IsDurable :
      (cs : List Command) (kv : FileStore order)
      → AllClean cs
      → IsDurable kv.engine
      → IsDurable (run (file_based_engine order) cs kv).1.engine
  unfolding run
  run-IsDurable [] kv c h = h
  run-IsDurable (x ∷ cs) kv c h =
      run-IsDurable cs (execute (file_based_engine order) x kv).1 c.1 (execute-IsDurable x kv c.0 h)

  -- If the file can be opened, then a restart after any calls that put clean keys and values does
  -- not show: all later calls return what they would have returned without it.
  pub run-restarted :
      (path : Text) (d : Disk) (cs ds : List Command)
      → d.readable ≡ true
      → d.writable ≡ true
      → AllClean cs
      → (run (file_based_engine order) ds (restarted order (after_calls order path d cs))).0
        ≡ (run (file_based_engine order) ds (after_calls order path d cs)).0
  run-restarted path d cs ds r w c =
      run-engines (file_based_engine order) (file_based_engine order) file_view file_view
        (file_based-IsMap order) (file_based-IsMap order)
        (restarted order (after_calls order path d cs)) (after_calls order path d cs)
        (λ j. durable.reloads j) ds
    where
      durable : IsDurable (after_calls order path d cs).engine
      durable =
          run-IsDurable cs (record { engine = construct path d }) c (construct-IsDurable path d r w)
