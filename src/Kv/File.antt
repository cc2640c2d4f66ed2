-- ===== src/Kv/File.antt =====
-- simple-kv-cpp/src/file_based_kv_store.cpp: the engine that saves its table to a text file after
-- every change and loads it when it is constructed.
use build_your_own_stuff.Prelude.{
  ◌≡◌, Bool, true, false, not, Option, none, some, List, [], ◌∷◌, ◌++◌, arith, Text, codes, text_eq,
  ◌||◌, ◌==◌, if◌then◌else◌,
}
use build_your_own_stuff.Kv.Table.{
  Table, lookup, assign, without, has_key, lookup-assign, lookup-without,
}
use build_your_own_stuff.Kv.Engine.{StorageEngine, IsMap, is_empty}
use build_your_own_stuff.Kv.FileFormat.{serialize, lines, load_lines}

-- The file at `file_path_`: its content if it exists, and whether it can be opened.
pub record Disk : Type 0 where
  pub content : Option Text
  pub readable : Bool
  pub writable : Bool

-- The engine and what it can reach: its file, and the lines that it printed to std::cerr.
pub record FileBasedStorageEngine : Type 0 where
  pub file_path : Text
  pub store : Table
  pub disk : Disk
  pub cerr : List Text

-- std::quoted, by which operator<< prints a std::filesystem::path
abbrev pub escaped : Text → Text
escaped [] = []
escaped (c ∷ cs) =
    let rest = escaped cs in if c == b'"' || c == b'\\' then b'\\' ∷ c ∷ rest else c ∷ rest

abbrev pub quoted : Text → Text
quoted path = b'"' ∷ (escaped path ++ b'"' ∷ [])

-- std::ifstream file(file_path_): what it can read, or `none` if it is not open
unfoldable pub open_input : Disk → Option Text
open_input d = if d.readable then d.content else none

-- std::ofstream opens for writing by emptying the file, and the loop then fills it.
unfoldable pub replace_content : Text → Disk → Disk
replace_content t d = record d { content = some t }

unfoldable pub load_from_file : FileBasedStorageEngine → FileBasedStorageEngine
unfolding open_input
load_from_file e = elim (open_input e.disk) [
  | none ↦ record e { store = [] }
  | some text ↦ record e { store = load_lines [] (lines text) }
]

-- The constructor.
unfoldable pub construct : Text → Disk → FileBasedStorageEngine
unfolding load_from_file
construct path d = load_from_file (record { file_path = path; store = []; disk = d; cerr = [] })

-- The process ends and another constructs an engine over the same file.
unfoldable pub restart : FileBasedStorageEngine → FileBasedStorageEngine
unfolding construct
restart e = construct e.file_path e.disk

unfoldable pub read : Text → FileBasedStorageEngine → Option Text × FileBasedStorageEngine
read key e = if is_empty key then (none, e) else (lookup key e.store, e)

-- What the engine holds under a key.
abbrev pub file_view : FileBasedStorageEngine → Text → Option Text
file_view e k = lookup k e.store

-- `order` is the order in which an iteration over the std::unordered_map meets its elements.
module _ (order : Table → Table) where
  unfoldable pub save_to_file : FileBasedStorageEngine → FileBasedStorageEngine
  unfolding replace_content
  save_to_file e =
      if e.disk.writable
      then record e { disk = replace_content (serialize (order e.store)) e.disk }
      else record e {
        cerr = e.cerr ++ (codes "Error: Cannot open file for writing: " ++ quoted e.file_path) ∷ [];
      }

  unfoldable pub write : Text → Text → FileBasedStorageEngine → Bool × FileBasedStorageEngine
  unfolding save_to_file
  write key value e =
      if is_empty key
      then (false, e)
      else (true, save_to_file (record e { store = assign key value e.store }))

  unfoldable pub erase : Text → FileBasedStorageEngine → Bool × FileBasedStorageEngine
  unfolding save_to_file has_key
  erase key e =
      if is_empty key
      then (false, e)
      else (let erased = has_key key e.store in
          let e' : FileBasedStorageEngine = record e { store = without key e.store } in
          (erased, if erased then save_to_file e' else e'))

  abbrev pub file_based_engine : StorageEngine
  file_based_engine = record {
    State = FileBasedStorageEngine;
    write = write;
    read = read;
    erase = erase;
  }

  module _ (k v : Text) (e : FileBasedStorageEngine) where
    reply-write : (write k v e).0 ≡ not (is_empty k)
    unfolding write
    reply-write = ground arith

    pub store-write : (write k v e).1.store ≡ (if is_empty k then e.store else assign k v e.store)
    unfolding write
    store-write = ground arith

    view-write :
        (j : Text)
        → lookup j (write k v e).1.store ≡ (
            if is_empty k
            then lookup j e.store
            else if text_eq k j
            then some v
            else lookup j e.store)
    view-write j = ground (arith, store-write, lookup-assign k j v e.store)

  module _ (k : Text) (e : FileBasedStorageEngine) where
    reply-read : (read k e).0 ≡ (if is_empty k then none else lookup k e.store)
    unfolding read
    reply-read = ground arith

    view-read : (j : Text) → lookup j (read k e).1.store ≡ lookup j e.store
    unfolding read
    view-read j = ground arith

    reply-erase :
        (erase k e).0
        ≡ (if is_empty k then false else (elim (lookup k e.store) [ none ↦ false | some _ ↦ true ]))
    unfolding erase
    reply-erase = ground arith

    pub store-erase : (erase k e).1.store ≡ (if is_empty k then e.store else without k e.store)
    unfolding erase
    store-erase = ground arith

    view-erase :
        (j : Text)
        → lookup j (erase k e).1.store ≡ (
            if is_empty k then lookup j e.store else if text_eq k j then none else lookup j e.store)
    view-erase j = ground (arith, store-erase, lookup-without k j e.store)

  -- The file-based engine answers as a map does, whatever becomes of the file.
  pub file_based-IsMap : IsMap file_based_engine file_view
  file_based-IsMap = record {
    reply-write = reply-write;
    view-write = view-write;
    reply-read = reply-read;
    view-read = view-read;
    reply-erase = λ k e. ground (arith, reply-erase k e);
    view-erase = view-erase;
  }
