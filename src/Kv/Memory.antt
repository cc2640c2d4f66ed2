-- ===== src/Kv/Memory.antt =====
-- simple-kv-cpp/src/in_memory_kv_store.cpp with include/utils/scope_logger.h: the engine that keeps
-- its table in memory and prints when a method is entered and left.
use build_your_own_stuff.Prelude.{
  ◌≡◌, ap, ◌∙◌, append_assoc, Bool, true, false, not, Option, none, some, List, [], ◌∷◌, ◌++◌,
  arith, Text, codes, text_eq, if◌then◌else◌,
}
use build_your_own_stuff.Kv.Table.{
  Table, lookup, assign, without, has_key, lookup-assign, lookup-without,
}
use build_your_own_stuff.Kv.Engine.{StorageEngine, IsMap, is_empty}

-- `cout` holds the lines printed so far, the oldest first.
pub record InMemoryStorageEngine : Type 0 where
  pub store : Table
  pub cout : List Text

abbrev pub enter_line : Text → Text
enter_line scope = codes "[ENTER] " ++ scope

abbrev pub exit_line : Text → Text
exit_line scope = codes "[EXIT ] " ++ scope

print : Text → InMemoryStorageEngine → InMemoryStorageEngine
print line e = record e { cout = e.cout ++ line ∷ [] }

-- A block that begins with `ScopeLogger log(scope)`: its destructor runs whichever way it is left.
scoped :
    {A : Type 0}
    → Text
    → (InMemoryStorageEngine → A × InMemoryStorageEngine)
    → InMemoryStorageEngine
    → A × InMemoryStorageEngine
unfolding print
scoped scope body e =
    let (r, e') = body (print (enter_line scope) e) in (r, print (exit_line scope) e')

write_body : Text → Text → InMemoryStorageEngine → Bool × InMemoryStorageEngine
write_body key value e =
    if is_empty key then (false, e) else (true, record e { store = assign key value e.store })

read_body : Text → InMemoryStorageEngine → Option Text × InMemoryStorageEngine
read_body key e = if is_empty key then (none, e) else (lookup key e.store, e)

erase_body : Text → InMemoryStorageEngine → Bool × InMemoryStorageEngine
erase_body key e =
    if is_empty key
    then (false, e)
    else (has_key key e.store, record e { store = without key e.store })

unfoldable pub write : Text → Text → InMemoryStorageEngine → Bool × InMemoryStorageEngine
unfolding scoped write_body
write key value = scoped (codes "InMemoryStorageEngine::write") (write_body key value)

unfoldable pub read : Text → InMemoryStorageEngine → Option Text × InMemoryStorageEngine
unfolding scoped read_body
read key = scoped (codes "InMemoryStorageEngine::read") (read_body key)

unfoldable pub erase : Text → InMemoryStorageEngine → Bool × InMemoryStorageEngine
unfolding scoped erase_body has_key
erase key = scoped (codes "InMemoryStorageEngine::erase") (erase_body key)

abbrev pub in_memory_engine : StorageEngine
in_memory_engine = record {
  State = InMemoryStorageEngine;
  write = write;
  read = read;
  erase = erase;
}

module _ (k v : Text) (e : InMemoryStorageEngine) where
  reply-write : (write k v e).0 ≡ not (is_empty k)
  unfolding write
  reply-write = ground arith

  view-write :
      (j : Text)
      → lookup j (write k v e).1.store ≡ (
          if is_empty k then lookup j e.store else if text_eq k j then some v else lookup j e.store)
  unfolding write
  view-write j = ground (arith, lookup-assign k j v e.store)

module _ (k : Text) (e : InMemoryStorageEngine) where
  reply-read : (read k e).0 ≡ (if is_empty k then none else lookup k e.store)
  unfolding read
  reply-read = ground arith

  view-read : (j : Text) → lookup j (read k e).1.store ≡ lookup j e.store
  unfolding read
  view-read j = ground arith

  reply-erase :
      (erase k e).0
      ≡ (if is_empty k then false else elim (lookup k e.store) [ none ↦ false | some _ ↦ true ])
  unfolding erase
  reply-erase = ground arith

  view-erase :
      (j : Text)
      → lookup j (erase k e).1.store
        ≡ (if is_empty k then lookup j e.store else if text_eq k j then none else lookup j e.store)
  unfolding erase
  view-erase j = ground (arith, lookup-without k j e.store)

-- What the engine holds under a key.
abbrev pub memory_view : InMemoryStorageEngine → Text → Option Text
memory_view e k = lookup k e.store

-- The in-memory engine answers as a map does.
pub in_memory-IsMap : IsMap in_memory_engine memory_view
in_memory-IsMap = record {
  reply-write = reply-write;
  view-write = view-write;
  reply-read = reply-read;
  view-read = view-read;
  reply-erase = λ k e. ground (arith, reply-erase k e);
  view-erase = view-erase;
}

-- The lines that one call of a method prints.
abbrev pub scope_lines : Text → List Text
scope_lines name = enter_line name ∷ exit_line name ∷ []

cout-scoped :
    {A : Type 0} (name : Text) (body : InMemoryStorageEngine → A × InMemoryStorageEngine)
    → ((e : InMemoryStorageEngine) → (body e).1.cout ≡ e.cout)
    → (e : InMemoryStorageEngine) → (scoped name body e).1.cout ≡ e.cout ++ scope_lines name
unfolding scoped
cout-scoped name body h e =
    ap (λ c. c ++ exit_line name ∷ []) (h (print (enter_line name) e))
    ∙ append_assoc e.cout (enter_line name ∷ []) (exit_line name ∷ [])

cout-write_body : (k v : Text) (e : InMemoryStorageEngine) → (write_body k v e).1.cout ≡ e.cout
unfolding write_body
cout-write_body k v e = ground arith

cout-read_body : (k : Text) (e : InMemoryStorageEngine) → (read_body k e).1.cout ≡ e.cout
unfolding read_body
cout-read_body k e = ground arith

cout-erase_body : (k : Text) (e : InMemoryStorageEngine) → (erase_body k e).1.cout ≡ e.cout
unfolding erase_body
cout-erase_body k e = ground arith

-- Every method of the in-memory engine prints its entry and then its exit, and nothing else, on
-- each way out of it.
pub cout_scopes :
    (k v : Text) (e : InMemoryStorageEngine)
    → ((write k v e).1.cout ≡ e.cout ++ scope_lines (codes "InMemoryStorageEngine::write"))
      × ((read k e).1.cout ≡ e.cout ++ scope_lines (codes "InMemoryStorageEngine::read"))
      × ((erase k e).1.cout ≡ e.cout ++ scope_lines (codes "InMemoryStorageEngine::erase"))
unfolding write read erase
cout_scopes k v e = (
  cout-scoped (codes "InMemoryStorageEngine::write") (write_body k v) (cout-write_body k v) e,
  cout-scoped (codes "InMemoryStorageEngine::read") (read_body k) (cout-read_body k) e,
  cout-scoped (codes "InMemoryStorageEngine::erase") (erase_body k) (cout-erase_body k) e,
)
