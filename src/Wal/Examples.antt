-- ===== src/Wal/Examples.antt =====
-- Witnesses for the store with a log, with a simple notation in place of JSON.
use build_your_own_stuff.Prelude.{
  ℕ, zero, suc, ◌≤◌, ◌≡◌, refl, true, Option, none, some, List, [], ◌∷◌, ◌++◌, length, replicate,
  Text, codes, find, find-none, Lacks, arith, ◌==◌, if◌then◌else◌,
}
use build_your_own_stuff.Kv.Table.{lookup}
use build_your_own_stuff.Wal.Store.{
  LogEntry, whole, torn, KvStore, put_entry, delete_entry, drop_cr, Call, puts, deletes, put, run,
  new_kv_store, max_scan_token_size,
}
use build_your_own_stuff.Wal.Recovery.{IsLoggable, run-recovered, empty-IsDurable}
use build_your_own_stuff.Wal.Faults.{long_put_blocks, torn_line_loses_put}
use build_your_own_stuff.Wal.Race.{Caller, Callers, steps, calling, returned, puts_race}

-- {kind key value}, with ':' behind the first two
abbrev notation : LogEntry → Text
notation e = b'{' ∷ (e.kind ++ b':' ∷ (e.key ++ b':' ∷ (e.value ++ b'}' ∷ [])))

abbrev until : ℕ → Text → Option (Text × Text)
until c [] = none
until c (x ∷ xs) =
    let rest : Option (Text × Text) = elim (until c xs) [
      | none ↦ none
      | some (front, back) ↦ some (x ∷ front, back)
    ] in
    if x == c then some ([], xs) else rest

abbrev last_field : Text → Text → Option (Text × Text) → Option LogEntry
last_field kind key (some (value, [])) = some (record { kind = kind; key = key; value = value })
last_field kind key _ = none

abbrev next_field : Text → Option (Text × Text) → Option LogEntry
next_field kind none = none
next_field kind (some (key, rest)) = last_field kind key (until b'}' rest)

abbrev first_field : Option (Text × Text) → Option LogEntry
first_field none = none
first_field (some (kind, rest)) = next_field kind (until b':' rest)

abbrev read_back : Text → Option LogEntry
read_back [] = none
read_back (c ∷ cs) = if c == b'{' then first_field (until b':' cs) else none

abbrev empty : KvStore
empty = record { store = []; log = [] }

abbrev some_calls : List Call
some_calls =
    puts whole (codes "a") (codes "x")
    ∷ deletes (torn 0) (codes "a")
    ∷ deletes whole (codes "b")
    ∷ []

a_x : IsLoggable notation read_back (put_entry (codes "a") (codes "x"))
unfolding find
a_x = record {
  one_line = find-none 10 (notation (put_entry (codes "a") (codes "x"))) refl;
  no_return = find-none 13 (notation (put_entry (codes "a") (codes "x"))) refl;
  fits = omega arith;
  reads_back = refl;
}

a_y : IsLoggable notation read_back (put_entry (codes "a") (codes "y"))
unfolding find
a_y = record {
  one_line = find-none 10 (notation (put_entry (codes "a") (codes "y"))) refl;
  no_return = find-none 13 (notation (put_entry (codes "a") (codes "y"))) refl;
  fits = omega arith;
  reads_back = refl;
}

no_b : IsLoggable notation read_back (delete_entry (codes "b"))
unfolding find
no_b = record {
  one_line = find-none 10 (notation (delete_entry (codes "b"))) refl;
  no_return = find-none 13 (notation (delete_entry (codes "b"))) refl;
  fits = omega arith;
  reads_back = refl;
}

run-recovered_example :
    new_kv_store notation read_back (run notation read_back some_calls empty).log
    ≡ some (run notation read_back some_calls empty)
run-recovered_example =
    run-recovered notation read_back some_calls empty (empty-IsDurable notation read_back)
      (a_x, (refl, (no_b, tt)))

Lacks-replicate : (n : ℕ) (after : Text) → Lacks 10 after → Lacks 10 (replicate n b'a' ++ after)
Lacks-replicate zero after h = h
Lacks-replicate (suc n) after h = (refl, Lacks-replicate n after h)

longer-replicate : (n : ℕ) (after : Text) → n ≤ length (replicate n b'a' ++ after)
longer-replicate zero after = omega arith
longer-replicate (suc n) after = omega (arith, longer-replicate n after)

longer-notation :
    (n : ℕ) (value : Text)
    → n ≤ length (value ++ b'}' ∷ [])
    → n ≤ length (notation (put_entry (codes "a") value))
longer-notation n value h = omega arith

long_put_blocks_example :
    ((put notation read_back whole (codes "a") (replicate max_scan_token_size b'a') empty).0 ≡ true)
    × (new_kv_store notation read_back
          (run notation read_back
            (puts whole (codes "a") (replicate max_scan_token_size b'a')
              ∷ deletes whole (codes "a")
              ∷ [])
            empty).log
        ≡ none)
long_put_blocks_example =
    long_put_blocks notation read_back (codes "a") (replicate max_scan_token_size b'a')
      (deletes whole (codes "a") ∷ []) empty (empty-IsDurable notation read_back)
      (
        refl,
        (
          refl,
          (
            refl,
            (
              refl,
              (refl, (refl, (refl, Lacks-replicate max_scan_token_size (b'}' ∷ []) (refl, tt)))),
            ),
          ),
        ),
      )
      (longer-notation max_scan_token_size (replicate max_scan_token_size b'a')
        (longer-replicate max_scan_token_size (b'}' ∷ [])))

-- The newline of the first entry is not written.
abbrev behind_torn : KvStore
behind_torn = (put notation read_back (torn 9) (codes "q") (codes "r") empty).1

torn_line_loses_put_example :
    ((put notation read_back whole (codes "a") (codes "x") behind_torn).0 ≡ true)
    × (lookup (codes "a") (put notation read_back whole (codes "a") (codes "x") behind_torn).1.store
        ≡ some (codes "x"))
    × (new_kv_store notation read_back
          (put notation read_back whole (codes "a") (codes "x") behind_torn).1.log
        ≡ some (record {
          store = [];
          log = (put notation read_back whole (codes "a") (codes "x") behind_torn).1.log;
        }))
unfolding drop_cr find
torn_line_loses_put_example =
    torn_line_loses_put notation read_back 9 (codes "q") (codes "r") (codes "a") (codes "x") empty
      (empty-IsDurable notation read_back)
      (find-none 10
        (notation (put_entry (codes "q") (codes "r"))
          ++ notation (put_entry (codes "a") (codes "x")))
        refl)
      (omega arith) refl

puts_race_example :
    (schedule : List Caller) × (end : Callers) × (restarted : KvStore) × (steps notation read_back
        (codes "a")
        (codes "x")
        (codes "y")
        schedule
        (calling notation read_back empty)
      ≡ some end)
    × (end.first_at ≡ returned)
    × (end.second_at ≡ returned)
    × (lookup (codes "a") end.kv.store ≡ some (codes "x"))
    × (new_kv_store notation read_back end.kv.log ≡ some restarted)
    × (lookup (codes "a") restarted.store ≡ some (codes "y"))
puts_race_example =
    puts_race notation read_back (codes "a") (codes "x") (codes "y") empty
      (empty-IsDurable notation read_back) a_x a_y
