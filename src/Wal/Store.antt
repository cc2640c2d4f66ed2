-- ===== src/Wal/Store.antt =====
-- database/wal_kvstore/main.go: KVStore, its log and its recovery. The map is an association list, and
-- the log the bytes of its file; encoding/json is an argument, and so is what a write to the file
-- does. That the file cannot be opened, seeked or read is left out.
use build_your_own_stuff.Prelude.{
  ℕ, ◌^◌, Bool, true, false, Option, none, some, List, [], ◌∷◌, ◌++◌, length, take, Text, codes,
  text_eq, ltb, ◌==◌, if◌then◌else◌,
}
use build_your_own_stuff.Kv.Table.{Table, assign, without}
use build_your_own_stuff.Kv.FileFormat.{lines}

-- `kind` is the field Type.
pub record LogEntry : Type 0 where
  pub kind : Text
  pub key : Text
  pub value : Text

-- What the file takes of the bytes that are written: all of them, or a number of them and an error.
pub data Written : Type 0 where
  whole : Written
  torn : ℕ → Written

pub record KvStore : Type 0 where
  pub store : Table
  pub log : Text

abbrev pub put_entry : Text → Text → LogEntry
put_entry key value = record { kind = codes "put"; key = key; value = value }

abbrev pub delete_entry : Text → LogEntry
delete_entry key = record { kind = codes "delete"; key = key; value = [] }

-- The switch of recoverFromWAL.
unfoldable pub replay : LogEntry → Table → Table
replay entry store =
    if text_eq entry.kind (codes "put")
    then assign entry.key entry.value store
    else if text_eq entry.kind (codes "delete")
    then without entry.key store
    else store

-- bufio.ScanLines takes one '\r' off the end of a line.
unfoldable pub drop_cr : Text → Text
drop_cr [] = []
drop_cr (c ∷ []) = if c == 13 then [] else c ∷ []
drop_cr (c ∷ d ∷ ds) = c ∷ drop_cr (d ∷ ds)

-- bufio.MaxScanTokenSize: a line has to fit a buffer of so many bytes with its newline.
abbrev pub max_scan_token_size : ℕ
max_scan_token_size = 2 ^ 16

module _ (marshal : LogEntry → Text) (unmarshal : Text → Option LogEntry) where
  -- A line that is no entry is passed over.
  unfoldable pub replay_line : Text → Table → Table
  unfolding replay drop_cr
  replay_line line store = elim (unmarshal (drop_cr line)) [
    | none ↦ store
    | some entry ↦ replay entry store
  ]

  -- The loop over the scanner; `none` is scanner.Err() for a line that is too long.
  unfoldable pub recover_lines : List Text → Table → Option Table
  recover_lines [] store = some store
  recover_lines (line ∷ ls) store =
      if ltb (length line) max_scan_token_size
      then recover_lines ls (replay_line line store)
      else none

  -- NewKVStore on a file that holds the log: `none` is its error.
  unfoldable pub new_kv_store : Text → Option KvStore
  new_kv_store log = elim (recover_lines (lines log) []) [
    | none ↦ none
    | some store ↦ some (record { store = store; log = log })
  ]

  -- writeToWAL: the log behind it, and whether there was no error
  unfoldable pub write_to_wal : Written → LogEntry → Text → Text × Bool
  write_to_wal whole entry log = (log ++ (marshal entry ++ 10 ∷ []), true)
  write_to_wal (torn n) entry log = (log ++ take n (marshal entry ++ 10 ∷ []), false)

  -- Put and Delete behind writeToWAL
  unfoldable pub applied : (Table → Table) → Text × Bool → KvStore → Bool × KvStore
  applied change (log, true) kv = (true, record { store = change kv.store; log = log })
  applied change (log, false) kv = (false, record kv { log = log })

  unfoldable pub put : Written → Text → Text → KvStore → Bool × KvStore
  unfolding applied write_to_wal
  put written key value kv =
      applied (assign key value) (write_to_wal written (put_entry key value) kv.log) kv

  unfoldable pub delete : Written → Text → KvStore → Bool × KvStore
  unfolding applied write_to_wal
  delete written key kv = applied (without key) (write_to_wal written (delete_entry key) kv.log) kv

-- A call of a client, with what becomes of its write.
pub data Call : Type 0 where
  puts : Written → Text → Text → Call
  deletes : Written → Text → Call

module _ (marshal : LogEntry → Text) (unmarshal : Text → Option LogEntry) where
  unfoldable pub execute : Call → KvStore → KvStore
  unfolding put delete
  execute (puts written key value) kv = (put marshal unmarshal written key value kv).1
  execute (deletes written key) kv = (delete marshal unmarshal written key kv).1

  unfoldable pub run : List Call → KvStore → KvStore
  unfolding execute
  run [] kv = kv
  run (c ∷ calls) kv = run calls (execute c kv)
