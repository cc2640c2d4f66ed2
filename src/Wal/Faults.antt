-- ===== src/Wal/Faults.antt =====
-- Logs from which recoverFromWAL of database/wal_kvstore/main.go does not get all that was put.
use build_your_own_stuff.Prelude.{
  ℕ, ◌≤◌, ◌<◌, ◌≡◌, refl, ap, sym, ◌∙◌, true, false, Option, none, some, List, [], ◌∷◌, ◌++◌,
  append_assoc, append-nil, length, take, Text, text_eq_refl, Lacks, ltb, lt→ltb, arith,
  if◌then◌else◌,
}
use build_your_own_stuff.Kv.Table.{Table, lookup, assign, lookup-assign}
use build_your_own_stuff.Kv.FileFormat.{lines, lines-append_newline}
use build_your_own_stuff.Wal.Store.{
  LogEntry, whole, torn, KvStore, put_entry, drop_cr, max_scan_token_size, replay_line,
  recover_lines, new_kv_store, write_to_wal, applied, put, delete, Call, puts, deletes, execute,
  run,
}
use build_your_own_stuff.Wal.Recovery.{lines-unlines, IsDurable, recover_then, recover_lines-append}

module _ (marshal : LogEntry → Text) (unmarshal : Text → Option LogEntry) where
  -- What is recovered from the log of a durable store with more behind it.
  recovered-more :
      (kv : KvStore) (more : Text)
      → IsDurable marshal unmarshal kv
      → recover_lines marshal unmarshal (lines (kv.log ++ more)) []
        ≡ recover_lines marshal unmarshal (lines more) kv.store
  recovered-more kv more d =
      ap (λ log. recover_lines marshal unmarshal (lines (log ++ more)) []) d.log
      ∙ ap (λ ls. recover_lines marshal unmarshal ls []) (lines-unlines d.ls more d.whole_lines)
      ∙ recover_lines-append marshal unmarshal d.ls (lines more) []
      ∙ ap (recover_then marshal unmarshal (lines more)) d.replayed

  grown :
      (call : Call) (kv : KvStore)
      → (more : Text) × ((execute marshal unmarshal call kv).log ≡ kv.log ++ more)
  unfolding execute put delete applied write_to_wal
  grown (puts whole key value) kv = (_, refl)
  grown (puts (torn n) key value) kv = (_, refl)
  grown (deletes whole key) kv = (_, refl)
  grown (deletes (torn n) key) kv = (_, refl)

  -- The log only grows.
  run-grown :
      (calls : List Call) (kv : KvStore)
      → (more : Text) × ((run marshal unmarshal calls kv).log ≡ kv.log ++ more)
  unfolding run
  run-grown [] kv = ([], sym (append-nil kv.log))
  run-grown (call ∷ calls) kv =
      let (one, e) = grown call kv in
      let (more, e') = run-grown calls (execute marshal unmarshal call kv) in
      (one ++ more, e' ∙ ap (λ log. log ++ more) e ∙ append_assoc kv.log one more)

  abbrev with_log : Text → Option Table → Option KvStore
  with_log log o = elim o [ none ↦ none | some store ↦ some (record { store = store; log = log }) ]

  too_long :
      (line : Text) (ls : List Text) (store : Table)
      → max_scan_token_size ≤ length line
      → recover_lines marshal unmarshal (line ∷ ls) store ≡ none
  unfolding recover_lines
  too_long line ls store long =
      let over : ltb (length line) max_scan_token_size ≡ false = ground arith in rw over refl

  passed_over :
      (line : Text) (store : Table)
      → length line < max_scan_token_size
      → unmarshal (drop_cr line) ≡ none
      → recover_lines marshal unmarshal (line ∷ lines []) store ≡ some store
  unfolding recover_lines replay_line lines
  passed_over line store fits no_entry =
      let fits' : ltb (length line) max_scan_token_size ≡ true = lt→ltb _ _ fits in
      rw (fits', no_entry, replay_line) refl

  -- A put whose entry is 64 KiB or longer succeeds, and from then on the log cannot be recovered:
  -- whatever calls follow, a new store on it fails. It holds of every entry that json.Marshal makes
  -- one line of, put into a durable store.
  pub long_put_blocks :
      (key value : Text) (calls : List Call) (kv : KvStore)
      → IsDurable marshal unmarshal kv
      → Lacks 10 (marshal (put_entry key value))
      → max_scan_token_size ≤ length (marshal (put_entry key value))
      → ((put marshal unmarshal whole key value kv).0 ≡ true)
        × (new_kv_store marshal unmarshal
              (run marshal unmarshal (puts whole key value ∷ calls) kv).log
            ≡ none)
  unfolding run execute put applied write_to_wal new_kv_store
  long_put_blocks key value calls kv d one_line long =
      let entry = marshal (put_entry key value) in
      let kv' : KvStore = record {
        store = assign key value kv.store;
        log = kv.log ++ (entry ++ 10 ∷ []);
      } in
      let (more, e) = run-grown calls kv' in
      (
        refl,
        ap (with_log (run marshal unmarshal calls kv').log) (
            ap (λ log. recover_lines marshal unmarshal (lines log) [])
              (e
                ∙ append_assoc kv.log (entry ++ 10 ∷ []) more
                ∙ ap (λ t. kv.log ++ t) (append_assoc entry (10 ∷ []) more))
            ∙ recovered-more kv (entry ++ 10 ∷ more) d
            ∙ ap (λ ls. recover_lines marshal unmarshal ls kv.store)
                (lines-append_newline entry more one_line)
            ∙ too_long entry (lines more) kv.store long),
      )

  -- A put that succeeds is lost by the next recovery, and its key stands as before, if the write in
  -- front of it was torn: the two share a line, where json.Unmarshal finds no entry. The store was
  -- durable, the torn part has no newline, and the line fits the scanner's buffer.
  pub torn_line_loses_put :
      (n : ℕ) (torn_key torn_value key value : Text) (kv : KvStore)
      → let part = take n (marshal (put_entry torn_key torn_value) ++ 10 ∷ []) in
        let line = part ++ marshal (put_entry key value) in
        let kv' = (put marshal unmarshal (torn n) torn_key torn_value kv).1 in
        let kv'' = (put marshal unmarshal whole key value kv').1 in
        IsDurable marshal unmarshal kv
        → Lacks 10 line
        → length line < max_scan_token_size
        → unmarshal (drop_cr line) ≡ none
        → ((put marshal unmarshal whole key value kv').0 ≡ true)
          × (lookup key kv''.store ≡ some value)
          × (new_kv_store marshal unmarshal kv''.log
              ≡ some (record { store = kv.store; log = kv''.log }))
  unfolding put applied write_to_wal new_kv_store
  torn_line_loses_put n torn_key torn_value key value kv d one_line fits no_entry =
      let part = take n (marshal (put_entry torn_key torn_value) ++ 10 ∷ []) in
      let entry = marshal (put_entry key value) in
      let line = part ++ entry in
      (
        refl,
        lookup-assign key key value kv.store
            ∙ ap (λ b. if b then some value else lookup key kv.store) (text_eq_refl key),
        ap (with_log ((kv.log ++ part) ++ (entry ++ 10 ∷ []))) (
            ap (λ log. recover_lines marshal unmarshal (lines log) [])
              (append_assoc kv.log part (entry ++ 10 ∷ [])
                ∙ ap (λ t. kv.log ++ t) (sym (append_assoc part entry (10 ∷ []))))
            ∙ recovered-more kv (line ++ 10 ∷ []) d
            ∙ ap (λ ls. recover_lines marshal unmarshal ls kv.store)
                (lines-append_newline line [] one_line)
            ∙ passed_over line kv.store fits no_entry),
      )
