-- ===== src/Wal/Recovery.antt =====
-- What recoverFromWAL of database/wal_kvstore/main.go rebuilds.
use build_your_own_stuff.Prelude.{
  ℕ, ◌<◌, ◌≡◌, refl, ap, sym, ◌∙◌, Bool-cases, inl, inr, true, Option, none, some, List, [], ◌∷◌,
  ◌++◌, append_assoc, append-nil, length, take, Text, text_eq, Lacks, ltb, lt→ltb,
}
use build_your_own_stuff.Kv.Table.{Table, assign, without}
use build_your_own_stuff.Kv.FileFormat.{lines, lines-append_newline}
use build_your_own_stuff.Wal.Store.{
  LogEntry, whole, torn, KvStore, put_entry, delete_entry, replay, drop_cr, max_scan_token_size,
  replay_line, recover_lines, new_kv_store, write_to_wal, applied, put, delete, Call, puts, deletes,
  execute, run,
}

pub replay-put :
    (key value : Text) (store : Table) → replay (put_entry key value) store ≡ assign key value store
unfolding replay text_eq
replay-put key value store = refl

pub replay-delete :
    (key : Text) (store : Table) → replay (delete_entry key) store ≡ without key store
unfolding replay text_eq
replay-delete key store = refl

pub drop_cr-Lacks : (line : Text) → Lacks 13 line → drop_cr line ≡ line
unfolding drop_cr
drop_cr-Lacks [] h = refl
drop_cr-Lacks (c ∷ []) h = rw (h.0) refl
drop_cr-Lacks (c ∷ d ∷ ds) h = ap (◌∷◌ c) (drop_cr-Lacks (d ∷ ds) h.1)

-- Lines, each with a newline behind it.
abbrev pub unlines : List Text → Text
unlines [] = []
unlines (line ∷ ls) = line ++ 10 ∷ unlines ls

abbrev pub AreLines : List Text → Type 0
AreLines [] = Unit {0}
AreLines (line ∷ ls) = Lacks 10 line × AreLines ls

pub lines-unlines :
    (ls : List Text) (more : Text) → AreLines ls → lines (unlines ls ++ more) ≡ ls ++ lines more
lines-unlines [] more h = refl
lines-unlines (line ∷ ls) more h =
    ap lines (append_assoc line (10 ∷ unlines ls) more)
    ∙ lines-append_newline line (unlines ls ++ more) h.0
    ∙ ap (◌∷◌ line) (lines-unlines ls more h.1)

unlines-snoc :
    (ls : List Text) (line : Text) → unlines (ls ++ line ∷ []) ≡ unlines ls ++ (line ++ 10 ∷ [])
unlines-snoc [] line = refl
unlines-snoc (l ∷ ls) line =
    ap (λ t. l ++ 10 ∷ t) (unlines-snoc ls line)
    ∙ sym (append_assoc l (10 ∷ unlines ls) (line ++ 10 ∷ []))

AreLines-snoc :
    (ls : List Text) (line : Text) → AreLines ls → Lacks 10 line → AreLines (ls ++ line ∷ [])
AreLines-snoc [] line h l = (l, tt)
AreLines-snoc (x ∷ ls) line h l = (h.0, AreLines-snoc ls line h.1 l)

module _ (marshal : LogEntry → Text) (unmarshal : Text → Option LogEntry) where
  -- What json.Marshal makes of the entry is one line that fits the scanner's buffer and that
  -- json.Unmarshal reads back, as it is for strings of valid UTF-8.
  pub record IsLoggable (entry : LogEntry) : Type 0 where
    pub one_line : Lacks 10 (marshal entry)
    pub no_return : Lacks 13 (marshal entry)
    pub fits : length (marshal entry) < max_scan_token_size
    pub reads_back : unmarshal (marshal entry) ≡ some entry

  -- The log is made of whole lines, and replaying them gives the store.
  pub record IsDurable (kv : KvStore) : Type 0 where
    pub ls : List Text
    pub whole_lines : AreLines ls
    pub log : kv.log ≡ unlines ls
    pub replayed : recover_lines marshal unmarshal ls [] ≡ some kv.store

  abbrev pub recover_then : List Text → Option Table → Option Table
  recover_then ls none = none
  recover_then ls (some store) = recover_lines marshal unmarshal ls store

  pub recover_lines-append :
      (ls more : List Text) (store : Table)
      → recover_lines marshal unmarshal (ls ++ more) store
        ≡ recover_then more (recover_lines marshal unmarshal ls store)
  unfolding recover_lines
  recover_lines-append [] more store = refl
  recover_lines-append (line ∷ ls) more store =
      elim (Bool-cases (ltb (length line) max_scan_token_size)) [
        | inl fits ↦
            rw fits (recover_lines-append ls more (replay_line marshal unmarshal line store))
        | inr long ↦ rw long refl
      ]

  abbrev with_log : Text → Option Table → Option KvStore
  with_log log o = elim o [ none ↦ none | some store ↦ some (record { store = store; log = log }) ]

  pub new_kv_store-IsDurable :
      (kv : KvStore) → IsDurable kv → new_kv_store marshal unmarshal kv.log ≡ some kv
  unfolding new_kv_store lines
  new_kv_store-IsDurable kv d = ap (with_log kv.log) (
      ap (λ ls. recover_lines marshal unmarshal ls [])
        (ap lines (d.log ∙ sym (append-nil (unlines d.ls)))
          ∙ lines-unlines d.ls [] d.whole_lines
          ∙ append-nil d.ls)
      ∙ d.replayed)

  replay_line-marshal :
      (entry : LogEntry) (store : Table)
      → IsLoggable entry
      → recover_lines marshal unmarshal (marshal entry ∷ []) store ≡ some (replay entry store)
  unfolding recover_lines replay_line
  replay_line-marshal entry store l =
      let fits : ltb (length (marshal entry)) max_scan_token_size ≡ true = lt→ltb _ _ l.fits in
      rw fits (
        ap (λ o. some (elim o as (λ x. Table) [ none ↦ store | some e ↦ replay e store ]))
          (ap unmarshal (drop_cr-Lacks (marshal entry) l.no_return) ∙ l.reads_back))

  applied-IsDurable :
      (entry : LogEntry) (change : Table → Table) (kv : KvStore)
      → ((store : Table) → replay entry store ≡ change store)
      → IsLoggable entry
      → IsDurable kv
      → IsDurable
          (applied marshal unmarshal change
            (write_to_wal marshal unmarshal whole entry kv.log)
            kv).1
  unfolding applied write_to_wal
  applied-IsDurable entry change kv same l d = record {
    ls = d.ls ++ marshal entry ∷ [];
    whole_lines = AreLines-snoc d.ls (marshal entry) d.whole_lines l.one_line;
    log = ap (λ t. t ++ (marshal entry ++ 10 ∷ [])) d.log ∙ sym (unlines-snoc d.ls (marshal entry));
    replayed =
        recover_lines-append d.ls (marshal entry ∷ []) []
        ∙ ap (recover_then (marshal entry ∷ [])) d.replayed
        ∙ replay_line-marshal entry kv.store l
        ∙ ap some (same kv.store);
  }

  -- A write that fails takes no byte of the entry.
  failed-IsDurable :
      (entry : LogEntry) (change : Table → Table) (kv : KvStore) (n : ℕ)
      → n ≡ 0
      → IsDurable kv
      → IsDurable
          (applied marshal unmarshal change
            (write_to_wal marshal unmarshal (torn n) entry kv.log)
            kv).1
  unfolding applied write_to_wal
  failed-IsDurable entry change kv n none_written d = record {
    ls = d.ls;
    whole_lines = d.whole_lines;
    log =
        ap (λ k. kv.log ++ take k (marshal entry ++ 10 ∷ [])) none_written
        ∙ append-nil kv.log
        ∙ d.log;
    replayed = d.replayed;
  }

  -- A call whose entry can be logged, with a write that takes all of it or nothing.
  abbrev pub IsClean : Call → Type 0
  IsClean (puts whole key value) = IsLoggable (put_entry key value)
  IsClean (deletes whole key) = IsLoggable (delete_entry key)
  IsClean (puts (torn n) key value) = n ≡ 0
  IsClean (deletes (torn n) key) = n ≡ 0

  abbrev pub AreClean : List Call → Type 0
  AreClean [] = Unit {0}
  AreClean (c ∷ calls) = IsClean c × AreClean calls

  pub execute-IsDurable :
      (c : Call) (kv : KvStore)
      → IsClean c
      → IsDurable kv
      → IsDurable (execute marshal unmarshal c kv)
  unfolding execute put delete
  execute-IsDurable (puts whole key value) kv c d =
      applied-IsDurable (put_entry key value) (assign key value) kv (replay-put key value) c d
  execute-IsDurable (deletes whole key) kv c d =
      applied-IsDurable (delete_entry key) (without key) kv (replay-delete key) c d
  execute-IsDurable (puts (torn n) key value) kv c d =
      failed-IsDurable (put_entry key value) (assign key value) kv n c d
  execute-IsDurable (deletes (torn n) key) kv c d =
      failed-IsDurable (delete_entry key) (without key) kv n c d

  -- After any calls from a store that was durable, a new store on the same log is the store: if the
  -- entries can be logged, and each write takes all of an entry or nothing.
  pub run-recovered :
      (calls : List Call) (kv : KvStore)
      → IsDurable kv
      → AreClean calls
      → new_kv_store marshal unmarshal (run marshal unmarshal calls kv).log
        ≡ some (run marshal unmarshal calls kv)
  unfolding run
  run-recovered [] kv d c = new_kv_store-IsDurable kv d
  run-recovered (call ∷ calls) kv d c =
      run-recovered calls (execute marshal unmarshal call kv) (execute-IsDurable call kv c.0 d) c.1

  pub empty-IsDurable : IsDurable (record { store = []; log = [] })
  empty-IsDurable = record {
    ls = [];
    whole_lines = tt;
    log = refl;
    replayed = unfold recover_lines in refl;
  }
