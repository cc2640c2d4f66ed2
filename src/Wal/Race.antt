-- ===== src/Wal/Race.antt =====
-- Two goroutines that call Put of database/wal_kvstore/main.go: writeToWAL stands in front of the lock,
-- so that each call is two steps.
use build_your_own_stuff.Prelude.{
  ◌≡◌, refl, ap, ◌∙◌, Option, none, some, List, [], ◌∷◌, Text, text_eq_refl, if◌then◌else◌,
}
use build_your_own_stuff.Kv.Table.{Table, lookup, assign, lookup-assign}
use build_your_own_stuff.Wal.Store.{
  LogEntry, whole, KvStore, put_entry, write_to_wal, applied, put, new_kv_store, execute, puts,
}
use build_your_own_stuff.Wal.Recovery.{
  IsLoggable, IsDurable, new_kv_store-IsDurable, execute-IsDurable,
}

pub data Caller : Type 0 where
  first : Caller
  second : Caller

-- How far a call is: its entry is to be logged, the map is to be changed, or it has returned.
pub data Progress : Type 0 where
  to_log : Progress
  to_store : Progress
  returned : Progress

pub record Callers : Type 0 where
  pub kv : KvStore
  pub first_at : Progress
  pub second_at : Progress

newest : (key value : Text) (store : Table) → lookup key (assign key value store) ≡ some value
newest key value store =
    lookup-assign key key value store
    ∙ ap (λ b. if b then some value else lookup key store) (text_eq_refl key)

module _ (marshal : LogEntry → Text) (unmarshal : Text → Option LogEntry) where
  -- A step of Put(key, value), with a write that takes all
  unfoldable pub put_step : Text → Text → Progress → KvStore → Option (Progress × KvStore)
  put_step key value to_log kv = some (
    to_store,
    record kv { log = (write_to_wal marshal unmarshal whole (put_entry key value) kv.log).0 },
  )
  put_step key value to_store kv = some (returned, record kv { store = assign key value kv.store })
  put_step key value returned kv = none

  abbrev pub at_first : Callers → Option (Progress × KvStore) → Option Callers
  at_first c none = none
  at_first c (some (p, kv)) = some (record c { kv = kv; first_at = p })

  abbrev pub at_second : Callers → Option (Progress × KvStore) → Option Callers
  at_second c none = none
  at_second c (some (p, kv)) = some (record c { kv = kv; second_at = p })

  -- Put(key, v) by the first caller, and Put(key, w) by the second
  unfoldable pub step : Text → Text → Text → Caller → Callers → Option Callers
  unfolding put_step
  step key v w first c = at_first c (put_step key v c.first_at c.kv)
  step key v w second c = at_second c (put_step key w c.second_at c.kv)

  unfoldable pub steps : Text → Text → Text → List Caller → Callers → Option Callers
  unfolding step
  steps key v w [] c = some c
  steps key v w (x ∷ xs) c = elim (step key v w x c) [ none ↦ none | some c' ↦ steps key v w xs c' ]

  abbrev pub calling : KvStore → Callers
  calling kv = record { kv = kv; first_at = to_log; second_at = to_log }

  -- Two puts of one key can both return with one value in the map and the other in the log: the store
  -- then answers with the first value, and a new store on the log with the second. The store was
  -- durable, and the entries can be logged.
  pub puts_race :
      (key v w : Text) (kv : KvStore)
      → IsDurable marshal unmarshal kv
      → IsLoggable marshal unmarshal (put_entry key v)
      → IsLoggable marshal unmarshal (put_entry key w)
      → (schedule : List Caller) × (end : Callers) × (restarted : KvStore) × (steps key v w schedule
            (calling kv)
          ≡ some end)
        × (end.first_at ≡ returned)
        × (end.second_at ≡ returned)
        × (lookup key end.kv.store ≡ some v)
        × (new_kv_store marshal unmarshal end.kv.log ≡ some restarted)
        × (lookup key restarted.store ≡ some w)
  unfolding steps step put_step execute put applied write_to_wal
  puts_race key v w kv d lv lw =
      let log_both =
        execute-IsDurable marshal unmarshal (puts whole key w) _ lw
          (execute-IsDurable marshal unmarshal (puts whole key v) kv lv d) in
      (
        first ∷ second ∷ second ∷ first ∷ [],
        record {
          kv = record {
            store = assign key v (assign key w kv.store);
            log =
                (execute marshal unmarshal (puts whole key w)
                  (execute marshal unmarshal (puts whole key v) kv)).log;
          };
          first_at = returned;
          second_at = returned;
        },
        execute marshal unmarshal (puts whole key w)
            (execute marshal unmarshal (puts whole key v) kv),
        refl,
        refl,
        refl,
        newest key v (assign key w kv.store),
        new_kv_store-IsDurable marshal unmarshal _ log_both,
        newest key w (assign key v kv.store),
      )
