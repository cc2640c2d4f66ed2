-- ===== src/Threads/Examples.antt =====
-- Witnesses and tests for the producer and the consumer of cpp/multi_threading, for its account and
-- for its sums.
use build_your_own_stuff.Prelude.{
  ◌+◌, ◌*◌, ◌≤◌, ◌≡◌, ◌⊎◌, refl, sym, true, false, none-some, arith, none, some, List, [], ◌∷◌,
  length,
}
use build_your_own_stuff.Threads.ProducerConsumer.{
  Shared, Thread, producer_thread, consumer_thread, back, pop_back, produce, consume, step, steps,
  start,
}
use build_your_own_stuff.Threads.Values.{
  count, countdown, steps-IsBounded, steps-once, steps-passes,
}
use build_your_own_stuff.Threads.Progress.{step-progress, step-ended, steps-finish}
use build_your_own_stuff.Threads.Accounts.{
  Account, adder, withdrawer, add_money, deduct, withdraw_money, turn, turns, opening,
  turns-outcome, turns-starved,
}
use build_your_own_stuff.Threads.OddSums.{calc_odd_sum, calc_even_sum, find_odd}
use build_your_own_stuff.Threads.OddSums.Closed.{sums-closed}

-- The producer makes 3 and 2, and the consumer takes the newer one.
abbrev some_passes : List Thread
some_passes = producer_thread ∷ producer_thread ∷ consumer_thread ∷ []

abbrev reached : Shared
reached = record { buffer = 3 ∷ []; val = 1; consumed = 2 ∷ [] }

abbrev done : Shared
done = record { buffer = []; val = 0; consumed = 1 ∷ [] }

some_passes-reached : steps some_passes (start 3) ≡ some reached
unfolding steps start step produce consume back pop_back
some_passes-reached = refl

steps-IsBounded_test : length reached.buffer ≤ 50
steps-IsBounded_test = steps-IsBounded some_passes 3 reached some_passes-reached

steps-once_example :
    count 2 reached.consumed + (count 2 reached.buffer + count 2 (countdown reached.val)) ≡ 1
steps-once_example =
    steps-once some_passes 3 reached 2 some_passes-reached (omega arith) (omega arith)

steps-passes_test : length some_passes + (2 * reached.val + length reached.buffer) ≡ 2 * 3
steps-passes_test = steps-passes some_passes 3 reached some_passes-reached

step-progress_test :
    ((t : Thread) × ((s' : Shared) × (step t reached ≡ some s')))
    ⊎ ((reached.val ≡ 0) × (reached.buffer ≡ []))
step-progress_test = step-progress reached

done_waits : step consumer_thread done ≡ none
done_waits = step-ended done consumer_thread refl refl

steps-finish_example :
    (ts : List Thread) × (s' : Shared) × (steps ts reached ≡ some s')
    × (s'.val ≡ 0)
    × (s'.buffer ≡ [])
steps-finish_example = steps-finish reached

-- main withdraws 600 and adds 500, so that nothing can be deducted.
abbrev not_deducted : Account
not_deducted = record { balance = 500; added = true; deducted = some false }

not_deducted-reached : turns 500 600 (adder ∷ withdrawer ∷ []) opening ≡ some not_deducted
unfolding turns turn add_money withdraw_money deduct opening
not_deducted-reached = refl

turns-outcome_test :
    (adder ∷ withdrawer ∷ [] ≡ adder ∷ withdrawer ∷ [])
    × (not_deducted ≡ deduct 600 (record { balance = 500; added = true; deducted = none }))
turns-outcome_test =
    turns-outcome 500 600 (adder ∷ withdrawer ∷ []) not_deducted (omega arith) not_deducted-reached
      (λ h. none-some (sym h))

-- A deposit of 0 wakes nobody.
abbrev nothing_added : Account
nothing_added = record { balance = 0; added = true; deducted = none }

nothing_added-reached : turns 0 600 (adder ∷ []) opening ≡ some nothing_added
unfolding turns turn add_money opening
nothing_added-reached = refl

turns-starved_test : nothing_added.deducted ≡ none
turns-starved_test = turns-starved 600 (adder ∷ []) nothing_added nothing_added-reached

-- The end of the range in the three programs.
sums-closed_example :
    (calc_odd_sum 1900000002 0 1900000000 ≡ some 902500000000000000)
    × (calc_even_sum 1900000002 0 1900000000 ≡ some 902500000950000000)
    × (find_odd 1900000002 0 1900000000 ≡ some 902500000000000000)
sums-closed_example = sums-closed 1900000002 1900000000 (omega arith) (omega arith)
