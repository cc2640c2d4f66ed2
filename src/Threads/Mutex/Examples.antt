-- ===== src/Threads/Mutex/Examples.antt =====
-- Witnesses for two threads that add to a shared number.
use build_your_own_stuff.Prelude.{◌+◌, ◌≡◌, refl, none, some, List, [], ◌∷◌, length}
use build_your_own_stuff.Threads.Mutex.Threads.{
  Side, first, second, State, outside, has_read, enter, access, step, steps, start, mutex, main_of,
  mutex_main, add_money,
}
use build_your_own_stuff.Threads.Mutex.Exclusion.{Inv, remaining, steps-Kept}
use build_your_own_stuff.Threads.Mutex.Totals.{
  IsEnded, start-Inv, steps-shared, steps-end, steps-counted,
}

-- The second thread has read 0, and is to add 200 to it.
abbrev has_balance : State
has_balance = record {
  shared = 0;
  owner = some second;
  first_pc = outside (add_money 100);
  second_pc = has_read 0 200 [] [];
}

has_balance-reached :
    steps (second ∷ second ∷ []) (start 0 (add_money 100) (add_money 200)) ≡ some has_balance
unfolding steps step access enter start
has_balance-reached = refl

steps-Kept_test : Inv 300 has_balance × (length (second ∷ second ∷ []) + remaining has_balance ≡ 8)
unfolding start
steps-Kept_test =
    steps-Kept 300 (second ∷ second ∷ []) (start 0 (add_money 100) (add_money 200)) has_balance
      (start-Inv 0 (add_money 100) (add_money 200)) has_balance-reached

steps-end_test :
    (more : List Side) × (t : State) × (steps more has_balance ≡ some t)
    × IsEnded t
    × (2 + length more ≡ 8)
steps-end_test =
    steps-end (second ∷ second ∷ []) 0 (add_money 100) (add_money 200) has_balance
      has_balance-reached

abbrev turn_by_turn : List Side
turn_by_turn = second ∷ second ∷ second ∷ second ∷ first ∷ first ∷ first ∷ first ∷ []

abbrev all_added : State
all_added = record { shared = 300; owner = none; first_pc = outside []; second_pc = outside [] }

all_added-reached : steps turn_by_turn (start 0 (add_money 100) (add_money 200)) ≡ some all_added
unfolding steps step access enter start
all_added-reached = refl

steps-shared_example : 300 ≡ 0 + (100 + 200)
steps-shared_example =
    steps-shared turn_by_turn 0 (add_money 100) (add_money 200) all_added all_added-reached
      (refl, refl)

abbrev twice_one : State
twice_one = record { shared = 2; owner = none; first_pc = outside []; second_pc = outside [] }

twice_one-reached : steps turn_by_turn (main_of mutex) ≡ some twice_one
unfolding steps step access enter start main_of mutex_main
twice_one-reached = refl

steps-counted_test : twice_one.shared ≡ 2
steps-counted_test = steps-counted mutex turn_by_turn twice_one twice_one-reached (refl, refl)
