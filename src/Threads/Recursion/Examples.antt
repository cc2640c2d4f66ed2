-- ===== src/Threads/Recursion/Examples.antt =====
-- A witness and a test for the threads of recursive_mutex.cpp.
use build_your_own_stuff.Prelude.{◌+◌, ◌≡◌, refl, ◌⊎◌, none, some, List, [], ◌∷◌, ◌++◌}
use build_your_own_stuff.Threads.Recursion.{
  Side, first, second, returning, State, enter, recursion, step, steps, start,
}
use build_your_own_stuff.Threads.Recursion.Invariant.{numbered}
use build_your_own_stuff.Threads.Recursion.Order.{steps-unmixed}

-- The first thread goes two levels down and back, and then the second one level.
abbrev down_and_back : List Side
down_and_back =
    first ∷ first ∷ first ∷ first ∷ first ∷ first ∷ first ∷ second ∷ second ∷ second ∷ second ∷ []

abbrev both_back : State
both_back = record {
  buffer = 3;
  owner = none;
  locks = 0;
  first_pc = returning 0;
  second_pc = returning 0;
  shown = (first, 0) ∷ (first, 1) ∷ (second, 2) ∷ [];
}

both_back-reached : steps down_and_back (start 2 1) ≡ some both_back
unfolding steps step recursion enter start
both_back-reached = refl

steps-unmixed_example :
    (both_back.buffer ≡ 2 + 1)
    × ((both_back.shown ≡ numbered first 0 2 ++ numbered second 2 1)
        ⊎ (both_back.shown ≡ numbered second 0 1 ++ numbered first 1 2))
steps-unmixed_example = steps-unmixed down_and_back 2 1 both_back both_back-reached refl refl

-- The second thread waits while the first is inside.
waits_test : steps (first ∷ first ∷ second ∷ []) (start 2 1) ≡ none
unfolding steps step recursion enter start
waits_test = refl
