-- ===== src/Threads/Locks/Examples.antt =====
-- Witnesses and tests for threads that take more than one mutex.
use build_your_own_stuff.Prelude.{◌≡◌, refl, none, some, List, [], ◌∷◌}
use build_your_own_stuff.Threads.Locks.Programs.{
  acquire, release, hold, advance, Pair, Side, first, second, step, steps, begin, no_mutex, thread1,
  thread2,
}
use build_your_own_stuff.Threads.Locks.Deadlock.{IsEnded}
use build_your_own_stuff.Threads.Locks.Endings.{threads_end}

-- The first thread of dead_lock.cpp has m1, and the second waits for it.
abbrev has_one : Pair
has_one = record {
  one = record { held = hold 1 no_mutex; ops = acquire 2 ∷ release 1 ∷ release 2 ∷ [] };
  two = record { held = no_mutex; ops = thread2 };
}

has_one-reached : steps (first ∷ []) (begin thread1 thread2) ≡ some has_one
unfolding steps step advance thread1
has_one-reached = refl

threads_end_example : (more : List Side) × (q : Pair) × (steps more has_one ≡ some q) × IsEnded q
threads_end_example = threads_end (first ∷ []) has_one has_one-reached

-- Two threads that took the two mutexes in opposite orders, one by one, would stop each other.
abbrev opposite : Pair
opposite = record {
  one = record { held = hold 1 no_mutex; ops = acquire 2 ∷ release 1 ∷ release 2 ∷ [] };
  two = record { held = hold 2 no_mutex; ops = acquire 1 ∷ release 2 ∷ release 1 ∷ [] };
}

opposite_stops : (step first opposite ≡ none) × (step second opposite ≡ none)
unfolding step advance
opposite_stops = (refl, refl)
