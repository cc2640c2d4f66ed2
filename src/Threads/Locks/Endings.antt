-- ===== src/Threads/Locks/Endings.antt =====
-- The ends of the threads of cpp/multi_threading/dead_lock.cpp.
use build_your_own_stuff.Prelude.{ℕ, ◌<◌, ◌≡◌, true, some, List, arith}
use build_your_own_stuff.Threads.Locks.Programs.{
  hold, Pair, Side, steps, begin, no_mutex, thread1, thread2,
}
use build_your_own_stuff.Threads.Locks.Deadlock.{Rising, IsEnded, CanEnd, Rising-ends}

-- A mutex below another is taken first.
one_then_two : (n : ℕ) → hold 1 no_mutex n ≡ true → n < 2
one_then_two n h = ground arith

thread1-Rising : Rising no_mutex thread1
unfolding thread1
thread1-Rising = ((λ n h. ground arith), (one_then_two, λ n. ground arith))

thread2-Rising : Rising no_mutex thread2
unfolding thread2
thread2-Rising = ((λ n h. ground arith), (one_then_two, λ n. ground arith))

-- However the two threads of dead_lock.cpp have interleaved so far, some further schedule brings both to
-- their ends: no interleaving leads to a deadlock.
pub threads_end :
    (ss : List Side) (p : Pair)
    → steps ss (begin thread1 thread2) ≡ some p
    → (more : List Side) × (q : Pair) × (steps more p ≡ some q) × IsEnded q
unfolding CanEnd
threads_end ss p h = Rising-ends thread1 thread2 ss p thread1-Rising thread2-Rising h
