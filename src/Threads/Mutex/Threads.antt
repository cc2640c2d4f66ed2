-- ===== src/Threads/Mutex/Threads.antt =====
-- The threads of mutex.cpp, thread_sync.cpp, lock_guard.cpp, unique_lock.cpp and try_lock_mutex.cpp of
-- cpp/multi_threading. `x += a` reads x and then writes it, in two accesses.
use build_your_own_stuff.Prelude.{ℕ, ◌+◌, Option, none, some, List, [], ◌∷◌, replicate}

pub data Side : Type 0 where
  first : Side
  second : Side

-- Where a thread stands. A critical section is the list of what is added in it; `rest` are the
-- sections behind the present one.
pub data Pc : Type 0 where
  outside : List (List ℕ) → Pc
  inside : List ℕ → List (List ℕ) → Pc
  has_read : ℕ → ℕ → List ℕ → List (List ℕ) → Pc

pub record State : Type 0 where
  pub shared : ℕ
  pub owner : Option Side
  pub first_pc : Pc
  pub second_pc : Pc

abbrev pub pc_of : Side → State → Pc
pc_of first s = s.first_pc
pc_of second s = s.second_pc

abbrev pub with_pc : Side → Pc → State → State
with_pc first pc s = record s { first_pc = pc }
with_pc second pc s = record s { second_pc = pc }

-- m.lock() where the mutex is free; where it is not, the thread waits.
unfoldable pub enter : Side → Option Side → List ℕ → List (List ℕ) → State → Option State
enter side none adds rest s =
    some (with_pc side (inside adds rest) (record s { owner = some side }))
enter side (some other) adds rest s = none

-- One access of a thread: `none` where it waits or has ended.
unfoldable pub access : Side → Pc → State → Option State
unfolding enter
access side (outside []) s = none
access side (outside (adds ∷ rest)) s = enter side s.owner adds rest s
access side (inside [] rest) s = some (with_pc side (outside rest) (record s { owner = none }))
access side (inside (a ∷ adds) rest) s = some (with_pc side (has_read s.shared a adds rest) s)
access side (has_read x a adds rest) s =
    some (with_pc side (inside adds rest) (record s { shared = x + a }))

unfoldable pub step : Side → State → Option State
unfolding access
step side s = access side (pc_of side s) s

unfoldable pub steps : List Side → State → Option State
unfolding step
steps [] s = some s
steps (side ∷ sides) s = elim (step side s) [ none ↦ none | some s' ↦ steps sides s' ]

unfoldable pub start : ℕ → List (List ℕ) → List (List ℕ) → State
start x one two = record {
  shared = x;
  owner = none;
  first_pc = outside one;
  second_pc = outside two;
}

-- addMoney of mutex.cpp, and of thread_sync.cpp
abbrev pub add_one : List (List ℕ)
add_one = (1 ∷ []) ∷ []

abbrev pub add_money : ℕ → List (List ℕ)
add_money val = (val ∷ []) ∷ []

-- task of lock_guard.cpp and of unique_lock.cpp: the guard holds the mutex through the loop. What is
-- printed there is left out.
unfoldable pub task : ℕ → List (List ℕ)
task loop_for = replicate loop_for 1 ∷ []

unfoldable pub unique_task : ℕ → List (List ℕ)
unique_task loop_for = replicate loop_for 1 ∷ []

-- increaseTheCounterFor100000Time of try_lock_mutex.cpp, for any number of times
unfoldable pub increase_the_counter : ℕ → List (List ℕ)
increase_the_counter times = replicate times (1 ∷ [])

-- The main functions: the two threads before their first access.
unfoldable pub mutex_main : State
mutex_main = start 0 add_one add_one

unfoldable pub thread_sync_main : State
thread_sync_main = start 0 (add_money 100) (add_money 200)

unfoldable pub lock_guard_main : State
lock_guard_main = start 0 (task 10) (task 10)

unfoldable pub unique_lock_main : State
unique_lock_main = start 0 (unique_task 10) (unique_task 10)

unfoldable pub try_lock_main : State
try_lock_main = start 0 (increase_the_counter 100000) (increase_the_counter 100000)

pub data Exercise : Type 0 where
  mutex : Exercise
  thread_sync : Exercise
  lock_guard : Exercise
  unique_lock : Exercise
  try_lock : Exercise

unfoldable pub main_of : Exercise → State
main_of mutex = mutex_main
main_of thread_sync = thread_sync_main
main_of lock_guard = lock_guard_main
main_of unique_lock = unique_lock_main
main_of try_lock = try_lock_main
