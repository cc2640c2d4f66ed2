-- ===== src/Threads/Recursion.antt =====
-- cpp/multi_threading/recursive_mutex.cpp: two threads that recurse under one recursive mutex. A step is
-- a lock, the line that shows and counts `buffer` up, a return, or an unlock; the line behind the
-- unlock is left out.
pub mod Invariant
pub mod First
pub mod Second
pub mod Order
mod Examples
use build_your_own_stuff.Prelude.{
  ℕ, zero, suc, ◌+◌, ◌-◌, ◌≤◌, ◌<◌, ◌≡◌, refl, ap, sym, ◌∙◌, Bool, true, false, Option, none, some,
  List, [], ◌∷◌, ◌++◌, arith, ◌==◌, if◌then◌else◌,
}

pub data Side : Type 0 where
  first : Side
  second : Side

-- Where a thread stands: in front of a call with so many levels to go, behind the lock of one, or
-- returning; the last number is how many locks it holds.
pub data Pc : Type 0 where
  calling : ℕ → ℕ → Pc
  locked : ℕ → ℕ → Pc
  returning : ℕ → Pc

-- The mutex is its owner, with the number of its locks. `shown` is what went to std::cout, the oldest
-- first.
pub record State : Type 0 where
  pub buffer : ℕ
  pub owner : Option Side
  pub locks : ℕ
  pub first_pc : Pc
  pub second_pc : Pc
  pub shown : List (Side × ℕ)

abbrev pub with_pc : Side → Pc → State → State
with_pc first pc s = record s { first_pc = pc }
with_pc second pc s = record s { second_pc = pc }

abbrev pub pc_of : Side → State → Pc
pc_of first s = s.first_pc
pc_of second s = s.second_pc

-- m1.lock(), for a thread with n levels to go behind this one
unfoldable pub enter : Side → Option Side → ℕ → ℕ → State → Option State
enter side none n held s =
    some (with_pc side (locked n (suc held)) (record s { owner = some side; locks = suc s.locks }))
enter first (some first) n held s =
    some (with_pc first (locked n (suc held)) (record s { locks = suc s.locks }))
enter second (some second) n held s =
    some (with_pc second (locked n (suc held)) (record s { locks = suc s.locks }))
enter first (some second) n held s = none
enter second (some first) n held s = none

-- m1.unlock()
abbrev pub unlock : ℕ → State → State
unlock zero s = s
unlock (suc zero) s = record s { owner = none; locks = 0 }
unlock (suc (suc n)) s = record s { locks = suc n }

unfoldable pub recursion : Side → Pc → State → Option State
unfolding enter
recursion side (calling zero held) s = some (with_pc side (returning held) s)
recursion side (calling (suc n) held) s = enter side s.owner n held s
recursion side (locked n held) s = some (
    with_pc side (calling n held)
      (record s { buffer = suc s.buffer; shown = s.shown ++ (side, s.buffer) ∷ [] }))
recursion side (returning zero) s = none
recursion side (returning (suc held)) s = some (with_pc side (returning held) (unlock s.locks s))

unfoldable pub step : Side → State → Option State
unfolding recursion
step side s = recursion side (pc_of side s) s

unfoldable pub steps : List Side → State → Option State
unfolding step
steps [] s = some s
steps (side ∷ sides) s = elim (step side s) [ none ↦ none | some t ↦ steps sides t ]

-- main, with so many levels for each thread; loopFor from 10 down to 0 is 11 levels.
unfoldable pub start : ℕ → ℕ → State
start m n = record {
  buffer = 0;
  owner = none;
  locks = 0;
  first_pc = calling m 0;
  second_pc = calling n 0;
  shown = [];
}
