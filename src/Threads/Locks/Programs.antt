-- ===== src/Threads/Locks/Programs.antt =====
-- The threads of cpp/multi_threading/dead_lock.cpp: what they do to the mutexes. What they print, and
-- how long they sleep, is left out.
use build_your_own_stuff.Prelude.{
  ℕ, Bool, true, false, Option, none, some, List, [], ◌∷◌, ◌==◌, if◌then◌else◌,
}

-- m.lock() and m.unlock()
pub data Op : Type 0 where
  acquire : ℕ → Op
  release : ℕ → Op

abbrev pub Held : Type 0
Held = ℕ → Bool

-- A thread: the mutexes that it holds, and what it has still to do.
pub record Locker : Type 0 where
  pub held : Held
  pub ops : List Op

abbrev pub hold : ℕ → Held → Held
hold m held n = if n == m then true else held n

abbrev pub let_go : ℕ → Held → Held
let_go m held n = if n == m then false else held n

-- No thread holds the mutex.
abbrev pub is_free : ℕ → Held → Held → Bool
is_free m mine others = if mine m then false else if others m then false else true

-- One operation of a thread beside another: `none` where it waits or has ended.
unfoldable pub advance : List Op → Held → Held → Option Locker
advance [] mine others = none
advance (acquire m ∷ ops) mine others =
    if is_free m mine others then some (record { held = hold m mine; ops = ops }) else none
advance (release m ∷ ops) mine others = some (record { held = let_go m mine; ops = ops })

pub record Pair : Type 0 where
  pub one : Locker
  pub two : Locker

pub data Side : Type 0 where
  first : Side
  second : Side

abbrev pub put_first : Pair → Option Locker → Option Pair
put_first p none = none
put_first p (some l) = some (record p { one = l })

abbrev pub put_second : Pair → Option Locker → Option Pair
put_second p none = none
put_second p (some l) = some (record p { two = l })

unfoldable pub step : Side → Pair → Option Pair
unfolding advance
step first p = put_first p (advance p.one.ops p.one.held p.two.held)
step second p = put_second p (advance p.two.ops p.two.held p.one.held)

unfoldable pub steps : List Side → Pair → Option Pair
unfolding step
steps [] p = some p
steps (s ∷ ss) p = elim (step s p) [ none ↦ none | some q ↦ steps ss q ]

abbrev pub no_mutex : Held
no_mutex m = false

abbrev pub begin : List Op → List Op → Pair
begin p q = record {
  one = record { held = no_mutex; ops = p };
  two = record { held = no_mutex; ops = q };
}

-- dead_lock.cpp, with m1 and m2 as 1 and 2
unfoldable pub thread1 : List Op
thread1 = acquire 1 ∷ acquire 2 ∷ release 1 ∷ release 2 ∷ []

unfoldable pub thread2 : List Op
thread2 = acquire 1 ∷ acquire 2 ∷ release 2 ∷ release 1 ∷ []
