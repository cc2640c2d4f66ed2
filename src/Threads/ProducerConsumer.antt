-- ===== src/Threads/ProducerConsumer.antt =====
-- cpp/multi_threading/producer_consumer.cpp. A pass of a loop holds the mutex from its wait to its
-- unlock, so it is one step; a pass whose wait would not return is not taken. What cout shows of
-- the consumer is kept as a list.
use build_your_own_stuff.Prelude.{
  ℕ, zero, suc, Option, none, some, List, [], ◌∷◌, ◌++◌, length, ltb, if◌then◌else◌,
}

abbrev pub max_buffer_size : ℕ
max_buffer_size = 50

-- The deque from front to back, what `val` of the producer is, and the values that the consumer took,
-- the last one first.
pub record Shared : Type 0 where
  pub buffer : List ℕ
  pub val : ℕ
  pub consumed : List ℕ

pub data Thread : Type 0 where
  producer_thread : Thread
  consumer_thread : Thread

-- buffer.back() of a deque that is not empty, and buffer.pop_back()
unfoldable pub back : ℕ → List ℕ → ℕ
back x [] = x
back x (y ∷ ys) = back y ys

unfoldable pub pop_back : ℕ → List ℕ → List ℕ
pop_back x [] = []
pop_back x (y ∷ ys) = x ∷ pop_back y ys

unfoldable pub produce : ℕ → Shared → Option Shared
produce zero s = none
produce (suc v) s =
    if ltb (length s.buffer) max_buffer_size
    then some (record s { buffer = s.buffer ++ suc v ∷ []; val = v })
    else none

unfoldable pub consume : List ℕ → Shared → Option Shared
unfolding back pop_back
consume [] s = none
consume (x ∷ xs) s = some (record s { buffer = pop_back x xs; consumed = back x xs ∷ s.consumed })

-- One pass of a loop, where it can be taken.
unfoldable pub step : Thread → Shared → Option Shared
unfolding produce consume
step producer_thread s = produce s.val s
step consumer_thread s = consume s.buffer s

-- The passes that threads take one after the other.
unfoldable pub steps : List Thread → Shared → Option Shared
unfolding step
steps [] s = some s
steps (t ∷ ts) s = elim (step t s) [ none ↦ none | some s' ↦ steps ts s' ]

-- main starts the producer with 100.
unfoldable pub start : ℕ → Shared
start n = record { buffer = []; val = n; consumed = [] }
