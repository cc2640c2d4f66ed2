-- ===== src/Threads/Progress.antt =====
-- When a pass of cpp/multi_threading/producer_consumer.cpp can be taken, and where the threads end.
use build_your_own_stuff.Prelude.{
  ℕ, zero, suc, ◌<◌, ◌≡◌, refl, ap, ◌∙◌, ◌⊎◌, inl, inr, none, some, List, [], ◌∷◌, length, arith,
  ltb,
}
use build_your_own_stuff.Threads.ProducerConsumer.{
  Shared, Thread, producer_thread, consumer_thread, max_buffer_size, produce, consume, step, steps,
}
use build_your_own_stuff.Threads.Values.{produce-room, passes, step-StepFacts}

produce-empty : (s : Shared) (v : ℕ) → s.buffer ≡ [] → (s' : Shared) × (produce (suc v) s ≡ some s')
produce-empty s v e = (_, produce-room s v (ap (λ xs. ltb (length xs) max_buffer_size) e))

consume-some : (xs : List ℕ) (s : Shared) → (xs ≡ []) ⊎ ((s' : Shared) × (consume xs s ≡ some s'))
unfolding consume
consume-some [] s = inl refl
consume-some (x ∷ xs) s = inr (_, refl)

produce-some :
    (v : ℕ) (s : Shared) → s.buffer ≡ [] → (v ≡ 0) ⊎ ((s' : Shared) × (produce v s ≡ some s'))
produce-some zero s e = inl refl
produce-some (suc v) s e = inr (produce-empty s v e)

-- The two threads never wait for each other: one of them can take a pass, or else the producer has
-- ended and the deque is empty.
pub step-progress :
    (s : Shared)
    → ((t : Thread) × ((s' : Shared) × (step t s ≡ some s'))) ⊎ ((s.val ≡ 0) × (s.buffer ≡ []))
unfolding step
step-progress s = elim (consume-some s.buffer s) [
  | inr (s', moved) ↦ inl (consumer_thread, (s', moved))
  | inl empty ↦ elim (produce-some s.val s empty) [
    | inr (s', moved) ↦ inl (producer_thread, (s', moved))
    | inl ended ↦ inr (ended, empty)
  ]
]

-- Where the producer has ended and the deque is empty, the consumer waits for good: neither thread has
-- a pass to take, while the loop of the consumer has no end.
pub step-ended : (s : Shared) (t : Thread) → s.val ≡ 0 → s.buffer ≡ [] → step t s ≡ none
unfolding step produce consume
step-ended s producer_thread ended empty = ap (λ v. produce v s) ended
step-ended s consumer_thread ended empty = ap (λ xs. consume xs s) empty

steps-cons :
    (t : Thread) (ts : List Thread) (s s' : Shared)
    → step t s ≡ some s'
    → steps (t ∷ ts) s ≡ steps ts s'
unfolding steps
steps-cons t ts s s' h = ap (λ o. elim o [ none ↦ none | some z ↦ steps ts z ]) h

-- That some passes end both loops' work.
IsFinishable : Shared → Type 0
IsFinishable s =
    (ts : List Thread) × (s' : Shared) × (steps ts s ≡ some s') × (s'.val ≡ 0) × (s'.buffer ≡ [])

IsFinishable-step :
    (t : Thread) (s s' : Shared) → step t s ≡ some s' → IsFinishable s' → IsFinishable s
unfolding IsFinishable
IsFinishable-step t s s' h f = (t ∷ f.0, f.1, steps-cons t f.0 s s' h ∙ f.2, f.3, f.4)

IsFinishable-ended : (s : Shared) → s.val ≡ 0 → s.buffer ≡ [] → IsFinishable s
unfolding IsFinishable steps
IsFinishable-ended s ended empty = ([], s, refl, ended, empty)

finish : (fuel : ℕ) (s : Shared) → passes s < fuel → IsFinishable s
finish zero s h = absurd (omega arith)
finish (suc fuel) s h = elim (step-progress s) [
  | inr ended ↦ IsFinishable-ended s ended.0 ended.1
  | inl (t, (s', moved)) ↦
      IsFinishable-step t s s' moved
        (finish fuel s' (omega (arith, (step-StepFacts t s s' moved).one_less)))
]

-- From every state there are passes that end the producer and empty the deque.
pub steps-finish :
    (s : Shared)
    → (ts : List Thread) × (s' : Shared) × (steps ts s ≡ some s') × (s'.val ≡ 0) × (s'.buffer ≡ [])
unfolding IsFinishable
steps-finish s = finish (suc (passes s)) s (omega arith)
