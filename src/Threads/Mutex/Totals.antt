-- ===== src/Threads/Mutex/Totals.antt =====
-- The ends of the two threads of Threads/Mutex, and what is shared then.
use build_your_own_stuff.Prelude.{
  ℕ, zero, suc, ◌+◌, ◌<◌, ◌≡◌, refl, ap, ◌∙◌, ◌⊎◌, inl, inr, Option, none, some, List, [], ◌∷◌,
  length, replicate, arith,
}
use build_your_own_stuff.Threads.Mutex.Threads.{
  Side, first, second, Pc, outside, inside, has_read, State, enter, access, step, steps, start,
  add_one, add_money, task, unique_task, increase_the_counter, mutex_main, thread_sync_main,
  lock_guard_main, unique_lock_main, try_lock_main, Exercise, mutex, thread_sync, lock_guard,
  unique_lock, try_lock, main_of,
}
use build_your_own_stuff.Threads.Mutex.Exclusion.{
  total, totals, pending, accesses, Inv, Exclusive, IsCurrent, IsOutside, remaining, step-Kept,
  steps-Kept,
}

pub start-Inv :
    (x : ℕ) (one two : List (List ℕ)) → Inv (x + (totals one + totals two)) (start x one two)
unfolding start
start-Inv x one two = record { exclusive = (tt, tt); kept = refl }

-- Both threads have ended.
abbrev pub IsEnded : State → Type 0
IsEnded s = (s.first_pc ≡ outside []) × (s.second_pc ≡ outside [])

-- Whatever the order of the accesses is, when both threads have ended what is shared is what was there
-- and all that was to be added: no addition is lost.
pub steps-shared :
    (sides : List Side) (x : ℕ) (one two : List (List ℕ)) (t : State)
    → steps sides (start x one two) ≡ some t
    → IsEnded t
    → t.shared ≡ x + (totals one + totals two)
steps-shared sides x one two t h ended =
    let inv = (steps-Kept _ sides _ t (start-Inv x one two) h).0 in
    omega (arith, inv.kept, ap pending ended.0, ap pending ended.1)

-- A thread in its critical section can always go on.
inside-moves :
    (side : Side) (shared : ℕ) (p : Pc) (s : State)
    → IsCurrent shared p
    → (t : State) × (access side p s ≡ some t)
unfolding access
inside-moves side shared (outside rest) s h = absurd h
inside-moves side shared (inside [] rest) s h = (_, refl)
inside-moves side shared (inside (a ∷ adds) rest) s h = (_, refl)
inside-moves side shared (has_read x a adds rest) s h = (_, refl)

outside-moves :
    (side : Side) (p : Pc) (s : State)
    → s.owner ≡ none
    → IsOutside p
    → (p ≡ outside []) ⊎ ((t : State) × (access side p s ≡ some t))
unfolding access enter
outside-moves side (outside []) s free h = inl refl
outside-moves side (outside (adds ∷ rest)) s free h =
    inr (_, ap (λ o. enter side o adds rest s) free)
outside-moves side (inside adds rest) s free h = absurd h
outside-moves side (has_read x a adds rest) s free h = absurd h

-- There is no deadlock: one of the threads can go on, or both have ended.
progress :
    (o : Option Side) (s : State)
    → s.owner ≡ o
    → Exclusive o s.shared s.first_pc s.second_pc
    → IsEnded s ⊎ ((side : Side) × (t : State) × (step side s ≡ some t))
unfolding step
progress none s e h = elim (outside-moves first s.first_pc s e h.0) [
  | inr moves ↦ inr (first, moves.0, moves.1)
  | inl one ↦ elim (outside-moves second s.second_pc s e h.1) [
    | inr moves ↦ inr (second, moves.0, moves.1)
    | inl two ↦ inl (one, two)
  ]
]
progress (some first) s e h =
    let moves = inside-moves first s.shared s.first_pc s h.0 in inr (first, moves.0, moves.1)
progress (some second) s e h =
    let moves = inside-moves second s.shared s.second_pc s h.1 in inr (second, moves.0, moves.1)

CanEnd : State → Type 0
CanEnd s = (sides : List Side) × (t : State) × (steps sides s ≡ some t) × IsEnded t

CanEnd-step : (side : Side) (s t : State) → step side s ≡ some t → CanEnd t → CanEnd s
unfolding CanEnd steps
CanEnd-step side s t moved c = (
  side ∷ c.0,
  c.1,
  ap (λ o. elim o as (λ x. Option State) [ none ↦ none | some u ↦ steps c.0 u ]) moved ∙ c.2,
  c.3,
)

CanEnd-fuel : (fuel sum : ℕ) (s : State) → Inv sum s → remaining s < fuel → CanEnd s
unfolding CanEnd steps
CanEnd-fuel zero sum s inv h = absurd (omega arith)
CanEnd-fuel (suc fuel) sum s inv h = elim (progress s.owner s refl inv.exclusive) [
  | inl ended ↦ ([], s, refl, ended)
  | inr (side, t, moved) ↦
      let kept = step-Kept sum side s t inv moved in
      CanEnd-step side s t moved (CanEnd-fuel fuel sum t kept.0 (omega (arith, kept.1)))
]

-- However the threads have run so far, they can both come to their end, and the whole run then has as
-- many steps as the two threads have accesses.
pub steps-end :
    (sides : List Side) (x : ℕ) (one two : List (List ℕ)) (s : State)
    → steps sides (start x one two) ≡ some s
    → (more : List Side) × (t : State) × (steps more s ≡ some t)
      × IsEnded t
      × (length sides + length more ≡ accesses (outside one) + accesses (outside two))
unfolding CanEnd start
steps-end sides x one two s h =
    let so_far = steps-Kept _ sides _ s (start-Inv x one two) h in
    let c = CanEnd-fuel (suc (remaining s)) _ s so_far.0 (omega arith) in
    let last = steps-Kept _ c.0 s c.1 so_far.0 c.2 in
    (c.0, c.1, c.2, c.3, omega (arith, so_far.1, last.1, ap accesses c.3.0, ap accesses c.3.1))

total-replicate : (n : ℕ) → total (replicate n 1) ≡ n
total-replicate zero = refl
total-replicate (suc n) = omega (arith, total-replicate n)

totals-task : (n : ℕ) → totals (task n) ≡ n
unfolding task
totals-task n = omega (arith, total-replicate n)

totals-unique_task : (n : ℕ) → totals (unique_task n) ≡ n
unfolding unique_task
totals-unique_task n = omega (arith, total-replicate n)

totals-increase_the_counter : (n : ℕ) → totals (increase_the_counter n) ≡ n
unfolding increase_the_counter
totals-increase_the_counter zero = refl
totals-increase_the_counter (suc n) = omega (arith, totals-increase_the_counter n)

-- What each of the programs is to count up to.
abbrev pub counts_to : Exercise → ℕ
counts_to mutex = 2
counts_to thread_sync = 300
counts_to lock_guard = 20
counts_to unique_lock = 20
counts_to try_lock = 200000

-- In each of the five programs, whatever the order of the accesses is, both threads end with the
-- variable at all that they were to add: 2, 300, 20, 20 and 200000.
pub steps-counted :
    (e : Exercise) (sides : List Side) (t : State)
    → steps sides (main_of e) ≡ some t
    → IsEnded t
    → t.shared ≡ counts_to e
unfolding main_of mutex_main thread_sync_main lock_guard_main unique_lock_main try_lock_main
steps-counted mutex sides t h ended = steps-shared sides 0 add_one add_one t h ended
steps-counted thread_sync sides t h ended =
    steps-shared sides 0 (add_money 100) (add_money 200) t h ended
steps-counted lock_guard sides t h ended =
    omega (arith, steps-shared sides 0 (task 10) (task 10) t h ended, totals-task 10)
steps-counted unique_lock sides t h ended =
    omega (
      arith,
      steps-shared sides 0 (unique_task 10) (unique_task 10) t h ended,
      totals-unique_task 10,
    )
steps-counted try_lock sides t h ended = omega (
  arith,
  steps-shared sides 0 (increase_the_counter 100000) (increase_the_counter 100000) t h ended,
  totals-increase_the_counter 100000,
)
