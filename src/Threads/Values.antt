-- ===== src/Threads/Values.antt =====
-- What happens to the values of cpp/multi_threading/producer_consumer.cpp: none is lost, none is
-- taken twice, and the deque stays within its bound.
use build_your_own_stuff.Prelude.{
  ℕ, zero, suc, ◌+◌, ◌*◌, ◌≤◌, ◌<◌, ◌≡◌, refl, ap, subst, some-injective, none-some, sym, ◌∙◌, true,
  false, Bool-cases, Option-cases, inl, inr, Option, none, some, List, [], ◌∷◌, ◌++◌, length,
  length-append, arith, ltb, ltb→lt, ◌==◌, if◌then◌else◌,
}
use build_your_own_stuff.Threads.ProducerConsumer.{
  Shared, Thread, producer_thread, consumer_thread, max_buffer_size, back, pop_back, produce,
  consume, step, steps, start,
}

unfoldable pub count : ℕ → List ℕ → ℕ
count x [] = 0
count x (y ∷ ys) = (if x == y then 1 else 0) + count x ys

-- What a producer with `val` still has to make.
unfoldable pub countdown : ℕ → List ℕ
countdown zero = []
countdown (suc v) = suc v ∷ countdown v

count-append : (x : ℕ) (xs ys : List ℕ) → count x (xs ++ ys) ≡ count x xs + count x ys
unfolding count
count-append x [] ys = omega arith
count-append x (y ∷ xs) ys = omega (arith, count-append x xs ys)

count-pop_back : (x y : ℕ) (ys : List ℕ) → count x (back y ys ∷ pop_back y ys) ≡ count x (y ∷ ys)
unfolding count back pop_back
count-pop_back x y [] = refl
count-pop_back x y (z ∷ zs) = omega (arith, count-pop_back x z zs)

length-pop_back : (y : ℕ) (ys : List ℕ) → length (pop_back y ys) ≡ length ys
unfolding pop_back
length-pop_back y [] = refl
length-pop_back y (z ∷ zs) = omega (arith, length-pop_back z zs)

-- How often a value is with the consumer, in the deque, and still to be made.
unfoldable pub tally : ℕ → Shared → ℕ
unfolding count countdown
tally x s = count x s.consumed + (count x s.buffer + count x (countdown s.val))

unfoldable pub IsBounded : Shared → Type 0
IsBounded s = length s.buffer ≤ max_buffer_size

-- What is left to do, in passes.
unfoldable pub passes : Shared → ℕ
passes s = 2 * s.val + length s.buffer

pub record StepFacts (s s' : Shared) : Type 0 where
  pub tally_kept : (x : ℕ) → tally x s' ≡ tally x s
  pub bound_kept : IsBounded s → IsBounded s'
  pub one_less : suc (passes s') ≡ passes s

produced-StepFacts :
    (s : Shared) (v : ℕ)
    → s.val ≡ suc v
    → length s.buffer < max_buffer_size
    → StepFacts s (record s { buffer = s.buffer ++ suc v ∷ []; val = v })
unfolding tally IsBounded passes count countdown
produced-StepFacts s v e h = record {
  tally_kept =
      λ x. omega (arith, count-append x s.buffer (suc v ∷ []), ap (λ n. count x (countdown n)) e);
  bound_kept = λ b. omega (arith, length-append s.buffer (suc v ∷ []));
  one_less = omega (arith, length-append s.buffer (suc v ∷ []));
}

consumed-StepFacts :
    (s : Shared) (x : ℕ) (xs : List ℕ)
    → s.buffer ≡ x ∷ xs
    → StepFacts s (record s { buffer = pop_back x xs; consumed = back x xs ∷ s.consumed })
unfolding tally IsBounded passes count
consumed-StepFacts s x xs e = record {
  tally_kept = λ y. omega (arith, count-pop_back y x xs, ap (count y) e);
  bound_kept = λ b. omega (arith, length-pop_back x xs, ap length e);
  one_less = omega (arith, length-pop_back x xs, ap length e);
}

pub produce-room :
    (s : Shared) (v : ℕ)
    → ltb (length s.buffer) max_buffer_size ≡ true
    → produce (suc v) s ≡ some (record s { buffer = s.buffer ++ suc v ∷ []; val = v })
unfolding produce
produce-room s v h = rw (h, produce) refl

produce-full :
    (s : Shared) (v : ℕ) → ltb (length s.buffer) max_buffer_size ≡ false → produce (suc v) s ≡ none
unfolding produce
produce-full s v h = rw (h, produce) refl

produce-StepFacts : (v : ℕ) (s s' : Shared) → s.val ≡ v → produce v s ≡ some s' → StepFacts s s'
unfolding produce
produce-StepFacts zero s s' e h = absurd (none-some h)
produce-StepFacts (suc v) s s' e h = elim (Bool-cases (ltb (length s.buffer) max_buffer_size)) [
  | inl room ↦
      subst (StepFacts s) (some-injective (sym (produce-room s v room) ∙ h))
        (produced-StepFacts s v e (ltb→lt _ _ room))
  | inr full ↦ absurd (none-some (sym (produce-full s v full) ∙ h))
]

consume-StepFacts :
    (xs : List ℕ) (s s' : Shared) → s.buffer ≡ xs → consume xs s ≡ some s' → StepFacts s s'
unfolding consume
consume-StepFacts [] s s' e h = absurd (none-some h)
consume-StepFacts (x ∷ xs) s s' e h =
    subst (StepFacts s) (some-injective h) (consumed-StepFacts s x xs e)

then_steps : List Thread → Option Shared → Option Shared
then_steps ts o = elim o [ none ↦ none | some s' ↦ steps ts s' ]

pub step-StepFacts : (t : Thread) (s s' : Shared) → step t s ≡ some s' → StepFacts s s'
unfolding step
step-StepFacts producer_thread s s' h = produce-StepFacts s.val s s' refl h
step-StepFacts consumer_thread s s' h = consume-StepFacts s.buffer s s' refl h

pub steps-StepFacts :
    (ts : List Thread) (s s' : Shared)
    → steps ts s ≡ some s'
    → ((x : ℕ) → tally x s' ≡ tally x s)
      × (IsBounded s → IsBounded s')
      × (length ts + passes s' ≡ passes s)
unfolding steps then_steps
steps-StepFacts [] s s' h = (
  λ x. ap (tally x) (sym (some-injective h)),
  λ b. subst IsBounded (some-injective h) b,
  omega (arith, ap passes (some-injective h)),
)
steps-StepFacts (t ∷ ts) s s' h = elim (Option-cases (step t s)) [
  | inl stuck ↦ absurd (none-some (sym (ap (then_steps ts) stuck) ∙ h))
  | inr (s₁, moved) ↦
      let first = step-StepFacts t s s₁ moved in
      let rest = steps-StepFacts ts s₁ s' (sym (ap (then_steps ts) moved) ∙ h) in
      (
        λ x. rest.0 x ∙ first.tally_kept x,
        λ b. rest.1 (first.bound_kept b),
        omega (arith, rest.2, first.one_less),
      )
]

-- The deque never holds more than 50 values, whatever the order of the passes is.
pub steps-IsBounded :
    (ts : List Thread) (n : ℕ) (s : Shared) → steps ts (start n) ≡ some s → length s.buffer ≤ 50
unfolding start IsBounded
steps-IsBounded ts n s h = (steps-StepFacts ts (start n) s h).1 (omega arith)

ne→== : (x y : ℕ) → y < x → (x == y) ≡ false
ne→== x y h = ground arith

count-countdown_beyond : (x n : ℕ) → n < x → count x (countdown n) ≡ 0
unfolding count countdown
count-countdown_beyond x zero h = refl
count-countdown_beyond x (suc n) h =
    rw (ne→== x (suc n) (omega arith)) (omega (arith, count-countdown_beyond x n (omega arith)))

count-countdown : (x n : ℕ) → 0 < x → x ≤ n → count x (countdown n) ≡ 1
unfolding count countdown
count-countdown x zero positive small = absurd (omega arith)
count-countdown x (suc n) positive small = elim (Bool-cases (x == suc n)) [
  | inl e ↦ rw e (omega (arith, count-countdown_beyond x n (ground arith)))
  | inr e ↦ rw e (omega (arith, count-countdown x n positive (ground arith)))
]

-- However the passes of the two threads interleave, each of 1 to n, the number that the
-- producer starts from, is once with the consumer, in the deque or still to be made: none is
-- lost and none is there twice.
pub steps-once :
    (ts : List Thread) (n : ℕ) (s : Shared) (x : ℕ)
    → steps ts (start n) ≡ some s
    → 0 < x
    → x ≤ n
    → count x s.consumed + (count x s.buffer + count x (countdown s.val)) ≡ 1
unfolding start tally count
steps-once ts n s x h positive small =
    omega (arith, (steps-StepFacts ts (start n) s h).0 x, count-countdown x n positive small)

-- A run of the producer from n takes at most 2 n passes, and one of 2 n passes has made every value
-- and emptied the deque.
pub steps-passes :
    (ts : List Thread) (n : ℕ) (s : Shared)
    → steps ts (start n) ≡ some s
    → length ts + (2 * s.val + length s.buffer) ≡ 2 * n
unfolding start passes
steps-passes ts n s h = omega (arith, (steps-StepFacts ts (start n) s h).2)
