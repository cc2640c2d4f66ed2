-- ===== src/Threads/Locks/Deadlock.antt =====
-- Threads that take mutexes in rising order.
use build_your_own_stuff.Prelude.{
  ℕ, zero, suc, ◌+◌, ◌<◌, ◌≡◌, refl, ap, sym, subst, ◌∙◌, ◌⊎◌, inl, inr, true, false, Bool-cases,
  Option, none, some, none-some, some-injective, Option-cases, List, [], ◌∷◌, length, arith,
  if◌then◌else◌,
}
use build_your_own_stuff.Threads.Locks.Programs.{
  Op, acquire, release, Held, Locker, hold, let_go, is_free, advance, Pair, Side, first, second,
  put_first, put_second, step, steps, begin,
}

-- A thread takes only mutexes above all that it holds, and lets go of all in the end.
abbrev pub Rising : Held → List Op → Type 0
Rising held [] = (n : ℕ) → held n ≡ false
Rising held (acquire m ∷ ops) = ((n : ℕ) → held n ≡ true → n < m) × Rising (hold m held) ops
Rising held (release m ∷ ops) = Rising (let_go m held) ops

-- Why a mutex cannot be taken.
taken :
    (m : ℕ) (mine others : Held)
    → is_free m mine others ≡ false
    → (mine m ≡ true) ⊎ (others m ≡ true)
taken m mine others h = elim (Bool-cases (mine m)) [
  | inl a ↦ inl a
  | inr free ↦ elim (Bool-cases (others m)) [ inl b ↦ inr b | inr free' ↦ absurd (ground arith) ]
]

-- A thread that cannot go on has ended, or waits for a mutex that the other holds.
waits :
    (ops : List Op) (mine others : Held)
    → Rising mine ops
    → advance ops mine others ≡ none
    → (ops ≡ []) ⊎ ((m : ℕ) × (others m ≡ true) × ((n : ℕ) → mine n ≡ true → n < m))
unfolding advance
waits [] mine others r h = inl refl
waits (acquire m ∷ ops) mine others r h = elim (Bool-cases (is_free m mine others)) [
  | inl e ↦ absurd (
      none-some
        (sym h ∙ ap (λ b. if b then some (record { held = hold m mine; ops = ops }) else none) e))
  | inr e ↦ elim (taken m mine others e) [
    | inl own ↦ absurd (omega (arith, r.0 m own))
    | inr other ↦ inr (m, other, r.0)
  ]
]
waits (release m ∷ ops) mine others r h = absurd (none-some (sym h))

advance-Rising :
    (ops : List Op) (mine others : Held) (l : Locker)
    → Rising mine ops
    → advance ops mine others ≡ some l
    → Rising l.held l.ops × (suc (length l.ops) ≡ length ops)
unfolding advance
advance-Rising [] mine others l r h = absurd (none-some h)
advance-Rising (acquire m ∷ ops) mine others l r h = elim (Bool-cases (is_free m mine others)) [
  | inl e ↦
      subst (λ l. Rising l.held l.ops × (suc (length l.ops) ≡ suc (length ops)))
        (some-injective (
          sym (ap (λ b. if b then some (record { held = hold m mine; ops = ops }) else none) e)
          ∙ h))
        (r.1, refl)
  | inr e ↦ absurd (
      none-some
        (sym (ap (λ b. if b then some (record { held = hold m mine; ops = ops }) else none) e) ∙ h))
]
advance-Rising (release m ∷ ops) mine others l r h =
    subst (λ l. Rising l.held l.ops × (suc (length l.ops) ≡ suc (length ops))) (some-injective h)
      (r, refl)

abbrev pub IsEnded : Pair → Type 0
IsEnded p = (p.one.ops ≡ []) × (p.two.ops ≡ [])

abbrev AreRising : Pair → Type 0
AreRising p = Rising p.one.held p.one.ops × Rising p.two.held p.two.ops

ended-holds : (ops : List Op) (held : Held) (m : ℕ) → Rising held ops → ops ≡ [] → held m ≡ false
ended-holds [] held m r e = r m
ended-holds (op ∷ ops) held m r e = cc

progress : (p : Pair) → AreRising p → IsEnded p ⊎ ((s : Side) × (q : Pair) × (step s p ≡ some q))
unfolding step
progress p r = elim (Option-cases (advance p.one.ops p.one.held p.two.held)) [
  | inr (l, e) ↦ inr (first, _, ap (put_first p) e)
  | inl stuck ↦ elim (Option-cases (advance p.two.ops p.two.held p.one.held)) [
    | inr (l, e) ↦ inr (second, _, ap (put_second p) e)
    | inl stuck' ↦ elim (waits p.one.ops p.one.held p.two.held r.0 stuck) [
      | inl ended ↦ elim (waits p.two.ops p.two.held p.one.held r.1 stuck') [
        | inl ended' ↦ inl (ended, ended')
        | inr (m, held, above) ↦
            absurd (ground (arith, ended-holds p.one.ops p.one.held m r.0 ended, held))
      ]
      | inr (m, held, above) ↦ elim (waits p.two.ops p.two.held p.one.held r.1 stuck') [
        | inl ended' ↦ absurd (ground (arith, ended-holds p.two.ops p.two.held m r.1 ended', held))
        | inr (m', held', above') ↦ absurd (omega (arith, above m' held', above' m held))
      ]
    ]
  ]
]

abbrev remaining : Pair → ℕ
remaining p = length p.one.ops + length p.two.ops

step-AreRising :
    (s : Side) (p q : Pair)
    → AreRising p
    → step s p ≡ some q
    → AreRising q × (suc (remaining q) ≡ remaining p)
unfolding step
step-AreRising first p q r h = elim (Option-cases (advance p.one.ops p.one.held p.two.held)) [
  | inl e ↦ absurd (none-some (sym (ap (put_first p) e) ∙ h))
  | inr (l, e) ↦
      let next = advance-Rising p.one.ops p.one.held p.two.held l r.0 e in
      subst (λ q. AreRising q × (suc (remaining q) ≡ remaining p))
        (some-injective (sym (ap (put_first p) e) ∙ h)) ((next.0, r.1), omega (arith, next.1))
]
step-AreRising second p q r h = elim (Option-cases (advance p.two.ops p.two.held p.one.held)) [
  | inl e ↦ absurd (none-some (sym (ap (put_second p) e) ∙ h))
  | inr (l, e) ↦
      let next = advance-Rising p.two.ops p.two.held p.one.held l r.1 e in
      subst (λ q. AreRising q × (suc (remaining q) ≡ remaining p))
        (some-injective (sym (ap (put_second p) e) ∙ h)) ((r.0, next.0), omega (arith, next.1))
]

then_steps : List Side → Option Pair → Option Pair
then_steps ss o = elim o [ none ↦ none | some q ↦ steps ss q ]

steps-AreRising : (ss : List Side) (p q : Pair) → AreRising p → steps ss p ≡ some q → AreRising q
unfolding steps then_steps
steps-AreRising [] p q r h = subst AreRising (some-injective h) r
steps-AreRising (s ∷ ss) p q r h = elim (Option-cases (step s p)) [
  | inl stuck ↦ absurd (none-some (sym (ap (then_steps ss) stuck) ∙ h))
  | inr (u, moved) ↦
      steps-AreRising ss u q (step-AreRising s p u r moved).0 (sym (ap (then_steps ss) moved) ∙ h)
]

unfoldable pub CanEnd : Pair → Type 0
CanEnd p = (ss : List Side) × (q : Pair) × (steps ss p ≡ some q) × IsEnded q

CanEnd-step : (s : Side) (p q : Pair) → step s p ≡ some q → CanEnd q → CanEnd p
unfolding CanEnd steps then_steps
CanEnd-step s p q moved c = (s ∷ c.0, c.1, ap (then_steps c.0) moved ∙ c.2, c.3)

CanEnd-Rising : (fuel : ℕ) (p : Pair) → AreRising p → remaining p < fuel → CanEnd p
unfolding CanEnd steps
CanEnd-Rising zero p r h = absurd (omega arith)
CanEnd-Rising (suc fuel) p r h = elim (progress p r) [
  | inl ended ↦ ([], p, refl, ended)
  | inr (s, q, moved) ↦
      let next = step-AreRising s p q r moved in
      CanEnd-step s p q moved (CanEnd-Rising fuel q next.0 (omega (arith, next.1)))
]

pub Rising-ends :
    (one two : List Op) (ss : List Side) (p : Pair)
    → Rising (λ m. false) one
    → Rising (λ m. false) two
    → steps ss (begin one two) ≡ some p
    → CanEnd p
Rising-ends one two ss p r r' h =
    CanEnd-Rising (suc (remaining p)) p (steps-AreRising ss (begin one two) p (r, r') h)
      (omega arith)
