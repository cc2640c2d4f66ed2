-- ===== src/Threads/Recursion/Order.antt =====
-- What the two threads of Threads/Recursion show in the end.
use build_your_own_stuff.Prelude.{
  ℕ, ◌+◌, ◌≡◌, refl, ap, ap₂, sym, subst, ◌∙◌, ◌⊎◌, inl, inr, Option, none, some, none-some,
  some-injective, Option-cases, List, [], ◌∷◌, ◌++◌, arith,
}
use build_your_own_stuff.Threads.Recursion.{
  Side, first, second, returning, State, step, steps, start,
}
use build_your_own_stuff.Threads.Recursion.Invariant.{numbered, Place, Reached}
use build_your_own_stuff.Threads.Recursion.First.{first-Reached}
use build_your_own_stuff.Threads.Recursion.Second.{second-Reached}

step-Reached :
    (m n : ℕ) (side : Side) (s t : State) → Reached m n s → step side s ≡ some t → Reached m n t
unfolding step
step-Reached m n first s t (a, b, l, r, inv) h =
    first-Reached m n a b l r s.buffer s.locks s.owner s.first_pc s.second_pc s.shown t inv h
step-Reached m n second s t (a, b, l, r, inv) h =
    second-Reached m n a b l r s.buffer s.locks s.owner s.second_pc s.first_pc s.shown t inv h

then_steps : List Side → Option State → Option State
then_steps sides o = elim o [ none ↦ none | some t ↦ steps sides t ]

steps-Reached :
    (m n : ℕ) (sides : List Side) (s t : State)
    → Reached m n s
    → steps sides s ≡ some t
    → Reached m n t
unfolding steps then_steps
steps-Reached m n [] s t reached h = subst (Reached m n) (some-injective h) reached
steps-Reached m n (side ∷ sides) s t reached h = elim (Option-cases (step side s)) [
  | inl stuck ↦ absurd (none-some (sym (ap (then_steps sides) stuck) ∙ h))
  | inr (u, moved) ↦
      steps-Reached m n sides u t (step-Reached m n side s u reached moved)
        (sym (ap (then_steps sides) moved) ∙ h)
]

start-Reached : (m n : ℕ) → Reached m n (start m n)
unfolding start
start-Reached m n = (
  0,
  0,
  0,
  0,
  record {
    one = (omega arith, refl, refl);
    two = (omega arith, refl, refl);
    locks = (refl, refl, refl);
    buffer = refl;
    order = inl (refl, inl refl);
  },
)

-- Where both threads have returned from all levels, whatever the order of their steps was, `buffer` is
-- the number of all levels, and what was shown is the numbers of one thread, each once and in order,
-- and then those of the other, which go on from there: the recursions do not mix.
pub steps-unmixed :
    (sides : List Side) (m n : ℕ) (t : State)
    → steps sides (start m n) ≡ some t
    → t.first_pc ≡ returning 0
    → t.second_pc ≡ returning 0
    → (t.buffer ≡ m + n)
      × ((t.shown ≡ numbered first 0 m ++ numbered second m n)
          ⊎ (t.shown ≡ numbered second 0 n ++ numbered first n m))
steps-unmixed sides m n t h e e' =
    let (a, b, l, r, inv) = steps-Reached m n sides (start m n) t (start-Reached m n) h in
    let all_one : a ≡ m = (subst (λ pc. Place m pc a l) e inv.one).0 in
    let all_two : b ≡ n = (subst (λ pc. Place n pc b r) e' inv.two).0 in
    (
      omega (arith, inv.buffer),
      elim inv.order [
        | inl shown ↦
            inl (shown.0 ∙ ap₂ (λ x y. numbered first 0 x ++ numbered second x y) all_one all_two)
        | inr shown ↦
            inr (shown.0 ∙ ap₂ (λ x y. numbered second 0 y ++ numbered first y x) all_one all_two)
      ],
    )
