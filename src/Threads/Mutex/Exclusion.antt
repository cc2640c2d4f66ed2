-- ===== src/Threads/Mutex/Exclusion.antt =====
-- The invariant of two threads that add to a shared number under one mutex.
use build_your_own_stuff.Prelude.{
  ℕ, suc, ◌+◌, ◌≡◌, refl, ap, sym, subst, ◌∙◌, Option, none, some, some-injective, none-some,
  Option-cases, inl, inr, List, [], ◌∷◌, length, arith,
}
use build_your_own_stuff.Threads.Mutex.Threads.{
  Side, first, second, Pc, outside, inside, has_read, State, enter, access, step, steps,
}

abbrev pub total : List ℕ → ℕ
total [] = 0
total (a ∷ adds) = a + total adds

abbrev pub totals : List (List ℕ) → ℕ
totals [] = 0
totals (adds ∷ rest) = total adds + totals rest

-- What a thread has still to add.
abbrev pub pending : Pc → ℕ
pending (outside rest) = totals rest
pending (inside adds rest) = total adds + totals rest
pending (has_read x a adds rest) = a + (total adds + totals rest)

-- Accesses that a thread has still to make.
abbrev pub adding : List ℕ → ℕ
adding [] = 0
adding (a ∷ adds) = 2 + adding adds

abbrev pub adding_all : List (List ℕ) → ℕ
adding_all [] = 0
adding_all (adds ∷ rest) = 2 + (adding adds + adding_all rest)

abbrev pub accesses : Pc → ℕ
accesses (outside rest) = adding_all rest
accesses (inside adds rest) = 1 + (adding adds + adding_all rest)
accesses (has_read x a adds rest) = 2 + (adding adds + adding_all rest)

-- A thread is outside, or it is inside and has read what is shared.
abbrev pub IsOutside : Pc → Type 0
IsOutside (outside rest) = Unit {0}
IsOutside _ = ⊥

abbrev pub IsCurrent : ℕ → Pc → Type 0
IsCurrent shared (outside rest) = ⊥
IsCurrent shared (inside adds rest) = Unit {0}
IsCurrent shared (has_read x a adds rest) = x ≡ shared

abbrev pub Exclusive : Option Side → ℕ → Pc → Pc → Type 0
Exclusive none shared p q = IsOutside p × IsOutside q
Exclusive (some first) shared p q = IsCurrent shared p × IsOutside q
Exclusive (some second) shared p q = IsOutside p × IsCurrent shared q

-- The owner of the mutex alone is in a critical section, and what it has read is still what is shared;
-- what is shared and what is pending add up to `sum`.
pub record Inv (sum : ℕ) (s : State) : Type 0 where
  pub exclusive : Exclusive s.owner s.shared s.first_pc s.second_pc
  pub kept : s.shared + (pending s.first_pc + pending s.second_pc) ≡ sum

abbrev pub remaining : State → ℕ
remaining s = accesses s.first_pc + accesses s.second_pc

module _ (sum shared : ℕ) where
  -- A step of one thread keeps the invariant, and leaves one access less.
  Kept : ℕ → State → Type 0
  Kept n t = Inv sum t × (suc (remaining t) ≡ n)

  first-Kept :
      (owner : Option Side) (p q : Pc) (t : State)
      → Inv sum (record { shared = shared; owner = owner; first_pc = p; second_pc = q })
      → access first p (record { shared = shared; owner = owner; first_pc = p; second_pc = q })
        ≡ some t
      → Kept (accesses p + accesses q) t
  unfolding access enter Kept
  first-Kept owner (outside []) q t inv h = absurd (none-some h)
  first-Kept none (outside (adds ∷ rest)) q t inv h =
      subst (Kept _) (some-injective h)
        (record { exclusive = (tt, inv.exclusive.1); kept = omega arith }, omega arith)
  first-Kept (some other) (outside (adds ∷ rest)) q t inv h = absurd (none-some h)
  first-Kept none (inside adds rest) q t inv h = absurd inv.exclusive.0
  first-Kept (some second) (inside adds rest) q t inv h = absurd inv.exclusive.0
  first-Kept (some first) (inside [] rest) q t inv h =
      subst (Kept _) (some-injective h)
        (record { exclusive = (tt, inv.exclusive.1); kept = omega arith }, omega arith)
  first-Kept (some first) (inside (a ∷ adds) rest) q t inv h =
      subst (Kept _) (some-injective h)
        (record { exclusive = (refl, inv.exclusive.1); kept = omega arith }, omega arith)
  first-Kept none (has_read x a adds rest) q t inv h = absurd inv.exclusive.0
  first-Kept (some second) (has_read x a adds rest) q t inv h = absurd inv.exclusive.0
  first-Kept (some first) (has_read x a adds rest) q t inv h =
      let now : x ≡ shared = inv.exclusive.0 in
      subst (Kept _) (some-injective h)
        (record { exclusive = (tt, inv.exclusive.1); kept = omega arith }, omega arith)

  second-Kept :
      (owner : Option Side) (p q : Pc) (t : State)
      → Inv sum (record { shared = shared; owner = owner; first_pc = q; second_pc = p })
      → access second p (record { shared = shared; owner = owner; first_pc = q; second_pc = p })
        ≡ some t
      → Kept (accesses p + accesses q) t
  unfolding access enter Kept
  second-Kept owner (outside []) q t inv h = absurd (none-some h)
  second-Kept none (outside (adds ∷ rest)) q t inv h =
      subst (Kept _) (some-injective h)
        (record { exclusive = (inv.exclusive.0, tt); kept = omega arith }, omega arith)
  second-Kept (some other) (outside (adds ∷ rest)) q t inv h = absurd (none-some h)
  second-Kept none (inside adds rest) q t inv h = absurd inv.exclusive.1
  second-Kept (some first) (inside adds rest) q t inv h = absurd inv.exclusive.1
  second-Kept (some second) (inside [] rest) q t inv h =
      subst (Kept _) (some-injective h)
        (record { exclusive = (inv.exclusive.0, tt); kept = omega arith }, omega arith)
  second-Kept (some second) (inside (a ∷ adds) rest) q t inv h =
      subst (Kept _) (some-injective h)
        (record { exclusive = (inv.exclusive.0, refl); kept = omega arith }, omega arith)
  second-Kept none (has_read x a adds rest) q t inv h = absurd inv.exclusive.1
  second-Kept (some first) (has_read x a adds rest) q t inv h = absurd inv.exclusive.1
  second-Kept (some second) (has_read x a adds rest) q t inv h =
      let now : x ≡ shared = inv.exclusive.1 in
      subst (Kept _) (some-injective h)
        (record { exclusive = (inv.exclusive.0, tt); kept = omega arith }, omega arith)

pub step-Kept :
    (sum : ℕ) (side : Side) (s t : State)
    → Inv sum s
    → step side s ≡ some t
    → Inv sum t × (suc (remaining t) ≡ remaining s)
unfolding step Kept
step-Kept sum first s t inv h = first-Kept sum s.shared s.owner s.first_pc s.second_pc t inv h
step-Kept sum second s t inv h =
    let kept = second-Kept sum s.shared s.owner s.second_pc s.first_pc t inv h in
    (kept.0, omega (arith, kept.1))

then_steps : List Side → Option State → Option State
then_steps sides o = elim o [ none ↦ none | some t ↦ steps sides t ]

-- Along any run the invariant stays, and each step is one access.
pub steps-Kept :
    (sum : ℕ) (sides : List Side) (s t : State)
    → Inv sum s
    → steps sides s ≡ some t
    → Inv sum t × (length sides + remaining t ≡ remaining s)
unfolding steps then_steps
steps-Kept sum [] s t inv h =
    subst (λ u. Inv sum u × (length {A = Side} [] + remaining u ≡ remaining s)) (some-injective h)
      (inv, omega arith)
steps-Kept sum (side ∷ sides) s t inv h = elim (Option-cases (step side s)) [
  | inl stuck ↦ absurd (none-some (sym (ap (then_steps sides) stuck) ∙ h))
  | inr (u, moved) ↦
      let one = step-Kept sum side s u inv moved in
      let more = steps-Kept sum sides u t one.0 (sym (ap (then_steps sides) moved) ∙ h) in
      (more.0, omega (arith, more.1, one.1))
]
