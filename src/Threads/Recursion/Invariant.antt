-- ===== src/Threads/Recursion/Invariant.antt =====
-- Where the two threads of Threads/Recursion stand, and what they have shown: the invariant of a step.
use build_your_own_stuff.Prelude.{
  ℕ, zero, suc, ◌+◌, ◌<◌, ◌≡◌, refl, ap, ap₂, sym, ◌∙◌, ◌⊎◌, inl, inr, Option, none, some, List, [],
  ◌∷◌, ◌++◌, append_assoc, append-nil, arith,
}
use build_your_own_stuff.Threads.Recursion.{
  Side, first, second, Pc, calling, locked, returning, State,
}

-- The lines of a thread that counts up from a number, so many times.
abbrev pub numbered : Side → ℕ → ℕ → List (Side × ℕ)
numbered side from zero = []
numbered side from (suc n) = (side, from) ∷ numbered side (suc from) n

numbered-suc :
    (side : Side) (from n : ℕ)
    → numbered side from (suc n) ≡ numbered side from n ++ (side, from + n) ∷ []
numbered-suc side from zero = ap (λ k. (side, k) ∷ []) (omega arith)
numbered-suc side from (suc n) = ap (◌∷◌ (side, from)) (
    numbered-suc side (suc from) n
    ∙ ap (λ k. numbered side (suc from) n ++ (side, k) ∷ []) (omega arith))

-- One thread has shown `a` of its `m` lines and the other `b` of `n`, the one after the other.
abbrev pub InOrder : Side → Side → List (Side × ℕ) → ℕ → ℕ → ℕ → ℕ → Type 0
InOrder p q xs a b m n =
    ((xs ≡ numbered p 0 a ++ numbered q a b) × ((b ≡ 0) ⊎ (a ≡ m)))
    ⊎ ((xs ≡ numbered q 0 b ++ numbered p b a) × ((a ≡ 0) ⊎ (b ≡ n)))

pub InOrder-swap :
    (p q : Side) (xs : List (Side × ℕ)) (a b m n : ℕ)
    → InOrder p q xs a b m n
    → InOrder q p xs b a n m
InOrder-swap p q xs a b m n (inl h) = inr h
InOrder-swap p q xs a b m n (inr h) = inl h

InOrder-alone :
    (p q : Side) (xs : List (Side × ℕ)) (a m n : ℕ) → InOrder p q xs a 0 m n → xs ≡ numbered p 0 a
InOrder-alone p q xs a m n (inl h) = h.0 ∙ append-nil (numbered p 0 a)
InOrder-alone p q xs a m n (inr h) = h.0

-- A line more of one thread, where the other has shown none or all of its own.
pub InOrder-more :
    (p q : Side) (xs : List (Side × ℕ)) (a b m n : ℕ)
    → InOrder p q xs a b m n
    → a < m
    → (b ≡ 0) ⊎ (b ≡ n)
    → InOrder p q (xs ++ (p, a + b) ∷ []) (suc a) b m n
InOrder-more p q xs a zero m n h lt none_or_all = inl (
  ap₂ (λ ys k. ys ++ (p, k) ∷ []) (InOrder-alone p q xs a m n h) (omega arith)
      ∙ sym (numbered-suc p 0 a)
      ∙ sym (append-nil (numbered p 0 (suc a))),
  inl refl,
)
InOrder-more p q xs a (suc b) m n (inl (e, inl none_yet)) lt none_or_all = absurd (omega arith)
InOrder-more p q xs a (suc b) m n (inl (e, inr all)) lt none_or_all = absurd (omega arith)
InOrder-more p q xs a (suc b) m n (inr (e, which)) lt (inl none_yet) = absurd (omega arith)
InOrder-more p q xs a (suc b) m n (inr (e, which)) lt (inr all) = inr (
  ap₂ (λ ys k. ys ++ (p, k) ∷ []) e (omega arith)
      ∙ append_assoc (numbered q 0 (suc b)) (numbered p (suc b) a) ((p, suc b + a) ∷ [])
      ∙ ap (λ ys. numbered q 0 (suc b) ++ ys) (sym (numbered-suc p (suc b) a)),
  inr all,
)

-- A thread of k levels has shown `a` lines and holds `l` locks.
abbrev pub Place : ℕ → Pc → ℕ → ℕ → Type 0
Place k (calling n held) a l = (n + a ≡ k) × (held ≡ l) × (a ≡ l)
Place k (locked n held) a l = (suc n + a ≡ k) × (held ≡ l) × (suc a ≡ l)
Place k (returning held) a l = (a ≡ k) × (held ≡ l)

pub Place-outside : (k : ℕ) (pc : Pc) (a : ℕ) → Place k pc a 0 → (a ≡ 0) ⊎ (a ≡ k)
Place-outside k (calling n held) a h = inl h.2
Place-outside k (locked n held) a h = absurd (omega (arith, h.2))
Place-outside k (returning held) a h = inr h.0

-- The locks are those of the owner.
abbrev pub Locks : Option Side → ℕ → ℕ → ℕ → Type 0
Locks none locks l r = (locks ≡ 0) × (l ≡ 0) × (r ≡ 0)
Locks (some first) locks l r = (0 < locks) × (l ≡ locks) × (r ≡ 0)
Locks (some second) locks l r = (0 < locks) × (l ≡ 0) × (r ≡ locks)

pub record Inv (m n a b l r : ℕ) (s : State) : Type 0 where
  pub one : Place m s.first_pc a l
  pub two : Place n s.second_pc b r
  pub locks : Locks s.owner s.locks l r
  pub buffer : s.buffer ≡ a + b
  pub order : InOrder first second s.shown a b m n

abbrev pub Reached : ℕ → ℕ → State → Type 0
Reached m n s = (a : ℕ) × (b : ℕ) × (l : ℕ) × (r : ℕ) × Inv m n a b l r s
