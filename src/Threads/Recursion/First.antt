-- ===== src/Threads/Recursion/First.antt =====
-- The steps of the first thread of Threads/Recursion.
use build_your_own_stuff.Prelude.{
  ℕ, zero, suc, ◌≡◌, refl, sym, subst, Option, none, some, none-some, some-injective, List, [], ◌∷◌,
  ◌++◌, arith,
}
use build_your_own_stuff.Threads.Recursion.{
  Side, first, second, Pc, calling, locked, returning, State, enter, recursion,
}
use build_your_own_stuff.Threads.Recursion.Invariant.{
  InOrder, InOrder-more, Place, Place-outside, Inv, Reached,
}

-- A step of the first thread keeps the invariant.
pub first-Reached :
    (m n a b l r buffer locks : ℕ) (owner : Option Side) (p q : Pc) (shown : List (Side × ℕ))
    (t : State)
    → Inv m n a b l r (record {
      buffer = buffer;
      owner = owner;
      locks = locks;
      first_pc = p;
      second_pc = q;
      shown = shown;
    })
    → recursion first p (record {
      buffer = buffer;
      owner = owner;
      locks = locks;
      first_pc = p;
      second_pc = q;
      shown = shown;
    })
      ≡ some t
    → Reached m n t
unfolding recursion enter
first-Reached m n a b l r buffer locks owner (calling zero held) q shown t inv h =
    subst (Reached m n) (some-injective h) (
      a,
      b,
      l,
      r,
      record {
        one = (omega (arith, inv.one.0), inv.one.1);
        two = inv.two;
        locks = inv.locks;
        buffer = inv.buffer;
        order = inv.order;
      },
    )
first-Reached m n a b l r buffer locks none (calling (suc k) held) q shown t inv h =
    subst (Reached m n) (some-injective h) (
      a,
      b,
      suc l,
      r,
      record {
        one = (omega (arith, inv.one.0), omega (arith, inv.one.1), omega (arith, inv.one.2));
        two = inv.two;
        locks = (omega arith, omega (arith, inv.locks.0, inv.locks.1), inv.locks.2);
        buffer = inv.buffer;
        order = inv.order;
      },
    )
first-Reached m n a b l r buffer locks (some second) (calling (suc k) held) q shown t inv h =
    absurd (none-some h)
first-Reached m n a b l r buffer locks (some first) (calling (suc k) held) q shown t inv h =
    subst (Reached m n) (some-injective h) (
      a,
      b,
      suc l,
      r,
      record {
        one = (omega (arith, inv.one.0), omega (arith, inv.one.1), omega (arith, inv.one.2));
        two = inv.two;
        locks = (omega arith, omega (arith, inv.locks.1), inv.locks.2);
        buffer = inv.buffer;
        order = inv.order;
      },
    )
first-Reached m n a b l r buffer locks none (locked k held) q shown t inv h =
    absurd (omega (arith, inv.one.2, inv.locks.1))
first-Reached m n a b l r buffer locks (some second) (locked k held) q shown t inv h =
    absurd (omega (arith, inv.one.2, inv.locks.1))
first-Reached m n a b l r buffer locks (some first) (locked k held) q shown t inv h =
    let outside = Place-outside n q b (subst (Place n q b) inv.locks.2 inv.two) in
    subst (Reached m n) (some-injective h) (
      suc a,
      b,
      l,
      r,
      record {
        one = (omega (arith, inv.one.0), inv.one.1, inv.one.2);
        two = inv.two;
        locks = inv.locks;
        buffer = omega (arith, inv.buffer);
        order =
            subst (λ k. InOrder first second (shown ++ (first, k) ∷ []) (suc a) b m n)
              (sym inv.buffer)
              (InOrder-more first second shown a b m n inv.order (omega (arith, inv.one.0))
                outside);
      },
    )
first-Reached m n a b l r buffer locks owner (returning zero) q shown t inv h = absurd (none-some h)
first-Reached m n a b l r buffer locks none (returning (suc held)) q shown t inv h =
    absurd (omega (arith, inv.one.1, inv.locks.1))
first-Reached m n a b l r buffer locks (some second) (returning (suc held)) q shown t inv h =
    absurd (omega (arith, inv.one.1, inv.locks.1))
first-Reached m n a b l r buffer zero (some first) (returning (suc held)) q shown t inv h =
    absurd (omega (arith, inv.locks.0))
first-Reached m n a b l r buffer (suc zero) (some first) (returning (suc held)) q shown t inv h =
    subst (Reached m n) (some-injective h) (
      a,
      b,
      0,
      r,
      record {
        one = (inv.one.0, omega (arith, inv.one.1, inv.locks.1));
        two = inv.two;
        locks = (refl, refl, inv.locks.2);
        buffer = inv.buffer;
        order = inv.order;
      },
    )
first-Reached m n a b l r buffer (suc (suc c)) (some first) (returning (suc held)) q shown t inv h =
    subst (Reached m n) (some-injective h) (
      a,
      b,
      suc c,
      r,
      record {
        one = (inv.one.0, omega (arith, inv.one.1, inv.locks.1));
        two = inv.two;
        locks = (omega arith, refl, inv.locks.2);
        buffer = inv.buffer;
        order = inv.order;
      },
    )
