-- ===== src/Threads/Recursion/Second.antt =====
-- The steps of the second thread of Threads/Recursion.
use build_your_own_stuff.Prelude.{
  ℕ, zero, suc, ◌≡◌, refl, subst, Option, none, some, none-some, some-injective, List, [], ◌∷◌,
  ◌++◌, arith,
}
use build_your_own_stuff.Threads.Recursion.{
  Side, first, second, Pc, calling, locked, returning, State, enter, recursion,
}
use build_your_own_stuff.Threads.Recursion.Invariant.{
  InOrder, InOrder-swap, InOrder-more, Place, Place-outside, Inv, Reached,
}

-- A step of the second thread keeps the invariant.
pub second-Reached :
    (m n a b l r buffer locks : ℕ) (owner : Option Side) (p q : Pc) (shown : List (Side × ℕ))
    (t : State)
    → Inv m n a b l r (record {
      buffer = buffer;
      owner = owner;
      locks = locks;
      first_pc = q;
      second_pc = p;
      shown = shown;
    })
    → recursion second p (record {
      buffer = buffer;
      owner = owner;
      locks = locks;
      first_pc = q;
      second_pc = p;
      shown = shown;
    })
      ≡ some t
    → Reached m n t
unfolding recursion enter
second-Reached m n a b l r buffer locks owner (calling zero held) q shown t inv h =
    subst (Reached m n) (some-injective h) (
      a,
      b,
      l,
      r,
      record {
        two = (omega (arith, inv.two.0), inv.two.1);
        one = inv.one;
        locks = inv.locks;
        buffer = inv.buffer;
        order = inv.order;
      },
    )
second-Reached m n a b l r buffer locks none (calling (suc k) held) q shown t inv h =
    subst (Reached m n) (some-injective h) (
      a,
      b,
      l,
      suc r,
      record {
        two = (omega (arith, inv.two.0), omega (arith, inv.two.1), omega (arith, inv.two.2));
        one = inv.one;
        locks = (omega arith, inv.locks.1, omega (arith, inv.locks.0, inv.locks.2));
        buffer = inv.buffer;
        order = inv.order;
      },
    )
second-Reached m n a b l r buffer locks (some first) (calling (suc k) held) q shown t inv h =
    absurd (none-some h)
second-Reached m n a b l r buffer locks (some second) (calling (suc k) held) q shown t inv h =
    subst (Reached m n) (some-injective h) (
      a,
      b,
      l,
      suc r,
      record {
        two = (omega (arith, inv.two.0), omega (arith, inv.two.1), omega (arith, inv.two.2));
        one = inv.one;
        locks = (omega arith, inv.locks.1, omega (arith, inv.locks.2));
        buffer = inv.buffer;
        order = inv.order;
      },
    )
second-Reached m n a b l r buffer locks none (locked k held) q shown t inv h =
    absurd (omega (arith, inv.two.2, inv.locks.2))
second-Reached m n a b l r buffer locks (some first) (locked k held) q shown t inv h =
    absurd (omega (arith, inv.two.2, inv.locks.2))
second-Reached m n a b l r buffer locks (some second) (locked k held) q shown t inv h =
    let outside = Place-outside m q a (subst (Place m q a) inv.locks.1 inv.one) in
    subst (Reached m n) (some-injective h) (
      a,
      suc b,
      l,
      r,
      record {
        two = (omega (arith, inv.two.0), inv.two.1, inv.two.2);
        one = inv.one;
        locks = inv.locks;
        buffer = omega (arith, inv.buffer);
        order =
            subst (λ k. InOrder first second (shown ++ (second, k) ∷ []) a (suc b) m n)
              (omega (arith, inv.buffer))
              (InOrder-swap second first _ (suc b) a n m (
                InOrder-more second first shown b a n m
                  (InOrder-swap first second shown a b m n inv.order) (omega (arith, inv.two.0))
                  outside));
      },
    )
second-Reached m n a b l r buffer locks owner (returning zero) q shown t inv h =
    absurd (none-some h)
second-Reached m n a b l r buffer locks none (returning (suc held)) q shown t inv h =
    absurd (omega (arith, inv.two.1, inv.locks.2))
second-Reached m n a b l r buffer locks (some first) (returning (suc held)) q shown t inv h =
    absurd (omega (arith, inv.two.1, inv.locks.2))
second-Reached m n a b l r buffer zero (some second) (returning (suc held)) q shown t inv h =
    absurd (omega (arith, inv.locks.0))
second-Reached m n a b l r buffer (suc zero) (some second) (returning (suc held)) q shown t inv h =
    subst (Reached m n) (some-injective h) (
      a,
      b,
      l,
      0,
      record {
        two = (inv.two.0, omega (arith, inv.two.1, inv.locks.2));
        one = inv.one;
        locks = (refl, inv.locks.1, refl);
        buffer = inv.buffer;
        order = inv.order;
      },
    )
second-Reached m n a b l r buffer (suc (suc c)) (some second) (returning (suc held)) q shown t inv
      h =
    subst (Reached m n) (some-injective h) (
      a,
      b,
      l,
      suc c,
      record {
        two = (inv.two.0, omega (arith, inv.two.1, inv.locks.2));
        one = inv.one;
        locks = (omega arith, inv.locks.1, refl);
        buffer = inv.buffer;
        order = inv.order;
      },
    )
