-- ===== src/Prelude/Decimal.antt =====
-- Decimal notation: what std::to_string and sprintf with "%d" print of a number that is not negative.
use Prim.Native.Nat.{ℕ, zero, suc, ◌+◌, ◌-◌, ◌*◌, ◌/◌, ◌%◌, ◌<◌}
use mathlib.Core.Path.{◌≡◌, ◌∙◌, ap}
use mathlib.Core.List.{[], ◌∷◌}
use mathlib.Core.Logic.{inl, inr}
use native.Mathlib.Omega.{arith}
use build_your_own_stuff.Prelude.Tests.{ltb, Bool-cases, if◌then◌else◌}
use build_your_own_stuff.Prelude.Strings.{Text, Lacks}

-- The digits of a number, before those in `after`. The fuel suc n is enough, since each round
-- divides by ten.
digits : ℕ → ℕ → Text → Text
digits zero n after = after
digits (suc fuel) n after =
    let more = digits fuel (n / 10) ((48 + n % 10) ∷ after) in
    if ltb n 10 then (48 + n) ∷ after else more

unfoldable pub decimal : ℕ → Text
unfolding digits
decimal n = digits (suc n) n []

-- The number that digits stand for, after those that stand for `acc`.
unfoldable pub value : ℕ → Text → ℕ
value acc [] = acc
value acc (c ∷ cs) = value (acc * 10 + (c - 48)) cs

value-digits :
    (fuel n : ℕ) (after : Text) → n < fuel → value 0 (digits fuel n after) ≡ value n after
unfolding digits value
value-digits zero n after h = absurd (omega arith)
value-digits (suc fuel) n after h = elim (Bool-cases (ltb n 10)) [
  | inl small ↦ rw small (ap (λ k. value k after) (omega arith))
  | inr big ↦ rw big (
      value-digits fuel (n / 10) ((48 + n % 10) ∷ after) (ground arith)
      ∙ ap (λ k. value k after) (omega arith))
]

-- What is printed reads back as the number.
pub value-decimal : (n : ℕ) → value 0 (decimal n) ≡ n
unfolding decimal value
value-decimal n = value-digits (suc n) n [] (omega arith)

digits-Lacks :
    (fuel n c : ℕ) (after : Text) → c < 48 → Lacks c after → Lacks c (digits fuel n after)
unfolding digits
digits-Lacks zero n c after h l = l
digits-Lacks (suc fuel) n c after h l = elim (Bool-cases (ltb n 10)) [
  | inl small ↦ rw small (ground arith, l)
  | inr big ↦ rw big (digits-Lacks fuel (n / 10) c ((48 + n % 10) ∷ after) h (ground arith, l))
]

-- A number is printed without any byte below '0'.
pub decimal-Lacks : (n c : ℕ) → c < 48 → Lacks c (decimal n)
unfolding decimal
decimal-Lacks n c h = digits-Lacks (suc n) n c [] h tt
