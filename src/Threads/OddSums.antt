-- ===== src/Threads/OddSums.antt =====
-- The sums of cpp/multi_threading/basic.cpp, async_cpp.cpp and future_and_promise.cpp over a range of
-- numbers: the loops with their 64-bit counter.
pub mod Closed
use build_your_own_stuff.Prelude.{
  ℕ, zero, suc, ◌+◌, ◌-◌, ◌*◌, ◌/◌, ◌%◌, ◌^◌, ◌≤◌, ◌<◌, ◌≡◌, refl, ap, sym, ◌∙◌, true, Bool-cases,
  inl, inr, Option, none, some, arith, ltb, leb, ◌==◌, if◌then◌else◌,
}

abbrev pub u64 : ℕ → ℕ
u64 n = n % 2 ^ 64

-- `if (i % 2 != 0) odd_sum += i`, which findOdd writes as `i & 1`, and the same for the even numbers
unfoldable pub add_odd : ℕ → ℕ → ℕ
add_odd sum i = if i % 2 == 0 then sum else u64 (sum + i)

unfoldable pub add_even : ℕ → ℕ → ℕ
add_even sum i = if i % 2 == 0 then u64 (sum + i) else sum

-- for (ull i = start; i <= end; i++), for as many turns: `none` is that these do not suffice.
unfoldable pub loop : (ℕ → ℕ → ℕ) → ℕ → ℕ → ℕ → ℕ → Option ℕ
loop add zero i last sum = none
loop add (suc turns) i last sum =
    let more = loop add turns (u64 (suc i)) last (add sum i) in
    if leb i last then more else some sum

-- calc_odd_sum and calc_even_sum, each on its own global, which is 0 before
unfoldable pub calc_odd_sum : ℕ → ℕ → ℕ → Option ℕ
unfolding loop add_odd
calc_odd_sum turns first last = loop add_odd turns first last 0

unfoldable pub calc_even_sum : ℕ → ℕ → ℕ → Option ℕ
unfolding loop add_even
calc_even_sum turns first last = loop add_even turns first last 0

-- findOdd of async_cpp.cpp: its `ull` is a signed long, whose overflow has no defined result, which is
-- `none` too. What it prints is left out.
abbrev pub long_add : ℕ → ℕ → Option ℕ
long_add a b = if ltb (a + b) (2 ^ 63) then some (a + b) else none

unfoldable pub long_add_odd : ℕ → ℕ → Option ℕ
long_add_odd sum i = if i % 2 == 0 then some sum else long_add sum i

unfoldable pub find_odd_from : ℕ → ℕ → ℕ → ℕ → Option ℕ
unfolding long_add_odd
find_odd_from zero i last sum = none
find_odd_from (suc turns) i last sum =
    let after : Option ℕ = elim (long_add_odd sum i) [
      | none ↦ none
      | some sum' ↦ elim (long_add i 1) [
        | none ↦ none
        | some next ↦ find_odd_from turns next last sum'
      ]
    ] in
    if leb i last then after else some sum

unfoldable pub find_odd : ℕ → ℕ → ℕ → Option ℕ
unfolding find_odd_from
find_odd turns first last = find_odd_from turns first last 0
