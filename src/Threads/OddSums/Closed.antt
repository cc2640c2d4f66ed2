-- ===== src/Threads/OddSums/Closed.antt =====
-- What the loops of Threads/OddSums add up to.
use build_your_own_stuff.Prelude.{
  ℕ, zero, suc, ◌+◌, ◌-◌, ◌*◌, ◌/◌, ◌%◌, ◌^◌, ◌≤◌, ◌<◌, ◌≡◌, refl, ap, sym, ◌∙◌, true, Bool-cases,
  inl, inr, some, arith, ltb, leb, ◌==◌, if◌then◌else◌,
}
use build_your_own_stuff.Threads.OddSums.{
  u64, add_odd, add_even, loop, calc_odd_sum, calc_even_sum, long_add, long_add_odd, find_odd_from,
  find_odd,
}

-- Sums of the odd and of the even numbers below n.
abbrev pub odd_below : ℕ → ℕ
odd_below n = n / 2 * (n / 2)

abbrev pub even_below : ℕ → ℕ
even_below n = (suc n / 2) * (suc n / 2 - 1)

square-suc : (k : ℕ) → suc k * suc k ≡ k * k + suc (2 * k)
square-suc k = grind arith

odd_below-suc : (n : ℕ) → odd_below (suc n) ≡ (if n % 2 == 0 then odd_below n else odd_below n + n)
odd_below-suc n = elim (Bool-cases (n % 2 == 0)) [
  | inl even ↦ let same : suc n / 2 ≡ n / 2 = ground arith in rw even (ap (λ k. k * k) same)
  | inr odd ↦
      let next : suc n / 2 ≡ suc (n / 2) = ground arith in
      rw odd
        (ap (λ k. k * k) next ∙ square-suc (n / 2) ∙ ap (λ m. n / 2 * (n / 2) + m) (ground arith))
]

pronic-suc : (k : ℕ) → suc k * k ≡ k * (k - 1) + 2 * k
pronic-suc zero = refl
pronic-suc (suc k) = grind arith

even_below-suc :
    (n : ℕ) → even_below (suc n) ≡ (if n % 2 == 0 then even_below n + n else even_below n)
even_below-suc n = elim (Bool-cases (n % 2 == 0)) [
  | inl even ↦
      let next : suc (suc n) / 2 ≡ suc (suc n / 2) = ground arith in
      rw even (
        ap (λ k. k * (k - 1)) next
        ∙ ap (λ m. suc (suc n / 2) * m) (omega arith)
        ∙ pronic-suc (suc n / 2)
        ∙ ap (λ m. (suc n / 2) * (suc n / 2 - 1) + m) (ground arith))
  | inr odd ↦
      let same : suc (suc n) / 2 ≡ suc n / 2 = ground arith in rw odd (ap (λ k. k * (k - 1)) same)
]

lower-product : (k l b : ℕ) → k ≤ b → l ≤ k → k * l ≤ b * b
lower-product k l b h h' = grind arith

odd_below-bounded : (n : ℕ) → n ≤ 2 ^ 32 → odd_below n < 2 ^ 63
odd_below-bounded n h =
    omega (arith, lower-product (n / 2) (n / 2) (2 ^ 31) (omega arith) (omega arith))

even_below-bounded : (n : ℕ) → n ≤ 2 ^ 32 → even_below n < 2 ^ 63
even_below-bounded n h =
    omega (arith, lower-product (suc n / 2) (suc n / 2 - 1) (2 ^ 31) (omega arith) (omega arith))

u64-small : (n : ℕ) → n < 2 ^ 63 → u64 n ≡ n
u64-small n h = omega arith

add_odd-below : (i : ℕ) → i < 2 ^ 32 → add_odd (odd_below i) i ≡ odd_below (suc i)
unfolding add_odd
add_odd-below i h = elim (Bool-cases (i % 2 == 0)) [
  | inl even ↦
      let same : odd_below (suc i) ≡ odd_below i = odd_below-suc i ∙ rw even refl in
      rw even (sym same)
  | inr odd ↦
      let next : odd_below (suc i) ≡ odd_below i + i = odd_below-suc i ∙ rw odd refl in
      let small : odd_below i + i < 2 ^ 63 =
        omega (arith, next, odd_below-bounded (suc i) (omega arith)) in
      rw odd (u64-small (odd_below i + i) small ∙ sym next)
]

add_even-below : (i : ℕ) → i < 2 ^ 32 → add_even (even_below i) i ≡ even_below (suc i)
unfolding add_even
add_even-below i h = elim (Bool-cases (i % 2 == 0)) [
  | inl even ↦
      let next : even_below (suc i) ≡ even_below i + i = even_below-suc i ∙ rw even refl in
      let small : even_below i + i < 2 ^ 63 =
        omega (arith, next, even_below-bounded (suc i) (omega arith)) in
      rw even (u64-small (even_below i + i) small ∙ sym next)
  | inr odd ↦
      let same : even_below (suc i) ≡ even_below i = even_below-suc i ∙ rw odd refl in
      rw odd (sym same)
]

-- A loop that adds up f, for which the turns are enough.
loop-adds :
    (add : ℕ → ℕ → ℕ) (f : ℕ → ℕ) (last : ℕ)
    → ((i : ℕ) → i < 2 ^ 32 → add (f i) i ≡ f (suc i))
    → last < 2 ^ 32
    → (turns i : ℕ) → i ≤ suc last
    → suc last < turns + i
    → loop add turns i last (f i) ≡ some (f (suc last))
unfolding loop
loop-adds add f last grows bounded zero i low enough = absurd (omega arith)
loop-adds add f last grows bounded (suc turns) i low enough = elim (Bool-cases (leb i last)) [
  | inl e ↦
      let within : i ≤ last = ground arith in
      rw e (
        ap (λ j. loop add turns j last (add (f i) i)) (u64-small (suc i) (omega arith))
        ∙ ap (loop add turns (suc i) last) (grows i (omega arith))
        ∙ loop-adds add f last grows bounded turns (suc i) (omega arith) (omega arith))
  | inr e ↦ let over : i ≡ suc last = ground arith in rw e (ap (λ j. some (f j)) over)
]

long_add-small : (a b : ℕ) → a + b < 2 ^ 63 → long_add a b ≡ some (a + b)
long_add-small a b h = let small : ltb (a + b) (2 ^ 63) ≡ true = ground arith in rw small refl

long_add_odd-below : (i : ℕ) → i < 2 ^ 32 → long_add_odd (odd_below i) i ≡ some (odd_below (suc i))
unfolding long_add_odd
long_add_odd-below i h = elim (Bool-cases (i % 2 == 0)) [
  | inl even ↦
      let same : odd_below (suc i) ≡ odd_below i = odd_below-suc i ∙ rw even refl in
      rw even (ap some (sym same))
  | inr odd ↦
      let next : odd_below (suc i) ≡ odd_below i + i = odd_below-suc i ∙ rw odd refl in
      let small : odd_below i + i < 2 ^ 63 =
        omega (arith, next, odd_below-bounded (suc i) (omega arith)) in
      rw odd (long_add-small (odd_below i) i small ∙ ap some (sym next))
]

find_odd-adds :
    (last : ℕ)
    → last < 2 ^ 32
    → (turns i : ℕ) → i ≤ suc last
    → suc last < turns + i
    → find_odd_from turns i last (odd_below i) ≡ some (odd_below (suc last))
unfolding find_odd_from
find_odd-adds last bounded zero i low enough = absurd (omega arith)
find_odd-adds last bounded (suc turns) i low enough = elim (Bool-cases (leb i last)) [
  | inl e ↦
      let within : i ≤ last = ground arith in
      let next : long_add i 1 ≡ some (suc i) =
        long_add-small i 1 (omega arith) ∙ ap some (omega arith) in
      rw (e, long_add_odd-below i (omega arith), next)
        (find_odd-adds last bounded turns (suc i) (omega arith) (omega arith))
  | inr e ↦ let over : i ≡ suc last = ground arith in rw e (ap (λ j. some (odd_below j)) over)
]

-- Up to a last number below 2 ^ 32, as many turns as there are numbers and one more end each loop
-- without an overflow, and with the sum that the closed form gives: the square of half the number
-- behind the last, and for the even numbers a product of neighbours.
pub sums-closed :
    (turns last : ℕ)
    → last < 2 ^ 32
    → suc last < turns
    → (calc_odd_sum turns 0 last ≡ some (odd_below (suc last)))
      × (calc_even_sum turns 0 last ≡ some (even_below (suc last)))
      × (find_odd turns 0 last ≡ some (odd_below (suc last)))
unfolding calc_odd_sum calc_even_sum find_odd
sums-closed turns last bounded enough = (
  loop-adds add_odd odd_below last add_odd-below bounded turns 0 (omega arith) (omega arith),
  loop-adds add_even even_below last add_even-below bounded turns 0 (omega arith) (omega arith),
  find_odd-adds last bounded turns 0 (omega arith) (omega arith),
)
