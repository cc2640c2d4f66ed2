-- ===== src/Threads/Accounts.antt =====
-- cpp/multi_threading/condition_variable.cpp: one thread waits for money and withdraws it, the other
-- adds some. Each holds the mutex from its wait to its end, so each is one step. Amounts are taken
-- to be at least 0; what goes to cout is left out but for the answer of the withdrawal.
use build_your_own_stuff.Prelude.{
  ℕ, ◌+◌, ◌-◌, ◌<◌, ◌≡◌, ◌≢◌, refl, ap, sym, ◌∙◌, Bool, true, false, Bool-cases, inl, inr, Option,
  none, some, none-some, some-injective, List, [], ◌∷◌, arith, leb, ◌==◌, if◌then◌else◌,
}

-- `None` of the threads' fields is that the thread has still to run.
pub record Account : Type 0 where
  pub balance : ℕ
  pub added : Bool
  pub deducted : Option Bool

pub data Turn : Type 0 where
  adder : Turn
  withdrawer : Turn

unfoldable pub add_money : ℕ → Account → Option Account
add_money money a =
    if a.added then none else some (record a { balance = a.balance + money; added = true })

-- withdrowMoney behind its wait
unfoldable pub deduct : ℕ → Account → Account
deduct money a =
    if leb money a.balance
    then record a { balance = a.balance - money; deducted = some true }
    else record a { deducted = some false }

unfoldable pub withdraw_money : ℕ → Option Bool → Account → Option Account
unfolding deduct
withdraw_money money none a = if a.balance == 0 then none else some (deduct money a)
withdraw_money money (some answer) a = none

-- A turn of a thread, where it does not wait and has not ended.
unfoldable pub turn : ℕ → ℕ → Turn → Account → Option Account
unfolding add_money withdraw_money
turn deposit money adder a = add_money deposit a
turn deposit money withdrawer a = withdraw_money money a.deducted a

unfoldable pub turns : ℕ → ℕ → List Turn → Account → Option Account
unfolding turn
turns deposit money [] a = some a
turns deposit money (t ∷ ts) a = elim (turn deposit money t a) [
  | none ↦ none
  | some b ↦ turns deposit money ts b
]

unfoldable pub opening : Account
opening = record { balance = 0; added = false; deducted = none }

then_turns : ℕ → ℕ → List Turn → Option Account → Option Account
then_turns deposit money ts o = elim o [ none ↦ none | some b ↦ turns deposit money ts b ]

turns-stuck :
    (deposit money : ℕ) (t : Turn) (ts : List Turn) (a : Account)
    → turn deposit money t a ≡ none
    → turns deposit money (t ∷ ts) a ≡ none
unfolding turns then_turns
turns-stuck deposit money t ts a h = ap (then_turns deposit money ts) h

turns-moved :
    (deposit money : ℕ) (t : Turn) (ts : List Turn) (a b : Account)
    → turn deposit money t a ≡ some b
    → turns deposit money (t ∷ ts) a ≡ turns deposit money ts b
unfolding turns then_turns
turns-moved deposit money t ts a b h = ap (then_turns deposit money ts) h

after_deposit : ℕ → Account
after_deposit deposit = record { balance = deposit; added = true; deducted = none }

after_both : ℕ → ℕ → Account
unfolding after_deposit
after_both deposit money = deduct money (after_deposit deposit)

withdraw-covered :
    (deposit money : ℕ)
    → 0 < deposit
    → turn deposit money withdrawer (after_deposit deposit) ≡ some (after_both deposit money)
unfolding turn after_both
withdraw-covered deposit money h =
    let covered : (deposit == 0) ≡ false = ground arith in rw covered refl

both_turns :
    (deposit money : ℕ) (ts : List Turn)
    → 0 < deposit
    → turns deposit money (adder ∷ withdrawer ∷ ts) opening
      ≡ turns deposit money ts (after_both deposit money)
unfolding opening turn after_deposit
both_turns deposit money ts positive =
    turns-moved deposit money adder (withdrawer ∷ ts) opening (after_deposit deposit)
      (ap (λ n. some (record { balance = n; added = true; deducted = none })) (omega arith))
    ∙ turns-moved deposit money withdrawer ts (after_deposit deposit) (after_both deposit money)
        (withdraw-covered deposit money positive)

nothing_left :
    (deposit money : ℕ) (t : Turn) → turn deposit money t (after_both deposit money) ≡ none
unfolding turn after_both deduct
nothing_left deposit money adder = elim (Bool-cases (leb money deposit)) [
  | inl e ↦ rw e refl
  | inr e ↦ rw e refl
]
nothing_left deposit money withdrawer = elim (Bool-cases (leb money deposit)) [
  | inl e ↦ rw e refl
  | inr e ↦ rw e refl
]

withdraw-empty :
    (deposit money : ℕ) (a : Account) → a.balance ≡ 0 → turn deposit money withdrawer a ≡ none
unfolding turn
withdraw-empty deposit money a h = waits a.deducted
  where
    waits : (d : Option Bool) → withdraw_money money d a ≡ none
    waits none = ground (arith, h)
    waits (some answer) = refl

add-nothing :
    (money : ℕ) (a : Account)
    → a.added ≡ false
    → turn 0 money adder a ≡ some (record a { balance = a.balance + 0; added = true })
unfolding turn
add-nothing money a h = rw (h, add_money) refl

add-again : (money : ℕ) (a : Account) → a.added ≡ true → turn 0 money adder a ≡ none
unfolding turn
add-again money a h = rw (h, add_money) refl

-- With a deposit above 0, a run in which the withdrawer has come to its end is one turn of the adder and
-- then one of the withdrawer, and the account is as the withdrawal leaves it from a balance of that
-- deposit, its answer included.
pub turns-outcome :
    (deposit money : ℕ) (ts : List Turn) (a : Account)
    → 0 < deposit
    → turns deposit money ts opening ≡ some a
    → a.deducted ≢ none
    → (ts ≡ adder ∷ withdrawer ∷ [])
      × (a ≡ deduct money (record { balance = deposit; added = true; deducted = none }))
unfolding turns opening deduct after_both
turns-outcome deposit money [] a positive h ended = absurd (ended (ground arith))
turns-outcome deposit money (withdrawer ∷ ts) a positive h ended = absurd (none-some h)
turns-outcome deposit money (adder ∷ []) a positive h ended = absurd (ended (ground arith))
turns-outcome deposit money (adder ∷ adder ∷ ts) a positive h ended = absurd (none-some h)
turns-outcome deposit money (adder ∷ withdrawer ∷ []) a positive h ended =
    (refl, sym (some-injective (sym (both_turns deposit money [] positive) ∙ h)))
turns-outcome deposit money (adder ∷ withdrawer ∷ t ∷ ts) a positive h ended = absurd (
    none-some (
      sym (
        both_turns deposit money (t ∷ ts) positive
        ∙ turns-stuck deposit money t ts (after_both deposit money) (nothing_left deposit money t))
      ∙ h))

starved :
    (money : ℕ) (ts : List Turn) (a b : Account)
    → a.balance ≡ 0
    → a.deducted ≡ none
    → turns 0 money ts a ≡ some b
    → b.deducted ≡ none
unfolding turns
starved money [] a b empty waiting h = ground arith
starved money (adder ∷ ts) a b empty waiting h = elim (Bool-cases a.added) [
  | inl e ↦ absurd (none-some (sym (turns-stuck 0 money adder ts a (add-again money a e)) ∙ h))
  | inr e ↦
      starved money ts (record a { balance = a.balance + 0; added = true }) b (omega arith) waiting
        (sym (turns-moved 0 money adder ts a _ (add-nothing money a e)) ∙ h)
]
starved money (withdrawer ∷ ts) a b empty waiting h =
    absurd
      (none-some (sym (turns-stuck 0 money withdrawer ts a (withdraw-empty 0 money a empty)) ∙ h))

-- With no deposit the withdrawer waits for good: no run of the two threads lets it end.
pub turns-starved :
    (money : ℕ) (ts : List Turn) (a : Account)
    → turns 0 money ts opening ≡ some a
    → a.deducted ≡ none
unfolding turns opening
turns-starved money ts a h = starved money ts opening a refl refl h
