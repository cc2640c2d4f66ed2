-- ===== src/Echo/Sockets.antt =====
-- What the echo servers of socket_prog do to sockets, and what the kernel tells them in one round.
-- The kernel's answers are arguments of the servers; what goes to std::cout is left out.
use build_your_own_stuff.Prelude.{
  ℕ, zero, suc, length, none, some, ◌≤◌, ◌≡◌, refl, ap, ap₂, Bool, true, false, ◌&&◌, ◌||◌, Option,
  List, [], ◌∷◌, ◌++◌, Bool-cases, inl, inr, arith, take, Text, ◌==◌, ==_iff, if◌then◌else◌,
}

pub data SocketCall : Type 0 where
  send : ℕ → Text → SocketCall
  close : ℕ → SocketCall

-- One round of an event loop: which descriptors have input, what accept gives, and what waits to be received
-- on a descriptor, `none` being a result of 0 or less.
pub record Activity : Type 0 where
  pub ready : ℕ → Bool
  pub accepted : Option ℕ
  pub waiting : ℕ → Option Text

-- recv gives what waits, as far as it fits the buffer.
abbrev pub received : ℕ → Option Text → Option Text
received capacity none = none
received capacity (some bytes) = some (take capacity bytes)

abbrev pub recv_from : Activity → ℕ → ℕ → Option Text
recv_from a fd capacity = received capacity (a.waiting fd)

abbrev pub mem : ℕ → List ℕ → Bool
mem fd [] = false
mem fd (x ∷ xs) = if fd == x then true else mem fd xs

abbrev pub keep : (ℕ → Bool) → List ℕ → List ℕ
keep test [] = []
keep test (x ∷ xs) = let rest = keep test xs in if test x then x ∷ rest else rest

pub keep-cong :
    (p q : ℕ → Bool) (xs : List ℕ) → ((x : ℕ) → mem x xs ≡ true → p x ≡ q x) → keep p xs ≡ keep q xs
keep-cong p q [] h = refl
keep-cong p q (x ∷ xs) h =
    ap₂ (λ b rest. if b then x ∷ rest else rest) (h x (ground arith))
      (keep-cong p q xs (λ y e. h y (ground (arith, e))))

pub keep-keep : (p q : ℕ → Bool) (xs : List ℕ) → keep p (keep q xs) ≡ keep (λ x. p x && q x) xs
keep-keep p q [] = refl
keep-keep p q (x ∷ xs) = elim (Bool-cases (q x)) [
  | inl e ↦ elim (Bool-cases (p x)) [
    | inl d ↦ rw (e, d) (ap (◌∷◌ x) (keep-keep p q xs))
    | inr d ↦ rw (e, d) (keep-keep p q xs)
  ]
  | inr e ↦ elim (Bool-cases (p x)) [
    | inl d ↦ rw (e, d) (keep-keep p q xs)
    | inr d ↦ rw (e, d) (keep-keep p q xs)
  ]
]

pub mem-keep : (p : ℕ → Bool) (x : ℕ) (xs : List ℕ) → mem x (keep p xs) ≡ (p x && mem x xs)
mem-keep p x [] = ground arith
mem-keep p x (y ∷ ys) = elim (Bool-cases (x == y)) [
  | inl e ↦ ground (arith, mem-keep p x ys, ap p ((==_iff x y).0 e))
  | inr e ↦ ground (arith, mem-keep p x ys, e)
]

pub keep-append : (p : ℕ → Bool) (xs ys : List ℕ) → keep p (xs ++ ys) ≡ keep p xs ++ keep p ys
keep-append p [] ys = refl
keep-append p (x ∷ xs) ys = ground (arith, keep-append p xs ys)

pub mem-append : (x : ℕ) (xs ys : List ℕ) → mem x (xs ++ ys) ≡ (mem x xs || mem x ys)
mem-append x [] ys = refl
mem-append x (y ∷ xs) ys = ground (arith, mem-append x xs ys)

pub take_short {ℓ} : {A : Type ℓ} (n : ℕ) (xs : List A) → length xs ≤ n → take n xs ≡ xs
take_short zero [] h = refl
take_short zero (x ∷ xs) h = absurd (omega arith)
take_short (suc n) [] h = refl
take_short (suc n) (x ∷ xs) h = ap (◌∷◌ x) (take_short n xs (omega arith))
