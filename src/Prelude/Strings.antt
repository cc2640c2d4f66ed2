-- ===== src/Prelude/Strings.antt =====
-- Text as the list of its bytes: `std::string` where the code searches and cuts it.
use Prim.Native.Char.{code}
use Prim.Native.String.{String}
use Prim.Native.Nat.{ℕ, zero, suc}
use mathlib.Core.Path.{◌≡◌, refl, ap}
use mathlib.Core.Logic.{◌↔◌}
use mathlib.Core.Bool.{Bool, true, false, ◌&&◌}
use mathlib.Core.Option.{Option, none, some}
use mathlib.Core.List.{List, [], ◌∷◌, ◌++◌}
use native.Mathlib.Omega.{arith}
use native.Mathlib.Decide.{ℕ_discrete}
use build_your_own_stuff.Prelude.Tests.{◌==◌, if◌then◌else◌}
use build_your_own_stuff.Prelude.Lists.{length, take, drop}

abbrev pub Text : Type 0
Text = List ℕ

pub text-discrete : Discrete Text
text-discrete = hlevel ℕ_discrete

-- The bytes of a literal.
abbrev pub codes : String → Text
codes String.[] = []
codes (String.◌∷◌ c s) = code c ∷ codes s

-- operator== on strings
unfoldable pub text_eq : Text → Text → Bool
text_eq [] [] = true
text_eq [] (y ∷ ys) = false
text_eq (x ∷ xs) [] = false
text_eq (x ∷ xs) (y ∷ ys) = x == y && text_eq xs ys

text_eq→eq : (s t : Text) → text_eq s t ≡ true → s ≡ t
unfolding text_eq
text_eq→eq [] [] h = refl
text_eq→eq [] (y ∷ ys) h = cc
text_eq→eq (x ∷ xs) [] h = cc
text_eq→eq (x ∷ xs) (y ∷ ys) h = ground (arith, text_eq→eq xs ys)

pub text_eq_refl : (s : Text) → text_eq s s ≡ true
unfolding text_eq
text_eq_refl [] = refl
text_eq_refl (x ∷ xs) = ground (arith, text_eq_refl xs)

pub text_eq_iff : (s t : Text) → (text_eq s t ≡ true) ↔ (s ≡ t)
text_eq_iff s t = (text_eq→eq s t, λ e. rw e (text_eq_refl t))

pub text_eq_sym : (s t : Text) → text_eq s t ≡ text_eq t s
text_eq_sym s t = ground (arith, text_eq_iff s t, text_eq_iff t s)

-- s.find(c): the first position of the byte, `none` for npos
unfoldable pub find : ℕ → Text → Option ℕ
find c [] = none
find c (x ∷ xs) =
    if x == c then some 0 else (elim (find c xs) [ none ↦ none | some i ↦ some (suc i) ])

-- The byte does not occur.
abbrev pub Lacks : ℕ → Text → Type 0
Lacks c [] = Unit {0}
Lacks c (x ∷ xs) = ((x == c) ≡ false) × Lacks c xs

pub Lacks-append : (c : ℕ) (s t : Text) → Lacks c s → Lacks c t → Lacks c (s ++ t)
Lacks-append c [] t p q = q
Lacks-append c (x ∷ xs) t p q = (p.0, Lacks-append c xs t p.1 q)

pub find-Lacks : (c : ℕ) (s : Text) → Lacks c s → find c s ≡ none
unfolding find
find-Lacks c [] p = refl
find-Lacks c (x ∷ xs) p = rw (p.0, find-Lacks c xs p.1) refl

pub find-none : (c : ℕ) (s : Text) → find c s ≡ none → Lacks c s
unfolding find
find-none c [] h = tt
find-none c (x ∷ xs) h = ground (arith, find-none c xs)

-- The byte after a prefix without it is the one that is found.
pub find-append_char : (c : ℕ) (s t : Text) → Lacks c s → find c (s ++ c ∷ t) ≡ some (length s)
unfolding find
find-append_char c [] t p = ground arith
find-append_char c (x ∷ xs) t p = rw (p.0, find-append_char c xs t p.1) refl

-- What stands before the found byte lacks it.
pub find-ge-Lacks : (c : ℕ) (s : Text) (i : ℕ) → find c s ≡ some i → Lacks c (take i s)
unfolding find
find-ge-Lacks c [] i h = cc
find-ge-Lacks c (x ∷ xs) zero h = tt
find-ge-Lacks c (x ∷ xs) (suc i) h = ground (arith, find-ge-Lacks c xs i)

pub take-length-append {ℓ} : {A : Type ℓ} (s t : List A) → take (length s) (s ++ t) ≡ s
take-length-append [] t = refl
take-length-append (x ∷ xs) t = ap (◌∷◌ x) (take-length-append xs t)

pub drop-length-append {ℓ} : {A : Type ℓ} (s t : List A) → drop (length s) (s ++ t) ≡ t
drop-length-append [] t = refl
drop-length-append (x ∷ xs) t = drop-length-append xs t
