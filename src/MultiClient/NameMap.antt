-- ===== src/MultiClient/NameMap.antt =====
-- std::map with string keys, in the order of its keys: `client_mapp` and `event_map` of
-- cpp/socket_programming/multi_client_server/server.cpp.
use build_your_own_stuff.Prelude.{
  ℕ, ◌≡◌, refl, Bool, true, false, Option, none, some, List, [], ◌∷◌, arith, Text, text_eq,
  text_eq_iff, ltb, ◌==◌, if◌then◌else◌,
}

abbrev pub NameMap {ℓ} : Type ℓ → Type ℓ
NameMap V = List (Text × V)

-- operator< on strings, byte by byte
unfoldable pub text_ltb : Text → Text → Bool
text_ltb [] [] = false
text_ltb [] (y ∷ ys) = true
text_ltb (x ∷ xs) [] = false
text_ltb (x ∷ xs) (y ∷ ys) = let rest = text_ltb xs ys in if x == y then rest else ltb x y

module _ {ℓ} {V : Type ℓ} where
  -- find, and the value at it
  unfoldable pub lookup : Text → NameMap V → Option V
  lookup k [] = none
  lookup k ((j, v) ∷ m) = if text_eq j k then some v else lookup k m

  -- m[k] = v
  unfoldable pub assign : Text → V → NameMap V → NameMap V
  assign k v [] = (k, v) ∷ []
  assign k v ((j, w) ∷ m) =
      let rest = assign k v m in
      if text_eq j k
      then (j, v) ∷ m
      else if text_ltb k j
      then (k, v) ∷ (j, w) ∷ m
      else (j, w) ∷ rest

-- The loop of handleLogoutClient that erases each element with this value.
unfoldable pub erase_value : ℕ → NameMap ℕ → NameMap ℕ
erase_value fd [] = []
erase_value fd ((j, v) ∷ m) = let rest = erase_value fd m in if v == fd then rest else (j, v) ∷ rest

-- The keys rise.
abbrev pub Above {ℓ} : {V : Type ℓ} → Text → NameMap V → Type 0
Above k [] = Unit {0}
Above k ((j, v) ∷ m) = text_ltb k j ≡ true

abbrev pub IsAscending {ℓ} : {V : Type ℓ} → NameMap V → Type 0
IsAscending [] = Unit {0}
IsAscending ((k, v) ∷ m) = Above k m × IsAscending m

pub text_ltb_irrefl : (s : Text) → text_ltb s s ≡ false
unfolding text_ltb
text_ltb_irrefl [] = refl
text_ltb_irrefl (x ∷ xs) = ground (arith, text_ltb_irrefl xs)

pub text_ltb_trans :
    (s t u : Text) → text_ltb s t ≡ true → text_ltb t u ≡ true → text_ltb s u ≡ true
unfolding text_ltb
text_ltb_trans [] [] u p q = cc
text_ltb_trans [] (y ∷ t) [] p q = cc
text_ltb_trans [] (y ∷ t) (z ∷ u) p q = refl
text_ltb_trans (x ∷ s) [] u p q = cc
text_ltb_trans (x ∷ s) (y ∷ t) [] p q = cc
text_ltb_trans (x ∷ s) (y ∷ t) (z ∷ u) p q = ground (arith, text_ltb_trans s t u)

pub text_ltb_total : (s t : Text) → text_eq s t ≡ false → text_ltb s t ≡ false → text_ltb t s ≡ true
unfolding text_ltb text_eq
text_ltb_total [] [] p q = cc
text_ltb_total [] (y ∷ t) p q = cc
text_ltb_total (x ∷ s) [] p q = refl
text_ltb_total (x ∷ s) (y ∷ t) p q = ground (arith, text_ltb_total s t)

-- A key below all of a map is not in it.
lookup-Above {ℓ} :
    {V : Type ℓ} (k : Text) (m : NameMap V) → IsAscending m → Above k m → lookup k m ≡ none
unfolding lookup
lookup-Above k [] a h = refl
lookup-Above k ((j, v) ∷ []) a h = ground (arith, text_eq_iff j k, text_ltb_irrefl k)
lookup-Above k ((j, v) ∷ (i, w) ∷ m) a h = ground (
  arith,
  lookup-Above k ((i, w) ∷ m) a.1 (text_ltb_trans k j i h a.0),
  text_eq_iff j k,
  text_ltb_irrefl k,
)

pub lookup-assign {ℓ} :
    {V : Type ℓ} (k j : Text) (v : V) (m : NameMap V)
    → lookup j (assign k v m) ≡ (if text_eq k j then some v else lookup j m)
unfolding lookup assign
lookup-assign k j v [] = refl
lookup-assign k j v ((i, w) ∷ m) =
    ground (arith, lookup-assign k j v m, text_eq_iff k j, text_eq_iff i k, text_eq_iff i j)

assign-Above {ℓ} :
    {V : Type ℓ} (j k : Text) (v : V) (m : NameMap V)
    → text_ltb j k ≡ true
    → Above j m
    → Above j (assign k v m)
unfolding assign
assign-Above j k v [] h a = h
assign-Above j k v ((i, w) ∷ m) h a = ground arith

pub assign-IsAscending {ℓ} :
    {V : Type ℓ} (k : Text) (v : V) (m : NameMap V) → IsAscending m → IsAscending (assign k v m)
unfolding assign
assign-IsAscending k v [] a = (tt, tt)
assign-IsAscending k v ((j, w) ∷ m) a = ground (
  arith,
  assign-IsAscending k v m a.1,
  assign-Above j k v m,
  text_ltb_total k j,
  text_eq_iff k j,
  text_eq_iff j k,
)

erase_value-Above :
    (j : Text) (fd : ℕ) (m : NameMap ℕ) → IsAscending m → Above j m → Above j (erase_value fd m)
unfolding erase_value
erase_value-Above j fd [] a h = tt
erase_value-Above j fd ((i, w) ∷ []) a h = ground arith
erase_value-Above j fd ((i, w) ∷ (l, u) ∷ m) a h =
    ground (arith, erase_value-Above j fd ((l, u) ∷ m) a.1 (text_ltb_trans j i l h a.0))

pub erase_value-IsAscending :
    (fd : ℕ) (m : NameMap ℕ) → IsAscending m → IsAscending (erase_value fd m)
unfolding erase_value
erase_value-IsAscending fd [] a = tt
erase_value-IsAscending fd ((j, w) ∷ m) a =
    ground (arith, erase_value-IsAscending fd m a.1, erase_value-Above j fd m a.1 a.0)

-- What a look-up finds after the loop of a logout.
pub lookup-erase_value :
    (fd : ℕ) (k : Text) (m : NameMap ℕ)
    → IsAscending m
    → lookup k (erase_value fd m)
      ≡ (elim (lookup k m) [ none ↦ none | some v ↦ if v == fd then none else some v ])
unfolding lookup erase_value
lookup-erase_value fd k [] a = refl
lookup-erase_value fd k ((j, w) ∷ m) a =
    ground (arith, lookup-erase_value fd k m a.1, lookup-Above j m a.1 a.0, text_eq_iff j k)
