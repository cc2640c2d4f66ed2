-- ===== src/Pages/Slices.antt =====
-- Parts of lists, for the slices of database/simple_page_impl/storage.
use build_your_own_stuff.Prelude.{
  ℕ, zero, suc, ◌+◌, ◌-◌, ◌≤◌, ◌≡◌, refl, ap, sym, ◌∙◌, List, [], ◌∷◌, ◌++◌, map, length,
  length-take, length-drop, length-append, set, take, drop, Text, arith,
}

module _ {ℓ} {A : Type ℓ} where
  pub drop_at : {m n : ℕ} (xs : List A) → m ≡ n → drop m xs ≡ drop n xs
  drop_at xs e = ap (λ k. drop k xs) e

  pub drop-append_short :
      (n : ℕ) (xs ys : List A) → length xs ≤ n → drop n (xs ++ ys) ≡ drop (n - length xs) ys
  drop-append_short zero [] ys h = drop_at {m = 0} {n = 0 - 0} ys (omega arith)
  drop-append_short (suc n) [] ys h = drop_at {m = suc n} {n = suc n - 0} ys (omega arith)
  drop-append_short zero (x ∷ xs) ys h = absurd (omega arith)
  drop-append_short (suc n) (x ∷ xs) ys h =
      drop-append_short n xs ys (omega arith)
      ∙ drop_at {m = n - length xs} {n = suc n - suc (length xs)} ys (omega arith)

  pub drop-append_long :
      (n : ℕ) (xs ys : List A) → n ≤ length xs → drop n (xs ++ ys) ≡ drop n xs ++ ys
  drop-append_long zero xs ys h = refl
  drop-append_long (suc n) [] ys h = absurd (omega arith)
  drop-append_long (suc n) (x ∷ xs) ys h = drop-append_long n xs ys (omega arith)

  pub drop-nil : (n : ℕ) → ◌≡◌ {A = List A} (drop n []) []
  drop-nil zero = refl
  drop-nil (suc n) = refl

  pub drop-drop : (n k : ℕ) (xs : List A) → drop n (drop k xs) ≡ drop (k + n) xs
  drop-drop n zero xs = drop_at {m = n} {n = 0 + n} xs (omega arith)
  drop-drop n (suc k) [] = drop-nil n ∙ sym (drop-nil (suc k + n))
  drop-drop n (suc k) (x ∷ xs) =
      drop-drop n k xs ∙ drop_at {m = suc (k + n)} {n = suc k + n} (x ∷ xs) (omega arith)

  pub take-append_all : (xs ys : List A) → take (length xs) (xs ++ ys) ≡ xs
  take-append_all [] ys = refl
  take-append_all (x ∷ xs) ys = ap (λ zs. x ∷ zs) (take-append_all xs ys)

  pub map-set {κ} :
      {B : Type κ} (f : A → B) (xs : List A) (i : ℕ) (v : A)
      → map f (set xs i v) ≡ set (map f xs) i (f v)
  map-set f [] i v = refl
  map-set f (x ∷ xs) zero v = refl
  map-set f (x ∷ xs) (suc i) v = ap (λ ys. f x ∷ ys) (map-set f xs i v)

  pub map-append {κ} :
      {B : Type κ} (f : A → B) (xs ys : List A) → map f (xs ++ ys) ≡ map f xs ++ map f ys
  map-append f [] ys = refl
  map-append f (x ∷ xs) ys = ap (λ zs. f x ∷ zs) (map-append f xs ys)

-- The bytes with so many of them overwritten from a place on
abbrev pub overwrite : ℕ → Text → Text → Text
overwrite start bytes buf = take start buf ++ (bytes ++ drop (start + length bytes) buf)

pub drop-overwrite :
    (start k : ℕ) (bytes buf : Text)
    → start + length bytes ≤ length buf
    → start + length bytes ≤ k
    → drop k (overwrite start bytes buf) ≡ drop k buf
drop-overwrite start k bytes buf room far =
    let size = length-take start buf in
    let rest = drop (start + length bytes) buf in
    let before = k - length (take start buf) in
    drop-append_short k (take start buf) (bytes ++ rest) (omega arith)
    ∙ drop-append_short before bytes rest (omega arith)
    ∙ drop-drop (before - length bytes) (start + length bytes) buf
    ∙ drop_at {m = start + length bytes + (before - length bytes)} {n = k} buf (omega arith)

pub take-drop-overwrite :
    (start : ℕ) (bytes buf : Text)
    → start + length bytes ≤ length buf
    → take (length bytes) (drop start (overwrite start bytes buf)) ≡ bytes
take-drop-overwrite start bytes buf room =
    let size = length-take start buf in
    ap (take (length bytes)) (
      drop-append_short start (take start buf) (bytes ++ drop (start + length bytes) buf)
        (omega arith)
      ∙ drop_at {m = start - length (take start buf)} {n = 0}
          (bytes ++ drop (start + length bytes) buf) (omega arith))
    ∙ take-append_all bytes (drop (start + length bytes) buf)

pub length-overwrite :
    (start : ℕ) (bytes buf : Text)
    → start + length bytes ≤ length buf
    → length (overwrite start bytes buf) ≡ length buf
length-overwrite start bytes buf room =
    let front = length-take start buf in
    let rest = drop (start + length bytes) buf in
    let back = length-drop (start + length bytes) buf in
    length-append (take start buf) (bytes ++ rest)
    ∙ ap (λ n. length (take start buf) + n) (length-append bytes rest)
    ∙ omega arith
