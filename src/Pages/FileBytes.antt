-- ===== src/Pages/FileBytes.antt =====
-- Bytes of a file under the calls of database/simple_page_impl/storage/page_,manager.go.
use build_your_own_stuff.Prelude.{
  ℕ, zero, suc, ◌+◌, ◌-◌, ◌≤◌, ◌≡◌, ◌⊎◌, inl, inr, refl, ap, ap₂, ◌∙◌, true, some, List, [], ◌∷◌,
  ◌++◌, length, length-append, length-take, length-drop, length-replicate, take, drop, Text, arith,
  leb,
}
use build_your_own_stuff.Pages.Slices.{drop_at, drop-append_short, drop-drop}
use build_your_own_stuff.Pages.Bytes.{drop-front, take-front, nothing}
use build_your_own_stuff.Pages.Manager.{read_at, write_at}

module _ {ℓ} {A : Type ℓ} where
  take-drop-append :
      (n k : ℕ) (xs ys : List A)
      → k + n ≤ length xs
      → take n (drop k (xs ++ ys)) ≡ take n (drop k xs)
  take-drop-append zero k xs ys h = refl
  take-drop-append (suc n) k [] ys h = absurd (omega arith)
  take-drop-append (suc n) zero (x ∷ xs) ys h =
      ap (λ zs. x ∷ zs) (take-drop-append n zero xs ys (omega arith))
  take-drop-append (suc n) (suc k) (x ∷ xs) ys h = take-drop-append (suc n) k xs ys (omega arith)

  take-drop-take :
      (n k m : ℕ) (xs : List A) → k + n ≤ m → take n (drop k (take m xs)) ≡ take n (drop k xs)
  take-drop-take zero k m xs h = refl
  take-drop-take (suc n) k zero xs h = absurd (omega arith)
  take-drop-take (suc n) zero (suc m) [] h = refl
  take-drop-take (suc n) (suc k) (suc m) [] h = refl
  take-drop-take (suc n) zero (suc m) (x ∷ xs) h =
      ap (λ zs. x ∷ zs) (take-drop-take n zero m xs (omega arith))
  take-drop-take (suc n) (suc k) (suc m) (x ∷ xs) h = take-drop-take (suc n) k m xs (omega arith)

module _ (offset : ℕ) (bytes file : Text) where
  abbrev before : Text
  before = take offset (file ++ nothing (offset - length file))

  length-before : length before ≡ offset
  length-before =
      length-take offset (file ++ nothing (offset - length file))
      ∙ omega (
        arith,
        length-append file (nothing (offset - length file)),
        length-replicate {A = ℕ} (offset - length file) 0,
      )

  pub length-write_at :
      length (write_at offset bytes file)
      ≡ offset + length bytes + (length file - (offset + length bytes))
  unfolding write_at
  length-write_at =
      let rest = drop (offset + length bytes) file in
      length-append before (bytes ++ rest)
      ∙ ap₂ (λ m n. m + n) length-before (length-append bytes rest)
      ∙ omega (arith, length-drop (offset + length bytes) file)

  taken-written : take (length bytes) (drop offset (write_at offset bytes file)) ≡ bytes
  unfolding write_at
  taken-written =
      let rest = drop (offset + length bytes) file in
      ap (take (length bytes)) (drop-front offset before (bytes ++ rest) length-before)
      ∙ take-front (length bytes) bytes rest refl

  pub read_at-written : read_at (length bytes) offset (write_at offset bytes file) ≡ some bytes
  unfolding read_at
  read_at-written =
      let room : leb (offset + length bytes) (length (write_at offset bytes file)) ≡ true =
        ground (arith, length-write_at) in
      rw room (ap some taken-written)

  -- Bytes in front of what is written, or behind it
  kept_front :
      (n k : ℕ)
      → k + n ≤ offset
      → k + n ≤ length file
      → take n (drop k (write_at offset bytes file)) ≡ take n (drop k file)
  unfolding write_at
  kept_front n k low inside =
      take-drop-append n k before (bytes ++ drop (offset + length bytes) file)
        (omega (arith, length-before))
      ∙ take-drop-take n k offset (file ++ nothing (offset - length file)) low
      ∙ take-drop-append n k file (nothing (offset - length file)) inside

  kept_behind :
      (k : ℕ) → offset + length bytes ≤ k → drop k (write_at offset bytes file) ≡ drop k file
  unfolding write_at
  kept_behind k far =
      let rest = drop (offset + length bytes) file in
      let ahead = k - length before in
      drop-append_short k before (bytes ++ rest) (omega (arith, length-before))
      ∙ drop-append_short ahead bytes rest (omega (arith, length-before))
      ∙ drop-drop (ahead - length bytes) (offset + length bytes) file
      ∙ drop_at {m = offset + length bytes + (ahead - length bytes)} {n = k} file
          (omega (arith, length-before))

  pub read_at-kept :
      (n k : ℕ)
      → k + n ≤ offset ⊎ offset + length bytes ≤ k
      → k + n ≤ length file
      → read_at n k (write_at offset bytes file) ≡ read_at n k file
  unfolding read_at
  read_at-kept n k apart inside =
      let room : leb (k + n) (length (write_at offset bytes file)) ≡ true =
        ground (arith, length-write_at) in
      let room' : leb (k + n) (length file) ≡ true = ground arith in
      rw (room, room')
        (ap some (elim apart [
          | inl low ↦ kept_front n k low inside
          | inr far ↦ ap (take n) (kept_behind k far)
        ]))
