-- ===== src/People/Restored.antt =====
-- People that are written to a file one behind the other, and read from its start.
use build_your_own_stuff.Prelude.{
  ℕ, zero, suc, ◌+◌, ◌^◌, ◌≤◌, ◌<◌, ◌≡◌, refl, ap, ap₂, sym, ◌∙◌, false, List, [], ◌∷◌, ◌++◌,
  append_assoc, append-nil, arith, length, length-append, take, drop, take-length-append,
  drop-length-append, Text, ltb,
}
use build_your_own_stuff.People.Person.{
  Stream, write, read, seekg, Person, write_to_file, read_from_file,
}

drop-past {ℓ} : {A : Type ℓ} (n : ℕ) (xs : List A) → length xs ≤ n → drop n xs ≡ []
drop-past zero [] h = refl
drop-past zero (x ∷ xs) h = absurd (omega arith)
drop-past (suc n) [] h = refl
drop-past (suc n) (x ∷ xs) h = drop-past n xs (omega arith)

-- A stream that has not failed, with its position behind a text and more behind that.
abbrev pub between : Text → Text → Stream
between front back = record { contents = front ++ back; position = length front; failed = false }

write-between : (bytes front : Text) → write bytes (between front []) ≡ between (front ++ bytes) []
unfolding write
write-between bytes front =
    ap₂ (λ c n. record { contents = c; position = n; failed = false })
      (ap (λ c. take (length front) c ++ (bytes ++ drop (length front + length bytes) c))
          (append-nil front)
        ∙ ap₂ (λ s t. s ++ (bytes ++ t))
            (ap (take (length front)) (sym (append-nil front)) ∙ take-length-append front [])
            (drop-past (length front + length bytes) front (omega arith))
        ∙ sym (append_assoc front bytes []))
      (sym (length-append front bytes))

read-between :
    (n : ℕ) (old bytes front back : Text)
    → length bytes ≡ n
    → length old ≤ n
    → read n old (between front (bytes ++ back)) ≡ (bytes, between (front ++ bytes) back)
unfolding read
read-between n old bytes front back full room =
    let got : take n (drop (length front) (front ++ (bytes ++ back))) ≡ bytes =
      ap₂ take (sym full) (drop-length-append front (bytes ++ back))
      ∙ take-length-append bytes back in
    let all : ltb (length bytes) n ≡ false = ground arith in
    ap
      (λ t. (
        t ++ drop (length t) old,
        record {
          contents = front ++ (bytes ++ back);
          position = length front + length t;
          failed = ltb (length t) n;
        },
      ))
      got
    ∙ ap₂
        (λ t b. (
          t,
          record {
            contents = front ++ (bytes ++ back);
            position = length front + length bytes;
            failed = b;
          },
        ))
        (ap (λ t. bytes ++ t) (drop-past (length bytes) old (omega arith)) ∙ append-nil bytes) all
    ∙ ap₂ (λ c m. (bytes, record { contents = c; position = m; failed = false }))
        (sym (append_assoc front bytes back)) (sym (length-append front bytes))

module _ (bytes_of : ℕ → Text) (int_of : Text → ℕ) where
  -- People one behind the other.
  unfoldable pub write_people : List Person → Stream → Stream
  write_people [] f = f
  write_people (p ∷ ps) f = write_people ps (write_to_file bytes_of int_of p f)

  -- Into as many objects, with what these held before.
  unfoldable pub read_people : List Person → Stream → List Person × Stream
  read_people [] f = ([], f)
  read_people (p ∷ ps) f =
      let (q, g) = read_from_file bytes_of int_of p f in
      let (qs, h) = read_people ps g in (q ∷ qs, h)

  -- As many objects as people, all names in arrays of 80 bytes, and the ages of the people ints.
  abbrev pub Fitting : List Person → List Person → Type 0
  Fitting [] [] = Unit {0}
  Fitting (p ∷ ps) (q ∷ qs) =
      (length p.name ≡ 80) × (p.age < 2 ^ 31) × (length q.name ≡ 80) × Fitting ps qs
  Fitting _ _ = ⊥

  abbrev pub bytes_of_person : Person → Text
  bytes_of_person p = p.name ++ bytes_of p.age

  abbrev pub bytes_of_people : List Person → Text
  bytes_of_people [] = []
  bytes_of_people (p ∷ ps) = bytes_of_person p ++ bytes_of_people ps

  write_people-between :
      (ps : List Person) (front : Text)
      → write_people ps (between front []) ≡ between (front ++ bytes_of_people ps) []
  unfolding write_people write_to_file
  write_people-between [] front = ap (λ t. between t []) (sym (append-nil front))
  write_people-between (p ∷ ps) front =
      ap (λ f. write_people ps (write (bytes_of p.age) f)) (write-between p.name front)
      ∙ ap (write_people ps) (write-between (bytes_of p.age) (front ++ p.name))
      ∙ write_people-between ps ((front ++ p.name) ++ bytes_of p.age)
      ∙ ap (λ t. between t [])
          (append_assoc (front ++ p.name) (bytes_of p.age) (bytes_of_people ps)
            ∙ append_assoc front p.name (bytes_of p.age ++ bytes_of_people ps)
            ∙ ap (λ t. front ++ t)
                (sym (append_assoc p.name (bytes_of p.age) (bytes_of_people ps))))

  module _ (four : (n : ℕ) → length (bytes_of n) ≡ 4)
      (same : (n : ℕ) → n < 2 ^ 31 → int_of (bytes_of n) ≡ n) where
    read_from_file-between :
        (p q : Person) (front back : Text)
        → length p.name ≡ 80
        → p.age < 2 ^ 31
        → length q.name ≡ 80
        → read_from_file bytes_of int_of q (between front (bytes_of_person p ++ back))
          ≡ (p, between (front ++ bytes_of_person p) back)
    unfolding read_from_file
    read_from_file-between p q front back full young room =
        ap (λ t. read_from_file bytes_of int_of q (between front t))
          (append_assoc p.name (bytes_of p.age) back)
        ∙ ap
            (λ r. (
              record { name = r.0; age = int_of (read 4 (bytes_of q.age) r.1).0 },
              (read 4 (bytes_of q.age) r.1).1,
            ))
            (read-between 80 q.name p.name front (bytes_of p.age ++ back) full (omega arith))
        ∙ ap (λ r. (record { name = p.name; age = int_of r.0 }, r.1))
            (read-between 4 (bytes_of q.age) (bytes_of p.age) (front ++ p.name) back (four p.age)
              (omega (arith, four q.age)))
        ∙ ap₂ (λ n t. (record { name = p.name; age = n }, between t back)) (same p.age young)
            (append_assoc front p.name (bytes_of p.age))

    read_people-between :
        (ps qs : List Person) (front back : Text)
        → Fitting ps qs
        → read_people qs (between front (bytes_of_people ps ++ back))
          ≡ (ps, between (front ++ bytes_of_people ps) back)
    unfolding read_people
    read_people-between [] [] front back fit =
        ap (λ t. ([], between t back)) (sym (append-nil front))
    read_people-between [] (q ∷ qs) front back fit = absurd fit
    read_people-between (p ∷ ps) [] front back fit = absurd fit
    read_people-between (p ∷ ps) (q ∷ qs) front back fit =
        ap (λ t. read_people (q ∷ qs) (between front t))
          (append_assoc (bytes_of_person p) (bytes_of_people ps) back)
        ∙ ap (λ r. (r.0 ∷ (read_people qs r.1).0, (read_people qs r.1).1))
            (read_from_file-between p q front (bytes_of_people ps ++ back) fit.0 fit.1 fit.2)
        ∙ ap (λ r. (p ∷ r.0, r.1))
            (read_people-between ps qs (front ++ bytes_of_person p) back fit.3)
        ∙ ap (λ t. (p ∷ ps, between t back))
            (append_assoc front (bytes_of_person p) (bytes_of_people ps))

    -- What is written to an empty file, for people one behind the other, is read from its start into
    -- as many other objects as the same people, to the end of the file and without a failure; the
    -- bytes of an int are four, and give it back where it is not negative, the ages are not, and the
    -- names' arrays have 80 bytes.
    pub people-restored :
        (ps qs : List Person)
        → Fitting ps qs
        → read_people qs (seekg 0 (write_people ps (between [] [])))
          ≡ (ps, between (bytes_of_people ps) [])
    unfolding seekg
    people-restored ps qs fit =
        ap (λ f. read_people qs (seekg 0 f)) (write_people-between ps [])
        ∙ read_people-between ps qs [] [] fit
