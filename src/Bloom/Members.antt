-- ===== src/Bloom/Members.antt =====
-- What Check of bloom-filter/main.go answers after any calls of Add.
use build_your_own_stuff.Prelude.{
  ℕ, zero, suc, ◌+◌, ◌%◌, ◌^◌, ◌≤◌, ◌<◌, ◌≡◌, refl, ap, ◌∙◌, Bool, true, false, ◌&&◌, ◌||◌,
  Bool-cases, inl, inr, Option, none, some, List, [], ◌∷◌, ◌++◌, length, length-set,
  length-replicate, get_or, set, replicate, Text, arith, ◌==◌, if◌then◌else◌,
}
use build_your_own_stuff.Bloom.Filter.{
  BloomFilter, new_bloom_filter, index, set_bit, add_from, add, test_bit, check_from, check,
  add_all,
}

get_or-set :
    (bits : List Bool) (i j : ℕ)
    → i < length bits
    → get_or (set bits i true) j false ≡ (if j == i then true else get_or bits j false)
get_or-set [] i j h = absurd (omega arith)
get_or-set (b ∷ bits) zero zero h = ground arith
get_or-set (b ∷ bits) zero (suc j) h = ground arith
get_or-set (b ∷ bits) (suc i) zero h = ground arith
get_or-set (b ∷ bits) (suc i) (suc j) h = ground (arith, get_or-set bits i j (omega arith))

get_or-replicate : (n j : ℕ) → get_or (replicate n false) j false ≡ false
get_or-replicate zero j = refl
get_or-replicate (suc n) zero = refl
get_or-replicate (suc n) (suc j) = get_or-replicate n j

module _ (hash_with_seed : Text → ℕ → ℕ) where
  -- The position of a seed's bit, where the filter has a size.
  abbrev pub position : ℕ → Text → ℕ → ℕ
  position m item i = hash_with_seed item i % (m % 2 ^ 32)

  -- The description: a bit is set by an item if it is the position of one of its seeds.
  abbrev pub sets_from : ℕ → ℕ → ℕ → Text → ℕ → Bool
  sets_from m zero i item j = false
  sets_from m (suc rounds) i item j =
      let later = sets_from m rounds (suc i) item j in j == position m item i || later

  abbrev pub sets_any : ℕ → ℕ → List Text → ℕ → Bool
  sets_any m k [] j = false
  sets_any m k (item ∷ items) j =
      let later = sets_any m k items j in sets_from m k 0 item j || later

  -- All positions of an item are set by one item or another.
  abbrev pub covers_from : ℕ → ℕ → List Text → ℕ → ℕ → Text → Bool
  covers_from m k items zero i item = true
  covers_from m k items (suc rounds) i item =
      let later = covers_from m k items rounds (suc i) item in
      sets_any m k items (position m item i) && later

  -- A filter of m bits and k hashes, in which the bits of a test are set.
  record Shows (m k : ℕ) (test : ℕ → Bool) (bf : BloomFilter) : Type 0 where
    size : bf.size ≡ m
    hashes : bf.hashes ≡ k
    room : length bf.bits ≡ m
    shown : (j : ℕ) → get_or bf.bits j false ≡ test j

  index-position :
      (m i : ℕ) (item : Text) (bf : BloomFilter)
      → 0 < m % 2 ^ 32
      → bf.size ≡ m
      → index hash_with_seed bf item i ≡ some (position m item i)
  unfolding index
  index-position m i item bf pos e =
      let nonzero : (m % 2 ^ 32 == 0) ≡ false = ground arith in
      ap (λ s. if s % 2 ^ 32 == 0 then none else some (hash_with_seed item i % (s % 2 ^ 32))) e
      ∙ rw nonzero refl

  position-small : (m i : ℕ) (item : Text) → 0 < m % 2 ^ 32 → position m item i < m
  position-small m i item pos = grind arith

  set_then : ℕ → ℕ → Text → Option BloomFilter → Option BloomFilter
  set_then rounds i item o = elim o [
    | none ↦ none
    | some bf ↦ add_from hash_with_seed rounds i item bf
  ]

  Shows-set :
      (m k i : ℕ) (item : Text) (test : ℕ → Bool) (bf : BloomFilter)
      → 0 < m % 2 ^ 32
      → Shows m k test bf
      → Shows m k
          (λ j. test j || j == position m item i)
          (record bf { bits = set bf.bits (position m item i) true })
  Shows-set m k i item test bf pos s = record {
    size = s.size;
    hashes = s.hashes;
    room = length-set bf.bits (position m item i) true ∙ s.room;
    shown = λ j. ground (
      arith,
      get_or-set bf.bits (position m item i) j (omega (arith, position-small m i item pos, s.room)),
      s.shown j,
    );
  }

  Shows-same :
      (m k : ℕ) (test test' : ℕ → Bool) (bf : BloomFilter)
      → ((j : ℕ) → test j ≡ test' j)
      → Shows m k test bf
      → Shows m k test' bf
  Shows-same m k test test' bf same s = record {
    size = s.size;
    hashes = s.hashes;
    room = s.room;
    shown = λ j. s.shown j ∙ same j;
  }

  -- Add sets the positions of its item, and no other.
  add_from-Shows :
      (m k rounds i : ℕ) (item : Text) (test : ℕ → Bool) (bf : BloomFilter)
      → 0 < m % 2 ^ 32
      → Shows m k test bf
      → (bf' : BloomFilter) × (add_from hash_with_seed rounds i item bf ≡ some bf')
        × Shows m k (λ j. test j || sets_from m rounds i item j) bf'
  unfolding add_from set_bit set_then
  add_from-Shows m k zero i item test bf pos s =
      (bf, refl, Shows-same m k test (λ j. test j || false) bf (λ j. ground arith) s)
  add_from-Shows m k (suc rounds) i item test bf pos s =
      let bf' : BloomFilter = record bf { bits = set bf.bits (position m item i) true } in
      let more =
        add_from-Shows m k rounds (suc i) item (λ j. test j || j == position m item i) bf' pos
          (Shows-set m k i item test bf pos s) in
      (
        more.0,
        ap (λ o. set_then rounds (suc i) item (set_bit hash_with_seed bf o))
              (index-position m i item bf pos s.size)
            ∙ more.1,
        Shows-same m k _ _ more.0 (λ j. ground arith) more.2,
      )

  all_then : List Text → Option BloomFilter → Option BloomFilter
  all_then items o = elim o [ none ↦ none | some bf ↦ add_all hash_with_seed items bf ]

  add_all-Shows :
      (m k : ℕ) (items : List Text) (test : ℕ → Bool) (bf : BloomFilter)
      → 0 < m % 2 ^ 32
      → Shows m k test bf
      → (bf' : BloomFilter) × (add_all hash_with_seed items bf ≡ some bf')
        × Shows m k (λ j. test j || sets_any m k items j) bf'
  unfolding add_all add all_then
  add_all-Shows m k [] test bf pos s =
      (bf, refl, Shows-same m k test (λ j. test j || false) bf (λ j. ground arith) s)
  add_all-Shows m k (item ∷ items) test bf pos s =
      let first = add_from-Shows m k k 0 item test bf pos s in
      let more =
        add_all-Shows m k items (λ j. test j || sets_from m k 0 item j) first.0 pos first.2 in
      (
        more.0,
        ap (all_then items) (ap (λ r. add_from hash_with_seed r 0 item bf) s.hashes ∙ first.1)
            ∙ more.1,
        Shows-same m k _ _ more.0 (λ j. ground arith) more.2,
      )

  check_then : ℕ → ℕ → Text → BloomFilter → Option Bool → Option Bool
  check_then rounds i item bf o = elim o [
    | none ↦ none
    | some false ↦ some false
    | some true ↦ check_from hash_with_seed rounds (suc i) item bf
  ]

  check_then-and :
      (rounds i : ℕ) (item : Text) (bf : BloomFilter) (first later : Bool)
      → check_from hash_with_seed rounds (suc i) item bf ≡ some later
      → check_then rounds i item bf (some first) ≡ some (first && later)
  unfolding check_then
  check_then-and rounds i item bf true later e = e
  check_then-and rounds i item bf false later e = refl

  check_from-covers :
      (m k rounds i : ℕ) (item : Text) (items : List Text) (bf : BloomFilter)
      → 0 < m % 2 ^ 32
      → Shows m k (sets_any m k items) bf
      → check_from hash_with_seed rounds i item bf ≡ some (covers_from m k items rounds i item)
  unfolding check_from check_then
  check_from-covers m k zero i item items bf pos s = refl
  check_from-covers m k (suc rounds) i item items bf pos s =
      ap (λ o. check_then rounds i item bf (test_bit hash_with_seed bf o))
        (index-position m i item bf pos s.size)
      ∙ ap (λ b. check_then rounds i item bf (some b)) (s.shown (position m item i))
      ∙ check_then-and rounds i item bf _ _
          (check_from-covers m k rounds (suc i) item items bf pos s)

  new-Shows : (m k : ℕ) → Shows m k (λ j. false) (new_bloom_filter m k)
  unfolding new_bloom_filter
  new-Shows m k = record {
    size = refl;
    hashes = refl;
    room = length-replicate m false;
    shown = get_or-replicate m;
  }

  -- For a size that is not a multiple of 2^32, every Add of a new filter succeeds, whatever the items,
  -- and Check then answers exactly whether each of the hashes' positions of its item is a position of
  -- one of the items added.
  pub check-add_all :
      (m k : ℕ) (items : List Text) (item : Text)
      → 0 < m % 2 ^ 32
      → (bf : BloomFilter) × (add_all hash_with_seed items (new_bloom_filter m k) ≡ some bf)
        × (check hash_with_seed item bf ≡ some (covers_from m k items k 0 item))
  unfolding check
  check-add_all m k items item pos =
      let after = add_all-Shows m k items (λ j. false) (new_bloom_filter m k) pos (new-Shows m k) in
      (
        after.0,
        after.1,
        ap (λ r. check_from hash_with_seed r 0 item after.0) after.2.hashes
            ∙ check_from-covers m k k 0 item items after.0 pos
                (Shows-same m k _ _ after.0 (λ j. refl) after.2),
      )

  sets_from-own :
      (m rounds i j : ℕ) (item : Text)
      → i ≤ j
      → j < i + rounds
      → sets_from m rounds i item (position m item j) ≡ true
  sets_from-own m zero i j item low high = absurd (omega arith)
  sets_from-own m (suc rounds) i j item low high = elim (Bool-cases (j == i)) [
    | inl same ↦
        let here : j ≡ i = ground arith in
        let hit : position m item j == position m item i ≡ true =
          ground (arith, ap (position m item) here) in
        rw hit refl
    | inr other ↦
        let later = sets_from-own m rounds (suc i) j item (ground arith) (omega arith) in
        ground (arith, later)
  ]

  sets_any-own :
      (m k j : ℕ) (front back : List Text) (item : Text)
      → j < k
      → sets_any m k (front ++ item ∷ back) (position m item j) ≡ true
  sets_any-own m k j [] back item small =
      ground (arith, sets_from-own m k 0 j item (omega arith) (omega arith))
  sets_any-own m k j (other ∷ front) back item small =
      ground (arith, sets_any-own m k j front back item small)

  covers_from-own :
      (m k rounds i : ℕ) (front back : List Text) (item : Text)
      → i + rounds ≤ k
      → covers_from m k (front ++ item ∷ back) rounds i item ≡ true
  covers_from-own m k zero i front back item room = refl
  covers_from-own m k (suc rounds) i front back item room = ground (
    arith,
    sets_any-own m k i front back item (omega arith),
    covers_from-own m k rounds (suc i) front back item (omega arith),
  )

  -- A filter gives no false negatives: for a size that is not a multiple of 2^32, Add of items to a new
  -- filter succeeds, and Check is true afterwards of each item that is among them, whatever was added before
  -- and behind it.
  pub added-checked :
      (m k : ℕ) (front back : List Text) (item : Text)
      → 0 < m % 2 ^ 32
      → (bf : BloomFilter) × (add_all hash_with_seed (front ++ item ∷ back) (new_bloom_filter m k)
          ≡ some bf)
        × (check hash_with_seed item bf ≡ some true)
  added-checked m k front back item pos =
      let all = check-add_all m k (front ++ item ∷ back) item pos in
      (all.0, all.1, all.2 ∙ ap some (covers_from-own m k k 0 front back item (omega arith)))
