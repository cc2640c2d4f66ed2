-- ===== src/Bloom/Filter.antt =====
-- bloom-filter/main.go. The sizes that NewBloomFilter computes in floating point are arguments, and so
-- is hashWithSeed, which hash/fnv computes.
use build_your_own_stuff.Prelude.{
  ℕ, zero, suc, ◌%◌, ◌^◌, Bool, true, false, Option, none, some, List, [], ◌∷◌, get_or, set,
  replicate, Text, ◌==◌, if◌then◌else◌,
}

pub record BloomFilter : Type 0 where
  pub size : ℕ
  pub bits : List Bool
  pub hashes : ℕ

-- NewBloomFilter, with what OptimalBitArraySize and OptimalHashCount give
unfoldable pub new_bloom_filter : ℕ → ℕ → BloomFilter
new_bloom_filter m k = record { size = m; bits = replicate m false; hashes = k }

module _ (hash_with_seed : Text → ℕ → ℕ) where
  -- hashWithSeed(item, i) % uint32(bf.size): `none` is the panic of a division by zero.
  unfoldable pub index : BloomFilter → Text → ℕ → Option ℕ
  index bf item i =
      if bf.size % 2 ^ 32 == 0 then none else some (hash_with_seed item i % (bf.size % 2 ^ 32))

  unfoldable pub set_bit : BloomFilter → Option ℕ → Option BloomFilter
  set_bit bf none = none
  set_bit bf (some ix) = some (record bf { bits = set bf.bits ix true })

  -- The loop of Add, with so many rounds behind it and to go.
  unfoldable pub add_from : ℕ → ℕ → Text → BloomFilter → Option BloomFilter
  unfolding index set_bit
  add_from zero i item bf = some bf
  add_from (suc rounds) i item bf = elim (set_bit bf (index bf item i)) [
    | none ↦ none
    | some bf' ↦ add_from rounds (suc i) item bf'
  ]

  unfoldable pub add : Text → BloomFilter → Option BloomFilter
  unfolding add_from
  add item bf = add_from bf.hashes 0 item bf

  abbrev pub test_bit : BloomFilter → Option ℕ → Option Bool
  test_bit bf none = none
  test_bit bf (some ix) = some (get_or bf.bits ix false)

  -- The loop of Check, which returns at the first bit that is not set.
  unfoldable pub check_from : ℕ → ℕ → Text → BloomFilter → Option Bool
  unfolding index
  check_from zero i item bf = some true
  check_from (suc rounds) i item bf = elim (test_bit bf (index bf item i)) [
    | none ↦ none
    | some false ↦ some false
    | some true ↦ check_from rounds (suc i) item bf
  ]

  unfoldable pub check : Text → BloomFilter → Option Bool
  unfolding check_from
  check item bf = check_from bf.hashes 0 item bf

  -- Adding one item after another.
  unfoldable pub add_all : List Text → BloomFilter → Option BloomFilter
  unfolding add
  add_all [] bf = some bf
  add_all (item ∷ items) bf = elim (add item bf) [ none ↦ none | some bf' ↦ add_all items bf' ]
