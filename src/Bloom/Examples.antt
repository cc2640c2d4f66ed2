-- ===== src/Bloom/Examples.antt =====
-- Witnesses for the Bloom filter, with a sum of the bytes in place of the hash of hash/fnv.
use build_your_own_stuff.Prelude.{
  ℕ, ◌+◌, ◌*◌, ◌≡◌, refl, true, false, some, List, [], ◌∷◌, Text, codes, arith,
}
use build_your_own_stuff.Bloom.Filter.{BloomFilter, new_bloom_filter, check, add_all}
use build_your_own_stuff.Bloom.Members.{covers_from, check-add_all, added-checked}

abbrev sum_hash : Text → ℕ → ℕ
sum_hash [] seed = seed
sum_hash (b ∷ bs) seed = b * (seed + 1) + sum_hash bs seed

abbrev fruits : List Text
fruits = codes "fig" ∷ codes "lime" ∷ []

covers_test : covers_from sum_hash 64 3 fruits 3 0 (codes "kiwi") ≡ false
covers_test = refl

check-add_all_example :
    (bf : BloomFilter) × (add_all sum_hash fruits (new_bloom_filter 64 3) ≡ some bf)
    × (check sum_hash (codes "kiwi") bf
        ≡ some (covers_from sum_hash 64 3 fruits 3 0 (codes "kiwi")))
check-add_all_example = check-add_all sum_hash 64 3 fruits (codes "kiwi") (omega arith)

added-checked_test :
    (bf : BloomFilter) × (add_all sum_hash (codes "fig" ∷ codes "lime" ∷ []) (new_bloom_filter 64 3)
      ≡ some bf)
    × (check sum_hash (codes "lime") bf ≡ some true)
added-checked_test = added-checked sum_hash 64 3 (codes "fig" ∷ []) [] (codes "lime") (omega arith)
