-- ===== src/Tests/HashTests.antt =====
-- Runs of the hash functions and of the bucket arithmetic.
use lock_free_cuckoo_filter.Prelude.{ℕ, ◌-◌, ◌^◌, ◌≡◌, ◌≢◌, refl, [], ◌∷◌, arith}
use lock_free_cuckoo_filter.Hash.{jenkins_hash}
use lock_free_cuckoo_filter.Hash.Mixing.{hash_word_injective}
use lock_free_cuckoo_filter.Index.{next_index}
use lock_free_cuckoo_filter.Index.Partner.{next_index_twice, next_index_astray}

-- The value that the one-at-a-time hash is published with.
jenkins_hash_test : jenkins_hash (b'a' ∷ []) ≡ 0xca2e9442
unfolding jenkins_hash
jenkins_hash_test = refl

hash_word_injective_example : ◌≡◌ {A = ℕ} 12 12
hash_word_injective_example = hash_word_injective 12 12 (omega arith) (omega arith) refl

next_index_twice_example : next_index (2 ^ 4) (next_index (2 ^ 4) 5 1234567) 1234567 ≡ 5
next_index_twice_example = next_index_twice 4 5 1234567 (omega arith)

-- The table size of test/benchmark.cpp lies between 2 ^ 17 and 2 ^ 18.
next_index_astray_example :
    (next_index 256000 (2 ^ 17) 124928 ≡ 0)
    × (next_index 256000 0 124928 ≡ 256000 - 2 ^ 17)
    × (256000 - 2 ^ 17 ≢ 2 ^ 17)
next_index_astray_example = next_index_astray 17 256000 124928 (omega arith) (omega arith) refl
