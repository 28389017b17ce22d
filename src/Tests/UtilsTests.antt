-- ===== src/Tests/UtilsTests.antt =====
-- Runs of cuckoo_filter/utils.cpp.
use lock_free_cuckoo_filter.Prelude.{
  ℕ, zero, suc, ◌%◌, ◌<◌, ◌≡◌, ◌≢◌, refl, List, [], ◌∷◌, length, arith,
}
use lock_free_cuckoo_filter.Utils.{generated, aborted, undefined, gen_random_string}
use lock_free_cuckoo_filter.Utils.Alphabet.{
  AreAlphanumeric, gen_random_string-AreAlphanumeric, gen_random_string-undefined,
}

abbrev draws : ℕ → ℕ
draws zero = 1
draws (suc zero) = 63
draws (suc (suc i)) = 128

abc_test : gen_random_string draws 2 ≡ generated (48 ∷ 90 ∷ [])
unfolding gen_random_string
abc_test = refl

empty_test : gen_random_string draws 0 ≡ aborted
unfolding gen_random_string
empty_test = refl

gen_random_string-AreAlphanumeric_example :
    (s : List ℕ) × (gen_random_string draws 2 ≡ generated s) × (length s ≡ 2) × AreAlphanumeric s
gen_random_string-AreAlphanumeric_example =
    gen_random_string-AreAlphanumeric draws 2 (omega arith) two
  where
    two : (j : ℕ) → j < 2 → draws j % 64 ≢ 0
    two zero lt = omega arith
    two (suc zero) lt = omega arith
    two (suc (suc j)) lt = absurd (omega (arith, lt))

gen_random_string-undefined_example : gen_random_string draws 3 ≡ undefined
gen_random_string-undefined_example = gen_random_string-undefined draws 3 2 (omega arith) refl
