-- ===== src/Tests/SequentialTests.antt =====
-- Runs of the filter of cuckoo_filter/seq_filter.cpp, with a small digest in place of MD5.
use lock_free_cuckoo_filter.Prelude.{
  ℕ, zero, suc, ◌+◌, ◌/◌, ◌<◌, ◌≡◌, ◌≢◌, ◌⊎◌, refl, true, false, Option, none, some, List, [], ◌∷◌,
  Bool, ltb, replicate, get_or, length, arith,
}
use lock_free_cuckoo_filter.Hash.{Digest}
use lock_free_cuckoo_filter.Table.{Fingerprint, HashTable}
use lock_free_cuckoo_filter.Table.Copies.{counts}
use lock_free_cuckoo_filter.Sequential.{SequentialFilter, new, insert, find, remove}
use lock_free_cuckoo_filter.Sequential.Contract.{
  insert-true, insert-false, remove-true, remove_answer,
}
use lock_free_cuckoo_filter.Sequential.History.{
  Call, inserting, finding, removing, run, call, expect_all, run-expect_all,
}
use lock_free_cuckoo_filter.Sequential.Lookup.{find_lem}
use lock_free_cuckoo_filter.Sequential.Valid.{IsValid, stored, stored_for, one_for, new-IsValid}

-- A digest of 16 bytes that keeps the first byte of the key.
abbrev pub toy : Digest
toy = record { evp_md5 = λ key. get_or key 0 0 ∷ replicate 15 7; length-evp_md5 = λ key. refl }

abbrev pub print_of : ℕ → Fingerprint
print_of c = c ∷ replicate 15 7

abbrev pub zeros : ℕ → ℕ
zeros r = 0

-- A table of four buckets, two of whose slots are taken.
abbrev pair_table : HashTable
pair_table =
    (print_of 1 ∷ [] ∷ [] ∷ [] ∷ [])
    ∷ (replicate 4 [])
    ∷ (replicate 4 [])
    ∷ (print_of 2 ∷ [] ∷ [] ∷ [] ∷ [])
    ∷ []

abbrev some_filter : SequentialFilter
some_filter = record { table_size = 4; verbose = false; hash_table = pair_table; mtx = false }

some_filter-IsValid : IsValid some_filter
some_filter-IsValid = record {
  power = record { exponent = 2; is_power = refl; fits_int = omega arith };
  shaped = record { buckets = refl; slots = widths };
  free = refl;
}
  where
    widths : (b : ℕ) → b < 4 → length (get_or pair_table b []) ≡ 4
    widths zero h = refl
    widths (suc zero) h = refl
    widths (suc (suc zero)) h = refl
    widths (suc (suc (suc zero))) h = refl
    widths (suc (suc (suc (suc b)))) h = absurd (omega arith)

-- One bucket with all four slots taken.
abbrev pub full_table : HashTable
full_table = (print_of 1 ∷ print_of 2 ∷ print_of 3 ∷ print_of 4 ∷ []) ∷ []

abbrev full_filter : SequentialFilter
full_filter = record { table_size = 1; verbose = false; hash_table = full_table; mtx = false }

full_filter-IsValid : IsValid full_filter
full_filter-IsValid = record {
  power = record { exponent = 0; is_power = refl; fits_int = omega arith };
  shaped = record { buckets = refl; slots = widths };
  free = refl;
}
  where
    widths : (b : ℕ) → b < 1 → length (get_or full_table b []) ≡ 4
    widths zero h = refl
    widths (suc b) h = absurd (omega arith)

-- The key with the byte 1 goes into the first empty slot of its first bucket, and is found there.
insert_test :
    run toy
      (inserting zeros (1 ∷ []) ∷ finding (1 ∷ []) ∷ removing (1 ∷ []) ∷ finding (1 ∷ []) ∷ [])
      (new 4 false)
    ≡ some (true ∷ true ∷ true ∷ false ∷ [], new 4 false)
unfolding run call insert find remove new
insert_test = refl

-- The filter after a call that returns.
abbrev after : Option (Bool × SequentialFilter) → SequentialFilter
after none = full_filter
after (some (answer, s)) = s

abbrev pub tens : ℕ → ℕ
tens r = r / 10

abbrev one_more : SequentialFilter
one_more = after (insert toy zeros (1 ∷ []) some_filter)

abbrev one_kicked : SequentialFilter
one_kicked = after (insert toy tens (5 ∷ []) full_filter)

abbrev one_less : SequentialFilter
one_less = after (remove toy (1 ∷ []) full_filter)

-- In a full table an insertion fails, and a fingerprint that was stored is lost: here that of 2.
insert_full_test :
    one_kicked.hash_table ≡ (print_of 5 ∷ print_of 1 ∷ print_of 3 ∷ print_of 4 ∷ []) ∷ []
unfolding insert
insert_full_test = refl

print_nonempty : (c : ℕ) → print_of c ≢ []
print_nonempty c e = cc

new-IsValid_example : IsValid (new 4 true) × (stored (new 4 true) (print_of 1) 2 ≡ 0)
new-IsValid_example =
    new-IsValid 4 true (print_of 1) 2
      (record { exponent = 2; is_power = refl; fits_int = omega arith }) (print_nonempty 1)

insert-true_example :
    stored one_more (print_of 1) 0
    ≡ stored some_filter (print_of 1) 0 + one_for toy some_filter (1 ∷ []) (print_of 1) 0
unfolding insert
insert-true_example =
    insert-true toy zeros (1 ∷ []) some_filter one_more (print_of 1) 0 some_filter-IsValid
      (print_nonempty 1) refl

insert-false_example :
    (victim : Fingerprint) × (place : ℕ) × (victim ≢ [])
    × ((x : ℕ) (g : Fingerprint) (p : ℕ)
        → stored one_kicked (x ∷ g) p + counts 1 (x ∷ g) p place victim
          ≡ stored full_filter (x ∷ g) p + one_for toy full_filter (5 ∷ []) (x ∷ g) p)
unfolding insert
insert-false_example =
    insert-false toy tens (5 ∷ []) full_filter one_kicked full_filter-IsValid refl

find_example :
    find toy (3 ∷ []) full_filter ≡ some (ltb 0 (stored_for toy full_filter (3 ∷ [])), full_filter)
find_example = find_lem toy (3 ∷ []) full_filter full_filter-IsValid

remove-true_example :
    stored one_less (print_of 1) 0 + one_for toy full_filter (1 ∷ []) (print_of 1) 0
    ≡ stored full_filter (print_of 1) 0
unfolding remove
remove-true_example =
    remove-true toy (1 ∷ []) full_filter one_less (print_of 1) 0 full_filter-IsValid
      (print_nonempty 1) refl

remove_answer_example :
    (s' : SequentialFilter) × (remove toy (1 ∷ []) full_filter
      ≡ some (ltb 0 (stored_for toy full_filter (1 ∷ [])), s'))
    × IsValid s'
    × ((stored_for toy full_filter (1 ∷ []) ≢ 0) ⊎ (s' ≡ full_filter))
remove_answer_example = remove_answer toy (1 ∷ []) full_filter full_filter-IsValid

abbrev calls : List Call
calls = inserting zeros (1 ∷ []) ∷ finding (1 ∷ []) ∷ removing (1 ∷ []) ∷ finding (9 ∷ []) ∷ []

abbrev last_state : Option (List Bool × SequentialFilter) → SequentialFilter
last_state none = full_filter
last_state (some (answers, s)) = s

run-expect_all_example :
    true ∷ true ∷ true ∷ false ∷ [] ≡ expect_all 4 toy calls (stored some_filter)
unfolding run call insert find remove
run-expect_all_example =
    run-expect_all toy calls some_filter (stored some_filter) (true ∷ true ∷ true ∷ false ∷ [])
      (last_state (run toy calls some_filter)) some_filter-IsValid (λ g p h. refl) refl
      (refl, refl_unit)
  where
    refl_unit : Unit {0}
    refl_unit = tt
