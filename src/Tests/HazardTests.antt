-- ===== src/Tests/HazardTests.antt =====
-- A run of `free_hazard_pointers` of cuckoo_filter/lock_free_filter.cpp.
use lock_free_cuckoo_filter.Prelude.{
  ℕ, ◌≡◌, refl, Option, none, some, [], ◌∷◌, ◌==◌, if◌then◌else◌, replicate, arith, false,
}
use lock_free_cuckoo_filter.Table.{Fingerprint}
use lock_free_cuckoo_filter.LockFree.Lifecycle.{LockFreeCuckooFilter, free_hazard_pointers}
use lock_free_cuckoo_filter.LockFree.Hazards.{hazards_survive}
use lock_free_cuckoo_filter.Tests.SequentialTests.{print_of}

-- Entries at 32, 64 and 96
abbrev three_entries : ℕ → Option Fingerprint
three_entries p =
    if p == 32
    then some (print_of 1)
    else if p == 64
    then some (print_of 2)
    else if p == 96
    then some (print_of 3)
    else none

-- Thread 0 has retired the three entries, and thread 1 still reads the one at 64.
abbrev retiring_filter : LockFreeCuckooFilter
retiring_filter = record {
  table_size = 1;
  thread_count = some 2;
  verbose = false;
  memory = record {
    hash_table = replicate 4 0 ∷ [];
    hazard_ptrs = (0 ∷ 0 ∷ []) ∷ (0 ∷ 64 ∷ []) ∷ [];
    retired_ptrs = (32 ∷ 64 ∷ 96 ∷ []) ∷ [] ∷ [];
    heap = three_entries;
    fresh = 128;
  };
}

-- The filter after a call that returns
abbrev after : Option LockFreeCuckooFilter → LockFreeCuckooFilter
after none = retiring_filter
after (some f) = f

abbrev freed_filter : LockFreeCuckooFilter
freed_filter = after (free_hazard_pointers 0 retiring_filter)

free_hazard_pointers_test : freed_filter.memory.retired_ptrs ≡ (64 ∷ []) ∷ [] ∷ []
unfolding free_hazard_pointers
free_hazard_pointers_test = refl

hazards_survive_example : freed_filter.memory.heap 64 ≡ some (print_of 2)
unfolding free_hazard_pointers
hazards_survive_example =
    hazards_survive 0 2 1 1 retiring_filter freed_filter refl (omega arith) (omega arith) refl
      (λ e. cc)
