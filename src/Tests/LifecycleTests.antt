-- ===== src/Tests/LifecycleTests.antt =====
-- The destructor and `reset` of cuckoo_filter/lock_free_filter.cpp on a filter with two entries.
use lock_free_cuckoo_filter.Prelude.{◌≡◌, ◌⊎◌, refl, false, none, some, [], ◌∷◌}
use lock_free_cuckoo_filter.Pointer.{get_real_pointer}
use lock_free_cuckoo_filter.LockFree.Memory.{Memory}
use lock_free_cuckoo_filter.LockFree.Lifecycle.{LockFreeCuckooFilter, destroy, reset}
use lock_free_cuckoo_filter.LockFree.Destruction.{table_entries, without, CanDelete, destroy_lem}
use lock_free_cuckoo_filter.Tests.AloneTests.{two_entries, chain_memory}

abbrev chain_filter : LockFreeCuckooFilter
chain_filter = record {
  table_size = 4;
  thread_count = none;
  verbose = false;
  memory = chain_memory;
}

-- The entry at 32 stands in two slots.
abbrev twice_filter : LockFreeCuckooFilter
twice_filter = record chain_filter {
  memory = record chain_memory { hash_table = (32 ∷ 0 ∷ 0 ∷ 0 ∷ []) ∷ (0 ∷ 0 ∷ 0 ∷ 32 ∷ []) ∷ [] };
}

destroy_twice_test : destroy twice_filter ≡ none
unfolding destroy get_real_pointer
destroy_twice_test = refl

reset_test :
    elim (reset 4 1 chain_filter) [ none ↦ [] | some f ↦ f.memory.heap 32 ∷ f.memory.heap 64 ∷ [] ]
    ≡ none ∷ none ∷ []
unfolding reset get_real_pointer
reset_test = refl

destroy_example :
    (CanDelete two_entries (table_entries chain_memory.hash_table)
      × (destroy chain_filter ≡ some (without (table_entries chain_memory.hash_table) two_entries)))
    ⊎ (¬ (CanDelete two_entries (table_entries chain_memory.hash_table))
        × (destroy chain_filter ≡ none))
destroy_example = destroy_lem chain_filter
