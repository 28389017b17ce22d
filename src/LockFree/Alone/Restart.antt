-- ===== src/LockFree/Alone/Restart.antt =====
-- `reset` of cuckoo_filter/lock_free_filter.cpp, and the calls after it.
use lock_free_cuckoo_filter.Prelude.{ℕ}
use lock_free_cuckoo_filter.LockFree.Memory.{Memory, new_memory}
use lock_free_cuckoo_filter.LockFree.Safety.Words.{Heap}

-- The memory of the filter that `reset` makes
abbrev reset_memory : ℕ → ℕ → Heap → ℕ → Memory
unfolding new_memory
reset_memory capacity threads heap fresh = record (new_memory capacity threads) {
  heap = heap;
  fresh = fresh;
}
