-- ===== src/LockFree/Memory.antt =====
-- The shared memory of the lock-free filter, one atomic access to it, and programs that run alone.
use lock_free_cuckoo_filter.Prelude.{
  ℕ, ◌+◌, true, false, Option, none, some, List, [], ◌∷◌, ◌++◌, get_or, set, replicate, ltb, ◌^◌,
  ◌==◌, if◌then◌else◌,
}
use lock_free_cuckoo_filter.Common.{num_items_per_entry}
use lock_free_cuckoo_filter.Pointer.{TablePointer}
use lock_free_cuckoo_filter.Table.{Fingerprint}
use lock_free_cuckoo_filter.LockFree.Program.{
  Address, Program, done, aborted, out_of_fuel, reading, comparing, marking, dereferencing,
  allocating, retiring,
}

-- `MAX_HAZARD_POINTER_COUNT`
abbrev pub max_hazard_pointer_count : ℕ
max_hazard_pointer_count = 2

-- The members that the threads share, and the heap of entries: `heap p` is the `str` of the entry at
-- `p`. Entries are allocated upwards from `fresh`, 32 bytes each, while addresses of 48 bits last;
-- after that `new` throws, which ends the thread.
pub record Memory : Type 0 where
  pub hash_table : List (List TablePointer)
  pub hazard_ptrs : List (List Address)
  pub retired_ptrs : List (List Address)
  pub heap : Address → Option Fingerprint
  pub fresh : Address

-- The constructors, after the test of the capacity. Their memory is zeroed.
unfoldable pub new_memory : ℕ → ℕ → Memory
new_memory table_size thread_count = record {
  hash_table = replicate table_size (replicate num_items_per_entry 0);
  hazard_ptrs = replicate thread_count (replicate max_hazard_pointer_count 0);
  retired_ptrs = replicate thread_count [];
  heap = λ p. none;
  fresh = 32;
}

unfoldable pub word_at : Memory → ℕ → ℕ → TablePointer
word_at m b i = get_or (get_or m.hash_table b []) i 0

unfoldable pub store_word : Memory → ℕ → ℕ → TablePointer → Memory
store_word m b i w = record m {
  hash_table = set m.hash_table b (set (get_or m.hash_table b []) i w);
}

unfoldable pub store_hazard : Memory → Address → ℕ → ℕ → Memory
store_hazard m p index tid = record m {
  hazard_ptrs = set m.hazard_ptrs tid (set (get_or m.hazard_ptrs tid []) index p);
}

unfoldable pub push_retired : Memory → Address → ℕ → Memory
push_retired m p tid = record m {
  retired_ptrs = set m.retired_ptrs tid (get_or m.retired_ptrs tid [] ++ p ∷ []);
}

unfoldable pub allocate : Memory → Fingerprint → Memory
allocate m s = record m {
  heap = λ p. if p == m.fresh then some s else m.heap p;
  fresh = m.fresh + 32;
}

-- One atomic access of a thread.
pub data Progress (A : Type 0) : Type 0 where
  stopped : Progress A  -- the program has ended, by a result or otherwise
  faulted : Progress A  -- a null or dangling pointer was dereferenced
  moved : Memory → Program A → Progress A

unfoldable pub advance : {A : Type 0} → Memory → Program A → Progress A
unfolding word_at store_word store_hazard push_retired allocate
advance m (done a) = stopped
advance m aborted = stopped
advance m out_of_fuel = stopped
advance m (reading b i k) = moved m (k (word_at m b i))
advance m (comparing b i expected desired k) =
    if word_at m b i == expected
    then moved (store_word m b i desired) (k true)
    else moved m (k false)
advance m (marking p index tid k) = moved (store_hazard m p index tid) k
advance m (dereferencing p k) = elim (m.heap p) [ none ↦ faulted | some s ↦ moved m (k s) ]
advance m (allocating s k) =
    if ltb m.fresh (2 ^ 48) then moved (allocate m s) (k m.fresh) else stopped
advance m (retiring p tid k) = moved (push_retired m p tid) k

-- How a program that runs alone ends.
pub data Outcome (A : Type 0) : Type 0 where
  returned : A → Memory → Outcome A
  abort : Memory → Outcome A
  unfinished : Memory → Outcome A
  fault : Outcome A

unfoldable pub run : {A : Type 0} → Program A → Memory → Outcome A
unfolding word_at store_word store_hazard push_retired allocate
run (done a) m = returned a m
run aborted m = abort m
run out_of_fuel m = unfinished m
run (reading b i k) m = run (k (word_at m b i)) m
run (comparing b i expected desired k) m =
    let kept = run (k false) m in
    let swapped = run (k true) (store_word m b i desired) in
    if word_at m b i == expected then swapped else kept
run (marking p index tid k) m = run k (store_hazard m p index tid)
run (dereferencing p k) m = elim (m.heap p) [ none ↦ fault | some s ↦ run (k s) m ]
run (allocating s k) m =
    let allocated = run (k m.fresh) (allocate m s) in
    if ltb m.fresh (2 ^ 48) then allocated else abort m
run (retiring p tid k) m = run k (push_retired m p tid)
