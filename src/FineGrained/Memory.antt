-- ===== src/FineGrained/Memory.antt =====
-- The state of the filter with eight mutexes, one action on it, and programs that run alone.
use lock_free_cuckoo_filter.Prelude.{
  ℕ, Bool, true, false, Option, none, some, List, [], ◌∷◌, ◌==◌, if◌then◌else◌,
}
use lock_free_cuckoo_filter.Table.{HashTable, empty_table, slot, write}
use lock_free_cuckoo_filter.FineGrained.Program.{
  Program, done, locking, unlocking, reading, writing,
}

-- `std::shared_mutex`: one thread holds it exclusively, or any number share it.
pub data SharedMutex : Type 0 where
  writer : ℕ → SharedMutex
  readers : List ℕ → SharedMutex

-- `mutexes{8}`
abbrev pub num_mutexes : ℕ
num_mutexes = 8

-- `mutexes` is indexed below 8 only.
pub record FineGrainedFilter : Type 0 where
  pub table_size : ℕ
  pub verbose : Bool
  pub hash_table : HashTable
  pub mutexes : ℕ → SharedMutex

-- The constructors; the one without a `_verbose` passes false.
unfoldable pub new_filter : ℕ → Bool → FineGrainedFilter
unfolding empty_table
new_filter capacity verbose = record {
  table_size = capacity;
  verbose = verbose;
  hash_table = empty_table capacity;
  mutexes = λ m. readers [];
}

-- `lock()` and `lock_shared()`: `none` while the thread has to wait.
unfoldable pub acquire : Bool → ℕ → SharedMutex → Option SharedMutex
acquire exclusive tid (writer t) = none
acquire true tid (readers []) = some (writer tid)
acquire true tid (readers (t ∷ ts)) = none
acquire false tid (readers ts) = some (readers (tid ∷ ts))

-- One thread leaves the list.
unfoldable pub leave : ℕ → List ℕ → List ℕ
leave tid [] = []
leave tid (t ∷ ts) = if tid == t then ts else t ∷ leave tid ts

-- `unlock()` and `unlock_shared()`
unfoldable pub release : ℕ → SharedMutex → SharedMutex
unfolding leave
release tid (writer t) = readers []
release tid (readers ts) = readers (leave tid ts)

unfoldable pub set_mutex : FineGrainedFilter → ℕ → SharedMutex → FineGrainedFilter
set_mutex s m x = record s { mutexes = λ j. if j == m then x else s.mutexes j }

-- One action of a thread.
pub data Progress (A : Type 0) : Type 0 where
  stopped : Progress A  -- the program has ended
  blocked : Progress A  -- it waits for a mutex
  moved : FineGrainedFilter → Program A → Progress A

unfoldable pub advance : {A : Type 0} → ℕ → FineGrainedFilter → Program A → Progress A
unfolding acquire release set_mutex slot write
advance tid s (done a) = stopped
advance tid s (locking exclusive m k) = elim (acquire exclusive tid (s.mutexes m)) [
  | none ↦ blocked
  | some x ↦ moved (set_mutex s m x) k
]
advance tid s (unlocking m k) = moved (set_mutex s m (release tid (s.mutexes m))) k
advance tid s (reading swap b i k) = moved s (k (slot s.hash_table b i))
advance tid s (writing swap b i f k) = moved (record s { hash_table = write s.hash_table b i f }) k

-- A program that runs alone: `none` if it waits for ever.
unfoldable pub run :
    {A : Type 0} → ℕ → Program A → FineGrainedFilter → Option (A × FineGrainedFilter)
unfolding acquire release set_mutex slot write
run tid (done a) s = some (a, s)
run tid (locking exclusive m k) s = elim (acquire exclusive tid (s.mutexes m)) [
  | none ↦ none
  | some x ↦ run tid k (set_mutex s m x)
]
run tid (unlocking m k) s = run tid k (set_mutex s m (release tid (s.mutexes m)))
run tid (reading swap b i k) s = run tid (k (slot s.hash_table b i)) s
run tid (writing swap b i f k) s = run tid k (record s { hash_table = write s.hash_table b i f })
