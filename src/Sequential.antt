-- ===== src/Sequential.antt =====
-- cuckoo_filter/seq_filter.cpp: the filter behind one mutex. A call of `rand()` takes the next
-- number of a sequence `rand`; the printing of the verbose mode is left out.
pub mod Slots
pub mod Kicks
pub mod Valid
pub mod Insert
pub mod Lookup
pub mod Remove
pub mod Contract
pub mod History
use lock_free_cuckoo_filter.Prelude.{
  ℕ, zero, suc, ◌%◌, Bool, true, false, not, ◌&&◌, Option, none, some, List, [], length, str_eq,
  is_empty, ◌==◌, if◌then◌else◌,
}
use lock_free_cuckoo_filter.Common.{num_items_per_entry, num_max_kicks}
use lock_free_cuckoo_filter.Hash.{Digest, jenkins_hash, md5_fingerprint}
use lock_free_cuckoo_filter.Index.{next_index}
use lock_free_cuckoo_filter.Table.{Fingerprint, HashTable, empty_table, slot, write}

-- `mtx` is true while the mutex is held.
pub record SequentialFilter : Type 0 where
  pub table_size : ℕ
  pub verbose : Bool
  pub hash_table : HashTable
  pub mtx : Bool

-- The constructors; the one without a `_verbose` passes false.
unfoldable pub new : ℕ → Bool → SequentialFilter
unfolding empty_table
new capacity verbose = record {
  table_size = capacity;
  verbose = verbose;
  hash_table = empty_table capacity;
  mtx = false;
}

unfoldable pub get_next_hash_index : ℕ → ℕ → Fingerprint → ℕ
unfolding next_index jenkins_hash
get_next_hash_index table_size curr_idx fingerprint =
    next_index table_size curr_idx (jenkins_hash fingerprint)

-- The loops over the slots of one bucket, with the rounds that are left and the loop's index.
-- `insert`: the first empty slot takes the fingerprint.
unfoldable pub fill_loop : ℕ → ℕ → ℕ → Fingerprint → HashTable → Option HashTable
fill_loop zero i b f t = none
fill_loop (suc k) i b f t =
    if is_empty (slot t b i) then some (write t b i f) else fill_loop k (suc i) b f t

-- `find`
unfoldable pub find_loop : ℕ → ℕ → ℕ → Fingerprint → HashTable → Bool
find_loop zero i b f t = false
find_loop (suc k) i b f t = if str_eq (slot t b i) f then true else find_loop k (suc i) b f t

-- `remove`: the first slot that holds the fingerprint is cleared.
unfoldable pub clear_loop : ℕ → ℕ → ℕ → Fingerprint → HashTable → Option HashTable
clear_loop zero i b f t = none
clear_loop (suc k) i b f t =
    if not (length (slot t b i) == 0) && str_eq (slot t b i) f
    then some (write t b i [])
    else clear_loop k (suc i) b f t

-- The replace phase of `insert`, with the rounds that are left and the place of the next random
-- number. When the rounds run out, the fingerprint in hand is dropped.
unfoldable pub kick_loop : ℕ → (ℕ → ℕ) → ℕ → ℕ → ℕ → Fingerprint → HashTable → Bool × HashTable
kick_loop n rand zero r replace_hash f t = (false, t)
kick_loop n rand (suc k) r replace_hash f t =
    let bucket_idx = rand r % num_items_per_entry in
    let kicked = slot t replace_hash bucket_idx in
    let swapped = write t replace_hash bucket_idx f in
    let next_hash = get_next_hash_index n replace_hash kicked in
    let rest = kick_loop n rand k (suc r) next_hash kicked swapped in
    elim (fill_loop num_items_per_entry 0 next_hash kicked swapped) [
      | some placed ↦ (true, placed)
      | none ↦ rest
    ]

-- The body of `insert` between lock and unlock, on the table.
unfoldable pub insert_table :
    (n : ℕ) → (rand : ℕ → ℕ) → (hash1 : ℕ) → Fingerprint → HashTable → Bool × HashTable
unfolding get_next_hash_index fill_loop kick_loop slot write
insert_table n rand hash1 f t =
    let hash2 = get_next_hash_index n hash1 f in
    elim (fill_loop num_items_per_entry 0 hash1 f t) [
      | some placed ↦ (true, placed)
      | none ↦ elim (fill_loop num_items_per_entry 0 hash2 f t) [
        | some placed ↦ (true, placed)
        | none ↦
            let flag = rand 0 % 2 in
            kick_loop n rand num_max_kicks 1 (if flag == 0 then hash1 else hash2) f t
      ]
    ]

-- `mtx.lock()`, which waits while the mutex is held: `none` then.
unfoldable pub lock : SequentialFilter → Option SequentialFilter
lock s = if s.mtx then none else some (record s { mtx = true })

-- `mtx.unlock()` and the return, with the table as the body left it
unfoldable pub unlock : SequentialFilter → Bool × HashTable → Bool × SequentialFilter
unlock s (done, t) = (done, record s { hash_table = t; mtx = false })

unfoldable pub insert :
    Digest → (ℕ → ℕ) → List ℕ → SequentialFilter → Option (Bool × SequentialFilter)
unfolding lock unlock insert_table md5_fingerprint jenkins_hash
insert d rand key s = elim (lock s) [
  | none ↦ none
  | some held ↦
      let fingerprint = md5_fingerprint d key in
      let hash1 = jenkins_hash key % s.table_size in
      some (unlock held (insert_table s.table_size rand hash1 fingerprint held.hash_table))
]

unfoldable pub find_table : (n hash1 : ℕ) → Fingerprint → HashTable → Bool
unfolding get_next_hash_index find_loop slot str_eq
find_table n hash1 f t =
    let hash2 = get_next_hash_index n hash1 f in
    if find_loop num_items_per_entry 0 hash1 f t
    then true
    else find_loop num_items_per_entry 0 hash2 f t

unfoldable pub find : Digest → List ℕ → SequentialFilter → Option (Bool × SequentialFilter)
unfolding lock unlock find_table md5_fingerprint jenkins_hash
find d key s = elim (lock s) [
  | none ↦ none
  | some held ↦
      let fingerprint = md5_fingerprint d key in
      let hash1 = jenkins_hash key % s.table_size in
      let found = find_table s.table_size hash1 fingerprint held.hash_table in
      some (unlock held (found, held.hash_table))
]

unfoldable pub remove_table : (n hash1 : ℕ) → Fingerprint → HashTable → Bool × HashTable
unfolding get_next_hash_index clear_loop slot write str_eq
remove_table n hash1 f t =
    let hash2 = get_next_hash_index n hash1 f in
    elim (clear_loop num_items_per_entry 0 hash1 f t) [
      | some cleared ↦ (true, cleared)
      | none ↦ elim (clear_loop num_items_per_entry 0 hash2 f t) [
        | some cleared ↦ (true, cleared)
        | none ↦ (false, t)
      ]
    ]

unfoldable pub remove : Digest → List ℕ → SequentialFilter → Option (Bool × SequentialFilter)
unfolding lock unlock remove_table md5_fingerprint jenkins_hash
remove d key s = elim (lock s) [
  | none ↦ none
  | some held ↦
      let fingerprint = md5_fingerprint d key in
      let hash1 = jenkins_hash key % s.table_size in
      some (unlock held (remove_table s.table_size hash1 fingerprint held.hash_table))
]

unfoldable pub size : SequentialFilter → ℕ
size s = s.table_size
