-- ===== src/FineGrained/Methods.antt =====
-- `insert`, `find` and `remove`. A call of `rand()` takes the next number of a sequence `rand`; the
-- printing is left out.
use lock_free_cuckoo_filter.Prelude.{
  ℕ, zero, suc, ◌%◌, Bool, true, false, not, ◌&&◌, List, [], ◌∷◌, length, str_eq, is_empty, ◌==◌,
  if◌then◌else◌,
}
use lock_free_cuckoo_filter.Common.{num_items_per_entry, num_max_kicks}
use lock_free_cuckoo_filter.Hash.{Digest, jenkins_hash, md5_fingerprint}
use lock_free_cuckoo_filter.Index.{next_index}
use lock_free_cuckoo_filter.Table.{Fingerprint}
use lock_free_cuckoo_filter.Sequential.History.{Call, inserting, finding, removing}
use lock_free_cuckoo_filter.FineGrained.Program.{Program, done, reading, writing, ◌>>=◌, with_lock}
use lock_free_cuckoo_filter.FineGrained.Memory.{FineGrainedFilter, num_mutexes}

unfoldable pub get_next_hash_index : ℕ → ℕ → Fingerprint → ℕ
unfolding next_index jenkins_hash
get_next_hash_index table_size curr_idx fingerprint =
    next_index table_size curr_idx (jenkins_hash fingerprint)

-- The loops over the slots of one bucket, with the rounds that are left and the loop's index.
-- `insert`
unfoldable pub fill_slots_locked : (left i b : ℕ) → Fingerprint → Program Bool
fill_slots_locked zero i b f = done false
fill_slots_locked (suc left) i b f = reading false b i (λ s.
    if is_empty s then writing false b i f (done true) else fill_slots_locked left (suc i) b f)

-- `find`
unfoldable pub find_slots_locked : (left i b : ℕ) → Fingerprint → Program Bool
find_slots_locked zero i b f = done false
find_slots_locked (suc left) i b f =
    reading false b i (λ s. if str_eq s f then done true else find_slots_locked left (suc i) b f)

-- `remove`
unfoldable pub clear_slots_locked : (left i b : ℕ) → Fingerprint → Program Bool
clear_slots_locked zero i b f = done false
clear_slots_locked (suc left) i b f = reading false b i (λ s.
    if not (length s == 0) && str_eq s f
    then writing false b i [] (done true)
    else clear_slots_locked left (suc i) b f)

-- The replace phase, with the rounds that are left and the place of the next random number. The swap
-- is made before the lock is taken.
unfoldable pub kick_rounds :
    (n : ℕ) → (ℕ → ℕ) → (left r replace_hash : ℕ) → Fingerprint → Program Bool
unfolding get_next_hash_index fill_slots_locked
kick_rounds n rand zero r replace_hash f = done false
kick_rounds n rand (suc left) r replace_hash f =
    let bucket_idx = rand r % num_items_per_entry in
    reading true replace_hash bucket_idx (λ kicked. writing true replace_hash bucket_idx f (
      let next_hash = get_next_hash_index n replace_hash kicked in
      with_lock true (next_hash % num_mutexes)
        (fill_slots_locked num_items_per_entry 0 next_hash kicked)
      >>= λ stored. if stored then done true else kick_rounds n rand left (suc r) next_hash kicked))

module _ (n : ℕ) where
  unfoldable pub insert : Digest → (ℕ → ℕ) → List ℕ → Program Bool
  unfolding get_next_hash_index fill_slots_locked kick_rounds md5_fingerprint jenkins_hash
  insert d rand key =
      let fingerprint = md5_fingerprint d key in
      let hash1 = jenkins_hash key % n in
      let hash2 = get_next_hash_index n hash1 fingerprint in
      do
        first ←
            with_lock true (hash1 % num_mutexes)
              (fill_slots_locked num_items_per_entry 0 hash1 fingerprint)
        (if first then done true else (do
          second ←
              with_lock true (hash2 % num_mutexes)
                (fill_slots_locked num_items_per_entry 0 hash2 fingerprint)
          (if second
              then done true
              else kick_rounds n rand num_max_kicks 1 (if rand 0 % 2 == 0 then hash1 else hash2)
                  fingerprint)))

  unfoldable pub find : Digest → List ℕ → Program Bool
  unfolding get_next_hash_index find_slots_locked md5_fingerprint jenkins_hash
  find d key =
      let fingerprint = md5_fingerprint d key in
      let hash1 = jenkins_hash key % n in
      let hash2 = get_next_hash_index n hash1 fingerprint in
      do
        first ←
            with_lock false (hash1 % num_mutexes)
              (find_slots_locked num_items_per_entry 0 hash1 fingerprint)
        (if first
            then done true
            else with_lock false (hash2 % num_mutexes)
                (find_slots_locked num_items_per_entry 0 hash2 fingerprint))

  unfoldable pub remove : Digest → List ℕ → Program Bool
  unfolding get_next_hash_index clear_slots_locked md5_fingerprint jenkins_hash
  remove d key =
      let fingerprint = md5_fingerprint d key in
      let hash1 = jenkins_hash key % n in
      let hash2 = get_next_hash_index n hash1 fingerprint in
      do
        first ←
            with_lock true (hash1 % num_mutexes)
              (clear_slots_locked num_items_per_entry 0 hash1 fingerprint)
        (if first
            then done true
            else with_lock true (hash2 % num_mutexes)
                (clear_slots_locked num_items_per_entry 0 hash2 fingerprint))

  -- One call of a client, and its calls one after another with their answers
  unfoldable pub request : Digest → Call → Program Bool
  unfolding insert find remove
  request d (inserting rand key) = insert d rand key
  request d (finding key) = find d key
  request d (removing key) = remove d key

  unfoldable pub session : Digest → List Call → Program (List Bool)
  unfolding request
  session d [] = done []
  session d (c ∷ cs) = do answer ← request d c; answers ← session d cs; done (answer ∷ answers)

unfoldable pub size : FineGrainedFilter → ℕ
size s = s.table_size
