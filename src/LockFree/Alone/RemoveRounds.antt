-- ===== src/LockFree/Alone/RemoveRounds.antt =====
-- The search and one round of `remove` of cuckoo_filter/lock_free_filter.cpp, run alone.
use lock_free_cuckoo_filter.Prelude.{
  ℕ, suc, ◌*◌, ◌%◌, ◌<◌, ◌≡◌, refl, ap, ◌∙◌, true, false, some, List, [], ltb, ◌==◌, ==_iff,
  if◌then◌else◌, arith,
}
use lock_free_cuckoo_filter.Common.{num_items_per_entry}
use lock_free_cuckoo_filter.Hash.{Digest, jenkins_hash, md5_fingerprint}
use lock_free_cuckoo_filter.Pointer.{TablePointer, get_counter, get_real_pointer, create_pointer}
use lock_free_cuckoo_filter.Table.Copies.{partner}
use lock_free_cuckoo_filter.LockFree.Program.{mark_hazard, clear_hazard, retire_key}
use lock_free_cuckoo_filter.LockFree.Memory.{
  Memory, word_at, store_word, store_hazard, push_retired, returned, run,
}
use lock_free_cuckoo_filter.LockFree.Relocate.{get_next_hash_index}
use lock_free_cuckoo_filter.LockFree.Methods.{find_pointer, find_slots, remove_rounds}
use lock_free_cuckoo_filter.LockFree.Alone.Runs.{run_after}
use lock_free_cuckoo_filter.LockFree.Alone.Still.{still, still_outcome, run-still}
use lock_free_cuckoo_filter.LockFree.Alone.Search.{first_match, find_slots-run}
use lock_free_cuckoo_filter.LockFree.Alone.Contents.{IsSteady}
use lock_free_cuckoo_filter.LockFree.Alone.Answers.{IsSteady-IsQuiet}

pub find_pointer-still :
    {n c : ℕ} (tid fuel : ℕ) (d : Digest) (key : List ℕ) (m : Memory)
    → IsSteady n c m
    → let f = md5_fingerprint d key in
      let hash1 = jenkins_hash key % n in
      run (find_pointer n tid (suc fuel) d key 0) (still m)
      ≡ returned (first_match m f hash1 (partner n hash1 f) 4 0 0) (still m)
unfolding run find_pointer clear_hazard mark_hazard store_hazard get_next_hash_index
find_pointer-still {n} tid fuel d key m s =
    let f = md5_fingerprint d key in
    let hash1 = jenkins_hash key % n in
    let (h, e) =
      find_slots-run n tid fuel f hash1 (partner n hash1 f) 4 0 0 m [] (IsSteady-IsQuiet m s) in
    run-still (find_slots n tid (suc fuel) f hash1 (partner n hash1 f) 4 0 0) (still m)
    ∙ ap still_outcome e

module _ (n tid rounds fuel : ℕ) (d : Digest) (key : List ℕ) (hash1 hash2 : ℕ) (ptr : TablePointer)
    (m : Memory) (location : ℕ) (ptr1 : TablePointer)
    (found : run (find_pointer n tid fuel d key ptr) m ≡ returned (location, ptr1) m) where
  pub remove_rounds-miss :
      location ≡ 8
      → run (remove_rounds n tid (suc rounds) fuel d key hash1 hash2 ptr) m ≡ returned false m
  unfolding run remove_rounds
  remove_rounds-miss e =
      let end : (location == num_items_per_entry * 2) ≡ true = ground arith in
      run_after (find_pointer n tid fuel d key ptr) _ m m (location, ptr1) found ∙ rw end refl

  pub remove_rounds-hit :
      (b i : ℕ) (w : TablePointer)
      → location < 8
      → (if ltb location num_items_per_entry then hash1 else hash2) ≡ b
      → location % num_items_per_entry ≡ i
      → create_pointer (get_counter ptr1) 0 false ≡ some w
      → word_at m b i ≡ ptr1
      → run (remove_rounds n tid (suc rounds) fuel d key hash1 hash2 ptr) m
        ≡ returned true (push_retired (store_word m b i w) (get_real_pointer ptr1) tid)
  unfolding run remove_rounds retire_key
  remove_rounds-hit b i w lt bucket place made there =
      let inside : (location == num_items_per_entry * 2) ≡ false = ground arith in
      run_after (find_pointer n tid fuel d key ptr) _ m m (location, ptr1) found
      ∙ rw (inside, made, bucket, place, there, (==_iff ptr1 ptr1).1 refl, run) refl
