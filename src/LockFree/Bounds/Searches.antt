-- ===== src/LockFree/Bounds/Searches.antt =====
-- The indices that `find` and `remove` of cuckoo_filter/lock_free_filter.cpp use.
use native.Mathlib.Nat.{mod-lt}
use lock_free_cuckoo_filter.Prelude.{
  ℕ, zero, suc, ◌+◌, ◌*◌, ◌%◌, ◌<◌, ◌≤◌, true, false, not, Option, none, some, List, ltb, ◌==◌,
  if◌then◌else◌, arith,
}
use lock_free_cuckoo_filter.Common.{num_items_per_entry}
use lock_free_cuckoo_filter.Hash.{Digest, jenkins_hash, md5_fingerprint}
use lock_free_cuckoo_filter.Pointer.{TablePointer, get_counter, get_real_pointer, get_marked}
use lock_free_cuckoo_filter.Table.{Fingerprint}
use lock_free_cuckoo_filter.LockFree.Program.{Program, mark_hazard, clear_hazard, retire_key}
use lock_free_cuckoo_filter.LockFree.Relocate.{get_next_hash_index, help_relocate}
use lock_free_cuckoo_filter.LockFree.Methods.{
  Look, hit, helped, miss, look_at, find_slot, find_slots, find_pointer, find, remove_rounds,
  remove, continue_first, continue_second, continue_find, check_counter,
}
use lock_free_cuckoo_filter.LockFree.Bounds.Bounded.{
  Whatever, IsBounded, IsBounded->>=, IsBounded-if, IsBounded-created,
}
use lock_free_cuckoo_filter.LockFree.Bounds.Helping.{next-lt, help_relocate-IsBounded}

-- A location that `find` of the inner loop may return
abbrev IsLocation : Option (ℕ × TablePointer) → Type 0
IsLocation none = Unit
IsLocation (some r) = r.0 ≤ 8

abbrev IsFound : ℕ × TablePointer → Type 0
IsFound r = r.0 ≤ 8

module _ (n threads tid : ℕ) (pos : 0 < n) (mine : tid < threads) where
  look_at-IsBounded :
      (fuel : ℕ) (fingerprint : Fingerprint) (b slot : ℕ) (ptr : TablePointer)
      → b < n
      → slot < num_items_per_entry
      → IsBounded n threads Whatever (look_at n tid fuel fingerprint b slot ptr)
  unfolding look_at
  look_at-IsBounded fuel fingerprint b slot ptr hb hs =
      IsBounded-if n threads (not (get_real_pointer ptr == 0)) _ _ Whatever
        (λ _.
          IsBounded-if n threads (get_marked ptr) _ _ Whatever
            (λ _.
              IsBounded->>= n threads Whatever Whatever (help_relocate n tid fuel b slot false) _
                (help_relocate-IsBounded n threads tid pos mine fuel b slot false hb hs)
                (λ _ _. tt))
            (λ _ str. tt))
        (λ _. tt)

  continue_second-IsBounded :
      (again : Program (Option (ℕ × TablePointer))) (hash1 hash2 slot : ℕ)
      (ptr1 ptr2 : TablePointer) (second : Look)
      → hash1 < n
      → hash2 < n
      → slot < num_items_per_entry
      → IsBounded n threads IsLocation again
      → IsBounded n threads IsLocation (continue_second again hash1 hash2 slot ptr1 ptr2 second)
  unfolding continue_second
  continue_second-IsBounded again hash1 hash2 slot ptr1 ptr2 hit h1 h2 hs rest = omega arith
  continue_second-IsBounded again hash1 hash2 slot ptr1 ptr2 helped h1 h2 hs rest = rest
  continue_second-IsBounded again hash1 hash2 slot ptr1 ptr2 miss h1 h2 hs rest = (
    h1,
    hs,
    λ word1. (
      h2,
      hs,
      λ word2.
          IsBounded-if n threads
            (check_counter (get_counter ptr1) (get_counter ptr2) (get_counter word1)
              (get_counter word2))
            _ _ IsLocation (λ _. rest) (λ _. tt),
    ),
  )

  continue_first-IsBounded :
      (fuel : ℕ) (fingerprint : Fingerprint) (again : Program (Option (ℕ × TablePointer)))
      (hash1 hash2 slot : ℕ) (ptr1 : TablePointer) (first : Look)
      → hash1 < n
      → hash2 < n
      → slot < num_items_per_entry
      → IsBounded n threads IsLocation again
      → IsBounded n threads IsLocation
          (continue_first n tid fuel fingerprint again hash1 hash2 slot ptr1 first)
  unfolding continue_first mark_hazard
  continue_first-IsBounded fuel fingerprint again hash1 hash2 slot ptr1 hit h1 h2 hs rest =
      omega arith
  continue_first-IsBounded fuel fingerprint again hash1 hash2 slot ptr1 helped h1 h2 hs rest = rest
  continue_first-IsBounded fuel fingerprint again hash1 hash2 slot ptr1 miss h1 h2 hs rest = (
    h2,
    hs,
    λ ptr2. (
      omega arith,
      mine,
      IsBounded->>= n threads Whatever IsLocation (look_at n tid fuel fingerprint hash2 slot ptr2) _
          (look_at-IsBounded fuel fingerprint hash2 slot ptr2 h2 hs)
          (λ second _.
            continue_second-IsBounded again hash1 hash2 slot ptr1 ptr2 second h1 h2 hs rest),
    ),
  )

  find_slot-IsBounded :
      (fuel : ℕ) (fingerprint : Fingerprint) (hash1 hash2 slot : ℕ)
      → hash1 < n
      → hash2 < n
      → slot < num_items_per_entry
      → IsBounded n threads IsLocation (find_slot n tid fuel fingerprint hash1 hash2 slot)
  unfolding find_slot mark_hazard
  find_slot-IsBounded zero fingerprint hash1 hash2 slot h1 h2 hs = tt
  find_slot-IsBounded (suc fuel) fingerprint hash1 hash2 slot h1 h2 hs = (
    h1,
    hs,
    λ ptr1. (
      omega arith,
      mine,
      IsBounded->>= n threads Whatever IsLocation
          (look_at n tid (suc fuel) fingerprint hash1 slot ptr1) _
          (look_at-IsBounded (suc fuel) fingerprint hash1 slot ptr1 h1 hs)
          (λ first _.
            continue_first-IsBounded (suc fuel) fingerprint
              (find_slot n tid fuel fingerprint hash1 hash2 slot) hash1 hash2 slot ptr1 first h1 h2
              hs (find_slot-IsBounded fuel fingerprint hash1 hash2 slot h1 h2 hs)),
    ),
  )

  continue_find-IsBounded :
      (next : Program (ℕ × TablePointer)) (found : Option (ℕ × TablePointer))
      → IsBounded n threads IsFound next
      → IsLocation found
      → IsBounded n threads IsFound (continue_find next found)
  unfolding continue_find
  continue_find-IsBounded next none rest le = rest
  continue_find-IsBounded next (some result) rest le = le

  find_slots-IsBounded :
      (fuel : ℕ) (fingerprint : Fingerprint) (hash1 hash2 left slot : ℕ) (pointer : TablePointer)
      → hash1 < n
      → hash2 < n
      → slot + left ≤ num_items_per_entry
      → IsBounded n threads IsFound
          (find_slots n tid fuel fingerprint hash1 hash2 left slot pointer)
  unfolding find_slots
  find_slots-IsBounded fuel fingerprint hash1 hash2 zero slot pointer h1 h2 hs = omega arith
  find_slots-IsBounded fuel fingerprint hash1 hash2 (suc left) slot pointer h1 h2 hs =
      IsBounded->>= n threads IsLocation IsFound (find_slot n tid fuel fingerprint hash1 hash2 slot)
        _ (find_slot-IsBounded fuel fingerprint hash1 hash2 slot h1 h2 (omega arith))
        (λ found le.
          continue_find-IsBounded
            (find_slots n tid fuel fingerprint hash1 hash2 left (slot + 1) pointer) found
            (find_slots-IsBounded fuel fingerprint hash1 hash2 left (slot + 1) pointer h1 h2
              (omega arith))
            le)

  find_pointer-IsBounded :
      (fuel : ℕ) (d : Digest) (key : List ℕ) (pointer : TablePointer)
      → IsBounded n threads IsFound (find_pointer n tid fuel d key pointer)
  unfolding find_pointer clear_hazard mark_hazard
  find_pointer-IsBounded fuel d key pointer = (
    omega arith,
    mine,
    (
      omega arith,
      mine,
      find_slots-IsBounded fuel (md5_fingerprint d key) (jenkins_hash key % n)
          (get_next_hash_index n (jenkins_hash key % n) (md5_fingerprint d key)) num_items_per_entry
          0 pointer (mod-lt (jenkins_hash key) pos) (next-lt n _ (md5_fingerprint d key) pos)
          (omega arith),
    ),
  )

  -- The location that find returns is a slot of the two buckets, or 8.
  pub find-IsBounded :
      (fuel : ℕ) (d : Digest) (key : List ℕ)
      → IsBounded n threads (λ location. location ≤ 8) (find n tid fuel d key)
  unfolding find
  find-IsBounded fuel d key =
      IsBounded->>= n threads IsFound (λ location. location ≤ 8) (find_pointer n tid fuel d key 0) _
        (find_pointer-IsBounded fuel d key 0) (λ r le. le)

  remove_rounds-IsBounded :
      (rounds fuel : ℕ) (d : Digest) (key : List ℕ) (hash1 hash2 : ℕ) (ptr : TablePointer)
      → hash1 < n
      → hash2 < n
      → IsBounded n threads Whatever (remove_rounds n tid rounds fuel d key hash1 hash2 ptr)
  unfolding remove_rounds retire_key
  remove_rounds-IsBounded zero fuel d key hash1 hash2 ptr h1 h2 = tt
  remove_rounds-IsBounded (suc rounds) fuel d key hash1 hash2 ptr h1 h2 =
      IsBounded->>= n threads IsFound Whatever (find_pointer n tid fuel d key ptr) _
        (find_pointer-IsBounded fuel d key ptr)
        (λ r le.
          IsBounded-if n threads (r.0 == num_items_per_entry * 2) _ _ Whatever (λ _. tt)
            (λ _. IsBounded-created n threads (get_counter r.1) 0 false _ Whatever (λ w. (
              elim (ltb r.0 num_items_per_entry) as (λ c. (if c then hash1 else hash2) < n) [
                | true ↦ h1
                | false ↦ h2
              ],
              mod-lt r.0 (omega arith),
              λ ok.
                  IsBounded-if n threads ok _ _ Whatever (λ _. (mine, tt))
                    (λ _. remove_rounds-IsBounded rounds fuel d key hash1 hash2 r.1 h1 h2),
            ))))

  pub remove-IsBounded :
      (fuel : ℕ) (d : Digest) (key : List ℕ)
      → IsBounded n threads Whatever (remove n tid fuel d key)
  unfolding remove clear_hazard mark_hazard
  remove-IsBounded fuel d key = (
    omega arith,
    mine,
    (
      omega arith,
      mine,
      remove_rounds-IsBounded fuel fuel d key (jenkins_hash key % n)
          (get_next_hash_index n (jenkins_hash key % n) (md5_fingerprint d key)) 0
          (mod-lt (jenkins_hash key) pos) (next-lt n _ (md5_fingerprint d key) pos),
    ),
  )
