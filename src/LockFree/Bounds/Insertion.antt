-- ===== src/LockFree/Bounds/Insertion.antt =====
-- The indices that `insert` of cuckoo_filter/lock_free_filter.cpp uses.
use native.Mathlib.Nat.{mod-lt}
use lock_free_cuckoo_filter.Prelude.{
  ℕ, zero, suc, ◌+◌, ◌%◌, ◌<◌, ◌≤◌, Bool, false, ◌||◌, List, [], ◌∷◌, ◌==◌, arith,
}
use lock_free_cuckoo_filter.Common.{num_items_per_entry}
use lock_free_cuckoo_filter.Hash.{Digest, jenkins_hash, md5_fingerprint}
use lock_free_cuckoo_filter.Pointer.{get_counter, get_real_pointer}
use lock_free_cuckoo_filter.LockFree.Program.{Address, Program, mark_hazard, clear_hazard}
use lock_free_cuckoo_filter.LockFree.Relocate.{get_next_hash_index, relocate}
use lock_free_cuckoo_filter.LockFree.Methods.{
  Attempt, stored, lost, full, try_slot, swapped, is_some, try_slots, try_kicks, insert_rounds,
  insert, continue_insert,
}
use lock_free_cuckoo_filter.LockFree.Bounds.Bounded.{
  Whatever, AllBelow, IsBounded, IsBounded->>=, IsBounded-if, IsBounded-created,
}
use lock_free_cuckoo_filter.LockFree.Bounds.Helping.{next-lt}
use lock_free_cuckoo_filter.LockFree.Bounds.Relocation.{relocate-IsBounded}

-- Every shuffle gives slots.
abbrev pub AreOrders : (ℕ → List ℕ) → Type 0
AreOrders orders = (r : ℕ) → AllBelow num_items_per_entry (orders r)

module _ (n threads tid : ℕ) (pos : 0 < n) (mine : tid < threads) where
  try_slot-IsBounded :
      (entry : Address) (b i : ℕ)
      → b < n
      → i < num_items_per_entry
      → IsBounded n threads Whatever (try_slot entry b i)
  unfolding try_slot
  try_slot-IsBounded entry b i hb hi = (
    hb,
    hi,
    λ ptr1.
        IsBounded-if n threads (get_real_pointer ptr1 == 0) _ _ Whatever
          (λ _.
            IsBounded-created n threads (get_counter ptr1) entry false _ Whatever
              (λ w. (hb, hi, λ r. tt)))
          (λ _. tt),
  )

  try_slots-IsBounded :
      (entry : Address) (hash1 hash2 left i : ℕ) (found_empty : Bool)
      → hash1 < n
      → hash2 < n
      → i + left ≤ num_items_per_entry
      → IsBounded n threads Whatever (try_slots entry hash1 hash2 left i found_empty)
  unfolding try_slots
  try_slots-IsBounded entry hash1 hash2 zero i found_empty h1 h2 hi = tt
  try_slots-IsBounded entry hash1 hash2 (suc left) i found_empty h1 h2 hi =
      IsBounded->>= n threads Whatever Whatever (try_slot entry hash1 i) _
        (try_slot-IsBounded entry hash1 i h1 (omega arith))
        (λ first _.
          IsBounded-if n threads (swapped first) _ _ Whatever (λ _. tt)
            (λ _.
              IsBounded->>= n threads Whatever Whatever (try_slot entry hash2 i) _
                (try_slot-IsBounded entry hash2 i h2 (omega arith))
                (λ other _.
                  IsBounded-if n threads (swapped other) _ _ Whatever (λ _. tt)
                    (λ _.
                      try_slots-IsBounded entry hash1 hash2 left (i + 1)
                        (found_empty || (is_some first || is_some other)) h1 h2 (omega arith)))))

  try_kicks-IsBounded :
      (fuel hash1 : ℕ) (order : List ℕ)
      → hash1 < n
      → AllBelow num_items_per_entry order
      → IsBounded n threads Whatever (try_kicks n tid fuel hash1 order)
  unfolding try_kicks
  try_kicks-IsBounded fuel hash1 [] h1 hs = tt
  try_kicks-IsBounded fuel hash1 (slot ∷ order) h1 (hs, rest) =
      IsBounded->>= n threads Whatever Whatever (relocate n tid fuel hash1 slot) _
        (relocate-IsBounded n threads tid pos mine fuel hash1 slot h1 hs)
        (λ relocated _.
          IsBounded-if n threads relocated _ _ Whatever (λ _. tt)
            (λ _. try_kicks-IsBounded fuel hash1 order h1 rest))

  continue_insert-IsBounded :
      (again kicks : Program Bool) (attempt : Attempt)
      → IsBounded n threads Whatever again
      → IsBounded n threads Whatever kicks
      → IsBounded n threads Whatever (continue_insert again kicks attempt)
  unfolding continue_insert
  continue_insert-IsBounded again kicks stored rest ok = tt
  continue_insert-IsBounded again kicks lost rest ok = rest
  continue_insert-IsBounded again kicks full rest ok =
      IsBounded->>= n threads Whatever Whatever kicks _ ok
        (λ relocated _. IsBounded-if n threads relocated _ _ Whatever (λ _. rest) (λ _. tt))

  insert_rounds-IsBounded :
      (fuel : ℕ) (orders : ℕ → List ℕ) (round : ℕ) (entry : Address) (hash1 hash2 : ℕ)
      → AreOrders orders
      → hash1 < n
      → hash2 < n
      → IsBounded n threads Whatever (insert_rounds n tid fuel orders round entry hash1 hash2)
  unfolding insert_rounds
  insert_rounds-IsBounded zero orders round entry hash1 hash2 ho h1 h2 = tt
  insert_rounds-IsBounded (suc fuel) orders round entry hash1 hash2 ho h1 h2 =
      IsBounded->>= n threads Whatever Whatever
        (try_slots entry hash1 hash2 num_items_per_entry 0 false) _
        (try_slots-IsBounded entry hash1 hash2 num_items_per_entry 0 false h1 h2 (omega arith))
        (λ attempt _.
          continue_insert-IsBounded (insert_rounds n tid fuel orders (round + 1) entry hash1 hash2)
            (try_kicks n tid (suc fuel) hash1 (orders round)) attempt
            (insert_rounds-IsBounded fuel orders (round + 1) entry hash1 hash2 ho h1 h2)
            (try_kicks-IsBounded (suc fuel) hash1 (orders round) h1 (ho round)))

  pub insert-IsBounded :
      (fuel : ℕ) (d : Digest) (orders : ℕ → List ℕ) (key : List ℕ)
      → AreOrders orders
      → IsBounded n threads Whatever (insert n tid fuel d orders key)
  unfolding insert clear_hazard mark_hazard
  insert-IsBounded fuel d orders key ho = (
    omega arith,
    mine,
    (
      omega arith,
      mine,
      λ entry.
          insert_rounds-IsBounded fuel orders 0 entry (jenkins_hash key % n)
            (get_next_hash_index n (jenkins_hash key % n) (md5_fingerprint d key)) ho
            (mod-lt (jenkins_hash key) pos) (next-lt n _ (md5_fingerprint d key) pos),
    ),
  )
