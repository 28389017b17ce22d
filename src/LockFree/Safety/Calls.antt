-- ===== src/LockFree/Safety/Calls.antt =====
-- The guards of `insert`, `find` and `remove` of cuckoo_filter/lock_free_filter.cpp.
use lock_free_cuckoo_filter.Prelude.{
  ℕ, zero, suc, ◌+◌, ◌*◌, ◌%◌, ◌≡◌, ◌≢◌, refl, Bool, false, ◌||◌, inl, inr, Option, none, some,
  List, [], ◌∷◌, Bool-cases, ◌==◌, arith,
}
use lock_free_cuckoo_filter.Common.{num_items_per_entry}
use lock_free_cuckoo_filter.Hash.{Digest, jenkins_hash, md5_fingerprint}
use lock_free_cuckoo_filter.Pointer.{TablePointer, get_counter, get_real_pointer, get_marked}
use lock_free_cuckoo_filter.Table.{Fingerprint}
use lock_free_cuckoo_filter.LockFree.Program.{
  Address, Program, mark_hazard, clear_hazard, retire_key,
}
use lock_free_cuckoo_filter.LockFree.Relocate.{get_next_hash_index, help_relocate, relocate}
use lock_free_cuckoo_filter.LockFree.Methods.{
  Attempt, stored, lost, full, try_slot, swapped, is_some, try_slots, try_kicks, insert_rounds,
  insert, Look, hit, helped, miss, look_at, find_slot, find_slots, find_pointer, find,
  remove_rounds, remove, continue_insert, continue_first, continue_second, continue_find,
  check_counter,
}
use lock_free_cuckoo_filter.LockFree.Safety.Words.{Heap, Grows, IsGood, IsGood-IsLive}
use lock_free_cuckoo_filter.LockFree.Safety.Guarded.{
  IsFresh, IsGuarded, Any, IsGuarded->>=, IsGuarded-if, IsGuarded-created,
}
use lock_free_cuckoo_filter.LockFree.Safety.Relocation.{help_relocate-IsGuarded, relocate-IsGuarded}

try_slot-IsGuarded :
    (entry : Address) (b i : ℕ) (h : Heap) → IsFresh h entry → IsGuarded Any h (try_slot entry b i)
unfolding try_slot
try_slot-IsGuarded entry b i h fresh = λ h₁ g₁ ptr1 good₁.
    IsGuarded-if (get_real_pointer ptr1 == 0) _ _ Any h₁
      (λ _.
        IsGuarded-created (get_counter ptr1) entry false _ Any h₁ fresh.0 (inr (g₁ entry fresh.1))
          (λ w made. (made, λ h₂ g₂ r. tt)))
      (λ _. tt)

try_slots-IsGuarded :
    (entry : Address) (hash1 hash2 left i : ℕ) (found_empty : Bool) (h : Heap)
    → IsFresh h entry
    → IsGuarded Any h (try_slots entry hash1 hash2 left i found_empty)
unfolding try_slots
try_slots-IsGuarded entry hash1 hash2 zero i found_empty h fresh = tt
try_slots-IsGuarded entry hash1 hash2 (suc left) i found_empty h fresh =
    IsGuarded->>= Any Any (try_slot entry hash1 i) _ h (try_slot-IsGuarded entry hash1 i h fresh)
      (λ h₁ g₁ first _.
        IsGuarded-if (swapped first) _ _ Any h₁ (λ _. tt)
          (λ _.
            IsGuarded->>= Any Any (try_slot entry hash2 i) _ h₁
              (try_slot-IsGuarded entry hash2 i h₁ (fresh.0, g₁ entry fresh.1))
              (λ h₂ g₂ other _.
                IsGuarded-if (swapped other) _ _ Any h₂ (λ _. tt)
                  (λ _.
                    try_slots-IsGuarded entry hash1 hash2 left (i + 1)
                      (found_empty || (is_some first || is_some other)) h₂
                      (fresh.0, g₂ entry (g₁ entry fresh.1))))))

module _ (n tid : ℕ) where
  try_kicks-IsGuarded :
      (fuel hash1 : ℕ) (order : List ℕ) (h : Heap)
      → IsGuarded Any h (try_kicks n tid fuel hash1 order)
  unfolding try_kicks
  try_kicks-IsGuarded fuel hash1 [] h = tt
  try_kicks-IsGuarded fuel hash1 (slot ∷ order) h =
      IsGuarded->>= Any Any (relocate n tid fuel hash1 slot) _ h
        (relocate-IsGuarded n tid fuel hash1 slot h)
        (λ h₁ g₁ relocated _.
          IsGuarded-if relocated _ _ Any h₁ (λ _. tt)
            (λ _. try_kicks-IsGuarded fuel hash1 order h₁))

  continue_insert-IsGuarded :
      (again kicks : Program Bool) (attempt : Attempt) (h : Heap)
      → ((h' : Heap) → Grows h h' → IsGuarded Any h' again)
      → IsGuarded Any h kicks
      → IsGuarded Any h (continue_insert again kicks attempt)
  unfolding continue_insert
  continue_insert-IsGuarded again kicks stored h rest ok = tt
  continue_insert-IsGuarded again kicks lost h rest ok = rest h (λ p live. live)
  continue_insert-IsGuarded again kicks full h rest ok =
      IsGuarded->>= Any Any kicks _ h ok
        (λ h₁ g₁ relocated _. IsGuarded-if relocated _ _ Any h₁ (λ _. rest h₁ g₁) (λ _. tt))

  insert_rounds-IsGuarded :
      (fuel : ℕ) (orders : ℕ → List ℕ) (round : ℕ) (entry : Address) (hash1 hash2 : ℕ) (h : Heap)
      → IsFresh h entry
      → IsGuarded Any h (insert_rounds n tid fuel orders round entry hash1 hash2)
  unfolding insert_rounds
  insert_rounds-IsGuarded zero orders round entry hash1 hash2 h fresh = tt
  insert_rounds-IsGuarded (suc fuel) orders round entry hash1 hash2 h fresh =
      IsGuarded->>= Any Any (try_slots entry hash1 hash2 num_items_per_entry 0 false) _ h
        (try_slots-IsGuarded entry hash1 hash2 num_items_per_entry 0 false h fresh)
        (λ h₁ g₁ attempt _.
          continue_insert-IsGuarded (insert_rounds n tid fuel orders (round + 1) entry hash1 hash2)
            (try_kicks n tid (suc fuel) hash1 (orders round)) attempt h₁
            (λ h₂ g₂.
              insert_rounds-IsGuarded fuel orders (round + 1) entry hash1 hash2 h₂
                (fresh.0, g₂ entry (g₁ entry fresh.1)))
            (try_kicks-IsGuarded (suc fuel) hash1 (orders round) h₁))

  pub insert-IsGuarded :
      (fuel : ℕ) (d : Digest) (orders : ℕ → List ℕ) (key : List ℕ) (h : Heap)
      → IsGuarded Any h (insert n tid fuel d orders key)
  unfolding insert clear_hazard mark_hazard
  insert-IsGuarded fuel d orders key h = λ h₁ g₁ entry fresh.
      insert_rounds-IsGuarded fuel orders 0 entry (jenkins_hash key % n)
        (get_next_hash_index n (jenkins_hash key % n) (md5_fingerprint d key)) h₁ fresh

  look_at-IsGuarded :
      (fuel : ℕ) (fingerprint : Fingerprint) (b slot : ℕ) (ptr : TablePointer) (h : Heap)
      → IsGood h ptr
      → IsGuarded Any h (look_at n tid fuel fingerprint b slot ptr)
  unfolding look_at
  look_at-IsGuarded fuel fingerprint b slot ptr h good =
      elim (Bool-cases (get_real_pointer ptr == 0)) [
        | inl e ↦ rw e tt
        | inr e ↦ rw e (
            IsGuarded-if (get_marked ptr) _ _ Any h
              (λ _.
                IsGuarded->>= Any Any (help_relocate n tid fuel b slot false) _ h
                  (help_relocate-IsGuarded n tid fuel b slot false h) (λ h₁ g₁ _ _. tt))
              (λ _. (IsGood-IsLive good (nonnull (get_real_pointer ptr) e), λ h₁ g₁ str. tt)))
      ]
    where
      nonnull : (p : ℕ) → (p == 0) ≡ false → p ≢ 0
      nonnull p e = ground arith

  continue_second-IsGuarded :
      (again : Program (Option (ℕ × TablePointer))) (hash1 hash2 slot : ℕ)
      (ptr1 ptr2 : TablePointer) (second : Look) (h : Heap)
      → ((h' : Heap) → IsGuarded Any h' again)
      → IsGuarded Any h (continue_second again hash1 hash2 slot ptr1 ptr2 second)
  unfolding continue_second
  continue_second-IsGuarded again hash1 hash2 slot ptr1 ptr2 hit h rest = tt
  continue_second-IsGuarded again hash1 hash2 slot ptr1 ptr2 helped h rest = rest h
  continue_second-IsGuarded again hash1 hash2 slot ptr1 ptr2 miss h rest =
      λ h₁ g₁ word1 _ h₂ g₂ word2 _.
        IsGuarded-if
          (check_counter (get_counter ptr1) (get_counter ptr2) (get_counter word1)
            (get_counter word2))
          _ _ Any h₂ (λ _. rest h₂) (λ _. tt)

  continue_first-IsGuarded :
      (fuel : ℕ) (fingerprint : Fingerprint) (again : Program (Option (ℕ × TablePointer)))
      (hash1 hash2 slot : ℕ) (ptr1 : TablePointer) (first : Look) (h : Heap)
      → ((h' : Heap) → IsGuarded Any h' again)
      → IsGuarded Any h (continue_first n tid fuel fingerprint again hash1 hash2 slot ptr1 first)
  unfolding continue_first mark_hazard
  continue_first-IsGuarded fuel fingerprint again hash1 hash2 slot ptr1 hit h rest = tt
  continue_first-IsGuarded fuel fingerprint again hash1 hash2 slot ptr1 helped h rest = rest h
  continue_first-IsGuarded fuel fingerprint again hash1 hash2 slot ptr1 miss h rest =
      λ h₁ g₁ ptr2 good₁.
        IsGuarded->>= Any Any (look_at n tid fuel fingerprint hash2 slot ptr2) _ h₁
          (look_at-IsGuarded fuel fingerprint hash2 slot ptr2 h₁ good₁)
          (λ h₂ g₂ second _.
            continue_second-IsGuarded again hash1 hash2 slot ptr1 ptr2 second h₂ rest)

  find_slot-IsGuarded :
      (fuel : ℕ) (fingerprint : Fingerprint) (hash1 hash2 slot : ℕ) (h : Heap)
      → IsGuarded Any h (find_slot n tid fuel fingerprint hash1 hash2 slot)
  unfolding find_slot mark_hazard
  find_slot-IsGuarded zero fingerprint hash1 hash2 slot h = tt
  find_slot-IsGuarded (suc fuel) fingerprint hash1 hash2 slot h = λ h₁ g₁ ptr1 good₁.
      IsGuarded->>= Any Any (look_at n tid (suc fuel) fingerprint hash1 slot ptr1) _ h₁
        (look_at-IsGuarded (suc fuel) fingerprint hash1 slot ptr1 h₁ good₁)
        (λ h₂ g₂ first _.
          continue_first-IsGuarded (suc fuel) fingerprint
            (find_slot n tid fuel fingerprint hash1 hash2 slot) hash1 hash2 slot ptr1 first h₂
            (find_slot-IsGuarded fuel fingerprint hash1 hash2 slot))

  continue_find-IsGuarded :
      (next : Program (ℕ × TablePointer)) (found : Option (ℕ × TablePointer)) (h : Heap)
      → IsGuarded Any h next
      → IsGuarded Any h (continue_find next found)
  unfolding continue_find
  continue_find-IsGuarded next none h rest = rest
  continue_find-IsGuarded next (some result) h rest = tt

  find_slots-IsGuarded :
      (fuel : ℕ) (fingerprint : Fingerprint) (hash1 hash2 left slot : ℕ) (pointer : TablePointer)
      (h : Heap)
      → IsGuarded Any h (find_slots n tid fuel fingerprint hash1 hash2 left slot pointer)
  unfolding find_slots
  find_slots-IsGuarded fuel fingerprint hash1 hash2 zero slot pointer h = tt
  find_slots-IsGuarded fuel fingerprint hash1 hash2 (suc left) slot pointer h =
      IsGuarded->>= Any Any (find_slot n tid fuel fingerprint hash1 hash2 slot) _ h
        (find_slot-IsGuarded fuel fingerprint hash1 hash2 slot h)
        (λ h₁ g₁ found _.
          continue_find-IsGuarded
            (find_slots n tid fuel fingerprint hash1 hash2 left (slot + 1) pointer) found h₁
            (find_slots-IsGuarded fuel fingerprint hash1 hash2 left (slot + 1) pointer h₁))

  find_pointer-IsGuarded :
      (fuel : ℕ) (d : Digest) (key : List ℕ) (pointer : TablePointer) (h : Heap)
      → IsGuarded Any h (find_pointer n tid fuel d key pointer)
  unfolding find_pointer clear_hazard mark_hazard
  find_pointer-IsGuarded fuel d key pointer h =
      find_slots-IsGuarded fuel (md5_fingerprint d key) (jenkins_hash key % n)
        (get_next_hash_index n (jenkins_hash key % n) (md5_fingerprint d key)) num_items_per_entry 0
        pointer h

  pub find-IsGuarded :
      (fuel : ℕ) (d : Digest) (key : List ℕ) (h : Heap) → IsGuarded Any h (find n tid fuel d key)
  unfolding find
  find-IsGuarded fuel d key h =
      IsGuarded->>= Any Any (find_pointer n tid fuel d key 0) _ h
        (find_pointer-IsGuarded fuel d key 0 h) (λ h₁ g₁ r _. tt)

  remove_rounds-IsGuarded :
      (rounds fuel : ℕ) (d : Digest) (key : List ℕ) (hash1 hash2 : ℕ) (ptr : TablePointer)
      (h : Heap)
      → IsGuarded Any h (remove_rounds n tid rounds fuel d key hash1 hash2 ptr)
  unfolding remove_rounds retire_key
  remove_rounds-IsGuarded zero fuel d key hash1 hash2 ptr h = tt
  remove_rounds-IsGuarded (suc rounds) fuel d key hash1 hash2 ptr h =
      IsGuarded->>= Any Any (find_pointer n tid fuel d key ptr) _ h
        (find_pointer-IsGuarded fuel d key ptr h)
        (λ h₁ g₁ r _.
          IsGuarded-if (r.0 == num_items_per_entry * 2) _ _ Any h₁ (λ _. tt)
            (λ _.
              IsGuarded-created (get_counter r.1) 0 false _ Any h₁ (omega arith) (inl (refl, refl))
                (λ w made. (
                  made,
                  λ h₂ g₂ ok.
                      IsGuarded-if ok _ _ Any h₂ (λ _. tt)
                        (λ _. remove_rounds-IsGuarded rounds fuel d key hash1 hash2 r.1 h₂),
                ))))

  pub remove-IsGuarded :
      (fuel : ℕ) (d : Digest) (key : List ℕ) (h : Heap) → IsGuarded Any h (remove n tid fuel d key)
  unfolding remove clear_hazard mark_hazard
  remove-IsGuarded fuel d key h =
      remove_rounds-IsGuarded fuel fuel d key (jenkins_hash key % n)
        (get_next_hash_index n (jenkins_hash key % n) (md5_fingerprint d key)) 0 h
