-- ===== src/LockFree/Methods.antt =====
-- `insert`, `find` and `remove`. The loops that retry run on `fuel`. The verbose output is left out.
use lock_free_cuckoo_filter.Prelude.{
  ℕ, zero, suc, ◌+◌, ◌*◌, ◌%◌, Bool, true, false, not, ◌&&◌, ◌||◌, Option, none, some, List, [],
  ◌∷◌, ltb, leb, ◌==◌, str_eq, if◌then◌else◌,
}
use lock_free_cuckoo_filter.Common.{num_items_per_entry}
use lock_free_cuckoo_filter.Hash.{Digest, jenkins_hash, md5_fingerprint}
use lock_free_cuckoo_filter.Pointer.{
  TablePointer, get_counter, get_real_pointer, get_marked, create_pointer,
}
use lock_free_cuckoo_filter.Table.{Fingerprint}
use lock_free_cuckoo_filter.LockFree.Program.{
  Address, Program, done, out_of_fuel, ◌>>=◌, ◌>>◌, read_slot, compare_and_swap, entry_str,
  new_entry, or_abort, mark_hazard, clear_hazard, retire_key,
}
use lock_free_cuckoo_filter.LockFree.Relocate.{get_next_hash_index, help_relocate, relocate}

-- `ts1x - ts1 >= 2` and so on, on `int`s that hold counters
unfoldable pub check_counter : ℕ → ℕ → ℕ → ℕ → Bool
check_counter ts1 ts2 ts1x ts2x = leb (ts1 + 2) ts1x && (leb (ts2 + 2) ts2x && leb (ts1 + 3) ts2x)

-- How one attempt of `insert` ended: the item was stored, an empty slot was seen but lost to another
-- thread, or no slot was empty.
pub data Attempt : Type 0 where
  stored lost full : Attempt

-- One slot of the loop: `none` if it is taken, and otherwise whether the swap succeeded.
unfoldable pub try_slot : Address → ℕ → ℕ → Program (Option Bool)
try_slot entry b i = do
  ptr1 ← read_slot b i
  (if get_real_pointer ptr1 == 0
      then (do
        w ← or_abort (create_pointer (get_counter ptr1) entry false)
        swapped ← compare_and_swap b i ptr1 w
        done (some swapped))
      else done none)

-- The swap succeeded.
abbrev pub swapped : Option Bool → Bool
swapped (some true) = true
swapped _ = false

abbrev pub is_some : Option Bool → Bool
is_some none = false
is_some (some b) = true

-- The loop over the slots, with the rounds that are left; `found_empty` is the local variable.
unfoldable pub try_slots : Address → (hash1 hash2 left i : ℕ) → Bool → Program Attempt
unfolding try_slot
try_slots entry hash1 hash2 zero i found_empty = done (if found_empty then lost else full)
try_slots entry hash1 hash2 (suc left) i found_empty = do
  first ← try_slot entry hash1 i
  (if swapped first then done stored else (do
    other ← try_slot entry hash2 i
    (if swapped other
        then done stored
        else try_slots entry hash1 hash2 left (i + 1)
            (found_empty || (is_some first || is_some other)))))

-- How `insert` goes on after an attempt: `again` is its next round, and `kicks` tries to relocate.
unfoldable pub continue_insert : Program Bool → Program Bool → Attempt → Program Bool
continue_insert again kicks stored = done true
continue_insert again kicks lost = again
continue_insert again kicks full = do relocated ← kicks; (if relocated then again else done false)

-- What the search of one bucket's slot says: the item is there, a marked item was helped, or neither.
pub data Look : Type 0 where
  hit helped miss : Look

-- How `find` goes on after its look at the second bucket: a miss is checked by the counters.
unfoldable pub continue_second :
    Program (Option (ℕ × TablePointer))
    → (hash1 hash2 slot : ℕ) → (ptr1 ptr2 : TablePointer) → Look
    → Program (Option (ℕ × TablePointer))
unfolding check_counter
continue_second again hash1 hash2 slot ptr1 ptr2 hit =
    done (some (slot + num_items_per_entry, ptr2))
continue_second again hash1 hash2 slot ptr1 ptr2 helped = again
continue_second again hash1 hash2 slot ptr1 ptr2 miss = do
  word1 ← read_slot hash1 slot
  word2 ← read_slot hash2 slot
  (if check_counter (get_counter ptr1) (get_counter ptr2) (get_counter word1) (get_counter word2)
      then again
      else done none)

-- How `find` goes on after a slot; `next` is its loop from the next slot on.
unfoldable pub continue_find :
    Program (ℕ × TablePointer) → Option (ℕ × TablePointer) → Program (ℕ × TablePointer)
continue_find next none = next
continue_find next (some result) = done result

module _ (n tid : ℕ) where
  -- The loop over `try_kick_order`, up to the first relocation that succeeds.
  unfoldable pub try_kicks : ℕ → ℕ → List ℕ → Program Bool
  unfolding relocate
  try_kicks fuel hash1 [] = done false
  try_kicks fuel hash1 (kick_slot ∷ order) = do
    relocated ← relocate n tid fuel hash1 kick_slot
    (if relocated then done true else try_kicks fuel hash1 order)

  -- The outer loop of `insert`. `orders r` is what `std::shuffle` makes of the four slots in round
  -- `r`.
  unfoldable pub insert_rounds :
      ℕ → (ℕ → List ℕ) → (round : ℕ) → Address → (hash1 hash2 : ℕ) → Program Bool
  unfolding try_slots try_kicks continue_insert
  insert_rounds zero orders round entry hash1 hash2 = out_of_fuel
  insert_rounds (suc fuel) orders round entry hash1 hash2 =
      let again = insert_rounds fuel orders (round + 1) entry hash1 hash2 in
      try_slots entry hash1 hash2 num_items_per_entry 0 false
      >>= continue_insert again (try_kicks (suc fuel) hash1 (orders round))

  unfoldable pub insert : ℕ → Digest → (ℕ → List ℕ) → List ℕ → Program Bool
  unfolding clear_hazard insert_rounds get_next_hash_index md5_fingerprint jenkins_hash
  insert fuel d orders key = do
    clear_hazard tid
    let fingerprint = md5_fingerprint d key
    entry ← new_entry fingerprint
    let hash1 = jenkins_hash key % n
    let hash2 = get_next_hash_index n hash1 fingerprint
    insert_rounds fuel orders 0 entry hash1 hash2

  unfoldable pub look_at : ℕ → Fingerprint → ℕ → ℕ → TablePointer → Program Look
  unfolding help_relocate
  look_at fuel fingerprint b slot ptr =
      if not (get_real_pointer ptr == 0)
      then if get_marked ptr then (do help_relocate n tid fuel b slot false; done helped) else (do
        str ← entry_str (get_real_pointer ptr)
        done (if str_eq fingerprint str then hit else miss))
      else done miss

  -- How `find` goes on after its look at the first bucket; `again` is its next round.
  unfoldable pub continue_first :
      ℕ
      → Fingerprint
      → Program (Option (ℕ × TablePointer))
      → (hash1 hash2 slot : ℕ) → TablePointer
      → Look
      → Program (Option (ℕ × TablePointer))
  unfolding look_at mark_hazard continue_second
  continue_first fuel fingerprint again hash1 hash2 slot ptr1 hit = done (some (slot, ptr1))
  continue_first fuel fingerprint again hash1 hash2 slot ptr1 helped = again
  continue_first fuel fingerprint again hash1 hash2 slot ptr1 miss = do
    ptr2 ← read_slot hash2 slot
    mark_hazard (get_real_pointer ptr2) 1 tid
    second ← look_at fuel fingerprint hash2 slot ptr2
    continue_second again hash1 hash2 slot ptr1 ptr2 second

  -- The inner loop of `find` at one slot. `none` is its `break`.
  unfoldable pub find_slot :
      ℕ → Fingerprint → (hash1 hash2 slot : ℕ) → Program (Option (ℕ × TablePointer))
  unfolding look_at mark_hazard continue_first
  find_slot zero fingerprint hash1 hash2 slot = out_of_fuel
  find_slot (suc fuel) fingerprint hash1 hash2 slot =
      let again = find_slot fuel fingerprint hash1 hash2 slot in
      do
        ptr1 ← read_slot hash1 slot
        mark_hazard (get_real_pointer ptr1) 0 tid
        first ← look_at (suc fuel) fingerprint hash1 slot ptr1
        continue_first (suc fuel) fingerprint again hash1 hash2 slot ptr1 first

  -- The loop over the slots, with the rounds that are left.
  unfoldable pub find_slots :
      ℕ → Fingerprint → (hash1 hash2 left slot : ℕ) → TablePointer → Program (ℕ × TablePointer)
  unfolding find_slot continue_find
  find_slots fuel fingerprint hash1 hash2 zero slot pointer =
      done (num_items_per_entry * 2, pointer)
  find_slots fuel fingerprint hash1 hash2 (suc left) slot pointer =
      find_slot fuel fingerprint hash1 hash2 slot
      >>= continue_find (find_slots fuel fingerprint hash1 hash2 left (slot + 1) pointer)

  -- `find` with its reference parameter `pointer`, which is written only if the key is found
  unfoldable pub find_pointer : ℕ → Digest → List ℕ → TablePointer → Program (ℕ × TablePointer)
  unfolding clear_hazard find_slots get_next_hash_index md5_fingerprint jenkins_hash
  find_pointer fuel d key pointer = do
    clear_hazard tid
    let fingerprint = md5_fingerprint d key
    let hash1 = jenkins_hash key % n
    let hash2 = get_next_hash_index n hash1 fingerprint
    find_slots fuel fingerprint hash1 hash2 num_items_per_entry 0 pointer

  unfoldable pub find : ℕ → Digest → List ℕ → Program ℕ
  unfolding find_pointer
  find fuel d key = do (location, place_holder) ← find_pointer fuel d key 0; done location

  -- The loop of `remove`
  unfoldable pub remove_rounds :
      ℕ → ℕ → Digest → List ℕ → (hash1 hash2 : ℕ) → TablePointer → Program Bool
  unfolding find_pointer retire_key
  remove_rounds zero fuel d key hash1 hash2 ptr = out_of_fuel
  remove_rounds (suc rounds) fuel d key hash1 hash2 ptr = do
    (location, ptr1) ← find_pointer fuel d key ptr
    (if location == num_items_per_entry * 2 then done false else (do
      let hash_val = (if ltb location num_items_per_entry then hash1 else hash2)
      w ← or_abort (create_pointer (get_counter ptr1) 0 false)
      swapped ← compare_and_swap hash_val (location % num_items_per_entry) ptr1 w
      (if swapped
          then (do retire_key (get_real_pointer ptr1) tid; done true)
          else remove_rounds rounds fuel d key hash1 hash2 ptr1)))

  unfoldable pub remove : ℕ → Digest → List ℕ → Program Bool
  unfolding clear_hazard remove_rounds get_next_hash_index md5_fingerprint jenkins_hash
  remove fuel d key = do
    clear_hazard tid
    let fingerprint = md5_fingerprint d key
    let hash1 = jenkins_hash key % n
    let hash2 = get_next_hash_index n hash1 fingerprint
    remove_rounds fuel fuel d key hash1 hash2 0
