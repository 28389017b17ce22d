-- ===== src/LockFree/Relocate.antt =====
-- `help_relocate` and `relocate`. The loops that retry run on `fuel`, the rounds that they may take.
use lock_free_cuckoo_filter.Prelude.{
  ℕ, zero, suc, ◌+◌, ◌-◌, Bool, true, false, not, ◌&&◌, Option, none, some, List, get_or, set,
  replicate, ltb, ◌==◌, if◌then◌else◌,
}
use lock_free_cuckoo_filter.Common.{num_max_kicks}
use lock_free_cuckoo_filter.Hash.{jenkins_hash}
use lock_free_cuckoo_filter.Index.{next_index}
use lock_free_cuckoo_filter.Pointer.{
  TablePointer, get_counter, get_real_pointer, get_marked, get_new_mark, create_pointer,
}
use lock_free_cuckoo_filter.Table.{Fingerprint}
use lock_free_cuckoo_filter.LockFree.Program.{
  Program, done, out_of_fuel, ◌>>=◌, ◌>>◌, read_slot, compare_and_swap, entry_str, or_abort,
  mark_hazard, clear_hazard,
}

unfoldable pub get_next_hash_index : ℕ → ℕ → Fingerprint → ℕ
unfolding next_index jenkins_hash
get_next_hash_index table_size curr_idx fingerprint =
    next_index table_size curr_idx (jenkins_hash fingerprint)

-- What the path discovery leaves: the local variables `found`, `depth`, `route` and `table_idx`.
pub record Discovery : Type 0 where
  pub found : Bool
  pub depth : ℕ
  pub route : List ℕ
  pub table_idx : ℕ

module _ (n tid : ℕ) where
  -- The initiator's inner loop: mark the slot. `none` is the return on an empty slot.
  unfoldable pub mark_source : ℕ → ℕ → ℕ → Bool → TablePointer → Program (Option TablePointer)
  unfolding mark_hazard
  mark_source zero b i initiator ptr1 = out_of_fuel
  mark_source (suc fuel) b i initiator ptr1 =
      let again = (do
        _ ← compare_and_swap b i ptr1 (get_new_mark ptr1 true)
        next ← read_slot b i
        mark_hazard (get_real_pointer next) 0 tid
        mark_source fuel b i initiator next) in
      if initiator && not (get_marked ptr1)
      then if get_real_pointer ptr1 == 0 then done none else again
      else done (some ptr1)

  -- The end of a round, where the item was not moved by this thread.
  unfoldable pub give_up : ℕ → ℕ → TablePointer → TablePointer → Program (Unit {0})
  give_up new_hash i ptr1 ptr2 =
      if get_real_pointer ptr1 == get_real_pointer ptr2
      then (do
        w ← or_abort (create_pointer (get_counter ptr1 + 1) 0 false)
        _ ← compare_and_swap new_hash i ptr1 w
        done tt)
      else (do
        w ← or_abort (create_pointer (get_counter ptr1 + 1) (get_real_pointer ptr1) true)
        _ ← compare_and_swap new_hash i ptr1 w
        done tt)

  -- The move into an empty destination, and the clearing of the source.
  unfoldable pub move_item : ℕ → ℕ → ℕ → TablePointer → TablePointer → Program (Unit {0})
  unfolding give_up
  move_item b new_hash i ptr1 ptr2 =
      let counter1 = get_counter ptr1 in
      let counter2 = get_counter ptr2 in
      let n_count = (if ltb counter2 counter1 then counter1 + 1 else counter2 + 1) in
      do
        w ← or_abort (create_pointer n_count (get_real_pointer ptr1) false)
        swapped ← compare_and_swap new_hash i ptr2 w
        (if swapped
            then (do
              cleared ← or_abort (create_pointer (counter1 + 1) 0 false)
              _ ← compare_and_swap b i ptr1 cleared
              done tt)
            else give_up new_hash i ptr1 ptr2)

  -- The round of `help_relocate` after the inner loop; `again` is the loop's next round.
  unfoldable pub relocate_marked :
      Program (Unit {0}) → ℕ → ℕ → Option TablePointer → Program (Unit {0})
  unfolding move_item give_up get_next_hash_index mark_hazard
  relocate_marked again b i none = done tt
  relocate_marked again b i (some ptr1) = if not (get_marked ptr1) then done tt else (do
    str ← entry_str (get_real_pointer ptr1)
    let new_hash = get_next_hash_index n b str
    ptr2 ← read_slot new_hash i
    mark_hazard (get_real_pointer ptr2) 1 tid
    (if get_real_pointer ptr2 == 0
        then (do
          now ← read_slot b i
          (if not (ptr1 == now) then again else move_item b new_hash i ptr1 ptr2))
        else give_up new_hash i ptr1 ptr2))

  unfoldable pub help_rounds : ℕ → ℕ → ℕ → Bool → Program (Unit {0})
  unfolding mark_source relocate_marked mark_hazard
  help_rounds zero b i initiator = out_of_fuel
  help_rounds (suc fuel) b i initiator =
      let again = help_rounds fuel b i initiator in
      do
        first ← read_slot b i
        mark_hazard (get_real_pointer first) 0 tid
        source ← mark_source (suc fuel) b i initiator first
        relocate_marked again b i source

  unfoldable pub help_relocate : ℕ → ℕ → ℕ → Bool → Program (Unit {0})
  unfolding clear_hazard help_rounds
  help_relocate fuel table_idx slot_idx initiator =
      clear_hazard tid >> help_rounds fuel table_idx slot_idx initiator

  -- `while (get_marked(ptr1))` of the path discovery
  unfoldable pub help_until_unmarked : ℕ → ℕ → ℕ → TablePointer → Program TablePointer
  unfolding help_relocate
  help_until_unmarked zero b i ptr1 = out_of_fuel
  help_until_unmarked (suc fuel) b i ptr1 =
      let again = (do
        help_relocate (suc fuel) b i false
        next ← read_slot b i
        help_until_unmarked fuel b i next) in
      if get_marked ptr1 then again else done ptr1

  -- The `do` loop of the path discovery, with the rounds that are left.
  unfoldable pub discover :
      ℕ → (slot_idx left depth : ℕ) → List ℕ → (table_idx : ℕ) → Program Discovery
  unfolding help_until_unmarked mark_hazard get_next_hash_index
  discover fuel slot_idx zero depth route table_idx =
      done (record { found = false; depth = depth; route = route; table_idx = table_idx })
  discover fuel slot_idx (suc left) depth route table_idx = do
    first ← read_slot table_idx slot_idx
    mark_hazard (get_real_pointer first) 0 tid
    ptr1 ← help_until_unmarked fuel table_idx slot_idx first
    (if not (get_real_pointer ptr1 == 0)
        then (do
          str ← entry_str (get_real_pointer ptr1)
          discover fuel slot_idx left (depth + 1) (set route depth table_idx)
              (get_next_hash_index n table_idx str))
        else done (record { found = true; depth = depth; route = route; table_idx = table_idx }))

  -- The help that a marked source is given once before the traversal moves it
  unfoldable pub help_source : ℕ → ℕ → ℕ → TablePointer → Program TablePointer
  unfolding help_relocate
  help_source fuel source_idx slot_idx source_ptr =
      if get_marked source_ptr
      then (do help_relocate fuel source_idx slot_idx false; read_slot source_idx slot_idx)
      else done source_ptr

  -- The traversal of the path in reverse order, with `left` rounds to go: the loop's `i` is
  -- `left - 1`, and `last` is `depth` after its decrement. `some level` is the jump back to the path
  -- discovery with that start level.
  unfoldable pub move_back : ℕ → (slot_idx left last : ℕ) → List ℕ → Program (Option ℕ)
  unfolding help_source help_relocate mark_hazard get_next_hash_index
  move_back fuel slot_idx zero last route = done none
  move_back fuel slot_idx (suc left) last route =
      let source_idx = get_or route last 0 in
      do
        first ← read_slot source_idx slot_idx
        source_ptr ← help_source fuel source_idx slot_idx first
        (if get_real_pointer source_ptr == 0 then move_back fuel slot_idx left last route else (do
          str ← entry_str (get_real_pointer source_ptr)
          let dest_idx = get_next_hash_index n source_idx str
          dest_ptr ← read_slot dest_idx slot_idx
          mark_hazard (get_real_pointer dest_ptr) 1 tid
          (if not (get_real_pointer dest_ptr == 0) then done (some (left + 1)) else (do
            help_relocate fuel source_idx slot_idx true
            move_back fuel slot_idx left last route))))

  -- The function from the label `path_discovery` on. A path of length `depth` is traversed from its
  -- last place, `depth - 1`; a path of length 0 needs no move.
  unfoldable pub path_discovery : ℕ → (table_idx slot_idx start_level : ℕ) → Program Bool
  unfolding discover move_back
  path_discovery zero table_idx slot_idx start_level = out_of_fuel
  path_discovery (suc fuel) table_idx slot_idx start_level = do
    path ←
        discover (suc fuel) slot_idx (num_max_kicks - start_level) start_level
          (replicate num_max_kicks 0) table_idx
    (if path.found
        then (do
          jump ← move_back (suc fuel) slot_idx path.depth (path.depth - 1) path.route
          elim jump [
            | none ↦ done true
            | some level ↦ path_discovery fuel path.table_idx slot_idx level
          ])
        else done false)

  unfoldable pub relocate : ℕ → ℕ → ℕ → Program Bool
  unfolding path_discovery
  relocate fuel table_idx slot_idx = path_discovery fuel table_idx slot_idx 0
