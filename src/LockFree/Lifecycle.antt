-- ===== src/LockFree/Lifecycle.antt =====
-- The lock-free filter as an object: constructors, destructor, `reset`, and the reclamation of
-- retired entries, each as one step in which no other thread acts.
use lock_free_cuckoo_filter.Prelude.{
  ℕ, zero, suc, ◌+◌, Bool, false, Option, none, some, List, [], ◌∷◌, get_or, set, take, replicate,
  length, ◌==◌, ◌||◌, if◌then◌else◌,
}
use lock_free_cuckoo_filter.Common.{num_items_per_entry}
use lock_free_cuckoo_filter.Pointer.{TablePointer, get_real_pointer}
use lock_free_cuckoo_filter.Table.{Fingerprint}
use lock_free_cuckoo_filter.LockFree.Program.{Address}
use lock_free_cuckoo_filter.LockFree.Memory.{Memory, new_memory, max_hazard_pointer_count}

-- `thread_count` is `none` until it is assigned: the constructors leave it out.
pub record LockFreeCuckooFilter : Type 0 where
  pub table_size : ℕ
  pub thread_count : Option ℕ
  pub verbose : Bool
  pub memory : Memory

-- The constructors; the one without a `_verbose` passes false. `none` is the abort on a capacity
-- that is not positive.
unfoldable pub construct : ℕ → ℕ → Bool → Option LockFreeCuckooFilter
unfolding new_memory
construct capacity thread_count verbose =
    if capacity == 0
    then none
    else some (record {
      table_size = capacity;
      thread_count = none;
      verbose = verbose;
      memory = new_memory capacity thread_count;
    })

-- `delete` of an entry. To delete null does nothing; to delete what is no entry is undefined: `none`.
unfoldable pub delete_entry :
    Address → (Address → Option Fingerprint) → Option (Address → Option Fingerprint)
delete_entry p heap =
    if p == 0
    then some heap
    else elim (heap p) [ none ↦ none | some str ↦ some (λ q. if q == p then none else heap q) ]

-- The loops over the table in the destructor and in `reset`
unfoldable pub delete_bucket :
    List TablePointer → (Address → Option Fingerprint) → Option (Address → Option Fingerprint)
unfolding delete_entry
delete_bucket [] heap = some heap
delete_bucket (w ∷ ws) heap =
    if get_real_pointer w == 0
    then delete_bucket ws heap
    else elim (delete_entry (get_real_pointer w) heap) [
      | none ↦ none
      | some heap' ↦ delete_bucket ws heap'
    ]

unfoldable pub delete_table :
    List (List TablePointer)
    → (Address → Option Fingerprint)
    → Option (Address → Option Fingerprint)
unfolding delete_bucket
delete_table [] heap = some heap
delete_table (b ∷ bs) heap = elim (delete_bucket b heap) [
  | none ↦ none
  | some heap' ↦ delete_table bs heap'
]

-- The destructor, with the heap that it leaves
unfoldable pub destroy : LockFreeCuckooFilter → Option (Address → Option Fingerprint)
unfolding delete_table
destroy f = delete_table f.memory.hash_table f.memory.heap

unfoldable pub size : LockFreeCuckooFilter → ℕ
size f = f.table_size

unfoldable pub change_verbose : Bool → LockFreeCuckooFilter → LockFreeCuckooFilter
change_verbose verbose f = record f { verbose = verbose }

unfoldable pub reset : ℕ → ℕ → LockFreeCuckooFilter → Option LockFreeCuckooFilter
unfolding delete_table
reset capacity thread_count f = elim (delete_table f.memory.hash_table f.memory.heap) [
  | none ↦ none
  | some heap ↦ some (record {
    table_size = capacity;
    thread_count = some thread_count;
    verbose = f.verbose;
    memory = record {
      hash_table = replicate capacity (replicate num_items_per_entry 0);
      hazard_ptrs = replicate thread_count (replicate max_hazard_pointer_count 0);
      retired_ptrs = replicate thread_count [];
      heap = heap;
      fresh = f.memory.fresh;
    };
  })
]

-- `hazard_record.count(p)`
unfoldable pub contains : Address → List Address → Bool
contains p [] = false
contains p (q ∷ qs) = p == q || contains p qs

-- The pointers of one thread that are not null, put into the set
unfoldable pub record_thread : List Address → List Address → List Address
record_thread [] hazard_record = hazard_record
record_thread (p ∷ ps) hazard_record =
    record_thread ps (if p == 0 then hazard_record else p ∷ hazard_record)

unfoldable pub record_hazards : (left i : ℕ) → List (List Address) → List Address → List Address
unfolding record_thread
record_hazards zero i hazard_ptrs hazard_record = hazard_record
record_hazards (suc left) i hazard_ptrs hazard_record =
    record_hazards left (i + 1) hazard_ptrs
      (record_thread (take max_hazard_pointer_count (get_or hazard_ptrs i [])) hazard_record)

-- The local variables of the loop that compacts the list of retired pointers in place, and the heap.
pub record Sweep : Type 0 where
  pub new_count : ℕ
  pub retired : List Address
  pub heap : Address → Option Fingerprint

unfoldable pub sweep_loop : List Address → (left i : ℕ) → Sweep → Option Sweep
unfolding contains delete_entry
sweep_loop hazard_record zero i s = some s
sweep_loop hazard_record (suc left) i s =
    let p = get_or s.retired i 0 in
    let kept =
      sweep_loop hazard_record left (i + 1)
        (record s { new_count = s.new_count + 1; retired = set s.retired s.new_count p }) in
    if contains p hazard_record then kept else elim (delete_entry p s.heap) [
      | none ↦ none
      | some heap ↦ sweep_loop hazard_record left (i + 1) (record s { heap = heap })
    ]

-- `free_hazard_pointers`. It reads `thread_count`: undefined, `none`, while that is unassigned.
unfoldable pub free_hazard_pointers : ℕ → LockFreeCuckooFilter → Option LockFreeCuckooFilter
unfolding record_hazards sweep_loop
free_hazard_pointers tid f = elim f.thread_count [
  | none ↦ none
  | some thread_count ↦
      let hazard_record = record_hazards thread_count 0 f.memory.hazard_ptrs [] in
      let retired = get_or f.memory.retired_ptrs tid [] in
      elim (sweep_loop hazard_record (length retired) 0
        (record { new_count = 0; retired = retired; heap = f.memory.heap })) [
          | none ↦ none
          | some s ↦ some (record f {
            memory = record (f.memory) {
              retired_ptrs = set f.memory.retired_ptrs tid (take s.new_count s.retired);
              heap = s.heap;
            };
          })
        ]
]
