-- ===== src/LockFree/Hazards.antt =====
-- free_hazard_pointers of cuckoo_filter/lock_free_filter.cpp and the hazard pointers of the threads.
use native.Mathlib.Decide.{ℕ_discrete}
use lock_free_cuckoo_filter.Prelude.{
  ◌≤◌, ℕ, zero, suc, ◌+◌, ◌<◌, ◌≡◌, ◌≢◌, refl, sym, ap, ◌∙◌, inl, inr, true, Option, none, some,
  List, [], ◌∷◌, get_or, set, take, length, Bool-cases, Option-cases, ◌==◌, arith,
}
use lock_free_cuckoo_filter.Table.{Fingerprint}
use lock_free_cuckoo_filter.LockFree.Program.{Address}
use lock_free_cuckoo_filter.LockFree.Memory.{max_hazard_pointer_count}
use lock_free_cuckoo_filter.LockFree.Lifecycle.{
  LockFreeCuckooFilter, delete_entry, contains, record_thread, record_hazards, Sweep,
  free_hazard_pointers,
}
use lock_free_cuckoo_filter.LockFree.Reclaim.{Heap, kept, delete_rest, Swept, sweep_loop-Swept}

-- The filter with this heap and this list of retired pointers for `tid`
abbrev pub reclaimed : ℕ → LockFreeCuckooFilter → List Address → Heap → LockFreeCuckooFilter
reclaimed tid f retired heap = record f {
  memory = record (f.memory) { retired_ptrs = set f.memory.retired_ptrs tid retired; heap = heap };
}

collect :
    (tid : ℕ) (f : LockFreeCuckooFilter) (expected : List Address) (o : Option Heap)
    (r : Option Sweep)
    → Swept expected o r
    → ◌≡◌ {A = Option LockFreeCuckooFilter}
        (elim r [
          | none ↦ none
          | some s ↦ some (reclaimed tid f (take s.new_count s.retired) s.heap)
        ])
        (elim o [ none ↦ none | some heap ↦ some (reclaimed tid f expected heap) ])
unfolding Swept
collect tid f expected none none w = refl
collect tid f expected none (some s) w = absurd w
collect tid f expected (some heap) none w = absurd w
collect tid f expected (some heap) (some s) w = λ i. some (reclaimed tid f (w.1 i) (w.0 i))

pub free_hazard_pointers-kept :
    (tid n : ℕ) (f : LockFreeCuckooFilter)
    → f.thread_count ≡ some n
    → let hazards = record_hazards n 0 f.memory.hazard_ptrs [] in
      let retired = get_or f.memory.retired_ptrs tid [] in
      free_hazard_pointers tid f ≡ elim (delete_rest hazards retired f.memory.heap) [
        | none ↦ none
        | some heap ↦ some (reclaimed tid f (kept hazards retired) heap)
      ]
unfolding free_hazard_pointers
free_hazard_pointers-kept tid n f e =
    let hazards = record_hazards n 0 f.memory.hazard_ptrs [] in
    let retired = get_or f.memory.retired_ptrs tid [] in
    rw (e, free_hazard_pointers)
      (collect tid f (kept hazards retired) (delete_rest hazards retired f.memory.heap) _ (
        sweep_loop-Swept hazards (length retired) 0
          (record { new_count = 0; retired = retired; heap = f.memory.heap }) (omega arith)
          (omega arith)))

heap_eq : {h h' : Heap} → ◌≡◌ {A = Option Heap} (some h) (some h') → h ≡ h'
heap_eq {h} e = ap (λ (o : Option Heap). elim o [ none ↦ h | some x ↦ x ]) e

delete_entry-other :
    (p q : Address) (heap heap' : Heap)
    → q ≢ p
    → delete_entry p heap ≡ some heap'
    → heap' q ≡ heap q
unfolding delete_entry
delete_entry-other p q heap heap' differ e = elim (Bool-cases (p == 0)) [
  | inl c ↦ ap (λ (h : Heap). h q) (sym (heap_eq (rw (c, delete_entry) at e)))
  | inr c ↦ elim (Option-cases (heap p)) [
    | inl d ↦ absurd (cc (rw (c, d, delete_entry) at e))
    | inr (str, d) ↦
        ap (λ (h : Heap). h q) (sym (heap_eq (rw (c, d, delete_entry) at e))) ∙ ground arith
  ]
]

delete_rest-survives :
    (hazards ps : List Address) (heap heap' : Heap) (q : Address)
    → contains q hazards ≡ true
    → delete_rest hazards ps heap ≡ some heap'
    → heap' q ≡ heap q
unfolding delete_rest
delete_rest-survives hazards [] heap heap' q c e = ap (λ (h : Heap). h q) (sym (heap_eq e))
delete_rest-survives hazards (p ∷ ps) heap heap' q c e = elim (Bool-cases (contains p hazards)) [
  | inl d ↦ delete_rest-survives hazards ps heap heap' q c (rw (d, delete_rest) at e)
  | inr d ↦ elim (Option-cases (delete_entry p heap)) [
    | inl none_there ↦ absurd (cc (rw (d, none_there, delete_rest) at e))
    | inr (heap₁, there) ↦
        let differ : q ≢ p = λ same. cc (c, d, ap (λ (x : Address). contains x hazards) same) in
        delete_rest-survives hazards ps heap₁ heap' q c (rw (d, there, delete_rest) at e)
        ∙ delete_entry-other p q heap heap₁ differ there
  ]
]

contains_more :
    (ps acc : List Address) (q : Address)
    → contains q acc ≡ true
    → contains q (record_thread ps acc) ≡ true
unfolding contains record_thread
contains_more [] acc q c = c
contains_more (p ∷ ps) acc q c =
    contains_more ps _ q
      (elim (Bool-cases (p == 0)) [ inl z ↦ rw z c | inr z ↦ rw (z, c) (ground arith) ])

record_thread-all :
    (ps acc : List Address) (i : ℕ)
    → get_or ps i 0 ≢ 0
    → contains (get_or ps i 0) (record_thread ps acc) ≡ true
unfolding contains record_thread
record_thread-all [] acc i h = absurd (h refl)
record_thread-all (p ∷ ps) acc zero h = contains_more ps _ p (ground arith)
record_thread-all (p ∷ ps) acc (suc i) h = record_thread-all ps _ i h

record_hazards-more :
    (left i : ℕ) (rows : List (List Address)) (acc : List Address) (q : Address)
    → contains q acc ≡ true
    → contains q (record_hazards left i rows acc) ≡ true
unfolding record_hazards
record_hazards-more zero i rows acc q c = c
record_hazards-more (suc left) i rows acc q c =
    record_hazards-more left (i + 1) rows _ q
      (contains_more (take max_hazard_pointer_count (get_or rows i [])) acc q c)

get_or-take : (xs : List Address) (k i : ℕ) → i < k → get_or (take k xs) i 0 ≡ get_or xs i 0
get_or-take xs zero i lt = absurd (omega (arith, lt))
get_or-take [] (suc k) i lt = refl
get_or-take (x ∷ xs) (suc k) zero lt = refl
get_or-take (x ∷ xs) (suc k) (suc i) lt = get_or-take xs k i (omega (arith, lt))

-- The set holds every hazard pointer of every thread.
record_hazards-all :
    (left i : ℕ) (rows : List (List Address)) (acc : List Address) (j k : ℕ)
    → i ≤ j
    → j < i + left
    → k < max_hazard_pointer_count
    → get_or (get_or rows j []) k 0 ≢ 0
    → contains (get_or (get_or rows j []) k 0) (record_hazards left i rows acc) ≡ true
unfolding record_hazards
record_hazards-all zero i rows acc j k lo hi lt h = absurd (omega (arith, lo, hi))
record_hazards-all (suc left) i rows acc j k lo hi lt h = elim (ℕ_discrete j i) [
  | yes same ↦
      let row = take max_hazard_pointer_count (get_or rows j []) in
      let here : get_or row k 0 ≡ get_or (get_or rows j []) k 0 =
        get_or-take (get_or rows j []) max_hazard_pointer_count k lt in
      record_hazards-more left (i + 1) rows _ _
        (rw (sym same) (rw (sym here) (record_thread-all row acc k (λ z. h (sym here ∙ z)))))
  | no other ↦
      record_hazards-all left (i + 1) rows _ j k (omega (arith, lo, other)) (omega (arith, hi)) lt h
]

-- Where free_hazard_pointers ends on a filter whose thread count is assigned, the entry that a
-- hazard pointer of any of the threads names is in the heap as it was.
pub hazards_survive :
    (tid n j k : ℕ) (f f' : LockFreeCuckooFilter)
    → f.thread_count ≡ some n
    → j < n
    → k < max_hazard_pointer_count
    → free_hazard_pointers tid f ≡ some f'
    → let p = get_or (get_or f.memory.hazard_ptrs j []) k 0 in
      p ≢ 0 → f'.memory.heap p ≡ f.memory.heap p
hazards_survive tid n j k f f' e lt lt' freed h =
    let hazards = record_hazards n 0 f.memory.hazard_ptrs [] in
    let retired = get_or f.memory.retired_ptrs tid [] in
    let p = get_or (get_or f.memory.hazard_ptrs j []) k 0 in
    let c =
      record_hazards-all n 0 f.memory.hazard_ptrs [] j k (omega arith) (omega (arith, lt)) lt' h in
    let result = sym (free_hazard_pointers-kept tid n f e) ∙ freed in
    elim (Option-cases (delete_rest hazards retired f.memory.heap)) [
      | inl d ↦ absurd (cc (rw d at result))
      | inr (heap, d) ↦
          ap heap_at (sym (rw d at result))
          ∙ delete_rest-survives hazards retired f.memory.heap heap p c d
    ]
  where
    heap_at : Option LockFreeCuckooFilter → Option Fingerprint
    heap_at none = none
    heap_at (some g) = g.memory.heap (get_or (get_or f.memory.hazard_ptrs j []) k 0)
