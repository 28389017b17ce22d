-- ===== src/LockFree/Bounds/Interleaving.antt =====
-- The accesses of interleaved threads of cuckoo_filter/lock_free_filter.cpp stay in the vectors.
use native.Mathlib.Decide.{ℕ_discrete}
use mathlib.Core.Logic.{ite}
use mathlib.Core.Path.{subst}
use lock_free_cuckoo_filter.Prelude.{
  ℕ, ◌<◌, ◌≤◌, ◌^◌, ◌≡◌, ◌∙◌, true, false, inl, inr, List, [], ◌∷◌, Bool-cases, Option-cases, ◌==◌,
  ltb, length, length-set, length-replicate, IsGrid, replicate-IsGrid, set_item-IsGrid, get_or,
  arith,
}
use lock_free_cuckoo_filter.Common.{num_items_per_entry}
use lock_free_cuckoo_filter.Hash.{Digest}
use lock_free_cuckoo_filter.LockFree.Program.{
  Program, done, aborted, out_of_fuel, reading, comparing, marking, dereferencing, allocating,
  retiring,
}
use lock_free_cuckoo_filter.LockFree.Memory.{
  Memory, new_memory, max_hazard_pointer_count, word_at, store_word, store_hazard, push_retired,
  allocate, Progress, moved, advance,
}
use lock_free_cuckoo_filter.LockFree.Methods.{insert, find, remove}
use lock_free_cuckoo_filter.LockFree.Threads.{
  Call, inserting, finding, removing, session, System, Step, access, Reach, start, later,
}
use lock_free_cuckoo_filter.LockFree.Bounds.Bounded.{Whatever, IsBounded, IsBounded->>=}
use lock_free_cuckoo_filter.LockFree.Bounds.Insertion.{AreOrders, insert-IsBounded}
use lock_free_cuckoo_filter.LockFree.Bounds.Searches.{find-IsBounded, remove-IsBounded}

record HasShape (n threads : ℕ) (m : Memory) : Type 0 where
  table : IsGrid n num_items_per_entry m.hash_table
  hazards : IsGrid threads max_hazard_pointer_count m.hazard_ptrs
  retired : length m.retired_ptrs ≡ threads

-- The next access of the program uses indices of the vectors as they are.
abbrev pub InBounds : Memory → Program (Unit {0}) → Type 0
InBounds m (reading b i k) = (b < length m.hash_table) × (i < length (get_or m.hash_table b []))
InBounds m (comparing b i expected desired k) =
    (b < length m.hash_table) × (i < length (get_or m.hash_table b []))
InBounds m (marking p index tid k) =
    (tid < length m.hazard_ptrs) × (index < length (get_or m.hazard_ptrs tid []))
InBounds m (retiring p tid k) = tid < length m.retired_ptrs
InBounds m _ = Unit

-- What holds of the memory and of the rest of the program after a step, if there is one.
abbrev After : (Memory → Program (Unit {0}) → Type 0) → Progress (Unit {0}) → Type 0
After P (moved m next) = P m next
After P _ = Unit

module _ (n threads : ℕ) where
  -- Every access keeps the shape, bounded or not.
  advance-HasShape :
      (m : Memory) (p : Program (Unit {0}))
      → HasShape n threads m
      → After (λ m' next. HasShape n threads m') (advance m p)
  unfolding advance store_word store_hazard push_retired allocate
  advance-HasShape m (done a) s = tt
  advance-HasShape m aborted s = tt
  advance-HasShape m out_of_fuel s = tt
  advance-HasShape m (reading b i k) s = s
  advance-HasShape m (comparing b i expected desired k) s =
      elim (Bool-cases (word_at m b i == expected)) [
        | inl e ↦ rw e (record {
          table = set_item-IsGrid m.hash_table b i desired s.table;
          hazards = s.hazards;
          retired = s.retired;
        })
        | inr e ↦ rw e s
      ]
  advance-HasShape m (marking p index tid k) s = record {
    table = s.table;
    hazards = set_item-IsGrid m.hazard_ptrs tid index p s.hazards;
    retired = s.retired;
  }
  advance-HasShape m (dereferencing p k) s = elim (Option-cases (m.heap p)) [
    | inl e ↦ rw (e, After) tt
    | inr (str, e) ↦ rw (e, After) s
  ]
  advance-HasShape m (allocating str k) s = elim (Bool-cases (ltb m.fresh (2 ^ 48))) [
    | inl e ↦ rw e (record { table = s.table; hazards = s.hazards; retired = s.retired })
    | inr e ↦ rw e tt
  ]
  advance-HasShape m (retiring p tid k) s = record {
    table = s.table;
    hazards = s.hazards;
    retired = length-set m.retired_ptrs tid _ ∙ s.retired;
  }

  advance-IsBounded :
      (m : Memory) (p : Program (Unit {0}))
      → IsBounded n threads Whatever p
      → After (λ m' next. IsBounded n threads Whatever next) (advance m p)
  unfolding advance
  advance-IsBounded m (done a) s = tt
  advance-IsBounded m aborted s = tt
  advance-IsBounded m out_of_fuel s = tt
  advance-IsBounded m (reading b i k) (hb, hi, s) = s (word_at m b i)
  advance-IsBounded m (comparing b i expected desired k) (hb, hi, s) =
      elim (Bool-cases (word_at m b i == expected)) [
        | inl e ↦ rw e (s true)
        | inr e ↦ rw e (s false)
      ]
  advance-IsBounded m (marking p index tid k) (hi, ht, s) = s
  advance-IsBounded m (dereferencing p k) s = elim (Option-cases (m.heap p)) [
    | inl e ↦ rw (e, After) tt
    | inr (str, e) ↦ rw (e, After) (s str)
  ]
  advance-IsBounded m (allocating str k) s = elim (Bool-cases (ltb m.fresh (2 ^ 48))) [
    | inl e ↦ rw e (s m.fresh)
    | inr e ↦ rw e tt
  ]
  advance-IsBounded m (retiring p tid k) (ht, s) = s

  IsBounded-InBounds :
      (m : Memory) (p : Program (Unit {0}))
      → HasShape n threads m
      → IsBounded n threads Whatever p
      → InBounds m p
  IsBounded-InBounds m (done a) s b = tt
  IsBounded-InBounds m aborted s b = tt
  IsBounded-InBounds m out_of_fuel s b = tt
  IsBounded-InBounds m (reading b i k) s (hb, hi, rest) =
      (omega (arith, hb, s.table.rows), omega (arith, hi, s.table.items b hb))
  IsBounded-InBounds m (comparing b i expected desired k) s (hb, hi, rest) =
      (omega (arith, hb, s.table.rows), omega (arith, hi, s.table.items b hb))
  IsBounded-InBounds m (marking p index tid k) s (hi, ht, rest) =
      (omega (arith, ht, s.hazards.rows), omega (arith, hi, s.hazards.items tid ht))
  IsBounded-InBounds m (dereferencing p k) s b = tt
  IsBounded-InBounds m (allocating str k) s b = tt
  IsBounded-InBounds m (retiring p tid k) s (ht, rest) = omega (arith, ht, s.retired)

-- The shuffles of every insertion give slots.
abbrev pub HaveSlots : List Call → Type 0
HaveSlots [] = Unit
HaveSlots (inserting orders key ∷ calls) = AreOrders orders × HaveSlots calls
HaveSlots (_ ∷ calls) = HaveSlots calls

session-IsBounded :
    (n threads fuel : ℕ) (d : Digest) (tid : ℕ) (calls : List Call)
    → 0 < n
    → tid < threads
    → HaveSlots calls
    → IsBounded n threads Whatever (session n fuel d tid calls)
unfolding session
session-IsBounded n threads fuel d tid [] pos mine ok = tt
session-IsBounded n threads fuel d tid (inserting orders key ∷ calls) pos mine (ho, ok) =
    IsBounded->>= n threads Whatever Whatever (insert n tid fuel d orders key) _
      (insert-IsBounded n threads tid pos mine fuel d orders key ho)
      (λ _ _. session-IsBounded n threads fuel d tid calls pos mine ok)
session-IsBounded n threads fuel d tid (finding key ∷ calls) pos mine ok =
    IsBounded->>= n threads (λ location. location ≤ 8) Whatever (find n tid fuel d key) _
      (find-IsBounded n threads tid pos mine fuel d key)
      (λ _ _. session-IsBounded n threads fuel d tid calls pos mine ok)
session-IsBounded n threads fuel d tid (removing key ∷ calls) pos mine ok =
    IsBounded->>= n threads Whatever Whatever (remove n tid fuel d key) _
      (remove-IsBounded n threads tid pos mine fuel d key)
      (λ _ _. session-IsBounded n threads fuel d tid calls pos mine ok)

new_memory-HasShape : (n threads : ℕ) → HasShape n threads (new_memory n threads)
unfolding new_memory
new_memory-HasShape n threads = record {
  table = replicate-IsGrid 0;
  hazards = replicate-IsGrid 0;
  retired = length-replicate threads _;
}

record IsBoundedSystem (n threads : ℕ) (s : System) : Type 0 where
  shape : HasShape n threads s.memory
  bounded : (tid : ℕ) → tid < threads → IsBounded n threads Whatever (s.thread tid)

Step-IsBoundedSystem :
    {s t : System} (n threads : ℕ)
    → Step s t
    → IsBoundedSystem n threads s
    → IsBoundedSystem n threads t
Step-IsBoundedSystem {s} n threads (access tid {m} {next} e) b = record {
  shape =
      subst (After (λ m' next. HasShape n threads m')) e
        (advance-HasShape n threads s.memory (s.thread tid) b.shape);
  bounded = λ j lt.
      elim (ℕ_discrete tid j) as (λ x. IsBounded n threads Whatever (ite x next (s.thread j))) [
        | yes same ↦
            subst (After (λ m' next. IsBounded n threads Whatever next)) e
              (advance-IsBounded n threads s.memory (s.thread tid) (b.bounded tid (omega arith)))
        | no other ↦ b.bounded j lt
      ];
}

Reach-IsBoundedSystem :
    {n threads fuel : ℕ} {d : Digest} {calls : ℕ → List Call} {s : System}
    → 0 < n
    → ((tid : ℕ) → HaveSlots (calls tid))
    → Reach n threads fuel d calls s
    → IsBoundedSystem n threads s
Reach-IsBoundedSystem {n} {threads} {fuel} {d} {calls} pos ok start = record {
  shape = new_memory-HasShape n threads;
  bounded = λ tid lt. session-IsBounded n threads fuel d tid (calls tid) pos lt (ok tid);
}
Reach-IsBoundedSystem {n} {threads} pos ok (later r st) =
    Step-IsBoundedSystem n threads st (Reach-IsBoundedSystem pos ok r)

-- In every state that threads reach by calling insert, find and remove of one new lock-free filter
-- with at least one bucket, in any interleaving, where every shuffle gives slot indices below 4:
-- the next access of each thread whose number is below the thread count uses a bucket, slot, hazard
-- or retired index within the length of the vector that it indexes.
pub in_bounds :
    {n threads fuel : ℕ} {d : Digest} {calls : ℕ → List Call} {s : System}
    → 0 < n
    → ((tid : ℕ) → HaveSlots (calls tid))
    → Reach n threads fuel d calls s
    → (tid : ℕ) → tid < threads
    → InBounds s.memory (s.thread tid)
in_bounds {n} {threads} {s = s} pos ok r tid lt =
    let b = Reach-IsBoundedSystem pos ok r in
    IsBounded-InBounds n threads s.memory (s.thread tid) b.shape (b.bounded tid lt)
