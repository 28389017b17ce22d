-- ===== src/FineGrained/Alone.antt =====
-- Runs of the loops of cuckoo_filter/fine_grained_locked_filter.cpp by a thread that runs alone.
use lock_free_cuckoo_filter.Prelude.{
  ℕ, zero, suc, ◌%◌, ◌≡◌, refl, ap, ◌∙◌, inl, inr, Bool, true, false, not, ◌&&◌, Option, none, some,
  [], ◌∷◌, length, str_eq, is_empty, ◌==◌, if◌then◌else◌, Option-cases, arith,
}
use lock_free_cuckoo_filter.Common.{num_items_per_entry}
use lock_free_cuckoo_filter.Table.{Fingerprint, HashTable, slot, write}
use lock_free_cuckoo_filter.Sequential.{
  SequentialFilter, fill_loop, find_loop, clear_loop, kick_loop,
}
use lock_free_cuckoo_filter.Sequential
use lock_free_cuckoo_filter.FineGrained.Program.{
  Program, done, locking, unlocking, reading, writing, ◌>>=◌, with_lock,
}
use lock_free_cuckoo_filter.FineGrained.Memory.{
  SharedMutex, writer, readers, FineGrainedFilter, acquire, leave, release, num_mutexes, set_mutex,
  run,
}
use lock_free_cuckoo_filter.FineGrained.Methods.{
  fill_slots_locked, find_slots_locked, clear_slots_locked, kick_rounds, get_next_hash_index,
}

-- The filter with another table
abbrev pub with_table : FineGrainedFilter → HashTable → FineGrainedFilter
with_table s t = record s { hash_table = t }

-- Every mutex is free.
abbrev pub IsFree : FineGrainedFilter → Type 0
IsFree s = (m : ℕ) → s.mutexes m ≡ readers []

-- What goes on after a result.
abbrev go_on :
    {A B : Type 0}
    → ℕ
    → (A → Program B)
    → Option (A × FineGrainedFilter)
    → Option (B × FineGrainedFilter)
go_on tid f none = none
go_on tid f (some (a, s)) = run tid (f a) s

run->>= :
    {A B : Type 0} (tid : ℕ) (p : Program A) (f : A → Program B) (s : FineGrainedFilter)
    → run tid (p >>= f) s ≡ go_on tid f (run tid p s)
unfolding run
run->>= tid (done a) f s = refl
run->>= tid (locking exclusive m k) f s =
    elim (Option-cases (acquire exclusive tid (s.mutexes m))) [
      | inl e ↦ rw (e, run) refl
      | inr (x, e) ↦ rw (e, run) (run->>= tid k f (set_mutex s m x))
    ]
run->>= tid (unlocking m k) f s = run->>= tid k f (set_mutex s m (release tid (s.mutexes m)))
run->>= tid (reading swap b i k) f s = run->>= tid (k (slot s.hash_table b i)) f s
run->>= tid (writing swap b i g k) f s =
    run->>= tid k f (record s { hash_table = write s.hash_table b i g })

pub run_after :
    {A B : Type 0} (tid : ℕ) (p : Program A) (f : A → Program B) (s s' : FineGrainedFilter) (a : A)
    → run tid p s ≡ some (a, s')
    → run tid (p >>= f) s ≡ run tid (f a) s'
run_after tid p f s s' a e = run->>= tid p f s ∙ ap (go_on tid f) e

run_locking :
    {A : Type 0} (tid : ℕ) (exclusive : Bool) (m : ℕ) (k : Program A) (s : FineGrainedFilter)
    (x : SharedMutex)
    → acquire exclusive tid (s.mutexes m) ≡ some x
    → run tid (locking exclusive m k) s ≡ run tid k (set_mutex s m x)
unfolding run
run_locking tid exclusive m k s x e = rw (e, run) refl

-- A free mutex can be taken in both ways, and is free again when it is given back.
acquire_free :
    (exclusive : Bool) (tid : ℕ)
    → (x : SharedMutex) × (acquire exclusive tid (readers []) ≡ some x)
      × (release tid x ≡ readers [])
unfolding acquire release leave
acquire_free true tid = (writer tid, refl, refl)
acquire_free false tid = (readers (tid ∷ []), refl, ground arith)

-- A lock that is taken and given back leaves the mutexes as they were.
back :
    (tid m : ℕ) (x : SharedMutex) (s : FineGrainedFilter) (t : HashTable)
    → s.mutexes m ≡ readers []
    → release tid x ≡ readers []
    → set_mutex
        (with_table (set_mutex s m x) t)
        m
        (release tid ((with_table (set_mutex s m x) t).mutexes m))
      ≡ with_table s t
unfolding set_mutex
back tid m x s t free r = λ i. record s { hash_table = t; mutexes = λ j. same j i }
  where
    same :
        (j : ℕ)
        → (if j == m
            then release tid (if m == m then x else s.mutexes m)
            else (if j == m then x else s.mutexes j))
          ≡ s.mutexes j
    same j = grind (arith, r, free)

pub with_lock-run :
    {A : Type 0} (exclusive : Bool) (tid m : ℕ) (p : Program A) (s : FineGrainedFilter) (a : A)
    (t : HashTable)
    → IsFree s
    → ((x : SharedMutex) → run tid p (set_mutex s m x) ≡ some (a, with_table (set_mutex s m x) t))
    → run tid (with_lock exclusive m p) s ≡ some (a, with_table s t)
with_lock-run exclusive tid m p s a t free e =
    let (x, got, given) = acquire_free exclusive tid in
    run_locking tid exclusive m (p >>= λ b. unlocking m (done b)) s x
      (ap (acquire exclusive tid) (free m) ∙ got)
    ∙ run_after tid p (λ b. unlocking m (done b)) _ _ a (e x)
    ∙ unfold run in ap (λ (z : FineGrainedFilter). some (a, z)) (back tid m x s t (free m) given)

-- What a loop that may change the table answers, and the table after it.
abbrev pub outcome : Option HashTable → HashTable → Bool × HashTable
outcome none t = (false, t)
outcome (some t') t = (true, t')

-- A result with a table, as the end of a run from `s`
abbrev pub ends : FineGrainedFilter → Bool × HashTable → Option (Bool × FineGrainedFilter)
ends s r = some (r.0, with_table s r.1)

pub fill_slots_locked-run :
    (tid k i b : ℕ) (f : Fingerprint) (s : FineGrainedFilter)
    → run tid (fill_slots_locked k i b f) s
      ≡ ends s (outcome (fill_loop k i b f s.hash_table) s.hash_table)
unfolding run fill_slots_locked fill_loop
fill_slots_locked-run tid zero i b f s = refl
fill_slots_locked-run tid (suc k) i b f s =
    let t = s.hash_table in
    elim (is_empty (slot t b i))
      as (λ c.
        run tid (if c then writing false b i f (done true) else fill_slots_locked k (suc i) b f) s
        ≡ ends s (outcome (if c then some (write t b i f) else fill_loop k (suc i) b f t) t)) [
          | true ↦ refl
          | false ↦ fill_slots_locked-run tid k (suc i) b f s
        ]

pub find_slots_locked-run :
    (tid k i b : ℕ) (f : Fingerprint) (s : FineGrainedFilter)
    → run tid (find_slots_locked k i b f) s ≡ ends s (find_loop k i b f s.hash_table, s.hash_table)
unfolding run find_slots_locked find_loop
find_slots_locked-run tid zero i b f s = refl
find_slots_locked-run tid (suc k) i b f s =
    let t = s.hash_table in
    elim (str_eq (slot t b i) f)
      as (λ c.
        run tid (if c then done true else find_slots_locked k (suc i) b f) s
        ≡ ends s ((if c then true else find_loop k (suc i) b f t), t)) [
          | true ↦ refl
          | false ↦ find_slots_locked-run tid k (suc i) b f s
        ]

pub clear_slots_locked-run :
    (tid k i b : ℕ) (f : Fingerprint) (s : FineGrainedFilter)
    → run tid (clear_slots_locked k i b f) s
      ≡ ends s (outcome (clear_loop k i b f s.hash_table) s.hash_table)
unfolding run clear_slots_locked clear_loop
clear_slots_locked-run tid zero i b f s = refl
clear_slots_locked-run tid (suc k) i b f s =
    let t = s.hash_table in
    elim (not (length (slot t b i) == 0) && str_eq (slot t b i) f)
      as (λ c.
        run tid (if c then writing false b i [] (done true) else clear_slots_locked k (suc i) b f) s
        ≡ ends s (outcome (if c then some (write t b i []) else clear_loop k (suc i) b f t) t)) [
          | true ↦ refl
          | false ↦ clear_slots_locked-run tid k (suc i) b f s
        ]

-- One locked loop of a method, and what the method does if the loop answers false.
pub stage :
    (exclusive : Bool) (tid m : ℕ) (p q : Program Bool) (s : FineGrainedFilter)
    (r : Bool × HashTable)
    → IsFree s
    → ((x : SharedMutex) → run tid p (set_mutex s m x) ≡ ends (set_mutex s m x) r)
    → run tid (with_lock exclusive m p >>= λ stored. if stored then done true else q) s
      ≡ (if r.0 then ends s (true, r.1) else run tid q (with_table s r.1))
unfolding run
stage exclusive tid m p q s r free e =
    run_after tid (with_lock exclusive m p) (λ stored. if stored then done true else q) s
      (with_table s r.1) r.0 (with_lock-run exclusive tid m p s r.0 r.1 free e)
    ∙ elim (r.0)
        as (λ c.
          run tid (if c then done true else q) (with_table s r.1)
          ≡ (if c then ends s (true, r.1) else run tid q (with_table s r.1))) [
            | true ↦ refl
            | false ↦ refl
          ]

-- The same where the loop may change the table.
pub stage-outcome :
    (tid m : ℕ) (p q : Program Bool) (s : FineGrainedFilter) (o : Option HashTable)
    (rest : Bool × HashTable)
    → IsFree s
    → ((x : SharedMutex)
        → run tid p (set_mutex s m x) ≡ ends (set_mutex s m x) (outcome o s.hash_table))
    → run tid q s ≡ ends s rest
    → run tid (with_lock true m p >>= λ stored. if stored then done true else q) s
      ≡ ends s (elim o [ some placed ↦ (true, placed) | none ↦ rest ])
stage-outcome tid m p q s o rest free e e' =
    stage true tid m p q s (outcome o s.hash_table) free e
    ∙ elim o
        as (λ o.
          (if (outcome o s.hash_table).0
            then ends s (true, (outcome o s.hash_table).1)
            else run tid q (with_table s (outcome o s.hash_table).1))
          ≡ ends s (elim o [ some placed ↦ (true, placed) | none ↦ rest ])) [
            | none ↦ e'
            | some placed ↦ refl
          ]

-- The replace phase
pub kick_rounds-kick_loop :
    (tid n : ℕ) (rand : ℕ → ℕ) (k r b : ℕ) (f : Fingerprint) (s : FineGrainedFilter)
    → IsFree s
    → run tid (kick_rounds n rand k r b f) s ≡ ends s (kick_loop n rand k r b f s.hash_table)
unfolding run kick_rounds kick_loop Sequential.get_next_hash_index get_next_hash_index
kick_rounds-kick_loop tid n rand zero r b f s free = refl
kick_rounds-kick_loop tid n rand (suc k) r b f s free =
    let i = rand r % num_items_per_entry in
    let kicked = slot s.hash_table b i in
    let s' = with_table s (write s.hash_table b i f) in
    let next = get_next_hash_index n b kicked in
    let q = kick_rounds n rand k (suc r) next kicked in
    stage-outcome tid (next % num_mutexes) (fill_slots_locked num_items_per_entry 0 next kicked) q
      s' (fill_loop num_items_per_entry 0 next kicked s'.hash_table) _ free
      (λ x. unfold set_mutex in fill_slots_locked-run tid num_items_per_entry 0 next kicked _)
      (kick_rounds-kick_loop tid n rand k (suc r) next kicked s' free)
