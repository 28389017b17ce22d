-- ===== src/LockFree/Safety/Interleaving.antt =====
-- The invariant of the threads of cuckoo_filter/lock_free_filter.cpp and of the memory they share.
use native.Mathlib.Decide.{ℕ_discrete}
use mathlib.Core.Logic.{ite}
use mathlib.Core.Path.{subst}
use lock_free_cuckoo_filter.Prelude.{
  ℕ, zero, suc, ◌%◌, ◌^◌, ◌≡◌, ◌≢◌, refl, sym, true, false, inl, inr, none, List, [], ◌∷◌,
  Bool-cases, Option-cases, ◌==◌, ltb, get_or, set, replicate, get_or-set, get_or-replicate, ◌⊎◌,
  arith,
}
use lock_free_cuckoo_filter.Hash.{Digest}
use lock_free_cuckoo_filter.Pointer.{TablePointer, get_real_pointer, get_marked}
use lock_free_cuckoo_filter.Table.{Fingerprint}
use lock_free_cuckoo_filter.LockFree.Program.{
  Program, done, aborted, out_of_fuel, reading, comparing, marking, dereferencing, allocating,
  retiring,
}
use lock_free_cuckoo_filter.LockFree.Memory.{
  Memory, new_memory, word_at, store_word, allocate, Progress, stopped, faulted, moved, advance,
}
use lock_free_cuckoo_filter.LockFree.Methods.{insert, find, remove}
use lock_free_cuckoo_filter.LockFree.Safety.Words.{
  Heap, IsLive, Grows, IsGood, IsGood-Grows, zero-IsGood,
}
use lock_free_cuckoo_filter.LockFree.Safety.Guarded.{IsGuarded, Any, IsGuarded->>=, IsGuarded-Grows}
use lock_free_cuckoo_filter.LockFree.Safety.Calls.{
  insert-IsGuarded, find-IsGuarded, remove-IsGuarded,
}
use lock_free_cuckoo_filter.LockFree.Threads.{
  Call, inserting, finding, removing, session, System, update_thread, Step, access, Reach, start,
  later,
}

-- Every word of the table is good, and the next entry gets a sound address.
pub record IsSound (m : Memory) : Type 0 where
  pub words : (b i : ℕ) → IsGood m.heap (word_at m b i)
  pub aligned : m.fresh % 2 ≡ 0

-- What one access of a guarded program keeps.
record Keeps (m m' : Memory) (next : Program (Unit {0})) : Type 0 where
  sound : IsSound m'
  grows : Grows m.heap m'.heap
  guarded : IsGuarded Any m'.heap next

store_word-IsSound :
    (m : Memory) (b i : ℕ) (w : TablePointer)
    → IsSound m
    → IsGood m.heap w
    → IsSound (store_word m b i w)
unfolding store_word word_at
store_word-IsSound m b i w s good = record {
  words = λ c j.
      get_or-set (λ bucket. IsGood m.heap (get_or bucket j 0)) m.hash_table b c
        (set (get_or m.hash_table b []) i w) []
        (get_or-set (IsGood m.heap) (get_or m.hash_table b []) i j w 0 good (s.words b j))
        (s.words c j);
  aligned = s.aligned;
}

allocate-Grows : (m : Memory) (str : Fingerprint) → Grows m.heap (allocate m str).heap
unfolding allocate
allocate-Grows m str p live = elim (Bool-cases (p == m.fresh)) [
  | inl e ↦ rw e (λ q. cc)
  | inr e ↦ rw e live
]

allocate-IsSound : (m : Memory) (str : Fingerprint) → IsSound m → IsSound (allocate m str)
unfolding allocate word_at
allocate-IsSound m str s = record {
  words = λ b i.
      IsGood-Grows {h = m.heap} {h' = (allocate m str).heap} (allocate-Grows m str) (s.words b i);
  aligned = omega (arith, s.aligned);
}

-- The access keeps the memory sound and the program guarded, or there is none to make. It does not
-- fault.
abbrev KeepsProgress : Memory → Progress (Unit {0}) → Type 0
KeepsProgress m stopped = Unit
KeepsProgress m faulted = ⊥
KeepsProgress m (moved m' next) = Keeps m m' next

unchanged :
    (m : Memory) (next : Program (Unit {0}))
    → IsSound m
    → IsGuarded Any m.heap next
    → Keeps m m next
unchanged m next s g = record { sound = s; grows = λ p live. live; guarded = g }

advance-Keeps :
    (m : Memory) (p : Program (Unit {0}))
    → IsSound m
    → IsGuarded Any m.heap p
    → KeepsProgress m (advance m p)
unfolding advance
advance-Keeps m (done a) s g = tt
advance-Keeps m aborted s g = tt
advance-Keeps m out_of_fuel s g = tt
advance-Keeps m (reading b i k) s g =
    unchanged m (k (word_at m b i)) s (g m.heap (λ p live. live) (word_at m b i) (s.words b i))
advance-Keeps m (comparing b i expected desired k) s g =
    elim (Bool-cases (word_at m b i == expected)) [
      | inl e ↦ rw e (record {
        sound = store_word-IsSound m b i desired s g.0;
        grows = λ p live. live;
        guarded = g.1 m.heap (λ p live. live) true;
      })
      | inr e ↦ rw e (unchanged m (k false) s (g.1 m.heap (λ p live. live) false))
    ]
advance-Keeps m (marking p index tid k) s g = record {
  sound = record { words = s.words; aligned = s.aligned };
  grows = λ p live. live;
  guarded = g;
}
advance-Keeps m (dereferencing p k) s g = elim (Option-cases (m.heap p)) [
  | inl e ↦ absurd (g.0 e)
  | inr (str, e) ↦ rw (e, KeepsProgress) (unchanged m (k str) s (g.1 m.heap (λ p live. live) str))
]
advance-Keeps m (allocating str k) s g = elim (Bool-cases (ltb m.fresh (2 ^ 48))) [
  | inl e ↦ rw e (record {
    sound = allocate-IsSound m str s;
    grows = allocate-Grows m str;
    guarded =
        g (allocate m str).heap (allocate-Grows m str) m.fresh
          ((ground arith, s.aligned), fresh_live m str);
  })
  | inr e ↦ rw e tt
]
  where
    fresh_live : (m : Memory) (str : Fingerprint) → IsLive (allocate m str).heap m.fresh
    fresh_live m str = ground arith
advance-Keeps m (retiring p tid k) s g = record {
  sound = record { words = s.words; aligned = s.aligned };
  grows = λ p live. live;
  guarded = g;
}

-- The memory is sound, and every thread is guarded in its heap.
record IsSafe (s : System) : Type 0 where
  sound : IsSound s.memory
  guarded : (tid : ℕ) → IsGuarded Any s.memory.heap (s.thread tid)

session-IsGuarded :
    (n fuel : ℕ) (d : Digest) (tid : ℕ) (calls : List Call) (h : Heap)
    → IsGuarded Any h (session n fuel d tid calls)
unfolding session
session-IsGuarded n fuel d tid [] h = tt
session-IsGuarded n fuel d tid (inserting orders key ∷ calls) h =
    IsGuarded->>= Any Any (insert n tid fuel d orders key) _ h
      (insert-IsGuarded n tid fuel d orders key h)
      (λ h₁ g₁ _ _. session-IsGuarded n fuel d tid calls h₁)
session-IsGuarded n fuel d tid (finding key ∷ calls) h =
    IsGuarded->>= Any Any (find n tid fuel d key) _ h (find-IsGuarded n tid fuel d key h)
      (λ h₁ g₁ _ _. session-IsGuarded n fuel d tid calls h₁)
session-IsGuarded n fuel d tid (removing key ∷ calls) h =
    IsGuarded->>= Any Any (remove n tid fuel d key) _ h (remove-IsGuarded n tid fuel d key h)
      (λ h₁ g₁ _ _. session-IsGuarded n fuel d tid calls h₁)

new_memory-IsSound : (n threads : ℕ) → IsSound (new_memory n threads)
unfolding new_memory word_at
new_memory-IsSound n threads = record {
  words = λ b i. subst (IsGood (λ p. none)) (sym (zero_word n b i)) (zero-IsGood (λ p. none));
  aligned = omega arith;
}
  where
    zero_word : (k b i : ℕ) → ◌≡◌ {A = ℕ} (get_or (get_or (replicate k (replicate 4 0)) b []) i 0) 0
    zero_word zero b i = refl
    zero_word (suc k) zero i = get_or-replicate 4 i 0
    zero_word (suc k) (suc b) i = zero_word k b i

Step-IsSafe : {s t : System} → Step s t → IsSafe s → IsSafe t
Step-IsSafe {s} (access tid {m} {next} e) safe = record { sound = k.sound; guarded = threads }
  where
    k : Keeps s.memory m next
    k =
        subst (KeepsProgress s.memory) e
          (advance-Keeps s.memory (s.thread tid) safe.sound (safe.guarded tid))

    threads : (j : ℕ) → IsGuarded Any m.heap (update_thread s.thread tid next j)
    threads j = elim (ℕ_discrete tid j) as (λ x. IsGuarded Any m.heap (ite x next (s.thread j))) [
      | yes same ↦ k.guarded
      | no other ↦ IsGuarded-Grows (s.thread j) s.memory.heap m.heap k.grows (safe.guarded j)
    ]

Reach-IsSafe :
    {n threads fuel : ℕ} {d : Digest} {calls : ℕ → List Call} {s : System}
    → Reach n threads fuel d calls s
    → IsSafe s
Reach-IsSafe {n} {threads} {fuel} {d} {calls} start = record {
  sound = new_memory-IsSound n threads;
  guarded = λ tid. session-IsGuarded n fuel d tid (calls tid) (new_memory n threads).heap;
}
Reach-IsSafe (later r st) = Step-IsSafe st (Reach-IsSafe r)

-- In every state that any number of threads reach by calling insert, find and remove of one new
-- lock-free filter, in any interleaving of their atomic accesses, the next access of no thread
-- dereferences a null pointer or a pointer to no entry.
pub no_fault :
    {n threads fuel : ℕ} {d : Digest} {calls : ℕ → List Call} {s : System}
    → Reach n threads fuel d calls s
    → (tid : ℕ) → advance s.memory (s.thread tid) ≢ faulted
no_fault {s = s} r tid e =
    let safe = Reach-IsSafe r in
    subst (KeepsProgress s.memory) e
      (advance-Keeps s.memory (s.thread tid) safe.sound (safe.guarded tid))

-- In every state that any number of threads reach by calling insert, find and remove of one new
-- lock-free filter, each slot of the table is either null and unmarked, or it holds the address of
-- an entry that exists.
pub slots_sound :
    {n threads fuel : ℕ} {d : Digest} {calls : ℕ → List Call} {s : System}
    → Reach n threads fuel d calls s
    → (b i : ℕ)
    → ((get_real_pointer (word_at s.memory b i) ≡ 0) × (get_marked (word_at s.memory b i) ≡ false))
      ⊎ (s.memory.heap (get_real_pointer (word_at s.memory b i)) ≢ none)
slots_sound r b i = ((Reach-IsSafe r).sound.words b i).target
