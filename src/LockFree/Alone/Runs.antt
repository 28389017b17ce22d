-- ===== src/LockFree/Alone/Runs.antt =====
-- Runs of a program and what follows it.
use lock_free_cuckoo_filter.Prelude.{
  ℕ, ◌≡◌, refl, ap, ◌∙◌, true, false, none, some, List, ltb, ◌==◌, ◌^◌, if◌then◌else◌, ◌⊎◌,
}
use lock_free_cuckoo_filter.Pointer.{get_real_pointer, get_marked}
use lock_free_cuckoo_filter.Table.{Fingerprint}
use lock_free_cuckoo_filter.LockFree.Program.{
  Address, Program, done, aborted, out_of_fuel, reading, comparing, marking, dereferencing,
  allocating, retiring, ◌>>=◌,
}
use lock_free_cuckoo_filter.LockFree.Memory.{
  Memory, word_at, store_word, store_hazard, push_retired, allocate, Outcome, returned, abort,
  unfinished, fault, run,
}

-- What goes on after an outcome.
abbrev pub go_on : {A B : Type 0} → (A → Program B) → Outcome A → Outcome B
go_on f (returned a m) = run (f a) m
go_on f (abort m) = abort m
go_on f (unfinished m) = unfinished m
go_on f fault = fault

pub run->>= :
    {A B : Type 0} (p : Program A) (f : A → Program B) (m : Memory)
    → run (p >>= f) m ≡ go_on f (run p m)
unfolding run
run->>= (done a) f m = refl
run->>= aborted f m = refl
run->>= out_of_fuel f m = refl
run->>= (reading b i k) f m = run->>= (k (word_at m b i)) f m
run->>= {A} {B} (comparing b i expected desired k) f m =
    elim (word_at m b i == expected)
      as (λ c.
        ◌≡◌ {A = Outcome B}
          (if c then run (k true >>= f) (store_word m b i desired) else run (k false >>= f) m)
          (go_on f (if c then run (k true) (store_word m b i desired) else run (k false) m))) [
            | true ↦ run->>= (k true) f (store_word m b i desired)
            | false ↦ run->>= (k false) f m
          ]
run->>= (marking p index tid k) f m = run->>= k f (store_hazard m p index tid)
run->>= {A} {B} (dereferencing p k) f m =
    elim (m.heap p)
      as (λ o.
        ◌≡◌ {A = Outcome B} (elim o [ none ↦ fault | some s ↦ run (k s >>= f) m ])
          (go_on f (elim o [ none ↦ fault | some s ↦ run (k s) m ]))) [
            | none ↦ refl
            | some s ↦ run->>= (k s) f m
          ]
run->>= {A} {B} (allocating s k) f m =
    elim (ltb m.fresh (2 ^ 48))
      as (λ c.
        ◌≡◌ {A = Outcome B} (if c then run (k m.fresh >>= f) (allocate m s) else abort m)
          (go_on f (if c then run (k m.fresh) (allocate m s) else abort m))) [
            | true ↦ run->>= (k m.fresh) f (allocate m s)
            | false ↦ refl
          ]
run->>= (retiring p tid k) f m = run->>= k f (push_retired m p tid)

pub run_after :
    {A B : Type 0} (p : Program A) (f : A → Program B) (m m' : Memory) (a : A)
    → run p m ≡ returned a m'
    → run (p >>= f) m ≡ run (f a) m'
run_after p f m m' a e = run->>= p f m ∙ ap (go_on f) e

pub run-done : {A : Type 0} (a : A) (m : Memory) → run (done a) m ≡ returned a m
unfolding run
run-done a m = refl

-- The memory with other hazard pointers
abbrev pub with_hazards : Memory → List (List Address) → Memory
with_hazards m h = record m { hazard_ptrs = h }

-- No slot is marked, and each holds null or an entry.
abbrev pub IsQuiet : Memory → Type 0
IsQuiet m =
    (b i : ℕ)
    → (get_marked (word_at m b i) ≡ false)
      × ((get_real_pointer (word_at m b i) ≡ 0)
          ⊎ ((str : Fingerprint) × (m.heap (get_real_pointer (word_at m b i)) ≡ some str)))
