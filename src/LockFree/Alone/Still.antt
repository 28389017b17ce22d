-- ===== src/LockFree/Alone/Still.antt =====
-- Hazard pointers do not change what a program does: its run is the run on a memory without any.
use lock_free_cuckoo_filter.Prelude.{
  ◌≡◌, refl, ap, sym, ◌∙◌, true, false, none, some, [], ltb, ◌==◌, ◌^◌, if◌then◌else◌,
}
use lock_free_cuckoo_filter.LockFree.Program.{
  Program, done, aborted, out_of_fuel, reading, comparing, marking, dereferencing, allocating,
  retiring,
}
use lock_free_cuckoo_filter.LockFree.Memory.{
  Memory, word_at, store_word, store_hazard, push_retired, allocate, Outcome, returned, abort,
  unfinished, fault, run,
}

-- The memory without its hazard pointers. A hazard pointer that is stored there is lost.
abbrev pub still : Memory → Memory
still m = record m { hazard_ptrs = [] }

abbrev pub still_outcome : {A : Type 0} → Outcome A → Outcome A
still_outcome (returned a m) = returned a (still m)
still_outcome (abort m) = abort (still m)
still_outcome (unfinished m) = unfinished (still m)
still_outcome fault = fault

pub run-still :
    {A : Type 0} (p : Program A) (m : Memory) → run p (still m) ≡ still_outcome (run p m)
unfolding run word_at store_word store_hazard push_retired allocate
run-still (done a) m = refl
run-still aborted m = refl
run-still out_of_fuel m = refl
run-still (reading b i k) m = run-still (k (word_at m b i)) m
run-still {A} (comparing b i expected desired k) m =
    elim (word_at m b i == expected)
      as (λ c.
        ◌≡◌ {A = Outcome A}
          (if c then run (k true) (store_word (still m) b i desired) else run (k false) (still m))
          (still_outcome
            (if c then run (k true) (store_word m b i desired) else run (k false) m))) [
              | true ↦ run-still (k true) (store_word m b i desired)
              | false ↦ run-still (k false) m
            ]
run-still (marking p index tid k) m = run-still k (store_hazard m p index tid)
run-still {A} (dereferencing p k) m =
    elim (m.heap p)
      as (λ o.
        ◌≡◌ {A = Outcome A} (elim o [ none ↦ fault | some s ↦ run (k s) (still m) ])
          (still_outcome (elim o [ none ↦ fault | some s ↦ run (k s) m ]))) [
            | none ↦ refl
            | some s ↦ run-still (k s) m
          ]
run-still {A} (allocating s k) m =
    elim (ltb m.fresh (2 ^ 48))
      as (λ c.
        ◌≡◌ {A = Outcome A} (if c then run (k m.fresh) (allocate (still m) s) else abort (still m))
          (still_outcome (if c then run (k m.fresh) (allocate m s) else abort m))) [
            | true ↦ run-still (k m.fresh) (allocate m s)
            | false ↦ refl
          ]
run-still (retiring p tid k) m = run-still k (push_retired m p tid)

-- From a run on the memory without hazard pointers to the run on the memory itself
pub run_from_still :
    {A : Type 0} (p : Program A) (m m' : Memory) (a : A)
    → run p (still m) ≡ returned a m'
    → (last : Memory) × (run p m ≡ returned a last) × (still last ≡ m')
run_from_still {A} p m m' a e = from (run p m) (sym (run-still p m) ∙ e)
  where
    outcome_value : Outcome A → A
    outcome_value (returned x l) = x
    outcome_value _ = a

    outcome_memory : Outcome A → Memory
    outcome_memory (returned x l) = l
    outcome_memory _ = m

    from :
        (o : Outcome A)
        → still_outcome o ≡ returned a m'
        → (last : Memory) × (o ≡ returned a last) × (still last ≡ m')
    from (returned x l) e =
        (l, ap (λ (y : A). returned y l) (ap outcome_value e), ap outcome_memory e)
    from (abort l) e = absurd (cc)
    from (unfinished l) e = absurd (cc)
    from fault e = absurd (cc)

-- The same for a run that calls `abort()`
pub abort_from_still :
    {A : Type 0} (p : Program A) (m m' : Memory)
    → run p (still m) ≡ abort m'
    → (last : Memory) × (run p m ≡ abort last) × (still last ≡ m')
abort_from_still {A} p m m' e = from (run p m) (sym (run-still p m) ∙ e)
  where
    outcome_memory : Outcome A → Memory
    outcome_memory (abort l) = l
    outcome_memory _ = m

    from :
        (o : Outcome A)
        → still_outcome o ≡ abort m'
        → (last : Memory) × (o ≡ abort last) × (still last ≡ m')
    from (abort l) e = (l, refl, ap outcome_memory e)
    from (returned a l) e = absurd (cc)
    from (unfinished l) e = absurd (cc)
    from fault e = absurd (cc)

-- The same for a run that uses up its fuel
pub unfinished_from_still :
    {A : Type 0} (p : Program A) (m m' : Memory)
    → run p (still m) ≡ unfinished m'
    → (last : Memory) × (run p m ≡ unfinished last) × (still last ≡ m')
unfinished_from_still {A} p m m' e = from (run p m) (sym (run-still p m) ∙ e)
  where
    outcome_memory : Outcome A → Memory
    outcome_memory (unfinished l) = l
    outcome_memory _ = m

    from :
        (o : Outcome A)
        → still_outcome o ≡ unfinished m'
        → (last : Memory) × (o ≡ unfinished last) × (still last ≡ m')
    from (unfinished l) e = (l, refl, ap outcome_memory e)
    from (returned a l) e = absurd (cc)
    from (abort l) e = absurd (cc)
    from fault e = absurd (cc)
