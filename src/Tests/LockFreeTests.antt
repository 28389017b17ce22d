-- ===== src/Tests/LockFreeTests.antt =====
-- Runs of the filter of cuckoo_filter/lock_free_filter.cpp: alone, and with two threads.
use lock_free_cuckoo_filter.Prelude.{
  arith, ℕ, zero, suc, inl, inr, if◌then◌else◌, ◌≡◌, ◌≢◌, ◌⊎◌, refl, Bool, true, false, Option,
  none, some, List, [], ◌∷◌, ◌&&◌, ◌==◌, ltb, str_eq,
}
use lock_free_cuckoo_filter.Pointer.{get_real_pointer, get_marked, get_counter, create_pointer}
use lock_free_cuckoo_filter.LockFree.Program.{Program, done, ◌>>=◌}
use lock_free_cuckoo_filter.LockFree.Memory.{
  Memory, new_memory, word_at, Outcome, returned, abort, unfinished, fault, run, advance, Progress,
  stopped, faulted, moved,
}
use lock_free_cuckoo_filter.LockFree.Methods.{insert, find, remove}
use lock_free_cuckoo_filter.LockFree.Safety.Interleaving.{no_fault, slots_sound}
use lock_free_cuckoo_filter.LockFree.Bounds.Interleaving.{InBounds, in_bounds}
use lock_free_cuckoo_filter.LockFree.Threads.{
  Call, inserting, removing, session, System, update_thread, access, Reach, start, later,
}
use lock_free_cuckoo_filter.Hash.{md5_fingerprint}
use lock_free_cuckoo_filter.LockFree.Relocate.{get_next_hash_index}
use lock_free_cuckoo_filter.LockFree.Alone.Runs.{with_hazards, IsQuiet}
use lock_free_cuckoo_filter.LockFree.Alone.Find.{Located, find-Located}
use lock_free_cuckoo_filter.Tests.SequentialTests.{toy, print_of}

abbrev answer_of : {A : Type 0} → Outcome A → Option A
answer_of (returned a m) = some a
answer_of (abort m) = none
answer_of (unfinished m) = none
answer_of fault = none

abbrev memory_of : {A : Type 0} → Outcome A → Memory
memory_of (returned a m) = m
memory_of (abort m) = m
memory_of (unfinished m) = m
memory_of fault = new_memory 0 0

abbrev in_order : ℕ → List ℕ
in_order r = 0 ∷ 1 ∷ 2 ∷ 3 ∷ []

abbrev alone : Program Bool
alone = insert 2 0 2 toy in_order (1 ∷ []) >>= λ stored. find 2 0 2 toy (1 ∷ []) >>= λ before.
    remove 2 0 2 toy (1 ∷ []) >>= λ removed.
    find 2 0 2 toy (1 ∷ []) >>= λ last. done (stored && (ltb before 8 && (removed && last == 8)))

-- A thread alone stores a key, finds it, removes it and does not find it.
alone_test : answer_of (run alone (new_memory 2 1)) ≡ some true
unfolding insert find remove run new_memory get_real_pointer get_counter get_marked create_pointer
    str_eq
alone_test = refl

-- Two threads that store the same key and remove it
abbrev calls : ℕ → List Call
calls tid = inserting in_order (1 ∷ []) ∷ removing (1 ∷ []) ∷ []

abbrev first_state : System
first_state = record { memory = new_memory 2 2; thread = λ tid. session 2 2 toy tid (calls tid) }

-- The state after thread `tid` makes its step, if it has one.
abbrev after_step : System → ℕ → Progress (Unit {0}) → System
after_step s tid (moved m next) = record { memory = m; thread = update_thread s.thread tid next }
after_step s tid _ = s

-- The threads make their steps in a given order.
abbrev schedule : List ℕ → System → System
schedule [] s = s
schedule (tid ∷ tids) s = schedule tids (after_step s tid (advance s.memory (s.thread tid)))

schedule-Reach :
    (tids : List ℕ) (s : System) → Reach 2 2 2 toy calls s → Reach 2 2 2 toy calls (schedule tids s)
schedule-Reach [] s r = r
schedule-Reach (tid ∷ tids) s r =
    schedule-Reach tids (after_step s tid (advance s.memory (s.thread tid)))
      (one (advance s.memory (s.thread tid)) refl)
  where
    one :
        (p : Progress (Unit {0}))
        → advance s.memory (s.thread tid) ≡ p
        → Reach 2 2 2 toy calls (after_step s tid p)
    one stopped e = r
    one faulted e = r
    one (moved m next) e = later r (access tid e)

-- Both threads have stored the key, and thread 1 looks for it in order to remove it.
abbrev turns : List ℕ
turns = 0 ∷ 1 ∷ 0 ∷ 1 ∷ 0 ∷ 1 ∷ 0 ∷ 1 ∷ 0 ∷ 0 ∷ 0 ∷ 0 ∷ 1 ∷ 1 ∷ 1 ∷ 1 ∷ 1 ∷ 1 ∷ 1 ∷ []

abbrev later_state : System
later_state = schedule turns first_state

no_fault_example : advance later_state.memory (later_state.thread 1) ≢ faulted
no_fault_example = no_fault (schedule-Reach turns first_state start) 1

slots_sound_example :
    ((get_real_pointer (word_at later_state.memory 1 1) ≡ 0)
      × (get_marked (word_at later_state.memory 1 1) ≡ false))
    ⊎ (later_state.memory.heap (get_real_pointer (word_at later_state.memory 1 1)) ≢ none)
slots_sound_example = slots_sound (schedule-Reach turns first_state start) 1 1

in_bounds_example : InBounds later_state.memory (later_state.thread 1)
in_bounds_example =
    in_bounds (omega arith)
      (λ tid. (λ r. (omega arith, (omega arith, (omega arith, (omega arith, tt)))), tt))
      (schedule-Reach turns first_state start) 1 (omega arith)

-- One bucket, whose first slot holds the key with the byte 1
abbrev quiet_memory : Memory
quiet_memory = record {
  hash_table = (32 ∷ 0 ∷ 0 ∷ 0 ∷ []) ∷ [];
  hazard_ptrs = (0 ∷ 0 ∷ []) ∷ [];
  retired_ptrs = [] ∷ [];
  heap = λ p. if p == 32 then some (print_of 1) else none;
  fresh = 64;
}

quiet_memory-IsQuiet : IsQuiet quiet_memory
unfolding word_at get_real_pointer get_marked
quiet_memory-IsQuiet zero zero = (refl, inr (print_of 1, refl))
quiet_memory-IsQuiet zero (suc zero) = (refl, inl refl)
quiet_memory-IsQuiet zero (suc (suc zero)) = (refl, inl refl)
quiet_memory-IsQuiet zero (suc (suc (suc zero))) = (refl, inl refl)
quiet_memory-IsQuiet zero (suc (suc (suc (suc i)))) = (refl, inl refl)
quiet_memory-IsQuiet (suc b) i = (refl, inl refl)

find-Located_example :
    (location : ℕ) × (h : List (List ℕ)) × (run (find 1 0 1 toy (1 ∷ [])) quiet_memory
      ≡ returned location (with_hazards quiet_memory h))
    × Located quiet_memory (print_of 1) 0 0 location
unfolding get_next_hash_index md5_fingerprint
find-Located_example = find-Located 1 0 0 toy (1 ∷ []) quiet_memory quiet_memory-IsQuiet
