-- ===== src/Tests/FineGrainedTests.antt =====
-- Runs of the filter of cuckoo_filter/fine_grained_locked_filter.cpp: alone, and with two threads.
use lock_free_cuckoo_filter.Prelude.{
  ℕ, zero, suc, ◌≡◌, ◌⊎◌, inl, refl, Bool, true, false, some, List, [], ◌∷◌, ◌++◌, replicate,
}
use lock_free_cuckoo_filter.Sequential.History
use lock_free_cuckoo_filter.Sequential.History.{Call, inserting, finding, removing}
use lock_free_cuckoo_filter.FineGrained.Program.{Program}
use lock_free_cuckoo_filter.FineGrained.Memory.{
  FineGrainedFilter, new_filter, Progress, stopped, blocked, moved, advance, readers, run,
}
use lock_free_cuckoo_filter.FineGrained.Methods.{insert, find, request, session}
use lock_free_cuckoo_filter.FineGrained.Alone.{IsFree}
use lock_free_cuckoo_filter.FineGrained.Refinement.{behind_one_mutex, session-run}
use lock_free_cuckoo_filter.FineGrained.Threads.{
  System, update, act, Reach, start, later, Access, next_access,
}
use lock_free_cuckoo_filter.FineGrained.Races.{no_race, no_deadlock}
use lock_free_cuckoo_filter.Tests.SequentialTests.{toy, zeros, tens, full_table}

abbrev full_filter : FineGrainedFilter
full_filter = record {
  table_size = 1;
  verbose = false;
  hash_table = full_table;
  mutexes = λ m. readers [];
}

abbrev some_calls : List Call
some_calls = finding (2 ∷ []) ∷ inserting tens (5 ∷ []) ∷ finding (2 ∷ []) ∷ removing (5 ∷ []) ∷ []

session-run_example :
    (answers : List Bool) × (last : FineGrainedFilter) × (run 0
        (session 1 toy some_calls)
        full_filter
      ≡ some (answers, last))
    × (History.run toy some_calls (behind_one_mutex full_filter)
        ≡ some (answers, behind_one_mutex last))
    × IsFree last
session-run_example = session-run 0 toy some_calls full_filter (λ m. refl)

-- Two threads, the first of which fills the only bucket
abbrev calls : ℕ → List Call
calls zero =
    inserting zeros (1 ∷ [])
    ∷ inserting zeros (2 ∷ [])
    ∷ inserting zeros (3 ∷ [])
    ∷ inserting zeros (4 ∷ [])
    ∷ inserting zeros (5 ∷ [])
    ∷ []
calls (suc j) = finding (9 ∷ []) ∷ removing (9 ∷ []) ∷ []

abbrev first_state : System
first_state = record { filter = new_filter 1 false; thread = λ tid. session 1 toy (calls tid) }

-- The state after thread `tid` takes its action, if it has one.
abbrev after_action : System → ℕ → Progress (List Bool) → System
after_action s tid (moved f next) = record { filter = f; thread = update s.thread tid next }
after_action s tid _ = s

-- The threads take their actions in a given order.
abbrev schedule : List ℕ → System → System
schedule [] s = s
schedule (tid ∷ tids) s = schedule tids (after_action s tid (advance tid s.filter (s.thread tid)))

schedule-Reach :
    (tids : List ℕ) (s : System) → Reach 1 toy calls s → Reach 1 toy calls (schedule tids s)
schedule-Reach [] s r = r
schedule-Reach (tid ∷ tids) s r =
    schedule-Reach tids (after_action s tid (advance tid s.filter (s.thread tid)))
      (one (advance tid s.filter (s.thread tid)) refl)
  where
    one :
        (p : Progress (List Bool))
        → advance tid s.filter (s.thread tid) ≡ p
        → Reach 1 toy calls (after_action s tid p)
    one stopped e = r
    one blocked e = r
    one (moved f next) e = later r (act tid e)

-- Thread 0 holds the bucket's mutex, and thread 1 waits for it.
abbrev waiting_state : System
waiting_state = schedule (0 ∷ []) first_state

no_deadlock_example :
    (other : ℕ) × (f : FineGrainedFilter) × (next : Program (List Bool)) × (advance other
        waiting_state.filter
        (waiting_state.thread other)
      ≡ moved f next)
unfolding advance session request insert find new_filter
no_deadlock_example = no_deadlock 1 (schedule-Reach (0 ∷ []) first_state start) refl

-- Thread 0 is about to write in the swap of its replace phase, without a lock, while thread 1 is about
-- to read the same slot under the bucket's mutex.
abbrev racing_state : System
racing_state = schedule (replicate 43 0 ++ 1 ∷ []) first_state

abbrev swap_access : Access
swap_access = record { writes = true; swap = true; bucket = 0; index = 0 }

abbrev find_access : Access
find_access = record { writes = false; swap = false; bucket = 0; index = 0 }

race_test :
    (next_access (racing_state.thread 0) ≡ some swap_access)
    × (next_access (racing_state.thread 1) ≡ some find_access)
unfolding advance session request insert find new_filter next_access
race_test = (refl, refl)

no_race_example : (swap_access.swap ≡ true) ⊎ (find_access.swap ≡ true)
no_race_example =
    no_race 0 1 swap_access find_access
      (schedule-Reach (replicate 43 0 ++ 1 ∷ []) first_state start) (λ e. cc) race_test.0
      race_test.1 (refl, inl refl)
