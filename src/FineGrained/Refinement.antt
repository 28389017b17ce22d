-- ===== src/FineGrained/Refinement.antt =====
-- Runs of one thread of cuckoo_filter/fine_grained_locked_filter.cpp, beside runs of
-- cuckoo_filter/seq_filter.cpp.
use lock_free_cuckoo_filter.Prelude.{
  ℕ, ◌%◌, ◌≡◌, refl, sym, ap, ◌∙◌, Bool, true, false, none, some, List, [], ◌∷◌, ◌==◌,
  if◌then◌else◌,
}
use lock_free_cuckoo_filter.Common.{num_items_per_entry, num_max_kicks}
use lock_free_cuckoo_filter.Hash.{Digest, jenkins_hash, md5_fingerprint}
use lock_free_cuckoo_filter.Sequential.{
  SequentialFilter, fill_loop, find_loop, clear_loop, kick_loop, insert_table, find_table,
  remove_table,
}
use lock_free_cuckoo_filter.Sequential
use lock_free_cuckoo_filter.Sequential.History
use lock_free_cuckoo_filter.Sequential.History.{Call, inserting, finding, removing}
use lock_free_cuckoo_filter.FineGrained.Program.{done, ◌>>=◌, with_lock}
use lock_free_cuckoo_filter.FineGrained.Memory.{FineGrainedFilter, num_mutexes, set_mutex, run}
use lock_free_cuckoo_filter.FineGrained.Methods.{
  find_slots_locked, get_next_hash_index, insert, find, remove, request, session,
}
use lock_free_cuckoo_filter.FineGrained.Alone.{
  IsFree, outcome, ends, run_after, fill_slots_locked-run, find_slots_locked-run,
  clear_slots_locked-run, with_lock-run, stage, stage-outcome, kick_rounds-kick_loop,
}

-- The same filter behind one mutex, which is free
abbrev pub behind_one_mutex : FineGrainedFilter → SequentialFilter
behind_one_mutex s = record {
  table_size = s.table_size;
  verbose = s.verbose;
  hash_table = s.hash_table;
  mtx = false;
}

insert-insert_table :
    (tid n : ℕ) (d : Digest) (rand : ℕ → ℕ) (key : List ℕ) (s : FineGrainedFilter)
    → IsFree s
    → run tid (insert n d rand key) s
      ≡ ends s (insert_table n rand (jenkins_hash key % n) (md5_fingerprint d key) s.hash_table)
unfolding insert insert_table get_next_hash_index Sequential.get_next_hash_index set_mutex
insert-insert_table tid n d rand key s free =
    let f = md5_fingerprint d key in
    let hash1 = jenkins_hash key % n in
    let hash2 = get_next_hash_index n hash1 f in
    let start = if rand 0 % 2 == 0 then hash1 else hash2 in
    stage-outcome tid (hash1 % num_mutexes) _ _ s _ _ free
      (λ x. fill_slots_locked-run tid num_items_per_entry 0 hash1 f _)
      (stage-outcome tid (hash2 % num_mutexes) _ _ s _ _ free
        (λ x. fill_slots_locked-run tid num_items_per_entry 0 hash2 f _)
        (kick_rounds-kick_loop tid n rand num_max_kicks 1 start f s free))

find-find_table :
    (tid n : ℕ) (d : Digest) (key : List ℕ) (s : FineGrainedFilter)
    → IsFree s
    → run tid (find n d key) s
      ≡ ends s
          (find_table n (jenkins_hash key % n) (md5_fingerprint d key) s.hash_table, s.hash_table)
unfolding find find_table get_next_hash_index Sequential.get_next_hash_index set_mutex
find-find_table tid n d key s free =
    let f = md5_fingerprint d key in
    let hash1 = jenkins_hash key % n in
    let hash2 = get_next_hash_index n hash1 f in
    let t = s.hash_table in
    let second =
      with_lock false (hash2 % num_mutexes) (find_slots_locked num_items_per_entry 0 hash2 f) in
    let there = find_loop num_items_per_entry 0 hash2 f t in
    let last : run tid second s ≡ ends s (there, t) =
      with_lock-run false tid (hash2 % num_mutexes) _ s there t free
        (λ x. find_slots_locked-run tid num_items_per_entry 0 hash2 f _) in
    stage false tid (hash1 % num_mutexes) _ second s (find_loop num_items_per_entry 0 hash1 f t, t)
      free (λ x. find_slots_locked-run tid num_items_per_entry 0 hash1 f _)
    ∙ elim (find_loop num_items_per_entry 0 hash1 f t)
        as (λ c.
          (if c then ends s (true, t) else run tid second s)
          ≡ ends s ((if c then true else there), t)) [ true ↦ refl | false ↦ last ]

remove-remove_table :
    (tid n : ℕ) (d : Digest) (key : List ℕ) (s : FineGrainedFilter)
    → IsFree s
    → run tid (remove n d key) s
      ≡ ends s (remove_table n (jenkins_hash key % n) (md5_fingerprint d key) s.hash_table)
unfolding remove remove_table get_next_hash_index Sequential.get_next_hash_index set_mutex
remove-remove_table tid n d key s free =
    let f = md5_fingerprint d key in
    let hash1 = jenkins_hash key % n in
    let hash2 = get_next_hash_index n hash1 f in
    let t = s.hash_table in
    let o = clear_loop num_items_per_entry 0 hash2 f t in
    stage-outcome tid (hash1 % num_mutexes) _ _ s _ _ free
      (λ x. clear_slots_locked-run tid num_items_per_entry 0 hash1 f _)
      (with_lock-run true tid (hash2 % num_mutexes) _ s (outcome o t).0 (outcome o t).1 free
          (λ x. clear_slots_locked-run tid num_items_per_entry 0 hash2 f _)
        ∙ elim o
            as (λ o.
              ends s (outcome o t)
              ≡ ends s (elim o [ some cleared ↦ (true, cleared) | none ↦ (false, t) ])) [
                | none ↦ refl
                | some cleared ↦ refl
              ])

-- A call of a thread that runs alone on a filter whose mutexes are free never waits. It gives the
-- answer that the sequential filter gives on the same table, and leaves the table that the sequential
-- filter leaves, with the mutexes free.
pub request-call :
    (tid : ℕ) (d : Digest) (c : Call) (s : FineGrainedFilter)
    → IsFree s
    → (answer : Bool) × (s' : FineGrainedFilter) × (run tid (request s.table_size d c) s
        ≡ some (answer, s'))
      × (History.call d c (behind_one_mutex s) ≡ some (answer, behind_one_mutex s'))
      × IsFree s'
      × (s'.table_size ≡ s.table_size)
unfolding request History.call Sequential.insert Sequential.find Sequential.remove Sequential.lock
    Sequential.unlock
request-call tid d (inserting rand key) s free =
    (_, _, insert-insert_table tid s.table_size d rand key s free, refl, free, refl)
request-call tid d (finding key) s free =
    (_, _, find-find_table tid s.table_size d key s free, refl, free, refl)
request-call tid d (removing key) s free =
    (_, _, remove-remove_table tid s.table_size d key s free, refl, free, refl)

-- Any calls of a thread that runs alone on a filter whose eight mutexes are free return, with the
-- answers that the filter behind one mutex gives to the same calls on the same table, with the same
-- last table, and with every mutex free.
pub session-run :
    (tid : ℕ) (d : Digest) (cs : List Call) (s : FineGrainedFilter)
    → IsFree s
    → (answers : List Bool) × (last : FineGrainedFilter) × (run tid (session s.table_size d cs) s
        ≡ some (answers, last))
      × (History.run d cs (behind_one_mutex s) ≡ some (answers, behind_one_mutex last))
      × IsFree last
unfolding session run History.run
session-run tid d [] s free = ([], s, refl, refl, free)
session-run tid d (c ∷ cs) s free =
    let n = s.table_size in
    let (answer, s', e, e', free', size) = request-call tid d c s free in
    let (answers, last, r, r', free'') = session-run tid d cs s' free' in
    let rest : run tid (session n d cs) s' ≡ some (answers, last) =
      ap (λ (k : ℕ). run tid (session k d cs) s') (sym size) ∙ r in
    (
      answer ∷ answers,
      last,
      run_after tid (request n d c) (λ a. session n d cs >>= λ xs. done (a ∷ xs)) s s' answer e
          ∙ run_after tid (session n d cs) (λ xs. done (answer ∷ xs)) s' last answers rest,
      rw (e', History.run) (rw (r', History.run) refl),
      free'',
    )
