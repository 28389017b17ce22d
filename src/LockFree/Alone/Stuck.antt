-- ===== src/LockFree/Alone/Stuck.antt =====
-- A marked slot of cuckoo_filter/lock_free_filter.cpp whose destination another entry has taken.
use lock_free_cuckoo_filter.Prelude.{
  ℕ, zero, suc, ◌+◌, ◌%◌, ◌^◌, ◌<◌, ◌≡◌, ◌≢◌, refl, ap, ◌∙◌, inl, inr, true, false, some,
  Bool-cases, ==_iff, List, ◌==◌, arith,
}
use lock_free_cuckoo_filter.Hash.{Digest, jenkins_hash, md5_fingerprint}
use lock_free_cuckoo_filter.Pointer.{TablePointer, get_counter, get_real_pointer, get_marked}
use lock_free_cuckoo_filter.Pointer.Fields.{real_pointer-IsAddress}
use lock_free_cuckoo_filter.Pointer.RoundTrip.{get-create_pointer}
use lock_free_cuckoo_filter.Table.{Fingerprint}
use lock_free_cuckoo_filter.LockFree.Program.{Program, done, ◌>>=◌, mark_hazard, clear_hazard}
use lock_free_cuckoo_filter.LockFree.Memory.{
  Memory, word_at, store_hazard, returned, unfinished, run,
}
use lock_free_cuckoo_filter.LockFree.Relocate.{
  get_next_hash_index, mark_source, give_up, relocate_marked, help_rounds, help_relocate,
}
use lock_free_cuckoo_filter.LockFree.Methods.{
  helped, look_at, continue_first, find_slot, continue_find, find_slots, find_pointer, find,
}
use lock_free_cuckoo_filter.LockFree.Alone.Runs.{go_on, run->>=, run_after}
use lock_free_cuckoo_filter.LockFree.Alone.Still.{still, unfinished_from_still}

-- Slot `i` of `b` is marked, and its entry's other bucket has another entry in that slot.
pub record IsBlocked (n : ℕ) (m : Memory) (b i : ℕ) : Type 0 where
  pub str : Fingerprint
  pub fits : word_at m b i < 2 ^ 64
  pub low : get_counter (word_at m b i) + 1 < 2 ^ 16
  pub marked : get_marked (word_at m b i) ≡ true
  pub full : get_real_pointer (word_at m b i) ≢ 0
  pub live : m.heap (get_real_pointer (word_at m b i)) ≡ some str
  pub taken : get_real_pointer (word_at m (get_next_hash_index n b str) i) ≢ 0
  pub other :
      get_real_pointer (word_at m (get_next_hash_index n b str) i)
      ≢ get_real_pointer (word_at m b i)

module _ {n : ℕ} (tid : ℕ) (m : Memory) (b i : ℕ) (x : IsBlocked n m b i) where
  abbrev source : TablePointer
  source = word_at m b i

  abbrev dest : TablePointer
  dest = word_at m (get_next_hash_index n b x.str) i

  -- The help swaps the destination where it expects the source's word.
  give_up-run :
      run (give_up n tid (get_next_hash_index n b x.str) i source dest) (still m)
      ≡ returned tt (still m)
  unfolding run give_up word_at
  give_up-run =
      let apart : (get_real_pointer source == get_real_pointer dest) ≡ false =
        ground (arith, x.other) in
      let (w, made, fits, count, ptr, mark) =
        get-create_pointer (get_counter source + 1) (get_real_pointer source) true x.low
          (real_pointer-IsAddress source x.fits) in
      let differs : (dest == source) ≡ false = elim (Bool-cases (dest == source)) [
        | inl e ↦ absurd (x.other (ap get_real_pointer ((==_iff dest source).0 e)))
        | inr e ↦ e
      ] in
      rw (apart, made, differs, run) refl

  help_relocate-blocked :
      (fuel : ℕ) → run (help_relocate n tid (suc fuel) b i false) (still m) ≡ returned tt (still m)
  unfolding run help_relocate help_rounds mark_source relocate_marked clear_hazard mark_hazard
      store_hazard word_at
  help_relocate-blocked fuel =
      let there : (get_real_pointer dest == 0) ≡ false = ground (arith, x.taken) in
      rw (x.marked, x.live, run, there) give_up-run

  look_at-blocked :
      (fuel : ℕ) (f : Fingerprint)
      → run (look_at n tid (suc fuel) f b i source) (still m) ≡ returned helped (still m)
  unfolding run look_at
  look_at-blocked fuel f =
      let there : (get_real_pointer source == 0) ≡ false = ground (arith, x.full) in
      rw (there, x.marked)
        (run_after (help_relocate n tid (suc fuel) b i false) (λ _. done helped) (still m) (still m)
          tt (help_relocate-blocked fuel))

  -- The look at the slot helps, and starts again.
  find_slot-blocked :
      (fuel : ℕ) (f : Fingerprint) (hash2 : ℕ)
      → run (find_slot n tid fuel f b hash2 i) (still m) ≡ unfinished (still m)
  unfolding run find_slot continue_first mark_hazard store_hazard word_at
  find_slot-blocked zero f hash2 = refl
  find_slot-blocked (suc fuel) f hash2 =
      run_after (look_at n tid (suc fuel) f b i source)
        (continue_first n tid (suc fuel) f (find_slot n tid fuel f b hash2 i) b hash2 i source)
        (still m) (still m) helped (look_at-blocked fuel f)
      ∙ find_slot-blocked fuel f hash2

stops_after :
    {A B : Type 0} (p : Program A) (f : A → Program B) (m m' : Memory)
    → run p m ≡ unfinished m'
    → run (p >>= f) m ≡ unfinished m'
stops_after p f m m' e = run->>= p f m ∙ ap (go_on f) e

find-blocked :
    {n : ℕ} (tid fuel : ℕ) (d : Digest) (key : List ℕ) (m : Memory)
    → IsBlocked n m (jenkins_hash key % n) 0
    → run (find n tid fuel d key) (still m) ≡ unfinished (still m)
unfolding run find find_pointer find_slots clear_hazard mark_hazard store_hazard
find-blocked {n} tid fuel d key m x =
    let f = md5_fingerprint d key in
    let hash1 = jenkins_hash key % n in
    let hash2 = get_next_hash_index n hash1 f in
    stops_after (find_pointer n tid fuel d key 0) (λ (p : ℕ × TablePointer). done p.0) (still m)
      (still m)
      (stops_after (find_slot n tid fuel f hash1 hash2 0)
        (continue_find (find_slots n tid fuel f hash1 hash2 3 1 0)) (still m) (still m)
        (find_slot-blocked tid m hash1 0 x fuel f hash2))

-- If the first slot of a key's first bucket is marked, its counter is below 65535, it names an
-- entry, and the same slot of that entry's other bucket names another entry, then find of the key
-- by a thread that runs alone uses up whatever fuel it is given, and has not changed the table.
pub find_never_returns :
    {n : ℕ} (tid fuel : ℕ) (d : Digest) (key : List ℕ) (m : Memory)
    → IsBlocked n m (jenkins_hash key % n) 0
    → (last : Memory) × (run (find n tid fuel d key) m ≡ unfinished last)
      × (last.hash_table ≡ m.hash_table)
find_never_returns {n} tid fuel d key m x =
    let (last, e, same) =
      unfinished_from_still (find n tid fuel d key) m (still m) (find-blocked tid fuel d key m x) in
    (last, e, ap (λ (l : Memory). l.hash_table) same)
