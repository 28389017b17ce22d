-- ===== src/LockFree/Alone/Full/Relocations.antt =====
-- What `relocate` of cuckoo_filter/lock_free_filter.cpp does to the copies, run alone.
use lock_free_cuckoo_filter.Prelude.{
  ℕ, suc, ◌+◌, ◌^◌, ◌<◌, ◌≡◌, ◌≢◌, refl, ap, ◌∙◌, Bool, true, false, [], ltb, arith,
}
use lock_free_cuckoo_filter.Common.{num_items_per_entry, num_max_kicks}
use lock_free_cuckoo_filter.Table.{Fingerprint, HashTable, slot}
use lock_free_cuckoo_filter.Table.Copies.{counts, copies}
use lock_free_cuckoo_filter.Sequential.Valid.{IsPower, IsPower-pos, counts-IsFair}
use lock_free_cuckoo_filter.LockFree.Memory.{Memory, returned, run}
use lock_free_cuckoo_filter.LockFree.Relocate.{relocate}
use lock_free_cuckoo_filter.LockFree.Alone.Still.{still, run_from_still}
use lock_free_cuckoo_filter.LockFree.Alone.Contents.{
  contents, contents-IsShaped, IsSteady, IsSteady-le, still-IsSteady, still-contents,
}
use lock_free_cuckoo_filter.LockFree.Alone.Walk.{distance, distance-empty, nonempty_lem}
use lock_free_cuckoo_filter.LockFree.Alone.Kick.{Relocated, moved, stuck, relocate-Relocated}
use lock_free_cuckoo_filter.LockFree.Alone.Shift.{distance-shifted}
use lock_free_cuckoo_filter.LockFree.Alone.Full.Kicks.{Relocated-Kicked}

-- What relocate did, alone, at a full slot
pub record RelocatedCopies (n c : ℕ) (m : Memory) (b i : ℕ) (answer : Bool) (m' : Memory)
    : Type 0 where
  pub steady : IsSteady n (c + 1) m'
  pub says : answer ≡ ltb (distance n i (contents m) num_max_kicks b) num_max_kicks
  pub same_copies :
      (g : Fingerprint) (p : ℕ) → g ≢ [] → copies n (contents m') g p ≡ copies n (contents m) g p
  pub unmoved : answer ≡ false → contents m' ≡ contents m
  pub shorter :
      answer ≡ true
      → suc (distance n i (contents m') num_max_kicks b) ≡ distance n i (contents m) num_max_kicks b

Relocated-copies :
    {n c : ℕ} (m m' : Memory) (b i : ℕ) (answer : Bool)
    → IsPower n
    → IsSteady n c m
    → i < num_items_per_entry
    → slot (contents m) b i ≢ []
    → Relocated n c m b i answer m'
    → RelocatedCopies n c m b i answer m'
unfolding copies
Relocated-copies {n} m m' b i _ pw s hi nonempty (moved near src x) =
    let k = Relocated-Kicked m m' b i s (IsPower-pos pw) hi nonempty (moved near src x) in
    record {
      steady = k.steady;
      says = ground arith;
      same_copies = λ g p hg. k.weights (counts n g p) (counts-IsFair g p pw hg);
      unmoved = λ e. cc;
      shorter = λ _.
          ap (λ (t : HashTable). suc (distance n i t num_max_kicks b)) x.moves
          ∙ distance-shifted (contents m) _ i (contents-IsShaped m s.grid) (IsPower-pos pw) hi src b
              refl (nonempty_lem nonempty) near;
    }
Relocated-copies m m' b i _ pw s hi nonempty (stuck end) = record {
  steady = IsSteady-le (omega arith) s;
  says = ground arith;
  same_copies = λ g p hg. refl;
  unmoved = λ _. refl;
  shorter = λ e. cc;
}

-- relocate of a thread that runs alone, with two units of fuel or more, from a full slot of a
-- steady lock-free filter whose size is a power of two below 2^31 and whose counters can grow by
-- one returns whether the path of full slots from there ends after fewer than 10 of them; the
-- number of copies of every non-empty fingerprint in every pair is as before, the path is one item
-- shorter if the answer is true, the table is unchanged if it is false, and the filter is steady.
pub relocate-copies :
    {n c : ℕ} (tid fuel : ℕ) (m : Memory) (b i : ℕ)
    → IsPower n
    → IsSteady n c m
    → c + 1 < 2 ^ 16
    → b < n
    → i < num_items_per_entry
    → slot (contents m) b i ≢ []
    → (answer : Bool) × (m' : Memory) × (run (relocate n tid (suc (suc fuel)) b i) m
        ≡ returned answer m')
      × RelocatedCopies n c m b i answer m'
relocate-copies {n} {c} tid fuel m b i pw s low hb hi nonempty =
    let (answer, m₁, e, r) =
      relocate-Relocated tid fuel m b i s (IsPower-pos pw) low hb hi nonempty in
    let x = Relocated-copies m m₁ b i answer pw s hi nonempty r in
    let (last, e', same) =
      run_from_still (relocate n tid (suc (suc fuel)) b i) m (still m₁) answer e in
    let table = still-contents m₁ last same in
    (
      answer,
      last,
      e',
      record {
        steady = still-IsSteady m₁ last same x.steady;
        says = x.says;
        same_copies = λ g p hg. ap (λ (t : HashTable). copies n t g p) table ∙ x.same_copies g p hg;
        unmoved = λ a. table ∙ x.unmoved a;
        shorter =
            λ a. ap (λ (t : HashTable). suc (distance n i t num_max_kicks b)) table ∙ x.shorter a;
      },
    )

-- relocate of a thread that runs alone, with two units of fuel or more, from a full slot of a
-- steady lock-free filter whose size is a power of two below 2^31 and whose counters can grow by
-- one answers true if the path from there ends after more than one and fewer than 10 full slots,
-- and leaves that slot full.
pub relocate_keeps_full :
    {n c : ℕ} (tid fuel : ℕ) (m : Memory) (b i : ℕ)
    → IsPower n
    → IsSteady n c m
    → c + 1 < 2 ^ 16
    → b < n
    → i < num_items_per_entry
    → slot (contents m) b i ≢ []
    → 1 < distance n i (contents m) num_max_kicks b
    → distance n i (contents m) num_max_kicks b < num_max_kicks
    → (m' : Memory) × (run (relocate n tid (suc (suc fuel)) b i) m ≡ returned true m')
      × (slot (contents m') b i ≢ [])
relocate_keeps_full {n} tid fuel m b i pw s low hb hi nonempty far near =
    let (answer, m', e, x) = relocate-copies tid fuel m b i pw s low hb hi nonempty in
    let found : ltb (distance n i (contents m) num_max_kicks b) num_max_kicks ≡ true =
      ground arith in
    let yes_answer : answer ≡ true = x.says ∙ found in
    (
      m',
      e ∙ ap (λ (a : Bool). returned a m') yes_answer,
      λ q. absurd (
          omega
            (arith, far, x.shorter yes_answer, distance-empty n i (contents m') num_max_kicks b q)),
    )
