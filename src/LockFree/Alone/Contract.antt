-- ===== src/LockFree/Alone/Contract.antt =====
-- What `insert`, `find` and `remove` of cuckoo_filter/lock_free_filter.cpp do for a thread that runs
-- alone, in terms of the copies that the table holds.
use lock_free_cuckoo_filter.Prelude.{
  ℕ, zero, suc, ◌+◌, ◌%◌, ◌^◌, ◌<◌, ◌≤◌, ◌≡◌, ◌≢◌, refl, ap, ◌∙◌, Bool, true, false, List, [], ltb,
  ◌==◌, if◌then◌else◌, arith,
}
use native.Mathlib.Nat.{mod-lt}
use lock_free_cuckoo_filter.Common.{num_items_per_entry}
use lock_free_cuckoo_filter.Hash.{Digest, jenkins_hash, md5_fingerprint}
use lock_free_cuckoo_filter.Table.{Fingerprint, slot}
use lock_free_cuckoo_filter.Table.Copies.{partner, counts, copies}
use lock_free_cuckoo_filter.Table.Weigh.{weigh}
use lock_free_cuckoo_filter.Sequential.Valid.{
  IsPower, IsPower-pos, md5_fingerprint_nonempty, counts-IsFair,
}
use lock_free_cuckoo_filter.LockFree.Program.{mark_hazard, clear_hazard}
use lock_free_cuckoo_filter.LockFree.Memory.{Memory, store_hazard, allocate, returned, run}
use lock_free_cuckoo_filter.LockFree.Relocate.{get_next_hash_index}
use lock_free_cuckoo_filter.LockFree.Methods.{insert, insert_rounds}
use lock_free_cuckoo_filter.LockFree.Bounds.Insertion.{AreOrders}
use lock_free_cuckoo_filter.LockFree.Alone.Still.{still, run_from_still}
use lock_free_cuckoo_filter.LockFree.Alone.Contents.{
  contents, IsSteady, still-IsSteady, still-contents, still-fresh,
}
use lock_free_cuckoo_filter.LockFree.Alone.Shift.{total-le}
use lock_free_cuckoo_filter.LockFree.Alone.Entries.{
  contents-allocate, allocate-IsSteady, new_entry_taken, IsEntry,
}
use lock_free_cuckoo_filter.LockFree.Alone.Full.Rounds.{Rounds, insert_rounds-Rounds}

-- The copies that the memory's table holds
abbrev pub held : ℕ → Memory → Fingerprint → ℕ → ℕ
held n m g p = copies n (contents m) g p

-- What an insertion did, alone.
pub record Inserted (n c : ℕ) (d : Digest) (key : List ℕ) (m : Memory) (answer : Bool) (m' : Memory)
    : Type 0 where
  pub steady : IsSteady n (c + 40) m'
  pub balance :
      (g : Fingerprint) (p : ℕ)
      → g ≢ []
      → held n m' g p
        ≡ held n m g p
          + (if answer then counts n g p (jenkins_hash key % n) (md5_fingerprint d key) else 0)
  pub no_room :
      answer ≡ false
      → (i : ℕ) → i < num_items_per_entry
      → (slot (contents m') (jenkins_hash key % n) i ≢ [])
        × (slot (contents m') (partner n (jenkins_hash key % n) (md5_fingerprint d key)) i ≢ [])
  pub next_entry : m'.fresh ≡ m.fresh + 32

insert-run :
    (n tid fuel : ℕ) (d : Digest) (orders : ℕ → List ℕ) (key : List ℕ) (m m' : Memory)
    (answer : Bool)
    → m.fresh < 2 ^ 48
    → let f = md5_fingerprint d key in
      let hash1 = jenkins_hash key % n in
      run
          (insert_rounds n tid fuel orders 0 m.fresh hash1 (partner n hash1 f))
          (still (allocate m f))
        ≡ returned answer m'
      → run (insert n tid fuel d orders key) (still m) ≡ returned answer m'
unfolding run insert clear_hazard mark_hazard store_hazard allocate get_next_hash_index
insert-run n tid fuel d orders key m m' answer low e =
    let room : ltb m.fresh (2 ^ 48) ≡ true = ground arith in rw (room, run) e

fresh-IsEntry :
    {n c : ℕ} (m : Memory) (f : Fingerprint)
    → IsSteady n c m
    → m.fresh < 2 ^ 48
    → f ≢ []
    → IsEntry (allocate m f) f m.fresh
unfolding allocate
fresh-IsEntry m f s room hf = record {
  address = (room, s.even);
  nonnull = omega (arith, s.pos);
  taken = new_entry_taken m f hf;
  holds = let same : (m.fresh == m.fresh) ≡ true = ground arith in rw same refl;
}

Rounds-Inserted :
    {n c : ℕ} (d : Digest) (key : List ℕ) (m m₂ last : Memory) (answer : Bool)
    → IsPower n
    → IsSteady n c m
    → still last ≡ still m₂
    → let f = md5_fingerprint d key in
      Rounds n (c + 40) (allocate m f) (jenkins_hash key % n) f answer m₂
      → Inserted n c d key m answer last
unfolding copies allocate
Rounds-Inserted {n} d key m m₂ last answer pw s same x =
    let f = md5_fingerprint d key in
    let table = still-contents m₂ last same in
    record {
      steady = still-IsSteady m₂ last same x.steady;
      balance = λ g p hg.
          ap (weigh (counts n g p)) table
          ∙ x.weights (counts n g p) (counts-IsFair g p pw hg)
          ∙ ap
              (λ t.
                weigh (counts n g p) t
                + (if answer then counts n g p (jenkins_hash key % n) f else 0))
              (contents-allocate m f s);
      no_room = λ e i hi. rw table (x.no_room e i hi);
      next_entry = still-fresh m₂ last same ∙ x.same_fresh ∙ next_fresh m f;
    }
  where
    next_fresh : (m : Memory) (f : Fingerprint) → (allocate m f).fresh ≡ m.fresh + 32
    next_fresh m f = refl

-- insert of a thread that runs alone on a steady lock-free filter (no slot is marked, each is null
-- or names an entry with a non-empty string, no counter is above c) whose size is a power of two
-- below 2^31, where every shuffle gives slot indices, the fuel is 42 or more, c + 40 is below 2^16
-- and an address below 2^48 is left, returns: if it answers true the table holds one copy more of
-- the key's fingerprint in the key's pair, and if it answers false no slot of the key's two buckets
-- is empty; no other number of copies has changed, however many items were moved, and the filter is
-- steady with counters of at most c + 40.
pub insert-Inserted :
    {n c : ℕ} (tid fuel : ℕ) (d : Digest) (orders : ℕ → List ℕ) (key : List ℕ) (m : Memory)
    → IsPower n
    → AreOrders orders
    → IsSteady n c m
    → 42 ≤ fuel
    → c + 40 < 2 ^ 16
    → m.fresh < 2 ^ 48
    → (answer : Bool) × (m' : Memory) × (run (insert n tid fuel d orders key) m
        ≡ returned answer m')
      × Inserted n c d key m answer m'
insert-Inserted tid zero d orders key m pw ok s enough low room = absurd (omega (arith, enough))
insert-Inserted tid (suc zero) d orders key m pw ok s enough low room =
    absurd (omega (arith, enough))
insert-Inserted {n} {c} tid (suc (suc fuel)) d orders key m pw ok s enough low room =
    let f = md5_fingerprint d key in
    let hash1 = jenkins_hash key % n in
    let hf = md5_fingerprint_nonempty d key in
    let pos = IsPower-pos pw in
    let h1 : hash1 < n = mod-lt (jenkins_hash key) pos in
    let m₁ = allocate m f in
    let entry = fresh-IsEntry m f s room hf in
    let (answer, m₂, e, x) =
      insert_rounds-Rounds tid orders ok m.fresh hash1 f pos h1 fuel 40 c 0 m₁
        (allocate-IsSteady m f s) entry (total-le n (contents m₁) hash1) (omega (arith, enough))
        low in
    let (last, e', same) =
      run_from_still (insert n tid (suc (suc fuel)) d orders key) m (still m₂) answer
        (insert-run n tid (suc (suc fuel)) d orders key m (still m₂) answer room e) in
    (answer, last, e', Rounds-Inserted d key m m₂ last answer pw s same x)
