-- ===== src/LockFree/Alone/Full/OneRound.antt =====
-- One round of `insert` of cuckoo_filter/lock_free_filter.cpp, run alone.
use lock_free_cuckoo_filter.Prelude.{
  ℕ, suc, ◌+◌, ◌<◌, ◌≡◌, ◌≢◌, refl, ap, ◌∙◌, inl, inr, ◌⊎◌, Bool, true, false, List, [],
  if◌then◌else◌, arith,
}
use lock_free_cuckoo_filter.Common.{num_items_per_entry}
use lock_free_cuckoo_filter.Table.{Fingerprint, slot}
use lock_free_cuckoo_filter.LockFree.Memory.{Memory, word_at, store_word, returned, run}
use lock_free_cuckoo_filter.LockFree.Methods.{
  stored, full, try_slots, try_kicks, continue_insert, insert_rounds,
}
use lock_free_cuckoo_filter.LockFree.Alone.Runs.{run_after}
use lock_free_cuckoo_filter.LockFree.Alone.Still.{still}
use lock_free_cuckoo_filter.LockFree.Alone.Contents.{contents, IsSteady, slot-taken}
use lock_free_cuckoo_filter.LockFree.Alone.Entries.{IsEntry}
use lock_free_cuckoo_filter.LockFree.Alone.Insert.{try_slots-run, Placed}

module _ (n tid fuel : ℕ) (orders : ℕ → List ℕ) (round p hash1 hash2 : ℕ) (m m' : Memory) where
  pub round_stored :
      run (try_slots p hash1 hash2 num_items_per_entry 0 false) m ≡ returned stored m'
      → run (insert_rounds n tid (suc fuel) orders round p hash1 hash2) m ≡ returned true m'
  unfolding run insert_rounds continue_insert
  round_stored e = run_after (try_slots p hash1 hash2 num_items_per_entry 0 false) _ m m' stored e

  pub round_kicked :
      (answer : Bool)
      → run (try_slots p hash1 hash2 num_items_per_entry 0 false) m ≡ returned full m
      → run (try_kicks n tid (suc fuel) hash1 (orders round)) m ≡ returned answer m'
      → run (insert_rounds n tid (suc fuel) orders round p hash1 hash2) m ≡ (
          if answer
          then run (insert_rounds n tid fuel orders (round + 1) p hash1 hash2) m'
          else returned false m')
  unfolding run insert_rounds continue_insert
  round_kicked true e e' =
      run_after (try_slots p hash1 hash2 num_items_per_entry 0 false) _ m m full e
      ∙ run_after (try_kicks n tid (suc fuel) hash1 (orders round)) _ m m' true e'
  round_kicked false e e' =
      run_after (try_slots p hash1 hash2 num_items_per_entry 0 false) _ m m full e
      ∙ run_after (try_kicks n tid (suc fuel) hash1 (orders round)) _ m m' false e'

-- One round's look at the slots: the entry was stored, or both buckets are full.
pub try_slots-still :
    {n c : ℕ} (p hash1 hash2 : ℕ) (m : Memory)
    → IsSteady n c m
    → ((m' : Memory) × (b : ℕ) × (i : ℕ) × (run
            (try_slots p hash1 hash2 num_items_per_entry 0 false)
            (still m)
          ≡ returned stored (still m'))
        × ((b ≡ hash1) ⊎ (b ≡ hash2))
        × (i < num_items_per_entry)
        × Placed m p b i m')
      ⊎ ((run (try_slots p hash1 hash2 num_items_per_entry 0 false) (still m)
            ≡ returned full (still m))
          × ((i : ℕ)
              → i < num_items_per_entry
              → (slot (contents m) hash1 i ≢ []) × (slot (contents m) hash2 i ≢ [])))
unfolding store_word word_at
try_slots-still p hash1 hash2 m s =
    elim (try_slots-run p hash1 hash2 num_items_per_entry 0 (still m)) [
      | inl (m₁, e, b, i, which, lt, placed) ↦ inl (
        store_word m b i placed.word,
        b,
        i,
        e ∙ ap (λ (x : Memory). returned stored x) placed.after,
        which,
        omega (arith, lt),
        record { word = placed.word; empty = placed.empty; made = placed.made; after = refl },
      )
      | inr (e, taken) ↦ inr (
        e,
        λ i lt.
            let x = taken i (omega arith) (omega (arith, lt)) in
            ((slot-taken hash1 i s x.0).0, (slot-taken hash2 i s x.1).0),
      )
    ]

pub IsEntry-same :
    (m m' : Memory) (f : Fingerprint) (p : ℕ)
    → m'.heap ≡ m.heap
    → m'.fresh ≡ m.fresh
    → IsEntry m f p
    → IsEntry m' f p
IsEntry-same m m' f p e q x = record {
  address = x.address;
  nonnull = x.nonnull;
  taken = rw (e, q) (x.taken);
  holds = rw e (x.holds);
}
