-- ===== src/LockFree/Alone/Full/Rounds.antt =====
-- The rounds of `insert` of cuckoo_filter/lock_free_filter.cpp, run alone: while both buckets are
-- full an item is moved, until a slot is free or no path ends.
use lock_free_cuckoo_filter.Prelude.{
  ℕ, zero, suc, ◌+◌, ◌-◌, ◌^◌, ◌<◌, ◌≤◌, ◌≡◌, ◌≢◌, refl, ap, ◌∙◌, inl, inr, ◌⊎◌, Bool, true, false,
  List, [], if◌then◌else◌, arith,
}
use lock_free_cuckoo_filter.Common.{num_items_per_entry}
use lock_free_cuckoo_filter.Hash.{jenkins_hash}
use lock_free_cuckoo_filter.Index.Partner.{next_index-lt}
use lock_free_cuckoo_filter.Table.{Fingerprint, slot}
use lock_free_cuckoo_filter.Table.Copies.{partner}
use lock_free_cuckoo_filter.Table.Weigh.{weigh}
use lock_free_cuckoo_filter.Sequential.Kicks.{IsFair}
use lock_free_cuckoo_filter.LockFree.Memory.{Memory, store_word, returned, run}
use lock_free_cuckoo_filter.LockFree.Methods.{stored, full, try_slots, try_kicks, insert_rounds}
use lock_free_cuckoo_filter.LockFree.Bounds.Insertion.{AreOrders}
use lock_free_cuckoo_filter.LockFree.Alone.Still.{still}
use lock_free_cuckoo_filter.LockFree.Alone.Contents.{
  contents, contents-IsShaped, IsSteady, IsSteady-le, slot-null,
}
use lock_free_cuckoo_filter.LockFree.Alone.Walk.{distance-pos, nonempty_lem}
use lock_free_cuckoo_filter.LockFree.Alone.Shift.{total}
use lock_free_cuckoo_filter.LockFree.Alone.Entries.{IsEntry, Placed-IsSteady, weigh-placed}
use lock_free_cuckoo_filter.LockFree.Alone.Insert.{Placed}
use lock_free_cuckoo_filter.LockFree.Alone.Full.Kicks.{Kicked, try_kicks-Tried}
use lock_free_cuckoo_filter.LockFree.Alone.Full.OneRound.{
  round_stored, round_kicked, try_slots-still, IsEntry-same,
}

-- What the rounds of insert did, alone.
pub record Rounds (n c : ℕ) (m : Memory) (hash1 : ℕ) (f : Fingerprint) (answer : Bool) (m' : Memory)
    : Type 0 where
  pub steady : IsSteady n c m'
  pub weights :
      (w : ℕ → Fingerprint → ℕ)
      → IsFair n w
      → weigh w (contents m') ≡ weigh w (contents m) + (if answer then w hash1 f else 0)
  pub no_room :
      answer ≡ false
      → (i : ℕ) → i < num_items_per_entry
      → (slot (contents m') hash1 i ≢ []) × (slot (contents m') (partner n hash1 f) i ≢ [])
  pub same_heap : m'.heap ≡ m.heap
  pub same_fresh : m'.fresh ≡ m.fresh

-- The entry is put into an empty slot of one of the two buckets.
Placed-Rounds :
    {n c : ℕ} (m m' : Memory) (hash1 : ℕ) (f : Fingerprint) (p b i : ℕ)
    → IsSteady n c m
    → c < 2 ^ 16
    → 0 < n
    → hash1 < n
    → (b ≡ hash1) ⊎ (b ≡ partner n hash1 f)
    → i < num_items_per_entry
    → IsEntry m f p
    → Placed m p b i m'
    → Rounds n c m hash1 f true m'
unfolding store_word
Placed-Rounds {n} m m' hash1 f p b i s low pos h1 which hi entry placed =
    let (steady, after) = Placed-IsSteady m m' f p b i s low entry placed in
    let hb : b < n = elim which [
      | inl e ↦ rw e h1
      | inr e ↦ rw e (next_index-lt n hash1 (jenkins_hash f) pos)
    ] in
    record {
      steady = steady;
      weights = λ w fair.
          ap (weigh w) after
          ∙ weigh-placed (contents m) w b i f (contents-IsShaped m s.grid) fair hb hi
              (slot-null b i s placed.empty)
          ∙ ap (λ (x : ℕ). weigh w (contents m) + x)
              (elim which [
                | inl e ↦ ap (λ (x : ℕ). w x f) e
                | inr e ↦ ap (λ (x : ℕ). w x f) e ∙ fair.moves hash1 f h1
              ]);
      no_room = λ e. cc;
      same_heap = ap (λ (x : Memory). x.heap) placed.after;
      same_fresh = ap (λ (x : Memory). x.fresh) placed.after;
    }

module _ {n : ℕ} (tid : ℕ) (orders : ℕ → List ℕ) (ok : AreOrders orders) (p hash1 : ℕ)
    (f : Fingerprint) (pos : 0 < n) (h1 : hash1 < n) where
  -- How the rounds end, with at most `budget` moves
  abbrev Ending : (c budget fuel round : ℕ) → Memory → Type 0
  Ending c budget fuel round m =
      (answer : Bool) × (m' : Memory) × (run
          (insert_rounds n tid (suc (suc fuel)) orders round p hash1 (partner n hash1 f)) (still m)
        ≡ returned answer (still m'))
      × Rounds n (c + budget) m hash1 f answer m'

  -- A round that stores the entry
  stored-Ending :
      {c : ℕ} (budget fuel round : ℕ) (m m' : Memory) (b i : ℕ)
      → IsSteady n c m
      → IsEntry m f p
      → c + budget < 2 ^ 16
      → run (try_slots p hash1 (partner n hash1 f) num_items_per_entry 0 false) (still m)
        ≡ returned stored (still m')
      → (b ≡ hash1) ⊎ (b ≡ partner n hash1 f)
      → i < num_items_per_entry
      → Placed m p b i m'
      → Ending c budget fuel round m
  stored-Ending budget fuel round m m' b i s entry low e which hi placed = (
    true,
    m',
    round_stored n tid (suc fuel) orders round p hash1 (partner n hash1 f) (still m) (still m') e,
    Placed-Rounds m m' hash1 f p b i (IsSteady-le (omega arith) s) low pos h1 which hi entry placed,
  )

  -- A round that finds no item to move
  full-Ending :
      {c : ℕ} (budget fuel round : ℕ) (m : Memory)
      → IsSteady n c m
      → run (try_slots p hash1 (partner n hash1 f) num_items_per_entry 0 false) (still m)
        ≡ returned full (still m)
      → ((i : ℕ)
          → i < num_items_per_entry
          → (slot (contents m) hash1 i ≢ []) × (slot (contents m) (partner n hash1 f) i ≢ []))
      → run (try_kicks n tid (suc (suc fuel)) hash1 (orders round)) (still m)
        ≡ returned false (still m)
      → Ending c budget fuel round m
  full-Ending budget fuel round m s e taken e' = (
    false,
    m,
    round_kicked n tid (suc fuel) orders round p hash1 (partner n hash1 f) (still m) (still m) false
        e e',
    record {
      steady = IsSteady-le (omega arith) s;
      weights = λ w fair. omega arith;
      no_room = λ _ i hi. taken i hi;
      same_heap = refl;
      same_fresh = refl;
    },
  )

  -- A round that moves an item
  Kicked-Ending :
      {c : ℕ} (budget fuel round : ℕ) (m m' : Memory)
      → 0 < budget
      → run (try_slots p hash1 (partner n hash1 f) num_items_per_entry 0 false) (still m)
        ≡ returned full (still m)
      → run (try_kicks n tid (suc (suc (suc fuel))) hash1 (orders round)) (still m)
        ≡ returned true (still m')
      → Kicked n c m hash1 m'
      → Ending (c + 1) (budget - 1) fuel (round + 1) m'
      → Ending c budget (suc fuel) round m
  Kicked-Ending {c} budget fuel round m m' some_left e e' k (answer, last, r, x) = (
    answer,
    last,
    round_kicked n tid (suc (suc fuel)) orders round p hash1 (partner n hash1 f) (still m)
          (still m') true e e'
        ∙ r,
    record {
      steady = IsSteady-le (omega (arith, some_left)) x.steady;
      weights = λ w fair.
          x.weights w fair
          ∙ ap (λ (y : ℕ). y + (if answer then w hash1 f else 0)) (k.weights w fair);
      no_room = x.no_room;
      same_heap = x.same_heap ∙ k.same_heap;
      same_fresh = x.same_fresh ∙ k.same_fresh;
    },
  )

  -- The rounds end, since each of them makes the paths from the first bucket shorter.
  pub insert_rounds-Rounds :
      (fuel budget c round : ℕ) (m : Memory)
      → IsSteady n c m
      → IsEntry m f p
      → total n (contents m) hash1 ≤ budget
      → budget ≤ fuel
      → c + budget < 2 ^ 16
      → Ending c budget fuel round m
  insert_rounds-Rounds zero budget c round m s entry enough fits low =
      elim (try_slots-still p hash1 (partner n hash1 f) m s) [
        | inl (m', b, i, e, which, hi, placed) ↦
            stored-Ending budget zero round m m' b i s entry low e which hi placed
        | inr (e, taken) ↦
            let some_path =
              distance-pos n 0 (contents m) 9 hash1 (nonempty_lem (taken 0 (omega arith)).0) in
            absurd (omega (arith, enough, fits, some_path))
      ]
  insert_rounds-Rounds (suc fuel) budget c round m s entry enough fits low =
      elim (try_slots-still p hash1 (partner n hash1 f) m s) [
        | inl (m', b, i, e, which, hi, placed) ↦
            stored-Ending budget (suc fuel) round m m' b i s entry low e which hi placed
        | inr (e, taken) ↦
            let some_path =
              distance-pos n 0 (contents m) 9 hash1 (nonempty_lem (taken 0 (omega arith)).0) in
            elim (try_kicks-Tried tid (suc fuel) m hash1 s pos
              (omega (arith, low, enough, some_path)) h1 (λ i hi. (taken i hi).0) (orders round)
              (ok round)) [
                | inl e' ↦ full-Ending budget (suc fuel) round m s e taken e'
                | inr (m', e', k) ↦
                    Kicked-Ending budget fuel round m m' (omega (arith, enough, some_path)) e e' k (
                      insert_rounds-Rounds fuel (budget - 1) (c + 1) (round + 1) m' k.steady
                        (IsEntry-same m m' f p k.same_heap k.same_fresh entry)
                        (omega (arith, k.shorter, enough)) (omega (arith, fits))
                        (omega (arith, low, enough, some_path)))
              ]
      ]
