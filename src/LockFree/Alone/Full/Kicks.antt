-- ===== src/LockFree/Alone/Full/Kicks.antt =====
-- The kicks of `insert` of cuckoo_filter/lock_free_filter.cpp, run alone.
use lock_free_cuckoo_filter.Prelude.{
  ℕ, suc, ◌+◌, ◌^◌, ◌<◌, ◌≡◌, ◌≢◌, refl, ap, ◌∙◌, inl, inr, ◌⊎◌, Bool, true, false, List, [], ◌∷◌,
  if◌then◌else◌,
}
use lock_free_cuckoo_filter.Common.{num_items_per_entry}
use lock_free_cuckoo_filter.Table.{Fingerprint, HashTable, slot}
use lock_free_cuckoo_filter.Table.Weigh.{weigh}
use lock_free_cuckoo_filter.Sequential.Kicks.{IsFair}
use lock_free_cuckoo_filter.LockFree.Memory.{Memory, returned, run}
use lock_free_cuckoo_filter.LockFree.Methods.{try_kicks}
use lock_free_cuckoo_filter.LockFree.Relocate.{relocate}
use lock_free_cuckoo_filter.LockFree.Bounds.Bounded.{AllBelow}
use lock_free_cuckoo_filter.LockFree.Alone.Runs.{run_after}
use lock_free_cuckoo_filter.LockFree.Alone.Still.{still}
use lock_free_cuckoo_filter.LockFree.Alone.Contents.{contents, contents-IsShaped, IsSteady}
use lock_free_cuckoo_filter.LockFree.Alone.Walk.{nonempty_lem}
use lock_free_cuckoo_filter.LockFree.Alone.Kick.{Relocated, moved, stuck, relocate-Relocated}
use lock_free_cuckoo_filter.LockFree.Alone.Shift.{total, weigh-shifted, total-shifted}

-- A successful relocation from bucket `b`: an item was moved within its pair of buckets, and the
-- paths from `b` have one item less.
pub record Kicked (n c : ℕ) (m : Memory) (b : ℕ) (m' : Memory) : Type 0 where
  pub steady : IsSteady n (c + 1) m'
  pub weights :
      (w : ℕ → Fingerprint → ℕ) → IsFair n w → weigh w (contents m') ≡ weigh w (contents m)
  pub shorter : suc (total n (contents m') b) ≡ total n (contents m) b
  pub same_heap : m'.heap ≡ m.heap
  pub same_fresh : m'.fresh ≡ m.fresh

pub Relocated-Kicked :
    {n c : ℕ} (m m' : Memory) (b i : ℕ)
    → IsSteady n c m
    → 0 < n
    → i < num_items_per_entry
    → slot (contents m) b i ≢ []
    → Relocated n c m b i true m'
    → Kicked n c m b m'
Relocated-Kicked {n} m m' b i s pos hi nonempty (moved near src x) =
    let shape = contents-IsShaped m s.grid in
    record {
      steady = x.steady;
      weights =
          λ w fair. ap (weigh w) x.moves ∙ weigh-shifted (contents m) _ i shape pos hi src w fair;
      shorter =
          ap (λ (t : HashTable). suc (total n t b)) x.moves
          ∙ total-shifted (contents m) _ i shape pos hi src b refl (nonempty_lem nonempty) near;
      same_heap = x.same_heap;
      same_fresh = x.same_fresh;
    }

no_kicks : (n tid fuel b : ℕ) (m : Memory) → run (try_kicks n tid fuel b []) m ≡ returned false m
unfolding run try_kicks
no_kicks n tid fuel b m = refl

try_kicks_cons :
    (n tid fuel b i : ℕ) (order : List ℕ) (answer : Bool) (m m' : Memory)
    → run (relocate n tid fuel b i) m ≡ returned answer m'
    → run (try_kicks n tid fuel b (i ∷ order)) m
      ≡ (if answer then returned true m' else run (try_kicks n tid fuel b order) m')
unfolding run try_kicks
try_kicks_cons n tid fuel b i order true m m' e = run_after (relocate n tid fuel b i) _ m m' true e
try_kicks_cons n tid fuel b i order false m m' e =
    run_after (relocate n tid fuel b i) _ m m' false e

module _ {n c : ℕ} (tid fuel : ℕ) (m : Memory) (b : ℕ) (s : IsSteady n c m) (pos : 0 < n)
    (low : c + 1 < 2 ^ 16) (hb : b < n)
    (full_bucket : (i : ℕ) → i < num_items_per_entry → slot (contents m) b i ≢ []) where
  -- The kicks: no path ends, or an item was moved.
  abbrev pub Tried : List ℕ → Type 0
  Tried order =
      (run (try_kicks n tid (suc (suc fuel)) b order) (still m) ≡ returned false (still m))
      ⊎ ((m' : Memory) × (run (try_kicks n tid (suc (suc fuel)) b order) (still m)
            ≡ returned true (still m'))
          × Kicked n c m b m')

  try_kicks_next :
      (i : ℕ) (order : List ℕ)
      → run (relocate n tid (suc (suc fuel)) b i) (still m) ≡ returned false (still m)
      → Tried order
      → Tried (i ∷ order)
  try_kicks_next i order r (inl e) =
      inl (try_kicks_cons n tid (suc (suc fuel)) b i order false (still m) (still m) r ∙ e)
  try_kicks_next i order r (inr (m', e, x)) =
      inr (m', try_kicks_cons n tid (suc (suc fuel)) b i order false (still m) (still m) r ∙ e, x)

  pub try_kicks-Tried : (order : List ℕ) → AllBelow num_items_per_entry order → Tried order
  try_kicks-Tried [] ok = inl (no_kicks n tid (suc (suc fuel)) b (still m))
  try_kicks-Tried (i ∷ order) (hi, ok) =
      from (relocate-Relocated tid fuel m b i s pos low hb hi (full_bucket i hi))
        (try_kicks-Tried order ok)
    where
      from :
          (answer : Bool) × (m' : Memory) × (run (relocate n tid (suc (suc fuel)) b i) (still m)
              ≡ returned answer (still m'))
            × Relocated n c m b i answer m'
          → Tried order
          → Tried (i ∷ order)
      from (true, m', r, x) rest = inr (
        m',
        try_kicks_cons n tid (suc (suc fuel)) b i order true (still m) (still m') r,
        Relocated-Kicked m m' b i s pos hi (full_bucket i hi) x,
      )
      from (false, m', r, stuck end) rest = try_kicks_next i order r rest
