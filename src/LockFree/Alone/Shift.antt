-- ===== src/LockFree/Alone/Shift.antt =====
-- What the move of an item by `relocate` of cuckoo_filter/lock_free_filter.cpp does to the table of
-- fingerprints: its paths get shorter, and its sums stay.
use lock_free_cuckoo_filter.Prelude.{
  ℕ, zero, suc, ◌+◌, ◌<◌, ◌≤◌, ◌≡◌, ◌≢◌, sym, ap, ◌∙◌, is_empty, false, [], arith,
}
use lock_free_cuckoo_filter.Common.{num_items_per_entry, num_max_kicks}
use lock_free_cuckoo_filter.Hash.{jenkins_hash}
use lock_free_cuckoo_filter.Index.Partner.{next_index-lt}
use lock_free_cuckoo_filter.Table.{Fingerprint, HashTable, slot, write, IsShaped}
use lock_free_cuckoo_filter.Table.Shape.{
  write-IsShaped, slot-write_self, slot-write_ne, slot-write_column,
}
use lock_free_cuckoo_filter.Table.Weigh.{weigh, weigh-write}
use lock_free_cuckoo_filter.Sequential.Kicks.{IsFair}
use lock_free_cuckoo_filter.LockFree.Alone.Walk.{
  step, distance, distance-le, distance-cong, distance-moved, last_full, IsSource, IsMoved,
}

-- The lengths of the paths from the four slots of a bucket
abbrev pub total : ℕ → HashTable → ℕ → ℕ
total n t b =
    distance n 0 t num_max_kicks b
    + distance n 1 t num_max_kicks b
    + distance n 2 t num_max_kicks b
    + distance n 3 t num_max_kicks b

pub total-le : (n : ℕ) (t : HashTable) (b : ℕ) → total n t b ≤ 40
total-le n t b = omega (
  arith,
  distance-le n 0 t num_max_kicks b,
  distance-le n 1 t num_max_kicks b,
  distance-le n 2 t num_max_kicks b,
  distance-le n 3 t num_max_kicks b,
)

-- If one path gets shorter and the others keep their lengths, so does the sum.
total-shorter :
    (n : ℕ) (t t' : HashTable) (b i : ℕ)
    → i < num_items_per_entry
    → suc (distance n i t' num_max_kicks b) ≡ distance n i t num_max_kicks b
    → ((j : ℕ) → i ≢ j → distance n j t' num_max_kicks b ≡ distance n j t num_max_kicks b)
    → suc (total n t' b) ≡ total n t b
total-shorter n t t' b zero lt one rest =
    omega (arith, one, rest 1 (omega arith), rest 2 (omega arith), rest 3 (omega arith))
total-shorter n t t' b (suc zero) lt one rest =
    omega (arith, one, rest 0 (omega arith), rest 2 (omega arith), rest 3 (omega arith))
total-shorter n t t' b (suc (suc zero)) lt one rest =
    omega (arith, one, rest 0 (omega arith), rest 1 (omega arith), rest 3 (omega arith))
total-shorter n t t' b (suc (suc (suc zero))) lt one rest =
    omega (arith, one, rest 0 (omega arith), rest 1 (omega arith), rest 2 (omega arith))
total-shorter n t t' b (suc (suc (suc (suc i)))) lt one rest = absurd (omega (arith, lt))

module _ {n : ℕ} (t : HashTable) (e i : ℕ) (s : IsShaped n t) (pos : 0 < n)
    (hi : i < num_items_per_entry) (src : IsSource n i t e) where
  -- The item of `e` has moved to its other bucket.
  abbrev pub shifted : HashTable
  shifted = write (write t (step n i t e) i (slot t e i)) e i []

  apart : step n i t e ≢ e
  apart q = src.full (ap (λ (c : ℕ). slot t c i) (sym q) ∙ src.free)

  step-lt : step n i t e < n
  step-lt = next_index-lt n e (jenkins_hash (slot t e i)) pos

  shifted-IsMoved : IsMoved n i t shifted e
  shifted-IsMoved = record {
    source = src;
    kept = λ c ne ne'.
        slot-write_ne (write t (step n i t e) i (slot t e i)) e c i i [] (λ q. ne (sym q))
        ∙ slot-write_ne t (step n i t e) c i i (slot t e i) (λ q. ne' (sym q));
    cleared = slot-write_self e i [] (write-IsShaped _ i _ s) src.inside hi;
  }

  shifted_column : (c j : ℕ) → i ≢ j → slot shifted c j ≡ slot t c j
  shifted_column c j ne =
      slot-write_column (write t (step n i t e) i (slot t e i)) e c i j [] ne
      ∙ slot-write_column t (step n i t e) c i j (slot t e i) ne

  pub weigh-shifted : (w : ℕ → Fingerprint → ℕ) → IsFair n w → weigh w shifted ≡ weigh w t
  weigh-shifted w fair = omega (
    arith,
    weigh-write w e i [] (write-IsShaped (step n i t e) i (slot t e i) s) src.inside hi,
    ap (w e) (slot-write_ne t (step n i t e) e i i (slot t e i) apart),
    weigh-write w (step n i t e) i (slot t e i) s step-lt hi,
    ap (w (step n i t e)) src.free,
    fair.empty (step n i t e),
    fair.empty e,
    fair.moves e (slot t e i) src.inside,
  )

  pub distance-shifted :
      (b : ℕ)
      → last_full n i t num_max_kicks b ≡ e
      → is_empty (slot t b i) ≡ false
      → distance n i t num_max_kicks b < num_max_kicks
      → suc (distance n i shifted num_max_kicks b) ≡ distance n i t num_max_kicks b
  distance-shifted b last full near =
      distance-moved n i t shifted num_max_kicks b e shifted-IsMoved last full near

  pub total-shifted :
      (b : ℕ)
      → last_full n i t num_max_kicks b ≡ e
      → is_empty (slot t b i) ≡ false
      → distance n i t num_max_kicks b < num_max_kicks
      → suc (total n shifted b) ≡ total n t b
  total-shifted b last full near =
      total-shorter n t shifted b i hi (distance-shifted b last full near)
        (λ j ne. distance-cong n j t shifted num_max_kicks b (λ c. shifted_column c j ne))
