-- ===== src/Sequential/Valid.antt =====
-- The states of the filter between calls, and what a caller sees of them.
use native.Mathlib.Nat.{one-le-pow}
use lock_free_cuckoo_filter.Prelude.{
  ℕ, ◌%◌, ◌^◌, ◌<◌, ◌≡◌, ◌≢◌, ◌⊎◌, refl, ap, false, true, some, [], List, Bool, arith, length,
}
use lock_free_cuckoo_filter.Hash.{Digest, jenkins_hash, md5_fingerprint}
use lock_free_cuckoo_filter.Table.{Fingerprint, IsShaped}
use lock_free_cuckoo_filter.Table.Shape.{empty_table-IsShaped}
use lock_free_cuckoo_filter.Table.Copies.{
  partner, pair_of, counts, counts_inversion, copies, counts-empty, counts-partner,
  copies-empty_table,
}
use lock_free_cuckoo_filter.Sequential.{SequentialFilter, new, lock}
use lock_free_cuckoo_filter.Sequential.Kicks.{IsFair}

-- The size is a power of two that an `int` holds.
pub record IsPower (n : ℕ) : Type 0 where
  pub exponent : ℕ
  pub is_power : n ≡ 2 ^ exponent
  pub fits_int : n < 2 ^ 31

-- The table has its shape, and nobody holds the mutex.
pub record IsValid (s : SequentialFilter) : Type 0 where
  pub power : IsPower s.table_size
  pub shaped : IsShaped s.table_size s.hash_table
  pub free : s.mtx ≡ false

pub IsPower-pos : {n : ℕ} → IsPower n → 0 < n
IsPower-pos p = omega (arith, one-le-pow p.exponent 2)

-- The first bucket of a key, and the name of its pair of buckets.
abbrev pub hash1_of : SequentialFilter → List ℕ → ℕ
hash1_of s key = jenkins_hash key % s.table_size

abbrev pub key_pair : Digest → SequentialFilter → List ℕ → ℕ
key_pair d s key = pair_of s.table_size (hash1_of s key) (md5_fingerprint d key)

-- How many copies of `g` the filter stores in the pair `p`.
abbrev pub stored : SequentialFilter → Fingerprint → ℕ → ℕ
stored s g p = copies s.table_size s.hash_table g p

-- How many of them answer for a key.
abbrev pub stored_for : Digest → SequentialFilter → List ℕ → ℕ
stored_for d s key = stored s (md5_fingerprint d key) (key_pair d s key)

-- What one more copy of the key's fingerprint adds to the copies of `g` in `p`.
abbrev pub one_for : Digest → SequentialFilter → List ℕ → Fingerprint → ℕ → ℕ
one_for d s key g p = counts s.table_size g p (hash1_of s key) (md5_fingerprint d key)

pub md5_fingerprint_nonempty : (d : Digest) (key : List ℕ) → md5_fingerprint d key ≢ []
unfolding md5_fingerprint
md5_fingerprint_nonempty d key e = omega (arith, d.length-evp_md5 key, ap length e)

pub counts-IsFair : {n : ℕ} (g : Fingerprint) (p : ℕ) → IsPower n → g ≢ [] → IsFair n (counts n g p)
counts-IsFair {n} g p pw h = record {
  empty = λ b. counts-empty n g p b h;
  moves = λ b f lt. rw pw.is_power (counts-partner pw.exponent g p b f (rw pw.is_power at lt));
}

pub counted_slot :
    {n : ℕ} (g : Fingerprint) (b c : ℕ) (f : Fingerprint)
    → IsPower n
    → b < n
    → c < n
    → 0 < counts n g (pair_of n b g) c f
    → (f ≡ g) × ((c ≡ b) ⊎ (c ≡ partner n b g))
counted_slot g b c f pw hb hc h = rw pw.is_power (
    counts_inversion pw.exponent g b c f (rw pw.is_power at hb) (rw pw.is_power at hc)
      (rw pw.is_power at h))

pub lock_lem : (s : SequentialFilter) → s.mtx ≡ false → lock s ≡ some (record s { mtx = true })
unfolding lock
lock_lem s e = rw e

-- A new filter whose capacity is a power of two below 2^31 is valid and stores no copy of any
-- non-empty fingerprint.
pub new-IsValid :
    (capacity : ℕ) (verbose : Bool) (g : Fingerprint) (p : ℕ)
    → IsPower capacity
    → g ≢ []
    → IsValid (new capacity verbose) × (stored (new capacity verbose) g p ≡ 0)
unfolding new
new-IsValid capacity verbose g p pw h = (
  record { power = pw; shaped = empty_table-IsShaped capacity; free = refl },
  copies-empty_table capacity capacity g p h,
)
