-- ===== src/Index/Partner.antt =====
-- When the two buckets of a fingerprint lead to one another, and when they do not.
use native.Mathlib.Nat.{mod-eq_of_lt, mod-lt, mod_self, one-le-pow, pow-suc}
use lock_free_cuckoo_filter.Prelude.{
  ℕ, suc, ◌+◌, ◌-◌, ◌%◌, ◌^◌, ◌<◌, bit_xor, ◌≡◌, ap, ◌∙◌, ◌≢◌, arith,
}
use lock_free_cuckoo_filter.Prelude.Bits.{bit_xor-lt, xor_cancel, xor_top, zero-bit_xor}
use lock_free_cuckoo_filter.Index.{next_index}

-- The result is an index of the table, whatever its size.
pub next_index-lt : (n i h : ℕ) → 0 < n → next_index n i h < n
unfolding next_index
next_index-lt n i h pos = mod-lt (bit_xor i (h % n)) pos

-- In a table whose size is a power of two, the other bucket of a fingerprint's other bucket is the
-- bucket it started from.
pub next_index_twice : (k i h : ℕ) → i < 2 ^ k → next_index (2 ^ k) (next_index (2 ^ k) i h) h ≡ i
unfolding next_index
next_index_twice k i h lt =
    let n = 2 ^ k in
    let r-lt : h % n < n = mod-lt h (one-le-pow k 2 (omega arith)) in
    let once : bit_xor i (h % n) % n ≡ bit_xor i (h % n) =
      mod-eq_of_lt (bit_xor-lt k i (h % n) lt r-lt) in
    rw once (rw (xor_cancel i (h % n)) (mod-eq_of_lt lt))

-- In a table whose size lies strictly between two powers of two, a fingerprint whose hash leaves
-- the remainder n - 2^k moves from bucket 2^k to bucket 0, and from there to another bucket than
-- the one it came from.
pub next_index_astray :
    (k n h : ℕ)
    → 2 ^ k < n
    → n < 2 ^ suc k
    → h % n ≡ n - 2 ^ k
    → (next_index n (2 ^ k) h ≡ 0) × (next_index n 0 h ≡ n - 2 ^ k) × (n - 2 ^ k ≢ 2 ^ k)
unfolding next_index
next_index_astray k n h lo hi e = (there, back, omega (arith, pow-suc 2 k))
  where
    small : n - 2 ^ k < 2 ^ k
    small = omega (arith, pow-suc 2 k)

    whole : 2 ^ k + (n - 2 ^ k) ≡ n
    whole = omega arith

    there : bit_xor (2 ^ k) (h % n) % n ≡ 0
    there = rw (e, xor_top k (n - 2 ^ k) small) (ap (λ (t : ℕ). t % n) whole ∙ mod_self n)

    back : bit_xor 0 (h % n) % n ≡ n - 2 ^ k
    back = rw (e, zero-bit_xor (n - 2 ^ k)) (mod-eq_of_lt (omega (arith, one-le-pow k 2)))
