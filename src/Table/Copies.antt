-- ===== src/Table/Copies.antt =====
-- The abstract view of a table: how many copies of a fingerprint are stored in its pair of buckets.
-- A cuckoo filter moves a fingerprint between the two buckets of its pair, and nowhere else, so the
-- pair is what an operation must preserve. A pair is named by the lower of its two buckets.
use lock_free_cuckoo_filter.Prelude.{
  ℕ, zero, suc, ◌^◌, ◌<◌, min, ◌≡◌, ◌≢◌, ◌⊎◌, refl, sym, ap, ◌∙◌, ◌&&◌, [], replicate, str_eq,
  str_eq_iff, bit, ◌==◌, arith,
}
use lock_free_cuckoo_filter.Hash.{jenkins_hash}
use lock_free_cuckoo_filter.Index.{next_index}
use lock_free_cuckoo_filter.Index.Partner.{next_index_twice}
use lock_free_cuckoo_filter.Common.{num_items_per_entry}
use lock_free_cuckoo_filter.Table.{Fingerprint, HashTable, empty_table}
use lock_free_cuckoo_filter.Table.Weigh.{weigh, weigh_bucket}

-- The other bucket of a fingerprint in a table of `n` buckets.
abbrev pub partner : ℕ → ℕ → Fingerprint → ℕ
partner n b f = next_index n b (jenkins_hash f)

-- The name of the pair of buckets of `f` that `b` is in.
abbrev pub pair_of : ℕ → ℕ → Fingerprint → ℕ
pair_of n b f = min b (partner n b f)

-- 1 if a slot of bucket `b` that holds `f` counts as a copy of `g` in the pair `p`.
abbrev pub counts : ℕ → Fingerprint → ℕ → ℕ → Fingerprint → ℕ
counts n g p b f = bit (str_eq g f && (pair_of n b f == p))

unfoldable pub copies : ℕ → HashTable → Fingerprint → ℕ → ℕ
copies n t g p = weigh (counts n g p) t

-- An empty slot is a copy of no fingerprint.
pub counts-empty : (n : ℕ) (g : Fingerprint) (p b : ℕ) → g ≢ [] → counts n g p b [] ≡ 0
counts-empty n g p b h = ground (arith, str_eq_iff g [])

-- A fingerprint counts the same in either bucket of its pair.
pub counts-partner :
    (k : ℕ) (g : Fingerprint) (p b : ℕ) (f : Fingerprint)
    → b < 2 ^ k
    → counts (2 ^ k) g p (partner (2 ^ k) b f) f ≡ counts (2 ^ k) g p b f
counts-partner k g p b f h =
    let e : pair_of (2 ^ k) (partner (2 ^ k) b f) f ≡ pair_of (2 ^ k) b f =
      omega (arith, next_index_twice k b (jenkins_hash f) h) in
    ap (λ (t : ℕ). bit (str_eq g f && (t == p))) e

pub counts_self : (n : ℕ) (f : Fingerprint) (b : ℕ) → counts n f (pair_of n b f) b f ≡ 1
counts_self n f b = ground (arith, str_eq_iff f f)

-- What counts as a copy of `g` in its pair at `b` is `g`, in one of the pair's two buckets.
pub counts_inversion :
    (k : ℕ) (g : Fingerprint) (b c : ℕ) (f : Fingerprint)
    → b < 2 ^ k
    → c < 2 ^ k
    → 0 < counts (2 ^ k) g (pair_of (2 ^ k) b g) c f
    → (f ≡ g) × ((c ≡ b) ⊎ (c ≡ partner (2 ^ k) b g))
counts_inversion k g b c f hb hc pos = (sym same, where_is)
  where
    same : g ≡ f
    same = (str_eq_iff g f).0 (ground arith)

    pairs : pair_of (2 ^ k) c g ≡ pair_of (2 ^ k) b g
    pairs = ap (pair_of (2 ^ k) c) same ∙ found
      where
        found : pair_of (2 ^ k) c f ≡ pair_of (2 ^ k) b g
        found = ground arith

    where_is : (c ≡ b) ⊎ (c ≡ partner (2 ^ k) b g)
    where_is = ground (
      arith,
      pairs,
      next_index_twice k b (jenkins_hash g) hb,
      next_index_twice k c (jenkins_hash g) hc,
    )

weigh_bucket-replicate :
    (w : Fingerprint → ℕ) (k : ℕ) → w [] ≡ 0 → weigh_bucket w (replicate k []) ≡ 0
unfolding weigh_bucket
weigh_bucket-replicate w zero h = refl
weigh_bucket-replicate w (suc k) h = omega (arith, weigh_bucket-replicate w k h)

weigh-replicate :
    (w : ℕ → Fingerprint → ℕ) (m : ℕ)
    → ((b : ℕ) → w b [] ≡ 0)
    → weigh w (replicate m (replicate num_items_per_entry [])) ≡ 0
unfolding weigh
weigh-replicate w zero h = refl
weigh-replicate w (suc m) h = omega (
  arith,
  weigh_bucket-replicate (w 0) num_items_per_entry (h 0),
  weigh-replicate (λ b. w (suc b)) m (λ b. h (suc b)),
)

-- An empty table stores nothing.
pub copies-empty_table :
    (n m : ℕ) (g : Fingerprint) (p : ℕ) → g ≢ [] → copies n (empty_table m) g p ≡ 0
unfolding copies empty_table
copies-empty_table n m g p h = weigh-replicate (counts n g p) m (λ b. counts-empty n g p b h)
