-- ===== src/Table/Weigh.antt =====
-- Sums over all slots of a table of a weight that depends on the bucket and its contents.
use native.Mathlib.Decide.{dec_lt}
use lock_free_cuckoo_filter.Prelude.{
  ℕ, zero, suc, ◌+◌, ◌≤◌, ◌<◌, ◌≡◌, [], ◌∷◌, get_or, set, length, arith,
}
use lock_free_cuckoo_filter.Common.{num_items_per_entry}
use lock_free_cuckoo_filter.Table.{Fingerprint, Bucket, HashTable, slot, write, IsShaped}

unfoldable pub weigh_bucket : (Fingerprint → ℕ) → Bucket → ℕ
weigh_bucket w [] = 0
weigh_bucket w (f ∷ fs) = w f + weigh_bucket w fs

unfoldable pub weigh : (ℕ → Fingerprint → ℕ) → HashTable → ℕ
unfolding weigh_bucket
weigh w [] = 0
weigh w (b ∷ bs) = weigh_bucket (w 0) b + weigh (λ i. w (suc i)) bs

weigh_bucket-set :
    (w : Fingerprint → ℕ) (b : Bucket) (i : ℕ) (f : Fingerprint)
    → i < length b
    → weigh_bucket w (set b i f) + w (get_or b i []) ≡ weigh_bucket w b + w f
unfolding weigh_bucket
weigh_bucket-set w [] i f h = absurd (omega arith)
weigh_bucket-set w (g ∷ b) zero f h = omega arith
weigh_bucket-set w (g ∷ b) (suc i) f h = omega (arith, weigh_bucket-set w b i f (omega arith))

weigh-set :
    (w : ℕ → Fingerprint → ℕ) (t : HashTable) (b : ℕ) (c : Bucket)
    → b < length t
    → weigh w (set t b c) + weigh_bucket (w b) (get_or t b []) ≡ weigh w t + weigh_bucket (w b) c
unfolding weigh
weigh-set w [] b c h = absurd (omega arith)
weigh-set w (x ∷ t) zero c h = omega arith
weigh-set w (x ∷ t) (suc b) c h = omega (arith, weigh-set (λ i. w (suc i)) t b c (omega arith))

-- A write replaces the weight of the old contents by that of the new.
pub weigh-write :
    {n : ℕ} {t : HashTable} (w : ℕ → Fingerprint → ℕ) (b i : ℕ) (f : Fingerprint)
    → IsShaped n t
    → b < n
    → i < num_items_per_entry
    → weigh w (write t b i f) + w b (slot t b i) ≡ weigh w t + w b f
unfolding slot write
weigh-write {t = t} w b i f s hb hi = omega (
  arith,
  weigh-set w t b (set (get_or t b []) i f) (omega (arith, s.buckets)),
  weigh_bucket-set (w b) (get_or t b []) i f (omega (arith, s.slots b hb)),
)

weigh_bucket-ge :
    (w : Fingerprint → ℕ) (b : Bucket) (i : ℕ) → i < length b → w (get_or b i []) ≤ weigh_bucket w b
unfolding weigh_bucket
weigh_bucket-ge w [] i h = absurd (omega arith)
weigh_bucket-ge w (g ∷ b) zero h = omega arith
weigh_bucket-ge w (g ∷ b) (suc i) h = omega (arith, weigh_bucket-ge w b i (omega arith))

weigh-ge :
    (w : ℕ → Fingerprint → ℕ) (t : HashTable) (b : ℕ)
    → b < length t
    → weigh_bucket (w b) (get_or t b []) ≤ weigh w t
unfolding weigh
weigh-ge w [] b h = absurd (omega arith)
weigh-ge w (x ∷ t) zero h = omega arith
weigh-ge w (x ∷ t) (suc b) h = omega (arith, weigh-ge (λ i. w (suc i)) t b (omega arith))

-- Each slot's weight is part of the sum.
pub slot-weight-le :
    {n : ℕ} {t : HashTable} (w : ℕ → Fingerprint → ℕ) (b i : ℕ)
    → IsShaped n t
    → b < n
    → i < num_items_per_entry
    → w b (slot t b i) ≤ weigh w t
unfolding slot
slot-weight-le {t = t} w b i s hb hi = omega (
  arith,
  weigh-ge w t b (omega (arith, s.buckets)),
  weigh_bucket-ge (w b) (get_or t b []) i (omega (arith, s.slots b hb)),
)

-- A slot that weighs something.
pub record Heavy (w : ℕ → Fingerprint → ℕ) (t : HashTable) : Type 0 where
  pub bucket : ℕ
  pub index : ℕ
  pub bucket-lt : bucket < length t
  pub index-lt : index < length (get_or t bucket [])
  pub weighs : 0 < w bucket (get_or (get_or t bucket []) index [])

heavy_bucket :
    (w : Fingerprint → ℕ) (b : Bucket)
    → 0 < weigh_bucket w b
    → (i : ℕ) × (i < length b) × (0 < w (get_or b i []))
unfolding weigh_bucket
heavy_bucket w [] h = absurd (omega arith)
heavy_bucket w (f ∷ b) h = elim (dec_lt 0 (w f)) [
  | yes p ↦ (0, omega arith, p)
  | no q ↦ let (i, lt, p) = heavy_bucket w b (omega arith) in (suc i, omega arith, p)
]

-- Where the sum is positive, some slot weighs something.
pub Heavy-slot : (w : ℕ → Fingerprint → ℕ) (t : HashTable) → 0 < weigh w t → Heavy w t
unfolding weigh
Heavy-slot w [] h = absurd (omega arith)
Heavy-slot w (b ∷ t) h = elim (dec_lt 0 (weigh_bucket (w 0) b)) [
  | yes p ↦
      let (i, lt, q) = heavy_bucket (w 0) b p in
      record { bucket = 0; index = i; bucket-lt = omega arith; index-lt = lt; weighs = q }
  | no p ↦
      let r = Heavy-slot (λ i. w (suc i)) t (omega arith) in
      record {
        bucket = suc r.bucket;
        index = r.index;
        bucket-lt = omega (arith, r.bucket-lt);
        index-lt = r.index-lt;
        weighs = r.weighs;
      }
]
