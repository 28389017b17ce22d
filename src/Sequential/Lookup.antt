-- ===== src/Sequential/Lookup.antt =====
-- `find` of cuckoo_filter/seq_filter.cpp against the abstract view of the table.
use lock_free_cuckoo_filter.Prelude.{
  ℕ, ◌<◌, ◌≡◌, ◌≢◌, sym, ap, ap₂, ◌∙◌, [], Bool, false, inl, inr, some, List, Bool-cases, ltb,
  arith,
}
use lock_free_cuckoo_filter.Common.{num_items_per_entry}
use lock_free_cuckoo_filter.Hash.{Digest, jenkins_hash, md5_fingerprint}
use lock_free_cuckoo_filter.Index.Partner.{next_index-lt}
use lock_free_cuckoo_filter.Table.{Fingerprint, HashTable, slot, IsShaped}
use lock_free_cuckoo_filter.Table.Copies.{partner, pair_of, counts, copies, counts_self}
use lock_free_cuckoo_filter.Table.Weigh.{slot-weight-le, Heavy-slot}
use lock_free_cuckoo_filter.Sequential.{
  SequentialFilter, get_next_hash_index, find_loop, find_table, unlock, find,
}
use lock_free_cuckoo_filter.Sequential.Slots.{Found, find_loop-true, find_loop-false}
use lock_free_cuckoo_filter.Sequential.Valid.{
  IsPower, IsValid, IsPower-pos, hash1_of, stored_for, md5_fingerprint_nonempty, counts-IsFair,
  counted_slot, lock_lem,
}

module _ {n : ℕ} (pw : IsPower n) (t : HashTable) (s : IsShaped n t) (b : ℕ) (hb : b < n)
    (f : Fingerprint) (hf : f ≢ []) where
  hp : partner n b f < n
  hp = next_index-lt n b (jenkins_hash f) (IsPower-pos pw)

  Found-copies :
      (c : ℕ)
      → c < n
      → counts n f (pair_of n b f) c f ≡ 1
      → Found num_items_per_entry 0 c f t
      → 0 < copies n t f (pair_of n b f)
  unfolding copies
  Found-copies c hc one r = omega (
    arith,
    slot-weight-le (counts n f (pair_of n b f)) c r.index s hc r.high,
    ap (counts n f (pair_of n b f) c) r.holds,
    one,
  )

  no_copies :
      find_loop num_items_per_entry 0 b f t ≡ false
      → find_loop num_items_per_entry 0 (partner n b f) f t ≡ false
      → ¬ (0 < copies n t f (pair_of n b f))
  unfolding copies slot
  no_copies e e' pos =
      let h = Heavy-slot (counts n f (pair_of n b f)) t pos in
      let hc : h.bucket < n = omega (arith, h.bucket-lt, s.buckets) in
      let hi : h.index < num_items_per_entry = omega (arith, h.index-lt, s.slots h.bucket hc) in
      let (same, place) = counted_slot f b h.bucket (slot t h.bucket h.index) pw hb hc h.weighs in
      elim place [
        | inl here ↦
            find_loop-false num_items_per_entry 0 b f t e h.index (omega arith) hi
              (ap (λ (x : ℕ). slot t x h.index) (sym here) ∙ same)
        | inr there ↦
            find_loop-false num_items_per_entry 0 (partner n b f) f t e' h.index (omega arith) hi
              (ap (λ (x : ℕ). slot t x h.index) (sym there) ∙ same)
      ]

  pub find_table-copies : find_table n b f t ≡ ltb 0 (copies n t f (pair_of n b f))
  unfolding find_table get_next_hash_index
  find_table-copies = elim (Bool-cases (find_loop num_items_per_entry 0 b f t)) [
    | inl e ↦
        let pos =
          Found-copies b hb (counts_self n f b) (find_loop-true num_items_per_entry 0 b f t e) in
        ground arith
    | inr e ↦ elim (Bool-cases (find_loop num_items_per_entry 0 (partner n b f) f t)) [
      | inl e' ↦
          let one = (counts-IsFair f (pair_of n b f) pw hf).moves b f hb ∙ counts_self n f b in
          let pos =
            Found-copies (partner n b f) hp one
              (find_loop-true num_items_per_entry 0 (partner n b f) f t e') in
          ground arith
      | inr e' ↦ let none_there = no_copies e e' in ground arith
    ]
  ]

pub unlocked : (s : SequentialFilter) → s.mtx ≡ false → record s { mtx = false } ≡ s
unlocked s e = λ i. record s { mtx = sym e i }

-- On a valid filter find returns whether a copy of the key's fingerprint is stored in the key's
-- pair of buckets, and leaves the filter as it was.
pub find_lem :
    (d : Digest) (key : List ℕ) (s : SequentialFilter)
    → IsValid s
    → find d key s ≡ some (ltb 0 (stored_for d s key), s)
unfolding find unlock
find_lem d key s v =
    let f = md5_fingerprint d key in
    let hb : hash1_of s key < s.table_size = omega (arith, IsPower-pos v.power) in
    rw (lock_lem s v.free, find)
      (ap₂ (λ (x : Bool) (y : SequentialFilter). some (x, y))
        (find_table-copies v.power s.hash_table v.shaped (hash1_of s key) hb f
          (md5_fingerprint_nonempty d key))
        (unlocked s v.free))
