-- ===== src/Sequential/Remove.antt =====
-- `remove` of cuckoo_filter/seq_filter.cpp against the abstract view of the table.
use lock_free_cuckoo_filter.Prelude.{
  ℕ, ◌+◌, ◌<◌, ◌≡◌, ◌≢◌, refl, sym, ap, ◌∙◌, [], Bool, true, false, inl, inr, some, List,
  Option-cases, ltb, if◌then◌else◌, arith,
}
use lock_free_cuckoo_filter.Common.{num_items_per_entry}
use lock_free_cuckoo_filter.Hash.{Digest, jenkins_hash, md5_fingerprint}
use lock_free_cuckoo_filter.Index.Partner.{next_index-lt}
use lock_free_cuckoo_filter.Table.{Fingerprint, HashTable, IsShaped}
use lock_free_cuckoo_filter.Table.Shape.{write-IsShaped}
use lock_free_cuckoo_filter.Table.Copies.{partner, pair_of, counts, copies, counts_self}
use lock_free_cuckoo_filter.Table.Weigh.{weigh, weigh-write}
use lock_free_cuckoo_filter.Sequential.{
  SequentialFilter, get_next_hash_index, clear_loop, find_table, remove_table, unlock, remove,
}
use lock_free_cuckoo_filter.Sequential.Slots.{clear_loop-some, clear_loop-none}
use lock_free_cuckoo_filter.Sequential.Kicks.{IsFair}
use lock_free_cuckoo_filter.Sequential.Lookup.{find_table-copies, unlocked}
use lock_free_cuckoo_filter.Sequential.Valid.{
  IsPower, IsValid, IsPower-pos, hash1_of, stored, stored_for, one_for, md5_fingerprint_nonempty,
  counts-IsFair, lock_lem,
}

-- One copy of `f` in the pair of `b` is gone from `t'`.
record Dropped (n : ℕ) (t : HashTable) (b : ℕ) (f : Fingerprint) (t' : HashTable) : Type 0 where
  shaped : IsShaped n t'
  weights : (w : ℕ → Fingerprint → ℕ) → IsFair n w → weigh w t' + w b f ≡ weigh w t

cleared :
    (n b : ℕ) (f : Fingerprint) (t t' : HashTable)
    → IsShaped n t
    → b < n
    → f ≢ []
    → clear_loop num_items_per_entry 0 b f t ≡ some t'
    → Dropped n t b f t'
cleared n b f t t' s hb hf e =
    let c = clear_loop-some num_items_per_entry 0 b f t t' hf e in
    record {
      shaped = rw c.after (write-IsShaped b c.index [] s);
      weights = λ w fair. omega (
        arith,
        ap (weigh w) c.after,
        weigh-write w b c.index [] s hb c.high,
        ap (w b) c.before,
        fair.empty b,
      );
    }

-- What `remove_table` did to the copies.
record Outcome (n : ℕ) (t : HashTable) (b : ℕ) (f : Fingerprint) (done : Bool) (t' : HashTable)
    : Type 0 where
  shaped : IsShaped n t'
  answer : done ≡ find_table n b f t
  unchanged : done ≡ false → t' ≡ t
  weights :
      (w : ℕ → Fingerprint → ℕ) → IsFair n w → weigh w t' + (if done then w b f else 0) ≡ weigh w t

module _ {n : ℕ} (pw : IsPower n) (t : HashTable) (s : IsShaped n t) (b : ℕ) (hb : b < n)
    (f : Fingerprint) (hf : f ≢ []) where
  dropped-Outcome : {t' : HashTable} → Dropped n t b f t' → Outcome n t b f true t'
  unfolding copies
  dropped-Outcome {t'} x = record {
    shaped = x.shaped;
    answer = sym (
        find_table-copies pw t s b hb f hf
        ∙ positive (
            omega (
              arith,
              x.weights (counts n f (pair_of n b f)) (counts-IsFair f (pair_of n b f) pw hf),
              counts_self n f b,
            )));
    unchanged = λ h. cc;
    weights = x.weights;
  }
    where
      positive : 0 < copies n t f (pair_of n b f) → ltb 0 (copies n t f (pair_of n b f)) ≡ true
      positive h = ground arith

  remove_table-Outcome : Outcome n t b f (remove_table n b f t).0 (remove_table n b f t).1
  unfolding remove_table find_table get_next_hash_index
  remove_table-Outcome = elim (Option-cases (clear_loop num_items_per_entry 0 b f t)) [
    | inr (t', e) ↦ rw (e, remove_table) (dropped-Outcome (cleared n b f t t' s hb hf e))
    | inl e ↦ elim (Option-cases (clear_loop num_items_per_entry 0 (partner n b f) f t)) [
      | inr (t', e') ↦
          let x = cleared n (partner n b f) f t t' s hp hf e' in
          rw (e, e', remove_table)
            (dropped-Outcome (record {
              shaped = x.shaped;
              weights = λ w fair. omega (arith, x.weights w fair, fair.moves b f hb);
            }))
      | inl e' ↦
          rw (e, e', remove_table)
            (record {
              shaped = s;
              answer = ground (
                arith,
                clear_loop-none num_items_per_entry 0 b f t hf e,
                clear_loop-none num_items_per_entry 0 (partner n b f) f t hf e',
              );
              unchanged = λ _. refl;
              weights = λ w fair. omega arith;
            })
    ]
  ]
    where
      hp : partner n b f < n
      hp = next_index-lt n b (jenkins_hash f) (IsPower-pos pw)

-- What `remove` did: it returned whether a copy answered for the key; if so, one copy of the key's
-- fingerprint is gone, and otherwise nothing has changed.
pub record Removed (d : Digest) (key : List ℕ) (s : SequentialFilter) (done : Bool)
    (s' : SequentialFilter) : Type 0 where
  pub valid : IsValid s'
  pub same_size : s'.table_size ≡ s.table_size
  pub answer : done ≡ ltb 0 (stored_for d s key)
  pub unchanged : done ≡ false → s' ≡ s
  pub balance :
      (g : Fingerprint) (p : ℕ)
      → g ≢ []
      → stored s' g p + (if done then one_for d s key g p else 0) ≡ stored s g p

pub remove-Removed :
    (d : Digest) (key : List ℕ) (s : SequentialFilter)
    → IsValid s
    → (done : Bool) × (s' : SequentialFilter) × (remove d key s ≡ some (done, s'))
      × Removed d key s done s'
unfolding remove unlock copies
remove-Removed d key s v =
    let n = s.table_size in
    let f = md5_fingerprint d key in
    let b = hash1_of s key in
    let hf = md5_fingerprint_nonempty d key in
    let hb : b < n = omega (arith, IsPower-pos v.power) in
    let x = remove_table-Outcome v.power s.hash_table v.shaped b hb f hf in
    let r = remove_table n b f s.hash_table in
    (
      r.0,
      record s { hash_table = r.1; mtx = false },
      rw (lock_lem s v.free, remove),
      record {
        valid = record { power = v.power; shaped = x.shaped; free = refl };
        same_size = refl;
        answer = x.answer ∙ find_table-copies v.power s.hash_table v.shaped b hb f hf;
        unchanged = λ h.
            ap (λ (t : HashTable). record s { hash_table = t; mtx = false }) (x.unchanged h)
            ∙ unlocked s v.free;
        balance = λ g p h. x.weights (counts n g p) (counts-IsFair g p v.power h);
      },
    )
