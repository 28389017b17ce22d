-- ===== src/Sequential/Insert.antt =====
-- `insert` of cuckoo_filter/seq_filter.cpp against the abstract view of the table.
use lock_free_cuckoo_filter.Prelude.{
  ℕ, ◌+◌, ◌%◌, ◌<◌, ◌≡◌, ◌≢◌, refl, Bool, true, false, inl, inr, none, some, [], List, Option-cases,
  if◌then◌else◌, ◌==◌, arith,
}
use lock_free_cuckoo_filter.Common.{num_items_per_entry, num_max_kicks}
use lock_free_cuckoo_filter.Hash.{Digest, jenkins_hash, md5_fingerprint}
use lock_free_cuckoo_filter.Index.Partner.{next_index-lt}
use lock_free_cuckoo_filter.Table.{Fingerprint, HashTable, IsShaped}
use lock_free_cuckoo_filter.Table.Copies.{partner, counts, copies}
use lock_free_cuckoo_filter.Sequential.{
  SequentialFilter, get_next_hash_index, fill_loop, kick_loop, insert_table, unlock, insert,
}
use lock_free_cuckoo_filter.Sequential.Slots.{fill_loop-none}
use lock_free_cuckoo_filter.Sequential.Kicks.{Exchanged, fill-Exchanged, kick_loop-Exchanged}
use lock_free_cuckoo_filter.Sequential.Valid.{
  IsValid, IsPower-pos, hash1_of, stored, one_for, md5_fingerprint_nonempty, counts-IsFair,
  lock_lem,
}

-- What is added to the other bucket of a fingerprint's pair is added to the pair.
from_partner :
    {n : ℕ} {t t' : HashTable} {b : ℕ} {f : Fingerprint} {done : Bool}
    → b < n
    → Exchanged n t (partner n b f) f done t'
    → Exchanged n t b f done t'
from_partner {b = b} {f = f} hb x = record {
  victim = x.victim;
  place = x.place;
  place-lt = x.place-lt;
  shaped = x.shaped;
  none_lost = x.none_lost;
  one_lost = x.one_lost;
  weights = λ w fair. omega (arith, x.weights w fair, fair.moves b f hb);
}

module _ (n : ℕ) (rand : ℕ → ℕ) (pos : 0 < n) (b : ℕ) (f : Fingerprint) (t : HashTable) where
  insert_table-Exchanged :
      IsShaped n t
      → b < n
      → f ≢ []
      → Exchanged n t b f (insert_table n rand b f t).0 (insert_table n rand b f t).1
  unfolding insert_table get_next_hash_index
  insert_table-Exchanged s hb hf = elim (Option-cases (fill_loop num_items_per_entry 0 b f t)) [
    | inr (t', e) ↦ rw (e, insert_table) (fill-Exchanged n b f t t' s hb e)
    | inl e ↦ elim (Option-cases (fill_loop num_items_per_entry 0 (partner n b f) f t)) [
      | inr (t', e') ↦
          rw (e, e', insert_table)
            (from_partner hb (fill-Exchanged n (partner n b f) f t t' s hp e'))
      | inl e' ↦ rw (e, e', insert_table) (kicked e e')
    ]
  ]
    where
      hp : partner n b f < n
      hp = next_index-lt n b (jenkins_hash f) pos

      kicked :
          fill_loop num_items_per_entry 0 b f t ≡ none
          → fill_loop num_items_per_entry 0 (partner n b f) f t ≡ none
          → let r = (if rand 0 % 2 == 0 then b else partner n b f) in
            Exchanged n t b f
              (kick_loop n rand num_max_kicks 1 r f t).0
              (kick_loop n rand num_max_kicks 1 r f t).1
      kicked e e' =
          elim (rand 0 % 2 == 0)
            as (λ c.
              let r = (if c then b else partner n b f) in
              Exchanged n t b f (kick_loop n rand num_max_kicks 1 r f t).0
                (kick_loop n rand num_max_kicks 1 r f t).1) [
                  | true ↦
                      kick_loop-Exchanged n rand pos num_max_kicks 1 b f t s hb hf
                        (λ j hj. fill_loop-none num_items_per_entry 0 b f t e j (omega arith) hj)
                  | false ↦ from_partner hb (
                      kick_loop-Exchanged n rand pos num_max_kicks 1 (partner n b f) f t s hp hf
                        (λ j hj.
                          fill_loop-none num_items_per_entry 0 (partner n b f) f t e' j
                            (omega arith) hj))
                ]

-- What `insert` did: the filter stores one copy more of the key's fingerprint, and then one copy less
-- of a victim. There is a victim exactly if the call returned false.
pub record Inserted (d : Digest) (key : List ℕ) (s : SequentialFilter) (done : Bool)
    (s' : SequentialFilter) : Type 0 where
  pub valid : IsValid s'
  pub same_size : s'.table_size ≡ s.table_size
  pub victim : Fingerprint
  pub place : ℕ
  pub none_lost : done ≡ true → victim ≡ []
  pub one_lost : done ≡ false → victim ≢ []
  pub balance :
      (g : Fingerprint) (p : ℕ)
      → g ≢ []
      → stored s' g p + counts s.table_size g p place victim ≡ stored s g p + one_for d s key g p

pub insert-Inserted :
    (d : Digest) (rand : ℕ → ℕ) (key : List ℕ) (s : SequentialFilter)
    → IsValid s
    → (done : Bool) × (s' : SequentialFilter) × (insert d rand key s ≡ some (done, s'))
      × Inserted d key s done s'
unfolding insert unlock copies
insert-Inserted d rand key s v =
    let n = s.table_size in
    let f = md5_fingerprint d key in
    let b = hash1_of s key in
    let hf = md5_fingerprint_nonempty d key in
    let pos = IsPower-pos v.power in
    let x = insert_table-Exchanged n rand pos b f s.hash_table v.shaped (omega arith) hf in
    let r = insert_table n rand b f s.hash_table in
    (
      r.0,
      record s { hash_table = r.1; mtx = false },
      rw (lock_lem s v.free, insert),
      record {
        valid = record { power = v.power; shaped = x.shaped; free = refl };
        same_size = refl;
        victim = x.victim;
        place = x.place;
        none_lost = x.none_lost;
        one_lost = x.one_lost;
        balance = λ g p h. x.weights (counts n g p) (counts-IsFair g p v.power h);
      },
    )
