-- ===== src/Sequential/Kicks.antt =====
-- The replace phase of `insert`: what it moves, and what it drops when its rounds run out.
use lock_free_cuckoo_filter.Prelude.{
  ℕ, zero, suc, ◌+◌, ◌%◌, ◌<◌, ◌≡◌, ◌≢◌, refl, sym, ap, ◌∙◌, Bool, true, false, inl, inr, some, [],
  Option-cases, arith,
}
use lock_free_cuckoo_filter.Common.{num_items_per_entry}
use lock_free_cuckoo_filter.Index.Partner.{next_index-lt}
use lock_free_cuckoo_filter.Hash.{jenkins_hash}
use lock_free_cuckoo_filter.Table.{Fingerprint, HashTable, slot, write, IsShaped}
use lock_free_cuckoo_filter.Table.Shape.{write-IsShaped}
use lock_free_cuckoo_filter.Table.Weigh.{weigh, weigh-write}
use lock_free_cuckoo_filter.Table.Copies.{partner}
use lock_free_cuckoo_filter.Sequential.{fill_loop, kick_loop, get_next_hash_index}
use lock_free_cuckoo_filter.Sequential.Slots.{fill_loop-some, fill_loop-none}

-- A weight that an empty slot does not have, and that a fingerprint keeps when it moves to the other
-- bucket of its pair. The number of copies of a fingerprint is a sum of such weights.
pub record IsFair (n : ℕ) (w : ℕ → Fingerprint → ℕ) : Type 0 where
  pub empty : (b : ℕ) → w b [] ≡ 0
  pub moves : (b : ℕ) (f : Fingerprint) → b < n → w (partner n b f) f ≡ w b f

-- The bucket has no empty slot.
abbrev pub IsFull : HashTable → ℕ → Type 0
IsFull t b = (j : ℕ) → j < num_items_per_entry → slot t b j ≢ []

-- `t` with `f` added to bucket `b` is `t'` with `victim` added to bucket `place`, up to moves within
-- the pairs. The victim is the empty string exactly if the phase succeeded.
pub record Exchanged (n : ℕ) (t : HashTable) (b : ℕ) (f : Fingerprint) (done : Bool)
    (t' : HashTable) : Type 0 where
  pub victim : Fingerprint
  pub place : ℕ
  pub place-lt : place < n
  pub shaped : IsShaped n t'
  pub none_lost : done ≡ true → victim ≡ []
  pub one_lost : done ≡ false → victim ≢ []
  pub weights :
      (w : ℕ → Fingerprint → ℕ) → IsFair n w → weigh w t' + w place victim ≡ weigh w t + w b f

-- A fingerprint put into an empty slot.
pub fill-Exchanged :
    (n b : ℕ) (f : Fingerprint) (t t' : HashTable)
    → IsShaped n t
    → b < n
    → fill_loop num_items_per_entry 0 b f t ≡ some t'
    → Exchanged n t b f true t'
fill-Exchanged n b f t t' s hb e =
    let c = fill_loop-some num_items_per_entry 0 b f t t' e in
    record {
      victim = [];
      place = b;
      place-lt = hb;
      shaped = rw c.after (write-IsShaped b c.index f s);
      none_lost = λ _. refl;
      one_lost = λ h. absurd (true_false h);
      weights = λ w fair. rw c.after (
          ap (λ (g : Fingerprint). weigh w (write t b c.index f) + w b g) (sym c.before)
          ∙ weigh-write w b c.index f s hb c.high);
    }
  where
    true_false : true ≡ false → ⊥
    true_false h = cc

module _ (n : ℕ) (rand : ℕ → ℕ) (pos : 0 < n) where
  -- The fingerprint in hand is exchanged for a stored one, which then belongs into its other bucket.
  swap_weights :
      (t : HashTable) (b i : ℕ) (f : Fingerprint) (w : ℕ → Fingerprint → ℕ)
      → IsFair n w
      → IsShaped n t
      → b < n
      → i < num_items_per_entry
      → weigh w (write t b i f) + w (partner n b (slot t b i)) (slot t b i) ≡ weigh w t + w b f
  swap_weights t b i f w fair s hb hi =
      omega (arith, weigh-write w b i f s hb hi, fair.moves b (slot t b i) hb)

  pub kick_loop-Exchanged :
      (k r b : ℕ) (f : Fingerprint) (t : HashTable)
      → IsShaped n t
      → b < n
      → f ≢ []
      → IsFull t b
      → Exchanged n t b f (kick_loop n rand k r b f t).0 (kick_loop n rand k r b f t).1
  unfolding kick_loop get_next_hash_index
  kick_loop-Exchanged zero r b f t s hb hf full = record {
    victim = f;
    place = b;
    place-lt = hb;
    shaped = s;
    none_lost = λ h. cc;
    one_lost = λ h. hf;
    weights = λ w fair. refl;
  }
  kick_loop-Exchanged (suc k) r b f t s hb hf full =
      elim (Option-cases (fill_loop num_items_per_entry 0 b' g u)) [
        | inr (u', e) ↦
            let x = fill-Exchanged n b' g u u' su hb' e in
            rw (e, kick_loop)
              (record {
                victim = x.victim;
                place = x.place;
                place-lt = x.place-lt;
                shaped = x.shaped;
                none_lost = x.none_lost;
                one_lost = x.one_lost;
                weights = λ w fair. x.weights w fair ∙ swap_weights t b i f w fair s hb hi;
              })
        | inl e ↦
            let x =
              kick_loop-Exchanged k (suc r) b' g u su hb' (full i hi)
                (λ j hj. fill_loop-none num_items_per_entry 0 b' g u e j (omega arith) hj) in
            rw (e, kick_loop)
              (record {
                victim = x.victim;
                place = x.place;
                place-lt = x.place-lt;
                shaped = x.shaped;
                none_lost = x.none_lost;
                one_lost = x.one_lost;
                weights = λ w fair. x.weights w fair ∙ swap_weights t b i f w fair s hb hi;
              })
      ]
    where
      i : ℕ
      i = rand r % num_items_per_entry

      hi : i < num_items_per_entry
      hi = omega arith

      g : Fingerprint
      g = slot t b i

      u : HashTable
      u = write t b i f

      b' : ℕ
      b' = get_next_hash_index n b g

      su : IsShaped n u
      su = write-IsShaped b i f s

      hb' : b' < n
      hb' = next_index-lt n b (jenkins_hash g) pos
