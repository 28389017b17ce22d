-- ===== src/Table/Shape.antt =====
-- Writes keep the shape of the table, and change the one slot that they name.
use native.Mathlib.Decide.{ℕ_discrete}
use lock_free_cuckoo_filter.Prelude.{
  ℕ, ◌<◌, ◌≡◌, ◌∙◌, ap, [], get_or, set, length, length-set, length-replicate, get_or-set_self,
  get_or-set_ne, get_or-replicate_lt, set-get_or, get_item-set_item_ne, get_item-set_item_column,
  ◌≢◌, arith,
}
use lock_free_cuckoo_filter.Common.{num_items_per_entry}
use lock_free_cuckoo_filter.Table.{
  Fingerprint, Bucket, HashTable, empty_table, slot, write, IsShaped,
}

pub empty_table-IsShaped : (n : ℕ) → IsShaped n (empty_table n)
unfolding empty_table
empty_table-IsShaped n = record {
  buckets = length-replicate n _;
  slots = λ b h. ap length (get_or-replicate_lt n b _ [] h);
}

pub write-IsShaped :
    {n : ℕ} {t : HashTable} (b i : ℕ) (f : Fingerprint) → IsShaped n t → IsShaped n (write t b i f)
unfolding write
write-IsShaped {n} {t} b i f s = record {
  buckets = length-set t b _ ∙ s.buckets;
  slots = λ c h. elim (ℕ_discrete b c) [
    | yes e ↦
        let inside : b < length t = omega (arith, s.buckets) in
        ap (λ (x : ℕ). length (get_or (set t b (set (get_or t b []) i f)) x [])) (e' b c e)
        ∙ ap length (get_or-set_self t b _ [] inside)
        ∙ length-set (get_or t b []) i f
        ∙ s.slots b (omega arith)
    | no ne ↦ ap length (get_or-set_ne t b c _ [] ne) ∙ s.slots c h
  ];
}
  where
    e' : (b c : ℕ) → b ≡ c → c ≡ b
    e' b c e = omega arith

pub slot-write_self :
    {n : ℕ} {t : HashTable} (b i : ℕ) (f : Fingerprint)
    → IsShaped n t
    → b < n
    → i < num_items_per_entry
    → slot (write t b i f) b i ≡ f
unfolding slot write
slot-write_self {t = t} b i f s hb hi =
    ap (λ (x : Bucket). get_or x i []) (get_or-set_self t b _ [] (omega (arith, s.buckets)))
    ∙ get_or-set_self (get_or t b []) i f [] (omega (arith, s.slots b hb))

-- To write what stands there changes nothing.
pub write-slot : (t : HashTable) (b i : ℕ) → write t b i (slot t b i) ≡ t
unfolding slot write
write-slot t b i = ap (set t b) (set-get_or (get_or t b []) i []) ∙ set-get_or t b []

pub slot-write_ne :
    (t : HashTable) (b c i j : ℕ) (f : Fingerprint) → b ≢ c → slot (write t b i f) c j ≡ slot t c j
unfolding slot write
slot-write_ne t b c i j f ne = get_item-set_item_ne t b c i j f [] ne

pub slot-write_column :
    (t : HashTable) (b c i j : ℕ) (f : Fingerprint) → i ≢ j → slot (write t b i f) c j ≡ slot t c j
unfolding slot write
slot-write_column t b c i j f ne = get_item-set_item_column t b c i j f [] ne
