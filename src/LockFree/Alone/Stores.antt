-- ===== src/LockFree/Alone/Stores.antt =====
-- Reads after writes of cuckoo_filter/lock_free_filter.cpp, and the fields of the words that it makes.
use native.Mathlib.Decide.{ℕ_discrete}
use mathlib.Core.Path.{subst}
use lock_free_cuckoo_filter.Prelude.{
  ℕ, ◌^◌, ◌<◌, ◌≡◌, ◌≢◌, sym, ap, ◌∙◌, inl, inr, ◌⊎◌, Bool, true, some, IsGrid,
  get_item-set_item_self, get_item-set_item_ne, get_item-set_item_column,
}
use lock_free_cuckoo_filter.Common.{num_items_per_entry}
use lock_free_cuckoo_filter.Pointer.{
  TablePointer, get_counter, get_real_pointer, get_marked, get_new_mark, create_pointer,
}
use lock_free_cuckoo_filter.Pointer.Fields.{IsAddress, real_pointer-IsAddress}
use lock_free_cuckoo_filter.Pointer.RoundTrip.{get-create_pointer}
use lock_free_cuckoo_filter.Pointer.Updates.{update_marked_lem}
use lock_free_cuckoo_filter.LockFree.Memory.{Memory, word_at, store_word}

pub store_word_self :
    {n : ℕ} (m : Memory) (b i : ℕ) (w : TablePointer)
    → IsGrid n num_items_per_entry m.hash_table
    → b < n
    → i < num_items_per_entry
    → word_at (store_word m b i w) b i ≡ w
unfolding word_at store_word
store_word_self m b i w g hb hi = get_item-set_item_self m.hash_table b i w 0 g hb hi

pub store_word_ne :
    (m : Memory) (b c i j : ℕ) (w : TablePointer)
    → b ≢ c
    → word_at (store_word m b i w) c j ≡ word_at m c j
unfolding word_at store_word
store_word_ne m b c i j w ne = get_item-set_item_ne m.hash_table b c i j w 0 ne

pub store_word_other :
    (m : Memory) (b c i j : ℕ) (w : TablePointer)
    → (b ≢ c) ⊎ (i ≢ j)
    → word_at (store_word m b i w) c j ≡ word_at m c j
unfolding word_at store_word
store_word_other m b c i j w (inl ne) = get_item-set_item_ne m.hash_table b c i j w 0 ne
store_word_other m b c i j w (inr ne) = get_item-set_item_column m.hash_table b c i j w 0 ne

pub same_place : (b c i j : ℕ) → ((c ≡ b) × (j ≡ i)) ⊎ ((b ≢ c) ⊎ (i ≢ j))
same_place b c i j = elim (ℕ_discrete c b) [
  | yes e ↦ elim (ℕ_discrete j i) [ yes q ↦ inl (e, q) | no q ↦ inr (inr (λ x. q (sym x))) ]
  | no e ↦ inr (inl (λ x. e (sym x)))
]

-- The fields of a word that `create_pointer` made
pub made_fields :
    (c p : ℕ) (m : Bool) (w : TablePointer)
    → c < 2 ^ 16
    → IsAddress p
    → create_pointer c p m ≡ some w
    → (w < 2 ^ 64) × (get_counter w ≡ c) × (get_real_pointer w ≡ p) × (get_marked w ≡ m)
made_fields c p m w hc hp e =
    let (w', e', fits, c', p', m') = get-create_pointer c p m hc hp in
    let same : w' ≡ w = some_eq (sym e' ∙ e) in
    subst (λ x. (x < 2 ^ 64) × (get_counter x ≡ c) × (get_real_pointer x ≡ p) × (get_marked x ≡ m))
      same (fits, c', p', m')
  where
    some_eq : {x y : ℕ} → some x ≡ some y → x ≡ y
    some_eq e = cc

-- The word with its mark set: the other fields are kept.
pub marked_word :
    (w : TablePointer)
    → w < 2 ^ 64
    → get_counter w < 2 ^ 16
    → let w' = get_new_mark w true in
      (w' < 2 ^ 64)
      × (get_counter w' ≡ get_counter w)
      × (get_real_pointer w' ≡ get_real_pointer w)
      × (get_marked w' ≡ true)
marked_word w fits low =
    let (made, same) = update_marked_lem w true fits in
    made_fields (get_counter w) (get_real_pointer w) true (get_new_mark w true) low
      (real_pointer-IsAddress w fits) (made ∙ ap some (sym same))
