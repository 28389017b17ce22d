-- ===== src/LockFree/Alone/NewMemory.antt =====
-- A new filter of cuckoo_filter/lock_free_filter.cpp is steady and stores nothing.
use lock_free_cuckoo_filter.Prelude.{
  ℕ, zero, suc, ◌≡◌, refl, sym, ap, ap₂, inl, none, [], ◌∷◌, get_or-replicate, get_item, replicate,
  replicate-IsGrid, arith,
}
use mathlib.Core.Path.{subst}
use lock_free_cuckoo_filter.Common.{num_items_per_entry}
use lock_free_cuckoo_filter.Pointer.{get_counter, get_real_pointer, get_marked}
use lock_free_cuckoo_filter.Table.{Bucket, empty_table}
use lock_free_cuckoo_filter.LockFree.Memory.{new_memory, word_at}
use lock_free_cuckoo_filter.LockFree.Safety.Words.{Heap}
use lock_free_cuckoo_filter.LockFree.Alone.Contents.{
  print_at, row_contents, words_contents, contents, IsSteadyWord, IsSteady,
}

row_contents-replicate : (heap : Heap) (k : ℕ) → row_contents heap (replicate k 0) ≡ replicate k []
unfolding row_contents print_at get_real_pointer
row_contents-replicate heap zero = refl
row_contents-replicate heap (suc k) = ap (λ (r : Bucket). [] ∷ r) (row_contents-replicate heap k)

pub words_contents-replicate :
    (heap : Heap) (k : ℕ)
    → words_contents heap (replicate k (replicate num_items_per_entry 0))
      ≡ replicate k (replicate num_items_per_entry [])
unfolding words_contents
words_contents-replicate heap zero = refl
words_contents-replicate heap (suc k) =
    ap₂ ◌∷◌ (row_contents-replicate heap num_items_per_entry) (words_contents-replicate heap k)

-- A new filter stores nothing.
pub new_memory-contents : (n threads : ℕ) → contents (new_memory n threads) ≡ empty_table n
unfolding new_memory empty_table
new_memory-contents n threads = words_contents-replicate (λ p. none) n

pub new_memory-IsSteady : (n threads : ℕ) → IsSteady n 0 (new_memory n threads)
unfolding new_memory word_at get_real_pointer get_counter get_marked
new_memory-IsSteady n threads = record {
  grid = replicate-IsGrid 0;
  words = λ b i.
      subst (IsSteadyWord 0 (λ p. none) 32) (sym (zero_word n b i))
        (record { fits = omega arith; unmarked = refl; counter = omega arith; target = inl refl });
  pos = omega arith;
  even = omega arith;
}
  where
    zero_word : (k b i : ℕ) → ◌≡◌ {A = ℕ} (get_item (replicate k (replicate 4 0)) b i 0) 0
    zero_word zero b i = refl
    zero_word (suc k) zero i = get_or-replicate 4 i 0
    zero_word (suc k) (suc b) i = zero_word k b i
