-- ===== src/Tests/FlawTests.antt =====
-- Memories on which cuckoo_filter/lock_free_filter.cpp does not go on.
use lock_free_cuckoo_filter.Prelude.{
  ℕ, zero, suc, ◌+◌, ◌*◌, ◌%◌, ◌^◌, ◌≡◌, inr, refl, sym, ◌∙◌, true, [], ◌∷◌, arith,
}
use lock_free_cuckoo_filter.Hash.{jenkins_hash}
use lock_free_cuckoo_filter.Index.{next_index}
use lock_free_cuckoo_filter.Pointer.{get_counter, get_real_pointer, get_marked}
use lock_free_cuckoo_filter.Table.{slot}
use lock_free_cuckoo_filter.Table.Copies.{partner}
use lock_free_cuckoo_filter.LockFree.Memory.{Memory, word_at, abort, unfinished, run}
use lock_free_cuckoo_filter.LockFree.Relocate.{help_relocate, get_next_hash_index}
use lock_free_cuckoo_filter.LockFree.Methods.{find}
use lock_free_cuckoo_filter.LockFree.Alone.Contents.{
  print_at, words_contents, contents, IsSteadyWord-le, IsSteadyWord, IsSteady,
}
use lock_free_cuckoo_filter.LockFree.Alone.Stuck.{IsBlocked, find_never_returns}
use lock_free_cuckoo_filter.LockFree.Alone.Overflow.{help_relocate_aborts}
use lock_free_cuckoo_filter.Tests.SequentialTests.{toy, print_of}
use lock_free_cuckoo_filter.Tests.AloneTests.{
  two_entries, chain_memory, null_word, row_words, four_rows, nine_nonempty,
}

-- The entry at 32 is marked, and the entry at 64 has taken its place in bucket 1.
abbrev blocked_memory : Memory
blocked_memory = record chain_memory {
  hash_table =
      (33 ∷ 0 ∷ 0 ∷ 0 ∷ [])
      ∷ (64 ∷ 0 ∷ 0 ∷ 0 ∷ [])
      ∷ (0 ∷ 0 ∷ 0 ∷ 0 ∷ [])
      ∷ (0 ∷ 0 ∷ 0 ∷ 0 ∷ [])
      ∷ [];
}

blocked_memory-IsBlocked : IsBlocked 4 blocked_memory (jenkins_hash (9 ∷ []) % 4) 0
unfolding word_at get_counter get_real_pointer get_marked get_next_hash_index jenkins_hash
blocked_memory-IsBlocked = record {
  str = print_of 9;
  fits = omega arith;
  low = omega arith;
  marked = refl;
  full = λ e. omega (arith, e);
  live = refl;
  taken = λ e. omega (arith, e);
  other = λ e. omega (arith, e);
}

find_never_returns_example :
    (last : Memory) × (run (find 4 0 100 toy (9 ∷ [])) blocked_memory ≡ unfinished last)
    × (last.hash_table ≡ blocked_memory.hash_table)
find_never_returns_example =
    find_never_returns 0 100 toy (9 ∷ []) blocked_memory blocked_memory-IsBlocked

-- The entry at 32 has the largest counter.
abbrev top_word : ℕ
top_word = 65535 * 2 ^ 48 + 32

abbrev top_memory : Memory
top_memory = record chain_memory {
  hash_table =
      (top_word ∷ 0 ∷ 0 ∷ 0 ∷ [])
      ∷ (0 ∷ 0 ∷ 0 ∷ 0 ∷ [])
      ∷ (0 ∷ 0 ∷ 0 ∷ 0 ∷ [])
      ∷ (0 ∷ 0 ∷ 0 ∷ 0 ∷ [])
      ∷ [];
}

top_words : (b i : ℕ) → IsSteadyWord 65535 two_entries 96 (word_at top_memory b i)
unfolding word_at get_real_pointer get_counter get_marked
top_words zero zero = record {
  fits = omega arith;
  unmarked = refl;
  counter = omega arith;
  target = inr (record { str = print_of 9; live = refl; nonempty = cc; old = omega arith });
}
top_words zero (suc zero) = IsSteadyWord-le (omega arith) null_word
top_words zero (suc (suc zero)) = IsSteadyWord-le (omega arith) null_word
top_words zero (suc (suc (suc zero))) = IsSteadyWord-le (omega arith) null_word
top_words zero (suc (suc (suc (suc i)))) = IsSteadyWord-le (omega arith) null_word
top_words (suc zero) i = IsSteadyWord-le (omega arith) (row_words 0 null_word i)
top_words (suc (suc zero)) i = IsSteadyWord-le (omega arith) (row_words 0 null_word i)
top_words (suc (suc (suc zero))) i = IsSteadyWord-le (omega arith) (row_words 0 null_word i)
top_words (suc (suc (suc (suc b)))) i = IsSteadyWord-le (omega arith) null_word

top-IsSteady : IsSteady 4 65535 top_memory
top-IsSteady = record {
  grid = four_rows top_word 0;
  words = top_words;
  pos = omega arith;
  even = refl;
}

top_slot : slot (contents top_memory) 0 0 ≡ print_of 9
unfolding slot words_contents print_at get_real_pointer
top_slot = refl

top_free : slot (contents top_memory) (partner 4 0 (slot (contents top_memory) 0 0)) 0 ≡ []
unfolding slot words_contents print_at get_real_pointer next_index jenkins_hash
top_free = refl

top_counter : get_counter (word_at top_memory 0 0) ≡ 65535
unfolding get_counter word_at
top_counter = refl

help_relocate_aborts_example :
    (last : Memory) × (run (help_relocate 4 0 2 0 0 true) top_memory ≡ abort last)
    × (get_marked (word_at last 0 0) ≡ true)
    × (get_real_pointer (word_at last 0 0) ≡ get_real_pointer (word_at top_memory 0 0))
help_relocate_aborts_example =
    help_relocate_aborts 0 0 top_memory 0 0 top-IsSteady (omega arith) (omega arith) (omega arith)
      top_counter (λ e. nine_nonempty (sym top_slot ∙ e)) top_free
