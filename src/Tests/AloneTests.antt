-- ===== src/Tests/AloneTests.antt =====
-- Calls of a thread alone on a filter of cuckoo_filter/lock_free_filter.cpp with four buckets.
use lock_free_cuckoo_filter.Prelude.{
  ℕ, zero, suc, ◌%◌, ◌<◌, ◌≡◌, ◌≢◌, inl, inr, refl, sym, ◌∙◌, Bool, true, none, some, List, [], ◌∷◌,
  length, get_or, ltb, ◌==◌, if◌then◌else◌, IsGrid, arith,
}
use lock_free_cuckoo_filter.Hash.{jenkins_hash, md5_fingerprint}
use lock_free_cuckoo_filter.Index.{next_index}
use lock_free_cuckoo_filter.Pointer.{get_counter, get_real_pointer, get_marked}
use lock_free_cuckoo_filter.Table.{slot}
use lock_free_cuckoo_filter.Table.Copies.{pair_of}
use lock_free_cuckoo_filter.Sequential.Valid.{IsPower}
use lock_free_cuckoo_filter.LockFree.Program.{Address}
use lock_free_cuckoo_filter.LockFree.Memory.{Memory, new_memory, word_at, returned, run}
use lock_free_cuckoo_filter.LockFree.Relocate.{relocate}
use lock_free_cuckoo_filter.LockFree.Methods.{insert, find, remove}
use lock_free_cuckoo_filter.LockFree.Threads.{Call, inserting, finding, removing}
use lock_free_cuckoo_filter.LockFree.Bounds.Insertion.{AreOrders}
use lock_free_cuckoo_filter.LockFree.Safety.Words.{Heap}
use lock_free_cuckoo_filter.LockFree.Alone.Runs.{with_hazards}
use lock_free_cuckoo_filter.LockFree.Alone.Contents.{
  print_at, words_contents, contents, IsSteadyWord, IsSteady,
}
use lock_free_cuckoo_filter.LockFree.Alone.Walk.{distance}
use lock_free_cuckoo_filter.LockFree.Alone.Contract.{held, Inserted, insert-Inserted}
use lock_free_cuckoo_filter.LockFree.Alone.Answers.{find_answer}
use lock_free_cuckoo_filter.LockFree.Alone.Removal.{Removed, remove-Removed}
use lock_free_cuckoo_filter.LockFree.Alone.Allowed.{answers_to, AllAllowed}
use lock_free_cuckoo_filter.LockFree.Alone.History.{new_filter_answers}
use lock_free_cuckoo_filter.LockFree.Alone.Full.Relocations.{
  RelocatedCopies, relocate-copies, relocate_keeps_full,
}
use lock_free_cuckoo_filter.Tests.SequentialTests.{toy, print_of}

pub four-IsPower : IsPower 4
four-IsPower = record { exponent = 2; is_power = refl; fits_int = omega arith }

abbrev pub in_order : ℕ → List ℕ
in_order r = 0 ∷ 1 ∷ 2 ∷ 3 ∷ []

pub in_order-AreOrders : AreOrders in_order
in_order-AreOrders r = (omega arith, (omega arith, (omega arith, (omega arith, tt))))

-- A key is stored, found and removed, and not found after that.
abbrev pub one_life : List Call
one_life =
    inserting in_order (9 ∷ []) ∷ finding (9 ∷ []) ∷ removing (9 ∷ []) ∷ finding (9 ∷ []) ∷ []

new_filter_answers_example :
    (answers : List Bool) × (last : Memory) × (run (answers_to 4 42 toy 0 one_life) (new_memory 4 1)
      ≡ returned answers last)
    × AllAllowed 4 toy one_life (λ g p. 0) answers
new_filter_answers_example =
    new_filter_answers 4 1 42 toy 0 one_life four-IsPower (in_order-AreOrders, tt) (omega arith)
      (omega arith)

-- The entry at 32 has its other bucket in 1, where the entry at 64 stands, which can go to 2.
abbrev pub two_entries : Heap
two_entries p = if p == 32 then some (print_of 9) else if p == 64 then some (print_of 5) else none

abbrev pub chain_memory : Memory
chain_memory = record {
  hash_table =
      (32 ∷ 0 ∷ 0 ∷ 0 ∷ [])
      ∷ (64 ∷ 0 ∷ 0 ∷ 0 ∷ [])
      ∷ (0 ∷ 0 ∷ 0 ∷ 0 ∷ [])
      ∷ (0 ∷ 0 ∷ 0 ∷ 0 ∷ [])
      ∷ [];
  hazard_ptrs = (0 ∷ 0 ∷ []) ∷ [];
  retired_ptrs = [] ∷ [];
  heap = two_entries;
  fresh = 96;
}

pub null_word : IsSteadyWord 0 two_entries 96 0
unfolding get_real_pointer get_counter get_marked
null_word = record { fits = omega arith; unmarked = refl; counter = omega arith; target = inl refl }

pub row_words :
    (w : ℕ)
    → IsSteadyWord 0 two_entries 96 w
    → (i : ℕ) → IsSteadyWord 0 two_entries 96 (get_or (w ∷ 0 ∷ 0 ∷ 0 ∷ []) i 0)
row_words w s zero = s
row_words w s (suc zero) = null_word
row_words w s (suc (suc zero)) = null_word
row_words w s (suc (suc (suc zero))) = null_word
row_words w s (suc (suc (suc (suc i)))) = null_word

chain_words : (b i : ℕ) → IsSteadyWord 0 two_entries 96 (word_at chain_memory b i)
unfolding word_at get_real_pointer get_counter get_marked
chain_words zero i =
    row_words 32
      (record {
        fits = omega arith;
        unmarked = refl;
        counter = omega arith;
        target = inr (record { str = print_of 9; live = refl; nonempty = cc; old = omega arith });
      })
      i
chain_words (suc zero) i =
    row_words 64
      (record {
        fits = omega arith;
        unmarked = refl;
        counter = omega arith;
        target = inr (record { str = print_of 5; live = refl; nonempty = cc; old = omega arith });
      })
      i
chain_words (suc (suc zero)) i = row_words 0 null_word i
chain_words (suc (suc (suc zero))) i = row_words 0 null_word i
chain_words (suc (suc (suc (suc b)))) i = null_word

pub four_rows :
    (r₀ r₁ : ℕ)
    → IsGrid 4 4 (
        (r₀ ∷ 0 ∷ 0 ∷ 0 ∷ [])
        ∷ (r₁ ∷ 0 ∷ 0 ∷ 0 ∷ [])
        ∷ (0 ∷ 0 ∷ 0 ∷ 0 ∷ [])
        ∷ (0 ∷ 0 ∷ 0 ∷ 0 ∷ [])
        ∷ [])
four_rows r₀ r₁ = record { rows = refl; items = widths }
  where
    widths :
        (b : ℕ)
        → b < 4
        → length (
            get_or
              ((r₀ ∷ 0 ∷ 0 ∷ 0 ∷ [])
                ∷ (r₁ ∷ 0 ∷ 0 ∷ 0 ∷ [])
                ∷ (0 ∷ 0 ∷ 0 ∷ 0 ∷ [])
                ∷ (0 ∷ 0 ∷ 0 ∷ 0 ∷ [])
                ∷ [])
              b
              [])
          ≡ 4
    widths zero h = refl
    widths (suc zero) h = refl
    widths (suc (suc zero)) h = refl
    widths (suc (suc (suc zero))) h = refl
    widths (suc (suc (suc (suc b)))) h = absurd (omega (arith, h))

chain-IsSteady : IsSteady 4 0 chain_memory
chain-IsSteady = record {
  grid = four_rows 32 64;
  words = chain_words;
  pos = omega arith;
  even = refl;
}

insert-Inserted_example :
    (answer : Bool) × (m' : Memory) × (run (insert 4 0 42 toy in_order (5 ∷ [])) chain_memory
      ≡ returned answer m')
    × Inserted 4 0 toy (5 ∷ []) chain_memory answer m'
insert-Inserted_example =
    insert-Inserted 0 42 toy in_order (5 ∷ []) chain_memory four-IsPower in_order-AreOrders
      chain-IsSteady (omega arith) (omega arith) (omega arith)

find_answer_example :
    (location : ℕ) × (h : List (List Address)) × (run (find 4 0 1 toy (9 ∷ [])) chain_memory
      ≡ returned location (with_hazards chain_memory h))
    × (ltb location 8
        ≡ ltb 0 (
            held 4 chain_memory
              (md5_fingerprint toy (9 ∷ []))
              (pair_of 4 (jenkins_hash (9 ∷ []) % 4) (md5_fingerprint toy (9 ∷ [])))))
find_answer_example = find_answer 0 0 toy (9 ∷ []) chain_memory four-IsPower chain-IsSteady

remove-Removed_example :
    (answer : Bool) × (m' : Memory) × (run (remove 4 0 1 toy (9 ∷ [])) chain_memory
      ≡ returned answer m')
    × (answer
        ≡ ltb 0 (
            held 4 chain_memory
              (md5_fingerprint toy (9 ∷ []))
              (pair_of 4 (jenkins_hash (9 ∷ []) % 4) (md5_fingerprint toy (9 ∷ [])))))
    × Removed 4 0 0 toy (9 ∷ []) chain_memory answer m'
remove-Removed_example =
    remove-Removed 0 0 toy (9 ∷ []) chain_memory four-IsPower chain-IsSteady (omega arith)

pub nine_nonempty : print_of 9 ≢ []
nine_nonempty = cc

chain_slot : slot (contents chain_memory) 0 0 ≡ print_of 9
unfolding slot words_contents print_at get_real_pointer
chain_slot = refl

chain_full : slot (contents chain_memory) 0 0 ≢ []
chain_full e = nine_nonempty (sym chain_slot ∙ e)

relocate-copies_example :
    (answer : Bool) × (m' : Memory) × (run (relocate 4 0 2 0 0) chain_memory ≡ returned answer m')
    × RelocatedCopies 4 0 chain_memory 0 0 answer m'
relocate-copies_example =
    relocate-copies 0 0 chain_memory 0 0 four-IsPower chain-IsSteady (omega arith) (omega arith)
      (omega arith) chain_full

two_steps : distance 4 0 (contents chain_memory) 10 0 ≡ 2
unfolding distance slot words_contents print_at get_real_pointer next_index jenkins_hash
two_steps = refl

relocate_keeps_full_example :
    (m' : Memory) × (run (relocate 4 0 2 0 0) chain_memory ≡ returned true m')
    × (slot (contents m') 0 0 ≢ [])
relocate_keeps_full_example =
    relocate_keeps_full 0 0 chain_memory 0 0 four-IsPower chain-IsSteady (omega arith) (omega arith)
      (omega arith) chain_full (omega (arith, two_steps)) (omega (arith, two_steps))
