-- ===== src/LockFree/Alone/Marking.antt =====
-- The mark that `help_relocate` of cuckoo_filter/lock_free_filter.cpp sets, run alone, and the words that
-- a move stores.
use lock_free_cuckoo_filter.Prelude.{
  ℕ, suc, ◌+◌, ◌^◌, ◌<◌, ◌≤◌, ◌≡◌, ◌≢◌, refl, true, false, some, ltb, ◌==◌, ==_iff, if◌then◌else◌,
  arith,
}
use lock_free_cuckoo_filter.Common.{num_items_per_entry}
use lock_free_cuckoo_filter.Pointer.{
  TablePointer, get_counter, get_real_pointer, get_marked, get_new_mark, create_pointer,
}
use lock_free_cuckoo_filter.Pointer.Fields.{real_pointer-IsAddress}
use lock_free_cuckoo_filter.Pointer.RoundTrip.{get-create_pointer}
use lock_free_cuckoo_filter.LockFree.Program.{mark_hazard}
use lock_free_cuckoo_filter.LockFree.Memory.{
  Memory, word_at, store_word, store_hazard, returned, run,
}
use lock_free_cuckoo_filter.LockFree.Relocate.{mark_source}
use lock_free_cuckoo_filter.LockFree.Alone.Still.{still}
use lock_free_cuckoo_filter.LockFree.Alone.Contents.{IsSteady}
use lock_free_cuckoo_filter.LockFree.Alone.Stores.{store_word_self, marked_word}

-- One move, in a memory without hazard pointers
module _ {n c : ℕ} (tid : ℕ) (m : Memory) (s : IsSteady n c m) (low : c < 2 ^ 16) (b i : ℕ)
    (hb : b < n) (hi : i < num_items_per_entry) (full : get_real_pointer (word_at m b i) ≢ 0) where
  -- The word of the source, marked
  abbrev marked : TablePointer
  marked = get_new_mark (word_at m b i) true

  fields :
      (marked < 2 ^ 64)
      × (get_counter marked ≡ get_counter (word_at m b i))
      × (get_real_pointer marked ≡ get_real_pointer (word_at m b i))
      × (get_marked marked ≡ true)
  fields =
      marked_word (word_at m b i) (s.words b i).fits (omega (arith, (s.words b i).counter, low))

  there : (get_real_pointer (word_at m b i) == 0) ≡ false
  there = ground arith

  pub mark_source-run :
      (fuel : ℕ)
      → run (mark_source n tid (suc (suc fuel)) b i true (word_at m b i)) (still m)
        ≡ returned (some marked) (still (store_word m b i marked))
  unfolding run mark_source mark_hazard store_hazard store_word word_at
  mark_source-run fuel =
      rw
        (
          (s.words b i).unmarked,
          there,
          (==_iff (word_at m b i) (word_at m b i)).1 refl,
          store_word_self (still m) b i marked s.grid hb hi,
          fields.3,
          run,
          mark_source,
        )
        refl

-- The words that a move stores: the source marked, the destination, and the source cleared
pub record IsMove (c : ℕ) (m : Memory) (b nb i : ℕ) (w₁ w₂ w₃ : TablePointer) : Type 0 where
  pub pointer₁ : get_real_pointer w₁ ≡ get_real_pointer (word_at m b i)
  pub mark₁ : get_marked w₁ ≡ true
  pub made₂ :
      create_pointer
        (if ltb (get_counter (word_at m nb i)) (get_counter w₁)
          then get_counter w₁ + 1
          else get_counter (word_at m nb i) + 1)
        (get_real_pointer w₁)
        false
      ≡ some w₂
  pub fits₂ : w₂ < 2 ^ 64
  pub counter₂ : get_counter w₂ ≤ c + 1
  pub pointer₂ : get_real_pointer w₂ ≡ get_real_pointer w₁
  pub mark₂ : get_marked w₂ ≡ false
  pub made₃ : create_pointer (get_counter w₁ + 1) 0 false ≡ some w₃
  pub fits₃ : w₃ < 2 ^ 64
  pub counter₃ : get_counter w₃ ≤ c + 1
  pub pointer₃ : get_real_pointer w₃ ≡ 0
  pub mark₃ : get_marked w₃ ≡ false

pub some-IsMove :
    {n c : ℕ} (m : Memory) (b nb i : ℕ)
    → IsSteady n c m
    → c + 1 < 2 ^ 16
    → (w₂ : TablePointer) × (w₃ : TablePointer) × IsMove c m b nb i
        (get_new_mark (word_at m b i) true)
        w₂
        w₃
some-IsMove {c = c} m b nb i s low =
    let w = word_at m b i in
    let w₁ = get_new_mark w true in
    let (fits₁, count₁, ptr₁, mark₁) =
      marked_word w (s.words b i).fits (omega (arith, (s.words b i).counter)) in
    let c₁ = get_counter w₁ in
    let c₂ = get_counter (word_at m nb i) in
    let count : (if ltb c₂ c₁ then c₁ + 1 else c₂ + 1) ≤ c + 1 =
      ground (arith, count₁, (s.words b i).counter, (s.words nb i).counter) in
    let (w₂, made₂, fits₂, count₂, ptr₂, mark₂) =
      get-create_pointer (if ltb c₂ c₁ then c₁ + 1 else c₂ + 1) (get_real_pointer w₁) false
        (omega (arith, count, low)) (real_pointer-IsAddress w₁ fits₁) in
    let (w₃, made₃, fits₃, count₃, ptr₃, mark₃) =
      get-create_pointer (c₁ + 1) 0 false (omega (arith, low, count₁, (s.words b i).counter))
        (omega arith, omega arith) in
    (
      w₂,
      w₃,
      record {
        pointer₁ = ptr₁;
        mark₁ = mark₁;
        made₂ = made₂;
        fits₂ = fits₂;
        counter₂ = omega (arith, count₂, count);
        pointer₂ = ptr₂;
        mark₂ = mark₂;
        made₃ = made₃;
        fits₃ = fits₃;
        counter₃ = omega (arith, count₃, count₁, (s.words b i).counter);
        pointer₃ = ptr₃;
        mark₃ = mark₃;
      },
    )
