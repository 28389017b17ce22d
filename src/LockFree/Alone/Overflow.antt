-- ===== src/LockFree/Alone/Overflow.antt =====
-- The end of the counters of cuckoo_filter/lock_free_filter.cpp: a relocation of an item whose counter
-- is at its maximum.
use lock_free_cuckoo_filter.Prelude.{
  ℕ, suc, ◌+◌, ◌^◌, ◌<◌, ◌≡◌, ◌≢◌, refl, ap, ◌∙◌, Bool, true, false, none, some, [], ltb, ◌==◌,
  ==_iff, if◌then◌else◌, arith,
}
use lock_free_cuckoo_filter.Common.{num_items_per_entry}
use lock_free_cuckoo_filter.Pointer.{
  TablePointer, get_counter, get_real_pointer, get_marked, get_new_mark, create_pointer,
}
use lock_free_cuckoo_filter.Table.{Fingerprint, slot}
use lock_free_cuckoo_filter.Table.Copies.{partner}
use lock_free_cuckoo_filter.LockFree.Program.{Program, mark_hazard}
use lock_free_cuckoo_filter.LockFree.Memory.{Memory, word_at, store_word, store_hazard, abort, run}
use lock_free_cuckoo_filter.LockFree.Relocate.{
  get_next_hash_index, move_item, relocate_marked, help_rounds, help_relocate,
}
use lock_free_cuckoo_filter.LockFree.Alone.Still.{still, abort_from_still}
use lock_free_cuckoo_filter.LockFree.Alone.Stores.{store_word_self, store_word_ne, marked_word}
use lock_free_cuckoo_filter.LockFree.Alone.Contents.{
  contents, IsSteady, slot-taken, slot-null, null-slot,
}
use lock_free_cuckoo_filter.LockFree.Alone.Moves.{help_rounds-run, next-partner}
use lock_free_cuckoo_filter.LockFree.Alone.Marking.{mark_source-run}

create_pointer-none : (c p : ℕ) (m : Bool) → 0xFFFF < c → create_pointer c p m ≡ none
unfolding create_pointer
create_pointer-none c p m big = let over : ltb 0xFFFF c ≡ true = ground arith in rw over refl

move_item-aborts :
    (n tid b nb i : ℕ) (w₁ w₂ : TablePointer) (m : Memory)
    → get_counter w₁ ≡ 65535
    → run (move_item n tid b nb i w₁ w₂) m ≡ abort m
unfolding run move_item
move_item-aborts n tid b nb i w₁ w₂ m top =
    let c₁ = get_counter w₁ in
    let c₂ = get_counter w₂ in
    let big : 0xFFFF < (if ltb c₂ c₁ then c₁ + 1 else c₂ + 1) = ground (arith, top) in
    rw
      (
        create_pointer-none (if ltb c₂ c₁ then c₁ + 1 else c₂ + 1) (get_real_pointer w₁) false big,
        run,
      )
      refl

module _ {n c : ℕ} (tid : ℕ) (m : Memory) (s : IsSteady n c m) (low : c < 2 ^ 16) (b i : ℕ)
    (hb : b < n) (hi : i < num_items_per_entry) (full : get_real_pointer (word_at m b i) ≢ 0)
    (nb : ℕ) (free : get_real_pointer (word_at m nb i) ≡ 0) (w₁ : TablePointer)
    (mark₁ : get_marked w₁ ≡ true)
    (pointer₁ : get_real_pointer w₁ ≡ get_real_pointer (word_at m b i))
    (top : get_counter w₁ ≡ 65535) where
  relocate_marked-aborts :
      (again : Program (Unit {0})) (str : Fingerprint)
      → m.heap (get_real_pointer (word_at m b i)) ≡ some str
      → get_next_hash_index n b str ≡ nb
      → run (relocate_marked n tid again b i (some w₁)) (still (store_word m b i w₁))
        ≡ abort (still (store_word m b i w₁))
  unfolding run relocate_marked mark_hazard store_hazard store_word word_at
  relocate_marked-aborts again str live next =
      let m₁ = store_word m b i w₁ in
      let apart : b ≢ nb = λ e. full (ap (λ (x : ℕ). get_real_pointer (word_at m x i)) e ∙ free) in
      let kept : word_at m₁ nb i ≡ word_at m nb i = store_word_ne m b nb i i w₁ apart in
      let source : word_at m₁ b i ≡ w₁ = store_word_self m b i w₁ s.grid hb hi in
      let null : (get_real_pointer (word_at m nb i) == 0) ≡ true = ground arith in
      rw (mark₁, pointer₁, live, run, next, kept, null, source, (==_iff w₁ w₁).1 refl)
        (move_item-aborts n tid b nb i w₁ (word_at m nb i) (still m₁) top)

-- help_relocate as the initiator, alone, with two units of fuel or more, at a full slot of a steady
-- lock-free filter whose counter is 65535 and whose item could move to an empty slot calls abort(),
-- and leaves the slot marked with its old address.
pub help_relocate_aborts :
    {n c : ℕ} (tid fuel : ℕ) (m : Memory) (b i : ℕ)
    → IsSteady n c m
    → c < 2 ^ 16
    → b < n
    → i < num_items_per_entry
    → get_counter (word_at m b i) ≡ 65535
    → let f = slot (contents m) b i in
      f ≢ []
      → slot (contents m) (partner n b f) i ≡ []
      → (last : Memory) × (run (help_relocate n tid (suc (suc fuel)) b i true) m ≡ abort last)
        × (get_marked (word_at last b i) ≡ true)
        × (get_real_pointer (word_at last b i) ≡ get_real_pointer (word_at m b i))
unfolding word_at
help_relocate_aborts {n} {c} tid fuel m b i s low hb hi top nonempty free =
    let full : get_real_pointer (word_at m b i) ≢ 0 = λ e. nonempty (slot-null b i s e) in
    let f = slot (contents m) b i in
    let nb = partner n b f in
    let w₁ = get_new_mark (word_at m b i) true in
    let m₁ = store_word m b i w₁ in
    let (fits₁, count₁, pointer₁, mark₁) =
      marked_word (word_at m b i) (s.words b i).fits (omega (arith, (s.words b i).counter, low)) in
    let e =
      help_rounds-run n tid (suc fuel) m m₁ b i w₁ (abort (still m₁))
        (mark_source-run tid m s low b i hb hi full fuel)
        (relocate_marked-aborts tid m s low b i hb hi full nb (null-slot nb i s free) w₁ mark₁
          pointer₁ (count₁ ∙ top) (help_rounds n tid (suc fuel) b i true) f
          (slot-taken b i s full).1 (next-partner n b f)) in
    let (last, e', same) =
      abort_from_still (help_relocate n tid (suc (suc fuel)) b i true) m (still m₁) e in
    let word : word_at last b i ≡ w₁ =
      ap (λ (l : Memory). word_at l b i) same ∙ store_word_self m b i w₁ s.grid hb hi in
    (last, e', ap get_marked word ∙ mark₁, ap get_real_pointer word ∙ pointer₁)
