-- ===== src/LockFree/Alone/Moves.antt =====
-- `help_relocate` of cuckoo_filter/lock_free_filter.cpp, run alone: the move of one item from a full
-- slot to the empty slot of its other bucket.
use mathlib.Core.Path.{subst}
use lock_free_cuckoo_filter.Prelude.{
  ℕ, suc, ◌+◌, ◌^◌, ◌<◌, ◌≡◌, ◌≢◌, refl, sym, ap, ap₂, ◌∙◌, inl, inr, ◌⊎◌, true, some, [], ◌==◌,
  ==_iff, arith, set_item-IsGrid,
}
use lock_free_cuckoo_filter.Common.{num_items_per_entry}
use lock_free_cuckoo_filter.Pointer.{TablePointer, get_real_pointer, get_new_mark}
use lock_free_cuckoo_filter.Table.{Fingerprint, slot, write}
use lock_free_cuckoo_filter.Table.Shape.{write-slot}
use lock_free_cuckoo_filter.Table.Copies.{partner}
use lock_free_cuckoo_filter.Index.Partner.{next_index-lt}
use lock_free_cuckoo_filter.Hash.{jenkins_hash}
use lock_free_cuckoo_filter.LockFree.Program.{Program, mark_hazard, clear_hazard}
use lock_free_cuckoo_filter.LockFree.Memory.{
  Outcome, Memory, word_at, store_word, store_hazard, returned, run,
}
use lock_free_cuckoo_filter.LockFree.Relocate.{
  get_next_hash_index, mark_source, move_item, relocate_marked, help_rounds, help_relocate,
}
use lock_free_cuckoo_filter.LockFree.Alone.Runs.{run_after}
use lock_free_cuckoo_filter.LockFree.Alone.Still.{still}
use lock_free_cuckoo_filter.LockFree.Alone.Contents.{
  contents, IsTaken, IsSteadyWord, IsSteadyWord-le, IsSteady, contents-store_word, slot-contents,
  slot-taken, slot-null, null-slot, print_at,
}
use lock_free_cuckoo_filter.LockFree.Alone.Stores.{
  store_word_self, store_word_ne, store_word_other, same_place,
}
use lock_free_cuckoo_filter.LockFree.Alone.Marking.{mark_source-run, IsMove, some-IsMove}

-- The move of an item from slot `i` of `b` to that of `nb`
pub record Moved (n c : ℕ) (m : Memory) (b nb i : ℕ) (m' : Memory) : Type 0 where
  pub steady : IsSteady n (c + 1) m'
  pub moves : contents m' ≡ write (write (contents m) nb i (slot (contents m) b i)) b i []
  pub same_heap : m'.heap ≡ m.heap
  pub same_fresh : m'.fresh ≡ m.fresh

module _ {n c : ℕ} (tid : ℕ) (m : Memory) (s : IsSteady n c m) (low : c + 1 < 2 ^ 16) (b i : ℕ)
    (hb : b < n) (hi : i < num_items_per_entry) (full : get_real_pointer (word_at m b i) ≢ 0)
    (nb : ℕ) (hn : nb < n) (free : get_real_pointer (word_at m nb i) ≡ 0) (w₁ w₂ w₃ : TablePointer)
    (x : IsMove c m b nb i w₁ w₂ w₃) where
  apart : b ≢ nb
  apart e = full (ap (λ (x : ℕ). get_real_pointer (word_at m x i)) e ∙ free)

  abbrev after : Memory
  after = store_word (store_word (store_word m b i w₁) nb i w₂) b i w₃

  move_item-run :
      run (move_item n tid b nb i w₁ (word_at m nb i)) (still (store_word m b i w₁))
      ≡ returned tt (still after)
  unfolding run move_item store_word word_at
  move_item-run =
      let m₁ = store_word m b i w₁ in
      let kept : word_at m₁ nb i ≡ word_at m nb i = store_word_ne m b nb i i w₁ apart in
      let source : word_at (store_word m₁ nb i w₂) b i ≡ w₁ =
        store_word_ne m₁ nb b i i w₂ (λ e. apart (sym e)) ∙ store_word_self m b i w₁ s.grid hb hi in
      rw
        (
          x.made₂,
          kept,
          (==_iff (word_at m nb i) (word_at m nb i)).1 refl,
          x.made₃,
          source,
          (==_iff w₁ w₁).1 refl,
          run,
        )
        refl

  relocate_marked-run :
      (again : Program (Unit {0})) (str : Fingerprint)
      → m.heap (get_real_pointer (word_at m b i)) ≡ some str
      → get_next_hash_index n b str ≡ nb
      → run (relocate_marked n tid again b i (some w₁)) (still (store_word m b i w₁))
        ≡ returned tt (still after)
  unfolding run relocate_marked mark_hazard store_hazard store_word word_at
  relocate_marked-run again str live next =
      let m₁ = store_word m b i w₁ in
      let kept : word_at m₁ nb i ≡ word_at m nb i = store_word_ne m b nb i i w₁ apart in
      let source : word_at m₁ b i ≡ w₁ = store_word_self m b i w₁ s.grid hb hi in
      let null : (get_real_pointer (word_at m nb i) == 0) ≡ true = ground arith in
      rw (x.mark₁, x.pointer₁, live, run, next, kept, null, source, (==_iff w₁ w₁).1 refl)
        move_item-run

  after-IsSteady : IsSteady n (c + 1) after
  unfolding store_word
  after-IsSteady =
      let m₁ = store_word m b i w₁ in
      let m₂ = store_word m₁ nb i w₂ in
      let g₁ = set_item-IsGrid m.hash_table b i w₁ s.grid in
      let g₂ = set_item-IsGrid m₁.hash_table nb i w₂ g₁ in
      let P = IsSteadyWord (c + 1) m.heap m.fresh in
      let s₂ : P w₂ = record {
        fits = x.fits₂;
        unmarked = x.mark₂;
        counter = x.counter₂;
        target =
            subst (λ p. (p ≡ 0) ⊎ IsTaken m.heap m.fresh p) (sym (x.pointer₂ ∙ x.pointer₁))
              (s.words b i).target;
      } in
      let s₃ : P w₃ = record {
        fits = x.fits₃;
        unmarked = x.mark₃;
        counter = x.counter₃;
        target = inl x.pointer₃;
      } in
      record {
        grid = set_item-IsGrid m₂.hash_table b i w₃ g₂;
        words = λ b' j. elim (same_place b b' i j) [
          | inl (e, q) ↦ rw (e, q) (subst P (sym (store_word_self m₂ b i w₃ g₂ hb hi)) s₃)
          | inr ne ↦
              subst P (sym (store_word_other m₂ b b' i j w₃ ne)) (elim (same_place nb b' i j) [
                | inl (e, q) ↦ rw (e, q) (subst P (sym (store_word_self m₁ nb i w₂ g₁ hn hi)) s₂)
                | inr ne' ↦
                    subst P
                      (sym
                        (store_word_other m₁ nb b' i j w₂ ne' ∙ store_word_other m b b' i j w₁ ne))
                      (IsSteadyWord-le (omega arith) (s.words b' j))
              ])
        ];
        pos = s.pos;
        even = s.even;
      }

  after-contents : contents after ≡ write (write (contents m) nb i (slot (contents m) b i)) b i []
  unfolding store_word print_at
  after-contents =
      let m₁ = store_word m b i w₁ in
      let m₂ = store_word m₁ nb i w₂ in
      let here = slot-contents m b i in
      let first : contents m₁ ≡ contents m =
        contents-store_word m b i w₁
        ∙ ap (write (contents m) b i) (ap (print_at m.heap) x.pointer₁ ∙ sym here)
        ∙ write-slot (contents m) b i in
      let second : contents m₂ ≡ write (contents m) nb i (slot (contents m) b i) =
        contents-store_word m₁ nb i w₂
        ∙ ap₂ (λ t f. write t nb i f) first
            (ap (print_at m.heap) (x.pointer₂ ∙ x.pointer₁) ∙ sym here) in
      contents-store_word m₂ b i w₃
      ∙ ap₂ (λ t f. write t b i f) second (ap (print_at m.heap) x.pointer₃)

  after-Moved : Moved n c m b nb i after
  unfolding store_word
  after-Moved = record {
    steady = after-IsSteady;
    moves = after-contents;
    same_heap = refl;
    same_fresh = refl;
  }

pub next-partner : (n b : ℕ) (f : Fingerprint) → get_next_hash_index n b f ≡ partner n b f
unfolding get_next_hash_index
next-partner n b f = refl

pub help_rounds-run :
    (n tid fuel : ℕ) (m m₁ : Memory) (b i : ℕ) (w₁ : TablePointer) (o : Outcome (Unit {0}))
    → run (mark_source n tid (suc fuel) b i true (word_at m b i)) (still m)
      ≡ returned (some w₁) (still m₁)
    → run (relocate_marked n tid (help_rounds n tid fuel b i true) b i (some w₁)) (still m₁) ≡ o
    → run (help_relocate n tid (suc fuel) b i true) (still m) ≡ o
unfolding help_relocate help_rounds clear_hazard mark_hazard store_hazard word_at run
help_rounds-run n tid fuel m m₁ b i w₁ o e e' =
    run_after (mark_source n tid (suc fuel) b i true (word_at m b i))
      (relocate_marked n tid (help_rounds n tid fuel b i true) b i) (still m) (still m₁) (some w₁) e
    ∙ e'

-- help_relocate alone, as the initiator at a full slot whose other bucket's slot is empty
pub help_relocate-Moved :
    {n c : ℕ} (tid fuel : ℕ) (m : Memory) (b i : ℕ)
    → IsSteady n c m
    → 0 < n
    → c + 1 < 2 ^ 16
    → b < n
    → i < num_items_per_entry
    → let f = slot (contents m) b i in
      let nb = partner n b f in
      f ≢ []
      → slot (contents m) nb i ≡ []
      → (m' : Memory) × (run (help_relocate n tid (suc (suc fuel)) b i true) (still m)
          ≡ returned tt (still m'))
        × Moved n c m b nb i m'
help_relocate-Moved {n} {c} tid fuel m b i s pos low hb hi nonempty free =
    let full : get_real_pointer (word_at m b i) ≢ 0 = λ e. nonempty (slot-null b i s e) in
    let f = slot (contents m) b i in
    let nb = partner n b f in
    let hn = next_index-lt n b (jenkins_hash f) pos in
    let null = null-slot nb i s free in
    let w₁ = get_new_mark (word_at m b i) true in
    let (w₂, w₃, x) = some-IsMove m b nb i s low in
    (
      after tid m s low b i hb hi full nb hn null w₁ w₂ w₃ x,
      help_rounds-run n tid (suc fuel) m (store_word m b i w₁) b i w₁
          (returned tt (still (after tid m s low b i hb hi full nb hn null w₁ w₂ w₃ x)))
          (mark_source-run tid m s (omega (arith, low)) b i hb hi full fuel)
          (relocate_marked-run tid m s low b i hb hi full nb hn null w₁ w₂ w₃ x
            (help_rounds n tid (suc fuel) b i true) f (slot-taken b i s full).1
            (next-partner n b f)),
      after-Moved tid m s low b i hb hi full nb hn null w₁ w₂ w₃ x,
    )
