-- ===== src/LockFree/Alone/Search.antt =====
-- The loops of `find` of cuckoo_filter/lock_free_filter.cpp, run alone.
use lock_free_cuckoo_filter.Prelude.{
  ℕ, zero, suc, ◌+◌, ◌*◌, ◌≡◌, refl, ap, ◌∙◌, inl, inr, ◌⊎◌, Bool, true, false, not, ◌&&◌, Option,
  none, some, List, Bool-cases, ◌==◌, str_eq, if◌then◌else◌, arith,
}
use lock_free_cuckoo_filter.Common.{num_items_per_entry}
use lock_free_cuckoo_filter.Pointer.{TablePointer, get_counter, get_real_pointer, get_marked}
use lock_free_cuckoo_filter.Table.{Fingerprint}
use lock_free_cuckoo_filter.LockFree.Program.{Address, Program, done, mark_hazard, entry_str}
use lock_free_cuckoo_filter.LockFree.Memory.{Memory, word_at, store_hazard, returned, run}
use lock_free_cuckoo_filter.LockFree.Methods.{
  check_counter, hit, miss, look_at, continue_first, continue_second, continue_find, find_slot,
  find_slots,
}
use lock_free_cuckoo_filter.LockFree.Alone.Runs.{run_after, with_hazards, IsQuiet}

-- The word holds the address of an entry with this string.
unfoldable pub matches : (Address → Option Fingerprint) → Fingerprint → TablePointer → Bool
matches heap f w =
    not (get_real_pointer w == 0)
    && elim (heap (get_real_pointer w)) [ none ↦ false | some str ↦ str_eq f str ]

check_counter_same : (a b : ℕ) → check_counter a b a b ≡ false
unfolding check_counter
check_counter_same a b = ground arith

look_at-run :
    (n tid fuel : ℕ) (f : Fingerprint) (b i : ℕ) (m : Memory) (w : TablePointer)
    → get_marked w ≡ false
    → (get_real_pointer w ≡ 0) ⊎ ((str : Fingerprint) × (m.heap (get_real_pointer w) ≡ some str))
    → run (look_at n tid fuel f b i w) m ≡ returned (if matches m.heap f w then hit else miss) m
unfolding run look_at matches
look_at-run n tid fuel f b i m w unmarked target = elim (Bool-cases (get_real_pointer w == 0)) [
  | inl null ↦ rw null refl
  | inr there ↦ elim target [
    | inl null ↦ absurd (ground arith)
    | inr (str, live) ↦ rw (there, unmarked, live, run, entry_str) refl
  ]
]

-- The answer of the loop at one slot
abbrev at_slot :
    (Address → Option Fingerprint)
    → Fingerprint
    → ℕ
    → (w₁ w₂ : TablePointer) → Option (ℕ × TablePointer)
at_slot heap f slot w₁ w₂ =
    if matches heap f w₁
    then some (slot, w₁)
    else if matches heap f w₂
    then some (slot + num_items_per_entry, w₂)
    else none

continue_second-run :
    (again : Program (Option (ℕ × TablePointer))) (hash1 hash2 slot : ℕ) (c : Bool) (m : Memory)
    → let w₁ = word_at m hash1 slot in
      let w₂ = word_at m hash2 slot in
      run (continue_second again hash1 hash2 slot w₁ w₂ (if c then hit else miss)) m
      ≡ returned (if c then some (slot + num_items_per_entry, w₂) else none) m
unfolding run continue_second
continue_second-run again hash1 hash2 slot true m = refl
continue_second-run again hash1 hash2 slot false m =
    let w₁ = word_at m hash1 slot in
    let w₂ = word_at m hash2 slot in
    ap (λ (c : Bool). run (if c then again else done none) m)
      (check_counter_same (get_counter w₁) (get_counter w₂))

continue_first-run :
    (n tid fuel : ℕ) (f : Fingerprint) (again : Program (Option (ℕ × TablePointer)))
    (hash1 hash2 slot : ℕ) (c : Bool) (m : Memory) (h : List (List Address))
    → IsQuiet m
    → let w₁ = word_at m hash1 slot in
      let w₂ = word_at m hash2 slot in
      (h' : List (List Address)) × (run
          (continue_first n tid fuel f again hash1 hash2 slot w₁ (if c then hit else miss))
          (with_hazards m h)
        ≡ returned
            (if c
              then some (slot, w₁)
              else if matches m.heap f w₂
              then some (slot + num_items_per_entry, w₂)
              else none)
            (with_hazards m h'))
unfolding run continue_first mark_hazard word_at store_hazard
continue_first-run n tid fuel f again hash1 hash2 slot true m h q = (h, refl)
continue_first-run n tid fuel f again hash1 hash2 slot false m h q =
    let w₁ = word_at m hash1 slot in
    let w₂ = word_at m hash2 slot in
    let m' = store_hazard (with_hazards m h) (get_real_pointer w₂) 1 tid in
    (
      m'.hazard_ptrs,
      run_after (look_at n tid fuel f hash2 slot w₂) (continue_second again hash1 hash2 slot w₁ w₂)
            m' m' _ (look_at-run n tid fuel f hash2 slot m' w₂ (q hash2 slot).0 (q hash2 slot).1)
          ∙ continue_second-run again hash1 hash2 slot (matches m.heap f w₂) m',
    )

find_slot-run :
    (n tid fuel : ℕ) (f : Fingerprint) (hash1 hash2 slot : ℕ) (m : Memory) (h : List (List Address))
    → IsQuiet m
    → (h' : List (List Address)) × (run
          (find_slot n tid (suc fuel) f hash1 hash2 slot)
          (with_hazards m h)
        ≡ returned
            (at_slot m.heap f slot (word_at m hash1 slot) (word_at m hash2 slot))
            (with_hazards m h'))
unfolding run find_slot mark_hazard word_at store_hazard
find_slot-run n tid fuel f hash1 hash2 slot m h q =
    let w = word_at m hash1 slot in
    let m' = store_hazard (with_hazards m h) (get_real_pointer w) 0 tid in
    let again = find_slot n tid fuel f hash1 hash2 slot in
    let (h', e) =
      continue_first-run n tid (suc fuel) f again hash1 hash2 slot (matches m.heap f w) m
        m'.hazard_ptrs q in
    (
      h',
      run_after (look_at n tid (suc fuel) f hash1 slot w)
            (continue_first n tid (suc fuel) f again hash1 hash2 slot w) m' m' _
            (look_at-run n tid (suc fuel) f hash1 slot m' w (q hash1 slot).0 (q hash1 slot).1)
          ∙ e,
    )

-- The slots of the two buckets in the order of the loop, and the first that holds the fingerprint.
unfoldable pub first_match :
    Memory → Fingerprint → (hash1 hash2 left slot : ℕ) → TablePointer → ℕ × TablePointer
unfolding matches
first_match m f hash1 hash2 zero slot pointer = (num_items_per_entry * 2, pointer)
first_match m f hash1 hash2 (suc left) slot pointer =
    let rest = first_match m f hash1 hash2 left (slot + 1) pointer in
    elim (at_slot m.heap f slot (word_at m hash1 slot) (word_at m hash2 slot)) [
      | some result ↦ result
      | none ↦ rest
    ]

pub find_slots-run :
    (n tid fuel : ℕ) (f : Fingerprint) (hash1 hash2 left slot : ℕ) (pointer : TablePointer)
    (m : Memory) (h : List (List Address))
    → IsQuiet m
    → (h' : List (List Address)) × (run
          (find_slots n tid (suc fuel) f hash1 hash2 left slot pointer)
          (with_hazards m h)
        ≡ returned (first_match m f hash1 hash2 left slot pointer) (with_hazards m h'))
unfolding run find_slots continue_find first_match
find_slots-run n tid fuel f hash1 hash2 zero slot pointer m h q = (h, refl)
find_slots-run n tid fuel f hash1 hash2 (suc left) slot pointer m h q =
    let (h₁, e₁) = find_slot-run n tid fuel f hash1 hash2 slot m h q in
    let (h₂, e₂) = find_slots-run n tid fuel f hash1 hash2 left (slot + 1) pointer m h₁ q in
    let next = find_slots n tid (suc fuel) f hash1 hash2 left (slot + 1) pointer in
    let o = at_slot m.heap f slot (word_at m hash1 slot) (word_at m hash2 slot) in
    let rest = first_match m f hash1 hash2 left (slot + 1) pointer in
    let (h', e) : (h' : List (List Address)) × (run (continue_find next o) (with_hazards m h₁)
          ≡ returned (elim o [ some result ↦ result | none ↦ rest ]) (with_hazards m h')) =
      elim o
        as (λ o.
          (h' : List (List Address)) × (run (continue_find next o) (with_hazards m h₁)
            ≡ returned (elim o [ some result ↦ result | none ↦ rest ]) (with_hazards m h'))) [
              | none ↦ (h₂, e₂)
              | some result ↦ (h₁, refl)
            ] in
    (
      h',
      run_after (find_slot n tid (suc fuel) f hash1 hash2 slot) (continue_find next)
            (with_hazards m h) (with_hazards m h₁) o e₁
          ∙ e,
    )
