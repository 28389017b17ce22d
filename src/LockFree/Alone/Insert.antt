-- ===== src/LockFree/Alone/Insert.antt =====
-- `insert` of cuckoo_filter/lock_free_filter.cpp, run alone.
use native.Mathlib.Decide.{ℕ_discrete}
use lock_free_cuckoo_filter.Prelude.{
  ℕ, zero, suc, ◌+◌, ◌<◌, ◌≤◌, ◌≡◌, ◌≢◌, refl, ◌∙◌, inl, inr, ◌⊎◌, true, false, none, some,
  Bool-cases, Option-cases, ==_iff, ltb, ◌==◌, arith,
}
use lock_free_cuckoo_filter.Pointer.{TablePointer, get_counter, get_real_pointer, create_pointer}
use lock_free_cuckoo_filter.Table.{Fingerprint}
use lock_free_cuckoo_filter.LockFree.Memory.{
  Memory, word_at, store_word, store_hazard, allocate, returned, run,
}
use lock_free_cuckoo_filter.LockFree.Methods.{stored, full, try_slot, try_slots}
use lock_free_cuckoo_filter.LockFree.Alone.Runs.{run_after}

-- Slot `i` of bucket `b` was empty, and the word with the entry's address and the old counter is
-- stored there.
pub record Placed (m : Memory) (entry b i : ℕ) (m' : Memory) : Type 0 where
  pub word : TablePointer
  pub empty : get_real_pointer (word_at m b i) ≡ 0
  pub made : create_pointer (get_counter (word_at m b i)) entry false ≡ some word
  pub after : m' ≡ store_word m b i word

pub create_pointer-counter :
    (w : TablePointer) (p : ℕ)
    → (w' : TablePointer) × (create_pointer (get_counter w) p false ≡ some w')
unfolding create_pointer get_counter
create_pointer-counter w p = elim (Option-cases (create_pointer (get_counter w) p false)) [
  | inl e ↦ elim (Bool-cases (ltb 0xFFFF (get_counter w))) [
    | inl big ↦ absurd (ground arith)
    | inr small ↦ absurd (cc (rw (small, create_pointer) at e))
  ]
  | inr r ↦ r
]

try_slot-run :
    (entry b i : ℕ) (m : Memory)
    → ((m' : Memory) × (run (try_slot entry b i) m ≡ returned (some true) m')
        × Placed m entry b i m')
      ⊎ ((get_real_pointer (word_at m b i) ≢ 0) × (run (try_slot entry b i) m ≡ returned none m))
unfolding run try_slot
try_slot-run entry b i m =
    let w = word_at m b i in
    let (w', made) = create_pointer-counter w entry in
    elim (Bool-cases (get_real_pointer w == 0)) [
      | inl e ↦ inl (
        store_word m b i w',
        rw (e, made, (==_iff w w).1 refl, run) refl,
        record { word = w'; empty = ground arith; made = made; after = refl },
      )
      | inr e ↦ inr (ground arith, rw (e, run) refl)
    ]

-- One round of `insert` alone stores the entry in an empty slot of the two buckets, if there is one.
pub try_slots-run :
    (entry hash1 hash2 left i : ℕ) (m : Memory)
    → ((m' : Memory) × (run (try_slots entry hash1 hash2 left i false) m ≡ returned stored m')
        × (b : ℕ) × (j : ℕ) × ((b ≡ hash1) ⊎ (b ≡ hash2))
        × (j < i + left)
        × Placed m entry b j m')
      ⊎ ((run (try_slots entry hash1 hash2 left i false) m ≡ returned full m)
          × ((j : ℕ)
              → i ≤ j
              → j < i + left
              → (get_real_pointer (word_at m hash1 j) ≢ 0)
                × (get_real_pointer (word_at m hash2 j) ≢ 0)))
unfolding run try_slots
try_slots-run entry hash1 hash2 zero i m = inr (refl, λ j lo hi. absurd (omega (arith, lo, hi)))
try_slots-run entry hash1 hash2 (suc left) i m = elim (try_slot-run entry hash1 i m) [
  | inl (m', e, placed) ↦ inl (
    m',
    run_after (try_slot entry hash1 i) _ m m' (some true) e,
    hash1,
    i,
    inl refl,
    omega arith,
    placed,
  )
  | inr (taken, e) ↦ elim (try_slot-run entry hash2 i m) [
    | inl (m', e', placed) ↦ inl (
      m',
      run_after (try_slot entry hash1 i) _ m m none e
          ∙ run_after (try_slot entry hash2 i) _ m m' (some true) e',
      hash2,
      i,
      inr refl,
      omega arith,
      placed,
    )
    | inr (taken', e') ↦
        let here =
          run_after (try_slot entry hash1 i) _ m m none e
          ∙ run_after (try_slot entry hash2 i) _ m m none e' in
        elim (try_slots-run entry hash1 hash2 left (i + 1) m) [
          | inl (m', r, b, j, which, lt, placed) ↦
              inl (m', here ∙ r, b, j, which, omega (arith, lt), placed)
          | inr (r, rest) ↦ inr (
            here ∙ r,
            λ j lo hi. elim (ℕ_discrete j i) [
              | yes same ↦ rw same (taken, taken')
              | no other ↦ rest j (omega (arith, lo, other)) (omega (arith, hi))
            ],
          )
        ]
  ]
]

-- The memory in which `insert` looks for a slot: its hazard pointers are cleared, and the entry is
-- allocated.
abbrev pub with_entry : ℕ → Fingerprint → Memory → Memory
with_entry tid f m = allocate (store_hazard (store_hazard m 0 0 tid) 0 1 tid) f

-- One of the two buckets has an empty slot.
abbrev pub HasEmpty : Memory → (hash1 hash2 : ℕ) → Type 0
HasEmpty m hash1 hash2 =
    (j : ℕ) × (j < 4)
    × ((get_real_pointer (word_at m hash1 j) ≡ 0) ⊎ (get_real_pointer (word_at m hash2 j) ≡ 0))
