-- ===== src/LockFree/Alone/Find.antt =====
-- The answer of `find` of cuckoo_filter/lock_free_filter.cpp, run alone.
use native.Mathlib.Decide.{ℕ_discrete}
use lock_free_cuckoo_filter.Prelude.{
  ℕ, zero, suc, ◌+◌, ◌-◌, ◌%◌, ◌<◌, ◌≤◌, ◌≡◌, ◌≢◌, refl, sym, ap, ◌∙◌, inl, inr, ◌⊎◌, true, false,
  not, Option, none, some, List, Bool-cases, Option-cases, and_true, ◌==◌, str_eq, str_eq_iff,
  str_eq_refl, arith,
}
use lock_free_cuckoo_filter.Hash.{Digest, jenkins_hash, md5_fingerprint}
use lock_free_cuckoo_filter.Pointer.{TablePointer, get_real_pointer}
use lock_free_cuckoo_filter.Table.{Fingerprint}
use lock_free_cuckoo_filter.LockFree.Program.{Address, done, mark_hazard, clear_hazard}
use lock_free_cuckoo_filter.LockFree.Memory.{Memory, word_at, store_hazard, returned, run}
use lock_free_cuckoo_filter.LockFree.Relocate.{get_next_hash_index}
use lock_free_cuckoo_filter.LockFree.Methods.{find_slots, find_pointer, find}
use lock_free_cuckoo_filter.LockFree.Alone.Runs.{run_after, with_hazards, IsQuiet}
use lock_free_cuckoo_filter.LockFree.Alone.Search.{matches, first_match, find_slots-run}

-- The slot holds the address of an entry with this fingerprint.
abbrev pub Stores : Memory → Fingerprint → ℕ → ℕ → Type 0
Stores m f b i =
    (get_real_pointer (word_at m b i) ≢ 0) × (m.heap (get_real_pointer (word_at m b i)) ≡ some f)

pub matches-true :
    (heap : Address → Option Fingerprint) (f : Fingerprint) (w : TablePointer)
    → matches heap f w ≡ true
    → (get_real_pointer w ≢ 0) × (heap (get_real_pointer w) ≡ some f)
unfolding matches
matches-true heap f w e =
    let both =
      and_true (not (get_real_pointer w == 0))
        (elim (heap (get_real_pointer w)) [ none ↦ false | some str ↦ str_eq f str ]) e in
    elim (Option-cases (heap (get_real_pointer w))) [
      | inl q ↦ absurd (cc (rw q at both.1))
      | inr (str, q) ↦ (ground arith, q ∙ ap some (sym ((str_eq_iff f str).0 (rw q at both.1))))
    ]

matches-false :
    (heap : Address → Option Fingerprint) (f : Fingerprint) (w : TablePointer)
    → matches heap f w ≡ false
    → ¬ ((get_real_pointer w ≢ 0) × (heap (get_real_pointer w) ≡ some f))
unfolding matches
matches-false heap f w e (there, live) = let e' = rw (live, str_eq_refl f) at e in ground arith

-- What the loop from `slot` on finds, in terms of `matches`: a location with the word there
unfoldable pub Found :
    Memory → Fingerprint → (hash1 hash2 left slot location : ℕ) → TablePointer → Type 0
Found m f hash1 hash2 left slot location pointer =
    ((location ≡ 8)
      × ((i : ℕ)
          → slot ≤ i
          → i < slot + left
          → (matches m.heap f (word_at m hash1 i) ≡ false)
            × (matches m.heap f (word_at m hash2 i) ≡ false)))
    ⊎ ((i : ℕ) × (slot ≤ i)
        × (i < slot + left)
        × (((location ≡ i)
              × (pointer ≡ word_at m hash1 i)
              × (matches m.heap f (word_at m hash1 i) ≡ true))
            ⊎ ((location ≡ i + 4)
                × (pointer ≡ word_at m hash2 i)
                × (matches m.heap f (word_at m hash2 i) ≡ true))))

pub first_match-Found :
    (m : Memory) (f : Fingerprint) (hash1 hash2 left slot : ℕ) (pointer : TablePointer)
    → let r = first_match m f hash1 hash2 left slot pointer in
      Found m f hash1 hash2 left slot r.0 r.1
unfolding first_match Found
first_match-Found m f hash1 hash2 zero slot pointer =
    inl (refl, λ i lo hi. absurd (omega (arith, lo, hi)))
first_match-Found m f hash1 hash2 (suc left) slot pointer =
    elim (Bool-cases (matches m.heap f (word_at m hash1 slot))) [
      | inl e ↦ rw (e, first_match) (inr (slot, omega arith, omega arith, inl (refl, refl, e)))
      | inr e ↦ elim (Bool-cases (matches m.heap f (word_at m hash2 slot))) [
        | inl e' ↦
            rw (e, e', first_match) (inr (slot, omega arith, omega arith, inr (refl, refl, e')))
        | inr e' ↦
            let r = first_match m f hash1 hash2 left (slot + 1) pointer in
            let later : Found m f hash1 hash2 (suc left) slot r.0 r.1 =
              elim (first_match-Found m f hash1 hash2 left (slot + 1) pointer) [
                | inl (end, none_there) ↦ inl (
                  end,
                  λ i lo hi. elim (ℕ_discrete i slot) [
                    | yes same ↦ rw same (e, e')
                    | no other ↦ none_there i (omega (arith, lo, other)) (omega (arith, hi))
                  ],
                )
                | inr (i, lo, hi, there) ↦ inr (i, omega (arith, lo), omega (arith, hi), there)
              ] in
            rw (e, e', first_match) later
      ]
    ]

-- Where a search should end: at a slot of the first bucket, at one of the second, which counts from 4
-- on, or at 8 if no slot of the two stores the fingerprint.
abbrev pub Located : Memory → Fingerprint → (hash1 hash2 location : ℕ) → Type 0
Located m f hash1 hash2 location =
    ((location ≡ 8) × ((i : ℕ) → i < 4 → (¬ Stores m f hash1 i) × (¬ Stores m f hash2 i)))
    ⊎ (((location < 4) × Stores m f hash1 location)
        ⊎ ((4 ≤ location) × (location < 8) × Stores m f hash2 (location - 4)))

pub Found-Located :
    (m : Memory) (f : Fingerprint) (hash1 hash2 location : ℕ) (pointer : TablePointer)
    → Found m f hash1 hash2 4 0 location pointer
    → Located m f hash1 hash2 location
unfolding Found
Found-Located m f hash1 hash2 location pointer (inl (end, none_there)) = inl (
  end,
  λ i lt.
      let q = none_there i (omega arith) (omega (arith, lt)) in
      (matches-false m.heap f _ q.0, matches-false m.heap f _ q.1),
)
Found-Located m f hash1 hash2 location pointer (inr (i, lo, hi, inl (e, same, there))) =
    inr (inl (omega (arith, hi, e), rw e (matches-true m.heap f _ there)))
Found-Located m f hash1 hash2 location pointer (inr (i, lo, hi, inr (e, same, there))) =
    let back : location - 4 ≡ i = omega (arith, e) in
    inr (inr (omega (arith, e), omega (arith, hi, e), rw back (matches-true m.heap f _ there)))

-- find of a thread that runs alone on a table in which no slot is marked and each slot holds null
-- or the address of an entry returns, with one unit of fuel or more: its location is a slot of the
-- key's two buckets that stores the key's fingerprint, or 8 if no slot of the two stores it, and
-- only hazard pointers are changed.
pub find-Located :
    (n tid fuel : ℕ) (d : Digest) (key : List ℕ) (m : Memory)
    → IsQuiet m
    → let f = md5_fingerprint d key in
      let hash1 = jenkins_hash key % n in
      (location : ℕ) × (h : List (List Address)) × (run (find n tid (suc fuel) d key) m
        ≡ returned location (with_hazards m h))
      × Located m f hash1 (get_next_hash_index n hash1 f) location
unfolding run find find_pointer clear_hazard mark_hazard store_hazard
find-Located n tid fuel d key m q =
    let f = md5_fingerprint d key in
    let hash1 = jenkins_hash key % n in
    let hash2 = get_next_hash_index n hash1 f in
    let m' = store_hazard (store_hazard m 0 0 tid) 0 1 tid in
    let (h, e) = find_slots-run n tid fuel f hash1 hash2 4 0 0 m m'.hazard_ptrs q in
    let r = first_match m f hash1 hash2 4 0 0 in
    (
      r.0,
      h,
      run_after (find_slots n tid (suc fuel) f hash1 hash2 4 0 0)
          (λ (p : ℕ × TablePointer). done (p.0)) m' (with_hazards m h) r e,
      Found-Located m f hash1 hash2 r.0 r.1 (first_match-Found m f hash1 hash2 4 0 0),
    )
