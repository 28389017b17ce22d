-- ===== src/FineGrained/Holders.antt =====
-- Who holds a mutex, and how that changes when a thread takes it or gives it back.
use lock_free_cuckoo_filter.Prelude.{
  ℕ, ◌+◌, ◌<◌, ◌≡◌, refl, ◌⊎◌, inl, inr, Bool, true, false, none, some, List, [], ◌∷◌, ◌==◌,
  if◌then◌else◌, bit, Bool-cases, arith,
}
use lock_free_cuckoo_filter.FineGrained.Memory.{
  SharedMutex, writer, readers, acquire, leave, release,
}

-- How often a thread is in a list.
unfoldable pub occurrences : ℕ → List ℕ → ℕ
occurrences j [] = 0
occurrences j (t ∷ ts) = bit (j == t) + occurrences j ts

-- How often thread `j` shares the mutex, and whether it holds it exclusively
unfoldable pub shares : ℕ → SharedMutex → ℕ
unfolding occurrences
shares j (writer t) = 0
shares j (readers ts) = occurrences j ts

unfoldable pub owns : ℕ → SharedMutex → ℕ
owns j (writer t) = bit (j == t)
owns j (readers ts) = 0

pub acquire-shares :
    (exclusive : Bool) (tid j : ℕ) (x x' : SharedMutex)
    → acquire exclusive tid x ≡ some x'
    → (shares j x' ≡ (if exclusive then 0 else bit (j == tid)) + shares j x)
      × (owns j x' ≡ (if exclusive then bit (j == tid) else 0) + owns j x)
unfolding acquire shares owns
acquire-shares exclusive tid j (writer t) x' e = cc
acquire-shares true tid j (readers []) x' e = ground arith
acquire-shares true tid j (readers (t ∷ ts)) x' e = cc
acquire-shares false tid j (readers ts) x' e = ground arith

occurrences-leave :
    (tid j : ℕ) (ts : List ℕ)
    → 0 < occurrences tid ts
    → bit (j == tid) + occurrences j (leave tid ts) ≡ occurrences j ts
unfolding occurrences leave
occurrences-leave tid j [] h = absurd (omega (arith, h))
occurrences-leave tid j (t ∷ ts) h = elim (Bool-cases (tid == t)) [
  | inl e ↦ ground arith
  | inr e ↦ let rest = occurrences-leave tid j ts (ground arith) in rw e (omega (arith, rest))
]

pub release-shares :
    (tid j : ℕ) (x : SharedMutex)
    → 0 < shares tid x
    → (bit (j == tid) + shares j (release tid x) ≡ shares j x) × (owns j (release tid x) ≡ owns j x)
unfolding release shares owns
release-shares tid j (writer t) h = absurd (omega (arith, h))
release-shares tid j (readers ts) h = (occurrences-leave tid j ts h, refl)

pub release-owns :
    (tid j : ℕ) (x : SharedMutex)
    → 0 < owns tid x
    → (shares j (release tid x) ≡ shares j x) × (bit (j == tid) + owns j (release tid x) ≡ owns j x)
unfolding release shares owns occurrences
release-owns tid j (writer t) h = ground arith
release-owns tid j (readers ts) h = absurd (omega (arith, h))

-- An owner is the only holder.
pub owns_alone :
    (tid j : ℕ) (x : SharedMutex) → 0 < owns tid x → (0 < owns j x) ⊎ (0 < shares j x) → tid ≡ j
unfolding shares owns
owns_alone tid j (writer t) h (inl h') = ground arith
owns_alone tid j (writer t) h (inr h') = absurd (omega (arith, h'))
owns_alone tid j (readers ts) h h' = absurd (omega (arith, h))

-- A thread that has to wait waits for a holder.
pub acquire-none :
    (exclusive : Bool) (tid : ℕ) (x : SharedMutex)
    → acquire exclusive tid x ≡ none
    → (j : ℕ) × ((0 < owns j x) ⊎ (0 < shares j x))
unfolding acquire shares owns occurrences
acquire-none exclusive tid (writer t) e = (t, inl (ground arith))
acquire-none true tid (readers []) e = cc
acquire-none true tid (readers (t ∷ ts)) e = (t, inr (ground arith))
acquire-none false tid (readers ts) e = cc
