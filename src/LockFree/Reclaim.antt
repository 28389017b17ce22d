-- ===== src/LockFree/Reclaim.antt =====
-- The loop of free_hazard_pointers of cuckoo_filter/lock_free_filter.cpp, which compacts the list of
-- retired pointers in place.
use lock_free_cuckoo_filter.Prelude.{
  ℕ, zero, suc, ◌+◌, ◌≤◌, ◌<◌, ◌≡◌, refl, sym, ap, ◌∙◌, true, false, Option, none, some, List, [],
  ◌∷◌, ◌++◌, get_or, set, take, length, length-set, if◌then◌else◌, arith,
}
use mathlib.Core.Path.{subst, subst₂}
use mathlib.Core.List.{append_assoc, append-nil}
use lock_free_cuckoo_filter.Table.{Fingerprint}
use lock_free_cuckoo_filter.LockFree.Program.{Address}
use lock_free_cuckoo_filter.LockFree.Lifecycle.{delete_entry, contains, Sweep, sweep_loop}

abbrev pub Heap : Type 0
Heap = Address → Option Fingerprint

-- The pointers of a list that are protected, in their order
unfoldable pub kept : List Address → List Address → List Address
unfolding contains
kept hazards [] = []
kept hazards (p ∷ ps) = if contains p hazards then p ∷ kept hazards ps else kept hazards ps

-- The others are deleted from the heap one after another.
unfoldable pub delete_rest :
    List Address
    → List Address
    → (Address → Option Fingerprint)
    → Option (Address → Option Fingerprint)
unfolding contains delete_entry
delete_rest hazards [] heap = some heap
delete_rest hazards (p ∷ ps) heap =
    let protected = delete_rest hazards ps heap in
    if contains p hazards
    then protected
    else elim (delete_entry p heap) [ none ↦ none | some heap' ↦ delete_rest hazards ps heap' ]

abbrev pub drop : ℕ → List Address → List Address
drop zero xs = xs
drop (suc n) [] = []
drop (suc n) (x ∷ xs) = drop n xs

drop-step :
    (xs : List Address) (i left : ℕ)
    → length xs ≡ i + suc left
    → drop i xs ≡ get_or xs i 0 ∷ drop (suc i) xs
drop-step [] i left e = absurd (omega (arith, e))
drop-step (x ∷ xs) zero left e = refl
drop-step (x ∷ xs) (suc i) left e = drop-step xs i left (omega (arith, e))

drop-all : (xs : List Address) (i : ℕ) → length xs ≡ i → drop i xs ≡ []
drop-all [] zero e = refl
drop-all [] (suc i) e = refl
drop-all (x ∷ xs) zero e = absurd (omega (arith, e))
drop-all (x ∷ xs) (suc i) e = drop-all xs i (omega (arith, e))

-- A write before the index leaves what comes after it.
drop-set : (xs : List Address) (k i v : ℕ) → k < i → drop i (set xs k v) ≡ drop i xs
drop-set [] k i v lt = refl
drop-set (x ∷ xs) k zero v lt = absurd (omega (arith, lt))
drop-set (x ∷ xs) zero (suc i) v lt = refl
drop-set (x ∷ xs) (suc k) (suc i) v lt = drop-set xs k i v (omega (arith, lt))

take-set :
    (xs : List Address) (k v : ℕ) → k < length xs → take (suc k) (set xs k v) ≡ take k xs ++ v ∷ []
take-set [] k v lt = absurd (omega (arith, lt))
take-set (x ∷ xs) zero v lt = refl
take-set (x ∷ xs) (suc k) v lt =
    ap (λ (ys : List Address). x ∷ ys) (take-set xs k v (omega (arith, lt)))

-- The loop agrees with the deletion of the others: it faults where that does, and otherwise leaves
-- that heap, and the list `expected` in the places up to `new_count`.
unfoldable pub Swept : List Address → Option Heap → Option Sweep → Type 0
Swept expected none none = Unit
Swept expected (some heap) (some s) = (s.heap ≡ heap) × (take s.new_count s.retired ≡ expected)
Swept expected _ _ = ⊥

-- The list after a protected pointer is written to its place.
kept_list :
    (xs : List Address) (i k p : ℕ) (hazards : List Address)
    → k < length xs
    → k ≤ i
    → take (k + 1) (set xs k p) ++ kept hazards (drop (i + 1) (set xs k p))
      ≡ take k xs ++ p ∷ kept hazards (drop (suc i) xs)
kept_list xs i k p hazards lt le =
    let a : k + 1 ≡ suc k = omega arith in
    let b : i + 1 ≡ suc i = omega arith in
    rw (a, b, take-set xs k p lt, drop-set xs k (suc i) p (omega (arith, le)))
      (append_assoc (take k xs) (p ∷ []) (kept hazards (drop (suc i) xs)))

pub sweep_loop-Swept :
    (hazards : List Address) (left i : ℕ) (s : Sweep)
    → length s.retired ≡ i + left
    → s.new_count ≤ i
    → Swept
        (take s.new_count s.retired ++ kept hazards (drop i s.retired))
        (delete_rest hazards (drop i s.retired) s.heap)
        (sweep_loop hazards left i s)
unfolding sweep_loop kept delete_rest Swept
sweep_loop-Swept hazards zero i s e le =
    rw (drop-all s.retired i (omega (arith, e)))
      (refl, sym (append-nil (take s.new_count s.retired)))
sweep_loop-Swept hazards (suc left) i s e le =
    let xs = s.retired in
    let k = s.new_count in
    let p = get_or xs i 0 in
    let rest = drop (suc i) xs in
    let next : i + 1 ≡ suc i = omega arith in
    let s₁ : Sweep = record s { new_count = k + 1; retired = set xs k p } in
    let on_keep : Swept (take k xs ++ p ∷ kept hazards rest) (delete_rest hazards rest s.heap)
        (sweep_loop hazards left (i + 1) s₁) =
      subst₂ (λ l r. Swept l (delete_rest hazards r s.heap) (sweep_loop hazards left (i + 1) s₁))
        (kept_list xs i k p hazards (omega (arith, e, le)) le)
        (ap (λ (j : ℕ). drop j (set xs k p)) next ∙ drop-set xs k (suc i) p (omega (arith, le)))
        (sweep_loop-Swept hazards left (i + 1) s₁ (length-set xs k p ∙ omega (arith, e))
          (omega (arith, le))) in
    let on_free : (heap : Heap)
        → Swept (take k xs ++ kept hazards rest) (delete_rest hazards rest heap)
            (sweep_loop hazards left (i + 1) (record s { heap = heap })) =
      λ heap.
        subst
          (λ r.
            Swept (take k xs ++ kept hazards r) (delete_rest hazards r heap)
              (sweep_loop hazards left (i + 1) (record s { heap = heap })))
          (ap (λ (j : ℕ). drop j xs) next)
          (sweep_loop-Swept hazards left (i + 1) (record s { heap = heap }) (omega (arith, e))
            (omega (arith, le))) in
    rw (drop-step xs i left e)
      (elim (contains p hazards)
        as (λ c.
          Swept (take k xs ++ (if c then p ∷ kept hazards rest else kept hazards rest))
            (if c then delete_rest hazards rest s.heap else elim (delete_entry p s.heap) [
              | none ↦ none
              | some heap ↦ delete_rest hazards rest heap
            ])
            (if c then sweep_loop hazards left (i + 1) s₁ else elim (delete_entry p s.heap) [
              | none ↦ none
              | some heap ↦ sweep_loop hazards left (i + 1) (record s { heap = heap })
            ])) [
              | true ↦ on_keep
              | false ↦
                  elim (delete_entry p s.heap)
                    as (λ o.
                      Swept (take k xs ++ kept hazards rest)
                        (elim o [ none ↦ none | some heap ↦ delete_rest hazards rest heap ])
                        (elim o [
                          | none ↦ none
                          | some heap ↦ sweep_loop hazards left (i + 1) (record s { heap = heap })
                        ])) [ none ↦ tt | some heap ↦ on_free heap ]
            ])
