-- ===== src/LockFree/Safety/Relocation.antt =====
-- The guards of `help_relocate` and `relocate` of cuckoo_filter/lock_free_filter.cpp.
use lock_free_cuckoo_filter.Prelude.{
  ℕ, zero, suc, ◌+◌, ◌-◌, ◌≡◌, ◌≢◌, refl, Bool, true, false, not, ◌&&◌, inl, inr, Option, none,
  some, List, Bool-cases, ◌==◌, arith, set, get_or, replicate,
}
use lock_free_cuckoo_filter.Common.{num_max_kicks}
use lock_free_cuckoo_filter.Pointer.Fields.{IsAddress, real_pointer-IsAddress}
use lock_free_cuckoo_filter.Pointer.{TablePointer, get_counter, get_real_pointer, get_marked}
use lock_free_cuckoo_filter.LockFree.Program.{Program, done, read_slot, mark_hazard, clear_hazard}
use lock_free_cuckoo_filter.LockFree.Relocate.{
  get_next_hash_index, mark_source, give_up, move_item, relocate_marked, help_rounds, help_relocate,
  help_until_unmarked, discover, help_source, move_back, path_discovery, relocate,
}
use lock_free_cuckoo_filter.LockFree.Safety.Words.{
  Heap, IsLive, IsGood, IsGood-Grows, IsGood-IsLive, IsGood-marked, get_new_mark-IsGood,
}
use lock_free_cuckoo_filter.LockFree.Safety.Guarded.{
  IsGuarded, Any, IsGuarded->>=, IsGuarded-if, IsGuarded-created,
}

null-IsAddress : IsAddress 0
null-IsAddress = omega arith

-- The word that a helper returns is good.
abbrev GoodWord : Heap → TablePointer → Type 0
GoodWord = IsGood

abbrev GoodSource : Heap → Option TablePointer → Type 0
GoodSource h none = Unit
GoodSource h (some w) = IsGood h w

nonnull : (p : ℕ) → (p == 0) ≡ false → p ≢ 0
nonnull p e = ground arith

module _ (n tid : ℕ) where
  mark_source-IsGuarded :
      (fuel b i : ℕ) (initiator : Bool) (ptr1 : TablePointer) (h : Heap)
      → IsGood h ptr1
      → IsGuarded GoodSource h (mark_source n tid fuel b i initiator ptr1)
  unfolding mark_source mark_hazard
  mark_source-IsGuarded zero b i initiator ptr1 h good = tt
  mark_source-IsGuarded (suc fuel) b i initiator ptr1 h good =
      IsGuarded-if (initiator && not (get_marked ptr1)) _ _ GoodSource h
        (λ _.
          IsGuarded-if (get_real_pointer ptr1 == 0) _ _ GoodSource h (λ _. tt)
            (λ ne. (
              get_new_mark-IsGood good (nonnull (get_real_pointer ptr1) ne),
              λ h' g r h'' g' w good'. mark_source-IsGuarded fuel b i initiator w h'' good',
            )))
        (λ _. good)

  give_up-IsGuarded :
      (new_hash i : ℕ) (ptr1 ptr2 : TablePointer) (h : Heap)
      → IsGood h ptr1
      → IsLive h (get_real_pointer ptr1)
      → IsGuarded Any h (give_up n tid new_hash i ptr1 ptr2)
  unfolding give_up
  give_up-IsGuarded new_hash i ptr1 ptr2 h good live =
      IsGuarded-if (get_real_pointer ptr1 == get_real_pointer ptr2) _ _ Any h
        (λ _.
          IsGuarded-created (get_counter ptr1 + 1) 0 false _ Any h null-IsAddress (inl (refl, refl))
            (λ w made. (made, λ h' g r. tt)))
        (λ _.
          IsGuarded-created (get_counter ptr1 + 1) (get_real_pointer ptr1) true _ Any h
            (real_pointer-IsAddress ptr1 good.fits) (inr live) (λ w made. (made, λ h' g r. tt)))

  move_item-IsGuarded :
      (b new_hash i : ℕ) (ptr1 ptr2 : TablePointer) (h : Heap)
      → IsGood h ptr1
      → IsLive h (get_real_pointer ptr1)
      → IsGuarded Any h (move_item n tid b new_hash i ptr1 ptr2)
  unfolding move_item
  move_item-IsGuarded b new_hash i ptr1 ptr2 h good live =
      IsGuarded-created _ (get_real_pointer ptr1) false _ Any h
        (real_pointer-IsAddress ptr1 good.fits) (inr live)
        (λ w made. (
          made,
          λ h' g swapped.
              IsGuarded-if swapped _ _ Any h'
                (λ _.
                  IsGuarded-created (get_counter ptr1 + 1) 0 false _ Any h' null-IsAddress
                    (inl (refl, refl)) (λ w' made'. (made', λ h'' g' r. tt)))
                (λ _.
                  give_up-IsGuarded new_hash i ptr1 ptr2 h' (IsGood-Grows {h = h} {h' = h'} g good)
                    (g (get_real_pointer ptr1) live)),
        ))

  relocate_marked-IsGuarded :
      (again : Program (Unit {0})) (b i : ℕ) (source : Option TablePointer) (h : Heap)
      → ((h' : Heap) → IsGuarded Any h' again)
      → GoodSource h source
      → IsGuarded Any h (relocate_marked n tid again b i source)
  unfolding relocate_marked mark_hazard
  relocate_marked-IsGuarded again b i none h rest good = tt
  relocate_marked-IsGuarded again b i (some ptr1) h rest good =
      elim (Bool-cases (get_marked ptr1)) [
        | inr unmarked ↦ rw unmarked tt
        | inl marked ↦
            let live = IsGood-marked good marked in
            rw marked (
              live,
              λ h₁ g₁ str h₂ g₂ ptr2 good₂.
                  let good' = IsGood-Grows {h = h} {h' = h₂} (λ p l. g₂ p (g₁ p l)) good in
                  let live' = g₂ (get_real_pointer ptr1) (g₁ (get_real_pointer ptr1) live) in
                  IsGuarded-if (get_real_pointer ptr2 == 0) _ _ Any h₂
                    (λ _ h₃ g₃ now good₃.
                      IsGuarded-if (not (ptr1 == now)) _ _ Any h₃ (λ _. rest h₃)
                        (λ _.
                          move_item-IsGuarded b (get_next_hash_index n b str) i ptr1 ptr2 h₃
                            (IsGood-Grows {h = h₂} {h' = h₃} g₃ good')
                            (g₃ (get_real_pointer ptr1) live')))
                    (λ _.
                      give_up-IsGuarded (get_next_hash_index n b str) i ptr1 ptr2 h₂ good' live'),
            )
      ]

  help_rounds-IsGuarded :
      (fuel b i : ℕ) (initiator : Bool) (h : Heap)
      → IsGuarded Any h (help_rounds n tid fuel b i initiator)
  unfolding help_rounds mark_hazard
  help_rounds-IsGuarded zero b i initiator h = tt
  help_rounds-IsGuarded (suc fuel) b i initiator h = λ h₁ g₁ first good₁.
      IsGuarded->>= GoodSource Any (mark_source n tid (suc fuel) b i initiator first) _ h₁
        (mark_source-IsGuarded (suc fuel) b i initiator first h₁ good₁)
        (λ h₂ g₂ source good₂.
          relocate_marked-IsGuarded (help_rounds n tid fuel b i initiator) b i source h₂
            (help_rounds-IsGuarded fuel b i initiator) good₂)

  pub help_relocate-IsGuarded :
      (fuel b i : ℕ) (initiator : Bool) (h : Heap)
      → IsGuarded Any h (help_relocate n tid fuel b i initiator)
  unfolding help_relocate clear_hazard mark_hazard
  help_relocate-IsGuarded fuel b i initiator h = help_rounds-IsGuarded fuel b i initiator h

  help_until_unmarked-IsGuarded :
      (fuel b i : ℕ) (ptr1 : TablePointer) (h : Heap)
      → IsGood h ptr1
      → IsGuarded GoodWord h (help_until_unmarked n tid fuel b i ptr1)
  unfolding help_until_unmarked
  help_until_unmarked-IsGuarded zero b i ptr1 h good = tt
  help_until_unmarked-IsGuarded (suc fuel) b i ptr1 h good =
      IsGuarded-if (get_marked ptr1) _ _ GoodWord h
        (λ _.
          IsGuarded->>= Any GoodWord (help_relocate n tid (suc fuel) b i false) _ h
            (help_relocate-IsGuarded (suc fuel) b i false h)
            (λ h₁ g₁ _ _ h₂ g₂ w good₂. help_until_unmarked-IsGuarded fuel b i w h₂ good₂))
        (λ _. good)

  discover-IsGuarded :
      (fuel slot_idx left depth : ℕ) (route : List ℕ) (table_idx : ℕ) (h : Heap)
      → IsGuarded Any h (discover n tid fuel slot_idx left depth route table_idx)
  unfolding discover mark_hazard
  discover-IsGuarded fuel slot_idx zero depth route table_idx h = tt
  discover-IsGuarded fuel slot_idx (suc left) depth route table_idx h = λ h₁ g₁ first good₁.
      IsGuarded->>= GoodWord Any (help_until_unmarked n tid fuel table_idx slot_idx first) _ h₁
        (help_until_unmarked-IsGuarded fuel table_idx slot_idx first h₁ good₁)
        (λ h₂ g₂ ptr1 good₂. elim (Bool-cases (get_real_pointer ptr1 == 0)) [
          | inl e ↦ rw e tt
          | inr e ↦ rw e (
            IsGood-IsLive good₂ (nonnull (get_real_pointer ptr1) e),
            λ h₃ g₃ str.
                discover-IsGuarded fuel slot_idx left (depth + 1) (set route depth table_idx)
                  (get_next_hash_index n table_idx str) h₃,
          )
        ])

  help_source-IsGuarded :
      (fuel b i : ℕ) (source_ptr : TablePointer) (h : Heap)
      → IsGood h source_ptr
      → IsGuarded GoodWord h (help_source n tid fuel b i source_ptr)
  unfolding help_source
  help_source-IsGuarded fuel b i source_ptr h good =
      IsGuarded-if (get_marked source_ptr) _ _ GoodWord h
        (λ _.
          IsGuarded->>= Any GoodWord (help_relocate n tid fuel b i false) (λ _. read_slot b i) h
            (help_relocate-IsGuarded fuel b i false h) (λ h₂ g₂ _ _ h₃ g₃ w good₃. good₃))
        (λ _. good)

  move_back-IsGuarded :
      (fuel slot_idx left last : ℕ) (route : List ℕ) (h : Heap)
      → IsGuarded Any h (move_back n tid fuel slot_idx left last route)
  unfolding move_back mark_hazard
  move_back-IsGuarded fuel slot_idx zero last route h = tt
  move_back-IsGuarded fuel slot_idx (suc left) last route h = λ h₁ g₁ first good₁.
      IsGuarded->>= GoodWord Any (help_source n tid fuel (get_or route last 0) slot_idx first) _ h₁
        (help_source-IsGuarded fuel (get_or route last 0) slot_idx first h₁ good₁)
        (λ h₂ g₂ source_ptr good₂. elim (Bool-cases (get_real_pointer source_ptr == 0)) [
          | inl e ↦ rw e (move_back-IsGuarded fuel slot_idx left last route h₂)
          | inr e ↦ rw e (
            IsGood-IsLive good₂ (nonnull (get_real_pointer source_ptr) e),
            λ h₃ g₃ str h₄ g₄ dest_ptr good₄.
                IsGuarded-if (not (get_real_pointer dest_ptr == 0)) _ _ Any h₄ (λ _. tt)
                  (λ _.
                    IsGuarded->>= Any Any
                      (help_relocate n tid fuel (get_or route last 0) slot_idx true) _ h₄
                      (help_relocate-IsGuarded fuel (get_or route last 0) slot_idx true h₄)
                      (λ h₅ g₅ _ _. move_back-IsGuarded fuel slot_idx left last route h₅)),
          )
        ])

  after_move-IsGuarded :
      (again : ℕ → Program Bool) (jump : Option ℕ) (h : Heap)
      → ((level : ℕ) (h' : Heap) → IsGuarded Any h' (again level))
      → IsGuarded Any h (elim jump [ none ↦ done true | some level ↦ again level ])
  after_move-IsGuarded again none h rest = tt
  after_move-IsGuarded again (some level) h rest = rest level h

  path_discovery-IsGuarded :
      (fuel table_idx slot_idx start_level : ℕ) (h : Heap)
      → IsGuarded Any h (path_discovery n tid fuel table_idx slot_idx start_level)
  unfolding path_discovery
  path_discovery-IsGuarded zero table_idx slot_idx start_level h = tt
  path_discovery-IsGuarded (suc fuel) table_idx slot_idx start_level h =
      IsGuarded->>= Any Any
        (discover n tid (suc fuel) slot_idx (num_max_kicks - start_level) start_level
          (replicate num_max_kicks 0) table_idx)
        _ h
        (discover-IsGuarded (suc fuel) slot_idx (num_max_kicks - start_level) start_level
          (replicate num_max_kicks 0) table_idx h)
        (λ h₁ g₁ path _.
          IsGuarded-if path.found _ _ Any h₁
            (λ _.
              IsGuarded->>= Any Any
                (move_back n tid (suc fuel) slot_idx path.depth (path.depth - 1) path.route) _ h₁
                (move_back-IsGuarded (suc fuel) slot_idx path.depth (path.depth - 1) path.route h₁)
                (λ h₂ g₂ jump _.
                  after_move-IsGuarded (path_discovery n tid fuel path.table_idx slot_idx) jump h₂
                    (path_discovery-IsGuarded fuel path.table_idx slot_idx)))
            (λ _. tt))

  pub relocate-IsGuarded :
      (fuel table_idx slot_idx : ℕ) (h : Heap)
      → IsGuarded Any h (relocate n tid fuel table_idx slot_idx)
  unfolding relocate
  relocate-IsGuarded fuel table_idx slot_idx h =
      path_discovery-IsGuarded fuel table_idx slot_idx 0 h
