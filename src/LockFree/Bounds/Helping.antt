-- ===== src/LockFree/Bounds/Helping.antt =====
-- The indices that `help_relocate` of cuckoo_filter/lock_free_filter.cpp uses.
use lock_free_cuckoo_filter.Prelude.{
  ℕ, zero, suc, ◌+◌, ◌<◌, Bool, true, false, not, ◌&&◌, Option, none, some, ◌==◌, arith,
}
use lock_free_cuckoo_filter.Common.{num_items_per_entry}
use lock_free_cuckoo_filter.Hash.{jenkins_hash}
use lock_free_cuckoo_filter.Index.Partner.{next_index-lt}
use lock_free_cuckoo_filter.Pointer.{TablePointer, get_counter, get_real_pointer, get_marked}
use lock_free_cuckoo_filter.Table.{Fingerprint}
use lock_free_cuckoo_filter.LockFree.Program.{Program, mark_hazard, clear_hazard}
use lock_free_cuckoo_filter.LockFree.Relocate.{
  get_next_hash_index, mark_source, give_up, move_item, relocate_marked, help_rounds, help_relocate,
}
use lock_free_cuckoo_filter.LockFree.Bounds.Bounded.{
  Whatever, IsBounded, IsBounded->>=, IsBounded-if, IsBounded-created,
}

pub next-lt : (n b : ℕ) (s : Fingerprint) → 0 < n → get_next_hash_index n b s < n
unfolding get_next_hash_index
next-lt n b s pos = next_index-lt n b (jenkins_hash s) pos

module _ (n threads tid : ℕ) (pos : 0 < n) (mine : tid < threads) where
  mark_source-IsBounded :
      (fuel b i : ℕ) (initiator : Bool) (ptr1 : TablePointer)
      → b < n
      → i < num_items_per_entry
      → IsBounded n threads Whatever (mark_source n tid fuel b i initiator ptr1)
  unfolding mark_source mark_hazard
  mark_source-IsBounded zero b i initiator ptr1 hb hi = tt
  mark_source-IsBounded (suc fuel) b i initiator ptr1 hb hi =
      IsBounded-if n threads (initiator && not (get_marked ptr1)) _ _ Whatever
        (λ _.
          IsBounded-if n threads (get_real_pointer ptr1 == 0) _ _ Whatever (λ _. tt)
            (λ _. (
              hb,
              hi,
              λ r. (
                hb,
                hi,
                λ w. (omega arith, mine, mark_source-IsBounded fuel b i initiator w hb hi),
              ),
            )))
        (λ _. tt)

  give_up-IsBounded :
      (new_hash i : ℕ) (ptr1 ptr2 : TablePointer)
      → new_hash < n
      → i < num_items_per_entry
      → IsBounded n threads Whatever (give_up n tid new_hash i ptr1 ptr2)
  unfolding give_up
  give_up-IsBounded new_hash i ptr1 ptr2 hb hi =
      IsBounded-if n threads (get_real_pointer ptr1 == get_real_pointer ptr2) _ _ Whatever
        (λ _.
          IsBounded-created n threads (get_counter ptr1 + 1) 0 false _ Whatever
            (λ w. (hb, hi, λ r. tt)))
        (λ _.
          IsBounded-created n threads (get_counter ptr1 + 1) (get_real_pointer ptr1) true _ Whatever
            (λ w. (hb, hi, λ r. tt)))

  move_item-IsBounded :
      (b new_hash i : ℕ) (ptr1 ptr2 : TablePointer)
      → b < n
      → new_hash < n
      → i < num_items_per_entry
      → IsBounded n threads Whatever (move_item n tid b new_hash i ptr1 ptr2)
  unfolding move_item
  move_item-IsBounded b new_hash i ptr1 ptr2 hb hn hi =
      IsBounded-created n threads _ (get_real_pointer ptr1) false _ Whatever (λ w. (
        hn,
        hi,
        λ swapped.
            IsBounded-if n threads swapped _ _ Whatever
              (λ _.
                IsBounded-created n threads (get_counter ptr1 + 1) 0 false _ Whatever
                  (λ w'. (hb, hi, λ r. tt)))
              (λ _. give_up-IsBounded new_hash i ptr1 ptr2 hn hi),
      ))

  relocate_marked-IsBounded :
      (again : Program (Unit {0})) (b i : ℕ) (source : Option TablePointer)
      → b < n
      → i < num_items_per_entry
      → IsBounded n threads Whatever again
      → IsBounded n threads Whatever (relocate_marked n tid again b i source)
  unfolding relocate_marked mark_hazard
  relocate_marked-IsBounded again b i none hb hi rest = tt
  relocate_marked-IsBounded again b i (some ptr1) hb hi rest =
      IsBounded-if n threads (not (get_marked ptr1)) _ _ Whatever (λ _. tt)
        (λ _ str.
          let hn = next-lt n b str pos in
          (
            hn,
            hi,
            λ ptr2. (
              omega arith,
              mine,
              IsBounded-if n threads (get_real_pointer ptr2 == 0) _ _ Whatever
                  (λ _. (
                    hb,
                    hi,
                    λ now.
                        IsBounded-if n threads (not (ptr1 == now)) _ _ Whatever (λ _. rest)
                          (λ _. move_item-IsBounded b _ i ptr1 ptr2 hb hn hi),
                  ))
                  (λ _. give_up-IsBounded _ i ptr1 ptr2 hn hi),
            ),
          ))

  help_rounds-IsBounded :
      (fuel b i : ℕ) (initiator : Bool)
      → b < n
      → i < num_items_per_entry
      → IsBounded n threads Whatever (help_rounds n tid fuel b i initiator)
  unfolding help_rounds mark_hazard
  help_rounds-IsBounded zero b i initiator hb hi = tt
  help_rounds-IsBounded (suc fuel) b i initiator hb hi = (
    hb,
    hi,
    λ first. (
      omega arith,
      mine,
      IsBounded->>= n threads Whatever Whatever (mark_source n tid (suc fuel) b i initiator first) _
          (mark_source-IsBounded (suc fuel) b i initiator first hb hi)
          (λ source _.
            relocate_marked-IsBounded (help_rounds n tid fuel b i initiator) b i source hb hi
              (help_rounds-IsBounded fuel b i initiator hb hi)),
    ),
  )

  pub help_relocate-IsBounded :
      (fuel b i : ℕ) (initiator : Bool)
      → b < n
      → i < num_items_per_entry
      → IsBounded n threads Whatever (help_relocate n tid fuel b i initiator)
  unfolding help_relocate clear_hazard mark_hazard
  help_relocate-IsBounded fuel b i initiator hb hi =
      (omega arith, mine, (omega arith, mine, help_rounds-IsBounded fuel b i initiator hb hi))
