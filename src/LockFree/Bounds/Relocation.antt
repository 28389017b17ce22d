-- ===== src/LockFree/Bounds/Relocation.antt =====
-- The indices that `relocate` of cuckoo_filter/lock_free_filter.cpp uses.
use lock_free_cuckoo_filter.Prelude.{
  ℕ, zero, suc, ◌+◌, ◌-◌, ◌<◌, Bool, true, false, not, Option, none, some, List, ◌==◌, arith, set,
  get_or, get_or-set, get_or-replicate, replicate,
}
use lock_free_cuckoo_filter.Common.{num_items_per_entry, num_max_kicks}
use lock_free_cuckoo_filter.Pointer.{TablePointer, get_real_pointer, get_marked}
use lock_free_cuckoo_filter.LockFree.Program.{Program, done, read_slot, mark_hazard}
use lock_free_cuckoo_filter.LockFree.Relocate.{
  get_next_hash_index, Discovery, help_relocate, help_until_unmarked, discover, help_source,
  move_back, path_discovery, relocate,
}
use lock_free_cuckoo_filter.LockFree.Bounds.Bounded.{
  Whatever, IsBounded, IsBounded->>=, IsBounded-if,
}
use lock_free_cuckoo_filter.LockFree.Bounds.Helping.{next-lt, help_relocate-IsBounded}

-- Every place of the route reads as a bucket.
abbrev IsRoute : ℕ → List ℕ → Type 0
IsRoute n route = (j : ℕ) → get_or route j 0 < n

-- What the path discovery promises to the traversal
record IsPath (n : ℕ) (path : Discovery) : Type 0 where
  route : IsRoute n path.route
  table_idx : path.table_idx < n

module _ (n threads tid : ℕ) (pos : 0 < n) (mine : tid < threads) where
  help_until_unmarked-IsBounded :
      (fuel b i : ℕ) (ptr1 : TablePointer)
      → b < n
      → i < num_items_per_entry
      → IsBounded n threads Whatever (help_until_unmarked n tid fuel b i ptr1)
  unfolding help_until_unmarked
  help_until_unmarked-IsBounded zero b i ptr1 hb hi = tt
  help_until_unmarked-IsBounded (suc fuel) b i ptr1 hb hi =
      IsBounded-if n threads (get_marked ptr1) _ _ Whatever
        (λ _.
          IsBounded->>= n threads Whatever Whatever (help_relocate n tid (suc fuel) b i false) _
            (help_relocate-IsBounded n threads tid pos mine (suc fuel) b i false hb hi)
            (λ _ _. (hb, hi, λ w. help_until_unmarked-IsBounded fuel b i w hb hi)))
        (λ _. tt)

  discover-IsBounded :
      (fuel slot_idx left depth : ℕ) (route : List ℕ) (table_idx : ℕ)
      → slot_idx < num_items_per_entry
      → table_idx < n
      → IsRoute n route
      → IsBounded n threads (IsPath n) (discover n tid fuel slot_idx left depth route table_idx)
  unfolding discover mark_hazard
  discover-IsBounded fuel slot_idx zero depth route table_idx hs ht hr = record {
    route = hr;
    table_idx = ht;
  }
  discover-IsBounded fuel slot_idx (suc left) depth route table_idx hs ht hr = (
    ht,
    hs,
    λ first. (
      omega arith,
      mine,
      IsBounded->>= n threads Whatever (IsPath n)
          (help_until_unmarked n tid fuel table_idx slot_idx first) _
          (help_until_unmarked-IsBounded fuel table_idx slot_idx first ht hs)
          (λ ptr1 _.
            IsBounded-if n threads (not (get_real_pointer ptr1 == 0)) _ _ (IsPath n)
              (λ _ str.
                discover-IsBounded fuel slot_idx left (depth + 1) (set route depth table_idx)
                  (get_next_hash_index n table_idx str) hs (next-lt n table_idx str pos)
                  (λ j. get_or-set (λ (x : ℕ). x < n) route depth j table_idx 0 ht (hr j)))
              (λ _. record { route = hr; table_idx = ht })),
    ),
  )

  help_source-IsBounded :
      (fuel b i : ℕ) (source_ptr : TablePointer)
      → b < n
      → i < num_items_per_entry
      → IsBounded n threads Whatever (help_source n tid fuel b i source_ptr)
  unfolding help_source
  help_source-IsBounded fuel b i source_ptr hb hi =
      IsBounded-if n threads (get_marked source_ptr) _ _ Whatever
        (λ _.
          IsBounded->>= n threads Whatever Whatever (help_relocate n tid fuel b i false)
            (λ _. read_slot b i)
            (help_relocate-IsBounded n threads tid pos mine fuel b i false hb hi)
            (λ _ _. (hb, hi, λ w. tt)))
        (λ _. tt)

  move_back-IsBounded :
      (fuel slot_idx left last : ℕ) (route : List ℕ)
      → slot_idx < num_items_per_entry
      → IsRoute n route
      → IsBounded n threads Whatever (move_back n tid fuel slot_idx left last route)
  unfolding move_back mark_hazard
  move_back-IsBounded fuel slot_idx zero last route hs hr = tt
  move_back-IsBounded fuel slot_idx (suc left) last route hs hr =
      let b = get_or route last 0 in
      (
        hr last,
        hs,
        λ first.
            IsBounded->>= n threads Whatever Whatever (help_source n tid fuel b slot_idx first) _
              (help_source-IsBounded fuel b slot_idx first (hr last) hs)
              (λ source_ptr _.
                IsBounded-if n threads (get_real_pointer source_ptr == 0) _ _ Whatever
                  (λ _. move_back-IsBounded fuel slot_idx left last route hs hr)
                  (λ _ str. (
                    next-lt n b str pos,
                    hs,
                    λ dest_ptr. (
                      omega arith,
                      mine,
                      IsBounded-if n threads (not (get_real_pointer dest_ptr == 0)) _ _ Whatever
                          (λ _. tt)
                          (λ _.
                            IsBounded->>= n threads Whatever Whatever
                              (help_relocate n tid fuel b slot_idx true) _
                              (help_relocate-IsBounded n threads tid pos mine fuel b slot_idx true
                                (hr last) hs)
                              (λ _ _. move_back-IsBounded fuel slot_idx left last route hs hr)),
                    ),
                  ))),
      )

  after_move-IsBounded :
      (again : ℕ → Program Bool) (jump : Option ℕ)
      → ((level : ℕ) → IsBounded n threads Whatever (again level))
      → IsBounded n threads Whatever (elim jump [ none ↦ done true | some level ↦ again level ])
  after_move-IsBounded again none rest = tt
  after_move-IsBounded again (some level) rest = rest level

  path_discovery-IsBounded :
      (fuel table_idx slot_idx start_level : ℕ)
      → table_idx < n
      → slot_idx < num_items_per_entry
      → IsBounded n threads Whatever (path_discovery n tid fuel table_idx slot_idx start_level)
  unfolding path_discovery
  path_discovery-IsBounded zero table_idx slot_idx start_level ht hs = tt
  path_discovery-IsBounded (suc fuel) table_idx slot_idx start_level ht hs =
      IsBounded->>= n threads (IsPath n) Whatever
        (discover n tid (suc fuel) slot_idx (num_max_kicks - start_level) start_level
          (replicate num_max_kicks 0) table_idx)
        _
        (discover-IsBounded (suc fuel) slot_idx (num_max_kicks - start_level) start_level
          (replicate num_max_kicks 0) table_idx hs ht
          (λ j. omega (arith, get_or-replicate {A = ℕ} num_max_kicks j 0)))
        (λ path is_path.
          IsBounded-if n threads path.found _ _ Whatever
            (λ _.
              IsBounded->>= n threads Whatever Whatever
                (move_back n tid (suc fuel) slot_idx path.depth (path.depth - 1) path.route) _
                (move_back-IsBounded (suc fuel) slot_idx path.depth (path.depth - 1) path.route hs
                  is_path.route)
                (λ jump _.
                  after_move-IsBounded (path_discovery n tid fuel path.table_idx slot_idx) jump
                    (λ level.
                      path_discovery-IsBounded fuel path.table_idx slot_idx level is_path.table_idx
                        hs)))
            (λ _. tt))

  pub relocate-IsBounded :
      (fuel table_idx slot_idx : ℕ)
      → table_idx < n
      → slot_idx < num_items_per_entry
      → IsBounded n threads Whatever (relocate n tid fuel table_idx slot_idx)
  unfolding relocate
  relocate-IsBounded fuel table_idx slot_idx ht hs =
      path_discovery-IsBounded fuel table_idx slot_idx 0 ht hs
