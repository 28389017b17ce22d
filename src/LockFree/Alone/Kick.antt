-- ===== src/LockFree/Alone/Kick.antt =====
-- `relocate` of cuckoo_filter/lock_free_filter.cpp, run alone: it moves the last item of the path, or
-- finds no path and changes nothing.
use native.Mathlib.Decide.{dec_lt}
use mathlib.Core.Path.{subst}
use lock_free_cuckoo_filter.Prelude.{
  ℕ, zero, suc, ◌+◌, ◌-◌, ◌^◌, ◌<◌, ◌≡◌, ◌≢◌, refl, sym, ap, ◌∙◌, inl, inr, Bool, true, false, none,
  List, [], set, get_or, replicate, ◌==◌, Bool-cases, arith,
}
use lock_free_cuckoo_filter.Common.{num_items_per_entry, num_max_kicks}
use lock_free_cuckoo_filter.Pointer.{get_real_pointer}
use lock_free_cuckoo_filter.Table.{HashTable, slot}
use lock_free_cuckoo_filter.Table.Shape.{slot-write_self, write-IsShaped}
use lock_free_cuckoo_filter.Table.Copies.{partner}
use lock_free_cuckoo_filter.LockFree.Program.{mark_hazard, entry_str}
use lock_free_cuckoo_filter.LockFree.Memory.{Memory, word_at, store_hazard, returned, run}
use lock_free_cuckoo_filter.LockFree.Relocate.{
  Discovery, help_until_unmarked, discover, help_source, help_relocate, move_back, path_discovery,
  relocate,
}
use lock_free_cuckoo_filter.LockFree.Alone.Runs.{run_after}
use lock_free_cuckoo_filter.LockFree.Alone.Still.{still}
use lock_free_cuckoo_filter.LockFree.Alone.Contents.{
  contents, contents-IsShaped, IsSteady, slot-taken, slot-null, null-slot,
}
use lock_free_cuckoo_filter.LockFree.Alone.Walk.{
  step, distance, distance-le, distance-pos, last_full, IsSource, last_full-IsSource, discovered,
  discovered-found, discovered-depth, discovered-route, nonempty_lem,
}
use lock_free_cuckoo_filter.LockFree.Alone.Moves.{Moved, help_relocate-Moved, next-partner}

discover-run :
    {n c : ℕ} (tid fuel i left depth : ℕ) (route : List ℕ) (b : ℕ) (m : Memory)
    → IsSteady n c m
    → run (discover n tid (suc fuel) i left depth route b) (still m)
      ≡ returned (discovered n i (contents m) left depth route b) (still m)
unfolding run discover mark_hazard store_hazard help_until_unmarked discovered word_at
discover-run tid fuel i zero depth route b m s = refl
discover-run {n} tid fuel i (suc left) depth route b m s =
    elim (Bool-cases (get_real_pointer (word_at m b i) == 0)) [
      | inl e ↦
          let null : get_real_pointer (word_at m b i) ≡ 0 = ground arith in
          rw ((s.words b i).unmarked, e, slot-null b i s null, run) refl
      | inr e ↦
          let ne : get_real_pointer (word_at m b i) ≢ 0 = ground arith in
          let (full, live) = slot-taken b i s ne in
          rw
            (
              (s.words b i).unmarked,
              e,
              nonempty_lem full,
              live,
              next-partner n b (slot (contents m) b i),
              run,
              entry_str,
            )
            (discover-run tid fuel i left (depth + 1) (set route depth b)
              (partner n b (slot (contents m) b i)) m s)
    ]

help_source-run :
    {n c : ℕ} (tid fuel b i : ℕ) (m : Memory)
    → IsSteady n c m
    → run (help_source n tid fuel b i (word_at m b i)) (still m)
      ≡ returned (word_at m b i) (still m)
unfolding run help_source
help_source-run tid fuel b i m s = rw (s.words b i).unmarked refl

-- The traversal where the source is empty already: nothing is left to be moved.
move_back-empty :
    {n c : ℕ} (tid fuel i left last : ℕ) (route : List ℕ) (m : Memory)
    → IsSteady n c m
    → slot (contents m) (get_or route last 0) i ≡ []
    → run (move_back n tid fuel i left last route) (still m) ≡ returned none (still m)
unfolding run move_back help_source word_at
move_back-empty tid fuel i zero last route m s e = refl
move_back-empty {n} tid fuel i (suc left) last route m s e =
    let b = get_or route last 0 in
    let w = word_at m b i in
    let null : (get_real_pointer w == 0) ≡ true = ground (arith, null-slot b i s e) in
    run_after (help_source n tid fuel b i w) _ (still m) (still m) w
      (help_source-run tid fuel b i m s)
    ∙ rw null (move_back-empty tid fuel i left last route m s e)

-- The traversal's first round moves the item of the source.
move_back-run :
    {n c : ℕ} (tid fuel i left last : ℕ) (route : List ℕ) (m m' : Memory)
    → IsSteady n c m
    → IsSteady n (c + 1) m'
    → let b = get_or route last 0 in
      IsSource n i (contents m) b
      → run (help_relocate n tid (suc (suc fuel)) b i true) (still m) ≡ returned tt (still m')
      → slot (contents m') b i ≡ []
      → run (move_back n tid (suc (suc fuel)) i (suc left) last route) (still m)
        ≡ returned none (still m')
unfolding run move_back help_source mark_hazard store_hazard word_at
move_back-run {n} tid fuel i left last route m m' s s' src e gone =
    let b = get_or route last 0 in
    let f = slot (contents m) b i in
    let ne : get_real_pointer (word_at m b i) ≢ 0 = λ q. src.full (slot-null b i s q) in
    let there : (get_real_pointer (word_at m b i) == 0) ≡ false = ground arith in
    let null = null-slot (partner n b f) i s src.free in
    rw
      (
        (s.words b i).unmarked,
        there,
        (slot-taken b i s ne).1,
        run,
        entry_str,
        next-partner n b f,
        null,
      )
      (run_after (help_relocate n tid (suc (suc fuel)) b i true)
          (λ _. move_back n tid (suc (suc fuel)) i left last route) (still m) (still m') tt e
        ∙ move_back-empty tid (suc (suc fuel)) i left last route m' s' gone)

-- After the discovery
found-run :
    (n tid fuel b i : ℕ) (m m' : Memory) (path : Discovery)
    → run (discover n tid (suc fuel) i num_max_kicks 0 (replicate num_max_kicks 0) b) (still m)
      ≡ returned path (still m)
    → path.found ≡ true
    → run (move_back n tid (suc fuel) i path.depth (path.depth - 1) path.route) (still m)
      ≡ returned none (still m')
    → run (relocate n tid (suc fuel) b i) (still m) ≡ returned true (still m')
unfolding run relocate path_discovery
found-run n tid fuel b i m m' path e found e' =
    run_after (discover n tid (suc fuel) i num_max_kicks 0 (replicate num_max_kicks 0) b) _
      (still m) (still m) path e
    ∙ rw found (
        run_after (move_back n tid (suc fuel) i path.depth (path.depth - 1) path.route) _ (still m)
          (still m') none e')

unfound-run :
    (n tid fuel b i : ℕ) (m : Memory) (path : Discovery)
    → run (discover n tid (suc fuel) i num_max_kicks 0 (replicate num_max_kicks 0) b) (still m)
      ≡ returned path (still m)
    → path.found ≡ false
    → run (relocate n tid (suc fuel) b i) (still m) ≡ returned false (still m)
unfolding run relocate path_discovery
unfound-run n tid fuel b i m path e unfound =
    run_after (discover n tid (suc fuel) i num_max_kicks 0 (replicate num_max_kicks 0) b) _
      (still m) (still m) path e
    ∙ rw unfound refl

-- What relocate did at a full slot, alone: it has moved the last item of the path, or there is none.
pub data Relocated (n c : ℕ) (m : Memory) (b i : ℕ) : Bool → Memory → Type 0 where
  moved :
      {m' : Memory}
      → distance n i (contents m) num_max_kicks b < num_max_kicks
      → IsSource n i (contents m) (last_full n i (contents m) num_max_kicks b)
      → Moved n c m
          (last_full n i (contents m) num_max_kicks b)
          (step n i (contents m) (last_full n i (contents m) num_max_kicks b))
          i
          m'
      → Relocated n c m b i true m'
  stuck : distance n i (contents m) num_max_kicks b ≡ num_max_kicks → Relocated n c m b i false m

module _ {n c : ℕ} (tid fuel : ℕ) (m : Memory) (b i : ℕ) (s : IsSteady n c m) (pos : 0 < n)
    (low : c + 1 < 2 ^ 16) (hb : b < n) (hi : i < num_items_per_entry)
    (full : slot (contents m) b i ≢ []) where
  abbrev path : Discovery
  path = discovered n i (contents m) num_max_kicks 0 (replicate num_max_kicks 0) b

  discovery-run :
      run
        (discover n tid (suc (suc fuel)) i num_max_kicks 0 (replicate num_max_kicks 0) b)
        (still m)
      ≡ returned path (still m)
  discovery-run = discover-run tid (suc fuel) i num_max_kicks 0 (replicate num_max_kicks 0) b m s

  -- The whole traversal: its first round moves the item of `e`, and the others find nothing.
  move_all :
      (m' : Memory) (depth e : ℕ) (route : List ℕ)
      → 0 < depth
      → get_or route (depth - 1) 0 ≡ e
      → IsSource n i (contents m) e
      → run (help_relocate n tid (suc (suc fuel)) e i true) (still m) ≡ returned tt (still m')
      → Moved n c m e (step n i (contents m) e) i m'
      → run (move_back n tid (suc (suc fuel)) i depth (depth - 1) route) (still m)
        ≡ returned none (still m')
  move_all m' zero e route lt place src r x = absurd (omega (arith, lt))
  move_all m' (suc left) e route lt place src r x =
      move_back-run tid fuel i left (suc left - 1) route m m' s x.steady
        (subst (IsSource n i (contents m)) (sym place) src) (rw place r) (rw place gone)
    where
      gone : slot (contents m') e i ≡ []
      gone =
          ap (λ (t : HashTable). slot t e i) x.moves
          ∙ slot-write_self e i [] (write-IsShaped _ i _ (contents-IsShaped m s.grid)) src.inside hi

  relocate-moved :
      distance n i (contents m) num_max_kicks b < num_max_kicks
      → (m' : Memory) × (run (relocate n tid (suc (suc fuel)) b i) (still m)
          ≡ returned true (still m'))
        × Relocated n c m b i true m'
  relocate-moved near =
      let t = contents m in
      let e = last_full n i t num_max_kicks b in
      let src = last_full-IsSource n i t num_max_kicks b pos hb (nonempty_lem full) near in
      let (m', r, x) =
        help_relocate-Moved tid fuel m e i s pos low src.inside hi src.full src.free in
      let some_distance : 0 < distance n i t num_max_kicks b =
        distance-pos n i t 9 b (nonempty_lem full) in
      let found : path.found ≡ true =
        discovered-found n i t num_max_kicks 0 (replicate num_max_kicks 0) b ∙ ground arith in
      let place : get_or path.route (path.depth - 1) 0 ≡ e =
        ap (λ (j : ℕ). get_or path.route j 0)
          (omega (arith, discovered-depth n i t num_max_kicks 0 (replicate num_max_kicks 0) b))
        ∙ discovered-route n i t num_max_kicks 0 (replicate num_max_kicks 0) b (omega arith)
            (nonempty_lem full) near in
      (
        m',
        found-run n tid (suc fuel) b i m m' path discovery-run found (
            move_all m' path.depth e path.route
              (omega (
                arith,
                discovered-depth n i t num_max_kicks 0 (replicate num_max_kicks 0) b,
                some_distance,
              ))
              place src r x),
        moved near src x,
      )

  pub relocate-Relocated :
      (answer : Bool) × (m' : Memory) × (run (relocate n tid (suc (suc fuel)) b i) (still m)
        ≡ returned answer (still m'))
      × Relocated n c m b i answer m'
  relocate-Relocated = elim (dec_lt (distance n i (contents m) num_max_kicks b) num_max_kicks) [
    | yes near ↦ let (m', r, x) = relocate-moved near in (true, m', r, x)
    | no far ↦
        let end : distance n i (contents m) num_max_kicks b ≡ num_max_kicks =
          omega (arith, far, distance-le n i (contents m) num_max_kicks b) in
        let unfound : path.found ≡ false =
          discovered-found n i (contents m) num_max_kicks 0 (replicate num_max_kicks 0) b
          ∙ ground arith in
        (false, m, unfound-run n tid (suc fuel) b i m path discovery-run unfound, stuck end)
  ]
