-- ===== src/LockFree/Alone/Walk.antt =====
-- The path that `relocate` of cuckoo_filter/lock_free_filter.cpp follows, seen on the table of
-- fingerprints: in one column, from a bucket to the other bucket of what it holds, and so on.
use lock_free_cuckoo_filter.Prelude.{
  ℕ, zero, suc, ◌+◌, ◌-◌, ◌<◌, ◌≤◌, ◌≡◌, ◌≢◌, refl, sym, ap, ◌∙◌, inl, inr, true, false, List, [],
  ◌∷◌, get_or, set, length, length-set, get_or-set_self, is_empty, ltb, if◌then◌else◌, Bool-cases,
  arith,
}
use lock_free_cuckoo_filter.Hash.{jenkins_hash}
use lock_free_cuckoo_filter.Index.Partner.{next_index-lt}
use lock_free_cuckoo_filter.Table.{Fingerprint, HashTable, slot}
use lock_free_cuckoo_filter.Table.Copies.{partner}
use lock_free_cuckoo_filter.LockFree.Relocate.{Discovery}

pub is_empty-true : {f : Fingerprint} → is_empty f ≡ true → f ≡ []
is_empty-true {f = []} e = refl
is_empty-true {f = x ∷ f} e = cc

pub is_empty-false : {f : Fingerprint} → is_empty f ≡ false → f ≢ []
is_empty-false {f = []} e = cc
is_empty-false {f = x ∷ f} e = λ q. cc

pub nonempty_lem : {f : Fingerprint} → f ≢ [] → is_empty f ≡ false
nonempty_lem {f = []} h = absurd (h refl)
nonempty_lem {f = x ∷ f} h = refl

module _ (n i : ℕ) where
  abbrev pub step : HashTable → ℕ → ℕ
  step s b = partner n b (slot s b i)

  -- The number of full slots on the path from `b` to an empty one, if that is below `left`.
  unfoldable pub distance : HashTable → (left b : ℕ) → ℕ
  distance s zero b = 0
  distance s (suc left) b =
      let rest = suc (distance s left (step s b)) in if is_empty (slot s b i) then 0 else rest

  -- The last bucket on the path whose slot is full
  unfoldable pub last_full : HashTable → (left b : ℕ) → ℕ
  last_full s zero b = b
  last_full s (suc left) b =
      let rest = last_full s left (step s b) in if is_empty (slot s (step s b) i) then b else rest

  pub distance-le : (s : HashTable) (left b : ℕ) → distance s left b ≤ left
  unfolding distance
  distance-le s zero b = omega arith
  distance-le s (suc left) b = elim (Bool-cases (is_empty (slot s b i))) [
    | inl e ↦ rw e (omega arith)
    | inr e ↦ rw e (omega (arith, distance-le s left (step s b)))
  ]

  pub distance-pos :
      (s : HashTable) (left b : ℕ) → is_empty (slot s b i) ≡ false → 0 < distance s (suc left) b
  unfolding distance
  distance-pos s left b e = rw e (omega arith)

  distance-full :
      (s : HashTable) (left b : ℕ)
      → is_empty (slot s b i) ≡ false
      → distance s (suc left) b ≡ suc (distance s left (step s b))
  unfolding distance
  distance-full s left b e = rw e refl

  -- The distance depends on the slots of the column only.
  pub distance-cong :
      (s s' : HashTable) (left b : ℕ)
      → ((c : ℕ) → slot s' c i ≡ slot s c i)
      → distance s' left b ≡ distance s left b
  unfolding distance
  distance-cong s s' zero b h = refl
  distance-cong s s' (suc left) b h = rw (h b) (
      ap (λ (d : ℕ). if is_empty (slot s b i) then 0 else suc d)
        (distance-cong s s' left (step s b) h))

  -- The last full slot of a path that ends is full, and the next slot is empty.
  pub record IsSource (s : HashTable) (e : ℕ) : Type 0 where
    pub inside : e < n
    pub full : slot s e i ≢ []
    pub free : slot s (step s e) i ≡ []

  pub last_full-IsSource :
      (s : HashTable) (left b : ℕ)
      → 0 < n
      → b < n
      → is_empty (slot s b i) ≡ false
      → distance s left b < left
      → IsSource s (last_full s left b)
  unfolding last_full
  last_full-IsSource s zero b pos lt e h = absurd (omega (arith, h))
  last_full-IsSource s (suc left) b pos lt e h =
      let h' : distance s left (step s b) < left = omega (arith, h, distance-full s left b e) in
      elim (Bool-cases (is_empty (slot s (step s b) i))) [
        | inl q ↦ rw q (record { inside = lt; full = is_empty-false e; free = is_empty-true q })
        | inr q ↦ rw q (
            last_full-IsSource s left (step s b) pos
              (next_index-lt n b (jenkins_hash (slot s b i)) pos) q h')
      ]

  pub distance-empty : (s : HashTable) (left b : ℕ) → slot s b i ≡ [] → distance s left b ≡ 0
  unfolding distance
  distance-empty s zero b e = refl
  distance-empty s (suc left) b e = rw e refl

  last_full-here :
      (s : HashTable) (left b : ℕ)
      → is_empty (slot s (step s b) i) ≡ true
      → last_full s (suc left) b ≡ b
  unfolding last_full
  last_full-here s left b e = rw e refl

  last_full-later :
      (s : HashTable) (left b : ℕ)
      → is_empty (slot s (step s b) i) ≡ false
      → last_full s (suc left) b ≡ last_full s left (step s b)
  unfolding last_full
  last_full-later s left b e = rw e refl

  -- The table `s'` is `s` after the item of the source `e` has been moved on.
  pub record IsMoved (s s' : HashTable) (e : ℕ) : Type 0 where
    pub source : IsSource s e
    pub kept : (c : ℕ) → c ≢ e → c ≢ step s e → slot s' c i ≡ slot s c i
    pub cleared : slot s' e i ≡ []

  -- If the last item of a path is moved on, the path has one item less.
  pub distance-moved :
      (s s' : HashTable) (left b e : ℕ)
      → IsMoved s s' e
      → last_full s left b ≡ e
      → is_empty (slot s b i) ≡ false
      → distance s left b < left
      → suc (distance s' left b) ≡ distance s left b
  distance-moved s s' zero b e x last full h = absurd (omega (arith, h))
  distance-moved s s' (suc left) b e x last full h =
      elim (Bool-cases (is_empty (slot s (step s b) i))) [
        | inl q ↦
            let here : b ≡ e = sym (last_full-here s left b q) ∙ last in
            let gone : slot s' b i ≡ [] = ap (λ (c : ℕ). slot s' c i) here ∙ x.cleared in
            omega (
              arith,
              distance-empty s' (suc left) b gone,
              distance-full s left b full,
              distance-empty s left (step s b) (is_empty-true q),
            )
        | inr q ↦
            let last' : last_full s left (step s b) ≡ e = sym (last_full-later s left b q) ∙ last in
            let h' : distance s left (step s b) < left =
              omega (arith, h, distance-full s left b full) in
            let apart : b ≢ e =
              λ same. is_empty-false q (ap (λ (c : ℕ). slot s (step s c) i) same ∙ x.source.free) in
            let apart' : b ≢ step s e =
              λ same. is_empty-false full (ap (λ (c : ℕ). slot s c i) same ∙ x.source.free) in
            let same = x.kept b apart apart' in
            let step_same : step s' b ≡ step s b = ap (λ (f : Fingerprint). partner n b f) same in
            omega (
              arith,
              distance-full s' left b (ap is_empty same ∙ full),
              ap (λ (c : ℕ). distance s' left c) step_same,
              distance-full s left b full,
              distance-moved s s' left (step s b) e x last' q h',
            )
      ]

  -- What the discovery finds, on the table of fingerprints
  unfoldable pub discovered : HashTable → (left depth : ℕ) → List ℕ → ℕ → Discovery
  discovered s zero depth route b = record {
    found = false;
    depth = depth;
    route = route;
    table_idx = b;
  }
  discovered s (suc left) depth route b =
      let rest = discovered s left (depth + 1) (set route depth b) (step s b) in
      if is_empty (slot s b i)
      then record { found = true; depth = depth; route = route; table_idx = b }
      else rest

  pub discovered-found :
      (s : HashTable) (left depth : ℕ) (route : List ℕ) (b : ℕ)
      → (discovered s left depth route b).found ≡ ltb (distance s left b) left
  unfolding discovered distance
  discovered-found s zero depth route b = refl
  discovered-found s (suc left) depth route b = elim (Bool-cases (is_empty (slot s b i))) [
    | inl e ↦ rw e (ground arith)
    | inr e ↦
        rw e (discovered-found s left (depth + 1) (set route depth b) (step s b) ∙ ground arith)
  ]

  pub discovered-depth :
      (s : HashTable) (left depth : ℕ) (route : List ℕ) (b : ℕ)
      → (discovered s left depth route b).depth ≡ depth + distance s left b
  unfolding discovered distance
  discovered-depth s zero depth route b = omega arith
  discovered-depth s (suc left) depth route b = elim (Bool-cases (is_empty (slot s b i))) [
    | inl e ↦ rw e (omega arith)
    | inr e ↦
        rw e (omega (arith, discovered-depth s left (depth + 1) (set route depth b) (step s b)))
  ]

  pub discovered-route :
      (s : HashTable) (left depth : ℕ) (route : List ℕ) (b : ℕ)
      → depth + left ≤ length route
      → is_empty (slot s b i) ≡ false
      → distance s left b < left
      → get_or (discovered s left depth route b).route (depth + distance s left b - 1) 0
        ≡ last_full s left b
  unfolding discovered distance last_full
  discovered-route s zero depth route b room e h = absurd (omega (arith, h))
  discovered-route s (suc left) depth route b room e h =
      let one : distance s (suc left) b ≡ suc (distance s left (step s b)) =
        distance-full s left b e in
      elim (Bool-cases (is_empty (slot s (step s b) i))) [
        | inl q ↦
            let zero_next : distance s left (step s b) ≡ 0 =
              distance-empty s left (step s b) (is_empty-true q) in
            let route' = set route depth b in
            let last : depth + suc (distance s left (step s b)) - 1 ≡ depth =
              omega (arith, zero_next) in
            rw (e, q)
              (ap (λ (j : ℕ). get_or (discovered s left (depth + 1) route' (step s b)).route j 0)
                  last
                ∙ ap (λ (r : List ℕ). get_or r depth 0)
                    (unchanged s left (depth + 1) route' (step s b) q)
                ∙ get_or-set_self route depth b 0 (omega (arith, room)))
        | inr q ↦
            let h' : distance s left (step s b) < left = omega (arith, h, one) in
            let route' = set route depth b in
            let last : depth + suc (distance s left (step s b)) - 1
                ≡ depth + 1 + distance s left (step s b) - 1 =
              omega arith in
            rw (e, q)
              (ap (λ (j : ℕ). get_or (discovered s left (depth + 1) route' (step s b)).route j 0)
                  last
                ∙ discovered-route s left (depth + 1) route' (step s b)
                    (omega (arith, room, length-set route depth b)) q h')
      ]
    where
      unchanged :
          (s : HashTable) (left depth : ℕ) (route : List ℕ) (b : ℕ)
          → is_empty (slot s b i) ≡ true
          → (discovered s left depth route b).route ≡ route
      unchanged s zero depth route b e = refl
      unchanged s (suc left) depth route b e = rw e refl
