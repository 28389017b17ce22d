-- ===== src/LockFree/Bounds/Bounded.antt =====
-- Programs whose accesses stay in a table of `n` buckets and in the lists of `threads` threads,
-- whatever the words, strings and addresses are that they are given.
use lock_free_cuckoo_filter.Prelude.{
  ℕ, ◌<◌, ◌≡◌, refl, Bool, true, false, Option-cases, inl, inr, List, [], ◌∷◌, if◌then◌else◌,
}
use lock_free_cuckoo_filter.Common.{num_items_per_entry}
use lock_free_cuckoo_filter.Pointer.{TablePointer, create_pointer}
use lock_free_cuckoo_filter.Table.{Fingerprint}
use lock_free_cuckoo_filter.LockFree.Program.{
  Address, Program, done, aborted, out_of_fuel, reading, comparing, marking, dereferencing,
  allocating, retiring, ◌>>=◌, or_abort,
}
use lock_free_cuckoo_filter.LockFree.Memory.{max_hazard_pointer_count}

-- No condition on the result
abbrev pub Whatever : {A : Type 0} → A → Type 0
Whatever a = Unit

module _ (n threads : ℕ) where
  abbrev pub IsBounded : {A : Type 0} → (A → Type 0) → Program A → Type 0
  IsBounded P (done a) = P a
  IsBounded P aborted = Unit
  IsBounded P out_of_fuel = Unit
  IsBounded P (reading b i k) =
      (b < n) × (i < num_items_per_entry) × ((w : TablePointer) → IsBounded P (k w))
  IsBounded P (comparing b i expected desired k) =
      (b < n) × (i < num_items_per_entry) × ((r : Bool) → IsBounded P (k r))
  IsBounded P (marking p index tid k) =
      (index < max_hazard_pointer_count) × (tid < threads) × IsBounded P k
  IsBounded P (dereferencing p k) = (s : Fingerprint) → IsBounded P (k s)
  IsBounded P (allocating s k) = (p : Address) → IsBounded P (k p)
  IsBounded P (retiring p tid k) = (tid < threads) × IsBounded P k

  -- What follows a bounded program is bounded, if it is for every result.
  pub IsBounded->>= :
      {A B : Type 0} (P : A → Type 0) (Q : B → Type 0) (m : Program A) (f : A → Program B)
      → IsBounded P m
      → ((a : A) → P a → IsBounded Q (f a))
      → IsBounded Q (m >>= f)
  IsBounded->>= P Q (done a) f s t = t a s
  IsBounded->>= P Q aborted f s t = tt
  IsBounded->>= P Q out_of_fuel f s t = tt
  IsBounded->>= P Q (reading b i k) f (hb, hi, s) t =
      (hb, hi, λ w. IsBounded->>= P Q (k w) f (s w) t)
  IsBounded->>= P Q (comparing b i expected desired k) f (hb, hi, s) t =
      (hb, hi, λ r. IsBounded->>= P Q (k r) f (s r) t)
  IsBounded->>= P Q (marking p index tid k) f (hi, ht, s) t = (hi, ht, IsBounded->>= P Q k f s t)
  IsBounded->>= P Q (dereferencing p k) f s t = λ str. IsBounded->>= P Q (k str) f (s str) t
  IsBounded->>= P Q (allocating str k) f s t = λ p. IsBounded->>= P Q (k p) f (s p) t
  IsBounded->>= P Q (retiring p tid k) f (ht, s) t = (ht, IsBounded->>= P Q k f s t)

  pub IsBounded-if :
      {A : Type 0} (c : Bool) (x y : Program A) (P : A → Type 0)
      → (c ≡ true → IsBounded P x)
      → (c ≡ false → IsBounded P y)
      → IsBounded P (if c then x else y)
  IsBounded-if true x y P s t = s refl
  IsBounded-if false x y P s t = t refl

  -- What follows `create_pointer`, which may abort
  pub IsBounded-created :
      {A : Type 0} (c p : ℕ) (m : Bool) (f : TablePointer → Program A) (P : A → Type 0)
      → ((w : TablePointer) → IsBounded P (f w))
      → IsBounded P (or_abort (create_pointer c p m) >>= f)
  IsBounded-created c p m f P t = elim (Option-cases (create_pointer c p m)) [
    | inl e ↦ rw e tt
    | inr (w, e) ↦ rw e (t w)
  ]

-- Each index of the list is below `n`.
abbrev pub AllBelow : ℕ → List ℕ → Type 0
AllBelow n [] = Unit
AllBelow n (x ∷ xs) = (x < n) × AllBelow n xs
