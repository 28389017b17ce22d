-- ===== src/LockFree/Safety/Guarded.antt =====
-- Programs that dereference only live addresses and store only good words, whatever the other
-- threads do meanwhile: they may change every word of the table to another good word, and may
-- allocate entries.
use lock_free_cuckoo_filter.Prelude.{
  ℕ, ◌≡◌, ◌⊎◌, inl, inr, refl, Bool, true, false, Option-cases, if◌then◌else◌,
}
use lock_free_cuckoo_filter.Pointer.Fields.{IsAddress}
use lock_free_cuckoo_filter.Pointer.{TablePointer, create_pointer}
use lock_free_cuckoo_filter.Table.{Fingerprint}
use lock_free_cuckoo_filter.LockFree.Program.{
  Address, Program, done, aborted, out_of_fuel, reading, comparing, marking, dereferencing,
  allocating, retiring, ◌>>=◌, or_abort,
}
use lock_free_cuckoo_filter.LockFree.Safety.Words.{
  Heap, IsLive, Grows, IsGood, IsGood-Grows, create_pointer-IsGood,
}

-- An address that `new` may return.
abbrev pub IsFresh : Heap → Address → Type 0
IsFresh h p = IsAddress p × IsLive h p

abbrev pub IsGuarded : {A : Type 0} → (Heap → A → Type 0) → Heap → Program A → Type 0
IsGuarded P h (done a) = P h a
IsGuarded P h aborted = Unit
IsGuarded P h out_of_fuel = Unit
IsGuarded P h (reading b i k) =
    (h' : Heap) → Grows h h' → (w : TablePointer) → IsGood h' w → IsGuarded P h' (k w)
IsGuarded P h (comparing b i expected desired k) =
    IsGood h desired × ((h' : Heap) → Grows h h' → (r : Bool) → IsGuarded P h' (k r))
IsGuarded P h (marking p index tid k) = IsGuarded P h k
IsGuarded P h (dereferencing p k) =
    IsLive h p × ((h' : Heap) → Grows h h' → (s : Fingerprint) → IsGuarded P h' (k s))
IsGuarded P h (allocating s k) =
    (h' : Heap) → Grows h h' → (p : Address) → IsFresh h' p → IsGuarded P h' (k p)
IsGuarded P h (retiring p tid k) = IsGuarded P h k

-- No condition on the result.
abbrev pub Any : {A : Type 0} → Heap → A → Type 0
Any h a = Unit

pub Grows-refl : (h : Heap) → Grows h h
Grows-refl h p live = live

pub Grows-trans : {h h' h'' : Heap} → Grows h h' → Grows h' h'' → Grows h h''
Grows-trans g g' p live = g' p (g p live)

pub IsGuarded-Grows :
    {A : Type 0} (m : Program A) (h h' : Heap) → Grows h h' → IsGuarded Any h m → IsGuarded Any h' m
IsGuarded-Grows (done a) h h' g s = tt
IsGuarded-Grows aborted h h' g s = tt
IsGuarded-Grows out_of_fuel h h' g s = tt
IsGuarded-Grows (reading b i k) h h' g s = λ h'' g'. s h'' (λ p live. g' p (g p live))
IsGuarded-Grows (comparing b i expected desired k) h h' g s =
    (IsGood-Grows {h = h} {h' = h'} g s.0, λ h'' g'. s.1 h'' (λ p live. g' p (g p live)))
IsGuarded-Grows (marking p index tid k) h h' g s = IsGuarded-Grows k h h' g s
IsGuarded-Grows (dereferencing p k) h h' g s =
    (g p s.0, λ h'' g'. s.1 h'' (λ p live. g' p (g p live)))
IsGuarded-Grows (allocating str k) h h' g s = λ h'' g'. s h'' (λ p live. g' p (g p live))
IsGuarded-Grows (retiring p tid k) h h' g s = IsGuarded-Grows k h h' g s

-- What goes on after a guarded program is guarded, if it is for every result, in every later heap.
pub IsGuarded->>= :
    {A B : Type 0} (P : Heap → A → Type 0) (Q : Heap → B → Type 0) (m : Program A)
    (f : A → Program B) (h : Heap)
    → IsGuarded P h m
    → ((h' : Heap) → Grows h h' → (a : A) → P h' a → IsGuarded Q h' (f a))
    → IsGuarded Q h (m >>= f)
IsGuarded->>= P Q (done a) f h s t = t h (λ p live. live) a s
IsGuarded->>= P Q aborted f h s t = tt
IsGuarded->>= P Q out_of_fuel f h s t = tt
IsGuarded->>= P Q (reading b i k) f h s t = λ h' g w good.
    IsGuarded->>= P Q (k w) f h' (s h' g w good) (λ h'' g'. t h'' (λ p live. g' p (g p live)))
IsGuarded->>= P Q (comparing b i expected desired k) f h s t = (
  s.0,
  λ h' g r. IsGuarded->>= P Q (k r) f h' (s.1 h' g r) (λ h'' g'. t h'' (λ p live. g' p (g p live))),
)
IsGuarded->>= P Q (marking p index tid k) f h s t = IsGuarded->>= P Q k f h s t
IsGuarded->>= P Q (dereferencing p k) f h s t = (
  s.0,
  λ h' g str.
      IsGuarded->>= P Q (k str) f h' (s.1 h' g str) (λ h'' g'. t h'' (λ p live. g' p (g p live))),
)
IsGuarded->>= P Q (allocating str k) f h s t = λ h' g p fresh.
    IsGuarded->>= P Q (k p) f h' (s h' g p fresh) (λ h'' g'. t h'' (λ p live. g' p (g p live)))
IsGuarded->>= P Q (retiring p tid k) f h s t = IsGuarded->>= P Q k f h s t

-- A branch may use its test.
pub IsGuarded-if :
    {A : Type 0} (c : Bool) (x y : Program A) (P : Heap → A → Type 0) (h : Heap)
    → (c ≡ true → IsGuarded P h x)
    → (c ≡ false → IsGuarded P h y)
    → IsGuarded P h (if c then x else y)
IsGuarded-if true x y P h s t = s refl
IsGuarded-if false x y P h s t = t refl

-- After `create_pointer` the program has a good word, or it has aborted.
pub IsGuarded-created :
    {A : Type 0} (c p : ℕ) (m : Bool) (f : TablePointer → Program A) (P : Heap → A → Type 0)
    (h : Heap)
    → IsAddress p
    → ((p ≡ 0) × (m ≡ false)) ⊎ IsLive h p
    → ((w : TablePointer) → IsGood h w → IsGuarded P h (f w))
    → IsGuarded P h (or_abort (create_pointer c p m) >>= f)
IsGuarded-created c p m f P h a target t = elim (Option-cases (create_pointer c p m)) [
  | inl e ↦ rw e tt
  | inr (w, e) ↦ rw e (t w (create_pointer-IsGood c p m w a target e))
]
