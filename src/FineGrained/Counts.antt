-- ===== src/FineGrained/Counts.antt =====
-- What a thread holds, as a mutex of cuckoo_filter/fine_grained_locked_filter.cpp counts it.
use lock_free_cuckoo_filter.Prelude.{
  ℕ, ◌+◌, ◌≡◌, ◌≢◌, refl, ap, ◌∙◌, ◌⊎◌, inl, inr, Bool, true, false, ◌==◌, if◌then◌else◌, bit,
  Bool-cases, ==_iff, arith,
}
use lock_free_cuckoo_filter.FineGrained.Memory.{SharedMutex, release}
use lock_free_cuckoo_filter.FineGrained.Discipline.{Held, nothing, sharing, owning, Holds, taken}
use lock_free_cuckoo_filter.FineGrained.Holders.{shares, owns, release-shares, release-owns}
use lock_free_cuckoo_filter.FineGrained.Threads.{update}

-- What a thread holds, as the mutex counts it
abbrev pub shares_of : Held → ℕ → ℕ
shares_of nothing m = 0
shares_of (sharing k) m = bit (k == m)
shares_of (owning k) m = 0

abbrev pub owns_of : Held → ℕ → ℕ
owns_of nothing m = 0
owns_of (sharing k) m = 0
owns_of (owning k) m = bit (k == m)

update_count :
    (count : Held → ℕ) (held : ℕ → Held) (tid j : ℕ) (h : Held) (a : ℕ)
    → (j ≡ tid → a ≡ count h)
    → (j ≢ tid → a ≡ count (held j))
    → a ≡ count (update held tid h j)
update_count count held tid j h a mine other = elim (Bool-cases (j == tid)) [
  | inl e ↦ rw e (mine ((==_iff j tid).0 e))
  | inr e ↦ rw e (other (ground arith))
]

-- The counts of a mutex that thread `tid`, which held nothing, has taken
pub taken_counts :
    (exclusive : Bool) (held : ℕ → Held) (tid m j a b : ℕ)
    → held tid ≡ nothing
    → a ≡ (if exclusive then 0 else bit (j == tid)) + shares_of (held j) m
    → b ≡ (if exclusive then bit (j == tid) else 0) + owns_of (held j) m
    → (a ≡ shares_of (update held tid (taken exclusive m) j) m)
      × (b ≡ owns_of (update held tid (taken exclusive m) j) m)
taken_counts exclusive held tid m j a b e ea eb = (
  update_count (λ h. shares_of h m) held tid j (taken exclusive m) a
      (λ same. shared exclusive same (free (λ h. shares_of h m) same) ea)
      (λ other.
        elim exclusive
            as (λ c.
              a ≡ (if c then 0 else bit (j == tid)) + shares_of (held j) m
              → a ≡ shares_of (held j) m) [
                | true ↦ λ q. omega (arith, q)
                | false ↦ λ q. ground arith
              ]
          ea),
  update_count (λ h. owns_of h m) held tid j (taken exclusive m) b
      (λ same. owned exclusive same (free (λ h. owns_of h m) same) eb)
      (λ other.
        elim exclusive
            as (λ c.
              b ≡ (if c then bit (j == tid) else 0) + owns_of (held j) m → b ≡ owns_of (held j) m) [
                | true ↦ λ q. ground arith
                | false ↦ λ q. omega (arith, q)
              ]
          eb),
)
  where
    free : (count : Held → ℕ) → j ≡ tid → count (held j) ≡ count nothing
    free count same = ap count (ap held same ∙ e)

    shared :
        (c : Bool)
        → j ≡ tid
        → shares_of (held j) m ≡ 0
        → a ≡ (if c then 0 else bit (j == tid)) + shares_of (held j) m
        → a ≡ shares_of (taken c m) m
    shared true same none_held ea = ground arith
    shared false same none_held ea = ground arith

    owned :
        (c : Bool)
        → j ≡ tid
        → owns_of (held j) m ≡ 0
        → b ≡ (if c then bit (j == tid) else 0) + owns_of (held j) m
        → b ≡ owns_of (taken c m) m
    owned true same none_held eb = ground arith
    owned false same none_held eb = ground arith

-- The counts of a mutex that thread `tid` has given back
pub given_counts :
    (held : ℕ → Held) (tid m j : ℕ) (x : SharedMutex)
    → Holds (held tid) m
    → ((k : ℕ) → (shares k x ≡ shares_of (held k) m) × (owns k x ≡ owns_of (held k) m))
    → (shares j (release tid x) ≡ shares_of (update held tid nothing j) m)
      × (owns j (release tid x) ≡ owns_of (update held tid nothing j) m)
given_counts held tid m j x h c = (
  update_count (λ h. shares_of h m) held tid j nothing (shares j (release tid x))
      (λ same. elim h [
        | inl e ↦ let q = as_sharer e in let u = mine_counts e same in ground arith
        | inr e ↦ let q = as_owner e in let u = mine_counts e same in ground arith
      ])
      (λ other. elim h [
        | inl e ↦ let q = as_sharer e in let u = (c j).0 in ground arith
        | inr e ↦ let q = as_owner e in q.0 ∙ (c j).0
      ]),
  update_count (λ h. owns_of h m) held tid j nothing (owns j (release tid x))
      (λ same. elim h [
        | inl e ↦ let q = as_sharer e in let u = mine_counts e same in ground arith
        | inr e ↦ let q = as_owner e in let u = mine_counts e same in ground arith
      ])
      (λ other. elim h [
        | inl e ↦ let q = as_sharer e in q.1 ∙ (c j).1
        | inr e ↦ let q = as_owner e in let u = (c j).1 in ground arith
      ]),
)
  where
    counts_of :
        {g : Held} → held tid ≡ g → (shares tid x ≡ shares_of g m) × (owns tid x ≡ owns_of g m)
    counts_of e = (
      (c tid).0 ∙ ap (λ (h : Held). shares_of h m) e,
      (c tid).1 ∙ ap (λ (h : Held). owns_of h m) e,
    )

    mine_counts :
        {g : Held}
        → held tid ≡ g
        → j ≡ tid
        → (shares j x ≡ shares_of g m) × (owns j x ≡ owns_of g m)
    mine_counts {g} e same = rw same (counts_of e)

    as_sharer :
        held tid ≡ sharing m
        → (bit (j == tid) + shares j (release tid x) ≡ shares j x)
          × (owns j (release tid x) ≡ owns j x)
    as_sharer e = let q = counts_of e in release-shares tid j x (ground arith)

    as_owner :
        held tid ≡ owning m
        → (shares j (release tid x) ≡ shares j x)
          × (bit (j == tid) + owns j (release tid x) ≡ owns j x)
    as_owner e = let q = counts_of e in release-owns tid j x (ground arith)

pub elsewhere :
    (h g : Held) (m k : ℕ)
    → ((h ≡ nothing) × ((g ≡ sharing m) ⊎ (g ≡ owning m)))
    → k ≢ m
    → (shares_of g k ≡ shares_of h k) × (owns_of g k ≡ owns_of h k)
elsewhere h g m k (e, inl e') differ = rw (e, e') (ground arith, refl)
elsewhere h g m k (e, inr e') differ = rw (e, e') (refl, ground arith)

pub taken-Holds : (c : Bool) (m : ℕ) → Holds (taken c m) m
taken-Holds true m = inr refl
taken-Holds false m = inl refl
