-- ===== src/Sequential/Contract.antt =====
-- What each method of the filter promises its caller, in terms of the stored copies.
use lock_free_cuckoo_filter.Prelude.{
  ℕ, ◌+◌, ◌≡◌, ◌≢◌, refl, sym, ap, ◌∙◌, Bool, true, false, Option, none, some, [], ◌∷◌, List, ltb,
  Bool-cases, inl, inr, ◌⊎◌, arith,
}
use mathlib.Core.Path.{subst₂}
use lock_free_cuckoo_filter.Hash.{Digest}
use lock_free_cuckoo_filter.Table.{Fingerprint}
use lock_free_cuckoo_filter.Table.Copies.{counts, counts-empty}
use lock_free_cuckoo_filter.Sequential.{SequentialFilter, insert, remove}
use lock_free_cuckoo_filter.Sequential.Insert.{Inserted, insert-Inserted}
use lock_free_cuckoo_filter.Sequential.Remove.{Removed, remove-Removed}
use lock_free_cuckoo_filter.Sequential.Valid.{IsValid, stored, stored_for, one_for}

module _ {done done' : Bool} {s s' : SequentialFilter} where
  done_eq :
      ◌≡◌ {A = Option (Bool × SequentialFilter)} (some (done, s)) (some (done', s')) → done ≡ done'
  done_eq e = ap pick e
    where
      pick : Option (Bool × SequentialFilter) → Bool
      pick none = done
      pick (some (x, y)) = x

  state_eq : ◌≡◌ {A = Option (Bool × SequentialFilter)} (some (done, s)) (some (done', s')) → s ≡ s'
  state_eq e = ap pick e
    where
      pick : Option (Bool × SequentialFilter) → SequentialFilter
      pick none = s
      pick (some (x, y)) = y

inserted :
    (d : Digest) (rand : ℕ → ℕ) (key : List ℕ) (s : SequentialFilter) (done : Bool)
    (s' : SequentialFilter)
    → IsValid s
    → insert d rand key s ≡ some (done, s')
    → Inserted d key s done s'
inserted d rand key s done s' v e =
    let (b, t, e', x) = insert-Inserted d rand key s v in
    subst₂ (Inserted d key s) (done_eq (sym e' ∙ e)) (state_eq (sym e' ∙ e)) x

-- An insertion into a valid filter that returned true added exactly one copy of the key's
-- fingerprint, in the key's pair of buckets, and changed the number of copies of no other
-- fingerprint in any pair, however many items were kicked.
pub insert-true :
    (d : Digest) (rand : ℕ → ℕ) (key : List ℕ) (s s' : SequentialFilter) (g : Fingerprint) (p : ℕ)
    → IsValid s
    → g ≢ []
    → insert d rand key s ≡ some (true, s')
    → stored s' g p ≡ stored s g p + one_for d s key g p
insert-true d rand key s s' g p v hg e =
    let x = inserted d rand key s true s' v e in
    omega (
      arith,
      x.balance g p hg,
      ap (counts s.table_size g p x.place) (x.none_lost refl),
      counts-empty s.table_size g p x.place hg,
    )

-- An insertion into a valid filter that returned false has also added a copy of the key's
-- fingerprint, and has dropped one copy of one non-empty fingerprint.
pub insert-false :
    (d : Digest) (rand : ℕ → ℕ) (key : List ℕ) (s s' : SequentialFilter)
    → IsValid s
    → insert d rand key s ≡ some (false, s')
    → (victim : Fingerprint) × (place : ℕ) × (victim ≢ [])
      × ((x : ℕ) (g : Fingerprint) (p : ℕ)
          → stored s' (x ∷ g) p + counts s.table_size (x ∷ g) p place victim
            ≡ stored s (x ∷ g) p + one_for d s key (x ∷ g) p)
insert-false d rand key s s' v e =
    let x = inserted d rand key s false s' v e in
    (x.victim, x.place, x.one_lost refl, λ y g p. x.balance (y ∷ g) p (λ q. cc))

removed :
    (d : Digest) (key : List ℕ) (s : SequentialFilter) (done : Bool) (s' : SequentialFilter)
    → IsValid s
    → remove d key s ≡ some (done, s')
    → Removed d key s done s'
removed d key s done s' v e =
    let (b, t, e', x) = remove-Removed d key s v in
    subst₂ (Removed d key s) (done_eq (sym e' ∙ e)) (state_eq (sym e' ∙ e)) x

-- A removal from a valid filter that returned true took away exactly one copy of the key's
-- fingerprint, from the key's pair of buckets, and changed the number of copies of no other
-- fingerprint.
pub remove-true :
    (d : Digest) (key : List ℕ) (s s' : SequentialFilter) (g : Fingerprint) (p : ℕ)
    → IsValid s
    → g ≢ []
    → remove d key s ≡ some (true, s')
    → stored s' g p + one_for d s key g p ≡ stored s g p
remove-true d key s s' g p v hg e = (removed d key s true s' v e).balance g p hg

-- On a valid filter remove returns whether a copy of the key's fingerprint was stored in the key's
-- pair, and leaves a valid filter; where no copy was stored the filter is unchanged.
pub remove_answer :
    (d : Digest) (key : List ℕ) (s : SequentialFilter)
    → IsValid s
    → (s' : SequentialFilter) × (remove d key s ≡ some (ltb 0 (stored_for d s key), s'))
      × IsValid s'
      × ((stored_for d s key ≢ 0) ⊎ (s' ≡ s))
remove_answer d key s v =
    let (done, s', e, x) = remove-Removed d key s v in
    (
      s',
      e ∙ ap (λ (b : Bool). some (b, s')) x.answer,
      x.valid,
      elim (Bool-cases done) [
        | inl yes' ↦ inl (ground (arith, x.answer))
        | inr no' ↦ inr (x.unchanged no')
      ],
    )
