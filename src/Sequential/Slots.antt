-- ===== src/Sequential/Slots.antt =====
-- What the three loops over the slots of one bucket find and change.
use native.Mathlib.Decide.{ℕ_discrete}
use lock_free_cuckoo_filter.Prelude.{
  ℕ, zero, suc, ◌+◌, ◌≤◌, ◌<◌, ◌≡◌, ◌≢◌, refl, ap, ◌∙◌, true, false, inl, inr, none, some, [], ◌∷◌,
  is_empty, str_eq, str_eq_iff, Bool-cases, arith, length, ◌==◌, not, ◌&&◌,
}
use lock_free_cuckoo_filter.Table.{Fingerprint, HashTable, slot, write}
use lock_free_cuckoo_filter.Sequential.{fill_loop, find_loop, clear_loop}

pub is_empty-eq : (f : Fingerprint) → is_empty f ≡ true → f ≡ []
is_empty-eq [] h = refl
is_empty-eq (x ∷ f) h = cc

not_empty : (f : Fingerprint) → is_empty f ≡ false → f ≢ []
not_empty [] h e = cc
not_empty (x ∷ f) h e = cc

-- Slot `index` of bucket `b` holds `old`, and `t'` is the table with `new` there.
pub record Changed (k i b : ℕ) (old new : Fingerprint) (t t' : HashTable) : Type 0 where
  pub index : ℕ
  pub low : i ≤ index
  pub high : index < i + k
  pub before : slot t b index ≡ old
  pub after : t' ≡ write t b index new

pub fill_loop-some :
    (k i b : ℕ) (f : Fingerprint) (t t' : HashTable)
    → fill_loop k i b f t ≡ some t'
    → Changed k i b [] f t t'
unfolding fill_loop
fill_loop-some zero i b f t t' e = cc
fill_loop-some (suc k) i b f t t' e = elim (Bool-cases (is_empty (slot t b i))) [
  | inl free ↦ record {
    index = i;
    low = omega arith;
    high = omega arith;
    before = is_empty-eq (slot t b i) free;
    after = ground arith;
  }
  | inr taken ↦
      let r = fill_loop-some k (suc i) b f t t' (rw taken at e) in
      record {
        index = r.index;
        low = omega (arith, r.low);
        high = omega (arith, r.high);
        before = r.before;
        after = r.after;
      }
]

pub fill_loop-none :
    (k i b : ℕ) (f : Fingerprint) (t : HashTable)
    → fill_loop k i b f t ≡ none
    → (j : ℕ) → i ≤ j
    → j < i + k
    → slot t b j ≢ []
unfolding fill_loop
fill_loop-none zero i b f t e j low high = absurd (omega arith)
fill_loop-none (suc k) i b f t e j low high = elim (Bool-cases (is_empty (slot t b i))) [
  | inl free ↦ absurd (ground arith)
  | inr taken ↦ elim (ℕ_discrete i j) [
    | yes here ↦ λ q. not_empty (slot t b i) taken (ap (slot t b) here ∙ q)
    | no further ↦ fill_loop-none k (suc i) b f t (rw taken at e) j (omega arith) (omega arith)
  ]
]

-- A slot in the range of the loop that holds the fingerprint.
pub record Found (k i b : ℕ) (f : Fingerprint) (t : HashTable) : Type 0 where
  pub index : ℕ
  pub low : i ≤ index
  pub high : index < i + k
  pub holds : slot t b index ≡ f

pub find_loop-true :
    (k i b : ℕ) (f : Fingerprint) (t : HashTable) → find_loop k i b f t ≡ true → Found k i b f t
unfolding find_loop
find_loop-true zero i b f t e = cc
find_loop-true (suc k) i b f t e = elim (Bool-cases (str_eq (slot t b i) f)) [
  | inl here ↦ record {
    index = i;
    low = omega arith;
    high = omega arith;
    holds = (str_eq_iff (slot t b i) f).0 here;
  }
  | inr there ↦
      let r = find_loop-true k (suc i) b f t (rw there at e) in
      record {
        index = r.index;
        low = omega (arith, r.low);
        high = omega (arith, r.high);
        holds = r.holds;
      }
]

pub find_loop-false :
    (k i b : ℕ) (f : Fingerprint) (t : HashTable)
    → find_loop k i b f t ≡ false
    → (j : ℕ) → i ≤ j
    → j < i + k
    → slot t b j ≢ f
unfolding find_loop
find_loop-false zero i b f t e j low high = absurd (omega arith)
find_loop-false (suc k) i b f t e j low high = elim (Bool-cases (str_eq (slot t b i) f)) [
  | inl here ↦ absurd (ground arith)
  | inr there ↦ elim (ℕ_discrete i j) [
    | yes same ↦ λ q. ground (arith, (str_eq_iff (slot t b i) f).1 (ap (slot t b) same ∙ q))
    | no further ↦ find_loop-false k (suc i) b f t (rw there at e) j (omega arith) (omega arith)
  ]
]

nonempty_test : (g f : Fingerprint) → f ≢ [] → (not (length g == 0) && str_eq g f) ≡ str_eq g f
unfolding str_eq
nonempty_test [] [] h = absurd (h refl)
nonempty_test [] (x ∷ f) h = refl
nonempty_test (y ∷ g) f h = ground arith

pub clear_loop-some :
    (k i b : ℕ) (f : Fingerprint) (t t' : HashTable)
    → f ≢ []
    → clear_loop k i b f t ≡ some t'
    → Changed k i b f [] t t'
unfolding clear_loop
clear_loop-some zero i b f t t' h e = cc
clear_loop-some (suc k) i b f t t' h e = elim (Bool-cases (str_eq (slot t b i) f)) [
  | inl here ↦ record {
    index = i;
    low = omega arith;
    high = omega arith;
    before = (str_eq_iff (slot t b i) f).0 here;
    after = ground (arith, nonempty_test (slot t b i) f h);
  }
  | inr there ↦
      let r =
        clear_loop-some k (suc i) b f t t' h (rw (nonempty_test (slot t b i) f h, there) at e) in
      record {
        index = r.index;
        low = omega (arith, r.low);
        high = omega (arith, r.high);
        before = r.before;
        after = r.after;
      }
]

pub clear_loop-none :
    (k i b : ℕ) (f : Fingerprint) (t : HashTable)
    → f ≢ []
    → clear_loop k i b f t ≡ none
    → find_loop k i b f t ≡ false
unfolding clear_loop find_loop
clear_loop-none zero i b f t h e = refl
clear_loop-none (suc k) i b f t h e =
    ground (arith, nonempty_test (slot t b i) f h, clear_loop-none k (suc i) b f t h)
