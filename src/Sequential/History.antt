-- ===== src/Sequential/History.antt =====
-- Sequences of calls against a specification that knows no table: a bag of fingerprints, each with
-- the name of its pair of buckets.
use lock_free_cuckoo_filter.Prelude.{
  ℕ, ◌+◌, ◌-◌, ◌%◌, ◌≡◌, ◌≢◌, refl, sym, ap, ap₂, ◌∙◌, [], ◌∷◌, Bool, true, false, Option, none,
  some, List, ltb, if◌then◌else◌, arith,
}
use mathlib.Core.Path.{subst}
use lock_free_cuckoo_filter.Hash.{Digest, jenkins_hash, md5_fingerprint}
use lock_free_cuckoo_filter.Table.{Fingerprint}
use lock_free_cuckoo_filter.Table.Copies.{pair_of, counts, counts-empty}
use lock_free_cuckoo_filter.Sequential.{SequentialFilter, insert, find, remove}
use lock_free_cuckoo_filter.Sequential.Insert.{insert-Inserted}
use lock_free_cuckoo_filter.Sequential.Lookup.{find_lem}
use lock_free_cuckoo_filter.Sequential.Remove.{remove-Removed}
use lock_free_cuckoo_filter.Sequential.Valid.{
  IsValid, stored, stored_for, key_pair, md5_fingerprint_nonempty,
}

-- A call, with the random numbers that an insertion may draw.
pub data Call : Type 0 where
  inserting : (ℕ → ℕ) → List ℕ → Call
  finding : List ℕ → Call
  removing : List ℕ → Call

unfoldable pub call : Digest → Call → SequentialFilter → Option (Bool × SequentialFilter)
call d (inserting rand key) s = insert d rand key s
call d (finding key) s = find d key s
call d (removing key) s = remove d key s

-- The answers to a sequence of calls, and the filter after the last.
unfoldable pub run : Digest → List Call → SequentialFilter → Option (List Bool × SequentialFilter)
run d [] s = some ([], s)
run d (c ∷ cs) s = elim (call d c s) [
  | none ↦ none
  | some (answer, s') ↦ elim (run d cs s') [
    | none ↦ none
    | some (answers, last) ↦ some (answer ∷ answers, last)
  ]
]

-- How many copies of a fingerprint are in a pair of buckets.
abbrev pub Bag : Type 0
Bag = Fingerprint → ℕ → ℕ

-- One copy of the key's fingerprint in its pair, in a table of `n` buckets
abbrev pub single : ℕ → Digest → List ℕ → Bag
single n d key g p = counts n g p (jenkins_hash key % n) (md5_fingerprint d key)

-- How often the bag answers for a key.
abbrev pub multiplicity : ℕ → Digest → List ℕ → Bag → ℕ
multiplicity n d key bag =
    bag (md5_fingerprint d key) (pair_of n (jenkins_hash key % n) (md5_fingerprint d key))

-- What the filter promises: an insertion adds a copy, a removal takes one away if there is one, and
-- a search says if there is one.
unfoldable pub expect : ℕ → Digest → Call → Bag → Bool × Bag
expect n d (inserting rand key) bag = (true, λ g p. bag g p + single n d key g p)
expect n d (finding key) bag = (ltb 0 (multiplicity n d key bag), bag)
expect n d (removing key) bag =
    if ltb 0 (multiplicity n d key bag)
    then (true, λ g p. bag g p - single n d key g p)
    else (false, bag)

unfoldable pub expect_all : ℕ → Digest → List Call → Bag → List Bool
unfolding expect
expect_all n d [] bag = []
expect_all n d (c ∷ cs) bag = let r = expect n d c bag in r.0 ∷ expect_all n d cs r.1

-- No insertion answered false.
abbrev pub NoneFailed : List Call → List Bool → Type 0
NoneFailed (inserting rand key ∷ cs) (answer ∷ answers) = (answer ≡ true) × NoneFailed cs answers
NoneFailed (finding key ∷ cs) (answer ∷ answers) = NoneFailed cs answers
NoneFailed (removing key ∷ cs) (answer ∷ answers) = NoneFailed cs answers
NoneFailed _ _ = Unit

-- The filter stores what the bag holds.
abbrev pub Shows : SequentialFilter → Bag → Type 0
Shows s bag = (g : Fingerprint) (p : ℕ) → g ≢ [] → stored s g p ≡ bag g p

-- The call answered `answer` and left `s'`, as the specification says from `bag`.
pub record Follows (d : Digest) (c : Call) (s : SequentialFilter) (bag : Bag) (answer : Bool)
    (s' : SequentialFilter) : Type 0 where
  pub valid : IsValid s'
  pub same_size : s'.table_size ≡ s.table_size
  pub agrees : NoneFailed (c ∷ []) (answer ∷ []) → answer ≡ (expect s.table_size d c bag).0
  pub shows : NoneFailed (c ∷ []) (answer ∷ []) → Shows s' (expect s.table_size d c bag).1

pub call-Follows :
    (d : Digest) (c : Call) (s : SequentialFilter) (bag : Bag)
    → IsValid s
    → Shows s bag
    → (answer : Bool) × (s' : SequentialFilter) × (call d c s ≡ some (answer, s'))
      × Follows d c s bag answer s'
unfolding call expect
call-Follows d (inserting rand key) s bag v h =
    let (answer, s', e, x) = insert-Inserted d rand key s v in
    (
      answer,
      s',
      e,
      record {
        valid = x.valid;
        same_size = x.same_size;
        agrees = λ ok. ok.0;
        shows = λ ok g p hg. omega (
          arith,
          x.balance g p hg,
          h g p hg,
          counts-empty s.table_size g p x.place hg,
          ap (counts s.table_size g p x.place) (x.none_lost ok.0),
        );
      },
    )
call-Follows d (finding key) s bag v h = (
  ltb 0 (stored_for d s key),
  s,
  find_lem d key s v,
  record {
    valid = v;
    same_size = refl;
    agrees = λ _.
        ap (ltb 0) (h (md5_fingerprint d key) (key_pair d s key) (md5_fingerprint_nonempty d key));
    shows = λ _. h;
  },
)
call-Follows d (removing key) s bag v h =
    let (answer, s', e, x) = remove-Removed d key s v in
    (
      answer,
      s',
      e,
      record {
        valid = x.valid;
        same_size = x.same_size;
        agrees = λ _. ground (arith, x.answer, same);
        shows = λ _ g p hg. ground (arith, x.balance g p hg, h g p hg, x.answer, same);
      },
    )
  where
    same : stored_for d s key ≡ multiplicity s.table_size d key bag
    same = h (md5_fingerprint d key) (key_pair d s key) (md5_fingerprint_nonempty d key)

head_failed :
    (c : Call) (cs : List Call) (answer : Bool) (answers : List Bool)
    → NoneFailed (c ∷ cs) (answer ∷ answers)
    → NoneFailed (c ∷ []) (answer ∷ []) × NoneFailed cs answers
head_failed (inserting rand key) cs answer answers h = ((h.0, tt), h.1)
head_failed (finding key) cs answer answers h = (tt, h)
head_failed (removing key) cs answer answers h = (tt, h)

run_cons :
    (d : Digest) (c : Call) (cs : List Call) (s : SequentialFilter) {s' last : SequentialFilter}
    {answer : Bool} {answers : List Bool}
    → call d c s ≡ some (answer, s')
    → run d cs s' ≡ some (answers, last)
    → run d (c ∷ cs) s ≡ some (answer ∷ answers, last)
unfolding run
run_cons d c cs s e e' = rw (e, e', run)

pub run_total :
    (d : Digest) (cs : List Call) (s : SequentialFilter)
    → IsValid s
    → (answers : List Bool) × (last : SequentialFilter) × (run d cs s ≡ some (answers, last))
      × IsValid last
      × (last.table_size ≡ s.table_size)
unfolding run
run_total d [] s v = ([], s, refl, v, refl)
run_total d (c ∷ cs) s v =
    let (answer, s', e, x) = call-Follows d c s (stored s) v (λ g p _. refl) in
    let (answers, last, e', v', size) = run_total d cs s' x.valid in
    (answer ∷ answers, last, run_cons d c cs s e e', v', size ∙ x.same_size)

answers_eq :
    {answers answers' : List Bool} {last last' : SequentialFilter}
    → ◌≡◌ {A = Option (List Bool × SequentialFilter)}
        (some (answers, last))
        (some (answers', last'))
    → answers ≡ answers'
answers_eq {answers} e = ap (λ (o : Option (List Bool × SequentialFilter)). first o) e
  where
    first : Option (List Bool × SequentialFilter) → List Bool
    first none = answers
    first (some (xs, l)) = xs

-- Refinement: from a valid sequential filter that stores what a bag holds, a sequence of insert,
-- find and remove calls in which no insertion answered false gives the answers that the bag
-- specification gives.
pub run-expect_all :
    (d : Digest) (cs : List Call) (s : SequentialFilter) (bag : Bag) (answers : List Bool)
    (last : SequentialFilter)
    → IsValid s
    → Shows s bag
    → run d cs s ≡ some (answers, last)
    → NoneFailed cs answers
    → answers ≡ expect_all s.table_size d cs bag
unfolding run expect_all
run-expect_all d [] s bag answers last v h e ok = sym (answers_eq e)
run-expect_all d (c ∷ cs) s bag answers last v h e ok =
    let (answer, s', e₁, x) = call-Follows d c s bag v h in
    let (rest, last', e₂, v', size') = run_total d cs s' x.valid in
    let same : answer ∷ rest ≡ answers = answers_eq (sym (run_cons d c cs s e₁ e₂) ∙ e) in
    let ok' = head_failed c cs answer rest (subst (NoneFailed (c ∷ cs)) (sym same) ok) in
    let tail =
      run-expect_all d cs s' (expect s.table_size d c bag).1 rest last' x.valid (x.shows ok'.0) e₂
        ok'.1 in
    sym same
    ∙ ap₂ ◌∷◌ (x.agrees ok'.0)
        (tail ∙ ap (λ (n : ℕ). expect_all n d cs (expect s.table_size d c bag).1) x.same_size)
