-- ===== src/LockFree/Alone/Removal.antt =====
-- `remove` of cuckoo_filter/lock_free_filter.cpp, run alone.
use lock_free_cuckoo_filter.Prelude.{
  ℕ, suc, ◌+◌, ◌%◌, ◌^◌, ◌<◌, ◌≡◌, ◌≢◌, ◌⊎◌, inl, inr, refl, sym, ap, ◌∙◌, Bool, true, false, some,
  List, [], ◌∷◌, ◌++◌, get_or, set, ltb, if◌then◌else◌, arith,
}
use native.Mathlib.Nat.{mod-lt}
use lock_free_cuckoo_filter.Common.{num_items_per_entry}
use lock_free_cuckoo_filter.Hash.{Digest, jenkins_hash, md5_fingerprint}
use lock_free_cuckoo_filter.Index.Partner.{next_index-lt}
use lock_free_cuckoo_filter.Pointer.{TablePointer, get_counter, get_real_pointer, create_pointer}
use lock_free_cuckoo_filter.Table.{Fingerprint, write}
use lock_free_cuckoo_filter.Table.Copies.{partner, pair_of, counts, copies}
use lock_free_cuckoo_filter.Table.Weigh.{weigh}
use lock_free_cuckoo_filter.Sequential.Valid.{
  IsPower, IsPower-pos, md5_fingerprint_nonempty, counts-IsFair,
}
use lock_free_cuckoo_filter.LockFree.Program.{Address, mark_hazard, clear_hazard}
use lock_free_cuckoo_filter.LockFree.Memory.{
  Memory, word_at, store_word, store_hazard, push_retired, returned, run,
}
use lock_free_cuckoo_filter.LockFree.Relocate.{get_next_hash_index}
use lock_free_cuckoo_filter.LockFree.Methods.{find_pointer, remove_rounds, remove}
use lock_free_cuckoo_filter.LockFree.Alone.Still.{still, run_from_still}
use lock_free_cuckoo_filter.LockFree.Alone.Search.{matches, first_match}
use lock_free_cuckoo_filter.LockFree.Alone.Find.{
  Stores, matches-true, Found, first_match-Found, Found-Located,
}
use lock_free_cuckoo_filter.LockFree.Alone.Contents.{
  contents, contents-IsShaped, contents-store_word, IsSteady, store_word-IsSteady, still-IsSteady,
  still-contents, still-fresh, print_at,
}
use lock_free_cuckoo_filter.LockFree.Alone.Insert.{create_pointer-counter}
use lock_free_cuckoo_filter.LockFree.Alone.Stores.{made_fields}
use lock_free_cuckoo_filter.LockFree.Alone.Held.{weigh-cleared, Stores-slot}
use lock_free_cuckoo_filter.LockFree.Alone.Contract.{held}
use lock_free_cuckoo_filter.LockFree.Alone.Answers.{Located-held}
use lock_free_cuckoo_filter.LockFree.Alone.RemoveRounds.{
  find_pointer-still, remove_rounds-miss, remove_rounds-hit,
}

-- What a removal did, alone.
pub record Removed (n c tid : ℕ) (d : Digest) (key : List ℕ) (m : Memory) (answer : Bool)
    (m' : Memory) : Type 0 where
  pub steady : IsSteady n c m'
  pub balance :
      (g : Fingerprint) (p : ℕ)
      → g ≢ []
      → held n m' g p
          + (if answer then counts n g p (jenkins_hash key % n) (md5_fingerprint d key) else 0)
        ≡ held n m g p
  pub retires :
      answer ≡ true
      → (p : Address) × (m.heap p ≡ some (md5_fingerprint d key))
        × (m'.retired_ptrs ≡ set m.retired_ptrs tid (get_or m.retired_ptrs tid [] ++ p ∷ []))
  pub next_entry : m'.fresh ≡ m.fresh

module _ {n c : ℕ} (tid : ℕ) (d : Digest) (key : List ℕ) (m : Memory) (pw : IsPower n)
    (s : IsSteady n c m) (low : c < 2 ^ 16) where
  abbrev print : Fingerprint
  print = md5_fingerprint d key

  abbrev hash1 : ℕ
  hash1 = jenkins_hash key % n

  hash1-lt : hash1 < n
  hash1-lt = mod-lt (jenkins_hash key) (IsPower-pos pw)

  -- The memory after an item was found in slot `i` of `b` and replaced by the word `w`
  abbrev cleared : (b i : ℕ) → TablePointer → Memory
  cleared b i w = push_retired (store_word m b i w) (get_real_pointer (word_at m b i)) tid

  cleared-Removed :
      (b i : ℕ) (w : TablePointer)
      → (b ≡ hash1) ⊎ (b ≡ partner n hash1 print)
      → i < num_items_per_entry
      → Stores m print b i
      → create_pointer (get_counter (word_at m b i)) 0 false ≡ some w
      → Removed n c tid d key m true (cleared b i w)
  unfolding push_retired store_word word_at copies print_at
  cleared-Removed b i w which hi there made =
      let (fits, count, ptr, mark) =
        made_fields (get_counter (word_at m b i)) 0 false w
          (omega (arith, (s.words b i).counter, low)) (omega arith, omega arith) made in
      let stored = store_word-IsSteady m b i w s (record {
        fits = fits;
        unmarked = mark;
        counter = omega (arith, count, (s.words b i).counter);
        target = inl ptr;
      }) in
      let hb : b < n = elim which [
        | inl e ↦ omega (arith, e, hash1-lt)
        | inr e ↦ omega (arith, e, next_index-lt n hash1 (jenkins_hash print) (IsPower-pos pw))
      ] in
      let table =
        contents-store_word m b i w ∙ ap (λ p. write (contents m) b i (print_at m.heap p)) ptr in
      record {
        steady = record {
          grid = stored.grid;
          words = stored.words;
          pos = stored.pos;
          even = stored.even;
        };
        balance = λ g p hg.
            ap (λ t. weigh (counts n g p) t + counts n g p hash1 print) table
            ∙ weigh-cleared pw (contents m) (contents-IsShaped m s.grid) hash1 hash1-lt print
                (md5_fingerprint_nonempty d key) (counts n g p) b i (counts-IsFair g p pw hg) which
                hb hi (Stores-slot m print b i s there);
        retires = λ _. (get_real_pointer (word_at m b i), there.1, refl);
        next_entry = refl;
      }

  remove-rounds :
      (fuel : ℕ)
      → run (remove n tid (suc fuel) d key) (still m)
        ≡ run
            (remove_rounds n tid (suc fuel) (suc fuel) d key hash1 (partner n hash1 print) 0)
            (still m)
  unfolding run remove clear_hazard mark_hazard store_hazard get_next_hash_index
  remove-rounds fuel = refl

  -- How a removal ends in a memory without hazard pointers
  abbrev Ends : ℕ → Type 0
  Ends fuel =
      (answer : Bool) × (m' : Memory) × (run (remove n tid (suc fuel) d key) (still m)
        ≡ returned answer (still m'))
      × (answer ≡ ltb 0 (held n m print (pair_of n hash1 print)))
      × Removed n c tid d key m answer m'

  ends_found :
      (fuel location b i : ℕ)
      → run (find_pointer n tid (suc fuel) d key 0) (still m)
        ≡ returned (location, word_at m b i) (still m)
      → (b ≡ hash1) ⊎ (b ≡ partner n hash1 print)
      → (if ltb location num_items_per_entry then hash1 else partner n hash1 print) ≡ b
      → location % num_items_per_entry ≡ i
      → location < 8
      → ltb 0 (held n m print (pair_of n hash1 print)) ≡ true
      → matches m.heap print (word_at m b i) ≡ true
      → Ends fuel
  unfolding push_retired store_word word_at
  ends_found fuel location b i e which bucket place lt some_held match =
      let (w, made) = create_pointer-counter (word_at m b i) 0 in
      (
        true,
        cleared b i w,
        remove-rounds fuel
            ∙ remove_rounds-hit n tid fuel (suc fuel) d key hash1 (partner n hash1 print) 0
                (still m) location (word_at m b i) e b i w lt bucket place made refl,
        sym some_held,
        cleared-Removed b i w which (omega (arith, place))
            (matches-true m.heap print (word_at m b i) match) made,
      )

  ends_missed :
      (fuel location : ℕ) (pointer : TablePointer)
      → run (find_pointer n tid (suc fuel) d key 0) (still m)
        ≡ returned (location, pointer) (still m)
      → location ≡ 8
      → ltb 0 (held n m print (pair_of n hash1 print)) ≡ false
      → Ends fuel
  ends_missed fuel location pointer e end none_held = (
    false,
    m,
    remove-rounds fuel
        ∙ remove_rounds-miss n tid fuel (suc fuel) d key hash1 (partner n hash1 print) 0 (still m)
            location pointer e end,
    sym none_held,
    record { steady = s; balance = λ g p hg. omega arith; retires = λ e. cc; next_entry = refl },
  )

  ends : (fuel : ℕ) → Ends fuel
  unfolding Found
  ends fuel =
      let hash2 = partner n hash1 print in
      let r = first_match m print hash1 hash2 4 0 0 in
      let e = find_pointer-still tid fuel d key m s in
      let found = first_match-Found m print hash1 hash2 4 0 0 in
      let linked =
        Located-held m pw s hash1 hash1-lt print (md5_fingerprint_nonempty d key) r.0
          (Found-Located m print hash1 hash2 r.0 r.1 found) in
      elim found [
        | inl (end, none_there) ↦
            let missed : ltb r.0 8 ≡ false = ground arith in
            ends_missed fuel r.0 r.1 e end (sym linked ∙ missed)
        | inr (i, lo, hi, inl (at, same, match)) ↦
            let first : ltb r.0 num_items_per_entry ≡ true = ground arith in
            let inside : ltb r.0 8 ≡ true = ground arith in
            ends_found fuel r.0 hash1 i
              (e ∙ ap (λ (p : TablePointer). returned (r.0, p) (still m)) same) (inl refl)
              (rw first refl) (omega (arith, at, hi)) (omega (arith, at, hi)) (sym linked ∙ inside)
              match
        | inr (i, lo, hi, inr (at, same, match)) ↦
            let second : ltb r.0 num_items_per_entry ≡ false = ground arith in
            let inside : ltb r.0 8 ≡ true = ground arith in
            ends_found fuel r.0 hash2 i
              (e ∙ ap (λ (p : TablePointer). returned (r.0, p) (still m)) same) (inr refl)
              (rw second refl) (omega (arith, at, hi)) (omega (arith, at, hi)) (sym linked ∙ inside)
              match
      ]

-- remove of a thread that runs alone, with one unit of fuel or more, on a steady lock-free filter
-- whose size is a power of two below 2^31 and whose counters are 16-bit numbers returns whether the
-- table held a copy of the key's fingerprint in the key's pair; if so exactly that number of copies
-- is lower by one and the address of an entry with the fingerprint is appended to the thread's
-- retired pointers, and otherwise no number of copies has changed; the filter is steady.
pub remove-Removed :
    {n c : ℕ} (tid fuel : ℕ) (d : Digest) (key : List ℕ) (m : Memory)
    → IsPower n
    → IsSteady n c m
    → c < 2 ^ 16
    → let f = md5_fingerprint d key in
      (answer : Bool) × (m' : Memory) × (run (remove n tid (suc fuel) d key) m ≡ returned answer m')
      × (answer ≡ ltb 0 (held n m f (pair_of n (jenkins_hash key % n) f)))
      × Removed n c tid d key m answer m'
unfolding copies
remove-Removed {n} {c} tid fuel d key m pw s low =
    let (answer, m₁, e, says, x) = ends tid d key m pw s low fuel in
    let (last, e', same) = run_from_still (remove n tid (suc fuel) d key) m (still m₁) answer e in
    (
      answer,
      last,
      e',
      says,
      record {
        steady = still-IsSteady m₁ last same x.steady;
        balance = λ g p hg.
            ap
              (λ t.
                weigh (counts n g p) t
                + (if answer
                    then counts n g p (jenkins_hash key % n) (md5_fingerprint d key)
                    else 0))
              (still-contents m₁ last same)
            ∙ x.balance g p hg;
        retires = λ a.
            let (p, live, added) = x.retires a in
            (p, live, ap (λ (y : Memory). y.retired_ptrs) same ∙ added);
        next_entry = still-fresh m₁ last same ∙ x.next_entry;
      },
    )
