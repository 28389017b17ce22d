-- ===== src/LockFree/Alone/Contents.antt =====
-- The table of fingerprints that the words of cuckoo_filter/lock_free_filter.cpp stand for, and the
-- memories between the calls of a thread that runs alone.
use native.Mathlib.Decide.{ℕ_discrete}
use mathlib.Core.Path.{subst}
use lock_free_cuckoo_filter.Prelude.{
  ℕ, zero, suc, ◌%◌, ◌^◌, ◌<◌, ◌≤◌, ◌≡◌, ◌≢◌, ◌⊎◌, inl, inr, refl, sym, ap, ◌∙◌, false, none, some,
  List, [], ◌∷◌, ◌==◌, if◌then◌else◌, length, get_or, set, get_item-set_item, IsGrid,
  set_item-IsGrid, arith,
}
use lock_free_cuckoo_filter.Common.{num_items_per_entry}
use lock_free_cuckoo_filter.Pointer.{TablePointer, get_counter, get_real_pointer, get_marked}
use lock_free_cuckoo_filter.Table.{Fingerprint, HashTable, Bucket, slot, write, IsShaped}
use lock_free_cuckoo_filter.LockFree.Program.{Address}
use lock_free_cuckoo_filter.LockFree.Memory.{Memory, word_at, store_word}
use lock_free_cuckoo_filter.LockFree.Safety.Words.{Heap}
use lock_free_cuckoo_filter.LockFree.Alone.Still.{still}

-- The string of the entry at an address; the empty string for null.
unfoldable pub print_at : Heap → Address → Fingerprint
print_at heap p = if p == 0 then [] else elim (heap p) [ none ↦ [] | some str ↦ str ]

unfoldable pub row_contents : Heap → List TablePointer → Bucket
unfolding print_at
row_contents heap [] = []
row_contents heap (w ∷ ws) = print_at heap (get_real_pointer w) ∷ row_contents heap ws

unfoldable pub words_contents : Heap → List (List TablePointer) → HashTable
unfolding row_contents
words_contents heap [] = []
words_contents heap (r ∷ rs) = row_contents heap r ∷ words_contents heap rs

abbrev pub contents : Memory → HashTable
contents m = words_contents m.heap m.hash_table

null_print : (heap : Heap) → print_at heap (get_real_pointer 0) ≡ []
unfolding print_at get_real_pointer
null_print heap = refl

get_or-row_contents :
    (heap : Heap) (r : List TablePointer) (i : ℕ)
    → get_or (row_contents heap r) i [] ≡ print_at heap (get_real_pointer (get_or r i 0))
unfolding row_contents
get_or-row_contents heap [] i = sym (null_print heap)
get_or-row_contents heap (w ∷ r) zero = refl
get_or-row_contents heap (w ∷ r) (suc i) = get_or-row_contents heap r i

get_or-words_contents :
    (heap : Heap) (t : List (List TablePointer)) (b : ℕ)
    → get_or (words_contents heap t) b [] ≡ row_contents heap (get_or t b [])
unfolding words_contents row_contents
get_or-words_contents heap [] b = refl
get_or-words_contents heap (r ∷ t) zero = refl
get_or-words_contents heap (r ∷ t) (suc b) = get_or-words_contents heap t b

set-row_contents :
    (heap : Heap) (r : List TablePointer) (i : ℕ) (w : TablePointer)
    → row_contents heap (set r i w)
      ≡ set (row_contents heap r) i (print_at heap (get_real_pointer w))
unfolding row_contents
set-row_contents heap [] i w = refl
set-row_contents heap (x ∷ r) zero w = refl
set-row_contents heap (x ∷ r) (suc i) w =
    ap (λ (r' : Bucket). print_at heap (get_real_pointer x) ∷ r') (set-row_contents heap r i w)

set-words_contents :
    (heap : Heap) (t : List (List TablePointer)) (b : ℕ) (r : List TablePointer)
    → words_contents heap (set t b r) ≡ set (words_contents heap t) b (row_contents heap r)
unfolding words_contents
set-words_contents heap [] b r = refl
set-words_contents heap (x ∷ t) zero r = refl
set-words_contents heap (x ∷ t) (suc b) r =
    ap (λ (t' : HashTable). row_contents heap x ∷ t') (set-words_contents heap t b r)

length-row_contents :
    (heap : Heap) (r : List TablePointer) → length (row_contents heap r) ≡ length r
unfolding row_contents
length-row_contents heap [] = refl
length-row_contents heap (w ∷ r) = ap suc (length-row_contents heap r)

length-words_contents :
    (heap : Heap) (t : List (List TablePointer)) → length (words_contents heap t) ≡ length t
unfolding words_contents
length-words_contents heap [] = refl
length-words_contents heap (r ∷ t) = ap suc (length-words_contents heap t)

-- A slot of the contents is the string of the entry that its word names.
pub slot-contents :
    (m : Memory) (b i : ℕ)
    → slot (contents m) b i ≡ print_at m.heap (get_real_pointer (word_at m b i))
unfolding slot word_at
slot-contents m b i =
    ap (λ (r : Bucket). get_or r i []) (get_or-words_contents m.heap m.hash_table b)
    ∙ get_or-row_contents m.heap (get_or m.hash_table b []) i

-- A word that is stored writes its string to the contents.
pub contents-store_word :
    (m : Memory) (b i : ℕ) (w : TablePointer)
    → contents (store_word m b i w) ≡ write (contents m) b i (print_at m.heap (get_real_pointer w))
unfolding store_word write
contents-store_word m b i w =
    set-words_contents m.heap m.hash_table b (set (get_or m.hash_table b []) i w)
    ∙ ap (set (contents m) b) (
        set-row_contents m.heap (get_or m.hash_table b []) i w
        ∙ ap (λ (r : Bucket). set r i (print_at m.heap (get_real_pointer w)))
            (sym (get_or-words_contents m.heap m.hash_table b)))

pub contents-IsShaped :
    {n : ℕ} (m : Memory) → IsGrid n num_items_per_entry m.hash_table → IsShaped n (contents m)
contents-IsShaped m g = record {
  buckets = length-words_contents m.heap m.hash_table ∙ g.rows;
  slots = λ b lt.
      ap length (get_or-words_contents m.heap m.hash_table b)
      ∙ length-row_contents m.heap (get_or m.hash_table b [])
      ∙ g.items b lt;
}

-- The address is that of an entry whose string is not empty, and was given out already.
pub record IsTaken (heap : Heap) (fresh : Address) (p : Address) : Type 0 where
  pub str : Fingerprint
  pub live : heap p ≡ some str
  pub nonempty : str ≢ []
  pub old : p < fresh

-- A word that may stand in the table between two calls: no mark, and a counter of at most `c`
pub record IsSteadyWord (c : ℕ) (heap : Heap) (fresh : Address) (w : TablePointer) : Type 0 where
  pub fits : w < 2 ^ 64
  pub unmarked : get_marked w ≡ false
  pub counter : get_counter w ≤ c
  pub target : (get_real_pointer w ≡ 0) ⊎ IsTaken heap fresh (get_real_pointer w)

pub record IsSteady (n c : ℕ) (m : Memory) : Type 0 where
  pub grid : IsGrid n num_items_per_entry m.hash_table
  pub words : (b i : ℕ) → IsSteadyWord c m.heap m.fresh (word_at m b i)
  pub pos : 0 < m.fresh
  pub even : m.fresh % 2 ≡ 0

pub IsSteadyWord-le :
    {c c' : ℕ} {heap : Heap} {fresh : Address} {w : TablePointer}
    → c ≤ c'
    → IsSteadyWord c heap fresh w
    → IsSteadyWord c' heap fresh w
IsSteadyWord-le le s = record {
  fits = s.fits;
  unmarked = s.unmarked;
  counter = omega (arith, s.counter, le);
  target = s.target;
}

pub IsSteady-le : {n c c' : ℕ} {m : Memory} → c ≤ c' → IsSteady n c m → IsSteady n c' m
IsSteady-le le s = record {
  grid = s.grid;
  words = λ b i. IsSteadyWord-le le (s.words b i);
  pos = s.pos;
  even = s.even;
}

pub store_word-IsSteady :
    {n c : ℕ} (m : Memory) (b i : ℕ) (w : TablePointer)
    → IsSteady n c m
    → IsSteadyWord c m.heap m.fresh w
    → IsSteady n c (store_word m b i w)
unfolding store_word word_at
store_word-IsSteady {c = c} m b i w s sw = record {
  grid = set_item-IsGrid m.hash_table b i w s.grid;
  words = λ b' j.
      get_item-set_item (IsSteadyWord c m.heap m.fresh) m.hash_table b i b' j w 0 sw s.words;
  pos = s.pos;
  even = s.even;
}

-- A slot is empty exactly where its word is null.
pub slot-null :
    {n c : ℕ} {m : Memory} (b i : ℕ)
    → IsSteady n c m
    → get_real_pointer (word_at m b i) ≡ 0
    → slot (contents m) b i ≡ []
unfolding print_at
slot-null {m = m} b i s e = slot-contents m b i ∙ rw e refl

pub slot-taken :
    {n c : ℕ} {m : Memory} (b i : ℕ)
    → IsSteady n c m
    → get_real_pointer (word_at m b i) ≢ 0
    → (slot (contents m) b i ≢ [])
      × (m.heap (get_real_pointer (word_at m b i)) ≡ some (slot (contents m) b i))
unfolding print_at
slot-taken {m = m} b i s ne = elim (s.words b i).target [
  | inl e ↦ absurd (ne e)
  | inr t ↦
      let there : (get_real_pointer (word_at m b i) == 0) ≡ false = ground arith in
      let same : slot (contents m) b i ≡ t.str = slot-contents m b i ∙ rw (there, t.live) refl in
      (λ q. t.nonempty (sym same ∙ q), t.live ∙ ap some (sym same))
]

pub null-slot :
    {n c : ℕ} {m : Memory} (b i : ℕ)
    → IsSteady n c m
    → slot (contents m) b i ≡ []
    → get_real_pointer (word_at m b i) ≡ 0
null-slot {m = m} b i s e = elim (ℕ_discrete (get_real_pointer (word_at m b i)) 0) [
  | yes z ↦ z
  | no ne ↦ absurd ((slot-taken b i s ne).0 e)
]

to_still : {n c : ℕ} (m : Memory) → IsSteady n c m → IsSteady n c (still m)
unfolding word_at
to_still m s = record { grid = s.grid; words = s.words; pos = s.pos; even = s.even }

of_still : {n c : ℕ} (m : Memory) → IsSteady n c (still m) → IsSteady n c m
unfolding word_at
of_still m s = record { grid = s.grid; words = s.words; pos = s.pos; even = s.even }

-- Memories that differ in their hazard pointers only
pub still-IsSteady :
    {n c : ℕ} (m m' : Memory) → still m' ≡ still m → IsSteady n c m → IsSteady n c m'
still-IsSteady {n} {c} m m' e s = of_still m' (subst (IsSteady n c) (sym e) (to_still m s))

pub still-contents : (m m' : Memory) → still m' ≡ still m → contents m' ≡ contents m
still-contents m m' e = ap contents e

pub still-fresh : (m m' : Memory) → still m' ≡ still m → m'.fresh ≡ m.fresh
still-fresh m m' e = ap (λ (x : Memory). x.fresh) e
