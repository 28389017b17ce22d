-- ===== src/LockFree/Alone/Entries.antt =====
-- A new entry of cuckoo_filter/lock_free_filter.cpp, and the word that puts it into an empty slot.
use lock_free_cuckoo_filter.Prelude.{
  ℕ, suc, ◌+◌, ◌^◌, ◌<◌, ◌≡◌, ◌≢◌, refl, ap, ap₂, ◌∙◌, inl, inr, true, false, Option, none, some,
  List, [], ◌∷◌, get_or, get_item, ◌==◌, if◌then◌else◌, arith,
}
use lock_free_cuckoo_filter.Common.{num_items_per_entry}
use lock_free_cuckoo_filter.Pointer.{TablePointer, get_counter, get_real_pointer}
use lock_free_cuckoo_filter.Pointer.Fields.{IsAddress}
use lock_free_cuckoo_filter.Table.{Fingerprint, HashTable, slot, write, IsShaped}
use lock_free_cuckoo_filter.Table.Weigh.{weigh, weigh-write}
use lock_free_cuckoo_filter.Sequential.Kicks.{IsFair}
use lock_free_cuckoo_filter.LockFree.Program.{Address}
use lock_free_cuckoo_filter.LockFree.Memory.{Memory, word_at, allocate}
use lock_free_cuckoo_filter.LockFree.Safety.Words.{Heap}
use lock_free_cuckoo_filter.LockFree.Alone.Insert.{Placed}
use lock_free_cuckoo_filter.LockFree.Alone.Contents.{
  print_at, row_contents, words_contents, contents, contents-store_word, IsTaken, IsSteady,
  store_word-IsSteady,
}
use lock_free_cuckoo_filter.LockFree.Alone.Stores.{made_fields}

row_contents-cong :
    (h h' : Heap) (r : List TablePointer)
    → ((i : ℕ)
        → print_at h' (get_real_pointer (get_or r i 0))
          ≡ print_at h (get_real_pointer (get_or r i 0)))
    → row_contents h' r ≡ row_contents h r
unfolding row_contents
row_contents-cong h h' [] e = refl
row_contents-cong h h' (w ∷ r) e = ap₂ ◌∷◌ (e 0) (row_contents-cong h h' r (λ i. e (suc i)))

words_contents-cong :
    (h h' : Heap) (t : List (List TablePointer))
    → ((b i : ℕ)
        → print_at h' (get_real_pointer (get_item t b i 0))
          ≡ print_at h (get_real_pointer (get_item t b i 0)))
    → words_contents h' t ≡ words_contents h t
unfolding words_contents
words_contents-cong h h' [] e = refl
words_contents-cong h h' (r ∷ t) e =
    ap₂ ◌∷◌ (row_contents-cong h h' r (e 0)) (words_contents-cong h h' t (λ b. e (suc b)))

old_entry :
    (m : Memory) (f : Fingerprint) (p : Address) → p < m.fresh → (allocate m f).heap p ≡ m.heap p
unfolding allocate
old_entry m f p lt = let other : (p == m.fresh) ≡ false = ground arith in rw other refl

-- A new entry is in no slot.
pub contents-allocate :
    {n c : ℕ} (m : Memory) (f : Fingerprint) → IsSteady n c m → contents (allocate m f) ≡ contents m
unfolding allocate print_at word_at
contents-allocate m f s = words_contents-cong m.heap (allocate m f).heap m.hash_table (λ b i.
    elim (s.words b i).target [
      | inl e ↦ rw e refl
      | inr t ↦
          elim (get_real_pointer (word_at m b i) == 0)
            as (λ z.
              ◌≡◌ {A = Fingerprint}
                (if z then [] else elim ((allocate m f).heap (get_real_pointer (word_at m b i))) [
                  | none ↦ []
                  | some str ↦ str
                ])
                (if z then [] else elim (m.heap (get_real_pointer (word_at m b i))) [
                  | none ↦ []
                  | some str ↦ str
                ])) [
                  | true ↦ refl
                  | false ↦
                      ap (λ (o : Option Fingerprint). elim o [ none ↦ [] | some str ↦ str ])
                        (old_entry m f (get_real_pointer (word_at m b i)) t.old)
                ]
    ])

pub allocate-IsSteady :
    {n c : ℕ} (m : Memory) (f : Fingerprint) → IsSteady n c m → IsSteady n c (allocate m f)
unfolding allocate word_at
allocate-IsSteady m f s = record {
  grid = s.grid;
  words = λ b i.
      let x = s.words b i in
      record {
        fits = x.fits;
        unmarked = x.unmarked;
        counter = x.counter;
        target = elim x.target [
          | inl e ↦ inl e
          | inr t ↦ inr (record {
            str = t.str;
            live = old_entry m f (get_real_pointer (word_at m b i)) t.old ∙ t.live;
            nonempty = t.nonempty;
            old = omega (arith, t.old);
          })
        ];
      };
  pos = omega arith;
  even = omega (arith, s.even);
}

-- The address of an entry that was just made
pub new_entry_taken :
    (m : Memory) (f : Fingerprint)
    → f ≢ []
    → IsTaken (allocate m f).heap (allocate m f).fresh m.fresh
unfolding allocate
new_entry_taken m f ne = record {
  str = f;
  live = let same : (m.fresh == m.fresh) ≡ true = ground arith in rw same refl;
  nonempty = ne;
  old = omega arith;
}

-- An address that may be put into a slot: that of an entry with the string `f`
pub record IsEntry (m : Memory) (f : Fingerprint) (p : Address) : Type 0 where
  pub address : IsAddress p
  pub nonnull : p ≢ 0
  pub taken : IsTaken m.heap m.fresh p
  pub holds : m.heap p ≡ some f

pub Placed-IsSteady :
    {n c : ℕ} (m m' : Memory) (f : Fingerprint) (p b i : ℕ)
    → IsSteady n c m
    → c < 2 ^ 16
    → IsEntry m f p
    → Placed m p b i m'
    → IsSteady n c m' × (contents m' ≡ write (contents m) b i f)
unfolding print_at
Placed-IsSteady {n} {c} m m' f p b i s low entry placed =
    let w = word_at m b i in
    let (fits, count, ptr, mark) =
      made_fields (get_counter w) p false placed.word (omega (arith, (s.words b i).counter, low))
        entry.address placed.made in
    let there : (p == 0) ≡ false = ground (arith, entry.nonnull) in
    let str : print_at m.heap (get_real_pointer placed.word) ≡ f =
      rw (ptr, there, entry.holds) refl in
    (
      rw placed.after (
          store_word-IsSteady m b i placed.word s (record {
            fits = fits;
            unmarked = mark;
            counter = omega (arith, count, (s.words b i).counter);
            target = inr (rw ptr entry.taken);
          })),
      ap contents placed.after
          ∙ contents-store_word m b i placed.word
          ∙ ap (write (contents m) b i) str,
    )

-- An item put into an empty slot adds its weight.
pub weigh-placed :
    {n : ℕ} (t : HashTable) (w : ℕ → Fingerprint → ℕ) (b i : ℕ) (f : Fingerprint)
    → IsShaped n t
    → IsFair n w
    → b < n
    → i < num_items_per_entry
    → slot t b i ≡ []
    → weigh w (write t b i f) ≡ weigh w t + w b f
weigh-placed t w b i f s fair hb hi e =
    omega (arith, weigh-write w b i f s hb hi, ap (w b) e, fair.empty b)
