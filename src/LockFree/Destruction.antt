-- ===== src/LockFree/Destruction.antt =====
-- The destructor of cuckoo_filter/lock_free_filter.cpp and the deletions of `reset`: which entries are
-- deleted, and when a deletion is defined.
use lock_free_cuckoo_filter.Prelude.{
  ◌≡◌, ◌≢◌, ◌⊎◌, refl, sym, ap, ◌∙◌, inl, inr, Bool, true, false, Option, none, some, List, [], ◌∷◌,
  ◌++◌, ◌==◌, ==_iff, Bool-cases, Option-cases, if◌then◌else◌, arith,
}
use mathlib.Core.Path.{fun_ext}
use lock_free_cuckoo_filter.Pointer.{TablePointer, get_real_pointer}
use lock_free_cuckoo_filter.Table.{Fingerprint}
use lock_free_cuckoo_filter.LockFree.Program.{Address}
use lock_free_cuckoo_filter.LockFree.Lifecycle.{
  LockFreeCuckooFilter, delete_entry, delete_bucket, delete_table, destroy, contains,
}
use lock_free_cuckoo_filter.LockFree.Safety.Words.{Heap}

-- The addresses that the words of a bucket, and of a table, name
unfoldable pub bucket_entries : List TablePointer → List Address
bucket_entries [] = []
bucket_entries (w ∷ ws) =
    let rest = bucket_entries ws in
    if get_real_pointer w == 0 then rest else get_real_pointer w ∷ rest

unfoldable pub table_entries : List (List TablePointer) → List Address
unfolding bucket_entries
table_entries [] = []
table_entries (b ∷ bs) = bucket_entries b ++ table_entries bs

-- The heap without the entries at these addresses
abbrev pub without : List Address → Heap → Heap
without ps heap = λ q. if contains q ps then none else heap q

abbrev pub AreLive : Heap → List Address → Type 0
AreLive heap ps = (q : Address) → contains q ps ≡ true → heap q ≢ none

abbrev pub AreDistinct : List Address → Type 0
AreDistinct [] = Unit
AreDistinct (p ∷ ps) = (contains p ps ≡ false) × AreDistinct ps

delete_all : List Address → Heap → Option Heap
unfolding contains
delete_all [] heap = some heap
delete_all (p ∷ ps) heap = elim (heap p) [
  | none ↦ none
  | some str ↦ delete_all ps (λ q. if q == p then none else heap q)
]

-- The rest of a list of deletions after the first ones
and_then : List Address → Option Heap → Option Heap
unfolding delete_all
and_then ps none = none
and_then ps (some heap) = delete_all ps heap

delete_all-++ :
    (ps qs : List Address) (heap : Heap)
    → delete_all (ps ++ qs) heap ≡ and_then qs (delete_all ps heap)
unfolding delete_all and_then
delete_all-++ [] qs heap = refl
delete_all-++ (p ∷ ps) qs heap = elim (Option-cases (heap p)) [
  | inl e ↦ rw (delete_all, e, and_then) refl
  | inr (s, e) ↦ rw (delete_all, e) (delete_all-++ ps qs _)
]

delete_bucket-entries :
    (ws : List TablePointer) (heap : Heap)
    → delete_bucket ws heap ≡ delete_all (bucket_entries ws) heap
unfolding delete_bucket bucket_entries delete_all delete_entry
delete_bucket-entries [] heap = refl
delete_bucket-entries (w ∷ ws) heap = elim (Bool-cases (get_real_pointer w == 0)) [
  | inl e ↦ rw e (delete_bucket-entries ws heap)
  | inr e ↦ elim (Option-cases (heap (get_real_pointer w))) [
    | inl h ↦ rw (e, h) refl
    | inr (s, h) ↦ rw (e, h) (delete_bucket-entries ws _)
  ]
]

table_entries-then :
    (b : List TablePointer) (bs : List (List TablePointer)) (heap : Heap)
    → delete_all (table_entries (b ∷ bs)) heap ≡ and_then (table_entries bs) (delete_bucket b heap)
unfolding table_entries
table_entries-then b bs heap =
    delete_all-++ (bucket_entries b) (table_entries bs) heap
    ∙ ap (and_then (table_entries bs)) (sym (delete_bucket-entries b heap))

delete_table-entries :
    (bs : List (List TablePointer)) (heap : Heap)
    → delete_table bs heap ≡ delete_all (table_entries bs) heap
unfolding delete_table table_entries and_then
delete_table-entries [] heap = delete_no heap
  where
    delete_no : (heap : Heap) → some heap ≡ delete_all [] heap
    delete_no heap = refl
delete_table-entries (b ∷ bs) heap = elim (Option-cases (delete_bucket b heap)) [
  | inl e ↦ rw (table_entries-then b bs heap, delete_table, e) refl
  | inr (h, e) ↦ rw (table_entries-then b bs heap, delete_table, e) (delete_table-entries bs h)
]

contains_self : (p : Address) (ps : List Address) → contains p (p ∷ ps) ≡ true
unfolding contains
contains_self p ps = let same : (p == p) ≡ true = ground arith in rw same refl

contains-∷ : (q p : Address) (ps : List Address) → contains q ps ≡ true → contains q (p ∷ ps) ≡ true
unfolding contains
contains-∷ q p ps e = elim (Bool-cases (q == p)) [ inl h ↦ rw h refl | inr h ↦ rw (h, e) refl ]

-- What is left after the first deletion
freed : Address → Heap → Heap
freed p heap = λ q. if q == p then none else heap q

without-freed :
    (p : Address) (ps : List Address) (heap : Heap)
    → without ps (freed p heap) ≡ without (p ∷ ps) heap
unfolding contains freed
without-freed p ps heap =
    fun_ext
      (λ q. elim (Bool-cases (q == p)) [ inl e ↦ rw e (both (contains q ps)) | inr e ↦ rw e refl ])
  where
    both : (b : Bool) → ◌≡◌ {A = Option Fingerprint} (if b then none else none) none
    both true = refl
    both false = refl

differ : true ≢ false
differ e = ground arith

AreLive-freed :
    (p : Address) (ps : List Address) (heap : Heap)
    → contains p ps ≡ false
    → AreLive heap (p ∷ ps)
    → AreLive (freed p heap) ps
unfolding freed
AreLive-freed p ps heap once live q h = λ e'. elim (Bool-cases (q == p)) [
  | inl e ↦ absurd (differ (sym h ∙ ap (λ (x : Address). contains x ps) ((==_iff q p).0 e) ∙ once))
  | inr e ↦ live q (contains-∷ q p ps h) (sym (rw e refl) ∙ e')
]

freed_once :
    (p : Address) (ps : List Address) (heap : Heap)
    → AreLive (freed p heap) ps
    → contains p ps ≡ false
unfolding freed
freed_once p ps heap live = elim (Bool-cases (contains p ps)) [
  | inl e ↦ absurd (live p e (let same : (p == p) ≡ true = ground arith in rw same refl))
  | inr e ↦ e
]

freed-AreLive :
    (p : Address) (ps : List Address) (heap : Heap) (s : Fingerprint)
    → heap p ≡ some s
    → AreLive (freed p heap) ps
    → AreLive heap (p ∷ ps)
unfolding freed contains
freed-AreLive p ps heap s e live q h e' = elim (Bool-cases (q == p)) [
  | inl same ↦ some_none (sym e ∙ ap heap (sym ((==_iff q p).0 same)) ∙ e')
  | inr other ↦ live q (sym (rw other refl) ∙ h) (rw other e')
]
  where
    some_none : some s ≢ none
    some_none x = cc

-- Either the addresses are those of different entries, and exactly these are deleted, or they are not.
delete_all_lem :
    (ps : List Address) (heap : Heap)
    → ((AreLive heap ps × AreDistinct ps) × (delete_all ps heap ≡ some (without ps heap)))
      ⊎ (¬ (AreLive heap ps × AreDistinct ps) × (delete_all ps heap ≡ none))
unfolding delete_all freed
delete_all_lem [] heap = inl (((λ q e. absurd (differ (sym e))), tt), refl)
delete_all_lem (p ∷ ps) heap = elim (Option-cases (heap p)) [
  | inl e ↦ inr (λ d. d.0 p (contains_self p ps) e, rw (delete_all, e) refl)
  | inr (s, e) ↦ elim (delete_all_lem ps (freed p heap)) [
    | inl (ok, done) ↦
        let once = freed_once p ps heap ok.0 in
        inl (
          (
            (freed-AreLive p ps heap s e ok.0, (once, ok.1)),
            rw (delete_all, e) (done ∙ ap some (without-freed p ps heap)),
          ))
    | inr (bad, fails) ↦
        inr (λ d. bad (AreLive-freed p ps heap d.1.0 d.0, d.1.1), rw (delete_all, e) fails)
  ]
]

-- The addresses are those of entries, each once.
abbrev pub CanDelete : Heap → List Address → Type 0
CanDelete heap ps = AreLive heap ps × AreDistinct ps

pub delete_table_lem :
    (bs : List (List TablePointer)) (heap : Heap)
    → let ps = table_entries bs in
      (CanDelete heap ps × (delete_table bs heap ≡ some (without ps heap)))
      ⊎ (¬ (CanDelete heap ps) × (delete_table bs heap ≡ none))
delete_table_lem bs heap = elim (delete_all_lem (table_entries bs) heap) [
  | inl (can, e) ↦ inl (can, delete_table-entries bs heap ∙ e)
  | inr (cannot, e) ↦ inr (cannot, delete_table-entries bs heap ∙ e)
]

-- Either the words of the table name entries that exist, each in one slot only, and then the
-- destructor returns and leaves the heap without exactly these entries; or they do not, and then
-- the destructor is undefined.
pub destroy_lem :
    (f : LockFreeCuckooFilter)
    → let ps = table_entries f.memory.hash_table in
      (CanDelete f.memory.heap ps × (destroy f ≡ some (without ps f.memory.heap)))
      ⊎ (¬ (CanDelete f.memory.heap ps) × (destroy f ≡ none))
unfolding destroy
destroy_lem f = delete_table_lem f.memory.hash_table f.memory.heap
