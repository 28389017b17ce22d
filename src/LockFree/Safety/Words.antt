-- ===== src/LockFree/Safety/Words.antt =====
-- Words that may stand in the table: empty and unmarked, or with the address of a live entry.
use lock_free_cuckoo_filter.Prelude.{
  ℕ, ◌^◌, ◌<◌, ◌≡◌, ◌≢◌, ◌⊎◌, inl, inr, refl, ◌∙◌, sym, Bool, true, false, Option, none, some,
  arith,
}
use mathlib.Core.Path.{subst}
use lock_free_cuckoo_filter.Pointer.Fields.{IsAddress, real_pointer-IsAddress}
use lock_free_cuckoo_filter.Pointer.RoundTrip.{get-create_pointer}
use lock_free_cuckoo_filter.Pointer.Updates.{update_marked_lem}
use lock_free_cuckoo_filter.Pointer.{
  TablePointer, get_counter, get_real_pointer, get_marked, get_new_mark, create_pointer,
}
use lock_free_cuckoo_filter.Table.{Fingerprint}
use lock_free_cuckoo_filter.LockFree.Program.{Address}

abbrev pub Heap : Type 0
Heap = Address → Option Fingerprint

-- There is an entry at the address.
abbrev pub IsLive : Heap → Address → Type 0
IsLive h p = h p ≢ none

-- Entries of `h` are entries of `h'`.
abbrev pub Grows : Heap → Heap → Type 0
Grows h h' = (p : Address) → IsLive h p → IsLive h' p

pub record IsGood (h : Heap) (w : TablePointer) : Type 0 where
  pub fits : w < 2 ^ 64
  pub target : ((get_real_pointer w ≡ 0) × (get_marked w ≡ false)) ⊎ IsLive h (get_real_pointer w)

pub IsGood-Grows : {h h' : Heap} {w : TablePointer} → Grows h h' → IsGood h w → IsGood h' w
IsGood-Grows {w = w} g good = record {
  fits = good.fits;
  target = elim good.target [ inl e ↦ inl e | inr live ↦ inr (g (get_real_pointer w) live) ];
}

pub zero-IsGood : (h : Heap) → IsGood h 0
unfolding get_real_pointer get_marked
zero-IsGood h = record { fits = omega arith; target = inl (refl, refl) }

-- A good word with an address has a live one.
pub IsGood-IsLive :
    {h : Heap} {w : TablePointer}
    → IsGood h w
    → get_real_pointer w ≢ 0
    → IsLive h (get_real_pointer w)
IsGood-IsLive good ne = elim good.target [ inl e ↦ absurd (ne e.0) | inr live ↦ live ]

pub IsGood-marked :
    {h : Heap} {w : TablePointer} → IsGood h w → get_marked w ≡ true → IsLive h (get_real_pointer w)
IsGood-marked good m = elim good.target [ inl e ↦ cc | inr live ↦ live ]

counter-lt : (c p : ℕ) (m : Bool) (w : TablePointer) → create_pointer c p m ≡ some w → c < 2 ^ 16
unfolding create_pointer
counter-lt c p m w e = ground arith

-- What `create_pointer` makes of an address is good, if the address is live, or null and unmarked.
pub create_pointer-IsGood :
    {h : Heap} (c p : ℕ) (m : Bool) (w : TablePointer)
    → IsAddress p
    → ((p ≡ 0) × (m ≡ false)) ⊎ IsLive h p
    → create_pointer c p m ≡ some w
    → IsGood h w
create_pointer-IsGood {h} c p m w a target e =
    let (w', e', fits, c', p', m') = get-create_pointer c p m (counter-lt c p m w e) a in
    let same : w' ≡ w = some_eq (sym e' ∙ e) in
    subst (IsGood h) same (record {
      fits = fits;
      target = elim target [
        | inl null ↦ inl (p' ∙ null.0, m' ∙ null.1)
        | inr live ↦ inr (subst (IsLive h) (sym p') live)
      ];
    })
  where
    some_eq : {x y : ℕ} → some x ≡ some y → x ≡ y
    some_eq e = cc

pub get_new_mark-IsGood :
    {h : Heap} {w : TablePointer}
    → IsGood h w
    → get_real_pointer w ≢ 0
    → IsGood h (get_new_mark w true)
get_new_mark-IsGood {h} {w} good ne =
    let (made, same) = update_marked_lem w true good.fits in
    subst (IsGood h) (sym same) (
      create_pointer-IsGood (get_counter w) (get_real_pointer w) true _
        (real_pointer-IsAddress w good.fits) (inr (IsGood-IsLive good ne)) made)
