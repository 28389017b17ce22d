-- ===== src/Pointer/RoundTrip.antt =====
-- Packing and unpacking of table pointers: `create_pointer` against the three `get_` functions.
use lock_free_cuckoo_filter.Prelude.{ℕ, ◌*◌, ◌/◌, ◌^◌, ◌<◌, ◌≡◌, sym, ap, ◌∙◌, Bool, some, arith}
use lock_free_cuckoo_filter.Pointer.Fields.{
  IsAddress, word, parts, word-lt, get_counter-word, get_real_pointer-word, get_marked-word,
  create_pointer-word,
}
use lock_free_cuckoo_filter.Pointer.{
  TablePointer, get_counter, get_real_pointer, get_marked, create_pointer,
}

-- A word made by create_pointer from a 16-bit counter, an aligned 48-bit address and a mark is a
-- 64-bit word from which the three accessors read the fields back.
pub get-create_pointer :
    (c p : ℕ) (m : Bool)
    → c < 2 ^ 16
    → IsAddress p
    → (w : TablePointer) × (create_pointer c p m ≡ some w)
      × (w < 2 ^ 64)
      × (get_counter w ≡ c)
      × (get_real_pointer w ≡ p)
      × (get_marked w ≡ m)
get-create_pointer c p m hc hp =
    let hq : p / 2 < 2 ^ 47 = omega arith in
    let e : p / 2 * 2 ≡ p = omega arith in
    (
      word c (p / 2) m,
      sym (ap (λ (t : ℕ). create_pointer c t m) e) ∙ create_pointer-word c (p / 2) m hc hq,
      word-lt c (p / 2) m hc hq,
      get_counter-word c (p / 2) m hc hq,
      get_real_pointer-word c (p / 2) m hc hq ∙ e,
      get_marked-word c (p / 2) m hc hq,
    )

-- create_pointer rebuilds every 64-bit word from its three fields.
pub create_pointer-get :
    (w : TablePointer)
    → w < 2 ^ 64
    → create_pointer (get_counter w) (get_real_pointer w) (get_marked w) ≡ some w
create_pointer-get w h =
    let p = parts w h in
    rw
      (
        p.joins,
        get_counter-word p.c p.q p.m p.c-lt p.q-lt,
        get_real_pointer-word p.c p.q p.m p.c-lt p.q-lt,
        get_marked-word p.c p.q p.m p.c-lt p.q-lt,
      )
      (create_pointer-word p.c p.q p.m p.c-lt p.q-lt)
