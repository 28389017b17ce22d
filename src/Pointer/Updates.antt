-- ===== src/Pointer/Updates.antt =====
-- The update functions of cuckoo_filter/pointer_utils.cpp, against `create_pointer`.
use lock_free_cuckoo_filter.Prelude.{
  ℕ, ◌+◌, ◌-◌, ◌*◌, ◌/◌, ◌^◌, ◌<◌, bit_and, bit_or, ◌≡◌, refl, sym, ap, ◌∙◌, Bool, some, arith, bit,
  ltb, Bool-cases, inl, inr,
}
use lock_free_cuckoo_filter.Prelude.Bits.{bit_or_high, bit_or_low, bit_and_low, bit_and_high}
use lock_free_cuckoo_filter.Prelude.Bits.Digits.{bit_and_digit, bit_or_digit}
use lock_free_cuckoo_filter.Pointer.Fields.{
  IsAddress, word, parts, bit-lt, get_counter-word, get_real_pointer-word, get_marked-word,
  create_pointer-word,
}
use lock_free_cuckoo_filter.Pointer.{
  TablePointer, uint16_max, real_pointer_mask, mark_mask, complement, get_counter, update_counter,
  get_new_counter, get_real_pointer, update_real_pointer, get_new_real_pointer, get_marked,
  update_marked, get_new_mark, create_pointer,
}

module _ (c q : ℕ) (m : Bool) (hc : c < 2 ^ 16) (hq : q < 2 ^ 47) where
  update_counter-word : (c' : ℕ) → c' < 2 ^ 16 → update_counter (word c q m) c' ≡ some (word c' q m)
  unfolding update_counter
  update_counter-word c' h = ground (
    arith,
    bit_and_low 48 (word c q m),
    bit_or_high 48 c' (q * 2 + bit m) (omega (arith, bit-lt m)),
    bit-lt m,
  )

  update_real_pointer-word :
      (q' : ℕ) → q' < 2 ^ 47 → update_real_pointer (word c q m) (q' * 2) ≡ word c q' m
  unfolding update_real_pointer
  update_real_pointer-word q' h =
      let halves : word c q m / 2 ≡ c * 2 ^ 47 + q = omega (arith, bit-lt m) in
      let kept : bit_and (word c q m) (complement real_pointer_mask) ≡ c * 2 ^ 48 + bit m = omega (
        arith,
        bit_and_digit (word c q m) (complement real_pointer_mask),
        ap (λ (t : ℕ). bit_and t (0xFFFF * 2 ^ 47)) halves,
        bit_and_high 47 0xFFFF c q hq,
        bit_and_low 16 c,
        bit-lt m,
      ) in
      let inner : (c * 2 ^ 48 + bit m) / 2 ≡ c * 2 ^ 47 = omega (arith, bit-lt m) in
      let outer : q' * 2 / 2 ≡ q' = omega arith in
      omega (
        arith,
        ap (λ (t : ℕ). bit_or t (q' * 2)) kept,
        bit_or_digit (c * 2 ^ 48 + bit m) (q' * 2),
        ap (λ (t : ℕ). bit_or t (q' * 2 / 2)) inner,
        ap (λ (t : ℕ). bit_or (c * 2 ^ 47) t) outer,
        bit_or_low 47 c q' h,
        bit-lt m,
      )

  update_marked-word : (m' : Bool) → update_marked (word c q m) m' ≡ word c q m'
  unfolding update_marked
  update_marked-word m' =
      let e : word c q m ≡ (c * 2 ^ 47 + q) * 2 ^ 1 + bit m = omega arith in
      let kept : bit_and (word c q m) (complement mark_mask) ≡ (c * 2 ^ 47 + q) * 2 ^ 1 = omega (
        arith,
        ap (λ (t : ℕ). bit_and t (complement mark_mask)) e,
        bit_and_high 1 (2 ^ 63 - 1) (c * 2 ^ 47 + q) (bit m) (bit-lt m),
        bit_and_low 63 (c * 2 ^ 47 + q),
      ) in
      omega (
        arith,
        ap (λ (t : ℕ). bit_or t (bit m')) kept,
        bit_or_low 1 (c * 2 ^ 47 + q) (bit m') (bit-lt m'),
      )

-- On a 64-bit word update_counter gives what create_pointer makes of the new counter with the old
-- address and mark, the abort on a large counter included, and get_new_counter gives the same.
pub update_counter_lem :
    (w : TablePointer) (c : ℕ)
    → w < 2 ^ 64
    → (update_counter w c ≡ create_pointer c (get_real_pointer w) (get_marked w))
      × (get_new_counter w c ≡ update_counter w c)
unfolding get_new_counter update_counter
update_counter_lem w c h =
    let p = parts w h in
    elim (Bool-cases (ltb uint16_max c)) [
      | inl big ↦ unfold create_pointer update_counter in ground arith
      | inr small ↦
          let fits : c < 2 ^ 16 = ground arith in
          (
            rw
                (
                  p.joins,
                  get_real_pointer-word p.c p.q p.m p.c-lt p.q-lt,
                  get_marked-word p.c p.q p.m p.c-lt p.q-lt,
                  create_pointer-word c p.q p.m fits p.q-lt,
                )
                (update_counter-word p.c p.q p.m p.c-lt p.q-lt c fits),
            refl,
          )
    ]

-- On a 64-bit word and an aligned 48-bit address update_real_pointer gives what create_pointer
-- makes of the new address with the old counter and mark, and get_new_real_pointer gives the same.
pub update_real_pointer_lem :
    (w : TablePointer) (a : ℕ)
    → w < 2 ^ 64
    → IsAddress a
    → (create_pointer (get_counter w) a (get_marked w) ≡ some (update_real_pointer w a))
      × (get_new_real_pointer w a ≡ update_real_pointer w a)
unfolding get_new_real_pointer update_real_pointer
update_real_pointer_lem w a h ha =
    let p = parts w h in
    let fits : a / 2 < 2 ^ 47 = omega arith in
    let e : a ≡ a / 2 * 2 = omega arith in
    (
      rw
          (
            p.joins,
            get_counter-word p.c p.q p.m p.c-lt p.q-lt,
            get_marked-word p.c p.q p.m p.c-lt p.q-lt,
          )
          (ap (λ (t : ℕ). create_pointer p.c t p.m) e
            ∙ create_pointer-word p.c (a / 2) p.m p.c-lt fits
            ∙ ap some (
                sym (update_real_pointer-word p.c p.q p.m p.c-lt p.q-lt (a / 2) fits)
                ∙ ap (λ (t : ℕ). update_real_pointer (word p.c p.q p.m) t) (sym e))),
      refl,
    )

-- On a 64-bit word update_marked gives what create_pointer makes of the new mark with the old
-- counter and address, and get_new_mark gives the same.
pub update_marked_lem :
    (w : TablePointer) (m : Bool)
    → w < 2 ^ 64
    → (create_pointer (get_counter w) (get_real_pointer w) m ≡ some (update_marked w m))
      × (get_new_mark w m ≡ update_marked w m)
unfolding get_new_mark update_marked
update_marked_lem w m h =
    let p = parts w h in
    (
      rw
          (
            p.joins,
            get_counter-word p.c p.q p.m p.c-lt p.q-lt,
            get_real_pointer-word p.c p.q p.m p.c-lt p.q-lt,
          )
          (create_pointer-word p.c p.q m p.c-lt p.q-lt
            ∙ ap some (sym (update_marked-word p.c p.q p.m p.c-lt p.q-lt m))),
      refl,
    )
