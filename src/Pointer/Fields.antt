-- ===== src/Pointer/Fields.antt =====
-- The fields of a table pointer: what each accessor of pointer_utils.cpp reads and writes.
use lock_free_cuckoo_filter.Prelude.{
  ℕ, ◌+◌, ◌-◌, ◌*◌, ◌/◌, ◌%◌, ◌^◌, ◌<◌, bit_and, ◌≡◌, ap, ◌∙◌, Bool, some, arith, bit, ◌==◌,
}
use lock_free_cuckoo_filter.Prelude.Bits.{bit_or_high, bit_and_low, bit_and_high, zero-bit_or}
use lock_free_cuckoo_filter.Pointer.{
  real_pointer_mask, get_counter, get_real_pointer, get_marked, create_pointer,
}

-- An address that a table pointer can hold: 48 bits, aligned.
abbrev pub IsAddress : ℕ → Type 0
IsAddress p = (p < 2 ^ 48) × (p % 2 ≡ 0)

-- The word with counter `c`, address `q * 2` and mark `m`.
abbrev pub word : ℕ → ℕ → Bool → ℕ
word c q m = c * 2 ^ 48 + (q * 2 + bit m)

-- Every 64-bit word has that form.
pub record Parts (w : ℕ) : Type 0 where
  pub c : ℕ
  pub q : ℕ
  pub m : Bool
  pub c-lt : c < 2 ^ 16
  pub q-lt : q < 2 ^ 47
  pub joins : w ≡ word c q m

bit_eq : (r : ℕ) → r < 2 → r ≡ bit (r == 1)
bit_eq r h = ground arith

pub parts : (w : ℕ) → w < 2 ^ 64 → Parts w
parts w h = record {
  c = w / 2 ^ 48;
  q = w / 2 % 2 ^ 47;
  m = w % 2 == 1;
  c-lt = omega arith;
  q-lt = omega arith;
  joins = omega (arith, bit_eq (w % 2) (omega arith));
}

pub bit-lt : (m : Bool) → bit m < 2
bit-lt m = ground arith

module _ (c q : ℕ) (m : Bool) (hc : c < 2 ^ 16) (hq : q < 2 ^ 47) where
  pub word-lt : word c q m < 2 ^ 64
  word-lt = omega (arith, bit-lt m)

  pub get_counter-word : get_counter (word c q m) ≡ c
  unfolding get_counter
  get_counter-word =
      omega (
        arith,
        bit_and_high 48 0xFFFF c (q * 2 + bit m) (omega (arith, bit-lt m)),
        bit_and_low 16 c,
      )

  pub get_real_pointer-word : get_real_pointer (word c q m) ≡ q * 2
  unfolding get_real_pointer
  get_real_pointer-word =
      let e : word c q m ≡ (c * 2 ^ 47 + q) * 2 ^ 1 + bit m = omega arith in
      omega (
        arith,
        ap (λ (t : ℕ). bit_and t real_pointer_mask) e,
        bit_and_high 1 (2 ^ 47 - 1) (c * 2 ^ 47 + q) (bit m) (bit-lt m),
        bit_and_low 47 (c * 2 ^ 47 + q),
      )

  pub get_marked-word : get_marked (word c q m) ≡ m
  unfolding get_marked
  get_marked-word = ground (arith, bit_and_low 1 (word c q m))

  pub create_pointer-word : create_pointer c (q * 2) m ≡ some (word c q m)
  unfolding create_pointer
  create_pointer-word = ground (
    arith,
    zero-bit_or (bit m),
    bit_or_high 1 q (bit m) (bit-lt m),
    bit_or_high 48 c (q * 2 + bit m) (omega (arith, bit-lt m)),
  )

-- The address in a 64-bit word is an address.
pub real_pointer-IsAddress : (w : ℕ) → w < 2 ^ 64 → IsAddress (get_real_pointer w)
real_pointer-IsAddress w h =
    let p = parts w h in
    let e : get_real_pointer w ≡ p.q * 2 =
      ap get_real_pointer p.joins ∙ get_real_pointer-word p.c p.q p.m p.c-lt p.q-lt in
    (omega (arith, e, p.q-lt), omega (arith, e))
