-- ===== src/Pointer.antt =====
-- cuckoo_filter/pointer_utils.cpp and include/pointer_utils.h: a 64-bit word that packs a 16-bit
-- counter, a 48-bit address with its lowest bit clear, and a mark in that bit.
pub mod Fields
pub mod RoundTrip
pub mod Updates
use lock_free_cuckoo_filter.Prelude.{
  ℕ, ◌+◌, ◌-◌, ◌*◌, ◌/◌, ◌%◌, ◌^◌, bit_and, bit_or, Bool, not, Option, none, some, ltb, ◌==◌,
  if◌then◌else◌, bit,
}

-- `uint64_t`
abbrev pub TablePointer : Type 0
TablePointer = ℕ

abbrev pub uint16_max : ℕ
uint16_max = 0xFFFF

abbrev pub counter_mask : ℕ
counter_mask = 0xFFFF000000000000

abbrev pub real_pointer_mask : ℕ
real_pointer_mask = 0xFFFFFFFFFFFE

abbrev pub mark_mask : ℕ
mark_mask = 0x1

-- `~x` and `x << k` on 64 bits
abbrev pub complement : ℕ → ℕ
complement x = 0xFFFFFFFFFFFFFFFF - x

abbrev pub shift_left : ℕ → ℕ → ℕ
shift_left x k = (x * 2 ^ k) % 2 ^ 64

unfoldable pub get_counter : TablePointer → ℕ
get_counter pointer = (bit_and pointer counter_mask / 2 ^ 48) % 2 ^ 16

-- `none` stands for `abort()` in the next two and in `create_pointer`.
unfoldable pub update_counter : TablePointer → ℕ → Option TablePointer
update_counter pointer counter_val =
    if ltb uint16_max counter_val
    then none
    else some (bit_or (bit_and pointer (complement counter_mask)) (shift_left counter_val 48))

unfoldable pub get_new_counter : TablePointer → ℕ → Option TablePointer
get_new_counter pointer counter_val =
    if ltb uint16_max counter_val
    then none
    else let ret = bit_and pointer (complement counter_mask) in
      some (bit_or ret (shift_left counter_val 48))

unfoldable pub get_real_pointer : TablePointer → ℕ
get_real_pointer pointer = bit_and pointer real_pointer_mask

unfoldable pub update_real_pointer : TablePointer → ℕ → TablePointer
update_real_pointer pointer real_pointer =
    bit_or (bit_and pointer (complement real_pointer_mask)) real_pointer

unfoldable pub get_new_real_pointer : TablePointer → ℕ → TablePointer
get_new_real_pointer pointer real_pointer =
    let ret = bit_and pointer (complement real_pointer_mask) in bit_or ret real_pointer

unfoldable pub get_marked : TablePointer → Bool
get_marked pointer = not (bit_and pointer mark_mask == 0)

unfoldable pub update_marked : TablePointer → Bool → TablePointer
update_marked pointer marked = bit_or (bit_and pointer (complement mark_mask)) (bit marked)

unfoldable pub get_new_mark : TablePointer → Bool → TablePointer
get_new_mark pointer marked =
    let ret = bit_and pointer (complement mark_mask) in bit_or ret (bit marked)

unfoldable pub create_pointer : ℕ → ℕ → Bool → Option TablePointer
create_pointer counter real_pointer marked =
    if ltb uint16_max counter
    then none
    else some (bit_or (bit_or (bit_or 0 (bit marked)) real_pointer) (shift_left counter 48))
