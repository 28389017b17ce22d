-- ===== src/Tests/PointerTests.antt =====
-- Runs of the functions of cuckoo_filter/pointer_utils.cpp, as in test/test_pointer.cpp.
use lock_free_cuckoo_filter.Prelude.{◌^◌, ◌<◌, ◌≡◌, refl, true, false, none, some, arith}
use lock_free_cuckoo_filter.Pointer.RoundTrip.{get-create_pointer, create_pointer-get}
use lock_free_cuckoo_filter.Pointer.Updates.{
  update_counter_lem, update_real_pointer_lem, update_marked_lem,
}
use lock_free_cuckoo_filter.Pointer.{
  TablePointer, get_counter, update_counter, get_new_counter, get_real_pointer, update_real_pointer,
  get_new_real_pointer, get_marked, update_marked, get_new_mark, create_pointer,
}

-- The word with counter 65535, address 0x55d0_1234_5670 and the mark.
abbrev marked_word : TablePointer
marked_word = 0xFFFF55d012345671

create_pointer_test : create_pointer 65535 0x55d012345670 true ≡ some marked_word
unfolding create_pointer
create_pointer_test = refl

-- The counter past the largest one aborts.
create_pointer_aborts : create_pointer 65536 0x55d012345670 false ≡ none
unfolding create_pointer
create_pointer_aborts = refl

update_counter_test : update_counter marked_word 16 ≡ some 0x001055d012345671
unfolding update_counter
update_counter_test = refl

get-create_pointer_example :
    (w : TablePointer) × (create_pointer 65535 0x55d012345670 true ≡ some w)
    × (w < 2 ^ 64)
    × (get_counter w ≡ 65535)
    × (get_real_pointer w ≡ 0x55d012345670)
    × (get_marked w ≡ true)
get-create_pointer_example =
    get-create_pointer 65535 0x55d012345670 true (omega arith) (omega arith)

create_pointer-get_example :
    create_pointer (get_counter marked_word) (get_real_pointer marked_word) (get_marked marked_word)
    ≡ some marked_word
create_pointer-get_example = create_pointer-get marked_word (omega arith)

update_counter_example :
    (update_counter marked_word 16
      ≡ create_pointer 16 (get_real_pointer marked_word) (get_marked marked_word))
    × (get_new_counter marked_word 16 ≡ update_counter marked_word 16)
update_counter_example = update_counter_lem marked_word 16 (omega arith)

update_real_pointer_example :
    (create_pointer (get_counter marked_word) 0x7fff00000010 (get_marked marked_word)
      ≡ some (update_real_pointer marked_word 0x7fff00000010))
    × (get_new_real_pointer marked_word 0x7fff00000010
        ≡ update_real_pointer marked_word 0x7fff00000010)
update_real_pointer_example =
    update_real_pointer_lem marked_word 0x7fff00000010 (omega arith) (omega arith)

update_marked_example :
    (create_pointer (get_counter marked_word) (get_real_pointer marked_word) false
      ≡ some (update_marked marked_word false))
    × (get_new_mark marked_word false ≡ update_marked marked_word false)
update_marked_example = update_marked_lem marked_word false (omega arith)
