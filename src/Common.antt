-- ===== src/Common.antt =====
-- cuckoo_filter/include/common.h: the constants that the three filters share.
use lock_free_cuckoo_filter.Prelude.{ℕ}

abbrev pub num_items_per_entry : ℕ
num_items_per_entry = 4

abbrev pub num_max_kicks : ℕ
num_max_kicks = 10
