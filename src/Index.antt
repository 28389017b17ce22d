-- ===== src/Index.antt =====
-- The arithmetic of `get_next_hash_index`, which the three filters of cuckoo_filter/ share: from a
-- bucket and the hash of a fingerprint to the other bucket of that fingerprint.
pub mod Partner
use lock_free_cuckoo_filter.Prelude.{ℕ, ◌%◌, bit_xor}

-- `(curr_idx ^ (hash % table_size)) % table_size`, on 32-bit words
unfoldable pub next_index : ℕ → ℕ → ℕ → ℕ
next_index table_size curr_idx hash = bit_xor curr_idx (hash % table_size) % table_size
