-- ===== src/Table.antt =====
-- The hash table of the two locked filters (include/seq_filter.h and
-- include/fine_grained_locked_filter.h): a vector of buckets, each an array of fingerprints, where
-- the empty string marks an empty slot.
pub mod Shape
pub mod Weigh
pub mod Copies
use lock_free_cuckoo_filter.Prelude.{
  ℕ, ◌+◌, ◌≤◌, ◌<◌, ◌≡◌, List, [], get_or, set, replicate, length,
}
use lock_free_cuckoo_filter.Common.{num_items_per_entry}

-- `std::string`, as its bytes
abbrev pub Fingerprint : Type 0
Fingerprint = List ℕ

abbrev pub Bucket : Type 0
Bucket = List Fingerprint

abbrev pub HashTable : Type 0
HashTable = List Bucket

-- `hash_table.resize(capacity)` of an empty vector
unfoldable pub empty_table : ℕ → HashTable
empty_table capacity = replicate capacity (replicate num_items_per_entry [])

-- `hash_table[b][i]`, read and assigned. An index out of range reads as the empty string, and a
-- write there changes nothing.
unfoldable pub slot : HashTable → ℕ → ℕ → Fingerprint
slot t b i = get_or (get_or t b []) i []

unfoldable pub write : HashTable → ℕ → ℕ → Fingerprint → HashTable
write t b i f = set t b (set (get_or t b []) i f)

-- The table has `n` buckets of four slots each.
pub record IsShaped (n : ℕ) (t : HashTable) : Type 0 where
  pub buckets : length t ≡ n
  pub slots : (b : ℕ) → b < n → length (get_or t b []) ≡ num_items_per_entry
