-- ===== src/LockFree/Bounds.antt =====
-- The indices of the accesses that cuckoo_filter/lock_free_filter.cpp makes to its vectors.
pub mod Bounded
pub mod Helping
pub mod Relocation
pub mod Insertion
pub mod Searches
pub mod Interleaving
