-- ===== src/LockFree/Safety.antt =====
-- The safety of memory in cuckoo_filter/lock_free_filter.cpp.
pub mod Words
pub mod Guarded
pub mod Relocation
pub mod Calls
pub mod Interleaving
