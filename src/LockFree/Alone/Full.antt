-- ===== src/LockFree/Alone/Full.antt =====
-- The rounds of `insert` of cuckoo_filter/lock_free_filter.cpp on full buckets, run alone.
pub mod Kicks
pub mod OneRound
pub mod Rounds
pub mod Relocations
