-- ===== src/FineGrained.antt =====
-- cuckoo_filter/fine_grained_locked_filter.cpp: the filter with eight shared mutexes.
pub mod Program
pub mod Memory
pub mod Methods
pub mod Alone
pub mod Refinement
pub mod Discipline
pub mod Holders
pub mod Threads
pub mod Counts
pub mod Orderly
pub mod Races
