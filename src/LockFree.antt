-- ===== src/LockFree.antt =====
-- cuckoo_filter/lock_free_filter.cpp and include/lock_free_filter.h: the lock-free filter. A method
-- is a program of atomic accesses to shared memory, so that it can run alone or interleaved.
pub mod Program
pub mod Memory
pub mod Relocate
pub mod Methods
pub mod Lifecycle
pub mod Destruction
pub mod Threads
pub mod Safety
pub mod Alone
pub mod Reclaim
pub mod Hazards
pub mod Bounds
