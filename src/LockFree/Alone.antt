-- ===== src/LockFree/Alone.antt =====
-- Calls that run alone, while no item is marked.
pub mod Runs
pub mod Search
pub mod Find
pub mod Insert
pub mod Still
pub mod Contents
pub mod Walk
pub mod Stores
pub mod Marking
pub mod Moves
pub mod Kick
pub mod Entries
pub mod Shift
pub mod Full
pub mod Held
pub mod Contract
pub mod Answers
pub mod RemoveRounds
pub mod Removal
pub mod Allowed
pub mod NewMemory
pub mod History
pub mod Restart
pub mod Stuck
pub mod Overflow
