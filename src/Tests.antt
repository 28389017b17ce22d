-- ===== src/Tests.antt =====
-- The theorems at concrete inputs, and runs of the code.
mod PointerTests
mod HashTests
mod SequentialTests
mod UtilsTests
mod LockFreeTests
mod AloneTests
mod FlawTests
mod FineGrainedTests
mod HazardTests
mod LifecycleTests
