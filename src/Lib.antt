-- ===== src/Lib.antt =====
-- The cuckoo filters of lock_free_cuckoo_filter, as definitions and theorems.
--
-- A cuckoo filter keeps a 16-byte fingerprint of each key in one of two buckets of four slots. The
-- second bucket is computed from the first and the fingerprint, so that an item can be moved without
-- its key. The repository has a filter behind one mutex, one with a lock for each group of buckets
-- and a lock-free one whose slots are 64-bit words that are changed by compare-and-swap.
--
-- The parts, and where they are modelled:
--
-- Pointer: cuckoo_filter/pointer_utils.cpp and cuckoo_filter/include/pointer_utils.h. The functions
--   keep their names; a function that writes through a reference returns the new word, and `none`
--   stands for abort(). Pointer/Fields has the layout of a word, the other files its theorems.
-- Hash: cuckoo_filter/hash_utils.cpp, with the wrap-around of `uint32_t` written out. `hash_word` and
--   `hash_string` are the two overloads of `hash`. OpenSSL's MD5 is the parameter `Digest`, of which
--   only the length of its result is used.
-- Index: the expression of the method get_next_hash_index, which all filters share.
-- Common: the constants of cuckoo_filter/include/common.h.
-- Table: a table of strings, the effect of a write on it, and the number of copies of a fingerprint
--   in a pair of buckets, which is how the theorems see a table: `copies n t g p` counts the slots
--   that hold `g` in the two buckets of pair `p`.
-- Sequential: cuckoo_filter/seq_filter.cpp, method by method. A method takes the filter and returns
--   its answer with the filter that it leaves; `none` stands for a call that waits for the mutex for
--   ever. `insert_table`, `find_table` and `remove_table` are the bodies between lock and unlock, and
--   each of their loops is a function by recursion on the rounds that are left. `rand` is the
--   sequence of numbers that rand() returns. Sequential/History states the contract: a bag of
--   fingerprints (`expect`), which sequences of calls are compared with.
-- FineGrained: cuckoo_filter/fine_grained_locked_filter.cpp. A method is a program (FineGrained/Program)
--   that locks and unlocks one of the eight shared mutexes and reads and writes slots; a lock object
--   is `with_lock`, since each is released at its unlock or at the return that ends it.
--   FineGrained/Memory has the filter and the mutexes, with what one action does (`advance`) and a
--   run of a program alone (`run`). FineGrained/Refinement compares such runs with Sequential.
--   FineGrained/Threads interleaves threads; FineGrained/Discipline says which mutex a method holds
--   where, and FineGrained/Orderly has the invariant of the threads and the mutexes.
-- LockFree: cuckoo_filter/lock_free_filter.cpp. A method is a `Program`, a tree of the accesses to
--   shared memory that it makes: the read of a slot, a compare-and-swap, the write of a hazard
--   pointer, the read of an entry's string, the allocation of an entry, the retirement of one.
--   LockFree/Memory says what each access does (`advance`) and runs a program alone (`run`);
--   LockFree/Relocate has help_relocate and relocate, LockFree/Methods has insert, find and remove,
--   LockFree/Lifecycle has the constructors, the destructor, reset and free_hazard_pointers;
--   LockFree/Destruction lists the entries that the destructor and reset delete.
--   LockFree/Threads lets any number of threads make their accesses in any order, by the step relation
--   `Step` and the states that it reaches, `Reach`; LockFree/Safety has the invariant of these states,
--   and LockFree/Bounds the indices of their accesses.
--   LockFree/Alone runs calls alone on a table without marks: LockFree/Alone/Still drops the hazard
--   pointers, LockFree/Alone/Contents is the table of fingerprints that a memory stands for,
--   LockFree/Alone/Walk the path of a relocation in it, and LockFree/Alone/History compares the calls
--   of one thread with what LockFree/Alone/Allowed says of a bag of fingerprints, as
--   LockFree/Alone/Restart does for the calls after a reset; LockFree/Alone/Stuck and LockFree/Alone/Overflow
--   are about memories on which a call does not go on, and LockFree/Hazards compares
--   free_hazard_pointers with a filter of the list of retired pointers.
-- Utils: gen_random_string of cuckoo_filter/utils.cpp. `rand` is the sequence of numbers that rand()
--   returns, and a read outside the array of characters is `undefined`.
-- Tests: the theorems at concrete inputs, and runs of the code.
--
-- Bounds and fuel. The loops of the source that have no bound of their own (the retries of the
-- lock-free methods, and the jump back in relocate) run on fuel, and a program that has used it up is
-- `out_of_fuel`: it stops where it stands. The theorems about threads hold for every fuel, so they
-- speak of every prefix of an execution of the code, which may run for ever. A thread that runs alone
-- needs 42 units at most for an insertion: the four paths from a bucket have 40 full slots together at
-- most, each round of `insert` on full buckets makes one of them shorter, and a move needs two units.
-- Its counters grow by at most 40 with each call. The loops of the
-- filters with locks are bounded by the constants, and need no fuel.
--
-- The theorems on the sequential filter are about tables whose size is a power of two (`IsPower`),
-- since in others the pairs of buckets are not disjoint. The size is below 2^31, as an `int` is.
--
-- Not modelled: the timer of cuckoo_filter/include/cycle_timer.h, the macros of
-- cuckoo_filter/include/marcos.h, the printing (print_pointer and the verbose mode), the tests and the
-- benchmark. An abort() ends its thread and not the process. Memory is sequentially consistent, which the atomic operations of x86 that the
-- code compiles to do not promise for its plain reads. Entries are allocated at new addresses,
-- below 2^48, and none is freed while threads run, as no method calls free_hazard_pointers, which
-- is modelled as one step. The order that std::shuffle gives is a parameter.
pub mod Prelude
pub mod Pointer
pub mod Hash
pub mod Index
pub mod Common
pub mod Table
pub mod Sequential
pub mod FineGrained
pub mod LockFree
pub mod Utils
mod Tests
