-- ===== src/LockFree/Threads.antt =====
-- Threads that share the memory of one filter of cuckoo_filter/lock_free_filter.cpp and make their
-- accesses in any order.
use native.Mathlib.Decide.{ℕ_discrete}
use mathlib.Core.Logic.{ite}
use lock_free_cuckoo_filter.Prelude.{ℕ, ◌≡◌, List, [], ◌∷◌}
use lock_free_cuckoo_filter.Hash.{Digest}
use lock_free_cuckoo_filter.LockFree.Program.{Program, done, ◌>>=◌}
use lock_free_cuckoo_filter.LockFree.Memory.{Memory, new_memory, moved, advance}
use lock_free_cuckoo_filter.LockFree.Methods.{insert, find, remove}

-- A call of one of the three methods, with the orders that an insertion's shuffles give.
pub data Call : Type 0 where
  inserting : (ℕ → List ℕ) → List ℕ → Call
  finding : List ℕ → Call
  removing : List ℕ → Call

-- A thread makes its calls one after another.
unfoldable pub session : (n fuel : ℕ) → Digest → (tid : ℕ) → List Call → Program (Unit {0})
session n fuel d tid [] = done tt
session n fuel d tid (inserting orders key ∷ calls) =
    insert n tid fuel d orders key >>= λ answer. session n fuel d tid calls
session n fuel d tid (finding key ∷ calls) =
    find n tid fuel d key >>= λ location. session n fuel d tid calls
session n fuel d tid (removing key ∷ calls) =
    remove n tid fuel d key >>= λ answer. session n fuel d tid calls

pub record System : Type 0 where
  pub memory : Memory
  pub thread : ℕ → Program (Unit {0})

abbrev pub update_thread :
    (ℕ → Program (Unit {0})) → ℕ → Program (Unit {0}) → ℕ → Program (Unit {0})
update_thread f i m j = ite (ℕ_discrete i j) m (f j)

-- Thread `tid` makes one atomic access.
pub data Step (s : System) : System → Type 0 where
  access :
      (tid : ℕ) {m : Memory} {next : Program (Unit {0})}
      → advance s.memory (s.thread tid) ≡ moved m next
      → Step s (record { memory = m; thread = update_thread s.thread tid next })

-- The states that the threads can bring a new filter of `n` buckets to.
pub data Reach (n threads fuel : ℕ) (d : Digest) (calls : ℕ → List Call) : System → Type 0 where
  start :
      Reach n threads fuel d calls
        (record { memory = new_memory n threads; thread = λ tid. session n fuel d tid (calls tid) })
  later :
      {s t : System} → Reach n threads fuel d calls s → Step s t → Reach n threads fuel d calls t
