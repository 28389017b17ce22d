-- ===== src/FineGrained/Threads.antt =====
-- Threads that share one filter and take their actions in any order.
use lock_free_cuckoo_filter.Prelude.{
  ℕ, ◌≡◌, Bool, true, false, Option, none, some, List, ◌==◌, if◌then◌else◌,
}
use lock_free_cuckoo_filter.Hash.{Digest}
use lock_free_cuckoo_filter.Sequential.History.{Call}
use lock_free_cuckoo_filter.FineGrained.Program.{Program, reading, writing}
use lock_free_cuckoo_filter.FineGrained.Memory.{FineGrainedFilter, new_filter, moved, advance}
use lock_free_cuckoo_filter.FineGrained.Methods.{session}

pub record System : Type 0 where
  pub filter : FineGrainedFilter
  pub thread : ℕ → Program (List Bool)

abbrev pub update {ℓ} : {A : Type ℓ} → (ℕ → A) → ℕ → A → ℕ → A
update f i v j = if j == i then v else f j

-- Thread `tid` takes one action.
pub data Step (s : System) : System → Type 0 where
  act :
      (tid : ℕ) {f : FineGrainedFilter} {next : Program (List Bool)}
      → advance tid s.filter (s.thread tid) ≡ moved f next
      → Step s (record { filter = f; thread = update s.thread tid next })

-- The states that the threads can bring a new filter of `n` buckets to.
pub data Reach (n : ℕ) (d : Digest) (calls : ℕ → List Call) : System → Type 0 where
  start :
      Reach n d calls
        (record { filter = new_filter n false; thread = λ tid. session n d (calls tid) })
  later : {s t : System} → Reach n d calls s → Step s t → Reach n d calls t

-- An access to a slot
pub record Access : Type 0 where
  pub writes : Bool
  pub swap : Bool
  pub bucket : ℕ
  pub index : ℕ

-- The access that a thread is about to make.
unfoldable pub next_access : {A : Type 0} → Program A → Option Access
next_access (reading swap b i k) =
    some (record { writes = false; swap = swap; bucket = b; index = i })
next_access (writing swap b i f k) =
    some (record { writes = true; swap = swap; bucket = b; index = i })
next_access _ = none
