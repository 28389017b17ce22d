-- ===== src/FineGrained/Discipline.antt =====
-- The discipline of the locks in cuckoo_filter/fine_grained_locked_filter.cpp: which mutex a method
-- holds at each of its actions.
use lock_free_cuckoo_filter.Prelude.{
  ℕ, zero, suc, ◌%◌, ◌≡◌, refl, ◌⊎◌, inl, inr, Bool, true, false, not, ◌&&◌, List, [], ◌∷◌, length,
  str_eq, is_empty, ◌==◌, if◌then◌else◌,
}
use lock_free_cuckoo_filter.Common.{num_items_per_entry, num_max_kicks}
use lock_free_cuckoo_filter.Hash.{Digest, jenkins_hash, md5_fingerprint}
use lock_free_cuckoo_filter.Table.{Fingerprint}
use lock_free_cuckoo_filter.Sequential.History.{Call, inserting, finding, removing}
use lock_free_cuckoo_filter.FineGrained.Program.{
  Program, done, locking, unlocking, reading, writing, ◌>>=◌, with_lock,
}
use lock_free_cuckoo_filter.FineGrained.Memory.{num_mutexes}
use lock_free_cuckoo_filter.FineGrained.Methods.{
  fill_slots_locked, find_slots_locked, clear_slots_locked, kick_rounds, get_next_hash_index,
  insert, find, remove, request, session,
}

-- The mutex that a thread holds
pub data Held : Type 0 where
  nothing : Held
  sharing owning : ℕ → Held

abbrev pub Holds : Held → ℕ → Type 0
Holds h m = (h ≡ sharing m) ⊎ (h ≡ owning m)

abbrev pub taken : Bool → ℕ → Held
taken false m = sharing m
taken true m = owning m

-- A program that starts with `h` held and ends with `end` held takes a mutex only when it holds none,
-- reads a bucket only while it holds its mutex, and writes it only while it holds it exclusively.
abbrev pub IsDisciplined : {A : Type 0} → (end h : Held) → Program A → Type 0
IsDisciplined end h (done a) = h ≡ end
IsDisciplined end h (locking exclusive m k) =
    (h ≡ nothing) × IsDisciplined end (taken exclusive m) k
IsDisciplined end h (unlocking m k) = Holds h m × IsDisciplined end nothing k
IsDisciplined end h (reading true b i k) = (s : Fingerprint) → IsDisciplined end h (k s)
IsDisciplined end h (reading false b i k) =
    Holds h (b % num_mutexes) × ((s : Fingerprint) → IsDisciplined end h (k s))
IsDisciplined end h (writing true b i f k) = IsDisciplined end h k
IsDisciplined end h (writing false b i f k) = (h ≡ owning (b % num_mutexes)) × IsDisciplined end h k

IsDisciplined->>= :
    {A B : Type 0} (middle end h : Held) (p : Program A) (f : A → Program B)
    → IsDisciplined middle h p
    → ((a : A) → IsDisciplined end middle (f a))
    → IsDisciplined end h (p >>= f)
IsDisciplined->>= middle end h (done a) f e g = rw e (g a)
IsDisciplined->>= middle end h (locking exclusive m k) f e g =
    (e.0, IsDisciplined->>= middle end _ k f e.1 g)
IsDisciplined->>= middle end h (unlocking m k) f e g =
    (e.0, IsDisciplined->>= middle end _ k f e.1 g)
IsDisciplined->>= middle end h (reading true b i k) f e g =
    λ s. IsDisciplined->>= middle end h (k s) f (e s) g
IsDisciplined->>= middle end h (reading false b i k) f e g =
    (e.0, λ s. IsDisciplined->>= middle end h (k s) f (e.1 s) g)
IsDisciplined->>= middle end h (writing true b i w k) f e g = IsDisciplined->>= middle end h k f e g
IsDisciplined->>= middle end h (writing false b i w k) f e g =
    (e.0, IsDisciplined->>= middle end h k f e.1 g)

IsDisciplined-if :
    {A : Type 0} (c : Bool) (end h : Held) (p q : Program A)
    → IsDisciplined end h p
    → IsDisciplined end h q
    → IsDisciplined end h (if c then p else q)
IsDisciplined-if true end h p q e e' = e
IsDisciplined-if false end h p q e e' = e'

with_lock-IsDisciplined :
    {A : Type 0} (exclusive : Bool) (m : ℕ) (p : Program A)
    → IsDisciplined (taken exclusive m) (taken exclusive m) p
    → IsDisciplined nothing nothing (with_lock exclusive m p)
with_lock-IsDisciplined true m p e =
    (refl, IsDisciplined->>= _ nothing _ p (λ a. unlocking m (done a)) e (λ a. (inr refl, refl)))
with_lock-IsDisciplined false m p e =
    (refl, IsDisciplined->>= _ nothing _ p (λ a. unlocking m (done a)) e (λ a. (inl refl, refl)))

fill_slots_locked-IsDisciplined :
    (k i b : ℕ) (f : Fingerprint)
    → let h = owning (b % num_mutexes) in IsDisciplined h h (fill_slots_locked k i b f)
unfolding fill_slots_locked
fill_slots_locked-IsDisciplined zero i b f = refl
fill_slots_locked-IsDisciplined (suc k) i b f = (
  inr refl,
  λ s.
      IsDisciplined-if (is_empty s) _ _ (writing false b i f (done true)) _ (refl, refl)
        (fill_slots_locked-IsDisciplined k (suc i) b f),
)

find_slots_locked-IsDisciplined :
    (k i b : ℕ) (f : Fingerprint)
    → let h = sharing (b % num_mutexes) in IsDisciplined h h (find_slots_locked k i b f)
unfolding find_slots_locked
find_slots_locked-IsDisciplined zero i b f = refl
find_slots_locked-IsDisciplined (suc k) i b f = (
  inl refl,
  λ s.
      IsDisciplined-if (str_eq s f) _ _ (done true) _ refl
        (find_slots_locked-IsDisciplined k (suc i) b f),
)

clear_slots_locked-IsDisciplined :
    (k i b : ℕ) (f : Fingerprint)
    → let h = owning (b % num_mutexes) in IsDisciplined h h (clear_slots_locked k i b f)
unfolding clear_slots_locked
clear_slots_locked-IsDisciplined zero i b f = refl
clear_slots_locked-IsDisciplined (suc k) i b f = (
  inr refl,
  λ s.
      IsDisciplined-if (not (length s == 0) && str_eq s f) _ _ (writing false b i [] (done true)) _
        (refl, refl) (clear_slots_locked-IsDisciplined k (suc i) b f),
)

-- A locked loop, and what follows if it answers false
stage-IsDisciplined :
    (m : ℕ) (c : Bool) (p q : Program Bool)
    → IsDisciplined (taken c m) (taken c m) p
    → IsDisciplined nothing nothing q
    → IsDisciplined nothing nothing (with_lock c m p >>= λ b. if b then done true else q)
stage-IsDisciplined m c p q e e' =
    IsDisciplined->>= nothing nothing nothing (with_lock c m p) _ (with_lock-IsDisciplined c m p e)
      (λ b. IsDisciplined-if b nothing nothing (done true) q refl e')

kick_rounds-IsDisciplined :
    (n : ℕ) (rand : ℕ → ℕ) (k r b : ℕ) (f : Fingerprint)
    → IsDisciplined nothing nothing (kick_rounds n rand k r b f)
unfolding kick_rounds
kick_rounds-IsDisciplined n rand zero r b f = refl
kick_rounds-IsDisciplined n rand (suc k) r b f = λ kicked.
    let next = get_next_hash_index n b kicked in
    stage-IsDisciplined (next % num_mutexes) true
      (fill_slots_locked num_items_per_entry 0 next kicked)
      (kick_rounds n rand k (suc r) next kicked)
      (fill_slots_locked-IsDisciplined num_items_per_entry 0 next kicked)
      (kick_rounds-IsDisciplined n rand k (suc r) next kicked)

request-IsDisciplined :
    (n : ℕ) (d : Digest) (c : Call) → IsDisciplined nothing nothing (request n d c)
unfolding request insert find remove
request-IsDisciplined n d (inserting rand key) =
    let f = md5_fingerprint d key in
    let hash1 = jenkins_hash key % n in
    let hash2 = get_next_hash_index n hash1 f in
    let start = if rand 0 % 2 == 0 then hash1 else hash2 in
    let fill = λ (b : ℕ). fill_slots_locked num_items_per_entry 0 b f in
    let kicks = kick_rounds n rand num_max_kicks 1 start f in
    stage-IsDisciplined (hash1 % num_mutexes) true (fill hash1)
      (with_lock true (hash2 % num_mutexes) (fill hash2) >>= λ b. if b then done true else kicks)
      (fill_slots_locked-IsDisciplined num_items_per_entry 0 hash1 f)
      (stage-IsDisciplined (hash2 % num_mutexes) true (fill hash2) kicks
        (fill_slots_locked-IsDisciplined num_items_per_entry 0 hash2 f)
        (kick_rounds-IsDisciplined n rand num_max_kicks 1 start f))
request-IsDisciplined n d (finding key) =
    let f = md5_fingerprint d key in
    let hash1 = jenkins_hash key % n in
    let hash2 = get_next_hash_index n hash1 f in
    let look = λ (b : ℕ). find_slots_locked num_items_per_entry 0 b f in
    stage-IsDisciplined (hash1 % num_mutexes) false (look hash1)
      (with_lock false (hash2 % num_mutexes) (look hash2))
      (find_slots_locked-IsDisciplined num_items_per_entry 0 hash1 f)
      (with_lock-IsDisciplined false (hash2 % num_mutexes) (look hash2)
        (find_slots_locked-IsDisciplined num_items_per_entry 0 hash2 f))
request-IsDisciplined n d (removing key) =
    let f = md5_fingerprint d key in
    let hash1 = jenkins_hash key % n in
    let hash2 = get_next_hash_index n hash1 f in
    let clear = λ (b : ℕ). clear_slots_locked num_items_per_entry 0 b f in
    stage-IsDisciplined (hash1 % num_mutexes) true (clear hash1)
      (with_lock true (hash2 % num_mutexes) (clear hash2))
      (clear_slots_locked-IsDisciplined num_items_per_entry 0 hash1 f)
      (with_lock-IsDisciplined true (hash2 % num_mutexes) (clear hash2)
        (clear_slots_locked-IsDisciplined num_items_per_entry 0 hash2 f))

pub session-IsDisciplined :
    (n : ℕ) (d : Digest) (cs : List Call) → IsDisciplined nothing nothing (session n d cs)
unfolding session
session-IsDisciplined n d [] = refl
session-IsDisciplined n d (c ∷ cs) =
    IsDisciplined->>= nothing nothing nothing (request n d c) _ (request-IsDisciplined n d c) (λ a.
      IsDisciplined->>= nothing nothing nothing (session n d cs) _ (session-IsDisciplined n d cs)
        (λ xs. refl))
