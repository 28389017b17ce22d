-- ===== src/FineGrained/Races.antt =====
-- Races and deadlocks of the threads of cuckoo_filter/fine_grained_locked_filter.cpp.
use lock_free_cuckoo_filter.Prelude.{
  ℕ, ◌%◌, ◌≡◌, ◌≢◌, refl, sym, ap, ◌∙◌, ◌⊎◌, inl, inr, Bool, true, false, Option, none, some, List,
  Bool-cases, Option-cases, arith,
}
use mathlib.Core.Path.{subst}
use lock_free_cuckoo_filter.Hash.{Digest}
use lock_free_cuckoo_filter.Sequential.History.{Call}
use lock_free_cuckoo_filter.FineGrained.Program.{
  Program, done, locking, unlocking, reading, writing,
}
use lock_free_cuckoo_filter.FineGrained.Memory.{
  FineGrainedFilter, num_mutexes, acquire, blocked, moved, advance,
}
use lock_free_cuckoo_filter.FineGrained.Discipline.{Held, nothing, owning, Holds, IsDisciplined}
use lock_free_cuckoo_filter.FineGrained.Holders.{owns_alone, acquire-none}
use lock_free_cuckoo_filter.FineGrained.Threads.{System, Reach, Access, next_access}
use lock_free_cuckoo_filter.FineGrained.Counts.{shares_of, owns_of}
use lock_free_cuckoo_filter.FineGrained.Orderly.{IsOrderly, Reach-IsOrderly}

-- Two accesses to one bucket, one of which writes
abbrev pub Conflict : Access → Access → Type 0
Conflict a b = (a.bucket ≡ b.bucket) × ((a.writes ≡ true) ⊎ (b.writes ≡ true))

some_eq : {a b : Access} → ◌≡◌ {A = Option Access} (some a) (some b) → a ≡ b
some_eq {a} e = ap (λ (o : Option Access). elim o [ none ↦ a | some x ↦ x ]) e

abbrev swap_of : Access → Bool
swap_of a = a.swap

abbrev writes_of : Access → Bool
writes_of a = a.writes

abbrev bucket_of : Access → ℕ
bucket_of a = a.bucket

-- What a thread holds when it is about to make an access that is no swap.
access-Holds :
    (p : Program (List Bool)) (h : Held) (a : Access)
    → IsDisciplined nothing h p
    → next_access p ≡ some a
    → a.swap ≡ false
    → Holds h (a.bucket % num_mutexes) × (a.writes ≡ true → h ≡ owning (a.bucket % num_mutexes))
unfolding next_access
access-Holds (done x) h a e q w = cc
access-Holds (locking c m k) h a e q w = cc
access-Holds (unlocking m k) h a e q w = cc
access-Holds (reading true b i k) h a e q w = absurd (cc (ap swap_of (some_eq q)))
access-Holds (reading false b i k) h a e q w =
    (rw (sym (ap bucket_of (some_eq q))) e.0, λ x. absurd (cc (ap writes_of (some_eq q))))
access-Holds (writing true b i f k) h a e q w = absurd (cc (ap swap_of (some_eq q)))
access-Holds (writing false b i f k) h a e q w =
    (rw (sym (ap bucket_of (some_eq q))) (inr e.0), λ x. rw (sym (ap bucket_of (some_eq q))) e.0)

-- The holder of a mutex for writing is its only holder.
alone :
    {s : System} (o : IsOrderly s) (tid tid' m : ℕ)
    → o.held tid ≡ owning m
    → Holds (o.held tid') m
    → tid ≡ tid'
alone {s} o tid tid' m e h =
    owns_alone tid tid' (s.filter.mutexes m)
      (let c = (o.counted tid m).1 ∙ ap (λ (h : Held). owns_of h m) e in ground arith)
      (elim h [
        | inl e' ↦
            let c = (o.counted tid' m).0 ∙ ap (λ (h : Held). shares_of h m) e' in inr (ground arith)
        | inr e' ↦
            let c = (o.counted tid' m).1 ∙ ap (λ (h : Held). owns_of h m) e' in inl (ground arith)
      ])

-- In every state that any number of threads reach by calling insert, find and remove of one new
-- filter with eight mutexes, in any interleaving: if two different threads are about to access the
-- same bucket and one of them is about to write, then one of the two accesses belongs to the swap
-- of a replace phase.
pub no_race :
    {n : ℕ} {d : Digest} {calls : ℕ → List Call} {s : System} (tid tid' : ℕ) (a a' : Access)
    → Reach n d calls s
    → tid ≢ tid'
    → next_access (s.thread tid) ≡ some a
    → next_access (s.thread tid') ≡ some a'
    → Conflict a a'
    → (a.swap ≡ true) ⊎ (a'.swap ≡ true)
no_race {s = s} tid tid' a a' r differ q q' c = elim (Bool-cases a.swap) [
  | inl t ↦ inl t
  | inr f ↦ elim (Bool-cases a'.swap) [
    | inl t ↦ inr t
    | inr f' ↦
        let o = Reach-IsOrderly r in
        let m = a.bucket % num_mutexes in
        let (h, mine) = access-Holds (s.thread tid) (o.held tid) a (o.disciplined tid) q f in
        let (h', yours) =
          access-Holds (s.thread tid') (o.held tid') a' (o.disciplined tid') q' f' in
        let same : a'.bucket % num_mutexes ≡ m = ap (λ (b : ℕ). b % num_mutexes) (sym c.0) in
        let there : Holds (o.held tid') m = subst (Holds (o.held tid')) same h' in
        absurd (
          differ (elim (c.1) [
            | inl w ↦ alone o tid tid' m (mine w) there
            | inr w ↦ sym (alone o tid' tid m (yours w ∙ ap owning same) h)
          ]))
  ]
]

-- A thread that cannot act waits for a mutex that is taken.
waiting :
    (tid : ℕ) (f : FineGrainedFilter) (p : Program (List Bool))
    → advance tid f p ≡ blocked
    → (c : Bool) × (m : ℕ) × (acquire c tid (f.mutexes m) ≡ none)
unfolding advance
waiting tid f (done a) e = cc
waiting tid f (locking c m k) e = elim (Option-cases (acquire c tid (f.mutexes m))) [
  | inl q ↦ (c, m, q)
  | inr (x, q) ↦ absurd (cc (rw (q, advance) at e))
]
waiting tid f (unlocking m k) e = cc
waiting tid f (reading c b i k) e = cc
waiting tid f (writing c b i g k) e = cc

-- A thread that holds a mutex has something to do that is no wait.
holder_moves :
    (tid : ℕ) (f : FineGrainedFilter) (p : Program (List Bool)) (h : Held)
    → IsDisciplined nothing h p
    → h ≢ nothing
    → (f' : FineGrainedFilter) × (next : Program (List Bool)) × (advance tid f p ≡ moved f' next)
unfolding advance
holder_moves tid f (done a) h e busy = absurd (busy e)
holder_moves tid f (locking c m k) h e busy = absurd (busy e.0)
holder_moves tid f (unlocking m k) h e busy = (_, _, refl)
holder_moves tid f (reading c b i k) h e busy = (_, _, refl)
holder_moves tid f (writing c b i g k) h e busy = (_, _, refl)

-- In every state that any number of threads reach by calling insert, find and remove of one new
-- filter with eight mutexes: if a thread waits for a mutex then some thread can act.
pub no_deadlock :
    {n : ℕ} {d : Digest} {calls : ℕ → List Call} {s : System} (tid : ℕ)
    → Reach n d calls s
    → advance tid s.filter (s.thread tid) ≡ blocked
    → (other : ℕ) × (f : FineGrainedFilter) × (next : Program (List Bool)) × (advance other s.filter
          (s.thread other)
        ≡ moved f next)
no_deadlock {s = s} tid r q =
    let o = Reach-IsOrderly r in
    let (c, m, e) = waiting tid s.filter (s.thread tid) q in
    let (j, h) = acquire-none c tid (s.filter.mutexes m) e in
    let busy : o.held j ≢ nothing = λ idle.
      let x = (o.counted j m).0 ∙ ap (λ (g : Held). shares_of g m) idle in
      let y = (o.counted j m).1 ∙ ap (λ (g : Held). owns_of g m) idle in omega (arith, x, y, h) in
    let (f, next, e') = holder_moves j s.filter (s.thread j) (o.held j) (o.disciplined j) busy in
    (j, f, next, e')
