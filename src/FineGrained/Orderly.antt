-- ===== src/FineGrained/Orderly.antt =====
-- The invariant of the threads and the mutexes of cuckoo_filter/fine_grained_locked_filter.cpp.
use lock_free_cuckoo_filter.Prelude.{
  ℕ, ◌≡◌, ◌≢◌, refl, sym, inl, inr, Bool, true, false, List, ◌==◌, if◌then◌else◌, Bool-cases,
  Option-cases, ==_iff, arith,
}
use mathlib.Core.Path.{subst}
use lock_free_cuckoo_filter.Hash.{Digest}
use lock_free_cuckoo_filter.Sequential.History.{Call}
use lock_free_cuckoo_filter.FineGrained.Program.{
  Program, done, locking, unlocking, reading, writing,
}
use lock_free_cuckoo_filter.FineGrained.Memory.{
  SharedMutex, FineGrainedFilter, new_filter, acquire, release, set_mutex, Progress, stopped,
  blocked, moved, advance,
}
use lock_free_cuckoo_filter.FineGrained.Methods.{session}
use lock_free_cuckoo_filter.FineGrained.Discipline.{
  Held, nothing, taken, IsDisciplined, session-IsDisciplined,
}
use lock_free_cuckoo_filter.FineGrained.Holders.{shares, owns, acquire-shares}
use lock_free_cuckoo_filter.FineGrained.Threads.{System, update, act, Reach, start, later}
use lock_free_cuckoo_filter.FineGrained.Counts.{
  shares_of, owns_of, taken_counts, given_counts, elsewhere, taken-Holds,
}

-- Every thread follows the discipline from what it holds, and the mutexes count the holders right.
pub record IsOrderly (s : System) : Type 0 where
  pub held : ℕ → Held
  pub disciplined : (tid : ℕ) → IsDisciplined nothing (held tid) (s.thread tid)
  pub counted :
      (j m : ℕ)
      → (shares j (s.filter.mutexes m) ≡ shares_of (held j) m)
        × (owns j (s.filter.mutexes m) ≡ owns_of (held j) m)

start-IsOrderly :
    (n : ℕ) (d : Digest) (calls : ℕ → List Call)
    → IsOrderly (record { filter = new_filter n false; thread = λ tid. session n d (calls tid) })
unfolding new_filter shares owns
start-IsOrderly n d calls = record {
  held = λ tid. nothing;
  disciplined = λ tid. session-IsDisciplined n d (calls tid);
  counted = λ j m. (refl, refl);
}

update_thread :
    (held : ℕ → Held) (thread : ℕ → Program (List Bool)) (tid : ℕ) (h : Held)
    (next : Program (List Bool))
    → ((j : ℕ) → IsDisciplined nothing (held j) (thread j))
    → IsDisciplined nothing h next
    → (j : ℕ) → IsDisciplined nothing (update held tid h j) (update thread tid next j)
update_thread held thread tid h next old new j =
    elim (j == tid)
      as (λ c. IsDisciplined nothing (if c then h else held j) (if c then next else thread j)) [
        | true ↦ new
        | false ↦ old j
      ]

-- What one action keeps.
abbrev KeepsProgress : System → ℕ → Progress (List Bool) → Type 0
KeepsProgress s tid stopped = Unit
KeepsProgress s tid blocked = Unit
KeepsProgress s tid (moved f next) =
    IsOrderly (record { filter = f; thread = update s.thread tid next })

-- The thread goes on, the mutexes as they were.
same_mutexes :
    (s : System) (tid : ℕ) (f : FineGrainedFilter) (next : Program (List Bool)) (o : IsOrderly s)
    → f.mutexes ≡ s.filter.mutexes
    → IsDisciplined nothing (o.held tid) next
    → IsOrderly (record { filter = f; thread = update s.thread tid next })
same_mutexes s tid f next o e new = record {
  held = o.held;
  disciplined = λ j. elim (Bool-cases (j == tid)) [
    | inl c ↦ rw c (rw ((==_iff j tid).0 c) new)
    | inr c ↦ rw c (o.disciplined j)
  ];
  counted = λ j m. rw e (o.counted j m);
}

-- Thread `tid` now holds `h`, and mutex `m` is now `x`.
new_mutex :
    (s : System) (tid m : ℕ) (x : SharedMutex) (h : Held) (next : Program (List Bool))
    (o : IsOrderly s)
    → IsDisciplined nothing h next
    → ((j : ℕ)
        → (shares j x ≡ shares_of (update o.held tid h j) m)
          × (owns j x ≡ owns_of (update o.held tid h j) m))
    → ((k : ℕ)
        → k ≢ m
        → (shares_of h k ≡ shares_of (o.held tid) k) × (owns_of h k ≡ owns_of (o.held tid) k))
    → IsOrderly (record { filter = set_mutex s.filter m x; thread = update s.thread tid next })
unfolding set_mutex
new_mutex s tid m x h next o new here there = record {
  held = update o.held tid h;
  disciplined = update_thread o.held s.thread tid h next o.disciplined new;
  counted = λ j k. elim (Bool-cases (k == m)) [
    | inl c ↦ rw c (rw ((==_iff k m).0 c) (here j))
    | inr c ↦
        let differ : k ≢ m = ground arith in
        elim (Bool-cases (j == tid)) [
          | inl mine ↦
              let same : j ≡ tid = (==_iff j tid).0 mine in
              rw (c, mine) (rw ((there k differ).0, (there k differ).1) (rw same (o.counted tid k)))
          | inr other ↦ rw (c, other) (o.counted j k)
        ]
  ];
}

advance-IsOrderly :
    (s : System) (tid : ℕ) (p : Program (List Bool)) (o : IsOrderly s)
    → IsDisciplined nothing (o.held tid) p
    → KeepsProgress s tid (advance tid s.filter p)
unfolding advance
advance-IsOrderly s tid (done a) o e = tt
advance-IsOrderly s tid (locking exclusive m k) o e =
    elim (Option-cases (acquire exclusive tid (s.filter.mutexes m))) [
      | inl q ↦ rw (q, KeepsProgress) tt
      | inr (x, q) ↦
          rw (q, KeepsProgress)
            (new_mutex s tid m x (taken exclusive m) k o e.1
              (λ j.
                let r = acquire-shares exclusive tid j (s.filter.mutexes m) x q in
                taken_counts exclusive o.held tid m j (shares j x) (owns j x) e.0
                  (rw (sym (o.counted j m).0) r.0) (rw (sym (o.counted j m).1) r.1))
              (λ i differ.
                elsewhere (o.held tid) (taken exclusive m) m i (e.0, taken-Holds exclusive m)
                  differ))
    ]
advance-IsOrderly s tid (unlocking m k) o e =
    new_mutex s tid m (release tid (s.filter.mutexes m)) nothing k o e.1
      (λ j. given_counts o.held tid m j (s.filter.mutexes m) e.0 (λ k. o.counted k m))
      (λ i differ.
        let r = elsewhere nothing (o.held tid) m i (refl, e.0) differ in (sym r.0, sym r.1))
advance-IsOrderly s tid (reading true b i k) o e = same_mutexes s tid s.filter _ o refl (e _)
advance-IsOrderly s tid (reading false b i k) o e = same_mutexes s tid s.filter _ o refl (e.1 _)
advance-IsOrderly s tid (writing true b i f k) o e = same_mutexes s tid _ k o refl e
advance-IsOrderly s tid (writing false b i f k) o e = same_mutexes s tid _ k o refl e.1

-- Every state that the threads reach is orderly.
pub Reach-IsOrderly :
    {n : ℕ} {d : Digest} {calls : ℕ → List Call} {s : System} → Reach n d calls s → IsOrderly s
Reach-IsOrderly {n} {d} {calls} start = start-IsOrderly n d calls
Reach-IsOrderly (later {s} r (act tid e)) =
    let o = Reach-IsOrderly r in
    subst (KeepsProgress s tid) e (advance-IsOrderly s tid (s.thread tid) o (o.disciplined tid))
