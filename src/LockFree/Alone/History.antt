-- ===== src/LockFree/Alone/History.antt =====
-- The calls of one thread alone on the filter of cuckoo_filter/lock_free_filter.cpp, against the bag of
-- fingerprints that specifies the sequential filter.
use lock_free_cuckoo_filter.Prelude.{
  ℕ, zero, suc, ◌+◌, ◌*◌, ◌%◌, ◌^◌, ◌<◌, ◌≤◌, ◌≡◌, ◌≢◌, refl, ap, ◌∙◌, inl, inr, Bool, false,
  Bool-cases, List, [], ◌∷◌, length, ltb, arith,
}
use native.Mathlib.Nat.{mod-lt}
use lock_free_cuckoo_filter.Hash.{Digest, jenkins_hash, md5_fingerprint}
use lock_free_cuckoo_filter.Table.{Fingerprint, HashTable, slot}
use lock_free_cuckoo_filter.Table.Copies.{pair_of, copies, copies-empty_table}
use lock_free_cuckoo_filter.Sequential.History.{Bag}
use lock_free_cuckoo_filter.Sequential.Valid.{IsPower, IsPower-pos, md5_fingerprint_nonempty}
use lock_free_cuckoo_filter.LockFree.Program.{done}
use lock_free_cuckoo_filter.LockFree.Memory.{Memory, new_memory, returned, run}
use lock_free_cuckoo_filter.LockFree.Methods.{find}
use lock_free_cuckoo_filter.LockFree.Threads.{Call, inserting, finding, removing}
use lock_free_cuckoo_filter.LockFree.Bounds.Interleaving.{HaveSlots}
use lock_free_cuckoo_filter.LockFree.Alone.Runs.{run_after, run-done, with_hazards}
use lock_free_cuckoo_filter.LockFree.Alone.Contents.{
  contents, contents-IsShaped, IsSteady, IsSteady-le, still-IsSteady,
}
use lock_free_cuckoo_filter.LockFree.Alone.Contract.{held, Inserted, insert-Inserted}
use lock_free_cuckoo_filter.LockFree.Alone.Held.{present-copies}
use lock_free_cuckoo_filter.LockFree.Alone.Answers.{find_answer}
use lock_free_cuckoo_filter.LockFree.Alone.Removal.{remove-Removed}
use lock_free_cuckoo_filter.LockFree.Alone.Allowed.{
  answer_to, answers_to, next_bag, IsCrowded, Allowed, AllAllowed,
}
use lock_free_cuckoo_filter.LockFree.Alone.NewMemory.{new_memory-contents, new_memory-IsSteady}

-- The table holds what the bag does.
abbrev pub Shows : ℕ → Memory → Bag → Type 0
Shows n m bag = (g : Fingerprint) (p : ℕ) → g ≢ [] → held n m g p ≡ bag g p

-- How one call ends, from a memory whose counters are at most `c`
record Answered (n c fuel : ℕ) (d : Digest) (tid : ℕ) (call : Call) (m : Memory) (bag : Bag)
    : Type 0 where
  answer : Bool
  last : Memory
  runs : run (answer_to n fuel d tid call) m ≡ returned answer last
  steady : IsSteady n (c + 40) last
  next_entry : last.fresh ≤ m.fresh + 32
  allowed : Allowed n d call bag answer
  shows : Shows n last (next_bag n d call answer bag)

split_slots :
    (call : Call) (cs : List Call) → HaveSlots (call ∷ cs) → HaveSlots (call ∷ []) × HaveSlots cs
split_slots (inserting orders key) cs ok = ((ok.0, tt), ok.1)
split_slots (finding key) cs ok = (tt, ok)
split_slots (removing key) cs ok = (tt, ok)

no_room-IsCrowded :
    {n c : ℕ} (d : Digest) (key : List ℕ) (m last : Memory) (answer : Bool) (bag : Bag)
    → IsPower n
    → Shows n m bag
    → Inserted n c d key m answer last
    → answer ≡ false
    → IsCrowded n (jenkins_hash key % n) bag
no_room-IsCrowded {n} d key m last answer bag pw h x e =
    let b = jenkins_hash key % n in
    let g = slot (contents last) b 0 in
    let hg = (x.no_room e 0 (omega arith)).0 in
    let here : 0 < held n last g (pair_of n b g) =
      present-copies pw (contents last) (contents-IsShaped last x.steady.grid) b
        (mod-lt (jenkins_hash key) (IsPower-pos pw)) g hg b 0 (inl refl) (omega arith) refl in
    let same : held n last g (pair_of n b g) ≡ held n m g (pair_of n b g) + 0 =
      x.balance g (pair_of n b g) hg ∙ rw e refl in
    (g, hg, omega (arith, here, same, h g (pair_of n b g) hg))

module _ {n : ℕ} (fuel : ℕ) (d : Digest) (tid : ℕ) (pw : IsPower n) (enough : 42 ≤ suc fuel) where
  call-Answered :
      (c : ℕ) (call : Call) (m : Memory) (bag : Bag)
      → HaveSlots (call ∷ [])
      → IsSteady n c m
      → c + 40 < 2 ^ 16
      → m.fresh < 2 ^ 48
      → Shows n m bag
      → Answered n c (suc fuel) d tid call m bag
  unfolding answer_to
  call-Answered c (inserting orders key) m bag ok s low room h =
      let (answer, last, e, x) =
        insert-Inserted tid (suc fuel) d orders key m pw ok.0 s enough low room in
      record {
        answer = answer;
        last = last;
        runs = e;
        steady = x.steady;
        next_entry = omega (arith, x.next_entry);
        allowed = elim (Bool-cases answer) [
          | inl t ↦ inl t
          | inr t ↦ inr (no_room-IsCrowded d key m last answer bag pw h x t)
        ];
        shows = λ g p hg. omega (arith, x.balance g p hg, h g p hg);
      }
  call-Answered c (finding key) m bag ok s low room h =
      let (location, hazards, e, says) = find_answer tid fuel d key m pw s in
      record {
        answer = ltb location 8;
        last = with_hazards m hazards;
        runs =
            run_after (find n tid (suc fuel) d key) (λ l. done (ltb l 8)) m (with_hazards m hazards)
              location e
            ∙ run-done (ltb location 8) (with_hazards m hazards);
        steady = IsSteady-le (omega arith) (still-IsSteady m (with_hazards m hazards) refl s);
        next_entry = omega arith;
        allowed = says ∙ ap (ltb 0) (h (md5_fingerprint d key) _ (md5_fingerprint_nonempty d key));
        shows = h;
      }
  call-Answered c (removing key) m bag ok s low room h =
      let (answer, last, e, says, x) = remove-Removed tid fuel d key m pw s (omega (arith, low)) in
      record {
        answer = answer;
        last = last;
        runs = e;
        steady = IsSteady-le (omega arith) x.steady;
        next_entry = omega (arith, x.next_entry);
        allowed = says ∙ ap (ltb 0) (h (md5_fingerprint d key) _ (md5_fingerprint_nonempty d key));
        shows = λ g p hg. omega (arith, x.balance g p hg, h g p hg);
      }

  answers_to-run :
      (call : Call) (cs : List Call) (m m₁ last : Memory) (answer : Bool) (answers : List Bool)
      → run (answer_to n (suc fuel) d tid call) m ≡ returned answer m₁
      → run (answers_to n (suc fuel) d tid cs) m₁ ≡ returned answers last
      → run (answers_to n (suc fuel) d tid (call ∷ cs)) m ≡ returned (answer ∷ answers) last
  unfolding answers_to
  answers_to-run call cs m m₁ last answer answers e e' =
      run_after (answer_to n (suc fuel) d tid call) _ m m₁ answer e
      ∙ run_after (answers_to n (suc fuel) d tid cs) (λ (rest : List Bool). done (answer ∷ rest)) m₁
          last answers e'
      ∙ run-done (answer ∷ answers) last

  pub answers_to-AllAllowed :
      (cs : List Call) (c : ℕ) (m : Memory) (bag : Bag)
      → HaveSlots cs
      → IsSteady n c m
      → c + 40 * length cs < 2 ^ 16
      → m.fresh + 32 * length cs < 2 ^ 48
      → Shows n m bag
      → (answers : List Bool) × (last : Memory) × (run (answers_to n (suc fuel) d tid cs) m
          ≡ returned answers last)
        × AllAllowed n d cs bag answers
  unfolding answers_to
  answers_to-AllAllowed [] c m bag ok s low room h = ([], m, run-done [] m, tt)
  answers_to-AllAllowed (call ∷ cs) c m bag ok s low room h =
      let (first, rest) = split_slots call cs ok in
      let x = call-Answered c call m bag first s (omega (arith, low)) (omega (arith, room)) h in
      let (answers, last, e, allowed) =
        answers_to-AllAllowed cs (c + 40) x.last (next_bag n d call x.answer bag) rest x.steady
          (omega (arith, low)) (omega (arith, room, x.next_entry)) x.shows in
      (
        x.answer ∷ answers,
        last,
        answers_to-run call cs m x.last last x.answer answers x.runs e,
        (x.allowed, allowed),
      )

low_addresses :
    (n threads : ℕ) (cs : List Call)
    → 40 * length cs < 2 ^ 16
    → (new_memory n threads).fresh + 32 * length cs < 2 ^ 48
unfolding new_memory
low_addresses n threads cs low = omega (arith, low)

-- Refinement: the calls of a thread alone on a new lock-free filter whose size is a power of two
-- below 2^31, where 40 times the number of calls is below 2^16, every shuffle gives slot indices
-- below 4 and the fuel is 42 or more, all return, and the answers are allowed by the bag of
-- fingerprints: an insertion that answered true adds a copy of the key's fingerprint to the key's
-- pair of buckets, one that answered false leaves the bag, which then has a fingerprint of a pair
-- that the key's first bucket belongs to, find and remove say whether the bag has a copy for the
-- key, and a removal that answered true takes one away.
pub new_filter_answers :
    (n threads fuel : ℕ) (d : Digest) (tid : ℕ) (cs : List Call)
    → IsPower n
    → HaveSlots cs
    → 42 ≤ fuel
    → 40 * length cs < 2 ^ 16
    → (answers : List Bool) × (last : Memory) × (run
          (answers_to n fuel d tid cs)
          (new_memory n threads)
        ≡ returned answers last)
      × AllAllowed n d cs (λ g p. 0) answers
unfolding copies
new_filter_answers n threads zero d tid cs pw ok enough low = absurd (omega (arith, enough))
new_filter_answers n threads (suc fuel) d tid cs pw ok enough low =
    answers_to-AllAllowed fuel d tid pw enough cs 0 (new_memory n threads) (λ g p. 0) ok
      (new_memory-IsSteady n threads) (omega (arith, low)) (low_addresses n threads cs low)
      (λ g p hg.
        ap (λ (t : HashTable). copies n t g p) (new_memory-contents n threads)
        ∙ copies-empty_table n n g p hg)
