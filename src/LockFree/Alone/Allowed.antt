-- ===== src/LockFree/Alone/Allowed.antt =====
-- The calls of one thread of cuckoo_filter/lock_free_filter.cpp, and the answers that a bag of
-- fingerprints allows.
use lock_free_cuckoo_filter.Prelude.{
  ℕ, ◌+◌, ◌-◌, ◌%◌, ◌<◌, ◌≡◌, ◌≢◌, ◌⊎◌, Bool, true, List, [], ◌∷◌, ltb, if◌then◌else◌,
}
use lock_free_cuckoo_filter.Hash.{Digest, jenkins_hash}
use lock_free_cuckoo_filter.Table.{Fingerprint}
use lock_free_cuckoo_filter.Table.Copies.{pair_of}
use lock_free_cuckoo_filter.Sequential.History.{Bag, single, multiplicity}
use lock_free_cuckoo_filter.LockFree.Program.{Program, done, ◌>>=◌}
use lock_free_cuckoo_filter.LockFree.Methods.{insert, find, remove}
use lock_free_cuckoo_filter.LockFree.Threads.{Call, inserting, finding, removing}

-- The answer of a call: `find` has found the key where its location is below 8.
unfoldable pub answer_to : (n fuel : ℕ) → Digest → (tid : ℕ) → Call → Program Bool
answer_to n fuel d tid (inserting orders key) = insert n tid fuel d orders key
answer_to n fuel d tid (finding key) = find n tid fuel d key >>= λ location. done (ltb location 8)
answer_to n fuel d tid (removing key) = remove n tid fuel d key

-- The calls one after another, with their answers
unfoldable pub answers_to : (n fuel : ℕ) → Digest → (tid : ℕ) → List Call → Program (List Bool)
answers_to n fuel d tid [] = done []
answers_to n fuel d tid (c ∷ cs) = answer_to n fuel d tid c >>= λ answer.
    answers_to n fuel d tid cs >>= λ answers. done (answer ∷ answers)

-- The bag after a call that gave an answer: an insertion adds a copy if it answered true, and a
-- removal takes one away if it did.
abbrev pub next_bag : ℕ → Digest → Call → Bool → Bag → Bag
next_bag n d (inserting orders key) answer bag =
    λ g p. bag g p + (if answer then single n d key g p else 0)
next_bag n d (finding key) answer bag = bag
next_bag n d (removing key) answer bag = λ g p. bag g p - (if answer then single n d key g p else 0)

-- The bag has a fingerprint that bucket `b` can hold.
abbrev pub IsCrowded : ℕ → ℕ → Bag → Type 0
IsCrowded n b bag = (g : Fingerprint) × (g ≢ []) × (0 < bag g (pair_of n b g))

-- An answer that the bag allows: find and remove say whether it has a copy for the key, and an
-- insertion is true unless the bag has a fingerprint that the key's first bucket can hold.
abbrev pub Allowed : ℕ → Digest → Call → Bag → Bool → Type 0
Allowed n d (inserting orders key) bag answer =
    (answer ≡ true) ⊎ IsCrowded n (jenkins_hash key % n) bag
Allowed n d (finding key) bag answer = answer ≡ ltb 0 (multiplicity n d key bag)
Allowed n d (removing key) bag answer = answer ≡ ltb 0 (multiplicity n d key bag)

abbrev pub AllAllowed : ℕ → Digest → List Call → Bag → List Bool → Type 0
AllAllowed n d [] bag [] = Unit
AllAllowed n d (c ∷ cs) bag (answer ∷ answers) =
    Allowed n d c bag answer × AllAllowed n d cs (next_bag n d c answer bag) answers
AllAllowed n d _ bag _ = ⊥
