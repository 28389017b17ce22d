-- ===== src/Hash/Collisions.antt =====
-- What the collisions of `jenkins_hash` cannot be.
use lock_free_cuckoo_filter.Prelude.{ℕ, ◌^◌, ◌<◌, List, arith}
use lock_free_cuckoo_filter.Hash.{jenkins_hash}

-- The hash value is a 32-bit word.
pub jenkins_hash-lt : (key : List ℕ) → jenkins_hash key < 2 ^ 32
unfolding jenkins_hash
jenkins_hash-lt key = omega arith
