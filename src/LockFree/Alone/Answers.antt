-- ===== src/LockFree/Alone/Answers.antt =====
-- `find` of cuckoo_filter/lock_free_filter.cpp alone answers by the copies that the table holds.
use lock_free_cuckoo_filter.Prelude.{
  ℕ, suc, ◌-◌, ◌%◌, ◌<◌, ◌≡◌, ◌≢◌, inl, inr, refl, List, [], ltb, arith,
}
use native.Mathlib.Nat.{mod-lt}
use lock_free_cuckoo_filter.Hash.{Digest, jenkins_hash, md5_fingerprint}
use lock_free_cuckoo_filter.Table.{Fingerprint}
use lock_free_cuckoo_filter.Table.Copies.{partner, pair_of}
use lock_free_cuckoo_filter.Sequential.Valid.{IsPower, IsPower-pos, md5_fingerprint_nonempty}
use lock_free_cuckoo_filter.LockFree.Program.{Address}
use lock_free_cuckoo_filter.LockFree.Memory.{Memory, returned, run}
use lock_free_cuckoo_filter.LockFree.Methods.{find}
use lock_free_cuckoo_filter.LockFree.Alone.Runs.{with_hazards, IsQuiet}
use lock_free_cuckoo_filter.LockFree.Alone.Find.{Located, find-Located}
use lock_free_cuckoo_filter.LockFree.Alone.Contents.{contents, contents-IsShaped, IsSteady}
use lock_free_cuckoo_filter.LockFree.Alone.Contract.{held}
use lock_free_cuckoo_filter.LockFree.Alone.Moves.{next-partner}
use lock_free_cuckoo_filter.LockFree.Alone.Held.{
  present-copies, absent-copies, Stores-slot, slot-Stores,
}

pub IsSteady-IsQuiet : {n c : ℕ} (m : Memory) → IsSteady n c m → IsQuiet m
IsSteady-IsQuiet m s b i = (
  (s.words b i).unmarked,
  elim (s.words b i).target [ inl e ↦ inl e | inr t ↦ inr (t.str, t.live) ],
)

module _ {n c : ℕ} (m : Memory) (pw : IsPower n) (s : IsSteady n c m) (b : ℕ) (hb : b < n)
    (f : Fingerprint) (hf : f ≢ []) where
  -- Where a search ends says whether the pair holds a copy.
  pub Located-held :
      (location : ℕ)
      → Located m f b (partner n b f) location
      → ltb location 8 ≡ ltb 0 (held n m f (pair_of n b f))
  Located-held location (inl (e, none_there)) =
      let zero_held = absent-copies pw (contents m) (contents-IsShaped m s.grid) b hb f hf (λ i hi.
        (
          λ q. (none_there i hi).0 (slot-Stores m f b i s hf q),
          λ q. (none_there i hi).1 (slot-Stores m f (partner n b f) i s hf q),
        )) in
      ground arith
  Located-held location (inr (inl (lt, there))) =
      let some_held =
        present-copies pw (contents m) (contents-IsShaped m s.grid) b hb f hf b location (inl refl)
          lt (Stores-slot m f b location s there) in
      ground arith
  Located-held location (inr (inr (lo, hi, there))) =
      let some_held =
        present-copies pw (contents m) (contents-IsShaped m s.grid) b hb f hf (partner n b f)
          (location - 4) (inr refl) (omega (arith, hi))
          (Stores-slot m f (partner n b f) (location - 4) s there) in
      ground arith

-- find of a thread that runs alone, with one unit of fuel or more, on a steady lock-free filter
-- whose size is a power of two below 2^31 returns a location, which is below 8 exactly if the table
-- holds a copy of the key's fingerprint in the key's pair of buckets, and changes hazard pointers
-- only.
pub find_answer :
    {n c : ℕ} (tid fuel : ℕ) (d : Digest) (key : List ℕ) (m : Memory)
    → IsPower n
    → IsSteady n c m
    → let f = md5_fingerprint d key in
      let hash1 = jenkins_hash key % n in
      (location : ℕ) × (h : List (List Address)) × (run (find n tid (suc fuel) d key) m
        ≡ returned location (with_hazards m h))
      × (ltb location 8 ≡ ltb 0 (held n m f (pair_of n hash1 f)))
find_answer {n} tid fuel d key m pw s =
    let f = md5_fingerprint d key in
    let hash1 = jenkins_hash key % n in
    let (location, h, e, at) = find-Located n tid fuel d key m (IsSteady-IsQuiet m s) in
    (
      location,
      h,
      e,
      Located-held m pw s hash1 (mod-lt (jenkins_hash key) (IsPower-pos pw)) f
          (md5_fingerprint_nonempty d key) location (rw (next-partner n hash1 f) at at),
    )
