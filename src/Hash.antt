-- ===== src/Hash.antt =====
-- cuckoo_filter/hash_utils.cpp: the hash functions, on strings as lists of bytes and on 32-bit
-- words. The digest behind `md5_fingerprint` is OpenSSL's, and is a parameter.
pub mod Mixing
pub mod Collisions
use lock_free_cuckoo_filter.Prelude.{
  ℕ, ◌+◌, ◌-◌, ◌*◌, ◌/◌, ◌%◌, ◌^◌, ◌<◌, bit_xor, ◌≡◌, List, [], ◌∷◌, ltb, if◌then◌else◌, length,
}

-- `uint32_t` addition, product and left shift
abbrev pub add32 : ℕ → ℕ → ℕ
add32 a b = (a + b) % 2 ^ 32

abbrev pub mul32 : ℕ → ℕ → ℕ
mul32 a b = (a * b) % 2 ^ 32

abbrev pub shift32 : ℕ → ℕ → ℕ
shift32 a k = (a * 2 ^ k) % 2 ^ 32

-- A `char` is signed on x86: from 128 on it is extended by ones when it is added to a `uint32_t`.
abbrev pub extend_char : ℕ → ℕ
extend_char c = if ltb c 128 then c else c + (2 ^ 32 - 256)

-- One round of the loop of `jenkins_hash`
unfoldable pub jenkins_round : ℕ → ℕ → ℕ
jenkins_round hash_val c =
    let added = add32 hash_val (extend_char c) in
    let spread = add32 added (shift32 added 10) in bit_xor spread (spread / 2 ^ 6)

unfoldable pub jenkins_loop : List ℕ → ℕ → ℕ
jenkins_loop [] hash_val = hash_val
jenkins_loop (c ∷ key) hash_val = jenkins_loop key (jenkins_round hash_val c)

unfoldable pub jenkins_finish : ℕ → ℕ
jenkins_finish hash_val =
    let first = add32 hash_val (shift32 hash_val 3) in
    let second = bit_xor first (first / 2 ^ 11) in add32 second (shift32 second 15)

unfoldable pub jenkins_hash : List ℕ → ℕ
unfolding jenkins_round jenkins_loop jenkins_finish
jenkins_hash key = jenkins_finish (jenkins_loop key 0)

-- `hash(uint32_t)`
unfoldable pub hash_word : ℕ → ℕ
hash_word x =
    let first = mul32 (bit_xor (x / 2 ^ 16) x) 0x45d9f3b in
    let second = mul32 (bit_xor (first / 2 ^ 16) first) 0x45d9f3b in
    bit_xor (second / 2 ^ 16) second

-- `hash(const std::string&)`
unfoldable pub hash_string : List ℕ → ℕ
unfolding jenkins_hash
hash_string key = jenkins_hash key

-- OpenSSL's digest of a string. MD5 is documented to return 16 bytes.
pub record Digest : Type 0 where
  pub evp_md5 : List ℕ → List ℕ
  pub length-evp_md5 : (key : List ℕ) → length (evp_md5 key) ≡ 16

unfoldable pub md5_fingerprint : Digest → List ℕ → List ℕ
md5_fingerprint d key = d.evp_md5 key
