-- ===== src/Utils.antt =====
-- cuckoo_filter/utils.cpp: the random strings that serve as keys.
pub mod Alphabet
use Prim.Native.Char.{code}
use Prim.Native.String.{String}
use lock_free_cuckoo_filter.Prelude.{
  ℕ, zero, suc, ◌+◌, ◌-◌, ◌%◌, ◌^◌, List, [], ◌∷◌, ◌++◌, length, get_or, ltb, ◌==◌, if◌then◌else◌,
}

-- The bytes of an ASCII literal
abbrev codes : String → List ℕ
codes String.[] = []
codes (String.◌∷◌ c s) = code c ∷ codes s

-- The array `chars`, with the null byte that ends the literal
unfoldable pub chars : List ℕ
chars = codes "01234567890abcdefghijklmnopqrstuvwxyzABCDEFGHIJKLMNOPQRSTUVWXYZ" ++ 0 ∷ []

-- How a call ends: with a string, by `abort()`, or by a read out of the bounds of `chars`, which is
-- undefined.
pub data Generated : Type 0 where
  generated : List ℕ → Generated
  aborted undefined : Generated

-- `rand() % sizeof(chars) - 1`, which is computed in `size_t`, of 64 bits
unfoldable pub char_index : ℕ → ℕ
char_index r = (r % 64 + (2 ^ 64 - 1)) % 2 ^ 64

-- The loop, with the rounds that are left; `rand` is the sequence of the numbers that rand() returns.
unfoldable pub random_loop : (ℕ → ℕ) → (left i : ℕ) → List ℕ → Generated
unfolding chars char_index
random_loop rand zero i ret = generated ret
random_loop rand (suc left) i ret =
    let index = char_index (rand i) in
    let rest = random_loop rand left (i + 1) (ret ++ get_or chars index 0 ∷ []) in
    if ltb index (length chars) then rest else undefined

unfoldable pub gen_random_string : (ℕ → ℕ) → ℕ → Generated
unfolding random_loop
gen_random_string rand len = if len == 0 then aborted else random_loop rand len 0 []
