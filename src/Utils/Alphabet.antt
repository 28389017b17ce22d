-- ===== src/Utils/Alphabet.antt =====
-- What `gen_random_string` of cuckoo_filter/utils.cpp returns, and when it is undefined.
use native.Mathlib.Decide.{ℕ_discrete}
use native.Mathlib.Nat.{mod-lt}
use lock_free_cuckoo_filter.Prelude.{
  ℕ, zero, suc, ◌+◌, ◌%◌, ◌<◌, ◌≤◌, ◌≡◌, ◌≢◌, refl, ◌∙◌, Bool, true, false, ◌&&◌, ◌||◌, List, [],
  ◌∷◌, ◌++◌, length, get_or, ltb, leb, ◌==◌, if◌then◌else◌, and_true, arith,
}
use lock_free_cuckoo_filter.Utils.{
  chars, Generated, generated, aborted, undefined, char_index, random_loop, gen_random_string,
}

-- 0-9, a-z and A-Z
abbrev pub is_alphanumeric : ℕ → Bool
is_alphanumeric c = leb 48 c && leb c 57 || (leb 97 c && leb c 122 || leb 65 c && leb c 90)

abbrev pub AreAlphanumeric : List ℕ → Type 0
AreAlphanumeric [] = Unit
AreAlphanumeric (c ∷ s) = (is_alphanumeric c ≡ true) × AreAlphanumeric s

chars_below : ℕ → Bool
chars_below zero = true
chars_below (suc j) = is_alphanumeric (get_or chars j 0) && chars_below j

-- From the test of all places to one of them
chars_below_lem :
    (n j : ℕ) → chars_below n ≡ true → j < n → is_alphanumeric (get_or chars j 0) ≡ true
unfolding chars_below
chars_below_lem zero j e lt = absurd (omega (arith, lt))
chars_below_lem (suc n) j e lt =
    let both = and_true (is_alphanumeric (get_or chars n 0)) (chars_below n) e in
    elim (ℕ_discrete j n) [
      | yes same ↦ rw same both.0
      | no other ↦ chars_below_lem n j both.1 (omega (arith, lt, other))
    ]

-- All characters but the null byte are letters or digits.
all_below : chars_below 63 ≡ true
unfolding chars_below chars
all_below = refl

below : (r : ℕ) → r % 64 < 64
below r = mod-lt r (omega arith)

char_index-lt : (r : ℕ) → r % 64 ≢ 0 → char_index r < 63
unfolding char_index
char_index-lt r ne = omega (arith, below r, ne)

char_index-zero : (r : ℕ) → r % 64 ≡ 0 → 64 ≤ char_index r
unfolding char_index
char_index-zero r e = omega (arith, e)

length-chars : length chars ≡ 64
unfolding chars
length-chars = refl

-- The draws of `left` rounds from round `i` on are no multiple of 64.
abbrev NoMultiple : (ℕ → ℕ) → (left i : ℕ) → Type 0
NoMultiple rand left i = (j : ℕ) → i ≤ j → j < i + left → rand j % 64 ≢ 0

-- The string has as many characters as `ret` and the rounds that were left, all letters or digits.
abbrev Extended : ℕ → List ℕ → Generated → Type 0
Extended left ret (generated s) = (length s ≡ length ret + left) × AreAlphanumeric s
Extended left ret _ = ⊥

length-append : (ret : List ℕ) (c : ℕ) → length (ret ++ c ∷ []) ≡ length ret + 1
length-append [] c = refl
length-append (x ∷ ret) c = omega (arith, length-append ret c)

append-AreAlphanumeric :
    (ret : List ℕ) (c : ℕ)
    → AreAlphanumeric ret
    → is_alphanumeric c ≡ true
    → AreAlphanumeric (ret ++ c ∷ [])
append-AreAlphanumeric [] c a e = (e, tt)
append-AreAlphanumeric (x ∷ ret) c (ex, a) e = (ex, append-AreAlphanumeric ret c a e)

random_loop-Extended :
    (rand : ℕ → ℕ) (left i : ℕ) (ret : List ℕ)
    → AreAlphanumeric ret
    → NoMultiple rand left i
    → Extended left ret (random_loop rand left i ret)
unfolding random_loop
random_loop-Extended rand zero i ret a h = (omega arith, a)
random_loop-Extended rand (suc left) i ret a h =
    let index = char_index (rand i) in
    let lt = char_index-lt (rand i) (h i (omega arith) (omega arith)) in
    let inside : ltb index (length chars) ≡ true = ground (arith, length-chars) in
    let ret' = ret ++ get_or chars index 0 ∷ [] in
    let a' =
      append-AreAlphanumeric ret (get_or chars index 0) a (chars_below_lem 63 index all_below lt) in
    let r =
      random_loop-Extended rand left (i + 1) ret' a'
        (λ j lo hi. h j (omega (arith, lo)) (omega (arith, hi))) in
    let same : length ret' + left ≡ length ret + suc left =
      omega (arith, length-append ret (get_or chars index 0)) in
    rw inside (longer (random_loop rand left (i + 1) ret') ret ret' left same r)
  where
    longer :
        (g : Generated) (ret ret' : List ℕ) (left : ℕ)
        → length ret' + left ≡ length ret + suc left
        → Extended left ret' g
        → Extended (suc left) ret g
    longer (generated s) ret ret' left same (e, a) = (e ∙ same, a)
    longer aborted ret ret' left same r = r
    longer undefined ret ret' left same r = r

random_loop-undefined :
    (rand : ℕ → ℕ) (left i j : ℕ) (ret : List ℕ)
    → i ≤ j
    → j < i + left
    → rand j % 64 ≡ 0
    → random_loop rand left i ret ≡ undefined
unfolding random_loop
random_loop-undefined rand zero i j ret lo hi e = absurd (omega (arith, lo, hi))
random_loop-undefined rand (suc left) i j ret lo hi e = elim (ℕ_discrete i j) [
  | yes same ↦
      let big = char_index-zero (rand j) e in
      let outside : ltb (char_index (rand i)) (length chars) ≡ false =
        rw same (ground (arith, length-chars)) in
      rw outside refl
  | no other ↦
      let index = char_index (rand i) in
      let rest =
        random_loop-undefined rand left (i + 1) j (ret ++ get_or chars index 0 ∷ [])
          (omega (arith, lo, other)) (omega (arith, hi)) e in
      elim (ltb index (length chars))
        as (λ c.
          ◌≡◌ {A = Generated}
            (if c
              then random_loop rand left (i + 1) (ret ++ get_or chars index 0 ∷ [])
              else undefined)
            undefined) [ true ↦ rest | false ↦ refl ]
]

from_Extended :
    (left : ℕ) (g : Generated)
    → Extended left [] g
    → (s : List ℕ) × (g ≡ generated s) × (length s ≡ left) × AreAlphanumeric s
from_Extended left (generated s) (e, a) = (s, refl, omega (arith, e), a)
from_Extended left aborted r = absurd r
from_Extended left undefined r = absurd r

-- gen_random_string of a positive length returns, if none of that many first draws of rand() is a
-- multiple of 64, a string of that length whose characters are digits and letters only.
pub gen_random_string-AreAlphanumeric :
    (rand : ℕ → ℕ) (len : ℕ)
    → 0 < len
    → ((j : ℕ) → j < len → rand j % 64 ≢ 0)
    → (s : List ℕ) × (gen_random_string rand len ≡ generated s)
      × (length s ≡ len)
      × AreAlphanumeric s
unfolding gen_random_string
gen_random_string-AreAlphanumeric rand len pos h =
    let some_len : (len == 0) ≡ false = ground arith in
    rw some_len (
      from_Extended len (random_loop rand len 0 [])
        (random_loop-Extended rand len 0 [] tt (λ j lo hi. h j (omega (arith, hi)))))

-- gen_random_string of a length above some place j is undefined, by a read outside its array, if
-- draw j of rand() is a multiple of 64.
pub gen_random_string-undefined :
    (rand : ℕ → ℕ) (len j : ℕ) → j < len → rand j % 64 ≡ 0 → gen_random_string rand len ≡ undefined
unfolding gen_random_string
gen_random_string-undefined rand len j lt e =
    let some_len : (len == 0) ≡ false = ground arith in
    rw some_len (random_loop-undefined rand len 0 j [] (omega arith) (omega (arith, lt)) e)
