-- ===== src/Hash/Mixing.antt =====
-- The steps of the hash functions of cuckoo_filter/hash_utils.cpp, as functions of one word.
use lock_free_cuckoo_filter.Prelude.{
  ℕ, ◌/◌, ◌^◌, ◌<◌, bit_xor, ◌≡◌, ◌∙◌, arith, List, [], ◌∷◌, ◌++◌, refl,
}
use lock_free_cuckoo_filter.Prelude.Bits.{bit_xor-lt, xor_shift_injective, bit_xor_comm}
use lock_free_cuckoo_filter.Hash.{
  add32, mul32, shift32, extend_char, jenkins_round, jenkins_loop, jenkins_finish, hash_word,
}

-- `h += h << k` for the three shifts of `jenkins_hash`
add_shift_3 :
    (x y : ℕ) → x < 2 ^ 32 → y < 2 ^ 32 → add32 x (shift32 x 3) ≡ add32 y (shift32 y 3) → x ≡ y
add_shift_3 x y hx hy e = omega arith

add_shift_10 :
    (x y : ℕ) → x < 2 ^ 32 → y < 2 ^ 32 → add32 x (shift32 x 10) ≡ add32 y (shift32 y 10) → x ≡ y
add_shift_10 x y hx hy e = omega arith

add_shift_15 :
    (x y : ℕ) → x < 2 ^ 32 → y < 2 ^ 32 → add32 x (shift32 x 15) ≡ add32 y (shift32 y 15) → x ≡ y
add_shift_15 x y hx hy e = omega arith

times_odd : (x y : ℕ) → x < 2 ^ 32 → y < 2 ^ 32 → mul32 x 0x45d9f3b ≡ mul32 y 0x45d9f3b → x ≡ y
times_odd x y hx hy e = omega arith

xor_shift-lt : (k x : ℕ) → x < 2 ^ 32 → bit_xor x (x / 2 ^ k) < 2 ^ 32
xor_shift-lt k x h = bit_xor-lt 32 x (x / 2 ^ k) h (omega arith)

add32-lt : (a b : ℕ) → add32 a b < 2 ^ 32
add32-lt a b = omega arith

mul32-lt : (a b : ℕ) → mul32 a b < 2 ^ 32
mul32-lt a b = omega arith

pub jenkins_round-lt : (h c : ℕ) → jenkins_round h c < 2 ^ 32
unfolding jenkins_round
jenkins_round-lt h c = xor_shift-lt 6 _ (add32-lt _ _)

pub jenkins_loop-lt : (key : List ℕ) (h : ℕ) → h < 2 ^ 32 → jenkins_loop key h < 2 ^ 32
unfolding jenkins_loop
jenkins_loop-lt [] h lt = lt
jenkins_loop-lt (c ∷ key) h lt = jenkins_loop-lt key (jenkins_round h c) (jenkins_round-lt h c)

pub jenkins_loop-append :
    (xs ys : List ℕ) (h : ℕ) → jenkins_loop (xs ++ ys) h ≡ jenkins_loop ys (jenkins_loop xs h)
unfolding jenkins_loop
jenkins_loop-append [] ys h = refl
jenkins_loop-append (x ∷ xs) ys h = jenkins_loop-append xs ys (jenkins_round h x)

-- After a round, the sum of the old value and the byte can be told.
round_sum :
    (h h' c c' : ℕ)
    → jenkins_round h c ≡ jenkins_round h' c'
    → add32 h (extend_char c) ≡ add32 h' (extend_char c')
unfolding jenkins_round
round_sum h h' c c' e =
    add_shift_10 _ _ (add32-lt h (extend_char c)) (add32-lt h' (extend_char c'))
      (xor_shift_injective 5 _ _ e)

pub jenkins_round_value :
    (h h' c : ℕ) → h < 2 ^ 32 → h' < 2 ^ 32 → jenkins_round h c ≡ jenkins_round h' c → h ≡ h'
jenkins_round_value h h' c lt lt' e = omega (arith, round_sum h h' c c e)

pub jenkins_round_byte :
    (h c c' : ℕ) → c < 256 → c' < 256 → jenkins_round h c ≡ jenkins_round h c' → c ≡ c'
jenkins_round_byte h c c' lt lt' e = ground (arith, round_sum h h c c' e)

pub jenkins_loop_value :
    (key : List ℕ) (h h' : ℕ)
    → h < 2 ^ 32
    → h' < 2 ^ 32
    → jenkins_loop key h ≡ jenkins_loop key h'
    → h ≡ h'
unfolding jenkins_loop
jenkins_loop_value [] h h' lt lt' e = e
jenkins_loop_value (c ∷ key) h h' lt lt' e = jenkins_round_value h h' c lt lt' (
    jenkins_loop_value key (jenkins_round h c) (jenkins_round h' c) (jenkins_round-lt h c)
      (jenkins_round-lt h' c) e)

pub jenkins_finish_value :
    (h h' : ℕ) → h < 2 ^ 32 → h' < 2 ^ 32 → jenkins_finish h ≡ jenkins_finish h' → h ≡ h'
unfolding jenkins_finish
jenkins_finish_value h h' lt lt' e = add_shift_3 h h' lt lt' (
    xor_shift_injective 10 _ _
      (add_shift_15 _ _ (xor_shift-lt 11 _ (add32-lt h _)) (xor_shift-lt 11 _ (add32-lt h' _)) e))

shift_xor : (x y : ℕ) → bit_xor (x / 2 ^ 16) x ≡ bit_xor (y / 2 ^ 16) y → x ≡ y
shift_xor x y e =
    xor_shift_injective 15 x y (bit_xor_comm x (x / 2 ^ 16) ∙ e ∙ bit_xor_comm (y / 2 ^ 16) y)

shift_xor-lt : (x : ℕ) → x < 2 ^ 32 → bit_xor (x / 2 ^ 16) x < 2 ^ 32
shift_xor-lt x h = bit_xor-lt 32 (x / 2 ^ 16) x (omega arith) h

-- The integer hash sends different 32-bit words to different values.
pub hash_word_injective : (x y : ℕ) → x < 2 ^ 32 → y < 2 ^ 32 → hash_word x ≡ hash_word y → x ≡ y
unfolding hash_word
hash_word_injective x y hx hy e = shift_xor x y (
    times_odd _ _ (shift_xor-lt x hx) (shift_xor-lt y hy) (
      shift_xor _ _ (
        times_odd _ _ (shift_xor-lt _ (mul32-lt _ _)) (shift_xor-lt _ (mul32-lt _ _))
          (shift_xor _ _ e))))
