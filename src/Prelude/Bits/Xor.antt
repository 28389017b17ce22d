-- ===== src/Prelude/Bits/Xor.antt =====
-- Exclusive or: cancellation, bounds, and words mixed with their own high bits.
use Prim.Native.Nat.{ℕ, zero, suc, ◌+◌, ◌/◌, ◌^◌, ◌≤◌, ◌<◌, bit_xor}
use mathlib.Core.Path.{◌≡◌, refl, sym, ap, ◌∙◌}
use native.Mathlib.Nat.{pow-suc, div-div-eq-div-mul, mul_comm}
use native.Mathlib.Omega.{arith}
use lock_free_cuckoo_filter.Prelude.Bits.Digits.{xor_digit, digit_induction}

xor_cancel_fuel : (n a b : ℕ) → a ≤ n → b ≤ n → bit_xor (bit_xor a b) b ≡ a
xor_cancel_fuel zero zero zero p q = refl
xor_cancel_fuel zero zero (suc b) p q = absurd (omega arith)
xor_cancel_fuel zero (suc a) b p q = absurd (omega arith)
xor_cancel_fuel (suc n) a b p q =
    let e : bit_xor a b / 2 ≡ bit_xor (a / 2) (b / 2) = omega (arith, xor_digit a b) in
    let s = ap (λ (t : ℕ). bit_xor t (b / 2)) e in
    omega (
      arith,
      xor_digit (bit_xor a b) b,
      xor_digit a b,
      s,
      xor_cancel_fuel n (a / 2) (b / 2) (omega arith) (omega arith),
    )

-- What is combined twice with the same number comes back.
pub xor_cancel : (a b : ℕ) → bit_xor (bit_xor a b) b ≡ a
xor_cancel a b = xor_cancel_fuel (a + b) a b (omega arith) (omega arith)

-- The result needs no more bits than the operands.
pub bit_xor-lt : (k a b : ℕ) → a < 2 ^ k → b < 2 ^ k → bit_xor a b < 2 ^ k
bit_xor-lt zero zero zero p q = omega arith
bit_xor-lt zero zero (suc b) p q = absurd (omega arith)
bit_xor-lt zero (suc a) b p q = absurd (omega arith)
bit_xor-lt (suc k) a b p q = omega (
  arith,
  xor_digit a b,
  pow-suc 2 k,
  bit_xor-lt k (a / 2) (b / 2) (omega (arith, pow-suc 2 k)) (omega (arith, pow-suc 2 k)),
)

div_swap : (x d e : ℕ) → x / d / e ≡ x / e / d
div_swap x d e =
    div-div-eq-div-mul x d e ∙ ap (λ (t : ℕ). x / t) (mul_comm d e) ∙ sym (div-div-eq-div-mul x e d)

module _ (e : ℕ) where
  mix_fuel : (n x y : ℕ) → x ≤ n → y ≤ n → bit_xor x (x / 2 / e) ≡ bit_xor y (y / 2 / e) → x ≡ y
  mix_fuel zero zero zero p q h = refl
  mix_fuel zero zero (suc y) p q h = absurd (omega arith)
  mix_fuel zero (suc x) y p q h = absurd (omega arith)
  mix_fuel (suc n) x y p q h =
      let halves : x / 2 ≡ y / 2 = mix_fuel n (x / 2) (y / 2) (omega arith) (omega arith) (
        omega (
          arith,
          xor_digit x (x / 2 / e),
          xor_digit y (y / 2 / e),
          ap (λ (t : ℕ). bit_xor (x / 2) t) (div_swap (x / 2) e 2),
          ap (λ (t : ℕ). bit_xor (y / 2) t) (div_swap (y / 2) e 2),
        )) in
      omega (arith, xor_digit x (x / 2 / e), xor_digit y (y / 2 / e), ap (λ (t : ℕ). t / e) halves)

-- `x ^= x >> (k + 1)` loses nothing.
pub xor_shift_injective :
    (k x y : ℕ) → bit_xor x (x / 2 ^ suc k) ≡ bit_xor y (y / 2 ^ suc k) → x ≡ y
xor_shift_injective k x y h = mix_fuel (2 ^ k) (x + y) x y (omega arith) (omega arith) split
  where
    halved : (z : ℕ) → z / 2 / 2 ^ k ≡ z / 2 ^ suc k
    halved z =
        div-div-eq-div-mul z 2 (2 ^ k)
        ∙ ap (λ (t : ℕ). z / t) (mul_comm 2 (2 ^ k) ∙ sym (pow-suc 2 k))

    split : bit_xor x (x / 2 / 2 ^ k) ≡ bit_xor y (y / 2 / 2 ^ k)
    split = rw (halved x, halved y) h

bit_xor_comm_fuel : (n a b : ℕ) → a ≤ n → b ≤ n → bit_xor a b ≡ bit_xor b a
bit_xor_comm_fuel zero zero zero p q = refl
bit_xor_comm_fuel zero zero (suc b) p q = absurd (omega arith)
bit_xor_comm_fuel zero (suc a) b p q = absurd (omega arith)
bit_xor_comm_fuel (suc n) a b p q = omega (
  arith,
  xor_digit a b,
  xor_digit b a,
  bit_xor_comm_fuel n (a / 2) (b / 2) (omega arith) (omega arith),
)

pub bit_xor_comm : (a b : ℕ) → bit_xor a b ≡ bit_xor b a
bit_xor_comm a b = bit_xor_comm_fuel (a + b) a b (omega arith) (omega arith)

-- Below the one bit of `2 ^ k`, exclusive or is a sum.
pub xor_top : (k r : ℕ) → r < 2 ^ k → bit_xor (2 ^ k) r ≡ 2 ^ k + r
xor_top zero zero h = refl
xor_top zero (suc r) h = absurd (omega arith)
xor_top (suc k) r h = omega (
  arith,
  pow-suc 2 k,
  xor_digit (2 ^ suc k) r,
  ap (λ (t : ℕ). bit_xor t (r / 2)) halved,
  xor_top k (r / 2) (omega (arith, pow-suc 2 k)),
)
  where
    halved : 2 ^ suc k / 2 ≡ 2 ^ k
    halved = omega (arith, pow-suc 2 k)

pub zero-bit_xor : (a : ℕ) → bit_xor 0 a ≡ a
zero-bit_xor a =
    digit_induction (λ n. bit_xor 0 n ≡ n) refl (λ n ih. omega (arith, xor_digit 0 (suc n), ih)) a a
      (omega arith)
