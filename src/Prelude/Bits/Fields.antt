-- ===== src/Prelude/Bits/Fields.antt =====
-- `|` of disjoint fields and `&` with a mask as arithmetic.
use Prim.Native.Nat.{ℕ, zero, suc, ◌+◌, ◌-◌, ◌*◌, ◌/◌, ◌%◌, ◌^◌, ◌<◌, bit_and, bit_or}
use mathlib.Core.Path.{◌≡◌, refl, ap}
use native.Mathlib.Nat.{pow-suc, one-le-pow}
use native.Mathlib.Omega.{arith}
use lock_free_cuckoo_filter.Prelude.Bits.Digits.{bit_and_digit, bit_or_digit, digit_induction}

pub bit_or-zero : (a : ℕ) → bit_or a 0 ≡ a
bit_or-zero a =
    digit_induction (λ n. bit_or n 0 ≡ n) refl (λ n ih. omega (arith, bit_or_digit (suc n) 0, ih)) a
      a (omega arith)

pub zero-bit_or : (a : ℕ) → bit_or 0 a ≡ a
zero-bit_or a =
    digit_induction (λ n. bit_or 0 n ≡ n) refl (λ n ih. omega (arith, bit_or_digit 0 (suc n), ih)) a
      a (omega arith)

pub bit_and-zero : (a : ℕ) → bit_and a 0 ≡ 0
bit_and-zero a =
    digit_induction (λ n. bit_and n 0 ≡ 0) refl (λ n ih. omega (arith, bit_and_digit (suc n) 0, ih))
      a a (omega arith)

double_field : (q k : ℕ) → q * 2 ^ suc k ≡ 2 * (q * 2 ^ k)
double_field q k = omega (arith, ap (λ (t : ℕ). q * t) (pow-suc 2 k))

-- `r | q << k` is a sum when `r` fits `k` bits.
pub bit_or_high : (k q r : ℕ) → r < 2 ^ k → bit_or r (q * 2 ^ k) ≡ q * 2 ^ k + r
bit_or_high zero q r h = ground (arith, zero-bit_or q)
bit_or_high (suc k) q r h = ground (
  arith,
  bit_or_digit r (q * 2 ^ suc k),
  double_field q k,
  pow-suc 2 k,
  bit_or_high k q (r / 2) (omega arith),
)

-- `q << k | r` is a sum when `r` fits `k` bits.
pub bit_or_low : (k q r : ℕ) → r < 2 ^ k → bit_or (q * 2 ^ k) r ≡ q * 2 ^ k + r
bit_or_low zero q r h = ground (arith, bit_or-zero q)
bit_or_low (suc k) q r h = ground (
  arith,
  bit_or_digit (q * 2 ^ suc k) r,
  double_field q k,
  pow-suc 2 k,
  bit_or_low k q (r / 2) (omega arith),
)

-- A mask of `k` ones keeps the remainder.
bit_and_ones : (k q r : ℕ) → r < 2 ^ k → bit_and (q * 2 ^ k + r) (2 ^ k - 1) ≡ r
bit_and_ones zero q r h = ground (arith, bit_and-zero (q * 1 + r))
bit_and_ones (suc k) q r h = ground (
  arith,
  bit_and_digit (q * 2 ^ suc k + r) (2 ^ suc k - 1),
  double_field q k,
  pow-suc 2 k,
  bit_and_ones k q (r / 2) (omega arith),
)

pub bit_and_low : (k a : ℕ) → bit_and a (2 ^ k - 1) ≡ a % 2 ^ k
bit_and_low k a = ground (arith, one-le-pow k 2, bit_and_ones k (a / 2 ^ k) (a % 2 ^ k))

-- A mask shifted by `k` sees only the bits from `k` on.
pub bit_and_high :
    (k m q r : ℕ) → r < 2 ^ k → bit_and (q * 2 ^ k + r) (m * 2 ^ k) ≡ bit_and q m * 2 ^ k
bit_and_high zero m q r h = ground (arith, ap (λ (t : ℕ). bit_and t m))
bit_and_high (suc k) m q r h = ground (
  arith,
  bit_and_digit (q * 2 ^ suc k + r) (m * 2 ^ suc k),
  double_field q k,
  double_field m k,
  double_field (bit_and q m) k,
  pow-suc 2 k,
  bit_and_high k m q (r / 2) (omega arith),
)
