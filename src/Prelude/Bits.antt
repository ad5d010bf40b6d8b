-- ===== src/Prelude/Bits.antt =====
-- The bits of a number, and what a mask of one bit selects.
use Prim.Native.Nat.{
  ℕ, zero, suc, ◌*◌, ◌/◌, ◌%◌, ◌^◌, ◌≤◌, ◌<◌, min, digits, bit_and, bit_and-bitwise,
}
use mathlib.Core.Path.{◌≡◌, refl, ◌∙◌}
use native.Mathlib.Nat.{mul_assoc}
use native.Mathlib.Omega.{arith}
use native.Mathlib.Numerals.{unary_clauses}

-- The k-th binary digit.
unfoldable pub bit : ℕ → ℕ → ℕ
bit zero x = x % 2
bit (suc k) x = bit k (x / 2)

pub bit-lt : (k x : ℕ) → bit k x < 2
unfolding bit
bit-lt zero x = omega arith
bit-lt (suc k) x = bit-lt k (x / 2)

bit-zero : (k : ℕ) → bit k 0 ≡ 0
unfolding bit
bit-zero zero = refl
bit-zero (suc k) = bit-zero k

power-suc : (k : ℕ) → 2 ^ suc k ≡ 2 ^ k * 2
power-suc k = simp unary_clauses refl

pub power-pos : (k : ℕ) → 0 < 2 ^ k
power-pos zero = omega arith
power-pos (suc k) = rw (power-suc k) (omega (arith, power-pos k))

double-div : (n : ℕ) → n * 2 / 2 ≡ n
double-div n = omega arith

double-mod : (n : ℕ) → n * 2 % 2 ≡ 0
double-mod n = omega arith

-- The digits that two numbers share, from as many as the first argument allows.
abbrev shared : ℕ → ℕ → ℕ → ℕ
shared fuel x mask = digits (λ m. 0) min fuel x mask

shared-zero : (fuel x : ℕ) → shared fuel x 0 ≡ 0
shared-zero zero x = refl
shared-zero (suc fuel) zero = refl
shared-zero (suc fuel) (suc x) = omega (arith, shared-zero fuel (suc x / 2))

shared-power : (fuel k x : ℕ) → x ≤ fuel → shared fuel x (2 ^ k) ≡ bit k x * 2 ^ k
unfolding bit
shared-power zero k zero enough = rw (bit-zero k) (omega arith)
shared-power (suc fuel) k zero enough = rw (bit-zero k) (omega arith)
shared-power zero k (suc x) enough = absurd (omega arith)
shared-power (suc fuel) zero (suc x) enough = omega (arith, shared-zero fuel (suc x / 2))
shared-power (suc fuel) (suc k) (suc x) enough =
    rw
      (
        power-suc k,
        double-div (2 ^ k),
        double-mod (2 ^ k),
        shared-power fuel k (suc x / 2) (omega arith),
      )
      (omega (arith, mul_assoc (bit k (suc x / 2)) (2 ^ k) 2))

-- A mask of one bit keeps that bit.
pub bit_and-bit : (k x : ℕ) → bit_and x (2 ^ k) ≡ bit k x * 2 ^ k
bit_and-bit k x = bit_and-bitwise x (2 ^ k) ∙ shared-power x k x (omega arith)
