-- ===== src/Prelude/Bits.antt =====
-- The mask of the low bits is a remainder, at every width.
use Prim.Native.Nat.{
  ℕ, zero, suc, ◌+◌, ◌*◌, ◌/◌, ◌%◌, ◌≤◌, ◌<◌, min, bit_and, digits, bit_and-bitwise,
}
use mathlib.Core.Path.{◌≡◌, ap}
use native.Mathlib.Omega.{arith}

-- The number of `k` ones, and the power of two above it.
abbrev pub ones : ℕ → ℕ
ones zero = 0
ones (suc k) = 2 * ones k + 1

abbrev pub pow2 : ℕ → ℕ
pow2 zero = 1
pow2 (suc k) = 2 * pow2 k

positive : (k : ℕ) → 0 < pow2 k
positive zero = omega arith
positive (suc k) = omega (arith, positive k)

mod_double : (m a : ℕ) → 0 < m → a % (2 * m) ≡ a / 2 % m * 2 + a % 2
mod_double m a h = grind arith

zero-mod_lem : (m : ℕ) → 0 < m → 0 % m ≡ 0
zero-mod_lem m h = grind arith

-- The digits common to a number and a mask, with any count that is enough for the number.
common : (n k a : ℕ) → a ≤ n → digits (λ b. zero) min n a (ones k) ≡ a % pow2 k
common zero k zero h = omega (arith, zero-mod_lem (pow2 k) (positive k))
common zero k (suc a) h = absurd (omega arith)
common (suc n) k zero h = omega (arith, zero-mod_lem (pow2 k) (positive k))
common (suc n) zero (suc a) h = omega (arith, common n zero (suc a / 2) (omega arith))
common (suc n) (suc k) (suc a) h = omega (
  arith,
  common n k (suc a / 2) (omega arith),
  ap (digits (λ b. zero) min n (suc a / 2))
      (let e : (2 * ones k + 1) / 2 ≡ ones k = omega arith in e),
  mod_double (pow2 k) (suc a) (positive k),
)

pub bit_and-ones : (k a : ℕ) → bit_and a (ones k) ≡ a % pow2 k
bit_and-ones k a = omega (arith, bit_and-bitwise a (ones k), common a k a (omega arith))
