-- ===== src/Prelude/Int.antt =====
-- Signed integers over the native numbers, for `time_t` and the integers of JSON. Both have 64 bits
-- in the source; sums here do not wrap.
use Prim.Native.Nat.{ℕ, suc, ◌+◌, ◌-◌, ◌*◌, ◌/◌, ◌≤◌}
use mathlib.Core.Path.{◌≡◌}
use mathlib.Core.Bool.{Bool}
use native.Mathlib.Omega.{arith}
use libbrowserid.Prelude.Tests.{ltb, if◌then◌else◌}

-- `negsuc n` is -(n + 1).
pub data ℤ : Type 0 where
  pos : ℕ → ℤ
  negsuc : ℕ → ℤ

-- What an integer has above zero and below it.
abbrev pub above : ℤ → ℕ
above (pos n) = n
above (negsuc n) = 0

abbrev pub below : ℤ → ℕ
below (pos n) = 0
below (negsuc n) = suc n

abbrev pub between : ℕ → ℕ → ℤ
between up down = if ltb up down then negsuc (down - up - 1) else pos (up - down)

infixl 65 ◌+ℤ◌ ◌-ℤ◌
infix 50 ◌≤ℤ◌
unfoldable pub ◌+ℤ◌ : ℤ → ℤ → ℤ
x +ℤ y = between (above x + above y) (below x + below y)

unfoldable pub ◌-ℤ◌ : ℤ → ℤ → ℤ
x -ℤ y = between (above x + below y) (below x + above y)

abbrev pub ◌≤ℤ◌ : ℤ → ℤ → Type 0
x ≤ℤ y = above x + below y ≤ above y + below x

abbrev pub ltb_ℤ : ℤ → ℤ → Bool
ltb_ℤ x y = ltb (above x + below y) (above y + below x)

-- `* 1000` and `/ 1000`, which rounds towards zero.
unfoldable pub thousand_times : ℤ → ℤ
thousand_times x = between (above x * 1000) (below x * 1000)

unfoldable pub thousandth : ℤ → ℤ
thousandth x = between (above x / 1000) (below x / 1000)

pub +ℤ_lem : (x y : ℤ) → above (x +ℤ y) + (below x + below y) ≡ below (x +ℤ y) + (above x + above y)
unfolding ◌+ℤ◌
+ℤ_lem x y = ground arith

pub -ℤ_lem : (x y : ℤ) → above (x -ℤ y) + (below x + above y) ≡ below (x -ℤ y) + (above x + below y)
unfolding ◌-ℤ◌
-ℤ_lem x y = ground arith

pub thousandth-thousand_times : (x : ℤ) → thousandth (thousand_times x) ≡ x
unfolding thousandth thousand_times
thousandth-thousand_times (pos n) = ground arith
thousandth-thousand_times (negsuc n) = ground arith
