-- ===== src/Common/Number.antt =====
-- Signed integers over the native numbers, and the values of JavaScript's type `number` as far as
-- the program tells them apart: by their sign, and by `Number.isInteger`.
use Prim.Native.Nat.{ℕ, ◌-◌}
use mathlib.Core.Bool.{Bool, true, false}
use tickethub_backend.Common.Tests.{leb, if◌then◌else◌}

-- `negsuc n` is -(n + 1).
pub data ℤ : Type 0 where
  pos : ℕ → ℤ
  negsuc : ℕ → ℤ

-- a - b, as an integer.
abbrev pub sub_ℕ : ℕ → ℕ → ℤ
sub_ℕ a b = if leb b a then pos (a - b) else negsuc (b - a - 1)

-- A fraction is no integer, and is given by the integer below it.
pub data Number : Type 0 where
  integer : ℤ → Number
  fraction : ℤ → Number
  nan : Number
  infinity : Number
  minus_infinity : Number

-- `x < 0`
abbrev pub is_negative : Number → Bool
is_negative (integer (pos _)) = false
is_negative (integer (negsuc _)) = true
is_negative (fraction (pos _)) = false
is_negative (fraction (negsuc _)) = true
is_negative nan = false
is_negative infinity = false
is_negative minus_infinity = true
