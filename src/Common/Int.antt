-- ===== src/Common/Int.antt =====
-- The signed integers that requests carry (Go's int64 amounts and durations).
use Prim.Native.Nat.{ℕ, zero, suc, ◌-◌, ◌*◌, ◌/◌, ◌%◌, ◌<◌}
use mathlib.Core.Path.{◌≡◌}
use native.Mathlib.Omega.{arith}
use echopay.Common.Tests.{ltb, if◌then◌else◌}
use mathlib.Core.Bool.{Bool, true, false}

-- `negsuc n` is -(n + 1).
pub data ℤ : Type 0 where
  pos : ℕ → ℤ
  negsuc : ℕ → ℤ

abbrev pub pos_part : ℤ → ℕ
pos_part (pos n) = n
pos_part (negsuc n) = 0

-- `x > 0`
abbrev pub is_positive : ℤ → Bool
is_positive (pos zero) = false
is_positive (pos (suc n)) = true
is_positive (negsuc n) = false

-- -n
abbrev pub neg : ℕ → ℤ
neg zero = pos 0
neg (suc n) = negsuc n

-- one more than the largest int64
abbrev pub int64_limit : ℕ
int64_limit = 9_223_372_036_854_775_808

-- the integers that an int64 holds
abbrev pub IsInt64 : ℤ → Type 0
IsInt64 (pos n) = n < int64_limit
IsInt64 (negsuc n) = n < int64_limit

-- the int64 whose bits are those of a number below 2 ^ 64
of_bits : ℕ → ℤ
of_bits u = if ltb u int64_limit then pos u else negsuc (2 * int64_limit - 1 - u)

-- what is left of an integer in an int64: its value modulo 2 ^ 64
unfoldable pub wrap64 : ℤ → ℤ
unfolding of_bits
wrap64 (pos n) = of_bits (n % (2 * int64_limit))
wrap64 (negsuc n) = of_bits (2 * int64_limit - 1 - n % (2 * int64_limit))

-- one more than the largest int32
abbrev int32_limit : ℕ
int32_limit = 2_147_483_648

-- the int32 whose bits are those of a number below 2 ^ 32
abbrev of_bits32 : ℕ → ℤ
of_bits32 u = if ltb u int32_limit then pos u else negsuc (2 * int32_limit - 1 - u)

-- `int32(v)`: the value modulo 2 ^ 32
abbrev pub int32 : ℤ → ℤ
int32 (pos n) = of_bits32 (n % (2 * int32_limit))
int32 (negsuc n) = of_bits32 (2 * int32_limit - 1 - n % (2 * int32_limit))

-- `-v`
abbrev pub negated : ℤ → ℤ
negated (pos n) = neg n
negated (negsuc n) = pos (suc n)

-- `v / d` and `v % d` for a d above 0: Go rounds to 0, and a remainder has the sign of v
abbrev pub quotient : ℤ → ℕ → ℤ
quotient (pos n) d = pos (n / d)
quotient (negsuc n) d = neg (suc n / d)

abbrev pub remainder : ℤ → ℕ → ℤ
remainder (pos n) d = pos (n % d)
remainder (negsuc n) d = neg (suc n % d)

-- `v * d`
abbrev pub times : ℤ → ℕ → ℤ
times (pos n) d = pos (n * d)
times (negsuc n) d = neg (suc n * d)

pub wrap64_exact : (x : ℤ) → IsInt64 x → wrap64 x ≡ x
unfolding wrap64
wrap64_exact (pos n) h = ground arith
wrap64_exact (negsuc n) h = ground arith

pub wrap64-IsInt64 : (x : ℤ) → IsInt64 (wrap64 x)
unfolding wrap64
wrap64-IsInt64 (pos n) = ground arith
wrap64-IsInt64 (negsuc n) = ground arith
