-- ===== src/Base/Word.antt =====
-- `u32` values and `int` values of 32 bits, both as the numbers below 2 ^ 32 that hold their bits.
use Prim.Native.Nat.{ℕ, ◌+◌, ◌-◌, ◌/◌, ◌%◌, ◌^◌}
use mathlib.Core.Bool.{Bool}
use onix.Base.Tests.{leb, if◌then◌else◌}

-- `a + b`, `a - b`
abbrev pub add_u32 : ℕ → ℕ → ℕ
add_u32 a b = (a + b) % 2 ^ 32

abbrev pub sub_u32 : ℕ → ℕ → ℕ
sub_u32 a b = (a + (2 ^ 32 - b)) % 2 ^ 32

-- The sign of an `int`.
abbrev pub is_negative : ℕ → Bool
is_negative x = leb (2 ^ 31) x

-- `a <= b` of two `int`s.
abbrev pub leb_int : ℕ → ℕ → Bool
leb_int a b = leb ((a + 2 ^ 31) % 2 ^ 32) ((b + 2 ^ 31) % 2 ^ 32)

-- `x / n`, rounded down, of an `int`: what `>>` does by the k with n = 2 ^ k.
abbrev pub shift_int : ℕ → ℕ → ℕ
shift_int x n = if is_negative x then 2 ^ 32 - (2 ^ 32 - x + (n - 1)) / n else x / n

-- `ABS(x)`
abbrev pub abs_int : ℕ → ℕ
abs_int x = if is_negative x then 2 ^ 32 - x else x
