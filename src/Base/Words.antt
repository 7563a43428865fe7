-- ===== src/Base/Words.antt =====
-- C's integers as bit patterns: `int` and `unsigned` are 32 bits wide, `Byte` 8 and `Word` 16.
use Prim.Native.Nat.{ℕ, ◌+◌, ◌-◌, ◌%◌, ◌^◌}
use mathlib.Core.Bool.{Bool}
use zeos_soa.Base.Tests.{leb}

-- The pattern of the negative `int` -n.
abbrev pub neg : ℕ → ℕ
neg n = (2 ^ 32 - n) % 2 ^ 32

-- `w < 0`, read as a signed `int`.
abbrev pub is_neg : ℕ → Bool
is_neg w = leb (2 ^ 31) w

abbrev pub add32 : ℕ → ℕ → ℕ
add32 a b = (a + b) % 2 ^ 32

abbrev pub sub32 : ℕ → ℕ → ℕ
sub32 a b = (a + 2 ^ 32 - b % 2 ^ 32) % 2 ^ 32
