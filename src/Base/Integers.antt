-- ===== src/Base/Integers.antt =====
-- Go's `int`, and its conversion to an unsigned word.
use Prim.Native.Nat.{ℕ, ◌-◌, ◌%◌, ◌^◌}
use mathlib.Core.Bool.{Bool, true}
use dynamic_zones.Base.Tests.{eqb}

-- `negsuc n` is -(n + 1).
pub data ℤ : Type 0 where
  pos : ℕ → ℤ
  negsuc : ℕ → ℤ

-- `uintw(i)`: the lowest w bits of the two's complement.
abbrev pub to_unsigned : ℕ → ℤ → ℕ
to_unsigned w (pos n) = n % 2 ^ w
to_unsigned w (negsuc n) = 2 ^ w - 1 - n % 2 ^ w

-- `i <= 0`
abbrev pub is_not_positive : ℤ → Bool
is_not_positive (pos n) = eqb n 0
is_not_positive (negsuc n) = true
