-- ===== src/Prelude/Int.antt =====
-- Signed integers over the native numbers, and the integer that a two's complement word stands for.
use Prim.Native.Nat.{ℕ, suc, ◌-◌, ◌^◌}
use ajar_connectors.Prelude.Tests.{ltb, leb, if◌then◌else◌}

-- `negsuc n` is -(n + 1).
pub data ℤ : Type 0 where
  pos : ℕ → ℤ
  negsuc : ℕ → ℤ

-- a - b, as an integer.
abbrev pub sub_ℕ : ℕ → ℕ → ℤ
sub_ℕ a b = if leb b a then pos (a - b) else negsuc (b - a - 1)

-- The value of the `n`-bit word `w`, below 2 ^ n, read as two's complement.
abbrev pub signed : ℕ → ℕ → ℤ
signed n w = if ltb w (2 ^ (n - 1)) then pos w else sub_ℕ w (2 ^ n)

abbrev pub pos_part : ℤ → ℕ
pos_part (pos n) = n
pos_part (negsuc n) = 0

abbrev pub neg_part : ℤ → ℕ
neg_part (pos n) = 0
neg_part (negsuc n) = suc n
