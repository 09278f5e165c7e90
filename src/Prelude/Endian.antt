-- ===== src/Prelude/Endian.antt =====
-- `from_be_bytes`, `to_be_bytes` and `from_le_bytes` of unsigned words.
use Prim.Native.Nat.{ℕ, ◌+◌, ◌*◌, ◌/◌, ◌%◌, ◌^◌, ◌<◌}
use mathlib.Core.Path.{◌≡◌}
use mathlib.Core.List.{List, [], ◌∷◌}
use native.Mathlib.Omega.{arith}

-- The number that these bytes spell, highest byte first, behind the number `acc`.
unfoldable pub be_go : ℕ → List ℕ → ℕ
be_go acc [] = acc
be_go acc (x ∷ xs) = be_go (acc * 256 + x) xs

unfoldable pub from_be : List ℕ → ℕ
unfolding be_go
from_be = be_go 0

unfoldable pub from_le : List ℕ → ℕ
from_le [] = 0
from_le (x ∷ xs) = x + 256 * from_le xs

-- `(n as u32).to_be_bytes()`
abbrev pub be_u32 : ℕ → List ℕ
be_u32 n = n / 2 ^ 24 % 256 ∷ n / 2 ^ 16 % 256 ∷ n / 2 ^ 8 % 256 ∷ n % 256 ∷ []

pub from_be-be_u32 : (n : ℕ) → n < 2 ^ 32 → from_be (be_u32 n) ≡ n
unfolding from_be
from_be-be_u32 n h = omega arith
