-- ===== src/Prelude/Arms.antt =====
-- A `match` on a code as a table.
use Prim.Native.Nat.{ℕ}
use mathlib.Core.Bool.{◌&&◌}
use mathlib.Core.Option.{Option, none, some}
use mathlib.Core.List.{List, [], ◌∷◌}
use ajar_connectors.Prelude.Tests.{leb, if◌then◌else◌}
use ajar_connectors.Prelude.Texts.{Text}

-- The arms of a `match` on a code, each a range of codes and its value; no arm is `None`.
pub data Arm : Type 0 where
  arm : (lo hi : ℕ) → Text → Arm

unfoldable pub match_arms : List Arm → ℕ → Option Text
match_arms [] code = none
match_arms (arm lo hi value ∷ arms) code =
    if leb lo code && leb code hi then some value else match_arms arms code
