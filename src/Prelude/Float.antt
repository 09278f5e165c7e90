-- ===== src/Prelude/Float.antt =====
-- `f64` as an interface: the type and the operations the source uses. Comparisons are IEEE's, so both
-- tests against a NaN are false.
use Prim.Native.Nat.{ℕ}
use mathlib.Core.List.{List}
use ajar_connectors.Prelude.Int.{ℤ}
use mathlib.Core.Bool.{Bool, ◌&&◌}

pub record Float (F : Type 0) : Type 0 where
  pub is_finite : F → Bool
  pub float_leb : F → F → Bool
  pub of_int : ℤ → F
  pub float_add : F → F → F
  pub float_mul : F → F → F
  pub float_div : F → F → F
  -- `format!("{x:.n}")`
  pub fixed : ℕ → F → List ℕ

-- `(lo..=hi).contains(&x)`
abbrev pub in_range : {F : Type 0} ⦃f : Float F⦄ → F → F → F → Bool
in_range ⦃f⦄ lo hi x = f.float_leb lo x && f.float_leb x hi
