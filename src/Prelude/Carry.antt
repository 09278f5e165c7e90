-- ===== src/Prelude/Carry.antt =====
-- The frames that a parser holds for its next event, under two caps: the loop that the AIS and MAVLink
-- connectors share.
pub mod Bounds
use Prim.Native.Nat.{ℕ, suc, ◌+◌, ◌-◌}
use mathlib.Core.Bool.{Bool, false, ◌||◌}
use mathlib.Core.List.{List, [], ◌∷◌, ◌++◌}
use ajar_connectors.Prelude.Tests.{ltb, if◌then◌else◌}
use ajar_connectors.Prelude.Lists.{length}
use ajar_connectors.Prelude.Texts.{Bytes}

pub record Carry : Type 0 where
  pub pending : List Bytes
  pub pending_bytes : ℕ
  pub dropped_since_emit : Bool

abbrev pub no_carry : Carry
no_carry = record { pending = []; pending_bytes = 0; dropped_since_emit = false }

module _ (max_frames max_bytes : ℕ) where
  abbrev pub over_cap : List Bytes → ℕ → Bool
  over_cap pending bytes = ltb max_frames (length pending) || ltb max_bytes bytes

  -- The loop of `push_raw`: what stays pending, its bytes, and how many frames were dropped.
  unfoldable pub drop_over : List Bytes → ℕ → List Bytes × ℕ × ℕ
  drop_over [] bytes = ([], bytes, 0)
  drop_over (old ∷ pending) bytes =
      let (left, left_bytes, dropped) = drop_over pending (bytes - length old) in
      if over_cap (old ∷ pending) bytes
      then (left, left_bytes, suc dropped)
      else (old ∷ pending, bytes, 0)

  unfoldable pub push_raw : Bytes → Carry → Carry × ℕ
  push_raw raw c =
      let (left, left_bytes, dropped) =
        drop_over (c.pending ++ raw ∷ []) (c.pending_bytes + length raw) in
      (
        record {
          pending = left;
          pending_bytes = left_bytes;
          dropped_since_emit = c.dropped_since_emit || ltb 0 dropped;
        },
        dropped,
      )
