-- ===== src/Ais/Cache.antt =====
-- The state per vessel of rust/connectors/ais-nmea/src/ais/cache.rs. The map of a cache keeps its keys in
-- the order in which they were inserted.
pub mod Bounds
pub mod Pending
use ajar_connectors.Prelude.Carry
pub use ajar_connectors.Prelude.Carry.{Carry, no_carry}
use ajar_connectors.Prelude.{
  ℕ, suc, ◌+◌, ◌-◌, ◌*◌, Bool, false, ◌||◌, Option, none, some, List, [], ◌∷◌, ◌++◌, Text, Bytes,
  length, ltb, leb, ◌==◌, is_some, if◌then◌else◌,
}

abbrev pub max_vessels : ℕ
max_vessels = 10000

abbrev pub max_pending_frames : ℕ
max_pending_frames = 64

abbrev pub max_pending_bytes : ℕ
max_pending_bytes = 16 * 1024

pub record Identity : Type 0 where
  pub name : Option Text
  pub callsign : Option Text
  pub ship_type : Option Text
  pub imo : Option ℕ

abbrev pub no_identity : Identity
no_identity = record { name = none; callsign = none; ship_type = none; imo = none }

pub record MmsiCache (V : Type 0) : Type 0 where
  pub map : List (ℕ × V)
  pub order : List ℕ

module _ {V : Type 0} where
  unfoldable pub lookup : ℕ → List (ℕ × V) → Option V
  lookup k [] = none
  lookup k ((n, v) ∷ rest) = if n == k then some v else lookup k rest

  unfoldable pub remove : ℕ → List (ℕ × V) → List (ℕ × V)
  remove k [] = []
  remove k ((n, v) ∷ rest) = if n == k then remove k rest else (n, v) ∷ remove k rest

  -- A write through the reference to the value at a key that is there.
  unfoldable pub update : ℕ → (V → V) → List (ℕ × V) → List (ℕ × V)
  update k f [] = []
  update k f ((n, v) ∷ rest) = if n == k then (n, f v) ∷ rest else (n, v) ∷ update k f rest

  unfoldable pub get : ℕ → MmsiCache V → Option V
  get mmsi c = lookup mmsi c.map

  -- The eviction of the oldest vessel: `order.pop_front()` and `map.remove(&oldest)`.
  unfoldable pub evict : MmsiCache V → MmsiCache V
  evict c = of_order c.order
    where
      of_order : List ℕ → MmsiCache V
      of_order [] = c
      of_order (oldest ∷ order) = record { map = remove oldest c.map; order = order }

  -- `entry`, given the default: the cache in which the vessel has a value.
  unfoldable pub entry : V → ℕ → MmsiCache V → MmsiCache V
  entry default mmsi c =
      let room = if leb max_vessels (length c.order) then evict c else c in
      if is_some (lookup mmsi c.map)
      then c
      else record { map = room.map ++ (mmsi, default) ∷ []; order = room.order ++ mmsi ∷ [] }

unfoldable pub push_raw : Bytes → Carry → Carry × ℕ
push_raw = Carry.push_raw max_pending_frames max_pending_bytes

-- `frames.join(&b'\n')`
unfoldable pub join_lines : List Bytes → Bytes
join_lines [] = []
join_lines (x ∷ []) = x
join_lines (x ∷ y ∷ xs) = x ++ 10 ∷ join_lines (y ∷ xs)

-- The carry after the drain, the payload, and whether a sentence was dropped.
unfoldable pub drain_with : List Bytes → Carry → Carry × Bytes × Bool
drain_with tail c = (no_carry, join_lines (c.pending ++ tail), c.dropped_since_emit)
