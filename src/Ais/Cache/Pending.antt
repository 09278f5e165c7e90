-- ===== src/Ais/Cache/Pending.antt =====
-- The caps of `Carry` in rust/connectors/ais-nmea/src/ais/cache.rs.
use ajar_connectors.Prelude.{ℕ, ◌≡◌, ◌||◌, List, [], ◌∷◌, ◌++◌, Bytes, ltb}
use ajar_connectors.Prelude.Carry.Bounds
use ajar_connectors.Ais.Cache.{Carry, max_pending_frames, max_pending_bytes, push_raw}

-- The count of bytes is true, and at most 64 sentences of at most 16 KiB are pending.
abbrev pub IsCounted : Carry → Type 0
IsCounted = Bounds.IsCounted max_pending_frames max_pending_bytes

-- `kept` is the longest end of `all` that is within the caps, and `dropped` the number before it.
abbrev pub IsLongestEnd : List Bytes → List Bytes → ℕ → Type 0
IsLongestEnd = Bounds.IsLongestEnd max_pending_frames max_pending_bytes

-- A sentence that is pushed on a carry within the caps, its count of bytes true, keeps both and
-- leaves pending the longest end of the sentences, this one included, that is within 64 sentences
-- and 16 KiB; the result is the number dropped before it, and a drop is remembered.
pub push_raw_lem :
    (raw : Bytes) (c : Carry)
    → IsCounted c
    → IsCounted (push_raw raw c).0
      × IsLongestEnd (c.pending ++ (raw ∷ [])) (push_raw raw c).0.pending (push_raw raw c).1
      × ((push_raw raw c).0.dropped_since_emit ≡ (c.dropped_since_emit || ltb 0 (push_raw raw c).1))
unfolding push_raw
push_raw_lem = Bounds.push_raw_lem max_pending_frames max_pending_bytes
