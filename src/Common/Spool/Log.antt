-- ===== src/Common/Spool/Log.antt =====
-- The operations of `Spool` in rust/connectors/common/src/spool.rs: open, append with its bound, peek and
-- advance. A write through the handle of a segment that was removed reaches no file of the directory.
use ajar_connectors.Prelude.{
  ℕ, zero, suc, ◌+◌, ◌-◌, Bool, Option, none, some, [], ◌∷◌, ◌++◌, Bytes, length, ltb, leb, ◌==◌,
  Result, ok, err, ◌>>=◌, unwrap_or, if◌then◌else◌,
}
use ajar_connectors.Common.Spool.{
  Record, Cursor, Segments, Dir, Spool, IoError, no_record, segment_bytes, encode, file_of,
  read_record_at, truncate_torn_tail,
}

-- The file of a segment opened with `create(true)`: what is there stays.
unfoldable pub create_segment : ℕ → Segments → Segments
create_segment seq [] = (seq, []) ∷ []
create_segment seq ((n, b) ∷ rest) =
    let later = create_segment seq rest in
    if seq == n
    then (n, b) ∷ rest
    else if ltb seq n
    then (seq, []) ∷ (n, b) ∷ rest
    else (n, b) ∷ later

unfoldable pub append_to : ℕ → Bytes → Segments → Segments
append_to seq buf [] = []
append_to seq buf ((n, b) ∷ rest) =
    if n == seq then (n, b ++ buf) ∷ rest else (n, b) ∷ append_to seq buf rest

unfoldable pub total_bytes : Segments → ℕ
total_bytes [] = 0
total_bytes ((n, b) ∷ rest) = length b + total_bytes rest

abbrev pub depth_bytes : Spool → ℕ
depth_bytes s = total_bytes s.dir.segments

abbrev pub first_seq : Segments → ℕ
first_seq [] = 0
first_seq ((n, b) ∷ rest) = n

unfoldable pub last_seq : Segments → ℕ
last_seq [] = 0
last_seq ((n, b) ∷ []) = n
last_seq ((n, b) ∷ s ∷ rest) = last_seq (s ∷ rest)

unfoldable pub recover_last : Segments → Segments
recover_last [] = []
recover_last ((n, b) ∷ []) = (n, truncate_torn_tail b) ∷ []
recover_last ((n, b) ∷ s ∷ rest) = (n, b) ∷ recover_last (s ∷ rest)

unfoldable pub open_spool : ℕ → Dir → Spool
open_spool max_bytes d =
    let cursor = unwrap_or d.cursor_file (record { seg = first_seq d.segments; offset = 0 }) in
    let head_seq = last_seq d.segments in
    let segments = create_segment head_seq (recover_last d.segments) in
    record {
      dir = record { segments = segments; cursor_file = d.cursor_file };
      max_bytes = max_bytes;
      head_seq = head_seq;
      head_len = length (unwrap_or (file_of head_seq segments) []);
      cursor = cursor;
      dropped_segments = 0;
    }

unfoldable pub rotate : Spool → Spool
rotate s =
    let head_seq = s.head_seq + 1 in
    record s {
      dir = record {
        segments = create_segment head_seq s.dir.segments;
        cursor_file = s.dir.cursor_file;
      };
      head_seq = head_seq;
      head_len = 0;
    }

abbrev pub skip_past : ℕ → Cursor → Cursor
skip_past oldest c = if leb c.seg oldest then record { seg = oldest + 1; offset = 0 } else c

-- The loop of `enforce_bound`: the segments left, the cursor, and how many were dropped.
unfoldable pub drop_oldest : ℕ → Segments → Cursor → Segments × Cursor × ℕ
drop_oldest max_bytes [] c = ([], c, 0)
drop_oldest max_bytes ((n, b) ∷ []) c = ((n, b) ∷ [], c, 0)
drop_oldest max_bytes ((n, b) ∷ s ∷ rest) c =
    let (left, cursor, dropped) = drop_oldest max_bytes (s ∷ rest) (skip_past n c) in
    if leb (total_bytes ((n, b) ∷ s ∷ rest)) max_bytes
    then ((n, b) ∷ s ∷ rest, c, 0)
    else (left, cursor, suc dropped)

unfoldable pub enforce_bound : Spool → Spool × Bool
enforce_bound s =
    let (segments, cursor, dropped) = drop_oldest s.max_bytes s.dir.segments s.cursor in
    (
      record s {
        dir = record { segments = segments; cursor_file = s.dir.cursor_file };
        cursor = cursor;
        dropped_segments = s.dropped_segments + dropped;
      },
      ltb 0 dropped,
    )

unfoldable pub write_head : Bytes → Spool → Spool
write_head buf s = record s {
  dir = record {
    segments = append_to s.head_seq buf s.dir.segments;
    cursor_file = s.dir.cursor_file;
  };
  head_len = s.head_len + length buf;
}

unfoldable pub append : Record → Spool → Spool × Bool
append r s =
    let room = if leb segment_bytes s.head_len then rotate s else s in
    enforce_bound (write_head (encode r) room)

-- `peek` does the same at a segment that is missing and at the end of one.
abbrev pub record_found : Result IoError (Option (Record × ℕ)) → Option Record
record_found (err e) = none
record_found (ok none) = none
record_found (ok (some (r, next))) = some r

-- The loop of `peek`, with the number of segments ahead of the cursor's: the cursor, and the record at it.
unfoldable pub peek_go : ℕ → Segments → Cursor → Cursor × Option Record
peek_go zero segs c = (c, record_found (read_record_at segs c.seg c.offset))
peek_go (suc ahead) segs c = elim (record_found (read_record_at segs c.seg c.offset)) [
  | none ↦ peek_go ahead segs (record { seg = c.seg + 1; offset = 0 })
  | some r ↦ (c, some r)
]

abbrev pub with_cursor : Cursor → Option Record → Option (Cursor × Record)
with_cursor c none = none
with_cursor c (some r) = some (c, r)

abbrev pub peeked : Spool → Cursor × Option Record → Spool × Option (Cursor × Record)
peeked s (c, found) = (record s { cursor = c }, with_cursor c found)

unfoldable pub peek : Spool → Spool × Option (Cursor × Record)
peek s = peeked s (peek_go (s.head_seq - s.cursor.seg) s.dir.segments s.cursor)

unfoldable pub segments_from : ℕ → Segments → Segments
segments_from seg [] = []
segments_from seg ((n, b) ∷ rest) =
    if ltb n seg then segments_from seg rest else (n, b) ∷ segments_from seg rest

abbrev pub confirm : Cursor → Spool → Option (Record × ℕ) → Result IoError Spool
confirm at s none = err (no_record at)
confirm at s (some (r, next)) =
    let cursor : Cursor = record { seg = at.seg; offset = next } in
    ok (record s {
      dir = record { segments = segments_from at.seg s.dir.segments; cursor_file = some cursor };
      cursor = cursor;
    })

unfoldable pub advance : Cursor → Spool → Result IoError Spool
advance at s = read_record_at s.dir.segments at.seg at.offset >>= confirm at s
