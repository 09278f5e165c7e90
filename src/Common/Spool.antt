-- ===== src/Common/Spool.antt =====
-- The disk spool of rust/connectors/common/src/spool.rs. The directory is the list of its segment files,
-- number and bytes in ascending order, beside the persisted cursor. Operations of the file system succeed,
-- but opening a segment that is not there fails; an open handle is named by its segment's number.
pub mod Codec
pub mod Log
pub mod Whole
pub mod Queue
pub mod Append
pub mod Numbered
pub mod Dropped
pub mod Bound
pub mod Peek
pub mod Held
use ajar_connectors.Prelude.{
  ℕ, zero, suc, ◌+◌, ◌-◌, ◌*◌, ◌≤◌, Bool, true, false, not, ◌&&◌, ◌||◌, Option, none, some, List,
  [], ◌∷◌, ◌++◌, Text, Bytes, length, take, drop, ltb, leb, ◌==◌, Result, ok, err, ◌>>=◌,
  option_map, unwrap_or, if◌then◌else◌,
}
use ajar_connectors.Prelude.Endian.{be_u32, from_be}
use ajar_connectors.Prelude.Utf8.{is_utf8}

abbrev pub segment_bytes : ℕ
segment_bytes = 4 * 1024 * 1024

abbrev pub default_max_bytes : ℕ
default_max_bytes = 256 * 1024 * 1024

pub record Record : Type 0 where
  pub event_id : Text
  pub sealed : Bytes

pub record Cursor : Type 0 where
  pub seg : ℕ
  pub offset : ℕ

abbrev pub Segments : Type 0
Segments = List (ℕ × Bytes)

pub record Dir : Type 0 where
  pub segments : Segments
  pub cursor_file : Option Cursor

pub record Spool : Type 0 where
  pub dir : Dir
  pub max_bytes : ℕ
  pub head_seq : ℕ
  pub head_len : ℕ
  pub cursor : Cursor
  pub dropped_segments : ℕ

pub data IoError : Type 0 where
  not_found : (seg : ℕ) → IoError
  no_record : Cursor → IoError

-- The buffer that `append` writes: `id.len() as u32` and `sealed.len() as u32` drop what passes 32 bits.
unfoldable pub encode : Record → Bytes
encode r = be_u32 (length r.event_id) ++ be_u32 (length r.sealed) ++ r.event_id ++ r.sealed

abbrev pub checked_record : Bytes → Bytes → ℕ → Option (Record × ℕ)
checked_record id sealed next =
    if is_utf8 id then some (record { event_id = id; sealed = sealed }, next) else none

-- The record of these lengths at the front of `rest`, behind eight bytes.
unfoldable pub read_body : ℕ → ℕ → Bytes → ℕ → Option (Record × ℕ)
read_body id_len payload_len rest offset =
    let total = 8 + id_len + payload_len in
    let fields = drop 8 rest in
    if ltb (length rest) total
    then none
    else checked_record (take id_len fields) (take payload_len (drop id_len fields))
        (offset + total)

-- The body of `read_record` once `data.get(offset..)` is there.
unfoldable pub read_rest : Bytes → ℕ → Option (Record × ℕ)
read_rest rest offset =
    if ltb (length rest) 8
    then none
    else read_body (from_be (take 4 rest)) (from_be (take 4 (drop 4 rest))) rest offset

unfoldable pub read_record : Bytes → ℕ → Option (Record × ℕ)
read_record bytes offset =
    if leb offset (length bytes) then read_rest (drop offset bytes) offset else none

unfoldable pub file_of : ℕ → Segments → Option Bytes
file_of seq [] = none
file_of seq ((n, b) ∷ rest) = if n == seq then some b else file_of seq rest

abbrev shift_next : ℕ → Record × ℕ → Record × ℕ
shift_next offset (r, next) = (r, offset + next)

-- The record at `offset` of one file; only its bytes are read.
unfoldable pub read_record_of : Bytes → ℕ → Option (Record × ℕ)
read_record_of file offset =
    let remaining = length file - offset in
    let head = take 8 (drop offset file) in
    let id_len = from_be (take 4 head) in
    let payload_len = from_be (drop 4 head) in
    let total = 8 + id_len + payload_len in
    if ltb remaining 8
    then none
    else if ltb remaining total
    then none
    else option_map (shift_next offset) (read_record (take total (drop offset file)) 0)

unfoldable pub read_record_at : Segments → ℕ → ℕ → Result IoError (Option (Record × ℕ))
read_record_at segs seg offset = of_file (file_of seg segs)
  where
    of_file : Option Bytes → Result IoError (Option (Record × ℕ))
    of_file none = err (not_found seg)
    of_file (some file) = ok (read_record_of file offset)

-- The end of the last whole record: `while let Some((_, next)) = read_record(&data, offset)`.
unfoldable pub whole_records : ℕ → Bytes → ℕ → ℕ
whole_records zero bytes offset = offset
whole_records (suc fuel) bytes offset = elim (read_record bytes offset) [
  | none ↦ offset
  | some (r, next) ↦ whole_records fuel bytes next
]

-- Each round takes eight bytes at least, so as many rounds as there are bytes are enough.
unfoldable pub truncate_torn_tail : Bytes → Bytes
truncate_torn_tail bytes =
    let offset = whole_records (length bytes) bytes 0 in
    if ltb offset (length bytes) then take offset bytes else bytes
