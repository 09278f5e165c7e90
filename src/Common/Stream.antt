-- ===== src/Common/Stream.antt =====
-- The framing of byte streams in rust/connectors/common/src/stream.rs. A reader is the list of chunks that
-- its `fill_buf` yields from here on; an empty chunk, or none, is the end of the stream. The buffer is its
-- size and what it holds so far.
pub mod Lines
use ajar_connectors.Prelude.{
  ℕ, ◌+◌, ◌-◌, ◌≤◌, Bool, true, false, not, ◌&&◌, ◌||◌, Option, none, some, List, [], ◌∷◌, ◌++◌,
  Bytes, length, take, drop, is_empty, split_once, ltb, leb, ◌==◌, Result, ok, err, if◌then◌else◌,
}
use ajar_connectors.Prelude.Endian.{from_be, from_le}

pub data StreamError : Type 0 where
  unexpected_eof : StreamError
  line_exceeds_buffer : StreamError
  frame_exceeds_buffer : ℕ → StreamError

pub data Framing : Type 0 where
  line : Framing
  length_delimited : Framing
  length_u32le : Framing

abbrev pub Reader : Type 0
Reader = List Bytes

-- What `consume` leaves of a chunk; the next one is read once it is used up.
abbrev pub left_of : Bytes → Reader → Reader
left_of [] chunks = chunks
left_of (b ∷ bs) chunks = (b ∷ bs) ∷ chunks

-- The buffer's bytes and `overflow` after a copy.
unfoldable pub copy_bounded : ℕ → Bytes → Bool → Bytes → Bytes × Bool
copy_bounded size held overflow src =
    let room = size - length held in
    if ltb room (length src) then (held ++ take room src, true) else (held ++ src, overflow)

unfoldable pub strip_crs : Bytes → Bytes
strip_crs [] = []
strip_crs (b ∷ bs) = keep (strip_crs bs)
  where
    keep : Bytes → Bytes
    keep [] = if b == 13 then [] else b ∷ []
    keep (c ∷ cs) = b ∷ c ∷ cs

unfoldable pub finish_line : Bytes × Bool → Result StreamError Bytes
finish_line (held, true) = err line_exceeds_buffer
finish_line (held, false) = ok (strip_crs held)

unfoldable pub at_eof : Bytes × Bool → Result StreamError Bytes
at_eof (held, overflow) =
    if is_empty held && not overflow then err unexpected_eof else finish_line (held, overflow)

unfoldable pub read_line_go : ℕ → Bytes × Bool → Reader → Reader × Result StreamError Bytes
read_line_go size copied [] = ([], at_eof copied)
read_line_go size copied ([] ∷ chunks) = ([] ∷ chunks, at_eof copied)
read_line_go size copied ((b ∷ bs) ∷ chunks) =
    let (before, after) = split_once 10 (b ∷ bs) in
    let grown = copy_bounded size copied.0 copied.1 before in
    elim after [
      | some rest ↦ (left_of rest chunks, finish_line grown)
      | none ↦ read_line_go size grown chunks
    ]

unfoldable pub read_line : ℕ → Reader → Reader × Result StreamError Bytes
read_line size = read_line_go size ([], false)

-- `read_exact` behind the bytes read before
unfoldable pub read_exact_go : Bytes → ℕ → Reader → Reader × Result StreamError Bytes
read_exact_go held n [] = ([], if n == 0 then ok held else err unexpected_eof)
read_exact_go held n ([] ∷ chunks) = ([] ∷ chunks, if n == 0 then ok held else err unexpected_eof)
read_exact_go held n ((b ∷ bs) ∷ chunks) =
    let chunk = b ∷ bs in
    let later = read_exact_go (held ++ chunk) (n - length chunk) chunks in
    if leb (length chunk) n
    then later
    else (left_of (drop n chunk) chunks, ok (held ++ take n chunk))

abbrev pub read_exact : ℕ → Reader → Reader × Result StreamError Bytes
read_exact = read_exact_go []

unfoldable pub read_payload : ℕ → ℕ → Reader → Reader × Result StreamError Bytes
unfolding read_exact_go
read_payload size n reader =
    if ltb size n then (reader, err (frame_exceeds_buffer n)) else read_exact n reader

abbrev with_prefix :
    (Bytes → ℕ) → ℕ → Reader × Result StreamError Bytes → Reader × Result StreamError Bytes
with_prefix value size (reader, err e) = (reader, err e)
with_prefix value size (reader, ok prefix) = read_payload size (value prefix) reader

unfoldable pub read_frame : Framing → ℕ → Reader → Reader × Result StreamError Bytes
unfolding read_exact_go
read_frame line size reader = read_line size reader
read_frame length_delimited size reader = with_prefix from_be size (read_exact 2 reader)
read_frame length_u32le size reader = with_prefix from_le size (read_exact 4 reader)
