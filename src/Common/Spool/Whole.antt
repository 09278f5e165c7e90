-- ===== src/Common/Spool/Whole.antt =====
-- One record read from a segment file of rust/connectors/common/src/spool.rs.
use ajar_connectors.Prelude.{
  ℕ, ◌+◌, ◌-◌, ◌≤◌, ◌≡◌, sym, ap, ◌∙◌, true, false, none, some, [], ◌++◌, append-nil, Bytes, length,
  take, drop, length-append, take-append, drop-append, ltb, arith,
}
use ajar_connectors.Prelude.Endian.{from_be, from_be-be_u32}
use ajar_connectors.Common.Spool.{Record, encode, read_record, read_record_of}
use ajar_connectors.Common.Spool.Codec.{Framed, length-encode, read_record-encode}

read_record_of-parts :
    (file behind : Bytes) (offset id_len payload_len : ℕ) (r : Record) (next : ℕ)
    → drop offset file ≡ behind
    → from_be (take 4 (take 8 behind)) ≡ id_len
    → from_be (drop 4 (take 8 behind)) ≡ payload_len
    → ltb (length file - offset) 8 ≡ false
    → ltb (length file - offset) (8 + id_len + payload_len) ≡ false
    → read_record (take (8 + id_len + payload_len) behind) 0 ≡ some (r, next)
    → read_record_of file offset ≡ some (r, offset + next)
unfolding read_record_of
read_record_of-parts file behind offset id_len payload_len r next e i p header whole read =
    rw (e, i, p, header, whole, read)

record_size : (r : Record) → 8 + length r.event_id + length r.sealed ≡ length (encode r)
record_size r = omega (arith, length-encode r)

first_id_len :
    (r : Record) (rest : Bytes)
    → Framed r
    → from_be (take 4 (take 8 (encode r ++ rest))) ≡ length r.event_id
unfolding encode
first_id_len r rest h = from_be-be_u32 (length r.event_id) h.id_fits

first_payload_len :
    (r : Record) (rest : Bytes)
    → Framed r
    → from_be (drop 4 (take 8 (encode r ++ rest))) ≡ length r.sealed
unfolding encode
first_payload_len r rest h = from_be-be_u32 (length r.sealed) h.payload_fits

not_less : (n k : ℕ) → k ≤ n → ltb n k ≡ false
not_less n k h = ground arith

remaining :
    (before part rest : Bytes)
    → length (before ++ (part ++ rest)) - length before ≡ length part + length rest
remaining before part rest =
    omega (arith, length-append before (part ++ rest), length-append part rest)

whole_record : (r : Record) → Framed r → read_record (encode r) 0 ≡ some (r, length (encode r))
whole_record r h =
    ap (λ (b : Bytes). read_record b 0) (sym (append-nil (encode r)))
    ∙ read_record-encode [] [] r h
    ∙ ap (λ (k : ℕ). some (r, k)) (omega arith)

pub read_record_of-encode :
    (before rest : Bytes) (r : Record)
    → Framed r
    → read_record_of (before ++ (encode r ++ rest)) (length before)
      ≡ some (r, length before + length (encode r))
read_record_of-encode before rest r h =
    read_record_of-parts (before ++ (encode r ++ rest)) (encode r ++ rest) (length before)
      (length r.event_id) (length r.sealed) r (length (encode r))
      (drop-append before (encode r ++ rest)) (first_id_len r rest h) (first_payload_len r rest h)
      (not_less _ 8 (omega (arith, remaining before (encode r) rest, length-encode r)))
      (not_less _ _ (omega (arith, remaining before (encode r) rest, length-encode r)))
      (rw (record_size r, take-append (encode r) rest) (whole_record r h))

pub read_record_of-end : (file : Bytes) → read_record_of file (length file) ≡ none
unfolding read_record_of
read_record_of-end file = rw (nothing_left (length file))
  where
    nothing_left : (n : ℕ) → ltb (n - n) 8 ≡ true
    nothing_left n = ground arith
