-- ===== src/Klv.antt =====
-- The KLV parser of rust/connectors/klv/src/klv.rs. The time crate's formatting is an argument, the
-- identifier that `new_id` draws too.
pub mod Items
pub mod Checksum
pub mod Lengths
pub mod Measured
pub mod Layout
pub mod Sets
use ajar_connectors.Prelude.{
  ℕ, zero, suc, ◌+◌, ◌-◌, ◌*◌, ◌/◌, ◌%◌, ◌^◌, Bool, true, false, not, ◌&&◌, ◌||◌, Option, none,
  some, List, [], ◌∷◌, Text, Bytes, text_eq, length, take, drop, get_elem?, is_empty, ltb, leb,
  ◌==◌, Result, ok, err, ◌>>=◌, ◌>>◌, reject_if, ok_or, if◌then◌else◌,
}
use ajar_connectors.Prelude.Int.{ℤ, pos, negsuc, signed}
use ajar_connectors.Prelude.Float.{Float}
use ajar_connectors.Prelude.Endian.{from_be}
use ajar_connectors.Prelude.Utf8.{from_utf8_lossy}
use ajar_connectors.Prelude.Scan.{trim}
use ajar_connectors.Sdk.Event.{BuildError}

abbrev pub uas_ls_key : Bytes
uas_ls_key =
    0x06 ∷ 0x0e ∷ 0x2b ∷ 0x34 ∷ 0x02 ∷ 0x0b ∷ 0x01 ∷ 0x01 ∷ 0x0e ∷ 0x01 ∷ 0x03 ∷ 0x01 ∷ 0x01 ∷ 0x00
    ∷ 0x00 ∷ 0x00 ∷ []

pub data KlvError (F : Type 0) : Type 0 where
  not_uas_ls : KlvError F
  truncated : KlvError F
  bad_length : KlvError F
  bad_checksum : KlvError F
  build_failed : BuildError F → KlvError F

-- The running sum over the bytes from the index whose parity is `even`.
unfoldable pub bcc_go : ℕ → Bool → Bytes → ℕ
bcc_go sum even [] = sum
bcc_go sum true (b ∷ bs) = bcc_go ((sum + b * 256) % 2 ^ 16) false bs
bcc_go sum false (b ∷ bs) = bcc_go ((sum + b) % 2 ^ 16) true bs

unfoldable pub bcc_16 : Bytes → ℕ
unfolding bcc_go
bcc_16 = bcc_go 0 true

module _ {F : Type 0} where
  abbrev pub byte_at : Bytes → ℕ → Result (KlvError F) ℕ
  byte_at buf i = ok_or (get_elem? buf i) truncated

  -- The `n` bytes of a long form; `len << 8` drops what passes 64 bits.
  unfoldable pub long_len : ℕ → Bytes → ℕ → ℕ → Result (KlvError F) (ℕ × ℕ)
  long_len zero buf i len = ok (len, i)
  long_len (suc n) buf i len = do b ← byte_at buf i; long_len n buf (i + 1) (len * 256 % 2 ^ 64 + b)

  -- The high bit of a byte is set from 128 on, and the mask 0x7f takes it off.
  abbrev pub by_form : ℕ → Bytes → ℕ → Result (KlvError F) (ℕ × ℕ)
  by_form b0 buf i =
      let n = b0 % 128 in
      if ltb b0 128
      then ok (b0, i)
      else if (n == 0) || ltb 4 n
      then err bad_length
      else long_len n buf i 0

  -- The length at `i` and the position behind it.
  unfoldable pub read_ber_len : Bytes → ℕ → Result (KlvError F) (ℕ × ℕ)
  read_ber_len buf i = do b0 ← byte_at buf i; by_form b0 buf (i + 1)

  -- The loop over the bytes from `i` on; `tag << 7` drops what passes 32 bits.
  unfoldable pub oid_go : ℕ → Bytes → ℕ → Result (KlvError F) (ℕ × ℕ)
  oid_go tag [] i = err truncated
  oid_go tag (b ∷ rest) i =
      let next = tag * 128 % 2 ^ 32 + b % 128 in
      let later = oid_go next rest (i + 1) in if ltb b 128 then ok (next, i + 1) else later

  unfoldable pub read_ber_oid_tag : Bytes → ℕ → Result (KlvError F) (ℕ × ℕ)
  read_ber_oid_tag buf i = oid_go 0 (drop i buf) i

-- `v.try_into().ok().map(from_be_bytes)` of a word of `n` bytes
abbrev pub be_word : ℕ → Bytes → Option ℕ
be_word n v = if length v == n then some (from_be v) else none

abbrev pub be_signed : ℕ → Bytes → Option ℤ
be_signed n v = if length v == n then some (signed (8 * n) (from_be v)) else none

unfoldable pub ascii : Bytes → Option Text
ascii v = let s = trim (from_utf8_lossy v) in if is_empty s then none else some s

module _ {F : Type 0} ⦃f : Float F⦄ where
  -- The full range of a word up to `max` is `half_deg`; the least word is the error indicator.
  unfoldable pub scaled_angle : ℕ → ℕ → ℤ → Option F
  scaled_angle max half_deg (pos n) =
      some (
        f.float_div (f.float_mul (f.of_int (pos n)) (f.of_int (pos half_deg))) (f.of_int (pos max)))
  scaled_angle max half_deg (negsuc n) =
      if n == max
      then none
      else some (
          f.float_div (f.float_mul (f.of_int (negsuc n)) (f.of_int (pos half_deg)))
            (f.of_int (pos max)))

  -- `v as f64 * range / 65535.0`
  abbrev pub scaled_u16 : ℕ → ℕ → F
  scaled_u16 range v =
      f.float_div (f.float_mul (f.of_int (pos v)) (f.of_int (pos range))) (f.of_int (pos 65535))
