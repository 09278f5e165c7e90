-- ===== src/Asterix/Wire.antt =====
-- The value decoders of rust/connectors/asterix/src/asterix/wire.rs. The callers pass items that are long
-- enough for their reads.
use ajar_connectors.Prelude.{
  ℕ, suc, zero, ◌+◌, ◌*◌, ◌/◌, ◌%◌, ◌^◌, ◌&&◌, Option, none, some, List, [], ◌∷◌, Text, Bytes,
  length, take, drop, ltb, leb, is_empty, if◌then◌else◌,
}
use ajar_connectors.Prelude.Int.{ℤ, pos, signed}
use ajar_connectors.Prelude.Float.{Float}
use ajar_connectors.Prelude.Endian.{from_be}
use ajar_connectors.Prelude.Scan.{trim}

unfoldable pub be_uint : Bytes → ℕ → ℕ → ℕ
be_uint b start n = from_be (take n (drop start b)) % 2 ^ 64

-- `((v << shift) as i64) >> shift`
unfoldable pub sign_extend : ℕ → ℕ → ℤ
sign_extend v bits = signed bits (v % 2 ^ bits)

module _ {F : Type 0} ⦃f : Float F⦄ where
  unfoldable pub signed_at : Bytes → ℕ → ℕ → F
  signed_at b start n = f.of_int (sign_extend (be_uint b start n) (n * 8))

  unfoldable pub time_of_day_s : Bytes → F
  time_of_day_s item = f.float_div (f.of_int (pos (be_uint item 0 3))) (f.of_int (pos 128))

  abbrev pub quotient : ℕ → ℕ → F
  quotient n d = f.float_div (f.of_int (pos n)) (f.of_int (pos d))

  -- `ANGLE_16`, and a number of these, from two octets.
  abbrev pub angle_16 : F
  angle_16 = quotient 360 65536

  abbrev pub azimuth : Bytes → ℕ → F
  azimuth item start = f.float_mul (f.of_int (pos (be_uint item start 2))) angle_16

-- Four octal digits.
unfoldable pub mode_3a : ℕ → Text
mode_3a v =
    let code = v % 4096 in
    (48 + code / 512 % 8) ∷ (48 + code / 64 % 8) ∷ (48 + code / 8 % 8) ∷ (48 + code % 8) ∷ []

-- A character of the ICAO alphabet of six bits; the others are spaces.
abbrev icao_char : ℕ → ℕ
icao_char c = if leb 1 c && leb c 26 then 64 + c else if leb 48 c && leb c 57 then c else 32

-- The `n` characters that are left in `v`, the last in its low six bits.
unfoldable pub icao_chars : ℕ → ℕ → List ℕ → List ℕ
icao_chars zero v acc = acc
icao_chars (suc n) v acc = icao_chars n (v / 64) (icao_char (v % 64) ∷ acc)

abbrev non_empty : Text → Option Text
non_empty s = if is_empty s then none else some s

unfoldable pub aircraft_id : Bytes → Option Text
aircraft_id item =
    if ltb (length item) 6 then none else non_empty (trim (icao_chars 8 (be_uint item 0 6) []))
