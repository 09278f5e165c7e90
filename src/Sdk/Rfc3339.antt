-- ===== src/Sdk/Rfc3339.antt =====
-- `is_rfc3339` of rust/ajar-connector/src/builder.rs, with its closures `d`, `c`, `num` and `digits` as
-- functions of the bytes.
pub mod Grammar
use ajar_connectors.Prelude.{
  ℕ, zero, suc, ◌+◌, ◌-◌, ◌*◌, Bool, true, false, ◌&&◌, ◌||◌, Option, none, some, List, [], ◌∷◌,
  Bytes, get_elem?, take, drop, length, leb, ltb, ◌==◌, if◌then◌else◌,
}

-- `u8::is_ascii_digit`
unfoldable pub is_digit : ℕ → Bool
is_digit x = leb b'0' x && leb x b'9'

abbrev pub some_digit : Option ℕ → Bool
some_digit none = false
some_digit (some x) = is_digit x

abbrev pub is_some_byte : Option ℕ → ℕ → Bool
is_some_byte none ch = false
is_some_byte (some x) ch = x == ch

-- `d`, `c`, `num` and `digits`
unfoldable pub digit_at : Bytes → ℕ → Bool
digit_at b i = some_digit (get_elem? b i)

unfoldable pub byte_at : Bytes → ℕ → ℕ → Bool
byte_at b i ch = is_some_byte (get_elem? b i) ch

unfoldable pub fold_digits : ℕ → Bytes → ℕ
fold_digits a [] = a
fold_digits a (x ∷ xs) = fold_digits (a * 10 + (x - b'0')) xs

unfoldable pub num : Bytes → ℕ → ℕ → ℕ
unfolding fold_digits
num b i n = fold_digits 0 (take n (drop i b))

unfoldable pub digits : Bytes → ℕ → ℕ → Bool
unfolding digit_at
digits b i zero = true
digits b i (suc n) = digits b i n && digit_at b (i + n)

-- `YYYY-MM-DDThh:mm:ss`
unfoldable pub date_time_shape : Bytes → Bool
unfolding digits byte_at
date_time_shape b =
    digits b 0 4
    && byte_at b 4 b'-'
    && digits b 5 2
    && byte_at b 7 b'-'
    && digits b 8 2
    && (byte_at b 10 b'T' || byte_at b 10 b't')
    && digits b 11 2
    && byte_at b 13 b':'
    && digits b 14 2
    && byte_at b 16 b':'
    && digits b 17 2

unfoldable pub date_time_ranges : Bytes → Bool
unfolding num
date_time_ranges b =
    leb 1 (num b 5 2)
    && leb (num b 5 2) 12
    && leb 1 (num b 8 2)
    && leb (num b 8 2) 31
    && leb (num b 11 2) 23
    && leb (num b 14 2) 59
    && leb (num b 17 2) 60

-- How far `while d(i) { i += 1 }` moves from the front of these bytes.
unfoldable pub digit_run : Bytes → ℕ
digit_run [] = 0
digit_run (x ∷ xs) = if is_digit x then suc (digit_run xs) else 0

-- Where the zone begins: `none` if a point stands before no digit.
unfoldable pub zone_start : Bytes → Option ℕ
unfolding byte_at digit_run
zone_start b =
    if byte_at b 19 b'.'
    then (let n = digit_run (drop 20 b) in if n == 0 then none else some (20 + n))
    else some 19

abbrev pub zone_byte : Bytes → ℕ → Option ℕ → Bool
zone_byte b i none = false
zone_byte b i (some x) =
    if x == b'Z' || x == b'z'
    then i + 1 == length b
    else if x == b'+' || x == b'-'
    then digits b (i + 1) 2
      && byte_at b (i + 3) b':'
      && digits b (i + 4) 2
      && i + 6 == length b
      && leb (num b (i + 1) 2) 23
      && leb (num b (i + 4) 2) 59
    else false

abbrev pub zone_at : Bytes → Option ℕ → Bool
zone_at b none = false
zone_at b (some i) = zone_byte b i (get_elem? b i)

unfoldable pub is_rfc3339 : Bytes → Bool
is_rfc3339 b =
    if ltb (length b) 20
    then false
    else if date_time_shape b
    then (if date_time_ranges b then zone_at b (zone_start b) else false)
    else false
