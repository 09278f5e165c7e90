-- ===== src/Ais/Sentence.antt =====
-- The NMEA sentence of rust/connectors/ais-nmea/src/ais.rs: checksum, fields and the reassembly of fragments.
-- The clock is an argument, in nanoseconds.
use Prim.Native.Nat.{bit_xor}
use ajar_connectors.Prelude.{
  ℕ, ◌+◌, ◌-◌, ◌*◌, ◌^◌, Bool, not, ◌&&◌, ◌||◌, Option, none, some, List, [], ◌∷◌, ◌++◌, Text,
  Bytes, text, text_eq, strip_prefix, length, take, drop, ltb, ◌==◌, Result, ok, err, ◌>>=◌, ◌>>◌,
  reject_if, ok_or, is_some, unwrap_or, if◌then◌else◌,
}
use ajar_connectors.Prelude.Float.{Float}
use ajar_connectors.Prelude.Utf8.{is_utf8}
use ajar_connectors.Prelude.Decimal.{parse_radix}
use ajar_connectors.Prelude.Scan.{trim, split, find, rfind, ends_with, slice}
use ajar_connectors.Sdk.Event.{BuildError}
use ajar_connectors.Ais.Bits.{from_payload}
use ajar_connectors.Ais.Decode.{AisPosition, Vessels, decode}

pub data AisError (F : Type 0) : Type 0 where
  not_ascii : AisError F
  not_nmea : AisError F
  checksum : AisError F
  bad_fields : AisError F
  armor : ℕ → AisError F
  truncated : AisError F
  build_failed : BuildError F → AisError F

pub record ReasmKey : Type 0 where
  pub talker : Text
  pub channel : Text
  pub seq : ℕ

pub record Pending : Type 0 where
  pub total : ℕ
  pub payload : Text
  pub raws : List Bytes
  pub first_seen : ℕ

abbrev pub Partials : Type 0
Partials = List (ReasmKey × Pending)

abbrev pub reasm_ttl : ℕ
reasm_ttl = 10 * 10 ^ 9

abbrev pub new_pending : ℕ → ℕ → Pending
new_pending total now = record { total = total; payload = []; raws = []; first_seen = now }

unfoldable pub continues : ℕ → ℕ → Pending → Bool
continues frag_count frag_num p = (p.total == frag_count) && (length p.raws + 1 == frag_num)

abbrev pub same_key : ReasmKey → ReasmKey → Bool
same_key a b = text_eq a.talker b.talker && text_eq a.channel b.channel && (a.seq == b.seq)

unfoldable pub find_partial : ReasmKey → Partials → Option Pending
find_partial key [] = none
find_partial key ((k, p) ∷ rest) = if same_key k key then some p else find_partial key rest

unfoldable pub remove_partial : ReasmKey → Partials → Partials
remove_partial key [] = []
remove_partial key ((k, p) ∷ rest) =
    let later = remove_partial key rest in if same_key k key then later else (k, p) ∷ later

-- `retain`: only what was first seen less than the time to live ago.
unfoldable pub retain_fresh : ℕ → Partials → Partials
retain_fresh now [] = []
retain_fresh now ((k, p) ∷ rest) =
    let later = retain_fresh now rest in
    if ltb (now - p.first_seen) reasm_ttl then (k, p) ∷ later else later

abbrev pub with_fragment : Text → Bytes → Pending → Pending
with_fragment payload raw p = record p { payload = p.payload ++ payload; raws = p.raws ++ raw ∷ [] }

pub record Fragment : Type 0 where
  pub key : ReasmKey
  pub frag_count : ℕ
  pub frag_num : ℕ
  pub payload : Text
  pub fill : ℕ
  pub raw : Bytes

-- A fragment behind the first needs the partial that it continues; the removed partial is lost otherwise.
unfoldable pub take_partial : ℕ → Fragment → Partials → Partials × Option Pending
take_partial now g partials =
    if g.frag_num == 1
    then (partials, some (new_pending g.frag_count now))
    else (remove_partial g.key partials, of_found (find_partial g.key partials))
  where
    of_found : Option Pending → Option Pending
    of_found none = none
    of_found (some p) = if continues g.frag_count g.frag_num p then some p else none

-- The partials after a fragment of a message of several, and the whole message once it is there.
unfoldable pub add_fragment : ℕ → Fragment → Partials → Partials × Option Pending
add_fragment now g partials = of_partial (take_partial now g (retain_fresh now partials))
  where
    of_partial : Partials × Option Pending → Partials × Option Pending
    of_partial (left, none) = (left, none)
    of_partial (left, some p) =
        let grown = with_fragment g.payload g.raw p in
        if ltb g.frag_num g.frag_count
        then ((g.key, grown) ∷ remove_partial g.key left, none)
        else (left, some grown)

unfoldable pub strip_tag_block : Text → Text
strip_tag_block s = of_rest (strip_prefix (92 ∷ []) s)
  where
    of_end : Text → Option ℕ → Text
    of_end rest none = s
    of_end rest (some end) = drop (end + 1) rest

    of_rest : Option Text → Text
    of_rest none = s
    of_rest (some rest) = of_end rest (find 92 rest)

unfoldable pub xor_all : ℕ → Bytes → ℕ
xor_all acc [] = acc
xor_all acc (b ∷ bs) = xor_all (bit_xor acc b) bs

abbrev pub starts_sentence : Text → Bool
starts_sentence s = is_some (strip_prefix (33 ∷ []) s) || is_some (strip_prefix (36 ∷ []) s)

-- The fields from the talker on, once the checksum holds; `s` starts with `!` or `$`.
abbrev pub fields_of : Text → List Text
fields_of s = split 44 (take (unwrap_or (find 42 s) (length s) - 1) (drop 1 s))

abbrev pub parse_u8 : Text → Option ℕ
parse_u8 = parse_radix 10 255

abbrev pub is_vdm : Text → Bool
is_vdm talker = ends_with talker (text "VDM") || ends_with talker (text "VDO")

module _ {F : Type 0} where
  unfoldable pub verify_checksum : Text → Result (AisError F) (Unit {0})
  verify_checksum s = do
    star ← ok_or (rfind 42 s) checksum
    given ← ok_or (slice s (star + 1) (star + 3)) checksum
    value ← ok_or (parse_radix 16 255 given) checksum
    reject_if (not (xor_all 0 (take (star - 1) (drop 1 s)) == value)) checksum

  unfoldable pub read_fragment : Bytes → List Text → Result (AisError F) Fragment
  read_fragment raw (talker ∷ count ∷ num ∷ seq ∷ channel ∷ payload ∷ fill ∷ more) = do
    frag_count ← ok_or (parse_u8 count) bad_fields
    frag_num ← ok_or (parse_u8 num) bad_fields
    reject_if ((frag_count == 0) || (frag_num == 0) || ltb frag_count frag_num) bad_fields
    ok (record {
      key = record { talker = talker; channel = channel; seq = unwrap_or (parse_u8 seq) 0 };
      frag_count = frag_count;
      frag_num = frag_num;
      payload = payload;
      fill = unwrap_or (parse_u8 fill) 0;
      raw = raw;
    })
  read_fragment raw few = err bad_fields

  abbrev pub present : Fragment → Result (AisError F) (Option Fragment)
  present g = ok (some g)

  -- `none` for a sentence that is not AIS.
  abbrev pub read_if_vdm : Bytes → List Text → Result (AisError F) (Option Fragment)
  read_if_vdm raw [] = ok none
  read_if_vdm raw (talker ∷ rest) =
      if is_vdm talker then read_fragment raw (talker ∷ rest) >>= present else ok none

  unfoldable pub read_sentence : Bytes → Result (AisError F) (Option Fragment)
  read_sentence frame = do
    reject_if (not (is_utf8 frame)) not_ascii
    let original = trim frame
    let s = strip_tag_block original
    reject_if (not (starts_sentence s)) not_nmea
    verify_checksum s
    read_if_vdm original (fields_of s)

pub record Parser : Type 0 where
  pub pending : Partials
  pub vessels : Vessels

module _ {F : Type 0} ⦃f : Float F⦄ where
  abbrev of_decoded : Option (Option (AisPosition F)) → Result (AisError F) (Option (AisPosition F))
  of_decoded none = err truncated
  of_decoded (some p) = ok p

  -- `Bits::from_payload(...)?` and `self.decode(...)`
  unfoldable pub decode_payload :
      Text → ℕ → List Bytes → Parser → Parser × Result (AisError F) (Option (AisPosition F))
  decode_payload payload fill raws s = elim (from_payload payload fill) [
    | err c ↦ (s, err (armor c))
    | ok bits ↦
        let (vessels, p) = decode bits raws s.vessels in
        (record s { vessels = vessels }, of_decoded p)
  ]

  unfoldable pub handle_fragment :
      ℕ → Fragment → Parser → Parser × Result (AisError F) (Option (AisPosition F))
  handle_fragment now g s =
      if g.frag_count == 1
      then decode_payload g.payload g.fill (g.raw ∷ []) s
      else of_added (add_fragment now g s.pending)
    where
      of_added : Partials × Option Pending → Parser × Result (AisError F) (Option (AisPosition F))
      of_added (partials, none) = (record s { pending = partials }, ok none)
      of_added (partials, some p) =
          decode_payload p.payload g.fill p.raws (record s { pending = partials })

  unfoldable pub parse_sentence :
      ℕ → Bytes → Parser → Parser × Result (AisError F) (Option (AisPosition F))
  parse_sentence now frame s = elim (read_sentence frame) [
    | err e ↦ (s, err e)
    | ok none ↦ (s, ok none)
    | ok (some g) ↦ handle_fragment now g s
  ]
