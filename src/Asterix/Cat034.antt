-- ===== src/Asterix/Cat034.antt =====
-- Category 034 of rust/connectors/asterix/src/asterix/cat034.rs, the service messages of a radar: the items of
-- a record, the status that it reports, and how statuses merge.
use ajar_connectors.Prelude.{
  ℕ, ◌/◌, ◌%◌, Bool, false, ◌||◌, Option, none, some, unwrap_or, List, [], ◌∷◌, Text, text, Bytes,
  ◌==◌, if◌then◌else◌,
}
use ajar_connectors.Prelude.Float.{Float}
use ajar_connectors.Asterix.{
  Item, sp, re, fixed, repetitive, explicit, spare, compound, Fields, no_fields, field_then,
  walk_compound,
}
use ajar_connectors.Asterix.Records.{Uap, Items}
use ajar_connectors.Asterix.Wire.{be_uint, signed_at, time_of_day_s, quotient, azimuth}

abbrev pub sub_050 : Fields
sub_050 = field_then (fixed 1) (
    field_then spare (
      field_then spare (
        field_then (fixed 1)
          (field_then (fixed 1) (field_then (fixed 2) (field_then spare no_fields))))))

abbrev pub sub_060 : Fields
sub_060 = field_then (fixed 1) (
    field_then spare (
      field_then spare (
        field_then (fixed 1)
          (field_then (fixed 1) (field_then (fixed 1) (field_then spare no_fields))))))

unfoldable pub uap : Uap
uap =
    (10, fixed 2)
    ∷ (0, fixed 1)
    ∷ (30, fixed 3)
    ∷ (20, fixed 1)
    ∷ (41, fixed 2)
    ∷ (50, compound sub_050)
    ∷ (60, compound sub_060)
    ∷ (70, repetitive 2)
    ∷ (100, fixed 8)
    ∷ (110, fixed 1)
    ∷ (120, fixed 8)
    ∷ (90, fixed 2)
    ∷ (re, explicit)
    ∷ (sp, explicit)
    ∷ []

-- A flag is `none` until the radar has reported it.
pub record RadarStatus : Type 0 where
  pub nogo : Option Bool
  pub rdp_overload : Option Bool
  pub xmt_overload : Option Bool
  pub monitoring_disconnected : Option Bool
  pub time_source_invalid : Option Bool
  pub psr_overload : Option Bool
  pub ssr_overload : Option Bool
  pub mds_overload : Option Bool

abbrev pub no_status : RadarStatus
no_status = record {
  nogo = none;
  rdp_overload = none;
  xmt_overload = none;
  monitoring_disconnected = none;
  time_source_invalid = none;
  psr_overload = none;
  ssr_overload = none;
  mds_overload = none;
}

-- `take!`
abbrev pub take_reported : Option Bool → Option Bool → Option Bool
take_reported mine none = mine
take_reported mine (some b) = some b

unfoldable pub merge : RadarStatus → RadarStatus → RadarStatus
merge mine other = record {
  nogo = take_reported mine.nogo other.nogo;
  rdp_overload = take_reported mine.rdp_overload other.rdp_overload;
  xmt_overload = take_reported mine.xmt_overload other.xmt_overload;
  monitoring_disconnected =
      take_reported mine.monitoring_disconnected other.monitoring_disconnected;
  time_source_invalid = take_reported mine.time_source_invalid other.time_source_invalid;
  psr_overload = take_reported mine.psr_overload other.psr_overload;
  ssr_overload = take_reported mine.ssr_overload other.ssr_overload;
  mds_overload = take_reported mine.mds_overload other.mds_overload;
}

abbrev reported_true : Option Bool → Bool
reported_true v = unwrap_or v false

unfoldable pub degraded : RadarStatus → Bool
degraded s =
    reported_true s.nogo
    || reported_true s.rdp_overload
    || reported_true s.xmt_overload
    || reported_true s.psr_overload
    || reported_true s.ssr_overload
    || reported_true s.mds_overload

pub record ServiceReport (F : Type 0) : Type 0 where
  pub sac : ℕ
  pub sic : ℕ
  pub message_type : ℕ
  pub time_of_day : Option F
  pub sector : Option ℕ
  pub rotation_period_s : Option F
  pub position : Option (F × F × F)
  pub status : RadarStatus
  pub window : Option (F × F × F × F)
  pub raw : Bytes

abbrev pub no_report : {F : Type 0} → ServiceReport F
no_report = record {
  sac = 0;
  sic = 0;
  message_type = 0;
  time_of_day = none;
  sector = none;
  rotation_period_s = none;
  position = none;
  status = no_status;
  window = none;
  raw = [];
}

-- A north marker, or a strobe of one of the three kinds.
unfoldable pub is_published : {F : Type 0} → ServiceReport F → Bool
is_published r =
    (r.message_type == 1) || (r.message_type == 4) || (r.message_type == 6) || (r.message_type == 7)

abbrev pub name_of : ℕ → Text
name_of n =
    if n == 1
    then text "north-marker"
    else if n == 2
    then text "sector-crossing"
    else if n == 3
    then text "geographical-filtering"
    else if n == 4
    then text "jamming-strobe"
    else if n == 5
    then text "solar-storm"
    else if n == 6
    then text "ssr-jamming-strobe"
    else if n == 7
    then text "mode-s-jamming-strobe"
    else text "unknown"

unfoldable pub message_name : {F : Type 0} → ServiceReport F → Text
message_name r = name_of r.message_type

-- A bit of an octet, by its weight.
abbrev flag : ℕ → ℕ → Option Bool
flag weight octet = some (octet / weight % 2 == 1)

-- A subfield of the item 050 by its index.
unfoldable pub status_sub : ℕ → Bytes → RadarStatus → RadarStatus
status_sub i bytes s =
    let octet = be_uint bytes 0 1 in
    if i == 0
    then record s {
      nogo = flag 128 octet;
      rdp_overload = flag 16 octet;
      xmt_overload = flag 8 octet;
      monitoring_disconnected = flag 4 octet;
      time_source_invalid = flag 2 octet;
    }
    else if i == 3
    then record s { psr_overload = flag 16 octet }
    else if i == 4
    then record s { ssr_overload = flag 16 octet }
    else if i == 5
    then record s { mds_overload = flag 16 octet }
    else s

unfoldable pub status_subs : List (ℕ × Bytes) → RadarStatus → RadarStatus
status_subs [] s = s
status_subs ((i, bytes) ∷ rest) s = status_subs rest (status_sub i bytes s)

module _ {F : Type 0} ⦃f : Float F⦄ where
  -- `LSB_120`
  abbrev lsb_120 : F
  lsb_120 = quotient 180 8388608

  unfoldable pub decode_item : Item → Bytes → ServiceReport F → ServiceReport F
  decode_item id item r =
      if id == 10
      then record r { sac = be_uint item 0 1; sic = be_uint item 1 1 }
      else if id == 0
      then record r { message_type = be_uint item 0 1 }
      else if id == 30
      then record r { time_of_day = some (time_of_day_s item) }
      else if id == 20
      then record r { sector = some (be_uint item 0 1) }
      else if id == 41
      then record r { rotation_period_s = some (quotient (be_uint item 0 2) 128) }
      else if id == 50
      then record r { status = status_subs (walk_compound sub_050 item) r.status }
      else if id == 100
      then record r {
        window = some (
          quotient (be_uint item 0 2) 256,
          quotient (be_uint item 2 2) 256,
          azimuth item 4,
          azimuth item 6,
        );
      }
      else if id == 120
      then record r {
        position = some (
          f.float_mul (signed_at item 2 3) lsb_120,
          f.float_mul (signed_at item 5 3) lsb_120,
          signed_at item 0 2,
        );
      }
      else r

  unfoldable pub decode_items : Items → ServiceReport F → ServiceReport F
  decode_items [] r = r
  decode_items ((id, item) ∷ items) r = decode_items items (decode_item id item r)

  unfoldable pub decode : Items → ServiceReport F
  decode items = decode_items items no_report
