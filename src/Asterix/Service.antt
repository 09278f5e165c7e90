-- ===== src/Asterix/Service.antt =====
-- `parse_service_block` of rust/connectors/asterix/src/asterix.rs, with the parser's state passed on. The map of the radars' statuses is an association list.
use ajar_connectors.Prelude.{
  ℕ, zero, suc, ◌-◌, Bool, true, false, ◌&&◌, ◌||◌, Option, none, some, List, [], ◌∷◌, Text, Bytes,
  length, take, drop, leb, ◌==◌, Result, ok, err, if◌then◌else◌,
}
use ajar_connectors.Prelude.Float.{Float}
use ajar_connectors.Sdk.Consumer.{fetch_add_one}
use ajar_connectors.Asterix.{AsterixError, block_header}
use ajar_connectors.Asterix.Records.{Items, walk_record, cons_ok}
use ajar_connectors.Asterix.Cat034.{
  uap, RadarStatus, no_status, merge, degraded, ServiceReport, decode,
}

pub record Sensor (F : Type 0) : Type 0 where
  pub lat : F
  pub lon : F
  pub alt_m : F

-- The parser: its configuration, the merged status of each radar by SAC and SIC, and the counters.
pub record AsterixParser (F : Type 0) : Type 0 where
  pub source_id : Text
  pub hostility : Option Text
  pub sensor : Option (Sensor F)
  pub cat010_type : Option Text
  pub surface_domain : Option Text
  pub cat034_type : Option Text
  pub radar_status : List ((ℕ × ℕ) × RadarStatus)
  pub ignored_blocks : ℕ
  pub test_targets : ℕ
  pub north_markers : ℕ
  pub sector_crossings : ℕ
  pub jamming_strobes : ℕ
  pub radar_degraded : ℕ

abbrev pub same_radar : ℕ × ℕ → ℕ × ℕ → Bool
same_radar (a, b) (c, d) = (a == c) && (b == d)

-- `entry(radar).or_default()`
unfoldable pub find_status : ℕ × ℕ → List ((ℕ × ℕ) × RadarStatus) → RadarStatus
find_status k [] = no_status
find_status k ((n, s) ∷ rest) = if same_radar n k then s else find_status k rest

unfoldable pub set_status :
    ℕ × ℕ → RadarStatus → List ((ℕ × ℕ) × RadarStatus) → List ((ℕ × ℕ) × RadarStatus)
set_status k s [] = (k, s) ∷ []
set_status k s ((n, t) ∷ rest) =
    if same_radar n k then (n, s) ∷ rest else (n, t) ∷ set_status k s rest

abbrev pub count_when : Bool → ℕ → ℕ
count_when b n = if b then fetch_add_one n else n

module _ {F : Type 0} where
  abbrev pub radar_of : ServiceReport F → ℕ × ℕ
  radar_of r = (r.sac, r.sic)

  abbrev pub status_of : ℕ × ℕ → AsterixParser F → RadarStatus
  status_of k p = find_status k p.radar_status

  -- The counters of one report, whose status is merged.
  unfoldable pub count_report : ServiceReport F → AsterixParser F → AsterixParser F
  count_report r p = record p {
    north_markers = count_when (r.message_type == 1) p.north_markers;
    sector_crossings = count_when (r.message_type == 2) p.sector_crossings;
    jamming_strobes =
        count_when ((r.message_type == 4) || (r.message_type == 6) || (r.message_type == 7))
          p.jamming_strobes;
    radar_degraded = count_when ((r.message_type == 1) && degraded r.status) p.radar_degraded;
  }

  -- The round of the loop after the decoding: the report gets the merged status of its radar.
  unfoldable pub take_report : ServiceReport F → AsterixParser F → ServiceReport F × AsterixParser F
  take_report r p =
      let known = merge (status_of (radar_of r) p) r.status in
      let merged : ServiceReport F = record r { status = known } in
      (
        merged,
        count_report merged
            (record p { radar_status = set_status (radar_of r) known p.radar_status }),
      )

  abbrev pub then_reports :
      ServiceReport F
      → Option (Result (AsterixError F) (List (ServiceReport F))) × AsterixParser F
      → Option (Result (AsterixError F) (List (ServiceReport F))) × AsterixParser F
  then_reports r (reports, p) = (cons_ok r reports, p)

module _ {F : Type 0} ⦃f : Float F⦄ where
  abbrev pub raw_report : Items → Bytes → ServiceReport F
  raw_report items bytes = record (decode items) { raw = bytes }

  -- The loop over the records of a block; `none` is out of fuel. A record that fails leaves what those
  -- before it did.
  unfoldable pub service_records :
      ℕ
      → Bytes
      → ℕ
      → AsterixParser F
      → Option (Result (AsterixError F) (List (ServiceReport F))) × AsterixParser F
  service_records zero block off p = (none, p)
  service_records (suc fuel) block off p = elim (leb (length block) off) [
    | true ↦ (some (ok []), p)
    | false ↦ elim (walk_record 34 uap block off) [
      | err e ↦ (some (err e), p)
      | ok (items, next) ↦
          let (r, p') = take_report (raw_report items (take (next - off) (drop off block))) p in
          then_reports r (service_records fuel block next p')
    ]
  ]

  -- `none` is out of fuel, which more rounds than the block has bytes exclude.
  abbrev pub by_category :
      Bytes
      → Result (AsterixError F) (ℕ × ℕ)
      → AsterixParser F
      → Option (Result (AsterixError F) (List (ServiceReport F))) × AsterixParser F
  by_category frame (err e) p = (some (err e), p)
  by_category frame (ok (cat, len)) p =
      if cat == 34 then service_records (suc len) (take len frame) 3 p else (some (ok []), p)

  unfoldable pub parse_service_block :
      Bytes
      → AsterixParser F
      → Option (Result (AsterixError F) (List (ServiceReport F))) × AsterixParser F
  parse_service_block frame p = by_category frame (block_header frame) p
