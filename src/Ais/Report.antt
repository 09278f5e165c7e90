-- ===== src/Ais/Report.antt =====
-- `base_builder` and `to_event_at` of rust/connectors/ais-nmea/src/ais.rs: the position as an event. The
-- identifier that `new_id` draws is an argument.
use ajar_connectors.Prelude.{
  ℕ, ◌^◌, Bool, true, false, ◌&&◌, Option, none, some, Text, text, Result, map_err, leb, with_some,
  if◌then◌else◌,
}
use ajar_connectors.Prelude.Int.{pos}
use ajar_connectors.Prelude.Float.{Float}
use ajar_connectors.Prelude.Decimal.{decimal, zero_padded}
use ajar_connectors.Sdk.Event.{Event}
use ajar_connectors.Sdk.Builder.{
  EventBuilder, new, set_id, set_timestamp, set_location, set_payload, attribute, metadata_entry,
  build,
}
use ajar_connectors.Common.Identity.{identity, put_attribute}
use ajar_connectors.Ais.Fields.{over}
use ajar_connectors.Ais.Decode.{AisPosition}
use ajar_connectors.Ais.Sentence.{AisError, build_failed}

abbrev both {ℓ} : {A : Type ℓ} → Option A → Option A → Option (A × A)
both none lon = none
both (some lat) none = none
both (some lat) (some lon) = some (lat, lon)

module _ {F : Type 0} ⦃f : Float F⦄ where
  abbrev pub knots_to_mps : F
  knots_to_mps = over (pos 514444) (10 ^ 6)

  abbrev put_place : F × F → EventBuilder F → EventBuilder F
  put_place (lat, lon) b = set_location b lat lon (f.of_int (pos 0))

  abbrev put_speed : F → EventBuilder F → EventBuilder F
  put_speed kn b =
      metadata_entry (attribute b (text "speed") (f.fixed 2 (f.float_mul kn knots_to_mps)))
        (text "speed_kn") (f.fixed 1 kn)

  abbrev put_truncated : Bool → EventBuilder F → EventBuilder F
  put_truncated true b = metadata_entry b (text "payload_truncated") (text "true")
  put_truncated false b = b

  abbrev put_mmsi : ℕ → EventBuilder F → EventBuilder F
  put_mmsi mmsi b =
      if leb 1 mmsi && leb mmsi 999999999 then identity (text "AIS") (zero_padded 9 mmsi) b else b

  -- `fresh` is the identifier that `new_id` draws, `hostility` the operator's enrichment.
  unfoldable pub base_builder : Text → Text → Option Text → AisPosition F → EventBuilder F
  base_builder source_id fresh hostility p =
      let start = set_payload (set_id (new source_id (text "mim:vessel")) fresh) p.raw in
      let named =
        metadata_entry (metadata_entry start (text "source_uid") (decimal p.mmsi)) (text "mmsi")
          (decimal p.mmsi) in
      let placed = with_some (both p.lat p.lon) put_place (put_mmsi p.mmsi named) in
      let numbered = with_some p.imo (λ n b. metadata_entry b (text "imo") (decimal n)) placed in
      let enriched =
        with_some hostility (put_attribute (text "hostility"))
          (put_truncated p.truncated numbered) in
      let moving = with_some p.sog_kn put_speed enriched in
      let course = with_some p.cog_deg (λ d. put_attribute (text "course") (f.fixed 1 d)) moving in
      let heading =
        with_some p.heading_deg (λ d. put_attribute (text "heading") (f.fixed 0 d)) course in
      let turning =
        with_some p.rot_degmin (λ r. put_attribute (text "rate_of_turn") (f.fixed 1 r)) heading in
      let status = with_some p.nav_status (put_attribute (text "nav_status")) turning in
      let typed = with_some p.ship_type (put_attribute (text "vessel_type")) status in
      let titled = with_some p.name (put_attribute (text "vessel_name")) typed in
      with_some p.callsign (put_attribute (text "callsign")) titled

  unfoldable pub to_event_at :
      Text → Text → Option Text → Text → AisPosition F → Result (AisError F) (Event F)
  to_event_at source_id fresh hostility observed p =
      map_err build_failed
        (build (set_timestamp (base_builder source_id fresh hostility p) observed))
