-- ===== src/Asterix/Report.antt =====
-- `service_builder` and the service events of `FrameParser::parse` of rust/connectors/asterix/src/asterix.rs.
-- The ontology, and the identifier and the time that the builder draws, are arguments.
use ajar_connectors.Prelude.{
  ℕ, suc, Bool, true, false, Option, none, some, unwrap_or, List, [], ◌∷◌, ◌++◌, Text, text, Result,
  ok, ◌>>=◌, map_err, with_some, ◌==◌, if◌then◌else◌,
}
use ajar_connectors.Prelude.Int.{pos}
use ajar_connectors.Prelude.Float.{Float}
use ajar_connectors.Prelude.Decimal.{decimal}
use ajar_connectors.Sdk.Event.{Event}
use ajar_connectors.Sdk.Builder.{
  EventBuilder, new, set_id, set_timestamp, set_location, set_payload, metadata_entry, build,
}
use ajar_connectors.Common.Identity.{identity, put_attribute}
use ajar_connectors.Common.Ontology.{Ontology, governed}
use ajar_connectors.Asterix.{AsterixError, build_failed}
use ajar_connectors.Asterix.Cat034.{RadarStatus, ServiceReport, is_published, message_name}
use ajar_connectors.Asterix.Service.{Sensor, AsterixParser}

-- The key and the value of each flag.
abbrev pub flags : RadarStatus → List (Text × Option Bool)
flags s =
    (text "nogo", s.nogo)
    ∷ (text "rdp_overload", s.rdp_overload)
    ∷ (text "xmt_overload", s.xmt_overload)
    ∷ (text "monitoring_disconnected", s.monitoring_disconnected)
    ∷ (text "time_source_invalid", s.time_source_invalid)
    ∷ (text "psr_overload", s.psr_overload)
    ∷ (text "ssr_overload", s.ssr_overload)
    ∷ (text "mds_overload", s.mds_overload)
    ∷ []

abbrev bool_text : Bool → Text
bool_text true = text "true"
bool_text false = text "false"

abbrev scoped : ℕ → ℕ → Text
scoped sac sic = decimal sac ++ text ":" ++ decimal sic

module _ {F : Type 0} where
  -- `filter(|r| r.is_published())`
  unfoldable pub published : List (ServiceReport F) → List (ServiceReport F)
  published [] = []
  published (r ∷ rs) = if is_published r then r ∷ published rs else published rs

  unfoldable pub put_flags : List (Text × Option Bool) → EventBuilder F → EventBuilder F
  put_flags [] b = b
  put_flags ((key, value) ∷ rest) b =
      put_flags rest (with_some value (λ v x. metadata_entry x key (bool_text v)) b)

  -- Where the radar is: what it reports, or the configured site.
  abbrev located : Option (F × F × F) → Option (Sensor F) → EventBuilder F → EventBuilder F
  located none none b = b
  located none (some s) b = set_location b s.lat s.lon s.alt_m
  located (some (lat, lon, h)) sensor b = set_location b lat lon h

module _ {F : Type 0} ⦃f : Float F⦄ (ont : Ontology) where
  abbrev fixed3 : F → Text
  fixed3 x = f.fixed 3 x

  abbrev entry : Text → Text → EventBuilder F → EventBuilder F
  entry key value b = metadata_entry b key value

  -- The rotation is the scan, and on a north marker the heartbeat as well.
  unfoldable pub put_rotation : Text → ℕ → F → EventBuilder F → EventBuilder F
  put_rotation entity_type message_type p b =
      let scanned =
        entry (text "rotation_period_s") (fixed3 p)
          (governed ont b entity_type (text "scan_period_s") (fixed3 p)) in
      if message_type == 1
      then governed ont scanned entity_type (text "update_interval_s") (fixed3 p)
      else scanned

  abbrev coverage : Text → F × F × F × F → EventBuilder F → EventBuilder F
  coverage entity_type (r0, r1, a0, a1) b =
      let bearings =
        governed ont (governed ont b entity_type (text "coverage_bearing_start_deg") (fixed3 a0))
          entity_type (text "coverage_bearing_end_deg") (fixed3 a1) in
      governed ont bearings entity_type (text "detection_range_m")
        (f.fixed 0 (f.float_mul r1 (f.of_int (pos 1852))))

  -- On a north marker the window is the coverage of the radar.
  unfoldable pub put_window : Text → ℕ → F × F × F × F → EventBuilder F → EventBuilder F
  put_window entity_type message_type (r0, r1, a0, a1) b =
      let covered = if message_type == 1 then coverage entity_type (r0, r1, a0, a1) b else b in
      entry (text "window_azimuth_end_deg") (fixed3 a1) (
        entry (text "window_azimuth_start_deg") (fixed3 a0) (
          entry (text "window_range_end_nm") (fixed3 r1)
            (entry (text "window_range_start_nm") (fixed3 r0) covered)))

  abbrev service_type : AsterixParser F → Text
  service_type p = unwrap_or p.cat034_type (text "mim:sensor")

  unfoldable pub service_builder : AsterixParser F → Text → ServiceReport F → EventBuilder F
  service_builder p fresh r =
      let ty = service_type p in
      let start = set_payload (set_id (new p.source_id ty) fresh) r.raw in
      let named = entry (text "message_type") (message_name r) (
        entry (text "asterix_category") (text "34")
          (entry (text "source_uid") (text "asterix:radar:" ++ scoped r.sac r.sic) start)) in
      let placed =
        located r.position p.sensor (identity (text "ASTERIX") (scoped r.sac r.sic) named) in
      let timed =
        with_some r.time_of_day (λ t. entry (text "time_of_day_s") (fixed3 t))
          (with_some p.hostility (put_attribute (text "hostility")) placed) in
      let turned = with_some r.rotation_period_s (put_rotation ty r.message_type) timed in
      let sectored = with_some r.sector (λ n. entry (text "sector") (decimal n)) turned in
      put_flags (flags r.status) (with_some r.window (put_window ty r.message_type) sectored)

  unfoldable pub service_event_at :
      AsterixParser F → Text → Text → ServiceReport F → Result (AsterixError F) (Event F)
  service_event_at p fresh observed r =
      map_err build_failed (build (set_timestamp (service_builder p fresh r) observed))

  -- The events of these reports; the `n`-th draws its identifier and its time.
  unfoldable pub service_events :
      AsterixParser F
      → (ℕ → Text × Text)
      → ℕ
      → List (ServiceReport F)
      → Result (AsterixError F) (List (Event F))
  service_events p draws n [] = ok []
  service_events p draws n (r ∷ rs) = do
    event ← service_event_at p (draws n).0 (draws n).1 r
    events ← service_events p draws (suc n) rs
    ok (event ∷ events)

  unfoldable pub published_events :
      AsterixParser F
      → (ℕ → Text × Text)
      → List (ServiceReport F)
      → Result (AsterixError F) (List (Event F))
  published_events p draws reports = service_events p draws 0 (published reports)
