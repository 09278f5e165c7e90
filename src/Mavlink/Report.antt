-- ===== src/Mavlink/Report.antt =====
-- `base_builder`, `to_event_at` and `FrameParser::parse` of rust/connectors/mavlink/src/mavlink.rs. The
-- identifier and the time that the builder draws are arguments.
use ajar_connectors.Prelude.{
  ℕ, suc, Bool, true, false, Option, none, some, List, [], ◌∷◌, Text, text, Bytes, Result, ok, err,
  map_err, option_map, with_some, ◌==◌, if◌then◌else◌,
}
use ajar_connectors.Prelude.Int.{ℤ, pos, negsuc}
use ajar_connectors.Prelude.Float.{Float}
use ajar_connectors.Prelude.Decimal.{decimal}
use ajar_connectors.Sdk.Event.{Event}
use ajar_connectors.Sdk.Builder.{
  EventBuilder, new, set_id, set_timestamp, set_location, set_payload, metadata_entry, build,
}
use ajar_connectors.Common.Identity.{identity, put_attribute}
use ajar_connectors.Mavlink.{MavError, build_failed, VehicleState, MavPosition, Trig}
use ajar_connectors.Mavlink.Parser.{MavParser, parse_frame}

-- `to_string` of a signed integer
abbrev signed_decimal : ℤ → Text
signed_decimal (pos n) = decimal n
signed_decimal (negsuc n) = 45 ∷ decimal (suc n)

abbrev bool_text : Bool → Text
bool_text true = text "true"
bool_text false = text "false"

abbrev or_else : {A : Type 0} → Option A → Option A → Option A
or_else none b = b
or_else (some a) b = some a

module _ {F : Type 0} ⦃f : Float F⦄ where
  -- `attr!(key, value)`
  abbrev attr : Text → Option Text → EventBuilder F → EventBuilder F
  attr key v b = with_some v (put_attribute key) b

  abbrev fixed_of : ℕ → Option F → Option Text
  fixed_of n v = option_map (λ (x : F). f.fixed n x) v

  abbrev put_truncated : Bool → EventBuilder F → EventBuilder F
  put_truncated true b = metadata_entry b (text "payload_truncated") (text "true")
  put_truncated false b = b

  -- The attributes of the position, and of the vehicle's motion.
  unfoldable pub motion : MavPosition F → EventBuilder F → EventBuilder F
  motion p b =
      let s = p.state in
      let b1 = attr (text "course") (fixed_of 1 p.course_deg) (
        attr (text "heading") (fixed_of 1 p.heading_deg)
          (attr (text "speed") (fixed_of 1 p.sog_mps) b)) in
      let b2 =
        attr (text "relative_altitude") (fixed_of 1 p.relative_alt_m) (
          attr (text "vertical_rate") (fixed_of 1 (or_else p.vertical_speed_mps s.climb_mps)) b1) in
      let b3 =
        attr (text "armed") (option_map bool_text s.armed)
          (attr (text "status") s.status (attr (text "vehicle_type") s.vehicle_type b2)) in
      let b4 =
        attr (text "pitch") (fixed_of 1 s.pitch_deg)
          (attr (text "roll") (fixed_of 1 s.roll_deg) (attr (text "mode") s.mode b3)) in
      attr (text "throttle") (option_map decimal s.throttle_pct) (
        attr (text "airspeed") (fixed_of 1 s.airspeed_mps)
          (attr (text "yaw") (fixed_of 1 s.yaw_deg) b4))

  unfoldable pub power : VehicleState F → EventBuilder F → EventBuilder F
  power s b =
      let b1 =
        attr (text "battery_current") (fixed_of 2 s.battery_current_a)
          (attr (text "battery_voltage") (fixed_of 2 s.battery_voltage_v) b) in
      let b2 =
        attr (text "battery_consumed") (option_map signed_decimal s.battery_consumed_mah)
          (attr (text "battery") (option_map signed_decimal s.battery_remaining_pct) b1) in
      attr (text "cpu_load") (fixed_of 0 s.cpu_load_pct)
        (attr (text "battery_temp") (fixed_of 1 s.battery_temp_c) b2)

  unfoldable pub accuracy : VehicleState F → EventBuilder F → EventBuilder F
  accuracy s b = attr (text "angle_accuracy") (fixed_of 2 s.gps_hdg_acc_deg) (
      attr (text "speed_accuracy") (fixed_of 2 s.gps_vel_acc_mps) (
        attr (text "position_accuracy_v_m") (fixed_of 2 s.gps_v_acc_m)
          (attr (text "position_accuracy_h_m") (fixed_of 2 s.gps_h_acc_m) b)))

  unfoldable pub satellites : MavPosition F → EventBuilder F → EventBuilder F
  satellites p b =
      let s = p.state in
      let b1 = attr (text "gps_hdop") (fixed_of 2 s.gps_hdop) (
        attr (text "gps_satellites") (option_map decimal s.gps_sats)
          (attr (text "gps_fix") s.gps_fix b)) in
      if p.msg_id == 24 then accuracy s b1 else b1

  unfoldable pub base_builder : Text → Text → Option Text → MavPosition F → EventBuilder F
  base_builder source_id fresh hostility p =
      let start =
        set_payload
          (set_location (set_id (new source_id (text "mim:aircraft")) fresh) p.lat p.lon p.alt_m)
          p.raw in
      let numbered =
        metadata_entry (metadata_entry start (text "source_uid") (decimal p.sysid))
          (text "mav_sysid") (decimal p.sysid) in
      let named =
        put_truncated p.truncated (identity (text "MAVLink") (decimal p.sysid) numbered) in
      let enriched = attr (text "hostility") hostility named in
      let full = satellites p (power p.state (motion p enriched)) in
      with_some p.state.custom_mode (λ n b. metadata_entry b (text "custom_mode") (decimal n)) full

  unfoldable pub to_event_at :
      Text → Text → Option Text → Text → MavPosition F → Result (MavError F) (Event F)
  to_event_at source_id fresh hostility observed p =
      map_err build_failed
        (build (set_timestamp (base_builder source_id fresh hostility p) observed))

  abbrev one_event : Result (MavError F) (Event F) → Result (MavError F) (List (Event F))
  one_event (ok e) = ok (e ∷ [])
  one_event (err e) = err e

  abbrev events_of :
      Text
      → Text
      → Option Text
      → Text
      → Result (MavError F) (Option (MavPosition F))
      → Result (MavError F) (List (Event F))
  events_of source_id fresh hostility now (err e) = err e
  events_of source_id fresh hostility now (ok none) = ok []
  events_of source_id fresh hostility now (ok (some p)) =
      one_event (to_event_at source_id fresh hostility now p)

module _ {F : Type 0} ⦃f : Float F⦄ ⦃t : Trig F⦄ where
  -- `FrameParser::parse`; `now` is the time of receipt.
  unfoldable pub parse :
      Text
      → Text
      → Option Text
      → Text
      → Bytes
      → MavParser F
      → Result (MavError F) (List (Event F)) × MavParser F
  parse source_id fresh hostility now frame p =
      let (result, p') = parse_frame frame p in (events_of source_id fresh hostility now result, p')
