-- ===== src/Mavlink/Parser.antt =====
-- `MavParser::parse_frame` of rust/connectors/mavlink/src/mavlink.rs with the state of each vehicle, passed
-- from call to call. The map of the vehicles is an association list.
use ajar_connectors.Prelude.{
  ℕ, ◌+◌, ◌-◌, ◌*◌, ◌%◌, ◌^◌, Bool, not, Option, none, some, List, [], ◌∷◌, ◌++◌, Bytes, length,
  take, drop, replicate, min, ltb, ◌==◌, unwrap_or, Result, ok, err, if◌then◌else◌,
}
use ajar_connectors.Prelude.Int.{pos}
use ajar_connectors.Prelude.Float.{Float}
use ajar_connectors.Prelude.Carry
use ajar_connectors.Prelude.Carry.{Carry, no_carry}
use ajar_connectors.Mavlink.{
  MavError, not_mavlink, truncated, bad_crc, VehicleState, MavPosition, Vehicle, no_vehicle, Trig,
  max_pending_frames, max_pending_bytes, crc_extra_and_len, crc, byte_of, u16le, i16le, i32le,
}
use ajar_connectors.Mavlink.Messages.{
  heartbeat, sys_status, attitude, vfr_hud, battery_status, gps_quality, divided,
}

pub record Header : Type 0 where
  pub len : ℕ
  pub header_len : ℕ
  pub sysid : ℕ
  pub msg_id : ℕ

pub record MavParser (F : Type 0) : Type 0 where
  pub vehicles : List (ℕ × Vehicle F)
  pub dropped : ℕ

abbrev pub crc_start : Header → ℕ
crc_start h = h.header_len + h.len

unfoldable pub concat : List Bytes → Bytes
concat [] = []
concat (x ∷ xs) = x ++ concat xs

module _ {F : Type 0} where
  unfoldable pub find_vehicle : ℕ → List (ℕ × Vehicle F) → Option (Vehicle F)
  find_vehicle id [] = none
  find_vehicle id ((n, v) ∷ rest) = if n == id then some v else find_vehicle id rest

  unfoldable pub set_vehicle : ℕ → Vehicle F → List (ℕ × Vehicle F) → List (ℕ × Vehicle F)
  set_vehicle id v [] = (id, v) ∷ []
  set_vehicle id v ((n, w) ∷ rest) =
      if n == id then (n, v) ∷ rest else (n, w) ∷ set_vehicle id v rest

  -- `entry(sysid).or_default()`
  abbrev pub vehicle : ℕ → MavParser F → Vehicle F
  vehicle id p = unwrap_or (find_vehicle id p.vehicles) no_vehicle

  -- The header of either version, from the frame's first byte.
  abbrev header_v1 : Bytes → Result (MavError F) Header
  header_v1 b =
      if ltb (length b) 6
      then err truncated
      else ok
          (record { len = byte_of b 1; header_len = 6; sysid = byte_of b 3; msg_id = byte_of b 5 })

  abbrev header_v2 : Bytes → Result (MavError F) Header
  header_v2 b =
      if ltb (length b) 10
      then err truncated
      else ok (record {
        len = byte_of b 1;
        header_len = 10;
        sysid = byte_of b 5;
        msg_id = byte_of b 7 + byte_of b 8 * 256 + byte_of b 9 * 2 ^ 16;
      })

  unfoldable pub read_header : Bytes → Result (MavError F) Header
  read_header [] = err truncated
  read_header (magic ∷ rest) =
      if magic == 0xfe
      then header_v1 (magic ∷ rest)
      else if magic == 0xfd
      then header_v2 (magic ∷ rest)
      else err not_mavlink

  unfoldable pub mutate : ℕ → (VehicleState F → VehicleState F) → MavParser F → MavParser F
  mutate id f p =
      let v = vehicle id p in
      record p { vehicles = set_vehicle id (record v { state = f v.state }) p.vehicles }

  -- `fetch_add` of the dropped frames wraps.
  unfoldable pub carry : ℕ → Bytes → MavParser F → MavParser F
  carry id raw p =
      let v = vehicle id p in
      let (c, dropped) = Carry.push_raw max_pending_frames max_pending_bytes raw v.carry in
      record {
        vehicles = set_vehicle id (record v { carry = c }) p.vehicles;
        dropped = (p.dropped + dropped) % 2 ^ 64;
      }

  -- `drain_payload` of the vehicle: its frames, and whether any were dropped.
  unfoldable pub drain : ℕ → MavParser F → (Bytes × Bool) × MavParser F
  drain id p =
      let v = vehicle id p in
      (
        (concat v.carry.pending, v.carry.dropped_since_emit),
        record p { vehicles = set_vehicle id (record v { carry = no_carry }) p.vehicles },
      )

-- The payload with the zero bytes that version 2 trims.
unfoldable pub zero_extend : ℕ → Bytes → Bytes
zero_extend full_len body =
    let n = min (length body) full_len in take n body ++ replicate (full_len - n) 0

module _ {F : Type 0} ⦃f : Float F⦄ ⦃t : Trig F⦄ where
  -- Negative zero is made zero.
  abbrev climb : F → F
  climb x = if t.float_eq x (f.of_int (pos 0)) then f.of_int (pos 0) else x

  abbrev speed_of : F → F → F
  speed_of vx vy =
      f.float_div (t.sqrt (f.float_add (f.float_mul vx vx) (f.float_mul vy vy)))
        (f.of_int (pos 100))

  abbrev unless : ℕ → ℕ → Option F
  unless sentinel n = if n == sentinel then none else some (divided (pos n) 100)

  unfoldable pub global_position : ℕ → Bytes → MavParser F → MavPosition F × MavParser F
  global_position id b p =
      let ((raw, was_truncated), p') = drain id p in
      (
        record {
          sysid = id;
          msg_id = 33;
          lat = divided (i32le b 4) (10 ^ 7);
          lon = divided (i32le b 8) (10 ^ 7);
          alt_m = divided (i32le b 12) 1000;
          relative_alt_m = some (divided (i32le b 16) 1000);
          heading_deg = unless 0xffff (u16le b 26);
          course_deg = none;
          sog_mps = some (speed_of (f.of_int (i16le b 20)) (f.of_int (i16le b 22)));
          vertical_speed_mps =
              some (climb (f.float_div (t.float_neg (f.of_int (i16le b 24))) (f.of_int (pos 100))));
          state = (vehicle id p').state;
          raw = raw;
          truncated = was_truncated;
        },
        p',
      )

  unfoldable pub gps_raw : ℕ → Bytes → MavParser F → MavPosition F × MavParser F
  gps_raw id b p =
      let ((raw, was_truncated), p') = drain id (mutate id (gps_quality b) p) in
      (
        record {
          sysid = id;
          msg_id = 24;
          lat = divided (i32le b 8) (10 ^ 7);
          lon = divided (i32le b 12) (10 ^ 7);
          alt_m = divided (i32le b 16) 1000;
          relative_alt_m = none;
          heading_deg = none;
          course_deg = unless 0xffff (u16le b 26);
          sog_mps = unless 0xffff (u16le b 24);
          vertical_speed_mps = none;
          state = (vehicle id p').state;
          raw = raw;
          truncated = was_truncated;
        },
        p',
      )

  -- The message's update of the state; another message leaves it.
  unfoldable pub update_of : ℕ → Bytes → VehicleState F → VehicleState F
  update_of msg_id b s =
      if msg_id == 0
      then heartbeat b s
      else if msg_id == 1
      then sys_status b s
      else if msg_id == 30
      then attitude b s
      else if msg_id == 74
      then vfr_hud b s
      else if msg_id == 147
      then battery_status b s
      else s

  abbrev pub emit :
      MavPosition F × MavParser F → Result (MavError F) (Option (MavPosition F)) × MavParser F
  emit (position, p) = (ok (some position), p)

  unfoldable pub handle_message :
      Header → Bytes → MavParser F → Result (MavError F) (Option (MavPosition F)) × MavParser F
  handle_message h payload p =
      if h.msg_id == 33
      then emit (global_position h.sysid payload p)
      else if h.msg_id == 24
      then emit (gps_raw h.sysid payload p)
      else (ok none, mutate h.sysid (update_of h.msg_id payload) p)

  -- A frame of a message in the table: its checksum covers the bytes between the magic and itself.
  unfoldable pub checked_message :
      Header
      → Bytes
      → ℕ × ℕ
      → MavParser F
      → Result (MavError F) (Option (MavPosition F)) × MavParser F
  checked_message h frame (crc_extra, full_len) p =
      if not (crc (take (crc_start h - 1) (drop 1 frame)) crc_extra == u16le frame (crc_start h))
      then (err bad_crc, p)
      else handle_message h (zero_extend full_len (take h.len (drop h.header_len frame)))
          (carry h.sysid (take (crc_start h + 2) frame) p)

  abbrev pub by_table :
      Header
      → Bytes
      → Option (ℕ × ℕ)
      → MavParser F
      → Result (MavError F) (Option (MavPosition F)) × MavParser F
  by_table h frame none p = (ok none, carry h.sysid (take (crc_start h + 2) frame) p)
  by_table h frame (some entry) p = checked_message h frame entry p

  abbrev pub by_header :
      Bytes
      → Result (MavError F) Header
      → MavParser F
      → Result (MavError F) (Option (MavPosition F)) × MavParser F
  by_header frame (err e) p = (err e, p)
  by_header frame (ok h) p =
      if ltb (length frame) (crc_start h + 2)
      then (err truncated, p)
      else by_table h frame (crc_extra_and_len h.msg_id) p

  unfoldable pub parse_frame :
      Bytes → MavParser F → Result (MavError F) (Option (MavPosition F)) × MavParser F
  parse_frame frame p = by_header frame (read_header frame) p
