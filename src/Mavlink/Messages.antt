-- ===== src/Mavlink/Messages.antt =====
-- The decoders of rust/connectors/mavlink/src/mavlink/messages.rs: what a message sets in a vehicle's state.
use ajar_connectors.Prelude.{
  ℕ, ◌/◌, ◌%◌, ◌^◌, Bool, true, false, not, Option, none, some, List, [], ◌∷◌, Text, text, Bytes,
  option_map, ◌==◌, if◌then◌else◌,
}
use ajar_connectors.Prelude.Arms.{Arm, arm, match_arms}
use ajar_connectors.Prelude.Int.{ℤ, pos, negsuc}
use ajar_connectors.Prelude.Float.{Float}
use ajar_connectors.Mavlink.{VehicleState, Trig, byte_of, u16le, u32le, i16le, i32le, i8_of, f32le}

abbrev vehicle_arms : List Arm
vehicle_arms =
    arm 1 1 (text "fixed-wing")
    ∷ arm 2 3 (text "multirotor")
    ∷ arm 13 15 (text "multirotor")
    ∷ arm 4 4 (text "helicopter")
    ∷ arm 7 8 (text "airship")
    ∷ arm 10 10 (text "ground-vehicle")
    ∷ arm 11 11 (text "surface-vessel")
    ∷ arm 12 12 (text "submarine")
    ∷ arm 19 23 (text "vtol")
    ∷ []

unfoldable pub vehicle_type_of : ℕ → Option Text
unfolding match_arms
vehicle_type_of = match_arms vehicle_arms

abbrev state_arms : List Arm
state_arms =
    arm 0 0 (text "uninitialised")
    ∷ arm 1 1 (text "booting")
    ∷ arm 2 2 (text "calibrating")
    ∷ arm 3 3 (text "standby")
    ∷ arm 4 4 (text "active")
    ∷ arm 5 5 (text "critical")
    ∷ arm 6 6 (text "emergency")
    ∷ arm 7 7 (text "powering-off")
    ∷ arm 8 8 (text "terminating")
    ∷ []

unfoldable pub mav_state : ℕ → Option Text
unfolding match_arms
mav_state = match_arms state_arms

abbrev fix_arms : List Arm
fix_arms =
    arm 0 0 (text "no-gps")
    ∷ arm 1 1 (text "no-fix")
    ∷ arm 2 2 (text "2d")
    ∷ arm 3 3 (text "3d")
    ∷ arm 4 4 (text "dgps")
    ∷ arm 5 5 (text "rtk-float")
    ∷ arm 6 6 (text "rtk-fixed")
    ∷ arm 7 7 (text "static")
    ∷ arm 8 8 (text "ppp")
    ∷ []

unfoldable pub gps_fix_of : ℕ → Option Text
unfolding match_arms
gps_fix_of = match_arms fix_arms

-- Bit `i` of a byte.
abbrev flag : ℕ → ℕ → Bool
flag i b = b / 2 ^ i % 2 == 1

-- The most specific of the mode flags.
unfoldable pub base_flag_mode : ℕ → Option Text
base_flag_mode m =
    if flag 2 m
    then some (text "auto")
    else if flag 3 m
    then some (text "guided")
    else if flag 4 m
    then some (text "stabilize")
    else if flag 6 m
    then some (text "manual")
    else none

unfoldable pub heartbeat : {F : Type 0} → Bytes → VehicleState F → VehicleState F
heartbeat p s =
    let base_mode = byte_of p 6 in
    record s {
      vehicle_type = vehicle_type_of (byte_of p 4);
      status = mav_state (byte_of p 7);
      armed = some (flag 7 base_mode);
      mode = base_flag_mode base_mode;
      custom_mode = if flag 0 base_mode then some (u32le p 0) else none;
    }

abbrev is_minus_one : ℤ → Bool
is_minus_one (pos n) = false
is_minus_one (negsuc n) = n == 0

-- `if test { field = Some(value) }`
abbrev set_if : {A : Type 0} → Bool → A → Option A → Option A
set_if true v old = some v
set_if false v old = old

-- A word that is known: not zero and not all ones.
abbrev extension : Bytes → ℕ → Option ℕ
extension p off =
    let v = u32le p off in if v == 0 then none else if v == 0xffffffff then none else some v

module _ {F : Type 0} ⦃f : Float F⦄ where
  abbrev pub divided : ℤ → ℕ → F
  divided n d = f.float_div (f.of_int n) (f.of_int (pos d))

  unfoldable pub sys_status : Bytes → VehicleState F → VehicleState F
  sys_status p s =
      let load = u16le p 12 in
      let voltage_mv = u16le p 14 in
      let current_ca = i16le p 16 in
      let remaining = i8_of p 30 in
      record s {
        cpu_load_pct = set_if (not (load == 0xffff)) (divided (pos load) 10) s.cpu_load_pct;
        battery_voltage_v =
            set_if (not (voltage_mv == 0xffff)) (divided (pos voltage_mv) 1000) s.battery_voltage_v;
        battery_current_a =
            set_if (not (is_minus_one current_ca)) (divided current_ca 100) s.battery_current_a;
        battery_remaining_pct =
            set_if (not (is_minus_one remaining)) remaining s.battery_remaining_pct;
      }

  unfoldable pub battery_status : Bytes → VehicleState F → VehicleState F
  battery_status p s =
      let consumed_mah = i32le p 0 in
      let cell0_mv = u16le p 10 in
      let current_ca = i16le p 30 in
      let remaining = i8_of p 35 in
      record s {
        battery_consumed_mah =
            set_if (not (is_minus_one consumed_mah)) consumed_mah s.battery_consumed_mah;
        battery_temp_c =
            set_if (not (u16le p 8 == 0x7fff)) (divided (i16le p 8) 100) s.battery_temp_c;
        battery_voltage_v =
            set_if (not (cell0_mv == 0xffff)) (divided (pos cell0_mv) 1000) s.battery_voltage_v;
        battery_current_a =
            set_if (not (is_minus_one current_ca)) (divided current_ca 100) s.battery_current_a;
        battery_remaining_pct =
            set_if (not (is_minus_one remaining)) remaining s.battery_remaining_pct;
      }

  abbrev accuracy : ℕ → Option ℕ → Option F
  accuracy d v = option_map (λ n. divided (pos n) d) v

  abbrev up_to : F → Option F → Option F
  up_to limit none = none
  up_to limit (some v) = if f.float_leb v limit then some v else none

  abbrev known : ℕ → ℕ → F → Option F
  known sentinel v value = if v == sentinel then none else some value

  -- The fix quality that `gps_raw` caches.
  unfoldable pub gps_quality : Bytes → VehicleState F → VehicleState F
  gps_quality p s =
      let eph = u16le p 20 in
      let sats = byte_of p 29 in
      record s {
        gps_fix = gps_fix_of (byte_of p 28);
        gps_sats = if sats == 255 then none else some sats;
        gps_hdop = known 0xffff eph (divided (pos eph) 100);
        gps_h_acc_m = accuracy 1000 (extension p 34);
        gps_v_acc_m = accuracy 1000 (extension p 38);
        gps_vel_acc_mps = accuracy 1000 (extension p 42);
        gps_hdg_acc_deg = up_to (f.of_int (pos 360)) (accuracy 100000 (extension p 46));
      }

module _ {F : Type 0} ⦃f : Float F⦄ ⦃t : Trig F⦄ where
  unfoldable pub attitude : Bytes → VehicleState F → VehicleState F
  attitude p s = record s {
    roll_deg = some (t.to_degrees (f32le p 4));
    pitch_deg = some (t.to_degrees (f32le p 8));
    yaw_deg = some (t.rem_euclid (t.to_degrees (f32le p 12)) (f.of_int (pos 360)));
  }

  unfoldable pub vfr_hud : Bytes → VehicleState F → VehicleState F
  vfr_hud p s = record s {
    airspeed_mps = some (f32le p 0);
    climb_mps = some (f32le p 12);
    throttle_pct = some (u16le p 18);
  }
