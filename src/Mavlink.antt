-- ===== src/Mavlink.antt =====
-- The MAVLink connector (rust/connectors/mavlink/src/mavlink.rs, mavlink/messages.rs): errors, the state of a
-- vehicle, and the readers of a payload. A payload is zero-extended, so every read is within it.
pub mod Messages
pub mod Parser
pub mod Report
pub mod Frames
pub mod Vehicles
pub mod Events
use Prim.Native.Nat.{bit_xor}
use ajar_connectors.Prelude.{
  ℕ, ◌+◌, ◌*◌, ◌/◌, ◌%◌, ◌^◌, Bool, Option, none, some, List, [], ◌∷◌, Text, Bytes, take, drop, leb,
  ◌==◌, if◌then◌else◌,
}
use ajar_connectors.Prelude.Int.{ℤ, signed}
use ajar_connectors.Prelude.Endian.{from_le}
use ajar_connectors.Prelude.Carry.{Carry, no_carry}
use ajar_connectors.Sdk.Event.{BuildError}

abbrev pub max_pending_frames : ℕ
max_pending_frames = 128

abbrev pub max_pending_bytes : ℕ
max_pending_bytes = 32 * 1024

pub data MavError (F : Type 0) : Type 0 where
  not_mavlink truncated bad_crc : MavError F
  build_failed : BuildError F → MavError F

pub record VehicleState (F : Type 0) : Type 0 where
  pub vehicle_type : Option Text
  pub status : Option Text
  pub armed : Option Bool
  pub mode : Option Text
  pub custom_mode : Option ℕ
  pub roll_deg : Option F
  pub pitch_deg : Option F
  pub yaw_deg : Option F
  pub airspeed_mps : Option F
  pub throttle_pct : Option ℕ
  pub climb_mps : Option F
  pub battery_voltage_v : Option F
  pub battery_current_a : Option F
  pub battery_remaining_pct : Option ℤ
  pub battery_consumed_mah : Option ℤ
  pub battery_temp_c : Option F
  pub cpu_load_pct : Option F
  pub gps_fix : Option Text
  pub gps_sats : Option ℕ
  pub gps_hdop : Option F
  pub gps_h_acc_m : Option F
  pub gps_v_acc_m : Option F
  pub gps_vel_acc_mps : Option F
  pub gps_hdg_acc_deg : Option F

abbrev pub no_state : {F : Type 0} → VehicleState F
no_state = record {
  vehicle_type = none;
  status = none;
  armed = none;
  mode = none;
  custom_mode = none;
  roll_deg = none;
  pitch_deg = none;
  yaw_deg = none;
  airspeed_mps = none;
  throttle_pct = none;
  climb_mps = none;
  battery_voltage_v = none;
  battery_current_a = none;
  battery_remaining_pct = none;
  battery_consumed_mah = none;
  battery_temp_c = none;
  cpu_load_pct = none;
  gps_fix = none;
  gps_sats = none;
  gps_hdop = none;
  gps_h_acc_m = none;
  gps_v_acc_m = none;
  gps_vel_acc_mps = none;
  gps_hdg_acc_deg = none;
}

pub record MavPosition (F : Type 0) : Type 0 where
  pub sysid : ℕ
  pub msg_id : ℕ
  pub lat : F
  pub lon : F
  pub alt_m : F
  pub relative_alt_m : Option F
  pub heading_deg : Option F
  pub course_deg : Option F
  pub sog_mps : Option F
  pub vertical_speed_mps : Option F
  pub state : VehicleState F
  pub raw : Bytes
  pub truncated : Bool

pub record Vehicle (F : Type 0) : Type 0 where
  pub state : VehicleState F
  pub carry : Carry

abbrev pub no_vehicle : {F : Type 0} → Vehicle F
no_vehicle = record { state = no_state; carry = no_carry }

-- The operations on `f64` that only this connector uses, and an `f32` from its bits.
pub record Trig (F : Type 0) : Type 0 where
  pub sqrt : F → F
  pub float_neg : F → F
  pub float_eq : F → F → Bool
  pub to_degrees : F → F
  pub rem_euclid : F → F → F
  pub of_f32 : ℕ → F

-- CRC_EXTRA and the full length of the payload.
unfoldable pub crc_extra_and_len : ℕ → Option (ℕ × ℕ)
crc_extra_and_len msg_id =
    if msg_id == 0
    then some (50, 9)
    else if msg_id == 1
    then some (124, 31)
    else if msg_id == 24
    then some (24, 52)
    else if msg_id == 30
    then some (39, 28)
    else if msg_id == 33
    then some (104, 28)
    else if msg_id == 74
    then some (20, 20)
    else if msg_id == 147
    then some (154, 36)
    else none

-- One byte of CRC-16/MCRF4XX, on eight and sixteen bits.
unfoldable pub crc_accum : ℕ → ℕ → ℕ
crc_accum crc b =
    let low = bit_xor b (crc % 256) in
    let tmp = bit_xor low (low * 16 % 256) in
    bit_xor (bit_xor (bit_xor (crc / 256) (tmp * 256 % 2 ^ 16)) (tmp * 8 % 2 ^ 16)) (tmp / 16)

unfoldable pub crc_go : ℕ → Bytes → ℕ
crc_go crc [] = crc
crc_go crc (b ∷ bs) = crc_go (crc_accum crc b) bs

unfoldable pub crc : Bytes → ℕ → ℕ
crc bytes extra = crc_accum (crc_go 0xffff bytes) extra

-- `b[off]`, for a payload that is long enough.
unfoldable pub byte_of : Bytes → ℕ → ℕ
byte_of b off = from_le (take 1 (drop off b))

unfoldable pub u16le : Bytes → ℕ → ℕ
u16le b off = from_le (take 2 (drop off b))

unfoldable pub u32le : Bytes → ℕ → ℕ
u32le b off = from_le (take 4 (drop off b))

unfoldable pub i16le : Bytes → ℕ → ℤ
i16le b off = signed 16 (u16le b off)

unfoldable pub i32le : Bytes → ℕ → ℤ
i32le b off = signed 32 (u32le b off)

-- `b[off] as i8`
unfoldable pub i8_of : Bytes → ℕ → ℤ
i8_of b off = signed 8 (byte_of b off)

module _ {F : Type 0} ⦃t : Trig F⦄ where
  unfoldable pub f32le : Bytes → ℕ → F
  f32le b off = t.of_f32 (u32le b off)
