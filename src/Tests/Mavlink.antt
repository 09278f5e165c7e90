-- ===== src/Tests/Mavlink.antt =====
-- Runs of the MAVLink connector on a GLOBAL_POSITION_INT of system 1.
use ajar_connectors.Prelude.{
  ◌≡◌, ◌⊎◌, refl, true, some, [], ◌∷◌, Bytes, take, drop, arith, ok, err, is_ok,
}
use ajar_connectors.Prelude.Int.{ℤ, pos}
use ajar_connectors.Prelude.Endian.{from_le}
use ajar_connectors.Prelude.Carry.{no_carry}
use ajar_connectors.Prelude.Carry.Bounds.{bytes_of}
use ajar_connectors.Mavlink.{
  MavError, MavPosition, Trig, crc_extra_and_len, crc, crc_go, crc_accum, byte_of, u16le,
}
use ajar_connectors.Mavlink.Parser.{
  Header, MavParser, read_header, find_vehicle, vehicle, carry, zero_extend, global_position,
  handle_message, checked_message, parse_frame,
}
use ajar_connectors.Mavlink.Frames.{WellFramed, parse_frame-Judged}
use ajar_connectors.Mavlink.Vehicles.{WithinCaps, parse_frame-WithinCaps}
use ajar_connectors.Mavlink.Events.{Carried, parse_frame-Carried}
use ajar_connectors.Tests.Instances.{whole}

-- Degrees for radians and no fractions: enough for runs.
instance abbrev plain : Trig ℤ
plain = record {
  sqrt = λ x. x;
  float_neg = λ x. x;
  float_eq = λ x y. true;
  to_degrees = λ x. x;
  rem_euclid = λ x y. x;
  of_f32 = λ n. pos n;
}

abbrev frame : Bytes
frame =
    254 ∷ 28 ∷ 0 ∷ 1 ∷ 1 ∷ 33 ∷ 232 ∷ 3 ∷ 0 ∷ 0 ∷ 76 ∷ 82 ∷ 64 ∷ 28 ∷ 68 ∷ 244 ∷ 23 ∷ 5 ∷ 32 ∷ 161
    ∷ 7 ∷ 0 ∷ 0 ∷ 0 ∷ 0 ∷ 0 ∷ 232 ∷ 3 ∷ 0 ∷ 0 ∷ 0 ∷ 0 ∷ 40 ∷ 35 ∷ 44 ∷ 119 ∷ []

abbrev no_vehicles : MavParser ℤ
no_vehicles = record { vehicles = []; dropped = 0 }

abbrev header : Header
header = record { len = 28; header_len = 6; sysid = 1; msg_id = 33 }

header_lem : read_header {F = ℤ} frame ≡ ok header
unfolding read_header byte_of from_le
header_lem = refl

parse_frame-Judged_example :
    (WellFramed ℤ frame × (is_ok (parse_frame frame no_vehicles).0 ≡ true))
    ⊎ ((WellFramed ℤ frame → ⊥)
        × ((e : MavError ℤ) × (parse_frame frame no_vehicles ≡ (err e, no_vehicles))))
parse_frame-Judged_example = parse_frame-Judged frame no_vehicles

no_vehicles-WithinCaps : WithinCaps no_vehicles
unfolding find_vehicle bytes_of
no_vehicles-WithinCaps id = (refl, (omega arith, omega arith))

parse_frame-WithinCaps_example :
    WithinCaps (parse_frame frame no_vehicles).1
    × (find_vehicle 2 (parse_frame frame no_vehicles).1.vehicles
        ≡ find_vehicle 2 no_vehicles.vehicles)
parse_frame-WithinCaps_example =
    parse_frame-WithinCaps frame no_vehicles header 2 header_lem (λ e. omega (arith, e))
      no_vehicles-WithinCaps

abbrev position : MavPosition ℤ
position =
    (global_position 1 (zero_extend 28 (take 28 (drop 6 frame))) (carry 1 frame no_vehicles)).0

position_lem : (parse_frame frame no_vehicles).0 ≡ ok (some position)
unfolding parse_frame read_header checked_message handle_message crc_extra_and_len crc crc_go
    crc_accum byte_of u16le from_le carry
position_lem = refl

parse_frame-Carried_example :
    Carried frame no_carry (vehicle 1 (parse_frame frame no_vehicles).1).carry position
unfolding find_vehicle
parse_frame-Carried_example =
    parse_frame-Carried frame no_vehicles header position header_lem (no_vehicles-WithinCaps 1)
      position_lem
