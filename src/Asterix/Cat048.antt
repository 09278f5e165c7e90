-- ===== src/Asterix/Cat048.antt =====
-- Category 048 of rust/connectors/asterix/src/asterix/cat048.rs, the target reports of a radar, geolocated
-- against the site of the sensor.
use ajar_connectors.Prelude.{
  ℕ, ◌/◌, ◌%◌, Bool, Option, none, some, unwrap_or, option_map, [], ◌∷◌, Bytes, get_elem?, ltb,
  ◌==◌, if◌then◌else◌,
}
use ajar_connectors.Prelude.Int.{pos}
use ajar_connectors.Prelude.Float.{Float}
use ajar_connectors.Asterix.{
  Item, sp, re, fixed, extended, repetitive, explicit, compound, Fields, no_fields, field_then,
}
use ajar_connectors.Asterix.Records.{Uap, Items}
use ajar_connectors.Asterix.Wire.{
  be_uint, sign_extend, time_of_day_s, mode_3a, aircraft_id, quotient, azimuth,
}
use ajar_connectors.Asterix.Service.{Sensor}
use ajar_connectors.Asterix.Target.{Geodesy, AsterixTarget, no_target, set_pos, forward_geodetic}

abbrev pub sub_130 : Fields
sub_130 = field_then (fixed 1) (
    field_then (fixed 1) (
      field_then (fixed 1) (
        field_then (fixed 1)
          (field_then (fixed 1) (field_then (fixed 1) (field_then (fixed 1) no_fields))))))

abbrev pub sub_120 : Fields
sub_120 = field_then (fixed 2) (field_then (repetitive 6) no_fields)

unfoldable pub uap : Uap
uap =
    (10, fixed 2)
    ∷ (140, fixed 3)
    ∷ (20, extended 1)
    ∷ (40, fixed 4)
    ∷ (70, fixed 2)
    ∷ (90, fixed 2)
    ∷ (130, compound sub_130)
    ∷ (220, fixed 3)
    ∷ (240, fixed 6)
    ∷ (250, repetitive 8)
    ∷ (161, fixed 2)
    ∷ (42, fixed 4)
    ∷ (200, fixed 4)
    ∷ (170, extended 1)
    ∷ (210, fixed 4)
    ∷ (30, extended 1)
    ∷ (80, fixed 2)
    ∷ (100, fixed 4)
    ∷ (110, fixed 2)
    ∷ (120, compound sub_120)
    ∷ (230, fixed 2)
    ∷ (260, fixed 7)
    ∷ (55, fixed 1)
    ∷ (50, fixed 2)
    ∷ (65, fixed 1)
    ∷ (60, fixed 2)
    ∷ (sp, explicit)
    ∷ (re, explicit)
    ∷ []

-- The first extension of the descriptor, if the first octet says that one follows.
abbrev test_bit : ℕ → Option ℕ → Bool → Bool
test_bit o1 none before = before
test_bit o1 (some ext) before = if o1 % 2 == 1 then ext / 128 % 2 == 1 else before

module _ {F : Type 0} ⦃f : Float F⦄ where
  -- The target report descriptor.
  unfoldable pub descriptor : Bytes → AsterixTarget F → AsterixTarget F
  descriptor item t =
      let o1 = be_uint item 0 1 in
      record t {
        simulated = o1 / 16 % 2 == 1;
        field_monitor = o1 / 2 % 2 == 1;
        test_target = test_bit o1 (get_elem? item 1) t.test_target;
      }

  abbrev squawk_of : Bytes → AsterixTarget F → AsterixTarget F
  squawk_of item t =
      let w = be_uint item 0 2 in if ltb w 16384 then record t { squawk = some (mode_3a w) } else t

  abbrev flight_level : Bytes → AsterixTarget F → AsterixTarget F
  flight_level item t =
      if ltb (be_uint item 0 1) 64
      then record t {
        alt_ft = some (
            f.float_mul (f.of_int (sign_extend (be_uint item 0 2 % 16384) 14)) (f.of_int (pos 25)));
      }
      else t

  unfoldable pub decode_item : Item → Bytes → AsterixTarget F → AsterixTarget F
  decode_item id item t =
      if id == 10
      then record t { sac = be_uint item 0 1; sic = be_uint item 1 1 }
      else if id == 140
      then record t { time_of_day = some (time_of_day_s item) }
      else if id == 20
      then descriptor item t
      else if id == 40
      then record t { polar = some (quotient (be_uint item 0 2) 256, azimuth item 2) }
      else if id == 70
      then squawk_of item t
      else if id == 90
      then flight_level item t
      else if id == 220
      then record t { icao = some (be_uint item 0 3) }
      else if id == 240
      then record t { callsign = aircraft_id item }
      else if id == 161
      then record t { track = some (be_uint item 0 2 % 4096) }
      else if id == 200
      then record t {
        ground_speed_kn =
            some (f.float_mul (f.of_int (pos (be_uint item 0 2))) (quotient 3600 16384));
        track_angle_deg = some (azimuth item 2);
      }
      else t

  unfoldable pub decode_items : Items → AsterixTarget F → AsterixTarget F
  decode_items [] t = t
  decode_items ((id, item) ∷ items) t = decode_items items (decode_item id item t)

module _ {F : Type 0} ⦃f : Float F⦄ ⦃g : Geodesy F⦄ where
  -- The slant range on the ground: the flight level stands in for the height.
  unfoldable pub ground_range : F → Option F → Sensor F → F
  ground_range rho_nm alt_ft s =
      let slant_m = f.float_mul rho_nm (f.of_int (pos 1852)) in
      let height_m =
        unwrap_or
          (option_map (λ (ft : F). g.float_sub (f.float_mul ft (quotient 3048 10000)) s.alt_m)
            alt_ft)
          (f.of_int (pos 0)) in
      if g.float_ltb (g.abs height_m) slant_m
      then g.sqrt (g.float_sub (f.float_mul slant_m slant_m) (f.float_mul height_m height_m))
      else f.of_int (pos 0)

  unfoldable pub geolocate : Option (F × F) → Option (Sensor F) → AsterixTarget F → AsterixTarget F
  geolocate none sensor t = t
  geolocate (some polar) none t = t
  geolocate (some (rho_nm, theta)) (some s) t =
      set_pos (forward_geodetic s.lat s.lon theta (ground_range rho_nm t.alt_ft s)) t

  unfoldable pub decode : Items → Option (Sensor F) → AsterixTarget F
  decode items sensor = let t = decode_items items (no_target 48) in geolocate t.polar sensor t
