-- ===== src/Asterix/Cat010.antt =====
-- Category 010 of rust/connectors/asterix/src/asterix/cat010.rs, the surface movement reports of one sensor,
-- geolocated against its site.
use ajar_connectors.Prelude.{
  ℕ, ◌/◌, ◌%◌, Option, none, some, unwrap_or, option_map, [], ◌∷◌, Text, text, Bytes, take, drop,
  get_elem?, ltb, ◌==◌, if◌then◌else◌,
}
use ajar_connectors.Prelude.Int.{pos}
use ajar_connectors.Prelude.Float.{Float}
use ajar_connectors.Prelude.Arms.{arm, match_arms}
use ajar_connectors.Asterix.{Item, sp, re, spare_item, fixed, extended, repetitive, explicit, spare}
use ajar_connectors.Asterix.Records.{Uap, Items}
use ajar_connectors.Asterix.Wire.{
  be_uint, sign_extend, signed_at, time_of_day_s, mode_3a, aircraft_id, quotient, azimuth,
}
use ajar_connectors.Asterix.Service.{Sensor}
use ajar_connectors.Asterix.Target.{Geodesy, AsterixTarget, no_target, set_pos, forward_geodetic}

unfoldable pub uap : Uap
uap =
    (10, fixed 2)
    ∷ (0, fixed 1)
    ∷ (20, extended 1)
    ∷ (140, fixed 3)
    ∷ (41, fixed 8)
    ∷ (40, fixed 4)
    ∷ (42, fixed 4)
    ∷ (200, fixed 4)
    ∷ (202, fixed 4)
    ∷ (161, fixed 2)
    ∷ (170, extended 1)
    ∷ (60, fixed 2)
    ∷ (220, fixed 3)
    ∷ (245, fixed 7)
    ∷ (250, repetitive 8)
    ∷ (300, fixed 1)
    ∷ (90, fixed 2)
    ∷ (91, fixed 2)
    ∷ (270, extended 1)
    ∷ (550, fixed 1)
    ∷ (310, fixed 1)
    ∷ (500, fixed 4)
    ∷ (280, repetitive 2)
    ∷ (131, fixed 1)
    ∷ (210, fixed 2)
    ∷ (spare_item, spare)
    ∷ (sp, explicit)
    ∷ (re, explicit)
    ∷ []

abbrev report_type_of : ℕ → Text
report_type_of typ =
    unwrap_or
      (match_arms
        (arm 0 0 (text "ssr-multilateration")
          ∷ arm 1 1 (text "mode-s-multilateration")
          ∷ arm 2 2 (text "ads-b")
          ∷ arm 3 3 (text "psr")
          ∷ arm 4 4 (text "magnetic-loop")
          ∷ arm 5 5 (text "hf-multilateration")
          ∷ [])
        typ)
      (text "other")

unfoldable pub vehicle_fleet_of : ℕ → Option Text
vehicle_fleet_of code =
    match_arms
      (arm 1 1 (text "atc-equipment-maintenance")
        ∷ arm 2 2 (text "airport-maintenance")
        ∷ arm 3 3 (text "fire")
        ∷ arm 4 4 (text "bird-scarer")
        ∷ arm 5 5 (text "snow-plough")
        ∷ arm 6 6 (text "runway-sweeper")
        ∷ arm 7 7 (text "emergency")
        ∷ arm 8 8 (text "police")
        ∷ arm 9 9 (text "bus")
        ∷ arm 10 10 (text "tug")
        ∷ arm 11 11 (text "grass-cutter")
        ∷ arm 12 12 (text "fuel")
        ∷ arm 13 13 (text "baggage")
        ∷ arm 14 14 (text "catering")
        ∷ arm 15 15 (text "aircraft-maintenance")
        ∷ arm 16 16 (text "flyco")
        ∷ [])
      code

module _ {F : Type 0} ⦃f : Float F⦄ where
  abbrev whole : ℕ → F
  whole n = f.of_int (pos n)

  abbrev test_bits : Option ℕ → AsterixTarget F → AsterixTarget F
  test_bits none t = t
  test_bits (some ext) t = record t {
    simulated = ext / 128 % 2 == 1;
    test_target = ext / 64 % 2 == 1;
    field_monitor = ext / 32 % 2 == 1;
  }

  -- The target report descriptor; the bits are in its first extension.
  unfoldable pub descriptor : Bytes → AsterixTarget F → AsterixTarget F
  descriptor item t =
      let o1 = be_uint item 0 1 in
      let typed = record t { report_type = some (report_type_of (o1 / 32)) } in
      if o1 % 2 == 1 then test_bits (get_elem? item 1) typed else typed

  -- The length, and the width and the orientation where the extensions hold them.
  unfoldable pub target_size : Bytes → F × Option F × Option F
  target_size item = (
    whole (be_uint item 0 1 / 2),
    option_map (λ (o : ℕ). whole (o / 2)) (get_elem? item 2),
    option_map (λ (o : ℕ). f.float_div (f.float_mul (whole (o / 2)) (whole 360)) (whole 128))
        (get_elem? item 1),
  )

  abbrev quarters : F → F
  quarters x = f.float_mul x (quotient 25 100)

module _ {F : Type 0} ⦃f : Float F⦄ ⦃g : Geodesy F⦄ where
  -- `sqrt(x * x + y * y)`, and the bearing of a step east and north.
  abbrev length_of : F → F → F
  length_of x y = g.sqrt (f.float_add (f.float_mul x x) (f.float_mul y y))

  abbrev bearing_of : F → F → F
  bearing_of x y = g.rem_euclid (g.to_degrees (g.atan2 x y)) (whole 360)

  -- A velocity east and north; one of zero has no course.
  unfoldable pub velocity : F → F → AsterixTarget F → AsterixTarget F
  velocity vx vy t =
      let speed_mps = length_of vx vy in
      let moving = record t {
        ground_speed_kn = some (f.float_div speed_mps (quotient 514444 1000000));
      } in
      if g.float_ltb (whole 0) speed_mps
      then record moving { track_angle_deg = some (bearing_of vx vy) }
      else moving

  unfoldable pub decode_item : Item → Bytes → AsterixTarget F → AsterixTarget F
  decode_item id item t =
      if id == 10
      then record t { sac = be_uint item 0 1; sic = be_uint item 1 1 }
      else if id == 0
      then record t { message_type = some (be_uint item 0 1) }
      else if id == 20
      then descriptor item t
      else if id == 140
      then record t { time_of_day = some (time_of_day_s item) }
      else if id == 41
      then set_pos
          (
            f.float_mul (signed_at item 0 4) (quotient 180 2147483648),
            f.float_mul (signed_at item 4 4) (quotient 180 2147483648),
          )
          t
      else if id == 40
      then record t {
        polar = some (f.float_div (whole (be_uint item 0 2)) (whole 1852), azimuth item 2);
      }
      else if id == 42
      then record t { cartesian_m = some (signed_at item 0 2, signed_at item 2 2) }
      else if id == 200
      then record t {
        ground_speed_kn = some (f.float_mul (whole (be_uint item 0 2)) (quotient 3600 16384));
        track_angle_deg = some (azimuth item 2);
      }
      else if id == 202
      then velocity (quarters (signed_at item 0 2)) (quarters (signed_at item 2 2)) t
      else if id == 161
      then record t { track = some (be_uint item 0 2 % 4096) }
      else if id == 60
      then (if ltb (be_uint item 0 2) 16384
          then record t { squawk = some (mode_3a (be_uint item 0 2)) }
          else t)
      else if id == 220
      then record t { icao = some (be_uint item 0 3) }
      else if id == 245
      then record t { callsign = aircraft_id (take 6 (drop 1 item)) }
      else if id == 300
      then record t { vehicle_fleet = vehicle_fleet_of (be_uint item 0 1) }
      else if id == 90
      then (if ltb (be_uint item 0 1) 64
          then record t {
            alt_ft =
                some
                  (f.float_mul (f.of_int (sign_extend (be_uint item 0 2 % 16384) 14)) (whole 25));
          }
          else t)
      else if id == 91
      then record t { alt_ft = some (f.float_mul (signed_at item 0 2) (quotient 625 100)) }
      else if id == 270
      then record t { size = some (target_size item) }
      else if id == 500
      then record t {
        position_sd_m =
            some (quarters (whole (be_uint item 0 1)), quarters (whole (be_uint item 1 1)));
      }
      else t

  unfoldable pub decode_items : Items → AsterixTarget F → AsterixTarget F
  decode_items [] t = t
  decode_items ((id, item) ∷ items) t = decode_items items (decode_item id item t)

  -- What a sensor adds to a report without a position.
  unfoldable pub geolocate :
      Option F → Option (F × F) → Option (F × F) → Sensor F → AsterixTarget F → AsterixTarget F
  geolocate (some lat) polar cartesian s t = t
  geolocate none (some (rho_nm, theta)) cartesian s t =
      set_pos (forward_geodetic s.lat s.lon theta (f.float_mul rho_nm (whole 1852))) t
  geolocate none none (some (x, y)) s t =
      set_pos (forward_geodetic s.lat s.lon (bearing_of x y) (length_of x y)) t
  geolocate none none none s t = t

  abbrev with_site : Option (Sensor F) → AsterixTarget F → AsterixTarget F
  with_site none t = t
  with_site (some s) t = geolocate t.lat t.polar t.cartesian_m s t

  unfoldable pub decode : Items → Option (Sensor F) → AsterixTarget F
  decode items sensor = with_site sensor (decode_items items (no_target 10))
