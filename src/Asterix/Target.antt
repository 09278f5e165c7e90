-- ===== src/Asterix/Target.antt =====
-- A decoded track report of rust/connectors/asterix/src/asterix.rs, and its geolocation from a sensor.
use ajar_connectors.Prelude.{ℕ, Bool, false, Option, none, some, [], Text, Bytes}
use ajar_connectors.Prelude.Int.{pos}
use ajar_connectors.Prelude.Float.{Float}

-- The operations on `f64` that only the geolocation uses; `float_ltb` is false on a NaN.
pub record Geodesy (F : Type 0) : Type 0 where
  pub float_sub : F → F → F
  pub float_ltb : F → F → Bool
  pub abs : F → F
  pub sqrt : F → F
  pub sin : F → F
  pub cos : F → F
  pub asin : F → F
  pub atan2 : F → F → F
  pub to_radians : F → F
  pub to_degrees : F → F
  pub rem_euclid : F → F → F

pub record AsterixTarget (F : Type 0) : Type 0 where
  pub category : ℕ
  pub sac : ℕ
  pub sic : ℕ
  pub track : Option ℕ
  pub icao : Option ℕ
  pub lat : Option F
  pub lon : Option F
  pub polar : Option (F × F)
  pub cartesian_m : Option (F × F)
  pub message_type : Option ℕ
  pub report_type : Option Text
  pub vehicle_fleet : Option Text
  pub size : Option (F × Option F × Option F)
  pub position_sd_m : Option (F × F)
  pub accuracy_v_m : Option F
  pub velocity_sd_mps : Option (F × F)
  pub alt_ft : Option F
  pub ground_speed_kn : Option F
  pub track_angle_deg : Option F
  pub vertical_rate_ftmin : Option F
  pub squawk : Option Text
  pub callsign : Option Text
  pub emitter : Option Text
  pub time_of_day : Option F
  pub simulated : Bool
  pub test_target : Bool
  pub field_monitor : Bool
  pub raw : Bytes

-- A report of this category, with nothing read.
abbrev pub no_target : {F : Type 0} → ℕ → AsterixTarget F
no_target category = record {
  category = category;
  sac = 0;
  sic = 0;
  track = none;
  icao = none;
  lat = none;
  lon = none;
  polar = none;
  cartesian_m = none;
  message_type = none;
  report_type = none;
  vehicle_fleet = none;
  size = none;
  position_sd_m = none;
  accuracy_v_m = none;
  velocity_sd_mps = none;
  alt_ft = none;
  ground_speed_kn = none;
  track_angle_deg = none;
  vertical_rate_ftmin = none;
  squawk = none;
  callsign = none;
  emitter = none;
  time_of_day = none;
  simulated = false;
  test_target = false;
  field_monitor = false;
  raw = [];
}

module _ {F : Type 0} where
  unfoldable pub set_pos : F × F → AsterixTarget F → AsterixTarget F
  set_pos (lat, lon) t = record t { lat = some lat; lon = some lon }

module _ {F : Type 0} ⦃f : Float F⦄ ⦃g : Geodesy F⦄ where
  -- The point so far from `(lat, lon)` along a true bearing.
  unfoldable pub forward_geodetic : F → F → F → F → F × F
  forward_geodetic lat lon bearing_deg dist_m =
      let d = f.float_div dist_m (f.of_int (pos 6371000)) in
      let br = g.to_radians bearing_deg in
      let lat1 = g.to_radians lat in
      let lon1 = g.to_radians lon in
      let lat2 = g.asin (
        f.float_add (f.float_mul (g.sin lat1) (g.cos d))
          (f.float_mul (f.float_mul (g.cos lat1) (g.sin d)) (g.cos br))) in
      let lon2 = f.float_add lon1 (
        g.atan2 (f.float_mul (f.float_mul (g.sin br) (g.sin d)) (g.cos lat1))
          (g.float_sub (g.cos d) (f.float_mul (g.sin lat1) (g.sin lat2)))) in
      (g.to_degrees lat2, g.to_degrees lon2)
