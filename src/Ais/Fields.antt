-- ===== src/Ais/Fields.antt =====
-- The code tables and the layouts of rust/connectors/ais-nmea/src/ais.rs.
use ajar_connectors.Prelude.{
  ℕ, Bool, Option, none, some, List, [], ◌∷◌, Text, text, ltb, leb, ◌==◌, if◌then◌else◌,
}
use ajar_connectors.Prelude.Arms.{Arm, arm, match_arms}
use ajar_connectors.Prelude.Int.{ℤ, pos, negsuc}
use ajar_connectors.Prelude.Float.{Float}

pub data Layout : Type 0 where
  class_a : Layout
  class_b : (extended : Bool) → Layout

pub record Offsets : Type 0 where
  pub sog : ℕ
  pub lon : ℕ
  pub lat : ℕ
  pub cog : ℕ
  pub heading : ℕ

unfoldable pub offsets : Layout → Offsets
offsets class_a = record { sog = 50; lon = 61; lat = 89; cog = 116; heading = 128 }
offsets (class_b extended) = record { sog = 46; lon = 57; lat = 85; cog = 112; heading = 124 }

abbrev pub nav_arms : List Arm
nav_arms =
    arm 0 0 (text "under-way-using-engine")
    ∷ arm 1 1 (text "at-anchor")
    ∷ arm 2 2 (text "not-under-command")
    ∷ arm 3 3 (text "restricted-manoeuvrability")
    ∷ arm 4 4 (text "constrained-by-draught")
    ∷ arm 5 5 (text "moored")
    ∷ arm 6 6 (text "aground")
    ∷ arm 7 7 (text "engaged-in-fishing")
    ∷ arm 8 8 (text "under-way-sailing")
    ∷ arm 9 13 (text "reserved")
    ∷ arm 14 14 (text "ais-sart")
    ∷ []

unfoldable pub nav_status : ℕ → Option Text
unfolding match_arms
nav_status = match_arms nav_arms

abbrev pub ship_arms : List Arm
ship_arms =
    arm 20 29 (text "wing-in-ground")
    ∷ arm 30 30 (text "fishing")
    ∷ arm 31 32 (text "towing")
    ∷ arm 33 33 (text "dredging")
    ∷ arm 34 34 (text "diving-ops")
    ∷ arm 35 35 (text "military-ops")
    ∷ arm 36 36 (text "sailing")
    ∷ arm 37 37 (text "pleasure-craft")
    ∷ arm 40 49 (text "high-speed-craft")
    ∷ arm 50 50 (text "pilot-vessel")
    ∷ arm 51 51 (text "search-and-rescue")
    ∷ arm 52 52 (text "tug")
    ∷ arm 53 53 (text "port-tender")
    ∷ arm 54 54 (text "anti-pollution")
    ∷ arm 55 55 (text "law-enforcement")
    ∷ arm 58 58 (text "medical-transport")
    ∷ arm 60 69 (text "passenger")
    ∷ arm 70 79 (text "cargo")
    ∷ arm 80 89 (text "tanker")
    ∷ arm 90 99 (text "other-vessel")
    ∷ []

unfoldable pub ship_type : ℕ → Option Text
unfolding match_arms
ship_type = match_arms ship_arms

abbrev pub signum : ℤ → ℤ
signum (pos n) = pos (if n == 0 then 0 else 1)
signum (negsuc n) = negsuc 0

module _ {F : Type 0} ⦃f : Float F⦄ where
  -- `v as f64 / d`
  abbrev pub over : ℤ → ℕ → F
  over v d = f.float_div (f.of_int v) (f.of_int (pos d))

  -- 4.733 is the double next to 4733 / 1000.
  abbrev pub rot_step : ℤ → F
  rot_step raw = f.float_div (f.of_int raw) (over (pos 4733) 1000)

  unfoldable pub decode_rot : ℤ → Option F
  decode_rot (pos n) =
      let s = rot_step (pos n) in
      if ltb 127 n then none else some (f.float_mul (f.float_mul s s) (f.of_int (signum (pos n))))
  decode_rot (negsuc n) =
      let s = rot_step (negsuc n) in
      if leb 127 n
      then none
      else some (f.float_mul (f.float_mul s s) (f.of_int (signum (negsuc n))))
