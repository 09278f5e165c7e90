-- ===== src/Asterix/Cat021.antt =====
-- Category 021 of rust/connectors/asterix/src/asterix/cat021.rs, the ADS-B target reports.
use ajar_connectors.Prelude.{ℕ, Option, none, some, [], ◌∷◌, Text, text, Bytes, ◌==◌, if◌then◌else◌}
use ajar_connectors.Prelude.Int.{pos}
use ajar_connectors.Prelude.Float.{Float}
use ajar_connectors.Prelude.Arms.{arm, match_arms}
use ajar_connectors.Asterix.{Item, sp, re, fixed, extended, repetitive, explicit, opaque}
use ajar_connectors.Asterix.Records.{Uap, Items}
use ajar_connectors.Asterix.Wire.{be_uint, signed_at, mode_3a, aircraft_id, quotient, azimuth}
use ajar_connectors.Asterix.Target.{AsterixTarget, no_target, set_pos}

unfoldable pub uap : Uap
uap =
    (10, fixed 2)
    ∷ (40, extended 1)
    ∷ (161, fixed 2)
    ∷ (15, fixed 1)
    ∷ (71, fixed 3)
    ∷ (130, fixed 6)
    ∷ (131, fixed 8)
    ∷ (72, fixed 3)
    ∷ (150, fixed 2)
    ∷ (151, fixed 2)
    ∷ (80, fixed 3)
    ∷ (73, fixed 3)
    ∷ (74, fixed 4)
    ∷ (75, fixed 3)
    ∷ (76, fixed 4)
    ∷ (140, fixed 2)
    ∷ (90, extended 1)
    ∷ (210, fixed 1)
    ∷ (70, fixed 2)
    ∷ (230, fixed 2)
    ∷ (145, fixed 2)
    ∷ (152, fixed 2)
    ∷ (200, fixed 1)
    ∷ (155, fixed 2)
    ∷ (157, fixed 2)
    ∷ (160, fixed 4)
    ∷ (165, fixed 2)
    ∷ (77, fixed 3)
    ∷ (170, fixed 6)
    ∷ (20, fixed 1)
    ∷ (220, opaque)
    ∷ (146, fixed 2)
    ∷ (148, fixed 2)
    ∷ (110, opaque)
    ∷ (16, fixed 1)
    ∷ (8, fixed 1)
    ∷ (271, extended 1)
    ∷ (132, fixed 1)
    ∷ (250, repetitive 8)
    ∷ (260, fixed 7)
    ∷ (400, fixed 1)
    ∷ (295, opaque)
    ∷ (re, explicit)
    ∷ (sp, explicit)
    ∷ []

unfoldable pub emitter_category : ℕ → Option Text
emitter_category code =
    match_arms
      (arm 1 1 (text "light")
        ∷ arm 2 2 (text "small")
        ∷ arm 3 3 (text "medium")
        ∷ arm 4 4 (text "high-vortex")
        ∷ arm 5 5 (text "heavy")
        ∷ arm 6 6 (text "high-performance")
        ∷ arm 7 7 (text "rotorcraft")
        ∷ arm 10 10 (text "glider")
        ∷ arm 11 11 (text "lighter-than-air")
        ∷ arm 12 12 (text "uav")
        ∷ arm 13 13 (text "space")
        ∷ arm 20 20 (text "emergency-vehicle")
        ∷ arm 21 21 (text "service-vehicle")
        ∷ [])
      code

-- `get_or_insert`: a value that is there stays.
abbrev get_or_insert : {F : Type 0} → Option F → F → Option F
get_or_insert none x = some x
get_or_insert (some y) x = some y

module _ {F : Type 0} ⦃f : Float F⦄ where
  -- A position of two numbers of `n` octets, in units of 180 degrees over `parts`.
  abbrev position : Bytes → ℕ → ℕ → F × F
  position item n parts = (
    f.float_mul (signed_at item 0 n) (quotient 180 parts),
    f.float_mul (signed_at item n n) (quotient 180 parts),
  )

  unfoldable pub decode_item : Item → Bytes → AsterixTarget F → AsterixTarget F
  decode_item id item t =
      if id == 10
      then record t { sac = be_uint item 0 1; sic = be_uint item 1 1 }
      else if id == 161
      then record t { track = some (be_uint item 0 2) }
      else if id == 130
      then set_pos (position item 3 8388608) t
      else if id == 131
      then set_pos (position item 4 1073741824) t
      else if id == 80
      then record t { icao = some (be_uint item 0 3) }
      else if id == 140
      then record t { alt_ft = some (f.float_mul (signed_at item 0 2) (quotient 625 100)) }
      else if id == 70
      then record t { squawk = some (mode_3a (be_uint item 0 2)) }
      else if id == 145
      then record t {
        alt_ft = get_or_insert t.alt_ft (f.float_mul (signed_at item 0 2) (f.of_int (pos 25)));
      }
      else if id == 160
      then record t {
        ground_speed_kn =
            some (f.float_mul (f.of_int (pos (be_uint item 0 2))) (quotient 3600 16384));
        track_angle_deg = some (azimuth item 2);
      }
      else if id == 170
      then record t { callsign = aircraft_id item }
      else if id == 20
      then record t { emitter = emitter_category (be_uint item 0 1) }
      else t

  unfoldable pub decode_items : Items → AsterixTarget F → AsterixTarget F
  decode_items [] t = t
  decode_items ((id, item) ∷ items) t = decode_items items (decode_item id item t)

  unfoldable pub decode : Items → AsterixTarget F
  decode items = decode_items items (no_target 21)
