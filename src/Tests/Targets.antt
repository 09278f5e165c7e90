-- ===== src/Tests/Targets.antt =====
-- Runs of the ASTERIX decoders of target reports.
use ajar_connectors.Prelude.{◌≡◌, refl, true, some, [], ◌∷◌, text}
use ajar_connectors.Prelude.Int.{ℤ, pos}
use ajar_connectors.Prelude.Arms.{match_arms}
use ajar_connectors.Prelude.Endian.{from_be}
use ajar_connectors.Asterix.Records.{Items}
use ajar_connectors.Asterix.Wire.{be_uint, mode_3a, signed_at, sign_extend}
use ajar_connectors.Asterix.Target.{no_target}
use ajar_connectors.Asterix.Cat021.{emitter_category}
use ajar_connectors.Asterix.Cat021
use ajar_connectors.Asterix.Cat048
use ajar_connectors.Tests.Instances.{whole}

-- A simulated target that is a test target too, and its squawk.
abbrev radar_items : Items
radar_items = (20, 17 ∷ 128 ∷ []) ∷ (70, 2 ∷ 156 ∷ []) ∷ []

radar_read :
    Cat048.decode_items {F = ℤ} radar_items (no_target 48)
    ≡ record (no_target 48) { simulated = true; test_target = true; squawk = some (text "1234") }
unfolding Cat048.decode_items Cat048.decode_item Cat048.descriptor be_uint from_be mode_3a
radar_read = refl

-- A height of 8 units stays when a flight level follows.
abbrev adsb_items : Items
adsb_items = (140, 0 ∷ 8 ∷ []) ∷ (145, 0 ∷ 9 ∷ []) ∷ (20, 5 ∷ []) ∷ []

adsb_read :
    Cat021.decode {F = ℤ} adsb_items
    ≡ record (no_target 21) { alt_ft = some (pos 48); emitter = some (text "heavy") }
unfolding Cat021.decode Cat021.decode_items Cat021.decode_item be_uint from_be signed_at sign_extend
    emitter_category match_arms
adsb_read = refl
