-- ===== src/Tests/Klv.antt =====
-- Runs of the KLV parser's definitions, and its properties at a small set.
use ajar_connectors.Prelude.{
  All, IsByte, ℕ, ◌≡◌, ◌≢◌, refl, Option, none, some, List, [], ◌∷◌, ◌++◌, Text, Bytes, arith, ok,
}
use ajar_connectors.Prelude.Int.{ℤ, pos}
use ajar_connectors.Prelude.Decimal.{decimal}
use ajar_connectors.Prelude.Endian.{from_be}
use ajar_connectors.Klv.{uas_ls_key, bcc_16, scaled_angle, ascii}
use ajar_connectors.Prelude.Scan.{trim}
use ajar_connectors.Prelude.Utf8.{from_utf8_lossy}
use ajar_connectors.Klv.Items.{UasMetadata, nothing_read, located, placed, read_item, parse_set}
use ajar_connectors.Klv.Lengths.{short, last}
use ajar_connectors.Klv.Checksum.{IsChecked, bcc_16-detects, parse_set_sound}
use ajar_connectors.Klv.Sets.{read_all, parse_set_complete}
use ajar_connectors.Klv.Layout.{AreItems, no_items, item}
use ajar_connectors.Tests.Instances.{whole}

abbrev format_micros : ℕ → Option Text
format_micros us = some (decimal us)

abbrev small_length : Bytes
small_length = 20 ∷ []

-- A sensor position of 0, 0, a tail number and the tag of the checksum.
abbrev small_items : Bytes
small_items = 13 ∷ 4 ∷ 0 ∷ 0 ∷ 0 ∷ 0 ∷ 14 ∷ 4 ∷ 0 ∷ 0 ∷ 0 ∷ 0 ∷ 4 ∷ 2 ∷ 65 ∷ 49 ∷ 1 ∷ 2 ∷ []

abbrev small_check : Bytes
small_check = 151 ∷ 177 ∷ []

abbrev items : List (ℕ × Bytes)
items =
    (13, 0 ∷ 0 ∷ 0 ∷ 0 ∷ []) ∷ (14, 0 ∷ 0 ∷ 0 ∷ 0 ∷ []) ∷ (4, 65 ∷ 49 ∷ []) ∷ (1, small_check) ∷ []

small_items-AreItems : AreItems (small_items ++ small_check) items
small_items-AreItems =
    item (0 ∷ 0 ∷ 0 ∷ 0 ∷ []) (last 13 (omega arith) (omega arith)) (short 4 (omega arith)) (
      item (0 ∷ 0 ∷ 0 ∷ 0 ∷ []) (last 14 (omega arith) (omega arith)) (short 4 (omega arith)) (
        item (65 ∷ 49 ∷ []) (last 4 (omega arith) (omega arith)) (short 2 (omega arith))
          (item small_check (last 1 (omega arith) (omega arith)) (short 2 (omega arith)) no_items)))

parse_set_complete_example :
    parse_set {F = ℤ} format_micros
      ((((uas_ls_key ++ small_length) ++ small_items) ++ small_check) ++ (7 ∷ []))
    ≡ ok (
        located
          (((uas_ls_key ++ small_length) ++ small_items) ++ small_check)
          (read_all format_micros items nothing_read))
unfolding bcc_16 from_be
parse_set_complete_example =
    parse_set_complete format_micros small_length small_items small_check (7 ∷ []) items
      (short 20 (omega arith)) small_items-AreItems refl refl

bcc_16-detects_example : bcc_16 ((1 ∷ []) ++ (2 ∷ (3 ∷ []))) ≢ bcc_16 ((1 ∷ []) ++ (4 ∷ (3 ∷ [])))
bcc_16-detects_example =
    bcc_16-detects (1 ∷ []) (3 ∷ []) 2 4 (omega arith) (omega arith) (λ e. omega arith)

abbrev small_set : Bytes
small_set = (uas_ls_key ++ small_length) ++ (small_items ++ small_check)

abbrev small_metadata : UasMetadata ℤ
small_metadata = record {
  timestamp = none;
  tail_number = some (65 ∷ 49 ∷ []);
  designation = none;
  mission_id = none;
  heading_deg = none;
  pitch_deg = none;
  roll_deg = none;
  lat = pos 0;
  lon = pos 0;
  alt_m = none;
  ls_version = none;
  raw = small_set;
}

small_set-parse_set : parse_set format_micros (small_set ++ (7 ∷ [])) ≡ ok (some small_metadata)
unfolding located placed read_all read_item scaled_angle from_be ascii trim from_utf8_lossy bcc_16
small_set-parse_set =
    parse_set_complete format_micros small_length small_items small_check (7 ∷ []) items
      (short 20 (omega arith)) small_items-AreItems refl refl

small_set-IsByte : All IsByte (small_set ++ (7 ∷ []))
small_set-IsByte = ground arith

parse_set_sound_example : IsChecked (small_set ++ (7 ∷ [])) small_set
parse_set_sound_example =
    parse_set_sound format_micros (small_set ++ (7 ∷ [])) small_metadata small_set-IsByte
      small_set-parse_set
