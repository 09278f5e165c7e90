-- ===== src/Tests/Asterix.antt =====
-- Runs of the ASTERIX length engine on a block of category 48 with one record, and of the service messages.
use ajar_connectors.Prelude.{
  ◌≡◌, refl, true, false, none, some, [], ◌∷◌, Bytes, take, drop, arith, ok,
}
use ajar_connectors.Prelude.Int.{ℤ}
use ajar_connectors.Asterix.{
  fixed, explicit, bits_from, field_len, subs_len, primary_bits, any, walk_compound, walk_subs,
  block_header,
}
use ajar_connectors.Asterix.Cat034.{
  no_status, uap, decode, decode_items, decode_item, degraded, merge, status_sub, status_subs,
}
use ajar_connectors.Asterix.Wire.{be_uint}
use ajar_connectors.Prelude.Endian.{from_be}
use ajar_connectors.Asterix.Service.{
  AsterixParser, status_of, parse_service_block, find_status, set_status, service_records,
  take_report, count_report,
}
use ajar_connectors.Asterix.Status.{Merged, parse_service_block-Merged}
use ajar_connectors.Tests.Instances.{whole}
use ajar_connectors.Asterix.Records.{
  Uap, Items, present_from, cut, walk_item, walk_items, walk_record, block_records, datagram_blocks,
}
use ajar_connectors.Asterix.Tiles.{TilesRecord, walk_record_lem}
use ajar_connectors.Asterix.Loops.{Returns, block_records_lem, datagram_blocks_lem}

abbrev short_uap : Uap
short_uap = (10, fixed 2) ∷ (1001, explicit) ∷ []

-- Both items are present: two octets, and two that count themselves.
abbrev block : Bytes
block = 48 ∷ 0 ∷ 8 ∷ 192 ∷ 7 ∷ 9 ∷ 2 ∷ 5 ∷ []

abbrev items : Items
items = (10, 7 ∷ 9 ∷ []) ∷ (1001, 2 ∷ 5 ∷ []) ∷ []

walked : walk_record {F = ℤ} 48 short_uap block 3 ≡ ok (items, 8)
unfolding walk_record walk_items walk_item cut field_len bits_from present_from
walked = refl

walk_record_lem_example : TilesRecord short_uap block 3 items 8
walk_record_lem_example = walk_record_lem {F = ℤ} 48 short_uap block 3 8 items walked

block_records_lem_example : Returns (drop 3 block) (block_records {F = ℤ} 8 48 short_uap block 3)
block_records_lem_example = block_records_lem 48 short_uap block 8 3 (omega arith) (omega arith)

datagram_blocks_lem_example : Returns block (datagram_blocks {F = ℤ} 9 block)
datagram_blocks_lem_example = datagram_blocks_lem 9 block (omega arith)

-- A parser that knows a primary overload of the radar 25/10.
abbrev parser : AsterixParser ℤ
parser = record {
  source_id = [];
  hostility = none;
  sensor = none;
  cat010_type = none;
  surface_domain = none;
  cat034_type = none;
  radar_status = ((25, 10), record no_status { psr_overload = some true }) ∷ [];
  ignored_blocks = 0;
  test_targets = 0;
  north_markers = 0;
  sector_crossings = 0;
  jamming_strobes = 0;
  radar_degraded = 0;
}

-- A north marker of that radar that reports NOGO and no overload of the data processor.
abbrev marker : Bytes
marker = 34 ∷ 0 ∷ 9 ∷ 196 ∷ 25 ∷ 10 ∷ 1 ∷ 128 ∷ 128 ∷ []

marked : status_of (25, 10) (parse_service_block marker parser).1 ≡ record no_status {
  nogo = some true;
  rdp_overload = some false;
  xmt_overload = some false;
  monitoring_disconnected = some false;
  time_source_invalid = some false;
  psr_overload = some true;
}
unfolding parse_service_block service_records block_header walk_record walk_items walk_item cut
    field_len subs_len primary_bits bits_from present_from any uap take_report count_report
    find_status set_status decode decode_items decode_item degraded merge status_sub status_subs
    walk_compound walk_subs be_uint from_be
marked = refl

counted : (parse_service_block marker parser).1.radar_degraded ≡ 1
unfolding parse_service_block service_records block_header walk_record walk_items walk_item cut
    field_len subs_len primary_bits bits_from present_from any uap take_report count_report
    find_status set_status decode decode_items decode_item degraded merge status_sub status_subs
    walk_compound walk_subs be_uint from_be
counted = refl

header_read : block_header {F = ℤ} marker ≡ ok (34, 9)
unfolding block_header
header_read = refl

parse_service_block-Merged_example :
    Merged (take 9 marker) parser (parse_service_block marker parser)
parse_service_block-Merged_example = parse_service_block-Merged marker 9 parser header_read
