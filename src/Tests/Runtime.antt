-- ===== src/Tests/Runtime.antt =====
-- Runs of the run loop, the drain and the ontology's checks.
use ajar_connectors.Prelude.{
  ℕ, ◌+◌, ◌≡◌, refl, Option, none, some, true, false, List, [], ◌∷◌, ◌++◌, All, Text, Bytes, text,
  text_eq, arith, Result, ok, err, strip_prefix, contains, text_leb, ◌↔◌, ltb, replicate,
  if◌then◌else◌,
}
use ajar_connectors.Prelude.Int.{ℤ, pos}
use ajar_connectors.Prelude.Endian.{from_le, from_be}
use ajar_connectors.Prelude.Utf8.{is_utf8}
use ajar_connectors.Sdk.Event.{Event}
use ajar_connectors.Sdk.Builder.{
  EventBuilder, canonical_attributes, check_location, build, attribute,
}
use ajar_connectors.Sdk.Rfc3339.{
  is_rfc3339, date_time_shape, date_time_ranges, zone_start, is_digit,
}
use ajar_connectors.Sdk.Namespace.{is_namespaced}
use ajar_connectors.Sdk.Keys.{sort_pairs, insert_pair, duplicate_key}
use ajar_connectors.Common.Spool.Log.{
  append, enforce_bound, write_head, drop_oldest, append_to, total_bytes, peek, peek_go, advance,
  segments_from,
}
use ajar_connectors.Sdk.Seal.{seal, verify}
use ajar_connectors.Common.Spool.{
  Record, Spool, default_max_bytes, file_of, encode, read_record_at, read_record_of, read_record,
  read_body, read_rest,
}
use ajar_connectors.Common.Spool.Codec.{Framed, encode_all}
use ajar_connectors.Common.Spool.Queue.{in_head}
use ajar_connectors.Common.Spool.Bound.{Appended, append_lem}
use ajar_connectors.Common.Spool.Numbered.{IsLog}
use ajar_connectors.Common.Ontology.{
  TypeDef, Ontology, Declared, Fault, governs, governed, operator_namespace, declares, ungoverned,
  type_of, check,
}
use ajar_connectors.Common.Ontology.Check.{Conforms, check_iff}
use ajar_connectors.Common.Ontology.Ancestors.{Reported, check-returns}
use ajar_connectors.Common.Ontology.Route.{governed_all, governed-ungoverned}
use ajar_connectors.Common.Runtime.{
  no_metrics, handle_event, publish_or_spool, after_publish, spool_or_shed, spool_append, sent,
  stalled, takes, Attempt, Input, frame, receive_error, Connector, sealed_record, run,
}
use ajar_connectors.Common.Runtime.Ledger.{Accounted, run-Accounted}
use ajar_connectors.Common.Runtime.Kept.{emitted}
use ajar_connectors.Common.Runtime.Delivery.{Delivered, run-Delivered}
use ajar_connectors.Common.Runtime.Drain.{
  acked, refused, Broker, Drain, drain_rounds, begin_round, finish_round, deliver, js_publish,
  settle, confirm_record,
}
use ajar_connectors.Common.Runtime.Together.{
  take_turns, input_with_drain, events_with_drain, event_with_drain, drain_turn, Turn, peeks,
  settles, Running, run_with_drain,
}
use ajar_connectors.Common.Runtime.Order.{Reach-Ordered}
use ajar_connectors.Common.Runtime.Interleaving.{System, spools, initial, next, Ordered}
use ajar_connectors.Common.Runtime.Progress.{Emptied, count_answers, drain_rounds-Emptied}
use ajar_connectors.Tests.Instances.{whole, toy, event_of}

abbrev vessel : TypeDef
vessel = record {
  id = text "mim:vessel";
  parent = some (text "mim:object");
  attributes =
      record {
        name = text "hostility";
        unit = none;
        values = some (text "Friend" ∷ text "Hostile" ∷ []);
      }
      ∷ [];
}

abbrev object : TypeDef
object = record {
  id = text "mim:object";
  parent = none;
  attributes = record { name = text "environment"; unit = none; values = none } ∷ [];
}

abbrev ontology : Ontology
ontology = record { version = text "1"; types = object ∷ vessel ∷ [] }

abbrev friendly : Declared
friendly = record {
  entity_type = text "mim:vessel";
  attributes = text "hostility" ∷ [];
  fixed_values = (text "hostility", text "Friend") ∷ [];
}

abbrev misplaced : Declared
misplaced = record {
  entity_type = text "mim:vessel";
  attributes = text "environment" ∷ [];
  fixed_values = [];
}

check_iff_example : (check 3 ontology friendly ≡ some []) ↔ Conforms ontology friendly
check_iff_example = check_iff 3 ontology friendly

abbrev depth : Text → ℕ
unfolding text_eq
depth id = if text_eq id (text "mim:vessel") then 2 else 1

check-returns_example :
    (fs : List Fault) × (check 3 ontology misplaced ≡ some fs) × Reported ontology misplaced fs
unfolding text_eq
check-returns_example =
    check-returns depth 3 ontology misplaced
      ((omega arith, omega arith), ((omega arith, omega arith), tt))

abbrev draft : EventBuilder ℤ
draft = record {
  source_id = text "s1";
  entity_type = text "mim:vessel";
  id = some (text "7");
  timestamp = some (text "2024-01-02T03:04:05Z");
  location = none;
  payload = [];
  policy_tags = [];
  confidence = pos 1;
  attributes = [];
  metadata = [];
  strict_entity_namespace = true;
}

abbrev drafted : Event ℤ
drafted = record (event_of (text "s1")) {
  entity_type = text "mim:vessel";
  attributes = record { key = text "hostility"; value = text "Friend" } ∷ [];
}

draft_builds :
    build (governed_all ontology ((text "hostility", text "Friend") ∷ []) draft) ≡ ok drafted
unfolding governed_all governed governs operator_namespace type_of declares attribute build
    is_rfc3339 date_time_shape date_time_ranges zone_start is_digit is_namespaced
    canonical_attributes sort_pairs insert_pair duplicate_key check_location strip_prefix contains
    text_leb text_eq
draft_builds = refl

governed-ungoverned_example : ungoverned ontology drafted ≡ []
governed-ungoverned_example =
    governed-ungoverned ontology ((text "hostility", text "Friend") ∷ []) draft drafted tt
      draft_builds

-- An event of the source `s`, the bytes of a frame, sealed.
abbrev parse : ℕ → Bytes → Result ℕ (List (Event ℤ)) × ℕ
parse n [] = (err n, n + 1)
parse n (x ∷ xs) = (ok (event_of (x ∷ xs) ∷ []), n)

abbrev source_bytes : Event ℤ → Bytes
source_bytes e = e.source_id

abbrev attempts : ℕ → Attempt
attempts n = record { connected = true; publish = if ltb n 1 then sent else stalled; disk = takes }

abbrev inputs : List Input
inputs = frame (115 ∷ []) ∷ receive_error ∷ frame [] ∷ frame (116 ∷ []) ∷ []

abbrev empty_spool : Spool
empty_spool = record {
  dir = record { segments = (0, []) ∷ []; cursor_file = none };
  max_bytes = default_max_bytes;
  head_seq = 0;
  head_len = 0;
  cursor = record { seg = 0; offset = 0 };
  dropped_segments = 0;
}

empty_spool-IsLog : IsLog empty_spool []
unfolding encode_all file_of
empty_spool-IsLog = record {
  queue = record {
    ahead = 0;
    to_head = refl;
    waiting = in_head (record { done = []; file = refl; at_offset = refl; framed = tt });
  };
  lo = 0;
  numbered = (refl, refl);
  from_lo = omega arith;
}

abbrev connector : Option Spool → Connector ℕ
connector spool = record {
  parser = 0;
  link = record { spool = spool; metrics = no_metrics; published = [] };
  reported = [];
  events = 0;
}

abbrev example_records : List Record
example_records = emitted ontology toy source_bytes parse 5 none attempts 0 inputs

run-Accounted_example :
    Accounted example_records
      (run ontology toy source_bytes parse 5 none attempts inputs (connector none)).link
unfolding emitted
run-Accounted_example =
    run-Accounted ontology toy source_bytes parse 5 none attempts inputs (connector none) refl refl
      (omega arith)

example_records-Framed : All Framed example_records
unfolding emitted sealed_record seal is_utf8
example_records-Framed = (
  record { id_utf8 = refl; id_fits = omega arith; payload_fits = omega arith },
  (record { id_utf8 = refl; id_fits = omega arith; payload_fits = omega arith }, tt),
)

abbrev drain_start : Drain
drain_start = record {
  spool = empty_spool;
  metrics = no_metrics;
  js_mode = true;
  confirmed = [];
  skipped = [];
}

abbrev answering : Broker
answering = record { jetstream = acked; publish_ok = true; flush_ok = true }

abbrev running : Running ℕ
running = record { connector = connector (some empty_spool); drain = drain_start; holding = none }

-- Behind the second event, which is spooled, the drain takes a whole round.
abbrev turns : ℕ → List Turn
turns n = if ltb n 2 then [] else peeks ∷ settles answering ∷ []

run-Delivered_example :
    Delivered [] example_records
      (run_with_drain ontology toy source_bytes parse 5 none attempts turns inputs running)
run-Delivered_example =
    run-Delivered ontology toy source_bytes parse 5 none attempts turns inputs running empty_spool
      [] refl refl refl refl empty_spool-IsLog (λ n. refl) example_records-Framed

-- The record of the event `s`, which verifies.
abbrev waiting_record : Record
waiting_record = record { event_id = text "7"; sealed = 5 ∷ replicate 63 0 ++ 115 ∷ [] }

waiting_record-Framed : Framed waiting_record
unfolding is_utf8
waiting_record-Framed = record { id_utf8 = refl; id_fits = omega arith; payload_fits = omega arith }

append_lem_example : Appended empty_spool [] waiting_record
append_lem_example =
    append_lem empty_spool [] waiting_record waiting_record-Framed empty_spool-IsLog

abbrev system_start : System
system_start = record { drain = drain_start; holding = none; spooled = [] }

abbrev silent : Broker
silent = record { jetstream = refused; publish_ok = false; flush_ok = false }

abbrev system_spooled : System
system_spooled = record {
  drain = record drain_start { spool = (append waiting_record empty_spool).0 };
  holding = none;
  spooled = [] ++ (waiting_record ∷ []);
}

Reach-Ordered_example : Ordered system_spooled.drain system_spooled.holding system_spooled.spooled
Reach-Ordered_example =
    Reach-Ordered toy 5 system_start system_spooled refl refl empty_spool-IsLog
      (next initial (spools system_start waiting_record waiting_record-Framed))

abbrev waiting_spool : Spool
waiting_spool = record empty_spool {
  dir = record { segments = (0, encode_all (waiting_record ∷ [])) ∷ []; cursor_file = none };
  head_len = 74;
}

waiting_spool-IsLog : IsLog waiting_spool (waiting_record ∷ [])
unfolding encode_all file_of
waiting_spool-IsLog = record {
  queue = record {
    ahead = 0;
    to_head = refl;
    waiting =
        in_head (record {
          done = [];
          file = refl;
          at_offset = refl;
          framed = (waiting_record-Framed, tt);
        });
  };
  lo = 0;
  numbered = (refl, refl);
  from_lo = omega arith;
}

drain_rounds-Emptied_example :
    Emptied toy 5
      (record drain_start { spool = waiting_spool })
      (waiting_record ∷ [])
      (drain_rounds toy 5 (silent ∷ answering ∷ []) (record drain_start { spool = waiting_spool }))
unfolding verify count_answers
drain_rounds-Emptied_example =
    drain_rounds-Emptied toy 5 (silent ∷ answering ∷ [])
      (record drain_start { spool = waiting_spool }) (waiting_record ∷ []) waiting_spool-IsLog
      (refl, tt) (omega arith)

-- Beside the loop the drain confirms the event that was spooled.
settled_beside :
    (run_with_drain ontology toy source_bytes parse 5 none attempts turns inputs
      running).drain.confirmed
    ≡ record waiting_record { sealed = 5 ∷ replicate 63 0 ++ 116 ∷ [] } ∷ []
unfolding run_with_drain take_turns input_with_drain events_with_drain event_with_drain drain_turn
    handle_event publish_or_spool after_publish spool_or_shed spool_append append enforce_bound
    write_head drop_oldest append_to total_bytes encode peek peek_go read_record_at read_record_of
    read_record begin_round finish_round verify deliver js_publish settle confirm_record advance
    sealed_record seal segments_from file_of read_body read_rest from_le from_be is_utf8
settled_beside = refl
