-- ===== src/Tests/Common.antt =====
-- Runs of the common runtime's definitions.
use ajar_connectors.Prelude.{
  ◌≡◌, ◌≤◌, ◌⊎◌, refl, none, some, List, [], ◌∷◌, ◌++◌, Text, text, text_eq, strip_prefix, ◌+◌,
  length, inr, arith,
}
use ajar_connectors.Prelude.Utf8.{is_utf8}
use ajar_connectors.Prelude.Scan.{trim}
use ajar_connectors.Common.Spool.Log.{
  append, enforce_bound, write_head, append_to, drop_oldest, total_bytes, depth_bytes,
}
use ajar_connectors.Common.Spool.Append.{IsSpool, append-IsQueue, append-bounded}
use ajar_connectors.Common.Spool.Queue.{
  next_segment, in_head, behind_head, IsQueue, Drains, IsQueue-Drains,
}
use ajar_connectors.Common.Spool.{
  Spool, default_max_bytes, file_of, Record, encode, read_record, truncate_torn_tail,
}
use ajar_connectors.Common.Spool.Codec.{
  Framed, encode_all, read_record-encode, truncate_torn_tail_lem,
}
use ajar_connectors.Common.Stream.{Reader, read_line}
use ajar_connectors.Common.Stream.Lines.{flat, Reads, read_line_lem}
use ajar_connectors.Common.Marking.{
  Level, secret, floor_of, classification_level, level_of, apply_tags,
}
use ajar_connectors.Common.Marking.Apply.{levels, IsHighest, apply_tags_lem}

abbrev spooled : Record
spooled = record { event_id = text "e1"; sealed = 7 ∷ 8 ∷ [] }

spooled-Framed : Framed spooled
unfolding is_utf8
spooled-Framed = record { id_utf8 = refl; id_fits = omega arith; payload_fits = omega arith }

read_record-encode_example :
    read_record ((1 ∷ []) ++ (encode spooled ++ (9 ∷ []))) 1
    ≡ some (spooled, 1 + length (encode spooled))
read_record-encode_example = read_record-encode (1 ∷ []) (9 ∷ []) spooled spooled-Framed

truncate_torn_tail_lem_example :
    truncate_torn_tail (encode_all (spooled ∷ []) ++ (0 ∷ 0 ∷ 0 ∷ 2 ∷ []))
    ≡ encode_all (spooled ∷ [])
unfolding encode
truncate_torn_tail_lem_example =
    truncate_torn_tail_lem (spooled ∷ []) (0 ∷ 0 ∷ 0 ∷ 2 ∷ []) (spooled-Framed, tt)
      (inr (spooled, 0 ∷ 0 ∷ 0 ∷ 2 ∷ 101 ∷ 49 ∷ 7 ∷ 8 ∷ [], spooled-Framed, λ e. cc, refl))

abbrev chunks : Reader
chunks = (97 ∷ []) ∷ (98 ∷ 13 ∷ 10 ∷ 99 ∷ []) ∷ []

read_line_lem_example : Reads 8 (flat chunks) (read_line 8 chunks)
read_line_lem_example = read_line_lem 8 chunks (λ e. cc, (λ e. cc, tt))

abbrev marking_tags : List Text
marking_tags = text "class:secret" ∷ text "rel:GBR" ∷ []

abbrev wire_tags : List Text
wire_tags = text "class:restricted" ∷ text "caveat:NOFORN" ∷ []

apply_tags_lem_example :
    (l : Level) × (levels (apply_tags marking_tags wire_tags) ≡ l ∷ [])
    × IsHighest l secret wire_tags
unfolding floor_of classification_level level_of strip_prefix text_eq trim
apply_tags_lem_example = apply_tags_lem marking_tags wire_tags secret refl

-- The cursor is behind the one record of the older segment, and two wait in the head.
abbrev two_waiting : Spool
two_waiting = record {
  dir = record {
    segments = (3, encode_all (spooled ∷ [])) ∷ (4, encode_all (spooled ∷ spooled ∷ [])) ∷ [];
    cursor_file = none;
  };
  max_bytes = default_max_bytes;
  head_seq = 4;
  head_len = 24;
  cursor = record { seg = 3; offset = 12 };
  dropped_segments = 0;
}

two_waiting-IsQueue : IsQueue two_waiting (spooled ∷ spooled ∷ [])
unfolding encode_all encode file_of
two_waiting-IsQueue = record {
  ahead = 1;
  to_head = refl;
  waiting =
      behind_head {c = two_waiting.cursor} {todo = []}
        (record { done = encode_all (spooled ∷ []); file = refl; at_offset = refl; framed = tt })
        (in_head {c = next_segment two_waiting.cursor} {todo = spooled ∷ spooled ∷ []} (record {
          done = [];
          file = refl;
          at_offset = refl;
          framed = (spooled-Framed, (spooled-Framed, tt));
        }));
}

IsQueue-Drains_example : Drains two_waiting (spooled ∷ spooled ∷ [])
IsQueue-Drains_example = IsQueue-Drains two_waiting (spooled ∷ spooled ∷ []) two_waiting-IsQueue

two_waiting-IsSpool : IsSpool two_waiting (spooled ∷ spooled ∷ [])
unfolding file_of
two_waiting-IsSpool = record { queue = two_waiting-IsQueue; last = refl }

joins-IsQueue : IsQueue (append spooled two_waiting).0 ((spooled ∷ spooled ∷ []) ++ (spooled ∷ []))
unfolding append enforce_bound write_head append_to drop_oldest total_bytes encode encode_all
joins-IsQueue =
    append-IsQueue two_waiting (spooled ∷ spooled ∷ []) spooled spooled-Framed two_waiting-IsSpool
      refl

append-bounded_example :
    (depth_bytes (append spooled two_waiting).0 ≤ default_max_bytes)
    ⊎ (length (append spooled two_waiting).0.dir.segments ≤ 1)
append-bounded_example = append-bounded two_waiting spooled
