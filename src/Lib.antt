-- ===== src/Lib.antt =====
-- ajar-connectors: signed event connectors for the Ajar data plane, the Rust workspace under rust/.
--
-- A connector reads frames from a transport (Common.Stream), parses them (Ais, Klv, Mavlink, Asterix), builds
-- events with the SDK (Sdk.Builder) and routes their keys by the ontology (Common.Ontology). The run loop
-- (Common.Runtime) stamps the operator's marking (Common.Marking), seals the event (Sdk.Seal) and publishes
-- it, or spools it to disk while the broker is away (Common.Spool); the drain (Common.Runtime.Drain) publishes
-- what was spooled. A consumer verifies what it reads (Sdk.Consumer), and the sink records it in a
-- hash-chained store (Sink).
--
-- Sdk models the SDK crate rust/ajar-connector. Sdk.Event holds the event of the contract and the errors of
-- the builder, Sdk.Builder the `EventBuilder` with its setters and `build`, Sdk.Rfc3339, Sdk.Namespace and
-- Sdk.Keys the checks that `build` calls (`is_rfc3339`, `is_namespaced`, the sort by key and the search of
-- duplicates). Sdk.Seal is the envelope of seal.rs (`seal`, `verify`), Sdk.Consumer the filter behind
-- `verified_events` of consumer.rs. Their children state and prove what they promise.
--
-- Sink models rust/connectors/sink: Sink.Store is the hash-chained store of store.rs (`append`, `audit`,
-- `accept`), Sink.Run the recording loop of main.rs.
--
-- Common models the library rust/connectors/common:
--   - Common.Spool with Spool.Log is spool.rs (the record codec and the recovery; `open_spool` for
--     `Spool::open`, `append`, `peek`, `advance`), a directory being its list of segments. Spool.Codec,
--     Spool.Whole and Spool.Queue are about one record and the queue, Spool.Append, Spool.Numbered,
--     Spool.Dropped and Spool.Bound about an append and the bound, Spool.Peek and Spool.Held about a cursor while others append.
--   - Common.Runtime is runtime.rs: `run` the loop over the inputs, alone, `publish_or_spool` the three ways
--     of an event, `Metrics` the counters. What the broker and the disk do at each event is an `Attempt`.
--     Runtime.Drain is `spawn_drain`, a round in two halves, since the spool is unlocked in between.
--     With a spool, Runtime.Together.run_with_drain is `run` with both, the drain taking any turns between two events.
--     Runtime.Interleaving has both tasks on one spool as a step relation, Runtime.Spooled and Runtime.Order
--     are about its order, Runtime.Kept, Runtime.Ledger, Runtime.Joined, Runtime.Delivery and
--     Runtime.Progress about the counters, the loop and the drain.
--   - Common.Ontology is ontology.rs: the lookups, `check`, and `governed`, which routes a key. Its children
--     are Check, Nearest (the walk over parents), Ancestors (the faults in full) and Route.
--   - Common.Stream is stream.rs (`read_line`, `read_frame`) over the chunks of a reader, Common.Marking
--     marking.rs (`from_config`, `apply`, `wire_classification`), Common.Identity identity.rs.
--
-- The parsers pass their state from call to call. Ais models rust/connectors/ais-nmea: Ais.Bits is
-- ais/bits.rs, Ais.Cache ais/cache.rs, and Ais.Fields, Ais.Decode, Ais.Sentence and Ais.Report are ais.rs
-- (`parse_sentence`, `decode`, `base_builder`). Klv models rust/connectors/klv/src/klv.rs: Klv the BER readers
-- and scalings, Klv.Items `parse_set` and the event, Klv.Lengths, Klv.Measured, Klv.Layout, Klv.Sets and
-- Klv.Checksum what they promise. Mavlink models rust/connectors/mavlink: Mavlink the readers and the checksum, Mavlink.Messages
-- mavlink/messages.rs, Mavlink.Parser `parse_frame` and the vehicles, Mavlink.Report the event;
-- Mavlink.Frames, Mavlink.Vehicles and Mavlink.Events are about the errors, the caps and the carried frames.
-- Asterix models rust/connectors/asterix: Asterix and Asterix.Records the length engine of asterix/field.rs and
-- the loops over records and blocks of asterix.rs, Asterix.Wire asterix/wire.rs, Asterix.Cat010,
-- Asterix.Cat021, Asterix.Cat034 and Asterix.Cat048 four categories, Asterix.Target a target report,
-- Asterix.Service and Asterix.Report `parse_service_block` and the service events of asterix.rs; Asterix.Tiles
-- and Asterix.Loops are about the bytes that they cover, Asterix.Flags and Asterix.Status about the
-- statuses of the radars.
--
-- Prelude holds what they share: lists, texts, decimals, machine integers, the interface of `f64`, the frames
-- carried from one event to the next (Carry, which ais/cache.rs and mavlink.rs both have), and the rulesets.
--
-- Texts are lists of UTF-8 bytes. `f64` is the interface Prelude.Float, with Mavlink.Trig and
-- Asterix.Target.Geodesy for what
-- only those connectors need of it. Ed25519, SHA-256, prost's decoding, the time crate's formatting, clocks and random identifiers
-- are arguments. Recursion is structural, but for these, on fuel: the recovery of a segment has its length in
-- bytes, a record taking eight; the items of a KLV set have its length, an item taking two; a trimmed text has
-- its length; a decimal has twenty digits, enough for 64 bits; the records of an ASTERIX block and the blocks
-- of a datagram have one more than its length, each taking a byte at least; an extended item has the length of
-- the frame. The walk over the parents of an ontology type is left to the fuel it is given, since the loop does
-- not end on a cycle. `peek` recurses on the number of segments up to the head.
--
-- Not modelled: sockets, files other than as byte lists, configuration files, logging, the pacing and the
-- heartbeat of the run loop, start-up code, the target reports
-- of ASTERIX beyond the decoding of three categories, the other connectors' parsers, the SDKs in other languages.
--
-- Tests holds concrete runs and each property at a concrete input.
pub mod Prelude
pub mod Sdk
pub mod Sink
pub mod Common
pub mod Ais
pub mod Klv
pub mod Mavlink
pub mod Asterix
pub mod Tests
