-- ===== src/Common/Runtime/Together.antt =====
-- `run` of rust/connectors/common/src/runtime.rs with a spool: the loop, and the drain that it spawns on the
-- same spool. Both meet at the spool's lock alone. An event of the loop takes it once at most, and the drain
-- once to peek and once to settle, so that any run has the effect of one in which the drain takes its turns
-- between two events.
use ajar_connectors.Prelude.{ℕ, Option, none, some, List, [], ◌∷◌, Text, Bytes, Result, ok, err}
use ajar_connectors.Sdk.Event.{Event}
use ajar_connectors.Sdk.Seal.{Ed25519}
use ajar_connectors.Common.Spool.{Record, Cursor, Spool}
use ajar_connectors.Common.Ontology.{Ontology}
use ajar_connectors.Common.Runtime.{
  Attempt, Input, frame, receive_error, Connector, handle_event, receive, reject,
}
use ajar_connectors.Common.Runtime.Drain.{Broker, Drain, begin_round, finish_round}

-- The drain peeks, or ends the round that it is in.
pub data Turn : Type 0 where
  peeks : Turn
  settles : Broker → Turn

-- Both tasks. The spool is that of the connector's link, and the drain counts in metrics that the loop does
-- not touch.
pub record Running (P : Type 0) : Type 0 where
  pub connector : Connector P
  pub drain : Drain
  pub holding : Option (Cursor × Record)

abbrev pub put_spool : {P : Type 0} → Spool → Connector P → Connector P
put_spool spool c = record c { link = record c.link { spool = some spool } }

abbrev pub turned : {P : Type 0} → Connector P → Drain × Option (Cursor × Record) → Running P
turned c (d, holding) = record { connector = put_spool d.spool c; drain = d; holding = holding }

module _ {SK VK Sig : Type 0} (crypto : Ed25519 SK VK Sig) (verifying_key : VK) where
  -- A drain that is in a round does not peek, and one that is in none has nothing to settle.
  unfoldable pub drain_turn :
      Turn → Drain → Option (Cursor × Record) → Drain × Option (Cursor × Record)
  drain_turn peeks d none = begin_round d
  drain_turn peeks d (some item) = (d, some item)
  drain_turn (settles b) d none = (d, none)
  drain_turn (settles b) d (some (c, r)) = (finish_round crypto verifying_key b c r d, none)

  -- Without a spool there is no drain.
  abbrev pub turn_on : {P : Type 0} → Turn → Option Spool → Running P → Running P
  turn_on t none s = s
  turn_on t (some spool) s =
      turned s.connector (drain_turn t (record s.drain { spool = spool }) s.holding)

  unfoldable pub take_turns : {P : Type 0} → List Turn → Running P → Running P
  take_turns [] s = s
  take_turns (t ∷ ts) s = take_turns ts (turn_on t s.connector.link.spool s)

module _ {F P Reason SK VK Sig : Type 0} (ont : Ontology) (crypto : Ed25519 SK VK Sig)
    (canonical_bytes : Event F → Bytes) (parse : P → Bytes → Result Reason (List (Event F)) × P)
    (key : SK) (marking : Option (List Text)) (attempts : ℕ → Attempt) (turns : ℕ → List Turn) where
  -- The turns of the drain since the event before, and then the event.
  unfoldable pub event_with_drain : Event F → Running P → Running P
  event_with_drain e s =
      let s' = take_turns crypto (crypto.verifying_key key) (turns s.connector.events) s in
      record s' {
        connector =
            handle_event ont crypto canonical_bytes parse key marking attempts e s'.connector;
      }

  unfoldable pub events_with_drain : List (Event F) → Running P → Running P
  events_with_drain [] s = s
  events_with_drain (e ∷ es) s = events_with_drain es (event_with_drain e s)

  abbrev pub parsed_with_drain : Result Reason (List (Event F)) × P → Running P → Running P
  parsed_with_drain (err reason, p) s = record s {
    connector =
        reject ont crypto canonical_bytes parse key marking attempts
          (record s.connector { parser = p });
  }
  parsed_with_drain (ok events, p) s =
      events_with_drain events (record s { connector = record s.connector { parser = p } })

  abbrev pub received : Running P → Running P
  received s = record s {
    connector = receive ont crypto canonical_bytes parse key marking attempts s.connector;
  }

  unfoldable pub input_with_drain : Input → Running P → Running P
  input_with_drain receive_error s = s
  input_with_drain (frame bytes) s = parsed_with_drain (parse s.connector.parser bytes) (received s)

  -- The loop up to the shutdown signal, and the turns of the drain up to then.
  unfoldable pub run_with_drain : List Input → Running P → Running P
  run_with_drain [] s = take_turns crypto (crypto.verifying_key key) (turns s.connector.events) s
  run_with_drain (i ∷ is) s = run_with_drain is (input_with_drain i s)
