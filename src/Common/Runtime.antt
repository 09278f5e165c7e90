-- ===== src/Common/Runtime.antt =====
-- The run loop of rust/connectors/common/src/runtime.rs. What the transport, the broker and the disk do is
-- an argument: the inputs, and an `Attempt` for each event. A lock on the spool is one step.

pub mod Sublists
pub mod Kept
pub mod Ledger
pub mod Joined
pub mod Delivery
pub mod Drain
pub mod Together
pub mod Interleaving
pub mod Spooled
pub mod Order
pub mod Progress
use ajar_connectors.Prelude.{
  ℕ, suc, ◌+◌, Bool, true, false, not, ◌&&◌, ◌||◌, Option, none, some, List, [], ◌∷◌, ◌++◌, Text,
  Bytes, text_eq, is_empty, Result, ok, err, if◌then◌else◌,
}
use ajar_connectors.Sdk.Event.{Event}
use ajar_connectors.Sdk.Consumer.{fetch_add_one}
use ajar_connectors.Sdk.Seal.{Ed25519, seal}
use ajar_connectors.Common.Spool.{Record, Spool}
use ajar_connectors.Common.Spool.Log.{append}
use ajar_connectors.Common.Marking.{apply}
use ajar_connectors.Common.Ontology.{Ontology, knows_type, ungoverned}

-- The `AtomicU64` counters.
pub record Metrics : Type 0 where
  pub received : ℕ
  pub published : ℕ
  pub rejected : ℕ
  pub dropped_backpressure : ℕ
  pub spooled : ℕ
  pub drained : ℕ
  pub spool_corrupt : ℕ
  pub spool_dropped_segments : ℕ
  pub spool_failed : ℕ
  pub ungoverned : ℕ

abbrev pub no_metrics : Metrics
no_metrics = record {
  received = 0;
  published = 0;
  rejected = 0;
  dropped_backpressure = 0;
  spooled = 0;
  drained = 0;
  spool_corrupt = 0;
  spool_dropped_segments = 0;
  spool_failed = 0;
  ungoverned = 0;
}

-- How a publish ends: taken by the client, refused, or stalled past the deadline.
pub data Publish : Type 0 where
  sent publish_failed stalled : Publish

-- The disk takes an append, or fails and leaves some spool.
pub data Disk : Type 0 where
  takes : Disk
  fails : Spool → Disk

pub record Attempt : Type 0 where
  pub connected : Bool
  pub publish : Publish
  pub disk : Disk

-- The spool if one is configured, the counters, and what was handed to the client: the `Nats-Msg-Id` with
-- the sealed bytes.
pub record Link : Type 0 where
  pub spool : Option Spool
  pub metrics : Metrics
  pub published : List Record

abbrev pub count_spooled : Bool → Metrics → Metrics
count_spooled true m = record m {
  spooled = fetch_add_one m.spooled;
  spool_dropped_segments = fetch_add_one m.spool_dropped_segments;
}
count_spooled false m = record m { spooled = fetch_add_one m.spooled }

abbrev pub appended : Spool × Bool → Link → Link
appended (s, dropped) l = record l { spool = some s; metrics = count_spooled dropped l.metrics }

unfoldable pub spool_append : Disk → Spool → Record → Link → Link
spool_append takes s r l = appended (append r s) l
spool_append (fails s') s r l = record l {
  spool = some s';
  metrics = record l.metrics { spool_failed = fetch_add_one l.metrics.spool_failed };
}

-- The event is spooled, or shed where no spool is configured.
unfoldable pub spool_or_shed : Disk → Option Spool → Record → Link → Link
spool_or_shed disk (some s) r l = spool_append disk s r l
spool_or_shed disk none r l = record l {
  metrics = record l.metrics {
    dropped_backpressure = fetch_add_one l.metrics.dropped_backpressure;
  };
}

unfoldable pub after_publish : Publish → Disk → Record → Link → Link
after_publish sent disk r l = record l {
  metrics = record l.metrics { published = fetch_add_one l.metrics.published };
  published = l.published ++ r ∷ [];
}
after_publish publish_failed disk r l = spool_or_shed disk l.spool r l
after_publish stalled disk r l = spool_or_shed disk l.spool r l

-- With the link known down the event goes to the spool at once, if there is one.
abbrev pub goes_to_spool : Option Spool → Bool → Bool
goes_to_spool none connected = false
goes_to_spool (some s) connected = not connected

unfoldable pub publish_or_spool : Attempt → Record → Link → Link
publish_or_spool a r l =
    if goes_to_spool l.spool a.connected
    then spool_or_shed a.disk l.spool r l
    else after_publish a.publish a.disk r l

-- A set of pairs, and the warnings logged: each pair is logged when it is new.
abbrev has_pair : Text × Text → List (Text × Text) → Bool
has_pair p [] = false
has_pair p (x ∷ xs) = (text_eq x.0 p.0 && text_eq x.1 p.1) || has_pair p xs

unfoldable pub report_once : Text × Text → List (Text × Text) → List (Text × Text)
report_once p reported = if has_pair p reported then reported else reported ++ p ∷ []

unfoldable pub report_names : Text → List Text → List (Text × Text) → List (Text × Text)
report_names entity_type [] reported = reported
report_names entity_type (name ∷ names) reported =
    report_names entity_type names (report_once (entity_type, name) reported)

-- The count, and the warnings logged so far.
unfoldable pub report_ungoverned :
    {F : Type 0} → Ontology → Event F → ℕ × List (Text × Text) → ℕ × List (Text × Text)
report_ungoverned ont e (count, reported) =
    let lost = ungoverned ont e in
    if not (knows_type ont e.entity_type)
    then (fetch_add_one count, report_once (e.entity_type, []) reported)
    else (
      (if is_empty lost then count else fetch_add_one count),
      report_names e.entity_type lost reported,
    )

pub data Input : Type 0 where
  frame : Bytes → Input
  receive_error : Input

-- The parser's own state, the link, the warnings, and how many events were taken on.
pub record Connector (P : Type 0) : Type 0 where
  pub parser : P
  pub link : Link
  pub reported : List (Text × Text)
  pub events : ℕ

abbrev pub marked : {F : Type 0} → Option (List Text) → Event F → Event F
marked none e = e
marked (some tags) e = apply tags e

abbrev pub counted : ℕ → Link → Link
counted n l = record l { metrics = record l.metrics { ungoverned = n } }

module _ {F SK VK Sig : Type 0} (crypto : Ed25519 SK VK Sig) (canonical_bytes : Event F → Bytes)
    (key : SK) (marking : Option (List Text)) where
  -- An event as it is published: its id and its sealed bytes.
  unfoldable pub sealed_record : Event F → Record
  sealed_record e = record {
    event_id = (marked marking e).id;
    sealed = seal crypto (canonical_bytes (marked marking e)) key;
  }

module _ {F P Reason SK VK Sig : Type 0} (ont : Ontology) (crypto : Ed25519 SK VK Sig)
    (canonical_bytes : Event F → Bytes) (parse : P → Bytes → Result Reason (List (Event F)) × P)
    (key : SK) (marking : Option (List Text)) (attempts : ℕ → Attempt) where
  -- One round of `for mut event in events`.
  unfoldable pub handle_event : Event F → Connector P → Connector P
  handle_event e c =
      let (count, reported) =
        report_ungoverned ont (marked marking e) (c.link.metrics.ungoverned, c.reported) in
      record c {
        link =
            publish_or_spool (attempts c.events)
              (sealed_record crypto canonical_bytes key marking e) (counted count c.link);
        reported = reported;
        events = suc c.events;
      }

  unfoldable pub handle_events : List (Event F) → Connector P → Connector P
  handle_events [] c = c
  handle_events (e ∷ es) c = handle_events es (handle_event e c)

  abbrev pub reject : Connector P → Connector P
  reject c = record c {
    link = record c.link {
      metrics = record c.link.metrics { rejected = fetch_add_one c.link.metrics.rejected };
    };
  }

  abbrev pub parsed : Result Reason (List (Event F)) × P → Connector P → Connector P
  parsed (err reason, p) c = reject (record c { parser = p })
  parsed (ok events, p) c = handle_events events (record c { parser = p })

  abbrev pub receive : Connector P → Connector P
  receive c = record c {
    link = record c.link {
      metrics = record c.link.metrics { received = fetch_add_one c.link.metrics.received };
    };
  }

  -- One round of the loop; a receive error waits and goes on.
  unfoldable pub handle_input : Input → Connector P → Connector P
  handle_input receive_error c = c
  handle_input (frame bytes) c = parsed (parse c.parser bytes) (receive c)

  -- The loop up to the shutdown signal.
  unfoldable pub run : List Input → Connector P → Connector P
  run [] c = c
  run (i ∷ is) c = run is (handle_input i c)
