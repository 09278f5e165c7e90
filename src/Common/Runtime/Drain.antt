-- ===== src/Common/Runtime/Drain.antt =====
-- The drain of rust/connectors/common/src/runtime.rs (`spawn_drain`): peek, publish, and confirm by moving
-- the cursor. The spool is not locked while a record is published, so a round has two halves.
use ajar_connectors.Prelude.{
  Bool, true, false, not, ◌&&◌, Option, none, some, List, [], ◌∷◌, ◌++◌, Text, text, is_ok, Result,
  ok, err, if◌then◌else◌,
}
use ajar_connectors.Prelude.Scan.{contains_text}
use ajar_connectors.Sdk.Consumer.{fetch_add_one}
use ajar_connectors.Sdk.Seal.{Ed25519, verify}
use ajar_connectors.Common.Spool.{Record, Cursor, Spool, IoError}
use ajar_connectors.Common.Spool.Log.{peek, advance}
use ajar_connectors.Common.Runtime.{Metrics}

-- The answer of JetStream to one publish: refused at once, acknowledged, or not, with the error's text.
pub data JetStream : Type 0 where
  refused acked : JetStream
  unacked : Text → JetStream

-- What the broker does in one round.
pub record Broker : Type 0 where
  pub jetstream : JetStream
  pub publish_ok : Bool
  pub flush_ok : Bool

-- The drain's own state, and what it has confirmed and skipped so far.
pub record Drain : Type 0 where
  pub spool : Spool
  pub metrics : Metrics
  pub js_mode : Bool
  pub confirmed : List Record
  pub skipped : List Record

-- Whether JetStream delivered, and the mode from here on.
unfoldable pub js_publish : JetStream → Bool × Bool
js_publish refused = (false, true)
js_publish acked = (true, true)
js_publish (unacked reason) =
    if contains_text (text "no responders") reason then (false, false) else (false, true)

abbrev pub plain_publish : Broker → Bool × Bool → Bool × Bool
plain_publish b (delivered, js_mode) =
    if not delivered && not js_mode
    then (b.publish_ok && b.flush_ok, js_mode)
    else (delivered, js_mode)

-- Whether the record was delivered, and the mode from here on.
unfoldable pub deliver : Broker → Bool → Bool × Bool
deliver b js_mode = plain_publish b (if js_mode then js_publish b.jetstream else (false, false))

-- The first half of a round.
unfoldable pub begin_round : Drain → Drain × Option (Cursor × Record)
begin_round d = let (spool, item) = peek d.spool in (record d { spool = spool }, item)

-- An error of `advance` is only logged.
abbrev pub advanced : Result IoError Spool → Spool → Spool
advanced (ok s') s = s'
advanced (err e) s = s

unfoldable pub confirm_record : Cursor → Record → Drain → Drain
confirm_record c r d = record d {
  spool = advanced (advance c d.spool) d.spool;
  metrics = record d.metrics { drained = fetch_add_one d.metrics.drained };
  confirmed = d.confirmed ++ r ∷ [];
}

unfoldable pub skip_corrupt : Cursor → Record → Drain → Drain
skip_corrupt c r d = record d {
  spool = advanced (advance c d.spool) d.spool;
  metrics = record d.metrics { spool_corrupt = fetch_add_one d.metrics.spool_corrupt };
  skipped = d.skipped ++ r ∷ [];
}

-- Without a delivery the cursor stays, for the next round.
unfoldable pub settle : Bool × Bool → Cursor → Record → Drain → Drain
settle (delivered, js_mode) c r d =
    if delivered
    then confirm_record c r (record d { js_mode = js_mode })
    else record d { js_mode = js_mode }

module _ {SK VK Sig : Type 0} (crypto : Ed25519 SK VK Sig) (key : VK) where
  -- The second half.
  unfoldable pub finish_round : Broker → Cursor → Record → Drain → Drain
  finish_round b c r d =
      if is_ok (verify crypto r.sealed key)
      then settle (deliver b d.js_mode) c r d
      else skip_corrupt c r d

  abbrev pub finish_item : Broker → Drain × Option (Cursor × Record) → Drain
  finish_item b (d, none) = d
  finish_item b (d, some (c, r)) = finish_round b c r d

  -- A round that nothing comes between.
  unfoldable pub drain_round : Broker → Drain → Drain
  drain_round b d = finish_item b (begin_round d)

  unfoldable pub drain_rounds : List Broker → Drain → Drain
  drain_rounds [] d = d
  drain_rounds (b ∷ bs) d = drain_rounds bs (drain_round b d)
