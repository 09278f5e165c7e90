-- ===== src/Common/Runtime/Interleaving.antt =====
-- The drain and the run loop of rust/connectors/common/src/runtime.rs on one spool: their steps, and what is kept in order.
use ajar_connectors.Prelude.{suc, ◌≤◌, ◌≡◌, ◌⊎◌, Option, none, some, List, [], ◌∷◌, ◌++◌}
use ajar_connectors.Sdk.Seal.{Ed25519}
use ajar_connectors.Common.Spool.{Record, Cursor, file_of}
use ajar_connectors.Common.Spool.Log.{append}
use ajar_connectors.Common.Spool.Codec.{Framed}
use ajar_connectors.Common.Spool.Numbered.{IsLog}
use ajar_connectors.Common.Spool.Peek.{StandsAt}
use ajar_connectors.Common.Runtime.Sublists.{Sublist}
use ajar_connectors.Common.Runtime.Drain.{Broker, Drain, begin_round, finish_round}

-- The drain, the record that it is publishing, and the records that were spooled, in order.
pub record System : Type 0 where
  pub drain : Drain
  pub holding : Option (Cursor × Record)
  pub spooled : List Record

module _ {SK VK Sig : Type 0} (crypto : Ed25519 SK VK Sig) (key : VK) where
  -- One step at a time: the run loop spools a record, or the drain begins or finishes a round.
  pub data Step : System → System → Type 0 where
    spools :
        (s : System) (r : Record)
        → Framed r
        → Step s (record s {
          drain = record s.drain { spool = (append r s.drain.spool).0 };
          spooled = s.spooled ++ (r ∷ []);
        })
    begins :
        (s : System)
        → s.holding ≡ none
        → Step s (record s { drain = (begin_round s.drain).0; holding = (begin_round s.drain).1 })
    finishes :
        (s : System) (b : Broker) (c : Cursor) (r : Record)
        → s.holding ≡ some (c, r)
        → Step s (record s { drain = finish_round crypto key b c r s.drain; holding = none })

  pub data Reach (s : System) : System → Type 0 where
    initial : Reach s s
    next : {t u : System} → Reach s t → Step t u → Reach s u

-- Where the record in flight stands: at the cursor, or dropped while it was published.
abbrev pub InFlight : Drain → List Record → Option (Cursor × Record) → Type 0
InFlight d past none = Sublist d.confirmed past
InFlight d past (some (c, r)) =
    ((d.spool.cursor ≡ c) × StandsAt d.spool.dir.segments c r × Sublist d.confirmed past)
    ⊎ ((file_of c.seg d.spool.dir.segments ≡ none)
        × (suc c.seg ≤ d.spool.head_seq)
        × (1 ≤ d.spool.dropped_segments)
        × (before : List Record) × (after : List Record) × (past ≡ before ++ (r ∷ after))
        × Sublist d.confirmed before)

-- What was spooled is past or waits; what was confirmed is past, in order; it is all that is past unless a
-- segment was dropped or a record skipped.
pub record Ordered (d : Drain) (holding : Option (Cursor × Record)) (spooled : List Record)
    : Type 0 where
  pub past : List Record
  pub queue : List Record
  pub log : IsLog d.spool queue
  pub split : spooled ≡ past ++ queue
  pub flight : InFlight d past holding
  pub exact : d.spool.dropped_segments ≡ 0 → d.skipped ≡ [] → d.confirmed ≡ past
