-- ===== src/Common/Runtime/Delivery.antt =====
-- The run loop and the drain of rust/connectors/common/src/runtime.rs over one spool: every event is published,
-- or joins the records that the drain confirms in order.
use ajar_connectors.Prelude.{
  ℕ, ◌≡◌, refl, ap, sym, ◌∙◌, subst, Option, none, some, List, [], ◌∷◌, ◌++◌, append_assoc,
  append-nil, map, All, Text, Bytes, Result, ok, err,
}
use ajar_connectors.Sdk.Event.{Event}
use ajar_connectors.Sdk.Seal.{Ed25519}
use ajar_connectors.Common.Spool.{Record, Spool}
use ajar_connectors.Common.Spool.Codec.{Framed}
use ajar_connectors.Common.Spool.Numbered.{IsLog}
use ajar_connectors.Common.Ontology.{Ontology}
use ajar_connectors.Common.Runtime.{
  takes, Attempt, Input, frame, receive_error, sealed_record, handle_event,
}
use ajar_connectors.Common.Runtime.Sublists.{Merge, done}
use ajar_connectors.Common.Runtime.Kept.{records, emitted}
use ajar_connectors.Common.Runtime.Interleaving.{System, initial, Ordered}
use ajar_connectors.Common.Runtime.Order.{Reach-Ordered}
use ajar_connectors.Common.Runtime.Together.{
  Turn, Running, turn_on, take_turns, event_with_drain, events_with_drain, parsed_with_drain,
  received, input_with_drain, run_with_drain,
}
use ajar_connectors.Common.Runtime.Joined.{
  counted-Joined, publish_or_spool-Joined, IsJoined, take_turns-IsJoined,
}

-- The events so far, from a spool with the queue `q`: each was published or spooled, in order, and what was
-- spooled behind `q` is what the drain has done with and the spool still has, as `Ordered` says.
pub record Delivered {P : Type 0} (q all : List Record) (s : Running P) : Type 0 where
  pub spool : Spool
  pub has_spool : s.connector.link.spool ≡ some spool
  pub spooled : List Record
  pub merged : Merge s.connector.link.published spooled all
  pub ordered : Ordered (record s.drain { spool = spool }) s.holding (q ++ spooled)

All-parts : (P : Record → Type 0) (xs ys : List Record) → All P (xs ++ ys) → All P xs × All P ys
All-parts P [] ys h = (tt, h)
All-parts P (x ∷ xs) ys h = let (front, back) = All-parts P xs ys h.1 in ((h.0, front), back)

take_turns-parser :
    {SK VK Sig P : Type 0} (crypto : Ed25519 SK VK Sig) (key : VK) (ts : List Turn) (s : Running P)
    → (take_turns crypto key ts s).connector.parser ≡ s.connector.parser
unfolding take_turns
take_turns-parser crypto key [] s = refl
take_turns-parser crypto key (t ∷ ts) s =
    take_turns-parser crypto key ts _ ∙ one s.connector.link.spool
  where
    one : (o : Option Spool) → (turn_on crypto key t o s).connector.parser ≡ s.connector.parser
    one none = refl
    one (some spool) = refl

module _ {F P Reason SK VK Sig : Type 0} (ont : Ontology) (crypto : Ed25519 SK VK Sig)
    (canonical_bytes : Event F → Bytes) (parse : P → Bytes → Result Reason (List (Event F)) × P)
    (key : SK) (marking : Option (List Text)) (attempts : ℕ → Attempt) (turns : ℕ → List Turn) where
  abbrev run_events : List (Event F) → Running P → Running P
  run_events es s =
      events_with_drain ont crypto canonical_bytes parse key marking attempts turns es s

  abbrev run_parsed : Result Reason (List (Event F)) × P → Running P → Running P
  run_parsed r s = parsed_with_drain ont crypto canonical_bytes parse key marking attempts turns r s

  abbrev run_all : List Input → Running P → Running P
  run_all is s = run_with_drain ont crypto canonical_bytes parse key marking attempts turns is s

  abbrev frames_events : P → List Input → List Record
  frames_events p is = emitted ont crypto canonical_bytes parse key marking attempts p is

  abbrev event_records : Result Reason (List (Event F)) → List Record
  event_records r = records ont crypto canonical_bytes parse key marking attempts r

  run_events-parser :
      (es : List (Event F)) (s : Running P)
      → (run_events es s).connector.parser ≡ s.connector.parser
  unfolding events_with_drain event_with_drain handle_event
  run_events-parser [] s = refl
  run_events-parser (e ∷ es) s =
      run_events-parser es _
      ∙ take_turns-parser crypto (crypto.verifying_key key) (turns s.connector.events) s

  run_parsed-parser :
      (r : Result Reason (List (Event F))) (p : P) (s : Running P)
      → (run_parsed (r, p) s).connector.parser ≡ p
  run_parsed-parser (ok events) p s = run_events-parser events _
  run_parsed-parser (err reason) p s = refl

  module _ (start : System) (q : List Record) (works : (n : ℕ) → (attempts n).disk ≡ takes) where
    abbrev Holds : List Record → Running P → Type 0
    Holds all s = IsJoined crypto (crypto.verifying_key key) start q all s

    event-Holds :
        (all : List Record) (e : Event F) (s : Running P)
        → Framed (sealed_record crypto canonical_bytes key marking e)
        → Holds all s
        → Holds
            (all ++ (sealed_record crypto canonical_bytes key marking e ∷ []))
            (event_with_drain ont crypto canonical_bytes parse key marking attempts turns e s)
    unfolding event_with_drain handle_event
    event-Holds all e s fr h =
        let s' = take_turns crypto (crypto.verifying_key key) (turns s.connector.events) s in
        publish_or_spool-Joined crypto (crypto.verifying_key key) start q all _ _ s'.drain
          s'.holding fr
          (counted-Joined crypto (crypto.verifying_key key) start q all s'.connector.link _ s'.drain
            s'.holding
            (take_turns-IsJoined crypto (crypto.verifying_key key) start q all
              (turns s.connector.events) s h))
          (attempts s'.connector.events) (works s'.connector.events)

    run_events-Holds :
        (all : List Record) (es : List (Event F)) (s : Running P)
        → All Framed (map (sealed_record crypto canonical_bytes key marking) es)
        → Holds all s
        → Holds (all ++ map (sealed_record crypto canonical_bytes key marking) es) (run_events es s)
    unfolding events_with_drain
    run_events-Holds all [] s fr h = rw (append-nil all) h
    run_events-Holds all (e ∷ es) s fr h =
        subst (λ (l : List Record). Holds l (run_events (e ∷ es) s))
          (append_assoc all (sealed_record crypto canonical_bytes key marking e ∷ []) _)
          (run_events-Holds (all ++ (sealed_record crypto canonical_bytes key marking e ∷ [])) es _
            fr.1 (event-Holds all e s fr.0 h))

    run_parsed-Holds :
        (all : List Record) (r : Result Reason (List (Event F))) (p : P) (s : Running P)
        → All Framed (event_records r)
        → Holds all s
        → Holds (all ++ event_records r) (run_parsed (r, p) s)
    run_parsed-Holds all (ok events) p s fr h = run_events-Holds all events _ fr (relinked h)
      where
        relinked :
            Holds all s → Holds all (record s { connector = record s.connector { parser = p } })
        relinked k = k
    run_parsed-Holds all (err reason) p s fr h = rw (append-nil all) (
        counted-Joined crypto (crypto.verifying_key key) start q all s.connector.link _ s.drain
          s.holding h)

    run_all-Holds :
        (is : List Input) (all : List Record) (s : Running P)
        → All Framed (frames_events s.connector.parser is)
        → Holds all s
        → Holds (all ++ frames_events s.connector.parser is) (run_all is s)
    unfolding run_with_drain input_with_drain emitted
    run_all-Holds [] all s fr h = rw (append-nil all) (
        take_turns-IsJoined crypto (crypto.verifying_key key) start q all (turns s.connector.events)
          s h)
    run_all-Holds (receive_error ∷ is) all s fr h = run_all-Holds is all s fr h
    run_all-Holds (frame bytes ∷ is) all s fr h =
        let result = parse s.connector.parser bytes in
        let parts = All-parts Framed (event_records result.0) (frames_events result.1 is) fr in
        let s0 = received ont crypto canonical_bytes parse key marking attempts turns s in
        let same = run_parsed-parser result.0 result.1 s0 in
        subst (λ (l : List Record). Holds l (run_all is (run_parsed result s0)))
          (append_assoc all (event_records result.0) _
            ∙ ap (λ (p : P). all ++ (event_records result.0 ++ frames_events p is)) same)
          (run_all-Holds is (all ++ event_records result.0) (run_parsed result s0)
            (subst (λ (p : P). All Framed (frames_events p is)) (sym same) parts.1)
            (run_parsed-Holds all result.0 result.1 s0 parts.0 (
              counted-Joined crypto (crypto.verifying_key key) start q all s.connector.link _
                s.drain s.holding h)))

  -- With a spool, and a disk that takes what is appended, each event that the loop takes on is published or
  -- spooled, in order, whatever the transport, the parser, the broker and the drain beside the loop do. The
  -- queue that the spool held, with the spooled events behind it, is a past and the queue that the spool then
  -- holds; what the drain has confirmed is a sublist of that past, in order and never a record twice, save for
  -- a record in flight; and it is the whole past as long as no segment was dropped and no record skipped. At
  -- the start the spool's segments are numbered without a gap, the drain is in no round and has confirmed
  -- nothing, and the sealed events fit the record format.
  pub run-Delivered :
      (is : List Input) (s : Running P) (spool : Spool) (q : List Record)
      → s.connector.link.spool ≡ some spool
      → s.connector.link.published ≡ []
      → s.drain.confirmed ≡ []
      → s.holding ≡ none
      → IsLog spool q
      → ((n : ℕ) → (attempts n).disk ≡ takes)
      → All Framed (frames_events s.connector.parser is)
      → Delivered q (frames_events s.connector.parser is) (run_all is s)
  run-Delivered is s spool q has nothing fresh idle log works framed =
      let start : System = record {
        drain = record s.drain { spool = spool };
        holding = s.holding;
        spooled = q;
      } in
      let end = run_all-Holds start q works is [] s framed (record {
        spool = spool;
        has_spool = has;
        spooled = [];
        merged = rw nothing done;
        reach = rw (append-nil q) initial;
      }) in
      record {
        spool = end.spool;
        has_spool = end.has_spool;
        spooled = end.spooled;
        merged = end.merged;
        ordered = Reach-Ordered crypto (crypto.verifying_key key) start _ fresh idle log end.reach;
      }
