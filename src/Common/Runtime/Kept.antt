-- ===== src/Common/Runtime/Kept.antt =====
-- What every event keeps in the run loop of rust/connectors/common/src/runtime.rs.
use ajar_connectors.Prelude.{
  ℕ, ◌≡◌, refl, ap, ◌∙◌, subst, Option, List, [], ◌∷◌, ◌++◌, append_assoc, append-nil, map, Text,
  Bytes, Result, ok, err,
}
use ajar_connectors.Sdk.Event.{Event}
use ajar_connectors.Sdk.Seal.{Ed25519}
use ajar_connectors.Common.Spool.{Record}
use ajar_connectors.Common.Ontology.{Ontology}
use ajar_connectors.Common.Runtime.{
  Metrics, Attempt, Link, publish_or_spool, Input, frame, receive_error, Connector, sealed_record,
  handle_event, handle_events, handle_input, run, receive, parsed,
}

-- The counters of the fate of an event agree.
abbrev pub SameFates : Metrics → Metrics → Type 0
SameFates m m' =
    (m'.published ≡ m.published)
    × (m'.spooled ≡ m.spooled)
    × (m'.dropped_backpressure ≡ m.dropped_backpressure)
    × (m'.spool_failed ≡ m.spool_failed)

module _ {F P Reason SK VK Sig : Type 0} (ont : Ontology) (crypto : Ed25519 SK VK Sig)
    (canonical_bytes : Event F → Bytes) (parse : P → Bytes → Result Reason (List (Event F)) × P)
    (key : SK) (marking : Option (List Text)) (attempts : ℕ → Attempt) where
  abbrev pub records : Result Reason (List (Event F)) → List Record
  records (err reason) = []
  records (ok events) = map (sealed_record crypto canonical_bytes key marking) events

  -- The events of the frames, marked and sealed, in their order.
  unfoldable pub emitted : P → List Input → List Record
  emitted p [] = []
  emitted p (receive_error ∷ is) = emitted p is
  emitted p (frame bytes ∷ is) = records (parse p bytes).0 ++ emitted (parse p bytes).1 is

  handle_events-parser :
      (es : List (Event F)) (c : Connector P)
      → (handle_events ont crypto canonical_bytes parse key marking attempts es c).parser ≡ c.parser
  unfolding handle_events handle_event
  handle_events-parser [] c = refl
  handle_events-parser (e ∷ es) c =
      handle_events-parser es
        (handle_event ont crypto canonical_bytes parse key marking attempts e c)

  handle_input-parser :
      (bytes : Bytes) (c : Connector P)
      → (handle_input ont crypto canonical_bytes parse key marking attempts (frame bytes) c).parser
        ≡ (parse c.parser bytes).1
  unfolding handle_input
  handle_input-parser bytes c = by_result (parse c.parser bytes).0 (parse c.parser bytes).1
    where
      by_result :
          (r : Result Reason (List (Event F))) (p : P)
          → (parsed ont crypto canonical_bytes parse key marking attempts
              (r, p)
              (receive ont crypto canonical_bytes parse key marking attempts c)).parser
            ≡ p
      by_result (ok events) p = handle_events-parser events _
      by_result (err reason) p = refl

  -- What one event keeps, and no other counter touches, the whole loop keeps.
  module _ (Kept : List Record → Link → Type 0)
      (other_counters : (all : List Record) (l : Link) (m : Metrics)
        → SameFates l.metrics m
        → Kept all l
        → Kept all (record l { metrics = m }))
      (one_event : (all : List Record) (n : ℕ) (r : Record) (l : Link)
        → Kept all l
        → Kept (all ++ (r ∷ [])) (publish_or_spool (attempts n) r l)) where
    handle_event-Kept :
        (all : List Record) (e : Event F) (c : Connector P)
        → Kept all c.link
        → Kept
            (all ++ (sealed_record crypto canonical_bytes key marking e ∷ []))
            (handle_event ont crypto canonical_bytes parse key marking attempts e c).link
    unfolding handle_event
    handle_event-Kept all e c h =
        one_event all c.events _ _ (other_counters all c.link _ (refl, refl, refl, refl) h)

    handle_events-Kept :
        (all : List Record) (es : List (Event F)) (c : Connector P)
        → Kept all c.link
        → Kept
            (all ++ map (sealed_record crypto canonical_bytes key marking) es)
            (handle_events ont crypto canonical_bytes parse key marking attempts es c).link
    unfolding handle_events
    handle_events-Kept all [] c h = rw (append-nil all) h
    handle_events-Kept all (e ∷ es) c h =
        subst
          (λ (l : List Record).
            Kept l
              (handle_events ont crypto canonical_bytes parse key marking attempts (e ∷ es) c).link)
          (append_assoc all (_ ∷ []) _)
          (handle_events-Kept (all ++ (sealed_record crypto canonical_bytes key marking e ∷ [])) es
            (handle_event ont crypto canonical_bytes parse key marking attempts e c)
            (handle_event-Kept all e c h))

    parsed-Kept :
        (all : List Record) (bytes : Bytes) (c : Connector P)
        → Kept all c.link
        → Kept
            (all ++ records (parse c.parser bytes).0)
            (handle_input ont crypto canonical_bytes parse key marking attempts
              (frame bytes)
              c).link
    unfolding handle_input
    parsed-Kept all bytes c h = by_result (parse c.parser bytes).0 (parse c.parser bytes).1
      where
        by_result :
            (r : Result Reason (List (Event F))) (p : P)
            → Kept
                (all ++ records r)
                (parsed ont crypto canonical_bytes parse key marking attempts
                  (r, p)
                  (receive ont crypto canonical_bytes parse key marking attempts c)).link
        by_result (ok events) p =
            handle_events-Kept all events _ (other_counters all c.link _ (refl, refl, refl, refl) h)
        by_result (err reason) p =
            rw (append-nil all) (other_counters all c.link _ (refl, refl, refl, refl) h)

    pub run-Kept :
        (is : List Input) (all : List Record) (c : Connector P)
        → Kept all c.link
        → Kept
            (all ++ emitted c.parser is)
            (run ont crypto canonical_bytes parse key marking attempts is c).link
    unfolding run emitted handle_input
    run-Kept [] all c h = rw (append-nil all) h
    run-Kept (receive_error ∷ is) all c h = run-Kept is all c h
    run-Kept (frame bytes ∷ is) all c h =
        subst
          (λ (l : List Record).
            Kept l
              (run ont crypto canonical_bytes parse key marking attempts (frame bytes ∷ is) c).link)
          (append_assoc all (records (parse c.parser bytes).0) _
            ∙ ap (λ (p : P). all ++ (records (parse c.parser bytes).0 ++ emitted p is))
                (handle_input-parser bytes c))
          (run-Kept is (all ++ records (parse c.parser bytes).0)
            (handle_input ont crypto canonical_bytes parse key marking attempts (frame bytes) c)
            (parsed-Kept all bytes c h))
