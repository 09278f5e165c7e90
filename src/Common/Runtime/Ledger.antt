-- ===== src/Common/Runtime/Ledger.antt =====
-- What the run loop of rust/connectors/common/src/runtime.rs does with every event: an account without gaps.
use ajar_connectors.Prelude.{
  ℕ, suc, ◌+◌, ◌^◌, ◌<◌, ◌≡◌, refl, ◌∙◌, Bool, true, false, Option, none, some, List, [], ◌∷◌, ◌++◌,
  length, length-append, arith, Text, Bytes, Result, if◌then◌else◌,
}
use ajar_connectors.Sdk.Event.{Event}
use ajar_connectors.Sdk.Consumer.{fetch_add_one}
use ajar_connectors.Sdk.Seal.{Ed25519}
use ajar_connectors.Common.Spool.{Record, Spool}
use ajar_connectors.Common.Spool.Log.{append}
use ajar_connectors.Common.Ontology.{Ontology}
use ajar_connectors.Common.Runtime.{
  Metrics, no_metrics, Publish, sent, publish_failed, stalled, Disk, takes, fails, Attempt, Link,
  appended, spool_append, spool_or_shed, after_publish, goes_to_spool, publish_or_spool, Input,
  Connector, run,
}
use ajar_connectors.Common.Runtime.Sublists.{Sublist, empty, Sublist-append, Sublist-insert}
use ajar_connectors.Common.Runtime.Kept.{SameFates, emitted, run-Kept}

-- The account of the events taken on so far.
pub record Accounted (all : List Record) (l : Link) : Type 0 where
  pub total :
      l.metrics.published + l.metrics.spooled + l.metrics.dropped_backpressure
        + l.metrics.spool_failed
      ≡ length all
  pub in_order : Sublist l.published all
  pub counted_published : l.metrics.published ≡ length l.published

fetch_add_one-lt : (n : ℕ) → suc n < 2 ^ 64 → fetch_add_one n ≡ suc n
fetch_add_one-lt n h = omega (arith, h)

length-snoc : (all : List Record) (r : Record) → length (all ++ (r ∷ [])) ≡ suc (length all)
length-snoc all r = omega (arith, length-append all (r ∷ []))

module _ (all : List Record) (r : Record) (l : Link) (small : suc (length all) < 2 ^ 64)
    (h : Accounted all l) where
  sent-Accounted : (disk : Disk) → Accounted (all ++ (r ∷ [])) (after_publish sent disk r l)
  unfolding after_publish
  sent-Accounted disk = record {
    total = omega (
      arith,
      fetch_add_one-lt l.metrics.published (omega (arith, h.total)),
      h.total,
      length-snoc all r,
    );
    in_order = Sublist-insert [] r h.in_order;
    counted_published = omega (
      arith,
      fetch_add_one-lt l.metrics.published (omega (arith, h.total)),
      h.counted_published,
      length-snoc l.published r,
    );
  }

  appended-Accounted :
      (s : Spool) (dropped : Bool) → Accounted (all ++ (r ∷ [])) (appended (s, dropped) l)
  appended-Accounted s true = record {
    total = omega (
      arith,
      fetch_add_one-lt l.metrics.spooled (omega (arith, h.total)),
      h.total,
      length-snoc all r,
    );
    in_order = Sublist-append (r ∷ []) h.in_order;
    counted_published = h.counted_published;
  }
  appended-Accounted s false = record {
    total = omega (
      arith,
      fetch_add_one-lt l.metrics.spooled (omega (arith, h.total)),
      h.total,
      length-snoc all r,
    );
    in_order = Sublist-append (r ∷ []) h.in_order;
    counted_published = h.counted_published;
  }

  spool_or_shed-Accounted :
      (disk : Disk) (o : Option Spool) → Accounted (all ++ (r ∷ [])) (spool_or_shed disk o r l)
  unfolding spool_or_shed spool_append
  spool_or_shed-Accounted takes (some s) = appended-Accounted (append r s).0 (append r s).1
  spool_or_shed-Accounted (fails s') (some s) = record {
    total = omega (
      arith,
      fetch_add_one-lt l.metrics.spool_failed (omega (arith, h.total)),
      h.total,
      length-snoc all r,
    );
    in_order = Sublist-append (r ∷ []) h.in_order;
    counted_published = h.counted_published;
  }
  spool_or_shed-Accounted disk none = record {
    total = omega (
      arith,
      fetch_add_one-lt l.metrics.dropped_backpressure (omega (arith, h.total)),
      h.total,
      length-snoc all r,
    );
    in_order = Sublist-append (r ∷ []) h.in_order;
    counted_published = h.counted_published;
  }

  after_publish-Accounted :
      (p : Publish) (disk : Disk) → Accounted (all ++ (r ∷ [])) (after_publish p disk r l)
  after_publish-Accounted sent disk = sent-Accounted disk
  after_publish-Accounted publish_failed disk =
      unfold after_publish in spool_or_shed-Accounted disk l.spool
  after_publish-Accounted stalled disk =
      unfold after_publish in spool_or_shed-Accounted disk l.spool

  publish_or_spool-Accounted : (a : Attempt) → Accounted (all ++ (r ∷ [])) (publish_or_spool a r l)
  unfolding publish_or_spool
  publish_or_spool-Accounted a = by_test (goes_to_spool l.spool a.connected)
    where
      by_test :
          (b : Bool)
          → Accounted
              (all ++ (r ∷ []))
              (if b then spool_or_shed a.disk l.spool r l else after_publish a.publish a.disk r l)
      by_test true = spool_or_shed-Accounted a.disk l.spool
      by_test false = after_publish-Accounted a.publish a.disk

other-Accounted :
    (all : List Record) (l : Link) (m : Metrics)
    → SameFates l.metrics m
    → Accounted all l
    → Accounted all (record l { metrics = m })
other-Accounted all l m same h = record {
  total = omega (arith, same.0, same.1, same.2, same.3, h.total);
  in_order = h.in_order;
  counted_published = same.0 ∙ h.counted_published;
}

module _ {F P Reason SK VK Sig : Type 0} (ont : Ontology) (crypto : Ed25519 SK VK Sig)
    (canonical_bytes : Event F → Bytes) (parse : P → Bytes → Result Reason (List (Event F)) × P)
    (key : SK) (marking : Option (List Text)) (attempts : ℕ → Attempt) where
  -- Whatever the transport, the parser, the broker and the disk do, each event that the loop takes on from its
  -- start is counted once as published, spooled, shed or failed to spool, and what was published are such
  -- events, marked and sealed, in their order, as many as counted, for fewer than 2^64 events.
  pub run-Accounted :
      (is : List Input) (c : Connector P)
      → c.link.metrics ≡ no_metrics
      → c.link.published ≡ []
      → length (emitted ont crypto canonical_bytes parse key marking attempts c.parser is) < 2 ^ 64
      → Accounted
          (emitted ont crypto canonical_bytes parse key marking attempts c.parser is)
          (run ont crypto canonical_bytes parse key marking attempts is c).link
  run-Accounted is c fresh nothing small =
      run-Kept ont crypto canonical_bytes parse key marking attempts
        (λ (all : List Record) (l : Link). length all < 2 ^ 64 → Accounted all l)
        (λ all l m same h s. other-Accounted all l m same (h s))
        (λ all n r l h s.
          publish_or_spool-Accounted all r l (omega (arith, s, length-snoc all r))
            (h (omega (arith, s, length-snoc all r))) (attempts n))
        is [] c
        (λ s. record {
          total = rw fresh refl;
          in_order = rw nothing empty;
          counted_published = rw (fresh, nothing) refl;
        })
        small
