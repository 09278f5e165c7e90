-- ===== src/Common/Runtime/Joined.antt =====
-- What the loop and the drain of rust/connectors/common/src/runtime.rs do to one spool, as steps of both.
use ajar_connectors.Prelude.{
  ◌≡◌, refl, sym, subst, Bool, true, false, Option, none, some, List, [], ◌∷◌, ◌++◌, append_assoc,
  if◌then◌else◌,
}
use ajar_connectors.Sdk.Seal.{Ed25519}
use ajar_connectors.Common.Spool.{Record, Cursor, Spool}
use ajar_connectors.Common.Spool.Log.{append}
use ajar_connectors.Common.Spool.Codec.{Framed}
use ajar_connectors.Common.Runtime.{
  Metrics, Publish, sent, publish_failed, stalled, Disk, takes, Attempt, Link, appended,
  spool_append, spool_or_shed, after_publish, goes_to_spool, publish_or_spool, Connector,
}
use ajar_connectors.Common.Runtime.Sublists.{Merge, Merge-first, Merge-second}
use ajar_connectors.Common.Runtime.Drain.{Drain}
use ajar_connectors.Common.Runtime.Interleaving.{System, spools, begins, finishes, Reach, next}
use ajar_connectors.Common.Runtime.Together.{
  Turn, peeks, settles, Running, drain_turn, turned, turn_on, take_turns,
}

module _ {SK VK Sig : Type 0} (crypto : Ed25519 SK VK Sig) (key : VK) (start : System)
    (q : List Record) where
  -- The same, by the steps that led there.
  pub record Joined (all : List Record) (l : Link) (d : Drain) (holding : Option (Cursor × Record))
      : Type 0 where
    pub spool : Spool
    pub has_spool : l.spool ≡ some spool
    pub spooled : List Record
    pub merged : Merge l.published spooled all
    pub reach :
        Reach crypto key start
          (record { drain = record d { spool = spool }; holding = holding; spooled = q ++ spooled })

  pub counted-Joined :
      (all : List Record) (l : Link) (m : Metrics) (d : Drain) (holding : Option (Cursor × Record))
      → Joined all l d holding
      → Joined all (record l { metrics = m }) d holding
  counted-Joined all l m d holding h = record {
    spool = h.spool;
    has_spool = h.has_spool;
    spooled = h.spooled;
    merged = h.merged;
    reach = h.reach;
  }

  module _ (all : List Record) (r : Record) (l : Link) (d : Drain)
      (holding : Option (Cursor × Record)) (fr : Framed r) (h : Joined all l d holding) where
    sent-Joined : (disk : Disk) → Joined (all ++ (r ∷ [])) (after_publish sent disk r l) d holding
    unfolding after_publish
    sent-Joined disk = record {
      spool = h.spool;
      has_spool = h.has_spool;
      spooled = h.spooled;
      merged = Merge-first r h.merged;
      reach = h.reach;
    }

    appended-Joined :
        (l' : Link)
        → l'.published ≡ l.published
        → l'.spool ≡ some (append r h.spool).0
        → Joined (all ++ (r ∷ [])) l' d holding
    appended-Joined l' same stored = record {
      spool = (append r h.spool).0;
      has_spool = stored;
      spooled = h.spooled ++ (r ∷ []);
      merged = rw same (Merge-second r h.merged);
      reach =
          subst
            (λ (x : List Record). Reach crypto key start (record {
              drain = record d { spool = (append r h.spool).0 };
              holding = holding;
              spooled = x;
            }))
            (append_assoc q h.spooled (r ∷ [])) (next h.reach (spools _ r fr));
    }

    spool_or_shed-Joined : Joined (all ++ (r ∷ [])) (spool_or_shed takes l.spool r l) d holding
    unfolding spool_or_shed spool_append
    spool_or_shed-Joined =
        subst (λ (o : Option Spool). Joined (all ++ (r ∷ [])) (spool_or_shed takes o r l) d holding)
          (sym h.has_spool)
          (appended-Joined _ (same_published (append r h.spool).1) (stored (append r h.spool).1))
      where
        same_published : (b : Bool) → (appended ((append r h.spool).0, b) l).published ≡ l.published
        same_published true = refl
        same_published false = refl

        stored :
            (b : Bool) → (appended ((append r h.spool).0, b) l).spool ≡ some (append r h.spool).0
        stored true = refl
        stored false = refl

    after_publish-Joined :
        (p : Publish) → Joined (all ++ (r ∷ [])) (after_publish p takes r l) d holding
    after_publish-Joined sent = sent-Joined takes
    after_publish-Joined publish_failed = unfold after_publish in spool_or_shed-Joined
    after_publish-Joined stalled = unfold after_publish in spool_or_shed-Joined

    pub publish_or_spool-Joined :
        (a : Attempt) → a.disk ≡ takes → Joined (all ++ (r ∷ [])) (publish_or_spool a r l) d holding
    unfolding publish_or_spool
    publish_or_spool-Joined a works = by_test (goes_to_spool l.spool a.connected)
      where
        by_test :
            (b : Bool)
            → Joined
                (all ++ (r ∷ []))
                (if b then spool_or_shed a.disk l.spool r l else after_publish a.publish a.disk r l)
                d
                holding
        by_test true = rw works spool_or_shed-Joined
        by_test false = rw works (after_publish-Joined a.publish)

  abbrev pub IsJoined : {P : Type 0} → List Record → Running P → Type 0
  IsJoined all s = Joined all s.connector.link s.drain s.holding

  turned-IsJoined :
      {P : Type 0} (all : List Record) (c : Connector P) (d : Drain)
      (holding : Option (Cursor × Record)) (t : Turn) (h : Joined all c.link d holding)
      → IsJoined all (turned c (drain_turn crypto key t (record d { spool = h.spool }) holding))
  unfolding drain_turn
  turned-IsJoined all c d none peeks h = record {
    spool = _;
    has_spool = refl;
    spooled = h.spooled;
    merged = h.merged;
    reach = next h.reach (begins _ refl);
  }
  turned-IsJoined all c d (some item) peeks h = record {
    spool = h.spool;
    has_spool = refl;
    spooled = h.spooled;
    merged = h.merged;
    reach = h.reach;
  }
  turned-IsJoined all c d none (settles b) h = record {
    spool = h.spool;
    has_spool = refl;
    spooled = h.spooled;
    merged = h.merged;
    reach = h.reach;
  }
  turned-IsJoined all c d (some (at, r)) (settles b) h = record {
    spool = _;
    has_spool = refl;
    spooled = h.spooled;
    merged = h.merged;
    reach = next h.reach (finishes _ b at r refl);
  }

  pub take_turns-IsJoined :
      {P : Type 0} (all : List Record) (ts : List Turn) (s : Running P)
      → IsJoined all s
      → IsJoined all (take_turns crypto key ts s)
  unfolding take_turns
  take_turns-IsJoined all [] s h = h
  take_turns-IsJoined all (t ∷ ts) s h =
      take_turns-IsJoined all ts (turn_on crypto key t s.connector.link.spool s) (
        subst (λ (o : Option Spool). IsJoined all (turn_on crypto key t o s)) (sym h.has_spool)
          (turned-IsJoined all s.connector s.drain s.holding t h))
