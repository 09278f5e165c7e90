-- ===== src/Sdk/Consumer/Stream.antt =====
-- What the consumer's stream yields, and what its counters count.
use ajar_connectors.Prelude.{
  ℕ, ◌+◌, ◌^◌, ◌<◌, ◌≡◌, false, Option, none, some, List, [], ◌∷◌, Bytes, length, arith, Bool-cases,
  Option-cases, Result-cases, inl, inr,
}
use ajar_connectors.Sdk.Event.{Event}
use ajar_connectors.Sdk.Seal.{Ed25519, verify}
use ajar_connectors.Sdk.Seal.Envelope.{Genuine, verify_iff}
use ajar_connectors.Sdk.Consumer.{
  Delivery, Guards, Stats, Message, guarded, handle_canonical, keep, process, verified_events,
}

-- How many events an outcome yields.
abbrev yielded : {A : Type 0} → Option A → ℕ
yielded none = 0
yielded (some a) = 1

abbrev pub total : Stats → ℕ
total s = s.accepted + s.rejected + s.skipped

module _ {F SK VK Sig : Type 0} (c : Ed25519 SK VK Sig) (decode : Bytes → Option (Event F))
    (key : VK) (guards : Guards) where
  -- The message is genuine, decodes to the event, and no guard skips it.
  pub record Delivered (m : Message) (d : Delivery F) : Type 0 where
    pub canonical : Bytes
    pub genuine : Genuine c m.payload key canonical
    pub decoded : decode canonical ≡ some d.event
    pub passed : guarded guards d.event ≡ false
    pub payload_kept : d.payload ≡ d.event.payload
    pub subject_kept : d.subject ≡ m.subject

  handle_sound :
      (m : Message) (s : Stats) (o : Option (Event F)) (d : Delivery F)
      → (handle_canonical c decode key guards m s o).0 ≡ some d
      → (o ≡ some d.event)
        × (guarded guards d.event ≡ false)
        × (d.payload ≡ d.event.payload)
        × (d.subject ≡ m.subject)
  unfolding handle_canonical
  handle_sound m s none d h = cc
  handle_sound m s (some e) d h = ground arith

  process_sound :
      (m : Message) (s : Stats) (d : Delivery F)
      → (process c decode key guards m s).0 ≡ some d
      → Delivered m d
  unfolding process
  process_sound m s d h = elim (Result-cases (verify c m.payload key)) [
    | inl (canonical, v) ↦
        let (o, p, q, r) = handle_sound m s (decode canonical) d (rw v at h) in
        record {
          canonical = canonical;
          genuine = (verify_iff c m.payload key canonical).0 v;
          decoded = o;
          passed = p;
          payload_kept = q;
          subject_kept = r;
        }
    | inr (e, v) ↦ absurd (cc (rw v at h))
  ]

  process_complete :
      (m : Message) (s : Stats) (d : Delivery F)
      → Delivered m d
      → (process c decode key guards m s).0 ≡ some d
  unfolding process handle_canonical
  process_complete m s d v =
      rw ((verify_iff c m.payload key v.canonical).1 v.genuine, v.decoded, v.passed) (ground arith)

  -- A message is delivered exactly when its seal is genuine under the egress key, its body decodes and
  -- no guard skips the event; the counters do not matter.
  pub process_iff :
      (m : Message) (s : Stats) (d : Delivery F)
      → ((process c decode key guards m s).0 ≡ some d → Delivered m d)
        × (Delivered m d → (process c decode key guards m s).0 ≡ some d)
  process_iff m s d = (process_sound m s d, process_complete m s d)

  handle_counts :
      (m : Message) (s : Stats) (o : Option (Event F))
      → total s + 1 < 2 ^ 64
      → let r = handle_canonical c decode key guards m s o in
        (total r.1 ≡ total s + 1) × (r.1.accepted ≡ s.accepted + yielded r.0)
  unfolding handle_canonical
  handle_counts m s none h = ground arith
  handle_counts m s (some e) h = elim (Bool-cases (guarded guards e)) [
    | inl g ↦ rw g (ground arith)
    | inr g ↦ rw g (ground arith)
  ]

  -- One message moves one counter by one.
  process_counts :
      (m : Message) (s : Stats)
      → total s + 1 < 2 ^ 64
      → let r = process c decode key guards m s in
        (total r.1 ≡ total s + 1) × (r.1.accepted ≡ s.accepted + yielded r.0)
  unfolding process
  process_counts m s h = elim (Result-cases (verify c m.payload key)) [
    | inl (canonical, v) ↦ rw v (handle_counts m s (decode canonical) h)
    | inr (e, v) ↦ rw v (ground arith)
  ]

  -- What a subscriber is promised: the genuine deliveries, in the order of their messages, and no other.
  pub data Yields : List Message → List (Delivery F) → Type 0 where
    done : Yields [] []
    deliver :
        {m : Message} {d : Delivery F} {ms : List Message} {ds : List (Delivery F)}
        → Delivered m d
        → Yields ms ds
        → Yields (m ∷ ms) (d ∷ ds)
    hold :
        {m : Message} {ms : List Message} {ds : List (Delivery F)}
        → ((d : Delivery F) → ¬ Delivered m d)
        → Yields ms ds
        → Yields (m ∷ ms) ds

  Yields-keep :
      (m : Message) (s : Stats) (ms : List Message) (ds : List (Delivery F))
      → Yields ms ds
      → Yields (m ∷ ms) (keep (process c decode key guards m s).0 ds)
  Yields-keep m s ms ds y = elim (Option-cases (process c decode key guards m s).0) [
    | inl n ↦ rw n (hold (λ d v. cc (n, process_complete m s d v)) y)
    | inr (d, e) ↦ rw e (deliver (process_sound m s d e) y)
  ]

  length-keep :
      (o : Option (Delivery F)) (ds : List (Delivery F))
      → length (keep o ds) ≡ yielded o + length ds
  length-keep none ds = omega arith
  length-keep (some d) ds = omega arith

  verified_events-Yields :
      (ms : List Message) (s : Stats) → Yields ms (verified_events c decode key guards ms s).0
  unfolding verified_events
  verified_events-Yields [] s = done
  verified_events-Yields (m ∷ ms) s =
      Yields-keep m s ms _ (verified_events-Yields ms (process c decode key guards m s).1)

  verified_events_counts :
      (ms : List Message) (s : Stats)
      → total s + length ms < 2 ^ 64
      → let r = verified_events c decode key guards ms s in
        (total r.1 ≡ total s + length ms) × (r.1.accepted ≡ s.accepted + length r.0)
  unfolding verified_events
  verified_events_counts [] s h = omega arith
  verified_events_counts (m ∷ ms) s h =
      let one = process_counts m s (omega arith) in
      let rest =
        verified_events_counts ms (process c decode key guards m s).1 (omega (arith, one.0)) in
      omega (
        arith,
        one.0,
        one.1,
        rest.0,
        rest.1,
        length-keep (process c decode key guards m s).0
            (verified_events c decode key guards ms (process c decode key guards m s).1).0,
      )

  -- The stream yields the genuine deliveries in order and no other; and while the counters do not reach
  -- 2 ^ 64, each message is counted once and `accepted` counts the deliveries.
  pub verified_events_lem :
      (ms : List Message) (s : Stats)
      → total s + length ms < 2 ^ 64
      → let r = verified_events c decode key guards ms s in
        Yields ms r.0 × (total r.1 ≡ total s + length ms) × (r.1.accepted ≡ s.accepted + length r.0)
  verified_events_lem ms s h =
      let counts = verified_events_counts ms s h in
      (verified_events-Yields ms s, counts.0, counts.1)
