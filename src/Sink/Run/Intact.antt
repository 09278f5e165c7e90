-- ===== src/Sink/Run/Intact.antt =====
-- Whatever is published, what the sink recorded audits intact.
use ajar_connectors.Prelude.{
  ℕ, ◌+◌, ◌≡◌, refl, sym, ap, ◌∙◌, Option, some, List, [], ◌∷◌, ◌++◌, Text, Bytes, length, drop,
  min, arith, Result, ok, err, bind-eq-ok, map_err, ok_or, ok_or-eq-ok, map_err-eq-ok,
  length-append, drop-append, subst,
}
use ajar_connectors.Sdk.Event.{Event}
use ajar_connectors.Sdk.Seal.{Ed25519, verify}
use ajar_connectors.Sdk.Seal.Envelope.{verify_iff}
use ajar_connectors.Sink.Store.{
  Refusal, undecodable, unregistered_source, bad_seal, intact, genesis, empty_store, audit,
  audit_rows, append, accept,
}
use ajar_connectors.Sink.Store.Chain.{Counted, audit_iff, append-audit}
use ajar_connectors.Sink.Run.{Sink, Message, record_accepted, handle, run}

ok_injective : {E A : Type 0} {a b : A} → ◌≡◌ {A = Result E A} (ok a) (ok b) → a ≡ b
ok_injective h = cc

module _ {F VK SK Sig : Type 0} (c : Ed25519 SK VK Sig) (decode : Bytes → Option (Event F))
    (keys : Text → Option VK) where
  -- What is known of an event that was accepted: it is what the signed bytes decode to, and the seal
  -- verifies under the key that is registered for the source that those bytes name.
  pub record Accepted (sealed : Bytes) (event : Event F) : Type 0 where
    pub body : Bytes
    pub key : VK
    pub decoded : decode body ≡ some event
    pub registered : keys event.source_id ≡ some key
    pub verified : verify c sealed key ≡ ok body

  body_of_envelope :
      (prefix body sealed : Bytes)
      → length prefix ≡ 64
      → sealed ≡ prefix ++ body
      → drop (min 64 (length sealed)) sealed ≡ body
  body_of_envelope prefix body sealed l e =
      let n : min 64 (length sealed) ≡ length prefix =
        rw e (omega (arith, length-append prefix body)) in
      rw (n, e) (drop-append prefix body)

  -- An accepted event is what the bytes that the seal covers decode to, and the seal verifies under the
  -- key registered for the source that those bytes name.
  pub accept_sound :
      (sealed : Bytes) (event : Event F)
      → accept c decode keys sealed ≡ ok event
      → Accepted sealed event
  unfolding accept
  accept_sound sealed event h =
      let (ev, e1, h1) =
        bind-eq-ok (ok_or (decode (drop (min 64 (length sealed)) sealed)) undecodable) _ h in
      let (key, e2, h2) =
        bind-eq-ok (ok_or (keys ev.source_id) (unregistered_source ev.source_id)) _ h1 in
      let (body, e3, h3) = bind-eq-ok (map_err bad_seal (verify c sealed key)) _ h2 in
      let v = map_err-eq-ok bad_seal (verify c sealed key) e3 in
      let g = (verify_iff c sealed key body).0 v in
      let same : ev ≡ event = cc h3 in
      record {
        body = body;
        key = key;
        decoded =
            ap decode (sym (body_of_envelope g.prefix body sealed g.prefix_length g.parts))
            ∙ ok_or-eq-ok (decode (drop (min 64 (length sealed)) sealed)) undecodable e1
            ∙ ap some same;
        registered =
            ap (λ (x : Event F). keys x.source_id) (sym same)
            ∙ ok_or-eq-ok (keys ev.source_id) (unregistered_source ev.source_id) e2;
        verified = v;
      }

  module _ (sha256 : Bytes → Bytes) (digest : (b : Bytes) → length (sha256 b) ≡ 32) where
    -- The state of the sink between two messages.
    pub record IsIntact (s : Sink F) : Type 0 where
      pub head : Bytes
      pub audited : audit c sha256 keys s.store ≡ intact (length s.store.rows) head
      pub counted : Counted s.store

    -- One message is counted once, and a row is there for each that was accepted.
    abbrev pub Recorded : ℕ → Sink F → Sink F → Type 0
    Recorded n s s' =
        IsIntact s'
        × (s'.accepted + s'.refused ≡ s.accepted + s.refused + n)
        × (length s'.store.rows + s.accepted ≡ length s.store.rows + s'.accepted)

    record_accepted-Recorded :
        (s : Sink F) (m : Message) (s' : Sink F) (r : Result Refusal (Event F))
        → accept c decode keys m.payload ≡ r
        → IsIntact s
        → record_accepted c sha256 decode keys s m r ≡ ok s'
        → Recorded 1 s s'
    unfolding record_accepted
    record_accepted-Recorded s m s' (err reason) e i h =
        subst (Recorded 1 s) (ok_injective h)
          (record { head = i.head; audited = i.audited; counted = i.counted }, omega arith, refl)
    record_accepted-Recorded s m s' (ok event) e i h =
        let ((st', a), e1, h1) =
          bind-eq-ok (append c sha256 s.store m.payload event m.received_at) _ h in
        let acc = accept_sound m.payload event e in
        let (good, seq, counted) =
          append-audit c sha256 keys digest s.store m.payload event m.received_at
            (length s.store.rows) i.head acc.key acc.body i.counted i.audited acc.registered
            acc.verified e1 in
        let longer =
          ((audit_iff c sha256 keys st' (length s.store.rows + 1) a.record_hash).0 good).1 in
        subst (Recorded 1 s) (ok_injective h1) (
          record {
            head = a.record_hash;
            audited = good ∙ ap (λ (k : ℕ). intact k a.record_hash) longer;
            counted = counted;
          },
          omega arith,
          omega (arith, longer),
        )

    handle-Recorded :
        (s : Sink F) (m : Message) (s' : Sink F)
        → IsIntact s
        → handle c sha256 decode keys s m ≡ ok s'
        → Recorded 1 s s'
    unfolding handle
    handle-Recorded s m s' i h = record_accepted-Recorded s m s' _ refl i h

    run-Recorded :
        (ms : List Message) (s s' : Sink F)
        → IsIntact s
        → run c sha256 decode keys s ms ≡ ok s'
        → Recorded (length ms) s s'
    unfolding run
    run-Recorded [] s s' i h = subst (Recorded 0 s) (ok_injective h) (i, omega arith, refl)
    run-Recorded (m ∷ ms) s s' i h =
        let (t, e, h1) = bind-eq-ok (handle c sha256 decode keys s m) _ h in
        let (j, n, l) = handle-Recorded s m t i e in
        let (k, n', l') = run-Recorded ms t s' j h1 in
        (k, omega (arith, n, n'), omega (arith, l, l'))

    -- From a new store, whatever is published: while the loop runs the store audits intact, each message
    -- is counted once as accepted or refused, and the audit finds as many records as were accepted.
    pub run_audits :
        (ms : List Message) (s' : Sink F)
        → run c sha256 decode keys (record { store = empty_store; accepted = 0; refused = 0 }) ms
          ≡ ok s'
        → (head : Bytes) × (audit c sha256 keys s'.store ≡ intact s'.accepted head)
          × (s'.accepted + s'.refused ≡ length ms)
    run_audits ms s' h =
        let (i, n, l) =
          run-Recorded ms (record { store = empty_store; accepted = 0; refused = 0 }) s' start h in
        (i.head, i.audited ∙ ap (λ (k : ℕ). intact k i.head) (omega (arith, l)), omega (arith, n))
      where
        start : IsIntact (record { store = empty_store; accepted = 0; refused = 0 })
        start = record { head = genesis; audited = unfold audit audit_rows in refl; counted = refl }
