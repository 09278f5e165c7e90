-- ===== src/Sink/Run.antt =====
-- The recording loop of rust/connectors/sink/src/main.rs: each message of the subscription is accepted and
-- appended, or refused. An error of the store ends the loop. The clock's texts come with the messages.
pub mod Intact
use ajar_connectors.Prelude.{
  ℕ, ◌+◌, ◌%◌, ◌^◌, Option, List, [], ◌∷◌, Text, Bytes, Result, ok, err, ◌>>=◌,
}
use ajar_connectors.Sdk.Event.{Event}
use ajar_connectors.Sdk.Seal.{Ed25519}
use ajar_connectors.Sink.Store.{Store, StoreError, Refusal, append, accept}

pub record Message : Type 0 where
  pub payload : Bytes
  pub received_at : Text

pub record Sink (F : Type 0) : Type 0 where
  pub store : Store F
  pub accepted : ℕ
  pub refused : ℕ

module _ {F VK SK Sig : Type 0} (c : Ed25519 SK VK Sig) (sha256 : Bytes → Bytes)
    (decode : Bytes → Option (Event F)) (keys : Text → Option VK) where
  -- the arms of `match store::accept(..)`; the counters are not bounded by the code
  unfoldable pub record_accepted :
      Sink F → Message → Result Refusal (Event F) → Result StoreError (Sink F)
  record_accepted s m (err reason) = ok (record s { refused = s.refused + 1 })
  record_accepted s m (ok event) = do
    (store, appended) ← append c sha256 s.store m.payload event m.received_at
    ok (record s { store = store; accepted = s.accepted + 1 })

  unfoldable pub handle : Sink F → Message → Result StoreError (Sink F)
  handle s m = record_accepted s m (accept c decode keys m.payload)

  unfoldable pub run : Sink F → List Message → Result StoreError (Sink F)
  run s [] = ok s
  run s (m ∷ ms) = do s' ← handle s m; run s' ms
