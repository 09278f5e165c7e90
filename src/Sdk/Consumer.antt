-- ===== src/Sdk/Consumer.antt =====
-- The consume side (rust/ajar-connector/src/consumer.rs): the filter behind `verified_events`. The
-- subscription is the list of messages that it yields; `Event::decode` is prost's, and an argument.
pub mod Stream
use ajar_connectors.Prelude.{
  ℕ, ◌+◌, ◌%◌, ◌^◌, ◌≡◌, Bool, true, false, ◌&&◌, ◌||◌, Option, none, some, List, [], ◌∷◌, Text,
  Bytes, text, text_eq, Result, ok, err, if◌then◌else◌,
}
use ajar_connectors.Sdk.Event.{Attribute, Event}
use ajar_connectors.Sdk.Seal.{Ed25519, SealError, verify}

pub record Delivery (F : Type 0) : Type 0 where
  pub event : Event F
  pub payload : Bytes
  pub subject : Text

pub record Guards : Type 0 where
  pub skip_source_ids : List Text
  pub skip_derived : Bool

-- `AtomicU64` counters
pub record Stats : Type 0 where
  pub accepted : ℕ
  pub rejected : ℕ
  pub skipped : ℕ

pub record Message : Type 0 where
  pub payload : Bytes
  pub subject : Text

-- `fetch_add(1)` wraps
abbrev pub fetch_add_one : ℕ → ℕ
fetch_add_one n = (n + 1) % 2 ^ 64

unfoldable pub mem_text : Text → List Text → Bool
mem_text t [] = false
mem_text t (x ∷ xs) = text_eq x t || mem_text t xs

-- `attributes.iter().any(|a| a.key == "model")`
unfoldable pub has_model : List Attribute → Bool
has_model [] = false
has_model (a ∷ as') = text_eq a.key (text "model") || has_model as'

unfoldable pub guarded : {F : Type 0} → Guards → Event F → Bool
guarded g e = mem_text e.source_id g.skip_source_ids || (g.skip_derived && has_model e.attributes)

abbrev pub keep : {A : Type 0} → Option A → List A → List A
keep none ds = ds
keep (some d) ds = d ∷ ds

module _ {F SK VK Sig : Type 0} (c : Ed25519 SK VK Sig) (decode : Bytes → Option (Event F))
    (key : VK) (guards : Guards) where
  -- the part behind the seal
  unfoldable pub handle_canonical : Message → Stats → Option (Event F) → Option (Delivery F) × Stats
  handle_canonical msg s none = (none, record s { rejected = fetch_add_one s.rejected })
  handle_canonical msg s (some e) =
      if guarded guards e then (none, record s { skipped = fetch_add_one s.skipped }) else (
        some (record { event = e; payload = e.payload; subject = msg.subject }),
        record s { accepted = fetch_add_one s.accepted },
      )

  abbrev after_seal : Message → Stats → Result SealError Bytes → Option (Delivery F) × Stats
  after_seal msg s (err e) = (none, record s { rejected = fetch_add_one s.rejected })
  after_seal msg s (ok canonical) = handle_canonical msg s (decode canonical)

  unfoldable pub process : Message → Stats → Option (Delivery F) × Stats
  process msg s = after_seal msg s (verify c msg.payload key)

  -- The stream and the counters after these messages.
  unfoldable pub verified_events : List Message → Stats → List (Delivery F) × Stats
  verified_events [] s = ([], s)
  verified_events (m ∷ ms) s =
      let (out, s') = process m s in let (rest, s'') = verified_events ms s' in (keep out rest, s'')
