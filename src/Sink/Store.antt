-- ===== src/Sink/Store.antt =====
-- The append-only store of rust/connectors/sink/src/store.rs. The SQLite table `record` is the list of its
-- rows in the order of `seq`, beside the last number that AUTOINCREMENT gave. SHA-256 is an argument, and so
-- is prost's `Event::decode`; `keys` is the map from sources to their keys.
pub mod Chain
pub mod Tamper
use ajar_connectors.Prelude.{
  ℕ, suc, min, ◌+◌, ◌≡◌, Bool, true, false, not, Option, none, some, List, [], ◌∷◌, ◌++◌, Text,
  Bytes, text_eq, length, drop, replicate, is_ok, ◌==◌, Result, ok, err, ◌>>=◌, ◌>>◌, reject_if,
  ok_or, map_err, if◌then◌else◌,
}
use ajar_connectors.Sdk.Event.{GeoPoint, Event}
use ajar_connectors.Sdk.Seal.{Ed25519, SealError, verify, seal_signature_len}

abbrev pub genesis : Bytes
genesis = replicate 32 0

pub record Row (F : Type 0) : Type 0 where
  pub seq : ℕ
  pub received_at : Text
  pub source_id : Text
  pub event_id : Text
  pub entity_type : Text
  pub timestamp : Text
  pub location : Option (GeoPoint F)
  pub sealed : Bytes
  pub prev_hash : Bytes
  pub record_hash : Bytes

pub record Store (F : Type 0) : Type 0 where
  pub rows : List (Row F)
  pub last_seq : ℕ

pub record Appended : Type 0 where
  pub seq : ℕ
  pub record_hash : Bytes

-- Why an audit broke, for the texts of `reason`.
pub data Reason : Type 0 where
  missing_record : (expected next : ℕ) → Reason
  previous_hash record_hash : Reason
  no_key signature : (source : Text) → Reason

pub data Audit : Type 0 where
  intact : (records : ℕ) (head : Bytes) → Audit
  broken : (seq : ℕ) (reason : Reason) → Audit

pub data Refusal : Type 0 where
  undecodable : Refusal
  unregistered_source : Text → Refusal
  bad_seal : SealError → Refusal

-- `bad_hash` is a stored hash that does not have 32 bytes, `not_unique` the index on `record_hash`.
pub data StoreError : Type 0 where
  bad_hash : (len : ℕ) → StoreError
  not_unique : StoreError

abbrev pub hash_or_genesis : Option Bytes → Result StoreError Bytes
hash_or_genesis none = ok genesis
hash_or_genesis (some bytes) =
    if length bytes == 32 then ok bytes else err (bad_hash (length bytes))

module _ {F : Type 0} where
  -- CREATE TABLE IF NOT EXISTS on a new file
  abbrev pub empty_store : Store F
  empty_store = record { rows = []; last_seq = 0 }

  unfoldable pub last_hash : List (Row F) → Option Bytes
  last_hash [] = none
  last_hash (r ∷ []) = some r.record_hash
  last_hash (r ∷ s ∷ rs) = last_hash (s ∷ rs)

  unfoldable pub head : Store F → Result StoreError Bytes
  unfolding last_hash
  head st = hash_or_genesis (last_hash st.rows)

  unfoldable pub count : Store F → ℕ
  count st = length st.rows

  -- The unique index on `record_hash`.
  unfoldable pub has_hash : Bytes → List (Row F) → Bool
  has_hash h [] = false
  has_hash h (r ∷ rs) = if text_eq r.record_hash h then true else has_hash h rs

unfoldable pub link : (Bytes → Bytes) → Bytes → Bytes → Bytes
link sha256 prev sealed = sha256 (prev ++ sealed)

module _ {F VK SK Sig : Type 0} (c : Ed25519 SK VK Sig) (sha256 : Bytes → Bytes) where
  -- the values of the INSERT
  abbrev pub new_row : Store F → Bytes → Event F → Text → Bytes → Row F
  new_row st sealed event received_at prev = record {
    seq = st.last_seq + 1;
    received_at = received_at;
    source_id = event.source_id;
    event_id = event.id;
    entity_type = event.entity_type;
    timestamp = event.timestamp;
    location = event.location;
    sealed = sealed;
    prev_hash = prev;
    record_hash = link sha256 prev sealed;
  }

  unfoldable pub append : Store F → Bytes → Event F → Text → Result StoreError (Store F × Appended)
  append st sealed event received_at = do
    prev ← head st
    let row : Row F = new_row st sealed event received_at prev
    reject_if (has_hash row.record_hash st.rows) not_unique
    ok (
      record { rows = st.rows ++ row ∷ []; last_seq = row.seq },
      record { seq = row.seq; record_hash = row.record_hash },
    )

  -- one row of `audit`'s loop: `none` to go on
  abbrev pub check_key : ℕ → Row F → Option VK → Option Audit
  check_key seq r none = some (broken seq (no_key r.source_id))
  check_key seq r (some key) =
      if is_ok (verify c r.sealed key) then none else some (broken seq (signature r.source_id))

  unfoldable pub check_row : (Text → Option VK) → Bytes → ℕ → Row F → Option Audit
  check_row keys expected_prev expected_seq r =
      if not (r.seq == expected_seq)
      then some (broken expected_seq (missing_record expected_seq r.seq))
      else if not (text_eq r.prev_hash expected_prev)
      then some (broken r.seq previous_hash)
      else if not (text_eq r.record_hash (link sha256 expected_prev r.sealed))
      then some (broken r.seq Reason.record_hash)
      else check_key r.seq r (keys r.source_id)

  unfoldable pub audit_rows : (Text → Option VK) → List (Row F) → Bytes → ℕ → ℕ → Audit
  audit_rows keys [] expected_prev expected_seq records = intact records expected_prev
  audit_rows keys (r ∷ rs) expected_prev expected_seq records =
      let rest =
        audit_rows keys rs (link sha256 expected_prev r.sealed) (expected_seq + 1) (records + 1) in
      elim (check_row keys expected_prev expected_seq r) [ none ↦ rest | some broke ↦ broke ]

  unfoldable pub audit : (Text → Option VK) → Store F → Audit
  audit keys st = audit_rows keys st.rows genesis 1 0

module _ {F VK SK Sig : Type 0} (c : Ed25519 SK VK Sig) where
  -- The source is read from the signed bytes.
  unfoldable pub accept :
      (Bytes → Option (Event F)) → (Text → Option VK) → Bytes → Result Refusal (Event F)
  accept decode keys sealed = do
    event ← ok_or (decode (drop (min seal_signature_len (length sealed)) sealed)) undecodable
    key ← ok_or (keys event.source_id) (unregistered_source event.source_id)
    canonical ← map_err bad_seal (verify c sealed key)
    ok event
