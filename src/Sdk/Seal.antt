-- ===== src/Sdk/Seal.antt =====
-- The seal envelope (rust/ajar-connector/src/seal.rs). Ed25519 comes from a library, and is an interface
-- here: `Ed25519` has its operations and `Ed25519Laws` what the code relies on.
pub mod Envelope
use ajar_connectors.Prelude.{
  ℕ, ◌<◌, ◌≡◌, Bool, true, false, Option, none, some, List, ◌++◌, Bytes, length, take, drop, ltb,
  Result, ok, err, ◌>>=◌, ◌>>◌, reject_if, ok_or, not, if◌then◌else◌,
}

abbrev pub seal_signature_len : ℕ
seal_signature_len = 64

pub record Ed25519 (SigningKey VerifyingKey Signature : Type 0) : Type 0 where
  pub sign : SigningKey → Bytes → Signature
  pub verifying_key : SigningKey → VerifyingKey
  pub to_bytes : Signature → Bytes
  pub from_slice : Bytes → Option Signature
  pub verifies : VerifyingKey → Bytes → Signature → Bool

-- A signature has 64 bytes, is read back from them, and verifies under its own key.
pub record Ed25519Laws {SK VK Sig : Type 0} (c : Ed25519 SK VK Sig) : Type 0 where
  pub to_bytes_length : (s : Sig) → length (c.to_bytes s) ≡ 64
  pub from_to_bytes : (s : Sig) → c.from_slice (c.to_bytes s) ≡ some s
  pub sign_verifies : (k : SK) (m : Bytes) → c.verifies (c.verifying_key k) m (c.sign k m) ≡ true

pub data SealError : Type 0 where
  truncated : (len : ℕ) → SealError
  malformed_signature unverified : SealError

module _ {SK VK Sig : Type 0} (c : Ed25519 SK VK Sig) where
  unfoldable pub seal : Bytes → SK → Bytes
  seal canonical k = c.to_bytes (c.sign k canonical) ++ canonical

  -- `verify` on the length, the prefix and the rest of the envelope
  abbrev pub verify_parts : ℕ → Bytes → Bytes → VK → Result SealError Bytes
  verify_parts len prefix canonical k = do
    reject_if (ltb len seal_signature_len) (truncated len)
    signature ← ok_or (c.from_slice prefix) malformed_signature
    reject_if (not (c.verifies k canonical signature)) unverified
    ok canonical

  unfoldable pub verify : Bytes → VK → Result SealError Bytes
  verify sealed k =
      verify_parts (length sealed) (take seal_signature_len sealed) (drop seal_signature_len sealed)
        k
