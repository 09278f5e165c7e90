-- ===== src/Sdk/Seal/Envelope.antt =====
-- What the envelope guarantees.
use ajar_connectors.Prelude.{
  ℕ, ◌≤◌, ◌<◌, ◌≡◌, sym, ap, ◌∙◌, true, false, some, ◌++◌, Bytes, length, take, drop, ltb, ok, err,
  length-append, arith, take-append, drop-append, take-append-drop, length-take, Option-cases, inl,
  inr, lt→ltb, subst,
}
use ajar_connectors.Sdk.Seal.{Ed25519, Ed25519Laws, truncated, seal, verify_parts, verify}

module _ {SK VK Sig : Type 0} (c : Ed25519 SK VK Sig) where
  cut_at :
      (p m : Bytes)
      → length p ≡ 64
      → (take 64 (p ++ m) ≡ p) × (drop 64 (p ++ m) ≡ m) × (ltb (length (p ++ m)) 64 ≡ false)
  cut_at p m e = (
    ap (λ (n : ℕ). take n (p ++ m)) (sym e) ∙ take-append p m,
    ap (λ (n : ℕ). drop n (p ++ m)) (sym e) ∙ drop-append p m,
    ground (arith, length-append p m),
  )

  -- What one key sealed verifies under its public key, and gives the sealed bytes back.
  pub verify-seal :
      (laws : Ed25519Laws c) (m : Bytes) (k : SK) → verify c (seal c m k) (c.verifying_key k) ≡ ok m
  unfolding verify seal
  verify-seal laws m k =
      let s = c.sign k m in
      let (front, back, long) = cut_at (c.to_bytes s) m (laws.to_bytes_length s) in
      rw (long, front, back, laws.from_to_bytes s, laws.sign_verifies k m)

  -- `m` is the body of the envelope, and the 64 bytes before it are a signature of it under `k`.
  pub record Genuine (sealed : Bytes) (k : VK) (m : Bytes) : Type 0 where
    pub prefix : Bytes
    pub prefix_length : length prefix ≡ 64
    pub parts : sealed ≡ prefix ++ m
    pub signature : Sig
    pub decoded : c.from_slice prefix ≡ some signature
    pub verified : c.verifies k m signature ≡ true

  verify_parts_ok :
      (len : ℕ) (prefix canonical m : Bytes) (k : VK)
      → verify_parts c len prefix canonical k ≡ ok m
      → (64 ≤ len)
        × (canonical ≡ m)
        × ((s : Sig) × (c.from_slice prefix ≡ some s) × (c.verifies k canonical s ≡ true))
  verify_parts_ok len prefix canonical m k h = elim (Option-cases (c.from_slice prefix)) [
    | inl n ↦ absurd (ground arith)
    | inr (s, e) ↦ (ground arith, ground arith, (s, e, ground arith))
  ]

  verify_sound :
      (sealed : Bytes) (k : VK) (m : Bytes) → verify c sealed k ≡ ok m → Genuine sealed k m
  unfolding verify
  verify_sound sealed k m h =
      let (long, body, (s, e, v)) = verify_parts_ok _ _ _ _ _ h in
      record {
        prefix = take 64 sealed;
        prefix_length = omega (arith, length-take 64 sealed);
        parts = sym (take-append-drop 64 sealed) ∙ ap (λ (b : Bytes). take 64 sealed ++ b) body;
        signature = s;
        decoded = e;
        verified = subst (λ (b : Bytes). c.verifies k b s ≡ true) body v;
      }

  verify_complete :
      (sealed : Bytes) (k : VK) (m : Bytes) → Genuine sealed k m → verify c sealed k ≡ ok m
  unfolding verify
  verify_complete sealed k m g =
      let (front, back, long) = cut_at g.prefix m g.prefix_length in
      rw (g.parts, long, front, back, g.decoded, g.verified)

  -- `verify` returns `m` exactly when the envelope is a 64-byte signature of `m` under the key, in front
  -- of `m`.
  pub verify_iff :
      (sealed : Bytes) (k : VK) (m : Bytes)
      → (verify c sealed k ≡ ok m → Genuine sealed k m)
        × (Genuine sealed k m → verify c sealed k ≡ ok m)
  verify_iff sealed k m = (verify_sound sealed k m, verify_complete sealed k m)

  -- An envelope shorter than a signature is refused as truncated, with its length.
  pub verify_short :
      (sealed : Bytes) (k : VK)
      → length sealed < 64
      → verify c sealed k ≡ err (truncated (length sealed))
  unfolding verify
  verify_short sealed k h = rw (lt→ltb _ _ h)
