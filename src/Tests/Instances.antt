-- ===== src/Tests/Instances.antt =====
-- Concrete functions for what the code takes from elsewhere: small stand-ins that satisfy the laws which
-- the theorems assume. Floats are whole numbers, a signature repeats its key, a digest has the length of
-- its input in each byte, and an event is decoded from the bytes of its source.
use ajar_connectors.Prelude.{
  ℕ, ◌+◌, ◌*◌, ◌/◌, ◌≡◌, refl, true, Option, none, some, [], ◌∷◌, Text, Bytes, text, length,
  replicate, length-replicate, arith, leb, ◌==◌, text_eq, if◌then◌else◌,
}
use ajar_connectors.Prelude.Int.{ℤ, pos, sub_ℕ, pos_part, neg_part}
use ajar_connectors.Prelude.Float.{Float}
use ajar_connectors.Prelude.Decimal.{decimal}
use ajar_connectors.Sdk.Event.{Event}
use ajar_connectors.Sdk.Seal.{Ed25519, Ed25519Laws}

abbrev add_ℤ : ℤ → ℤ → ℤ
add_ℤ a b = sub_ℕ (pos_part a + pos_part b) (neg_part a + neg_part b)

abbrev mul_ℤ : ℤ → ℤ → ℤ
mul_ℤ a b =
    sub_ℕ (pos_part a * pos_part b + neg_part a * neg_part b)
      (pos_part a * neg_part b + neg_part a * pos_part b)

abbrev div_ℤ : ℤ → ℤ → ℤ
div_ℤ a b = sub_ℕ (pos_part a / pos_part b) (neg_part a / pos_part b)

instance abbrev pub whole : Float ℤ
whole = record {
  is_finite = λ x. true;
  float_leb = λ a b. leb (pos_part a + neg_part b) (pos_part b + neg_part a);
  of_int = λ x. x;
  float_add = add_ℤ;
  float_mul = mul_ℤ;
  float_div = div_ℤ;
  fixed = λ n x. decimal (pos_part x);
}

abbrev read_signature : Bytes → Option ℕ
read_signature [] = none
read_signature (x ∷ xs) = some x

abbrev pub toy : Ed25519 ℕ ℕ ℕ
toy = record {
  sign = λ k m. k;
  verifying_key = λ k. k;
  to_bytes = λ s. s ∷ replicate 63 0;
  from_slice = read_signature;
  verifies = λ k m s. s == k;
}

self_eq : (k : ℕ) → (k == k) ≡ true
self_eq k = ground arith

pub toy_laws : Ed25519Laws toy
toy_laws = record {
  to_bytes_length = λ s. refl;
  from_to_bytes = λ s. refl;
  sign_verifies = λ k m. self_eq k;
}

abbrev pub digest : Bytes → Bytes
digest b = replicate 32 (length b)

pub length-digest : (b : Bytes) → length (digest b) ≡ 32
length-digest b = length-replicate 32 (length b)

-- The event of the source `s`.
abbrev pub event_of : Text → Event ℤ
event_of s = record {
  schema_version = text "v1";
  id = text "7";
  source_id = s;
  entity_type = text "mim:aircraft";
  timestamp = text "2024-01-02T03:04:05Z";
  received_at = [];
  location = none;
  payload = [];
  policy_tags = [];
  confidence = pos 1;
  attributes =
      record { key = text "a"; value = text "1" }
      ∷ record { key = text "b"; value = text "2" }
      ∷ [];
  metadata = [];
}

abbrev pub decode : Bytes → Option (Event ℤ)
decode [] = none
decode (x ∷ xs) = some (event_of (x ∷ xs))

-- One source is registered, `s1`, under the key 5.
unfoldable pub keys : Text → Option ℕ
unfolding text_eq
keys s = if text_eq s (text "s1") then some 5 else none
