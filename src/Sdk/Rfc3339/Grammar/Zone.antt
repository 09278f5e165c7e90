-- ===== src/Sdk/Rfc3339/Grammar/Zone.antt =====
-- The zones of a date-time, and the check of a zone that stands alone.
use ajar_connectors.Prelude.{
  ℕ, ◌+◌, ◌-◌, ◌*◌, ◌/◌, ◌%◌, ◌≤◌, ◌≡◌, ◌⊎◌, inl, inr, refl, sym, ap, true, false, some, [], ◌∷◌,
  arith, Bytes, length,
}
use mathlib.Core.Path.{subst}
use ajar_connectors.Sdk.Rfc3339.{is_digit, digits, byte_at, num, zone_at, digit_run}

-- Two decimal digits of `n`, then the rest.
abbrev pub two : ℕ → Bytes → Bytes
two n rest = (b'0' + n / 10) ∷ (b'0' + n % 10) ∷ rest

-- `Z`, or a sign with hours and minutes.
pub data ZoneOf (z : Bytes) : Type 0 where
  zulu : (c : ℕ) → (c ≡ b'Z') ⊎ (c ≡ b'z') → z ≡ c ∷ [] → ZoneOf z
  offset :
      (sign hours minutes : ℕ)
      → (sign ≡ b'+') ⊎ (sign ≡ b'-')
      → hours ≤ 23
      → minutes ≤ 59
      → z ≡ sign ∷ two hours (b':' ∷ two minutes [])
      → ZoneOf z

pub zone_complete : (z : Bytes) → ZoneOf z → zone_at z (some 0) ≡ true
zone_complete z (zulu c h e) = rw e (ground arith)
zone_complete z (offset sign hours minutes h hh hm e) =
    rw e (unfold digits byte_at num is_digit in ground arith)

digit_pair :
    (a b : ℕ) → 48 ≤ a → a ≤ 57 → 48 ≤ b → b ≤ 57 → a ∷ b ∷ [] ≡ two ((a - 48) * 10 + (b - 48)) []
digit_pair a b h1 h2 h3 h4 = ground arith

offset_sound :
    (c a b d e f : ℕ)
    → zone_at (c ∷ a ∷ b ∷ d ∷ e ∷ f ∷ []) (some 0) ≡ true
    → ZoneOf (c ∷ a ∷ b ∷ d ∷ e ∷ f ∷ [])
unfolding digits byte_at num is_digit
offset_sound c a b d e f h =
    offset c ((a - 48) * 10 + (b - 48)) ((e - 48) * 10 + (f - 48)) (ground arith) (ground arith)
      (ground arith) (ground arith)

five_bytes : (r : Bytes) → length r ≡ 5 → (a b d e f : ℕ) × (r ≡ a ∷ b ∷ d ∷ e ∷ f ∷ [])
five_bytes (a ∷ b ∷ d ∷ e ∷ f ∷ []) h = (a, b, d, e, f, refl)
five_bytes r h = absurd (omega arith)

-- A zone is one letter, or has six bytes.
zone_length :
    (c : ℕ) (r : Bytes)
    → zone_at (c ∷ r) (some 0) ≡ true
    → (((c ≡ b'Z') ⊎ (c ≡ b'z')) × (length r ≡ 0)) ⊎ (length r ≡ 5)
zone_length c r h = ground arith

pub zone_sound : (z : Bytes) → zone_at z (some 0) ≡ true → ZoneOf z
zone_sound [] h = cc
zone_sound (c ∷ []) h = elim (zone_length c [] h) [
  | inl l ↦ zulu c l.0 refl
  | inr l ↦ absurd (omega arith)
]
zone_sound (c ∷ x ∷ r) h = elim (zone_length c (x ∷ r) h) [
  | inl l ↦ absurd (omega arith)
  | inr l ↦
      let (a, b, d, e, f, q) = five_bytes (x ∷ r) l in
      subst (λ (w : Bytes). zone_at w (some 0) ≡ true → ZoneOf w) (ap (◌∷◌ c) (sym q))
        (offset_sound c a b d e f) h
]

-- A zone is not empty, and begins with no digit and no point.
pub zone_head :
    (z : Bytes) → ZoneOf z → (digit_run z ≡ 0) × (byte_at z 0 b'.' ≡ false) × (1 ≤ length z)
unfolding digit_run byte_at is_digit
zone_head z (zulu c l e) = rw e (ground arith)
zone_head z (offset sign h m l hh hm e) = rw e (ground arith)
