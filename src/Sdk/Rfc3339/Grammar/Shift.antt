-- ===== src/Sdk/Rfc3339/Grammar/Shift.antt =====
-- The checks of `is_rfc3339` behind a prefix read only what follows it.
use ajar_connectors.Prelude.{
  ℕ, zero, suc, ◌+◌, ◌≡◌, refl, ap, ◌∙◌, Option, none, some, [], ◌∷◌, ◌++◌, arith, Bytes, get_elem?,
  drop, length, length-append, ◌==◌,
}
use ajar_connectors.Sdk.Rfc3339.{byte_at, num, digits, zone_at, zone_byte}

module _ (p z : Bytes) where
  get_elem?_shift : (k : ℕ) → get_elem? (p ++ z) (length p + k) ≡ get_elem? z k
  get_elem?_shift k = go p
    where
      go : (p : Bytes) → get_elem? (p ++ z) (length p + k) ≡ get_elem? z k
      go [] = ap (get_elem? z) (omega arith)
      go (x ∷ p) =
          ap (get_elem? (x ∷ (p ++ z)))
            (let e : suc (length p) + k ≡ suc (length p + k) = omega arith in e)
          ∙ go p

  drop_shift : (k : ℕ) → drop (length p + k) (p ++ z) ≡ drop k z
  drop_shift k = go p
    where
      go : (p : Bytes) → drop (length p + k) (p ++ z) ≡ drop k z
      go [] = ap (λ (n : ℕ). drop n z) (omega arith)
      go (x ∷ p) =
          ap (λ (n : ℕ). drop n (x ∷ (p ++ z)))
            (let e : suc (length p) + k ≡ suc (length p + k) = omega arith in e)
          ∙ go p

  byte_at_shift : (k ch : ℕ) → byte_at (p ++ z) (length p + k) ch ≡ byte_at z k ch
  unfolding byte_at
  byte_at_shift k ch = rw (get_elem?_shift k)

  num_shift : (k n : ℕ) → num (p ++ z) (length p + k) n ≡ num z k n
  unfolding num
  num_shift k n = rw (drop_shift k)

  digits_shift : (k n : ℕ) → digits (p ++ z) (length p + k) n ≡ digits z k n
  unfolding digits
  digits_shift k zero = refl
  digits_shift k (suc n) =
      let e : length p + k + n ≡ length p + (k + n) = omega arith in
      rw (e, get_elem?_shift (k + n), digits_shift k n)

  length_shift : (k : ℕ) → (length p + k == length (p ++ z)) ≡ (k == length z)
  length_shift k = ground (arith, length-append p z)

  zone_byte_shift : (o : Option ℕ) → zone_byte (p ++ z) (length p) o ≡ zone_byte z 0 o
  zone_byte_shift none = refl
  zone_byte_shift (some x) = rw (
    digits_shift 1 2,
    byte_at_shift 3,
    digits_shift 4 2,
    num_shift 1 2,
    num_shift 4 2,
    length_shift 1,
    length_shift 6,
  )

  -- The zone check behind a prefix.
  pub zone_at_shift : zone_at (p ++ z) (some (length p)) ≡ zone_at z (some 0)
  zone_at_shift =
      let e : length p ≡ length p + 0 = omega arith in
      ap (zone_byte (p ++ z) (length p)) (ap (get_elem? (p ++ z)) e ∙ get_elem?_shift 0)
      ∙ zone_byte_shift (get_elem? z 0)
