-- ===== src/Klv/Measured.antt =====
-- What a BER length that rust/connectors/klv/src/klv.rs (`read_ber_len`) reads stands for.
use ajar_connectors.Prelude.{
  ℕ, zero, suc, ◌+◌, ◌*◌, ◌%◌, ◌^◌, ◌≤◌, ◌<◌, ◌≡◌, refl, sym, ap, ◌∙◌, subst, inl, inr, false,
  Bool-cases, ◌||◌, none, [], ◌∷◌, ◌++◌, Bytes, All, IsByte, length, take, drop, take-append-drop,
  length-take, get_elem?, ltb, ◌==◌, arith, Result, ok, err,
}
use ajar_connectors.Prelude.Endian.{from_be}
use ajar_connectors.Klv.{KlvError, by_form, long_len, read_ber_len}
use ajar_connectors.Klv.Lengths.{
  IsLength, short, long, get_elem?-append, snoc-append, length-snoc, four-HasRoom, long_len-from_be,
}

-- An encoded length at the front of `tail`, and the number of its bytes.
abbrev pub Measures : Bytes → ℕ → ℕ → Type 0
Measures tail n size =
    (enc : Bytes) × (rest : Bytes) × (tail ≡ enc ++ rest) × IsLength enc n × (size ≡ length enc)

get_elem?-end : (before : Bytes) → get_elem? (before ++ []) (length before) ≡ none
get_elem?-end [] = refl
get_elem?-end (x ∷ before) = get_elem?-end before

all_taken : (n : ℕ) (t : Bytes) → ltb (length t) n ≡ false → length (take n t) ≡ n
all_taken n t h = ground (arith, length-take n t)

All-take : (n : ℕ) (bs : Bytes) → All IsByte bs → All IsByte (take n bs)
All-take zero bs h = tt
All-take (suc n) [] h = tt
All-take (suc n) (b ∷ bs) h = (h.0, All-take n bs h.1)

short_enough : (n k : ℕ) → ((n == 0) || ltb 4 n) ≡ false → k ≡ n → (1 ≤ k) × (k ≤ 4)
short_enough n k h e = (ground arith, ground arith)

high_byte : (b k : ℕ) → b < 256 → ltb b 128 ≡ false → k ≡ b % 128 → 128 + k ≡ b
high_byte b k h l e = ground arith

not_ok :
    {F : Type 0} (e : KlvError F) (r : ℕ × ℕ)
    → ◌≡◌ {A = Result (KlvError F) (ℕ × ℕ)} (err e) (ok r)
    → ⊥
not_ok e r h = cc

module _ {F : Type 0} where
  same_ok : (a b : ℕ × ℕ) → ◌≡◌ {A = Result (KlvError F) (ℕ × ℕ)} (ok a) (ok b) → a ≡ b
  same_ok a b h = cc

  long_len-short_of :
      (n acc : ℕ) (before t : Bytes) (r : ℕ × ℕ)
      → length t < n
      → long_len {F = F} n (before ++ t) (length before) acc ≡ ok r
      → ⊥
  unfolding long_len
  long_len-short_of zero acc before t r h e = omega (arith, h)
  long_len-short_of (suc n) acc before [] r h e = not_ok _ r (rw (get_elem?-end before) at e)
  long_len-short_of (suc n) acc before (b ∷ t) r h e =
      long_len-short_of n (acc * 256 % 2 ^ 64 + b) (before ++ (b ∷ [])) t r (omega (arith, h))
        (rw (snoc-append before t b, length-snoc before b) (rw (get_elem?-append before t b) at e))

  -- A long form whose bytes are all there.
  whole-Measures :
      (before bs rest : Bytes) (b : ℕ) (r : ℕ × ℕ)
      → 128 + length bs ≡ b
      → 1 ≤ length bs
      → length bs ≤ 4
      → All IsByte bs
      → long_len {F = F}
          (length bs)
          ((before ++ (b ∷ [])) ++ (bs ++ rest))
          (length (before ++ (b ∷ [])))
          0
        ≡ ok r
      → Measures (b ∷ (bs ++ rest)) r.0 (1 + length bs) × (r.1 ≡ length before + (1 + length bs))
  unfolding from_be
  whole-Measures before bs rest b r first some_byte four all h =
      let read =
        long_len-from_be {F = F} 1 0 (before ++ (b ∷ [])) bs rest (omega arith)
          (four-HasRoom bs four) all in
      let e = same_ok _ r (sym read ∙ h) in
      let value : from_be bs ≡ r.0 = ap (λ (x : ℕ × ℕ). x.0) e in
      (
        (
          b ∷ bs,
          rest,
          refl,
          subst (λ (n : ℕ). IsLength (b ∷ bs) n) value
              (subst (λ (x : ℕ). IsLength (x ∷ bs) (from_be bs)) first
                (long bs some_byte four all)),
          omega arith,
        ),
        omega (arith, ap (λ (x : ℕ × ℕ). x.1) e, length-snoc before b),
      )

  -- The bytes behind the first, which is `b`.
  long-Measures :
      (before t : Bytes) (b : ℕ) (r : ℕ × ℕ)
      → b < 256
      → All IsByte t
      → ltb b 128 ≡ false
      → ((b % 128 == 0) || ltb 4 (b % 128)) ≡ false
      → long_len {F = F} (b % 128) ((before ++ (b ∷ [])) ++ t) (length (before ++ (b ∷ []))) 0
        ≡ ok r
      → (size : ℕ) × Measures (b ∷ t) r.0 size × (r.1 ≡ length before + size)
  long-Measures before t b r small all high form h = elim (Bool-cases (ltb (length t) (b % 128))) [
    | inl cut ↦ absurd (long_len-short_of (b % 128) 0 _ t r (ground arith) h)
    | inr whole ↦
        let bs = take (b % 128) t in
        let all_there = all_taken (b % 128) t whole in
        let bounds = short_enough (b % 128) (length bs) form all_there in
        let (measures, behind) =
          subst
            (λ (x : Bytes).
              Measures (b ∷ x) r.0 (1 + length bs) × (r.1 ≡ length before + (1 + length bs)))
            (take-append-drop (b % 128) t)
            (whole-Measures before bs (drop (b % 128) t) b r
              (high_byte b (length bs) small high all_there) bounds.0 bounds.1
              (All-take (b % 128) t all) (rw (all_there, take-append-drop (b % 128) t) h)) in
        (1 + length bs, measures, behind)
  ]

  form-Measures :
      (before t : Bytes) (b : ℕ) (r : ℕ × ℕ)
      → b < 256
      → All IsByte t
      → by_form {F = F} b ((before ++ (b ∷ [])) ++ t) (length (before ++ (b ∷ []))) ≡ ok r
      → (size : ℕ) × Measures (b ∷ t) r.0 size × (r.1 ≡ length before + size)
  form-Measures before t b r small all h = elim (Bool-cases (ltb b 128)) [
    | inl low ↦
        let e = same_ok (b, length (before ++ (b ∷ []))) r (rw low at h) in
        (
          1,
          (
            b ∷ [],
            t,
            refl,
            subst (λ (n : ℕ). IsLength (b ∷ []) n) (ap (λ (x : ℕ × ℕ). x.0) e)
                (short b (ground arith)),
            refl,
          ),
          omega (arith, ap (λ (x : ℕ × ℕ). x.1) e, length-snoc before b),
        )
    | inr high ↦ elim (Bool-cases ((b % 128 == 0) || ltb 4 (b % 128))) [
      | inl bad ↦ absurd (not_ok _ r (rw (high, bad) at h))
      | inr form ↦ long-Measures before t b r small all high form (rw (high, form) at h)
    ]
  ]

  -- What `read_ber_len` gives is an encoded length, with the position behind it.
  pub read_ber_len-Measures :
      (before tail : Bytes) (r : ℕ × ℕ)
      → All IsByte tail
      → read_ber_len {F = F} (before ++ tail) (length before) ≡ ok r
      → (size : ℕ) × Measures tail r.0 size × (r.1 ≡ length before + size)
  unfolding read_ber_len
  read_ber_len-Measures before [] r all h = absurd (not_ok _ r (rw (get_elem?-end before) at h))
  read_ber_len-Measures before (b ∷ t) r all h =
      form-Measures before t b r all.0 all.1
        (rw (snoc-append before t b, length-snoc before b) (rw (get_elem?-append before t b) at h))
