-- ===== src/Asterix/Loops.antt =====
-- The loops of rust/connectors/asterix/src/asterix.rs over the records of a block and the blocks of a
-- datagram: they end, and leave no byte out.
use ajar_connectors.Prelude.{
  ℕ, zero, suc, ◌+◌, ◌-◌, ◌*◌, ◌≤◌, ◌<◌, ◌≡◌, refl, sym, ap, ◌∙◌, subst, ◌⊎◌, inl, inr, Bool, true,
  false, Bool-cases, ◌||◌, Option, some, List, [], ◌∷◌, ◌++◌, Bytes, length, take, drop,
  take-append-drop, length-drop, length-append, ltb, leb, arith, Result, ok, err, Result-cases,
}
use ajar_connectors.Asterix.{AsterixError, bad_block, block_header, checked_len}
use ajar_connectors.Asterix.Records.{
  Uap, Items, walk_record, cons_ok, block_records, datagram_blocks,
}
use ajar_connectors.Asterix.Tiles.{item_bytes, Covers-part, walk_record_lem}

-- The second parts one after another.
unfoldable pub joined : {A : Type 0} → List (A × Bytes) → Bytes
joined [] = []
joined ((a, bytes) ∷ rest) = bytes ++ joined rest

-- The loop returns: an error, or parts that join to `all`.
abbrev pub Returns :
    {F A : Type 0} → Bytes → Option (Result (AsterixError F) (List (A × Bytes))) → Type 0
Returns {F} {A} all r =
    ((parts : List (A × Bytes)) × (r ≡ some (ok parts)) × (joined parts ≡ all))
    ⊎ ((e : AsterixError F) × (r ≡ some (err e)))

at_end : (a b : ℕ) → leb b a ≡ true → a ≤ b → a ≡ b
at_end a b h k = ground arith

not_end : (a b : ℕ) → leb b a ≡ false → suc a ≤ b
not_end a b h = ground arith

drop-all : (b : Bytes) → drop (length b) b ≡ []
drop-all [] = refl
drop-all (x ∷ b) = drop-all b

module _ {F : Type 0} where
  cons_ok-Returns :
      {A : Type 0} (a : A) (part rest all : Bytes)
      (r : Option (Result (AsterixError F) (List (A × Bytes))))
      → all ≡ part ++ rest
      → Returns rest r
      → Returns all (cons_ok (a, part) r)
  unfolding joined
  cons_ok-Returns a part rest all r e (inl (parts, f, j)) =
      inl ((a, part) ∷ parts, rw f refl, ap (λ (x : Bytes). part ++ x) j ∙ sym e)
  cons_ok-Returns a part rest all r e (inr (error, f)) = inr (error, rw f refl)

  module _ (cat : ℕ) (uap : Uap) (block : Bytes) where
    -- A round of the loop, from the record it walked.
    unfoldable pub walked :
        ℕ
        → ℕ
        → Result (AsterixError F) (Items × ℕ)
        → Option (Result (AsterixError F) (List (Items × Bytes)))
    walked fuel off r = elim r as (λ x. Option (Result (AsterixError F) (List (Items × Bytes)))) [
      | err e ↦ some (err e)
      | ok (items, next) ↦
          cons_ok (items, take (next - off) (drop off block))
            (block_records fuel cat uap block next)
    ]

    pub block_records-end :
        (fuel off : ℕ)
        → leb (length block) off ≡ true
        → block_records {F = F} (suc fuel) cat uap block off ≡ some (ok [])
    unfolding block_records walked
    block_records-end fuel off h =
        ap
          (λ (b : Bool). elim b as (λ x. Option (Result (AsterixError F) (List (Items × Bytes)))) [
            | true ↦ some (ok [])
            | false ↦ walked fuel off (walk_record cat uap block off)
          ])
          h

    pub block_records-step :
        (fuel off : ℕ)
        → leb (length block) off ≡ false
        → block_records {F = F} (suc fuel) cat uap block off
          ≡ walked fuel off (walk_record cat uap block off)
    unfolding block_records walked
    block_records-step fuel off h =
        ap
          (λ (b : Bool). elim b as (λ x. Option (Result (AsterixError F) (List (Items × Bytes)))) [
            | true ↦ some (ok [])
            | false ↦ walked fuel off (walk_record cat uap block off)
          ])
          h

    walked-Returns :
        (fuel off : ℕ) (r : Result (AsterixError F) (Items × ℕ))
        → walk_record cat uap block off ≡ r
        → ((next : ℕ)
            → suc off ≤ next
            → next ≤ length block
            → Returns (drop next block) (block_records {F = F} fuel cat uap block next))
        → Returns (drop off block) (walked fuel off r)
    unfolding walked
    walked-Returns fuel off (err e) h later = inr (e, refl)
    walked-Returns fuel off (ok (items, next)) h later =
        let t = walk_record_lem cat uap block off next items h in
        cons_ok-Returns items (take (next - off) (drop off block)) (drop next block)
          (drop off block) (block_records fuel cat uap block next)
          (t.covers.split
            ∙ ap (λ (x : Bytes). x ++ drop next block)
                (sym (Covers-part block off next _ t.covers)))
          (later next
            (omega (arith, t.covers.size, t.some_octet, length-append t.fspec (item_bytes items)))
            t.covers.within)

    -- The loop over a block's records ends: with as many rounds as bytes it fails at a record, or gives records
    -- whose bytes, one after another, are the block from the offset where it started.
    pub block_records_lem :
        (fuel off : ℕ)
        → off ≤ length block
        → length block < off + fuel
        → Returns (drop off block) (block_records {F = F} fuel cat uap block off)
    block_records_lem zero off start enough = absurd (omega (arith, start, enough))
    block_records_lem (suc fuel) off start enough = elim (Bool-cases (leb (length block) off)) [
      | inl done ↦
          inl (
            [],
            block_records-end fuel off done,
            nothing_left (at_end off (length block) done start),
          )
      | inr more ↦ rw (block_records-step fuel off more) (
          walked-Returns fuel off (walk_record cat uap block off) refl
            (λ next past within. block_records_lem fuel next within (omega (arith, enough, past))))
    ]
      where
        nothing_left : off ≡ length block → joined {A = Items} [] ≡ drop off block
        nothing_left e = unfold joined in sym (ap (λ (k : ℕ). drop k block) e ∙ drop-all block)

  -- A block that is there has three bytes at least, and no more than are left.
  checked_len-bounds :
      (cat len have : ℕ) (r : ℕ × ℕ)
      → checked_len {F = F} cat len have ≡ ok r
      → (3 ≤ r.1) × (r.1 ≤ have)
  checked_len-bounds cat len have r h = elim (Bool-cases (ltb len 3 || ltb have len)) [
    | inl bad ↦ absurd (refused (rw bad at h))
    | inr good ↦
        subst (λ (x : ℕ × ℕ). (3 ≤ x.1) × (x.1 ≤ have)) (same (rw good at h))
          (ground arith, ground arith)
  ]
    where
      refused :
          ◌≡◌ {A = Result (AsterixError F) (ℕ × ℕ)} (err (bad_block (some cat) len have)) (ok r) → ⊥
      refused e = cc

      same : ◌≡◌ {A = Result (AsterixError F) (ℕ × ℕ)} (ok (cat, len)) (ok r) → (cat, len) ≡ r
      same e = cc

  pub block_header-bounds :
      (b : Bytes) (r : ℕ × ℕ) → block_header {F = F} b ≡ ok r → (3 ≤ r.1) × (r.1 ≤ length b)
  unfolding block_header
  block_header-bounds [] r h = cc
  block_header-bounds (x ∷ []) r h = cc
  block_header-bounds (x ∷ y ∷ []) r h = cc
  block_header-bounds (x ∷ y ∷ z ∷ b) r h =
      checked_len-bounds x (y * 256 + z) (length (x ∷ y ∷ z ∷ b)) r h

  abbrev after_header :
      ℕ
      → Bytes
      → Result (AsterixError F) (ℕ × ℕ)
      → Option (Result (AsterixError F) (List (ℕ × Bytes)))
  after_header fuel rest (err e) = some (err e)
  after_header fuel rest (ok (cat, len)) =
      cons_ok (cat, take len rest) (datagram_blocks fuel (drop len rest))

  datagram_blocks-step :
      (fuel x : ℕ) (rest : Bytes) (r : Result (AsterixError F) (ℕ × ℕ))
      → block_header (x ∷ rest) ≡ r
      → datagram_blocks (suc fuel) (x ∷ rest) ≡ after_header fuel (x ∷ rest) r
  unfolding datagram_blocks
  datagram_blocks-step fuel x rest (err e) h =
      ap
        (λ (r : Result (AsterixError F) (ℕ × ℕ)).
          elim r as (λ y. Option (Result (AsterixError F) (List (ℕ × Bytes)))) [
            | err e ↦ some (err e)
            | ok (cat, len) ↦
                cons_ok (cat, take len (x ∷ rest)) (datagram_blocks fuel (drop len (x ∷ rest)))
          ])
        h
  datagram_blocks-step fuel x rest (ok (cat, len)) h =
      ap
        (λ (r : Result (AsterixError F) (ℕ × ℕ)).
          elim r as (λ y. Option (Result (AsterixError F) (List (ℕ × Bytes)))) [
            | err e ↦ some (err e)
            | ok (cat, len) ↦
                cons_ok (cat, take len (x ∷ rest)) (datagram_blocks fuel (drop len (x ∷ rest)))
          ])
        h

  datagram_blocks-empty : (fuel : ℕ) → datagram_blocks {F = F} (suc fuel) [] ≡ some (ok [])
  unfolding datagram_blocks
  datagram_blocks-empty fuel = refl

  -- The loop over a datagram's blocks ends, with more rounds than bytes: it fails at a block, or gives blocks
  -- that are the datagram, one after another.
  pub datagram_blocks_lem :
      (fuel : ℕ) (b : Bytes) → length b < fuel → Returns b (datagram_blocks {F = F} fuel b)
  datagram_blocks_lem zero b enough = absurd (omega (arith, enough))
  datagram_blocks_lem (suc fuel) [] enough =
      inl ([], datagram_blocks-empty fuel, unfold joined in refl)
  datagram_blocks_lem (suc fuel) (x ∷ rest) enough =
      elim (Result-cases (block_header {F = F} (x ∷ rest))) [
        | inl ((cat, len), h) ↦
            let bounds = block_header-bounds (x ∷ rest) (cat, len) h in
            rw (datagram_blocks-step fuel x rest (ok (cat, len)) h) (
              cons_ok-Returns cat (take len (x ∷ rest)) (drop len (x ∷ rest)) (x ∷ rest)
                (datagram_blocks fuel (drop len (x ∷ rest))) (sym (take-append-drop len (x ∷ rest)))
                (datagram_blocks_lem fuel (drop len (x ∷ rest))
                  (omega (arith, enough, bounds.0, bounds.1, length-drop len (x ∷ rest)))))
        | inr (e, h) ↦ inr (e, datagram_blocks-step fuel x rest (err e) h)
      ]
