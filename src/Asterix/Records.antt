-- ===== src/Asterix/Records.antt =====
-- The record walk of rust/connectors/asterix/src/asterix/field.rs, and the loops over the records of a block
-- and the blocks of a datagram in rust/connectors/asterix/src/asterix.rs.
use ajar_connectors.Prelude.{
  ℕ, zero, suc, ◌+◌, ◌-◌, Bool, true, false, Option, none, some, List, [], ◌∷◌, Bytes, length, take,
  drop, get_elem?, min, ltb, leb, Result, ok, err, ◌>>=◌, ok_or, if◌then◌else◌,
}
use ajar_connectors.Asterix.{
  Item, Field, fixed, extended, repetitive, explicit, spare, opaque, compound, AsterixError,
  truncated, unsupported_item, bits_from, octets, field_len, block_header,
}

abbrev pub Uap : Type 0
Uap = List (Item × Field)

abbrev pub Items : Type 0
Items = List (Item × Bytes)

-- The numbers of the set bits, from `frn` on; an `u8` that stays at 255.
unfoldable pub present_from : ℕ → List Bool → List ℕ
present_from frn [] = []
present_from frn (b ∷ bs) =
    let rest = present_from (min 255 (frn + 1)) bs in if b then frn ∷ rest else rest

module _ {F : Type 0} where
  -- Why an item was not measured.
  abbrev pub unmeasured : ℕ → ℕ → Field → AsterixError F
  unmeasured cat frn opaque = unsupported_item cat frn
  unmeasured cat frn (compound subs) = unsupported_item cat frn
  unmeasured cat frn (fixed n) = truncated
  unmeasured cat frn (extended n) = truncated
  unmeasured cat frn (repetitive n) = truncated
  unmeasured cat frn explicit = truncated
  unmeasured cat frn spare = truncated

  -- The bytes of an item of this length at `off`, and the offset behind it.
  unfoldable pub cut : Bytes → ℕ → ℕ → Result (AsterixError F) (Bytes × ℕ)
  cut b off len =
      if ltb (length b) (off + len) then err truncated else ok (take len (drop off b), off + len)

  unfoldable pub walk_item :
      ℕ → ℕ → Item × Field → Bytes → ℕ → Result (AsterixError F) ((Item × Bytes) × ℕ)
  walk_item cat frn (item, field) b off = do
    len ← ok_or (field_len field b off) (unmeasured cat frn field)
    (bytes, end) ← cut b off len
    ok ((item, bytes), end)

  -- The loop over the present numbers.
  unfoldable pub walk_items : ℕ → Uap → Bytes → List ℕ → ℕ → Result (AsterixError F) (Items × ℕ)
  walk_items cat uap b [] off = ok ([], off)
  walk_items cat uap b (frn ∷ frns) off = do
    entry ← ok_or (get_elem? uap (frn - 1)) (unsupported_item cat frn)
    (item, end) ← walk_item cat frn entry b off
    (items, next) ← walk_items cat uap b frns end
    ok (item ∷ items, next)

  unfoldable pub walk_record : ℕ → Uap → Bytes → ℕ → Result (AsterixError F) (Items × ℕ)
  walk_record cat uap b off = do
    bits ← ok_or (bits_from (drop off b)) truncated
    walk_items cat uap b (present_from 1 bits) (off + octets bits)

  abbrev pub cons_ok :
      {A : Type 0}
      → A
      → Option (Result (AsterixError F) (List A))
      → Option (Result (AsterixError F) (List A))
  cons_ok a none = none
  cons_ok a (some (err e)) = some (err e)
  cons_ok a (some (ok as')) = some (ok (a ∷ as'))

  -- The walk of the loop over the records of a block, each with its bytes; what the loop makes of a record is
  -- not in it. `none` is out of fuel.
  unfoldable pub block_records :
      ℕ → ℕ → Uap → Bytes → ℕ → Option (Result (AsterixError F) (List (Items × Bytes)))
  block_records zero cat uap block off = none
  block_records (suc fuel) cat uap block off = elim (leb (length block) off) [
    | true ↦ some (ok [])
    | false ↦ elim (walk_record cat uap block off) [
      | err e ↦ some (err e)
      | ok (items, next) ↦
          cons_ok (items, take (next - off) (drop off block))
            (block_records fuel cat uap block next)
    ]
  ]

  -- The cuts of the loop over a datagram's blocks, each with its category; what the loop makes of a block is
  -- not in it.
  unfoldable pub datagram_blocks : ℕ → Bytes → Option (Result (AsterixError F) (List (ℕ × Bytes)))
  datagram_blocks zero rest = none
  datagram_blocks (suc fuel) [] = some (ok [])
  datagram_blocks (suc fuel) (x ∷ rest) = elim (block_header (x ∷ rest)) [
    | err e ↦ some (err e)
    | ok (cat, len) ↦
        cons_ok (cat, take len (x ∷ rest)) (datagram_blocks fuel (drop len (x ∷ rest)))
  ]
