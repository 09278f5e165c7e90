-- ===== src/Common/Spool/Codec.antt =====
-- The record of rust/connectors/common/src/spool.rs written and read back, and the recovery of a segment.
use ajar_connectors.Prelude.{
  ℕ, zero, suc, ◌+◌, ◌^◌, ◌≤◌, ◌<◌, ◌≡◌, refl, sym, ap, ◌∙◌, ◌≢◌, ◌⊎◌, inl, inr, true, false,
  Bool-cases, Option, none, some, List, [], ◌∷◌, ◌++◌, append_assoc, append-nil, Bytes, length,
  take, drop, All, length-append, length-drop, take-append, drop-append, ltb, leb, lt→ltb, arith,
  if◌then◌else◌,
}
use ajar_connectors.Prelude.Endian.{be_u32, from_be-be_u32}
use ajar_connectors.Prelude.Utf8.{is_utf8}
use ajar_connectors.Common.Spool.{
  Record, encode, read_rest, read_record, whole_records, truncate_torn_tail, read_body,
}

-- A record that `append` can frame: its identifier is a string and both lengths fit 32 bits.
pub record Framed (r : Record) : Type 0 where
  pub id_utf8 : is_utf8 r.event_id ≡ true
  pub id_fits : length r.event_id < 2 ^ 32
  pub payload_fits : length r.sealed < 2 ^ 32

unfoldable pub encode_all : List Record → Bytes
encode_all [] = []
encode_all (r ∷ rs) = encode r ++ encode_all rs

pub length-encode : (r : Record) → length (encode r) ≡ 8 + (length r.event_id + length r.sealed)
unfolding encode
length-encode r = omega (arith, length-append r.event_id r.sealed)

fits : (a b c : ℕ) → ltb (8 + (a + b + c)) (8 + a + b) ≡ false
fits a b c = ground arith

eight_or_more : (n : ℕ) → ltb (suc (suc (suc (suc (suc (suc (suc (suc n)))))))) 8 ≡ false
eight_or_more n = ground arith

-- A header in front of the fields of `r`.
read_body-fields :
    (head : Bytes) (r : Record) (rest : Bytes) (offset : ℕ)
    → length head ≡ 8
    → drop 8 (head ++ ((r.event_id ++ r.sealed) ++ rest)) ≡ (r.event_id ++ r.sealed) ++ rest
    → Framed r
    → read_body
        (length r.event_id)
        (length r.sealed)
        (head ++ ((r.event_id ++ r.sealed) ++ rest))
        offset
      ≡ some (r, offset + length (encode r))
unfolding read_body
read_body-fields head r rest offset eight behind h =
    rw
      (
        behind,
        length-append head ((r.event_id ++ r.sealed) ++ rest),
        length-append (r.event_id ++ r.sealed) rest,
        length-append r.event_id r.sealed,
        eight,
        append_assoc r.event_id r.sealed rest,
        take-append r.event_id (r.sealed ++ rest),
        drop-append r.event_id (r.sealed ++ rest),
        take-append r.sealed rest,
        h.id_utf8,
        fits (length r.event_id) (length r.sealed) (length rest),
        length-encode r,
      )
      (ap (λ (k : ℕ). some (r, k)) (omega arith))

read_rest-encode :
    (r : Record) (rest : Bytes) (offset : ℕ)
    → Framed r
    → read_rest (encode r ++ rest) offset ≡ some (r, offset + length (encode r))
unfolding read_rest encode
read_rest-encode r rest offset h =
    rw
      (
        from_be-be_u32 (length r.event_id) h.id_fits,
        from_be-be_u32 (length r.sealed) h.payload_fits,
        eight_or_more (length ((r.event_id ++ r.sealed) ++ rest)),
      )
      (read_body-fields (be_u32 (length r.event_id) ++ be_u32 (length r.sealed)) r rest offset refl
        refl h)

le_add : (a b : ℕ) → leb a (a + b) ≡ true
le_add a b = ground arith

-- A record whose identifier is UTF-8 and whose lengths fit 32 bits is read back whole from the
-- bytes that `append` writes, wherever they stand in the segment and whatever is behind them.
pub read_record-encode :
    (before rest : Bytes) (r : Record)
    → Framed r
    → read_record (before ++ (encode r ++ rest)) (length before)
      ≡ some (r, length before + length (encode r))
unfolding read_record
read_record-encode before rest r h =
    rw
      (
        length-append before (encode r ++ rest),
        le_add (length before) (length (encode r ++ rest)),
        drop-append before (encode r ++ rest),
      )
      (read_rest-encode r rest (length before) h)

-- A record cut short: some of its bytes are missing.
abbrev pub Torn : Bytes → Type 0
Torn torn =
    (r : Record) × (missing : Bytes) × Framed r × (missing ≢ []) × (torn ++ missing ≡ encode r)

take-within : (n : ℕ) (xs ys : Bytes) → n ≤ length xs → take n (xs ++ ys) ≡ take n xs
take-within zero xs ys h = refl
take-within (suc n) [] ys h = absurd (omega arith)
take-within (suc n) (x ∷ xs) ys h = ap (◌∷◌ x) (take-within n xs ys (omega arith))

drop-within : (n : ℕ) (xs ys : Bytes) → n ≤ length xs → drop n (xs ++ ys) ≡ drop n xs ++ ys
drop-within zero xs ys h = refl
drop-within (suc n) [] ys h = absurd (omega arith)
drop-within (suc n) (x ∷ xs) ys h = drop-within n xs ys (omega arith)

length_of_ne : (xs : Bytes) → xs ≢ [] → 1 ≤ length xs
length_of_ne [] h = absurd (h refl)
length_of_ne (x ∷ xs) h = omega arith

length-drop_four : (xs : Bytes) → 8 ≤ length xs → 4 ≤ length (drop 4 xs)
length-drop_four xs h = omega (arith, length-drop 4 xs)

read_body-short :
    (id_len payload_len : ℕ) (rest : Bytes) (offset : ℕ)
    → length rest < 8 + id_len + payload_len
    → read_body id_len payload_len rest offset ≡ none
unfolding read_body
read_body-short id_len payload_len rest offset h = rw (lt→ltb _ _ h)

read_rest-Torn : (torn : Bytes) (offset : ℕ) → Torn torn → read_rest torn offset ≡ none
unfolding read_rest encode
read_rest-Torn torn offset (r, missing, h, ne, e) = elim (Bool-cases (ltb (length torn) 8)) [
  | inl short ↦ rw short
  | inr long ↦
      let eight : 8 ≤ length torn = ground arith in
      let id_len : take 4 torn ≡ be_u32 (length r.event_id) =
        sym (take-within 4 torn missing (omega arith)) ∙ ap (take 4) e in
      let behind : drop 4 torn ++ missing ≡ drop 4 (encode r) =
        sym (drop-within 4 torn missing (omega arith)) ∙ ap (drop 4) e in
      let payload_len : take 4 (drop 4 torn) ≡ be_u32 (length r.sealed) =
        sym (take-within 4 (drop 4 torn) missing (length-drop_four torn eight))
        ∙ ap (take 4) behind in
      rw
        (
          long,
          id_len,
          payload_len,
          from_be-be_u32 (length r.event_id) h.id_fits,
          from_be-be_u32 (length r.sealed) h.payload_fits,
        )
        (read_body-short (length r.event_id) (length r.sealed) torn offset (
          omega (
            arith,
            length-append torn missing,
            ap length e,
            length-encode r,
            length_of_ne missing ne,
          )))
]

-- What a crash can leave behind the last whole record.
abbrev pub Tail : Bytes → Type 0
Tail torn = (torn ≡ []) ⊎ Torn torn

read_rest-Tail : (torn : Bytes) (offset : ℕ) → Tail torn → read_rest torn offset ≡ none
unfolding read_rest
read_rest-Tail torn offset (inl e) = rw e
read_rest-Tail torn offset (inr t) = read_rest-Torn torn offset t

read_record-Tail :
    (before torn : Bytes) → Tail torn → read_record (before ++ torn) (length before) ≡ none
unfolding read_record
read_record-Tail before torn t =
    rw (length-append before torn, le_add (length before) (length torn), drop-append before torn)
      (read_rest-Tail torn (length before) t)

whole_records-eq-none :
    (fuel : ℕ) (bytes : Bytes) (offset : ℕ)
    → read_record bytes offset ≡ none
    → whole_records (suc fuel) bytes offset ≡ offset
unfolding whole_records
whole_records-eq-none fuel bytes offset h =
    ap
      (λ (o : Option (Record × ℕ)). elim o as (λ x. ℕ) [
        | none ↦ offset
        | some p ↦ whole_records fuel bytes p.1
      ])
      h

whole_records-eq-some :
    (fuel : ℕ) (bytes : Bytes) (offset : ℕ) (r : Record) (next : ℕ)
    → read_record bytes offset ≡ some (r, next)
    → whole_records (suc fuel) bytes offset ≡ whole_records fuel bytes next
unfolding whole_records
whole_records-eq-some fuel bytes offset r next h =
    ap
      (λ (o : Option (Record × ℕ)). elim o as (λ x. ℕ) [
        | none ↦ offset
        | some p ↦ whole_records fuel bytes p.1
      ])
      h

whole_records-encode_all :
    (fuel : ℕ) (before : Bytes) (rs : List Record) (torn : Bytes)
    → length rs ≤ fuel
    → All Framed rs
    → Tail torn
    → whole_records fuel (before ++ (encode_all rs ++ torn)) (length before)
      ≡ length before + length (encode_all rs)
unfolding whole_records encode_all
whole_records-encode_all zero before [] torn enough hs t = omega arith
whole_records-encode_all (suc fuel) before [] torn enough hs t =
    whole_records-eq-none fuel (before ++ torn) (length before) (read_record-Tail before torn t)
    ∙ omega arith
whole_records-encode_all zero before (r ∷ rs) torn enough hs t = absurd (omega arith)
whole_records-encode_all (suc fuel) before (r ∷ rs) torn enough hs t =
    let behind : Bytes = encode_all rs ++ torn in
    ap (λ (b : Bytes). whole_records (suc fuel) (before ++ b) (length before))
      (append_assoc (encode r) (encode_all rs) torn)
    ∙ whole_records-eq-some fuel (before ++ (encode r ++ behind)) (length before) r
        (length before + length (encode r)) (read_record-encode before behind r hs.0)
    ∙ ap (λ (b : Bytes). whole_records fuel b (length before + length (encode r)))
        (sym (append_assoc before (encode r) behind))
    ∙ ap (whole_records fuel ((before ++ encode r) ++ behind))
        (sym (length-append before (encode r)))
    ∙ whole_records-encode_all fuel (before ++ encode r) rs torn (omega arith) hs.1 t
    ∙ omega (arith, length-append before (encode r), length-append (encode r) (encode_all rs))

length-encode_all : (rs : List Record) → length rs ≤ length (encode_all rs)
unfolding encode_all
length-encode_all [] = omega arith
length-encode_all (r ∷ rs) =
    omega (arith, length-append (encode r) (encode_all rs), length-encode r, length-encode_all rs)

zero_add : (n : ℕ) → 0 + n ≡ n
zero_add n = omega arith

nothing_behind : (xs ys : Bytes) → ltb (length xs) (length (xs ++ ys)) ≡ false → xs ++ ys ≡ xs
nothing_behind xs [] h = append-nil xs
nothing_behind xs (y ∷ ys) h = absurd (ground (arith, length-append xs (y ∷ ys)))

cut_at :
    (xs ys : Bytes)
    → (if ltb (length xs) (length (xs ++ ys)) then take (length xs) (xs ++ ys) else xs ++ ys) ≡ xs
cut_at xs ys = elim (Bool-cases (ltb (length xs) (length (xs ++ ys)))) [
  | inl more ↦ rw more (take-append xs ys)
  | inr same ↦ rw same (nothing_behind xs ys same)
]

-- For records whose identifiers are UTF-8 and whose lengths fit 32 bits, a segment that ends in a
-- record cut short by a crash, or in none, is truncated to exactly its whole records.
pub truncate_torn_tail_lem :
    (rs : List Record) (torn : Bytes)
    → All Framed rs
    → Tail torn
    → truncate_torn_tail (encode_all rs ++ torn) ≡ encode_all rs
unfolding truncate_torn_tail
truncate_torn_tail_lem rs torn hs t =
    rw
      (
        whole_records-encode_all (length (encode_all rs ++ torn)) [] rs torn
            (omega (arith, length-append (encode_all rs) torn, length-encode_all rs)) hs t,
        zero_add (length (encode_all rs)),
      )
      (cut_at (encode_all rs) torn)
