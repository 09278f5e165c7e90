-- ===== src/Klv/Sets.antt =====
-- The local sets of rust/connectors/klv/src/klv.rs, as ST 0601 writes them, read back.
use ajar_connectors.Prelude.{
  ℕ, zero, suc, ◌+◌, ◌-◌, ◌≤◌, ◌≡◌, refl, sym, ap, ◌∙◌, Bool, true, false, Option, List, [], ◌∷◌,
  ◌++◌, append_assoc, Text, Bytes, text_eq, text_eq_refl, length, take, drop, length-append,
  take-append, drop-append, ltb, lt→ltb, arith, Result, ok, ◌>>=◌,
}
use ajar_connectors.Prelude.Float.{Float}
use ajar_connectors.Prelude.Endian.{from_be}
use ajar_connectors.Klv.{KlvError, uas_ls_key, bcc_16, read_ber_len, read_ber_oid_tag}
use ajar_connectors.Klv.Items.{
  Reading, nothing_read, UasMetadata, located, read_item, next_item, read_items, set_items,
  read_set, parse_set,
}
use ajar_connectors.Klv.Lengths.{IsLength, IsTag, read_ber_len-IsLength, read_ber_oid_tag-IsTag}
use ajar_connectors.Klv.Layout.{
  AreItems, no_items, item, length-IsTag, length-IsLength, next_part, part_read, value_at, at_end,
  outside, set_front, label_passes, guard_passes, same,
}

module _ {F : Type 0} where
  tag_at :
      (frame before enc after : Bytes) (n : ℕ)
      → frame ≡ before ++ (enc ++ after)
      → IsTag 0 enc n
      → read_ber_oid_tag {F = F} frame (length before) ≡ ok (n, length (before ++ enc))
  tag_at frame before enc after n e tag =
      ap (λ (b : Bytes). read_ber_oid_tag {F = F} b (length before)) e
      ∙ read_ber_oid_tag-IsTag before enc after n tag
      ∙ ap (λ (k : ℕ). ok (n, k)) (sym (length-append before enc))

  length_at :
      (frame before enc after : Bytes) (n : ℕ)
      → frame ≡ before ++ (enc ++ after)
      → IsLength enc n
      → read_ber_len {F = F} frame (length before) ≡ ok (n, length (before ++ enc))
  length_at frame before enc after n e len =
      ap (λ (b : Bytes). read_ber_len {F = F} b (length before)) e
      ∙ read_ber_len-IsLength before enc after n len
      ∙ ap (λ (k : ℕ). ok (n, k)) (sym (length-append before enc))

module _ {F : Type 0} ⦃f : Float F⦄ where
  -- What the items give, each in its turn.
  unfoldable pub read_all : (ℕ → Option Text) → List (ℕ × Bytes) → Reading F → Reading F
  read_all format_micros [] m = m
  read_all format_micros ((t, value) ∷ items) m =
      read_all format_micros items (read_item format_micros t value m)

  next_item_lem :
      (frame : Bytes) (total p t p1 len p2 : ℕ) (value : Bytes)
      → read_ber_oid_tag {F = F} frame p ≡ ok (t, p1)
      → read_ber_len {F = F} frame p1 ≡ ok (len, p2)
      → ltb total (p2 + len) ≡ false
      → take len (drop p2 frame) ≡ value
      → next_item {F = F} frame total p ≡ ok (t, value, p2 + len)
  unfolding next_item
  next_item_lem frame total p t p1 len p2 value tagged measured within cut =
      rw (tagged, measured, within, cut)

  read_items-step :
      (format_micros : ℕ → Option Text) (fuel : ℕ) (frame : Bytes) (total p t next : ℕ)
      (value : Bytes) (m : Reading F)
      → ltb p total ≡ true
      → next_item {F = F} frame total p ≡ ok (t, value, next)
      → read_items format_micros (suc fuel) frame total p m
        ≡ read_items format_micros fuel frame total next (read_item format_micros t value m)
  unfolding read_items
  read_items-step format_micros fuel frame total p t next value m inside found =
      let go : ℕ × Bytes × ℕ → Result (KlvError F) (Reading F) = λ (i : ℕ × Bytes × ℕ).
        read_items format_micros fuel frame total i.2 (read_item format_micros i.0 i.1 m) in
      ap
        (λ (b : Bool). elim b as (λ x. Result (KlvError F) (Reading F)) [
          | false ↦ ok m
          | true ↦ next_item frame total p >>= go
        ])
        inside
      ∙ ap (λ (r : Result (KlvError F) (ℕ × Bytes × ℕ)). r >>= go) found

  read_items-end :
      (format_micros : ℕ → Option Text) (fuel : ℕ) (frame : Bytes) (total p : ℕ) (m : Reading F)
      → ltb p total ≡ false
      → read_items format_micros (suc fuel) frame total p m ≡ ok m
  unfolding read_items
  read_items-end format_micros fuel frame total p m past =
      ap
        (λ (b : Bool). elim b as (λ x. Result (KlvError F) (Reading F)) [
          | false ↦ ok m
          | true ↦ next_item frame total p >>= λ (i : ℕ × Bytes × ℕ).
              read_items format_micros fuel frame total i.2 (read_item format_micros i.0 i.1 m)
        ])
        past

  read_items-AreItems :
      (format_micros : ℕ → Option Text) (fuel : ℕ) (frame before enc after : Bytes)
      (items : List (ℕ × Bytes)) (m : Reading F)
      → frame ≡ before ++ (enc ++ after)
      → length enc ≤ fuel
      → AreItems enc items
      → read_items format_micros fuel frame (length before + length enc) (length before) m
        ≡ ok (read_all format_micros items m)
  unfolding read_items read_all
  read_items-AreItems format_micros zero frame before enc after items m e enough no_items = refl
  read_items-AreItems format_micros (suc fuel) frame before enc after items m e enough no_items =
      read_items-end format_micros fuel frame (length before + 0) (length before) m
        (at_end (length before))
  read_items-AreItems format_micros zero frame before enc after items m e enough
        (item {tag} {len} {rest} value ist isl rst) =
      absurd (omega (arith, enough, length-append tag (len ++ (value ++ rest)), length-IsTag ist))
  read_items-AreItems format_micros (suc fuel) frame before enc after items m e enough
        (item {tag} {len} {rest} {t} {items = later} value ist isl rst) =
      let b1 : Bytes = before ++ tag in
      let b2 : Bytes = b1 ++ len in
      let b3 : Bytes = b2 ++ value in
      let total : ℕ = length before + length (tag ++ (len ++ (value ++ rest))) in
      let e1 = next_part frame before tag (len ++ (value ++ rest)) after e in
      let e2 =
        next_part frame b1 len (value ++ rest) after
          (part_read frame before tag ((len ++ (value ++ rest)) ++ after) e1) in
      let e3 =
        next_part frame b2 value rest after
          (part_read frame b1 len ((value ++ rest) ++ after) e2) in
      let b2_size : length b2 ≡ length before + length tag + length len =
        omega (arith, length-append b1 len, length-append before tag) in
      let enc_size : length (tag ++ (len ++ (value ++ rest)))
          ≡ length tag + (length len + (length value + length rest)) =
        omega (
          arith,
          length-append tag (len ++ (value ++ rest)),
          length-append len (value ++ rest),
          length-append value rest,
        ) in
      let b3_size : length b3 ≡ length b2 + length value = length-append b2 value in
      read_items-step format_micros fuel frame total (length before) t (length b2 + length value)
        value m (lt→ltb (length before) total (omega (arith, enc_size, length-IsTag ist)))
        (next_item_lem frame total (length before) t (length b1) (length value) (length b2) value
          (tag_at frame before tag ((len ++ (value ++ rest)) ++ after) t e1 ist)
          (length_at frame b1 len ((value ++ rest) ++ after) (length value) e2 isl)
          (outside total (length b2 + length value) (omega (arith, enc_size, b2_size)))
          (value_at frame b2 value (rest ++ after) e3))
      ∙ ap
          (λ (k : ℕ).
            read_items format_micros fuel frame total k (read_item format_micros t value m))
          (sym b3_size)
      ∙ ap
          (λ (k : ℕ).
            read_items format_micros fuel frame k (length b3) (read_item format_micros t value m))
          (omega (arith, enc_size, b2_size, b3_size))
      ∙ read_items-AreItems format_micros fuel frame b3 rest after later
          (read_item format_micros t value m) (part_read frame b2 value (rest ++ after) e3)
          (omega (arith, enough, enc_size, length-IsTag ist)) rst

  read_set_lem :
      (format_micros : ℕ → Option Text) (frame head check after : Bytes) (start set_len : ℕ)
      (r : Reading F)
      → start + set_len ≡ length head + 2
      → frame ≡ (head ++ check) ++ after
      → length check ≡ 2
      → 2 ≤ set_len
      → bcc_16 head ≡ from_be check
      → read_items format_micros
          (start + set_len - start)
          frame
          (start + set_len)
          start
          nothing_read
        ≡ ok r
      → read_set format_micros frame (set_len, start) ≡ ok (located (head ++ check) r)
  unfolding read_set set_items
  read_set_lem format_micros frame head check after start set_len r size e two wide sum read =
      let total : ℕ = start + set_len in
      let whole : length (head ++ check) ≡ total =
        omega (arith, length-append head check, two, size) in
      let fits : total ≤ length frame =
        omega (arith, ap {A = Bytes} length e, length-append (head ++ check) after, whole) in
      let pkt : take total frame ≡ head ++ check =
        set_front frame (head ++ check) after total e (sym whole) in
      let cut : total - 2 ≡ length head = omega (arith, size) in
      rw (
        guard_passes (length frame) total start fits (omega (arith, wide)),
        pkt,
        cut,
        take-append head check,
        drop-append head check,
        sum,
        same (from_be check),
        read,
      )

  parse_set_lem :
      (format_micros : ℕ → Option Text) (frame : Bytes) (measured : ℕ × ℕ)
      (m : Option (UasMetadata F))
      → take 16 frame ≡ uas_ls_key
      → 17 ≤ length frame
      → read_ber_len {F = F} frame 16 ≡ ok measured
      → read_set format_micros frame measured ≡ ok m
      → parse_set format_micros frame ≡ ok m
  unfolding parse_set
  parse_set_lem format_micros frame measured m key enough len read = rw (
    label_passes (length frame) (text_eq (take 16 frame) uas_ls_key) enough
        (ap (λ (b : Bytes). text_eq b uas_ls_key) key ∙ text_eq_refl uas_ls_key),
    len,
    read,
  )

  -- A set that is framed as ST 0601 says, with a checksum over all that is before it in its last two bytes,
  -- is parsed to what its items give in their order, whatever follows the set in the frame.
  pub parse_set_complete :
      (format_micros : ℕ → Option Text) (len front check after : Bytes) (items : List (ℕ × Bytes))
      → IsLength len (length (front ++ check))
      → AreItems (front ++ check) items
      → length check ≡ 2
      → bcc_16 ((uas_ls_key ++ len) ++ front) ≡ from_be check
      → parse_set format_micros ((((uas_ls_key ++ len) ++ front) ++ check) ++ after)
        ≡ ok (
            located
              (((uas_ls_key ++ len) ++ front) ++ check)
              (read_all format_micros items nothing_read))
  unfolding parse_set
  parse_set_complete format_micros len front check after items measured are two sum =
      let start : Bytes = uas_ls_key ++ len in
      let frame : Bytes = ((start ++ front) ++ check) ++ after in
      let e1 : frame ≡ start ++ ((front ++ check) ++ after) =
        ap (λ (b : Bytes). b ++ after) (append_assoc start front check)
        ∙ append_assoc start (front ++ check) after in
      let e2 : frame ≡ uas_ls_key ++ (len ++ ((front ++ check) ++ after)) =
        e1 ∙ append_assoc uas_ls_key len ((front ++ check) ++ after) in
      let body_size : length (front ++ check) ≡ length front + 2 =
        omega (arith, length-append front check, two) in
      let start_size : length start ≡ 16 + length len = length-append uas_ls_key len in
      let frame_size : 17 ≤ length frame = omega (
        arith,
        ap {A = Bytes} length e1,
        length-append start ((front ++ check) ++ after),
        start_size,
        length-IsLength measured,
      ) in
      parse_set_lem format_micros frame (length (front ++ check), length start) _
        (ap (take 16) e2 ∙ take-append uas_ls_key (len ++ ((front ++ check) ++ after))) frame_size
        (length_at frame uas_ls_key len ((front ++ check) ++ after) (length (front ++ check)) e2
          measured)
        (read_set_lem format_micros frame (start ++ front) check after (length start)
          (length (front ++ check)) _ (omega (arith, length-append start front, body_size)) refl two
          (omega (arith, body_size)) sum
          (read_items-AreItems format_micros (length start + length (front ++ check) - length start)
            frame start (front ++ check) after items nothing_read e1 (omega arith) are))
