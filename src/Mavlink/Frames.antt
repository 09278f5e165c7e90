-- ===== src/Mavlink/Frames.antt =====
-- Which frames rust/connectors/mavlink/src/mavlink.rs takes, and that a refused one changes nothing.
use ajar_connectors.Prelude.{
  ℕ, ◌+◌, ◌-◌, ◌≤◌, ◌≡◌, refl, subst, ◌⊎◌, inl, inr, true, false, Bool-cases, Option, none, some,
  Bytes, length, take, drop, ltb, ◌==◌, arith, Result, ok, err, is_ok,
}
use ajar_connectors.Prelude.Float.{Float}
use ajar_connectors.Mavlink.{
  MavError, truncated, bad_crc, MavPosition, Trig, crc_extra_and_len, crc, u16le,
}
use ajar_connectors.Mavlink.Parser.{
  Header, MavParser, read_header, crc_start, carry, handle_message, global_position, gps_raw, emit,
  checked_message, by_table, by_header, parse_frame,
}

-- The checksum of the frame, if its message is in the table.
abbrev pub ChecksumHolds : Header → Bytes → Option (ℕ × ℕ) → Type 0
ChecksumHolds h frame none = Unit
ChecksumHolds h frame (some entry) =
    crc (take (crc_start h - 1) (drop 1 frame)) entry.0 ≡ u16le frame (crc_start h)

-- A frame of either version, whole, with its checksum if its message is known.
pub record WellFramed (F : Type 0) (frame : Bytes) : Type 0 where
  pub header : Header
  pub starts : read_header {F = F} frame ≡ ok header
  pub whole : crc_start header + 2 ≤ length frame
  pub checksum : ChecksumHolds header frame (crc_extra_and_len header.msg_id)

whole_of : (a b : ℕ) → ltb b a ≡ false → a ≤ b
whole_of a b h = ground arith

cut_short : (a b : ℕ) → ltb b a ≡ true → a ≤ b → ⊥
cut_short a b h w = ground arith

pub same_of : (a b : ℕ) → (a == b) ≡ true → a ≡ b
same_of a b h = ground arith

pub other_of : (a b : ℕ) → (a == b) ≡ false → a ≡ b → ⊥
other_of a b h e = ground arith

module _ {F : Type 0} ⦃f : Float F⦄ ⦃t : Trig F⦄ where
  emit-ok : (x : MavPosition F × MavParser F) → is_ok (emit x).0 ≡ true
  emit-ok x = refl

  handle_message-ok :
      (h : Header) (payload : Bytes) (p : MavParser F) → is_ok (handle_message h payload p).0 ≡ true
  unfolding handle_message
  handle_message-ok h payload p = elim (Bool-cases (h.msg_id == 33)) [
    | inl position ↦ rw position (emit-ok (global_position h.sysid payload p))
    | inr other ↦ elim (Bool-cases (h.msg_id == 24)) [
      | inl raw ↦ rw (other, raw) (emit-ok (gps_raw h.sysid payload p))
      | inr neither ↦ rw (other, neither) refl
    ]
  ]

  -- A well-formed frame is taken, another is refused and changes nothing.
  abbrev Judged :
      Bytes → MavParser F → Result (MavError F) (Option (MavPosition F)) × MavParser F → Type 0
  Judged frame p r =
      (WellFramed F frame × (is_ok r.0 ≡ true))
      ⊎ ((WellFramed F frame → ⊥) × ((e : MavError F) × (r ≡ (err e, p))))

  same_header : {a b : Header} (r : Result (MavError F) Header) → r ≡ ok a → r ≡ ok b → a ≡ b
  same_header r e k = cc

  checked_message-Judged :
      (h : Header) (frame : Bytes) (entry : ℕ × ℕ) (p : MavParser F)
      → read_header {F = F} frame ≡ ok h
      → crc_start h + 2 ≤ length frame
      → crc_extra_and_len h.msg_id ≡ some entry
      → Judged frame p (checked_message h frame entry p)
  unfolding checked_message
  checked_message-Judged h frame entry p starts whole known =
      elim (Bool-cases
        (crc (take (crc_start h - 1) (drop 1 frame)) entry.0 == u16le frame (crc_start h))) [
          | inl holds ↦ inl (
            record {
              header = h;
              starts = starts;
              whole = whole;
              checksum = rw known (same_of _ _ holds);
            },
            rw holds (handle_message-ok h _ (carry h.sysid _ p)),
          )
          | inr broken ↦ inr (
            (λ w.
                other_of _ _ broken
                  (checksum_of h entry w (same_header (read_header frame) w.starts starts) known)),
            (bad_crc, rw broken refl),
          )
        ]
    where
      checksum_of :
          (h : Header) (entry : ℕ × ℕ) (w : WellFramed F frame)
          → w.header ≡ h
          → crc_extra_and_len h.msg_id ≡ some entry
          → ChecksumHolds h frame (some entry)
      checksum_of h entry w e known =
          subst (λ (o : Option (ℕ × ℕ)). ChecksumHolds h frame o) known
            (subst (λ (x : Header). ChecksumHolds x frame (crc_extra_and_len x.msg_id)) e
              w.checksum)

  by_table-Judged :
      (h : Header) (frame : Bytes) (o : Option (ℕ × ℕ)) (p : MavParser F)
      → read_header {F = F} frame ≡ ok h
      → crc_start h + 2 ≤ length frame
      → crc_extra_and_len h.msg_id ≡ o
      → Judged frame p (by_table h frame o p)
  by_table-Judged h frame none p starts whole unknown =
      inl (record { header = h; starts = starts; whole = whole; checksum = rw unknown tt }, refl)
  by_table-Judged h frame (some entry) p starts whole known =
      checked_message-Judged h frame entry p starts whole known

  by_header-Judged :
      (frame : Bytes) (r : Result (MavError F) Header) (p : MavParser F)
      → read_header frame ≡ r
      → Judged frame p (by_header frame r p)
  by_header-Judged frame (err e) p starts = inr ((λ w. let s = w.starts in cc), (e, refl))
  by_header-Judged frame (ok h) p starts =
      elim (Bool-cases (ltb (length frame) (crc_start h + 2))) [
        | inl short ↦ inr (
          (λ w. cut_short _ _ short (
              subst (λ (x : Header). crc_start x + 2 ≤ length frame)
                (same_header (read_header frame) w.starts starts) w.whole)),
          (truncated, rw short refl),
        )
        | inr whole ↦ rw whole (
            by_table-Judged h frame (crc_extra_and_len h.msg_id) p starts (whole_of _ _ whole) refl)
      ]

  -- A frame is taken exactly when it is one of either version, whole, and has the checksum of its message if
  -- that is in the table; any other frame is refused with an error and leaves the state of every vehicle as it was.
  pub parse_frame-Judged :
      (frame : Bytes) (p : MavParser F)
      → (WellFramed F frame × (is_ok (parse_frame frame p).0 ≡ true))
        ⊎ ((WellFramed F frame → ⊥) × ((e : MavError F) × (parse_frame frame p ≡ (err e, p))))
  unfolding parse_frame
  parse_frame-Judged frame p = by_header-Judged frame (read_header frame) p refl
