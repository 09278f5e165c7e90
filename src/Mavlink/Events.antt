-- ===== src/Mavlink/Events.antt =====
-- The frames that an event of rust/connectors/mavlink/src/mavlink.rs carries.
use ajar_connectors.Prelude.{
  ℕ, ◌+◌, ◌-◌, ◌≡◌, refl, ap, ◌∙◌, inl, inr, subst, Bool-cases, ◌||◌, Option, none, some, List, [],
  ◌∷◌, ◌++◌, Bytes, length, take, drop, ltb, ◌==◌, Result, ok, err,
}
use ajar_connectors.Prelude.Float.{Float}
use ajar_connectors.Prelude.Carry
use ajar_connectors.Prelude.Carry.{Carry, no_carry}
use ajar_connectors.Prelude.Carry.Bounds
use ajar_connectors.Mavlink.{
  MavError, bad_crc, truncated, MavPosition, Trig, max_pending_frames, max_pending_bytes,
  crc_extra_and_len, crc, u16le,
}
use ajar_connectors.Mavlink.Messages.{gps_quality}
use ajar_connectors.Mavlink.Parser.{
  Header, MavParser, read_header, vehicle, mutate, carry, drain, concat, crc_start, zero_extend,
  global_position, gps_raw, emit, handle_message, checked_message, by_table, parse_frame,
}
use ajar_connectors.Mavlink.Vehicles.{IsCounted, carry-vehicle, mutate-vehicle, drain-vehicle}

-- What an event carries of the frames that waited: the longest end within the caps, this frame last.
pub record Carried {F : Type 0} (frame : Bytes) (before after : Carry) (position : MavPosition F)
    : Type 0 where
  pub kept : List Bytes
  pub dropped : ℕ
  pub longest :
      Bounds.IsLongestEnd max_pending_frames max_pending_bytes
        (before.pending ++ (frame ∷ []))
        kept
        dropped
  pub payload : position.raw ≡ concat kept
  pub flagged : position.truncated ≡ (before.dropped_since_emit || ltb 0 dropped)
  pub emptied : after ≡ no_carry

module _ {F : Type 0} ⦃f : Float F⦄ ⦃t : Trig F⦄ where
  -- The frames of a vehicle were drained into the position.
  record Drained (id : ℕ) (p p' : MavParser F) (position : MavPosition F) : Type 0 where
    payload : position.raw ≡ concat (vehicle id p).carry.pending
    flagged : position.truncated ≡ (vehicle id p).carry.dropped_since_emit
    emptied : (vehicle id p').carry ≡ no_carry

  global_position-Drained :
      (id : ℕ) (b : Bytes) (p : MavParser F)
      → Drained id p (global_position id b p).1 (global_position id b p).0
  unfolding global_position
  global_position-Drained id b p = record {
    payload = unfold drain in refl;
    flagged = unfold drain in refl;
    emptied = drain-vehicle id p;
  }

  gps_raw-Drained :
      (id : ℕ) (b : Bytes) (p : MavParser F) → Drained id p (gps_raw id b p).1 (gps_raw id b p).0
  unfolding gps_raw
  gps_raw-Drained id b p =
      let same = mutate-vehicle id (gps_quality b) p in
      record {
        payload = unfold drain in ap (λ (c : Carry). concat c.pending) same;
        flagged = unfold drain in ap (λ (c : Carry). c.dropped_since_emit) same;
        emptied = drain-vehicle id (mutate id (gps_quality b) p);
      }

  Emits : Result (MavError F) (Option (MavPosition F)) × MavParser F → MavPosition F → Type 0
  Emits r position = r.0 ≡ ok (some position)

  emit-Drained :
      (id : ℕ) (p : MavParser F) (x : MavPosition F × MavParser F) (position : MavPosition F)
      → Drained id p x.1 x.0
      → Emits (emit x) position
      → Drained id p (emit x).1 position
  unfolding Emits
  emit-Drained id p x position d e =
      subst (λ (y : MavPosition F). Drained id p x.1 y) (same _ refl e) d
    where
      same :
          (r : Result (MavError F) (Option (MavPosition F)))
          → r ≡ ok (some x.0)
          → r ≡ ok (some position)
          → x.0 ≡ position
      same r e k = cc

  handle_message-Drained :
      (h : Header) (b : Bytes) (p : MavParser F) (position : MavPosition F)
      → Emits (handle_message h b p) position
      → Drained h.sysid p (handle_message h b p).1 position
  unfolding handle_message
  handle_message-Drained h b p position e = elim (Bool-cases (h.msg_id == 33)) [
    | inl is_position ↦ rw is_position (
        emit-Drained h.sysid p _ position (global_position-Drained h.sysid b p)
          (rw is_position at e))
    | inr other ↦ elim (Bool-cases (h.msg_id == 24)) [
      | inl raw ↦
          rw (other, raw)
            (emit-Drained h.sysid p _ position (gps_raw-Drained h.sysid b p) (rw (other, raw) at e))
      | inr neither ↦ absurd (no_position _ (rw (other, neither) at e))
    ]
  ]
    where
      no_position : (p' : MavParser F) → Emits (ok none, p') position → ⊥
      no_position p' e = unfold Emits in cc

  not_emitted :
      (e : MavError F) (position : MavPosition F)
      → ◌≡◌ {A = Result (MavError F) (Option (MavPosition F))} (err e) (ok (some position))
      → ⊥
  not_emitted e position h = cc

  -- The vehicle's frames after this one, drained.
  Drained-Carried :
      (id : ℕ) (raw : Bytes) (p p' : MavParser F) (position : MavPosition F)
      → IsCounted (vehicle id p).carry
      → Drained id (carry id raw p) p' position
      → Carried raw (vehicle id p).carry (vehicle id p').carry position
  Drained-Carried id raw p p' position counted d =
      let (counted', longest, flagged) =
        Bounds.push_raw_lem max_pending_frames max_pending_bytes raw (vehicle id p).carry counted in
      record {
        kept =
            (Carry.push_raw max_pending_frames max_pending_bytes raw
              (vehicle id p).carry).0.pending;
        dropped = (Carry.push_raw max_pending_frames max_pending_bytes raw (vehicle id p).carry).1;
        longest = longest;
        payload = d.payload ∙ ap (λ (c : Carry). concat c.pending) (carry-vehicle id raw p);
        flagged =
            d.flagged ∙ ap (λ (c : Carry). c.dropped_since_emit) (carry-vehicle id raw p) ∙ flagged;
        emptied = d.emptied;
      }

  by_table-Carried :
      (h : Header) (frame : Bytes) (o : Option (ℕ × ℕ)) (p : MavParser F) (position : MavPosition F)
      → IsCounted (vehicle h.sysid p).carry
      → Emits (by_table h frame o p) position
      → Carried
          (take (crc_start h + 2) frame)
          (vehicle h.sysid p).carry
          (vehicle h.sysid (by_table h frame o p).1).carry
          position
  unfolding Emits checked_message
  by_table-Carried h frame none p position counted e = cc
  by_table-Carried h frame (some entry) p position counted e =
      elim (Bool-cases
        (crc (take (crc_start h - 1) (drop 1 frame)) entry.0 == u16le frame (crc_start h))) [
          | inl holds ↦ rw holds (
              Drained-Carried h.sysid (take (crc_start h + 2) frame) p _ position counted (
                handle_message-Drained h
                  (zero_extend entry.1 (take h.len (drop h.header_len frame)))
                  (carry h.sysid (take (crc_start h + 2) frame) p) position (rw holds at e)))
          | inr broken ↦ absurd (not_emitted bad_crc position (rw broken at e))
        ]

  -- A frame that gives a position carries in its payload the frames of its vehicle since the last one, as the
  -- longest end of them that is within the caps with this frame last, says whether any was dropped since, and
  -- leaves none waiting, where the frames that waited were within the caps and their bytes counted right.
  pub parse_frame-Carried :
      (frame : Bytes) (p : MavParser F) (h : Header) (position : MavPosition F)
      → read_header {F = F} frame ≡ ok h
      → IsCounted (vehicle h.sysid p).carry
      → (parse_frame frame p).0 ≡ ok (some position)
      → Carried
          (take (crc_start h + 2) frame)
          (vehicle h.sysid p).carry
          (vehicle h.sysid (parse_frame frame p).1).carry
          position
  unfolding parse_frame
  parse_frame-Carried frame p h position starts counted e =
      elim (Bool-cases (ltb (length frame) (crc_start h + 2))) [
        | inl short ↦ absurd (not_emitted truncated position (rw (starts, short) at e))
        | inr whole ↦
            rw (starts, whole)
              (by_table-Carried h frame (crc_extra_and_len h.msg_id) p position counted
                (unfold Emits in rw (starts, whole) at e))
      ]
