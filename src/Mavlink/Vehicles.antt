-- ===== src/Mavlink/Vehicles.antt =====
-- The vehicles of rust/connectors/mavlink/src/mavlink.rs: what a frame leaves of each.
use ajar_connectors.Prelude.{
  ℕ, ◌+◌, ◌-◌, ◌≡◌, ◌≢◌, refl, sym, ap, ◌∙◌, inl, inr, subst, Bool-cases, Option, none, some, List,
  [], ◌∷◌, Bytes, length, take, drop, ltb, ◌==◌, arith, unwrap_or, ok,
}
use ajar_connectors.Prelude.Float.{Float}
use ajar_connectors.Prelude.Carry
use ajar_connectors.Prelude.Carry.{Carry, no_carry}
use ajar_connectors.Prelude.Carry.Bounds
use ajar_connectors.Mavlink.{
  Vehicle, VehicleState, no_vehicle, Trig, max_pending_frames, max_pending_bytes, crc_extra_and_len,
  crc, u16le,
}
use ajar_connectors.Mavlink.Messages.{gps_quality}
use ajar_connectors.Mavlink.Frames.{same_of, other_of}
use ajar_connectors.Mavlink.Parser.{
  Header, MavParser, read_header, find_vehicle, set_vehicle, vehicle, mutate, carry, drain,
  crc_start, zero_extend, global_position, gps_raw, update_of, handle_message, checked_message,
  by_table, parse_frame,
}

module _ {F : Type 0} where
  find_vehicle-set_vehicle :
      (id : ℕ) (v : Vehicle F) (l : List (ℕ × Vehicle F))
      → find_vehicle id (set_vehicle id v l) ≡ some v
  unfolding find_vehicle set_vehicle
  find_vehicle-set_vehicle id v [] = ground arith
  find_vehicle-set_vehicle id v ((n, w) ∷ l) = ground (arith, find_vehicle-set_vehicle id v l)

  find_vehicle-other :
      (id k : ℕ) (v : Vehicle F) (l : List (ℕ × Vehicle F))
      → k ≢ id
      → find_vehicle k (set_vehicle id v l) ≡ find_vehicle k l
  unfolding find_vehicle set_vehicle
  find_vehicle-other id k v [] ne = ground arith
  find_vehicle-other id k v ((n, w) ∷ l) ne = ground (arith, find_vehicle-other id k v l)

  vehicle-set_vehicle :
      (id : ℕ) (v : Vehicle F) (l : List (ℕ × Vehicle F))
      → unwrap_or (find_vehicle id (set_vehicle id v l)) no_vehicle ≡ v
  vehicle-set_vehicle id v l =
      ap (λ (o : Option (Vehicle F)). unwrap_or o no_vehicle) (find_vehicle-set_vehicle id v l)

  pub carry-vehicle :
      (id : ℕ) (raw : Bytes) (p : MavParser F)
      → (vehicle id (carry id raw p)).carry
        ≡ (Carry.push_raw max_pending_frames max_pending_bytes raw (vehicle id p).carry).0
  unfolding carry
  carry-vehicle id raw p = ap (λ (v : Vehicle F). v.carry) (vehicle-set_vehicle id _ p.vehicles)

  pub mutate-vehicle :
      (id : ℕ) (g : VehicleState F → VehicleState F) (p : MavParser F)
      → (vehicle id (mutate id g p)).carry ≡ (vehicle id p).carry
  unfolding mutate
  mutate-vehicle id g p = ap (λ (v : Vehicle F). v.carry) (vehicle-set_vehicle id _ p.vehicles)

  pub drain-vehicle : (id : ℕ) (p : MavParser F) → (vehicle id (drain id p).1).carry ≡ no_carry
  unfolding drain
  drain-vehicle id p = ap (λ (v : Vehicle F). v.carry) (vehicle-set_vehicle id _ p.vehicles)

-- Both caps, and a true count.
abbrev pub IsCounted : Carry → Type 0
IsCounted = Bounds.IsCounted max_pending_frames max_pending_bytes

IsCounted-none : IsCounted no_carry
unfolding Bounds.bytes_of
IsCounted-none = (refl, (omega arith, omega arith))

-- Every vehicle's frames are within the caps.
abbrev pub WithinCaps : {F : Type 0} → MavParser F → Type 0
WithinCaps p = (id : ℕ) → IsCounted (vehicle id p).carry

module _ {F : Type 0} where
  -- A step that is the vehicle `id`'s: the others stay, and its caps hold on.
  record Touches (id : ℕ) (p p' : MavParser F) : Type 0 where
    others : (k : ℕ) → k ≢ id → find_vehicle k p'.vehicles ≡ find_vehicle k p.vehicles
    counted : IsCounted (vehicle id p).carry → IsCounted (vehicle id p').carry

  Touches-both : (id : ℕ) (p q r : MavParser F) → Touches id p q → Touches id q r → Touches id p r
  Touches-both id p q r a b = record {
    others = λ k ne. b.others k ne ∙ a.others k ne;
    counted = λ h. b.counted (a.counted h);
  }

  carry-Touches : (id : ℕ) (raw : Bytes) (p : MavParser F) → Touches id p (carry id raw p)
  unfolding carry
  carry-Touches id raw p = record {
    others = λ k ne. find_vehicle-other id k _ p.vehicles ne;
    counted = λ h.
        subst IsCounted (sym (carry-vehicle id raw p))
          (Bounds.push_raw_lem max_pending_frames max_pending_bytes raw (vehicle id p).carry h).0;
  }

  mutate-Touches :
      (id : ℕ) (g : VehicleState F → VehicleState F) (p : MavParser F)
      → Touches id p (mutate id g p)
  unfolding mutate
  mutate-Touches id g p = record {
    others = λ k ne. find_vehicle-other id k _ p.vehicles ne;
    counted = λ h. subst IsCounted (sym (mutate-vehicle id g p)) h;
  }

  drain-Touches : (id : ℕ) (p : MavParser F) → Touches id p (drain id p).1
  unfolding drain
  drain-Touches id p = record {
    others = λ k ne. find_vehicle-other id k _ p.vehicles ne;
    counted = λ h. subst IsCounted (sym (drain-vehicle id p)) IsCounted-none;
  }

  Touches-none : (id : ℕ) (p : MavParser F) → Touches id p p
  Touches-none id p = record { others = λ k ne. refl; counted = λ h. h }

module _ {F : Type 0} ⦃f : Float F⦄ ⦃t : Trig F⦄ where
  global_position-Touches :
      (id : ℕ) (b : Bytes) (p : MavParser F) → Touches id p (global_position id b p).1
  unfolding global_position
  global_position-Touches id b p = drain-Touches id p

  gps_raw-Touches : (id : ℕ) (b : Bytes) (p : MavParser F) → Touches id p (gps_raw id b p).1
  unfolding gps_raw
  gps_raw-Touches id b p =
      Touches-both id p _ _ (mutate-Touches id (gps_quality b) p)
        (drain-Touches id (mutate id (gps_quality b) p))

  handle_message-Touches :
      (h : Header) (payload : Bytes) (p : MavParser F)
      → Touches h.sysid p (handle_message h payload p).1
  unfolding handle_message
  handle_message-Touches h payload p = elim (Bool-cases (h.msg_id == 33)) [
    | inl position ↦ rw position (global_position-Touches h.sysid payload p)
    | inr other ↦ elim (Bool-cases (h.msg_id == 24)) [
      | inl raw ↦ rw (other, raw) (gps_raw-Touches h.sysid payload p)
      | inr neither ↦ rw (other, neither) (mutate-Touches h.sysid (update_of h.msg_id payload) p)
    ]
  ]

  by_table-Touches :
      (h : Header) (frame : Bytes) (o : Option (ℕ × ℕ)) (p : MavParser F)
      → Touches h.sysid p (by_table h frame o p).1
  unfolding checked_message
  by_table-Touches h frame none p = carry-Touches h.sysid _ p
  by_table-Touches h frame (some entry) p =
      elim (Bool-cases
        (crc (take (crc_start h - 1) (drop 1 frame)) entry.0 == u16le frame (crc_start h))) [
          | inl holds ↦ rw holds (
              Touches-both h.sysid p _ _ (carry-Touches h.sysid (take (crc_start h + 2) frame) p) (
                handle_message-Touches h
                  (zero_extend entry.1 (take h.len (drop h.header_len frame)))
                  (carry h.sysid (take (crc_start h + 2) frame) p)))
          | inr broken ↦ rw broken (Touches-none h.sysid p)
        ]

  parse_frame-Touches :
      (frame : Bytes) (p : MavParser F) (h : Header)
      → read_header {F = F} frame ≡ ok h
      → Touches h.sysid p (parse_frame frame p).1
  unfolding parse_frame
  parse_frame-Touches frame p h starts = elim (Bool-cases (ltb (length frame) (crc_start h + 2))) [
    | inl short ↦ rw (starts, short) (Touches-none h.sysid p)
    | inr whole ↦ rw (starts, whole) (by_table-Touches h frame (crc_extra_and_len h.msg_id) p)
  ]

  -- A frame changes no vehicle but the one that its header names, and the frames that wait for each vehicle's
  -- next event stay at most 128 of at most 32 KiB in all, their bytes counted right.
  pub parse_frame-WithinCaps :
      (frame : Bytes) (p : MavParser F) (h : Header) (k : ℕ)
      → read_header {F = F} frame ≡ ok h
      → k ≢ h.sysid
      → WithinCaps p
      → WithinCaps (parse_frame frame p).1
        × (find_vehicle k (parse_frame frame p).1.vehicles ≡ find_vehicle k p.vehicles)
  parse_frame-WithinCaps frame p h k starts other caps = (within, touches.others k other)
    where
      touches : Touches h.sysid p (parse_frame frame p).1
      touches = parse_frame-Touches frame p h starts

      within : WithinCaps (parse_frame frame p).1
      within id = elim (Bool-cases (id == h.sysid)) [
        | inl same ↦
            subst (λ (n : ℕ). IsCounted (vehicle n (parse_frame frame p).1).carry)
              (sym (same_of id h.sysid same)) (touches.counted (caps h.sysid))
        | inr differs ↦
            subst (λ (o : Option (Vehicle F)). IsCounted (unwrap_or o no_vehicle).carry)
              (sym (touches.others id (other_of id h.sysid differs))) (caps id)
      ]
