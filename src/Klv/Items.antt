-- ===== src/Klv/Items.antt =====
-- `parse_set` and the events of rust/connectors/klv/src/klv.rs.
use ajar_connectors.Prelude.{
  ℕ, zero, suc, ◌+◌, ◌-◌, true, false, not, ◌||◌, Option, none, some, List, [], ◌∷◌, Text, Bytes,
  text, text_eq, length, take, drop, get_elem?, ltb, ◌==◌, Result, ok, ◌>>=◌, ◌>>◌, reject_if,
  map_err, option_map, and_then, unwrap_or, with_some, if◌then◌else◌,
}
use ajar_connectors.Prelude.Int.{pos, negsuc}
use ajar_connectors.Prelude.Float.{Float}
use ajar_connectors.Prelude.Endian.{from_be}
use ajar_connectors.Prelude.Decimal.{decimal}
use ajar_connectors.Sdk.Event.{Event}
use ajar_connectors.Sdk.Builder.{
  EventBuilder, new, set_id, set_timestamp, set_location, set_payload, metadata_entry, build,
}
use ajar_connectors.Common.Identity.{put_attribute}
use ajar_connectors.Klv.{
  KlvError, not_uas_ls, truncated, bad_checksum, build_failed, uas_ls_key, bcc_16, read_ber_len,
  read_ber_oid_tag, be_word, be_signed, ascii, scaled_angle, scaled_u16,
}

-- The set while its items are read: the position is given by two of them.
pub record Reading (F : Type 0) : Type 0 where
  pub timestamp : Option Text
  pub tail_number : Option Text
  pub designation : Option Text
  pub mission_id : Option Text
  pub heading_deg : Option F
  pub pitch_deg : Option F
  pub roll_deg : Option F
  pub lat : Option F
  pub lon : Option F
  pub alt_m : Option F
  pub ls_version : Option ℕ

pub record UasMetadata (F : Type 0) : Type 0 where
  pub timestamp : Option Text
  pub tail_number : Option Text
  pub designation : Option Text
  pub mission_id : Option Text
  pub heading_deg : Option F
  pub pitch_deg : Option F
  pub roll_deg : Option F
  pub lat : F
  pub lon : F
  pub alt_m : Option F
  pub ls_version : Option ℕ
  pub raw : Bytes

abbrev pub nothing_read : {F : Type 0} → Reading F
nothing_read = record {
  timestamp = none;
  tail_number = none;
  designation = none;
  mission_id = none;
  heading_deg = none;
  pitch_deg = none;
  roll_deg = none;
  lat = none;
  lon = none;
  alt_m = none;
  ls_version = none;
}

abbrev pub first_some {ℓ} : {A : Type ℓ} → Option A → Option A → Option A
first_some none b = b
first_some (some a) b = some a

module _ {F : Type 0} where
  -- The item at `p`: its tag, its value, and the position behind it.
  unfoldable pub next_item : Bytes → ℕ → ℕ → Result (KlvError F) (ℕ × Bytes × ℕ)
  next_item frame total p = do
    (tag, at_len) ← read_ber_oid_tag frame p
    (len, at_value) ← read_ber_len frame at_len
    reject_if (ltb total (at_value + len)) truncated
    ok (tag, take len (drop at_value frame), at_value + len)

module _ {F : Type 0} ⦃f : Float F⦄ where
  -- `format_micros` is the time crate's RFC 3339 text of a time in microseconds, where there is one.
  unfoldable pub read_item : (ℕ → Option Text) → ℕ → Bytes → Reading F → Reading F
  read_item format_micros tag val m =
      if tag == 2
      then record m { timestamp = and_then (be_word 8 val) format_micros }
      else if tag == 3
      then record m { mission_id = ascii val }
      else if tag == 4
      then record m { tail_number = ascii val }
      else if tag == 5
      then record m { heading_deg = option_map (scaled_u16 360) (be_word 2 val) }
      else if tag == 6
      then record m { pitch_deg = and_then (be_signed 2 val) (scaled_angle 32767 20) }
      else if tag == 7
      then record m { roll_deg = and_then (be_signed 2 val) (scaled_angle 32767 50) }
      else if tag == 10
      then record m { designation = ascii val }
      else if tag == 13
      then record m { lat = and_then (be_signed 4 val) (scaled_angle 2147483647 90) }
      else if tag == 14
      then record m { lon = and_then (be_signed 4 val) (scaled_angle 2147483647 180) }
      else if tag == 15
      then record m {
        alt_m =
            option_map (λ v. f.float_add (f.of_int (negsuc 899)) (scaled_u16 19900 v))
              (be_word 2 val);
      }
      else if tag == 65
      then record m { ls_version = get_elem? val 0 }
      else m

  -- The loop `while p < total`; a round takes two bytes at least.
  unfoldable pub read_items :
      (ℕ → Option Text) → ℕ → Bytes → ℕ → ℕ → Reading F → Result (KlvError F) (Reading F)
  read_items format_micros zero frame total p m = ok m
  read_items format_micros (suc fuel) frame total p m = elim (ltb p total) [
    | false ↦ ok m
    | true ↦ next_item frame total p >>= λ (i : ℕ × Bytes × ℕ).
        read_items format_micros fuel frame total i.2 (read_item format_micros i.0 i.1 m)
  ]

  unfoldable pub placed : Bytes → Reading F → Option F → Option F → Option (UasMetadata F)
  placed pkt m none lon = none
  placed pkt m (some lat) none = none
  placed pkt m (some lat) (some lon) = some (record {
    timestamp = m.timestamp;
    tail_number = m.tail_number;
    designation = m.designation;
    mission_id = m.mission_id;
    heading_deg = m.heading_deg;
    pitch_deg = m.pitch_deg;
    roll_deg = m.roll_deg;
    lat = lat;
    lon = lon;
    alt_m = m.alt_m;
    ls_version = m.ls_version;
    raw = pkt;
  })

  unfoldable pub located : Bytes → Reading F → Option (UasMetadata F)
  located pkt m = placed pkt m m.lat m.lon

  -- The items from `start` on of the set of `total` bytes.
  unfoldable pub set_items :
      (ℕ → Option Text) → Bytes → ℕ → ℕ → Result (KlvError F) (Option (UasMetadata F))
  set_items format_micros frame start total = do
    m ← read_items format_micros (total - start) frame total start nothing_read
    ok (located (take total frame) m)

  -- The set of `set_len` bytes from `start` on, its checksum in the last two.
  unfoldable pub read_set :
      (ℕ → Option Text) → Bytes → ℕ × ℕ → Result (KlvError F) (Option (UasMetadata F))
  read_set format_micros frame (set_len, start) = do
    let total = start + set_len
    reject_if (ltb (length frame) total || ltb total (start + 2)) truncated
    reject_if
        (not (
          bcc_16 (take (total - 2) (take total frame))
          == from_be (drop (total - 2) (take total frame))))
        bad_checksum
    set_items format_micros frame start total

  unfoldable pub parse_set :
      (ℕ → Option Text) → Bytes → Result (KlvError F) (Option (UasMetadata F))
  parse_set format_micros frame = do
    reject_if (ltb (length frame) 17 || not (text_eq (take 16 frame) uas_ls_key)) not_uas_ls
    measured ← read_ber_len frame 16
    read_set format_micros frame measured

  unfoldable pub base_builder : Text → Text → Option Text → UasMetadata F → EventBuilder F
  base_builder source_id fresh hostility m =
      let start = set_id (new source_id (text "mim:aircraft")) fresh in
      let placed =
        set_payload (set_location start m.lat m.lon (unwrap_or m.alt_m (f.of_int (pos 0)))) m.raw in
      let put_meta : Text → Text → EventBuilder F → EventBuilder F =
        λ k v b. metadata_entry b k v in
      let named =
        with_some (first_some m.tail_number m.designation) (put_meta (text "source_uid")) placed in
      let tailed = with_some m.tail_number (put_meta (text "tail_number")) named in
      let tasked = with_some m.mission_id (put_meta (text "mission_id")) tailed in
      let versioned =
        with_some m.ls_version (λ v. put_meta (text "uas_ls_version") (decimal v)) tasked in
      let enriched = with_some hostility (put_attribute (text "hostility")) versioned in
      let typed = with_some m.designation (put_attribute (text "platform_designation")) enriched in
      let headed =
        with_some m.heading_deg (λ d. put_attribute (text "heading") (f.fixed 1 d)) typed in
      let pitched =
        with_some m.pitch_deg (λ d. put_attribute (text "pitch") (f.fixed 1 d)) headed in
      with_some m.roll_deg (λ d. put_attribute (text "roll") (f.fixed 1 d)) pitched

  unfoldable pub to_event_at :
      Text → Text → Option Text → Text → UasMetadata F → Result (KlvError F) (Event F)
  to_event_at source_id fresh hostility observed m =
      map_err build_failed
        (build (set_timestamp (base_builder source_id fresh hostility m) observed))

  -- `now` is the clock's text.
  abbrev parsed :
      Text
      → Text
      → Option Text
      → Text
      → Option (UasMetadata F)
      → Result (KlvError F) (List (Event F))
  parsed source_id fresh hostility now none = ok []
  parsed source_id fresh hostility now (some m) =
      to_event_at source_id fresh hostility (unwrap_or m.timestamp now) m >>= λ e. ok (e ∷ [])

  unfoldable pub parse :
      (ℕ → Option Text)
      → Text
      → Text
      → Option Text
      → Text
      → Bytes
      → Result (KlvError F) (List (Event F))
  parse format_micros source_id fresh hostility now frame =
      parse_set format_micros frame >>= parsed source_id fresh hostility now
