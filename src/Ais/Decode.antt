-- ===== src/Ais/Decode.antt =====
-- `decode` and what it calls in rust/connectors/ais-nmea/src/ais.rs. The parser's mutexes guard the parts of
-- one state, and each call of a handler is one step of it.
use ajar_connectors.Prelude.{
  ℕ, ◌+◌, ◌%◌, ◌^◌, Bool, true, false, not, ◌&&◌, Option, none, some, List, [], ◌∷◌, Text, Bytes,
  ltb, leb, ◌==◌, is_empty, option_map, option_filter, and_then, unwrap_or, if◌then◌else◌,
}
use ajar_connectors.Prelude.Int.{ℤ, pos, negsuc}
use ajar_connectors.Prelude.Float.{Float, in_range}
use ajar_connectors.Ais.Bits.{Bits, u, opt_u, opt_i, opt_text}
use ajar_connectors.Ais.Cache.{
  Identity, no_identity, MmsiCache, Carry, no_carry, update, lookup, get, entry, push_raw,
  drain_with,
}
use ajar_connectors.Ais.Fields.{
  Layout, class_a, class_b, offsets, nav_status, ship_type, decode_rot, over,
}

pub record AisPosition (F : Type 0) : Type 0 where
  pub msg_type : ℕ
  pub mmsi : ℕ
  pub lat : Option F
  pub lon : Option F
  pub cog_deg : Option F
  pub sog_kn : Option F
  pub heading_deg : Option F
  pub rot_degmin : Option F
  pub nav_status : Option Text
  pub ship_type : Option Text
  pub name : Option Text
  pub callsign : Option Text
  pub imo : Option ℕ
  pub raw : Bytes
  pub truncated : Bool

-- The caches and the counter of the sentences dropped over the cap.
pub record Vessels : Type 0 where
  pub identities : MmsiCache Identity
  pub carry : MmsiCache Carry
  pub dropped : ℕ

abbrev or_kept {ℓ} : {A : Type ℓ} → Option A → Option A → Option A
or_kept none kept = kept
or_kept (some v) kept = some v

abbrev not_empty : Option Text → Option Text
not_empty = option_filter (λ v. not (is_empty v))

unfoldable pub merged : Identity → Identity → Identity
merged new old = record {
  name = or_kept (not_empty new.name) old.name;
  callsign = or_kept (not_empty new.callsign) old.callsign;
  ship_type = or_kept new.ship_type old.ship_type;
  imo = or_kept new.imo old.imo;
}

unfoldable pub merge_identity : ℕ → Identity → MmsiCache Identity → MmsiCache Identity
merge_identity mmsi new cache =
    let there = entry no_identity mmsi cache in
    record there { map = update mmsi (merged new) there.map }

unfoldable pub static_class_a : Bits → ℕ → MmsiCache Identity → MmsiCache Identity
static_class_a bits mmsi = merge_identity mmsi (record {
  name = opt_text bits 112 120;
  callsign = opt_text bits 70 42;
  ship_type = and_then (opt_u bits 232 8) ship_type;
  imo = option_filter (λ v. not (v == 0)) (opt_u bits 40 30);
})

abbrev part_a : Bits → Identity
part_a bits = record no_identity { name = opt_text bits 40 120 }

abbrev part_b : Bits → Identity
part_b bits = record no_identity {
  ship_type = and_then (opt_u bits 40 8) ship_type;
  callsign = opt_text bits 90 42;
}

unfoldable pub static_class_b : Bits → ℕ → MmsiCache Identity → MmsiCache Identity
static_class_b bits mmsi cache = of_part (opt_u bits 38 2)
  where
    of_part : Option ℕ → MmsiCache Identity
    of_part none = cache
    of_part (some n) =
        if n == 0
        then merge_identity mmsi (part_a bits) cache
        else if n == 1
        then merge_identity mmsi (part_b bits) cache
        else cache

-- What the inline static part of a type 19 gives.
abbrev inline_part : Bits → Identity
inline_part bits = record no_identity {
  name = opt_text bits 143 120;
  ship_type = and_then (opt_u bits 263 8) ship_type;
}

unfoldable pub merge_inline : Bits → ℕ → Layout → MmsiCache Identity → MmsiCache Identity
merge_inline bits mmsi class_a cache = cache
merge_inline bits mmsi (class_b false) cache = cache
merge_inline bits mmsi (class_b true) cache = merge_identity mmsi (inline_part bits) cache

unfoldable pub layout_of : ℕ → Option Layout
layout_of msg_type =
    if leb 1 msg_type && leb msg_type 3
    then some class_a
    else if msg_type == 18
    then some (class_b false)
    else if msg_type == 19
    then some (class_b true)
    else none

-- The static messages write to the identities; no other does here.
unfoldable pub merge_static : Bits → ℕ → ℕ → MmsiCache Identity → MmsiCache Identity
merge_static bits msg_type mmsi cache =
    if msg_type == 5
    then static_class_a bits mmsi cache
    else if msg_type == 24
    then static_class_b bits mmsi cache
    else cache

-- Each sentence of a message without an event waits for the vessel's next one.
unfoldable pub push_raws : List Bytes → Carry → Carry × ℕ
push_raws [] c = (c, 0)
push_raws (raw ∷ raws) c =
    let (pushed, dropped) = push_raw raw c in
    let (last, later) = push_raws raws pushed in (last, dropped + later)

abbrev pub carried : ℕ → MmsiCache Carry → Carry
carried mmsi cache = unwrap_or (lookup mmsi cache.map) no_carry

abbrev pub stored : ℕ → Carry → MmsiCache Carry → MmsiCache Carry
stored mmsi c cache = record cache { map = update mmsi (λ old. c) cache.map }

unfoldable pub keep_raws : ℕ → List Bytes → Vessels → Vessels
keep_raws mmsi raws s =
    let cache = entry no_carry mmsi s.carry in
    let (c, dropped) = push_raws raws (carried mmsi cache) in
    record s { carry = stored mmsi c cache; dropped = (s.dropped + dropped) % 2 ^ 64 }

abbrev pub class_a_status : Layout → Bits → Option Text
class_a_status class_a bits = and_then (opt_u bits 38 4) nav_status
class_a_status (class_b extended) bits = none

abbrev pub unless {ℓ} : {A : Type ℓ} → ℕ → (ℕ → A) → Option ℕ → Option A
unless absent g v = option_map g (option_filter (λ x. not (x == absent)) v)

module _ {F : Type 0} ⦃f : Float F⦄ where
  abbrev class_a_rot : Layout → Bits → Option F
  class_a_rot class_a bits = and_then (opt_i bits 42 8) decode_rot
  class_a_rot (class_b extended) bits = none

  -- An angle in units of 1/600000 degree, within `limit` degrees.
  abbrev angle : ℤ → ℤ → Option ℤ → Option F
  angle lo hi v =
      option_filter (in_range (f.of_int lo) (f.of_int hi)) (option_map (λ x. over x 600000) v)

  unfoldable pub fields : Bits → ℕ → ℕ → Layout → Identity → AisPosition F
  fields bits msg_type mmsi layout known =
      let off = offsets layout in
      record {
        msg_type = msg_type;
        mmsi = mmsi;
        lat = angle (negsuc 89) (pos 90) (opt_i bits off.lat 27);
        lon = angle (negsuc 179) (pos 180) (opt_i bits off.lon 28);
        cog_deg = unless 3600 (λ v. over (pos v) 10) (opt_u bits off.cog 12);
        sog_kn = unless 1023 (λ v. over (pos v) 10) (opt_u bits off.sog 10);
        heading_deg = unless 511 (λ v. f.of_int (pos v)) (opt_u bits off.heading 9);
        rot_degmin = class_a_rot layout bits;
        nav_status = class_a_status layout bits;
        ship_type = known.ship_type;
        name = known.name;
        callsign = known.callsign;
        imo = known.imo;
        raw = [];
        truncated = false;
      }

  unfoldable pub position :
      Bits → ℕ → ℕ → Layout → MmsiCache Identity → MmsiCache Identity × AisPosition F
  position bits msg_type mmsi layout cache =
      let known = merge_inline bits mmsi layout cache in
      (known, fields bits msg_type mmsi layout (unwrap_or (get mmsi known) no_identity))

  unfoldable pub report : Bits → ℕ → ℕ → Layout → List Bytes → Vessels → Vessels × AisPosition F
  report bits msg_type mmsi layout raws s =
      let cache = entry no_carry mmsi s.carry in
      let (c, raw, truncated) = drain_with raws (carried mmsi cache) in
      let (identities, p) = position bits msg_type mmsi layout s.identities in
      (
        record s { identities = identities; carry = stored mmsi c cache },
        record p { raw = raw; truncated = truncated },
      )

  -- `none` is `Truncated`, which changes nothing.
  unfoldable pub decode : Bits → List Bytes → Vessels → Vessels × Option (Option (AisPosition F))
  decode bits raws s = if ltb bits.valid_bits 38 then (s, none) else of_layout (layout_of msg_type)
    where
      msg_type : ℕ
      msg_type = u bits 0 6

      mmsi : ℕ
      mmsi = u bits 8 30

      merged_in : Vessels
      merged_in = record s { identities = merge_static bits msg_type mmsi s.identities }

      of_layout : Option Layout → Vessels × Option (Option (AisPosition F))
      of_layout none = (keep_raws mmsi raws merged_in, some none)
      of_layout (some layout) =
          let (after, p) = report bits msg_type mmsi layout raws merged_in in (after, some (some p))
