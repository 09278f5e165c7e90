-- ===== src/Sdk/Builder.antt =====
-- `EventBuilder` of rust/ajar-connector/src/builder.rs. The clock and the random source of `now` and
-- `new_id` are arguments: the text that they produce.
pub mod Correct
use ajar_connectors.Prelude.{
  ℕ, ◌≤◌, Bool, true, false, not, ◌&&◌, Option, none, some, List, [], ◌∷◌, ◌++◌, map, Text, Bytes,
  text, is_empty, length, ltb, leb, Result, ok, err, ◌>>=◌, ◌>>◌, reject_if, ok_or, if◌then◌else◌,
}
use ajar_connectors.Prelude.Int.{pos, negsuc}
use ajar_connectors.Prelude.Float.{Float, in_range}
use ajar_connectors.Sdk.Event.{
  GeoPoint, Attribute, Event, BuildError, missing_field, duplicate_attribute_key,
  too_many_attributes, duplicate_metadata_key, too_many_metadata, too_many_policy_tags,
  unnamespaced_entity_type, confidence_out_of_range, invalid_timestamp, invalid_location,
}
use ajar_connectors.Sdk.Rfc3339.{is_rfc3339}
use ajar_connectors.Sdk.Namespace.{is_namespaced}
use ajar_connectors.Sdk.Keys.{Pair, sort_pairs, duplicate_key}

abbrev pub max_attributes : ℕ
max_attributes = 128

abbrev pub max_metadata : ℕ
max_metadata = 128

abbrev pub max_policy_tags : ℕ
max_policy_tags = 64

abbrev pub schema_version : Text
schema_version = text "v1"

pub record EventBuilder (F : Type 0) : Type 0 where
  pub source_id : Text
  pub entity_type : Text
  pub id : Option Text
  pub timestamp : Option Text
  pub location : Option (GeoPoint F)
  pub payload : Bytes
  pub policy_tags : List Text
  pub confidence : F
  pub attributes : List Pair
  pub metadata : List Pair
  pub strict_entity_namespace : Bool

module _ {F : Type 0} ⦃f : Float F⦄ where
  unfoldable pub new : Text → Text → EventBuilder F
  new source entity = record {
    source_id = source;
    entity_type = entity;
    id = none;
    timestamp = none;
    location = none;
    payload = [];
    policy_tags = [];
    confidence = f.of_int (pos 0);
    attributes = [];
    metadata = [];
    strict_entity_namespace = true;
  }

module _ {F : Type 0} where
  -- `id`, and `new_id` with the fresh UUID that it draws
  unfoldable pub set_id : EventBuilder F → Text → EventBuilder F
  set_id b i = record b { id = some i }

  -- `timestamp`, and `now` with the clock's text
  unfoldable pub set_timestamp : EventBuilder F → Text → EventBuilder F
  set_timestamp b ts = record b { timestamp = some ts }

  unfoldable pub set_location : EventBuilder F → F → F → F → EventBuilder F
  set_location b lat lon alt = record b {
    location = some (record { latitude = lat; longitude = lon; altitude_m = alt });
  }

  unfoldable pub set_payload : EventBuilder F → Bytes → EventBuilder F
  set_payload b p = record b { payload = p }

  unfoldable pub policy_tag : EventBuilder F → Text → EventBuilder F
  policy_tag b t = record b { policy_tags = b.policy_tags ++ t ∷ [] }

  unfoldable pub set_confidence : EventBuilder F → F → EventBuilder F
  set_confidence b c = record b { confidence = c }

  unfoldable pub attribute : EventBuilder F → Text → Text → EventBuilder F
  attribute b k v = record b { attributes = b.attributes ++ record { key = k; value = v } ∷ [] }

  unfoldable pub metadata_entry : EventBuilder F → Text → Text → EventBuilder F
  metadata_entry b k v = record b { metadata = b.metadata ++ record { key = k; value = v } ∷ [] }

  unfoldable pub allow_unnamespaced_entity_type : EventBuilder F → EventBuilder F
  allow_unnamespaced_entity_type b = record b { strict_entity_namespace = false }

abbrev pub to_attribute : Pair → Attribute
to_attribute p = record { key = p.key; value = p.value }

-- Sort, refuse a duplicate, and turn the pairs into attributes.
abbrev pub no_duplicate {ℓ} :
    {E : Type ℓ} → (Text → E) → List Pair → Option Text → Result E (List Attribute)
no_duplicate e ps (some k) = err (e k)
no_duplicate e ps none = ok (map to_attribute ps)

unfoldable pub canonical_attributes {ℓ} :
    {E : Type ℓ} → (Text → E) → List Pair → Result E (List Attribute)
canonical_attributes e ps =
    let sorted = sort_pairs ps in no_duplicate e sorted (duplicate_key sorted)

module _ {F : Type 0} ⦃f : Float F⦄ where
  unfoldable pub position_ok : GeoPoint F → Bool
  position_ok loc =
      f.is_finite loc.latitude
      && f.is_finite loc.longitude
      && f.is_finite loc.altitude_m
      && in_range (f.of_int (negsuc 89)) (f.of_int (pos 90)) loc.latitude
      && in_range (f.of_int (negsuc 179)) (f.of_int (pos 180)) loc.longitude

  unfoldable pub check_location : Option (GeoPoint F) → Result (BuildError F) (Unit {0})
  check_location none = ok tt
  check_location (some loc) =
      reject_if (not (position_ok loc)) (invalid_location loc.latitude loc.longitude)

  unfoldable pub build : EventBuilder F → Result (BuildError F) (Event F)
  build b = do
    i ← ok_or b.id (missing_field (text "id"))
    ts ← ok_or b.timestamp (missing_field (text "timestamp"))
    reject_if (not (is_rfc3339 ts)) (invalid_timestamp ts)
    check_location b.location
    reject_if (is_empty b.source_id) (missing_field (text "source_id"))
    reject_if (is_empty b.entity_type) (missing_field (text "entity_type"))
    reject_if (b.strict_entity_namespace && not (is_namespaced b.entity_type))
        (unnamespaced_entity_type b.entity_type)
    reject_if (not (in_range (f.of_int (pos 0)) (f.of_int (pos 1)) b.confidence))
        (confidence_out_of_range b.confidence)
    reject_if (ltb max_policy_tags (length b.policy_tags))
        (too_many_policy_tags (length b.policy_tags) max_policy_tags)
    reject_if (ltb max_attributes (length b.attributes))
        (too_many_attributes (length b.attributes) max_attributes)
    reject_if (ltb max_metadata (length b.metadata))
        (too_many_metadata (length b.metadata) max_metadata)
    attrs ← canonical_attributes duplicate_attribute_key b.attributes
    meta ← canonical_attributes duplicate_metadata_key b.metadata
    ok (record {
      schema_version = schema_version;
      id = i;
      source_id = b.source_id;
      entity_type = b.entity_type;
      timestamp = ts;
      received_at = [];
      location = b.location;
      payload = b.payload;
      policy_tags = b.policy_tags;
      confidence = b.confidence;
      attributes = attrs;
      metadata = meta;
    })
