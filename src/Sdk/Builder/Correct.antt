-- ===== src/Sdk/Builder/Correct.antt =====
-- What `build` promises, and that it keeps the promise on every input.
use mathlib.Core.List.{Perm, Permᴰ}
use mathlib.Core.Logic.{∥∥₁_elim}
use ajar_connectors.Prelude.{
  suc, ◌≤◌, ◌≡◌, ◌≢◌, refl, ap, ◌∙◌, inl, inr, Bool, true, false, not, ◌&&◌, Option, none, some,
  List, [], map, arith, Text, text, is_empty, length, ne_of_is_empty, is_empty_of_ne, ok,
  Option-cases,
}
use ajar_connectors.Prelude.Int.{pos}
use ajar_connectors.Prelude.Float.{Float, in_range}
use ajar_connectors.Sdk.Event.{
  GeoPoint, Attribute, Event, BuildError, duplicate_attribute_key, duplicate_metadata_key,
}
use ajar_connectors.Sdk.Rfc3339.{is_rfc3339}
use ajar_connectors.Sdk.Rfc3339.Grammar.{DateTime, is_rfc3339_iff}
use ajar_connectors.Sdk.Namespace.{is_namespaced, Namespaced, is_namespaced_iff}
use ajar_connectors.Sdk.Keys.{Pair, sort_pairs, duplicate_key}
use ajar_connectors.Sdk.Keys.Sorted.{
  StrictlyAscending, sort_pairs-StrictlyAscending, sort_pairs-perm,
}
use ajar_connectors.Sdk.Keys.Order.{sort_pairs_unique, sort_pairs_order, duplicate_key-sort_perm}
use ajar_connectors.Sdk.Builder.{
  EventBuilder, build, canonical_attributes, check_location, position_ok, to_attribute,
}

-- The attributes are the pairs in strictly ascending key order, none lost and none added.
pub record Arranged (ps : List Pair) (attrs : List Attribute) : Type 0 where
  pub sorted : List Pair
  pub ascending : StrictlyAscending sorted
  pub same_pairs : Perm sorted ps
  pub listed : attrs ≡ map to_attribute sorted

canonical_attributes_sound {ℓ} :
    {E : Type ℓ} (e : Text → E) (ps : List Pair) {attrs : List Attribute}
    → canonical_attributes e ps ≡ ok attrs
    → Arranged ps attrs
unfolding canonical_attributes
canonical_attributes_sound e ps h = elim (Option-cases (duplicate_key (sort_pairs ps))) [
  | inl n ↦ record {
    sorted = sort_pairs ps;
    ascending = sort_pairs-StrictlyAscending ps n;
    same_pairs = sort_pairs-perm ps;
    listed = cc (rw n at h);
  }
  | inr (k, s) ↦ absurd (cc (rw s at h))
]

canonical_attributes_complete {ℓ} :
    {E : Type ℓ} (e : Text → E) (ps : List Pair) {attrs : List Attribute}
    → Arranged ps attrs
    → canonical_attributes e ps ≡ ok attrs
unfolding canonical_attributes
canonical_attributes_complete e ps a =
    let (fixed, n) = sort_pairs_unique a.sorted ps a.ascending a.same_pairs in
    rw (n, fixed, a.listed)

abbrev LocationOk : {F : Type 0} ⦃f : Float F⦄ → Option (GeoPoint F) → Type 0
LocationOk none = Unit
LocationOk ⦃f⦄ (some loc) = position_ok loc ≡ true

namespace_passes :
    (strict : Bool) (t : Text)
    → (strict ≡ true → Namespaced t)
    → (strict && not (is_namespaced t)) ≡ false
namespace_passes true t h = rw ((is_namespaced_iff t).1 (h refl))
namespace_passes false t h = refl

module _ {F : Type 0} ⦃f : Float F⦄ where
  -- `e` is the canonical event of the builder `b`, and `b` is within the contract.
  pub record Built (b : EventBuilder F) (e : Event F) : Type 0 where
    pub version : e.schema_version ≡ text "v1"
    pub not_received : e.received_at ≡ []
    pub id_set : b.id ≡ some e.id
    pub timestamp_set : b.timestamp ≡ some e.timestamp
    pub timestamp_valid : DateTime e.timestamp
    pub location_kept : e.location ≡ b.location
    pub location_valid : LocationOk b.location
    pub source_kept : e.source_id ≡ b.source_id
    pub source_set : b.source_id ≢ []
    pub type_kept : e.entity_type ≡ b.entity_type
    pub type_set : b.entity_type ≢ []
    pub type_namespaced : b.strict_entity_namespace ≡ true → Namespaced b.entity_type
    pub payload_kept : e.payload ≡ b.payload
    pub confidence_kept : e.confidence ≡ b.confidence
    pub confidence_valid : in_range (f.of_int (pos 0)) (f.of_int (pos 1)) b.confidence ≡ true
    pub tags_kept : e.policy_tags ≡ b.policy_tags
    pub tags_bounded : length b.policy_tags ≤ 64
    pub attributes_bounded : length b.attributes ≤ 128
    pub metadata_bounded : length b.metadata ≤ 128
    pub attributes_arranged : Arranged b.attributes e.attributes
    pub metadata_arranged : Arranged b.metadata e.metadata

  -- The Boolean tests that `build` runs, as it runs them.
  record Passed (b : EventBuilder F) (e : Event F) : Type 0 where
    fixed : (e.schema_version ≡ text "v1") × (e.received_at ≡ [])
    id_set : b.id ≡ some e.id
    timestamp_set : b.timestamp ≡ some e.timestamp
    timestamp_test : is_rfc3339 e.timestamp ≡ true
    location_test : check_location b.location ≡ ok tt
    source_test : is_empty b.source_id ≡ false
    type_test : is_empty b.entity_type ≡ false
    namespace_test : (b.strict_entity_namespace && not (is_namespaced b.entity_type)) ≡ false
    confidence_test : in_range (f.of_int (pos 0)) (f.of_int (pos 1)) b.confidence ≡ true
    bounds : (length b.policy_tags ≤ 64) × (length b.attributes ≤ 128) × (length b.metadata ≤ 128)
    attributes_test :
        canonical_attributes {E = BuildError F} duplicate_attribute_key b.attributes
        ≡ ok e.attributes
    metadata_test :
        canonical_attributes {E = BuildError F} duplicate_metadata_key b.metadata ≡ ok e.metadata
    kept :
        (e.location ≡ b.location)
        × (e.source_id ≡ b.source_id)
        × (e.entity_type ≡ b.entity_type)
        × (e.payload ≡ b.payload)
        × (e.confidence ≡ b.confidence)
        × (e.policy_tags ≡ b.policy_tags)

  build-Passed : (b : EventBuilder F) (e : Event F) → build b ≡ ok e → Passed b e
  unfolding build
  build-Passed b e h = ground arith

  build_of_Passed : (b : EventBuilder F) (e : Event F) → Passed b e → build b ≡ ok e
  unfolding build
  build_of_Passed b e p = ground arith

  location_ok : (loc : Option (GeoPoint F)) → check_location loc ≡ ok tt → LocationOk loc
  unfolding check_location
  location_ok none h = tt
  location_ok (some loc) h = ground arith

  location_checked : (loc : Option (GeoPoint F)) → LocationOk loc → check_location loc ≡ ok tt
  unfolding check_location
  location_checked none h = refl
  location_checked (some loc) h = ground arith

  Built-of_Passed : (b : EventBuilder F) (e : Event F) → Passed b e → Built b e
  Built-of_Passed b e p = record {
    version = p.fixed.0;
    not_received = p.fixed.1;
    id_set = p.id_set;
    timestamp_set = p.timestamp_set;
    timestamp_valid = (is_rfc3339_iff e.timestamp).0 p.timestamp_test;
    location_kept = p.kept.0;
    location_valid = location_ok b.location p.location_test;
    source_kept = p.kept.1;
    source_set = ne_of_is_empty b.source_id p.source_test;
    type_kept = p.kept.2;
    type_set = ne_of_is_empty b.entity_type p.type_test;
    type_namespaced = λ s. (is_namespaced_iff b.entity_type).0 (ground (arith, p.namespace_test));
    payload_kept = p.kept.3;
    confidence_kept = p.kept.4;
    confidence_valid = p.confidence_test;
    tags_kept = p.kept.5;
    tags_bounded = p.bounds.0;
    attributes_bounded = p.bounds.1;
    metadata_bounded = p.bounds.2;
    attributes_arranged =
        canonical_attributes_sound duplicate_attribute_key b.attributes p.attributes_test;
    metadata_arranged =
        canonical_attributes_sound duplicate_metadata_key b.metadata p.metadata_test;
  }

  Passed-of_Built : (b : EventBuilder F) (e : Event F) → Built b e → Passed b e
  Passed-of_Built b e p = record {
    fixed = (p.version, p.not_received);
    id_set = p.id_set;
    timestamp_set = p.timestamp_set;
    timestamp_test = (is_rfc3339_iff e.timestamp).1 p.timestamp_valid;
    location_test = location_checked b.location p.location_valid;
    source_test = is_empty_of_ne b.source_id p.source_set;
    type_test = is_empty_of_ne b.entity_type p.type_set;
    namespace_test = namespace_passes b.strict_entity_namespace b.entity_type p.type_namespaced;
    confidence_test = p.confidence_valid;
    bounds = (p.tags_bounded, p.attributes_bounded, p.metadata_bounded);
    attributes_test =
        canonical_attributes_complete duplicate_attribute_key b.attributes p.attributes_arranged;
    metadata_test =
        canonical_attributes_complete duplicate_metadata_key b.metadata p.metadata_arranged;
    kept = (
      p.location_kept, p.source_kept, p.type_kept, p.payload_kept, p.confidence_kept, p.tags_kept,
    );
  }

  -- `build` returns the event `e` exactly when the builder is within the contract and `e` is its
  -- canonical event: id, timestamp, source and type set, the timestamp RFC 3339, the position finite and
  -- on the planet, the type namespaced unless that was switched off, the confidence in range, at most 64
  -- tags, 128 attributes and 128 metadata entries; and the attributes and metadata are the given pairs in
  -- strictly ascending key order. So `build` fails on every other builder.
  pub build_iff :
      (b : EventBuilder F) (e : Event F)
      → (build b ≡ ok e → Built b e) × (Built b e → build b ≡ ok e)
  build_iff b e = (
    λ h. Built-of_Passed b e (build-Passed b e h),
    λ p. build_of_Passed b e (Passed-of_Built b e p),
  )

canonical_attributes_order {ℓ} :
    {E : Type ℓ} (e : Text → E) {ps qs : List Pair}
    → Perm ps qs
    → canonical_attributes e ps ≡ canonical_attributes e qs
unfolding canonical_attributes
canonical_attributes_order e {ps} {qs} r = elim (Option-cases (duplicate_key (sort_pairs ps))) [
  | inl n ↦ rw (← duplicate_key-sort_perm r, n, sort_pairs_order r n)
  | inr (k, s) ↦ rw (← duplicate_key-sort_perm r, s)
]

length-permᴰ : {ps qs : List Pair} → Permᴰ ps qs → length ps ≡ length qs
length-permᴰ Permᴰ.nil = refl
length-permᴰ (Permᴰ.cons e r) = ap suc (length-permᴰ r)
length-permᴰ (Permᴰ.swap e f) = refl
length-permᴰ (Permᴰ.trans r s) = length-permᴰ r ∙ length-permᴰ s

length-perm : {ps qs : List Pair} → Perm ps qs → length ps ≡ length qs
length-perm r = ∥∥₁_elim r (hlevel) length-permᴰ

module _ {F : Type 0} ⦃f : Float F⦄ where
  -- The order in which attributes and metadata were added does not change the result, an error included.
  pub build_order :
      (b : EventBuilder F) (attrs meta : List Pair)
      → Perm b.attributes attrs
      → Perm b.metadata meta
      → build (record b { attributes = attrs; metadata = meta }) ≡ build b
  unfolding build
  build_order b attrs meta r s = simp (
    ← length-perm r,
    ← length-perm s,
    ← canonical_attributes_order {E = BuildError F} duplicate_attribute_key r,
    ← canonical_attributes_order {E = BuildError F} duplicate_metadata_key s,
  )
