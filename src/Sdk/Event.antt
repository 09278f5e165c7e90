-- ===== src/Sdk/Event.antt =====
-- The event of rust/ajar-connector/contract, which `prost` turns into Rust structs, and the builder's
-- errors (rust/ajar-connector/src/error.rs). `F` is `f64`.
use ajar_connectors.Prelude.{ℕ, List, Option, Text, Bytes}

pub record GeoPoint (F : Type 0) : Type 0 where
  pub latitude : F
  pub longitude : F
  pub altitude_m : F

pub record Attribute : Type 0 where
  pub key : Text
  pub value : Text

pub record Event (F : Type 0) : Type 0 where
  pub schema_version : Text
  pub id : Text
  pub source_id : Text
  pub entity_type : Text
  pub timestamp : Text
  pub received_at : Text
  pub location : Option (GeoPoint F)
  pub payload : Bytes
  pub policy_tags : List Text
  pub confidence : F
  pub attributes : List Attribute
  pub metadata : List Attribute

pub data BuildError (F : Type 0) : Type 0 where
  missing_field : Text → BuildError F
  duplicate_attribute_key : Text → BuildError F
  too_many_attributes : (count max : ℕ) → BuildError F
  duplicate_metadata_key : Text → BuildError F
  too_many_metadata : (count max : ℕ) → BuildError F
  too_many_policy_tags : (count max : ℕ) → BuildError F
  unnamespaced_entity_type : Text → BuildError F
  confidence_out_of_range : F → BuildError F
  invalid_timestamp : Text → BuildError F
  invalid_location : (latitude longitude : F) → BuildError F
