-- ===== src/Common/Identity.antt =====
-- The governed identity of rust/connectors/common/src/identity.rs.
use ajar_connectors.Prelude.{ℕ, ◌||◌, Text, text, length, is_empty, ltb, if◌then◌else◌}
use ajar_connectors.Sdk.Builder.{EventBuilder, attribute}

abbrev pub max_alt_id_len : ℕ
max_alt_id_len = 128

module _ {F : Type 0} where
  unfoldable pub identity : Text → Text → EventBuilder F → EventBuilder F
  identity standard id b =
      if is_empty id || ltb max_alt_id_len (length id)
      then b
      else attribute (attribute b (text "alt_id") id) (text "alt_id_standard") standard

  -- `.attribute` and `.metadata`, the builder last
  abbrev pub put_attribute : Text → Text → EventBuilder F → EventBuilder F
  put_attribute k v b = attribute b k v
