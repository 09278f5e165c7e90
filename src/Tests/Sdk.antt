-- ===== src/Tests/Sdk.antt =====
-- The SDK on concrete inputs.
use mathlib.Core.List.Perm
use ajar_connectors.Prelude.{
  ◌+◌, ◌≡◌, refl, true, false, none, some, List, [], ◌∷◌, ◌++◌, Bytes, text, length, replicate,
  strip_prefix, split_once, contains, text_leb, text_eq, arith, ok, err,
}
use ajar_connectors.Prelude.Int.{ℤ, pos}
use ajar_connectors.Sdk.Event.{duplicate_attribute_key}
use ajar_connectors.Sdk.Rfc3339.{
  is_rfc3339, date_time_shape, date_time_ranges, zone_start, is_digit,
}
use ajar_connectors.Sdk.Rfc3339.Grammar.{DateTime, is_rfc3339_iff}
use ajar_connectors.Sdk.Namespace.{is_namespaced, Namespaced, is_namespaced_iff}
use ajar_connectors.Sdk.Keys.{sort_pairs, insert_pair, duplicate_key}
use ajar_connectors.Sdk.Builder.{
  EventBuilder, new, set_id, set_timestamp, set_confidence, attribute, build, canonical_attributes,
  check_location,
}
use ajar_connectors.Sdk.Builder.Correct.{Built, build_iff, build_order}
use ajar_connectors.Sdk.Seal.{truncated, seal, verify}
use ajar_connectors.Sdk.Seal.Envelope.{Genuine, verify-seal, verify_iff, verify_short}
use ajar_connectors.Sdk.Consumer.{
  Delivery, Guards, Stats, Message, guarded, handle_canonical, process, verified_events, mem_text,
  has_model,
}
use ajar_connectors.Sdk.Consumer.Stream.{Yields, Delivered, total, process_iff, verified_events_lem}
use ajar_connectors.Tests.Instances.{whole, toy, toy_laws, event_of, decode}

stamp_valid : is_rfc3339 (text "2024-02-30T23:59:60.123+05:30") ≡ true
unfolding is_rfc3339 date_time_shape date_time_ranges zone_start is_digit
stamp_valid = refl

stamp_no_fraction : is_rfc3339 (text "2024-02-30T23:59:60.Z") ≡ false
unfolding is_rfc3339 date_time_shape date_time_ranges zone_start is_digit
stamp_no_fraction = refl

is_rfc3339_iff_example : DateTime (text "2024-02-30T23:59:60.123+05:30")
is_rfc3339_iff_example = (is_rfc3339_iff (text "2024-02-30T23:59:60.123+05:30")).0 stamp_valid

vendor_type : is_namespaced (text "x:acme:drone") ≡ true
unfolding is_namespaced strip_prefix split_once contains
vendor_type = refl

is_namespaced_iff_example : Namespaced (text "x:acme:drone")
is_namespaced_iff_example = (is_namespaced_iff (text "x:acme:drone")).0 vendor_type

abbrev draft : EventBuilder ℤ
draft = record {
  source_id = text "s1";
  entity_type = text "mim:aircraft";
  id = some (text "7");
  timestamp = some (text "2024-01-02T03:04:05Z");
  location = none;
  payload = [];
  policy_tags = [];
  confidence = pos 1;
  attributes =
      record { key = text "b"; value = text "2" }
      ∷ record { key = text "a"; value = text "1" }
      ∷ [];
  metadata = [];
  strict_entity_namespace = true;
}

draft_chain :
    attribute
      (attribute
        (set_confidence
          (set_timestamp
            (set_id (new (text "s1") (text "mim:aircraft")) (text "7"))
            (text "2024-01-02T03:04:05Z"))
          (pos 1))
        (text "b")
        (text "2"))
      (text "a")
      (text "1")
    ≡ draft
unfolding attribute set_confidence set_timestamp set_id new
draft_chain = refl

draft_builds : build draft ≡ ok (event_of (text "s1"))
unfolding build is_rfc3339 date_time_shape date_time_ranges zone_start is_digit is_namespaced
    canonical_attributes sort_pairs insert_pair duplicate_key check_location strip_prefix contains
    text_leb text_eq
draft_builds = refl

build_iff_example : Built draft (event_of (text "s1"))
build_iff_example = (build_iff draft (event_of (text "s1"))).0 draft_builds

build_order_example :
    build (record draft {
      attributes =
          record { key = text "a"; value = text "1" }
          ∷ record { key = text "b"; value = text "2" }
          ∷ [];
      metadata = [];
    })
    ≡ build draft
build_order_example =
    build_order draft
      (record { key = text "a"; value = text "1" }
        ∷ record { key = text "b"; value = text "2" }
        ∷ [])
      [] (Perm.swap _ _ []) (Perm.refl [])

twice : build (attribute draft (text "a") (text "3")) ≡ err (duplicate_attribute_key (text "a"))
unfolding build is_rfc3339 date_time_shape date_time_ranges zone_start is_digit is_namespaced
    canonical_attributes sort_pairs insert_pair duplicate_key check_location strip_prefix contains
    text_leb text_eq attribute
twice = refl

abbrev sealed : Bytes
sealed = 5 ∷ (replicate 63 0 ++ text "s1")

sealed_verifies : verify toy sealed 5 ≡ ok (text "s1")
unfolding verify
sealed_verifies = refl

verify-seal_example : verify toy (seal toy (text "s1") 5) 5 ≡ ok (text "s1")
verify-seal_example = verify-seal toy toy_laws (text "s1") 5

verify_iff_example : Genuine toy sealed 5 (text "s1")
verify_iff_example = (verify_iff toy sealed 5 (text "s1")).0 sealed_verifies

verify_short_example : verify toy (1 ∷ []) 5 ≡ err (truncated 1)
verify_short_example = verify_short toy (1 ∷ []) 5 (omega arith)

abbrev zeros : Stats
zeros = record { accepted = 0; rejected = 0; skipped = 0 }

abbrev no_guards : Guards
no_guards = record { skip_source_ids = []; skip_derived = false }

abbrev good : Message
good = record { payload = sealed; subject = text "e" }

abbrev forged : Message
forged = record { payload = 4 ∷ (replicate 63 0 ++ text "s1"); subject = text "e" }

abbrev delivery : Delivery ℤ
delivery = record { event = event_of (text "s1"); payload = []; subject = text "e" }

good_delivered : (process toy decode 5 no_guards good zeros).0 ≡ some delivery
unfolding process verify handle_canonical guarded mem_text has_model
good_delivered = refl

process_iff_example : Delivered toy decode 5 no_guards good delivery
process_iff_example = (process_iff toy decode 5 no_guards good zeros delivery).0 good_delivered

abbrev stream : List (Delivery ℤ) × Stats
stream = verified_events toy decode 5 no_guards (good ∷ forged ∷ []) zeros

verified_events_lem_example :
    Yields toy decode 5 no_guards (good ∷ forged ∷ []) stream.0
    × (total stream.1 ≡ total zeros + 2)
    × (stream.1.accepted ≡ 0 + length stream.0)
verified_events_lem_example =
    verified_events_lem toy decode 5 no_guards (good ∷ forged ∷ []) zeros (omega arith)
