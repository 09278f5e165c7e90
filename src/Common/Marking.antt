-- ===== src/Common/Marking.antt =====
-- The security marking of rust/connectors/common/src/marking.rs.
pub mod Apply
use ajar_connectors.Prelude.{
  ℕ, suc, ◌+◌, ◌-◌, min, ◌≤◌, Bool, true, false, not, ◌&&◌, ◌||◌, Option, none, some, List, [], ◌∷◌,
  ◌++◌, map, Text, text, text_eq, strip_prefix, length, take, drop, get_elem?, is_empty, is_some,
  ltb, leb, ◌==◌, Result, ok, err, ◌>>=◌, ◌>>◌, reject_if, ok_or, option_map, and_then, unwrap_or,
  if◌then◌else◌,
}
use ajar_connectors.Prelude.Scan.{trim}
use ajar_connectors.Sdk.Event.{Event}

pub data Level : Type 0 where
  unclassified : Level
  restricted : Level
  confidential : Level
  secret : Level
  top_secret : Level

-- `LEVELS`, and the position of a level in it.
unfoldable pub level_text : Level → Text
level_text unclassified = text "unclassified"
level_text restricted = text "restricted"
level_text confidential = text "confidential"
level_text secret = text "secret"
level_text top_secret = text "top-secret"

unfoldable pub rank : Level → ℕ
rank unclassified = 0
rank restricted = 1
rank confidential = 2
rank secret = 3
rank top_secret = 4

pub record MarkingConfig : Type 0 where
  pub classification : Option Text
  pub releasable_to : List Text
  pub policy : Option Text
  pub caveats : List Text

pub data MarkingError : Type 0 where
  nothing_set : MarkingError
  unknown_level : Text → MarkingError
  bad_token : (field value : Text) → MarkingError
  too_many : ℕ → MarkingError

abbrev pub max_config_tags : ℕ
max_config_tags = 16

abbrev pub lower_byte : ℕ → ℕ
lower_byte b = if leb 65 b && leb b 90 then b + 32 else b

abbrev upper_byte : ℕ → ℕ
upper_byte b = if leb 97 b && leb b 122 then b - 32 else b

-- `replace(['_', '-'], " ")`
abbrev spaced_byte : ℕ → ℕ
spaced_byte b = if (b == 95) || (b == 45) then 32 else b

abbrev any_of : List Text → Text → Bool
any_of [] s = false
any_of (t ∷ ts) s = text_eq t s || any_of ts s

unfoldable pub level_of : Text → Option Level
level_of s =
    if any_of (text "unclassified" ∷ text "unclass" ∷ text "u" ∷ []) s
    then some unclassified
    else if any_of (text "restricted" ∷ text "r" ∷ []) s
    then some restricted
    else if any_of (text "confidential" ∷ text "c" ∷ []) s
    then some confidential
    else if any_of (text "secret" ∷ text "s" ∷ []) s
    then some secret
    else if any_of (text "top secret" ∷ text "topsecret" ∷ text "ts" ∷ []) s
    then some top_secret
    else none

unfoldable pub classification_level : Text → Option Level
classification_level raw = level_of (map (λ b. spaced_byte (lower_byte b)) (trim raw))

abbrev token_byte : ℕ → Bool
token_byte b =
    (leb 48 b && leb b 57)
    || (leb 65 b && leb b 90)
    || (leb 97 b && leb b 122)
    || (b == 45)
    || (b == 95)

abbrev every : (ℕ → Bool) → Text → Bool
every p [] = true
every p (b ∷ bs) = p b && every p bs

unfoldable pub token : Text → Text → Result MarkingError Text
token field raw =
    let t = map upper_byte (trim raw) in
    if not (is_empty t) && leb (length t) 32 && every token_byte t
    then ok t
    else err (bad_token field raw)

-- `push` of from_config: no tag twice.
unfoldable pub push_new : Text → List Text → List Text
push_new tag tags = if any_of tags tag then tags else tags ++ tag ∷ []

unfoldable pub push_class : Option Text → List Text → Result MarkingError (List Text)
push_class none tags = ok tags
push_class (some raw) tags = do
  level ← ok_or (classification_level raw) (unknown_level raw)
  ok (push_new (text "class:" ++ level_text level) tags)

unfoldable pub push_policy : Option Text → List Text → Result MarkingError (List Text)
push_policy none tags = ok tags
push_policy (some raw) tags = do
  t ← token (text "policy") raw
  ok (push_new (text "policy:" ++ t) tags)

unfoldable pub push_tokens : Text → Text → List Text → List Text → Result MarkingError (List Text)
push_tokens field prefix [] tags = ok tags
push_tokens field prefix (raw ∷ raws) tags = do
  t ← token field raw
  push_tokens field prefix raws (push_new (prefix ++ t) tags)

unfoldable pub from_config : MarkingConfig → Result MarkingError (List Text)
from_config cfg = do
  classed ← push_class cfg.classification []
  policied ← push_policy cfg.policy classed
  released ← push_tokens (text "releasable_to") (text "rel:") cfg.releasable_to policied
  tags ← push_tokens (text "caveats") (text "caveat:") cfg.caveats released
  reject_if (is_empty tags) nothing_set
  reject_if (ltb max_config_tags (length tags)) (too_many (length tags))
  ok tags

abbrev pub class_prefix : Text
class_prefix = text "class:"

-- The level of a `class:` tag that Core would read.
unfoldable pub ranked : Text → Option Level
ranked t = and_then (strip_prefix class_prefix t) classification_level

abbrev first_class : List Text → Option Text
first_class [] = none
first_class (t ∷ ts) = elim (strip_prefix class_prefix t) [
  | none ↦ first_class ts
  | some rest ↦ some rest
]

unfoldable pub floor_of : List Text → Option Level
floor_of tags = and_then (first_class tags) classification_level

abbrev pub higher : Level → Level → Level
higher a b = if ltb (rank a) (rank b) then b else a

abbrev raise : Level → Option Level → Level
raise a none = a
raise a (some b) = higher a b

unfoldable pub highest : Level → List Text → Level
highest a [] = a
highest a (t ∷ ts) = highest (raise a (ranked t)) ts

-- `position(|t| ranked(t).is_some()).unwrap_or(0)`
abbrev position_from : ℕ → List Text → Option ℕ
position_from i [] = none
position_from i (t ∷ ts) = if is_some (ranked t) then some i else position_from (suc i) ts

unfoldable pub unranked : List Text → List Text
unranked [] = []
unranked (t ∷ ts) = if is_some (ranked t) then unranked ts else t ∷ unranked ts

unfoldable pub resolve_class : Level → List Text → List Text
resolve_class floor wire =
    let rest = unranked wire in
    let place = min (unwrap_or (position_from 0 wire) 0) (length rest) in
    take place rest ++ (class_prefix ++ level_text (highest floor wire)) ∷ drop place rest

abbrev resolve : Option Level → List Text → List Text
resolve none wire = wire
resolve (some floor) wire = resolve_class floor wire

unfoldable pub add_missing : List Text → List Text → List Text
add_missing [] wire = wire
add_missing (t ∷ ts) wire =
    if is_some (strip_prefix class_prefix t)
    then add_missing ts wire
    else add_missing ts (push_new t wire)

-- The policy tags of an event after `Marking::apply`.
unfoldable pub apply_tags : List Text → List Text → List Text
apply_tags tags wire = add_missing tags (resolve (floor_of tags) wire)

unfoldable pub apply : {F : Type 0} → List Text → Event F → Event F
apply tags event = record event { policy_tags = apply_tags tags event.policy_tags }

abbrev pub named_level : Text → Option Level × Option Text
named_level upper =
    if text_eq upper (text "COSMIC TOP SECRET")
    then (some top_secret, some (text "NATO"))
    else elim (strip_prefix (text "NATO ") upper) [
      | some rest ↦ (classification_level rest, some (text "NATO"))
      | none ↦ (classification_level upper, none)
    ]

abbrev pub token_of : Option Text → Option Text
token_of none = none
token_of (some p) = elim (token (text "policy") p) [ ok t ↦ some t | err e ↦ none ]

abbrev policy_tags_of : Option Text → Option Text → List Text
policy_tags_of (some p) named = (text "policy:" ++ p) ∷ []
policy_tags_of none (some p) = (text "policy:" ++ p) ∷ []
policy_tags_of none none = []

unfoldable pub wire_classification : Text → Option Text → List Text
wire_classification raw policy_id =
    let upper = map (λ b. spaced_byte (upper_byte b)) (trim raw) in
    let (level, named) = named_level upper in
    if is_empty upper
    then []
    else (class_prefix ++ level_text (unwrap_or level top_secret))
      ∷ policy_tags_of (token_of policy_id) named
