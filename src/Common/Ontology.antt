-- ===== src/Common/Ontology.antt =====
-- The mapping checks of rust/connectors/common/src/ontology.rs. The vendored ontology is an argument. Where
-- two types or attributes have one name, the maps that the code collects keep the last.

pub mod Check
pub mod Nearest
pub mod Ancestors
pub mod Route
use ajar_connectors.Prelude.{
  ℕ, zero, suc, Bool, true, false, not, ◌&&◌, ◌||◌, Option, none, some, is_some, List, [], ◌∷◌,
  ◌++◌, map, Text, text, text_eq, text_leb, strip_prefix, option_map, and_then, Result, ok, err,
  length, if◌then◌else◌,
}
use ajar_connectors.Sdk.Event.{Attribute, Event}
use ajar_connectors.Sdk.Builder.{EventBuilder, attribute, metadata_entry}
use ajar_connectors.Common.Marking.{lower_byte}

pub record AttrDef : Type 0 where
  pub name : Text
  pub unit : Option Text
  pub values : Option (List Text)

pub record TypeDef : Type 0 where
  pub id : Text
  pub parent : Option Text
  pub attributes : List AttrDef

pub record Ontology : Type 0 where
  pub version : Text
  pub types : List TypeDef

pub record Declared : Type 0 where
  pub entity_type : Text
  pub attributes : List Text
  pub fixed_values : List (Text × Text)

pub data Fault : Type 0 where
  unknown_entity_type : (name : Text) (closest : Option Text) → Fault
  unknown_attribute : (name : Text) (closest governed_on : Option Text) → Fault
  not_in_vocabulary : (attr value : Text) (allowed : List Text) → Fault

abbrev pub starts_with : Text → Text → Bool
starts_with p s = is_some (strip_prefix p s)

abbrev pub has_text : Text → List Text → Bool
has_text t [] = false
has_text t (x ∷ xs) = text_eq x t || has_text t xs

abbrev pub keep_later {ℓ} : {A : Type ℓ} → Option A → Option A → Option A
keep_later none a = a
keep_later (some b) a = some b

-- `by_id` and the index: the types by their id
unfoldable pub type_of : List TypeDef → Text → Option TypeDef
type_of [] id = none
type_of (t ∷ ts) id = keep_later (type_of ts id) (if text_eq t.id id then some t else none)

-- `allowed`: the attributes of a type by their name
unfoldable pub attr_of : List AttrDef → Text → Option AttrDef
attr_of [] name = none
attr_of (a ∷ as') name =
    keep_later (attr_of as' name) (if text_eq a.name name then some a else none)

unfoldable pub declares : TypeDef → Text → Bool
declares t name = has_text name (map (λ (a : AttrDef). a.name) t.attributes)

unfoldable pub operator_namespace : Text → Bool
operator_namespace entity_type = not (starts_with (text "mim:") entity_type)

abbrev declared_by : Option TypeDef → Text → Bool
declared_by none name = false
declared_by (some t) name = declares t name

unfoldable pub governs : Ontology → Text → Text → Bool
governs ont entity_type name =
    operator_namespace entity_type || declared_by (type_of ont.types entity_type) name

unfoldable pub knows_type : Ontology → Text → Bool
knows_type ont entity_type =
    operator_namespace entity_type || is_some (type_of ont.types entity_type)

-- The keys that the type `entity_type` does not govern.
unfoldable pub ungoverned_keys : Ontology → Text → List Attribute → List Text
ungoverned_keys ont entity_type [] = []
ungoverned_keys ont entity_type (a ∷ as') =
    let rest = ungoverned_keys ont entity_type as' in
    if governs ont entity_type a.key then rest else a.key ∷ rest

unfoldable pub ungoverned : {F : Type 0} → Ontology → Event F → List Text
ungoverned ont e = ungoverned_keys ont e.entity_type e.attributes

unfoldable pub governed :
    {F : Type 0} → Ontology → EventBuilder F → Text → Text → Text → EventBuilder F
governed ont b entity_type key value =
    if governs ont entity_type key then attribute b key value else metadata_entry b key value

abbrev to_ascii_lowercase : Text → Text
to_ascii_lowercase t = map lower_byte t

unfoldable pub closest : Text → List Text → Option Text
closest needle [] = none
closest needle (c ∷ hay) =
    if text_eq (to_ascii_lowercase c) (to_ascii_lowercase needle)
    then some c
    else closest needle hay

-- The loop of `nearest_ancestor_governing`: with a cycle of parents it does not end, and neither does any
-- number of rounds, which `none` stands for.
unfoldable pub nearest_ancestor_governing :
    ℕ → List TypeDef → Option Text → Text → Option (Option Text)
nearest_ancestor_governing zero types cur attr = none
nearest_ancestor_governing (suc fuel) types none attr = some none
nearest_ancestor_governing (suc fuel) types (some id) attr = elim (type_of types id) [
  | none ↦ some none
  | some t ↦ elim (declares t attr) [
    | true ↦ some (some t.id)
    | false ↦ nearest_ancestor_governing fuel types t.parent attr
  ]
]

-- `allowed.keys()`: the names in ascending order, each once
unfoldable pub insert_key : Text → List Text → List Text
insert_key k [] = k ∷ []
insert_key k (x ∷ xs) =
    let later = insert_key k xs in
    if text_eq k x then x ∷ xs else if text_leb k x then k ∷ x ∷ xs else x ∷ later

unfoldable pub attribute_keys : List AttrDef → List Text
attribute_keys [] = []
attribute_keys (a ∷ as') = insert_key a.name (attribute_keys as')

abbrev cons_fault : Fault → Option (List Fault) → Option (List Fault)
cons_fault f rest = option_map (λ (fs : List Fault). f ∷ fs) rest

-- The loop over `declared.attributes`.
unfoldable pub attribute_faults : ℕ → Ontology → TypeDef → List Text → Option (List Fault)
attribute_faults fuel ont def [] = some []
attribute_faults fuel ont def (name ∷ names) =
    let rest = attribute_faults fuel ont def names in
    if is_some (attr_of def.attributes name)
    then rest
    else and_then (nearest_ancestor_governing fuel ont.types def.parent name) (λ (on : Option Text).
      cons_fault (unknown_attribute name (closest name (attribute_keys def.attributes)) on) rest)

abbrev pub vocabulary : Option AttrDef → Option (List Text)
vocabulary none = none
vocabulary (some a) = a.values

abbrev pub value_fault_in : Text → Text → Option (List Text) → List Fault
value_fault_in name value none = []
value_fault_in name value (some values) =
    if has_text value values then [] else not_in_vocabulary name value values ∷ []

unfoldable pub value_fault : TypeDef → Text → Text → List Fault
value_fault def name value = value_fault_in name value (vocabulary (attr_of def.attributes name))

-- The loop over `declared.fixed_values`.
unfoldable pub value_faults : TypeDef → List (Text × Text) → List Fault
value_faults def [] = []
value_faults def ((name, value) ∷ rest) = value_fault def name value ++ value_faults def rest

abbrev pub type_faults : ℕ → Ontology → Declared → Option TypeDef → Option (List Fault)
type_faults fuel ont d none = some (
    unknown_entity_type d.entity_type
      (closest d.entity_type (map (λ (t : TypeDef). t.id) ont.types))
    ∷ [])
type_faults fuel ont d (some def) =
    option_map (λ (fs : List Fault). fs ++ value_faults def d.fixed_values)
      (attribute_faults fuel ont def d.attributes)

unfoldable pub check : ℕ → Ontology → Declared → Option (List Fault)
check fuel ont d =
    if starts_with (text "x:") d.entity_type
    then some []
    else type_faults fuel ont d (type_of ont.types d.entity_type)

-- The number of faults, if the connector is to refuse to start.
abbrev refusal : List Fault → Result ℕ (Unit {0})
refusal [] = ok tt
refusal (f ∷ fs) = err (length (f ∷ fs))

unfoldable pub enforce : ℕ → Ontology → Declared → Option (Result ℕ (Unit {0}))
enforce fuel ont d = option_map refusal (check fuel ont d)

unfoldable pub unit_of_attrs : List AttrDef → Text → Option AttrDef
unit_of_attrs [] name = none
unit_of_attrs (a ∷ as') name = if text_eq a.name name then some a else unit_of_attrs as' name

-- `flat_map(attributes).find(..)`: the first attribute of that name decides
unfoldable pub first_attribute : List TypeDef → Text → Option AttrDef
first_attribute [] name = none
first_attribute (t ∷ ts) name =
    keep_later (unit_of_attrs t.attributes name) (first_attribute ts name)

unfoldable pub unit_of : Ontology → Text → Option Text
unit_of ont name = and_then (first_attribute ont.types name) (λ (a : AttrDef). a.unit)
