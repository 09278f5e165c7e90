-- ===== src/Common/Ontology/Ancestors.antt =====
-- `nearest_ancestor_governing` of rust/connectors/common/src/ontology.rs, and that `check` ends.
use ajar_connectors.Prelude.{
  ℕ, ◌≡◌, refl, ◌∙◌, inl, inr, Bool, true, false, Bool-cases, Option, none, some, is_some, List, [],
  ◌∷◌, ◌++◌, map, sym, Text, text, if◌then◌else◌, arith,
}
use ajar_connectors.Common.Ontology.Check.{InVocabulary, attr_of-declares}
use ajar_connectors.Common.Ontology.{
  TypeDef, Ontology, Declared, Fault, starts_with, has_text, type_of, attr_of, declares,
  attribute_faults, type_faults, check, closest, attribute_keys, unknown_attribute,
  unknown_entity_type, not_in_vocabulary, value_faults, value_fault, value_fault_in, vocabulary,
  unknown_entity_type, not_in_vocabulary, value_faults, value_fault, value_fault_in, vocabulary,
}
use ajar_connectors.Common.Ontology.Nearest.{
  Nearest, ParentBelow, Acyclic, type_of-Acyclic, lower, nearest-Found,
}

-- The faults of the attributes that a mapping declares for a type, in order: one for each that the type does
-- not declare, with the nearest ancestor that does.
pub data UnknownReported (types : List TypeDef) (def : TypeDef)
    : List Text → List Fault → Type 0 where
  no_names : UnknownReported types def [] []
  declared :
      {name : Text} {names : List Text} {fs : List Fault}
      → declares def name ≡ true
      → UnknownReported types def names fs
      → UnknownReported types def (name ∷ names) fs
  undeclared :
      {name : Text} {names : List Text} {fs : List Fault} (on : Option Text)
      → declares def name ≡ false
      → Nearest types name def.parent on
      → UnknownReported types def names fs
      → UnknownReported types def
          (name ∷ names)
          (unknown_attribute name (closest name (attribute_keys def.attributes)) on ∷ fs)

-- The faults of the values that a mapping fixes, in order: one for each that is not in its vocabulary.
pub data ValuesReported (def : TypeDef) : List (Text × Text) → List Fault → Type 0 where
  no_values : ValuesReported def [] []
  fits :
      {name value : Text} {pairs : List (Text × Text)} {fs : List Fault}
      → InVocabulary def (name, value)
      → ValuesReported def pairs fs
      → ValuesReported def ((name, value) ∷ pairs) fs
  unfit :
      {name value : Text} {pairs : List (Text × Text)} {fs : List Fault} (values : List Text)
      → vocabulary (attr_of def.attributes name) ≡ some values
      → has_text value values ≡ false
      → ValuesReported def pairs fs
      → ValuesReported def ((name, value) ∷ pairs) (not_in_vocabulary name value values ∷ fs)

-- The faults of a mapping whose type is not a vendor's.
abbrev pub TypeReported : Ontology → Declared → Option TypeDef → List Fault → Type 0
TypeReported ont d none fs =
    fs
    ≡ unknown_entity_type d.entity_type
        (closest d.entity_type (map (λ (t : TypeDef). t.id) ont.types))
      ∷ []
TypeReported ont d (some def) fs =
    (unknown : List Fault) × (unfit_values : List Fault) × (fs ≡ unknown ++ unfit_values)
    × UnknownReported ont.types def d.attributes unknown
    × ValuesReported def d.fixed_values unfit_values

-- A vendor's type has none.
abbrev pub Reported : Ontology → Declared → List Fault → Type 0
Reported ont d fs =
    if starts_with (text "x:") d.entity_type
    then fs ≡ []
    else TypeReported ont d (type_of ont.types d.entity_type) fs

attribute_faults-returns :
    (rank : Text → ℕ) (fuel : ℕ) (ont : Ontology) (def : TypeDef) (names : List Text)
    → Acyclic rank fuel ont.types
    → ParentBelow rank fuel def.parent
    → (fs : List Fault) × (attribute_faults fuel ont def names ≡ some fs)
      × UnknownReported ont.types def names fs
unfolding attribute_faults declares
attribute_faults-returns rank fuel ont def [] h below = ([], refl, no_names)
attribute_faults-returns rank fuel ont def (name ∷ names) h below =
    let (fs, e, reported) = attribute_faults-returns rank fuel ont def names h below in
    elim (Bool-cases (is_some (attr_of def.attributes name))) [
      | inl known ↦
          (fs, rw known e, declared (sym (attr_of-declares def.attributes name) ∙ known) reported)
      | inr other ↦
          let (on, found, nearest) =
            nearest-Found rank fuel fuel ont.types def.parent name h below in
          (
            unknown_attribute name (closest name (attribute_keys def.attributes)) on ∷ fs,
            rw (other, found, e),
            undeclared on (sym (attr_of-declares def.attributes name) ∙ other) nearest reported,
          )
    ]

module _ (def : TypeDef) (name value : Text) (pairs : List (Text × Text)) (fs : List Fault)
    (later : ValuesReported def pairs fs) where
  tested-reported :
      (values : List Text) (b : Bool)
      → vocabulary (attr_of def.attributes name) ≡ some values
      → has_text value values ≡ b
      → ValuesReported def
          ((name, value) ∷ pairs)
          ((if b then [] else not_in_vocabulary name value values ∷ []) ++ fs)
  tested-reported values true e h = fits (inr (values, e, h)) later
  tested-reported values false e h = unfit values e h later

  value_fault-reported :
      (o : Option (List Text))
      → vocabulary (attr_of def.attributes name) ≡ o
      → ValuesReported def ((name, value) ∷ pairs) (value_fault_in name value o ++ fs)
  value_fault-reported none e = fits (inl e) later
  value_fault-reported (some values) e = tested-reported values (has_text value values) e refl

value_faults-reported :
    (def : TypeDef) (pairs : List (Text × Text)) → ValuesReported def pairs (value_faults def pairs)
unfolding value_faults value_fault
value_faults-reported def [] = no_values
value_faults-reported def ((name, value) ∷ pairs) =
    value_fault-reported def name value pairs (value_faults def pairs)
      (value_faults-reported def pairs) (vocabulary (attr_of def.attributes name)) refl

type_faults-returns :
    (rank : Text → ℕ) (fuel : ℕ) (ont : Ontology) (d : Declared) (o : Option TypeDef)
    → Acyclic rank fuel ont.types
    → type_of ont.types d.entity_type ≡ o
    → (fs : List Fault) × (type_faults fuel ont d o ≡ some fs) × TypeReported ont d o fs
type_faults-returns rank fuel ont d none h e = (_, refl, refl)
type_faults-returns rank fuel ont d (some def) h e =
    let up = type_of-Acyclic rank fuel ont.types d.entity_type def h e in
    let (fs, f, reported) =
      attribute_faults-returns rank fuel ont def d.attributes h
        (lower rank def.parent (rank d.entity_type) fuel (omega (arith, up.1)) up.0) in
    (
      fs ++ value_faults def d.fixed_values,
      rw f,
      (
        fs,
        value_faults def d.fixed_values,
        refl,
        reported,
        value_faults-reported def d.fixed_values,
      ),
    )

-- Where no type of the ontology is its own ancestor, the check of a mapping ends within as many rounds as the
-- ranks ask for, with these faults and no others: none for a vendor's type; the type itself if the ontology
-- does not have it; or else, in order, each attribute that the type does not declare, with the nearest ancestor
-- that does, and each value that is not in the vocabulary of its attribute.
pub check-returns :
    (rank : Text → ℕ) (fuel : ℕ) (ont : Ontology) (d : Declared)
    → Acyclic rank fuel ont.types
    → (fs : List Fault) × (check fuel ont d ≡ some fs) × Reported ont d fs
unfolding check
check-returns rank fuel ont d h = elim (Bool-cases (starts_with (text "x:") d.entity_type)) [
  | inl x ↦ ([], rw x, rw x refl)
  | inr other ↦
      let (fs, e, reported) =
        type_faults-returns rank fuel ont d (type_of ont.types d.entity_type) h refl in
      (fs, rw other e, rw other reported)
]
