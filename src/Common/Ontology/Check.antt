-- ===== src/Common/Ontology/Check.antt =====
-- `check` of rust/connectors/common/src/ontology.rs, and what a builder that routes every value by
-- `governed` leaves to Core.
use ajar_connectors.Prelude.{
  ℕ, ◌≡◌, ◌↔◌, refl, ap, ◌∙◌, sym, ◌⊎◌, inl, inr, Bool, true, false, Bool-cases, ◌||◌, Option, none,
  some, is_some, List, [], ◌∷◌, ◌++◌, map, All, Text, text, text_eq, option_map, and_then,
  if◌then◌else◌,
}
use ajar_connectors.Common.Ontology.{
  AttrDef, TypeDef, Ontology, Declared, Fault, unknown_attribute, not_in_vocabulary, starts_with,
  has_text, type_of, attr_of, declares, attribute_faults, vocabulary, value_fault, value_fault_in,
  value_faults, type_faults, check, keep_later,
}

keep_later-some :
    {A : Type 0} (l a : Option A) → is_some (keep_later l a) ≡ (is_some a || is_some l)
keep_later-some none none = refl
keep_later-some none (some a) = refl
keep_later-some (some l) none = refl
keep_later-some (some l) (some a) = refl

pub attr_of-declares :
    (attrs : List AttrDef) (name : Text)
    → is_some (attr_of attrs name) ≡ has_text name (map (λ (a : AttrDef). a.name) attrs)
unfolding attr_of
attr_of-declares [] name = refl
attr_of-declares (a ∷ attrs) name =
    keep_later-some (attr_of attrs name) (if text_eq a.name name then some a else none)
    ∙ there (text_eq a.name name)
    ∙ ap (λ (b : Bool). text_eq a.name name || b) (attr_of-declares attrs name)
  where
    there :
        (b : Bool)
        → (is_some (if b then some a else none) || is_some (attr_of attrs name))
          ≡ (b || is_some (attr_of attrs name))
    there true = refl
    there false = refl

-- The value is in the vocabulary of the attribute, if it has one.
abbrev pub InVocabulary : TypeDef → Text × Text → Type 0
InVocabulary def (name, value) =
    (vocabulary (attr_of def.attributes name) ≡ none)
    ⊎ ((values : List Text) × (vocabulary (attr_of def.attributes name) ≡ some values)
        × (has_text value values ≡ true))

-- The type is the vendor's, or is in the ontology with every attribute, and every value is in its vocabulary.
pub Conforms : Ontology → Declared → Type 0
Conforms ont d =
    (starts_with (text "x:") d.entity_type ≡ true)
    ⊎ ((def : TypeDef) × (type_of ont.types d.entity_type ≡ some def)
        × All (λ (name : Text). declares def name ≡ true) d.attributes
        × All (InVocabulary def) d.fixed_values)

attribute_faults-known :
    (fuel : ℕ) (ont : Ontology) (def : TypeDef) (names : List Text)
    → All (λ (name : Text). declares def name ≡ true) names
    → attribute_faults fuel ont def names ≡ some []
unfolding attribute_faults declares
attribute_faults-known fuel ont def [] h = refl
attribute_faults-known fuel ont def (name ∷ names) h =
    rw (attr_of-declares def.attributes name, h.0) (attribute_faults-known fuel ont def names h.1)

no_faults :
    (f : Fault) (o : Option (Option Text)) (k : Option Text → Fault) (rest : Option (List Fault))
    → and_then o (λ (on : Option Text). option_map (λ (fs : List Fault). k on ∷ fs) rest) ≡ some []
    → ⊥
no_faults f none k rest h = cc
no_faults f (some on) k none h = cc
no_faults f (some on) k (some fs) h = cc

known-attribute_faults :
    (fuel : ℕ) (ont : Ontology) (def : TypeDef) (names : List Text)
    → attribute_faults fuel ont def names ≡ some []
    → All (λ (name : Text). declares def name ≡ true) names
unfolding attribute_faults declares
known-attribute_faults fuel ont def [] h = tt
known-attribute_faults fuel ont def (name ∷ names) h =
    elim (Bool-cases (is_some (attr_of def.attributes name))) [
      | inl known ↦ (
        sym (attr_of-declares def.attributes name) ∙ known,
        known-attribute_faults fuel ont def names (rw known at h),
      )
      | inr other ↦ absurd (no_faults (unknown_attribute name none none) _ _ _ (rw other at h))
    ]

no_value_fault :
    (name value : Text) (values : List Text) (fits : Bool)
    → (if fits then [] else not_in_vocabulary name value values ∷ []) ≡ []
    → fits ≡ true
no_value_fault name value values true h = refl
no_value_fault name value values false h = cc

value_fault-fits :
    (def : TypeDef) (name value : Text)
    → InVocabulary def (name, value)
    → value_fault def name value ≡ []
unfolding value_fault
value_fault-fits def name value (inl e) = ap (value_fault_in name value) e
value_fault-fits def name value (inr (values, e, fits)) = ap (value_fault_in name value) e ∙ rw fits

fits-value_fault :
    (def : TypeDef) (name value : Text)
    → value_fault def name value ≡ []
    → InVocabulary def (name, value)
unfolding value_fault
fits-value_fault def name value h = fits (vocabulary (attr_of def.attributes name)) h
  where
    fits :
        (o : Option (List Text))
        → value_fault_in name value o ≡ []
        → (o ≡ none) ⊎ ((values : List Text) × (o ≡ some values) × (has_text value values ≡ true))
    fits none h = inl refl
    fits (some values) h =
        inr (values, refl, no_value_fault name value values (has_text value values) h)

both_empty : {A : Type 0} (xs ys : List A) → xs ++ ys ≡ [] → (xs ≡ []) × (ys ≡ [])
both_empty [] ys h = (refl, h)
both_empty (x ∷ xs) ys h = cc

value_faults-fit :
    (def : TypeDef) (pairs : List (Text × Text))
    → All (InVocabulary def) pairs
    → value_faults def pairs ≡ []
unfolding value_faults
value_faults-fit def [] h = refl
value_faults-fit def ((name, value) ∷ rest) h =
    rw (value_fault-fits def name value h.0) (value_faults-fit def rest h.1)

fit-value_faults :
    (def : TypeDef) (pairs : List (Text × Text))
    → value_faults def pairs ≡ []
    → All (InVocabulary def) pairs
unfolding value_faults
fit-value_faults def [] h = tt
fit-value_faults def ((name, value) ∷ rest) h =
    let e = both_empty (value_fault def name value) (value_faults def rest) h in
    (fits-value_fault def name value e.0, fit-value_faults def rest e.1)

none_found :
    (fs : Option (List Fault)) (more : List Fault)
    → option_map (λ (x : List Fault). x ++ more) fs ≡ some []
    → (fs ≡ some []) × (more ≡ [])
none_found none more h = cc
none_found (some []) more h = (refl, cc)
none_found (some (f ∷ fs)) more h = cc

vendor_passes :
    (x : Bool) (faults : Option (List Fault))
    → (if x then some [] else faults) ≡ some []
    → (x ≡ true) ⊎ (faults ≡ some [])
vendor_passes true faults h = inl refl
vendor_passes false faults h = inr h

known_type :
    (fuel : ℕ) (ont : Ontology) (d : Declared) (o : Option TypeDef)
    → type_faults fuel ont d o ≡ some []
    → type_of ont.types d.entity_type ≡ o
    → Conforms ont d
unfolding Conforms
known_type fuel ont d none h e = cc
known_type fuel ont d (some def) h e =
    let parts =
      none_found (attribute_faults fuel ont def d.attributes) (value_faults def d.fixed_values) h in
    inr (
      def,
      e,
      known-attribute_faults fuel ont def d.attributes parts.0,
      fit-value_faults def d.fixed_values parts.1,
    )

-- The check of a declared mapping finds no fault exactly when the type is a vendor's `x:` type, or is in the
-- ontology, declares each attribute itself, and has each fixed value in the attribute's vocabulary if there is one.
pub check_iff :
    (fuel : ℕ) (ont : Ontology) (d : Declared) → (check fuel ont d ≡ some []) ↔ Conforms ont d
unfolding check Conforms
check_iff fuel ont d = (
  (λ h. elim (vendor_passes _ _ h) [
    | inl x ↦ inl x
    | inr faults ↦ known_type fuel ont d _ faults refl
  ]),
  (λ h. passes h),
)
  where
    passes : Conforms ont d → check fuel ont d ≡ some []
    passes (inl x) = rw x
    passes (inr (def, e, known, fits)) = elim (Bool-cases (starts_with (text "x:") d.entity_type)) [
      | inl x ↦ rw x
      | inr other ↦ rw (
        other,
        e,
        attribute_faults-known fuel ont def d.attributes known,
        value_faults-fit def d.fixed_values fits,
      )
    ]
