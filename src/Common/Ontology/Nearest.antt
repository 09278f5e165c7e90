-- ===== src/Common/Ontology/Nearest.antt =====
-- The walk over the parents of a type in rust/connectors/common/src/ontology.rs (`nearest_ancestor_governing`).
use ajar_connectors.Prelude.{
  ℕ, zero, suc, ◌≤◌, ◌<◌, ◌≡◌, refl, ap, ◌∙◌, inl, inr, subst, Bool, true, false, Bool-cases,
  Option, none, some, Option-cases, List, [], ◌∷◌, All, Text, text_eq, text_eq→eq, if◌then◌else◌,
  arith,
}
use ajar_connectors.Common.Ontology.{TypeDef, type_of, declares, nearest_ancestor_governing}

-- Walking up from `cur`, the first type that declares `attr`.
pub data Nearest (types : List TypeDef) (attr : Text) : Option Text → Option Text → Type 0 where
  no_parent : Nearest types attr none none
  unknown_parent : {id : Text} → type_of types id ≡ none → Nearest types attr (some id) none
  here :
      {id : Text} (t : TypeDef)
      → type_of types id ≡ some t
      → declares t attr ≡ true
      → Nearest types attr (some id) (some t.id)
  further :
      {id : Text} {r : Option Text} (t : TypeDef)
      → type_of types id ≡ some t
      → declares t attr ≡ false
      → Nearest types attr t.parent r
      → Nearest types attr (some id) r

-- The rank of a parent is below `n`.
abbrev pub ParentBelow : (Text → ℕ) → ℕ → Option Text → Type 0
ParentBelow rank n none = 0 < n
ParentBelow rank n (some id) = rank id < n

-- No type is its own ancestor: each ranks above its parent, and all rank below the number of rounds.
abbrev pub Acyclic : (Text → ℕ) → ℕ → List TypeDef → Type 0
Acyclic rank fuel types =
    All (λ (t : TypeDef). ParentBelow rank (rank t.id) t.parent × (rank t.id < fuel)) types

some_inj : (x t : TypeDef) → some x ≡ some t → x ≡ t
some_inj x t f = cc

pub type_of-Acyclic :
    (rank : Text → ℕ) (fuel : ℕ) (types : List TypeDef) (id : Text) (t : TypeDef)
    → Acyclic rank fuel types
    → type_of types id ≡ some t
    → ParentBelow rank (rank id) t.parent × (rank id < fuel)
unfolding type_of
type_of-Acyclic rank fuel [] id t h e = cc
type_of-Acyclic rank fuel (x ∷ types) id t h e = elim (Option-cases (type_of types id)) [
  | inl absent ↦ last (text_eq x.id id) refl (rw absent at e)
  | inr (u, found) ↦ type_of-Acyclic rank fuel types id t h.1 (found ∙ (rw found at e))
]
  where
    last :
        (same : Bool)
        → text_eq x.id id ≡ same
        → (if same then some x else none) ≡ some t
        → ParentBelow rank (rank id) t.parent × (rank id < fuel)
    last true s f =
        subst (λ (y : Text). ParentBelow rank (rank y) t.parent × (rank y < fuel))
          (text_eq→eq x.id id s)
          (subst (λ (y : TypeDef). ParentBelow rank (rank x.id) y.parent × (rank x.id < fuel))
            (some_inj x t f) h.0)
    last false s f = cc

nearest-known :
    (fuel : ℕ) (types : List TypeDef) (id attr : Text) (t : TypeDef)
    → type_of types id ≡ some t
    → nearest_ancestor_governing (suc fuel) types (some id) attr
      ≡ elim (declares t attr) as (λ b. Option (Option Text)) [
        | true ↦ some (some t.id)
        | false ↦ nearest_ancestor_governing fuel types t.parent attr
      ]
unfolding nearest_ancestor_governing
nearest-known fuel types id attr t h =
    ap
      (λ (o : Option TypeDef). elim o as (λ x. Option (Option Text)) [
        | none ↦ some none
        | some t ↦ elim (declares t attr) as (λ b. Option (Option Text)) [
          | true ↦ some (some t.id)
          | false ↦ nearest_ancestor_governing fuel types t.parent attr
        ]
      ])
      h

nearest-unknown :
    (fuel : ℕ) (types : List TypeDef) (id attr : Text)
    → type_of types id ≡ none
    → nearest_ancestor_governing (suc fuel) types (some id) attr ≡ some none
unfolding nearest_ancestor_governing
nearest-unknown fuel types id attr h =
    ap
      (λ (o : Option TypeDef). elim o as (λ x. Option (Option Text)) [
        | none ↦ some none
        | some t ↦ elim (declares t attr) as (λ b. Option (Option Text)) [
          | true ↦ some (some t.id)
          | false ↦ nearest_ancestor_governing fuel types t.parent attr
        ]
      ])
      h

abbrev Found : ℕ → List TypeDef → Option Text → Text → Type 0
Found fuel types cur attr =
    (r : Option Text) × (nearest_ancestor_governing fuel types cur attr ≡ some r)
    × Nearest types attr cur r

pub lower :
    (rank : Text → ℕ) (parent : Option Text) (m n : ℕ)
    → m ≤ n
    → ParentBelow rank m parent
    → ParentBelow rank n parent
lower rank none m n l h = omega arith
lower rank (some id) m n l h = omega arith

pub nearest-Found :
    (rank : Text → ℕ) (all fuel : ℕ) (types : List TypeDef) (cur : Option Text) (attr : Text)
    → Acyclic rank all types
    → ParentBelow rank fuel cur
    → Found fuel types cur attr
unfolding nearest_ancestor_governing
nearest-Found rank all zero types none attr h below = absurd (omega (arith, below))
nearest-Found rank all (suc fuel) types none attr h below = (none, refl, no_parent)
nearest-Found rank all zero types (some id) attr h below = absurd (omega (arith, below))
nearest-Found rank all (suc fuel) types (some id) attr h below =
    elim (Option-cases (type_of types id)) [
      | inl absent ↦ (none, nearest-unknown fuel types id attr absent, unknown_parent absent)
      | inr (t, found) ↦
          let up = type_of-Acyclic rank all types id t h found in
          elim (Bool-cases (declares t attr)) [
            | inl has ↦
                (some t.id, rw (nearest-known fuel types id attr t found, has), here t found has)
            | inr lacks ↦
                let (r, e, n) =
                  nearest-Found rank all fuel types t.parent attr h
                    (lower rank t.parent (rank id) fuel (omega (arith, below)) up.0) in
                (r, rw (nearest-known fuel types id attr t found, lacks) e, further t found lacks n)
          ]
    ]
