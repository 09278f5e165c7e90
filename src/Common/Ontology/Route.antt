-- ===== src/Common/Ontology/Route.antt =====
-- `governed` and `ungoverned` of rust/connectors/common/src/ontology.rs: routing by the event's own type.
use mathlib.Core.List.{Perm, Mem, mem-cons, mem-cons_self, not-mem-nil, mem-cons_of_mem}
use mathlib.Core.List.Perm
use mathlib.Core.Logic.Or
use ajar_connectors.Prelude.{
  ◌≡◌, refl, sym, ◌∙◌, inl, inr, subst, true, Bool-cases, List, [], ◌∷◌, map, All, All-append, Text,
  ok,
}
use ajar_connectors.Prelude.Float.{Float}
use ajar_connectors.Sdk.Event.{Event}
use ajar_connectors.Sdk.Keys.{Pair}
use ajar_connectors.Sdk.Builder.{EventBuilder, build, attribute, metadata_entry, to_attribute}
use ajar_connectors.Sdk.Builder.Correct.{build_iff}
use ajar_connectors.Common.Ontology.{Ontology, governs, ungoverned, ungoverned_keys, governed}

-- The calls `.governed(type, key, value)` one after another, the type being the builder's.
unfoldable pub governed_all :
    {F : Type 0} → Ontology → List (Text × Text) → EventBuilder F → EventBuilder F
governed_all ont [] b = b
governed_all ont ((key, value) ∷ rest) b =
    governed_all ont rest (governed ont b b.entity_type key value)

-- Each pair has a key that the type governs.
abbrev Governed : Ontology → Text → List Pair → Type 0
Governed ont entity_type ps = All (λ (p : Pair). governs ont entity_type p.key ≡ true) ps

module _ (ont : Ontology) (entity_type : Text) where
  Mem-Governed :
      (p : Pair) (ps : List Pair)
      → Governed ont entity_type ps
      → Mem p ps
      → governs ont entity_type p.key ≡ true
  Mem-Governed p [] h m = absurd (not-mem-nil m)
  Mem-Governed p (x ∷ ps) h m =
      Or.elim (hlevel) (mem-cons.0 m) (λ e. rw e h.0) (Mem-Governed p ps h.1)

  Governed-of_Mem :
      (ps : List Pair)
      → ((p : Pair) → Mem p ps → governs ont entity_type p.key ≡ true)
      → Governed ont entity_type ps
  Governed-of_Mem [] h = tt
  Governed-of_Mem (p ∷ ps) h =
      (h p mem-cons_self, Governed-of_Mem ps (λ x m. h x (mem-cons_of_mem p m)))

  Governed-perm :
      (ps qs : List Pair) → Perm ps qs → Governed ont entity_type qs → Governed ont entity_type ps
  Governed-perm ps qs same h =
      Governed-of_Mem ps (λ p m. Mem-Governed p qs h ((Perm.mem_iff same).0 m))

  ungoverned_keys-Governed :
      (ps : List Pair)
      → Governed ont entity_type ps
      → ungoverned_keys ont entity_type (map to_attribute ps) ≡ []
  unfolding ungoverned_keys
  ungoverned_keys-Governed [] h = refl
  ungoverned_keys-Governed (p ∷ ps) h = rw h.0 (ungoverned_keys-Governed ps h.1)

-- What routing by `governed` leaves of a builder.
record Routed {F : Type 0} (ont : Ontology) (b b' : EventBuilder F) : Type 0 where
  same_type : b'.entity_type ≡ b.entity_type
  attributes_governed :
      Governed ont b.entity_type b.attributes → Governed ont b.entity_type b'.attributes

governed-Routed :
    {F : Type 0} (ont : Ontology) (b : EventBuilder F) (key value : Text)
    → Routed ont b (governed ont b b.entity_type key value)
unfolding governed attribute metadata_entry
governed-Routed ont b key value = elim (Bool-cases (governs ont b.entity_type key)) [
  | inl yes_governed ↦ rw yes_governed (record {
    same_type = refl;
    attributes_governed = λ h. All-append _ b.attributes _ h (yes_governed, tt);
  })
  | inr not_governed ↦ rw not_governed (record { same_type = refl; attributes_governed = λ h. h })
]

governed_all-Routed :
    {F : Type 0} (ont : Ontology) (pairs : List (Text × Text)) (b : EventBuilder F)
    → Routed ont b (governed_all ont pairs b)
unfolding governed_all
governed_all-Routed ont [] b = record { same_type = refl; attributes_governed = λ h. h }
governed_all-Routed ont ((key, value) ∷ rest) b =
    let one = governed-Routed ont b key value in
    let others = governed_all-Routed ont rest (governed ont b b.entity_type key value) in
    record {
      same_type = others.same_type ∙ one.same_type;
      attributes_governed = λ h.
          subst
            (λ (t : Text).
              Governed ont t
                (governed_all ont rest (governed ont b b.entity_type key value)).attributes)
            one.same_type
            (others.attributes_governed (
              subst
                (λ (t : Text). Governed ont t (governed ont b b.entity_type key value).attributes)
                (sym one.same_type) (one.attributes_governed h)));
    }

-- An event that is built from a builder with governed attributes only, such as a new one, after any number of
-- values were routed by `governed` has no attribute that its type does not govern.
pub governed-ungoverned :
    {F : Type 0} ⦃f : Float F⦄ (ont : Ontology) (pairs : List (Text × Text)) (b : EventBuilder F)
    (e : Event F)
    → All (λ (p : Pair). governs ont b.entity_type p.key ≡ true) b.attributes
    → build (governed_all ont pairs b) ≡ ok e
    → ungoverned ont e ≡ []
unfolding ungoverned
governed-ungoverned ont pairs b e start built =
    let routed = governed_all-Routed ont pairs b in
    let h = (build_iff (governed_all ont pairs b) e).0 built in
    rw (h.type_kept, routed.same_type, h.attributes_arranged.listed)
      (ungoverned_keys-Governed ont b.entity_type h.attributes_arranged.sorted (
        Governed-perm ont b.entity_type h.attributes_arranged.sorted _
          h.attributes_arranged.same_pairs (routed.attributes_governed start)))
