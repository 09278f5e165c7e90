-- ===== src/Sdk/Namespace.antt =====
-- `is_namespaced` of rust/ajar-connector/src/builder.rs.
use ajar_connectors.Prelude.{
  ◌≡◌, ◌≢◌, refl, Bool, true, false, not, ◌&&◌, Option, none, some, [], ◌∷◌, ◌++◌, arith, Text,
  text, is_empty, ne_of_is_empty, is_empty_of_ne, strip_prefix, contains, split_once,
  strip_prefix-append, strip_prefix-eq-some, split_once_parts, split_once-append, ◌∙◌, ap,
}

-- `rest.splitn(2, ':')` gave a vendor and a type, both not empty, and the type holds no colon
abbrev two_parts : Text × Option Text → Bool
two_parts (vendor, none) = false
two_parts (vendor, some ty) = not (is_empty vendor) && not (is_empty ty) && not (contains b':' ty)

abbrev vendor_namespaced : Option Text → Bool
vendor_namespaced none = false
vendor_namespaced (some rest) = two_parts (split_once b':' rest)

abbrev namespaced : Option Text → Option Text → Bool
namespaced (some rest) vendor = not (is_empty rest) && not (contains b':' rest)
namespaced none vendor = vendor_namespaced vendor

unfoldable pub is_namespaced : Text → Bool
is_namespaced entity_type =
    namespaced (strip_prefix (text "mim:") entity_type) (strip_prefix (text "x:") entity_type)

-- A name: some bytes, none of them a colon.
pub record IsName (s : Text) : Type 0 where
  pub not_empty : s ≢ []
  pub no_colon : contains b':' s ≡ false

-- The two forms of the contract.
pub data Namespaced (s : Text) : Type 0 where
  mim : (ty : Text) → IsName ty → s ≡ text "mim:" ++ ty → Namespaced s
  vendor : (v ty : Text) → IsName v → IsName ty → s ≡ text "x:" ++ v ++ b':' ∷ ty → Namespaced s

IsName-of_tests : (s : Text) → (not (is_empty s) && not (contains b':' s)) ≡ true → IsName s
IsName-of_tests s h = record {
  not_empty = ne_of_is_empty s (ground arith);
  no_colon = ground arith;
}

two_parts_sound :
    (s rest : Text) (v : Text) (after : Option Text)
    → s ≡ text "x:" ++ rest
    → split_once b':' rest ≡ (v, after)
    → two_parts (v, after) ≡ true
    → Namespaced s
two_parts_sound s rest v none e p h = cc
two_parts_sound s rest v (some ty) e p h =
    let parts = split_once_parts b':' rest p in
    vendor v ty (record { not_empty = ne_of_is_empty v (ground arith); no_colon = parts.0 })
      (IsName-of_tests ty (ground arith)) (e ∙ ap (λ (r : Text). text "x:" ++ r) parts.1)

namespaced_sound :
    (s : Text) (a b : Option Text)
    → strip_prefix (text "mim:") s ≡ a
    → strip_prefix (text "x:") s ≡ b
    → namespaced a b ≡ true
    → Namespaced s
namespaced_sound s (some rest) b p q h =
    mim rest (IsName-of_tests rest h) (strip_prefix-eq-some (text "mim:") s p)
namespaced_sound s none (some rest) p q h =
    two_parts_sound s rest _ _ (strip_prefix-eq-some (text "x:") s q) refl h
namespaced_sound s none none p q h = cc

-- The test accepts the contract's two forms and nothing else: `mim:<type>`, and `x:<vendor>:<type>`
-- with a vendor and a type that are not empty and hold no colon.
pub is_namespaced_iff :
    (s : Text) → (is_namespaced s ≡ true → Namespaced s) × (Namespaced s → is_namespaced s ≡ true)
unfolding is_namespaced
is_namespaced_iff s = (namespaced_sound s _ _ refl refl, complete)
  where
    complete : Namespaced s → is_namespaced s ≡ true
    complete (mim ty n e) =
        rw (e, strip_prefix-append (text "mim:") ty) (ground (arith, is_empty_of_ne ty n.not_empty))
    complete (vendor v ty n m e) = rw (e) (
        unfold strip_prefix in
        rw (split_once-append b':' v ty n.no_colon)
          (ground (arith, is_empty_of_ne v n.not_empty, is_empty_of_ne ty m.not_empty)))
