-- ===== src/Common/Marking/Apply.antt =====
-- What `Marking::apply` of rust/connectors/common/src/marking.rs leaves of the classification.
use ajar_connectors.Prelude.{
  ℕ, zero, suc, ◌≤◌, ◌≡◌, refl, ap, ◌∙◌, ◌⊎◌, inl, inr, Bool-cases, Option, none, some,
  Option-cases, List, [], ◌∷◌, ◌++◌, append-nil, Mem, mem-cons, Text, text_eq, strip_prefix,
  strip_prefix-append, take, drop, All, is_some, ltb, arith,
}
use ajar_connectors.Prelude.Scan.{trim}
use ajar_connectors.Common.Marking.{
  Level, unclassified, restricted, confidential, secret, top_secret, level_text, level_of, rank,
  classification_level, class_prefix, ranked, floor_of, highest, higher, any_of, unranked,
  resolve_class, resolve, push_new, add_missing, apply_tags,
}

-- The levels that the tags name, in their order.
abbrev cons_level : Option Level → List Level → List Level
cons_level none ls = ls
cons_level (some l) ls = l ∷ ls

unfoldable pub levels : List Text → List Level
levels [] = []
levels (t ∷ ts) = cons_level (ranked t) (levels ts)

abbrev NoLevel : List Text → Type 0
NoLevel = All (λ t. ranked t ≡ none)

-- The highest of the floor and the levels that the tags name.
abbrev pub IsHighest : Level → Level → List Text → Type 0
IsHighest l floor wire =
    ((l ≡ floor) ⊎ Mem l (levels wire))
    × (rank floor ≤ rank l)
    × All (λ (m : Level). rank m ≤ rank l) (levels wire)

classification_level-level_text : (l : Level) → classification_level (level_text l) ≡ some l
unfolding classification_level level_text level_of trim text_eq
classification_level-level_text unclassified = refl
classification_level-level_text restricted = refl
classification_level-level_text confidential = refl
classification_level-level_text secret = refl
classification_level-level_text top_secret = refl

ranked-class : (l : Level) → ranked (class_prefix ++ level_text l) ≡ some l
unfolding ranked
ranked-class l =
    rw (strip_prefix-append class_prefix (level_text l)) (classification_level-level_text l)

levels-append : (a b : List Text) → levels (a ++ b) ≡ levels a ++ levels b
unfolding levels
levels-append [] b = refl
levels-append (t ∷ ts) b = elim (Option-cases (ranked t)) [
  | inl plain ↦ rw plain (levels-append ts b)
  | inr (l, class) ↦ rw class (ap (◌∷◌ l) (levels-append ts b))
]

levels-NoLevel : (a : List Text) → NoLevel a → levels a ≡ []
unfolding levels
levels-NoLevel [] h = refl
levels-NoLevel (t ∷ ts) h = rw h.0 (levels-NoLevel ts h.1)

unranked-NoLevel : (a : List Text) → NoLevel (unranked a)
unfolding unranked
unranked-NoLevel [] = tt
unranked-NoLevel (t ∷ ts) = elim (Option-cases (ranked t)) [
  | inl plain ↦ rw (ap is_some plain) (plain, unranked-NoLevel ts)
  | inr (l, class) ↦ rw (ap is_some class) (unranked-NoLevel ts)
]

take-NoLevel : (n : ℕ) (a : List Text) → NoLevel a → NoLevel (take n a)
take-NoLevel zero a h = tt
take-NoLevel (suc n) [] h = tt
take-NoLevel (suc n) (t ∷ ts) h = (h.0, take-NoLevel n ts h.1)

drop-NoLevel : (n : ℕ) (a : List Text) → NoLevel a → NoLevel (drop n a)
drop-NoLevel zero a h = h
drop-NoLevel (suc n) [] h = tt
drop-NoLevel (suc n) (t ∷ ts) h = drop-NoLevel n ts h.1

levels-push_new : (t : Text) (a : List Text) → ranked t ≡ none → levels (push_new t a) ≡ levels a
unfolding push_new levels
levels-push_new t a h = elim (Bool-cases (any_of a t)) [
  | inl there ↦ rw there
  | inr new ↦ rw (new, levels-append a (t ∷ []), h) (append-nil (levels a))
]

levels-add_missing : (tags wire : List Text) → levels (add_missing tags wire) ≡ levels wire
unfolding add_missing ranked
levels-add_missing [] wire = refl
levels-add_missing (t ∷ ts) wire = elim (Option-cases (strip_prefix class_prefix t)) [
  | inl plain ↦
      rw plain (levels-add_missing ts (push_new t wire) ∙ levels-push_new t wire (rw plain))
  | inr (rest, class) ↦ rw class (levels-add_missing ts wire)
]

levels-around :
    (l : Level) (n : ℕ) (rest : List Text)
    → NoLevel rest
    → levels (take n rest ++ ((class_prefix ++ level_text l) ∷ drop n rest)) ≡ l ∷ []
unfolding levels
levels-around l n rest h = rw (
  levels-append (take n rest) ((class_prefix ++ level_text l) ∷ drop n rest),
  levels-NoLevel (take n rest) (take-NoLevel n rest h),
  ranked-class l,
  levels-NoLevel (drop n rest) (drop-NoLevel n rest h),
)

levels-resolve_class :
    (floor : Level) (wire : List Text) → levels (resolve_class floor wire) ≡ highest floor wire ∷ []
unfolding resolve_class levels
levels-resolve_class floor wire =
    levels-around (highest floor wire) _ (unranked wire) (unranked-NoLevel wire)

rank-higher : (a b : Level) → (rank a ≤ rank (higher a b)) × (rank b ≤ rank (higher a b))
rank-higher a b = ground arith

higher-cases : (a b : Level) → (higher a b ≡ a) ⊎ (higher a b ≡ b)
higher-cases a b = elim (Bool-cases (ltb (rank a) (rank b))) [
  | inl less ↦ inr (rw less)
  | inr more ↦ inl (rw more)
]

IsHighest-highest : (floor : Level) (wire : List Text) → IsHighest (highest floor wire) floor wire
unfolding highest levels
IsHighest-highest floor [] = (inl refl, omega arith, tt)
IsHighest-highest floor (t ∷ ts) = elim (Option-cases (ranked t)) [
  | inl plain ↦ rw plain (IsHighest-highest floor ts)
  | inr (l, class) ↦ rw class (of_rest l (IsHighest-highest (higher floor l) ts))
]
  where
    attained : (l h : Level) → h ≡ higher floor l → (h ≡ floor) ⊎ Mem h (l ∷ levels ts)
    attained l h e = elim (higher-cases floor l) [
      | inl low ↦ inl (e ∙ low)
      | inr up ↦ inr (mem-cons.1 (∣ inl (e ∙ up) ∣₁))
    ]

    of_rest :
        (l : Level)
        → IsHighest (highest (higher floor l) ts) (higher floor l) ts
        → ((highest (higher floor l) ts ≡ floor)
            ⊎ Mem (highest (higher floor l) ts) (l ∷ levels ts))
          × (rank floor ≤ rank (highest (higher floor l) ts))
          × ((rank l ≤ rank (highest (higher floor l) ts))
              × All (λ (m : Level). rank m ≤ rank (highest (higher floor l) ts)) (levels ts))
    of_rest l (inl e, r, a) =
        let (low, up) = rank-higher floor l in (attained l _ e, omega arith, (omega arith, a))
    of_rest l (inr m, r, a) =
        let (low, up) = rank-higher floor l in
        (inr (mem-cons.1 (∣ inr m ∣₁)), omega arith, (omega arith, a))

-- The tags of a marking with a level leave an event one level only: the highest of the marking's and of
-- those that the wire named, so the operator's floor is never lowered.
pub apply_tags_lem :
    (tags wire : List Text) (floor : Level)
    → floor_of tags ≡ some floor
    → (l : Level) × (levels (apply_tags tags wire) ≡ l ∷ []) × IsHighest l floor wire
unfolding apply_tags
apply_tags_lem tags wire floor h = (
  highest floor wire,
  levels-add_missing tags (resolve (floor_of tags) wire) ∙ rw h (levels-resolve_class floor wire),
  IsHighest-highest floor wire,
)
