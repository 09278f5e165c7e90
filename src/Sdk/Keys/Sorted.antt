-- ===== src/Sdk/Keys/Sorted.antt =====
-- After the sort and the search the keys ascend strictly, and the pairs are those that were given.
use mathlib.Core.List.{Perm}
use mathlib.Core.List.Perm
use ajar_connectors.Prelude.{
  ◌≡◌, ◌≢◌, true, none, List, [], ◌∷◌, Text, text_eq, text_leb, Bool-cases, text_eq_refl,
  text_leb_total, text_leb_antisymm, text_leb_trans, inl, inr,
}
use ajar_connectors.Sdk.Keys.{Pair, insert_pair, sort_pairs, duplicate_key}

-- `a` stands strictly before `b` in byte order.
abbrev pub Before : Text → Text → Type 0
Before a b = (text_leb a b ≡ true) × (a ≢ b)

-- Every key is at least `k`.
abbrev AtLeast : Text → List Pair → Type 0
AtLeast k [] = Unit
AtLeast k (p ∷ ps) = (text_leb k p.key ≡ true) × AtLeast k ps

abbrev Ascending : List Pair → Type 0
Ascending [] = Unit
Ascending (p ∷ ps) = AtLeast p.key ps × Ascending ps

-- Each key stands strictly before all that follow it, so no key is there twice.
abbrev pub AllAfter : Text → List Pair → Type 0
AllAfter k [] = Unit
AllAfter k (p ∷ ps) = Before k p.key × AllAfter k ps

abbrev pub StrictlyAscending : List Pair → Type 0
StrictlyAscending [] = Unit
StrictlyAscending (p ∷ ps) = AllAfter p.key ps × StrictlyAscending ps

AtLeast-mono : (j k : Text) (ps : List Pair) → text_leb j k ≡ true → AtLeast k ps → AtLeast j ps
AtLeast-mono j k [] h a = tt
AtLeast-mono j k (p ∷ ps) h a = (text_leb_trans j k p.key h a.0, AtLeast-mono j k ps h a.1)

AtLeast-insert_pair :
    (k : Text) (p : Pair) (ps : List Pair)
    → text_leb k p.key ≡ true
    → AtLeast k ps
    → AtLeast k (insert_pair p ps)
unfolding insert_pair
AtLeast-insert_pair k p [] h a = (h, tt)
AtLeast-insert_pair k p (q ∷ qs) h a = elim (Bool-cases (text_leb p.key q.key)) [
  | inl y ↦ rw y (h, a)
  | inr n ↦ rw n (a.0, AtLeast-insert_pair k p qs h a.1)
]

insert_pair-Ascending : (p : Pair) (ps : List Pair) → Ascending ps → Ascending (insert_pair p ps)
unfolding insert_pair
insert_pair-Ascending p [] a = (tt, tt)
insert_pair-Ascending p (q ∷ qs) a = elim (Bool-cases (text_leb p.key q.key)) [
  | inl y ↦ rw y ((y, AtLeast-mono p.key q.key qs y a.0), a)
  | inr n ↦ rw n (
    AtLeast-insert_pair q.key p qs (text_leb_total p.key q.key n) a.0,
    insert_pair-Ascending p qs a.1,
  )
]

pub sort_pairs-Ascending : (ps : List Pair) → Ascending (sort_pairs ps)
unfolding sort_pairs
sort_pairs-Ascending [] = tt
sort_pairs-Ascending (p ∷ ps) = insert_pair-Ascending p (sort_pairs ps) (sort_pairs-Ascending ps)

insert_pair-perm : (p : Pair) (ps : List Pair) → Perm (insert_pair p ps) (p ∷ ps)
unfolding insert_pair
insert_pair-perm p [] = Perm.refl _
insert_pair-perm p (q ∷ qs) = elim (Bool-cases (text_leb p.key q.key)) [
  | inl y ↦ rw y (Perm.refl _)
  | inr n ↦ rw n (Perm.trans (Perm.cons q (insert_pair-perm p qs)) (Perm.swap p q qs))
]

pub sort_pairs-perm : (ps : List Pair) → Perm (sort_pairs ps) ps
unfolding sort_pairs
sort_pairs-perm [] = Perm.refl _
sort_pairs-perm (p ∷ ps) =
    Perm.trans (insert_pair-perm p (sort_pairs ps)) (Perm.cons p (sort_pairs-perm ps))

AllAfter-of_AtLeast : (j k : Text) (ps : List Pair) → Before j k → AtLeast k ps → AllAfter j ps
AllAfter-of_AtLeast j k [] h a = tt
AllAfter-of_AtLeast j k (p ∷ ps) h a = (
  (text_leb_trans j k p.key h.0 a.0, λ e. h.1 (text_leb_antisymm j k h.0 (rw e a.0))),
  AllAfter-of_AtLeast j k ps h a.1,
)

strict_of_no_duplicate :
    (ps : List Pair) → Ascending ps → duplicate_key ps ≡ none → StrictlyAscending ps
unfolding duplicate_key
strict_of_no_duplicate [] a d = tt
strict_of_no_duplicate (p ∷ []) a d = (tt, tt)
strict_of_no_duplicate (p ∷ q ∷ qs) a d = elim (Bool-cases (text_eq p.key q.key)) [
  | inl y ↦ absurd (cc (rw y at d))
  | inr n ↦
      let before : Before p.key q.key = (a.0.0, λ e. cc (rw (e, text_eq_refl q.key) at n)) in
      (
        (before, AllAfter-of_AtLeast p.key q.key qs before a.1.0),
        strict_of_no_duplicate (q ∷ qs) a.1 (rw n at d),
      )
]

-- Where the search finds no duplicate, the sorted keys ascend strictly.
pub sort_pairs-StrictlyAscending :
    (ps : List Pair) → duplicate_key (sort_pairs ps) ≡ none → StrictlyAscending (sort_pairs ps)
sort_pairs-StrictlyAscending ps = strict_of_no_duplicate (sort_pairs ps) (sort_pairs-Ascending ps)
