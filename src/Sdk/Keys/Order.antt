-- ===== src/Sdk/Keys/Order.antt =====
-- The order in which attributes were added does not matter: neither to the sorted pairs, where the keys
-- are distinct, nor to the duplicate that is reported, where they are not.
use mathlib.Core.List.{Perm, Permᴰ, Nodup, Mem, Pairwise, Nodup-cons, mem-cons, not-mem-nil}
use mathlib.Core.HLevel.{⊥_prop}
use ajar_connectors.Sdk.Keys.Sorted.{
  AllAfter, StrictlyAscending, sort_pairs-StrictlyAscending, sort_pairs-perm,
}
use mathlib.Core.List.Perm
use mathlib.Core.Logic.{∥∥₁_elim}
use mathlib.Core.Logic.Or
use ajar_connectors.Prelude.{
  ◌≡◌, ◌≢◌, refl, sym, ap, ◌∙◌, Option, none, some, List, [], ◌∷◌, map, arith, Text, text_eq,
  text_leb, Bool-cases, Option-cases, text_eq_iff, text_leb_total, text_leb_antisymm,
  text_leb_trans, inl, inr, if◌then◌else◌,
}
use ajar_connectors.Sdk.Keys.{Pair, insert_pair, sort_pairs, duplicate_key}

-- The same on bare keys.
insert_key : Text → List Text → List Text
insert_key k [] = k ∷ []
insert_key k (j ∷ js) = if text_leb k j then k ∷ j ∷ js else j ∷ insert_key k js

duplicate : List Text → Option Text
duplicate [] = none
duplicate (k ∷ []) = none
duplicate (k ∷ j ∷ js) = if text_eq k j then some k else duplicate (j ∷ js)

abbrev keys : List Pair → List Text
keys = map (λ p. p.key)

keys-insert_pair :
    (p : Pair) (ps : List Pair) → keys (insert_pair p ps) ≡ insert_key p.key (keys ps)
unfolding insert_pair insert_key
keys-insert_pair p [] = refl
keys-insert_pair p (q ∷ qs) = ground (arith, keys-insert_pair p qs)

duplicate_key-keys : (ps : List Pair) → duplicate_key ps ≡ duplicate (keys ps)
unfolding duplicate_key duplicate
duplicate_key-keys [] = refl
duplicate_key-keys (p ∷ []) = refl
duplicate_key-keys (p ∷ q ∷ qs) = ground (arith, duplicate_key-keys (q ∷ qs))

insert_key_comm :
    (a b : Text) (l : List Text) → insert_key a (insert_key b l) ≡ insert_key b (insert_key a l)
unfolding insert_key
insert_key_comm a b [] = ground (arith, text_leb_total a b, text_leb_antisymm a b)
insert_key_comm a b (c ∷ l) = ground (
  arith,
  text_leb_total a b,
  text_leb_antisymm a b,
  text_leb_trans a b c,
  text_leb_trans b a c,
  insert_key_comm a b l,
)

-- No key is there twice.
abbrev pub Distinct : List Pair → Type 0
Distinct ps = Nodup (keys ps)

insert_pair_comm :
    (p q : Pair) (ps : List Pair)
    → p.key ≢ q.key
    → insert_pair p (insert_pair q ps) ≡ insert_pair q (insert_pair p ps)
unfolding insert_pair
insert_pair_comm p q [] n =
    ground (arith, text_leb_total p.key q.key, text_leb_antisymm p.key q.key)
insert_pair_comm p q (r ∷ rs) n = ground (
  arith,
  text_leb_total p.key q.key,
  text_leb_antisymm p.key q.key,
  text_leb_trans p.key q.key r.key,
  text_leb_trans q.key p.key r.key,
  insert_pair_comm p q rs,
)

keys-insert_twice :
    (p q : Pair) (ps : List Pair)
    → keys (insert_pair p (insert_pair q ps)) ≡ insert_key p.key (insert_key q.key (keys ps))
keys-insert_twice p q ps =
    keys-insert_pair p (insert_pair q ps) ∙ ap (insert_key p.key) (keys-insert_pair q ps)

keys-insert_comm :
    (p q : Pair) (ps : List Pair)
    → keys (insert_pair p (insert_pair q ps)) ≡ keys (insert_pair q (insert_pair p ps))
keys-insert_comm p q ps =
    keys-insert_twice p q ps
    ∙ insert_key_comm p.key q.key (keys ps)
    ∙ sym (keys-insert_twice q p ps)

-- Sorting leaves the same keys in the same places.
keys-sort_pairs : {l₁ l₂ : List Pair} → Permᴰ l₁ l₂ → keys (sort_pairs l₁) ≡ keys (sort_pairs l₂)
unfolding sort_pairs
keys-sort_pairs Permᴰ.nil = refl
keys-sort_pairs (Permᴰ.cons {a = a} {b = b} {l₁ = l₁} {l₂ = l₂} e r) =
    keys-insert_pair a (sort_pairs l₁)
    ∙ cc (keys-sort_pairs r, ap (λ (p : Pair). p.key) e)
    ∙ sym (keys-insert_pair b (sort_pairs l₂))
keys-sort_pairs (Permᴰ.swap {a = a} {b = b} {a' = a'} {b' = b'} {l = l} e f) =
    rw (e, f) (keys-insert_comm b' a' (sort_pairs l))
keys-sort_pairs (Permᴰ.trans r s) = keys-sort_pairs r ∙ keys-sort_pairs s

-- The search reports the same key, or none, in either order.
pub duplicate_key-sort_perm :
    {l₁ l₂ : List Pair} → Perm l₁ l₂ → duplicate_key (sort_pairs l₁) ≡ duplicate_key (sort_pairs l₂)
duplicate_key-sort_perm {l₁} {l₂} r =
    duplicate_key-keys (sort_pairs l₁)
    ∙ ap duplicate (∥∥₁_elim r (hlevel) keys-sort_pairs)
    ∙ sym (duplicate_key-keys (sort_pairs l₂))

sort_pairs-Distinct :
    {l₁ l₂ : List Pair} → Permᴰ l₁ l₂ → Distinct l₁ → sort_pairs l₁ ≡ sort_pairs l₂
unfolding sort_pairs
sort_pairs-Distinct Permᴰ.nil d = refl
sort_pairs-Distinct (Permᴰ.cons e r) d = cc (e, sort_pairs-Distinct r (Nodup-cons.0 d).1)
sort_pairs-Distinct (Permᴰ.swap {a = a} {b = b} {l = l} e f) d =
    rw (← e, ← f)
      (insert_pair_comm a b (sort_pairs l) (λ k. (Nodup-cons.0 d).0 (mem-cons.1 (Or.inl k))))
sort_pairs-Distinct (Permᴰ.trans r s) d =
    sort_pairs-Distinct r d ∙ sort_pairs-Distinct s (Perm.nodup (Perm.map (λ p. p.key) ∣ r ∣₁) d)

not-mem_of_AllAfter : (k : Text) (ps : List Pair) → AllAfter k ps → ¬ Mem k (keys ps)
not-mem_of_AllAfter k [] a m = not-mem-nil m
not-mem_of_AllAfter k (p ∷ ps) a m =
    Or.elim ⊥_prop (mem-cons.0 m) a.0.1 (not-mem_of_AllAfter k ps a.1)

pub Distinct-of_StrictlyAscending : (ps : List Pair) → StrictlyAscending ps → Distinct ps
Distinct-of_StrictlyAscending [] a = Pairwise.nil
Distinct-of_StrictlyAscending (p ∷ ps) a =
    Nodup-cons.1 (not-mem_of_AllAfter p.key ps a.0, Distinct-of_StrictlyAscending ps a.1)

-- Keys that are found free of duplicates were distinct before the sort.
pub Distinct-of_sorted : (ps : List Pair) → duplicate_key (sort_pairs ps) ≡ none → Distinct ps
Distinct-of_sorted ps h =
    Perm.nodup (Perm.map (λ p. p.key) (sort_pairs-perm ps))
      (Distinct-of_StrictlyAscending (sort_pairs ps) (sort_pairs-StrictlyAscending ps h))

not_Distinct_of_duplicate : (ps : List Pair) {k : Text} → duplicate_key ps ≡ some k → ¬ Distinct ps
unfolding duplicate_key
not_Distinct_of_duplicate [] h d = cc
not_Distinct_of_duplicate (p ∷ []) h d = cc
not_Distinct_of_duplicate (p ∷ q ∷ qs) h d = elim (Bool-cases (text_eq p.key q.key)) [
  | inl y ↦ (Nodup-cons.0 d).0 (mem-cons.1 (Or.inl ((text_eq_iff p.key q.key).0 y)))
  | inr n ↦ not_Distinct_of_duplicate (q ∷ qs) (rw n at h) (Nodup-cons.0 d).1
]

-- Distinct keys are found free of duplicates.
pub no_duplicate_of_Distinct : (ps : List Pair) → Distinct ps → duplicate_key (sort_pairs ps) ≡ none
no_duplicate_of_Distinct ps d = elim (Option-cases (duplicate_key (sort_pairs ps))) [
  | inl e ↦ e
  | inr (k, e) ↦ absurd (
      not_Distinct_of_duplicate (sort_pairs ps) e
        (Perm.nodup (Perm.map (λ p. p.key) (Perm.symm (sort_pairs-perm ps))) d))
]

pub sort_pairs_order :
    {l₁ l₂ : List Pair}
    → Perm l₁ l₂
    → duplicate_key (sort_pairs l₁) ≡ none
    → sort_pairs l₁ ≡ sort_pairs l₂
sort_pairs_order {l₁} {l₂} r h =
    ∥∥₁_elim r (hlevel) (λ p. sort_pairs-Distinct p (Distinct-of_sorted l₁ h))

insert_pair_front : (p : Pair) (ps : List Pair) → AllAfter p.key ps → insert_pair p ps ≡ p ∷ ps
unfolding insert_pair
insert_pair_front p [] a = refl
insert_pair_front p (q ∷ qs) a = rw (a.0.0)

sort_pairs_fixed : (ps : List Pair) → StrictlyAscending ps → sort_pairs ps ≡ ps
unfolding sort_pairs
sort_pairs_fixed [] a = refl
sort_pairs_fixed (p ∷ ps) a =
    ap (insert_pair p) (sort_pairs_fixed ps a.1) ∙ insert_pair_front p ps a.0

-- A strictly ascending arrangement of the pairs is what the sort gives.
pub sort_pairs_unique :
    (ps qs : List Pair)
    → StrictlyAscending ps
    → Perm ps qs
    → (sort_pairs qs ≡ ps) × (duplicate_key (sort_pairs qs) ≡ none)
sort_pairs_unique ps qs a r =
    let none_ps = no_duplicate_of_Distinct ps (Distinct-of_StrictlyAscending ps a) in
    (
      sym (sort_pairs_order r none_ps) ∙ sort_pairs_fixed ps a,
      sym (duplicate_key-sort_perm r) ∙ none_ps,
    )
