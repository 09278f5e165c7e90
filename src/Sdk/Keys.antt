-- ===== src/Sdk/Keys.antt =====
-- The key handling of `EventBuilder::build` (rust/ajar-connector/src/builder.rs): a stable sort by key
-- and the search of two neighbours with one key.
pub mod Sorted
pub mod Order
use ajar_connectors.Prelude.{
  ℕ, Bool, true, false, Option, none, some, List, [], ◌∷◌, Text, text_eq, text_leb, map,
  if◌then◌else◌,
}

pub record Pair : Type 0 where
  pub key : Text
  pub value : Text

-- `sort_by(|a, b| a.0.cmp(&b.0))` is stable: a pair stays in front of later pairs with its key.
unfoldable pub insert_pair : Pair → List Pair → List Pair
insert_pair p [] = p ∷ []
insert_pair p (q ∷ qs) = if text_leb p.key q.key then p ∷ q ∷ qs else q ∷ insert_pair p qs

unfoldable pub sort_pairs : List Pair → List Pair
sort_pairs [] = []
sort_pairs (p ∷ ps) = insert_pair p (sort_pairs ps)

-- `for pair in attrs.windows(2)`: the first key that two neighbours share
unfoldable pub duplicate_key : List Pair → Option Text
duplicate_key [] = none
duplicate_key (p ∷ []) = none
duplicate_key (p ∷ q ∷ qs) = if text_eq p.key q.key then some p.key else duplicate_key (q ∷ qs)
