-- ===== src/Common/Runtime/Sublists.antt =====
-- Orders of what left a connector: sublists, and lists merged from two.
use ajar_connectors.Prelude.{List, [], ◌∷◌, ◌++◌}

-- `xs` is `ys` without some of its elements.
pub data Sublist {A : Type 0} : List A → List A → Type 0 where
  empty : {ys : List A} → Sublist [] ys
  keep : {x : A} {xs ys : List A} → Sublist xs ys → Sublist (x ∷ xs) (x ∷ ys)
  skip : {y : A} {xs ys : List A} → Sublist xs ys → Sublist xs (y ∷ ys)

pub Sublist-append :
    {A : Type 0} {xs ys : List A} (zs : List A) → Sublist xs ys → Sublist xs (ys ++ zs)
Sublist-append zs empty = empty
Sublist-append zs (keep h) = keep (Sublist-append zs h)
Sublist-append zs (skip h) = skip (Sublist-append zs h)

Sublist-one : {A : Type 0} (ys zs : List A) (r : A) → Sublist (r ∷ []) (ys ++ (r ∷ zs))
Sublist-one [] zs r = keep empty
Sublist-one (y ∷ ys) zs r = skip (Sublist-one ys zs r)

pub Sublist-insert :
    {A : Type 0} {xs ys : List A} (zs : List A) (r : A)
    → Sublist xs ys
    → Sublist (xs ++ (r ∷ [])) (ys ++ (r ∷ zs))
Sublist-insert {ys = ys} zs r empty = Sublist-one ys zs r
Sublist-insert zs r (keep h) = keep (Sublist-insert zs r h)
Sublist-insert zs r (skip h) = skip (Sublist-insert zs r h)

-- `zs` in order, each element in one of `xs` and `ys`.
pub data Merge {A : Type 0} : List A → List A → List A → Type 0 where
  done : Merge [] [] []
  first : {z : A} {xs ys zs : List A} → Merge xs ys zs → Merge (z ∷ xs) ys (z ∷ zs)
  second : {z : A} {xs ys zs : List A} → Merge xs ys zs → Merge xs (z ∷ ys) (z ∷ zs)

pub Merge-first :
    {A : Type 0} {xs ys zs : List A} (r : A)
    → Merge xs ys zs
    → Merge (xs ++ (r ∷ [])) ys (zs ++ (r ∷ []))
Merge-first r done = first done
Merge-first r (first h) = first (Merge-first r h)
Merge-first r (second h) = second (Merge-first r h)

pub Merge-second :
    {A : Type 0} {xs ys zs : List A} (r : A)
    → Merge xs ys zs
    → Merge xs (ys ++ (r ∷ [])) (zs ++ (r ∷ []))
Merge-second r done = second done
Merge-second r (first h) = first (Merge-second r h)
Merge-second r (second h) = second (Merge-second r h)
