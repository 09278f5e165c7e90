-- ===== src/Prelude/Carry/Bounds.antt =====
-- The caps of a carry.
use Prim.Native.Nat.{ℕ, suc, ◌+◌, ◌-◌, ◌≤◌}
use mathlib.Core.Path.{◌≡◌, refl, sym, ap, ◌∙◌, subst}
use mathlib.Core.Logic.{◌⊎◌, inl, inr}
use mathlib.Core.Bool.{true, false, ◌||◌}
use mathlib.Core.List.{List, [], ◌∷◌, ◌++◌}
use native.Mathlib.Omega.{arith}
use ajar_connectors.Prelude.Tests.{ltb, Bool-cases}
use ajar_connectors.Prelude.Lists.{length, drop, length-append}
use ajar_connectors.Prelude.Texts.{Bytes}
use ajar_connectors.Prelude.Carry.{Carry, over_cap, drop_over, push_raw}

unfoldable pub bytes_of : List Bytes → ℕ
bytes_of [] = 0
bytes_of (x ∷ xs) = length x + bytes_of xs

bytes_of-append : (a b : List Bytes) → bytes_of (a ++ b) ≡ bytes_of a + bytes_of b
unfolding bytes_of
bytes_of-append [] b = omega arith
bytes_of-append (x ∷ xs) b = omega (arith, bytes_of-append xs b)

length-end :
    (front other : List Bytes) {all : List Bytes} → front ++ other ≡ all → length other ≤ length all
length-end front other {all} e =
    omega (arith, ap {A = List Bytes} length e, length-append front other)

front-cases :
    (front other : List Bytes) (x : Bytes) (xs : List Bytes)
    → front ++ other ≡ x ∷ xs
    → (other ≡ x ∷ xs) ⊎ ((shorter : List Bytes) × (shorter ++ other ≡ xs))
front-cases [] other x xs e = inl e
front-cases (y ∷ front) other x xs e = inr (front, ap (drop 1) e)

module _ (max_frames max_bytes : ℕ) where
  -- Within both caps.
  abbrev pub WithinCaps : List Bytes → Type 0
  WithinCaps l = (length l ≤ max_frames) × (bytes_of l ≤ max_bytes)

  -- The count of bytes is true, and what is pending is within the caps.
  abbrev pub IsCounted : Carry → Type 0
  IsCounted c = (c.pending_bytes ≡ bytes_of c.pending) × WithinCaps c.pending

  -- `kept` is the longest end of `all` that is within the caps, and `dropped` the number before it.
  abbrev pub IsLongestEnd : List Bytes → List Bytes → ℕ → Type 0
  IsLongestEnd all kept dropped =
      WithinCaps kept
      × ((gone : List Bytes) × (gone ++ kept ≡ all) × (length gone ≡ dropped))
      × ((front other : List Bytes)
          → front ++ other ≡ all
          → WithinCaps other
          → length other ≤ length kept)

  WithinCaps-fits :
      (l : List Bytes) → over_cap max_frames max_bytes l (bytes_of l) ≡ false → WithinCaps l
  WithinCaps-fits l h = ground arith

  not-WithinCaps :
      (l : List Bytes) → over_cap max_frames max_bytes l (bytes_of l) ≡ true → WithinCaps l → ⊥
  not-WithinCaps l h w = ground arith

  drop_over-lem :
      (all : List Bytes) (n : ℕ)
      → n ≡ bytes_of all
      → ((drop_over max_frames max_bytes all n).1
          ≡ bytes_of (drop_over max_frames max_bytes all n).0)
        × IsLongestEnd all
            (drop_over max_frames max_bytes all n).0
            (drop_over max_frames max_bytes all n).2
  unfolding drop_over bytes_of
  drop_over-lem [] n h = (
    h,
    ((omega arith, omega arith), ([], refl, refl), λ front other e w. length-end front other e),
  )
  drop_over-lem (x ∷ xs) n h = elim (Bool-cases (over_cap max_frames max_bytes (x ∷ xs) n)) [
    | inl over ↦ rw over (dropped_first over (drop_over-lem xs (n - length x) (omega (arith, h))))
    | inr fits ↦ rw fits (
      h,
      (
        WithinCaps-fits (x ∷ xs) (ap (over_cap max_frames max_bytes (x ∷ xs)) (sym h) ∙ fits),
        ([], refl, refl),
        λ front other e w. length-end front other e,
      ),
    )
  ]
    where
      dropped_first :
          {kept : List Bytes} {left dropped : ℕ}
          → over_cap max_frames max_bytes (x ∷ xs) n ≡ true
          → (left ≡ bytes_of kept) × IsLongestEnd xs kept dropped
          → (left ≡ bytes_of kept) × IsLongestEnd (x ∷ xs) kept (suc dropped)
      dropped_first {kept} over (count, (caps, (gone, e, m), longest)) = (
        count,
        (
          caps,
          (x ∷ gone, ap (◌∷◌ x) e, ap suc m),
          λ front other split w. elim (front-cases front other x xs split) [
            | inl same ↦ absurd (
                not-WithinCaps (x ∷ xs) (ap (over_cap max_frames max_bytes (x ∷ xs)) (sym h) ∙ over)
                  (subst WithinCaps same w))
            | inr (shorter, rest) ↦ longest shorter other rest w
          ],
        ),
      )

  -- A push keeps the caps and the count, and leaves the longest end that is within the caps.
  pub push_raw_lem :
      (raw : Bytes) (c : Carry)
      → IsCounted c
      → IsCounted (push_raw max_frames max_bytes raw c).0
        × IsLongestEnd
            (c.pending ++ (raw ∷ []))
            (push_raw max_frames max_bytes raw c).0.pending
            (push_raw max_frames max_bytes raw c).1
        × ((push_raw max_frames max_bytes raw c).0.dropped_since_emit
            ≡ (c.dropped_since_emit || ltb 0 (push_raw max_frames max_bytes raw c).1))
  unfolding push_raw bytes_of
  push_raw_lem raw c (count, caps) =
      let (left, longest) =
        drop_over-lem (c.pending ++ (raw ∷ [])) (c.pending_bytes + length raw)
          (omega (arith, count, bytes_of-append c.pending (raw ∷ []))) in
      ((left, longest.0), longest, refl)
