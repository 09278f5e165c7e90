-- ===== src/Prelude/Scan.antt =====
-- Searches and cuts of `str`, by bytes: a whole character is found where its bytes stand, since no
-- character's encoding starts inside another's.
use Prim.Native.Nat.{ℕ, zero, suc, ◌-◌}
use mathlib.Core.Bool.{Bool, not, ◌&&◌, ◌||◌}
use mathlib.Core.List.{List, [], ◌∷◌, map, reverse}
use mathlib.Core.Option.{Option, none, some}
use ajar_connectors.Prelude.Tests.{leb, ◌==◌, if◌then◌else◌, option_map, is_some}
use ajar_connectors.Prelude.Lists.{length, take, drop, get_elem?}
use ajar_connectors.Prelude.Texts.{Text, text_eq, strip_prefix}

-- The characters with the property White_Space.
abbrev white : List Text
white =
    (9 ∷ [])
    ∷ (10 ∷ [])
    ∷ (11 ∷ [])
    ∷ (12 ∷ [])
    ∷ (13 ∷ [])
    ∷ (32 ∷ [])
    ∷ (0xc2 ∷ 0x85 ∷ [])
    ∷ (0xc2 ∷ 0xa0 ∷ [])
    ∷ (0xe1 ∷ 0x9a ∷ 0x80 ∷ [])
    ∷ (0xe2 ∷ 0x80 ∷ 0x80 ∷ [])
    ∷ (0xe2 ∷ 0x80 ∷ 0x81 ∷ [])
    ∷ (0xe2 ∷ 0x80 ∷ 0x82 ∷ [])
    ∷ (0xe2 ∷ 0x80 ∷ 0x83 ∷ [])
    ∷ (0xe2 ∷ 0x80 ∷ 0x84 ∷ [])
    ∷ (0xe2 ∷ 0x80 ∷ 0x85 ∷ [])
    ∷ (0xe2 ∷ 0x80 ∷ 0x86 ∷ [])
    ∷ (0xe2 ∷ 0x80 ∷ 0x87 ∷ [])
    ∷ (0xe2 ∷ 0x80 ∷ 0x88 ∷ [])
    ∷ (0xe2 ∷ 0x80 ∷ 0x89 ∷ [])
    ∷ (0xe2 ∷ 0x80 ∷ 0x8a ∷ [])
    ∷ (0xe2 ∷ 0x80 ∷ 0xa8 ∷ [])
    ∷ (0xe2 ∷ 0x80 ∷ 0xa9 ∷ [])
    ∷ (0xe2 ∷ 0x80 ∷ 0xaf ∷ [])
    ∷ (0xe2 ∷ 0x81 ∷ 0x9f ∷ [])
    ∷ (0xe3 ∷ 0x80 ∷ 0x80 ∷ [])
    ∷ []

unfoldable strip_one : List Text → Text → Option Text
unfolding strip_prefix
strip_one [] s = none
strip_one (w ∷ ws) s = elim (strip_prefix w s) [ none ↦ strip_one ws s | some rest ↦ some rest ]

-- A round strips a byte at least.
unfoldable strip_all : ℕ → List Text → Text → Text
unfolding strip_one
strip_all zero ws s = s
strip_all (suc k) ws s = elim (strip_one ws s) [ none ↦ s | some rest ↦ strip_all k ws rest ]

unfoldable pub trim_start : Text → Text
unfolding strip_all
trim_start s = strip_all (length s) white s

unfoldable pub trim_end : Text → Text
unfolding strip_all
trim_end s = reverse (strip_all (length s) (map reverse white) (reverse s))

unfoldable pub trim : Text → Text
unfolding trim_start trim_end
trim s = trim_end (trim_start s)

-- `s.trim_end_matches(c)` for an ASCII character
unfoldable pub trim_end_matches : ℕ → Text → Text
unfolding strip_all
trim_end_matches c s = reverse (strip_all (length s) ((c ∷ []) ∷ []) (reverse s))

-- `s.split(c)`: as many parts as there are `c`, and one more
abbrev onto_first : ℕ → List Text → List Text
onto_first x [] = (x ∷ []) ∷ []
onto_first x (p ∷ ps) = (x ∷ p) ∷ ps

unfoldable pub split : ℕ → Text → List Text
split c [] = [] ∷ []
split c (x ∷ xs) = let rest = split c xs in if x == c then [] ∷ rest else onto_first x rest

unfoldable pub find : ℕ → Text → Option ℕ
find c [] = none
find c (x ∷ xs) = let later = find c xs in if x == c then some 0 else option_map suc later

unfoldable pub rfind : ℕ → Text → Option ℕ
rfind c [] = none
rfind c (x ∷ xs) = elim (rfind c xs) [
  | none ↦ if x == c then some 0 else none
  | some i ↦ some (suc i)
]

unfoldable pub ends_with : Text → Text → Bool
unfolding text_eq
ends_with s suffix =
    leb (length suffix) (length s) && text_eq (drop (length s - length suffix) s) suffix

-- `s.get(a..b)`: the bounds must stand between characters, in order and within the text.
abbrev is_boundary : Text → ℕ → Bool
is_boundary s i = elim (get_elem? s i) [
  | none ↦ i == length s
  | some c ↦ not (leb 0x80 c && leb c 0xbf)
]

unfoldable pub slice : Text → ℕ → ℕ → Option Text
slice s a b =
    if leb a b && is_boundary s a && is_boundary s b then some (take (b - a) (drop a s)) else none

-- `str::contains` of a text
unfoldable pub contains_text : Text → Text → Bool
contains_text p [] = is_some (strip_prefix p [])
contains_text p (x ∷ xs) = is_some (strip_prefix p (x ∷ xs)) || contains_text p xs
