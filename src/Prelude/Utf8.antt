-- ===== src/Prelude/Utf8.antt =====
-- `str::from_utf8`: which bytes are UTF-8 (the table of well-formed sequences of the Unicode standard).
use Prim.Native.Nat.{ℕ, zero, suc}
use mathlib.Core.Bool.{Bool, true, false, ◌&&◌}
use mathlib.Core.List.{List, [], ◌∷◌, ◌++◌}
use ajar_connectors.Prelude.Tests.{ltb, leb, ◌==◌, if◌then◌else◌}

-- How many bytes must follow a lead byte, and the range of the first of them.
pub data Lead : Type 0 where
  bad : Lead
  follow : (need lo hi : ℕ) → Lead

abbrev pub lead : ℕ → Lead
lead x =
    if ltb x 0x80
    then follow 0 0 0
    else if ltb x 0xc2
    then bad
    else if leb x 0xdf
    then follow 1 0x80 0xbf
    else if x == 0xe0
    then follow 2 0xa0 0xbf
    else if x == 0xed
    then follow 2 0x80 0x9f
    else if leb x 0xef
    then follow 2 0x80 0xbf
    else if x == 0xf0
    then follow 3 0x90 0xbf
    else if leb x 0xf3
    then follow 3 0x80 0xbf
    else if x == 0xf4
    then follow 3 0x80 0x8f
    else bad

unfoldable pub utf8_go : Lead → List ℕ → Bool
utf8_go bad [] = false
utf8_go bad (x ∷ xs) = false
utf8_go (follow zero lo hi) [] = true
utf8_go (follow (suc need) lo hi) [] = false
utf8_go (follow zero lo hi) (x ∷ xs) = utf8_go (lead x) xs
utf8_go (follow (suc need) lo hi) (x ∷ xs) =
    utf8_go (if leb lo x && leb x hi then follow need 0x80 0xbf else bad) xs

unfoldable pub is_utf8 : List ℕ → Bool
unfolding utf8_go
is_utf8 = utf8_go (follow 0 0 0)

-- U+FFFD
abbrev replacement : List ℕ
replacement = 0xef ∷ 0xbf ∷ 0xbd ∷ []

-- `String::from_utf8_lossy`: each maximal part of a sequence that cannot go on is replaced. `part` is the
-- sequence begun.
unfoldable pub lossy_go : Lead → List ℕ → List ℕ → List ℕ
lossy_go bad part [] = []
lossy_go bad part (x ∷ xs) = []
lossy_go (follow zero lo hi) part [] = []
lossy_go (follow (suc need) lo hi) part [] = replacement
lossy_go (follow zero lo hi) part (x ∷ xs) = elim (lead x) [
  | bad ↦ replacement ++ lossy_go (follow 0 0 0) [] xs
  | follow zero l h ↦ x ∷ lossy_go (follow 0 0 0) [] xs
  | follow (suc n) l h ↦ lossy_go (follow (suc n) l h) (x ∷ []) xs
]
lossy_go (follow (suc zero) lo hi) part (x ∷ xs) = elim (leb lo x && leb x hi) [
  | true ↦ part ++ x ∷ lossy_go (follow 0 0 0) [] xs
  | false ↦ replacement ++ elim (lead x) [
    | bad ↦ replacement ++ lossy_go (follow 0 0 0) [] xs
    | follow zero l h ↦ x ∷ lossy_go (follow 0 0 0) [] xs
    | follow (suc n) l h ↦ lossy_go (follow (suc n) l h) (x ∷ []) xs
  ]
]
lossy_go (follow (suc (suc need)) lo hi) part (x ∷ xs) = elim (leb lo x && leb x hi) [
  | true ↦ lossy_go (follow (suc need) 0x80 0xbf) (part ++ x ∷ []) xs
  | false ↦ replacement ++ elim (lead x) [
    | bad ↦ replacement ++ lossy_go (follow 0 0 0) [] xs
    | follow zero l h ↦ x ∷ lossy_go (follow 0 0 0) [] xs
    | follow (suc n) l h ↦ lossy_go (follow (suc n) l h) (x ∷ []) xs
  ]
]

unfoldable pub from_utf8_lossy : List ℕ → List ℕ
unfolding lossy_go
from_utf8_lossy = lossy_go (follow 0 0 0) []
