-- ===== src/Prelude/Decimal.antt =====
-- Numbers in text: `to_string` of an unsigned integer, `parse` and `from_str_radix`.
use Prim.Native.Nat.{ℕ, zero, suc, ◌+◌, ◌-◌, ◌*◌, ◌/◌, ◌%◌}
use mathlib.Core.Bool.{◌&&◌}
use mathlib.Core.List.{List, [], ◌∷◌, ◌++◌}
use mathlib.Core.Option.{Option, none, some}
use ajar_connectors.Prelude.Tests.{ltb, leb, ◌==◌, if◌then◌else◌, option_filter}
use ajar_connectors.Prelude.Lists.{length, replicate}

abbrev decimal_go : ℕ → ℕ → List ℕ → List ℕ
decimal_go zero n acc = acc
decimal_go (suc k) n acc =
    let digits = (48 + n % 10) ∷ acc in
    let more = decimal_go k (n / 10) digits in if n / 10 == 0 then digits else more

-- 2 ^ 64 has twenty digits.
unfoldable pub decimal : ℕ → List ℕ
decimal n = decimal_go 20 n []

-- `format!("{n:0width$}")`
unfoldable pub zero_padded : ℕ → ℕ → List ℕ
unfolding decimal
zero_padded width n = replicate (width - length (decimal n)) 48 ++ decimal n

abbrev pub digit_value : ℕ → ℕ → Option ℕ
digit_value radix c =
    option_filter (λ v. ltb v radix)
      (if leb 48 c && leb c 57
        then some (c - 48)
        else if leb 65 c && leb c 90
        then some (c - 55)
        else if leb 97 c && leb c 122
        then some (c - 87)
        else none)

abbrev push_digit : ℕ → ℕ → Option ℕ → Option ℕ
push_digit radix acc none = none
push_digit radix acc (some v) = some (acc * radix + v)

unfoldable pub digits_value : ℕ → Option ℕ → List ℕ → Option ℕ
digits_value radix none s = none
digits_value radix (some acc) [] = some acc
digits_value radix (some acc) (c ∷ s) =
    digits_value radix (push_digit radix acc (digit_value radix c)) s

abbrev pub unsigned_digits : ℕ → List ℕ → Option ℕ
unfolding digits_value
unsigned_digits radix [] = none
unsigned_digits radix (c ∷ s) = digits_value radix (some 0) (c ∷ s)

abbrev pub drop_plus : List ℕ → List ℕ
drop_plus [] = []
drop_plus (c ∷ s) = if c == 43 then s else c ∷ s

-- An unsigned integer of at most `max`, a leading `+` allowed.
unfoldable pub parse_radix : ℕ → ℕ → List ℕ → Option ℕ
parse_radix radix max s = option_filter (λ n. leb n max) (unsigned_digits radix (drop_plus s))
