-- ===== src/Ais/Bits.antt =====
-- The armored payload of rust/connectors/ais-nmea/src/ais/bits.rs.
use ajar_connectors.Prelude.{
  ℕ, zero, suc, ◌+◌, ◌-◌, ◌*◌, ◌/◌, ◌%◌, ◌^◌, Option, none, some, List, [], ◌∷◌, ◌++◌, Text, text,
  length, get_elem?, is_empty, ltb, leb, ◌==◌, Result, ok, err, ◌>>=◌, option_map, unwrap_or,
  if◌then◌else◌,
}
use ajar_connectors.Prelude.Int.{ℤ, pos, sub_ℕ}
use ajar_connectors.Prelude.Scan.{trim, trim_end_matches}

pub record Bits : Type 0 where
  pub six : List ℕ
  pub valid_bits : ℕ

abbrev pub sixbit_ascii : Text
sixbit_ascii =
    text "@ABCDEFGHIJKLMNOPQRSTUVWXYZ["
    ++ 92 ∷ text "]^_ !"
    ++ 34 ∷ text "#$%&'()*+,-./0123456789:;<=>?"

-- The value of one armor character; what is below 48 is negative in the source.
unfoldable pub unarmor : ℕ → Option ℕ
unarmor c =
    let v = c - 48 in
    let folded = if ltb 40 v then v - 8 else v in
    if ltb c 48 then none else if leb folded 63 then some folded else none

abbrev consed : ℕ → List ℕ → Result ℕ (List ℕ)
consed v vs = ok (v ∷ vs)

-- The error is the character that is none of the armor's.
unfoldable pub unarmor_all : Text → Result ℕ (List ℕ)
unarmor_all [] = ok []
unarmor_all (c ∷ cs) = elim (unarmor c) [ none ↦ err c | some v ↦ unarmor_all cs >>= consed v ]

unfoldable pub from_payload : Text → ℕ → Result ℕ Bits
from_payload payload fill =
    unarmor_all payload >>= λ six. ok (record { six = six; valid_bits = length six * 6 - fill })

-- The source panics past the last character; every caller has compared the range with `valid_bits`.
unfoldable pub bit_at : Bits → ℕ → ℕ
bit_at b i = unwrap_or (get_elem? b.six (i / 6)) 0 / 2 ^ (5 - i % 6) % 2

-- The first `n` bits from `start`, behind the bits `val` read before.
unfoldable pub u_go : ℕ → Bits → ℕ → ℕ → ℕ
u_go val b start zero = val
u_go val b start (suc n) = u_go (val * 2 % 2 ^ 64 + bit_at b start) b (start + 1) n

unfoldable pub u : Bits → ℕ → ℕ → ℕ
unfolding u_go
u = u_go 0

unfoldable pub opt_u : Bits → ℕ → ℕ → Option ℕ
opt_u b start n = if leb (start + n) b.valid_bits then some (u b start n) else none

-- `u & (1 << (n - 1)) != 0` is the test of the top bit.
unfoldable pub opt_i : Bits → ℕ → ℕ → Option ℤ
opt_i b start n =
    option_map (λ w. if w / 2 ^ (n - 1) % 2 == 0 then pos w else sub_ℕ w (2 ^ n)) (opt_u b start n)

abbrev pub sixbit_char : ℕ → ℕ
sixbit_char v = unwrap_or (get_elem? sixbit_ascii v) 0

unfoldable pub text_chars : Bits → ℕ → ℕ → Text
text_chars b start zero = []
text_chars b start (suc n) = sixbit_char (u b start 6) ∷ text_chars b (start + 6) n

unfoldable pub opt_text : Bits → ℕ → ℕ → Option Text
opt_text b start bits =
    let s = trim (trim_end_matches 64 (text_chars b start (bits / 6))) in
    if ltb b.valid_bits (start + bits) then none else if is_empty s then none else some s
