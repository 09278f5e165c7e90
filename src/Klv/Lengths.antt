-- ===== src/Klv/Lengths.antt =====
-- The BER lengths and tags of rust/connectors/klv/src/klv.rs, as ST 0601 writes them, read back.
use ajar_connectors.Prelude.{
  ℕ, ◌+◌, ◌*◌, ◌%◌, ◌^◌, ◌≤◌, ◌<◌, ◌≡◌, refl, ap, ◌∙◌, false, some, [], ◌∷◌, ◌++◌, append_assoc,
  Bytes, All, IsByte, length, length-append, drop-append, get_elem?, ltb, ◌==◌, ◌||◌, lt→ltb, arith,
  ok,
}
use ajar_connectors.Prelude.Endian.{from_be, be_go}
use ajar_connectors.Klv.{long_len, read_ber_len, oid_go, read_ber_oid_tag}

-- A length in the short form, or in the long form of at most four bytes.
pub data IsLength : Bytes → ℕ → Type 0 where
  short : (n : ℕ) → n < 128 → IsLength (n ∷ []) n
  long :
      (bs : Bytes)
      → 1 ≤ length bs
      → length bs ≤ 4
      → All IsByte bs
      → IsLength ((128 + length bs) ∷ bs) (from_be bs)

-- The rest of a tag behind the value `acc`: its bytes and its value, of at most 32 bits.
pub data IsTag : ℕ → Bytes → ℕ → Type 0 where
  last : {acc : ℕ} → (b : ℕ) → b < 128 → acc < 2 ^ 25 → IsTag acc (b ∷ []) (acc * 128 + b)
  more :
      {acc n : ℕ} {bs : Bytes}
      → (b : ℕ) → b < 128
      → acc < 2 ^ 25
      → IsTag (acc * 128 + b) bs n
      → IsTag acc ((128 + b) ∷ bs) n

pub get_elem?-append :
    (before rest : Bytes) (b : ℕ) → get_elem? (before ++ (b ∷ rest)) (length before) ≡ some b
get_elem?-append [] rest b = refl
get_elem?-append (x ∷ before) rest b = get_elem?-append before rest b

-- `B` bounds what was read, and the bytes to come do not pass 64 bits.
abbrev pub HasRoom : ℕ → Bytes → Type 0
HasRoom B [] = Unit
HasRoom B (b ∷ bs) = (B * 256 ≤ 2 ^ 64) × HasRoom (B * 256) bs

pub four-HasRoom : (bs : Bytes) → length bs ≤ 4 → HasRoom 1 bs
four-HasRoom [] h = tt
four-HasRoom (a ∷ []) h = (omega arith, tt)
four-HasRoom (a ∷ b ∷ []) h = (omega arith, (omega arith, tt))
four-HasRoom (a ∷ b ∷ c ∷ []) h = (omega arith, (omega arith, (omega arith, tt)))
four-HasRoom (a ∷ b ∷ c ∷ d ∷ []) h = (omega arith, (omega arith, (omega arith, (omega arith, tt))))
four-HasRoom (a ∷ b ∷ c ∷ d ∷ e ∷ bs) h = absurd (omega arith)

pushed_byte :
    (acc B b : ℕ) → acc < B → b < 256 → B * 256 ≤ 2 ^ 64 → acc * 256 % 2 ^ 64 + b ≡ acc * 256 + b
pushed_byte acc B b h k r = omega arith

pub snoc-append :
    (before rest : Bytes) (b : ℕ) → (before ++ (b ∷ [])) ++ rest ≡ before ++ (b ∷ rest)
snoc-append before rest b = append_assoc before (b ∷ []) rest

pub length-snoc : (before : Bytes) (b : ℕ) → length (before ++ (b ∷ [])) ≡ length before + 1
length-snoc before b = length-append before (b ∷ [])

not_short : (n : ℕ) → ltb (128 + n) 128 ≡ false
not_short n = ground arith

low_bits : (n : ℕ) → n ≤ 4 → (128 + n) % 128 ≡ n
low_bits n h = omega arith

long_form : (n : ℕ) → 1 ≤ n → n ≤ 4 → ((n == 0) || ltb 4 n) ≡ false
long_form n h k = ground arith

pushed_tag : (acc b : ℕ) → acc < 2 ^ 25 → b < 128 → acc * 128 % 2 ^ 32 + b % 128 ≡ acc * 128 + b
pushed_tag acc b h k = omega arith

continued_tag :
    (acc b : ℕ) → acc < 2 ^ 25 → b < 128 → acc * 128 % 2 ^ 32 + (128 + b) % 128 ≡ acc * 128 + b
continued_tag acc b h k = omega arith

module _ {F : Type 0} where
  pub long_len-from_be :
      (B acc : ℕ) (before bs rest : Bytes)
      → acc < B
      → HasRoom B bs
      → All IsByte bs
      → long_len {F = F} (length bs) (before ++ (bs ++ rest)) (length before) acc
        ≡ ok (be_go acc bs, length before + length bs)
  unfolding long_len be_go
  long_len-from_be B acc before [] rest h r all = ap (λ (n : ℕ). ok (acc, n)) (omega arith)
  long_len-from_be B acc before (b ∷ bs) rest h r all =
      rw (get_elem?-append before (bs ++ rest) b, pushed_byte acc B b h all.0 r.0)
        (rw (← snoc-append before (bs ++ rest) b, ← length-snoc before b)
          (long_len-from_be (B * 256) (acc * 256 + b) (before ++ (b ∷ [])) bs rest
              (omega (arith, h, all.0)) r.1 all.1
            ∙ ap (λ (n : ℕ). ok (be_go (acc * 256 + b) bs, n))
                (omega (arith, length-snoc before b))))

  -- A length in either form is read back, with the position behind it.
  pub read_ber_len-IsLength :
      (before enc rest : Bytes) (n : ℕ)
      → IsLength enc n
      → read_ber_len {F = F} (before ++ (enc ++ rest)) (length before)
        ≡ ok (n, length before + length enc)
  unfolding read_ber_len from_be
  read_ber_len-IsLength before enc rest n (short k small) =
      rw (get_elem?-append before rest k, lt→ltb k 128 small)
  read_ber_len-IsLength before enc rest n (long bs some_byte four all) =
      rw
        (
          get_elem?-append before (bs ++ rest) (128 + length bs),
          not_short (length bs),
          low_bits (length bs) four,
          long_form (length bs) some_byte four,
          ← snoc-append before (bs ++ rest) (128 + length bs),
          ← length-snoc before (128 + length bs),
        )
        (long_len-from_be 1 0 (before ++ ((128 + length bs) ∷ [])) bs rest (omega arith)
            (four-HasRoom bs four) all
          ∙ ap (λ (n : ℕ). ok (be_go 0 bs, n))
              (omega (arith, length-snoc before (128 + length bs))))

  oid_go-IsTag :
      (acc at_byte : ℕ) (enc rest : Bytes) (n : ℕ)
      → IsTag acc enc n
      → oid_go {F = F} acc (enc ++ rest) at_byte ≡ ok (n, at_byte + length enc)
  unfolding oid_go
  oid_go-IsTag acc i enc rest n (last b small room) =
      rw (lt→ltb b 128 small, pushed_tag acc b room small)
  oid_go-IsTag acc i enc rest n (more {bs = bs} b small room tag) =
      rw (not_short b, continued_tag acc b room small)
        (oid_go-IsTag (acc * 128 + b) (i + 1) bs rest n tag
          ∙ ap (λ (k : ℕ). ok (n, k)) (omega arith))

  -- A tag is read back, with the position behind it.
  pub read_ber_oid_tag-IsTag :
      (before enc rest : Bytes) (n : ℕ)
      → IsTag 0 enc n
      → read_ber_oid_tag {F = F} (before ++ (enc ++ rest)) (length before)
        ≡ ok (n, length before + length enc)
  unfolding read_ber_oid_tag
  read_ber_oid_tag-IsTag before enc rest n tag =
      rw (drop-append before (enc ++ rest)) (oid_go-IsTag 0 (length before) enc rest n tag)
