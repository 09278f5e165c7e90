-- ===== src/Asterix.antt =====
-- The length engine of the ASTERIX connector (rust/connectors/asterix/src/asterix/field.rs): the block header,
-- the FSPEC, and the length of each item. Offsets are machine words in the code, which no frame reaches.
pub mod Records
pub mod Wire
pub mod Tiles
pub mod Loops
pub mod Cat034
pub mod Service
pub mod Flags
pub mod Status
pub mod Report
pub mod Target
pub mod Cat010
pub mod Cat021
pub mod Cat048
use ajar_connectors.Prelude.{
  ℕ, zero, suc, ◌+◌, ◌-◌, ◌*◌, ◌/◌, ◌%◌, ◌^◌, Bool, true, false, ◌||◌, Option, none, some,
  option_map, and_then, List, [], ◌∷◌, ◌++◌, Bytes, length, take, drop, get_elem?, min, ltb, leb,
  ◌==◌, Result, ok, err, if◌then◌else◌,
}
use ajar_connectors.Sdk.Event.{BuildError}

-- A data item by its number in the category.
abbrev pub Item : Type 0
Item = ℕ

abbrev pub sp : Item
sp = 1000

abbrev pub re : Item
re = 1001

abbrev pub spare_item : Item
spare_item = 1002

-- How an item is measured. `extended` takes the octets of an extent, 1 or 3.
mutual
  pub data Field : Type 0 where
    fixed extended repetitive : ℕ → Field
    explicit spare opaque : Field
    compound : Fields → Field

  pub data Fields : Type 0 where
    no_fields : Fields
    field_then : Field → Fields → Fields

pub data AsterixError (F : Type 0) : Type 0 where
  bad_block : (cat : Option ℕ) (declared have : ℕ) → AsterixError F
  truncated : AsterixError F
  unsupported_item : (cat frn : ℕ) → AsterixError F
  build_failed : BuildError F → AsterixError F

-- The low bit of an octet, FX, says that another follows.
abbrev pub continues : ℕ → Bool
continues octet = octet % 2 == 1

-- The seven bits above it, highest first.
abbrev pub seven_bits : ℕ → List Bool
seven_bits o =
    (o / 128 % 2 == 1)
    ∷ (o / 64 % 2 == 1)
    ∷ (o / 32 % 2 == 1)
    ∷ (o / 16 % 2 == 1)
    ∷ (o / 8 % 2 == 1)
    ∷ (o / 4 % 2 == 1)
    ∷ (o / 2 % 2 == 1)
    ∷ []

-- The bits of the bitmap at the front of these bytes.
unfoldable pub bits_from : Bytes → Option (List Bool)
bits_from [] = none
bits_from (octet ∷ rest) =
    let more = option_map (λ (bits : List Bool). seven_bits octet ++ bits) (bits_from rest) in
    if continues octet then more else some (seven_bits octet)

unfoldable pub primary_bits : Bytes → ℕ → Option (List Bool)
primary_bits b off = bits_from (drop off b)

-- The octets of a bitmap of so many bits: `div_ceil(7)`.
abbrev pub octets : List Bool → ℕ
octets bits = (length bits + 6) / 7

-- The loop of an extended item that has `n` octets so far; each round passes one octet of the data at least.
unfoldable pub extended_len : ℕ → ℕ → Bytes → ℕ → ℕ → Option ℕ
extended_len zero unit b off n = none
extended_len (suc fuel) unit b off n = elim (get_elem? b (off + n + unit - 1)) [
  | none ↦ none
  | some octet ↦ elim (continues octet) [
    | true ↦ extended_len fuel unit b off (n + unit)
    | false ↦ some (n + unit)
  ]
]

unfoldable pub any : List Bool → Bool
any [] = false
any (b ∷ bs) = b || any bs

unfoldable mutual
  -- The length of an item at `off`, if it is there and can be measured.
  pub field_len : Field → Bytes → ℕ → Option ℕ
  field_len (fixed n) b off = some n
  field_len spare b off = some 0
  field_len (extended unit) b off = extended_len (length b) unit b off 0
  field_len (repetitive n) b off = option_map (λ (rep : ℕ). 1 + rep * n) (get_elem? b off)
  field_len explicit b off = get_elem? b off
  field_len (compound subs) b off =
      and_then (primary_bits b off) (λ (bits : List Bool). subs_len subs bits b off (octets bits))
  field_len opaque b off = none

  -- The loop over the presence bits, with the octets so far.
  pub subs_len : Fields → List Bool → Bytes → ℕ → ℕ → Option ℕ
  subs_len no_fields bits b off total = if any bits then none else some total
  subs_len (field_then sub subs) [] b off total = some total
  subs_len (field_then sub subs) (true ∷ bits) b off total =
      and_then (field_len sub b (off + total)) (λ (n : ℕ). subs_len subs bits b off (total + n))
  subs_len (field_then sub subs) (false ∷ bits) b off total = subs_len subs bits b off total

-- The subfields of a compound item with their indices, up to the first that cannot be measured.
abbrev sub_item : ℕ → ℕ → Bytes → ℕ → List (ℕ × Bytes) → List (ℕ × Bytes)
sub_item i len b off rest =
    if ltb (length b) (off + len) then [] else (i, take len (drop off b)) ∷ rest

unfoldable pub walk_subs : Fields → List Bool → ℕ → Bytes → ℕ → List (ℕ × Bytes)
walk_subs no_fields bits i b off = []
walk_subs (field_then sub subs) [] i b off = []
walk_subs (field_then sub subs) (false ∷ bits) i b off = walk_subs subs bits (suc i) b off
walk_subs (field_then sub subs) (true ∷ bits) i b off = elim (field_len sub b off) [
  | none ↦ []
  | some len ↦ sub_item i len b off (walk_subs subs bits (suc i) b (off + len))
]

unfoldable pub walk_compound : Fields → Bytes → List (ℕ × Bytes)
walk_compound subs b = elim (primary_bits b 0) [
  | none ↦ []
  | some bits ↦ walk_subs subs bits 0 b (octets bits)
]

module _ {F : Type 0} where
  abbrev pub checked_len : ℕ → ℕ → ℕ → Result (AsterixError F) (ℕ × ℕ)
  checked_len cat len have =
      if ltb len 3 || ltb have len then err (bad_block (some cat) len have) else ok (cat, len)

  -- The category and the declared length of the block at the front.
  unfoldable pub block_header : Bytes → Result (AsterixError F) (ℕ × ℕ)
  block_header [] = err (bad_block none 0 0)
  block_header (a ∷ []) = err (bad_block none 0 1)
  block_header (a ∷ b ∷ []) = err (bad_block none 0 2)
  block_header (cat ∷ hi ∷ lo ∷ rest) =
      checked_len cat (hi * 256 + lo) (length (cat ∷ hi ∷ lo ∷ rest))
