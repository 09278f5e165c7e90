-- ===== src/Klv/Layout.antt =====
-- The items of a local set in rust/connectors/klv/src/klv.rs, as their bytes lie.
use ajar_connectors.Prelude.{
  ℕ, ◌+◌, ◌≤◌, ◌≡◌, sym, ap, ◌∙◌, Bool, true, false, not, ◌||◌, List, [], ◌∷◌, ◌++◌, append_assoc,
  Bytes, length, take, drop, take-append, drop-append, ltb, ◌==◌, arith,
}
use ajar_connectors.Klv.Lengths.{IsLength, short, long, IsTag, last, more}

-- The bytes of a list of items, tag, length and value each.
pub data AreItems : Bytes → List (ℕ × Bytes) → Type 0 where
  no_items : AreItems [] []
  item :
      {tag len rest : Bytes} {t : ℕ} {items : List (ℕ × Bytes)}
      → (value : Bytes) → IsTag 0 tag t
      → IsLength len (length value)
      → AreItems rest items
      → AreItems (tag ++ (len ++ (value ++ rest))) ((t, value) ∷ items)

pub length-IsTag : {acc n : ℕ} {enc : Bytes} → IsTag acc enc n → 1 ≤ length enc
length-IsTag (last b small room) = omega arith
length-IsTag (more b small room tag) = omega arith

pub length-IsLength : {enc : Bytes} {n : ℕ} → IsLength enc n → 1 ≤ length enc
length-IsLength (short k small) = omega arith
length-IsLength (long bs some_byte four all) = omega arith

pub next_part :
    (frame before part rest after : Bytes)
    → frame ≡ before ++ ((part ++ rest) ++ after)
    → frame ≡ before ++ (part ++ (rest ++ after))
next_part frame before part rest after e =
    e ∙ ap (λ (b : Bytes). before ++ b) (append_assoc part rest after)

pub part_read :
    (frame before part after : Bytes)
    → frame ≡ before ++ (part ++ after)
    → frame ≡ (before ++ part) ++ after
part_read frame before part after e = e ∙ sym (append_assoc before part after)

pub value_at :
    (frame before value after : Bytes)
    → frame ≡ before ++ (value ++ after)
    → take (length value) (drop (length before) frame) ≡ value
value_at frame before value after e =
    ap (λ (b : Bytes). take (length value) (drop (length before) b)) e
    ∙ ap (take (length value)) (drop-append before (value ++ after))
    ∙ take-append value after

pub at_end : (n : ℕ) → ltb n (n + 0) ≡ false
at_end n = ground arith

pub outside : (total n : ℕ) → n ≤ total → ltb total n ≡ false
outside total n h = ground arith

pub set_front :
    (frame set after : Bytes) (n : ℕ) → frame ≡ set ++ after → n ≡ length set → take n frame ≡ set
set_front frame set after n e size =
    ap (take n) e ∙ ap (λ (k : ℕ). take k (set ++ after)) size ∙ take-append set after

pub label_passes : (n : ℕ) (c : Bool) → 17 ≤ n → c ≡ true → (ltb n 17 || not c) ≡ false
label_passes n true h k = ground arith
label_passes n false h k = cc

pub guard_passes :
    (n total start : ℕ)
    → total ≤ n
    → start + 2 ≤ total
    → (ltb n total || ltb total (start + 2)) ≡ false
guard_passes n total start h k = ground arith

pub same : (n : ℕ) → (n == n) ≡ true
same n = ground arith
