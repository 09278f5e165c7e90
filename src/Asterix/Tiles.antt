-- ===== src/Asterix/Tiles.antt =====
-- The record walk of rust/connectors/asterix/src/asterix/field.rs passes over every byte once, and the loops
-- over records and blocks end.
use ajar_connectors.Prelude.{
  ℕ, zero, suc, ◌+◌, ◌-◌, ◌*◌, ◌≤◌, ◌≡◌, refl, sym, ap, ◌∙◌, subst, inl, inr, Bool, false,
  Bool-cases, Option, none, some, option_map, List, [], ◌∷◌, ◌++◌, append_assoc, Bytes, length,
  take, drop, length-append, length-drop, length-take, take-append, take-append-drop, get_elem?,
  ltb, arith, Result, ok, err, ok_or, bind-eq-ok, ok_or-eq-ok,
}
use ajar_connectors.Asterix.{
  Item, Field, AsterixError, truncated, unsupported_item, bits_from, octets, seven_bits, continues,
  field_len,
}
use ajar_connectors.Asterix.Records.{
  Uap, Items, present_from, unmeasured, cut, walk_item, walk_items, walk_record,
}

-- The items' bytes one after another.
unfoldable pub item_bytes : Items → Bytes
item_bytes [] = []
item_bytes ((item, bytes) ∷ items) = bytes ++ item_bytes items

drop-nil : (n : ℕ) → drop {A = ℕ} n [] ≡ []
drop-nil zero = refl
drop-nil (suc n) = refl

drop-drop : (n m : ℕ) (b : Bytes) → drop m (drop n b) ≡ drop (n + m) b
drop-drop zero m b = ap (λ (k : ℕ). drop k b) (omega arith)
drop-drop (suc n) m [] = drop-nil m ∙ sym (drop-nil (suc n + m))
drop-drop (suc n) m (x ∷ b) = drop-drop n m b ∙ next_drop (n + m) (suc n + m) (omega arith)
  where
    next_drop : (k l : ℕ) → suc k ≡ l → drop k b ≡ drop l (x ∷ b)
    next_drop k l e = ap (λ (y : ℕ). drop y (x ∷ b)) e

cut_up : (n m : ℕ) (b : Bytes) → drop n b ≡ take m (drop n b) ++ drop (n + m) b
cut_up n m b =
    sym (take-append-drop m (drop n b))
    ∙ ap (λ (r : Bytes). take m (drop n b) ++ r) (drop-drop n m b)

-- A bitmap has seven bits for each of its octets, one at least.
bits_from-octets :
    (b : Bytes) (bits : List Bool)
    → bits_from b ≡ some bits
    → (k : ℕ) × (length bits ≡ 7 * k) × (1 ≤ k) × (k ≤ length b)
unfolding bits_from
bits_from-octets [] bits h = cc
bits_from-octets (octet ∷ rest) bits h = elim (Bool-cases (continues octet)) [
  | inl more ↦ later (bits_from rest) (rw more at h) (bits_from-octets rest)
  | inr last ↦ (1, one (rw last at h), omega arith, omega arith)
]
  where
    one : some (seven_bits octet) ≡ some bits → length bits ≡ 7
    one e =
        ap (λ (o : Option (List Bool)). elim o as (λ x. ℕ) [ none ↦ 7 | some l ↦ length l ]) (sym e)

    later :
        (o : Option (List Bool))
        → option_map (λ (l : List Bool). seven_bits octet ++ l) o ≡ some bits
        → ((l : List Bool)
            → o ≡ some l
            → (k : ℕ) × (length l ≡ 7 * k) × (1 ≤ k) × (k ≤ length rest))
        → (k : ℕ) × (length bits ≡ 7 * k) × (1 ≤ k) × (k ≤ suc (length rest))
    later none e ih = cc
    later (some l) e ih =
        let (k, seven, least, most) = ih l refl in
        (
          suc k,
          sym (
                ap (λ (o : Option (List Bool)). elim o as (λ x. ℕ) [ none ↦ 0 | some l ↦ length l ])
                  e)
              ∙ omega (arith, seven),
          omega arith,
          omega (arith, most),
        )

octets_of : (bits : List Bool) (k : ℕ) → length bits ≡ 7 * k → octets bits ≡ k
octets_of bits k h = omega (arith, h)

fits_of : (a b : ℕ) → ltb b a ≡ false → a ≤ b
fits_of a b h = ground arith

-- The part of `b` from `off` to `next` is `part`.
pub record Covers (b : Bytes) (off next : ℕ) (part : Bytes) : Type 0 where
  pub split : drop off b ≡ part ++ drop next b
  pub size : off + length part ≡ next
  pub within : next ≤ length b

Covers-none : (b : Bytes) (off : ℕ) → off ≤ length b → Covers b off off []
Covers-none b off h = record { split = refl; size = omega arith; within = h }

Covers-both :
    (b : Bytes) (off mid next : ℕ) (p q : Bytes)
    → Covers b off mid p
    → Covers b mid next q
    → Covers b off next (p ++ q)
Covers-both b off mid next p q x y = record {
  split = x.split ∙ ap (λ (r : Bytes). p ++ r) y.split ∙ sym (append_assoc p q (drop next b));
  size = omega (arith, length-append p q, x.size, y.size);
  within = y.within;
}

Covers-take :
    (b : Bytes) (off len : ℕ)
    → off + len ≤ length b
    → Covers b off (off + len) (take len (drop off b))
Covers-take b off len h = record {
  split = cut_up off len b;
  size = omega (arith, length-take len (drop off b), length-drop off b);
  within = h;
}

pub Covers-part :
    (b : Bytes) (off next : ℕ) (part : Bytes)
    → Covers b off next part
    → take (next - off) (drop off b) ≡ part
Covers-part b off next part h =
    ap (λ (x : Bytes). take (next - off) x) h.split
    ∙ ap (λ (k : ℕ). take k (part ++ drop next b)) (omega (arith, h.size))
    ∙ take-append part (drop next b)

-- The items are those that the table has at these numbers.
abbrev pub Named : Uap → List ℕ → Items → Type 0
Named uap [] [] = Unit
Named uap [] (i ∷ items) = ⊥
Named uap (frn ∷ frns) [] = ⊥
Named uap (frn ∷ frns) ((item, bytes) ∷ items) =
    ((field : Field) × (get_elem? uap (frn - 1) ≡ some (item, field))) × Named uap frns items

-- A record's bytes: the octets of its bitmap, one at least, and its items.
pub record TilesRecord (uap : Uap) (b : Bytes) (off : ℕ) (items : Items) (next : ℕ) : Type 0 where
  pub fspec : Bytes
  pub covers : Covers b off next (fspec ++ item_bytes items)
  pub some_octet : 1 ≤ length fspec
  pub bits : List Bool
  pub presence : bits_from (drop off b) ≡ some bits
  pub one_octet_each : length bits ≡ 7 * length fspec
  pub named : Named uap (present_from 1 bits) items

module _ {F : Type 0} where
  cut-Covers :
      (b : Bytes) (off len : ℕ) (r : Bytes × ℕ)
      → cut {F = F} b off len ≡ ok r
      → Covers b off r.1 r.0
  unfolding cut
  cut-Covers b off len r h = elim (Bool-cases (ltb (length b) (off + len))) [
    | inl short ↦ absurd (refused (rw short at h))
    | inr fits ↦
        subst (λ (x : Bytes × ℕ). Covers b off x.1 x.0) (same (rw fits at h))
          (Covers-take b off len (fits_of (off + len) (length b) fits))
  ]
    where
      refused : ◌≡◌ {A = Result (AsterixError F) (Bytes × ℕ)} (err truncated) (ok r) → ⊥
      refused e = cc

      same :
          ◌≡◌ {A = Result (AsterixError F) (Bytes × ℕ)}
            (ok (take len (drop off b), off + len))
            (ok r)
          → (take len (drop off b), off + len) ≡ r
      same e = cc

  same_ok : {A : Type 0} {a b : A} → ◌≡◌ {A = Result (AsterixError F) A} (ok a) (ok b) → a ≡ b
  same_ok e = cc

  walk_item-Covers :
      (cat frn : ℕ) (entry : Item × Field) (b : Bytes) (off : ℕ) (r : (Item × Bytes) × ℕ)
      → walk_item {F = F} cat frn entry b off ≡ ok r
      → Covers b off r.1 r.0.1
  unfolding walk_item
  walk_item-Covers cat frn entry b off r h =
      let (len, measured, h1) =
        bind-eq-ok (ok_or (field_len entry.1 b off) (unmeasured cat frn entry.1)) _ h in
      let (part, is_cut, h2) = bind-eq-ok (cut b off len) _ h1 in
      subst (λ (x : (Item × Bytes) × ℕ). Covers b off x.1 x.0.1) (same_ok h2)
        (cut-Covers b off len part is_cut)

  walk_item-item :
      (cat frn : ℕ) (entry : Item × Field) (b : Bytes) (off : ℕ) (r : (Item × Bytes) × ℕ)
      → walk_item {F = F} cat frn entry b off ≡ ok r
      → entry.0 ≡ r.0.0
  unfolding walk_item
  walk_item-item cat frn entry b off r h =
      let (len, measured, h1) =
        bind-eq-ok (ok_or (field_len entry.1 b off) (unmeasured cat frn entry.1)) _ h in
      let (part, is_cut, h2) = bind-eq-ok (cut b off len) _ h1 in
      ap (λ (x : (Item × Bytes) × ℕ). x.0.0) (same_ok h2)

  walk_items-Covers :
      (cat : ℕ) (uap : Uap) (b : Bytes) (frns : List ℕ) (off : ℕ) (r : Items × ℕ)
      → off ≤ length b
      → walk_items {F = F} cat uap b frns off ≡ ok r
      → Covers b off r.1 (item_bytes r.0) × Named uap frns r.0
  unfolding walk_items item_bytes
  walk_items-Covers cat uap b [] off r start h =
      subst (λ (x : Items × ℕ). Covers b off x.1 (item_bytes x.0) × Named uap [] x.0) (same_ok h)
        (Covers-none b off start, tt)
  walk_items-Covers cat uap b (frn ∷ frns) off r start h =
      let (entry, known, h1) =
        bind-eq-ok (ok_or (get_elem? uap (frn - 1)) (unsupported_item cat frn)) _ h in
      let (item, walked, h2) = bind-eq-ok (walk_item cat frn entry b off) _ h1 in
      let (rest, others, h3) = bind-eq-ok (walk_items cat uap b frns item.1) _ h2 in
      let one = walk_item-Covers cat frn entry b off item walked in
      let later = walk_items-Covers cat uap b frns item.1 rest one.within others in
      subst (λ (x : Items × ℕ). Covers b off x.1 (item_bytes x.0) × Named uap (frn ∷ frns) x.0)
        (same_ok h3)
        (
          Covers-both b off item.1 rest.1 item.0.1 (item_bytes rest.0) one later.0,
          (
            (
              entry.1,
              ok_or-eq-ok (get_elem? uap (frn - 1)) _ known
                  ∙ ap (λ (n : Item). some (n, entry.1))
                      (walk_item-item cat frn entry b off item walked),
            ),
            later.1,
          ),
        )

  -- A record that is walked covers the bytes up to the next: the octets of its presence bitmap, one at least,
  -- and then its items one after another, which are those of the set bits, in order, as the category's table
  -- names them; the walk never leaves the block.
  pub walk_record_lem :
      (cat : ℕ) (uap : Uap) (b : Bytes) (off next : ℕ) (items : Items)
      → walk_record {F = F} cat uap b off ≡ ok (items, next)
      → TilesRecord uap b off items next
  unfolding walk_record
  walk_record_lem cat uap b off next items h =
      let (bits, presence, h1) = bind-eq-ok (ok_or (bits_from (drop off b)) truncated) _ h in
      let found = ok_or-eq-ok (bits_from (drop off b)) _ presence in
      let (k, seven, least, most) = bits_from-octets (drop off b) bits found in
      let count = octets_of bits k seven in
      let inside : off + octets bits ≤ length b =
        omega (arith, count, most, least, length-drop off b) in
      let fspec = take (octets bits) (drop off b) in
      let size : length fspec ≡ k =
        omega (arith, count, most, length-take (octets bits) (drop off b)) in
      let rest =
        walk_items-Covers cat uap b (present_from 1 bits) (off + octets bits) (items, next) inside
          h1 in
      record {
        fspec = fspec;
        covers =
            Covers-both b off (off + octets bits) next fspec (item_bytes items)
              (Covers-take b off (octets bits) inside) rest.0;
        some_octet = omega (arith, size, least);
        bits = bits;
        presence = found;
        one_octet_each = seven ∙ omega (arith, size);
        named = rest.1;
      }
