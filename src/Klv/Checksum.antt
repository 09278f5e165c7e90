-- ===== src/Klv/Checksum.antt =====
-- What the checksum of rust/connectors/klv/src/klv.rs protects.
use ajar_connectors.Prelude.{
  ℕ, zero, suc, ◌∙◌, All, IsByte, take-append-drop, length-append, length-take, ◌+◌, ◌-◌, ◌*◌, ◌%◌,
  ◌^◌, ◌≤◌, ◌<◌, ◌≡◌, refl, sym, ap, ◌≢◌, Bool, true, false, not, ◌||◌, Option, none, some, [], ◌∷◌,
  ◌++◌, Text, Bytes, text_eq→eq, length, take, drop, ltb, ◌==◌, arith, ok, bind-eq-ok, guard-eq-ok,
}
use ajar_connectors.Prelude.Float.{Float}
use ajar_connectors.Prelude.Endian.{from_be}
use ajar_connectors.Klv.{truncated, bad_checksum, uas_ls_key, bcc_go, bcc_16, read_ber_len}
use ajar_connectors.Klv.Lengths.{IsLength}
use ajar_connectors.Klv.Measured.{read_ber_len-Measures}
use ajar_connectors.Klv.Items.{
  Reading, nothing_read, UasMetadata, placed, located, read_items, set_items, read_set, parse_set,
}

sum_injective : (s t c : ℕ) → s < 2 ^ 16 → t < 2 ^ 16 → (s + c) % 2 ^ 16 ≡ (t + c) % 2 ^ 16 → s ≡ t
sum_injective s t c hs ht e = omega arith

term_injective : (s c d : ℕ) → c < 2 ^ 16 → d < 2 ^ 16 → (s + c) % 2 ^ 16 ≡ (s + d) % 2 ^ 16 → c ≡ d
term_injective s c d hc hd e = omega arith

word : (n : ℕ) → n % 2 ^ 16 < 2 ^ 16
word n = omega arith

bcc_go-injective :
    (s t : ℕ) (even : Bool) (bs : Bytes)
    → s < 2 ^ 16
    → t < 2 ^ 16
    → bcc_go s even bs ≡ bcc_go t even bs
    → s ≡ t
unfolding bcc_go
bcc_go-injective s t even [] hs ht e = e
bcc_go-injective s t true (b ∷ bs) hs ht e = sum_injective s t (b * 256) hs ht (
    bcc_go-injective ((s + b * 256) % 2 ^ 16) ((t + b * 256) % 2 ^ 16) false bs (word (s + b * 256))
      (word (t + b * 256)) e)
bcc_go-injective s t false (b ∷ bs) hs ht e =
    sum_injective s t b hs ht (
      bcc_go-injective ((s + b) % 2 ^ 16) ((t + b) % 2 ^ 16) true bs (word (s + b)) (word (t + b))
        e)

bcc_go-detects :
    (s : ℕ) (even : Bool) (before after : Bytes) (a b : ℕ)
    → s < 2 ^ 16
    → a < 256
    → b < 256
    → bcc_go s even (before ++ (a ∷ after)) ≡ bcc_go s even (before ++ (b ∷ after))
    → a ≡ b
unfolding bcc_go
bcc_go-detects s true [] after a b hs ha hb e = omega (
  arith,
  term_injective s (a * 256) (b * 256) (omega arith) (omega arith) (
      bcc_go-injective ((s + a * 256) % 2 ^ 16) ((s + b * 256) % 2 ^ 16) false after
        (word (s + a * 256)) (word (s + b * 256)) e),
)
bcc_go-detects s false [] after a b hs ha hb e = term_injective s a b (omega arith) (omega arith) (
    bcc_go-injective ((s + a) % 2 ^ 16) ((s + b) % 2 ^ 16) true after (word (s + a)) (word (s + b))
      e)
bcc_go-detects s true (x ∷ before) after a b hs ha hb e =
    bcc_go-detects ((s + x * 256) % 2 ^ 16) false before after a b (word (s + x * 256)) ha hb e
bcc_go-detects s false (x ∷ before) after a b hs ha hb e =
    bcc_go-detects ((s + x) % 2 ^ 16) true before after a b (word (s + x)) ha hb e

-- Changing any one of the bytes that a checksum covers changes the checksum.
pub bcc_16-detects :
    (before after : Bytes) (a b : ℕ)
    → a < 256
    → b < 256
    → a ≢ b
    → bcc_16 (before ++ (a ∷ after)) ≢ bcc_16 (before ++ (b ∷ after))
unfolding bcc_16
bcc_16-detects before after a b ha hb n e =
    n (bcc_go-detects 0 true before after a b (omega arith) ha hb e)

within_frame : (n t s : ℕ) → (ltb n t || ltb t s) ≡ false → t ≤ n
within_frame n t s h = ground arith

two_bytes : (n start k : ℕ) → (ltb n (start + k) || ltb (start + k) (start + 2)) ≡ false → 2 ≤ k
two_bytes n start k h = ground arith

All-drop : (n : ℕ) (bs : Bytes) → All IsByte bs → All IsByte (drop n bs)
All-drop zero bs h = h
All-drop (suc n) [] h = tt
All-drop (suc n) (b ∷ bs) h = All-drop n bs h.1

same_sum : (a b : ℕ) → not (a == b) ≡ false → a ≡ b
same_sum a b h = ground arith

second_holds : (b c : Bool) → (b || not c) ≡ false → c ≡ true
second_holds true c h = cc
second_holds false true h = refl
second_holds false false h = cc

-- A set at the front of the frame: the label, an encoded length, and as many bytes, the last two of which are
-- the checksum of those before them.
abbrev pub IsChecked : Bytes → Bytes → Type 0
IsChecked frame raw =
    (enc : Bytes) × (set_len : ℕ) × (rest : Bytes) × IsLength enc set_len
    × (frame ≡ uas_ls_key ++ (enc ++ rest))
    × (2 ≤ set_len)
    × (set_len ≤ length rest)
    × (raw ≡ uas_ls_key ++ (enc ++ take set_len rest))
    × (bcc_16 (take (length raw - 2) raw) ≡ from_be (drop (length raw - 2) raw))

suc_first : (n k : ℕ) → suc n + k ≡ suc (n + k)
suc_first n k = omega arith

take_past : (xs ys : Bytes) (k : ℕ) → take (length xs + k) (xs ++ ys) ≡ xs ++ take k ys
take_past [] ys k = ap (λ (n : ℕ). take n ys) (omega arith)
take_past (x ∷ xs) ys k =
    ap (λ (n : ℕ). take n (x ∷ (xs ++ ys))) (suc_first (length xs) k)
    ∙ ap (λ (l : Bytes). x ∷ l) (take_past xs ys k)

checked :
    (frame raw enc rest : Bytes) (set_len start : ℕ)
    → IsLength enc set_len
    → frame ≡ uas_ls_key ++ (enc ++ rest)
    → start ≡ 16 + length enc
    → 2 ≤ set_len
    → start + set_len ≤ length frame
    → raw ≡ take (start + set_len) frame
    → bcc_16 (take (start + set_len - 2) raw) ≡ from_be (drop (start + set_len - 2) raw)
    → IsChecked frame raw
checked frame raw enc rest set_len start is_len parts at_rest two within front summed =
    let inside : length frame ≡ 16 + (length enc + length rest) =
      ap {A = Bytes} length parts
      ∙ omega (arith, length-append uas_ls_key (enc ++ rest), length-append enc rest) in
    let size : length raw ≡ start + set_len =
      omega (arith, within, length-take (start + set_len) frame, ap {A = Bytes} length front) in
    (
      enc,
      set_len,
      rest,
      is_len,
      parts,
      two,
      omega (arith, inside, within, at_rest),
      front
          ∙ ap (take (start + set_len)) parts
          ∙ ap (λ (n : ℕ). take n (uas_ls_key ++ (enc ++ rest))) (omega (arith, at_rest))
          ∙ take_past uas_ls_key (enc ++ rest) (length enc + set_len)
          ∙ ap (λ (x : Bytes). uas_ls_key ++ x) (take_past enc rest set_len),
      rw size summed,
    )

module _ {F : Type 0} ⦃f : Float F⦄ where
  placed_raw :
      (pkt : Bytes) (r : Reading F) (lat lon : Option F) (m : UasMetadata F)
      → placed pkt r lat lon ≡ some m
      → m.raw ≡ pkt
  unfolding placed
  placed_raw pkt r none lon m h = cc
  placed_raw pkt r (some lat) none m h = cc
  placed_raw pkt r (some lat) (some lon) m h =
      sym (ap (λ (o : Option (UasMetadata F)). elim o [ none ↦ pkt | some x ↦ x.raw ]) h)

  set_items_raw :
      (format_micros : ℕ → Option Text) (frame : Bytes) (start total : ℕ) (m : UasMetadata F)
      → set_items format_micros frame start total ≡ ok (some m)
      → m.raw ≡ take total frame
  unfolding set_items located
  set_items_raw format_micros frame start total m h =
      let (reading, read, h1) =
        bind-eq-ok (read_items format_micros (total - start) frame total start nothing_read)
          (λ (r : Reading F). ok (located (take total frame) r)) h in
      placed_raw (take total frame) reading reading.lat reading.lon m (cc h1)

  read_set_sound :
      (format_micros : ℕ → Option Text) (frame : Bytes) (set_len start : ℕ) (m : UasMetadata F)
      → read_set format_micros frame (set_len, start) ≡ ok (some m)
      → (start + set_len ≤ length frame)
        × (2 ≤ set_len)
        × (m.raw ≡ take (start + set_len) frame)
        × (bcc_16 (take (start + set_len - 2) m.raw) ≡ from_be (drop (start + set_len - 2) m.raw))
  unfolding read_set
  read_set_sound format_micros frame set_len start m h =
      let total : ℕ = start + set_len in
      let pkt : Bytes = take total frame in
      let (within, h1) =
        guard-eq-ok (ltb (length frame) total || ltb total (start + 2)) truncated _ h in
      let (summed, h2) =
        guard-eq-ok (not (bcc_16 (take (total - 2) pkt) == from_be (drop (total - 2) pkt)))
          bad_checksum (set_items format_micros frame start total) h1 in
      let raw = set_items_raw format_micros frame start total m h2 in
      (
        within_frame (length frame) total (start + 2) within,
        two_bytes (length frame) start set_len within,
        raw,
        rw raw (same_sum _ _ summed),
      )

  -- What `parse_set` returns is read from a set at the front of the frame, under the UAS label, with a length
  -- of two at least and a checksum that holds; the payload is that set, whole.
  pub parse_set_sound :
      (format_micros : ℕ → Option Text) (frame : Bytes) (m : UasMetadata F)
      → All IsByte frame
      → parse_set format_micros frame ≡ ok (some m)
      → IsChecked frame m.raw
  unfolding parse_set
  parse_set_sound format_micros frame m bytes h =
      let (labelled, h1) = guard-eq-ok _ _ _ h in
      let ((set_len, start), measured, h2) =
        bind-eq-ok (read_ber_len frame 16) (read_set format_micros frame) h1 in
      let label = text_eq→eq (take 16 frame) uas_ls_key (second_holds _ _ labelled) in
      let split : uas_ls_key ++ drop 16 frame ≡ frame =
        ap (λ (x : Bytes). x ++ drop 16 frame) (sym label) ∙ take-append-drop 16 frame in
      let (size, (enc, rest, parts, is_len, sized), behind) =
        read_ber_len-Measures {F = F} uas_ls_key (drop 16 frame) (set_len, start)
          (All-drop 16 frame bytes) (rw split measured) in
      let (whole, two, raw, summed) = read_set_sound format_micros frame set_len start m h2 in
      checked frame m.raw enc rest set_len start is_len
        (sym split ∙ ap (λ (x : Bytes). uas_ls_key ++ x) parts) (behind ∙ ap (λ n. 16 + n) sized)
        two whole raw summed
