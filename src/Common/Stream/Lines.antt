-- ===== src/Common/Stream/Lines.antt =====
-- `read_line` of rust/connectors/common/src/stream.rs against the stream without its chunks.
use ajar_connectors.Prelude.{
  ℕ, zero, suc, ◌-◌, ◌≤◌, ◌≡◌, refl, sym, ap, ◌∙◌, subst, ◌≢◌, inl, inr, Bool, false, Bool-cases,
  Option, none, some, [], ◌∷◌, ◌++◌, append_assoc, append-nil, Bytes, length, take, All,
  length-append, length-take, is_empty, contains, split_once, split_once_parts, split_once-append,
  ltb, arith, Result, ok, err, if◌then◌else◌,
}
use ajar_connectors.Common.Stream.{
  StreamError, unexpected_eof, line_exceeds_buffer, Reader, left_of, copy_bounded, strip_crs,
  finish_line, at_eof, read_line_go, read_line,
}

-- The bytes that the reader yields, whatever its chunks.
unfoldable pub flat : Reader → Bytes
flat [] = []
flat (chunk ∷ chunks) = chunk ++ flat chunks

abbrev pub NonEmptyChunks : Reader → Type 0
NonEmptyChunks = All (λ (c : Bytes). c ≢ [])

-- A line within the buffer, without its carriage returns.
abbrev pub bounded_line : ℕ → Bytes → Result StreamError Bytes
bounded_line size l = if ltb size (length l) then err line_exceeds_buffer else ok (strip_crs l)

abbrev pub cut_line : ℕ → Bytes × Option Bytes → Result StreamError Bytes
cut_line size (before, some after) = bounded_line size before
cut_line size (before, none) =
    if is_empty before then err unexpected_eof else bounded_line size before

abbrev pub after_line : Option Bytes → Bytes
after_line none = []
after_line (some after) = after

-- What the buffer holds of the bytes seen, and whether some did not fit.
abbrev held : ℕ → Bytes → Bytes × Bool
held size seen = (take size seen, ltb size (length seen))

zero_sub : (n : ℕ) → 0 - n ≡ 0
zero_sub n = omega arith

sub_zero : (n : ℕ) → suc n - 0 ≡ suc n
sub_zero n = omega arith

sub_suc : (n m : ℕ) → suc n - suc m ≡ n - m
sub_suc n m = omega arith

take-++ : (n : ℕ) (xs ys : Bytes) → take n (xs ++ ys) ≡ take n xs ++ take (n - length xs) ys
take-++ zero xs ys = rw (zero_sub (length xs))
take-++ (suc n) [] ys = rw (sub_zero n)
take-++ (suc n) (x ∷ xs) ys = rw (sub_suc n (length xs)) (ap (◌∷◌ x) (take-++ n xs ys))

take_all : (n : ℕ) (xs : Bytes) → length xs ≤ n → take n xs ≡ xs
take_all zero [] h = refl
take_all zero (x ∷ xs) h = absurd (omega arith)
take_all (suc n) [] h = refl
take_all (suc n) (x ∷ xs) h = ap (◌∷◌ x) (take_all n xs (omega arith))

room_eq : (size : ℕ) (seen : Bytes) → size - length (take size seen) ≡ size - length seen
room_eq size seen = omega (arith, length-take size seen)

copy_bounded-held :
    (size : ℕ) (seen src : Bytes)
    → copy_bounded size (take size seen) (ltb size (length seen)) src ≡ held size (seen ++ src)
unfolding copy_bounded
copy_bounded-held size seen src =
    rw (room_eq size seen, take-++ size seen src, length-append seen src)
      elim (Bool-cases (ltb (size - length seen) (length src))) [
        | inl over ↦
            rw over (
              ap (λ (b : Bool). (take size seen ++ take (size - length seen) src, b))
                (ground arith))
        | inr fits ↦
            rw (fits, take_all (size - length seen) src (ground arith))
              (ap (λ (b : Bool). (take size seen ++ src, b)) (ground arith))
      ]

finish_line-held : (size : ℕ) (s : Bytes) → finish_line (held size s) ≡ bounded_line size s
unfolding finish_line
finish_line-held size s = elim (Bool-cases (ltb size (length s))) [
  | inl over ↦ rw over
  | inr fits ↦ rw (fits, take_all size s (ground arith))
]

at_eof-held : (size : ℕ) (s : Bytes) → at_eof (held size s) ≡ cut_line size (s, none)
unfolding at_eof finish_line
at_eof-held size [] = ground (arith, take_all size [])
at_eof-held zero (x ∷ xs) = ground arith
at_eof-held (suc size) (x ∷ xs) = finish_line-held (suc size) (x ∷ xs)

split_once-skip :
    (seen t : Bytes)
    → contains 10 seen ≡ false
    → split_once 10 (seen ++ t) ≡ (seen ++ (split_once 10 t).0, (split_once 10 t).1)
unfolding split_once contains
split_once-skip [] t h = refl
split_once-skip (x ∷ xs) t h = ground (arith, split_once-skip xs t)

split_once-none :
    (s : Bytes) → (split_once 10 s).1 ≡ none → (contains 10 s ≡ false) × ((split_once 10 s).0 ≡ s)
unfolding split_once contains
split_once-none [] h = (refl, refl)
split_once-none (x ∷ xs) h = ground (arith, split_once-none xs)

flat-left_of : (rest : Bytes) (chunks : Reader) → flat (left_of rest chunks) ≡ rest ++ flat chunks
unfolding flat
flat-left_of [] chunks = refl
flat-left_of (b ∷ bs) chunks = refl

NonEmptyChunks-left_of :
    (rest : Bytes) (chunks : Reader) → NonEmptyChunks chunks → NonEmptyChunks (left_of rest chunks)
NonEmptyChunks-left_of [] chunks h = h
NonEmptyChunks-left_of (b ∷ bs) chunks h = (λ e. cc, h)

-- What a read of the line gives: the result of the cut, and a reader of what is behind the line.
abbrev pub Reads : ℕ → Bytes → Reader × Result StreamError Bytes → Type 0
Reads size s (reader, r) =
    (r ≡ cut_line size (split_once 10 s))
    × (flat reader ≡ after_line (split_once 10 s).1)
    × NonEmptyChunks reader

contains-append :
    (a b : Bytes) → contains 10 a ≡ false → contains 10 b ≡ false → contains 10 (a ++ b) ≡ false
unfolding contains
contains-append [] b h k = k
contains-append (x ∷ xs) b h k = ground (arith, contains-append xs b)

Reads-end :
    (size : ℕ) (seen before rest : Bytes) (chunks : Reader)
    → contains 10 seen ≡ false
    → contains 10 before ≡ false
    → NonEmptyChunks chunks
    → Reads size (seen ++ (before ++ (10 ∷ (rest ++ flat chunks)))) (
      left_of rest chunks,
      finish_line (copy_bounded size (take size seen) (ltb size (length seen)) before),
    )
Reads-end size seen before rest chunks h k ne =
    rw
      (
        split_once-skip seen (before ++ (10 ∷ (rest ++ flat chunks))) h,
        split_once-append 10 before (rest ++ flat chunks) k,
        copy_bounded-held size seen before,
        finish_line-held size (seen ++ before),
      )
      (refl, flat-left_of rest chunks, NonEmptyChunks-left_of rest chunks ne)

-- A chunk holds the line's end, or the next chunks go on.
Reads-chunk :
    (size : ℕ) (seen chunk before : Bytes) (after : Option Bytes) (chunks : Reader)
    → split_once 10 chunk ≡ (before, after)
    → contains 10 seen ≡ false
    → NonEmptyChunks chunks
    → (contains 10 (seen ++ chunk) ≡ false
        → Reads size
            ((seen ++ chunk) ++ flat chunks)
            (read_line_go size (held size (seen ++ chunk)) chunks))
    → Reads size (seen ++ (chunk ++ flat chunks)) (elim after [
      | some rest ↦ (
        left_of rest chunks,
        finish_line (copy_bounded size (take size seen) (ltb size (length seen)) before),
      )
      | none ↦
          read_line_go size
            (copy_bounded size (take size seen) (ltb size (length seen)) before)
            chunks
    ])
Reads-chunk size seen chunk before none chunks e h ne ih =
    let whole = split_once-none chunk (ap (λ (p : Bytes × Option Bytes). p.1) e) in
    let kept : before ≡ chunk = sym (ap (λ (p : Bytes × Option Bytes). p.0) e) ∙ whole.1 in
    rw (kept, copy_bounded-held size seen chunk, ← append_assoc seen chunk (flat chunks))
      (ih (contains-append seen chunk h whole.0))
Reads-chunk size seen chunk before (some rest) chunks e h ne ih =
    let parts = split_once_parts 10 chunk e in
    rw (parts.1, append_assoc before (10 ∷ rest) (flat chunks))
      (Reads-end size seen before rest chunks h parts.0 ne)

read_line_go-Reads :
    (size : ℕ) (seen : Bytes) (chunks : Reader)
    → contains 10 seen ≡ false
    → NonEmptyChunks chunks
    → Reads size (seen ++ flat chunks) (read_line_go size (held size seen) chunks)
unfolding read_line_go flat split_once
read_line_go-Reads size seen [] h ne =
    rw (split_once-skip seen [] h, append-nil seen, at_eof-held size seen) (refl, refl, tt)
read_line_go-Reads size seen ([] ∷ chunks) h ne = absurd (ne.0 refl)
read_line_go-Reads size seen ((b ∷ bs) ∷ chunks) h ne =
    Reads-chunk size seen (b ∷ bs) (split_once 10 (b ∷ bs)).0 (split_once 10 (b ∷ bs)).1 chunks refl
      h ne.1 (λ k. read_line_go-Reads size (seen ++ (b ∷ bs)) chunks k ne.1)

held_nothing : (size : ℕ) → held size [] ≡ ([], false)
held_nothing zero = refl
held_nothing (suc size) = ground arith

-- For a reader without empty chunks, the line read is that of the whole stream and the reader is left at
-- what is behind its newline, however the stream is cut into chunks; a line longer than the buffer is
-- refused and consumed, and the end of the stream is an error only when no byte was left.
pub read_line_lem :
    (size : ℕ) (chunks : Reader)
    → NonEmptyChunks chunks
    → Reads size (flat chunks) (read_line size chunks)
unfolding read_line contains
read_line_lem size chunks ne =
    subst (λ (b : Bytes × Bool). Reads size (flat chunks) (read_line_go size b chunks))
      (held_nothing size) (read_line_go-Reads size [] chunks refl ne)
