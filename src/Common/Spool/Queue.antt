-- ===== src/Common/Spool/Queue.antt =====
-- The spool of rust/connectors/common/src/spool.rs as a queue of records: peek and advance.
use ajar_connectors.Prelude.{
  ℕ, zero, suc, ◌+◌, ◌-◌, ◌≤◌, ◌≡◌, refl, sym, ap, ◌∙◌, subst, Option, none, some, option_map, List,
  [], ◌∷◌, ◌++◌, append_assoc, append-nil, Bytes, All, length, length-append, arith, ok,
}
use ajar_connectors.Common.Spool.{
  Record, Cursor, Segments, Spool, encode, file_of, read_record_of, read_record_at,
}
use ajar_connectors.Common.Spool.Log.{
  record_found, peek_go, peeked, peek, segments_from, confirm, advance,
}
use ajar_connectors.Common.Spool.Codec.{Framed, encode_all}
use ajar_connectors.Common.Spool.Whole.{read_record_of-encode, read_record_of-end}

-- The cursor stands before the records `todo` of its segment's file.
pub record StandsBefore (segs : Segments) (c : Cursor) (todo : List Record) : Type 0 where
  pub done : Bytes
  pub file : file_of c.seg segs ≡ some (done ++ encode_all todo)
  pub at_offset : c.offset ≡ length done
  pub framed : All Framed todo

abbrev pub next_segment : Cursor → Cursor
next_segment c = record { seg = c.seg + 1; offset = 0 }

-- The records behind the cursor, in the segments up to the head, which is `ahead` further.
pub data Waiting (segs : Segments) : ℕ → Cursor → List Record → Type 0 where
  in_head : {c : Cursor} {todo : List Record} → StandsBefore segs c todo → Waiting segs 0 c todo
  behind_head :
      {c : Cursor} {ahead : ℕ} {todo later : List Record}
      → StandsBefore segs c todo
      → Waiting segs ahead (next_segment c) later
      → Waiting segs (suc ahead) c (todo ++ later)

pub record IsQueue (s : Spool) (q : List Record) : Type 0 where
  pub ahead : ℕ
  pub to_head : ahead + s.cursor.seg ≡ s.head_seq
  pub waiting : Waiting s.dir.segments ahead s.cursor q

abbrev pub first_at : ℕ → List Record → Option (Record × ℕ)
first_at offset [] = none
first_at offset (r ∷ todo) = some (r, offset + length (encode r))

pub read_record_at-of :
    (segs : Segments) (seg offset : ℕ) (file : Bytes)
    → file_of seg segs ≡ some file
    → read_record_at segs seg offset ≡ ok (read_record_of file offset)
unfolding read_record_at
read_record_at-of segs seg offset file h = rw h

read_record_of-todo :
    (before : Bytes) (todo : List Record)
    → All Framed todo
    → read_record_of (before ++ encode_all todo) (length before) ≡ first_at (length before) todo
unfolding encode_all
read_record_of-todo before [] h =
    ap (λ (b : Bytes). read_record_of b (length before)) (append-nil before)
    ∙ read_record_of-end before
read_record_of-todo before (r ∷ todo) h = read_record_of-encode before (encode_all todo) r h.0

read_record_at-StandsBefore :
    (segs : Segments) (c : Cursor) (todo : List Record)
    → StandsBefore segs c todo
    → read_record_at segs c.seg c.offset ≡ ok (first_at c.offset todo)
read_record_at-StandsBefore segs c todo h =
    read_record_at-of segs c.seg c.offset _ h.file
    ∙ ap (λ (o : ℕ). ok (read_record_of (h.done ++ encode_all todo) o)) h.at_offset
    ∙ ap ok (read_record_of-todo h.done todo h.framed)
    ∙ ap (λ (o : ℕ). ok (first_at o todo)) (sym h.at_offset)

encode_all-cons : (r : Record) (rs : List Record) → encode_all (r ∷ rs) ≡ encode r ++ encode_all rs
unfolding encode_all
encode_all-cons r rs = refl

-- Past the first record stand the others.
pub StandsBefore-next :
    (segs : Segments) (c : Cursor) (r : Record) (todo : List Record)
    → StandsBefore segs c (r ∷ todo)
    → StandsBefore segs (record { seg = c.seg; offset = c.offset + length (encode r) }) todo
StandsBefore-next segs c r todo h = record {
  done = h.done ++ encode r;
  file = rw (append_assoc h.done (encode r) (encode_all todo)) (open_all h.file);
  at_offset = omega (arith, h.at_offset, length-append h.done (encode r));
  framed = h.framed.1;
}
  where
    open_all :
        {o : Option Bytes}
        → o ≡ some (h.done ++ encode_all (r ∷ todo))
        → o ≡ some (h.done ++ (encode r ++ encode_all todo))
    open_all e = e ∙ ap (λ (b : Bytes). some (h.done ++ b)) (encode_all-cons r todo)

pub peek_go-found :
    (segs : Segments) (ahead : ℕ) (c : Cursor) (r : Record)
    → record_found (read_record_at segs c.seg c.offset) ≡ some r
    → peek_go ahead segs c ≡ (c, some r)
unfolding peek_go
peek_go-found segs zero c r h = ap (λ (o : Option Record). (c, o)) h
peek_go-found segs (suc ahead) c r h =
    ap
      (λ (o : Option Record). elim o as (λ x. Cursor × Option Record) [
        | none ↦ peek_go ahead segs (next_segment c)
        | some x ↦ (c, some x)
      ])
      h

pub peek_go-exhausted :
    (segs : Segments) (ahead : ℕ) (c : Cursor)
    → record_found (read_record_at segs c.seg c.offset) ≡ none
    → peek_go (suc ahead) segs c ≡ peek_go ahead segs (next_segment c)
unfolding peek_go
peek_go-exhausted segs ahead c h =
    ap
      (λ (o : Option Record). elim o as (λ x. Cursor × Option Record) [
        | none ↦ peek_go ahead segs (next_segment c)
        | some x ↦ (c, some x)
      ])
      h

pub peek_go-end :
    (segs : Segments) (c : Cursor)
    → record_found (read_record_at segs c.seg c.offset) ≡ none
    → peek_go 0 segs c ≡ (c, none)
unfolding peek_go
peek_go-end segs c h = ap (λ (o : Option Record). (c, o)) h

pub record_found-StandsBefore :
    (segs : Segments) (c : Cursor) (todo : List Record)
    → StandsBefore segs c todo
    → record_found (read_record_at segs c.seg c.offset)
      ≡ option_map (λ (p : Record × ℕ). p.0) (first_at c.offset todo)
record_found-StandsBefore segs c todo h =
    rw (read_record_at-StandsBefore segs c todo h) (found_first todo)
  where
    found_first :
        (todo : List Record)
        → record_found (ok (first_at c.offset todo))
          ≡ option_map (λ (p : Record × ℕ). p.0) (first_at c.offset todo)
    found_first [] = refl
    found_first (r ∷ todo) = refl

abbrev pub after_record : Cursor → Record → Cursor
after_record c r = record { seg = c.seg; offset = c.offset + length (encode r) }

pub next_seg : (ahead seg : ℕ) → suc ahead + seg ≡ ahead + (seg + 1)
next_seg ahead seg = omega arith

-- What a peek gives: nothing, or the first record that waits, the cursor before it and the rest behind it.
data Found (segs : Segments) (end : ℕ) : Cursor × Option Record → List Record → Type 0 where
  none_waits : {c : Cursor} → Found segs end (c, none) []
  first_waits :
      {c : Cursor} {r : Record} {rest : List Record}
      → (ahead : ℕ) (todo : List Record) → ahead + c.seg ≡ end
      → StandsBefore segs c (r ∷ todo)
      → Waiting segs ahead (after_record c r) rest
      → Found segs end (c, some r) (r ∷ rest)

peek_go-Found :
    (segs : Segments) (ahead : ℕ) (c : Cursor) (q : List Record)
    → Waiting segs ahead c q
    → Found segs (ahead + c.seg) (peek_go ahead segs c) q
peek_go-Found segs zero c q (in_head {todo = []} h) =
    rw (peek_go-end segs c (record_found-StandsBefore segs c [] h)) none_waits
peek_go-Found segs zero c q (in_head {todo = r ∷ todo} h) =
    rw (peek_go-found segs 0 c r (record_found-StandsBefore segs c (r ∷ todo) h))
      (first_waits 0 todo refl h (in_head (StandsBefore-next segs c r todo h)))
peek_go-Found segs (suc ahead) c q (behind_head {todo = []} h w) =
    rw
      (peek_go-exhausted segs ahead c (record_found-StandsBefore segs c [] h), next_seg ahead c.seg)
      (peek_go-Found segs ahead (next_segment c) q w)
peek_go-Found segs (suc ahead) c q (behind_head {todo = r ∷ todo} {later} h w) =
    rw (peek_go-found segs (suc ahead) c r (record_found-StandsBefore segs c (r ∷ todo) h))
      (first_waits (suc ahead) todo refl h (behind_head (StandsBefore-next segs c r todo h) w))

file_of-segments_from :
    (k seg : ℕ) (segs : Segments) → seg ≤ k → file_of k (segments_from seg segs) ≡ file_of k segs
unfolding file_of segments_from
file_of-segments_from k seg [] h = refl
file_of-segments_from k seg ((n, b) ∷ segs) h = ground (arith, file_of-segments_from k seg segs)

StandsBefore-segments_from :
    (seg : ℕ) (segs : Segments) (c : Cursor) (todo : List Record)
    → seg ≤ c.seg
    → StandsBefore segs c todo
    → StandsBefore (segments_from seg segs) c todo
StandsBefore-segments_from seg segs c todo from h = record {
  done = h.done;
  file = file_of-segments_from c.seg seg segs from ∙ h.file;
  at_offset = h.at_offset;
  framed = h.framed;
}

pub Waiting-segments_from :
    (seg : ℕ) (segs : Segments) (ahead : ℕ) (c : Cursor) (q : List Record)
    → seg ≤ c.seg
    → Waiting segs ahead c q
    → Waiting (segments_from seg segs) ahead c q
Waiting-segments_from seg segs zero c q from (in_head h) =
    in_head (StandsBefore-segments_from seg segs c q from h)
Waiting-segments_from seg segs (suc ahead) c q from (behind_head {todo = todo} {later} h w) =
    behind_head (StandsBefore-segments_from seg segs c todo from h)
      (Waiting-segments_from seg segs ahead (next_segment c) later (omega (arith, from)) w)

-- A peek finds nothing, or the first record of the queue, and to confirm it leaves the queue of the others.
unfoldable pub Drains : Spool → List Record → Type 0
Drains s [] = (peek s).1 ≡ none
Drains s (r ∷ q) =
    (c : Cursor) × (s' : Spool) × ((peek s).1 ≡ some (c, r))
    × (advance c (peek s).0 ≡ ok s')
    × IsQueue s' q

advance-StandsBefore :
    (s : Spool) (c : Cursor) (r : Record) (todo : List Record)
    → StandsBefore s.dir.segments c (r ∷ todo)
    → advance c s ≡ confirm c s (some (r, c.offset + length (encode r)))
unfolding advance
advance-StandsBefore s c r todo h = rw (read_record_at-StandsBefore s.dir.segments c (r ∷ todo) h)

Drains-of_Found :
    (s : Spool) (p : Cursor × Option Record) (q : List Record)
    → Found s.dir.segments s.head_seq p q
    → peek s ≡ peeked s p
    → Drains s q
unfolding Drains
Drains-of_Found s p q none_waits e = ap (λ (x : Spool × Option (Cursor × Record)). x.1) e
Drains-of_Found s p q (first_waits {c} {r} {rest} ahead todo end h w) e = (
  c,
  record s {
    dir = record {
      segments = segments_from c.seg s.dir.segments;
      cursor_file = some (after_record c r);
    };
    cursor = after_record c r;
  },
  ap (λ (x : Spool × Option (Cursor × Record)). x.1) e,
  ap (λ (x : Spool × Option (Cursor × Record)). advance c x.0) e
      ∙ advance-StandsBefore (record s { cursor = c }) c r todo h,
  record {
    ahead = ahead;
    to_head = end;
    waiting =
        Waiting-segments_from c.seg s.dir.segments ahead (after_record c r) rest (omega arith) w;
  },
)

-- A spool whose segments from the cursor to the head are there and hold whole records drains as a
-- queue: a peek at an empty one finds nothing, and at one with records it finds the first, whose
-- confirmation succeeds and leaves the others, in their order.
pub IsQueue-Drains : (s : Spool) (q : List Record) → IsQueue s q → Drains s q
unfolding peek
IsQueue-Drains s q h =
    Drains-of_Found s (peek_go (s.head_seq - s.cursor.seg) s.dir.segments s.cursor) q
      (rw (gap h.ahead s.cursor.seg s.head_seq h.to_head) (
        subst (λ (n : ℕ). Found s.dir.segments n (peek_go h.ahead s.dir.segments s.cursor) q)
          h.to_head (peek_go-Found s.dir.segments h.ahead s.cursor q h.waiting)))
      refl
  where
    gap : (a c n : ℕ) → a + c ≡ n → n - c ≡ a
    gap a c n e = omega (arith, e)
