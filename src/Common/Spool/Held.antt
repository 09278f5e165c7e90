-- ===== src/Common/Spool/Held.antt =====
-- The record that `peek` of rust/connectors/common/src/spool.rs has handed out, while others append and
-- until `advance` confirms it.
use ajar_connectors.Prelude.{
  ℕ, zero, suc, ◌+◌, ◌≤◌, ◌≡◌, ◌≢◌, refl, sym, ap, ◌∙◌, ◌⊎◌, inl, inr, subst, Bool, true, false,
  Bool-cases, none, some, List, [], ◌∷◌, ◌++◌, append_assoc, Bytes, leb, ◌==◌, arith, err,
  if◌then◌else◌,
}
use ajar_connectors.Common.Spool.{
  Record, Cursor, Segments, Spool, not_found, encode, file_of, read_record_at, segment_bytes,
}
use ajar_connectors.Common.Spool.Log.{
  append_to, rotate, total_bytes, skip_past, drop_oldest, enforce_bound, write_head, append,
  advance,
}
use ajar_connectors.Common.Spool.Queue.{StandsBefore, Waiting, in_head, behind_head}
use ajar_connectors.Common.Spool.Append.{
  file_of-append_to, file_of-append_to-other, file_of-create_segment-other,
}
use ajar_connectors.Common.Spool.Peek.{StandsAt, StandsBefore-first}
use ajar_connectors.Common.Spool.Bound.{rotate-IsLog, cursor_le}
use ajar_connectors.Common.Spool.Dropped.{Moved, skip_past-stays}
use ajar_connectors.Common.Spool.Numbered.{
  Numbered, IsLog, Numbered-le, Numbered-append_to, file_of-below, file_of-tail,
}

-- A record handed out is at the cursor, or was dropped with its segment.
abbrev pub Held : Spool → Cursor → Record → Type 0
Held s c r =
    ((s.cursor ≡ c) × StandsAt s.dir.segments c r)
    ⊎ ((file_of c.seg s.dir.segments ≡ none) × (suc c.seg ≤ s.head_seq) × (1 ≤ s.dropped_segments))

file_of-dropped :
    (k max_bytes : ℕ) (segs : Segments) (c : Cursor)
    → file_of k segs ≡ none
    → file_of k (drop_oldest max_bytes segs c).0 ≡ none
unfolding file_of drop_oldest
file_of-dropped k max_bytes [] c h = h
file_of-dropped k max_bytes ((n, b) ∷ []) c h = h
file_of-dropped k max_bytes ((n, b) ∷ x ∷ segs) c h =
    elim (Bool-cases (leb (total_bytes ((n, b) ∷ x ∷ segs)) max_bytes)) [
      | inl fits ↦ rw fits h
      | inr over ↦
          rw over (file_of-dropped k max_bytes (x ∷ segs) (skip_past n c) (tail (n == k) h))
    ]
  where
    tail :
        (same : Bool)
        → (if same then some b else file_of k (x ∷ segs)) ≡ none
        → file_of k (x ∷ segs) ≡ none
    tail true h = cc
    tail false h = h

-- Dropping the oldest segments leaves the cursor and its file, or takes that file.
drop_oldest-Held :
    (max_bytes lo head : ℕ) (segs : Segments) (c : Cursor)
    → Numbered lo head segs
    → lo ≤ c.seg
    → c.seg ≤ head
    → (((drop_oldest max_bytes segs c).1 ≡ c)
        × (file_of c.seg (drop_oldest max_bytes segs c).0 ≡ file_of c.seg segs))
      ⊎ ((file_of c.seg (drop_oldest max_bytes segs c).0 ≡ none)
          × (suc c.seg ≤ head)
          × (1 ≤ (drop_oldest max_bytes segs c).2))
unfolding drop_oldest
drop_oldest-Held max_bytes lo head [] c h from to = inl (refl, refl)
drop_oldest-Held max_bytes lo head ((n, b) ∷ []) c h from to = inl (refl, refl)
drop_oldest-Held max_bytes lo head ((n, b) ∷ (m, d) ∷ segs) c h from to =
    elim (Bool-cases (leb (total_bytes ((n, b) ∷ (m, d) ∷ segs)) max_bytes)) [
      | inl fits ↦ rw fits (inl (refl, refl))
      | inr over ↦ rw over (elim (Bool-cases (leb c.seg n)) [
        | inl here ↦ inr (
          file_of-dropped c.seg max_bytes ((m, d) ∷ segs) (skip_past n c)
              (file_of-below c.seg (suc lo) head ((m, d) ∷ segs) h.1 (at_most c.seg n lo here h.0)),
          before_head c.seg n lo head here h.0 (Numbered-le (suc (suc lo)) head segs h.1.1),
          omega arith,
        )
        | inr past ↦
            rw
              (
                skip_past-stays n c past,
                file_of-tail c.seg n b ((m, d) ∷ segs) (beyond c.seg n past),
              )
              (deeper (
                drop_oldest-Held max_bytes (suc lo) head ((m, d) ∷ segs) c h.1
                  (from_next c.seg n lo past h.0) to))
      ])
    ]
  where
    deeper : {A B C : Type 0} {k : ℕ} → A ⊎ (B × C × (1 ≤ k)) → A ⊎ (B × C × (1 ≤ suc k))
    deeper (inl a) = inl a
    deeper (inr (b, c, l)) = inr (b, c, omega arith)

    at_most : (k n lo : ℕ) → leb k n ≡ true → n ≡ lo → suc k ≤ suc lo
    at_most k n lo h e = ground arith

    before_head :
        (k n lo head : ℕ) → leb k n ≡ true → n ≡ lo → suc (suc lo) ≤ suc head → suc k ≤ head
    before_head k n lo head h e l = ground arith

    beyond : (k n : ℕ) → leb k n ≡ false → suc n ≤ k
    beyond k n h = ground arith

    from_next : (k n lo : ℕ) → leb k n ≡ false → n ≡ lo → suc lo ≤ k
    from_next k n lo h e = ground arith

enforce_bound-Held :
    (s : Spool) (lo : ℕ) (c : Cursor) (r : Record)
    → Numbered lo s.head_seq s.dir.segments
    → lo ≤ s.cursor.seg
    → s.cursor.seg ≤ s.head_seq
    → Held s c r
    → Held (enforce_bound s).0 c r
unfolding enforce_bound
enforce_bound-Held s lo c r numbered from to (inl (here, at)) = kept (
    drop_oldest-Held s.max_bytes lo s.head_seq s.dir.segments c numbered
      (subst (λ (x : Cursor). lo ≤ x.seg) here from)
      (subst (λ (x : Cursor). x.seg ≤ s.head_seq) here to))
  where
    kept :
        (((drop_oldest s.max_bytes s.dir.segments c).1 ≡ c)
            × (file_of c.seg (drop_oldest s.max_bytes s.dir.segments c).0
                ≡ file_of c.seg s.dir.segments))
          ⊎ ((file_of c.seg (drop_oldest s.max_bytes s.dir.segments c).0 ≡ none)
              × (suc c.seg ≤ s.head_seq)
              × (1 ≤ (drop_oldest s.max_bytes s.dir.segments c).2))
        → Held (enforce_bound s).0 c r
    kept (inl (e, f)) = rw here (
        inl (
          e,
          record {
            done = at.done;
            rest = at.rest;
            file = f ∙ at.file;
            at_offset = at.at_offset;
            framed = at.framed;
          },
        ))
    kept (inr gone) = rw here (inr (gone.0, gone.1, omega (arith, gone.2)))
enforce_bound-Held s lo c r numbered from to (inr (none_there, below, lost)) = inr (
  file_of-dropped c.seg s.max_bytes s.dir.segments s.cursor none_there,
  below,
  omega (arith, lost),
)

file_of-append_to-none :
    (head k : ℕ) (buf : Bytes) (segs : Segments)
    → file_of k segs ≡ none
    → suc k ≤ head
    → file_of k (append_to head buf segs) ≡ none
file_of-append_to-none head k buf segs h below = file_of-append_to-other head k buf segs below ∙ h

write_head-Held :
    (s : Spool) (buf : Bytes) (c : Cursor) (r : Record)
    → s.cursor.seg ≤ s.head_seq
    → Held s c r
    → Held (write_head buf s) c r
unfolding write_head
write_head-Held s buf c r to (inl (here, at)) =
    inl
      (here, grown (le_cases c.seg s.head_seq (subst (λ (x : Cursor). x.seg ≤ s.head_seq) here to)))
  where
    le_cases : (a b : ℕ) → a ≤ b → (a ≡ b) ⊎ (suc a ≤ b)
    le_cases a b h = elim (Bool-cases (a == b)) [
      | inl same ↦ inl (ground arith)
      | inr other ↦ inr (ground arith)
    ]

    grown :
        (c.seg ≡ s.head_seq) ⊎ (suc c.seg ≤ s.head_seq)
        → StandsAt (append_to s.head_seq buf s.dir.segments) c r
    grown (inl same) = record {
      done = at.done;
      rest = at.rest ++ buf;
      file =
          ap (λ (k : ℕ). file_of c.seg (append_to k buf s.dir.segments)) (sym same)
          ∙ file_of-append_to c.seg buf _ s.dir.segments at.file
          ∙ ap some (
              append_assoc at.done (encode r ++ at.rest) buf
              ∙ ap (λ (b : Bytes). at.done ++ b) (append_assoc (encode r) at.rest buf));
      at_offset = at.at_offset;
      framed = at.framed;
    }
    grown (inr below) = record {
      done = at.done;
      rest = at.rest;
      file = file_of-append_to-other s.head_seq c.seg buf s.dir.segments below ∙ at.file;
      at_offset = at.at_offset;
      framed = at.framed;
    }
write_head-Held s buf c r to (inr (none_there, below, lost)) =
    inr (file_of-append_to-none s.head_seq c.seg buf s.dir.segments none_there below, below, lost)

rotate-Held :
    (s : Spool) (c : Cursor) (r : Record)
    → s.cursor.seg ≤ s.head_seq
    → Held s c r
    → Held (rotate s) c r
unfolding rotate
rotate-Held s c r to (inl (here, at)) = inl (
  here,
  record {
    done = at.done;
    rest = at.rest;
    file =
        file_of-create_segment-other (s.head_seq + 1) c.seg s.dir.segments
          (below (subst (λ (x : Cursor). x.seg ≤ s.head_seq) here to))
        ∙ at.file;
    at_offset = at.at_offset;
    framed = at.framed;
  },
)
  where
    below : c.seg ≤ s.head_seq → suc c.seg ≤ s.head_seq + 1
    below h = omega arith
rotate-Held s c r to (inr (none_there, below, lost)) = inr (
  file_of-create_segment-other (s.head_seq + 1) c.seg s.dir.segments (omega arith) ∙ none_there,
  omega arith,
  lost,
)

write-Held :
    (s : Spool) (q : List Record) (c : Cursor) (r x : Record)
    → IsLog s q
    → Held s c r
    → Held (enforce_bound (write_head (encode x) s)).0 c r
unfolding write_head
write-Held s q c r x h held =
    enforce_bound-Held (write_head (encode x) s) h.lo c r
      (Numbered-append_to s.head_seq h.lo s.head_seq (encode x) s.dir.segments h.numbered) h.from_lo
      (cursor_le h) (write_head-Held s (encode x) c r (cursor_le h) held)

-- An append keeps the record that is held, or drops its segment.
pub append-Held :
    (s : Spool) (q : List Record) (c : Cursor) (r x : Record)
    → IsLog s q
    → Held s c r
    → Held (append x s).0 c r
unfolding append
append-Held s q c r x h held = by_room (leb segment_bytes s.head_len)
  where
    by_room :
        (full : Bool)
        → Held (enforce_bound (write_head (encode x) (if full then rotate s else s))).0 c r
    by_room true =
        write-Held (rotate s) q c r x (rotate-IsLog s q h) (rotate-Held s c r (cursor_le h) held)
    by_room false = write-Held s q c r x h held

-- The cursor of a queue is in a segment that is there.
cursor_there :
    (s : Spool) (q : List Record) → IsLog s q → file_of s.cursor.seg s.dir.segments ≢ none
cursor_there s q h = there h.queue.ahead s.cursor q h.queue.waiting
  where
    there :
        (ahead : ℕ) (c : Cursor) (q : List Record)
        → Waiting s.dir.segments ahead c q
        → file_of c.seg s.dir.segments ≢ none
    there zero c q (in_head w) = λ e. let f = w.file in cc
    there (suc ahead) c q (behind_head w more) = λ e. let f = w.file in cc

-- Where the held record is no longer at the cursor after an append, it is the first that was lost.
pub append-lost :
    (s : Spool) (q : List Record) (c : Cursor) (r x : Record) (lost q' : List Record)
    → s.cursor ≡ c
    → StandsAt s.dir.segments c r
    → IsLog (append x s).0 q'
    → file_of c.seg (append x s).0.dir.segments ≡ none
    → Moved s.dir.segments s.cursor lost (append x s).0.cursor
    → (others : List Record) × (lost ≡ r ∷ others)
append-lost s q c r x lost q' here at log gone (inl same) = absurd (
    cursor_there _ q' log (
      subst (λ (y : Cursor). file_of y.seg (append x s).0.dir.segments ≡ none) (sym (same ∙ here))
        gone))
append-lost s q c r x lost q' here at log gone (inr (todo, others, before, e)) =
    let (rest, f) =
      StandsBefore-first s.dir.segments c r todo at
        (subst (λ (y : Cursor). StandsBefore s.dir.segments y todo) here before) in
    (rest ++ others, e ∙ ap (λ (l : List Record). l ++ others) f)

-- A record whose segment is gone cannot be confirmed.
pub advance-gone :
    (s : Spool) (c : Cursor)
    → file_of c.seg s.dir.segments ≡ none
    → advance c s ≡ err (not_found c.seg)
unfolding advance read_record_at
advance-gone s c gone = rw gone
