-- ===== src/Common/Spool/Peek.antt =====
-- `peek` and `advance` of rust/connectors/common/src/spool.rs on a queue over numbered segments.
use ajar_connectors.Prelude.{
  ℕ, zero, suc, ◌+◌, ◌-◌, ◌≤◌, ◌≡◌, refl, sym, ap, ◌∙◌, ◌⊎◌, inl, inr, subst, Bool-cases, Option,
  none, some, option_map, List, [], ◌∷◌, ◌++◌, Bytes, length, ltb, arith, ok,
}
use ajar_connectors.Common.Spool.{
  Record, Cursor, Segments, Spool, encode, file_of, read_record_of, read_record_at,
}
use ajar_connectors.Common.Spool.Log.{record_found, peek_go, peeked, peek, segments_from, advance}
use ajar_connectors.Common.Spool.Codec.{Framed, encode_all}
use ajar_connectors.Common.Spool.Queue.{
  StandsBefore, Waiting, in_head, behind_head, next_segment, first_at, after_record,
  read_record_at-of, record_found-StandsBefore, peek_go-found, peek_go-exhausted, peek_go-end,
  StandsBefore-next, Waiting-segments_from, next_seg,
}
use ajar_connectors.Common.Spool.Whole.{read_record_of-encode}
use ajar_connectors.Common.Spool.Numbered.{Numbered, IsLog}

-- The record `r` stands at the cursor.
pub record StandsAt (segs : Segments) (c : Cursor) (r : Record) : Type 0 where
  pub done : Bytes
  pub rest : Bytes
  pub file : file_of c.seg segs ≡ some (done ++ (encode r ++ rest))
  pub at_offset : c.offset ≡ length done
  pub framed : Framed r

encode_all-cons :
    (r : Record) (todo : List Record) → encode_all (r ∷ todo) ≡ encode r ++ encode_all todo
unfolding encode_all
encode_all-cons r todo = refl

StandsBefore-StandsAt :
    (segs : Segments) (c : Cursor) (r : Record) (todo : List Record)
    → StandsBefore segs c (r ∷ todo)
    → StandsAt segs c r
StandsBefore-StandsAt segs c r todo h = record {
  done = h.done;
  rest = encode_all todo;
  file = h.file ∙ ap (λ (b : Bytes). some (h.done ++ b)) (encode_all-cons r todo);
  at_offset = h.at_offset;
  framed = h.framed.0;
}

read_record_at-StandsAt :
    (segs : Segments) (c : Cursor) (r : Record)
    → StandsAt segs c r
    → read_record_at segs c.seg c.offset ≡ ok (some (r, c.offset + length (encode r)))
read_record_at-StandsAt segs c r h =
    read_record_at-of segs c.seg c.offset _ h.file
    ∙ ap (λ (o : ℕ). ok (read_record_of (h.done ++ (encode r ++ h.rest)) o)) h.at_offset
    ∙ ap ok (read_record_of-encode h.done h.rest r h.framed)
    ∙ ap (λ (o : ℕ). ok (some (r, o + length (encode r)))) (sym h.at_offset)

-- Whose queue has `r` at the cursor, has `r` as its first record.
record FirstIs (segs : Segments) (ahead : ℕ) (c : Cursor) (r : Record) (q : List Record)
    : Type 0 where
  rest : List Record
  first : q ≡ r ∷ rest
  waiting : Waiting segs ahead (after_record c r) rest

first_found :
    (segs : Segments) (c : Cursor) (r : Record) (todo : List Record)
    → StandsAt segs c r
    → StandsBefore segs c todo
    → some r ≡ option_map (λ (p : Record × ℕ). p.0) (first_at c.offset todo)
first_found segs c r todo at before =
    ap record_found (sym (read_record_at-StandsAt segs c r at))
    ∙ record_found-StandsBefore segs c todo before

same_record : {a b : Record} → some a ≡ some b → a ≡ b
same_record e = cc

pub StandsBefore-first :
    (segs : Segments) (c : Cursor) (r : Record) (todo : List Record)
    → StandsAt segs c r
    → StandsBefore segs c todo
    → (rest : List Record) × (todo ≡ r ∷ rest)
StandsBefore-first segs c r [] at h = let e = first_found segs c r [] at h in cc
StandsBefore-first segs c r (x ∷ todo) at h =
    (todo, ap (λ (y : Record). y ∷ todo) (sym (same_record (first_found segs c r (x ∷ todo) at h))))

Waiting-FirstIs :
    (segs : Segments) (ahead : ℕ) (c : Cursor) (r : Record) (q : List Record)
    → StandsAt segs c r
    → Waiting segs ahead c q
    → FirstIs segs ahead c r q
Waiting-FirstIs segs zero c r q at (in_head {todo = []} h) =
    let e = first_found segs c r [] at h in cc
Waiting-FirstIs segs zero c r q at (in_head {todo = x ∷ todo} h) =
    let e = same_record (first_found segs c r (x ∷ todo) at h) in
    record {
      rest = todo;
      first = rw e;
      waiting = rw e (in_head (StandsBefore-next segs c x todo h));
    }
Waiting-FirstIs segs (suc ahead) c r q at (behind_head {todo = []} h w) =
    let e = first_found segs c r [] at h in cc
Waiting-FirstIs segs (suc ahead) c r q at (behind_head {todo = x ∷ todo} {later} h w) =
    let e = same_record (first_found segs c r (x ∷ todo) at h) in
    record {
      rest = todo ++ later;
      first = rw e;
      waiting = rw e (behind_head (StandsBefore-next segs c x todo h) w);
    }

segments_from-all :
    (lo head k : ℕ) (segs : Segments) → k ≤ lo → Numbered lo head segs → segments_from k segs ≡ segs
unfolding segments_from
segments_from-all lo head k [] from h = refl
segments_from-all lo head k ((n, b) ∷ segs) from h =
    ground (arith, segments_from-all (suc lo) head k segs)

Numbered-segments_from :
    (lo head k : ℕ) (segs : Segments)
    → lo ≤ k
    → k ≤ suc head
    → Numbered lo head segs
    → Numbered k head (segments_from k segs)
unfolding segments_from
Numbered-segments_from lo head k [] from to h = omega (arith, h)
Numbered-segments_from lo head k ((n, b) ∷ segs) from to h = elim (Bool-cases (ltb n k)) [
  | inl before ↦ rw before (Numbered-segments_from (suc lo) head k segs (ground arith) to h.1)
  | inr reached ↦
      rw (reached, segments_from-all (suc lo) head k segs (ground arith) h.1)
        (let e : n ≡ k = ground arith in
          (e, subst (λ (m : ℕ). Numbered m head segs) (omega (arith, h.0, e)) h.1))
]

-- To confirm the record at the cursor succeeds and leaves the others.
pub advance-StandsAt :
    (s : Spool) (c : Cursor) (r : Record) (q : List Record)
    → s.cursor ≡ c
    → StandsAt s.dir.segments c r
    → IsLog s q
    → (s' : Spool) × (rest : List Record) × (advance c s ≡ ok s')
      × (q ≡ r ∷ rest)
      × IsLog s' rest
      × (s'.dropped_segments ≡ s.dropped_segments)
unfolding advance
advance-StandsAt s c r q here at h =
    let first =
      Waiting-FirstIs s.dir.segments h.queue.ahead c r q at
        (subst (λ (x : Cursor). Waiting s.dir.segments h.queue.ahead x q) here h.queue.waiting) in
    (
      record s {
        dir = record {
          segments = segments_from c.seg s.dir.segments;
          cursor_file = some (after_record c r);
        };
        cursor = after_record c r;
      },
      first.rest,
      rw (read_record_at-StandsAt s.dir.segments c r at),
      first.first,
      record {
        queue = record {
          ahead = h.queue.ahead;
          to_head = ap (λ (x : Cursor). h.queue.ahead + x.seg) (sym here) ∙ h.queue.to_head;
          waiting =
              Waiting-segments_from c.seg s.dir.segments h.queue.ahead (after_record c r) first.rest
                (omega arith) first.waiting;
        };
        lo = c.seg;
        numbered =
            Numbered-segments_from h.lo s.head_seq c.seg s.dir.segments (from here h.from_lo)
              (to h.queue.ahead here h.queue.to_head) h.numbered;
        from_lo = omega arith;
      },
      refl,
    )
  where
    from : {a c : Cursor} {lo : ℕ} → a ≡ c → lo ≤ a.seg → lo ≤ c.seg
    from {lo = lo} e l = subst (λ (x : Cursor). lo ≤ x.seg) e l

    to : {a c : Cursor} {head : ℕ} (ahead : ℕ) → a ≡ c → ahead + a.seg ≡ head → c.seg ≤ suc head
    to {a} {c} {head} ahead e l = subst (λ (x : Cursor). x.seg ≤ suc head) e (omega (arith, l))

-- A peek at a queue: the spool stays the queue, the cursor stands at the first record if there is one.
pub data Peeked (s : Spool) : Option (Cursor × Record) → List Record → Type 0 where
  nothing : Peeked s none []
  first :
      {q : List Record} (c : Cursor) (r : Record) (rest : List Record)
      → s.cursor ≡ c
      → StandsAt s.dir.segments c r
      → q ≡ r ∷ rest
      → Peeked s (some (c, r)) q

record PeekedAt (segs : Segments) (head low : ℕ) (q : List Record) (p : Cursor × Option Record)
    : Type 0 where
  ahead : ℕ
  to_head : ahead + p.0.seg ≡ head
  from : low ≤ p.0.seg
  waiting : Waiting segs ahead p.0 q
  found :
      ((p.1 ≡ none) × (q ≡ []))
      ⊎ ((r : Record) × (rest : List Record) × (p.1 ≡ some r)
          × StandsAt segs p.0 r
          × (q ≡ r ∷ rest))

peek_go-PeekedAt :
    (segs : Segments) (ahead : ℕ) (c : Cursor) (q : List Record)
    → Waiting segs ahead c q
    → PeekedAt segs (ahead + c.seg) c.seg q (peek_go ahead segs c)
peek_go-PeekedAt segs zero c q (in_head {todo = []} h) =
    rw (peek_go-end segs c (record_found-StandsBefore segs c [] h)) (record {
      ahead = 0;
      to_head = refl;
      from = omega arith;
      waiting = in_head h;
      found = inl (refl, refl);
    })
peek_go-PeekedAt segs zero c q (in_head {todo = r ∷ todo} h) =
    rw (peek_go-found segs 0 c r (record_found-StandsBefore segs c (r ∷ todo) h)) (record {
      ahead = 0;
      to_head = refl;
      from = omega arith;
      waiting = in_head h;
      found = inr (r, todo, refl, StandsBefore-StandsAt segs c r todo h, refl);
    })
peek_go-PeekedAt segs (suc ahead) c q (behind_head {todo = []} h w) =
    let later = peek_go-PeekedAt segs ahead (next_segment c) q w in
    rw
      (peek_go-exhausted segs ahead c (record_found-StandsBefore segs c [] h), next_seg ahead c.seg)
      (record {
        ahead = later.ahead;
        to_head = later.to_head;
        from = omega (arith, later.from);
        waiting = later.waiting;
        found = later.found;
      })
peek_go-PeekedAt segs (suc ahead) c q (behind_head {todo = r ∷ todo} {later} h w) =
    rw (peek_go-found segs (suc ahead) c r (record_found-StandsBefore segs c (r ∷ todo) h))
      (record {
        ahead = suc ahead;
        to_head = refl;
        from = omega arith;
        waiting = behind_head h w;
        found = inr (r, todo ++ later, refl, StandsBefore-StandsAt segs c r todo h, refl);
      })

peeked-IsLog :
    (s : Spool) (q : List Record) (p : Cursor × Option Record)
    → IsLog s q
    → PeekedAt s.dir.segments s.head_seq s.cursor.seg q p
    → IsLog (peeked s p).0 q × Peeked (peeked s p).0 (peeked s p).1 q
peeked-IsLog s q (c, found) h at = (
  record {
    queue = record { ahead = at.ahead; to_head = at.to_head; waiting = at.waiting };
    lo = h.lo;
    numbered = h.numbered;
    from_lo = omega (arith, h.from_lo, at.from);
  },
  handed s q c found at.found,
)
  where
    handed :
        (s : Spool) (q : List Record) (c : Cursor) (found : Option Record)
        → ((found ≡ none) × (q ≡ []))
          ⊎ ((r : Record) × (rest : List Record) × (found ≡ some r)
              × StandsAt s.dir.segments c r
              × (q ≡ r ∷ rest))
        → Peeked (peeked s (c, found)).0 (peeked s (c, found)).1 q
    handed s q c found (inl (e, f)) = rw (e, f) nothing
    handed s q c found (inr (r, rest, e, stands, f)) = rw e (first c r rest refl stands f)

-- A peek leaves the queue as it is, and hands out its first record, at the cursor, unless it is empty.
pub peek_lem :
    (s : Spool) (q : List Record) → IsLog s q → IsLog (peek s).0 q × Peeked (peek s).0 (peek s).1 q
unfolding peek
peek_lem s q h = peeked-IsLog s q _ h (
    rw (gap h.queue.ahead s.cursor.seg s.head_seq h.queue.to_head) (
      subst
        (λ (n : ℕ).
          PeekedAt s.dir.segments n s.cursor.seg q (peek_go h.queue.ahead s.dir.segments s.cursor))
        h.queue.to_head (peek_go-PeekedAt s.dir.segments h.queue.ahead s.cursor q h.queue.waiting)))
  where
    gap : (a c n : ℕ) → a + c ≡ n → n - c ≡ a
    gap a c n e = omega (arith, e)

pub peek-dropped_segments : (s : Spool) → (peek s).0.dropped_segments ≡ s.dropped_segments
unfolding peek
peek-dropped_segments s = refl
