-- ===== src/Common/Spool/Bound.antt =====
-- `append` of rust/connectors/common/src/spool.rs with its bound: the oldest segments go.
use ajar_connectors.Prelude.{
  ℕ, suc, ◌+◌, ◌≤◌, ◌≡◌, refl, sym, ◌∙◌, inl, inr, subst, true, false, Bool-cases, List, [], ◌∷◌,
  ◌++◌, ltb, leb, arith,
}
use ajar_connectors.Common.Spool.{Record, Cursor, Spool, encode, segment_bytes}
use ajar_connectors.Common.Spool.Log.{create_segment, rotate, enforce_bound, write_head, append}
use ajar_connectors.Common.Spool.Codec.{Framed}
use ajar_connectors.Common.Spool.Append.{file_of-create_segment-other, Waiting-create_segment}
use ajar_connectors.Common.Spool.Numbered.{Numbered, IsLog, file_of-absent, Numbered-create_segment}
use ajar_connectors.Common.Spool.Dropped.{Moved, Bounded-append}

-- `append` on a spool whose segments are numbered without a gap.
pub record Appended (s : Spool) (q : List Record) (r : Record) : Type 0 where
  pub lost : List Record
  pub kept : List Record
  pub split : q ≡ lost ++ kept
  pub whole : (append r s).1 ≡ false → lost ≡ []
  pub moved : Moved s.dir.segments s.cursor lost (append r s).0.cursor
  pub log : IsLog (append r s).0 (kept ++ (r ∷ []))

dropped_none : (d : ℕ) → ltb 0 d ≡ false → d ≡ 0
dropped_none d h = ground arith

write-Appended :
    (s : Spool) (q : List Record) (r : Record)
    → Framed r
    → IsLog s q
    → (lost : List Record) × (kept : List Record) × (q ≡ lost ++ kept)
      × ((enforce_bound (write_head (encode r) s)).1 ≡ false → lost ≡ [])
      × Moved s.dir.segments s.cursor lost (enforce_bound (write_head (encode r) s)).0.cursor
      × IsLog (enforce_bound (write_head (encode r) s)).0 (kept ++ (r ∷ []))
unfolding enforce_bound write_head
write-Appended s q r fr h =
    let b =
      Bounded-append s.max_bytes s.head_seq r fr s.dir.segments h.lo h.queue.ahead s.cursor q
        h.numbered h.from_lo h.queue.to_head h.queue.waiting in
    (
      b.lost,
      b.kept,
      b.split,
      (λ z. b.whole (dropped_none _ z)),
      b.moved,
      record {
        queue = record { ahead = b.ahead; to_head = b.to_head; waiting = b.waiting };
        lo = b.lo';
        numbered = b.numbered;
        from_lo = b.from_lo;
      },
    )

pub rotate-IsLog : (s : Spool) (q : List Record) → IsLog s q → IsLog (rotate s) q
unfolding rotate
rotate-IsLog s q h = record {
  queue = record {
    ahead = suc h.queue.ahead;
    to_head = omega (arith, h.queue.to_head);
    waiting =
        Waiting-create_segment s.dir.segments s.head_seq h.queue.ahead s.cursor q h.queue.to_head
          (file_of-absent (s.head_seq + 1) h.lo s.head_seq s.dir.segments h.numbered (omega arith))
          h.queue.waiting;
  };
  lo = h.lo;
  numbered =
      subst (λ (k : ℕ). Numbered h.lo k (create_segment (s.head_seq + 1) s.dir.segments))
        (omega arith) (Numbered-create_segment h.lo s.head_seq s.dir.segments h.numbered);
  from_lo = h.from_lo;
}

Moved-rotate :
    (s : Spool) (lost : List Record) (c' : Cursor)
    → s.cursor.seg ≤ s.head_seq
    → Moved (rotate s).dir.segments s.cursor lost c'
    → Moved s.dir.segments s.cursor lost c'
unfolding rotate
Moved-rotate s lost c' to (inl same) = inl same
Moved-rotate s lost c' to (inr (todo, others, h, e)) = inr (
  todo,
  others,
  record {
    done = h.done;
    file =
        sym
          (file_of-create_segment-other (s.head_seq + 1) s.cursor.seg s.dir.segments (omega arith))
        ∙ h.file;
    at_offset = h.at_offset;
    framed = h.framed;
  },
  e,
)

rotate-cursor : (s : Spool) → (rotate s).cursor ≡ s.cursor
unfolding rotate
rotate-cursor s = refl

append-full :
    (s : Spool) (r : Record)
    → leb segment_bytes s.head_len ≡ true
    → append r s ≡ enforce_bound (write_head (encode r) (rotate s))
unfolding append
append-full s r h = rw h

append-room :
    (s : Spool) (r : Record)
    → leb segment_bytes s.head_len ≡ false
    → append r s ≡ enforce_bound (write_head (encode r) s)
unfolding append
append-room s r h = rw h

pub cursor_le : {s : Spool} {q : List Record} → IsLog s q → s.cursor.seg ≤ s.head_seq
cursor_le {s} {q} h = omega (arith, h.queue.to_head)

-- A record whose identifier is UTF-8 and whose lengths fit 32 bits joins the queue of a spool whose segments
-- are numbered without a gap: the spool is then such a spool again, the record is its newest, those before it
-- are the newest of the queue in their order, none is lost unless `append` says that it dropped a segment,
-- and the cursor moves only if the records that it stood before are lost.
pub append_lem : (s : Spool) (q : List Record) (r : Record) → Framed r → IsLog s q → Appended s q r
append_lem s q r fr h = elim (Bool-cases (leb segment_bytes s.head_len)) [
  | inl full ↦
      let e = append-full s r full in
      let (lost, kept, split, whole, moved, log) =
        write-Appended (rotate s) q r fr (rotate-IsLog s q h) in
      record {
        lost = lost;
        kept = kept;
        split = split;
        whole = rw e whole;
        log = rw e log;
        moved = rw e (
            Moved-rotate s lost _ (cursor_le h) (
              subst
                (λ (x : Cursor).
                  Moved (rotate s).dir.segments x lost
                    (enforce_bound (write_head (encode r) (rotate s))).0.cursor)
                (rotate-cursor s) moved));
      }
  | inr room ↦
      let e = append-room s r room in
      let (lost, kept, split, whole, moved, log) = write-Appended s q r fr h in
      record {
        lost = lost;
        kept = kept;
        split = split;
        whole = rw e whole;
        log = rw e log;
        moved = rw e moved;
      }
]
