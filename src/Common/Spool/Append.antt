-- ===== src/Common/Spool/Append.antt =====
-- `append` of rust/connectors/common/src/spool.rs at the end of the queue.
use ajar_connectors.Prelude.{
  ℕ, zero, suc, ◌+◌, ◌≤◌, ◌≡◌, refl, sym, ap, ◌∙◌, ◌⊎◌, inl, inr, subst, Bool, true, false,
  Bool-cases, option_map, none, some, List, [], ◌∷◌, ◌++◌, append_assoc, append-nil, Bytes,
  All-append, length, ltb, leb, leb→le, ◌==◌, arith, if◌then◌else◌,
}
use ajar_connectors.Common.Spool.{Record, Cursor, Segments, Spool, encode, file_of, segment_bytes}
use ajar_connectors.Common.Spool.Log.{
  create_segment, append_to, rotate, total_bytes, depth_bytes, skip_past, drop_oldest,
  enforce_bound, write_head, append,
}
use ajar_connectors.Common.Spool.Codec.{Framed, encode_all}
use ajar_connectors.Common.Spool.Queue.{
  StandsBefore, Waiting, in_head, behind_head, next_segment, IsQueue,
}

file_of-first :
    (head n : ℕ) (b : Bytes) (segs : Segments)
    → (n == head) ≡ true
    → file_of head ((n, b) ∷ segs) ≡ some b
unfolding file_of
file_of-first head n b segs h = rw h

file_of-later :
    (head n : ℕ) (b : Bytes) (segs : Segments)
    → (n == head) ≡ false
    → file_of head ((n, b) ∷ segs) ≡ file_of head segs
unfolding file_of
file_of-later head n b segs h = rw h

pub file_of-append_to :
    (head : ℕ) (buf file : Bytes) (segs : Segments)
    → file_of head segs ≡ some file
    → file_of head (append_to head buf segs) ≡ some (file ++ buf)
unfolding file_of append_to
file_of-append_to head buf file [] h = cc
file_of-append_to head buf file ((n, b) ∷ segs) h = elim (Bool-cases (n == head)) [
  | inl same ↦
      rw (same, same)
        (ap (option_map (λ (x : Bytes). x ++ buf)) (sym (file_of-first head n b segs same) ∙ h))
  | inr other ↦
      rw (other, other)
        (file_of-append_to head buf file segs (sym (file_of-later head n b segs other) ∙ h))
]

pub file_of-append_to-other :
    (head k : ℕ) (buf : Bytes) (segs : Segments)
    → suc k ≤ head
    → file_of k (append_to head buf segs) ≡ file_of k segs
unfolding file_of append_to
file_of-append_to-other head k buf [] h = refl
file_of-append_to-other head k buf ((n, b) ∷ segs) h =
    ground (arith, file_of-append_to-other head k buf segs)

encode_all-append : (a b : List Record) → encode_all (a ++ b) ≡ encode_all a ++ encode_all b
unfolding encode_all
encode_all-append [] b = refl
encode_all-append (r ∷ a) b =
    ap (λ (x : Bytes). encode r ++ x) (encode_all-append a b)
    ∙ sym (append_assoc (encode r) (encode_all a) (encode_all b))

encode_all-one : (r : Record) → encode_all (r ∷ []) ≡ encode r
unfolding encode_all
encode_all-one r = append-nil (encode r)

at_head : (head seg : ℕ) → 0 + seg ≡ head → head ≡ seg
at_head head seg e = omega (arith, e)

file_of-create_segment :
    (seq : ℕ) (segs : Segments)
    → file_of seq segs ≡ none
    → file_of seq (create_segment seq segs) ≡ some []
unfolding file_of create_segment
file_of-create_segment seq [] h = ground arith
file_of-create_segment seq ((n, b) ∷ segs) h = ground (arith, file_of-create_segment seq segs)

pub file_of-create_segment-other :
    (seq k : ℕ) (segs : Segments)
    → suc k ≤ seq
    → file_of k (create_segment seq segs) ≡ file_of k segs
unfolding file_of create_segment
file_of-create_segment-other seq k [] h = ground arith
file_of-create_segment-other seq k ((n, b) ∷ segs) h =
    ground (arith, file_of-create_segment-other seq k segs)

StandsBefore-create_segment :
    (segs : Segments) (seq : ℕ) (c : Cursor) (todo : List Record)
    → suc c.seg ≤ seq
    → StandsBefore segs c todo
    → StandsBefore (create_segment seq segs) c todo
StandsBefore-create_segment segs seq c todo before h = record {
  done = h.done;
  file = file_of-create_segment-other seq c.seg segs before ∙ h.file;
  at_offset = h.at_offset;
  framed = h.framed;
}

-- The head's file grows by the record; the others stay.
pub Waiting-append_to :
    (segs : Segments) (head ahead : ℕ) (c : Cursor) (q : List Record) (r : Record)
    → Framed r
    → ahead + c.seg ≡ head
    → Waiting segs ahead c q
    → Waiting (append_to head (encode r) segs) ahead c (q ++ (r ∷ []))
Waiting-append_to segs head zero c q r fr e (in_head h) = in_head (record {
  done = h.done;
  file =
      ap (λ (k : ℕ). file_of c.seg (append_to k (encode r) segs)) (at_head head c.seg e)
      ∙ file_of-append_to c.seg (encode r) _ segs h.file
      ∙ ap some (
          append_assoc h.done (encode_all q) (encode r)
          ∙ ap (λ (b : Bytes). h.done ++ b)
              (sym (
                encode_all-append q (r ∷ [])
                ∙ ap (λ (b : Bytes). encode_all q ++ b) (encode_all-one r))));
  at_offset = h.at_offset;
  framed = All-append Framed q (r ∷ []) h.framed (fr, tt);
})
Waiting-append_to segs head (suc ahead) c q r fr e (behind_head {todo = todo} {later} h w) =
    subst (Waiting (append_to head (encode r) segs) (suc ahead) c)
      (sym (append_assoc todo later (r ∷ [])))
      (behind_head
        (record {
          done = h.done;
          file = file_of-append_to-other head c.seg (encode r) segs (omega (arith, e)) ∙ h.file;
          at_offset = h.at_offset;
          framed = h.framed;
        })
        (Waiting-append_to segs head ahead (next_segment c) later r fr (omega (arith, e)) w))

-- A new segment at the end of the directory.
pub Waiting-create_segment :
    (segs : Segments) (head ahead : ℕ) (c : Cursor) (q : List Record)
    → ahead + c.seg ≡ head
    → file_of (head + 1) segs ≡ none
    → Waiting segs ahead c q
    → Waiting (create_segment (head + 1) segs) (suc ahead) c q
unfolding encode_all
Waiting-create_segment segs head zero c q e absent (in_head h) =
    subst (Waiting (create_segment (head + 1) segs) 1 c) (append-nil q) (
      behind_head (StandsBefore-create_segment segs (head + 1) c q (omega (arith, e)) h) (
        in_head {c = next_segment c} {todo = []} (record {
          done = [];
          file =
              ap (λ (k : ℕ). file_of k (create_segment (head + 1) segs)) (omega (arith, e))
              ∙ file_of-create_segment (head + 1) segs absent;
          at_offset = refl;
          framed = tt;
        })))
Waiting-create_segment segs head (suc ahead) c q e absent (behind_head {todo = todo} {later} h w) =
    behind_head (StandsBefore-create_segment segs (head + 1) c todo (omega (arith, e)) h)
      (Waiting-create_segment segs head ahead (next_segment c) later (omega (arith, e)) absent w)

not_dropped : (d k : ℕ) → d ≡ suc k → ltb 0 d ≡ false → ⊥
not_dropped d k e h = ground arith

pub drop_oldest-over :
    (max_bytes n : ℕ) (b : Bytes) (x : ℕ × Bytes) (segs : Segments) (c : Cursor)
    → leb (total_bytes ((n, b) ∷ x ∷ segs)) max_bytes ≡ false
    → (drop_oldest max_bytes ((n, b) ∷ x ∷ segs) c).2
      ≡ suc (drop_oldest max_bytes (x ∷ segs) (skip_past n c)).2
unfolding drop_oldest
drop_oldest-over max_bytes n b x segs c h = rw h

-- Without a drop, what the bound leaves is what was there.
drop_oldest-kept :
    (max_bytes : ℕ) (segs : Segments) (c : Cursor)
    → ltb 0 (drop_oldest max_bytes segs c).2 ≡ false
    → drop_oldest max_bytes segs c ≡ (segs, c, 0)
unfolding drop_oldest
drop_oldest-kept max_bytes [] c h = refl
drop_oldest-kept max_bytes ((n, b) ∷ []) c h = refl
drop_oldest-kept max_bytes ((n, b) ∷ x ∷ segs) c h =
    elim (Bool-cases (leb (total_bytes ((n, b) ∷ x ∷ segs)) max_bytes)) [
      | inl fits ↦ rw fits
      | inr over ↦ absurd (not_dropped _ _ (drop_oldest-over max_bytes n b x segs c over) h)
    ]

-- The spool is a queue, and the head is the last segment of the directory.
pub record IsSpool (s : Spool) (q : List Record) : Type 0 where
  pub queue : IsQueue s q
  pub last : file_of (s.head_seq + 1) s.dir.segments ≡ none

write_head-IsQueue :
    (s : Spool) (q : List Record) (r : Record)
    → Framed r
    → IsQueue s q
    → IsQueue (write_head (encode r) s) (q ++ (r ∷ []))
unfolding write_head
write_head-IsQueue s q r fr h = record {
  ahead = h.ahead;
  to_head = h.to_head;
  waiting = Waiting-append_to s.dir.segments s.head_seq h.ahead s.cursor q r fr h.to_head h.waiting;
}

rotate-IsQueue : (s : Spool) (q : List Record) → IsSpool s q → IsQueue (rotate s) q
unfolding rotate
rotate-IsQueue s q h = record {
  ahead = suc h.queue.ahead;
  to_head = omega (arith, h.queue.to_head);
  waiting =
      Waiting-create_segment s.dir.segments s.head_seq h.queue.ahead s.cursor q h.queue.to_head
        h.last h.queue.waiting;
}

enforce_bound-IsQueue :
    (s : Spool) (q : List Record)
    → (enforce_bound s).1 ≡ false
    → IsQueue s q
    → IsQueue (enforce_bound s).0 q
unfolding enforce_bound
enforce_bound-IsQueue s q kept h =
    rw (drop_oldest-kept s.max_bytes s.dir.segments s.cursor kept)
      (record { ahead = h.ahead; to_head = h.to_head; waiting = h.waiting })

-- A record whose identifier is UTF-8 and whose lengths fit 32 bits joins the queue of a spool at its end,
-- in a new segment once the head is full, unless `append` says that a segment was dropped over the bound.
pub append-IsQueue :
    (s : Spool) (q : List Record) (r : Record)
    → Framed r
    → IsSpool s q
    → (append r s).1 ≡ false
    → IsQueue (append r s).0 (q ++ (r ∷ []))
unfolding append
append-IsQueue s q r fr h kept =
    enforce_bound-IsQueue _ (q ++ (r ∷ [])) kept
      (write_head-IsQueue _ q r fr (room (leb segment_bytes s.head_len)))
  where
    room : (full : Bool) → IsQueue (if full then rotate s else s) q
    room true = rotate-IsQueue s q h
    room false = h.queue

drop_oldest-bounded :
    (max_bytes : ℕ) (segs : Segments) (c : Cursor)
    → (total_bytes (drop_oldest max_bytes segs c).0 ≤ max_bytes)
      ⊎ (length (drop_oldest max_bytes segs c).0 ≤ 1)
unfolding drop_oldest
drop_oldest-bounded max_bytes [] c = inr (omega arith)
drop_oldest-bounded max_bytes ((n, b) ∷ []) c = inr (omega arith)
drop_oldest-bounded max_bytes ((n, b) ∷ x ∷ segs) c =
    elim (Bool-cases (leb (total_bytes ((n, b) ∷ x ∷ segs)) max_bytes)) [
      | inl fits ↦ rw fits (inl (leb→le (total_bytes ((n, b) ∷ x ∷ segs)) max_bytes fits))
      | inr over ↦ rw over (drop_oldest-bounded max_bytes (x ∷ segs) (skip_past n c))
    ]

-- After any append the spool's segments hold at most its bound in bytes, or are one segment at most.
pub append-bounded :
    (s : Spool) (r : Record)
    → (depth_bytes (append r s).0 ≤ s.max_bytes) ⊎ (length (append r s).0.dir.segments ≤ 1)
unfolding append enforce_bound write_head rotate
append-bounded s r = by_room (leb segment_bytes s.head_len)
  where
    by_room :
        (full : Bool)
        → (depth_bytes (enforce_bound (write_head (encode r) (if full then rotate s else s))).0
            ≤ s.max_bytes)
          ⊎ (length
                (enforce_bound
                  (write_head (encode r) (if full then rotate s else s))).0.dir.segments
              ≤ 1)
    by_room true =
        drop_oldest-bounded s.max_bytes (write_head (encode r) (rotate s)).dir.segments s.cursor
    by_room false = drop_oldest-bounded s.max_bytes (write_head (encode r) s).dir.segments s.cursor
