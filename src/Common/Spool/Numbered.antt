-- ===== src/Common/Spool/Numbered.antt =====
-- Segments that are numbered without a gap, in rust/connectors/common/src/spool.rs.
use ajar_connectors.Prelude.{
  ℕ, zero, suc, ◌+◌, ◌≤◌, ◌≡◌, refl, sym, ◌∙◌, inl, inr, false, Bool-cases, none, List, [], ◌∷◌,
  ◌++◌, Bytes, ltb, ◌==◌, arith,
}
use ajar_connectors.Common.Spool.{Record, Cursor, Segments, Spool, file_of}
use ajar_connectors.Common.Spool.Log.{create_segment, append_to}
use ajar_connectors.Common.Spool.Queue.{
  StandsBefore, Waiting, in_head, behind_head, next_segment, IsQueue,
}

-- The segments are numbered from `lo` to `head` without a gap.
abbrev pub Numbered : ℕ → ℕ → Segments → Type 0
Numbered lo head [] = lo ≡ suc head
Numbered lo head ((n, b) ∷ segs) = (n ≡ lo) × Numbered (suc lo) head segs

-- The spool is a queue over segments without a gap, and the cursor is in one of them.
pub record IsLog (s : Spool) (q : List Record) : Type 0 where
  pub queue : IsQueue s q
  pub lo : ℕ
  pub numbered : Numbered lo s.head_seq s.dir.segments
  pub from_lo : lo ≤ s.cursor.seg

pub Numbered-le : (lo head : ℕ) (segs : Segments) → Numbered lo head segs → lo ≤ suc head
Numbered-le lo head [] h = omega arith
Numbered-le lo head ((n, b) ∷ segs) h = omega (arith, Numbered-le (suc lo) head segs h.1)

pub file_of-absent :
    (k lo head : ℕ) (segs : Segments) → Numbered lo head segs → suc head ≤ k → file_of k segs ≡ none
unfolding file_of
file_of-absent k lo head [] h above = refl
file_of-absent k lo head ((n, b) ∷ segs) h above =
    ground (arith, file_of-absent k (suc lo) head segs h.1, Numbered-le (suc lo) head segs h.1)

pub file_of-below :
    (k lo head : ℕ) (segs : Segments) → Numbered lo head segs → suc k ≤ lo → file_of k segs ≡ none
unfolding file_of
file_of-below k lo head [] h below = refl
file_of-below k lo head ((n, b) ∷ segs) h below =
    ground (arith, file_of-below k (suc lo) head segs h.1)

not_there : (k n : ℕ) → suc n ≤ k → (k == n) ≡ false
not_there k n h = ground arith

not_above : (k n : ℕ) → suc n ≤ k → ltb k n ≡ false
not_above k n h = ground arith

pub Numbered-create_segment :
    (lo head : ℕ) (segs : Segments)
    → Numbered lo head segs
    → Numbered lo (suc head) (create_segment (head + 1) segs)
unfolding create_segment
Numbered-create_segment lo head [] h = (omega (arith, h), omega (arith, h))
Numbered-create_segment lo head ((n, b) ∷ segs) (e, h) =
    rw
      (
        not_there (head + 1) n (omega (arith, e, Numbered-le (suc lo) head segs h)),
        not_above (head + 1) n (omega (arith, e, Numbered-le (suc lo) head segs h)),
      )
      (e, Numbered-create_segment (suc lo) head segs h)

-- A write in place leaves the numbers and a first segment.
pub append_to-cons :
    (head m : ℕ) (buf b : Bytes) (segs : Segments)
    → (b' : Bytes) × (segs' : Segments) × (append_to head buf ((m, b) ∷ segs) ≡ (m, b') ∷ segs')
unfolding append_to
append_to-cons head m buf b segs = elim (Bool-cases (m == head)) [
  | inl same ↦ (b ++ buf, segs, rw same)
  | inr other ↦ (b, append_to head buf segs, rw other)
]

pub Numbered-append_to :
    (at lo head : ℕ) (buf : Bytes) (segs : Segments)
    → Numbered lo head segs
    → Numbered lo head (append_to at buf segs)
unfolding append_to
Numbered-append_to at lo head buf [] h = h
Numbered-append_to at lo head buf ((n, b) ∷ segs) h = elim (Bool-cases (n == at)) [
  | inl same ↦ rw same h
  | inr other ↦ rw other (h.0, Numbered-append_to at (suc lo) head buf segs h.1)
]

pub file_of-tail :
    (k n : ℕ) (b : Bytes) (segs : Segments) → suc n ≤ k → file_of k ((n, b) ∷ segs) ≡ file_of k segs
unfolding file_of
file_of-tail k n b segs h = ground arith

StandsBefore-tail :
    (n : ℕ) (b : Bytes) (segs : Segments) (c : Cursor) (todo : List Record)
    → suc n ≤ c.seg
    → StandsBefore ((n, b) ∷ segs) c todo
    → StandsBefore segs c todo
StandsBefore-tail n b segs c todo past h = record {
  done = h.done;
  file = sym (file_of-tail c.seg n b segs past) ∙ h.file;
  at_offset = h.at_offset;
  framed = h.framed;
}

pub Waiting-tail :
    (n : ℕ) (b : Bytes) (segs : Segments) (ahead : ℕ) (c : Cursor) (q : List Record)
    → suc n ≤ c.seg
    → Waiting ((n, b) ∷ segs) ahead c q
    → Waiting segs ahead c q
Waiting-tail n b segs zero c q past (in_head h) = in_head (StandsBefore-tail n b segs c q past h)
Waiting-tail n b segs (suc ahead) c q past (behind_head {todo = todo} {later} h w) =
    behind_head (StandsBefore-tail n b segs c todo past h)
      (Waiting-tail n b segs ahead (next_segment c) later (omega arith) w)
