-- ===== src/Common/Spool/Dropped.antt =====
-- What dropped segments take from the queue, in rust/connectors/common/src/spool.rs (`drop_oldest`).
use ajar_connectors.Prelude.{
  ℕ, zero, suc, ◌+◌, ◌≤◌, ◌≡◌, refl, sym, ap, ◌∙◌, ◌⊎◌, inl, inr, subst, true, false, Bool-cases,
  List, [], ◌∷◌, ◌++◌, append_assoc, Bytes, leb, ◌==◌, arith,
}
use ajar_connectors.Common.Spool.{Record, Cursor, Segments, encode}
use ajar_connectors.Common.Spool.Log.{append_to, total_bytes, skip_past, drop_oldest}
use ajar_connectors.Common.Spool.Codec.{Framed}
use ajar_connectors.Common.Spool.Queue.{StandsBefore, Waiting, behind_head, next_segment}
use ajar_connectors.Common.Spool.Append.{Waiting-append_to}
use ajar_connectors.Common.Spool.Numbered.{
  Numbered, Numbered-le, append_to-cons, Numbered-append_to, file_of-tail, Waiting-tail,
}

-- What one dropped segment takes from the queue.
record Skipped (n : ℕ) (first : Bytes) (segs : Segments) (head : ℕ) (c : Cursor) (q : List Record)
    : Type 0 where
  gone : List Record
  rest : List Record
  split : q ≡ gone ++ rest
  ahead : ℕ
  to_head : ahead + (skip_past n c).seg ≡ head
  waiting : Waiting segs ahead (skip_past n c) rest
  past : suc n ≤ (skip_past n c).seg
  moved : ((skip_past n c ≡ c) × (gone ≡ [])) ⊎ StandsBefore ((n, first) ∷ segs) c gone

moved_on :
    (n : ℕ) (c : Cursor) → leb c.seg n ≡ true → skip_past n c ≡ record { seg = n + 1; offset = 0 }
moved_on n c h = rw h

pub skip_past-stays : (n : ℕ) (c : Cursor) → leb c.seg n ≡ false → skip_past n c ≡ c
skip_past-stays n c h = rw h

Skipped-past :
    (n head : ℕ) (b : Bytes) (segs : Segments) (ahead : ℕ) (c : Cursor) (q : List Record)
    → leb c.seg n ≡ false
    → ahead + c.seg ≡ head
    → Waiting ((n, b) ∷ segs) ahead c q
    → Skipped n b segs head c q
Skipped-past n head b segs ahead c q past e w = record {
  gone = [];
  rest = q;
  split = refl;
  ahead = ahead;
  to_head = rw (skip_past-stays n c past) e;
  waiting = rw (skip_past-stays n c past) (Waiting-tail n b segs ahead c q (ground arith) w);
  past = rw (skip_past-stays n c past) (ground arith);
  moved = inl (skip_past-stays n c past, refl);
}

skip_past-Skipped :
    (n head : ℕ) (b : Bytes) (segs : Segments) (ahead : ℕ) (c : Cursor) (q : List Record)
    → n ≤ c.seg
    → suc n ≤ head
    → ahead + c.seg ≡ head
    → Waiting ((n, b) ∷ segs) ahead c q
    → Skipped n b segs head c q
skip_past-Skipped n head b segs zero c q from below e w =
    Skipped-past n head b segs 0 c q (ground arith) e w
skip_past-Skipped n head b segs (suc ahead) c q from below e
      (behind_head {todo = todo} {later} h w) =
    elim (Bool-cases (leb c.seg n)) [
      | inl here ↦ record {
        gone = todo;
        rest = later;
        split = refl;
        ahead = ahead;
        to_head = rw (moved_on n c here) (ground arith);
        waiting = rw (moved_on n c here) (
            subst (λ (k : ℕ). Waiting segs ahead (record { seg = k + 1; offset = 0 }) later)
              (same_segment c.seg n from here)
              (Waiting-tail n b segs ahead (next_segment c) later (ground arith) w));
        past = rw (moved_on n c here) (omega arith);
        moved = inr h;
      }
      | inr past ↦ Skipped-past n head b segs (suc ahead) c (todo ++ later) past e (behind_head h w)
    ]
  where
    same_segment : (k n : ℕ) → n ≤ k → leb k n ≡ true → k ≡ n
    same_segment k n h le = ground arith

-- The cursor stays, or the records that it stood before are the first that are lost.
abbrev pub Moved : Segments → Cursor → List Record → Cursor → Type 0
Moved segs c lost c' =
    (c' ≡ c)
    ⊎ ((todo : List Record) × (others : List Record) × StandsBefore segs c todo
        × (lost ≡ todo ++ others))

StandsBefore-cons :
    (n : ℕ) (b : Bytes) (segs : Segments) (c : Cursor) (todo : List Record)
    → suc n ≤ c.seg
    → StandsBefore segs c todo
    → StandsBefore ((n, b) ∷ segs) c todo
StandsBefore-cons n b segs c todo past h = record {
  done = h.done;
  file = file_of-tail c.seg n b segs past ∙ h.file;
  at_offset = h.at_offset;
  framed = h.framed;
}

Moved-later :
    (n : ℕ) (b : Bytes) (segs : Segments) (c c' : Cursor) (gone lost : List Record)
    → suc n ≤ (skip_past n c).seg
    → ((skip_past n c ≡ c) × (gone ≡ [])) ⊎ StandsBefore ((n, b) ∷ segs) c gone
    → Moved segs (skip_past n c) lost c'
    → Moved ((n, b) ∷ segs) c (gone ++ lost) c'
Moved-later n b segs c c' gone lost past (inr h) later = inr (gone, lost, h, refl)
Moved-later n b segs c c' gone lost past (inl (same, e)) (inl stays) = inl (stays ∙ same)
Moved-later n b segs c c' gone lost past (inl (same, e)) (inr (todo, others, h, f)) = inr (
  todo,
  others,
  subst (λ (x : Cursor). StandsBefore ((n, b) ∷ segs) x todo) same
      (StandsBefore-cons n b segs (skip_past n c) todo past h),
  rw (e, f),
)

-- What the bound leaves of a queue that `r` has just joined: `r` and the newest before it.
pub record Bounded (max_bytes lo head : ℕ) (r : Record) (q : List Record) (before segs : Segments)
    (c : Cursor) : Type 0 where
  pub lost : List Record
  pub kept : List Record
  pub split : q ≡ lost ++ kept
  pub whole : (drop_oldest max_bytes segs c).2 ≡ 0 → lost ≡ []
  pub moved : Moved before c lost (drop_oldest max_bytes segs c).1
  pub lo' : ℕ
  pub numbered : Numbered lo' head (drop_oldest max_bytes segs c).0
  pub ahead : ℕ
  pub from_lo : lo' ≤ (drop_oldest max_bytes segs c).1.seg
  pub to_head : ahead + (drop_oldest max_bytes segs c).1.seg ≡ head
  pub waiting :
      Waiting
        (drop_oldest max_bytes segs c).0
        ahead
        (drop_oldest max_bytes segs c).1
        (kept ++ (r ∷ []))

drop_oldest-one :
    (max_bytes n : ℕ) (b : Bytes) (c : Cursor)
    → drop_oldest max_bytes ((n, b) ∷ []) c ≡ ((n, b) ∷ [], c, 0)
unfolding drop_oldest
drop_oldest-one max_bytes n b c = refl

drop_oldest-fits :
    (max_bytes n : ℕ) (b : Bytes) (x : ℕ × Bytes) (segs : Segments) (c : Cursor)
    → leb (total_bytes ((n, b) ∷ x ∷ segs)) max_bytes ≡ true
    → drop_oldest max_bytes ((n, b) ∷ x ∷ segs) c ≡ ((n, b) ∷ x ∷ segs, c, 0)
unfolding drop_oldest
drop_oldest-fits max_bytes n b x segs c h = rw h

drop_oldest-drops :
    (max_bytes n : ℕ) (b : Bytes) (x : ℕ × Bytes) (segs : Segments) (c : Cursor)
    → leb (total_bytes ((n, b) ∷ x ∷ segs)) max_bytes ≡ false
    → drop_oldest max_bytes ((n, b) ∷ x ∷ segs) c ≡ (
      (drop_oldest max_bytes (x ∷ segs) (skip_past n c)).0,
      (drop_oldest max_bytes (x ∷ segs) (skip_past n c)).1,
      suc (drop_oldest max_bytes (x ∷ segs) (skip_past n c)).2,
    )
unfolding drop_oldest
drop_oldest-drops max_bytes n b x segs c h = rw h

module _ (max_bytes head : ℕ) (r : Record) (fr : Framed r) where
  Bounded-kept :
      (lo ahead : ℕ) (q : List Record) (before segs : Segments) (c : Cursor)
      → drop_oldest max_bytes segs c ≡ (segs, c, 0)
      → Numbered lo head segs
      → lo ≤ c.seg
      → ahead + c.seg ≡ head
      → Waiting segs ahead c (q ++ (r ∷ []))
      → Bounded max_bytes lo head r q before segs c
  Bounded-kept lo ahead q before segs c e numbered from to_head w = record {
    lost = [];
    kept = q;
    split = refl;
    whole = λ z. refl;
    moved = rw e (inl refl);
    lo' = lo;
    numbered = rw e numbered;
    ahead = ahead;
    from_lo = rw e from;
    to_head = rw e to_head;
    waiting = rw e w;
  }

  Bounded-drops :
      (lo n : ℕ) (b0 b : Bytes) (x : ℕ × Bytes) (before segs : Segments) (c : Cursor)
      (q gone rest : List Record)
      → leb (total_bytes ((n, b) ∷ x ∷ segs)) max_bytes ≡ false
      → q ≡ gone ++ rest
      → suc n ≤ (skip_past n c).seg
      → ((skip_past n c ≡ c) × (gone ≡ [])) ⊎ StandsBefore ((n, b0) ∷ before) c gone
      → Bounded max_bytes (suc lo) head r rest before (x ∷ segs) (skip_past n c)
      → Bounded max_bytes lo head r q ((n, b0) ∷ before) ((n, b) ∷ x ∷ segs) c
  Bounded-drops lo n b0 b x before segs c q gone rest over split past moved h = record {
    lost = gone ++ h.lost;
    kept = h.kept;
    split =
        split ∙ ap (λ (l : List Record). gone ++ l) h.split ∙ sym (append_assoc gone h.lost h.kept);
    whole = rw e (λ z. absurd (omega (arith, z)));
    moved = rw e (Moved-later n b0 before c _ gone h.lost past moved h.moved);
    lo' = h.lo';
    numbered = rw e h.numbered;
    ahead = h.ahead;
    from_lo = rw e h.from_lo;
    to_head = rw e h.to_head;
    waiting = rw e h.waiting;
  }
    where
      e : drop_oldest max_bytes ((n, b) ∷ x ∷ segs) c ≡ (
        (drop_oldest max_bytes (x ∷ segs) (skip_past n c)).0,
        (drop_oldest max_bytes (x ∷ segs) (skip_past n c)).1,
        suc (drop_oldest max_bytes (x ∷ segs) (skip_past n c)).2,
      )
      e = drop_oldest-drops max_bytes n b x segs c over

append_to-head :
    (head n : ℕ) (buf b : Bytes) (segs : Segments)
    → n ≡ head
    → append_to head buf ((n, b) ∷ segs) ≡ (n, b ++ buf) ∷ segs
unfolding append_to
append_to-head head n buf b segs h = rw (same head n h)
  where
    same : (head n : ℕ) → n ≡ head → (n == head) ≡ true
    same head n h = ground arith

append_to-later :
    (head n : ℕ) (buf b : Bytes) (segs : Segments)
    → suc n ≤ head
    → append_to head buf ((n, b) ∷ segs) ≡ (n, b) ∷ append_to head buf segs
unfolding append_to
append_to-later head n buf b segs h = rw (other head n h)
  where
    other : (head n : ℕ) → suc n ≤ head → (n == head) ≡ false
    other head n h = ground arith

module _ (max_bytes head : ℕ) (r : Record) (fr : Framed r) where
  pub Bounded-append :
      (segs : Segments) (lo ahead : ℕ) (c : Cursor) (q : List Record)
      → Numbered lo head segs
      → lo ≤ c.seg
      → ahead + c.seg ≡ head
      → Waiting segs ahead c q
      → Bounded max_bytes lo head r q segs (append_to head (encode r) segs) c
  Bounded-append [] lo ahead c q h from e w = absurd (omega (arith, h))
  Bounded-append ((n, b) ∷ []) lo ahead c q h from e w =
      Bounded-kept max_bytes head r fr lo ahead q _ _ c
        (rw (append_to-head head n (encode r) b [] (omega (arith, h.0, h.1)))
          (drop_oldest-one max_bytes n _ c))
        (Numbered-append_to head lo head (encode r) ((n, b) ∷ []) h) from e
        (Waiting-append_to ((n, b) ∷ []) head ahead c q r fr e w)
  Bounded-append ((n, b) ∷ (m, d) ∷ segs) lo ahead c q h from e w =
      let below : suc n ≤ head =
        omega (arith, h.0, h.1.0, Numbered-le (suc (suc lo)) head segs h.1.1) in
      let (d', segs', tail) = append_to-cons head m (encode r) d segs in
      let whole =
        append_to-later head n (encode r) b ((m, d) ∷ segs) below
        ∙ ap (λ (x : Segments). (n, b) ∷ x) tail in
      elim (Bool-cases (leb (total_bytes ((n, b) ∷ (m, d') ∷ segs')) max_bytes)) [
        | inl fits ↦
            Bounded-kept max_bytes head r fr lo ahead q _ _ c
              (rw whole (drop_oldest-fits max_bytes n b (m, d') segs' c fits))
              (Numbered-append_to head lo head (encode r) ((n, b) ∷ (m, d) ∷ segs) h) from e
              (Waiting-append_to ((n, b) ∷ (m, d) ∷ segs) head ahead c q r fr e w)
        | inr over ↦
            let gone =
              skip_past-Skipped n head b ((m, d) ∷ segs) ahead c q (omega (arith, h.0)) below e w in
            rw whole (
              Bounded-drops max_bytes head r fr lo n b b (m, d') ((m, d) ∷ segs) segs' c q gone.gone
                gone.rest over gone.split gone.past gone.moved
                (subst
                  (λ (x : Segments).
                    Bounded max_bytes (suc lo) head r gone.rest ((m, d) ∷ segs) x (skip_past n c))
                  tail
                  (Bounded-append ((m, d) ∷ segs) (suc lo) gone.ahead (skip_past n c) gone.rest h.1
                    (omega (arith, h.0, gone.past)) gone.to_head gone.waiting)))
      ]
