-- ===== src/Common/Runtime/Spooled.antt =====
-- What an append does to the order of the drain of rust/connectors/common/src/runtime.rs.
use ajar_connectors.Prelude.{
  ℕ, ◌+◌, ◌≡◌, refl, Bool, true, leb, if◌then◌else◌, ap, sym, ◌∙◌, inl, inr, false, Option, none,
  some, List, [], ◌∷◌, ◌++◌, append_assoc, append-nil, arith, ltb,
}
use ajar_connectors.Common.Spool.{Record, Cursor, Spool, encode, segment_bytes}
use ajar_connectors.Common.Spool.Log.{append, enforce_bound, write_head, rotate}
use ajar_connectors.Common.Spool.Codec.{Framed}
use ajar_connectors.Common.Spool.Bound.{append_lem}
use ajar_connectors.Common.Spool.Dropped.{Moved}
use ajar_connectors.Common.Spool.Numbered.{IsLog}
use ajar_connectors.Common.Spool.Peek.{Peeked, nothing, first, peek_lem, peek-dropped_segments}
use ajar_connectors.Common.Spool.Held.{Held, append-Held, append-lost}
use ajar_connectors.Common.Runtime.Sublists.{Sublist, Sublist-append}
use ajar_connectors.Common.Runtime.Drain.{Drain, begin_round}
use ajar_connectors.Common.Runtime.Interleaving.{InFlight, Ordered}

-- `append` counts the segments that it drops.
append-dropped_segments :
    (r : Record) (s : Spool)
    → (n : ℕ) × ((append r s).0.dropped_segments ≡ s.dropped_segments + n)
      × ((append r s).1 ≡ ltb 0 n)
unfolding append enforce_bound write_head rotate
append-dropped_segments r s = by_room (leb segment_bytes s.head_len)
  where
    by_room :
        (full : Bool)
        → (n : ℕ) × ((enforce_bound
              (write_head (encode r) (if full then rotate s else s))).0.dropped_segments
            ≡ s.dropped_segments + n)
          × ((enforce_bound (write_head (encode r) (if full then rotate s else s))).1 ≡ ltb 0 n)
    by_room true = (_, refl, refl)
    by_room false = (_, refl, refl)

no_drop : (d n : ℕ) → d + n ≡ 0 → (d ≡ 0) × (ltb 0 n ≡ false)
no_drop d n h = (omega (arith, h), ground arith)

module _ (d : Drain) (spooled past queue : List Record) (x : Record) (fr : Framed x)
    (log : IsLog d.spool queue) where
  abbrev joined : Drain
  joined = record d { spool = (append x d.spool).0 }

  -- An append beside a round in flight.
  flight-append :
      (holding : Option (Cursor × Record)) (lost queue' : List Record)
      → IsLog (append x d.spool).0 queue'
      → Moved d.spool.dir.segments d.spool.cursor lost (append x d.spool).0.cursor
      → InFlight d past holding
      → InFlight joined (past ++ lost) holding
  flight-append none lost queue' log' moved h = Sublist-append lost h
  flight-append (some (c, r)) lost queue' log' moved (inl (here, at, order)) =
      where_now (append-Held d.spool queue c r x log (inl (here, at)))
    where
      where_now : Held (append x d.spool).0 c r → InFlight joined (past ++ lost) (some (c, r))
      where_now held = elim (held) [
        | inl (here', at') ↦ inl (here', at', Sublist-append lost order)
        | inr (gone, below, dropped) ↦
            let (others, e) = append-lost d.spool queue c r x lost queue' here at log' gone moved in
            inr (gone, below, dropped, past, others, ap (λ (l : List Record). past ++ l) e, order)
      ]
  flight-append (some (c, r)) lost queue' log' moved
        (inr (gone, below, dropped, before, after, e, order)) =
      where_now (append-Held d.spool queue c r x log (inr (gone, below, dropped)))
    where
      where_now : Held (append x d.spool).0 c r → InFlight joined (past ++ lost) (some (c, r))
      where_now held = elim (held) [
        | inl (here', at') ↦
            inl (here', at', rw e (Sublist-append lost (Sublist-append (r ∷ after) order)))
        | inr (gone', below', dropped') ↦ inr (
          gone',
          below',
          dropped',
          before,
          after ++ lost,
          rw e (append_assoc before (r ∷ after) lost),
          order,
        )
      ]

pub spools-Ordered :
    (d : Drain) (holding : Option (Cursor × Record)) (spooled : List Record) (x : Record)
    → Framed x
    → Ordered d holding spooled
    → Ordered (record d { spool = (append x d.spool).0 }) holding (spooled ++ (x ∷ []))
spools-Ordered d holding spooled x fr h =
    let a = append_lem d.spool h.queue x fr h.log in
    let (n, more, dropped) = append-dropped_segments x d.spool in
    record {
      past = h.past ++ a.lost;
      queue = a.kept ++ (x ∷ []);
      log = a.log;
      split =
          ap (λ (l : List Record). l ++ (x ∷ []))
            (h.split
              ∙ ap (λ (l : List Record). h.past ++ l) a.split
              ∙ sym (append_assoc h.past a.lost a.kept))
          ∙ append_assoc (h.past ++ a.lost) a.kept (x ∷ []);
      flight =
          flight-append d spooled h.past h.queue x fr h.log holding a.lost (a.kept ++ (x ∷ []))
            a.log a.moved h.flight;
      exact = λ none_lost none_skipped.
          let z = no_drop d.spool.dropped_segments n (sym more ∙ none_lost) in
          h.exact z.0 none_skipped
          ∙ sym (append-nil h.past)
          ∙ ap (λ (l : List Record). h.past ++ l) (sym (a.whole (dropped ∙ z.1)));
    }

flight-Peeked :
    (d : Drain) (s : Spool) (o : Option (Cursor × Record)) (past queue : List Record)
    → Peeked s o queue
    → Sublist d.confirmed past
    → InFlight (record d { spool = s }) past o
flight-Peeked d s none past queue nothing order = order
flight-Peeked d s (some (c, r)) past queue (first c' r' rest here at e) order =
    inl (here, at, order)

pub begins-Ordered :
    (d : Drain) (spooled : List Record)
    → Ordered d none spooled
    → Ordered (begin_round d).0 (begin_round d).1 spooled
unfolding begin_round
begins-Ordered d spooled h =
    let (log, peeked) = peek_lem d.spool h.queue h.log in
    record {
      past = h.past;
      queue = h.queue;
      log = log;
      split = h.split;
      flight = flight-Peeked d _ _ h.past h.queue peeked h.flight;
      exact = λ none_lost. h.exact (sym (peek-dropped_segments d.spool) ∙ none_lost);
    }
