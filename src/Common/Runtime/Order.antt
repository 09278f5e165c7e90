-- ===== src/Common/Runtime/Order.antt =====
-- The drain and the run loop of rust/connectors/common/src/runtime.rs side by side on one spool: what the
-- drain confirms, in every interleaving.
use ajar_connectors.Prelude.{
  ℕ, ◌≤◌, ◌≡◌, refl, ap, sym, ◌∙◌, inl, inr, subst, Bool, true, false, Option, none, some, List, [],
  ◌∷◌, ◌++◌, append_assoc, arith, is_ok, if◌then◌else◌,
}
use ajar_connectors.Sdk.Seal.{Ed25519, verify}
use ajar_connectors.Common.Spool.{Record, Cursor}
use ajar_connectors.Common.Spool.Numbered.{IsLog}
use ajar_connectors.Common.Spool.Peek.{advance-StandsAt}
use ajar_connectors.Common.Spool.Held.{advance-gone}
use ajar_connectors.Common.Runtime.Sublists.{Sublist, empty, Sublist-append, Sublist-insert}
use ajar_connectors.Common.Runtime.Drain.{
  Broker, Drain, confirm_record, skip_corrupt, settle, deliver, finish_round,
}
use ajar_connectors.Common.Runtime.Spooled.{spools-Ordered, begins-Ordered}
use ajar_connectors.Common.Runtime.Interleaving.{
  System, Step, spools, begins, finishes, Reach, initial, next, InFlight, Ordered,
}

not_zero : (n : ℕ) → 1 ≤ n → n ≡ 0 → ⊥
not_zero n h e = omega (arith, h, e)

snoc_not_empty : (xs : List Record) (x : Record) → xs ++ (x ∷ []) ≡ [] → ⊥
snoc_not_empty [] x h = cc
snoc_not_empty (y ∷ xs) x h = cc

module _ (d : Drain) (spooled : List Record) (c : Cursor) (r : Record)
    (h : Ordered d (some (c, r)) spooled) where
  confirmed-Ordered : Ordered (confirm_record c r d) none spooled
  unfolding confirm_record
  confirmed-Ordered = elim h.flight [
    | inl (here, at, order) ↦
        let (s', rest, e, f, log, same) = advance-StandsAt d.spool c r h.queue here at h.log in
        record {
          past = h.past ++ (r ∷ []);
          queue = rest;
          log = rw e log;
          split =
              h.split
              ∙ ap (λ (l : List Record). h.past ++ l) f
              ∙ sym (append_assoc h.past (r ∷ []) rest);
          flight = Sublist-insert [] r order;
          exact = rw e (λ none_lost none_skipped.
              ap (λ (l : List Record). l ++ (r ∷ []))
                (h.exact (sym same ∙ none_lost) none_skipped));
        }
    | inr (gone, below, dropped, before, after, e, order) ↦
        let still = advance-gone d.spool c gone in
        record {
          past = h.past;
          queue = h.queue;
          log = rw still h.log;
          split = h.split;
          flight = rw e (Sublist-insert after r order);
          exact =
              rw still (λ none_lost. absurd (not_zero d.spool.dropped_segments dropped none_lost));
        }
  ]

  skipped-Ordered : Ordered (skip_corrupt c r d) none spooled
  unfolding skip_corrupt
  skipped-Ordered = elim h.flight [
    | inl (here, at, order) ↦
        let (s', rest, e, f, log, same) = advance-StandsAt d.spool c r h.queue here at h.log in
        record {
          past = h.past ++ (r ∷ []);
          queue = rest;
          log = rw e log;
          split =
              h.split
              ∙ ap (λ (l : List Record). h.past ++ l) f
              ∙ sym (append_assoc h.past (r ∷ []) rest);
          flight = Sublist-append (r ∷ []) order;
          exact = λ none_lost none_skipped. absurd (snoc_not_empty d.skipped r none_skipped);
        }
    | inr (gone, below, dropped, before, after, e, order) ↦
        let still = advance-gone d.spool c gone in
        record {
          past = h.past;
          queue = h.queue;
          log = rw still h.log;
          split = h.split;
          flight = rw e (Sublist-append (r ∷ after) order);
          exact = λ none_lost none_skipped. absurd (snoc_not_empty d.skipped r none_skipped);
        }
  ]

  retried-Ordered : (js_mode : Bool) → Ordered (record d { js_mode = js_mode }) none spooled
  retried-Ordered js_mode = record {
    past = h.past;
    queue = h.queue;
    log = h.log;
    split = h.split;
    flight = back h.flight;
    exact = h.exact;
  }
    where
      back : InFlight d h.past (some (c, r)) → Sublist d.confirmed h.past
      back (inl (here, at, order)) = order
      back (inr (gone, below, dropped, before, after, e, order)) =
          rw e (Sublist-append (r ∷ after) order)

  mode-Ordered : (js_mode : Bool) → Ordered (record d { js_mode = js_mode }) (some (c, r)) spooled
  mode-Ordered js_mode = record {
    past = h.past;
    queue = h.queue;
    log = h.log;
    split = h.split;
    flight = h.flight;
    exact = h.exact;
  }

settled-Ordered :
    (d : Drain) (spooled : List Record) (c : Cursor) (r : Record) (o : Bool × Bool)
    → Ordered d (some (c, r)) spooled
    → Ordered (settle o c r d) none spooled
unfolding settle
settled-Ordered d spooled c r (true, js_mode) h =
    confirmed-Ordered _ spooled c r (mode-Ordered d spooled c r h js_mode)
settled-Ordered d spooled c r (false, js_mode) h = retried-Ordered d spooled c r h js_mode

module _ {SK VK Sig : Type 0} (crypto : Ed25519 SK VK Sig) (key : VK) where
  finished-Ordered :
      (b : Broker) (d : Drain) (spooled : List Record) (c : Cursor) (r : Record)
      → Ordered d (some (c, r)) spooled
      → Ordered (finish_round crypto key b c r d) none spooled
  unfolding finish_round
  finished-Ordered b d spooled c r h = by_seal (is_ok (verify crypto r.sealed key))
    where
      by_seal :
          (good : Bool)
          → Ordered
              (if good then settle (deliver b d.js_mode) c r d else skip_corrupt c r d)
              none
              spooled
      by_seal true = settled-Ordered d spooled c r (deliver b d.js_mode) h
      by_seal false = skipped-Ordered d spooled c r h

  abbrev IsOrdered : System → Type 0
  IsOrdered s = Ordered s.drain s.holding s.spooled

  Step-IsOrdered : {s t : System} → Step crypto key s t → IsOrdered s → IsOrdered t
  Step-IsOrdered (spools s r fr) h = spools-Ordered s.drain s.holding s.spooled r fr h
  Step-IsOrdered (begins s idle) h =
      begins-Ordered s.drain s.spooled
        (subst (λ (o : Option (Cursor × Record)). Ordered s.drain o s.spooled) idle h)
  Step-IsOrdered (finishes s b c r busy) h =
      finished-Ordered b s.drain s.spooled c r
        (subst (λ (o : Option (Cursor × Record)). Ordered s.drain o s.spooled) busy h)

  -- However the run loop and the drain interleave and whatever the broker does, from a spool with numbered
  -- segments and the queue `q`: what was spooled is a past and the queue of the spool; what is confirmed is a
  -- sublist of the past, in order and never a record twice, save for a record in flight; and it is the whole
  -- past as long as no segment was dropped and no record skipped.
  pub Reach-Ordered :
      (s t : System)
      → s.drain.confirmed ≡ []
      → s.holding ≡ none
      → IsLog s.drain.spool s.spooled
      → Reach crypto key s t
      → Ordered t.drain t.holding t.spooled
  Reach-Ordered s t fresh idle log reach = every reach
    where
      start : Ordered s.drain none s.spooled
      start = record {
        past = [];
        queue = s.spooled;
        log = log;
        split = refl;
        flight = rw fresh empty;
        exact = λ none_lost none_skipped. fresh;
      }

      every : {u : System} → Reach crypto key s u → Ordered u.drain u.holding u.spooled
      every initial =
          subst (λ (o : Option (Cursor × Record)). Ordered s.drain o s.spooled) (sym idle) start
      every (next r step) = Step-IsOrdered step (every r)
