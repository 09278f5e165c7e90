-- ===== src/Common/Runtime/Progress.antt =====
-- The drain of rust/connectors/common/src/runtime.rs empties the spool while the broker answers often enough.
use ajar_connectors.Prelude.{
  ℕ, suc, ◌≤◌, ◌≡◌, refl, ap, sym, ◌∙◌, ◌⊎◌, inl, inr, subst, Bool, true, false, ◌&&◌, Option, none,
  some, List, [], ◌∷◌, ◌++◌, append_assoc, append-nil, All, length, arith, is_ok, if◌then◌else◌,
}
use ajar_connectors.Sdk.Seal.{Ed25519, verify}
use ajar_connectors.Common.Spool.{Record, Cursor, Spool}
use ajar_connectors.Common.Spool.Log.{peek}
use ajar_connectors.Common.Spool.Numbered.{IsLog}
use ajar_connectors.Common.Spool.Peek.{StandsAt, advance-StandsAt, Peeked, nothing, first, peek_lem}
use ajar_connectors.Common.Runtime.Drain.{
  JetStream, refused, acked, unacked, Broker, Drain, js_publish, plain_publish, deliver,
  begin_round, confirm_record, settle, finish_round, finish_item, drain_round, drain_rounds,
}

abbrev is_acked : JetStream → Bool
is_acked refused = false
is_acked acked = true
is_acked (unacked reason) = false

-- The broker takes what is published, by either way.
abbrev pub answers : Broker → Bool
answers b = is_acked b.jetstream && (b.publish_ok && b.flush_ok)

unfoldable pub count_answers : List Broker → ℕ
count_answers [] = 0
count_answers (b ∷ bs) = let rest = count_answers bs in if answers b then suc rest else rest

undelivered :
    (js : JetStream) (publish_ok flush_ok js_mode : Bool)
    → (plain_publish
        (record { jetstream = js; publish_ok = publish_ok; flush_ok = flush_ok })
        (if js_mode then js_publish js else (false, false))).0
      ≡ false
    → (is_acked js && (publish_ok && flush_ok)) ≡ false
unfolding js_publish
undelivered refused p f m h = refl
undelivered (unacked reason) p f m h = refl
undelivered acked p f true h = cc
undelivered acked p f false h = h

-- After a round the first record is confirmed, or nothing has changed since none waits or the broker does not answer.
data Round (d : Drain) (q : List Record) (b : Broker) (d' : Drain) : Type 0 where
  moved :
      (r : Record) (rest : List Record)
      → q ≡ r ∷ rest
      → IsLog d'.spool rest
      → d'.confirmed ≡ d.confirmed ++ (r ∷ [])
      → Round d q b d'
  stayed :
      IsLog d'.spool q
      → d'.confirmed ≡ d.confirmed
      → (q ≡ []) ⊎ (answers b ≡ false)
      → Round d q b d'

confirm-Round :
    (d : Drain) (q : List Record) (b : Broker) (s : Spool) (js_mode : Bool) (c : Cursor)
    (r : Record)
    → s.cursor ≡ c
    → StandsAt s.dir.segments c r
    → IsLog s q
    → Round d q b (confirm_record c r (record d { spool = s; js_mode = js_mode }))
unfolding confirm_record
confirm-Round d q b s js_mode c r here at log =
    let (s', rest, e, f, log', same) = advance-StandsAt s c r q here at log in
    moved r rest f (rw e log') refl

settle-Round :
    (d : Drain) (q : List Record) (b : Broker) (s : Spool) (o : Bool × Bool) (c : Cursor)
    (r : Record)
    → s.cursor ≡ c
    → StandsAt s.dir.segments c r
    → IsLog s q
    → (o.0 ≡ false → answers b ≡ false)
    → Round d q b (settle o c r (record d { spool = s }))
unfolding settle
settle-Round d q b s (true, js_mode) c r here at log h =
    confirm-Round d q b s js_mode c r here at log
settle-Round d q b s (false, js_mode) c r here at log h = stayed log refl (inr (h refl))

module _ {SK VK Sig : Type 0} (crypto : Ed25519 SK VK Sig) (key : VK) where
  abbrev pub Verifies : Record → Type 0
  Verifies r = is_ok (verify crypto r.sealed key) ≡ true

  finish_item-Round :
      (d : Drain) (q : List Record) (b : Broker) (s : Spool) (o : Option (Cursor × Record))
      → All Verifies q
      → IsLog s q
      → Peeked s o q
      → Round d q b (finish_item crypto key b (record d { spool = s }, o))
  unfolding finish_round deliver
  finish_item-Round d q b s none good log nothing = stayed log refl (inl refl)
  finish_item-Round d q b s (some (c, r)) good log (first c' r' rest here at e) =
      rw (head_verifies q r rest good e) (
        settle-Round d q b s (deliver b d.js_mode) c r here at log
          (undelivered b.jetstream b.publish_ok b.flush_ok d.js_mode))
    where
      head_verifies :
          (q : List Record) (r : Record) (rest : List Record)
          → All Verifies q
          → q ≡ r ∷ rest
          → Verifies r
      head_verifies q r rest good e = (subst (λ (l : List Record). All Verifies l) e good).0

  drain_round-Round :
      (d : Drain) (q : List Record) (b : Broker)
      → All Verifies q
      → IsLog d.spool q
      → Round d q b (drain_round crypto key b d)
  unfolding drain_round begin_round
  drain_round-Round d q b good log =
      let (log', peeked) = peek_lem d.spool q log in
      finish_item-Round d q b (peek d.spool).0 (peek d.spool).1 good log' peeked

  -- The queue is empty and its records are confirmed behind those before, in their order.
  abbrev pub Emptied : Drain → List Record → Drain → Type 0
  Emptied d q d' = IsLog d'.spool [] × (d'.confirmed ≡ d.confirmed ++ q)

  fewer : (n m : ℕ) (b : Bool) → suc n ≤ (if b then suc m else m) → n ≤ m
  fewer n m true h = omega arith
  fewer n m false h = omega arith

  -- Over any rounds of which as many are answered by the broker as records wait, with records that verify
  -- and no append meanwhile, the drain confirms the whole queue in order and leaves the spool empty.
  pub drain_rounds-Emptied :
      (bs : List Broker) (d : Drain) (q : List Record)
      → IsLog d.spool q
      → All Verifies q
      → length q ≤ count_answers bs
      → Emptied d q (drain_rounds crypto key bs d)
  unfolding drain_rounds count_answers
  drain_rounds-Emptied [] d [] log good enough = (log, sym (append-nil d.confirmed))
  drain_rounds-Emptied [] d (r ∷ q) log good enough = absurd (omega (arith, enough))
  drain_rounds-Emptied (b ∷ bs) d q log good enough =
      after (drain_round-Round d q b good log)
        (drain_rounds-Emptied bs (drain_round crypto key b d))
    where
      d' : Drain
      d' = drain_round crypto key b d

      after :
          Round d q b d'
          → ((q' : List Record)
              → IsLog d'.spool q'
              → All Verifies q'
              → length q' ≤ count_answers bs
              → Emptied d' q' (drain_rounds crypto key bs d'))
          → Emptied d q (drain_rounds crypto key bs d')
      after (moved r rest e log' order) later =
          let good' : All Verifies (r ∷ rest) =
            subst (λ (l : List Record). All Verifies l) e good in
          let (done, all) = later rest log' good'.1 (
            fewer (length rest) (count_answers bs) (answers b)
              (subst (λ (l : List Record). length l ≤ count_answers (b ∷ bs)) e enough)) in
          (
            done,
            all
                ∙ ap (λ (l : List Record). l ++ rest) order
                ∙ append_assoc d.confirmed (r ∷ []) rest
                ∙ ap (λ (l : List Record). d.confirmed ++ l) (sym e),
          )
      after (stayed log' order (inl e)) later =
          let (done, all) =
            later q log' good
              (subst (λ (l : List Record). length l ≤ count_answers bs) (sym e) (omega arith)) in
          (done, all ∙ ap (λ (l : List Record). l ++ q) order)
      after (stayed log' order (inr silent)) later =
          let (done, all) = later q log' good (rw silent at enough) in
          (done, all ∙ ap (λ (l : List Record). l ++ q) order)
