-- ===== src/Sink/Store/Chain.antt =====
-- Appending keeps the chain sound: what the store appended audits intact.
use ajar_connectors.Prelude.{
  ℕ, ◌+◌, ◌≡◌, ◌≢◌, refl, sym, ap, ◌∙◌, true, Option, none, some, List, [], ◌∷◌, ◌++◌, Text, Bytes,
  length, ok, is_ok, arith, Option-cases, inl, inr, text_eq_iff, length-append, subst,
}
use ajar_connectors.Sdk.Event.{Event}
use ajar_connectors.Sdk.Seal.{Ed25519, verify}
use ajar_connectors.Sink.Store.{
  Store, Row, Appended, intact, genesis, head, last_hash, hash_or_genesis, link, append, new_row,
  check_row, audit_rows, audit,
}

-- What AUTOINCREMENT keeps while no row is deleted.
abbrev pub Counted : {F : Type 0} → Store F → Type 0
Counted st = st.last_seq ≡ length st.rows

pub length-link :
    (sha256 : Bytes → Bytes)
    → ((b : Bytes) → length (sha256 b) ≡ 32)
    → (prev sealed : Bytes) → length (link sha256 prev sealed) ≡ 32
unfolding link
length-link sha256 digest prev sealed = digest (prev ++ sealed)

module _ {F VK SK Sig : Type 0} (c : Ed25519 SK VK Sig) (sha256 : Bytes → Bytes)
    (keys : Text → Option VK) where
  -- A row in its place: the number, the link to the row before it, its own hash, and a seal that
  -- verifies under the key of its source.
  pub record InPlace (prev : Bytes) (seq : ℕ) (r : Row F) : Type 0 where
    pub numbered : r.seq ≡ seq
    pub linked : r.prev_hash ≡ prev
    pub hashed : r.record_hash ≡ link sha256 prev r.sealed
    pub key : VK
    pub registered : keys r.source_id ≡ some key
    pub sealed_by : is_ok (verify c r.sealed key) ≡ true

  -- A chain of rows from a hash and a number to the last hash.
  abbrev pub Chained : Bytes → ℕ → List (Row F) → Bytes → Type 0
  Chained prev seq [] last = prev ≡ last
  Chained prev seq (r ∷ rs) last =
      InPlace prev seq r × Chained (link sha256 prev r.sealed) (seq + 1) rs last

  check_row-none :
      (prev : Bytes) (seq : ℕ) (r : Row F)
      → check_row c sha256 keys prev seq r ≡ none
      → InPlace prev seq r
  unfolding check_row
  check_row-none prev seq r h = elim (Option-cases (keys r.source_id)) [
    | inl n ↦ absurd (ground arith)
    | inr (k, e) ↦ record {
      numbered = ground arith;
      linked = ground (arith, text_eq_iff r.prev_hash prev);
      hashed = ground (arith, text_eq_iff r.record_hash (link sha256 prev r.sealed));
      key = k;
      registered = e;
      sealed_by = ground arith;
    }
  ]

  check_row-InPlace :
      (prev : Bytes) (seq : ℕ) (r : Row F)
      → InPlace prev seq r
      → check_row c sha256 keys prev seq r ≡ none
  unfolding check_row
  check_row-InPlace prev seq r p =
      ground
        (arith, text_eq_iff r.prev_hash prev, text_eq_iff r.record_hash (link sha256 prev r.sealed))

  -- A row that does not pass breaks the audit.
  check_row-ne-intact :
      (prev : Bytes) (seq : ℕ) (r : Row F) (m : ℕ) (last : Bytes)
      → check_row c sha256 keys prev seq r ≢ some (intact m last)
  unfolding check_row
  check_row-ne-intact prev seq r m last h = elim (Option-cases (keys r.source_id)) [
    | inl n ↦ ground arith
    | inr (k, e) ↦ ground arith
  ]

  audit_rows_sound :
      (rs : List (Row F)) (prev : Bytes) (seq n m : ℕ) (last : Bytes)
      → audit_rows c sha256 keys rs prev seq n ≡ intact m last
      → Chained prev seq rs last × (m ≡ n + length rs)
  unfolding audit_rows
  audit_rows_sound [] prev seq n m last h = ground arith
  audit_rows_sound (r ∷ rs) prev seq n m last h =
      elim (Option-cases (check_row c sha256 keys prev seq r)) [
        | inl e ↦
            let (chain, len) =
              audit_rows_sound rs (link sha256 prev r.sealed) (seq + 1) (n + 1) m last
                (rw (e, audit_rows) at h) in
            ((check_row-none prev seq r e, chain), omega arith)
        | inr (b, e) ↦
            absurd (check_row-ne-intact prev seq r m last (e ∙ ap some (rw (e, audit_rows) at h)))
      ]

  audit_rows_complete :
      (rs : List (Row F)) (prev : Bytes) (seq n : ℕ) (last : Bytes)
      → Chained prev seq rs last
      → audit_rows c sha256 keys rs prev seq n ≡ intact (n + length rs) last
  unfolding audit_rows
  audit_rows_complete [] prev seq n last h = ground arith
  audit_rows_complete (r ∷ rs) prev seq n last h =
      rw (check_row-InPlace prev seq r h.0, audit_rows)
        (audit_rows_complete rs (link sha256 prev r.sealed) (seq + 1) (n + 1) last h.1
          ∙ ap (λ (k : ℕ). intact k last) (omega arith))

  -- An audit that finds `n` records intact with the head `last` says that the rows are a chain from the
  -- genesis hash, numbered from 1, each sealed by the key of its source; and it finds every such chain
  -- intact.
  pub audit_iff :
      (st : Store F) (n : ℕ) (last : Bytes)
      → (audit c sha256 keys st ≡ intact n last
          → Chained genesis 1 st.rows last × (n ≡ length st.rows))
        × (Chained genesis 1 st.rows last × (n ≡ length st.rows)
            → audit c sha256 keys st ≡ intact n last)
  unfolding audit
  audit_iff st n last = (
    λ h.
        let (chain, len) = audit_rows_sound st.rows genesis 1 0 n last h in
        (chain, omega (arith, len)),
    λ h.
        audit_rows_complete st.rows genesis 1 0 last h.0
        ∙ ap (λ (k : ℕ). intact k last) (omega (arith, h.1)),
  )

  last_hash_chain :
      (r : Row F) (rs : List (Row F)) (prev : Bytes) (seq : ℕ) (last : Bytes)
      → Chained prev seq (r ∷ rs) last
      → last_hash (r ∷ rs) ≡ some last
  unfolding last_hash
  last_hash_chain r [] prev seq last h = ap some (h.0.hashed ∙ h.1)
  last_hash_chain r (q ∷ rs) prev seq last h = last_hash_chain q rs _ _ last h.1

  Chained-append :
      (rs : List (Row F)) (prev : Bytes) (seq : ℕ) (last : Bytes) (r : Row F)
      → Chained prev seq rs last
      → InPlace last (seq + length rs) r
      → Chained prev seq (rs ++ r ∷ []) (link sha256 last r.sealed)
  Chained-append [] prev seq last r h p = (
    record {
      numbered = omega (arith, p.numbered);
      linked = p.linked ∙ sym h;
      hashed = rw h p.hashed;
      key = p.key;
      registered = p.registered;
      sealed_by = p.sealed_by;
    },
    ap (λ (b : Bytes). link sha256 b r.sealed) h,
  )
  Chained-append (q ∷ rs) prev seq last r h p = (
    h.0,
    Chained-append rs (link sha256 prev q.sealed) (seq + 1) last r h.1 (record {
      numbered = omega (arith, p.numbered);
      linked = p.linked;
      hashed = p.hashed;
      key = p.key;
      registered = p.registered;
      sealed_by = p.sealed_by;
    }),
  )

  module _ (digest : (b : Bytes) → length (sha256 b) ≡ 32) where
    length-last :
        (rs : List (Row F)) (prev : Bytes) (seq : ℕ) (last : Bytes)
        → length prev ≡ 32
        → Chained prev seq rs last
        → length last ≡ 32
    length-last [] prev seq last e h = rw (← h) e
    length-last (r ∷ rs) prev seq last e h =
        length-last rs (link sha256 prev r.sealed) (seq + 1) last
          (length-link sha256 digest prev r.sealed) h.1

    hash_of_chain :
        (rs : List (Row F)) (last : Bytes)
        → Chained genesis 1 rs last
        → hash_or_genesis (last_hash rs) ≡ ok last
    hash_of_chain [] last h = unfold last_hash in ap ok h
    hash_of_chain (r ∷ rs) last h =
        rw (last_hash_chain r rs genesis 1 last h)
          (ground (arith, length-last (r ∷ rs) genesis 1 last refl h))

    head_of_chain :
        (st : Store F) (last : Bytes) → Chained genesis 1 st.rows last → head st ≡ ok last
    unfolding head
    head_of_chain st last h = hash_of_chain st.rows last h

    append_ok :
        (st : Store F) (sealed : Bytes) (event : Event F) (received_at : Text) (last : Bytes)
        → head st ≡ ok last
        → {st' : Store F} {a : Appended} → append c sha256 st sealed event received_at ≡ ok (st', a)
        → let row = new_row c sha256 st sealed event received_at last in
          (st'.rows ≡ st.rows ++ row ∷ [])
          × (st'.last_seq ≡ st.last_seq + 1)
          × (a.seq ≡ st.last_seq + 1)
          × (a.record_hash ≡ link sha256 last sealed)
    unfolding append
    append_ok st sealed event received_at last hd {st'} {a} h = ground arith

    -- An intact store stays intact when an event is appended whose source is registered and whose seal
    -- verifies: the audit then finds one record more, and its head is the hash that `append` returned
    -- beside the new number.
    pub append-audit :
        (st : Store F) (sealed : Bytes) (event : Event F) (received_at : Text) (n : ℕ)
        (last : Bytes) (key : VK) (canonical : Bytes)
        → Counted st
        → audit c sha256 keys st ≡ intact n last
        → keys event.source_id ≡ some key
        → verify c sealed key ≡ ok canonical
        → {st' : Store F} {a : Appended} → append c sha256 st sealed event received_at ≡ ok (st', a)
        → (audit c sha256 keys st' ≡ intact (n + 1) a.record_hash) × (a.seq ≡ n + 1) × Counted st'
    append-audit st sealed event received_at n last key canonical counted good k v {st'} {a} h =
        let (chain, len) = (audit_iff st n last).0 good in
        let (rows, seq', seq, hash) =
          append_ok st sealed event received_at last (head_of_chain st last chain) h in
        let row : Row F = new_row c sha256 st sealed event received_at last in
        let in_place : InPlace last (1 + length st.rows) row = record {
          numbered = omega (arith, counted);
          linked = refl;
          hashed = refl;
          key = key;
          registered = k;
          sealed_by = rw v refl;
        } in
        let longer : length st'.rows ≡ n + 1 =
          rw rows (omega (arith, length-append st.rows (row ∷ []), len)) in
        (
          (audit_iff st' (n + 1) a.record_hash).1 (
            subst (λ (rs : List (Row F)). Chained genesis 1 rs a.record_hash) (sym rows)
                (subst (Chained genesis 1 (st.rows ++ row ∷ [])) (sym hash)
                  (Chained-append st.rows genesis 1 last row chain in_place)),
            sym longer,
          ),
          omega (arith, seq, counted, len),
          omega (arith, seq', counted, longer, len),
        )
