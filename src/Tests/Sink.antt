-- ===== src/Tests/Sink.antt =====
-- The sink on concrete inputs.
use ajar_connectors.Prelude.{
  ℕ, ◌+◌, ◌≡◌, ◌⊎◌, refl, none, List, [], ◌∷◌, ◌++◌, Bytes, text, length, replicate, ok, text_eq,
}
use ajar_connectors.Prelude.Int.{ℤ}
use ajar_connectors.Sdk.Seal.{verify}
use ajar_connectors.Sink.Store.{
  Store, Row, intact, broken, missing_record, genesis, link, empty_store, append, head, has_hash,
  check_row, audit_rows, audit, accept,
}
use ajar_connectors.Sink.Store.Chain.{Chained, Counted, audit_iff, append-audit}
use ajar_connectors.Sink.Store.Tamper.{
  Collision, envelopes, audit_fixes_envelopes, audit_misses_tail,
}
use ajar_connectors.Sink.Run.{Sink, Message, record_accepted, handle, run}
use ajar_connectors.Sink.Run.Intact.{Accepted, accept_sound, run_audits}
use ajar_connectors.Tests.Instances.{whole, toy, digest, length-digest, event_of, decode, keys}

abbrev sealed : Bytes
sealed = 5 ∷ (replicate 63 0 ++ text "s1")

abbrev row : ℕ → Bytes → Bytes → Row ℤ
row seq prev hash = record {
  seq = seq;
  received_at = text "t";
  source_id = text "s1";
  event_id = text "7";
  entity_type = text "mim:aircraft";
  timestamp = text "2024-01-02T03:04:05Z";
  location = none;
  sealed = sealed;
  prev_hash = prev;
  record_hash = hash;
}

abbrev one : Store ℤ
one = record { rows = row 1 genesis (replicate 32 98) ∷ []; last_seq = 1 }

abbrev messages : List Message
messages =
    record { payload = sealed; received_at = text "t" }
    ∷ record { payload = 4 ∷ []; received_at = text "t" }
    ∷ []

abbrev start : Sink ℤ
start = record { store = empty_store; accepted = 0; refused = 0 }

one_appended :
    append toy digest empty_store sealed (event_of (text "s1")) (text "t")
    ≡ ok (one, record { seq = 1; record_hash = replicate 32 98 })
unfolding append head link has_hash
one_appended = refl

empty_audit : audit toy digest keys (empty_store {F = ℤ}) ≡ intact 0 genesis
unfolding audit audit_rows
empty_audit = refl

one-audit : audit toy digest keys one ≡ intact 1 (replicate 32 98)
unfolding audit audit_rows check_row link text_eq keys verify
one-audit = refl

gap :
    audit toy digest keys (record { rows = row 2 genesis (replicate 32 98) ∷ []; last_seq = 2 })
    ≡ broken 1 (missing_record 1 2)
unfolding audit audit_rows check_row link text_eq keys verify
gap = refl

audit_iff_example :
    Chained toy digest keys genesis 1 one.rows (replicate 32 98) × (1 ≡ length one.rows)
audit_iff_example = (audit_iff toy digest keys one 1 (replicate 32 98)).0 one-audit

append-audit_example :
    (audit toy digest keys one ≡ intact (0 + 1) (replicate 32 98)) × (1 ≡ 0 + 1) × Counted one
append-audit_example =
    append-audit toy digest keys length-digest empty_store sealed (event_of (text "s1")) (text "t")
      0 genesis 5 (text "s1") refl empty_audit (unfold keys in refl) (unfold verify in refl)
      one_appended

audit_fixes_envelopes_example : (envelopes one.rows ≡ envelopes one.rows) ⊎ Collision digest
audit_fixes_envelopes_example =
    audit_fixes_envelopes toy digest keys length-digest one one 1 (replicate 32 98) one-audit
      one-audit

audit_misses_tail_example :
    (mid : Bytes) × (audit toy digest keys (record one { rows = [] }) ≡ intact 0 mid)
audit_misses_tail_example =
    audit_misses_tail toy digest keys one [] one.rows 1 (replicate 32 98) refl one-audit

accepted : accept toy decode keys sealed ≡ ok (event_of (text "s1"))
unfolding accept keys verify
accepted = refl

accept_sound_example : Accepted toy decode keys sealed (event_of (text "s1"))
accept_sound_example = accept_sound toy decode keys sealed (event_of (text "s1")) accepted

two_messages :
    run toy digest decode keys start messages
    ≡ ok (record { store = one; accepted = 1; refused = 1 })
unfolding run handle record_accepted accept keys verify append head link has_hash
two_messages = refl

run_audits_example :
    (last : Bytes) × (audit toy digest keys one ≡ intact 1 last) × (1 + 1 ≡ length messages)
run_audits_example =
    run_audits toy decode keys digest length-digest messages
      (record { store = one; accepted = 1; refused = 1 }) two_messages
