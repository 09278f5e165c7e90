-- ===== src/Sink/Store/Tamper.antt =====
-- What an audit detects: the head hash and the number of records fix every stored envelope, up to a
-- collision of the hash; and what it cannot: rows that were cut off the end.
use ajar_connectors.Prelude.{
  ℕ, ◌+◌, ◌≡◌, ◌≢◌, ◌⊎◌, inl, inr, refl, sym, ◌∙◌, Option, List, [], ◌∷◌, ◌++◌, map, Text, Bytes,
  text_eq, length, arith, Bool-cases, text_eq_iff, subst,
}
use ajar_connectors.Sdk.Seal.{Ed25519}
use ajar_connectors.Sink.Store.{Store, Row, intact, genesis, link, audit}
use ajar_connectors.Sink.Store.Chain.{Chained, audit_iff, length-link}

-- Two inputs with one digest.
pub record Collision (sha256 : Bytes → Bytes) : Type 0 where
  pub left : Bytes
  pub right : Bytes
  pub differ : left ≢ right
  pub collide : sha256 left ≡ sha256 right

append_parts : (a b c d : Bytes) → length a ≡ length c → a ++ b ≡ c ++ d → (a ≡ c) × (b ≡ d)
append_parts [] b [] d l h = (refl, h)
append_parts [] b (z ∷ c) d l h = absurd (omega (arith, l))
append_parts (x ∷ a) b [] d l h = absurd (omega (arith, l))
append_parts (x ∷ a) b (z ∷ c) d l h =
    let (p, q) = append_parts a b c d (omega (arith, l)) (cc) in (cc p, q)

link_injective :
    (sha256 : Bytes → Bytes) (p q s t : Bytes)
    → length p ≡ length q
    → link sha256 p s ≡ link sha256 q t
    → ((p ≡ q) × (s ≡ t)) ⊎ Collision sha256
unfolding link
link_injective sha256 p q s t l h = elim (Bool-cases (text_eq (p ++ s) (q ++ t))) [
  | inl e ↦ inl (append_parts p s q t l ((text_eq_iff _ _).0 e))
  | inr n ↦ inr (record {
    left = p ++ s;
    right = q ++ t;
    differ = λ e. cc (n, (text_eq_iff (p ++ s) (q ++ t)).1 e);
    collide = h;
  })
]

abbrev pub envelopes : {F : Type 0} → List (Row F) → List Bytes
envelopes = map (λ r. r.sealed)

module _ {F VK SK Sig : Type 0} (c : Ed25519 SK VK Sig) (sha256 : Bytes → Bytes)
    (keys : Text → Option VK) where
  module _ (digest : (b : Bytes) → length (sha256 b) ≡ 32) where
    chains_agree :
        (rs ts : List (Row F)) (p q last : Bytes) (i j : ℕ)
        → length rs ≡ length ts
        → length p ≡ length q
        → Chained c sha256 keys p i rs last
        → Chained c sha256 keys q j ts last
        → ((p ≡ q) × (envelopes rs ≡ envelopes ts)) ⊎ Collision sha256
    chains_agree [] [] p q last i j l m h k = inl (h ∙ sym k, refl)
    chains_agree [] (t ∷ ts) p q last i j l m h k = absurd (omega (arith, l))
    chains_agree (r ∷ rs) [] p q last i j l m h k = absurd (omega (arith, l))
    chains_agree (r ∷ rs) (t ∷ ts) p q last i j l m h k =
        let same : length (link sha256 p r.sealed) ≡ length (link sha256 q t.sealed) =
          length-link sha256 digest p r.sealed ∙ sym (length-link sha256 digest q t.sealed) in
        elim (chains_agree rs ts (link sha256 p r.sealed) (link sha256 q t.sealed) last (i + 1)
          (j + 1) (omega (arith, l)) same h.1 k.1) [
            | inr x ↦ inr x
            | inl (e, f) ↦ elim (link_injective sha256 p q r.sealed t.sealed m e) [
              | inr x ↦ inr x
              | inl (g, s) ↦ inl (g, cc (f, s))
            ]
          ]

    -- Two stores that audit intact with one number of records and one head hold the same envelopes in
    -- the same order, or a collision of the hash is at hand: no edit, insertion, deletion or reordering
    -- keeps both numbers.
    pub audit_fixes_envelopes :
        (st tampered : Store F) (n : ℕ) (last : Bytes)
        → audit c sha256 keys st ≡ intact n last
        → audit c sha256 keys tampered ≡ intact n last
        → (envelopes st.rows ≡ envelopes tampered.rows) ⊎ Collision sha256
    audit_fixes_envelopes st tampered n last h k =
        let (chain, len) = (audit_iff c sha256 keys st n last).0 h in
        let (chain', len') = (audit_iff c sha256 keys tampered n last).0 k in
        elim (chains_agree st.rows tampered.rows genesis genesis last 1 1 (sym len ∙ len') refl
          chain chain') [ inl (_, e) ↦ inl e | inr x ↦ inr x ]

  chain_front :
      (rs ts : List (Row F)) (p last : Bytes) (i : ℕ)
      → Chained c sha256 keys p i (rs ++ ts) last
      → (mid : Bytes) × Chained c sha256 keys p i rs mid
  chain_front [] ts p last i h = (p, refl)
  chain_front (r ∷ rs) ts p last i h =
      let (mid, k) = chain_front rs ts (link sha256 p r.sealed) last (i + 1) h.1 in (mid, (h.0, k))

  -- Rows that are deleted from the end leave no trace in the audit: it finds the rest intact.
  pub audit_misses_tail :
      (st : Store F) (front tail : List (Row F)) (n : ℕ) (last : Bytes)
      → st.rows ≡ front ++ tail
      → audit c sha256 keys st ≡ intact n last
      → (mid : Bytes) × (audit c sha256 keys (record st { rows = front })
          ≡ intact (length front) mid)
  audit_misses_tail st front tail n last e h =
      let (chain, len) = (audit_iff c sha256 keys st n last).0 h in
      let (mid, k) =
        chain_front front tail genesis last 1
          (subst (λ (rs : List (Row F)). Chained c sha256 keys genesis 1 rs last) e chain) in
      (mid, (audit_iff c sha256 keys (record st { rows = front }) (length front) mid).1 (k, refl))
