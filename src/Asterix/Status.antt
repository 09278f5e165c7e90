-- ===== src/Asterix/Status.antt =====
-- The statuses of the radars in rust/connectors/asterix/src/asterix.rs (`parse_service_block`): what a block
-- of service messages leaves of each flag.
use ajar_connectors.Prelude.{
  ℕ, zero, suc, ◌-◌, ◌≡◌, refl, sym, ap, ◌∙◌, ◌⊎◌, inl, inr, Bool, true, false, Bool-cases, Option,
  none, some, List, [], ◌∷◌, map, ◌++◌, Bytes, ◌≤◌, subst, length, take, drop, leb, arith, Result,
  ok, err, if◌then◌else◌,
}
use ajar_connectors.Prelude.Float.{Float}
use ajar_connectors.Asterix.{AsterixError, block_header}
use ajar_connectors.Asterix.Records.{Items, walk_record, cons_ok, block_records}
use ajar_connectors.Asterix.Cat034.{uap, RadarStatus, ServiceReport, decode}
use ajar_connectors.Asterix.Service.{
  AsterixParser, same_radar, radar_of, status_of, take_report, then_reports, raw_report,
  service_records, parse_service_block,
}
use ajar_connectors.Asterix.Loops.{
  joined, walked, block_records-end, block_records-step, block_records_lem, block_header-bounds,
}
use ajar_connectors.Asterix.Flags.{
  Flag, flag_of, last_reported, flag_of-merge, last_reported-first, full_length, status_of-own,
  status_of-other,
}

-- What the records of one radar report, in order.
module _ (F : Type 0) ⦃f : Float F⦄ where
  unfoldable pub from_radar : ℕ × ℕ → List (Items × Bytes) → List RadarStatus
  from_radar k [] = []
  from_radar k ((items, bytes) ∷ rest) =
      let later = from_radar k rest in
      if same_radar (radar_of (decode {F = F} items)) k
      then (decode {F = F} items).status ∷ later
      else later

module _ {F : Type 0} ⦃f : Float F⦄ where
  -- The records taken one after another.
  abbrev then_taken :
      ServiceReport F
      → List (ServiceReport F) × AsterixParser F
      → List (ServiceReport F) × AsterixParser F
  then_taken r (rs, p) = (r ∷ rs, p)

  unfoldable taken :
      List (Items × Bytes) → AsterixParser F → List (ServiceReport F) × AsterixParser F
  taken [] p = ([], p)
  taken ((items, bytes) ∷ rest) p =
      let (r, p') = take_report (raw_report items bytes) p in then_taken r (taken rest p')

  taken-flag :
      (k : ℕ × ℕ) (g : Flag) (parts : List (Items × Bytes)) (p : AsterixParser F)
      → flag_of g (status_of k (taken parts p).1)
        ≡ last_reported (map (flag_of g) (from_radar F k parts)) (flag_of g (status_of k p))
  unfolding taken from_radar
  taken-flag k g [] p = unfold last_reported in refl
  taken-flag k g ((items, bytes) ∷ rest) p =
      elim (Bool-cases (same_radar (radar_of (decode {F = F} items)) k)) [
        | inl h ↦ rw h (
            taken-flag k g rest (take_report (raw_report items bytes) p).1
            ∙ ap (last_reported (map (flag_of g) (from_radar F k rest))) (
                ap (flag_of g) (status_of-own k (raw_report items bytes) p h)
                ∙ flag_of-merge g (status_of k p) (decode {F = F} items).status)
            ∙ sym (last_reported-first (flag_of g (decode {F = F} items).status) _ _))
        | inr h ↦ rw h (
            taken-flag k g rest (take_report (raw_report items bytes) p).1
            ∙ ap
                (λ (s : RadarStatus).
                  last_reported (map (flag_of g) (from_radar F k rest)) (flag_of g s))
                (status_of-other k (raw_report items bytes) p h))
      ]

  -- The outcome of the loop, from the records of the block.
  abbrev Agrees :
      Option (Result (AsterixError F) (List (Items × Bytes)))
      → AsterixParser F
      → Option (Result (AsterixError F) (List (ServiceReport F))) × AsterixParser F
      → Type 0
  Agrees none p out = out.0 ≡ none
  Agrees (some (err e)) p out = out.0 ≡ some (err e)
  Agrees (some (ok parts)) p out = out ≡ (some (ok (taken parts p).0), (taken parts p).1)

  module _ (block : Bytes) where
    service_walked :
        ℕ
        → ℕ
        → AsterixParser F
        → Result (AsterixError F) (Items × ℕ)
        → Option (Result (AsterixError F) (List (ServiceReport F))) × AsterixParser F
    service_walked fuel off p r =
        elim r
          as (λ x. Option (Result (AsterixError F) (List (ServiceReport F))) × AsterixParser F) [
            | err e ↦ (some (err e), p)
            | ok (items, next) ↦
                let (r, p') =
                  take_report (raw_report items (take (next - off) (drop off block))) p in
                then_reports r (service_records fuel block next p')
          ]

    after_test :
        ℕ
        → ℕ
        → AsterixParser F
        → Bool
        → Option (Result (AsterixError F) (List (ServiceReport F))) × AsterixParser F
    after_test fuel off p b =
        elim b
          as (λ x. Option (Result (AsterixError F) (List (ServiceReport F))) × AsterixParser F) [
            | true ↦ (some (ok []), p)
            | false ↦ service_walked fuel off p (walk_record 34 uap block off)
          ]

    service_records-suc :
        (fuel off : ℕ) (p : AsterixParser F) (b : Bool)
        → leb (length block) off ≡ b
        → service_records (suc fuel) block off p ≡ after_test fuel off p b
    unfolding service_records service_walked after_test
    service_records-suc fuel off p b h = ap (after_test fuel off p) h

    -- One record more in front.
    Agrees-first :
        (items : Items) (bytes : Bytes) (p : AsterixParser F)
        (later : Option (Result (AsterixError F) (List (Items × Bytes))))
        (out : Option (Result (AsterixError F) (List (ServiceReport F))) × AsterixParser F)
        → Agrees later (take_report (raw_report items bytes) p).1 out
        → Agrees
            (cons_ok (items, bytes) later)
            p
            (then_reports (take_report (raw_report items bytes) p).0 out)
    unfolding taken
    Agrees-first items bytes p none out h = rw h refl
    Agrees-first items bytes p (some (err e)) out h = rw h refl
    Agrees-first items bytes p (some (ok ps)) out h = rw h refl

    walked-Agrees :
        (fuel off : ℕ) (p : AsterixParser F) (r : Result (AsterixError F) (Items × ℕ))
        → ((next : ℕ) (q : AsterixParser F)
            → Agrees (block_records fuel 34 uap block next) q (service_records fuel block next q))
        → Agrees (walked 34 uap block fuel off r) p (service_walked fuel off p r)
    unfolding walked service_walked
    walked-Agrees fuel off p (err e) later = refl
    walked-Agrees fuel off p (ok (items, next)) later =
        Agrees-first items _ p (block_records fuel 34 uap block next) _ (later next _)

    more-Agrees :
        (fuel off : ℕ) (p : AsterixParser F)
        → ((next : ℕ) (q : AsterixParser F)
            → Agrees (block_records fuel 34 uap block next) q (service_records fuel block next q))
        → Agrees
            (walked 34 uap block fuel off (walk_record 34 uap block off))
            p
            (after_test fuel off p false)
    unfolding after_test
    more-Agrees fuel off p later = walked-Agrees fuel off p (walk_record 34 uap block off) later

    end-Agrees :
        (fuel off : ℕ) (p : AsterixParser F) → Agrees (some (ok [])) p (after_test fuel off p true)
    unfolding after_test taken
    end-Agrees fuel off p = refl

    service_records-Agrees :
        (fuel off : ℕ) (p : AsterixParser F)
        → Agrees (block_records fuel 34 uap block off) p (service_records fuel block off p)
    service_records-Agrees zero off p = unfold block_records service_records in refl
    service_records-Agrees (suc fuel) off p = elim (Bool-cases (leb (length block) off)) [
      | inl done ↦
          rw
            (block_records-end 34 uap block fuel off done, service_records-suc fuel off p true done)
            (end-Agrees fuel off p)
      | inr more ↦
          rw
            (
              block_records-step 34 uap block fuel off more,
              service_records-suc fuel off p false more,
            )
            (more-Agrees fuel off p (service_records-Agrees fuel))
    ]

  abbrev raws : List (ServiceReport F) → Bytes
  raws reports = joined (map (λ (r : ServiceReport F). (r, r.raw)) reports)

  -- What a call of `parse_service_block` on a block of category 34 comes to, by the records of the block.
  abbrev pub Merged :
      Bytes
      → AsterixParser F
      → Option (Result (AsterixError F) (List (ServiceReport F))) × AsterixParser F
      → Type 0
  Merged block p (result, p') =
      let records = block_records {F = F} (suc (length block)) 34 uap block 3 in
      ((e : AsterixError F) × (records ≡ some (err e)) × (result ≡ some (err e)))
      ⊎ ((parts : List (Items × Bytes)) × (reports : List (ServiceReport F)) × (records
            ≡ some (ok parts))
          × (result ≡ some (ok reports))
          × (raws reports ≡ drop 3 block)
          × ((k : ℕ × ℕ) (g : Flag)
              → flag_of g (status_of k p')
                ≡ last_reported (map (flag_of g) (from_radar F k parts))
                    (flag_of g (status_of k p))))

  raws-taken :
      (parts : List (Items × Bytes)) (p : AsterixParser F) → raws (taken parts p).0 ≡ joined parts
  unfolding taken take_report joined
  raws-taken [] p = refl
  raws-taken ((items, bytes) ∷ rest) p = ap (λ (b : Bytes). bytes ++ b) (raws-taken rest _)

  Merged-taken :
      (block : Bytes) (p : AsterixParser F) (parts : List (Items × Bytes))
      (out : Option (Result (AsterixError F) (List (ServiceReport F))) × AsterixParser F)
      → block_records {F = F} (suc (length block)) 34 uap block 3 ≡ some (ok parts)
      → joined parts ≡ drop 3 block
      → out ≡ (some (ok (taken parts p).0), (taken parts p).1)
      → Merged block p out
  Merged-taken block p parts out r j h = rw h (
      inr
        (parts, (taken parts p).0, r, refl, raws-taken parts p ∙ j, λ k g. taken-flag k g parts p))

  records-Merged :
      (block : Bytes) (p : AsterixParser F)
      → 3 ≤ length block
      → Merged block p (service_records (suc (length block)) block 3 p)
  records-Merged block p h =
      let all = service_records-Agrees block (suc (length block)) 3 p in
      elim (block_records_lem {F = F} 34 uap block (suc (length block)) 3 h (omega arith)) [
        | inl (parts, r, j) ↦ Merged-taken block p parts _ r j (rw r at all)
        | inr (e, r) ↦ inl (e, r, rw r at all)
      ]

  -- A call of `parse_service_block` on a block of category 34 returns: the error of a record that cannot be
  -- walked, or reports whose bytes are the records of the block, one after another. Each flag of each radar
  -- is then the last that one of the radar's records reported, and the flag from before where none did.
  pub parse_service_block-Merged :
      (frame : Bytes) (len : ℕ) (p : AsterixParser F)
      → block_header {F = F} frame ≡ ok (34, len)
      → Merged (take len frame) p (parse_service_block frame p)
  unfolding parse_service_block
  parse_service_block-Merged frame len p h =
      let bounds = block_header-bounds frame (34, len) h in
      let n = full_length len frame bounds.1 in
      rw h (
        subst (λ (n : ℕ). Merged (take len frame) p (service_records (suc n) (take len frame) 3 p))
          n (records-Merged (take len frame) p (omega (arith, bounds.0, n))))
