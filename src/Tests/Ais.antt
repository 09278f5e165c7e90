-- ===== src/Tests/Ais.antt =====
-- Runs of the AIS parser's definitions.
use ajar_connectors.Prelude.{
  ℕ, ◌≡◌, refl, ◌||◌, some, [], ◌∷◌, ◌++◌, Bytes, text, unwrap_or, contains, ltb, arith,
}
use ajar_connectors.Ais.Cache.{Carry, no_carry, push_raw, MmsiCache, entry, get}
use ajar_connectors.Ais.Cache.Pending.{IsCounted, IsLongestEnd, push_raw_lem}
use ajar_connectors.Prelude.Carry.Bounds.{bytes_of}
use ajar_connectors.Ais.Cache.Bounds.{IsBounded, keys, Distinct, entry_lem}

abbrev sentence : Bytes
sentence = text "!AIVDM"

abbrev waiting : Carry
waiting = record no_carry { pending = (7 ∷ []) ∷ []; pending_bytes = 1 }

push_raw_lem_example :
    IsCounted (push_raw sentence waiting).0
    × IsLongestEnd
        (((7 ∷ []) ∷ []) ++ (sentence ∷ []))
        (push_raw sentence waiting).0.pending
        (push_raw sentence waiting).1
    × ((push_raw sentence waiting).0.dropped_since_emit
        ≡ (waiting.dropped_since_emit || ltb 0 (push_raw sentence waiting).1))
unfolding bytes_of
push_raw_lem_example = push_raw_lem sentence waiting (refl, (omega arith, omega arith))

abbrev one_vessel : MmsiCache ℕ
one_vessel = record { map = (227006760, 4) ∷ []; order = 227006760 ∷ [] }

one_vessel-IsBounded : IsBounded one_vessel
unfolding keys Distinct contains
one_vessel-IsBounded = record { ordered = refl; distinct = (refl, tt); bounded = omega arith }

entry_lem_example :
    IsBounded (entry 0 603916439 one_vessel)
    × (get 603916439 (entry 0 603916439 one_vessel) ≡ some (unwrap_or (get 603916439 one_vessel) 0))
entry_lem_example = entry_lem 0 603916439 one_vessel one_vessel-IsBounded
