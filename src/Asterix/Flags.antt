-- ===== src/Asterix/Flags.antt =====
-- The flags of a radar in rust/connectors/asterix/src/asterix/cat034.rs, and the map of the statuses.
use ajar_connectors.Prelude.{
  ℕ, ◌≡◌, refl, ap, ◌∙◌, Bool, true, false, Option, none, some, List, [], ◌∷◌, Bytes, ◌≤◌, length,
  length-take, take, arith, if◌then◌else◌,
}
use ajar_connectors.Asterix.Cat034.{RadarStatus, take_reported, merge, ServiceReport}
use ajar_connectors.Asterix.Service.{
  AsterixParser, same_radar, find_status, set_status, radar_of, status_of, count_report,
  take_report,
}

pub data Flag : Type 0 where
  nogo rdp_overload xmt_overload monitoring_disconnected : Flag
  time_source_invalid psr_overload ssr_overload mds_overload : Flag

abbrev pub flag_of : Flag → RadarStatus → Option Bool
flag_of nogo s = s.nogo
flag_of rdp_overload s = s.rdp_overload
flag_of xmt_overload s = s.xmt_overload
flag_of monitoring_disconnected s = s.monitoring_disconnected
flag_of time_source_invalid s = s.time_source_invalid
flag_of psr_overload s = s.psr_overload
flag_of ssr_overload s = s.ssr_overload
flag_of mds_overload s = s.mds_overload

-- The last of these that was reported, or else the one from before.
unfoldable pub last_reported : List (Option Bool) → Option Bool → Option Bool
last_reported [] before = before
last_reported (none ∷ later) before = last_reported later before
last_reported (some b ∷ later) before = last_reported later (some b)

pub flag_of-merge :
    (g : Flag) (s t : RadarStatus)
    → flag_of g (merge s t) ≡ take_reported (flag_of g s) (flag_of g t)
unfolding merge
flag_of-merge nogo s t = refl
flag_of-merge rdp_overload s t = refl
flag_of-merge xmt_overload s t = refl
flag_of-merge monitoring_disconnected s t = refl
flag_of-merge time_source_invalid s t = refl
flag_of-merge psr_overload s t = refl
flag_of-merge ssr_overload s t = refl
flag_of-merge mds_overload s t = refl

pub last_reported-first :
    (v before : Option Bool) (later : List (Option Bool))
    → last_reported (v ∷ later) before ≡ last_reported later (take_reported before v)
unfolding last_reported
last_reported-first none before later = refl
last_reported-first (some b) before later = refl

find_status-set_status :
    (k n : ℕ × ℕ) (s : RadarStatus) (l : List ((ℕ × ℕ) × RadarStatus))
    → find_status k (set_status n s l) ≡ (if same_radar n k then s else find_status k l)
unfolding find_status set_status
find_status-set_status k n s [] = refl
find_status-set_status (a, b) (c, d) s (((x, y), t) ∷ l) =
    ground (arith, find_status-set_status (a, b) (c, d) s l)

same_radar-eq : (m k : ℕ × ℕ) → same_radar m k ≡ true → m ≡ k
same_radar-eq (a, b) (c, d) h = grind arith

pub full_length : (len : ℕ) (b : Bytes) → len ≤ length b → length (take len b) ≡ len
full_length len b h = omega (arith, h, length-take len b)

module _ {F : Type 0} where
  status_of-take_report :
      (k : ℕ × ℕ) (r : ServiceReport F) (p : AsterixParser F)
      → status_of k (take_report r p).1 ≡ (
          if same_radar (radar_of r) k
          then merge (status_of (radar_of r) p) r.status
          else status_of k p)
  unfolding take_report count_report
  status_of-take_report k r p = find_status-set_status k (radar_of r) _ p.radar_status

  pub status_of-own :
      (k : ℕ × ℕ) (r : ServiceReport F) (p : AsterixParser F)
      → same_radar (radar_of r) k ≡ true
      → status_of k (take_report r p).1 ≡ merge (status_of k p) r.status
  status_of-own k r p h =
      status_of-take_report k r p
      ∙ rw h (ap (λ (m : ℕ × ℕ). merge (status_of m p) r.status) (same_radar-eq (radar_of r) k h))

  pub status_of-other :
      (k : ℕ × ℕ) (r : ServiceReport F) (p : AsterixParser F)
      → same_radar (radar_of r) k ≡ false
      → status_of k (take_report r p).1 ≡ status_of k p
  status_of-other k r p h = status_of-take_report k r p ∙ rw h refl
