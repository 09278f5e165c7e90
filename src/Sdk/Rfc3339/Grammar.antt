-- ===== src/Sdk/Rfc3339/Grammar.antt =====
-- What `is_rfc3339` accepts: the renderings of date-times, and nothing else.
mod Shift
mod Zone
mod Head
pub use Zone.{ZoneOf, zulu, offset}
pub use Head.{Clock, IsClock, render_clock}
use ajar_connectors.Prelude.{
  ℕ, zero, suc, ◌+◌, ◌-◌, ◌*◌, ◌/◌, ◌%◌, ◌≤◌, ◌<◌, ◌≡◌, ◌≢◌, ◌⊎◌, inl, inr, refl, sym, ap, ◌∙◌,
  Bool, true, false, ◌&&◌, ◌||◌, Option, none, some, List, [], ◌∷◌, ◌++◌, arith, Bytes, All,
  get_elem?, take, drop, length, length-append, take-append-drop, ltb, Bool-cases, ◌==◌,
  if◌then◌else◌,
}
use ajar_connectors.Sdk.Rfc3339.{
  is_digit, is_rfc3339, digits, byte_at, num, date_time_shape, date_time_ranges, zone_start,
  zone_at, digit_run,
}
use mathlib.Core.Path.{subst}
use native.Mathlib.Decide.{ℕ_discrete}
use Shift.{zone_at_shift}
use Zone.{zone_sound, zone_complete, zone_head}
use Head.{shape-render_clock, ranges-render_clock, clock_sound, nineteen_bytes}

-- The digits of a fraction behind their point; no digits, no point.
abbrev pub point : Bytes → Bytes
point [] = []
point (d ∷ ds) = b'.' ∷ d ∷ ds

abbrev AreDigits : Bytes → Type 0
AreDigits = All (λ x. (b'0' ≤ x) × (x ≤ b'9'))

-- `YYYY-MM-DDThh:mm:ss[.frac](Z|+hh:mm|-hh:mm)` with components in range.
pub record DateTime (b : Bytes) : Type 0 where
  pub clock : Clock
  pub is_clock : IsClock clock
  pub fraction : Bytes
  pub fraction_digits : AreDigits fraction
  pub zone : Bytes
  pub is_zone : ZoneOf zone
  pub spelled : b ≡ render_clock clock (point fraction ++ zone)

is_digit_iff :
    (x : ℕ)
    → (is_digit x ≡ true → (b'0' ≤ x) × (x ≤ b'9')) × ((b'0' ≤ x) × (x ≤ b'9') → is_digit x ≡ true)
unfolding is_digit
is_digit_iff x = (λ h. ground arith, λ h. ground arith)

digit_run-append : (f z : Bytes) → AreDigits f → digit_run z ≡ 0 → digit_run (f ++ z) ≡ length f
unfolding digit_run
digit_run-append [] z hf hz = hz
digit_run-append (d ∷ ds) z hf hz =
    rw ((is_digit_iff d).1 hf.0) (ap suc (digit_run-append ds z hf.1 hz))

digit_run_digits :
    (r : Bytes) → AreDigits (take (digit_run r) r) × (length (take (digit_run r) r) ≡ digit_run r)
unfolding digit_run
digit_run_digits [] = (tt, refl)
digit_run_digits (x ∷ xs) = elim (Bool-cases (is_digit x)) [
  | inl y ↦ rw y (((is_digit_iff x).0 y, (digit_run_digits xs).0), ap suc (digit_run_digits xs).1)
  | inr n ↦ rw n (tt, refl)
]

-- Where the zone of a rendering begins.
zone_start-render :
    (c : Clock) (f z : Bytes)
    → AreDigits f
    → ZoneOf z
    → zone_start (render_clock c (point f ++ z)) ≡ some (length (render_clock c (point f)))
unfolding zone_start
zone_start-render c [] z hf hz = rw ((zone_head z hz).1)
zone_start-render c (d ∷ ds) z hf hz =
    rw ((is_digit_iff d).1 hf.0, digit_run-append ds z hf.1 (zone_head z hz).0) (ground arith)

zone_at-render :
    (c : Clock) (f z : Bytes)
    → zone_at (render_clock c (point f ++ z)) (some (length (render_clock c (point f))))
      ≡ zone_at z (some 0)
zone_at-render c f z = zone_at_shift (render_clock c (point f)) z

length-render :
    (c : Clock) (f z : Bytes)
    → 1 ≤ length z
    → ltb (length (render_clock c (point f ++ z))) 20 ≡ false
length-render c f z h = ground (arith, length-append (point f) z)

is_rfc3339_complete : (b : Bytes) → DateTime b → is_rfc3339 b ≡ true
unfolding is_rfc3339
is_rfc3339_complete b t = rw (
  t.spelled,
  length-render t.clock t.fraction t.zone (zone_head t.zone t.is_zone).2,
  shape-render_clock t.clock (point t.fraction ++ t.zone) t.is_clock,
  ranges-render_clock t.clock (point t.fraction ++ t.zone) t.is_clock,
  zone_start-render t.clock t.fraction t.zone t.fraction_digits t.is_zone,
  zone_at-render t.clock t.fraction t.zone,
  zone_complete t.zone t.is_zone,
)

ZoneOf-check :
    (c : Clock) (f z : Bytes)
    → zone_at (render_clock c (point f ++ z)) (some (length (render_clock c (point f)))) ≡ true
    → ZoneOf z
ZoneOf-check c f z h = zone_sound z (sym (zone_at-render c f z) ∙ h)

zone_only_sound :
    (c : Clock) (rest : Bytes)
    → IsClock c
    → byte_at rest 0 b'.' ≡ false
    → zone_at (render_clock c rest) (zone_start (render_clock c rest)) ≡ true
    → DateTime (render_clock c rest)
unfolding zone_start
zone_only_sound c rest v n h = record {
  clock = c;
  is_clock = v;
  fraction = [];
  fraction_digits = tt;
  zone = rest;
  is_zone = ZoneOf-check c [] rest (rw n at h);
  spelled = refl;
}

fraction_start :
    (c : Clock) (r : Bytes)
    → zone_at (render_clock c (b'.' ∷ r)) (zone_start (render_clock c (b'.' ∷ r))) ≡ true
    → (digit_run r ≢ 0) × (zone_at (render_clock c (b'.' ∷ r)) (some (20 + digit_run r)) ≡ true)
unfolding zone_start
fraction_start c r h = elim (Bool-cases (digit_run r == 0)) [
  | inl e ↦ absurd (cc (rw e at h))
  | inr e ↦ (ground arith, rw e at h)
]

fraction_sound :
    (c : Clock) (d : ℕ) (ds : Bytes)
    → IsClock c
    → (n : ℕ) → digit_run (d ∷ ds) ≡ suc n
    → zone_at (render_clock c (b'.' ∷ d ∷ ds)) (some (20 + suc n)) ≡ true
    → DateTime (render_clock c (b'.' ∷ d ∷ ds))
fraction_sound c d ds v n e h =
    let run = digit_run_digits (d ∷ ds) in
    let f : Bytes = d ∷ take n ds in
    let z : Bytes = drop n ds in
    let split : take n ds ++ z ≡ ds = take-append-drop n ds in
    let len : length (take n ds) ≡ n = omega (arith, rw e at run.1) in
    let at_zone : zone_at (render_clock c (point f ++ z)) (some (length (render_clock c (point f))))
        ≡ true =
      rw (split, len) (ground arith) in
    record {
      clock = c;
      is_clock = v;
      fraction = f;
      fraction_digits = rw e at run.0;
      zone = z;
      is_zone = ZoneOf-check c f z at_zone;
      spelled = ap (λ (t : Bytes). render_clock c (b'.' ∷ d ∷ t)) (sym split);
    }

point_sound :
    (c : Clock) (r : Bytes) (n : ℕ)
    → IsClock c
    → digit_run r ≡ n
    → n ≢ 0
    → zone_at (render_clock c (b'.' ∷ r)) (some (20 + n)) ≡ true
    → DateTime (render_clock c (b'.' ∷ r))
point_sound c r zero v e ne h = absurd (ne refl)
point_sound c [] (suc n) v e ne h = absurd (unfold digit_run in omega (arith, e))
point_sound c (d ∷ ds) (suc n) v e ne h = fraction_sound c d ds v n e h

tail_sound :
    (c : Clock) (rest : Bytes)
    → IsClock c
    → zone_at (render_clock c rest) (zone_start (render_clock c rest)) ≡ true
    → DateTime (render_clock c rest)
tail_sound c [] v h = zone_only_sound c [] v (unfold byte_at in refl) h
tail_sound c (x ∷ r) v h = elim (ℕ_discrete x b'.') [
  | yes p ↦
      subst
        (λ (y : ℕ).
          zone_at (render_clock c (y ∷ r)) (zone_start (render_clock c (y ∷ r))) ≡ true
          → DateTime (render_clock c (y ∷ r)))
        (sym p) (λ k. let s = fraction_start c r k in point_sound c r _ v refl s.0 s.1) h
  | no p ↦ zone_only_sound c (x ∷ r) v (unfold byte_at in ground arith) h
]

is_rfc3339_parts :
    (b : Bytes)
    → is_rfc3339 b ≡ true
    → (20 ≤ length b)
      × (date_time_shape b ≡ true)
      × (date_time_ranges b ≡ true)
      × (zone_at b (zone_start b) ≡ true)
unfolding is_rfc3339
is_rfc3339_parts b h = ground arith

-- A text is accepted exactly when it spells a date-time: a clock with month 1 to 12, day 1 to 31, hour
-- up to 23, minute up to 59 and second up to 60, then an optional point with one digit or more, then
-- `Z` or an offset up to 23:59, and nothing behind it.
pub is_rfc3339_iff :
    (b : Bytes) → (is_rfc3339 b ≡ true → DateTime b) × (DateTime b → is_rfc3339 b ≡ true)
is_rfc3339_iff b = (
  λ h. let (len, shape, ranges, zone) = is_rfc3339_parts b h in sound b len shape ranges zone,
  is_rfc3339_complete b,
)
  where
    sound :
        (b : Bytes)
        → 20 ≤ length b
        → date_time_shape b ≡ true
        → date_time_ranges b ≡ true
        → zone_at b (zone_start b) ≡ true
        → DateTime b
    sound =
        nineteen_bytes
          (λ b.
            date_time_shape b ≡ true
            → date_time_ranges b ≡ true
            → zone_at b (zone_start b) ≡ true
            → DateTime b)
          λ y1 y2 y3 y4 m0 m1 m2 d0 d1 d2 t0 h1 h2 i0 i1 i2 s0 s1 s2 rest shape ranges zone.
            let (c, v, e) =
              clock_sound y1 y2 y3 y4 m0 m1 m2 d0 d1 d2 t0 h1 h2 i0 i1 i2 s0 s1 s2 rest shape
                ranges in
            subst DateTime (sym e)
              (tail_sound c rest v (subst (λ w. zone_at w (zone_start w) ≡ true) e zone))
