-- ===== src/Sdk/Rfc3339/Grammar/Head.antt =====
-- The first nineteen bytes, `YYYY-MM-DDThh:mm:ss`.
use ajar_connectors.Prelude.{
  ℕ, ◌||◌, ◌==◌, ◌+◌, ◌-◌, ◌*◌, ◌/◌, ◌%◌, ◌≤◌, ◌≡◌, ◌⊎◌, true, ◌∷◌, arith, Bytes, length,
}
use ajar_connectors.Sdk.Rfc3339.{is_digit, date_time_shape, date_time_ranges}
use ajar_connectors.Sdk.Rfc3339.Grammar.Zone.{two}

pub record Clock : Type 0 where
  pub year : ℕ
  pub month : ℕ
  pub day : ℕ
  pub hour : ℕ
  pub minute : ℕ
  pub second : ℕ
  pub sep : ℕ

pub record IsClock (c : Clock) : Type 0 where
  pub year_le : c.year ≤ 9999
  pub month_ge : 1 ≤ c.month
  pub month_le : c.month ≤ 12
  pub day_ge : 1 ≤ c.day
  pub day_le : c.day ≤ 31
  pub hour_le : c.hour ≤ 23
  pub minute_le : c.minute ≤ 59
  pub second_le : c.second ≤ 60
  pub sep_letter : (c.sep ≡ b'T') ⊎ (c.sep ≡ b't')

abbrev pub render_clock : Clock → Bytes → Bytes
render_clock c rest = two (c.year / 100) (
    two (c.year % 100) (
      b'-'
      ∷ two c.month
          (b'-' ∷ two c.day (c.sep ∷ two c.hour (b':' ∷ two c.minute (b':' ∷ two c.second rest))))))

digit_tens : (n : ℕ) → n ≤ 99 → is_digit (b'0' + n / 10) ≡ true
unfolding is_digit
digit_tens n h = ground arith

digit_ones : (n : ℕ) → is_digit (b'0' + n % 10) ≡ true
unfolding is_digit
digit_ones n = ground arith

sep_test : (s : ℕ) → (s ≡ b'T') ⊎ (s ≡ b't') → (s == b'T' || s == b't') ≡ true
sep_test s h = ground arith

pub shape-render_clock :
    (c : Clock) (rest : Bytes) → IsClock c → date_time_shape (render_clock c rest) ≡ true
unfolding date_time_shape
shape-render_clock c rest v = simp (
  digit_tens (c.year / 100) (omega arith),
  digit_tens (c.year % 100) (omega arith),
  digit_tens c.month (omega arith),
  digit_tens c.day (omega arith),
  digit_tens c.hour (omega arith),
  digit_tens c.minute (omega arith),
  digit_tens c.second (omega arith),
  digit_ones,
  sep_test c.sep v.sep_letter,
)

pub ranges-render_clock :
    (c : Clock) (rest : Bytes) → IsClock c → date_time_ranges (render_clock c rest) ≡ true
unfolding date_time_ranges
ranges-render_clock c rest v = ground arith

shape_facts :
    (y1 y2 y3 y4 m0 m1 m2 d0 d1 d2 t0 h1 h2 i0 i1 i2 s0 s1 s2 : ℕ) (rest : Bytes)
    → date_time_shape (
        y1 ∷ y2 ∷ y3 ∷ y4 ∷ m0 ∷ m1 ∷ m2 ∷ d0 ∷ d1 ∷ d2 ∷ t0 ∷ h1 ∷ h2 ∷ i0 ∷ i1 ∷ i2 ∷ s0 ∷ s1 ∷ s2
        ∷ rest)
      ≡ true
    → (is_digit y1 ≡ true)
      × (is_digit y2 ≡ true)
      × (is_digit y3 ≡ true)
      × (is_digit y4 ≡ true)
      × (is_digit m1 ≡ true)
      × (is_digit m2 ≡ true)
      × (is_digit d1 ≡ true)
      × (is_digit d2 ≡ true)
      × (is_digit h1 ≡ true)
      × (is_digit h2 ≡ true)
      × (is_digit i1 ≡ true)
      × (is_digit i2 ≡ true)
      × (is_digit s1 ≡ true)
      × (is_digit s2 ≡ true)
      × (m0 ≡ b'-')
      × (d0 ≡ b'-')
      × ((t0 ≡ b'T') ⊎ (t0 ≡ b't'))
      × (i0 ≡ b':')
      × (s0 ≡ b':')
unfolding date_time_shape
shape_facts y1 y2 y3 y4 m0 m1 m2 d0 d1 d2 t0 h1 h2 i0 i1 i2 s0 s1 s2 rest h = ground arith

is_digit_bounds : (x : ℕ) → is_digit x ≡ true → (48 ≤ x) × (x ≤ 57)
unfolding is_digit
is_digit_bounds x h = ground arith

-- The number that two digits spell.
abbrev value : ℕ → ℕ → ℕ
value a b = (a - b'0') * 10 + (b - b'0')

pair-eq-two :
    (a b : ℕ) (r : Bytes) → is_digit a ≡ true → is_digit b ≡ true → two (value a b) r ≡ a ∷ b ∷ r
pair-eq-two a b r h k = ground (arith, is_digit_bounds a h, is_digit_bounds b k)

range_facts :
    (y1 y2 y3 y4 m0 m1 m2 d0 d1 d2 t0 h1 h2 i0 i1 i2 s0 s1 s2 : ℕ) (rest : Bytes)
    → date_time_ranges (
        y1 ∷ y2 ∷ y3 ∷ y4 ∷ m0 ∷ m1 ∷ m2 ∷ d0 ∷ d1 ∷ d2 ∷ t0 ∷ h1 ∷ h2 ∷ i0 ∷ i1 ∷ i2 ∷ s0 ∷ s1 ∷ s2
        ∷ rest)
      ≡ true
    → (1 ≤ value m1 m2)
      × (value m1 m2 ≤ 12)
      × (1 ≤ value d1 d2)
      × (value d1 d2 ≤ 31)
      × (value h1 h2 ≤ 23)
      × (value i1 i2 ≤ 59)
      × (value s1 s2 ≤ 60)
unfolding date_time_ranges
range_facts y1 y2 y3 y4 m0 m1 m2 d0 d1 d2 t0 h1 h2 i0 i1 i2 s0 s1 s2 rest h = ground arith

value-le : (a b : ℕ) → is_digit a ≡ true → is_digit b ≡ true → value a b ≤ 99
value-le a b h k = omega (arith, is_digit_bounds a h, is_digit_bounds b k)

pub clock_sound :
    (y1 y2 y3 y4 m0 m1 m2 d0 d1 d2 t0 h1 h2 i0 i1 i2 s0 s1 s2 : ℕ) (rest : Bytes)
    → date_time_shape (
        y1 ∷ y2 ∷ y3 ∷ y4 ∷ m0 ∷ m1 ∷ m2 ∷ d0 ∷ d1 ∷ d2 ∷ t0 ∷ h1 ∷ h2 ∷ i0 ∷ i1 ∷ i2 ∷ s0 ∷ s1 ∷ s2
        ∷ rest)
      ≡ true
    → date_time_ranges (
        y1 ∷ y2 ∷ y3 ∷ y4 ∷ m0 ∷ m1 ∷ m2 ∷ d0 ∷ d1 ∷ d2 ∷ t0 ∷ h1 ∷ h2 ∷ i0 ∷ i1 ∷ i2 ∷ s0 ∷ s1 ∷ s2
        ∷ rest)
      ≡ true
    → (c : Clock) × IsClock c
      × (y1 ∷ y2 ∷ y3 ∷ y4 ∷ m0 ∷ m1 ∷ m2 ∷ d0 ∷ d1 ∷ d2 ∷ t0 ∷ h1 ∷ h2 ∷ i0 ∷ i1 ∷ i2 ∷ s0 ∷ s1
            ∷ s2 ∷ rest
          ≡ render_clock c rest)
clock_sound y1 y2 y3 y4 m0 m1 m2 d0 d1 d2 t0 h1 h2 i0 i1 i2 s0 s1 s2 rest h k =
    let (y1d, y2d, y3d, y4d, m1d, m2d, d1d, d2d, h1d, h2d, i1d, i2d, s1d, s2d, em, ed, et, ei, es) =
      shape_facts y1 y2 y3 y4 m0 m1 m2 d0 d1 d2 t0 h1 h2 i0 i1 i2 s0 s1 s2 rest h in
    let ranges = range_facts y1 y2 y3 y4 m0 m1 m2 d0 d1 d2 t0 h1 h2 i0 i1 i2 s0 s1 s2 rest k in
    let hi : (value y1 y2 * 100 + value y3 y4) / 100 ≡ value y1 y2 =
      omega (arith, value-le y3 y4 y3d y4d) in
    let lo : (value y1 y2 * 100 + value y3 y4) % 100 ≡ value y3 y4 =
      omega (arith, value-le y3 y4 y3d y4d) in
    (
      record {
        year = value y1 y2 * 100 + value y3 y4;
        month = value m1 m2;
        day = value d1 d2;
        hour = value h1 h2;
        minute = value i1 i2;
        second = value s1 s2;
        sep = t0;
      },
      record {
        year_le = omega (arith, value-le y1 y2 y1d y2d, value-le y3 y4 y3d y4d);
        month_ge = ranges.0;
        month_le = ranges.1;
        day_ge = ranges.2;
        day_le = ranges.3;
        hour_le = ranges.4;
        minute_le = ranges.5;
        second_le = ranges.6;
        sep_letter = et;
      },
      rw (
        hi,
        lo,
        em,
        ed,
        ei,
        es,
        pair-eq-two y1 y2 _ y1d y2d,
        pair-eq-two y3 y4 _ y3d y4d,
        pair-eq-two m1 m2 _ m1d m2d,
        pair-eq-two d1 d2 _ d1d d2d,
        pair-eq-two h1 h2 _ h1d h2d,
        pair-eq-two i1 i2 _ i1d i2d,
        pair-eq-two s1 s2 _ s1d s2d,
      ),
    )

-- To prove a property of every text that is long enough.
pub nineteen_bytes :
    (P : Bytes → Type 0)
    → ((y1 y2 y3 y4 m0 m1 m2 d0 d1 d2 t0 h1 h2 i0 i1 i2 s0 s1 s2 : ℕ) (rest : Bytes)
        → P (
            y1 ∷ y2 ∷ y3 ∷ y4 ∷ m0 ∷ m1 ∷ m2 ∷ d0 ∷ d1 ∷ d2 ∷ t0 ∷ h1 ∷ h2 ∷ i0 ∷ i1 ∷ i2 ∷ s0 ∷ s1
            ∷ s2 ∷ rest))
    → (b : Bytes) → 20 ≤ length b
    → P b
nineteen_bytes P f
      (y1 ∷ y2 ∷ y3 ∷ y4 ∷ m0 ∷ m1 ∷ m2 ∷ d0 ∷ d1 ∷ d2 ∷ t0 ∷ h1 ∷ h2 ∷ i0 ∷ i1 ∷ i2 ∷ s0 ∷ s1 ∷ s2
        ∷ rest)
      h =
    f y1 y2 y3 y4 m0 m1 m2 d0 d1 d2 t0 h1 h2 i0 i1 i2 s0 s1 s2 rest
nineteen_bytes P f b h = absurd (omega arith)
