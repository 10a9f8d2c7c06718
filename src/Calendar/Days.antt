-- ===== src/Calendar/Days.antt =====
-- The calendar's own laws: days, years and months fit together without gap or overlap.
use my_sql_backup.Base.{ℕ, zero, suc, ◌+◌, ◌-◌, ◌*◌, ◌/◌, ◌≤◌, ◌<◌, ◌≡◌, refl, ap, ◌↔◌, arith}
use my_sql_backup.Calendar.{
  Time, days_in, year_length, days_before_year, days_before_month, midnight, find_year, year_of,
  find_month, month_of, day_of,
}

-- The closed count of leap days agrees with the leap rule.
pub days_before_year-suc : (y : ℕ) → days_before_year (suc y) ≡ days_before_year y + year_length y
unfolding days_before_year year_length
days_before_year-suc y = ground arith

pub days_before_year-le : (y : ℕ) → days_before_year y ≤ y * 366
unfolding days_before_year
days_before_year-le y = omega arith

pub le-days_before_year : (y : ℕ) → y * 365 ≤ days_before_year y
unfolding days_before_year
le-days_before_year y = omega arith

pub twelve_months : (y : ℕ) → days_before_month y 12 ≡ year_length y
unfolding days_before_month year_length
twelve_months y = ground arith

pub days_in_bounds : (y m : ℕ) → (28 ≤ days_in y m) × (days_in y m ≤ 31)
unfolding days_in
days_in_bounds y m = ground arith

find_year-bounds :
    (fuel y : ℕ) (t : Time)
    → days_before_year y ≤ t
    → t < y + fuel
    → (days_before_year (find_year fuel y t) ≤ t)
      × (t < days_before_year (suc (find_year fuel y t)))
unfolding find_year
find_year-bounds zero y t lo hi = absurd (omega (arith, le-days_before_year y))
find_year-bounds (suc fuel) y t lo hi = ground (arith, find_year-bounds fuel (suc y) t)

-- The year that is found holds the day.
pub year_of-bounds :
    (t : Time) → (days_before_year (year_of t) ≤ t) × (t < days_before_year (suc (year_of t)))
unfolding year_of
year_of-bounds t =
    find_year-bounds (suc t) (t / 366) t (omega (arith, days_before_year-le (t / 366)))
      (omega arith)

-- `r` is a month and a day of it, `n` days into the year `y`.
pub record IsDayOf (y n : ℕ) (r : ℕ × ℕ) : Type 0 where
  pub month_in : (1 ≤ r.0) × (r.0 ≤ 12)
  pub day_in : (1 ≤ r.1) × (r.1 ≤ days_in y r.0)
  pub offset : days_before_month y (r.0 - 1) + (r.1 - 1) ≡ n

pub days_before_month-suc :
    (y k : ℕ) → days_before_month y (suc k) ≡ days_before_month y k + days_in y (suc k)
unfolding days_before_month
days_before_month-suc y k = refl

days_before_month-eleven : (y k : ℕ) → k + 1 ≡ 12 → days_before_month y (suc k) ≡ year_length y
days_before_month-eleven y k e = let f : suc k ≡ 12 = omega arith in rw f (twelve_months y)

find_month-IsDayOf :
    (left y k d : ℕ)
    → k + suc left ≡ 12
    → days_before_month y k + d < year_length y
    → IsDayOf y (days_before_month y k + d) (find_month left y (suc k) d)
unfolding find_month
find_month-IsDayOf zero y k d e h =
    ground (arith, days_before_month-suc y k, days_before_month-eleven y k e)
find_month-IsDayOf (suc left) y k d e h =
    ground
      (arith, days_before_month-suc y k, find_month-IsDayOf left y (suc k) (d - days_in y (suc k)))

-- The parts of a day: a month of twelve, a day of that month, and the way back to the day.
pub record IsCivil (t : Time) : Type 0 where
  pub month_in : (1 ≤ month_of t) × (month_of t ≤ 12)
  pub day_in : (1 ≤ day_of t) × (day_of t ≤ days_in (year_of t) (month_of t))
  pub spelled : midnight (year_of t) (month_of t) (day_of t) ≡ t

pub civil : (t : Time) → IsCivil t
unfolding month_of day_of midnight days_before_month
civil t =
    let found =
      find_month-IsDayOf 11 (year_of t) 0 (t - days_before_year (year_of t)) (omega arith)
        (ground (arith, year_of-bounds t, days_before_year-suc (year_of t))) in
    record {
      month_in = found.month_in;
      day_in = found.day_in;
      spelled = omega (arith, found.offset, year_of-bounds t);
    }

days_before_year_mono : (k y : ℕ) → days_before_year y + k * 365 ≤ days_before_year (y + k)
unfolding days_before_year
days_before_year_mono k y = omega arith

days_before_month_mono : (k y m : ℕ) → days_before_month y m + k * 28 ≤ days_before_month y (k + m)
days_before_month_mono zero y m = let e : 0 + m ≡ m = omega arith in rw e (omega arith)
days_before_month_mono (suc k) y m =
    let e : suc k + m ≡ suc (k + m) = omega arith in
    rw e (
      omega (
        arith,
        days_before_month-suc y (k + m),
        days_before_month_mono k y m,
        days_in_bounds y (suc (k + m)),
      ))

days_before_year-le_of_le : (y z : ℕ) → y ≤ z → days_before_year y ≤ days_before_year z
days_before_year-le_of_le y z h =
    let e : y + (z - y) ≡ z = omega arith in
    omega (arith, ap days_before_year e, days_before_year_mono (z - y) y)

-- A year starts after all days of the earlier years.
pub year_of-lt : (t : Time) (y : ℕ) → (year_of t < y) ↔ (t < days_before_year y)
year_of-lt t y = (
  λ h. omega (arith, year_of-bounds t, days_before_year-le_of_le (suc (year_of t)) y h),
  λ h. ground (arith, year_of-bounds t, days_before_year-le_of_le y (year_of t)),
)

year_unique :
    (y z : ℕ) (t : Time)
    → days_before_year y ≤ t
    → t < days_before_year (suc y)
    → days_before_year z ≤ t
    → t < days_before_year (suc z)
    → ¬ (y < z)
year_unique y z t a b c d lt =
    omega (arith, ap days_before_year (fits lt), days_before_year_mono (z - suc y) (suc y))
  where
    fits : y < z → suc y + (z - suc y) ≡ z
    fits lt = omega arith

month_unique :
    (y j k a b : ℕ)
    → a < days_in y (suc j)
    → days_before_month y j + a ≡ days_before_month y k + b
    → ¬ (j < k)
month_unique y j k a b fits e lt = omega (
  arith,
  ap (days_before_month y) (reach lt),
  days_before_month_mono (k - suc j) y (suc j),
  days_before_month-suc y j,
)
  where
    reach : j < k → (k - suc j) + suc j ≡ k
    reach lt = omega arith

-- A day of the month lies before the next month, and so in its year.
offset-lt :
    (y m d : ℕ)
    → (1 ≤ m) × (m ≤ 12)
    → (1 ≤ d) × (d ≤ days_in y m)
    → days_before_month y (m - 1) + (d - 1) < year_length y
offset-lt y zero d hm hd = absurd (omega arith)
offset-lt y (suc k) d hm hd =
    let e : (12 - suc k) + suc k ≡ 12 = omega arith in
    let f : suc k - 1 ≡ k = omega arith in
    rw f (
      omega (
        arith,
        ap (days_before_month y) e,
        days_before_month_mono (12 - suc k) y (suc k),
        days_before_month-suc y k,
        twelve_months y,
      ))

year_of-eq :
    (y : ℕ) (t : Time) → days_before_year y ≤ t → t < days_before_year (suc y) → year_of t ≡ y
year_of-eq y t lo hi = omega (
  arith,
  year_unique y (year_of t) t lo hi (year_of-bounds t).0 (year_of-bounds t).1,
  year_unique (year_of t) y t (year_of-bounds t).0 (year_of-bounds t).1 lo hi,
)

same_month :
    (y j k a b : ℕ)
    → a < days_in y (suc j)
    → b < days_in y (suc k)
    → days_before_month y j + a ≡ days_before_month y k + b
    → j ≡ k
same_month y j k a b ha hb e =
    omega (arith, month_unique y j k a b ha e, month_unique y k j b a hb (omega arith))

abbrev IsPart : ℕ → ℕ → ℕ → Type 0
IsPart y m d = (1 ≤ m) × (m ≤ 12) × (1 ≤ d) × (d ≤ days_in y m)

parts_unique :
    (y m d n e : ℕ)
    → IsPart y m d
    → IsPart y n e
    → days_before_month y (m - 1) + (d - 1) ≡ days_before_month y (n - 1) + (e - 1)
    → (m ≡ n) × (d ≡ e)
parts_unique y zero d n e p q h = absurd (omega arith)
parts_unique y (suc j) d zero e p q h = absurd (omega arith)
parts_unique y (suc j) d (suc k) e p q h =
    let pred_j : suc j - 1 ≡ j = omega arith in
    let pred_k : suc k - 1 ≡ k = omega arith in
    let same : j ≡ k =
      same_month y j k (d - 1) (e - 1) (omega arith) (omega arith)
        (omega (arith, h, ap (days_before_month y) pred_j, ap (days_before_month y) pred_k)) in
    (omega arith, omega (arith, h, ap (λ (i : ℕ). days_before_month y (suc i - 1)) same))

parts_of_year :
    (y m d : ℕ) (t : Time)
    → IsPart y m d
    → year_of t ≡ y
    → midnight y m d ≡ t
    → (month_of t ≡ m) × (day_of t ≡ d)
unfolding midnight
parts_of_year y m d t p same e =
    parts_unique y (month_of t) (day_of t) m d
      (ground (arith, civil t, ap (λ z. days_in z (month_of t)) same)) p
      (omega (
        arith,
        (civil t).spelled,
        ap days_before_year same,
        ap (λ z. days_before_month z (month_of t - 1)) same,
      ))

-- A valid year, month and day are read back from the day that they spell.
pub midnight_parts :
    (y m d : ℕ)
    → (1 ≤ m) × (m ≤ 12)
    → (1 ≤ d) × (d ≤ days_in y m)
    → (year_of (midnight y m d) ≡ y)
      × (month_of (midnight y m d) ≡ m)
      × (day_of (midnight y m d) ≡ d)
midnight_parts y m d hm hd =
    let rest = parts_of_year y m d (midnight y m d) (hm.0, hm.1, hd.0, hd.1) same_year refl in
    (same_year, rest.0, rest.1)
  where
    same_year : year_of (midnight y m d) ≡ y
    same_year =
        year_of-eq y (midnight y m d) (unfold midnight in omega arith)
          (unfold midnight in omega (arith, offset-lt y m d hm hd, days_before_year-suc y))
