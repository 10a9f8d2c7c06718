-- ===== src/Calendar/Months.antt =====
-- Days by their month: the last day of a month, and the same day of the month before.
use my_sql_backup.Base.{
  ℕ, suc, ◌+◌, ◌-◌, ◌*◌, ◌/◌, ◌%◌, ◌≤◌, ◌<◌, ◌≡◌, refl, sym, ap, ◌∙◌, ◌↔◌, true, false, inl, inr,
  arith,
}
use my_sql_backup.Base.Int.{pos, negsuc, ◌+ℤ◌}
use my_sql_backup.Calendar.{Time, days_in, midnight, year_of, month_of, day_of, normalize, add_date}
use my_sql_backup.Calendar.Days.{civil, midnight_parts, days_in_bounds}
use my_sql_backup.Calendar.Shift.{normalize-days, midnight-suc}
use my_sql_backup.Base.Tests.{ltb, Bool-cases}
use mathlib.Core.Path.{ap₂}

-- Months counted from January of year 0.
abbrev pub month_index : Time → ℕ
month_index t = year_of t * 12 + (month_of t - 1)

pub same_day :
    (t u : Time) → year_of t ≡ year_of u → month_of t ≡ month_of u → day_of t ≡ day_of u → t ≡ u
same_day t u y m d = sym (civil t).spelled ∙ (λ i. midnight (y i) (m i) (d i)) ∙ (civil u).spelled

pub same_month_index :
    (t u : Time)
    → month_index t ≡ month_index u
    → (year_of t ≡ year_of u) × (month_of t ≡ month_of u)
same_month_index t u h =
    omega (
      arith,
      (civil t).month_in.0,
      (civil t).month_in.1,
      (civil u).month_in.0,
      (civil u).month_in.1,
    )

-- `normalize` at a day of the month that exists.
pub normalize-midnight :
    (y m d : ℕ)
    → (1 ≤ m) × (m ≤ 12)
    → 1 ≤ d
    → normalize (pos (y * 12 + (m - 1))) (pos (d - 1)) ≡ midnight y m d
unfolding midnight ◌+ℤ◌
normalize-midnight y m d hm hd = normalize-days y m (pos (d - 1)) hm ∙ ground arith

-- `AddDate(0, -1, 0)` at a day of January, and of another month.
month_back :
    (y m d : ℕ)
    → (1 ≤ m) × (m ≤ 12)
    → 1 ≤ d
    → 1 ≤ y * 12 + (m - 1)
    → normalize (pos (y * 12 + (m - 1)) +ℤ negsuc 0) (pos (d - 1) +ℤ pos 0)
      ≡ (let n = y * 12 + (m - 1) - 1 in midnight (n / 12) (suc (n % 12)) d)
month_back y m d hm hd h =
    ap₂ normalize months days ∙ normalize-midnight (n / 12) (suc (n % 12)) d (omega arith) hd
  where
    n : ℕ
    n = y * 12 + (m - 1) - 1

    months : pos (y * 12 + (m - 1)) +ℤ negsuc 0 ≡ pos (n / 12 * 12 + (suc (n % 12) - 1))
    months = unfold ◌+ℤ◌ in ground arith

    days : pos (d - 1) +ℤ pos 0 ≡ pos (d - 1)
    days = unfold ◌+ℤ◌ in ground arith

-- `t.AddDate(0, -1, 0)`: the day of that number of the month before, counted on from its first.
pub add_date-month_back :
    (t : Time)
    → 1 ≤ month_index t
    → add_date t (negsuc 0) (pos 0)
      ≡ (let n = month_index t - 1 in midnight (n / 12) (suc (n % 12)) (day_of t))
unfolding add_date
add_date-month_back t h =
    month_back (year_of t) (month_of t) (day_of t) (civil t).month_in (civil t).day_in.0 h

-- Up to the 28th it is the same day of the month before.
pub month_index-month_back :
    (t : Time)
    → 1 ≤ month_index t
    → day_of t ≤ 28
    → (month_index (add_date t (negsuc 0) (pos 0)) + 1 ≡ month_index t)
      × (day_of (add_date t (negsuc 0) (pos 0)) ≡ day_of t)
month_index-month_back t h d =
    let n : ℕ = month_index t - 1 in
    let parts =
      midnight_parts (n / 12) (suc (n % 12)) (day_of t) (omega arith)
        (ground (arith, (civil t).day_in.0, days_in_bounds (n / 12) (suc (n % 12)))) in
    rw (add_date-month_back t h, parts.0, parts.1, parts.2) (omega arith, refl)

-- Being the last day of the month of `t`.
pub month_last_iff :
    (t d : Time)
    → (d ≡ midnight (year_of t) (month_of t) (days_in (year_of t) (month_of t)))
      ↔ ((month_index d ≡ month_index t) × (day_of d ≡ days_in (year_of d) (month_of d)))
month_last_iff t d = (
  λ e. rw (e, parts.0, parts.1, parts.2) (refl, refl),
  λ (h, l).
      let (y, m) = same_month_index d t h in
      same_day d last (y ∙ sym parts.0) (m ∙ sym parts.1)
        (l ∙ (λ i. days_in (y i) (m i)) ∙ sym parts.2),
)
  where
    last : Time
    last = midnight (year_of t) (month_of t) (days_in (year_of t) (month_of t))

    parts :
        (year_of last ≡ year_of t)
        × (month_of last ≡ month_of t)
        × (day_of last ≡ days_in (year_of t) (month_of t))
    parts =
        midnight_parts (year_of t) (month_of t) (days_in (year_of t) (month_of t))
          (civil t).month_in (ground (arith, days_in_bounds (year_of t) (month_of t)))

midnight-add : (y m d k : ℕ) → 1 ≤ d → midnight y m (d + k) ≡ midnight y m d + k
unfolding midnight
midnight-add y m d k h = omega arith

-- A day number past the end of a month counts on into the next one.
midnight_past :
    (t : Time) (y m k : ℕ)
    → (1 ≤ m) × (m ≤ 12)
    → y * 12 + m ≡ month_index t
    → midnight y m (days_in y m + suc k) ≡ midnight (year_of t) (month_of t) (suc k)
midnight_past t y m k hm h = elim (Bool-cases (ltb m 12)) [
  | inl within ↦ ground (
    arith,
    midnight-add y m (days_in y m) (suc k),
    midnight-add y (suc m) 1 k,
    midnight-suc y m (days_in y m) hm,
    days_in_bounds y m,
    ap₂ (λ a b. midnight a b (suc k)) (same_year within) (same_month within),
  )
  | inr last ↦ ground (
    arith,
    midnight-add y m (days_in y m) (suc k),
    midnight-add (suc y) 1 1 k,
    midnight-suc y m (days_in y m) hm,
    days_in_bounds y m,
    ap₂ (λ a b. midnight a b (suc k)) (next_year last) (january last),
  )
]
  where
    same_year : ltb m 12 ≡ true → y ≡ year_of t
    same_year w = ground (arith, (civil t).month_in.0, (civil t).month_in.1)

    same_month : ltb m 12 ≡ true → suc m ≡ month_of t
    same_month w = ground (arith, (civil t).month_in.0, (civil t).month_in.1)

    next_year : ltb m 12 ≡ false → suc y ≡ year_of t
    next_year w = ground (arith, (civil t).month_in.0, (civil t).month_in.1)

    january : ltb m 12 ≡ false → 1 ≡ month_of t
    january w = ground (arith, (civil t).month_in.0, (civil t).month_in.1)

-- The number of days of the month before that of `t`.
abbrev pub days_in_last : Time → ℕ
days_in_last t = days_in ((month_index t - 1) / 12) (suc ((month_index t - 1) % 12))

-- Where the month before is too short, `AddDate(0, -1, 0)` stays in the month of `t`.
pub month_back_stays :
    (t : Time)
    → 1 ≤ month_index t
    → days_in_last t < day_of t
    → (year_of (add_date t (negsuc 0) (pos 0)) ≡ year_of t)
      × (month_of (add_date t (negsuc 0) (pos 0)) ≡ month_of t)
month_back_stays t h over =
    let parts =
      midnight_parts (year_of t) (month_of t) (suc k) (civil t).month_in (omega arith, fits) in
    rw (add_date-month_back t h, reached) (parts.0, parts.1)
  where
    n : ℕ
    n = month_index t - 1

    k : ℕ
    k = day_of t - days_in_last t - 1

    reached :
        midnight (n / 12) (suc (n % 12)) (day_of t) ≡ midnight (year_of t) (month_of t) (suc k)
    reached =
        ap (midnight (n / 12) (suc (n % 12))) (omega arith)
        ∙ midnight_past t (n / 12) (suc (n % 12)) k (omega arith) (omega arith)

    fits : suc k ≤ days_in (year_of t) (month_of t)
    fits = omega (
      arith,
      (civil t).day_in.1,
      days_in_bounds (year_of t) (month_of t),
      days_in_bounds (n / 12) (suc (n % 12)),
    )
