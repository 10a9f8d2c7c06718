-- ===== src/Calendar.antt =====
-- The part of Go's package `time` that the retention code calls. Every instant the program
-- compares is a local midnight, so a `time.Time` is the number of its day, counted from
-- 0000-01-01, the earliest date that a layout `20060102` can spell; an instant before it is read
-- as day 0, which no comparison with a parsed date can tell from it.
pub mod Days
pub mod Shift
pub mod Months
use my_sql_backup.Base.{ℕ, zero, suc, ◌+◌, ◌-◌, ◌*◌, ◌/◌, ◌%◌, ◌<◌, Bool, true, false, not, ◌||◌}
use my_sql_backup.Base.Tests.{ltb, leb, ◌==◌, if◌then◌else◌}
use my_sql_backup.Base.Int.{ℤ, pos, pos_part, ◌+ℤ◌}

abbrev pub Time : Type 0
Time = ℕ

-- Proleptic Gregorian leap years.
unfoldable pub is_leap : ℕ → Bool
is_leap y = if y % 400 == 0 then true else if y % 100 == 0 then false else y % 4 == 0

-- `daysIn(m, y)`
unfoldable pub days_in : ℕ → ℕ → ℕ
unfolding is_leap
days_in y m =
    if m == 2
    then (if is_leap y then 29 else 28)
    else if (m == 4) || (m == 6) || (m == 9) || (m == 11)
    then 30
    else 31

unfoldable pub year_length : ℕ → ℕ
unfolding is_leap
year_length y = if is_leap y then 366 else 365

-- Days from 0000-01-01 to the first of January of year `y`.
unfoldable pub days_before_year : ℕ → ℕ
days_before_year y = y * 365 + (y + 3) / 4 + (y + 399) / 400 - (y + 99) / 100

-- Days from the first of January to the first day of month `k + 1`.
unfoldable pub days_before_month : ℕ → ℕ → ℕ
unfolding days_in
days_before_month y zero = 0
days_before_month y (suc k) = days_before_month y k + days_in y (suc k)

-- The day of a valid year, month and day of the month.
unfoldable pub midnight : ℕ → ℕ → ℕ → Time
midnight y m d = days_before_year y + days_before_month y (m - 1) + (d - 1)

-- The year of a day, sought upwards from an estimate that is never too late.
unfoldable pub find_year : ℕ → ℕ → Time → ℕ
find_year zero y t = y
find_year (suc fuel) y t = elim (leb (days_before_year (suc y)) t) [
  | true ↦ find_year fuel (suc y) t
  | false ↦ y
]

-- `t.Year()`
unfoldable pub year_of : Time → ℕ
year_of t = find_year (suc t) (t / 366) t

-- The month and day of the month of a day of year `y`: `d` is the offset from the first of
-- month `m`, and `left` counts the months after it.
unfoldable pub find_month : ℕ → ℕ → ℕ → ℕ → ℕ × ℕ
find_month zero y m d = (m, suc d)
find_month (suc left) y m d = elim (ltb d (days_in y m)) [
  | true ↦ (m, suc d)
  | false ↦ find_month left y (suc m) (d - days_in y m)
]

-- `t.Month()`
unfoldable pub month_of : Time → ℕ
month_of t = (find_month 11 (year_of t) 1 (t - days_before_year (year_of t))).0

-- `t.Day()`
unfoldable pub day_of : Time → ℕ
day_of t = (find_month 11 (year_of t) 1 (t - days_before_year (year_of t))).1

-- `t.Weekday()`, with `time.Sunday` as 0: 0000-01-01 was a Saturday.
unfoldable pub weekday_of : Time → ℕ
weekday_of t = (t + 6) % 7

-- `time.Date(y, m, d, 0, 0, 0, 0, loc)` and `t.AddDate`: the month is brought into its range by
-- moving the year, and the day of the month counts on from the first.
unfoldable pub normalize : ℤ → ℤ → Time
normalize months d =
    let first =
      days_before_year (pos_part months / 12)
      + days_before_month (pos_part months / 12) (pos_part months % 12) in
    pos_part (pos first +ℤ d)

-- `t.AddDate(0, months, days)`
unfoldable pub add_date : Time → ℤ → ℤ → Time
add_date t months days =
    normalize (pos (year_of t * 12 + (month_of t - 1)) +ℤ months) (pos (day_of t - 1) +ℤ days)

-- `t.Before(u)`
abbrev pub before : Time → Time → Bool
before t u = ltb t u

-- Unfolded by name, this opens every function of the module, for a proof that runs them.
unfoldable pub running : Unit {0}
unfolding days_in days_before_year days_before_month midnight find_year year_of find_month month_of
    day_of weekday_of normalize add_date ◌+ℤ◌
running = tt
