-- ===== src/Retention/Window.antt =====
-- Which days `Apply` keeps.
use my_sql_backup.Base.{
  ℕ, zero, suc, ◌+◌, ◌-◌, ◌*◌, ◌%◌, ◌≤◌, ◌<◌, ◌≡◌, refl, sym, ap, ◌≢◌, ◌∙◌, ◌↔◌, inl, inr, true,
  false, arith,
}
use my_sql_backup.Base.Tests.{Bool-cases, ltb, leb, ◌==◌}
use my_sql_backup.Base.Int.{pos, negsuc, neg_ℤ, ◌+ℤ◌}
use my_sql_backup.Calendar.{
  Time, days_in, days_before_year, midnight, year_of, month_of, day_of, weekday_of, add_date,
}
use my_sql_backup.Calendar.Shift.{add_date-days, month_end_lem}
use my_sql_backup.Calendar.Months.{same_day, month_index, month_last_iff, month_index-month_back}
use my_sql_backup.Calendar.Days.{civil, days_in_bounds, midnight_parts, year_of-lt}
use my_sql_backup.Retention.{date_key}
use my_sql_backup.Retention.Keys.{date_key_iff}
use my_sql_backup.Retention.Apply.{
  sunday_back, last_sunday, sunday_keys, month_end, month_keys, year_keys, mem,
}

back : (t : Time) → add_date t (pos 0) (negsuc 0) ≡ t - 1
back t = add_date-days t (negsuc 0) ∙ (unfold ◌+ℤ◌ in ground arith)

on : (t : Time) (k : ℕ) → add_date t (pos 0) (pos k) ≡ t + k
on t k = add_date-days t (pos k) ∙ (unfold ◌+ℤ◌ in ground arith)

pub cutoff : (t : Time) (k : ℕ) → add_date t (pos 0) (neg_ℤ (pos k)) ≡ t - k
cutoff t k = add_date-days t (neg_ℤ (pos k)) ∙ (unfold ◌+ℤ◌ in ground arith)

weekday_lt : (t : Time) → weekday_of t < 7
unfolding weekday_of
weekday_lt t = omega arith

-- `s` is the last Sunday up to `t`.
pub record IsLastSunday (t s : Time) : Type 0 where
  pub sunday : weekday_of s ≡ 0
  pub not_later : s ≤ t
  pub within_week : t < s + 7

weekday_of-back : (t : Time) → weekday_of t ≢ 0 → 1 ≤ t → suc (weekday_of (t - 1)) ≡ weekday_of t
unfolding weekday_of
weekday_of-back t h k = omega arith

sunday_back-IsLastSunday :
    (fuel : ℕ) (t : Time)
    → weekday_of t < fuel
    → 1 ≤ t
    → weekday_of t < t
    → (weekday_of (sunday_back fuel t) ≡ 0) × (sunday_back fuel t + weekday_of t ≡ t)
unfolding sunday_back
sunday_back-IsLastSunday zero t h k l = absurd (omega arith)
sunday_back-IsLastSunday (suc fuel) t h k l = elim (Bool-cases (weekday_of t == 0)) [
  | inl here ↦ rw (here, sunday_back) (ground arith)
  | inr later ↦
      rw (later, sunday_back, back t)
        (ground (arith, weekday_of-back t, sunday_back-IsLastSunday fuel (t - 1)))
]

-- The loop that seeks the last Sunday ends, within seven rounds.
pub last_sunday-IsLastSunday : (today : Time) → 7 ≤ today → IsLastSunday today (last_sunday today)
unfolding last_sunday
last_sunday-IsLastSunday today h =
    ground (arith, sunday_back-IsLastSunday 7 today, weekday_lt today)

abbrev pub y2k : Time
y2k = 730485

-- The loops stop at the years before 2000.
pub year_from_y2k : (t : Time) → y2k ≤ t → 2000 ≤ year_of t
year_from_y2k t h = ground (arith, (year_of-lt t 2000).0, starts)
  where
    starts : days_before_year 2000 ≡ y2k
    starts = unfold days_before_year in refl

from_y2k : (t : Time) → y2k ≤ t → ltb (year_of t) 2000 ≡ false
from_y2k t h = ground (arith, year_from_y2k t h)

-- What the weekly loop puts in: the Sunday `s` and the following ones, `left` in all.
pub sunday_keys_iff :
    (left i : ℕ) (s d : Time)
    → y2k ≤ s
    → (mem (date_key d) (sunday_keys left i s) ≡ true)
      ↔ ((s + 7 * i ≤ d) × (d < s + 7 * (i + left)) × ((d - s) % 7 ≡ 0))
unfolding sunday_keys
sunday_keys_iff zero i s d h = ground arith
sunday_keys_iff (suc left) i s d h =
    rw (on s (7 * i), from_y2k (s + 7 * i) (omega arith), sunday_keys)
      (ground (arith, on s (7 * i), date_key_iff d (s + 7 * i), sunday_keys_iff left (suc i) s d h))

-- The 31st of December of a year.
year_end_iff :
    (y : ℕ) (d : Time)
    → (d ≡ midnight y 12 31) ↔ ((year_of d ≡ y) × (month_of d ≡ 12) × (day_of d ≡ 31))
year_end_iff y d = (
  λ e. rw e parts,
  λ (a, b, c). same_day d (midnight y 12 31) (a ∙ sym parts.0) (b ∙ sym parts.1) (c ∙ sym parts.2),
)
  where
    parts :
        (year_of (midnight y 12 31) ≡ y)
        × (month_of (midnight y 12 31) ≡ 12)
        × (day_of (midnight y 12 31) ≡ 31)
    parts = midnight_parts y 12 31 (omega arith) (unfold days_in in omega arith)

-- What the yearly loop puts in: the ends of `left` years back from year `y`, from 2000 on.
pub year_keys_iff :
    (left y : ℕ) (d : Time)
    → (mem (date_key d) (year_keys left y) ≡ true) ↔ (
        (month_of d ≡ 12)
        × (day_of d ≡ 31)
        × (2000 ≤ year_of d)
        × (year_of d ≤ y)
        × (y < year_of d + left))
unfolding year_keys
year_keys_iff zero y d = ground arith
year_keys_iff (suc left) y d = elim (Bool-cases (leb 2000 y)) [
  | inl recent ↦
      rw (recent, year_keys)
        (ground (
          arith,
          date_key_iff d (midnight y 12 31),
          year_end_iff y d,
          year_keys_iff left (y - 1) d,
        ))
  | inr old ↦ rw (old, year_keys) (ground arith)
]

-- The end of the month of a day.
pub month_end-eq :
    (m : Time) → month_end m ≡ midnight (year_of m) (month_of m) (days_in (year_of m) (month_of m))
unfolding month_end
month_end-eq m = month_end_lem (year_of m) (month_of m) (civil m).month_in

year_of-month_end : (m : Time) → year_of (month_end m) ≡ year_of m
year_of-month_end m =
    ap year_of (month_end-eq m)
    ∙ (midnight_parts (year_of m) (month_of m) (days_in (year_of m) (month_of m)) (civil m).month_in
        (ground (arith, days_in_bounds (year_of m) (month_of m)))).0

abbrev pub december_1999 : ℕ
december_1999 = 23999

-- What the monthly loop puts in, from a day up to the 28th: the ends of `left` months back from
-- that day's own, from December 1999 on.
pub month_keys_iff :
    (left : ℕ) (m d : Time)
    → day_of m ≤ 28
    → december_1999 ≤ month_index m
    → (mem (date_key d) (month_keys left m) ≡ true) ↔ (
        (day_of d ≡ days_in (year_of d) (month_of d))
        × (december_1999 ≤ month_index d)
        × (month_index d ≤ month_index m)
        × (month_index m < month_index d + left))
unfolding month_keys
month_keys_iff zero m d h k = ground arith
month_keys_iff (suc left) m d h k = elim (Bool-cases (ltb (year_of (month_end m)) 2000)) [
  | inl old ↦
      rw (old, month_keys)
        (ground (
          arith,
          date_key_iff d (month_end m),
          month_end-eq m,
          month_last_iff m d,
          year_of-month_end m,
          (civil m).month_in.1,
        ))
  | inr recent ↦
      rw (recent, month_keys)
        (ground (
          arith,
          date_key_iff d (month_end m),
          month_end-eq m,
          month_last_iff m d,
          year_of-month_end m,
          (civil m).month_in.1,
          month_index-month_back m,
          month_keys_iff left (add_date m (negsuc 0) (pos 0)) d,
        ))
]
