-- ===== src/Calendar/Shift.antt =====
-- `AddDate` by days alone, and the last day of a month.
use my_sql_backup.Base.{
  ◌<◌, ℕ, zero, suc, ◌+◌, ◌-◌, ◌*◌, ◌/◌, ◌%◌, ◌≤◌, ◌≡◌, refl, inl, inr, ◌≢◌, ◌↔◌, ap, sym, ◌∙◌,
  arith,
}
use my_sql_backup.Base.Int.{ℤ, pos, negsuc, pos_part, ◌+ℤ◌}
use my_sql_backup.Calendar.{
  Time, days_in, days_before_year, days_before_month, midnight, year_of, month_of, day_of,
  normalize, add_date,
}
use my_sql_backup.Calendar.Days.{
  civil, midnight_parts, days_before_year-suc, days_before_month-suc, twelve_months, days_in_bounds,
}
use my_sql_backup.Base.Tests.{ltb, Bool-cases, if◌then◌else◌}

pub normalize-days :
    (y m : ℕ) (d : ℤ)
    → (1 ≤ m) × (m ≤ 12)
    → normalize (pos (y * 12 + (m - 1))) d
      ≡ pos_part (pos (days_before_year y + days_before_month y (m - 1)) +ℤ d)
unfolding normalize
normalize-days y m d h = rw (same_year, same_month)
  where
    same_year : (y * 12 + (m - 1)) / 12 ≡ y
    same_year = omega arith

    same_month : (y * 12 + (m - 1)) % 12 ≡ m - 1
    same_month = omega arith

pos-+ℤ-zero : (n : ℕ) → pos n +ℤ pos 0 ≡ pos n
unfolding ◌+ℤ◌
pos-+ℤ-zero n = ground arith

+ℤ-pos_part : (a b : ℕ) (k : ℤ) → pos_part (pos a +ℤ (pos b +ℤ k)) ≡ pos_part (pos (a + b) +ℤ k)
unfolding ◌+ℤ◌
+ℤ-pos_part a b k = ground arith

-- Moving by days alone is adding to the day's number.
pub add_date-days : (t : Time) (k : ℤ) → add_date t (pos 0) k ≡ pos_part (pos t +ℤ k)
unfolding add_date midnight
add_date-days t k =
    rw (pos-+ℤ-zero, normalize-days (year_of t) (month_of t) _ (civil t).month_in, +ℤ-pos_part)
      (ap (λ n. pos_part (pos n +ℤ k)) (civil t).spelled)

days_before_month-zero : (y : ℕ) → days_before_month y 0 ≡ 0
unfolding days_before_month
days_before_month-zero y = refl

-- The day after a day of a month: one more day, or the first of the next month or year.
pub midnight-suc :
    (y m d : ℕ)
    → (1 ≤ m) × (m ≤ 12)
    → (1 ≤ d) × (d ≤ days_in y m)
    → suc (midnight y m d) ≡ (
        if ltb d (days_in y m)
        then midnight y m (suc d)
        else if ltb m 12
        then midnight y (suc m) 1
        else midnight (suc y) 1 1)
unfolding midnight days_before_month
midnight-suc y zero d hm hd = absurd (omega arith)
midnight-suc y (suc k) d hm hd = ground (
  arith,
  days_before_month-suc y k,
  days_before_year-suc y,
  twelve_months y,
  year_end,
  ap (days_before_month y) drop_one,
  days_before_month-zero (suc y),
)
  where
    drop_one : suc k - 1 ≡ k
    drop_one = omega arith

    year_end : ¬ (k < 11) → days_before_month y k + days_in y (suc k) ≡ days_before_month y 12
    year_end h = let e : k ≡ 11 = omega arith in rw e

month_of-midnight-suc :
    (y m d : ℕ)
    → (1 ≤ m) × (m ≤ 12)
    → (1 ≤ d) × (d ≤ days_in y m)
    → month_of (suc (midnight y m d))
      ≡ (if ltb d (days_in y m) then m else if ltb m 12 then suc m else 1)
month_of-midnight-suc y m d hm hd = rw (midnight-suc y m d hm hd) (
    ground (
      arith,
      midnight_parts y m (suc d) hm,
      midnight_parts y (suc m) 1,
      midnight_parts (suc y) 1 1,
      days_in_bounds y (suc m),
      days_in_bounds (suc y) 1,
    ))

-- The month of the next day.
pub month_of-suc :
    (t : Time)
    → month_of (suc t) ≡ (
        if ltb (day_of t) (days_in (year_of t) (month_of t))
        then month_of t
        else if ltb (month_of t) 12
        then suc (month_of t)
        else 1)
month_of-suc t =
    ap (λ n. month_of (suc n)) (sym (civil t).spelled)
    ∙ month_of-midnight-suc (year_of t) (month_of t) (day_of t) (civil t).month_in (civil t).day_in

-- A day is the last of its month exactly when the next day lies in another month.
pub last_day_iff :
    (t : Time) → (month_of (suc t) ≢ month_of t) ↔ (day_of t ≡ days_in (year_of t) (month_of t))
last_day_iff t = ground (
  arith,
  month_of-suc t,
  (civil t).day_in.0,
  (civil t).day_in.1,
  (civil t).month_in.0,
  (civil t).month_in.1,
)

normalize-first :
    (y m : ℕ) → (1 ≤ m) × (m ≤ 12) → normalize (pos (y * 12 + (m - 1))) (pos 0) ≡ midnight y m 1
unfolding midnight
normalize-first y m hm = rw (normalize-days y m (pos 0) hm, pos-+ℤ-zero) (omega arith)

pos-+ℤ-pos : (a b : ℕ) → pos a +ℤ pos b ≡ pos (a + b)
unfolding ◌+ℤ◌
pos-+ℤ-pos a b = ground arith

first_of_next :
    (y m : ℕ)
    → (1 ≤ m) × (m ≤ 12)
    → normalize (pos (y * 12 + (m - 1) + 1)) (pos 0) ≡ suc (midnight y m (days_in y m))
first_of_next y m hm = elim (Bool-cases (ltb m 12)) [
  | inl within ↦
      let e : y * 12 + (m - 1) + 1 ≡ y * 12 + (suc m - 1) = omega arith in
      rw (e, normalize-first y (suc m) (ground arith))
        (ground (arith, midnight-suc y m (days_in y m) hm, days_in_bounds y m))
  | inr over ↦
      let e : y * 12 + (m - 1) + 1 ≡ suc y * 12 + (1 - 1) = ground arith in
      rw (e, normalize-first (suc y) 1 (omega arith))
        (ground (arith, midnight-suc y m (days_in y m) hm, days_in_bounds y m))
]

-- `time.Date(y, m, 1).AddDate(0, 1, 0)` is the day after the last day of the month.
pub add_date-next_month :
    (y m : ℕ)
    → (1 ≤ m) × (m ≤ 12)
    → add_date (midnight y m 1) (pos 1) (pos 0) ≡ suc (midnight y m (days_in y m))
unfolding add_date
add_date-next_month y m hm =
    let parts = midnight_parts y m 1 hm (ground (arith, days_in_bounds y m)) in
    rw (parts.0, parts.1, parts.2, pos-+ℤ-pos, pos-+ℤ-pos) (first_of_next y m hm)

suc-+ℤ-negsuc : (n : ℕ) → pos_part (pos (suc n) +ℤ negsuc 0) ≡ n
unfolding ◌+ℤ◌
suc-+ℤ-negsuc n = ground arith

-- `time.Date(y, m, 1).AddDate(0, 1, 0).AddDate(0, 0, -1)` is the last day of the month.
pub month_end_lem :
    (y m : ℕ)
    → (1 ≤ m) × (m ≤ 12)
    → add_date (add_date (midnight y m 1) (pos 1) (pos 0)) (pos 0) (negsuc 0)
      ≡ midnight y m (days_in y m)
month_end_lem y m hm = rw (add_date-next_month y m hm, add_date-days) (suc-+ℤ-negsuc _)
