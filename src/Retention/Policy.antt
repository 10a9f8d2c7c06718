-- ===== src/Retention/Policy.antt =====
-- The retention policy as `Apply` carries it out, said without its loops.
use my_sql_backup.Base.{
  ℕ, ◌+◌, ◌*◌, ◌≤◌, ◌<◌, ◌≡◌, refl, sym, ap, ◌∙◌, ◌↔◌, ◌⊎◌, Bool, true, false, not, ◌||◌, [], ◌∷◌,
  arith,
}
use my_sql_backup.Base.Tests.{ltb}
use my_sql_backup.Base.Texts.{Text}
use my_sql_backup.Base.Int.{pos, negsuc, pos_part, neg_ℤ}
use my_sql_backup.Calendar.{
  Time, midnight, days_in, year_of, month_of, day_of, weekday_of, add_date, before,
}
use my_sql_backup.Calendar.Months.{month_index, days_in_last, month_back_stays}
use my_sql_backup.Retention.{date_key}
use my_sql_backup.Retention.Apply.{
  Windows, last_sunday, sunday_keys, month_end, month_keys, year_keys, mem, retained,
}
use my_sql_backup.Retention.Window.{
  cutoff, y2k, year_from_y2k, last_sunday-IsLastSunday, sunday_keys_iff, december_1999,
  month_keys_iff, month_end-eq, year_keys_iff,
}

-- The days that each count keeps.
abbrev pub InDaily : ℕ → Time → Time → Type 0
InDaily n today d = today ≤ d + n

-- A Sunday from the last one on, so that every one but the first lies after `today`.
abbrev pub InWeekly : ℕ → Time → Time → Type 0
InWeekly n today d = (weekday_of d ≡ 0) × (last_sunday today ≤ d) × (d < last_sunday today + 7 * n)

-- The last day of this month or of one of the `n - 1` months before.
abbrev pub InMonthly : ℕ → Time → Time → Type 0
InMonthly n today d =
    (day_of d ≡ days_in (year_of d) (month_of d))
    × (december_1999 ≤ month_index d)
    × (month_index d ≤ month_index today)
    × (month_index today < month_index d + n)

-- The last day of this year or of one of the `n - 1` years before.
abbrev pub InYearly : ℕ → Time → Time → Type 0
InYearly n today d =
    (month_of d ≡ 12)
    × (day_of d ≡ 31)
    × (2000 ≤ year_of d)
    × (year_of d ≤ year_of today)
    × (year_of today < year_of d + n)

abbrev pub windows : ℕ → ℕ → ℕ → ℕ → Windows
windows n w m y = record { daily = pos n; weekly = pos w; monthly = pos m; yearly = pos y }

weekly_iff :
    (w : ℕ) (today d : Time)
    → y2k + 7 ≤ today
    → (mem (date_key d) (sunday_keys w 0 (last_sunday today)) ≡ true) ↔ InWeekly w today d
unfolding weekday_of
weekly_iff w today d h =
    let s = last_sunday-IsLastSunday today (omega arith) in
    let keys = sunday_keys_iff w 0 (last_sunday today) d (omega (arith, s.within_week)) in
    ground (arith, s.sunday, s.not_later, keys)

recent : (today : Time) → y2k + 7 ≤ today → december_1999 ≤ month_index today
recent today h = omega (arith, year_from_y2k today (omega arith))

-- In the first 28 days of a month, from the eighth day of 2000 on, a backup is retained exactly if
-- its day lies in one of the four windows.
pub retained_iff :
    (n w m y : ℕ) (today d : Time)
    → y2k + 7 ≤ today
    → day_of today ≤ 28
    → (retained (windows n w m y) today d ≡ true)
      ↔ (InDaily n today d ⊎ InWeekly w today d ⊎ InMonthly m today d ⊎ InYearly y today d)
unfolding retained
retained_iff n w m y today d h k = ground (
  arith,
  cutoff today n,
  weekly_iff w today d h,
  month_keys_iff m today d k (recent today h),
  year_keys_iff y (year_of today) d,
)

or_covered : (a b c e : Bool) → (b ≡ true → a ≡ true) → (a || b || c || e) ≡ (a || false || c || e)
or_covered true b c e h = refl
or_covered false true c e h = ground (arith, h refl)
or_covered false false c e h = refl

-- From the eighth day of 2000 on, if the daily count is not negative, the weekly count keeps
-- nothing before the last Sunday, and nothing at all beside a daily count of six or more: on such
-- days `Apply` decides as with no weekly backups.
pub retained-weekly :
    (w : Windows) (n : ℕ) (today d : Time)
    → y2k + 7 ≤ today
    → w.daily ≡ pos n
    → (d < last_sunday today) ⊎ (6 ≤ n)
    → retained w today d ≡ retained (record w { weekly = pos 0 }) today d
unfolding retained sunday_keys
retained-weekly w n today d h daily late =
    or_covered (not (before d (add_date today (pos 0) (neg_ℤ w.daily))))
      (mem (date_key d) (sunday_keys (pos_part w.weekly) 0 (last_sunday today)))
      (mem (date_key d) (month_keys (pos_part w.monthly) today))
      (mem (date_key d) (year_keys (pos_part w.yearly) (year_of today)))
      λ i.
        rw (daily, cutoff today n)
          (let s = last_sunday-IsLastSunday today (omega arith) in
            ground (arith, (weekly_iff (pos_part w.weekly) today d h).0 i, s.within_week))

month_end-month_back :
    (today : Time)
    → 1 ≤ month_index today
    → days_in_last today < day_of today
    → month_end (add_date today (negsuc 0) (pos 0)) ≡ month_end today
month_end-month_back today h over =
    let (y, m) = month_back_stays today h over in
    month_end-eq _ ∙ (λ i. midnight (y i) (m i) (days_in (y i) (m i))) ∙ sym (month_end-eq today)

twice :
    (b c : Bool) (k x y : Text)
    → x ≡ y
    → mem k (elim b [ true ↦ y ∷ [] | false ↦ y ∷ (elim c [ true ↦ x ∷ [] | false ↦ x ∷ [] ]) ])
      ≡ mem k (elim b [ true ↦ y ∷ [] | false ↦ y ∷ [] ])
twice true c k x y e = refl
twice false true k x y e = rw e (ground arith)
twice false false k x y e = rw e (ground arith)

-- Where the month before has fewer days than today's date, after January of the year 0, two monthly
-- backups are kept like one: the same days are retained, whatever the other counts are.
pub retained-two_months :
    (w : Windows) (today d : Time)
    → 1 ≤ month_index today
    → days_in_last today < day_of today
    → retained (record w { monthly = pos 2 }) today d
      ≡ retained (record w { monthly = pos 1 }) today d
unfolding retained month_keys
retained-two_months w today d h over =
    ap
      (λ b.
        not (before d (add_date today (pos 0) (neg_ℤ w.daily)))
        || mem (date_key d) (sunday_keys (pos_part w.weekly) 0 (last_sunday today))
        || b
        || mem (date_key d) (year_keys (pos_part w.yearly) (year_of today)))
      (twice (ltb (year_of (month_end today)) 2000)
        (ltb (year_of (month_end (add_date today (negsuc 0) (pos 0)))) 2000) (date_key d)
        (date_key (month_end (add_date today (negsuc 0) (pos 0)))) (date_key (month_end today))
        (ap date_key (month_end-month_back today h over)))
