-- ===== src/Retention/Keys.antt =====
-- A day's key spells the day, so that two days with one key are one day.
use my_sql_backup.Base.{ℕ, ◌+◌, ◌*◌, ◌≤◌, ◌≡◌, sym, ap, ◌∙◌, ◌↔◌, true, ◌++◌, arith}
use my_sql_backup.Base.Texts.{text_eq, text_eq_iff}
use my_sql_backup.Base.Decimal.{
  value, value_from-append, four_digits, two_digits, value-four_digits,
}
use my_sql_backup.Calendar.{Time, midnight, year_of, month_of, day_of}
use my_sql_backup.Calendar.Days.{civil, days_in_bounds}
use my_sql_backup.Retention.{date_key}

pub value-date_key :
    (t : Time) → value (date_key t) ≡ year_of t * 10000 + month_of t * 100 + day_of t
unfolding date_key
value-date_key t =
    value_from-append 0 (four_digits (year_of t) ++ two_digits (month_of t)) (two_digits (day_of t))
    ∙ omega (
      arith,
      value_from-append 0 (four_digits (year_of t)) (two_digits (month_of t)),
      value-four_digits (year_of t),
      (civil t).month_in.1,
      (civil t).day_in.1,
      days_in_bounds (year_of t) (month_of t),
    )

parts_of_value :
    (y m d z n e : ℕ)
    → m ≤ 12
    → d ≤ 31
    → n ≤ 12
    → e ≤ 31
    → y * 10000 + m * 100 + d ≡ z * 10000 + n * 100 + e
    → (y ≡ z) × (m ≡ n) × (d ≡ e)
parts_of_value y m d z n e a b c f h = omega arith

pub date_key_inj : (t u : Time) → date_key t ≡ date_key u → t ≡ u
date_key_inj t u h =
    let (y, m, d) =
      parts_of_value (year_of t) (month_of t) (day_of t) (year_of u) (month_of u) (day_of u)
        (civil t).month_in.1 (short t) (civil u).month_in.1 (short u)
        (sym (value-date_key t) ∙ ap value h ∙ value-date_key u) in
    sym (civil t).spelled ∙ (λ i. midnight (y i) (m i) (d i)) ∙ (civil u).spelled
  where
    short : (v : Time) → day_of v ≤ 31
    short v = omega (arith, (civil v).day_in.1, days_in_bounds (year_of v) (month_of v))

pub date_key_iff : (t u : Time) → (text_eq (date_key t) (date_key u) ≡ true) ↔ (t ≡ u)
date_key_iff t u =
    (λ h. date_key_inj t u ((text_eq_iff _ _).0 h), λ e. (text_eq_iff _ _).1 (ap date_key e))
