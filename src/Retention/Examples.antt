-- ===== src/Retention/Examples.antt =====
-- Runs of internal/retention/retention.go, after its tests in retention_test.go, and the theorems
-- at concrete data.
use my_sql_backup.Base.{
  ◌≡◌, refl, ◌↔◌, ◌⊎◌, inr, true, false, not, none, some, List, [], ◌∷◌, arith,
}
use my_sql_backup.Base.Lists.{keep}
use my_sql_backup.Base.Texts.{codes, text_eq}
use my_sql_backup.Base.Results.{ok}
use my_sql_backup.Base.Sorting.{insertion_sort}
use my_sql_backup.Calendar.{Time, running}
use my_sql_backup.I18n.{translate}
use my_sql_backup.Base.Decimal.{four_digits}
use Prim.Native.String.{String}
use my_sql_backup.Regexp.{match_string, find_submatch, submatch}
use mathlib.Core.List.{flat_map}
use my_sql_backup.Retention.{
  DirEntry, listed, BackupFile, ByDate, classify, dated_name, collect, date_key, entry_backup,
  list_backups, select_day, target_of, last_backup_before, date_of,
}
use my_sql_backup.Retention.Apply.{
  Setting, Swept, month_end, retained, apply, last_sunday, sunday_back, sunday_keys, month_keys,
  year_keys, sweep, visit, dispose,
}
use my_sql_backup.Retention.Sweep.{doomed_entry, apply-entries}
use my_sql_backup.Retention.Policy.{
  InDaily, InWeekly, InMonthly, InYearly, windows, retained_iff, retained-weekly,
  retained-two_months,
}
use my_sql_backup.Retention.Select.{IsLatestDay, last_backup_before-IsLatestDay}

-- 2025-02-12, a Wednesday; 2025-01-31; 2025-03-31; 2025-02-28; 2025-01-12, a Sunday; 2024-12-31
abbrev today : Time
today = 739659

abbrev end_of_january : Time
end_of_january = 739647

abbrev end_of_march : Time
end_of_march = 739706

abbrev end_of_february : Time
end_of_february = 739675

abbrev old_sunday : Time
old_sunday = 739628

abbrev new_years_eve : Time
new_years_eve = 739616

days_spelled :
    (date_key today ≡ codes "20250212")
    × (date_key end_of_january ≡ codes "20250131")
    × (date_key end_of_march ≡ codes "20250331")
    × (date_key old_sunday ≡ codes "20250112")
    × (date_key new_years_eve ≡ codes "20241231")
unfolding date_key running four_digits
days_spelled = (refl, refl, refl, refl, refl)

-- `TestClassify`, with the keys for the messages.
classified :
    (classify [] new_years_eve ≡ codes "retention.yearly")
    × (classify [] end_of_january ≡ codes "retention.monthly")
    × (classify [] old_sunday ≡ codes "retention.weekly")
    × (classify [] today ≡ codes "retention.daily")
unfolding classify translate running
classified = (refl, refl, refl, refl)

abbrev entry : String → DirEntry
entry s = record { name = codes s; is_dir = false; stat = none }

abbrev dir : List DirEntry
dir =
    entry "mysql_backup_20250112_h_db1.zip"
    ∷ entry "mysql_backup_20250131_h_db1.zip"
    ∷ entry "mysql_backup_20250212_h_db1.zip"
    ∷ entry "mysql_backup_20250212_h_db2.zip"
    ∷ entry "notes.txt"
    ∷ []

abbrev by_date : ByDate
by_date = insertion_sort date_of

-- Unfolded by name, this runs `ListBackups`.
listing : Unit {0}
unfolding running collect entry_backup dated_name match_string find_submatch text_eq list_backups
    insertion_sort date_key four_digits flat_map submatch
listing = tt

dated :
    (dated_name (codes "mysql_backup_20250131_h_db.zip") ≡ some end_of_january)
    × (dated_name (codes "mysql_backup_20250231_h_db.zip") ≡ none)
    × (dated_name (codes "other.zip") ≡ none)
unfolding listing
dated = (refl, refl, refl)

abbrev setting : Setting
setting = record { today = today; messages = []; locked = λ name. false }

-- Unfolded by name, this runs `Apply`.
applying : Unit {0}
unfolding listing retained last_sunday sunday_back sunday_keys month_keys month_end year_keys apply
    sweep visit dispose
applying = tt

-- Three weekly backups are asked for, and the Sunday a month ago goes.
old_sunday_goes :
    keep (λ e. not (doomed_entry setting (windows 14 3 3 3) e)) dir
    ≡ entry "mysql_backup_20250131_h_db1.zip"
      ∷ entry "mysql_backup_20250212_h_db1.zip"
      ∷ entry "mysql_backup_20250212_h_db2.zip"
      ∷ entry "notes.txt"
      ∷ []
unfolding applying
old_sunday_goes = refl

latest_selected :
    last_backup_before by_date (listed dir) (some today)
    ≡ ok (
        record {
          path = codes "mysql_backup_20250131_h_db1.zip";
          date = end_of_january;
          mod_time = 0;
          size = 0;
        }
        ∷ [])
unfolding listing last_backup_before select_day target_of
latest_selected = refl

apply-entries_example :
    (r : Swept) × (apply by_date setting (windows 14 3 3 3) (listed dir) ≡ ok r)
    × (r.entries ≡ keep (λ e. not (doomed_entry setting (windows 14 3 3 3) e)) dir)
unfolding text_eq
apply-entries_example = apply-entries by_date setting (windows 14 3 3 3) dir (
  (refl, (refl, (refl, (refl, tt)))),
  ((refl, (refl, (refl, tt))), ((refl, (refl, tt)), ((refl, tt), (tt, tt)))),
)

retained_iff_example : (retained (windows 14 3 3 3) today old_sunday ≡ true) ↔ (
    InDaily 14 today old_sunday
    ⊎ InWeekly 3 today old_sunday
    ⊎ InMonthly 3 today old_sunday
    ⊎ InYearly 3 today old_sunday)
retained_iff_example =
    retained_iff 14 3 3 3 today old_sunday (omega arith) (unfold running in omega arith)

retained-weekly_example :
    retained (windows 14 3 3 3) today old_sunday ≡ retained (windows 14 0 3 3) today old_sunday
retained-weekly_example =
    retained-weekly (windows 14 3 3 3) 14 today old_sunday (omega arith) refl (inr (omega arith))

retained-two_months_example :
    retained (windows 0 0 2 0) end_of_march end_of_february
    ≡ retained (windows 0 0 1 0) end_of_march end_of_february
retained-two_months_example =
    retained-two_months (windows 0 0 1 0) end_of_march end_of_february
      (unfold running in omega arith) (unfold running in omega arith)

last_backup_before-IsLatestDay_example :
    (r : List BackupFile) × (last_backup_before by_date (listed dir) (some today) ≡ ok r)
    × IsLatestDay (some today) (collect dir) (by_date.sort (collect dir)) r
last_backup_before-IsLatestDay_example = last_backup_before-IsLatestDay by_date (some today) dir
