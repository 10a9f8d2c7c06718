-- ===== src/Main/Examples.antt =====
-- Runs of main.go, and the theorems at concrete data.
use my_sql_backup.Base.{◌≤◌, ◌≡◌, refl, ◌↔◌, ◌⊎◌, true, false, some, List, [], ◌∷◌, arith}
use my_sql_backup.Base.Lists.{length}
use my_sql_backup.Base.Texts.{Text, codes, text_eq, contains, trim_space, trim_left}
use my_sql_backup.Base.Decimal.{decimal}
use my_sql_backup.Base.Sorting.{insertion_sort}
use my_sql_backup.Base.Results.{err, message}
use my_sql_backup.Base.Tests.{if◌then◌else◌}
use my_sql_backup.Retention.{ByDate, date_of, BackupFile, DirEntry, listed}
use my_sql_backup.Restore.{whole, Sources, ReinitConfig, Steps, a_dir, missing, restore_from_zips}
use my_sql_backup.Restore.Imports.{Outcome, restore_from_zips-Outcome}
use my_sql_backup.Remote
use my_sql_backup.Main
use my_sql_backup.Main.{
  Flags, run_restore, Choice, act, flag_count, switch_action, choose_counted, choose, tenths,
  format_unit, format_size, restore,
}
use my_sql_backup.Main.Choices.{IsAsked, HasDay, choose_iff}
use my_sql_backup.Main.Names.{valid_getfile_pattern_iff}
use my_sql_backup.Main.Sizes.{length-format_size}
use my_sql_backup.Main.Restores.{HasRestored, HasRefused, restore-HasRestored}

-- `-restorefull 20260131`
abbrev full_with_day : Flags
full_with_day = record {
  do_init = false;
  do_clean_config = false;
  do_remove = false;
  do_status = false;
  do_backup = false;
  do_restore = false;
  do_restore_full = true;
  get_file = [];
  args = codes " 20260131" ∷ [];
}

full_chosen : choose full_with_day ≡ act (run_restore (codes "20260131") true)
unfolding choose choose_counted switch_action trim_space trim_left
full_chosen = refl

sizes :
    (format_size 1023 ≡ codes "1023")
    × (format_size 1536 ≡ codes "1.5K")
    × (format_size 10239 ≡ codes "10.0K")
    × (format_size 52428800 ≡ codes "50M")
    × (format_size 1073741824 ≡ codes "1.0T")
unfolding format_size format_unit tenths decimal
sizes = (refl, refl, refl, refl, refl)

choose_iff_example : (choose full_with_day ≡ act (run_restore (codes "20260131") true)) ↔ (
    (flag_count full_with_day ≡ 1)
    × IsAsked full_with_day (run_restore (codes "20260131") true)
    × HasDay full_with_day.args (run_restore (codes "20260131") true))
choose_iff_example = choose_iff full_with_day (run_restore (codes "20260131") true)

valid_getfile_pattern_iff_example : (Remote.valid_getfile_pattern (codes "a..zip") ≡ true) ↔ (
    (Main.valid_getfile_pattern (codes "a..zip") ≡ true)
    × (contains (codes "a..zip") (codes "..") ≡ false))
valid_getfile_pattern_iff_example = valid_getfile_pattern_iff (codes "a..zip")

length-format_size_example : length (format_size 5000000) ≤ 5
length-format_size_example = length-format_size 5000000 (omega arith)

abbrev by_date : ByDate
by_date = insertion_sort date_of

abbrev config : ReinitConfig
config = record {
  my_sql_data_dir = codes "/m/data";
  my_sql_backup_dir = codes "/m/tpl";
  my_sql_stop_cmd = [];
  my_sql_start_cmd = codes "start";
}

abbrev steps : Steps
steps = record {
  kind = λ p. if text_eq p (codes "/m/data.old") then missing else a_dir;
  port_reachable = false;
  stop_cmd = true;
  port_closes = true;
  rename = true;
  copy = true;
  start_cmd = true;
  port_opens = true;
}

abbrev sources : (password : Text) → Sources
sources password = record {
  open_zip = λ path. some (record { name = codes "db.sql"; body = whole path } ∷ []);
  import_sql = λ t. true;
}

abbrev entry : Text → DirEntry
entry name = record { name = name; is_dir = false; stat = some (record { mod_time = 0; size = 7 }) }

abbrev dir : List DirEntry
dir =
    entry (codes "mysql_backup_20260130_h_a.zip")
    ∷ entry (codes "mysql_backup_20260131_h_a.zip")
    ∷ []

restore-HasRestored_example :
    HasRestored by_date sources config steps
      (codes "pw")
      (codes "20260131")
      true
      (listed dir)
      (restore by_date sources config steps (codes "pw") (codes "20260131") true (listed dir))
    ⊎ HasRefused by_date sources config steps
        (codes "pw")
        true
        (restore by_date sources config steps (codes "pw") (codes "20260131") true (listed dir))
restore-HasRestored_example =
    restore-HasRestored by_date sources config steps (codes "pw") (codes "20260131") true
      (listed dir)

abbrev file : Text → BackupFile
file path = record { path = path; date = 0; mod_time = 0; size = 0 }

restore_from_zips-Outcome_example :
    (restore_from_zips (sources []) [] ≡ (err (message (codes "err.restore_no_backups") []), []))
    × Outcome
        (sources [])
        (file (codes "a") ∷ file (codes "b") ∷ [])
        []
        (restore_from_zips (sources []) (file (codes "a") ∷ file (codes "b") ∷ []))
restore_from_zips-Outcome_example =
    restore_from_zips-Outcome (sources []) (file (codes "a")) (file (codes "b") ∷ [])
