-- ===== src/Restore/Examples.antt =====
-- Runs of internal/restore/restore.go, and the theorem at concrete data.
use my_sql_backup.Base.{◌≡◌, refl, true, false, some, [], ◌∷◌}
use my_sql_backup.Base.Tests.{if◌then◌else◌}
use my_sql_backup.Base.Texts.{Text, codes, text_eq, to_upper}
use my_sql_backup.Base.Results.{ok}
use my_sql_backup.Restore.{
  ReinitConfig, Steps, PathKind, a_dir, missing, unopened, whole, accepted, Sources, sql_entry,
  restore_zip, restore_zips, restore_from_zips, full_reinit,
}
use my_sql_backup.Restore.Moves.{Moved, full_reinit-Moved}
use my_sql_backup.Retention.{BackupFile, ext}

abbrev config : ReinitConfig
config = record {
  my_sql_data_dir = codes "/m/data";
  my_sql_backup_dir = codes "/m/tpl";
  my_sql_stop_cmd = [];
  my_sql_start_cmd = [];
}

abbrev kind_of : Text → PathKind
kind_of p = if text_eq p (codes "/m/data.old") then missing else a_dir

abbrev steps : Steps
steps = record {
  kind = kind_of;
  port_reachable = false;
  stop_cmd = true;
  port_closes = true;
  rename = true;
  copy = true;
  start_cmd = true;
  port_opens = true;
}

full_reinit-Moved_example : Moved config steps (full_reinit config steps)
full_reinit-Moved_example = full_reinit-Moved config steps

abbrev sources : Sources
sources = record {
  open_zip = λ path. some (
      record { name = codes "x.txt"; body = unopened }
      ∷ record { name = codes "db.SQL"; body = whole path }
      ∷ []);
  import_sql = λ t. true;
}

abbrev file : Text → BackupFile
file path = record { path = path; date = 0; mod_time = 0; size = 0 }

two_imported :
    restore_from_zips sources (file (codes "a") ∷ file (codes "b") ∷ [])
    ≡ (ok tt, accepted (codes "a") ∷ accepted (codes "b") ∷ [])
unfolding restore_from_zips restore_zips restore_zip sql_entry ext to_upper text_eq
two_imported = refl
