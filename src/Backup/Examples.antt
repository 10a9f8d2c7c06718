-- ===== src/Backup/Examples.antt =====
-- Runs of internal/backup/backup.go, and the theorems at concrete data.
use my_sql_backup.Base.{ℕ, ◌≡◌, refl, Bool, true, false, none, some, List, [], ◌∷◌, ◌++◌}
use my_sql_backup.Base.Tests.{if◌then◌else◌}
use my_sql_backup.Base.Texts.{
  Text, codes, text_eq, contains_byte, trim_suffix, has_suffix, has_prefix,
}
use my_sql_backup.Storage.{
  Content, archive, torn, other, Disk, System, refused, tick, stat, remove, rename, create, write,
  close_zip, attempt,
}
use my_sql_backup.Backup.{
  Dump, sav_of, restore_sav, discard, start_zip, safe_write_zip_streaming, finish, cancel,
  write_all, user_texts, backup_database, recover_pair, hostname_for_file, zip_name, run_backup,
}
use mathlib.Core.List.Permᴰ
use my_sql_backup.Retention.{not_exist}
use my_sql_backup.UserSql.{parse_user_records}
use my_sql_backup.UserSql.Render.{Orders}
use my_sql_backup.UserSql.Sections.{IsRunOrder}
use my_sql_backup.Base.Lists.{All}
use my_sql_backup.Backup.Places.{LiesIn}
use my_sql_backup.Backup.Whole.{HasRun, run_backup-HasRun}
use my_sql_backup.Backup.Kept.{Safe, Outcome, HasDumped, joined, backup_database-Outcome}
use my_sql_backup.Backup.Recovered.{recover_pair-Safe}

abbrev zip : Text
zip = codes "a.zip"

abbrev sav : Text
sav = codes "a.sav"

abbrev old : Content
old = archive (codes "a.sql") (codes "old")

abbrev disk : Disk
disk p = if text_eq p zip then some old else none

-- The calls that are refused, in order.
abbrev system : List Bool → System
system faults = record { disk = disk; faults = faults; log = [] }

abbrev dump : Dump
dump = record { output = codes "new"; succeeded = true }

-- Unfolded by name, this runs a round for a database.
running : Unit {0}
unfolding text_eq refused tick stat remove rename create write close_zip attempt restore_sav discard
    start_zip safe_write_zip_streaming finish cancel write_all backup_database recover_pair
running = tt

replaced :
    (backup_database zip sav (codes "a") [] dump (system [])).1.disk zip
    ≡ some (archive (codes "a.sql") (codes "new"))
unfolding running
replaced = refl

-- The system refuses to say whether there is an archive: it is cut before the dump begins, and a
-- failing dump leaves nothing under either name.
archive_lost :
    ((backup_database zip sav
          (codes "a")
          []
          (record { output = []; succeeded = false })
          (system (true ∷ []))).1.disk
        zip
      ≡ none)
    × ((backup_database zip sav
            (codes "a")
            []
            (record { output = []; succeeded = false })
            (system (true ∷ []))).1.disk
          sav
        ≡ none)
unfolding running
archive_lost = (refl, refl)

sav_named : sav_of (codes "a.zip") ≡ sav
unfolding sav_of trim_suffix has_suffix has_prefix
sav_named = refl

backup_database-Outcome_example :
    Outcome zip sav
      (codes "a" ++ codes ".sql")
      (dump.output ++ joined (user_texts (codes "U")))
      (some old)
      (backup_database zip sav (codes "a") (codes "U") dump (system (false ∷ false ∷ true ∷ [])))
    × HasDumped dump
        (backup_database zip sav
          (codes "a")
          (codes "U")
          dump
          (system (false ∷ false ∷ true ∷ []))).0
unfolding text_eq
backup_database-Outcome_example =
    backup_database-Outcome zip sav refl refl (codes "a") (codes "U") dump
      (system (false ∷ false ∷ true ∷ [])) (unfold refused in refl)

-- A ZIP that was given up half-way and the archive that it should have replaced.
abbrev size_of : Content → ℕ
size_of (archive entry body) = 9
size_of (torn entry body) = 5
size_of (other n) = n

abbrev torn_zip : Content
torn_zip = torn (codes "a.sql") (codes "n")

abbrev pair : System
pair = record {
  disk = λ p. if text_eq p zip then some torn_zip else if text_eq p sav then some old else none;
  faults = false ∷ false ∷ false ∷ true ∷ [];
  log = [];
}

recover_pair-Safe_example : Safe zip sav (some old) (recover_pair size_of zip sav pair)
unfolding text_eq
recover_pair-Safe_example = recover_pair-Safe zip sav refl refl size_of torn_zip old pair refl refl

abbrev users_sql : Text
users_sql = codes "GRANT ALL ON `a`.* TO 'u'@'%';\n"

abbrev as_given : Orders
as_given = record { users = λ us. us; names = λ us. us; dbs = λ name ks. ks }

abbrev given_order : IsRunOrder as_given (parse_user_records users_sql).users
given_order = record {
  users_perm = Permᴰ.refl (parse_user_records users_sql).users;
  dbs_order = λ name ks d. (λ k. refl, d);
}

run_backup-HasRun_example :
    HasRun size_of 738000
      (codes "h")
      (λ db. dump)
      as_given
      users_sql
      true
      not_exist
      (codes "a" ∷ codes "b" ∷ [])
      (system (false ∷ true ∷ []))
      (run_backup size_of 738000
        (codes "h")
        (λ db. dump)
        as_given
        users_sql
        true
        not_exist
        (codes "a" ∷ codes "b" ∷ [])
        (system (false ∷ true ∷ [])))
    × All
        (λ db. LiesIn (codes "/b") (zip_name 738000 (hostname_for_file (codes "h")) db))
        (codes "a" ∷ codes "b" ∷ [])
run_backup-HasRun_example =
    run_backup-HasRun size_of 738000 (codes "h") (λ db. dump) as_given users_sql (codes "/b") true
      not_exist (codes "a" ∷ codes "b" ∷ []) (system (false ∷ true ∷ [])) refl given_order
      ((unfold text_eq in refl), (refl, tt)) (unfold contains_byte in (refl, (refl, tt)))
