-- ===== src/Backup/Whole.antt =====
-- backup.go and usersql.go: what a whole run archives.
use my_sql_backup.Base.{ℕ, ◌≡◌, refl, Bool, true, false, List, []}
use mathlib.Core.Path.{fun_ext}
use my_sql_backup.Base.Lists.{All, All-map, is_empty}
use my_sql_backup.Base.Texts.{Text, codes}
use my_sql_backup.Base.Keys.{Distinct}
use my_sql_backup.Base.Results.{message, Result, err}
use my_sql_backup.Calendar.{Time}
use my_sql_backup.Storage.{Content, System}
use my_sql_backup.Retention.{ReadDir}
use my_sql_backup.UserSql.{parse_user_records}
use my_sql_backup.UserSql.Render.{Orders, parse_user_sql}
use my_sql_backup.UserSql.Sections.{section_of, IsRunOrder, parse_user_sql-section_of}
use my_sql_backup.Backup.{
  Dump, hostname_for_file, recover_sav_files, say_users, user_sql_for, zip_name, run_backup,
}
use my_sql_backup.Backup.Places.{IsFileName, LiesIn, zip_name-LiesIn}
use my_sql_backup.Backup.Archived.{AreArchived, backup_all-AreArchived}

module _ (size : Content → ℕ) (today : Time) (host : Text) (dump : Text → Dump) (o : Orders)
    (sql : Text) where
  -- The statements of the users for a database.
  abbrev pub sections : Text → Text
  sections db = section_of db (o.users (parse_user_records sql).users) []

  -- All databases are archived, each with the sections of its users, or those before the one whose
  -- round failed; nothing is done without the directory.
  abbrev pub HasRun :
      (made : Bool) (entries : ReadDir) → List Text → System → Result (List Text) × System → Type 0
  HasRun true entries dbs s r =
      AreArchived today (hostname_for_file host) sections dump dbs
        (say_users (parse_user_sql o sql) (recover_sav_files size entries s)) r
  HasRun false entries dbs s r = r ≡ (err (message (codes "err.create_backup_dir") []), s)

  sections_used :
      is_empty sql ≡ false
      → IsRunOrder o (parse_user_records sql).users
      → user_sql_for (parse_user_sql o sql) ≡ sections
  unfolding user_sql_for
  sections_used n i = fun_ext (λ db. parse_user_sql-section_of o sql db n i)

  archived :
      (made : Bool) (entries : ReadDir) (dbs : List Text) (s : System)
      → is_empty sql ≡ false
      → IsRunOrder o (parse_user_records sql).users
      → Distinct dbs
      → HasRun made entries dbs s (run_backup size today host dump o sql made entries dbs s)
  unfolding run_backup
  archived false entries dbs s n i d = refl
  archived true entries dbs s n i d = rw (sections_used n i) (
      backup_all-AreArchived today (hostname_for_file host) sections dump dbs
        (say_users (parse_user_sql o sql) (recover_sav_files size entries s)) d)

  -- If the export of the users is not empty and the databases have different names without `/`,
  -- then a run whose directory could be made ends with the complete archive of each database under
  -- the name that it reports, with a dump that succeeded and the sections of its users; or with the
  -- error of a round, before which all rounds succeeded, and with their archives. It is so whatever
  -- calls the system refuses and in whatever order the maps are read; and the names are those of
  -- files in the directory of the backups.
  pub run_backup-HasRun :
      (dir : Text) (made : Bool) (entries : ReadDir) (dbs : List Text) (s : System)
      → is_empty sql ≡ false
      → IsRunOrder o (parse_user_records sql).users
      → Distinct dbs
      → All IsFileName dbs
      → HasRun made entries dbs s (run_backup size today host dump o sql made entries dbs s)
        × All (λ db. LiesIn dir (zip_name today (hostname_for_file host) db)) dbs
  run_backup-HasRun dir made entries dbs s n i d p = (
    archived made entries dbs s n i d,
    All-map IsFileName (λ db. LiesIn dir (zip_name today (hostname_for_file host) db)) dbs
        (λ db h. zip_name-LiesIn dir today host db h) p,
  )
