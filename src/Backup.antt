-- ===== src/Backup.antt =====
-- internal/backup/backup.go: one archive for each database, written beside the one that it
-- replaces, and the recovery of what an earlier run left behind. Names stand for the paths in the
-- backup directory. What `mysqldump` prints is given, and so are the sizes of files.
pub mod Kept
pub mod Apart
pub mod Names
pub mod Archived
pub mod Places
pub mod Whole
pub mod Recovered
mod Examples
use my_sql_backup.Base.{
  ℕ, Bool, true, false, not, ◌&&◌, ◌||◌, Option, none, some, List, [], ◌∷◌, ◌++◌,
}
use my_sql_backup.Base.Tests.{leb, ◌==◌, if◌then◌else◌}
use my_sql_backup.Base.Lists.{is_empty}
use my_sql_backup.Base.Texts.{Text, codes, has_suffix, trim_suffix, is_digit}
use my_sql_backup.Base.Results.{Error, os_error, message, Result, ok, err, LogLine, info, warn}
use my_sql_backup.Base.Keys.{lookup}
use my_sql_backup.UserSql.Render.{UserSql, Orders, parse_user_sql, text_or_empty}
use my_sql_backup.Calendar.{Time}
use my_sql_backup.Storage.{
  Content, System, say, Stat, found, absent, stat_error, stat, remove, rename, create, write,
  close_zip, attempt,
}
use my_sql_backup.Retention.{DirEntry, ReadDir, listed, not_exist, failed, date_key}

-- A character of the class `[\w\-.]`.
abbrev pub is_host_char : ℕ → Bool
is_host_char c =
    is_digit c
    || (leb b'a' c && leb c b'z')
    || (leb b'A' c && leb c b'Z')
    || (c == b'_')
    || (c == b'-')
    || (c == b'.')

abbrev pub replace_others : Text → Text
replace_others [] = []
replace_others (c ∷ s) = (if is_host_char c then c else b'_') ∷ replace_others s

unfoldable pub hostname_for_file : Text → Text
hostname_for_file host = replace_others (if is_empty host then codes "localhost" else host)

-- `strings.TrimSuffix(zipPath, ".zip") + ".sav"`
unfoldable pub sav_of : Text → Text
sav_of zip = trim_suffix zip (codes ".zip") ++ codes ".sav"

-- `if _, e := os.Stat(savPath); e == nil { _ = os.Rename(savPath, zipPath) }`
abbrev pub restore_found : Stat → (zip sav : Text) → System → System
restore_found (found c) zip sav s = (rename sav zip s).1
restore_found absent zip sav s = s
restore_found stat_error zip sav s = s

unfoldable pub restore_sav : (zip sav : Text) → System → System
restore_sav zip sav s = restore_found (stat sav s).0 zip sav (stat sav s).1

-- `w.Close()`, `f.Close()` and `os.Remove(zipPath)`, whose errors are dropped.
unfoldable pub discard : (zip : Text) → System → System
discard zip s = (remove zip (attempt (close_zip zip s).1).1).1

-- `w.Create(entryName)` and what follows.
abbrev pub add_entry : Bool → (zip sav : Text) → System → Result (Unit {0}) × System
add_entry true zip sav s = (ok tt, s)
add_entry false zip sav s = (err os_error, restore_sav zip sav (discard zip s))

abbrev pub open_zip : Bool → (zip sav : Text) → System → Result (Unit {0}) × System
open_zip true zip sav s = add_entry (attempt s).0 zip sav (attempt s).1
open_zip false zip sav s = (err os_error, restore_sav zip sav s)

-- `safeWriteZIPStreaming` after an old archive has been moved away.
unfoldable pub start_zip : (zip sav entry : Text) → System → Result (Unit {0}) × System
start_zip zip sav entry s = open_zip (create zip entry s).0 zip sav (create zip entry s).1

abbrev pub start_moved : Bool → (zip sav entry : Text) → System → Result (Unit {0}) × System
start_moved true zip sav entry s = start_zip zip sav entry s
start_moved false zip sav entry s = (err (message (codes "err.rename_sav") []), s)

abbrev pub start_found : Stat → (zip sav entry : Text) → System → Result (Unit {0}) × System
start_found (found c) zip sav entry s =
    start_moved (rename zip sav s).0 zip sav entry (rename zip sav s).1
start_found absent zip sav entry s = start_zip zip sav entry s
start_found stat_error zip sav entry s = start_zip zip sav entry s

unfoldable pub safe_write_zip_streaming :
    (zip sav entry : Text) → System → Result (Unit {0}) × System
safe_write_zip_streaming zip sav entry s = start_found (stat zip s).0 zip sav entry (stat zip s).1

abbrev pub drop_sav : Bool → (sav : Text) → System → Bool × System
drop_sav true sav s = (true, (remove sav s).1)
drop_sav false sav s = (false, s)

-- The closure `finish`, from the answer of `w.Close()` on.
abbrev pub finish_file : Bool → (sav : Text) → System → Bool × System
finish_file true sav s = drop_sav (attempt s).0 sav (attempt s).1
finish_file false sav s = (false, s)

-- The closure `finish`.
unfoldable pub finish : (zip sav : Text) → System → Bool × System
finish zip sav s = finish_file (close_zip zip s).0 sav (close_zip zip s).1

abbrev pub warn_restored : Bool → (zip : Text) → System → System
warn_restored true zip s = say (warn (codes "log.warn.restored_sav") (zip ∷ [])) s
warn_restored false zip s = say (warn (codes "log.warn.restore_sav") []) s

abbrev pub cancel_found : Stat → (zip sav : Text) → System → System
cancel_found (found c) zip sav s = warn_restored (rename sav zip s).0 zip (rename sav zip s).1
cancel_found absent zip sav s = s
cancel_found stat_error zip sav s = s

-- The closure `cancel`.
unfoldable pub cancel : (zip sav : Text) → System → System
cancel zip sav s = let t = discard zip s in cancel_found (stat sav t).0 zip sav (stat sav t).1

abbrev pub write_next : Bool → System → Bool × System → Bool × System
write_next true s rest = rest
write_next false s rest = (false, s)

-- The writes to the entry, up to the first that fails.
unfoldable pub write_all : (zip : Text) → List Text → System → Bool × System
write_all zip [] s = (true, s)
write_all zip (text ∷ texts) s =
    write_next (write zip text s).0 (write zip text s).1 (write_all zip texts (write zip text s).1)

-- What `DumpDatabase` writes, and whether the tool succeeds.
pub record Dump : Type 0 where
  pub output : Text
  pub succeeded : Bool

abbrev pub user_texts : Text → List Text
user_texts block =
    if is_empty block then [] else codes "\n\n" ∷ block ∷ codes "\n\nFLUSH PRIVILEGES;\n" ∷ []

-- The error of a round: the archive is given up.
abbrev pub failure : (key zip sav db : Text) → System → Result (Unit {0}) × System
failure key zip sav db s = (err (message key (db ∷ [])), cancel zip sav s)

-- The end of a round of the loop of `Run`.
abbrev pub closed : Bool → (zip sav db : Text) → System → Result (Unit {0}) × System
closed true zip sav db s = (ok tt, say (info (codes "log.msg.created_zip") (zip ∷ [])) s)
closed false zip sav db s = failure (codes "err.zip_db") zip sav db s

abbrev pub with_users : Bool → (zip sav db : Text) → System → Result (Unit {0}) × System
with_users true zip sav db s = closed (finish zip sav s).0 zip sav db (finish zip sav s).1
with_users false zip sav db s = failure (codes "err.zip_user_block") zip sav db s

abbrev pub dumped : Bool → (zip sav db block : Text) → System → Result (Unit {0}) × System
dumped true zip sav db block s =
    let t = say (info (codes "log.msg.dumped_db") (db ∷ [])) s in
    let done = write_all zip (user_texts block) t in with_users done.0 zip sav db done.1
dumped false zip sav db block s = failure (codes "err.dump_db") zip sav db s

abbrev pub opened :
    Result (Unit {0}) → (zip sav db block : Text) → Dump → System → Result (Unit {0}) × System
opened (ok u) zip sav db block d s =
    let done = write zip d.output s in dumped (done.0 && d.succeeded) zip sav db block done.1
opened (err e) zip sav db block d s = (err (message (codes "err.zip_db") (db ∷ [])), s)

-- A round of the loop of `Run`, for one database.
unfoldable pub backup_database :
    (zip sav db block : Text) → Dump → System → Result (Unit {0}) × System
backup_database zip sav db block d s =
    let r = safe_write_zip_streaming zip sav (db ++ codes ".sql") s in
    opened r.0 zip sav db block d r.1

-- `mysql_backup_<yyyymmdd>_<host>_<db>.zip`, the path in the backup directory where `db` has no `/`
unfoldable pub zip_name : Time → Text → Text → Text
zip_name today host db =
    codes "mysql_backup_"
    ++ (date_key today ++ (codes "_" ++ (host ++ (codes "_" ++ (db ++ codes ".zip")))))

abbrev pub with_created : Text → Result (List Text) → Result (List Text)
with_created zip (ok zips) = ok (zip ∷ zips)
with_created zip (err e) = err e

-- After a round: the rounds for the databases that follow, or the error.
abbrev pub after_round :
    Result (Unit {0}) × System
    → (zip : Text) → Result (List Text) × System
    → Result (List Text) × System
after_round (ok u, s) zip (r, t) = (with_created zip r, t)
after_round (err e, s) zip rest = (err e, s)

module _ (today : Time) (host : Text) (user_sql : Text → Text) (dump : Text → Dump) where
  -- The loop of `Run` over the databases: it stops at the first error.
  unfoldable pub backup_all : List Text → System → Result (List Text) × System
  backup_all [] s = (ok [], s)
  backup_all (db ∷ dbs) s =
      let zip = zip_name today host db in
      let r = backup_database zip (sav_of zip) db (user_sql db) (dump db) s in
      after_round r zip (backup_all dbs r.1)

-- The choice of `recoverSavFiles` between the files `zip` and `sav`, branch by branch.
abbrev pub recover_absent : Bool → (zip sav : Text) → System → System
recover_absent true zip sav s = say (info (codes "log.msg.recovered") (zip ∷ [])) s
recover_absent false zip sav s = say (warn (codes "log.warn.recover_sav_rename") (sav ∷ zip ∷ [])) s

abbrev pub recover_replaced : Bool → (zip sav : Text) → System → System
recover_replaced true zip sav s = say (info (codes "log.msg.recovered_larger") (zip ∷ [])) s
recover_replaced false zip sav s =
    say (warn (codes "log.warn.recover_sav_rename2") (sav ∷ zip ∷ [])) s

abbrev pub recover_larger : Bool → (zip sav : Text) → System → System
recover_larger true zip sav s = recover_replaced (rename sav zip s).0 zip sav (rename sav zip s).1
recover_larger false zip sav s = say (warn (codes "log.warn.recover_sav_remove") (zip ∷ [])) s

abbrev pub recover_smaller : Bool → (sav : Text) → System → System
recover_smaller true sav s = say (info (codes "log.msg.removed_sav") (sav ∷ [])) s
recover_smaller false sav s = say (warn (codes "log.warn.recover_sav_remove") (sav ∷ [])) s

abbrev pub recover_by_size : Bool → (zip sav : Text) → System → System
recover_by_size true zip sav s = recover_larger (remove zip s).0 zip sav (remove zip s).1
recover_by_size false zip sav s = recover_smaller (remove sav s).0 sav (remove sav s).1

module _ (size : Content → ℕ) where
  abbrev pub recover_zip : Content → Stat → (zip sav : Text) → System → System
  recover_zip c stat_error zip sav s = s
  recover_zip c absent zip sav s = recover_absent (rename sav zip s).0 zip sav (rename sav zip s).1
  recover_zip c (found z) zip sav s = recover_by_size (leb (size z) (size c)) zip sav s

  abbrev pub recover_sav : Stat → (zip sav : Text) → System → System
  recover_sav absent zip sav s = s
  recover_sav stat_error zip sav s = s
  recover_sav (found c) zip sav s = recover_zip c (stat zip s).0 zip sav (stat zip s).1

  unfoldable pub recover_pair : (zip sav : Text) → System → System
  recover_pair zip sav s = recover_sav (stat sav s).0 zip sav (stat sav s).1

  -- The loop of `recoverSavFiles`.
  unfoldable pub recover_entries : List DirEntry → System → System
  recover_entries [] s = s
  recover_entries (e ∷ es) s = recover_entries es (
      if e.is_dir || not (has_suffix e.name (codes ".sav"))
      then s
      else recover_pair (trim_suffix e.name (codes ".sav") ++ codes ".zip") e.name s)

  unfoldable pub recover_sav_files : ReadDir → System → System
  recover_sav_files (listed es) s = recover_entries es s
  recover_sav_files not_exist s = say (warn (codes "log.warn.recover_sav_read") []) s
  recover_sav_files failed s = say (warn (codes "log.warn.recover_sav_read") []) s

unfoldable pub say_each : (key : Text) → List Text → System → System
say_each key [] s = s
say_each key (name ∷ names) s = say_each key names (say (warn key (name ∷ [])) s)

abbrev pub say_found : List Text → System → System
say_found [] s = s
say_found (n ∷ ns) s = say (info (codes "log.msg.users_found") (n ∷ ns)) s

-- The messages of `ParseUserSQL` and of `Run` about the users.
unfoldable pub say_users : UserSql → System → System
say_users u s = say_found u.user_names (
    say_each (codes "log.warn.user_different_passwords") u.differing_users
      (say_each (codes "err.user_differing_password") u.conflicts s))

-- `dbToUserSQL[db]`
unfoldable pub user_sql_for : UserSql → Text → Text
user_sql_for u db = text_or_empty (lookup db u.db_to_sql)

-- `Run` over the exported users `sql`, where `made` says whether the backup directory could be
-- made.
unfoldable pub run_backup :
    (size : Content → ℕ) (today : Time) (host : Text) (dump : Text → Dump) (o : Orders) (sql : Text)
    → (made : Bool) → ReadDir
    → List Text
    → System
    → Result (List Text) × System
run_backup size today host dump o sql made entries dbs s =
    let users = parse_user_sql o sql in
    if made
    then backup_all today (hostname_for_file host) (user_sql_for users) dump dbs
        (say_users users (recover_sav_files size entries s))
    else (err (message (codes "err.create_backup_dir") []), s)
