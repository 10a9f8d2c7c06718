-- ===== src/Restore.antt =====
-- internal/restore/restore.go: the import of archives in their order, and the steps of a full
-- restore. What each step answers is given; what is done is a list of events.
mod Moves
pub mod Imports
mod Examples
use my_sql_backup.Base.{Bool, true, false, not, ◌&&◌, Option, none, some, List, [], ◌∷◌, ◌++◌}
use my_sql_backup.Base.Tests.{if◌then◌else◌}
use my_sql_backup.Base.Lists.{is_empty}
use my_sql_backup.Base.Texts.{Text, codes, text_eq, trim_space, to_upper}
use my_sql_backup.Base.Paths.{clean, join, dir, base}
use my_sql_backup.Base.Results.{Error, os_error, message, Result, ok, err}
use my_sql_backup.Retention.{BackupFile, ext}

-- What an entry of an archive gives: `Open` fails, the reading fails after a part, or its text.
pub data Reading : Type 0 where
  unopened : Reading
  broken : (part : Text) → Reading
  whole : Text → Reading

-- What `zip.OpenReader` gives: the entries of an archive, each with its name and what it holds.
pub record ZipEntry : Type 0 where
  pub name : Text
  pub body : Reading

-- What the server was given: a text that it took, or one of which it may have executed a part,
-- since the import or the reading failed.
pub data Given : Type 0 where
  accepted : Text → Given
  attempted : Text → Given

-- The first entry with the extension `.sql`: `EqualFold` with it is equality in upper case.
unfoldable pub sql_entry : List ZipEntry → Option ZipEntry
sql_entry [] = none
sql_entry (e ∷ es) =
    let rest = sql_entry es in
    if text_eq (to_upper (ext e.name)) (codes ".SQL") then some e else rest

-- The archives that can be read, and whether the server takes a text to its end.
pub record Sources : Type 0 where
  pub open_zip : Text → Option (List ZipEntry)
  pub import_sql : Text → Bool

-- From `sqlFile.Open` on: an error of the reading is an error of the import, too.
abbrev pub import_body : Sources → Reading → List Given → Result (Unit {0}) × List Given
import_body src unopened done = (err os_error, done)
import_body src (broken part) done = (err os_error, done ++ attempted part ∷ [])
import_body src (whole text) done =
    if src.import_sql text
    then (ok tt, done ++ accepted text ∷ [])
    else (err os_error, done ++ attempted text ∷ [])

abbrev pub import_entry :
    Sources → Text → Option ZipEntry → List Given → Result (Unit {0}) × List Given
import_entry src path none done =
    (err (message (codes "err.restore_sql_missing") (base path ∷ [])), done)
import_entry src path (some e) done = import_body src e.body done

abbrev pub import_opened :
    Sources → Text → Option (List ZipEntry) → List Given → Result (Unit {0}) × List Given
import_opened src path none done = (err os_error, done)
import_opened src path (some es) done = import_entry src path (sql_entry es) done

unfoldable pub restore_zip : Sources → Text → List Given → Result (Unit {0}) × List Given
restore_zip src path done = import_opened src path (src.open_zip path) done

abbrev pub next_zip :
    Result (Unit {0})
    → Text
    → List Given
    → Result (Unit {0}) × List Given
    → Result (Unit {0}) × List Given
next_zip (ok u) path done rest = rest
next_zip (err e) path done rest = (err (message (codes "err.restore_zip") (base path ∷ [])), done)

unfoldable pub restore_zips :
    Sources → List BackupFile → List Given → Result (Unit {0}) × List Given
restore_zips src [] done = (ok tt, done)
restore_zips src (f ∷ fs) done =
    let r = restore_zip src f.path done in next_zip r.0 f.path r.1 (restore_zips src fs r.1)

unfoldable pub restore_from_zips : Sources → List BackupFile → Result (Unit {0}) × List Given
restore_from_zips src files =
    if is_empty files
    then (err (message (codes "err.restore_no_backups") []), [])
    else restore_zips src files []

-- What `os.Stat` says of a path.
pub data PathKind : Type 0 where
  a_dir : PathKind
  a_file : PathKind
  missing : PathKind
  unknown : PathKind

pub record ReinitConfig : Type 0 where
  pub my_sql_data_dir : Text
  pub my_sql_backup_dir : Text
  pub my_sql_stop_cmd : Text
  pub my_sql_start_cmd : Text

-- What the steps of `FullReinit` answer.
pub record Steps : Type 0 where
  pub kind : Text → PathKind
  pub port_reachable : Bool
  pub stop_cmd : Bool
  pub port_closes : Bool
  pub rename : Bool
  pub copy : Bool
  pub start_cmd : Bool
  pub port_opens : Bool

-- A command that was run, a directory that was moved, a copy that was begun.
pub data Step : Type 0 where
  stop_ran : Step
  renamed : (from to : Text) → Step
  copied : (from to : Text) → Step
  start_ran : Step

abbrev pub Reinit : Type 0
Reinit = Result (Unit {0}) × List Step

abbrev fails : Text → Reinit
fails key = (err (message key []), [])

abbrev then_do : Step → Reinit → Reinit
then_do e (r, es) = (r, e ∷ es)

abbrev not_blank : Text → Bool
not_blank s = not (is_empty (trim_space s))

module _ (cfg : ReinitConfig) (a : Steps) where
  abbrev opens_answered : Bool → Reinit
  opens_answered true = (ok tt, [])
  opens_answered false = fails (codes "err.restorefull_start_timeout")

  abbrev start_answered : Bool → Reinit
  start_answered true = opens_answered a.port_opens
  start_answered false = fails (codes "err.restorefull_start")

  unfoldable pub start_again : Reinit
  start_again =
      if not_blank cfg.my_sql_start_cmd
      then then_do start_ran (start_answered a.start_cmd)
      else fails (codes "err.restorefull_start_required")

  abbrev copy_answered : Bool → (data_dir template : Text) → Reinit
  copy_answered true data_dir template = start_again
  copy_answered false data_dir template = fails (codes "err.restorefull_copy")

  abbrev rename_answered : Bool → (data_dir template : Text) → Reinit
  rename_answered true data_dir template =
      then_do (renamed data_dir (data_dir ++ codes ".old"))
        (then_do (copied template data_dir) (copy_answered a.copy data_dir template))
  rename_answered false data_dir template = fails (codes "err.restorefull_rename")

  abbrev closes_answered : Bool → (data_dir template : Text) → Reinit
  closes_answered true data_dir template = rename_answered a.rename data_dir template
  closes_answered false data_dir template = fails (codes "err.restorefull_stop_timeout")

  abbrev stop_answered : Bool → (data_dir template : Text) → Reinit
  stop_answered true data_dir template = closes_answered a.port_closes data_dir template
  stop_answered false data_dir template = fails (codes "err.restorefull_stop")

  abbrev port_answered : Bool → (data_dir template : Text) → Reinit
  port_answered false data_dir template = rename_answered a.rename data_dir template
  port_answered true data_dir template =
      if not_blank cfg.my_sql_stop_cmd
      then then_do stop_ran (stop_answered a.stop_cmd data_dir template)
      else fails (codes "err.restorefull_stop_required")

  abbrev data_answered : PathKind → (data_dir template : Text) → Reinit
  data_answered a_dir data_dir template = port_answered a.port_reachable data_dir template
  data_answered a_file data_dir template = port_answered a.port_reachable data_dir template
  data_answered missing data_dir template = fails (codes "err.restorefull_data_dir_missing")
  data_answered unknown data_dir template = fails (codes "err.restorefull_data_dir_missing")

  abbrev old_answered : PathKind → (data_dir template : Text) → Reinit
  old_answered a_dir data_dir template = fails (codes "err.restorefull_data_old_exists")
  old_answered a_file data_dir template = fails (codes "err.restorefull_data_old_exists")
  old_answered missing data_dir template = data_answered (a.kind data_dir) data_dir template
  old_answered unknown data_dir template = fails (codes "err.restorefull_data_old_stat")

  abbrev template_answered : PathKind → (data_dir template : Text) → Reinit
  template_answered a_dir data_dir template =
      old_answered (a.kind (data_dir ++ codes ".old")) data_dir template
  template_answered a_file data_dir template = fails (codes "err.restorefull_backup_dir")
  template_answered missing data_dir template = fails (codes "err.restorefull_backup_dir")
  template_answered unknown data_dir template = fails (codes "err.restorefull_backup_dir")

  abbrev pub data_dir_of : Text
  data_dir_of = clean (trim_space cfg.my_sql_data_dir)

  abbrev pub template_of : Text
  template_of = clean (
      if not_blank cfg.my_sql_backup_dir
      then trim_space cfg.my_sql_backup_dir
      else join (dir (trim_space cfg.my_sql_data_dir)) (codes "backup"))

  unfoldable pub full_reinit : Reinit
  full_reinit =
      if not_blank cfg.my_sql_data_dir
      then template_answered (a.kind template_of) data_dir_of template_of
      else fails (codes "err.restorefull_data_dir")
