-- ===== src/Main.antt =====
-- main.go: the choice of the action from the flags, what the actions do with the answers of the
-- other parts, and the table of the status. Texts that are only printed are left out; a call of
-- `os.Exit` is the number it gives.
pub mod Sizes
pub mod Choices
pub mod Names
pub mod Restores
mod Examples
use my_sql_backup.Base.{
  ℕ, zero, suc, ◌+◌, ◌-◌, ◌*◌, ◌/◌, ◌%◌, Bool, true, false, not, ◌&&◌, ◌||◌, Option, none, some,
  List, [], ◌∷◌, ◌++◌,
}
use my_sql_backup.Base.Tests.{ltb, leb, ◌==◌, if◌then◌else◌}
use my_sql_backup.Base.Lists.{length, take, is_empty}
use my_sql_backup.Base.Texts.{Text, codes, text_eq, has_prefix, contains, trim_space}
use my_sql_backup.Base.Decimal.{decimal, digit}
use my_sql_backup.Base.Paths.{base, dir, join}
use my_sql_backup.Base.Results.{Error, Result, ok, err}
use my_sql_backup.Calendar.{Time}
use my_sql_backup.Retention.{ByDate, BackupFile, ReadDir, parse_date, last_backup_before}
use my_sql_backup.Restore.{
  Given, Sources, ReinitConfig, Steps, Step, Reinit, full_reinit, restore_from_zips,
}

-- The flags that choose an action, and the arguments that follow.
pub record Flags : Type 0 where
  pub do_init : Bool
  pub do_clean_config : Bool
  pub do_remove : Bool
  pub do_status : Bool
  pub do_backup : Bool
  pub do_restore : Bool
  pub do_restore_full : Bool
  pub get_file : Text
  pub args : List Text

pub data Action : Type 0 where
  run_init : Action
  run_clean_config : Action
  run_remove : Action
  run_status : Action
  run_backup : Action
  run_restore : (date : Text) (full : Bool) → Action
  run_getfile : Text → Action

-- An action, or the usage with an exit code and the key of a message, if any.
pub data Choice : Type 0 where
  act : Action → Choice
  usage : (code : ℕ) → Option Text → Choice

abbrev one_if : Bool → ℕ
one_if true = 1
one_if false = 0

-- The counter `n`.
abbrev pub flag_count : Flags → ℕ
flag_count f =
    one_if f.do_init
    + one_if f.do_clean_config
    + one_if f.do_remove
    + one_if f.do_status
    + one_if f.do_backup
    + one_if f.do_restore
    + one_if f.do_restore_full
    + one_if (not (is_empty f.get_file))

-- The `switch`; where no case holds, `main` returns.
unfoldable pub switch_action : Flags → (date_arg : Text) → Option Action
switch_action f date_arg =
    if f.do_init
    then some run_init
    else if f.do_clean_config
    then some run_clean_config
    else if f.do_remove
    then some run_remove
    else if f.do_status
    then some run_status
    else if f.do_backup
    then some run_backup
    else if f.do_restore
    then some (run_restore date_arg false)
    else if f.do_restore_full
    then some (run_restore date_arg true)
    else if not (is_empty f.get_file)
    then some (run_getfile f.get_file)
    else none

abbrev chosen : Option Action → Choice
chosen none = usage 0 none
chosen (some a) = act a

unfoldable pub choose_counted : Flags → (date_arg : Text) → Choice
choose_counted f date_arg =
    if flag_count f == 0
    then usage 0 none
    else if ltb 1 (flag_count f)
    then usage 1 (some (codes "error.one_flag"))
    else chosen (switch_action f date_arg)

abbrev choose_args : Flags → List Text → Choice
choose_args f [] = choose_counted f []
choose_args f (a ∷ []) =
    if not f.do_restore && not f.do_restore_full
    then usage 1 (some (codes "error.restoredate_requires_restore"))
    else choose_counted f (trim_space a)
choose_args f (a ∷ b ∷ more) = usage 1 (some (codes "error.restore_too_many_args"))

-- `main` after the flags were parsed.
unfoldable pub choose : Flags → Choice
choose f = choose_args f f.args

-- `invokedDirectory`; `abs` is `filepath.Abs`, `none` where it fails.
unfoldable pub invoked_directory : (abs : Text → Option Text) → List Text → Text
invoked_directory abs [] = []
invoked_directory abs (arg0 ∷ args) =
    if is_empty arg0 || not (contains arg0 (codes "/"))
    then []
    else elim (abs arg0) [ none ↦ [] | some p ↦ dir p ]

-- The file of the log in `loadConfigAndLog`.
unfoldable pub log_path : (exe : Option Text) (log_filename backup_dir : Text) → Text
log_path exe log_filename backup_dir =
    if not (is_empty log_filename) then log_filename else elim exe [
      | none ↦ join backup_dir (codes "mysqlbackup.log")
      | some e ↦
          if is_empty (dir e)
          then join backup_dir (codes "mysqlbackup.log")
          else join (dir e) (codes "mysqlbackup.log")
    ]

-- `%.1f` of `n / unit` in tenths: the nearest one, and the even one of two. A `float64` holds the
-- quotient exactly for the sizes of files, since `unit` is a power of two.
unfoldable pub tenths : (n unit : ℕ) → ℕ
tenths n unit =
    let q = 10 * n / unit in
    let r = 10 * n % unit in
    if ltb (2 * r) unit
    then q
    else if ltb unit (2 * r)
    then q + 1
    else if q % 2 == 0
    then q
    else q + 1

-- A size in units, with one decimal below ten.
unfoldable pub format_unit : (n unit letter : ℕ) → Text
format_unit n unit letter =
    if ltb n (10 * unit)
    then decimal (tenths n unit / 10) ++ (b'.' ∷ digit (tenths n unit % 10) ∷ letter ∷ [])
    else decimal (n / unit) ++ letter ∷ []

unfoldable pub format_size : ℕ → Text
format_size n =
    if ltb n 1024
    then decimal n
    else if ltb n 1048576
    then format_unit n 1024 b'K'
    else if ltb n 1073741824
    then format_unit n 1048576 b'M'
    else format_unit n 1073741824 b'T'

-- The column of the names: at most 60 bytes, of which `…` takes the place of the last.
unfoldable pub shown_name : Text → Text
shown_name name = if ltb 60 (length name) then take 59 name ++ 8230 ∷ [] else name

unfoldable pub total_size : List BackupFile → ℕ
total_size [] = 0
total_size (f ∷ fs) = f.size + total_size fs

abbrev has_separator : Text → Bool
has_separator [] = false
has_separator (r ∷ s) = ((r == b'/') || (r == 92)) || has_separator s

unfoldable pub contains_path : Text → Bool
contains_path s = has_prefix s (codes "..") || has_separator s

-- `validGetfilePattern` of main.go
unfoldable pub valid_getfile_pattern : Text → Bool
valid_getfile_pattern s =
    if is_empty s || not (text_eq (base s) s) then false else not (contains_path s)

-- What `runRestore` has done and its exit code.
pub record Restored : Type 0 where
  pub exit_code : ℕ
  pub steps : List Step
  pub imported : List Given

abbrev refused_restore : List Step → Restored
refused_restore steps = record { exit_code = 1; steps = steps; imported = [] }

abbrev import_answered : List Step → Result (Unit {0}) × List Given → Restored
import_answered steps (ok u, texts) = record { exit_code = 0; steps = steps; imported = texts }
import_answered steps (err e, texts) = record { exit_code = 1; steps = steps; imported = texts }

-- The day before which a backup is wanted: none is given, or the text is one, or it is not.
pub data Limit : Type 0 where
  no_limit : Limit
  limited : Time → Limit
  malformed : Limit

abbrev limit_parsed : Option Time → Limit
limit_parsed none = malformed
limit_parsed (some t) = limited t

unfoldable pub limit_of : Text → Limit
limit_of date_str =
    if is_empty (trim_space date_str)
    then no_limit
    else limit_parsed (parse_date (trim_space date_str))

module _ (by_date : ByDate) (sources : (password : Text) → Sources) (cfg : ReinitConfig) (a : Steps)
    (root_password : Text) where
  -- A server that was set up anew has no password.
  abbrev after_reinit : Reinit → List BackupFile → Restored
  after_reinit (err e, steps) files = refused_restore steps
  after_reinit (ok u, steps) files = import_answered steps (restore_from_zips (sources []) files)

  abbrev restore_files : (full : Bool) → List BackupFile → Restored
  restore_files false files = import_answered [] (restore_from_zips (sources root_password) files)
  restore_files true files = after_reinit (full_reinit cfg a) files

  abbrev restore_selected : Result (List BackupFile) → (full : Bool) → Restored
  restore_selected (err e) full = refused_restore []
  restore_selected (ok []) full = refused_restore []
  restore_selected (ok (f ∷ fs)) full = restore_files full (f ∷ fs)

  abbrev restore_limited : Limit → (full : Bool) → ReadDir → Restored
  restore_limited malformed full backups = refused_restore []
  restore_limited no_limit full backups =
      restore_selected (last_backup_before by_date backups none) full
  restore_limited (limited t) full backups =
      restore_selected (last_backup_before by_date backups (some t)) full

  -- `runRestore` after the configuration was loaded.
  unfoldable pub restore : (date_str : Text) (full : Bool) → ReadDir → Restored
  restore date_str full backups = restore_limited (limit_of date_str) full backups
