-- ===== src/Retention.antt =====
-- internal/retention/retention.go: the backup files of a directory, their dates, the choice of
-- the day to restore. A directory is the list of its entries in the order that `os.ReadDir` gives,
-- and a `Path` is the entry's name in it.
pub mod Apply
pub mod Sweep
pub mod Keys
pub mod Window
pub mod Policy
pub mod Select
mod Examples
use my_sql_backup.Base.{
  ℕ, zero, suc, ◌+◌, ◌-◌, ◌≤◌, Bool, true, false, not, ◌&&◌, ◌||◌, Option, none, some, List, [],
  ◌∷◌, ◌++◌,
}
use my_sql_backup.Base.Tests.{ltb, leb, ◌==◌, if◌then◌else◌}
use my_sql_backup.Base.Lists.{length, take, drop, keep, All, last?}
use my_sql_backup.Base.Texts.{Text, codes, text_eq, is_digit}
use my_sql_backup.Base.Decimal.{four_digits, two_digits, value}
use my_sql_backup.Base.Results.{Error, os_error, Result, ok, err, ◌>>=◌}
use my_sql_backup.Base.Sorting.{Sort}
use my_sql_backup.Calendar.{
  Time, days_in, midnight, year_of, month_of, day_of, weekday_of, add_date, before,
}
use my_sql_backup.Regexp.{
  Regexp, seq, group, begin_text, literal, times, match_string, find_submatch, submatch,
}
use my_sql_backup.I18n.{Messages, translate}
use my_sql_backup.Base.Int.{pos}
use mathlib.Core.List.{reverse}

abbrev pub backup_prefix : Text
backup_prefix = codes "mysql_backup_"

-- `^mysql_backup_\d{8}_`
abbrev pub name_re : Regexp
name_re =
    seq begin_text (seq (literal backup_prefix) (seq (times 8 is_digit) (literal (codes "_"))))

-- `mysql_backup_(\d{8})_`
abbrev pub date_in_filename : Regexp
date_in_filename =
    seq (literal backup_prefix) (seq (group 1 (times 8 is_digit)) (literal (codes "_")))

unfoldable pub is_last_day_of_month : Time → Bool
is_last_day_of_month t = not (month_of (add_date t (pos 0) (pos 1)) == month_of t)

-- The order is yearly, monthly, weekly, daily.
unfoldable pub classify : Messages → Time → Text
unfolding is_last_day_of_month
classify m t =
    if (month_of t == 12) && (day_of t == 31)
    then translate m (codes "retention.yearly")
    else if is_last_day_of_month t
    then translate m (codes "retention.monthly")
    else if weekday_of t == 0
    then translate m (codes "retention.weekly")
    else translate m (codes "retention.daily")

pub record Stat : Type 0 where
  pub mod_time : ℕ
  pub size : ℕ

-- An entry of a directory; `stat` is `none` where `os.Stat` fails.
pub record DirEntry : Type 0 where
  pub name : Text
  pub is_dir : Bool
  pub stat : Option Stat

pub data ReadDir : Type 0 where
  listed : List DirEntry → ReadDir
  not_exist : ReadDir
  failed : ReadDir

pub record BackupFile : Type 0 where
  pub path : Text
  pub date : Time
  pub mod_time : ℕ
  pub size : ℕ

-- `filepath.Ext` over the reversed name.
abbrev ext_back : Text → Text → Text
ext_back [] suffix = []
ext_back (c ∷ s) suffix =
    if c == b'/' then [] else if c == b'.' then b'.' ∷ suffix else ext_back s (c ∷ suffix)

unfoldable pub ext : Text → Text
ext s = ext_back (reverse s) []

-- `time.ParseInLocation("20060102", s, time.Local)`: eight digits that spell a valid date.
unfoldable pub parse_date : Text → Option Time
parse_date (a ∷ b ∷ c ∷ d ∷ e ∷ f ∷ g ∷ h ∷ []) =
    let year = value (a ∷ b ∷ c ∷ d ∷ []) in
    let month = value (e ∷ f ∷ []) in
    let day = value (g ∷ h ∷ []) in
    if is_digit a
      && is_digit b
      && is_digit c
      && is_digit d
      && is_digit e
      && is_digit f
      && is_digit g
      && is_digit h
      && leb 1 month
      && leb month 12
      && leb 1 day
      && leb day (days_in year month)
    then some (midnight year month day)
    else none
parse_date s = none

-- The date of a name that the loop of `ListBackups` does not skip.
unfoldable pub dated_name : Text → Option Time
unfolding ext parse_date
dated_name name =
    if ltb (length name) (length backup_prefix + 8 + 2)
      || not (match_string name_re name)
      || not (text_eq (ext name) (codes ".zip"))
    then none
    else elim (find_submatch date_in_filename name) [
      | none ↦ none
      | some m ↦ parse_date (submatch 1 m.groups)
    ]

abbrev pub or_zero : Option Stat → Stat
or_zero none = record { mod_time = 0; size = 0 }
or_zero (some s) = s

abbrev pub backup_file : DirEntry → Time → BackupFile
backup_file e t = record {
  path = e.name;
  date = t;
  mod_time = (or_zero e.stat).mod_time;
  size = (or_zero e.stat).size;
}

-- The body of the loop, for one entry.
unfoldable pub entry_backup : DirEntry → Option BackupFile
unfolding dated_name
entry_backup e =
    if e.is_dir
    then none
    else elim (dated_name e.name) [ none ↦ none | some t ↦ some (backup_file e t) ]

unfoldable pub collect : List DirEntry → List BackupFile
collect [] = []
collect (e ∷ es) = elim (entry_backup e) [ none ↦ collect es | some f ↦ f ∷ collect es ]

abbrev pub date_of : BackupFile → Time
date_of f = f.date

abbrev pub ByDate : Type 0
ByDate = Sort date_of

-- `t.Format("20060102")`
unfoldable pub date_key : Time → Text
date_key t = four_digits (year_of t) ++ two_digits (month_of t) ++ two_digits (day_of t)

abbrev pub first_match : (BackupFile → Bool) → List BackupFile → Option BackupFile
first_match p [] = none
first_match p (f ∷ fs) = if p f then some f else first_match p fs

-- The day to restore: the last one, or the last one before a given date, sought from the end.
unfoldable pub target_of : Option Time → List BackupFile → Option BackupFile
target_of none files = last? files
target_of (some d) files = first_match (λ f. before f.date d) (reverse files)

-- The files of the day of a file that was found.
abbrev pub same_day_files : Option BackupFile → List BackupFile → List BackupFile
same_day_files none files = []
same_day_files (some f) files = keep (λ g. text_eq (date_key g.date) (date_key f.date)) files

unfoldable pub select_day : Option Time → List BackupFile → List BackupFile
select_day limit files = same_day_files (target_of limit files) files

module _ (s : ByDate) where
  unfoldable pub list_backups : ReadDir → Result (List BackupFile)
  list_backups not_exist = ok []
  list_backups failed = err os_error
  list_backups (listed es) = ok (s.sort (collect es))

  unfoldable pub last_backup_before : ReadDir → Option Time → Result (List BackupFile)
  last_backup_before dir limit = do files ← list_backups dir; ok (select_day limit files)
