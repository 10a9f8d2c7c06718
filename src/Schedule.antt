-- ===== src/Schedule.antt =====
-- internal/schedule/schedule.go, the part for Unix: the line of the job in a table of cron, and its
-- removal. Numbers among the arguments of a message are left out. What the tool `crontab` does and
-- which files can be read or written is the state of the machine.
pub mod Cron
pub mod Quotes
pub mod Tasks
pub mod Windows
pub mod Upkeep
pub mod Installed
pub mod Scripts
mod Simulated
pub mod Units
pub mod Removal
mod Examples
use my_sql_backup.Base.{
  ℕ, Bool, true, false, not, ◌&&◌, ◌||◌, Option, none, some, List, [], ◌∷◌, ◌++◌,
}
use my_sql_backup.Base.Tests.{leb, ◌==◌, if◌then◌else◌}
use my_sql_backup.Base.Lists.{is_empty}
use my_sql_backup.Base.Int.{ℤ, pos, negsuc, neg_ℤ}
use my_sql_backup.Base.Texts.{Text, codes, text_eq, contains, trim_space, replace_byte, is_digit}
use my_sql_backup.Base.Decimal.{value, decimal}
use my_sql_backup.Base.Paths.{clean}
use my_sql_backup.Base.Lines.{scan, unlines}
use my_sql_backup.Base.Results.{Error, os_error, message, Result, ok, err, LogLine, info}

abbrev pub cron_marker : Text
cron_marker = codes "mysqlbackup-schedule"

abbrev pub system_crontab_user : Text
system_crontab_user = codes "root"

unfoldable pub quote_for_cron : Text → Text
quote_for_cron s = b'\'' ∷ (replace_byte b'\'' (codes "\\'") s ++ (b'\'' ∷ []))

abbrev all_digits : Text → Bool
all_digits [] = true
all_digits (c ∷ s) = is_digit c && all_digits s

-- A number of `strconv.Atoi` without its sign: at least one digit, and at most `limit`.
abbrev unsigned : ℕ → Text → Option ℕ
unsigned limit s =
    if not (is_empty s) && (all_digits s && leb (value s) limit) then some (value s) else none

abbrev negated : Option ℕ → Option ℤ
negated none = none
negated (some n) = some (neg_ℤ (pos n))

abbrev positive : Option ℕ → Option ℤ
positive none = none
positive (some n) = some (pos n)

-- `strconv.Atoi(s)` for an `int` of 64 bits
unfoldable pub atoi : Text → Option ℤ
atoi [] = none
atoi (c ∷ s) =
    if c == b'-'
    then negated (unsigned 9223372036854775808 s)
    else positive (unsigned 9223372036854775807 (if c == b'+' then s else c ∷ s))

abbrev within : (limit default : ℕ) → Option ℤ → ℕ
within limit default none = default
within limit default (some (negsuc n)) = default
within limit default (some (pos n)) = if leb n limit then n else default

abbrev before_first : Text → Option (Text × Text) → ℕ → Option (Text × Text)
before_first s none c = none
before_first s (some (a, b)) c = some (c ∷ a, b)

-- `strings.SplitN(s, ":", 2)` where it gives two parts
unfoldable pub split_clock : Text → Option (Text × Text)
split_clock [] = none
split_clock (c ∷ s) =
    let rest = split_clock s in if c == b':' then some ([], s) else before_first s rest c

-- The hour and the minute of the job: 22 and 0, unless `start_time` says otherwise.
unfoldable pub start_clock : Text → ℕ × ℕ
start_clock start =
    let t = trim_space start in
    if is_empty t then (22, 0) else elim (split_clock t) [
      | none ↦ (22, 0)
      | some (h, m) ↦ (within 23 22 (atoi (trim_space h)), within 59 0 (atoi (trim_space m)))
    ]

abbrev cron_prefix : ℕ × ℕ → Text
cron_prefix (hour, min) = decimal min ++ (b' ' ∷ (decimal hour ++ codes " * * * "))

abbrev cron_command : (exe config : Text) → Text
cron_command exe config =
    quote_for_cron exe
    ++ (codes " --backup -config " ++ (quote_for_cron config ++ (codes " # " ++ cron_marker)))

unfoldable pub cron_line_user : ℕ × ℕ → (exe config : Text) → Text
cron_line_user clock exe config = cron_prefix clock ++ cron_command exe config

unfoldable pub cron_line_system : ℕ × ℕ → (exe config : Text) → Text
cron_line_system clock exe config =
    cron_prefix clock ++ (system_crontab_user ++ (b' ' ∷ cron_command exe config))

abbrev pub is_marked : Text → Bool
is_marked line = contains (trim_space line) cron_marker

-- The variables of the loop over the lines of a table.
pub record Rewrite : Type 0 where
  pub new_crontab : Text
  pub found_marker : Bool
  pub replaced_or_appended : Bool

abbrev pub write_line : Text → Rewrite → Rewrite
write_line line r = record r { new_crontab = r.new_crontab ++ (line ++ (10 ∷ [])) }

abbrev pub put_cron_line : Text → Rewrite → Rewrite
put_cron_line cron_line r = record (write_line cron_line r) { replaced_or_appended = true }

abbrev pub mark : Rewrite → Rewrite
mark r = record r { found_marker = true }

-- A round of the loop, `none` where it finds the line of the job and returns.
unfoldable pub rewrite_line : (cron_line line : Text) → Rewrite → Option Rewrite
rewrite_line cron_line line r =
    if is_marked line
    then if text_eq (trim_space line) cron_line
      then none
      else some (if r.replaced_or_appended then mark r else put_cron_line cron_line (mark r))
    else some (write_line line r)

unfoldable pub rewrite_lines : (cron_line : Text) → List Text → Rewrite → Option Rewrite
rewrite_lines cron_line [] r = some r
rewrite_lines cron_line (line ∷ lines) r = elim (rewrite_line cron_line line r) [
  | none ↦ none
  | some r' ↦ rewrite_lines cron_line lines r'
]

unfoldable pub finish_rewrite : (cron_line : Text) → Rewrite → Rewrite
finish_rewrite cron_line r = if r.found_marker then r else put_cron_line cron_line r

-- What becomes of a table: it holds the job, it cannot be read, it stays, or it is replaced.
pub data Table : Type 0 where
  present : Table
  unreadable : Table
  unchanged : Table
  replaced : Text → Table

abbrev pub no_rewrite : Rewrite
no_rewrite = record { new_crontab = []; found_marker = false; replaced_or_appended = false }

abbrev pub table_of : Rewrite → Table
table_of r = if r.replaced_or_appended then replaced r.new_crontab else unchanged

unfoldable pub rewrite_table : (cron_line content : Text) → Table
rewrite_table cron_line content =
    elim (rewrite_lines cron_line (scan content).found_lines no_rewrite) [
      | none ↦ present
      | some r ↦
          if (scan content).too_long then unreadable else table_of (finish_rewrite cron_line r)
    ]

-- How a call of the tool `crontab` ends; exit code 1 of `crontab -l` means that there is no table.
pub data Tool : Type 0 where
  ran : Tool
  not_found : Tool
  failed : Tool

pub record Machine : Type 0 where
  pub crontab : Option Text
  pub list_tool : Tool
  pub set_tool : Tool
  pub files : Text → Option Text
  pub writable : Text → Bool
  pub log : List LogLine

abbrev pub say : Text → List Text → Machine → Machine
say key args s = record s { log = s.log ++ info key args ∷ [] }

abbrev pub set_file : Text → Option Text → Machine → Machine
set_file path content s = record s { files = λ q. if text_eq path q then content else s.files q }

abbrev pub table_text : Option Text → Text
table_text none = []
table_text (some t) = t

abbrev pub system_crontab_paths : List Text
system_crontab_paths = codes "/etc/crontab" ∷ codes "/usr/etc/crontab" ∷ []

-- The first of the paths that can be read, and what it holds.
unfoldable pub first_readable : List Text → Machine → Option (Text × Text)
first_readable [] s = none
first_readable (p ∷ ps) s =
    let rest = first_readable ps s in
    elim (s.files p) [ none ↦ rest | some content ↦ some (p, content) ]

abbrev pub write_system_file :
    (path cron_line content : Text) → Machine → Result (Unit {0}) × Machine
write_system_file path cron_line content s =
    if s.writable path
    then (ok tt, say (codes "log.msg.cron_added_file") (path ∷ []) (set_file path (some content) s))
    else (err (message (codes "err.write_cron_need_root") (path ∷ cron_line ∷ [])), s)

abbrev pub put_system_table :
    Table → (path cron_line : Text) → Machine → Result (Unit {0}) × Machine
put_system_table present path cron_line s =
    (ok tt, say (codes "log.msg.cron_present_file") (path ∷ []) s)
put_system_table unreadable path cron_line s =
    (err (message (codes "err.crontab_manual") (cron_line ∷ [])), s)
put_system_table unchanged path cron_line s = (ok tt, s)
put_system_table (replaced content) path cron_line s = write_system_file path cron_line content s

unfoldable pub ensure_unix_cron_system_file :
    (cron_line : Text) → Machine → Result (Unit {0}) × Machine
ensure_unix_cron_system_file cron_line s = elim (first_readable system_crontab_paths s) [
  | none ↦ (err (message (codes "err.crontab_manual") (cron_line ∷ [])), s)
  | some (path, content) ↦ put_system_table (rewrite_table cron_line content) path cron_line s
]

-- `setCrontab` and what follows.
abbrev pub set_crontab : Tool → (system_line content : Text) → Machine → Result (Unit {0}) × Machine
set_crontab ran system_line content s =
    (ok tt, say (codes "log.msg.cron_added") [] (record s { crontab = some content }))
set_crontab not_found system_line content s = ensure_unix_cron_system_file system_line s
set_crontab failed system_line content s = (err (message (codes "err.crontab") []), s)

abbrev pub put_user_table : Table → (system_line : Text) → Machine → Result (Unit {0}) × Machine
put_user_table present system_line s = (ok tt, say (codes "log.msg.cron_present") [] s)
put_user_table unreadable system_line s = (err (message (codes "err.crontab_l") []), s)
put_user_table unchanged system_line s = (ok tt, s)
put_user_table (replaced content) system_line s = set_crontab s.set_tool system_line content s

-- `getCrontab` and what follows.
abbrev pub ensure_lines :
    Tool → (user_line system_line : Text) → Machine → Result (Unit {0}) × Machine
ensure_lines ran user_line system_line s =
    put_user_table (rewrite_table user_line (table_text s.crontab)) system_line s
ensure_lines not_found user_line system_line s = ensure_unix_cron_system_file system_line s
ensure_lines failed user_line system_line s = (err (message (codes "err.crontab_l") []), s)

unfoldable pub ensure_unix_cron :
    (exe : Option Text) (start config : Text) → Machine → Result (Unit {0}) × Machine
ensure_unix_cron none start config s = (err (message (codes "err.executable_path") []), s)
ensure_unix_cron (some exe) start config s =
    let clock = start_clock start in
    ensure_lines s.list_tool (cron_line_user clock (clean exe) config)
      (cron_line_system clock (clean exe) config) s

unfoldable pub system_crontab_has_marker : List Text → Machine → Bool
system_crontab_has_marker [] s = false
system_crontab_has_marker (p ∷ ps) s =
    let rest = system_crontab_has_marker ps s in
    elim (s.files p) [ none ↦ rest | some content ↦ contains content cron_marker || rest ]

abbrev pub lists : Tool → Bool
lists ran = true
lists not_found = false
lists failed = false

abbrev pub user_table_has_marker : Machine → Bool
user_table_has_marker s = lists s.list_tool && contains (table_text s.crontab) cron_marker

unfoldable pub crontab_has_marker : Machine → Bool
crontab_has_marker s = user_table_has_marker s || system_crontab_has_marker system_crontab_paths s

-- The lines of a table that do not name the job.
unfoldable pub unmarked_lines : List Text → Text
unmarked_lines [] = []
unmarked_lines (l ∷ ls) =
    let rest = unmarked_lines ls in if contains l cron_marker then rest else l ++ (10 ∷ rest)

abbrev pub write_unmarked : Bool → (path content : Text) → Machine → Result (Unit {0}) × Machine
write_unmarked true path content s = (err os_error, s)
write_unmarked false path content s =
    if s.writable path
    then (ok tt, set_file path (some (unmarked_lines (scan content).found_lines)) s)
    else (err (message (codes "err.write_path") (path ∷ [])), s)

-- Only the first of the tables that name the job is rewritten.
unfoldable pub remove_system_crontab_marker : List Text → Machine → Result (Unit {0}) × Machine
remove_system_crontab_marker [] s = (ok tt, s)
remove_system_crontab_marker (p ∷ ps) s =
    let rest = remove_system_crontab_marker ps s in
    elim (s.files p) [
      | none ↦ rest
      | some content ↦
          if contains content cron_marker
          then write_unmarked (scan content).too_long p content s
          else rest
    ]

abbrev pub set_unmarked : Tool → Bool → Machine → Result (Unit {0}) × Machine
set_unmarked tool true s = (err os_error, s)
set_unmarked ran false s =
    remove_system_crontab_marker system_crontab_paths
      (record s { crontab = some (unmarked_lines (scan (table_text s.crontab)).found_lines) })
set_unmarked not_found false s = (err os_error, s)
set_unmarked failed false s = (err os_error, s)

unfoldable pub remove_crontab_marker : Machine → Result (Unit {0}) × Machine
remove_crontab_marker s =
    if user_table_has_marker s
    then set_unmarked s.set_tool (scan (table_text s.crontab)).too_long s
    else remove_system_crontab_marker system_crontab_paths s
