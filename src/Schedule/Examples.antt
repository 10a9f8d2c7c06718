-- ===== src/Schedule/Examples.antt =====
-- Runs of internal/schedule/schedule.go, and the theorems at concrete data.
use my_sql_backup.Base.{◌≡◌, refl, true, false, none, some, [], ◌∷◌, ◌++◌}
use my_sql_backup.Base.Tests.{if◌then◌else◌}
use my_sql_backup.Base.Texts.{
  Text, codes, text_eq, contains, trim_left, trim_space, trim_suffix, has_suffix, has_prefix,
  replace_byte,
}
use my_sql_backup.Base.Lines.{scan, split_lines, scan_lines}
use my_sql_backup.Schedule.{
  quote_for_cron, start_clock, split_clock, atoi, rewrite_line, rewrite_lines, finish_rewrite,
  rewrite_table, replaced, ran, crontab_has_marker, system_crontab_has_marker,
  remove_crontab_marker, remove_system_crontab_marker, unmarked_lines,
}
use my_sql_backup.Schedule.Units.{User, Host, uninstall, on_calendar}
use my_sql_backup.Schedule.Removal.{Removed, uninstall-Removed}
use my_sql_backup.Schedule.Cron.{TableOf, rewrite_table-TableOf}
use my_sql_backup.Schedule.Tasks.{path_for_tr, extract_double_quoted}
use my_sql_backup.Schedule.Quotes.{extract_double_quoted-path_for_tr}

clock_read : start_clock (codes " 7:05 ") ≡ (7, 5)
unfolding start_clock split_clock atoi trim_space
clock_read = refl

-- A quote inside of a path ends the quoted part for the shell.
quote_in_quotes : quote_for_cron (codes "a'b") ≡ codes "'a\\'b'"
unfolding quote_for_cron replace_byte
quote_in_quotes = refl

abbrev job : Text
job = codes "0 22 * * * 'x' --backup -config 'c' # mysqlbackup-schedule"

abbrev table : Text
table = codes "1 1 * * * a\n0 1 * * * old # mysqlbackup-schedule\n2 2 * * * b"

-- Unfolded by name, this rewrites a table.
rewriting : Unit {0}
unfolding scan split_lines scan_lines trim_space trim_suffix has_suffix has_prefix text_eq contains
    rewrite_line rewrite_lines finish_rewrite rewrite_table
rewriting = tt

job_placed :
    rewrite_table job table ≡ replaced (codes "1 1 * * * a\n" ++ (job ++ codes "\n2 2 * * * b\n"))
unfolding rewriting
job_placed = refl

rewrite_table-TableOf_example : TableOf job (scan table) (rewrite_table job table)
rewrite_table-TableOf_example = rewrite_table-TableOf job (unfold rewriting in refl) table

extract_double_quoted-path_for_tr_example :
    extract_double_quoted (34 ∷ (path_for_tr (codes "C:\\a\"b") ++ (34 ∷ codes " && ")))
    ≡ some (codes "C:\\a\"b", codes " && ")
extract_double_quoted-path_for_tr_example =
    extract_double_quoted-path_for_tr (codes "C:\\a\"b") (codes " && ") refl

abbrev user : User
user = record {
  home = some (codes "/home/u");
  systemd_available = false;
  dir_made = true;
  service_written = true;
  timer_written = true;
  service_removed = true;
  timer_removed = true;
}

abbrev host : Host
host = record {
  machine = record {
    crontab = some table;
    list_tool = ran;
    set_tool = ran;
    files = λ path. if text_eq path (codes "/etc/crontab") then some table else none;
    writable = λ path. true;
    log = [];
  };
  service = none;
  timer = some (codes "t");
}

uninstall-Removed_example :
    Removed user (some (codes "/b/m")) (codes "/b/c.json") [] (uninstall user host)
uninstall-Removed_example =
    uninstall-Removed user (some (codes "/b/m")) (codes "/b/c.json") [] host refl
      (unfold rewriting in refl)

-- The table of the user after the removal.
job_removed : (uninstall user host).1.machine.crontab ≡ some (codes "1 1 * * * a\n2 2 * * * b\n")
unfolding rewriting uninstall crontab_has_marker system_crontab_has_marker remove_crontab_marker
    remove_system_crontab_marker unmarked_lines
job_removed = refl

calendar : on_calendar (codes " 7:05") ≡ codes "*-*-* 7:05:00"
unfolding on_calendar split_clock trim_space trim_left
calendar = refl
