-- ===== src/Schedule/Windows.antt =====
-- internal/schedule/schedule.go, the part for Windows: the scheduled task is kept up to date. The
-- programs `powershell` and `schtasks` and the package `filepath` of Windows are parameters; the
-- machine is a state `S` that the programs change.
use my_sql_backup.Base.{ℕ, Bool, ◌&&◌, ◌||◌, Option, none, some, List, [], ◌∷◌, ◌++◌}
use my_sql_backup.Base.Tests.{leb, ◌==◌, if◌then◌else◌}
use my_sql_backup.Base.Lists.{length, drop, is_empty}
use my_sql_backup.Base.Texts.{Text, codes, text_eq, has_prefix, trim_space, trim_suffix}
use my_sql_backup.Base.Lines.{split_lines}
use my_sql_backup.Base.Results.{message, Result, ok, err, LogLine, info, warn}
use my_sql_backup.Schedule.Tasks.{cmd_argument, escape_for_ps_single_quoted}

abbrev pub task_name_windows : Text
task_name_windows = codes "MySQLBackup"

-- What a program prints, `none` where it fails.
pub record Tools (S : Type 0) : Type 0 where
  pub powershell : Text → S → Option Text × S
  pub schtasks : List Text → S → Option Text × S

pub record Filepath : Type 0 where
  pub clean : Text → Text
  pub dir : Text → Text

-- The script of `windowsTaskGetRunString`.
unfoldable pub run_script : Text
run_script =
    codes "$t = Get-ScheduledTask -TaskName '"
    ++ (task_name_windows
        ++ codes
            "' -ErrorAction SilentlyContinue; if ($t -and $t.Actions.Count -gt 0) { $a = $t.Actions[0]; $a.Execute + ' ' + $a.Arguments }")

unfoldable pub list_args : List Text
list_args =
    codes "/Query" ∷ codes "/TN" ∷ task_name_windows ∷ codes "/FO" ∷ codes "LIST" ∷ codes "/V" ∷ []

unfoldable pub query_args : List Text
query_args = codes "/Query" ∷ codes "/TN" ∷ task_name_windows ∷ []

unfoldable pub delete_args : List Text
delete_args = codes "/Delete" ∷ codes "/TN" ∷ task_name_windows ∷ codes "/F" ∷ []

abbrev pub task_prefix : Text
task_prefix = codes "Task To Run:"

-- The loop over the lines that `schtasks` prints.
unfoldable pub task_to_run : List Text → Option Text
task_to_run [] = none
task_to_run (l ∷ ls) =
    let rest = task_to_run ls in
    if has_prefix (trim_space l) task_prefix
    then some (trim_space (drop (length task_prefix) (trim_space l)))
    else rest

abbrev pub listed_run : Option Text → Option Text
listed_run none = none
listed_run (some out) = task_to_run (split_lines out)

abbrev pub shown_run : Option Text → Option Text
shown_run none = none
shown_run (some out) = if is_empty (trim_space out) then none else some (trim_space out)

unfoldable pub drive_script : (drive : Text) → Text
drive_script drive =
    codes "try { (Get-Item -LiteralPath '"
    ++ (drive ++ codes "\\').PSDrive.RemoteName } catch { '' }")

unfoldable pub settings_script : Text
settings_script =
    codes
      "$s = New-ScheduledTaskSettingsSet -WakeToRun -StartWhenAvailable -ExecutionTimeLimit (New-TimeSpan -Hours 12); Set-ScheduledTask -TaskName '"
    ++ (task_name_windows ++ codes "' -Settings $s")

unfoldable pub working_dir_script : (work_dir : Text) → Text
working_dir_script work_dir =
    codes "$t = Get-ScheduledTask -TaskName '"
    ++ (task_name_windows
        ++ (codes
              "' -ErrorAction SilentlyContinue; if ($t) { $a = $t.Actions[0]; $a.WorkingDirectory = '"
            ++ (escape_for_ps_single_quoted work_dir
                ++ (codes "'; Set-ScheduledTask -TaskName '"
                    ++ (task_name_windows ++ codes "' -Action $a }")))))

abbrev pub after_work_dir : (start : Text) → Text
after_work_dir start =
    codes
      "'; $a = New-ScheduledTaskAction -Execute 'cmd.exe' -Argument $arg -WorkingDirectory $wd; $t = New-ScheduledTaskTrigger -Daily -At '"
    ++ (start
        ++ (codes
              "'; $s = New-ScheduledTaskSettingsSet -WakeToRun -StartWhenAvailable -ExecutionTimeLimit (New-TimeSpan -Hours 12); Register-ScheduledTask -TaskName '"
            ++ (task_name_windows ++ codes "' -Action $a -Trigger $t -Settings $s -Force")))

unfoldable pub create_script : (argument work_dir start : Text) → Text
create_script argument work_dir start =
    codes "$arg = '"
    ++ (escape_for_ps_single_quoted argument
        ++ (codes "'; $wd = '" ++ (escape_for_ps_single_quoted work_dir ++ after_work_dir start)))

-- The time at which the task starts.
unfoldable pub task_start : (start_time : Text) → Text
task_start start_time =
    let t = trim_space (if is_empty start_time then codes "22:00" else start_time) in
    if length t == 5 && has_prefix (drop 2 t) (b':' ∷ []) then t else codes "22:00"

abbrev is_letter : ℕ → Bool
is_letter c = (leb b'A' c && leb c b'Z') || (leb b'a' c && leb c b'z')

-- The drive of a path, if it begins with one.
unfoldable pub drive_of : Text → Option (Text × Text)
drive_of [] = none
drive_of (c ∷ []) = none
drive_of (c ∷ d ∷ rest) = if d == b':' && is_letter c then some (c ∷ d ∷ [], rest) else none

abbrev slashed : Text → Text
slashed [] = []
slashed (c ∷ s) = if c == 92 then c ∷ s else 92 ∷ c ∷ s

-- What becomes of a path when the root of its drive was asked for.
unfoldable pub on_share : (path rest : Text) → Option Text → Text
on_share path rest none = path
on_share path rest (some out) =
    if has_prefix (trim_space out) (codes "\\\\")
    then trim_suffix (trim_space out) (codes "\\") ++ slashed rest
    else path

-- The machine and the log.
pub record Session (S : Type 0) : Type 0 where
  pub machine : S
  pub log : List LogLine

module _ {S : Type 0} where
  abbrev pub note : LogLine → Session S → Session S
  note l s = record { machine = s.machine; log = s.log ++ l ∷ [] }

  abbrev pub at_machine : S → Session S → Session S
  at_machine m s = record { machine = m; log = s.log }

module _ {S : Type 0} (tools : Tools S) where
  abbrev pub run_listed : Option Text → S → Option Text × S
  run_listed (some run) m = (some run, m)
  run_listed none m = (listed_run (tools.schtasks list_args m).0, (tools.schtasks list_args m).1)

  -- `windowsTaskGetRunString`
  unfoldable pub windows_task_get_run_string : S → Option Text × S
  windows_task_get_run_string m =
      run_listed (shown_run (tools.powershell run_script m).0) (tools.powershell run_script m).1

  abbrev pub ask_drive : (path : Text) → Option (Text × Text) → S → Text × S
  ask_drive path none m = (path, m)
  ask_drive path (some (drive, rest)) m = (
    on_share path rest (tools.powershell (drive_script drive) m).0,
    (tools.powershell (drive_script drive) m).1,
  )

  unfoldable pub resolve_drive_to_unc : (path : Text) → S → Text × S
  resolve_drive_to_unc path m = ask_drive path (drive_of path) m

  abbrev pub applied : Option Text → (done failed : Text) → Session S → Session S
  applied none done failed s = note (warn failed []) s
  applied (some out) done failed s = note (info done []) s

  unfoldable pub apply_windows_task_settings : Session S → Session S
  apply_windows_task_settings s =
      applied (tools.powershell settings_script s.machine).0 (codes "log.msg.windows_task_settings")
        (codes "log.warn.powershell_settings")
        (at_machine (tools.powershell settings_script s.machine).1 s)

  unfoldable pub apply_windows_task_working_dir : (work_dir : Text) → Session S → Session S
  apply_windows_task_working_dir work_dir s =
      applied (tools.powershell (working_dir_script work_dir) s.machine).0
        (codes "log.msg.windows_task_workdir") (codes "log.warn.powershell_workdir")
        (at_machine (tools.powershell (working_dir_script work_dir) s.machine).1 s)

-- What the task is to be.
pub record Plan : Type 0 where
  pub argument : Text
  pub work_dir : Text
  pub start : Text

abbrev pub planned_task_run : Plan → Text
planned_task_run p = codes "cmd.exe " ++ p.argument

module _ {S : Type 0} (tools : Tools S) (filepath : Filepath) where
  -- The paths of the task: each is asked for in turn.
  unfoldable pub plan_task : (exe config start_time : Text) → S → Plan × S
  plan_task exe config start_time m =
      let work_dir = filepath.dir (filepath.clean config) in
      let e = resolve_drive_to_unc tools (filepath.clean exe) m in
      let c = resolve_drive_to_unc tools (filepath.clean config) e.1 in
      let w = resolve_drive_to_unc tools (if is_empty work_dir then codes "." else work_dir) c.1 in
      (
        record {
          argument = cmd_argument w.0 e.0 c.0;
          work_dir = w.0;
          start = task_start start_time;
        },
        w.1,
      )

  unfoldable pub keep_task : Plan → Session S → Result (Unit {0}) × Session S
  keep_task p s = (
    ok tt,
    note (info (codes "log.msg.windows_task_uptodate") (task_name_windows ∷ []))
        (apply_windows_task_working_dir tools p.work_dir (apply_windows_task_settings tools s)),
  )

  abbrev pub task_created : Plan → Option Text → Session S → Result (Unit {0}) × Session S
  task_created p none s = (err (message (codes "err.schtasks_create") []), s)
  task_created p (some out) s = (
    ok tt,
    apply_windows_task_working_dir tools p.work_dir (
        apply_windows_task_settings tools (
          note (info (codes "log.msg.windows_task_created") (task_name_windows ∷ p.start ∷ [])) s)),
  )

  -- `createWindowsTaskViaPowerShell` and what follows.
  unfoldable pub create_task : Plan → Session S → Result (Unit {0}) × Session S
  create_task p s =
      let r = tools.powershell (create_script p.argument p.work_dir p.start) s.machine in
      task_created p r.0 (at_machine r.1 s)

  -- The old task is deleted before the new one is made; whether that succeeds is not asked.
  unfoldable pub replace_task : Plan → Session S → Result (Unit {0}) × Session S
  replace_task p s = create_task p (at_machine (tools.schtasks delete_args s.machine).1 s)

  abbrev pub task_read : Plan → Option Text → Session S → Result (Unit {0}) × Session S
  task_read p none s = replace_task p s
  task_read p (some run) s =
      if text_eq (trim_space run) (trim_space (planned_task_run p))
      then keep_task p s
      else replace_task p (note (info (codes "log.msg.windows_task_updating") []) s)

  abbrev pub task_queried : Plan → Option Text → Session S → Result (Unit {0}) × Session S
  task_queried p none s = create_task p s
  task_queried p (some out) s =
      task_read p (windows_task_get_run_string tools s.machine).0
        (at_machine (windows_task_get_run_string tools s.machine).1 s)

  unfoldable pub ensure_windows :
      (exe : Option Text) (config start_time : Text) → Session S → Result (Unit {0}) × Session S
  ensure_windows none config start_time s = (err (message (codes "err.executable_path") []), s)
  ensure_windows (some exe) config start_time s =
      let p = plan_task exe config start_time s.machine in
      let q = tools.schtasks query_args p.1 in task_queried p.0 q.0 (at_machine q.1 s)
