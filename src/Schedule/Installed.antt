-- ===== src/Schedule/Installed.antt =====
-- The scheduled task on Windows: an installation that succeeds leaves the task as planned, and a
-- second one keeps it.
use my_sql_backup.Base.{◌≡◌, some, []}
use my_sql_backup.Base.Texts.{Text, codes, trim_space}
use my_sql_backup.Base.Results.{message, Result, ok, err}
use my_sql_backup.Schedule.Windows.{
  Tools, Filepath, query_args, Session, at_machine, windows_task_get_run_string, Plan,
  planned_task_run, plan_task, keep_task, ensure_windows,
}
use my_sql_backup.Schedule.Upkeep.{SameDrives, Same, ToolLaws}

module _ {S : Type 0} (tools : Tools S) (laws : ToolLaws tools) where
  -- The task is there, and the program reads the planned run string, but for white space at the
  -- ends.
  pub record IsInstalled (p : Plan) (m : S) : Type 0 where
    pub run : Text
    pub found : Text
    pub reads : (windows_task_get_run_string tools m).0 ≡ some run
    pub as_planned : trim_space run ≡ trim_space (planned_task_run p)
    pub exists : (tools.schtasks query_args m).0 ≡ some found

  module _ (filepath : Filepath) where
    -- How an installation ends that began on the machine `m`.
    Ends : Plan → S → Result (Unit {0}) × Session S → Type 0
    Ends p m (ok u, t) = IsInstalled p t.machine × SameDrives tools m t.machine
    Ends p m (err e, t) = e ≡ message (codes "err.schtasks_create") []

    module _ (exe config start : Text) (s : Session S) where
      abbrev pub the_plan : Plan
      the_plan = (plan_task tools filepath exe config start s.machine).0

      -- The task is as planned, and the same installation once more only repeats the two settings.
      abbrev pub Settled : Result (Unit {0}) × Session S → Type 0
      Settled (ok u, t) =
          IsInstalled the_plan t.machine
          × (m : S) × Same tools t.machine m
          × (ensure_windows tools filepath (some exe) config start t
              ≡ keep_task tools filepath the_plan (at_machine m t))
      Settled (err e, t) = e ≡ message (codes "err.schtasks_create") []
