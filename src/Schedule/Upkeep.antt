-- ===== src/Schedule/Upkeep.antt =====
-- The scheduled task on Windows: what an installation leaves, and what a second one does.
use my_sql_backup.Base.{◌≡◌, refl, sym, ap, ◌∙◌, Option, none, some, ◌++◌}
use my_sql_backup.Base.Tests.{if◌then◌else◌}
use my_sql_backup.Base.Lists.{is_empty}
use my_sql_backup.Base.Texts.{Text, codes, trim_space}
use mathlib.Core.Path.{subst}
use my_sql_backup.Schedule.Windows.{
  Tools, Filepath, run_script, list_args, query_args, delete_args, listed_run, shown_run,
  drive_script, settings_script, working_dir_script, create_script, Session, at_machine, applied,
  run_listed, windows_task_get_run_string, drive_of, on_share, ask_drive, resolve_drive_to_unc,
  apply_windows_task_settings, apply_windows_task_working_dir, plan_task,
}

module _ {S : Type 0} (tools : Tools S) where
  -- The drives have the same roots.
  abbrev pub SameDrives : (m n : S) → Type 0
  SameDrives m n =
      (d : Text) → (tools.powershell (drive_script d) n).0 ≡ (tools.powershell (drive_script d) m).0

  -- The programs show the same task and the same drives.
  pub record Same (m n : S) : Type 0 where
    pub shown : (tools.powershell run_script n).0 ≡ (tools.powershell run_script m).0
    pub listed : (tools.schtasks list_args n).0 ≡ (tools.schtasks list_args m).0
    pub queried : (tools.schtasks query_args n).0 ≡ (tools.schtasks query_args m).0
    pub drives : SameDrives m n

  -- The query finds the task, and its run string is the one of `run`, but for white space at its
  -- ends.
  pub record Runs (run : Text) (m : S) : Type 0 where
    pub printed : Text
    pub found : Text
    pub shows : (tools.powershell run_script m).0 ≡ some printed
    pub as_planned : trim_space printed ≡ trim_space run
    pub exists : (tools.schtasks query_args m).0 ≡ some found

  -- What the programs do: questions and the two settings leave the task and its command as they
  -- are, only the calls for the task change it, and a task that was registered is shown.
  pub record ToolLaws : Type 0 where
    pub shows_only : (m : S) → Same m (tools.powershell run_script m).1
    pub lists_only : (m : S) → Same m (tools.schtasks list_args m).1
    pub queries_only : (m : S) → Same m (tools.schtasks query_args m).1
    pub asks_only : (d : Text) (m : S) → Same m (tools.powershell (drive_script d) m).1
    pub sets_only : (m : S) → Same m (tools.powershell settings_script m).1
    pub moves_only : (w : Text) (m : S) → Same m (tools.powershell (working_dir_script w) m).1
    pub deletes : (m : S) → SameDrives m (tools.schtasks delete_args m).1
    pub creates :
        (argument work_dir start : Text) (m : S)
        → SameDrives m (tools.powershell (create_script argument work_dir start) m).1
    pub registers :
        (argument work_dir start out : Text) (m : S)
        → (tools.powershell (create_script argument work_dir start) m).0 ≡ some out
        → Runs
            (codes "cmd.exe " ++ argument)
            (tools.powershell (create_script argument work_dir start) m).1

module _ {S : Type 0} {tools : Tools S} where
  pub Same-refl : (m : S) → Same tools m m
  Same-refl m = record { shown = refl; listed = refl; queried = refl; drives = λ d. refl }

  pub Same-trans : {l m n : S} → Same tools l m → Same tools m n → Same tools l n
  Same-trans a b = record {
    shown = b.shown ∙ a.shown;
    listed = b.listed ∙ a.listed;
    queried = b.queried ∙ a.queried;
    drives = λ d. b.drives d ∙ a.drives d;
  }

  pub Runs-Same : {run : Text} {m n : S} → Runs tools run m → Same tools m n → Runs tools run n
  Runs-Same r s = record {
    printed = r.printed;
    found = r.found;
    shows = s.shown ∙ r.shows;
    as_planned = r.as_planned;
    exists = s.queried ∙ r.exists;
  }

module _ {S : Type 0} (tools : Tools S) (laws : ToolLaws tools) where
  later_drives :
      {m m' n n' : S}
      → Same tools m m'
      → Same tools n n'
      → SameDrives tools m n
      → SameDrives tools m' n'
  later_drives a b s = λ d. b.drives d ∙ s d ∙ sym (a.drives d)

  pub resolve_Same : (path : Text) (m : S) → Same tools m (resolve_drive_to_unc tools path m).1
  unfolding resolve_drive_to_unc
  resolve_Same path m = asked (drive_of path)
    where
      asked : (o : Option (Text × Text)) → Same tools m (ask_drive tools path o m).1
      asked none = Same-refl m
      asked (some (d, rest)) = laws.asks_only d m

  resolve_answer :
      (path : Text) (m n : S)
      → SameDrives tools m n
      → (resolve_drive_to_unc tools path n).0 ≡ (resolve_drive_to_unc tools path m).0
  unfolding resolve_drive_to_unc
  resolve_answer path m n s = asked (drive_of path)
    where
      asked :
          (o : Option (Text × Text)) → (ask_drive tools path o n).0 ≡ (ask_drive tools path o m).0
      asked none = refl
      asked (some (d, rest)) = ap (on_share path rest) (s d)

  pub read_Same : (m : S) → Same tools m (windows_task_get_run_string tools m).1
  unfolding windows_task_get_run_string
  read_Same m = read (shown_run (tools.powershell run_script m).0)
    where
      read :
          (o : Option Text) → Same tools m (run_listed tools o (tools.powershell run_script m).1).1
      read (some run) = laws.shows_only m
      read none = Same-trans (laws.shows_only m) (laws.lists_only (tools.powershell run_script m).1)

  pub read_answer :
      (m n : S)
      → Same tools m n
      → (windows_task_get_run_string tools n).0 ≡ (windows_task_get_run_string tools m).0
  unfolding windows_task_get_run_string
  read_answer m n s =
      ap (λ (o : Option Text). (run_listed tools (shown_run o) (tools.powershell run_script n).1).0)
        s.shown
      ∙ read (shown_run (tools.powershell run_script m).0)
    where
      m' : S
      m' = (tools.powershell run_script m).1

      n' : S
      n' = (tools.powershell run_script n).1

      read : (o : Option Text) → (run_listed tools o n').0 ≡ (run_listed tools o m').0
      read (some run) = refl
      read none =
          ap listed_run ((laws.shows_only n).listed ∙ s.listed ∙ sym (laws.shows_only m).listed)

  module _ (filepath : Filepath) where
    pub plan_Same :
        (exe config start : Text) (m : S)
        → Same tools m (plan_task tools filepath exe config start m).1
    unfolding plan_task
    plan_Same exe config start m =
        let d = filepath.dir (filepath.clean config) in
        let e = resolve_drive_to_unc tools (filepath.clean exe) m in
        let c = resolve_drive_to_unc tools (filepath.clean config) e.1 in
        Same-trans (resolve_Same (filepath.clean exe) m) (
          Same-trans (resolve_Same (filepath.clean config) e.1)
            (resolve_Same (if is_empty d then codes "." else d) c.1))

    pub plan_answer :
        (exe config start : Text) (m n : S)
        → SameDrives tools m n
        → (plan_task tools filepath exe config start n).0
          ≡ (plan_task tools filepath exe config start m).0
    unfolding plan_task
    plan_answer exe config start m n s =
        let d = filepath.dir (filepath.clean config) in
        let w = if is_empty d then codes "." else d in
        let e = resolve_drive_to_unc tools (filepath.clean exe) m in
        let e' = resolve_drive_to_unc tools (filepath.clean exe) n in
        let s' =
          later_drives (resolve_Same (filepath.clean exe) m) (resolve_Same (filepath.clean exe) n)
            s in
        let c = resolve_drive_to_unc tools (filepath.clean config) e.1 in
        let c' = resolve_drive_to_unc tools (filepath.clean config) e'.1 in
        let s'' =
          later_drives (resolve_Same (filepath.clean config) e.1)
            (resolve_Same (filepath.clean config) e'.1) s' in
        rw
          (
            resolve_answer (filepath.clean exe) m n s,
            resolve_answer (filepath.clean config) e.1 e'.1 s',
            resolve_answer w c.1 c'.1 s'',
          )
          refl

  applied_machine :
      (o : Option Text) (yes_key no_key : Text) (s : Session S)
      → (applied tools o yes_key no_key s).machine ≡ s.machine
  applied_machine none yes_key no_key s = refl
  applied_machine (some out) yes_key no_key s = refl

  pub settings_Same :
      (s : Session S) → Same tools s.machine (apply_windows_task_settings tools s).machine
  unfolding apply_windows_task_settings
  settings_Same s =
      subst (λ x. Same tools s.machine x)
        (sym (
          applied_machine (tools.powershell settings_script s.machine).0
            (codes "log.msg.windows_task_settings") (codes "log.warn.powershell_settings")
            (at_machine (tools.powershell settings_script s.machine).1 s)))
        (laws.sets_only s.machine)

  pub working_dir_Same :
      (w : Text) (s : Session S)
      → Same tools s.machine (apply_windows_task_working_dir tools w s).machine
  unfolding apply_windows_task_working_dir
  working_dir_Same w s =
      subst (λ x. Same tools s.machine x)
        (sym (
          applied_machine (tools.powershell (working_dir_script w) s.machine).0
            (codes "log.msg.windows_task_workdir") (codes "log.warn.powershell_workdir")
            (at_machine (tools.powershell (working_dir_script w) s.machine).1 s)))
        (laws.moves_only w s.machine)
