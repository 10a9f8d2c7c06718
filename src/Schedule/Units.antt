-- ===== src/Schedule/Units.antt =====
-- internal/schedule/schedule.go, the part for Linux: the units of systemd in the directory of the
-- user, the choice between them and cron, the status of the job and its removal.
use my_sql_backup.Base.{Bool, true, false, Option, none, some, List, [], ◌∷◌, ◌++◌}
use my_sql_backup.Base.Tests.{if◌then◌else◌}
use my_sql_backup.Base.Lists.{is_empty}
use my_sql_backup.Base.Texts.{Text, codes, trim_space}
use my_sql_backup.Base.Paths.{clean, dir, join}
use my_sql_backup.Base.Results.{os_error, message, Result, ok, err, warn}
use my_sql_backup.Schedule.{
  split_clock, Machine, say, ensure_unix_cron, crontab_has_marker, remove_crontab_marker,
}

abbrev pub service_name : Text
service_name = codes "mysqlbackup"

-- The directories and programs of the user: the home directory, and what the calls that change
-- the units answer.
pub record User : Type 0 where
  pub home : Option Text
  pub systemd_available : Bool
  pub dir_made : Bool
  pub service_written : Bool
  pub timer_written : Bool
  pub service_removed : Bool
  pub timer_removed : Bool

-- The machine with the two units, as far as they are there.
pub record Host : Type 0 where
  pub machine : Machine
  pub service : Option Text
  pub timer : Option Text

abbrev pub user_dir_of : (home : Text) → Text
user_dir_of home = join (join (join home (codes ".config")) (codes "systemd")) (codes "user")

abbrev pub timer_path_of : (home : Text) → Text
timer_path_of home = join (user_dir_of home) (service_name ++ codes ".timer")

abbrev pub at_host : Machine → Host → Host
at_host m h = record h { machine = m }

abbrev pub tell : Text → List Text → Host → Host
tell key args h = at_host (say key args h.machine) h

abbrev clock_text : Option (Text × Text) → Text
clock_text none = codes "22:00"
clock_text (some (hour, min)) = trim_space hour ++ (b':' ∷ trim_space min)

-- `OnCalendar`: the start time is not checked here.
unfoldable pub on_calendar : (start_time : Text) → Text
on_calendar start_time =
    codes "*-*-* "
    ++ (clock_text (split_clock (if is_empty start_time then codes "22:00" else start_time))
        ++ codes ":00")

unfoldable pub service_content : (exe config : Text) → Text
service_content exe config =
    codes
      "[Unit]\nDescription=MySQL Backup\nAfter=network.target\n\n[Service]\nType=oneshot\nExecStart="
    ++ (exe
        ++ (codes " --backup -config "
            ++ (config
                ++ (codes "\nWorkingDirectory="
                    ++ (dir config ++ codes "\n\n[Install]\nWantedBy=default.target\n")))))

unfoldable pub timer_content : (calendar : Text) → Text
timer_content calendar =
    codes "[Unit]\nDescription=Run MySQL Backup daily\n\n[Timer]\nOnCalendar="
    ++ (calendar ++ codes "\nPersistent=true\n\n[Install]\nWantedBy=timers.target\n")

module _ (user : User) where
  abbrev pub timer_stored : Bool → (dir content : Text) → Host → Result (Unit {0}) × Host
  timer_stored false dir content h = (err (message (codes "err.write_timer") []), h)
  timer_stored true dir content h = (
    ok tt,
    tell (codes "log.msg.systemd_created") (dir ∷ service_name ∷ [])
        (record h { timer = some content }),
  )

  abbrev pub service_stored : Bool → (dir service timer : Text) → Host → Result (Unit {0}) × Host
  service_stored false dir service timer h = (err (message (codes "err.write_service") []), h)
  service_stored true dir service timer h =
      timer_stored user.timer_written dir timer (record h { service = some service })

  abbrev pub dir_answered : Bool → (dir service timer : Text) → Host → Result (Unit {0}) × Host
  dir_answered false dir service timer h = (err (message (codes "err.mkdir_systemd_user") []), h)
  dir_answered true dir service timer h = service_stored user.service_written dir service timer h

  abbrev pub systemd_for :
      (home : Text) (exe : Option Text) (config start_time : Text) → Host → Result (Unit {0}) × Host
  systemd_for home none config start_time h = (err (message (codes "err.executable_path") []), h)
  systemd_for home (some exe) config start_time h =
      dir_answered user.dir_made (user_dir_of home) (service_content (clean exe) config)
        (timer_content (on_calendar start_time)) h

  abbrev pub ensure_linux_systemd :
      (home exe : Option Text) (config start_time : Text) → Host → Result (Unit {0}) × Host
  ensure_linux_systemd none exe config start_time h = (err (message (codes "err.home_dir") []), h)
  ensure_linux_systemd (some home) exe config start_time h =
      systemd_for home exe config start_time h

  abbrev pub cron_for : Result (Unit {0}) × Machine → Host → Result (Unit {0}) × Host
  cron_for (r, m) h = (r, at_host m h)

  abbrev pub with_systemd :
      Bool
      → (home : Text) (exe : Option Text) (config start_time : Text) → Host
      → Result (Unit {0}) × Host
  with_systemd true home exe config start_time h =
      ensure_linux_systemd (some home) exe config start_time h
  with_systemd false home exe config start_time h =
      let m = record h.machine {
        log = h.machine.log ++ warn (codes "log.warn.systemd_fallback") [] ∷ [];
      } in
      cron_for (ensure_unix_cron exe start_time config m) h

  abbrev pub timer_found :
      Option Text
      → (home : Text) (exe : Option Text) (config start_time : Text) → Host
      → Result (Unit {0}) × Host
  timer_found (some t) home exe config start_time h =
      (ok tt, tell (codes "log.msg.systemd_exists") (timer_path_of home ∷ []) h)
  timer_found none home exe config start_time h =
      with_systemd user.systemd_available home exe config start_time h

  abbrev pub ensure_for :
      (home exe : Option Text) (config start_time : Text) → Host → Result (Unit {0}) × Host
  ensure_for none exe config start_time h = (err (message (codes "err.home_dir") []), h)
  ensure_for (some home) exe config start_time h = timer_found h.timer home exe config start_time h

  unfoldable pub ensure_unix :
      (exe : Option Text) (config start_time : Text) → Host → Result (Unit {0}) × Host
  ensure_unix exe config start_time h = ensure_for user.home exe config start_time h

  abbrev pub cron_status :
      Bool → (exe : Option Text) (config start_time : Text) → Option (Text × List Text)
  cron_status false exe config start_time = none
  cron_status true none config start_time = some (codes "job.cron", start_time ∷ [] ∷ config ∷ [])
  cron_status true (some exe) config start_time =
      some (codes "job.cron", start_time ∷ exe ∷ config ∷ [])

  abbrev pub unit_status :
      Option Text
      → (home : Text) (exe : Option Text) (config start_time : Text) → Machine
      → Option (Text × List Text)
  unit_status (some t) home exe config start_time m =
      some (codes "job.systemd", timer_path_of home ∷ start_time ∷ service_name ∷ config ∷ [])
  unit_status none home exe config start_time m =
      cron_status (crontab_has_marker m) exe config start_time

  abbrev pub status_for :
      (home exe : Option Text) (config start_time : Text) → Host → Option (Text × List Text)
  status_for none exe config start_time h = none
  status_for (some home) exe config start_time h =
      unit_status h.timer home exe config start_time h.machine

  -- `Status`, on Unix; `none` is the empty key.
  unfoldable pub status :
      (exe : Option Text) (config start_time : Text) → Host → Option (Text × List Text)
  status exe config start_time h =
      status_for user.home exe config (if is_empty start_time then codes "22:00" else start_time) h

  abbrev pub removed_unit : Bool → Option Text → Option Text
  removed_unit true u = none
  removed_unit false u = u

  abbrev pub had_systemd : Option Text → (dir : Text) → Host → Host
  had_systemd none dir h = h
  had_systemd (some t) dir h =
      tell
        (codes
          "systemd timer and service files removed from %s; run: systemctl --user daemon-reload")
        (dir ∷ []) h

  abbrev pub cron_removed : Result (Unit {0}) × Machine → Host → Result (Unit {0}) × Host
  cron_removed (ok u, m) h =
      (ok tt, tell (codes "cron entry for mysqlbackup removed") [] (at_host m h))
  cron_removed (err e, m) h = (err (message (codes "err.remove_cron") []), at_host m h)

  abbrev pub remove_cron : Bool → Host → Result (Unit {0}) × Host
  remove_cron false h = (ok tt, h)
  remove_cron true h = cron_removed (remove_crontab_marker h.machine) h

  abbrev pub uninstall_for : (home : Option Text) → Host → Result (Unit {0}) × Host
  uninstall_for none h = (err os_error, h)
  uninstall_for (some home) h =
      let units = record h {
        service = removed_unit user.service_removed h.service;
        timer = removed_unit user.timer_removed h.timer;
      } in
      let told = had_systemd h.timer (user_dir_of home) units in
      remove_cron (crontab_has_marker told.machine) told

  -- `Uninstall`, on Unix.
  unfoldable pub uninstall : Host → Result (Unit {0}) × Host
  uninstall h = uninstall_for user.home h
