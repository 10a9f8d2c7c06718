-- ===== src/Run.antt =====
-- internal/run/run.go: the order of a backup's parts, and the commands that start and stop the
-- server. What the parts answer is given, what the run does is a list of events.
pub mod Reports
pub mod Commands
pub mod Excerpts
mod Examples
use my_sql_backup.Base.{
  ℕ, zero, suc, ◌-◌, Bool, true, false, not, ◌&&◌, ◌||◌, Option, none, some, List, [], ◌∷◌, ◌++◌,
}
use my_sql_backup.Base.Tests.{ltb, leb, ◌==◌, if◌then◌else◌}
use my_sql_backup.Base.Lists.{length, drop, is_empty}
use my_sql_backup.Base.Int.{ℤ, pos, negsuc}
use my_sql_backup.Base.Texts.{Text, codes, trim_space, to_lower, has_suffix}
use my_sql_backup.Base.Results.{Error, message, Result, ok, err}

-- `disk.MinFreeBytes`, 100 MB
abbrev pub min_free_bytes : ℕ
min_free_bytes = 104857600

pub record RunConfig : Type 0 where
  pub my_sql_auto_start_stop : Bool
  pub my_sql_start_cmd : Text
  pub my_sql_stop_cmd : Text

-- What the parts of a run answer: `none` and `false` where they fail. `email` is the answer of
-- `email.Send`, which gives no error either where no address is configured.
pub record Answers : Type 0 where
  pub available : Option ℕ
  pub reachable : Bool
  pub port_reachable : Bool
  pub start_cmd : Bool
  pub wait_for_my_sql : Bool
  pub is_maria_db : Option Bool
  pub databases : Option (List Text)
  pub users : Option Text
  pub backup : List Text → Text → Bool
  pub retention : Bool
  pub remote : Bool
  pub stop_cmd : Bool
  pub email : (subject : Text) → Bool

pub data Event : Type 0 where
  -- a call of `email.Send` by `sendErrorEmail`
  emailed : (subject : Text) → Event
  logged : (key : Text) → Event
  warned : (key : Text) → Event
  ran_start : Event
  ran_stop : Event
  -- a call of `backup.Run`, and whether it gave no error
  dumped : List Text → Text → (done : Bool) → Event
  applied_retention : Event
  synced : Event

abbrev pub Run : Type 0
Run = Result (Unit {0}) × List Event

abbrev pub after : Event → Run → Run
after e (r, es) = (r, e ∷ es)

abbrev mail_answered : Bool → List Event
mail_answered true = []
mail_answered false = warned (codes "log.warn.email") ∷ []

module _ (cfg : RunConfig) (a : Answers) where
  -- `sendErrorEmail` and the return of an error.
  abbrev pub give_up : (subject key : Text) → Run
  give_up subject key = (err (message key []), emailed subject ∷ mail_answered (a.email subject))

  abbrev stop_answered : Bool → Run
  stop_answered true = (ok tt, [])
  stop_answered false = (ok tt, warned (codes "log.warn.mysql_stop") ∷ [])

  unfoldable pub stop_server : (we_started : Bool) → Run
  stop_server we_started =
      if we_started && (cfg.my_sql_auto_start_stop && not (is_empty cfg.my_sql_stop_cmd))
      then after (logged (codes "log.msg.mysql_stopping"))
          (after ran_stop (stop_answered a.stop_cmd))
      else (ok tt, [])

  abbrev remote_answered : Bool → (we_started : Bool) → Run
  remote_answered true we_started = stop_server we_started
  remote_answered false we_started =
      give_up (codes "email.subject.remote") (codes "err.remote_sync")

  unfoldable pub copy_remote : (we_started : Bool) → Run
  copy_remote we_started = after synced (remote_answered a.remote we_started)

  abbrev retention_answered : Bool → Run → Run
  retention_answered true r = r
  retention_answered false r = after (warned (codes "log.warn.retention")) r

  unfoldable pub apply_retention : (we_started : Bool) → Run
  apply_retention we_started =
      after applied_retention (retention_answered a.retention (copy_remote we_started))

  abbrev backup_answered : Bool → (we_started : Bool) → Run
  backup_answered true we_started = apply_retention we_started
  backup_answered false we_started = give_up (codes "email.subject.dump") (codes "err.backup")

  unfoldable pub dump_all : (we_started : Bool) → List Text → Text → Run
  dump_all we_started dbs users =
      after (dumped dbs users (a.backup dbs users))
        (backup_answered (a.backup dbs users) we_started)

  abbrev users_answered : Option Text → (we_started : Bool) → List Text → Run
  users_answered (some users) we_started dbs = dump_all we_started dbs users
  users_answered none we_started dbs =
      after (warned (codes "log.warn.export_users")) (dump_all we_started dbs [])

  abbrev databases_answered : Option (List Text) → (we_started : Bool) → Run
  databases_answered none we_started =
      give_up (codes "email.subject.list_dbs") (codes "err.list_databases")
  databases_answered (some []) we_started = (ok tt, logged (codes "log.msg.no_user_dbs") ∷ [])
  databases_answered (some (db ∷ dbs)) we_started = users_answered a.users we_started (db ∷ dbs)

  abbrev server_answered : Option Bool → (we_started : Bool) → Run
  server_answered none we_started =
      give_up (codes "email.subject.mysql_server") (codes "err.mysql_server")
  server_answered (some maria) we_started = databases_answered a.databases we_started

  unfoldable pub back_up_server : (we_started : Bool) → Run
  back_up_server we_started = server_answered a.is_maria_db we_started

  abbrev wait_answered : Bool → Run
  wait_answered true = after (logged (codes "log.msg.mysql_started")) (back_up_server true)
  wait_answered false = give_up (codes "email.subject.mysql_timeout") (codes "err.mysql_timeout")

  abbrev start_answered : Bool → Run
  start_answered true = wait_answered a.wait_for_my_sql
  start_answered false = give_up (codes "email.subject.mysql_start") (codes "err.mysql_start")

  abbrev port_answered : Bool → Run
  port_answered true = after (logged (codes "log.msg.mysql_port_skip")) (back_up_server false)
  port_answered false =
      after (logged (codes "log.msg.mysql_starting")) (after ran_start (start_answered a.start_cmd))

  -- Whether the run may start the server.
  abbrev pub manages_server : Bool
  manages_server =
      cfg.my_sql_auto_start_stop
      && (not (is_empty cfg.my_sql_start_cmd) && not (is_empty cfg.my_sql_stop_cmd))

  abbrev reachable_answered : Bool → Run
  reachable_answered true = back_up_server false
  reachable_answered false = port_answered a.port_reachable

  unfoldable pub start_server : Run
  start_server = if manages_server then reachable_answered a.reachable else back_up_server false

  abbrev space_answered : Option ℕ → Run
  space_answered none = after (warned (codes "log.warn.disk_check")) start_server
  space_answered (some n) =
      if ltb n min_free_bytes
      then give_up (codes "email.subject.disk") (codes "err.disk_space")
      else start_server

  -- `Backup`
  unfoldable pub backup : Run
  backup = space_answered a.available

-- The variables of the loop of `splitCommandLine`: the parts so far and the current one, the last
-- element first, and whether a quote is open.
abbrev is_quote : ℕ → Bool
is_quote c = if c == b'"' then true else c == b'\''

abbrev is_blank : ℕ → Bool
is_blank c = if c == b' ' then true else c == 9

abbrev flush : Text → List Text → List Text
flush [] parts = parts
flush (c ∷ b) parts = parts ++ (c ∷ b) ∷ []

-- The parts of the text, after `parts` and the characters `b` of the current part were read.
unfoldable pub split_from : Text → (in_quote : Bool) (b : Text) → List Text → List Text
split_from [] in_quote b parts = flush b parts
split_from (r ∷ s) in_quote b parts =
    let quoted = split_from s (not in_quote) b parts in
    let blank =
      split_from s in_quote (if in_quote then b ++ r ∷ [] else [])
        (if in_quote then parts else flush b parts) in
    let other = split_from s in_quote (b ++ r ∷ []) parts in
    if is_quote r then quoted else if is_blank r then blank else other

unfoldable pub split_command_line : Text → List Text
split_command_line s = split_from s false [] []

-- What `runMySQLLifecycleCmd` runs: a program with its arguments, or nothing.
abbrev command_of : List Text → Option (Text × List Text)
command_of [] = none
command_of (name ∷ args) = some (name, args)

unfoldable pub lifecycle_command : (windows : Bool) (cmd : Text) → Option (Text × List Text)
lifecycle_command windows cmd =
    let c = trim_space cmd in
    let batch = has_suffix (to_lower c) (codes ".bat") in
    let script = has_suffix (to_lower c) (codes ".cmd") in
    if is_empty c
    then none
    else if windows && (if batch then true else script)
    then some (codes "cmd", codes "/c" ∷ c ∷ [])
    else command_of (split_command_line c)

-- The excerpt of the log in an e-mail: at most its last 4096 bytes.
unfoldable pub excerpt_of : Text → Text
excerpt_of log = if ltb 4096 (length log) then drop (length log - 4096) log else log

-- What the system answers about the file of the log: it cannot be opened, it is opened and `Stat`
-- fails, or it has a content, of which one call of `Read` or `ReadAt` gives `got` bytes at most.
pub data LogFile : Type 0 where
  not_opened : LogFile
  no_info : LogFile
  log_file : (content : Text) (got : ℕ) → LogFile

-- A buffer of zeros for the bytes `s`, after the first `got` of them were read into it.
unfoldable pub filled : (got : ℕ) (s : Text) → Text
filled got [] = []
filled zero (c ∷ s) = 0 ∷ filled zero s
filled (suc got) (c ∷ s) = c ∷ filled got s

abbrev excerpt_read : (max_bytes : ℕ) → LogFile → Text
excerpt_read n not_opened = []
excerpt_read n no_info = []
excerpt_read n (log_file log got) =
    filled got (if leb (length log) n then log else drop (length log - n) log)

-- `CaptureLogExcerpt`; the errors of `Read` and `ReadAt` are dropped.
unfoldable pub capture_log_excerpt :
    (opened : Text → LogFile) (log_path : Text) (max_bytes : ℤ) → Text
capture_log_excerpt opened log_path (negsuc n) = []
capture_log_excerpt opened log_path (pos n) =
    if is_empty log_path || n == 0 then [] else excerpt_read n (opened log_path)
