-- ===== src/Run/Examples.antt =====
-- Runs of internal/run/run.go, and the theorems at concrete data.
use my_sql_backup.Base.{◌≡◌, refl, inr, true, false, none, some, List, [], ◌∷◌}
use my_sql_backup.Base.Texts.{Text, codes, trim_space, to_lower, has_suffix}
use my_sql_backup.Run.{
  RunConfig, Answers, backup, split_from, split_command_line, lifecycle_command, start_server,
  back_up_server,
}
use my_sql_backup.Run.Reports.{Reported, Balanced, backup-Reported, backup-Balanced}
use my_sql_backup.Run.Commands.{spelled, split_command_line-spelled}

abbrev config : RunConfig
config = record {
  my_sql_auto_start_stop = true;
  my_sql_start_cmd = codes "mysqld";
  my_sql_stop_cmd = codes "mysqladmin shutdown";
}

-- The server has to be started, and has no databases.
abbrev no_databases : Answers
no_databases = record {
  available = none;
  reachable = false;
  port_reachable = false;
  start_cmd = true;
  wait_for_my_sql = true;
  is_maria_db = some true;
  databases = some [];
  users = some [];
  backup = λ dbs users. true;
  retention = true;
  remote = true;
  stop_cmd = true;
  email = λ subject. false;
}

-- The server that was started for nothing keeps running.
left_running : Balanced (backup config no_databases)
unfolding backup start_server back_up_server
left_running = inr (refl, refl)

parts_of_a_command :
    lifecycle_command false (codes " \"C:\\my sql\\stop\" -u root ")
    ≡ some (codes "C:\\my sql\\stop", codes "-u" ∷ codes "root" ∷ [])
unfolding lifecycle_command split_command_line split_from trim_space to_lower has_suffix
parts_of_a_command = refl

backup-Reported_example : Reported no_databases.email (backup config no_databases)
backup-Reported_example = backup-Reported config no_databases

backup-Balanced_example : Balanced (backup config no_databases)
backup-Balanced_example = backup-Balanced config no_databases

abbrev words : List Text
words = codes "a b" ∷ codes "c" ∷ []

split_command_line-spelled_example : split_command_line (spelled words) ≡ words
split_command_line-spelled_example =
    split_command_line-spelled words ((refl, (refl, (refl, tt))), ((refl, tt), tt))
