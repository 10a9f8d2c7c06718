-- ===== src/Config/Examples.antt =====
-- Runs of internal/config/config.go, and the theorem at concrete data.
use my_sql_backup.Base.{◌≡◌, refl, false, none, []}
use my_sql_backup.Base.Texts.{codes, text_eq, has_prefix}
use my_sql_backup.Base.Paths.{clean, clean_parts, path_parts, join, dir}
use my_sql_backup.Config.{Config, Places, normalize_paths, config_path}

abbrev config : Config
config = record {
  my_sql_host = codes " db.example ";
  my_sql_hostname = codes "shop";
  my_sql_bin = [];
  my_sql_data_dir = [];
  my_sql_backup_dir = [];
  backup_dir = codes "/a/./b/../c/";
  log_filename = [];
  remote_backup_dir = [];
  remote_ssh_key_file = [];
}

-- Unfolded by name, this cleans a path.
cleaning : Unit {0}
unfolding clean clean_parts path_parts has_prefix text_eq normalize_paths join dir config_path
cleaning = tt

dir_cleaned : (normalize_paths config).backup_dir ≡ codes "/a/c"
unfolding cleaning
dir_cleaned = refl

-- A directory that is not set is the current one after loading.
unset_is_current : (normalize_paths config).remote_backup_dir ≡ codes "."
unfolding cleaning
unset_is_current = refl

abbrev places : Places
places = record { executable = none; exists_path = λ p. false; workdir = none; home = none }

invoked_first : config_path places [] (codes "/opt/x") ≡ codes "/opt/x/config.json"
unfolding cleaning
invoked_first = refl
