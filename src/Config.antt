-- ===== src/Config.antt =====
-- internal/config/config.go: the paths after loading, the name of the host in the names of
-- archives, and the place of the configuration file. Only the fields that these functions read
-- are modelled; reading the file is the library sconfig.
mod Host
mod Examples
use my_sql_backup.Base.{Bool, true, false, not, ◌&&◌, ◌||◌, Option, none, some, List, []}
use my_sql_backup.Base.Tests.{if◌then◌else◌}
use my_sql_backup.Base.Lists.{is_empty}
use my_sql_backup.Base.Texts.{Text, codes, text_eq, trim_space}
use my_sql_backup.Base.Paths.{clean, join, dir}

pub record Config : Type 0 where
  pub my_sql_host : Text
  pub my_sql_hostname : Text
  pub my_sql_bin : Text
  pub my_sql_data_dir : Text
  pub my_sql_backup_dir : Text
  pub backup_dir : Text
  pub log_filename : Text
  pub remote_backup_dir : Text
  pub remote_ssh_key_file : Text

abbrev clean_if_set : Text → Text
clean_if_set s = if is_empty s then s else clean s

unfoldable pub normalize_paths : Config → Config
normalize_paths c = record c {
  backup_dir = clean c.backup_dir;
  log_filename = clean c.log_filename;
  remote_backup_dir = clean c.remote_backup_dir;
  my_sql_bin = clean_if_set c.my_sql_bin;
  my_sql_data_dir = clean_if_set c.my_sql_data_dir;
  my_sql_backup_dir = clean_if_set c.my_sql_backup_dir;
  remote_ssh_key_file = clean_if_set c.remote_ssh_key_file;
}

abbrev pub is_local : Text → Bool
is_local h = text_eq h (codes "localhost") || text_eq h (codes "127.0.0.1")

unfoldable pub hostname_for_backup : Config → Text
hostname_for_backup c =
    let h = trim_space c.my_sql_host in
    let name = trim_space c.my_sql_hostname in
    if is_local h && not (is_empty name) then name else if is_empty h then codes "localhost" else h

-- What the system answers to `ConfigPath`: `none` where a call fails.
pub record Places : Type 0 where
  pub executable : Option Text
  pub exists_path : Text → Bool
  pub workdir : Option Text
  pub home : Option Text

abbrev config_name : Text
config_name = codes "config.json"

abbrev in_home : Option Text → Text
in_home none = config_name
in_home (some home) = join home config_name

abbrev in_workdir : Places → Option Text → Text
in_workdir p none = in_home p.home
in_workdir p (some cwd) =
    if p.exists_path (join cwd config_name) then join cwd config_name else in_home p.home

abbrev beside_executable : Places → Option Text → Text
beside_executable p (some exe) = join (dir exe) config_name
beside_executable p none = if p.exists_path config_name then config_name else in_workdir p p.workdir

unfoldable pub config_path : Places → (flag_path invoked_dir : Text) → Text
config_path p flag_path invoked_dir =
    if not (is_empty flag_path)
    then clean flag_path
    else if not (is_empty invoked_dir)
    then join invoked_dir config_name
    else beside_executable p p.executable
