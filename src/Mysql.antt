-- ===== src/Mysql.antt =====
-- internal/mysql/mysql.go: the arguments of the client programs and the reading of what they
-- print. A program is a parameter: what it prints for its arguments, and whether it succeeds. A
-- port is not negative.
pub mod Literals
pub mod Databases
mod Examples
use my_sql_backup.Base.{
  ℕ, zero, suc, Bool, true, false, not, ◌&&◌, ◌||◌, Option, none, some, List, [], ◌∷◌, ◌++◌,
}
use my_sql_backup.Base.Tests.{leb, if◌then◌else◌}
use my_sql_backup.Base.Lists.{is_empty, length}
use my_sql_backup.Base.Texts.{
  Text, codes, text_eq, contains, trim_space, to_lower, replace_byte, has_suffix, trim_suffix,
}
use my_sql_backup.Base.Decimal.{decimal}
use my_sql_backup.Base.Lines.{scan, scan_within}
use my_sql_backup.Base.Paths.{join}
use my_sql_backup.Base.Results.{Error, os_error, message, Result, ok, err}

pub record Conn : Type 0 where
  pub host : Text
  pub port : ℕ
  pub user : Text
  pub password : Text
  pub bin_dir : Text

-- What `CombinedOutput` gives.
pub record Output : Type 0 where
  pub out : Text
  pub succeeded : Bool

abbrev pub Programs : Type 0
Programs = (path : Text) → List Text → Output

unfoldable pub bin_path : (windows : Bool) → Conn → Text → Text
bin_path windows c name =
    if is_empty (trim_space c.bin_dir)
    then name
    else join c.bin_dir (if windows then name ++ codes ".exe" else name)

unfoldable pub base_args : Conn → List Text
base_args c =
    (codes "-h" ∷ c.host ∷ codes "-P" ∷ decimal c.port ∷ codes "-u" ∷ c.user ∷ [])
    ++ (if is_empty c.password then [] else (codes "-p" ++ c.password) ∷ [])

-- The databases that are not backed up, and lines that name none.
unfoldable pub is_system_line : Text → Bool
is_system_line line =
    is_empty line
    || text_eq line (codes "Database")
    || text_eq line (codes "information_schema")
    || text_eq line (codes "performance_schema")
    || text_eq line (codes "mysql")
    || text_eq line (codes "sys")

unfoldable pub database_lines : List Text → List Text
database_lines [] = []
database_lines (l ∷ ls) =
    let rest = database_lines ls in
    if is_system_line (trim_space l) then rest else trim_space l ∷ rest

-- `ReplaceAll(s, "\\", "\\\\")` and `ReplaceAll(…, "'", "''")`
unfoldable pub escaped : Text → Text
escaped s = replace_byte b'\'' (codes "''") (replace_byte 92 (92 ∷ 92 ∷ []) s)

-- `strings.SplitN(line, "\t", n + 1)`
abbrev onto_part : ℕ → List Text → List Text
onto_part c [] = (c ∷ []) ∷ []
onto_part c (p ∷ ps) = (c ∷ p) ∷ ps

unfoldable pub split_tabs : ℕ → Text → List Text
split_tabs n [] = [] ∷ []
split_tabs zero (c ∷ s) = (c ∷ s) ∷ []
split_tabs (suc n) (c ∷ s) =
    let next = split_tabs n s in
    let same = split_tabs (suc n) s in if leb c 9 && leb 9 c then [] ∷ next else onto_part c same

-- `'user'@'host'`
abbrev pub account : (user host : Text) → Text
account user host = b'\'' ∷ (escaped user ++ (codes "'@'" ++ (escaped host ++ codes "'")))

unfoldable pub create_user : (user host plugin auth : Text) → Text
create_user user host plugin auth =
    codes "CREATE USER "
    ++ (account user host
        ++ (if not (is_empty plugin) && not (text_eq plugin (codes "mysql_native_password"))
            then codes " IDENTIFIED WITH "
              ++ (plugin ++ (codes " AS '" ++ (escaped auth ++ codes "';\n")))
            else if not (is_empty auth)
            then codes " IDENTIFIED BY PASSWORD '" ++ (escaped auth ++ codes "';\n")
            else codes ";\n"))

abbrev grant_line : Text → Text
grant_line g =
    if is_empty g
    then []
    else g ++ ((if has_suffix g (codes ";") then [] else codes ";") ++ codes "\n")

unfoldable pub grant_lines : List Text → Text
grant_lines [] = []
grant_lines (l ∷ ls) = grant_line (trim_space l) ++ grant_lines ls

module _ (windows : Bool) (run : Programs) (c : Conn) where
  -- A query with the client `mysql`.
  abbrev pub query : List Text → Output
  query args = run (bin_path windows c (codes "mysql")) (base_args c ++ args)

  unfoldable pub reachable : Result (Unit {0})
  reachable =
      if (query (codes "-e" ∷ codes "SELECT 1" ∷ [])).succeeded
      then ok tt
      else err (message (codes "err.mysql_reachable") [])

  unfoldable pub is_maria_db : Result Bool
  is_maria_db =
      let q = query (codes "-e" ∷ codes "SELECT @@version" ∷ []) in
      if q.succeeded
      then ok (contains (to_lower q.out) (codes "mariadb"))
      else err (message (codes "err.mysql_version") (q.out ∷ []))

  -- What was read before a line that is too long is dropped by the caller.
  unfoldable pub list_databases : Result (List Text)
  list_databases =
      let q = query (codes "-e" ∷ codes "SHOW DATABASES" ∷ []) in
      if q.succeeded
      then if (scan q.out).too_long
        then err os_error
        else ok (database_lines (scan q.out).found_lines)
      else err (message (codes "err.show_databases") (q.out ∷ []))

  abbrev grants_of : Output → Text
  grants_of q = if q.succeeded then grant_lines (scan q.out).found_lines else []

  -- A line of the table of users.
  unfoldable pub user_block : List Text → Text
  user_block (user ∷ host ∷ plugin ∷ auth ∷ []) =
      create_user user host (trim_space plugin) auth
      ++ grants_of
          (query (codes "-N" ∷ codes "-e" ∷ (codes "SHOW GRANTS FOR " ++ account user host) ∷ []))
  user_block parts = []

  unfoldable pub user_blocks : List Text → Text
  user_blocks [] = []
  user_blocks (l ∷ ls) = user_block (split_tabs 3 l) ++ user_blocks ls

  abbrev pub users_query : Text
  users_query =
      codes
        "SELECT user, host, plugin, COALESCE(authentication_string,'') FROM mysql.user WHERE user != '' AND user NOT IN ('root','mysql.sys','mysql.session','mariadb.sys')"

  unfoldable pub export_users_maria_db_fallback : Result Text
  export_users_maria_db_fallback =
      let q = query (codes "-N" ∷ codes "-e" ∷ users_query ∷ []) in
      let sc = scan_within 524288 q.out in
      if q.succeeded
      then if sc.too_long
        then err (message (codes "err.scan_user_list") [])
        else ok (user_blocks sc.found_lines)
      else err (message (codes "err.mysql_user_list") (q.out ∷ []))

  abbrev is_unsupported : Text → Bool
  is_unsupported text =
      contains text (codes "unknown")
      || contains text (codes "unrecognized")
      || contains text (codes "unknown variable")
      || contains text (codes "invalid")

  unfoldable pub export_users_maria_db : Result Text
  export_users_maria_db =
      let q =
        run (bin_path windows c (codes "mysqldump")) (base_args c ++ codes "--system=users" ∷ []) in
      if q.succeeded
      then ok q.out
      else if is_unsupported (to_lower q.out)
      then export_users_maria_db_fallback
      else err (message (codes "err.mysqldump_system_users") (q.out ∷ []))

  unfoldable pub export_users : (maria_db : Bool) → Result Text
  export_users maria_db =
      let q =
        run (bin_path windows c (codes "mysqlpump"))
          (base_args c ++ codes "--exclude-databases=%" ∷ codes "--users" ∷ []) in
      if maria_db
      then export_users_maria_db
      else if q.succeeded
      then ok q.out
      else err (message (codes "err.mysqlpump_users") (q.out ∷ []))

-- The arguments of `DumpDatabase`.
unfoldable pub dump_args : Conn → (maria_db : Bool) → Text → List Text
dump_args c maria_db db =
    base_args c
    ++ (codes "--single-transaction"
        ∷ codes "--routines"
        ∷ codes "--triggers"
        ∷ codes "--events"
        ∷ [])
    ++ (if maria_db then [] else codes "--set-gtid-purged=OFF" ∷ [])
    ++ (codes "--databases" ∷ db ∷ [])
