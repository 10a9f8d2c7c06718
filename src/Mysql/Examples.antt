-- ===== src/Mysql/Examples.antt =====
-- Runs of internal/mysql/mysql.go, and the theorems at concrete data.
use my_sql_backup.Base.{◌≡◌, refl, true, false, not, some, [], ◌∷◌, ◌++◌}
use my_sql_backup.Base.Lists.{keep}
use my_sql_backup.Base.Texts.{codes, text_eq, trim_space, trim_suffix, has_suffix, has_prefix}
use my_sql_backup.Base.Lines.{scan, split_lines, scan_lines}
use my_sql_backup.Base.Results.{ok}
use my_sql_backup.Base.Keys.{has_key}
use my_sql_backup.Mysql.{
  Conn, Programs, query, list_databases, is_system_line, escaped, database_lines,
}
use my_sql_backup.Mysql.Databases.{skipped, list_databases-keep}
use my_sql_backup.Mysql.Literals.{read_literal, read_literal-escaped}
use mathlib.Core.List.{map}

abbrev conn : Conn
conn = record {
  host = codes "localhost";
  port = 3306;
  user = codes "root";
  password = [];
  bin_dir = [];
}

abbrev programs : Programs
programs path args = record { out = codes "Database\nmysql\nshop\nsys\n"; succeeded = true }

-- Unfolded by name, this runs the scanner.
scanning : Unit {0}
unfolding scan split_lines scan_lines trim_space trim_suffix has_suffix has_prefix text_eq
    is_system_line
scanning = tt

shop_listed : list_databases false programs conn ≡ ok (codes "shop" ∷ [])
unfolding scanning list_databases database_lines
shop_listed = refl

list_databases-keep_example :
    list_databases false programs conn
    ≡ ok (
        keep
          (λ l. not (has_key l skipped))
          (map trim_space
            (scan
              (query false programs conn
                (codes "-e" ∷ codes "SHOW DATABASES" ∷ [])).out).found_lines))
list_databases-keep_example = list_databases-keep false programs conn refl (unfold scanning in refl)

read_literal-escaped_example :
    read_literal (escaped (codes "o'\\x") ++ (39 ∷ codes ";")) [] ≡ some (codes "o'\\x", codes ";")
read_literal-escaped_example = read_literal-escaped (codes "o'\\x") (codes ";") [] refl
