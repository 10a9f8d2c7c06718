-- ===== src/Mysql/Databases.antt =====
-- The databases that a backup dumps.
use my_sql_backup.Base.{◌≡◌, refl, ap, Bool, true, false, not, List, [], ◌∷◌, arith}
use my_sql_backup.Base.Lists.{is_empty, keep}
use my_sql_backup.Base.Lines.{scan}
use my_sql_backup.Base.Texts.{Text, codes, text_eq, trim_space}
use my_sql_backup.Base.Keys.{has_key, text_eq_sym}
use my_sql_backup.Base.Results.{ok}
use my_sql_backup.Mysql.{Conn, Programs, query, list_databases, database_lines, is_system_line}
use mathlib.Core.List.{map}

-- The lines that name no database to back up.
abbrev pub skipped : List Text
skipped =
    []
    ∷ codes "Database"
    ∷ codes "information_schema"
    ∷ codes "performance_schema"
    ∷ codes "mysql"
    ∷ codes "sys"
    ∷ []

is_empty_lem : (l : Text) → text_eq [] l ≡ is_empty l
unfolding text_eq
is_empty_lem [] = refl
is_empty_lem (c ∷ l) = refl

is_system_line-has_key : (l : Text) → is_system_line l ≡ has_key l skipped
unfolding is_system_line
is_system_line-has_key l = ground (
  arith,
  is_empty_lem l,
  text_eq_sym l (codes "Database"),
  text_eq_sym l (codes "information_schema"),
  text_eq_sym l (codes "performance_schema"),
  text_eq_sym l (codes "mysql"),
  text_eq_sym l (codes "sys"),
)

database_lines-keep :
    (ls : List Text) → database_lines ls ≡ keep (λ l. not (has_key l skipped)) (map trim_space ls)
unfolding database_lines
database_lines-keep [] = refl
database_lines-keep (l ∷ ls) =
    ground (arith, database_lines-keep ls, is_system_line-has_key (trim_space l))

-- If the query succeeds and prints no line that is too long for the scanner, then the databases
-- are, in order, the lines that are neither blank nor `Database`, `information_schema`,
-- `performance_schema`, `mysql` or `sys`, without the white space around them.
pub list_databases-keep :
    (windows : Bool) (run : Programs) (c : Conn)
    → (query windows run c (codes "-e" ∷ codes "SHOW DATABASES" ∷ [])).succeeded ≡ true
    → (scan (query windows run c (codes "-e" ∷ codes "SHOW DATABASES" ∷ [])).out).too_long ≡ false
    → list_databases windows run c
      ≡ ok (
          keep
            (λ l. not (has_key l skipped))
            (map trim_space
              (scan
                (query windows run c (codes "-e" ∷ codes "SHOW DATABASES" ∷ [])).out).found_lines))
unfolding list_databases
list_databases-keep windows run c s t =
    rw (s, t)
      (ap ok (
        database_lines-keep
          (scan (query windows run c (codes "-e" ∷ codes "SHOW DATABASES" ∷ [])).out).found_lines))
