-- ===== src/UserSql/Examples.antt =====
-- Runs of internal/backup/usersql.go, after its tests in usersql_test.go, and the theorems at
-- concrete data.
use my_sql_backup.Base.{◌≡◌, refl, ◌↔◌, false, some, [], ◌∷◌}
use my_sql_backup.Base.Texts.{
  Text, codes, text_eq, has_prefix, has_suffix, trim_suffix, trim_left, trim_space, replace_byte,
  to_upper,
}
use my_sql_backup.Base.Keys.{lookup, insert}
use my_sql_backup.Base.Lines.{split_lines, scan_lines, scan_within}
use my_sql_backup.Regexp.{
  matches, search_from, find_submatch, submatch, delete_from, delete_all, runs,
}
use my_sql_backup.UserSql.{
  extract_user_host, extract_ident_password, extract_grant_db, new_user_record, add_host,
  set_password, has_different_passwords, update_user, find_user, add_account, add_grant,
  put_account, put_grant, statement_of, parse_line, parse_lines, parse_user_records,
}
use my_sql_backup.UserSql.Patterns.{user_host_re, identified_by_re, grant_on_db_re, strip_ident_re}
use my_sql_backup.UserSql.Render.{
  escape_sql, create_line, create_lines, grant_lines_of, block_of, trim_newlines, put_block,
  put_blocks, put_users, Orders, parse_user_sql,
}
use my_sql_backup.UserSql.Parsing.{AreSound, parse_user_records-AreSound}
use my_sql_backup.UserSql.Sections.{section_of, statements, IsRunOrder, parse_user_sql-section_of}
use my_sql_backup.UserSql.Passwords.{
  AreSame, has_different_passwords_iff, read_create, create_line_read,
}
use mathlib.Core.List.{flat_map}
use mathlib.Core.List.Permᴰ

-- Unfolded by name, this runs `parseUserRecords`.
parsing : Unit {0}
unfolding text_eq has_prefix has_suffix trim_suffix trim_left trim_space to_upper split_lines
    scan_lines scan_within matches runs search_from find_submatch submatch extract_user_host
    extract_ident_password extract_grant_db new_user_record add_host set_password update_user
    find_user add_account add_grant put_account put_grant statement_of parse_line parse_lines
    parse_user_records user_host_re identified_by_re grant_on_db_re lookup insert flat_map
parsing = tt

-- Unfolded by name, this runs `ParseUserSQL`.
rendering : Unit {0}
unfolding parsing replace_byte delete_from delete_all strip_ident_re escape_sql create_line
    create_lines grant_lines_of block_of trim_newlines put_block put_blocks put_users parse_user_sql
rendering = tt

bare_names :
    extract_user_host (find_submatch user_host_re (codes "TO u4@h1;")) ≡ (codes "u4", codes "h1")
unfolding parsing
bare_names = refl

abbrev as_given : Orders
as_given = record { users = λ us. us; names = λ us. us; dbs = λ name ks. ks }

abbrev sql : Text
sql = codes "CREATE USER 'u'@'%' IDENTIFIED BY PASSWORD 'x';\nGRANT ALL ON `d`.* TO 'u'@'%';\n"

section_built :
    statements (codes "d") (parse_user_sql as_given sql).db_to_sql
    ≡ codes
        "CREATE USER IF NOT EXISTS 'u'@'%' IDENTIFIED BY PASSWORD 'x';\nGRANT ALL ON `d`.* TO 'u'@'%';"
unfolding rendering
section_built = refl

-- A right on a single table is for no database, so it stands in no section.
table_right_dropped :
    extract_grant_db (find_submatch grant_on_db_re (codes "GRANT SELECT ON `d`.`t` TO 'u'@'%'"))
    ≡ []
unfolding parsing
table_right_dropped = refl

parse_user_records-AreSound_example : AreSound (parse_user_records sql).users
parse_user_records-AreSound_example = parse_user_records-AreSound sql

abbrev as_given_order : IsRunOrder as_given (parse_user_records sql).users
as_given_order = record {
  users_perm = Permᴰ.refl (parse_user_records sql).users;
  dbs_order = λ name ks d. (λ k. refl, d);
}

parse_user_sql-section_of_example :
    statements (codes "d") (parse_user_sql as_given sql).db_to_sql
    ≡ section_of (codes "d") (parse_user_records sql).users []
parse_user_sql-section_of_example =
    parse_user_sql-section_of as_given sql (codes "d") refl as_given_order

has_different_passwords_iff_example :
    (has_different_passwords (codes "a" ∷ codes "b" ∷ []) ≡ false)
    ↔ AreSame (codes "a" ∷ codes "b" ∷ [])
has_different_passwords_iff_example =
    has_different_passwords_iff (codes "a" ∷ codes "b" ∷ []) (refl, (refl, tt))

create_line_read_example :
    read_create (create_line (codes "o'x") (codes "h") (codes "%"))
    ≡ some (record { user = codes "o'x"; host = codes "%"; password = some (codes "h") })
create_line_read_example = create_line_read (codes "o'x") (codes "h") (codes "%")
