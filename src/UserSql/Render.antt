-- ===== src/UserSql/Render.antt =====
-- internal/backup/usersql.go, `ParseUserSQL`: the statements that restore the users of a database.
-- The order in which a Go map gives its keys is open: `order` stands for the one of a run.
use my_sql_backup.Base.{not, ◌&&◌, ◌||◌, Option, none, some, List, [], ◌∷◌, ◌++◌}
use my_sql_backup.Base.Tests.{◌==◌, if◌then◌else◌}
use my_sql_backup.Base.Lists.{is_empty}
use my_sql_backup.Base.Texts.{Text, codes, text_eq, has_suffix, trim_space, replace_byte}
use my_sql_backup.Base.Keys.{has_key, put_key, lookup, insert, values}
use my_sql_backup.Regexp.{delete_all}
use my_sql_backup.UserSql.{
  GrantLine, UserRecord, Users, parse_user_records, has_different_passwords,
}
use my_sql_backup.UserSql.Patterns.{strip_ident_re}
use mathlib.Core.List.{reverse}

-- `escapeSQL`
unfoldable pub escape_sql : Text → Text
escape_sql s = replace_byte b'\'' (codes "''") (replace_byte 92 (92 ∷ 92 ∷ []) s)

unfoldable pub create_line : (name pass_hash host : Text) → Text
create_line name pass_hash host =
    codes "CREATE USER IF NOT EXISTS '"
    ++ (escape_sql name
        ++ (codes "'@'"
            ++ (escape_sql host
                ++ (if is_empty pass_hash
                    then codes "';\n"
                    else codes "' IDENTIFIED BY PASSWORD '"
                      ++ (escape_sql pass_hash ++ codes "';\n")))))

unfoldable pub create_lines : (name pass_hash : Text) → List Text → Text
create_lines name pass_hash [] = []
create_lines name pass_hash (h ∷ hs) =
    create_line name pass_hash h ++ create_lines name pass_hash hs

abbrev ended : Text → Text
ended s = if has_suffix s (codes ";") then s else s ++ codes ";"

abbrev grant_text : Text → Text
grant_text stripped = if is_empty stripped then [] else ended stripped ++ codes "\n"

unfoldable pub grant_lines_of : (db : Text) → List GrantLine → Text
grant_lines_of db [] = []
grant_lines_of db (g ∷ gs) =
    (if text_eq g.db db then grant_text (trim_space (delete_all strip_ident_re g.raw)) else [])
    ++ grant_lines_of db gs

-- What the string builder holds for a user and a database.
unfoldable pub block_of : UserRecord → (db : Text) → Text
block_of u db = create_lines u.name u.password u.hosts ++ grant_lines_of db u.grants

abbrev drop_newlines : Text → Text
drop_newlines [] = []
drop_newlines (c ∷ s) = if c == 10 then drop_newlines s else c ∷ s

-- `strings.TrimRight(s, "\n")`
unfoldable pub trim_newlines : Text → Text
trim_newlines s = reverse (drop_newlines (reverse s))

abbrev pub text_or_empty : Option Text → Text
text_or_empty none = []
text_or_empty (some s) = s

abbrev pub joined_to : (existing : Text) → Text → Text
joined_to existing s = (if is_empty existing then [] else existing ++ codes "\n\n") ++ s

-- A round of the loop over the databases of a user.
unfoldable pub put_block : UserRecord → Text → List (Text × Text) → List (Text × Text)
put_block u db m =
    let block = block_of u (trim_space db) in
    if is_empty (trim_space db) || is_empty block
    then m
    else insert (trim_space db)
        (joined_to (text_or_empty (lookup (trim_space db) m)) (trim_newlines block)) m

unfoldable pub put_blocks : UserRecord → List Text → List (Text × Text) → List (Text × Text)
put_blocks u [] m = m
put_blocks u (db ∷ dbs) m = put_blocks u dbs (put_block u db m)

-- A round of the loop over the users, for the order in which the set of databases gives its
-- elements.
unfoldable pub put_users :
    (Text → List Text → List Text) → Users → List (Text × Text) → List (Text × Text)
put_users db_order [] m = m
put_users db_order (u ∷ us) m = put_users db_order us (put_blocks u (db_order u.name u.dbs) m)

-- The names of the users whose hosts have different passwords.
unfoldable pub differing : Users → List Text
differing [] = []
differing (u ∷ us) =
    let rest = differing us in
    if not (is_empty u.dbs) && has_different_passwords (values u.pw_by_host)
    then u.name ∷ rest
    else rest

unfoldable pub names_of_hosts :
    (name : Text) → List Text → (seen names : List Text) → List Text × List Text
names_of_hosts name [] seen names = (seen, names)
names_of_hosts name (h ∷ hs) seen names =
    let key = name ++ (b'@' ∷ h) in
    names_of_hosts name hs (put_key key seen)
      (if has_key key seen then names else names ++ key ∷ [])

-- The loop of `userNamesFromUsers`.
unfoldable pub names_of_users : Users → (seen names : List Text) → List Text
names_of_users [] seen names = names
names_of_users (u ∷ us) seen names =
    let r = names_of_hosts u.name u.hosts seen names in names_of_users us r.0 r.1

unfoldable pub user_names_from_users : Users → List Text
user_names_from_users us = names_of_users us [] []

pub record UserSql : Type 0 where
  pub db_to_sql : List (Text × Text)
  pub user_names : List Text
  pub conflicts : List Text
  pub differing_users : List Text

-- The orders in which a run gets the users and the databases of a user.
pub record Orders : Type 0 where
  pub users : Users → Users
  pub names : Users → Users
  pub dbs : Text → List Text → List Text

unfoldable pub parse_user_sql : Orders → Text → UserSql
parse_user_sql o sql =
    let p = parse_user_records sql in
    if is_empty sql
    then record { db_to_sql = []; user_names = []; conflicts = []; differing_users = [] }
    else record {
      db_to_sql = put_users o.dbs (o.users p.users) [];
      user_names = user_names_from_users (o.names p.users);
      conflicts = p.conflicts;
      differing_users = differing (o.users p.users);
    }
