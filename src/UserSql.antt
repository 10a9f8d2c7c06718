-- ===== src/UserSql.antt =====
-- internal/backup/usersql.go: the statements that create the users of a server and grant rights,
-- read into one record for each user. A Go map is the list of its keys, or of its entries, in the
-- order in which they were put in. A line is a list of code points.
pub mod Patterns
pub mod Render
pub mod Records
pub mod Parsing
pub mod Sections
mod Examples
pub mod Passwords
use my_sql_backup.Base.{
  ℕ, Bool, true, false, not, ◌&&◌, ◌||◌, Option, none, some, List, [], ◌∷◌, ◌++◌,
}
use my_sql_backup.Base.Tests.{◌==◌, if◌then◌else◌}
use my_sql_backup.Base.Lists.{is_empty, exists_in}
use my_sql_backup.Base.Texts.{Text, codes, text_eq, has_prefix, trim_space, to_upper}
use my_sql_backup.Base.Keys.{has_key, put_key, lookup, insert}
use my_sql_backup.Base.Lines.{scan_within}
use my_sql_backup.Regexp.{Found, find_submatch, submatch}
use my_sql_backup.UserSql.Patterns.{user_host_re, identified_by_re, grant_on_db_re}

abbrev pub Groups : Type 0
Groups = Option Found

-- `m[n]`, where `m` may be nil
abbrev group_of : ℕ → Found → Text
group_of n f = submatch n f.groups

-- `extractUserHost`
unfoldable pub extract_user_host : Groups → Text × Text
extract_user_host none = ([], [])
extract_user_host (some f) = (
  trim_space (group_of 1 f ++ (group_of 2 f ++ (group_of 3 f ++ group_of 4 f))),
  trim_space (group_of 5 f ++ (group_of 6 f ++ (group_of 7 f ++ group_of 8 f))),
)

-- `extractIdentPassword`
unfoldable pub extract_ident_password : Groups → Text
extract_ident_password none = []
extract_ident_password (some f) = trim_space (group_of 1 f ++ (group_of 2 f ++ group_of 3 f))

-- `extractGrantDb`
unfoldable pub extract_grant_db : Groups → Text
extract_grant_db none = []
extract_grant_db (some f) =
    let db = trim_space (group_of 1 f ++ (group_of 2 f ++ (group_of 3 f ++ group_of 4 f))) in
    if text_eq db (codes "*") then [] else db

pub record GrantLine : Type 0 where
  pub raw : Text
  pub db : Text

pub record UserRecord : Type 0 where
  pub name : Text
  pub hosts : List Text
  pub host_set : List Text
  pub password : Text
  pub pw_by_host : List (Text × Text)
  pub grants : List GrantLine
  pub dbs : List Text

unfoldable pub new_user_record : Text → UserRecord
new_user_record name = record {
  name = name;
  hosts = [];
  host_set = [];
  password = [];
  pw_by_host = [];
  grants = [];
  dbs = [];
}

unfoldable pub add_host : Text → UserRecord → UserRecord
add_host host u =
    if has_key host u.host_set
    then u
    else record u { hosts = u.hosts ++ host ∷ []; host_set = put_key host u.host_set }

abbrev pub differs : Option Text → Text → Bool
differs none hash = false
differs (some prev) hash = not (text_eq prev hash)

-- `setPassword`: whether there was no conflict, and the record.
unfoldable pub set_password : (host hash : Text) → UserRecord → Bool × UserRecord
set_password host hash u =
    if is_empty hash
    then (true, u)
    else if differs (lookup host u.pw_by_host) hash
    then (false, u)
    else (
      true,
      record u {
        pw_by_host = insert host hash u.pw_by_host;
        password = if is_empty u.password then hash else u.password;
      },
    )

-- The loop of `hasDifferentPasswords`, where `first` was found.
unfoldable pub differ_from : (first : Text) → List Text → Bool
differ_from first [] = false
differ_from first (p ∷ ps) =
    (not (is_empty first) && not (text_eq p first))
    || differ_from (if is_empty first then p else first) ps

abbrev at_most_one : List Text → Bool
at_most_one [] = true
at_most_one (p ∷ []) = true
at_most_one (p ∷ q ∷ ps) = false

-- `hasDifferentPasswords`, for the order in which the map gives its values.
unfoldable pub has_different_passwords : List Text → Bool
has_different_passwords ps = if at_most_one ps then false else differ_from [] ps

abbrev pub Users : Type 0
Users = List UserRecord

-- The users, and how many warnings about passwords were given.
pub record Parsed : Type 0 where
  pub users : Users
  pub conflicts : List Text

-- `users[name]`, changed by `f`; a new record where there is none.
unfoldable pub update_user : Text → (UserRecord → UserRecord) → Users → Users
update_user name f [] = f (new_user_record name) ∷ []
update_user name f (u ∷ us) =
    let rest = update_user name f us in if text_eq u.name name then f u ∷ us else u ∷ rest

unfoldable pub find_user : Text → Users → UserRecord
find_user name [] = new_user_record name
find_user name (u ∷ us) = let rest = find_user name us in if text_eq u.name name then u else rest

-- The host and the password of a statement, for the record of its user.
unfoldable pub add_account : (host pw : Text) → UserRecord → UserRecord
add_account host pw u = (set_password host pw (add_host host u)).1

abbrev pub put_db : Text → List Text → List Text
put_db db dbs = if is_empty db then dbs else put_key db dbs

-- The database and the line of a GRANT.
unfoldable pub add_grant : (line db : Text) → UserRecord → UserRecord
add_grant line db u = record u {
  dbs = put_db db u.dbs;
  grants = u.grants ++ record { raw = line; db = db } ∷ [];
}

abbrev with_conflict : Bool → Text → List Text → List Text
with_conflict true name cs = cs
with_conflict false name cs = cs ++ name ∷ []

unfoldable pub put_account : (name host pw : Text) → Parsed → Parsed
put_account name host pw p = record {
  users = update_user name (add_account host pw) p.users;
  conflicts =
      with_conflict (set_password host pw (add_host host (find_user name p.users))).0 name
        p.conflicts;
}

unfoldable pub put_grant : (name host pw line db : Text) → Parsed → Parsed
put_grant name host pw line db p = record {
  users = update_user name (λ u. add_grant line db (add_account host pw u)) p.users;
  conflicts =
      with_conflict (set_password host pw (add_host host (find_user name p.users))).0 name
        p.conflicts;
}

-- The three kinds of a line.
pub data Statement : Type 0 where
  create_user : Statement
  grant : Statement
  other : Statement

unfoldable pub statement_of : Text → Statement
statement_of trimmed =
    let upper = to_upper trimmed in
    if has_prefix upper (codes "CREATE USER ")
    then create_user
    else if has_prefix upper (codes "GRANT ")
    then grant
    else other

abbrev put_statement : Statement → (line trimmed name host : Text) → Parsed → Parsed
put_statement create_user line trimmed name host p =
    put_account name host (extract_ident_password (find_submatch identified_by_re trimmed)) p
put_statement grant line trimmed name host p =
    put_grant name host (extract_ident_password (find_submatch identified_by_re trimmed)) line
      (extract_grant_db (find_submatch grant_on_db_re trimmed)) p
put_statement other line trimmed name host p = p

-- A round of the loop of `parseUserRecords`. A line of neither kind is skipped before any match.
unfoldable pub parse_line : Text → Parsed → Parsed
parse_line line p =
    let trimmed = trim_space line in
    let account = extract_user_host (find_submatch user_host_re trimmed) in
    if is_empty account.0 || is_empty account.1
    then p
    else put_statement (statement_of trimmed) line trimmed account.0 account.1 p

unfoldable pub parse_lines : List Text → Parsed → Parsed
parse_lines [] p = p
parse_lines (l ∷ ls) p = parse_lines ls (parse_line l p)

abbrev pub no_users : Parsed
no_users = record { users = []; conflicts = [] }

-- An error of the scanner is dropped: a line of 1 MB ends the list.
unfoldable pub parse_user_records : Text → Parsed
parse_user_records sql = parse_lines (scan_within 1048576 sql).found_lines no_users
