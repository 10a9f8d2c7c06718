-- ===== src/UserSql/Parsing.antt =====
-- What is true of the map of the users after any number of lines.
use my_sql_backup.Base.{
  ◌≡◌, refl, ap, ◌∙◌, Bool, true, false, ◌||◌, none, some, List, [], ◌∷◌, ◌++◌, arith,
}
use my_sql_backup.Base.Tests.{if◌then◌else◌}
use my_sql_backup.Base.Lists.{All, exists_in, is_empty}
use my_sql_backup.Base.Texts.{Text, text_eq, text_eq_sound, codes, trim_left, trim_space}
use my_sql_backup.Base.Trim.{trim_space-trim_space}
use my_sql_backup.Base.Keys.{text_eq_sym}
use my_sql_backup.Base.Lines.{scan_within}
use my_sql_backup.Regexp.{find_submatch, submatch}
use my_sql_backup.UserSql.{
  UserRecord, Users, Parsed, Statement, create_user, grant, other, new_user_record, add_host,
  set_password, add_account, add_grant, update_user, put_account, put_grant, put_statement,
  statement_of, Groups, extract_grant_db, extract_user_host, parse_line, parse_lines,
  parse_user_records, no_users,
}
use my_sql_backup.UserSql.Patterns.{user_host_re, grant_on_db_re}
use my_sql_backup.UserSql.Records.{
  IsSound, IsListed, new_user_record-IsSound, add_account-IsListed, add_grant-IsSound,
}

-- The map of the users: every record is sound and has a host, and no name is empty or stands twice.
abbrev pub has_name : Text → Users → Bool
has_name name us = exists_in (λ u. text_eq u.name name) us

abbrev pub NamesDiffer : Users → Type 0
NamesDiffer [] = Unit {0}
NamesDiffer (u ∷ us) = (has_name u.name us ≡ false) × NamesDiffer us

abbrev pub IsNamed : UserRecord → Type 0
IsNamed u = is_empty u.name ≡ false

abbrev pub AreSound : Users → Type 0
AreSound us = All IsListed us × All IsNamed us × NamesDiffer us

-- What a change of a record has to keep for the map to stay sound.
abbrev Keeps : (UserRecord → UserRecord) → Type 0
Keeps f = (u : UserRecord) → IsSound u → IsListed (f u) × ((f u).name ≡ u.name)

update_user-IsListed :
    (name : Text) (f : UserRecord → UserRecord) (us : Users)
    → Keeps f
    → All IsListed us
    → All IsListed (update_user name f us)
unfolding update_user
update_user-IsListed name f [] k h =
    ((k (new_user_record name) (new_user_record-IsSound name)).0, tt)
update_user-IsListed name f (u ∷ us) k h =
    by_test (text_eq u.name name) (update_user-IsListed name f us k h.1)
  where
    by_test :
        (b : Bool)
        → All IsListed (update_user name f us)
        → All IsListed (if b then f u ∷ us else u ∷ update_user name f us)
    by_test true ih = ((k u h.0.0).0, h.1)
    by_test false ih = (h.0, ih)

-- The name of the record that is changed, and of a new one.
update_user-IsNamed :
    (name : Text) (f : UserRecord → UserRecord) (us : Users)
    → Keeps f
    → is_empty name ≡ false
    → All IsListed us
    → All IsNamed us
    → All IsNamed (update_user name f us)
unfolding update_user new_user_record
update_user-IsNamed name f [] k n l h =
    (ap is_empty (k (new_user_record name) (new_user_record-IsSound name)).1 ∙ n, tt)
update_user-IsNamed name f (u ∷ us) k n l h =
    by_test (text_eq u.name name) (update_user-IsNamed name f us k n l.1 h.1)
  where
    by_test :
        (b : Bool)
        → All IsNamed (update_user name f us)
        → All IsNamed (if b then f u ∷ us else u ∷ update_user name f us)
    by_test true ih = (ap is_empty (k u l.0.0).1 ∙ h.0, h.1)
    by_test false ih = (h.0, ih)

update_user-has_name :
    (name other_name : Text) (f : UserRecord → UserRecord) (us : Users)
    → Keeps f
    → All IsListed us
    → has_name other_name (update_user name f us)
      ≡ (text_eq name other_name || has_name other_name us)
unfolding update_user new_user_record
update_user-has_name name other_name f [] k l =
    ap (λ n. text_eq n other_name || false)
      (k (new_user_record name) (new_user_record-IsSound name)).1
update_user-has_name name other_name f (u ∷ us) k l = ground (
  arith,
  (k u l.0.0).1,
  update_user-has_name name other_name f us k l.1,
  text_eq_sound u.name name,
)

update_user-NamesDiffer :
    (name : Text) (f : UserRecord → UserRecord) (us : Users)
    → Keeps f
    → All IsListed us
    → NamesDiffer us
    → NamesDiffer (update_user name f us)
unfolding update_user
update_user-NamesDiffer name f [] k l d = (refl, tt)
update_user-NamesDiffer name f (u ∷ us) k l d =
    by_test (text_eq u.name name) refl (update_user-NamesDiffer name f us k l.1 d.1)
  where
    by_test :
        (b : Bool)
        → text_eq u.name name ≡ b
        → NamesDiffer (update_user name f us)
        → NamesDiffer (if b then f u ∷ us else u ∷ update_user name f us)
    by_test true e ih = (ap (λ n. has_name n us) (k u l.0.0).1 ∙ d.0, d.1)
    by_test false e ih = (
      ground (arith, update_user-has_name name u.name f us k l.1, text_eq_sym name u.name, d.0),
      ih,
    )

update_user-AreSound :
    (name : Text) (f : UserRecord → UserRecord) (us : Users)
    → Keeps f
    → is_empty name ≡ false
    → AreSound us
    → AreSound (update_user name f us)
update_user-AreSound name f us k n s = (
  update_user-IsListed name f us k s.0,
  update_user-IsNamed name f us k n s.0 s.1,
  update_user-NamesDiffer name f us k s.0 s.2,
)

add_account_name : (host pw : Text) (u : UserRecord) → (add_account host pw u).name ≡ u.name
unfolding add_account add_host set_password
add_account_name host pw u = ground arith

put_account-AreSound :
    (name host pw : Text) (p : Parsed)
    → is_empty name ≡ false
    → AreSound p.users
    → AreSound (put_account name host pw p).users
unfolding put_account
put_account-AreSound name host pw p n s =
    update_user-AreSound name (add_account host pw) p.users
      (λ u h. (add_account-IsListed host pw u h, add_account_name host pw u)) n s

put_grant-AreSound :
    (name host pw line db : Text) (p : Parsed)
    → is_empty name ≡ false
    → trim_space db ≡ db
    → AreSound p.users
    → AreSound (put_grant name host pw line db p).users
unfolding put_grant add_grant
put_grant-AreSound name host pw line db p n t s =
    update_user-AreSound name (λ u. add_grant line db (add_account host pw u)) p.users
      (λ u h.
        let a = add_account-IsListed host pw u h in
        (
          (add_grant-IsSound line db (add_account host pw u) a.0 t, a.1),
          add_account_name host pw u,
        ))
      n s

trim_space_empty : trim_space [] ≡ []
unfolding trim_space trim_left
trim_space_empty = refl

extract_grant_db_trimmed : (m : Groups) → trim_space (extract_grant_db m) ≡ extract_grant_db m
unfolding extract_grant_db
extract_grant_db_trimmed none = trim_space_empty
extract_grant_db_trimmed (some f) =
    let db =
      submatch 1 f.groups
      ++ (submatch 2 f.groups ++ (submatch 3 f.groups ++ submatch 4 f.groups)) in
    by_test db (text_eq (trim_space db) (codes "*")) (trim_space-trim_space db)
  where
    by_test :
        (db : Text) (b : Bool)
        → trim_space (trim_space db) ≡ trim_space db
        → trim_space (if b then [] else trim_space db) ≡ (if b then [] else trim_space db)
    by_test db true h = trim_space_empty
    by_test db false h = h

put_statement-AreSound :
    (st : Statement) (line trimmed name host : Text) (p : Parsed)
    → is_empty name ≡ false
    → AreSound p.users
    → AreSound (put_statement st line trimmed name host p).users
put_statement-AreSound create_user line trimmed name host p n s =
    put_account-AreSound name host _ p n s
put_statement-AreSound grant line trimmed name host p n s =
    put_grant-AreSound name host _ line _ p n
      (extract_grant_db_trimmed (find_submatch grant_on_db_re trimmed)) s
put_statement-AreSound other line trimmed name host p n s = s

parse_line-AreSound :
    (line : Text) (p : Parsed) → AreSound p.users → AreSound (parse_line line p).users
unfolding parse_line
parse_line-AreSound line p s =
    let account = extract_user_host (find_submatch user_host_re (trim_space line)) in
    by_tests (is_empty account.0) (is_empty account.1) refl
  where
    by_tests :
        (b c : Bool)
        → is_empty (extract_user_host (find_submatch user_host_re (trim_space line))).0 ≡ b
        → AreSound
            (if b || c
              then p
              else put_statement
                  (statement_of (trim_space line))
                  line
                  (trim_space line)
                  (extract_user_host (find_submatch user_host_re (trim_space line))).0
                  (extract_user_host (find_submatch user_host_re (trim_space line))).1
                  p).users
    by_tests true c e = s
    by_tests false true e = s
    by_tests false false e =
        put_statement-AreSound (statement_of (trim_space line)) line (trim_space line) _ _ p e s

parse_lines-AreSound :
    (ls : List Text) (p : Parsed) → AreSound p.users → AreSound (parse_lines ls p).users
unfolding parse_lines
parse_lines-AreSound [] p s = s
parse_lines-AreSound (l ∷ ls) p s =
    parse_lines-AreSound ls (parse_line l p) (parse_line-AreSound l p s)

-- Whatever text is read, the map that comes of it is sound: no user stands twice, and for each the
-- hosts and databases stand once, each database is named without white space at its ends and has a
-- grant, each grant of one database is placed
-- under it, no password is empty, and the password of the user is one of those of the hosts.
pub parse_user_records-AreSound : (sql : Text) → AreSound (parse_user_records sql).users
unfolding parse_user_records
parse_user_records-AreSound sql =
    parse_lines-AreSound (scan_within 1048576 sql).found_lines no_users (tt, tt, tt)
