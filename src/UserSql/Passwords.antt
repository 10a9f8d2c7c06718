-- ===== src/UserSql/Passwords.antt =====
-- The test for different passwords, and the statement that creates a user.
use my_sql_backup.Base.{
  ◌≡◌, refl, sym, ap, ◌∙◌, ◌↔◌, Bool, true, false, Option, none, some, List, [], ◌∷◌, ◌++◌, arith,
}
use my_sql_backup.Base.Tests.{◌==◌, if◌then◌else◌}
use my_sql_backup.Base.Lists.{All, All-map, is_empty}
use my_sql_backup.Base.Texts.{Text, codes, text_eq, text_eq_refl, text_eq_sound}
use my_sql_backup.UserSql.{differ_from, has_different_passwords}
use my_sql_backup.UserSql.Render.{escape_sql, create_line}
use my_sql_backup.Mysql.{escaped}
use my_sql_backup.Mysql.Literals.{read_literal, read_literal-escaped}

-- The passwords are the same.
abbrev pub AreSame : List Text → Type 0
AreSame ps = All (λ p. All (λ q. p ≡ q) ps) ps

differ_from_iff :
    (first : Text) (ps : List Text)
    → is_empty first ≡ false
    → (differ_from first ps ≡ false) ↔ All (λ q. q ≡ first) ps
unfolding differ_from
differ_from_iff first [] n = (λ h. tt, λ a. refl)
differ_from_iff first (p ∷ ps) n =
    let ih = differ_from_iff first ps n in
    (
      λ h. (text_eq_sound p first (ground (arith, n)), ih.0 (ground (arith, n))),
      λ a. ground (arith, n, ih.1 a.1, ap (λ x. text_eq x first) a.0, text_eq_refl first),
    )

AreSame-of_first : (p : Text) (ps : List Text) → All (λ q. q ≡ p) ps → AreSame (p ∷ ps)
AreSame-of_first p ps h =
    let all : All (λ q. q ≡ p) (p ∷ ps) = (refl, h) in
    All-map (λ x. x ≡ p) (λ x. All (λ y. x ≡ y) (p ∷ ps)) (p ∷ ps)
      (λ x e. All-map (λ y. y ≡ p) (λ y. x ≡ y) (p ∷ ps) (λ y f. e ∙ sym f) all) all

-- Provided that no password is empty, the test fails exactly when all passwords are the same, so
-- its answer does not depend on the order in which the map gives them.
pub has_different_passwords_iff :
    (ps : List Text)
    → All (λ p. is_empty p ≡ false) ps
    → (has_different_passwords ps ≡ false) ↔ AreSame ps
unfolding has_different_passwords differ_from
has_different_passwords_iff [] n = (λ h. tt, λ a. refl)
has_different_passwords_iff (p ∷ []) n = (λ h. ((refl, tt), tt), λ a. refl)
has_different_passwords_iff (p ∷ q ∷ ps) n =
    let i = differ_from_iff p (q ∷ ps) n.0 in
    (
      λ h. AreSame-of_first p (q ∷ ps) (i.0 (rw n.0 (rw n.0 at h))),
      λ a.
          rw n.0
            (rw n.0 at (i.1 (All-map (λ x. p ≡ x) (λ x. x ≡ p) (q ∷ ps) (λ x e. sym e) a.0.1))),
    )

-- The text after `p`, if it begins with `p`.
abbrev pub strip : (p : Text) → Text → Option Text
strip [] s = some s
strip (c ∷ p) [] = none
strip (c ∷ p) (d ∷ s) = let rest = strip p s in if d == c then rest else none

-- What a statement says that creates a user: the name, the host, and the password if it has one.
pub record Created : Type 0 where
  pub user : Text
  pub host : Text
  pub password : Option Text

abbrev statement_ended : (user host : Text) → Option Text → Option Text → Option Created
statement_ended user host password (some []) =
    some (record { user = user; host = host; password = password })
statement_ended user host password (some (c ∷ s)) = none
statement_ended user host password none = none

abbrev password_read : (user host : Text) → Option (Text × Text) → Option Created
password_read user host none = none
password_read user host (some (password, s)) =
    statement_ended user host (some password) (strip (codes ";\n") s)

abbrev password_begun : (user host : Text) → Option Text → Option Created
password_begun user host none = none
password_begun user host (some s) = password_read user host (read_literal s [])

abbrev host_ended : (user host s : Text) → Option Text → Option Created
host_ended user host s none = password_begun user host (strip (codes " IDENTIFIED BY PASSWORD '") s)
host_ended user host s (some rest) = statement_ended user host none (some rest)

abbrev host_read : (user : Text) → Option (Text × Text) → Option Created
host_read user none = none
host_read user (some (host, s)) = host_ended user host s (strip (codes ";\n") s)

abbrev host_begun : (user : Text) → Option Text → Option Created
host_begun user none = none
host_begun user (some s) = host_read user (read_literal s [])

abbrev user_read : Option (Text × Text) → Option Created
user_read none = none
user_read (some (user, s)) = host_begun user (strip (codes "@'") s)

abbrev user_begun : Option Text → Option Created
user_begun none = none
user_begun (some s) = user_read (read_literal s [])

-- How the server reads a whole statement, character by character, with literals in its default
-- SQL mode, where a backslash escapes.
abbrev pub read_create : Text → Option Created
read_create s = user_begun (strip (codes "CREATE USER IF NOT EXISTS '") s)

-- In the default SQL mode, the server reads the statement that creates a user as one for the name,
-- the host and the password, whatever characters they have, and with no password if it is empty.
pub create_line_read :
    (name pass_hash host : Text)
    → read_create (create_line name pass_hash host)
      ≡ some (record {
        user = name;
        host = host;
        password = if is_empty pass_hash then none else some pass_hash;
      })
unfolding create_line escape_sql escaped
create_line_read name pass_hash host = by_test (is_empty pass_hash)
  where
    host_part : Bool → Text
    host_part b =
        escape_sql host
        ++ (if b
            then codes "';\n"
            else codes "' IDENTIFIED BY PASSWORD '" ++ (escape_sql pass_hash ++ codes "';\n"))

    by_test :
        (b : Bool)
        → user_read (read_literal (escape_sql name ++ (39 ∷ 64 ∷ 39 ∷ host_part b)) [])
          ≡ some
              (record { user = name; host = host; password = if b then none else some pass_hash })
    by_test true =
        ap user_read (read_literal-escaped name (64 ∷ 39 ∷ host_part true) [] refl)
        ∙ ap (host_read name) (read_literal-escaped host (codes ";\n") [] refl)
    by_test false =
        ap user_read (read_literal-escaped name (64 ∷ 39 ∷ host_part false) [] refl)
        ∙ ap (host_read name) (
            read_literal-escaped host
              (codes " IDENTIFIED BY PASSWORD '" ++ (escape_sql pass_hash ++ codes "';\n")) [] refl)
        ∙ ap (password_read name host) (read_literal-escaped pass_hash (codes ";\n") [] refl)
