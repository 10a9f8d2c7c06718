-- ===== src/UserSql/Patterns.antt =====
-- internal/backup/usersql.go: the regular expressions.
use my_sql_backup.Base.{ℕ, Bool, not, ◌&&◌, ◌||◌, [], ◌∷◌}
use my_sql_backup.Base.Tests.{leb, ◌==◌}
use my_sql_backup.Base.Texts.{Text, codes, is_digit, lower_byte}
use my_sql_backup.Regexp.{Regexp, byte, star, nothing, seq, alt, group, plus}

-- `[a-zA-Z0-9$_\x{80}-\x{FFFF}]`
abbrev pub is_name_char : ℕ → Bool
is_name_char c =
    (leb b'a' c && leb c b'z')
    || (leb b'A' c && leb c b'Z')
    || is_digit c
    || (c == b'$')
    || (c == b'_')
    || (leb 128 c && leb c 65535)

-- `\s`
abbrev pub is_blank : ℕ → Bool
is_blank c = (c == 9) || (c == 10) || (c == 12) || (c == 13) || (c == 32)

-- What `(?i)` makes of a letter: the simple case folding of Unicode joins `ſ` to `s`.
abbrev folds_to : ℕ → ℕ → Bool
folds_to letter c =
    (lower_byte c == lower_byte letter) || ((lower_byte letter == b's') && (c == 383))

abbrev folded : Text → Regexp
folded [] = nothing
folded (c ∷ s) = seq (byte (folds_to c)) (folded s)

-- `q([^q]+)q` and `q([^q]*)q` as group `n`
abbrev quoted_by : ℕ → ℕ → Regexp
quoted_by q n =
    seq (byte (λ c. c == q)) (seq (group n (plus (λ c. not (c == q)))) (byte (λ c. c == q)))

abbrev quoted_or_empty : ℕ → ℕ → Regexp
quoted_or_empty q n =
    seq (byte (λ c. c == q)) (seq (group n (star (λ c. not (c == q)))) (byte (λ c. c == q)))

-- A name between one of three quotes or none, as the groups from `n` on.
abbrev name_re : (a b c d : ℕ) → Regexp
name_re a b c d =
    alt (quoted_by b'`' a)
      (alt (quoted_by b'"' b) (alt (quoted_by b'\'' c) (group d (plus is_name_char))))

unfoldable pub user_host_re : Regexp
user_host_re =
    seq (name_re 1 2 3 4)
      (seq (star is_blank) (seq (byte (λ c. c == b'@')) (seq (star is_blank) (name_re 5 6 7 8))))

abbrev by_password : Regexp
by_password = seq (folded (codes "IDENTIFIED")) (
    seq (plus is_blank) (
      seq (folded (codes "BY"))
        (seq (plus is_blank) (seq (folded (codes "PASSWORD")) (plus is_blank)))))

abbrev any_quoted : Regexp
any_quoted = alt (quoted_or_empty b'`' 1) (alt (quoted_or_empty b'"' 2) (quoted_or_empty b'\'' 3))

unfoldable pub identified_by_re : Regexp
identified_by_re = seq by_password any_quoted

unfoldable pub grant_on_db_re : Regexp
grant_on_db_re = seq (folded (codes "ON")) (
    seq (plus is_blank) (
      seq (name_re 1 2 3 4) (
        seq (star is_blank)
          (seq (byte (λ c. c == b'.')) (seq (star is_blank) (byte (λ c. c == b'*')))))))

unfoldable pub strip_ident_re : Regexp
strip_ident_re = seq (star is_blank) (seq by_password any_quoted)
