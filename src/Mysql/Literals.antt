-- ===== src/Mysql/Literals.antt =====
-- A text that the export of users puts between single quotes is read back by the server.
use my_sql_backup.Base.{
  ℕ, ◌≡◌, refl, sym, ap, inl, inr, ◌∙◌, Bool, false, Option, none, some, [], ◌∷◌, ◌++◌, append-nil,
  append_assoc,
}
use my_sql_backup.Base.Tests.{◌==◌, if◌then◌else◌, Bool-cases, ==_iff}
use my_sql_backup.Base.Texts.{Text, replace_byte}
use my_sql_backup.Mysql.{escaped}

-- What `\` and a character stand for in a literal of MySQL.
abbrev pub unescape : ℕ → ℕ
unescape c =
    if c == b'n'
    then 10
    else if c == b't'
    then 9
    else if c == b'r'
    then 13
    else if c == b'0'
    then 0
    else if c == b'b'
    then 8
    else if c == b'Z'
    then 26
    else c

-- How MySQL reads a literal after its first quote, where `buf` has been read: the text and what
-- follows the last quote.
unfoldable pub read_literal : Text → (buf : Text) → Option (Text × Text)
read_literal [] buf = none
read_literal (c ∷ []) buf = if c == b'\'' then some (buf, []) else none
read_literal (c ∷ d ∷ s) buf =
    let doubled = read_literal s (buf ++ b'\'' ∷ []) in
    let escape = read_literal s (buf ++ unescape d ∷ []) in
    let next = read_literal (d ∷ s) (buf ++ c ∷ []) in
    if c == b'\''
    then if d == b'\'' then doubled else some (buf, d ∷ s)
    else if c == 92
    then escape
    else next

abbrev pub starts_with_quote : Text → Bool
starts_with_quote [] = false
starts_with_quote (c ∷ s) = c == b'\''

read_literal_other :
    (c : ℕ) (t buf : Text)
    → (c == b'\'') ≡ false
    → (c == 92) ≡ false
    → read_literal (c ∷ t) buf ≡ read_literal t (buf ++ c ∷ [])
unfolding read_literal
read_literal_other c [] buf h k = rw h
read_literal_other c (d ∷ t) buf h k = rw (h, k)

read_literal_end :
    (rest buf : Text)
    → starts_with_quote rest ≡ false
    → read_literal (b'\'' ∷ rest) buf ≡ some (buf, rest)
unfolding read_literal
read_literal_end [] buf h = refl
read_literal_end (d ∷ rest) buf h = rw h

quote_step :
    (s rest buf : Text)
    → read_literal (escaped (b'\'' ∷ s) ++ (b'\'' ∷ rest)) buf
      ≡ read_literal (escaped s ++ (b'\'' ∷ rest)) (buf ++ b'\'' ∷ [])
unfolding escaped replace_byte read_literal
quote_step s rest buf = refl

backslash_step :
    (s rest buf : Text)
    → read_literal (escaped (92 ∷ s) ++ (b'\'' ∷ rest)) buf
      ≡ read_literal (escaped s ++ (b'\'' ∷ rest)) (buf ++ 92 ∷ [])
unfolding escaped replace_byte read_literal
backslash_step s rest buf = refl

escaped_other :
    (c : ℕ) (s : Text) → (c == b'\'') ≡ false → (c == 92) ≡ false → escaped (c ∷ s) ≡ c ∷ escaped s
unfolding escaped replace_byte
escaped_other c s h k = rw (k, h) refl

-- An escaped text, followed by a single quote, is read as the text, with all that follows the
-- quote, provided that no further single quote follows at once.
pub read_literal-escaped :
    (s rest buf : Text)
    → starts_with_quote rest ≡ false
    → read_literal (escaped s ++ (b'\'' ∷ rest)) buf ≡ some (buf ++ s, rest)
unfolding escaped replace_byte
read_literal-escaped [] rest buf h =
    read_literal_end rest buf h ∙ ap (λ x. some (x, rest)) (sym (append-nil buf))
read_literal-escaped (c ∷ s) rest buf h = elim (Bool-cases (c == b'\'')) [
  | inl q ↦ rw ((==_iff c b'\'').0 q) (
      quote_step s rest buf
      ∙ read_literal-escaped s rest (buf ++ b'\'' ∷ []) h
      ∙ ap (λ x. some (x, rest)) (append_assoc buf (b'\'' ∷ []) s))
  | inr o ↦ elim (Bool-cases (c == 92)) [
    | inl b ↦ rw ((==_iff c 92).0 b) (
        backslash_step s rest buf
        ∙ read_literal-escaped s rest (buf ++ 92 ∷ []) h
        ∙ ap (λ x. some (x, rest)) (append_assoc buf (92 ∷ []) s))
    | inr p ↦
        ap (λ x. read_literal (x ++ (b'\'' ∷ rest)) buf) (escaped_other c s o p)
        ∙ read_literal_other c (escaped s ++ (b'\'' ∷ rest)) buf o p
        ∙ read_literal-escaped s rest (buf ++ c ∷ []) h
        ∙ ap (λ x. some (x, rest)) (append_assoc buf (c ∷ []) s)
  ]
]
