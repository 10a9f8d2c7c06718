-- ===== src/Schedule/Scripts.antt =====
-- The scripts for PowerShell: a text put between single quotes and read back.
use my_sql_backup.Base.{
  ℕ, ◌≡◌, sym, ap, inl, inr, ◌∙◌, Bool, true, false, ◌&&◌, ◌||◌, Option, none, some, [], ◌∷◌, ◌++◌,
  append-nil, append_assoc,
}
use my_sql_backup.Base.Tests.{leb, ◌==◌, if◌then◌else◌, Bool-cases, ==_iff}
use my_sql_backup.Base.Lists.{All, drop}
use my_sql_backup.Base.Texts.{Text, codes, replace_byte}
use my_sql_backup.Schedule.Tasks.{escape_for_ps_single_quoted}
use my_sql_backup.Schedule.Windows.{after_work_dir, create_script}

-- What PowerShell takes for a single quote: `'` and U+2018 to U+201B.
abbrev pub single_quotes : ℕ → Bool
single_quotes c = (c == b'\'') || (leb 8216 c && leb c 8219)

module _ (is_quote : ℕ → Bool) where
  -- A shell on a text after an opening single quote: of two quotes in a row the second stands for
  -- itself, and a single one ends the text. The text and the rest of the script.
  unfoldable pub read_single_quoted : Text → (buf : Text) → Option (Text × Text)
  read_single_quoted [] buf = none
  read_single_quoted (c ∷ []) buf = if is_quote c then some (buf, []) else none
  read_single_quoted (c ∷ d ∷ s) buf =
      let doubled = read_single_quoted s (buf ++ d ∷ []) in
      let next = read_single_quoted (d ∷ s) (buf ++ c ∷ []) in
      if is_quote c then if is_quote d then doubled else some (buf, d ∷ s) else next

-- The text has no quote for the shell but `'`.
abbrev pub HasPlainQuotes : (is_quote : ℕ → Bool) → Text → Type 0
HasPlainQuotes is_quote s = All (λ c. is_quote c ≡ (c == b'\'')) s

module _ (is_quote : ℕ → Bool) (plain : is_quote b'\'' ≡ true) where
  other_read :
      (c : ℕ) (t buf : Text)
      → is_quote c ≡ false
      → read_single_quoted is_quote (c ∷ t) buf ≡ read_single_quoted is_quote t (buf ++ c ∷ [])
  unfolding read_single_quoted
  other_read c [] buf h = rw h
  other_read c (d ∷ t) buf h = rw h

  escaped_read :
      (s : Text) (d : ℕ) (rest buf : Text)
      → HasPlainQuotes is_quote s
      → is_quote d ≡ false
      → read_single_quoted is_quote (escape_for_ps_single_quoted s ++ (b'\'' ∷ d ∷ rest)) buf
        ≡ some (buf ++ s, d ∷ rest)
  unfolding read_single_quoted escape_for_ps_single_quoted replace_byte
  escaped_read [] d rest buf p h =
      rw (plain, h) (ap (λ x. some (x, d ∷ rest)) (sym (append-nil buf)))
  escaped_read (c ∷ s) d rest buf p h = elim (Bool-cases (c == b'\'')) [
    | inl q ↦
        rw (q, plain)
          (escaped_read s d rest (buf ++ b'\'' ∷ []) p.1 h
            ∙ ap (λ x. some (x, d ∷ rest))
                (append_assoc buf (b'\'' ∷ []) s
                  ∙ ap (λ x. buf ++ (x ∷ s)) (sym ((==_iff c b'\'').0 q))))
    | inr o ↦ rw o (
        other_read c (escape_for_ps_single_quoted s ++ (b'\'' ∷ d ∷ rest)) buf (p.0 ∙ o)
        ∙ (escaped_read s d rest (buf ++ c ∷ []) p.1 h
            ∙ ap (λ x. some (x, d ∷ rest)) (append_assoc buf (c ∷ []) s)))
  ]

-- What a script says that begins with `$arg = '`: the text between the quotes, and the one between
-- the quotes after `; $wd = '`.
abbrev second_of : Text → Option (Text × Text) → Option (Text × Text)
second_of first none = none
second_of first (some (second, rest)) = some (first, second)

abbrev both_of : (is_quote : ℕ → Bool) → Option (Text × Text) → Option (Text × Text)
both_of is_quote none = none
both_of is_quote (some (first, rest)) =
    second_of first (read_single_quoted is_quote (drop 9 rest) [])

abbrev pub assigned : (is_quote : ℕ → Bool) → Text → Option (Text × Text)
assigned is_quote script = both_of is_quote (read_single_quoted is_quote (drop 8 script) [])

-- A shell that takes `'` for a quote, but not `;`, reads the two texts back, if they have none of
-- its other quotes.
pub two_assigned :
    (is_quote : ℕ → Bool) (argument work_dir start : Text)
    → is_quote b'\'' ≡ true
    → is_quote b';' ≡ false
    → HasPlainQuotes is_quote argument
    → HasPlainQuotes is_quote work_dir
    → assigned is_quote (create_script argument work_dir start) ≡ some (argument, work_dir)
unfolding create_script
two_assigned is_quote argument work_dir start q e a w =
    let rest = drop 2 (after_work_dir start) in
    ap (both_of is_quote) (
      escaped_read is_quote q argument b';'
        (codes " $wd = '" ++ (escape_for_ps_single_quoted work_dir ++ (codes "';" ++ rest))) [] a e)
    ∙ ap (second_of argument) (escaped_read is_quote q work_dir b';' rest [] w e)
