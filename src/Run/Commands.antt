-- ===== src/Run/Commands.antt =====
-- The parts of a command line.
use my_sql_backup.Base.{
  ◌≡◌, refl, sym, ap, ◌∙◌, Bool, true, false, List, [], ◌∷◌, ◌++◌, append_assoc, append-nil,
}
use my_sql_backup.Base.Tests.{if◌then◌else◌}
use my_sql_backup.Base.Lists.{All}
use my_sql_backup.Base.Texts.{Text}
use my_sql_backup.Run.{split_from, split_command_line, is_quote, is_blank}

-- An argument without quotes, and its spelling between double quotes.
abbrev pub IsPlain : Text → Type 0
IsPlain [] = Unit {0}
IsPlain (c ∷ s) = (is_quote c ≡ false) × IsPlain s

abbrev pub IsWord : Text → Type 0
IsWord [] = ⊥
IsWord (c ∷ s) = IsPlain (c ∷ s)

abbrev pub quoted : Text → Text
quoted s = b'"' ∷ (s ++ b'"' ∷ [])

abbrev pub spelled : List Text → Text
spelled [] = []
spelled (w ∷ ws) = quoted w ++ (b' ' ∷ spelled ws)

if_same : (b : Bool) (x : List Text) → (if b then x else x) ≡ x
if_same true x = refl
if_same false x = refl

split_from_quoted :
    (w rest b : Text) (parts : List Text)
    → IsPlain w
    → split_from (w ++ rest) true b parts ≡ split_from rest true (b ++ w) parts
unfolding split_from
split_from_quoted [] rest b parts h = ap (λ x. split_from rest true x parts) (sym (append-nil b))
split_from_quoted (c ∷ w) rest b parts h = rw (h.0) (
    if_same (is_blank c) (split_from (w ++ rest) true (b ++ c ∷ []) parts)
    ∙ split_from_quoted w rest (b ++ c ∷ []) parts h.1
    ∙ ap (λ x. split_from rest true x parts) (append_assoc b (c ∷ []) w))

split_from_word :
    (w rest : Text) (parts : List Text)
    → IsWord w
    → split_from (quoted w ++ (b' ' ∷ rest)) false [] parts
      ≡ split_from rest false [] (parts ++ w ∷ [])
unfolding split_from
split_from_word [] rest parts h = elim h [ ]
split_from_word (c ∷ w) rest parts h =
    ap (λ x. split_from x true [] parts) (append_assoc (c ∷ w) (b'"' ∷ []) (b' ' ∷ rest))
    ∙ split_from_quoted (c ∷ w) (b'"' ∷ b' ' ∷ rest) [] parts h

split_from_spelled :
    (ws parts : List Text) → All IsWord ws → split_from (spelled ws) false [] parts ≡ parts ++ ws
split_from_spelled [] parts h = unfold split_from in sym (append-nil parts)
split_from_spelled (w ∷ ws) parts h =
    split_from_word w (spelled ws) parts h.0
    ∙ split_from_spelled ws (parts ++ w ∷ []) h.1
    ∙ append_assoc parts (w ∷ []) ws

-- Arguments that are not empty and contain no quotes, each written between double quotes and
-- followed by a blank, are split into these arguments.
pub split_command_line-spelled :
    (ws : List Text) → All IsWord ws → split_command_line (spelled ws) ≡ ws
unfolding split_command_line
split_command_line-spelled ws h = split_from_spelled ws [] h
