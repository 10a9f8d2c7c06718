-- ===== src/Schedule/Quotes.antt =====
-- The command of the task on Windows: a path written between double quotes and read back.
use my_sql_backup.Base.{
  ℕ, ◌≡◌, refl, sym, ap, inl, inr, ◌∙◌, Bool, false, some, [], ◌∷◌, ◌++◌, append-nil, append_assoc,
}
use my_sql_backup.Base.Tests.{◌==◌, Bool-cases, ==_iff}
use my_sql_backup.Base.Texts.{Text, replace_byte}
use my_sql_backup.Schedule.Tasks.{
  path_for_tr, extract_double_quoted, extract_from, extract_double_quoted,
}

abbrev pub starts_quoted : Text → Bool
starts_quoted [] = false
starts_quoted (c ∷ s) = c == b'"'

extract_from_other :
    (c : ℕ) (t done : Text)
    → (c == b'"') ≡ false
    → extract_from (c ∷ t) done ≡ extract_from t (done ++ c ∷ [])
unfolding extract_from
extract_from_other c [] done h = rw h
extract_from_other c (d ∷ t) done h = rw h

extract_from_end :
    (rest done : Text)
    → starts_quoted rest ≡ false
    → extract_from (b'"' ∷ rest) done ≡ some (done, rest)
unfolding extract_from
extract_from_end [] done h = refl
extract_from_end (d ∷ rest) done h = rw h

extract_from-path_for_tr :
    (s rest done : Text)
    → starts_quoted rest ≡ false
    → extract_from (path_for_tr s ++ (b'"' ∷ rest)) done ≡ some (done ++ s, rest)
unfolding extract_from path_for_tr replace_byte
extract_from-path_for_tr [] rest done h =
    extract_from_end rest done h ∙ ap (λ x. some (x, rest)) (sym (append-nil done))
extract_from-path_for_tr (c ∷ s) rest done h = elim (Bool-cases (c == b'"')) [
  | inl q ↦ rw q (
      extract_from-path_for_tr s rest (done ++ b'"' ∷ []) h
      ∙ ap (λ x. some (x, rest))
          (append_assoc done (b'"' ∷ []) s ∙ ap (λ x. done ++ (x ∷ s)) (sym ((==_iff c b'"').0 q))))
  | inr o ↦ rw o (
      extract_from_other c (path_for_tr s ++ (b'"' ∷ rest)) done o
      ∙ (extract_from-path_for_tr s rest (done ++ c ∷ []) h
          ∙ ap (λ x. some (x, rest)) (append_assoc done (c ∷ []) s)))
]

-- A path that was doubled and put between double quotes is read back as it was, with all that
-- follows the quotes, provided that no further double quote follows them at once.
pub extract_double_quoted-path_for_tr :
    (s rest : Text)
    → starts_quoted rest ≡ false
    → extract_double_quoted (b'"' ∷ (path_for_tr s ++ (b'"' ∷ rest))) ≡ some (s, rest)
unfolding extract_double_quoted
extract_double_quoted-path_for_tr s rest h = extract_from-path_for_tr s rest [] h
