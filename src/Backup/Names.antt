-- ===== src/Backup/Names.antt =====
-- The names of the archives of a run, and of the files beside them: those of different databases
-- are different.
use my_sql_backup.Base.{
  ℕ, ◌≡◌, refl, sym, ap, ◌∙◌, false, inl, inr, [], ◌∷◌, ◌++◌, append_assoc, arith,
}
use mathlib.Core.List.{
  reverse, reverse-append, reverse-reverse, append_cancel_left, append_cancel_right,
}
use my_sql_backup.Base.Tests.{Bool-cases}
use my_sql_backup.Base.Texts.{
  Text, codes, text_eq, text_eq_refl, text_eq_sound, has_prefix, has_suffix, trim_suffix,
}
use my_sql_backup.Base.Keys.{text_eq_sym}
use my_sql_backup.Calendar.{Time}
use my_sql_backup.Retention.{date_key}
use my_sql_backup.Backup.{sav_of, zip_name}

-- What stands before the name of the database.
abbrev pub before_db : Time → Text → Text
before_db today host =
    codes "mysql_backup_" ++ (date_key today ++ (codes "_" ++ (host ++ codes "_")))

zip_name_split :
    (today : Time) (host db : Text)
    → zip_name today host db ≡ (before_db today host ++ db) ++ codes ".zip"
unfolding zip_name
zip_name_split today host db = simp (append_assoc) refl

trim_suffix-zip : (s : Text) → trim_suffix (s ++ codes ".zip") (codes ".zip") ≡ s
unfolding trim_suffix has_suffix has_prefix
trim_suffix-zip s = rw (reverse-append s (codes ".zip")) (reverse-reverse s)

pub sav_of-zip_name :
    (today : Time) (host db : Text)
    → sav_of (zip_name today host db) ≡ (before_db today host ++ db) ++ codes ".sav"
unfolding sav_of
sav_of-zip_name today host db =
    rw (zip_name_split today host db, trim_suffix-zip (before_db today host ++ db)) refl

abbrev first_or : Text → ℕ
first_or [] = 0
first_or (c ∷ s) = c

-- A name with `.sav` is none with `.zip`.
sav_zip : (x y : Text) → text_eq (x ++ codes ".sav") (y ++ codes ".zip") ≡ false
sav_zip x y = elim (Bool-cases (text_eq (x ++ codes ".sav") (y ++ codes ".zip"))) [
  | inr n ↦ n
  | inl e ↦ absurd (
      differ (
        sym (reverse-append x (codes ".sav"))
        ∙ ap reverse (text_eq_sound (x ++ codes ".sav") (y ++ codes ".zip") e)
        ∙ reverse-append y (codes ".zip")))
]
  where
    differ : reverse (codes ".sav") ++ reverse x ≡ reverse (codes ".zip") ++ reverse y → ⊥
    differ e = omega (arith, ap first_or e)

module _ (today : Time) (host : Text) where
  pub zip_names_apart :
      (db other_db : Text)
      → text_eq other_db db ≡ false
      → text_eq (zip_name today host other_db) (zip_name today host db) ≡ false
  zip_names_apart db other_db n =
      elim (Bool-cases (text_eq (zip_name today host other_db) (zip_name today host db))) [
        | inr m ↦ m
        | inl e ↦ absurd (
            same (
              append_cancel_left (before_db today host) other_db db (
                append_cancel_right (before_db today host ++ other_db) (before_db today host ++ db)
                  (codes ".zip")
                  (sym (zip_name_split today host other_db)
                    ∙ text_eq_sound (zip_name today host other_db) (zip_name today host db) e
                    ∙ zip_name_split today host db))))
      ]
    where
      same : other_db ≡ db → ⊥
      same e = ground (arith, n, ap (λ x. text_eq x db) e, text_eq_refl db)

  pub sav_zip_apart :
      (db other_db : Text)
      → text_eq (sav_of (zip_name today host other_db)) (zip_name today host db) ≡ false
  sav_zip_apart db other_db =
      rw (sav_of-zip_name today host other_db, zip_name_split today host db)
        (sav_zip (before_db today host ++ other_db) (before_db today host ++ db))

  pub zip_sav_apart :
      (db other_db : Text)
      → text_eq (zip_name today host other_db) (sav_of (zip_name today host db)) ≡ false
  zip_sav_apart db other_db =
      text_eq_sym (zip_name today host other_db) (sav_of (zip_name today host db))
      ∙ sav_zip_apart other_db db
