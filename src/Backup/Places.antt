-- ===== src/Backup/Places.antt =====
-- backup.go: where `filepath.Join` puts an archive.
use my_sql_backup.Base.{
  ℕ, zero, suc, ◌/◌, ◌%◌, ◌≡◌, refl, ap, ◌∙◌, Bool, false, List, [], ◌∷◌, ◌++◌, inl, inr, arith,
}
use my_sql_backup.Base.Tests.{ltb, ◌==◌, if◌then◌else◌, Bool-cases}
use my_sql_backup.Base.Lists.{is_empty}
use my_sql_backup.Base.Texts.{Text, codes, text_eq, contains_byte}
use my_sql_backup.Base.Decimal.{digit, decimal, decimal_fuel, four_digits, two_digits}
use my_sql_backup.Base.Lines.{onto_first}
use my_sql_backup.Base.Paths.{path_parts, clean_parts, push_part, is_rooted}
use my_sql_backup.Calendar.{Time, year_of, month_of, day_of}
use my_sql_backup.Retention.{date_key}
use my_sql_backup.Backup.{hostname_for_file, replace_others, zip_name}

-- A name that is one element of a path.
abbrev pub IsFileName : Text → Type 0
IsFileName name = contains_byte name b'/' ≡ false

-- The cleaned path of the name in the directory is that of the directory and the name behind it.
abbrev pub LiesIn : (dir name : Text) → Type 0
LiesIn dir name =
    clean_parts (is_rooted dir) (path_parts (dir ++ (b'/' ∷ name))) []
    ≡ name ∷ clean_parts (is_rooted dir) (path_parts dir) []

append-IsFileName : (s t : Text) → IsFileName s → IsFileName t → IsFileName (s ++ t)
unfolding contains_byte
append-IsFileName [] t h k = k
append-IsFileName (c ∷ s) t h k = ground (arith, append-IsFileName s t (ground arith) k)

decimal_fuel-IsFileName : (fuel n : ℕ) → IsFileName (decimal_fuel fuel n)
unfolding decimal_fuel contains_byte
decimal_fuel-IsFileName zero n = refl
decimal_fuel-IsFileName (suc fuel) n = elim (Bool-cases (ltb n 10)) [
  | inl y ↦ rw (decimal_fuel, y) (ground arith)
  | inr m ↦
      rw (decimal_fuel, m)
        (append-IsFileName (decimal_fuel fuel (n / 10)) (digit (n % 10) ∷ [])
          (decimal_fuel-IsFileName fuel (n / 10)) (ground arith))
]

decimal-IsFileName : (n : ℕ) → IsFileName (decimal n)
unfolding decimal
decimal-IsFileName n = decimal_fuel-IsFileName (suc n) n

four_digits-IsFileName : (n : ℕ) → IsFileName (four_digits n)
unfolding four_digits contains_byte
four_digits-IsFileName n = ground (arith, decimal-IsFileName n)

two_digits-IsFileName : (n : ℕ) → IsFileName (two_digits n)
unfolding contains_byte
two_digits-IsFileName n = ground arith

date_key-IsFileName : (t : Time) → IsFileName (date_key t)
unfolding date_key
date_key-IsFileName t =
    append-IsFileName (four_digits (year_of t) ++ two_digits (month_of t)) (two_digits (day_of t))
      (append-IsFileName (four_digits (year_of t)) (two_digits (month_of t))
        (four_digits-IsFileName (year_of t)) (two_digits-IsFileName (month_of t)))
      (two_digits-IsFileName (day_of t))

replace_others-IsFileName : (s : Text) → IsFileName (replace_others s)
unfolding contains_byte
replace_others-IsFileName [] = refl
replace_others-IsFileName (c ∷ s) = ground (arith, replace_others-IsFileName s)

zip_name-IsFileName :
    (today : Time) (host db : Text)
    → IsFileName db
    → IsFileName (zip_name today (hostname_for_file host) db)
unfolding zip_name hostname_for_file contains_byte
zip_name-IsFileName today host db h =
    let shown = replace_others (if is_empty host then codes "localhost" else host) in
    append-IsFileName (date_key today) (codes "_" ++ (shown ++ (codes "_" ++ (db ++ codes ".zip"))))
      (date_key-IsFileName today)
      (append-IsFileName shown (codes "_" ++ (db ++ codes ".zip"))
        (replace_others-IsFileName (if is_empty host then codes "localhost" else host))
        (append-IsFileName db (codes ".zip") h refl))

path_parts_cons : (s : Text) → (p : Text) × (ps : List Text) × (path_parts s ≡ p ∷ ps)
unfolding path_parts
path_parts_cons [] = ([], [], refl)
path_parts_cons (c ∷ s) = elim (Bool-cases (c == b'/')) [
  | inl y ↦ ([], path_parts s, rw y refl)
  | inr n ↦ let (p, ps, e) = path_parts_cons s in (c ∷ p, ps, rw (n, e) refl)
]

onto_first-append :
    (c : ℕ) (s : Text) (qs : List Text)
    → onto_first c (path_parts s ++ qs) ≡ onto_first c (path_parts s) ++ qs
onto_first-append c s qs = let (p, ps, e) = path_parts_cons s in rw e refl

path_parts-slash : (s t : Text) → path_parts (s ++ (b'/' ∷ t)) ≡ path_parts s ++ path_parts t
unfolding path_parts
path_parts-slash [] t = refl
path_parts-slash (c ∷ s) t = elim (Bool-cases (c == b'/')) [
  | inl y ↦ rw y (ap (λ ps. [] ∷ ps) (path_parts-slash s t))
  | inr n ↦ rw n (ap (onto_first c) (path_parts-slash s t) ∙ onto_first-append c s (path_parts t))
]

path_parts_of_name : (name : Text) → IsFileName name → path_parts name ≡ name ∷ []
unfolding path_parts contains_byte
path_parts_of_name [] h = refl
path_parts_of_name (c ∷ s) h = elim (Bool-cases (c == b'/')) [
  | inl y ↦ ground arith
  | inr n ↦ rw n (ap (onto_first c) (path_parts_of_name s (ground arith)))
]

clean_parts-snoc :
    (rooted : Bool) (ps done : List Text) (p : Text)
    → clean_parts rooted (ps ++ p ∷ []) done ≡ push_part rooted p (clean_parts rooted ps done)
unfolding clean_parts
clean_parts-snoc rooted [] done p = refl
clean_parts-snoc rooted (q ∷ ps) done p = clean_parts-snoc rooted ps (push_part rooted q done) p

-- The archive of a database whose name has no `/` lies in the directory of the backups.
pub zip_name-LiesIn :
    (dir : Text) (today : Time) (host db : Text)
    → IsFileName db
    → LiesIn dir (zip_name today (hostname_for_file host) db)
zip_name-LiesIn dir today host db h =
    let name = zip_name today (hostname_for_file host) db in
    ap (λ ps. clean_parts (is_rooted dir) ps [])
      (path_parts-slash dir name
        ∙ ap (λ ps. path_parts dir ++ ps)
            (path_parts_of_name name (zip_name-IsFileName today host db h)))
    ∙ clean_parts-snoc (is_rooted dir) (path_parts dir) [] name
    ∙ kept_part (clean_parts (is_rooted dir) (path_parts dir) [])
  where
    kept_part :
        (ps : List Text)
        → push_part (is_rooted dir) (zip_name today (hostname_for_file host) db) ps
          ≡ zip_name today (hostname_for_file host) db ∷ ps
    kept_part ps = unfold zip_name text_eq in refl
