-- ===== src/Retention/Select.antt =====
-- Which backups `LastBackupBefore` selects.
use my_sql_backup.Base.{
  ℕ, ◌≤◌, ◌≡◌, refl, sym, ap, ◌∙◌, Bool, true, false, ◌&&◌, Option, none, some, List, [], ◌∷◌, ◌++◌,
  arith,
}
use my_sql_backup.Base.Tests.{ltb, ◌==◌, if◌then◌else◌}
use my_sql_backup.Base.Lists.{All, keep, keep_pointwise, exists_in, last?}
use my_sql_backup.Base.Texts.{text_eq}
use my_sql_backup.Base.Results.{ok}
use my_sql_backup.Base.Sorting.{Ascending, exists_in-perm}
use my_sql_backup.Calendar.{Time, before}
use my_sql_backup.Retention.{
  BackupFile, DirEntry, listed, date_of, ByDate, date_key, first_match, same_day_files, target_of,
  select_day, collect, list_backups, last_backup_before,
}
use my_sql_backup.Retention.Keys.{date_key_iff}
use mathlib.Core.List.{reverse, reverse-append, Perm}

or_match : Option BackupFile → Option BackupFile → Option BackupFile
or_match none later = later
or_match (some f) later = some f

last_match : (BackupFile → Bool) → List BackupFile → Option BackupFile
last_match p [] = none
last_match p (f ∷ fs) = or_match (last_match p fs) (if p f then some f else none)

first_match-append :
    (p : BackupFile → Bool) (fs gs : List BackupFile)
    → first_match p (fs ++ gs) ≡ or_match (first_match p fs) (first_match p gs)
unfolding or_match
first_match-append p [] gs = refl
first_match-append p (f ∷ fs) gs = ground (arith, first_match-append p fs gs)

-- The search from the end finds the last match.
first_match-reverse :
    (p : BackupFile → Bool) (fs : List BackupFile) → first_match p (reverse fs) ≡ last_match p fs
unfolding last_match
first_match-reverse p [] = refl
first_match-reverse p (f ∷ fs) =
    ap (first_match p) (reverse-append (f ∷ []) fs)
    ∙ first_match-append p (reverse fs) (f ∷ [])
    ∙ ap (λ o. or_match o (first_match p (f ∷ []))) (first_match-reverse p fs)

last?-last_match : (fs : List BackupFile) → last? fs ≡ last_match (λ f. true) fs
unfolding last_match or_match
last?-last_match [] = refl
last?-last_match (f ∷ []) = refl
last?-last_match (f ∷ g ∷ fs) = ground (arith, last?-last_match (g ∷ fs))

-- What the search for the last match gives on files in the order of their dates.
abbrev Searched : (BackupFile → Bool) → List BackupFile → Option BackupFile → Type 0
Searched p fs none = exists_in p fs ≡ false
Searched p fs (some f) =
    (p f ≡ true)
    × (exists_in (λ g. g.date == f.date) fs ≡ true)
    × (exists_in (λ g. p g && ltb f.date g.date) fs ≡ false)

le_of_exists :
    (n : ℕ) (fs : List BackupFile) (d : Time)
    → All (λ (g : BackupFile). n ≤ g.date) fs
    → exists_in (λ g. g.date == d) fs ≡ true
    → n ≤ d
le_of_exists n [] d a h = cc
le_of_exists n (f ∷ fs) d a h = ground (arith, le_of_exists n fs d a.1)

later_none :
    (p : BackupFile → Bool) (n : ℕ) (fs : List BackupFile)
    → exists_in p fs ≡ false
    → exists_in (λ g. p g && ltb n g.date) fs ≡ false
later_none p n [] h = refl
later_none p n (f ∷ fs) h = ground (arith, later_none p n fs)

Searched-cons :
    (p : BackupFile → Bool) (f : BackupFile) (fs : List BackupFile) (o : Option BackupFile)
    → Ascending date_of (f ∷ fs)
    → Searched p fs o
    → Searched p (f ∷ fs) (or_match o (if p f then some f else none))
unfolding or_match
Searched-cons p f fs (some g) h found =
    ground (arith, found.0, found.1, found.2, le_of_exists f.date fs g.date h.0)
Searched-cons p f fs none h absent = ground (arith, absent, later_none p f.date fs)

last_match-Searched :
    (p : BackupFile → Bool) (fs : List BackupFile)
    → Ascending date_of fs
    → Searched p fs (last_match p fs)
unfolding last_match
last_match-Searched p [] h = refl
last_match-Searched p (f ∷ fs) h =
    Searched-cons p f fs (last_match p fs) h (last_match-Searched p fs h.1)

abbrev pub eligible : Option Time → Time → Bool
eligible none t = true
eligible (some b) t = before t b

target_of-Searched :
    (limit : Option Time) (fs : List BackupFile)
    → Ascending date_of fs
    → Searched (λ f. eligible limit f.date) fs (target_of limit fs)
unfolding target_of
target_of-Searched none fs h = rw last?-last_match (last_match-Searched (λ f. true) fs h)
target_of-Searched (some b) fs h =
    rw first_match-reverse (last_match-Searched (λ f. before f.date b) fs h)

-- What a selection from the backups `all`, sorted as `sorted`, has to be.
pub data IsLatestDay (limit : Option Time) (all sorted : List BackupFile)
    : List BackupFile → Type 0 where
  no_day : exists_in (λ f. eligible limit f.date) all ≡ false → IsLatestDay limit all sorted []
  latest :
      (d : Time)
      → eligible limit d ≡ true
      → exists_in (λ f. f.date == d) all ≡ true
      → exists_in (λ f. eligible limit f.date && ltb d f.date) all ≡ false
      → IsLatestDay limit all sorted (keep (λ f. f.date == d) sorted)

Searched-IsLatestDay :
    (limit : Option Time) (all sorted : List BackupFile) (o : Option BackupFile)
    → Perm sorted all
    → Searched (λ f. eligible limit f.date) sorted o
    → IsLatestDay limit all sorted (same_day_files o sorted)
Searched-IsLatestDay limit all sorted none perm h = no_day (sym (exists_in-perm _ perm) ∙ h)
Searched-IsLatestDay limit all sorted (some f) perm (fits, found, last) =
    rw by_date (
      latest f.date fits (sym (exists_in-perm _ perm) ∙ found) (sym (exists_in-perm _ perm) ∙ last))
  where
    by_date :
        keep (λ g. text_eq (date_key g.date) (date_key f.date)) sorted
        ≡ keep (λ g. g.date == f.date) sorted
    by_date =
        keep_pointwise (λ g. text_eq (date_key g.date) (date_key f.date)) (λ g. g.date == f.date)
          sorted (λ g. ground (arith, date_key_iff g.date f.date))

-- `LastBackupBefore` never fails on a directory that can be read. It returns nothing if no backup
-- lies before the limit, and else all backups of one day, in sorted order: the latest day
-- with a backup that lies before the limit.
pub last_backup_before-IsLatestDay :
    (s : ByDate) (limit : Option Time) (es : List DirEntry)
    → (r : List BackupFile) × (last_backup_before s (listed es) limit ≡ ok r)
      × IsLatestDay limit (collect es) (s.sort (collect es)) r
unfolding last_backup_before list_backups select_day
last_backup_before-IsLatestDay s limit es = (
  select_day limit files,
  refl,
  Searched-IsLatestDay limit (collect es) files (target_of limit files) (s.perm (collect es))
      (target_of-Searched limit files (s.ascending (collect es))),
)
  where
    files : List BackupFile
    files = s.sort (collect es)
