-- ===== src/Restore/Imports.antt =====
-- restore.go: what is imported from a list of archives, in which order, and where it stops.
use my_sql_backup.Base.{
  ◌≡◌, refl, sym, ap, ◌∙◌, true, false, Option, none, some, List, [], ◌∷◌, ◌++◌, append_assoc,
  append-nil, ◌⊎◌, inl, inr,
}
use my_sql_backup.Base.Tests.{Bool-cases}
use my_sql_backup.Base.Texts.{Text, codes}
use my_sql_backup.Base.Results.{message, Result, ok, err}
use my_sql_backup.Retention.{BackupFile}
use my_sql_backup.Restore.{
  Reading, unopened, broken, whole, Given, accepted, attempted, ZipEntry, sql_entry, Sources,
  import_body, import_entry, import_opened, restore_zip, next_zip, restore_zips, restore_from_zips,
}

-- The dump in an archive: what its first entry with an extension `.sql` holds.
abbrev body_of : Option ZipEntry → Reading
body_of none = unopened
body_of (some e) = e.body

abbrev pub dump_of : Option (List ZipEntry) → Reading
dump_of none = unopened
dump_of (some es) = body_of (sql_entry es)

abbrev pub IsImported : Sources → Text → Text → Type 0
IsImported src path text = (dump_of (src.open_zip path) ≡ whole text) × (src.import_sql text ≡ true)

-- The archive holds no dump that can be read, or the server does not take it.
abbrev pub IsRefused : Sources → Text → Type 0
IsRefused src path =
    (dump_of (src.open_zip path) ≡ unopened)
    ⊎ ((t : Text) × (dump_of (src.open_zip path) ≡ broken t))
    ⊎ ((t : Text) × (dump_of (src.open_zip path) ≡ whole t) × (src.import_sql t ≡ false))

-- What the server was given of a dump that is refused.
abbrev pub remnant : Reading → List Given
remnant unopened = []
remnant (broken part) = attempted part ∷ []
remnant (whole text) = attempted text ∷ []

-- The dumps of the archives, one for each and in their order, are what the server took.
pub data Imports (src : Sources) : List BackupFile → List Given → Type 0 where
  none_left : Imports src [] []
  taken :
      {f : BackupFile} {fs : List BackupFile} {t : Text} {ts : List Given}
      → IsImported src f.path t
      → Imports src fs ts
      → Imports src (f ∷ fs) (accepted t ∷ ts)

-- All archives were imported, or those before one that is refused.
abbrev pub Outcome :
    Sources → List BackupFile → (before : List Given) → Result (Unit {0}) × List Given → Type 0
Outcome src files before (ok u, texts) =
    (ts : List Given) × (texts ≡ before ++ ts) × Imports src files ts
Outcome src files before (err e, texts) =
    (fs : List BackupFile) × (f : BackupFile) × (gs : List BackupFile) × (ts : List Given) × (files
      ≡ fs ++ f ∷ gs)
    × (texts ≡ before ++ (ts ++ remnant (dump_of (src.open_zip f.path))))
    × Imports src fs ts
    × IsRefused src f.path

-- One archive.
abbrev OutcomeOfOne : Sources → (path : Text) → List Given → Result (Unit {0}) × List Given → Type 0
OutcomeOfOne src path before (ok u, texts) =
    (t : Text) × (texts ≡ before ++ accepted t ∷ []) × IsImported src path t
OutcomeOfOne src path before (err e, texts) =
    (texts ≡ before ++ remnant (dump_of (src.open_zip path))) × IsRefused src path

import_body_outcome :
    (src : Sources) (path : Text) (b : Reading) (before : List Given)
    → dump_of (src.open_zip path) ≡ b
    → OutcomeOfOne src path before (import_body src b before)
import_body_outcome src path unopened before e =
    (sym (append-nil before) ∙ ap (λ b. before ++ remnant b) (sym e), inl e)
import_body_outcome src path (broken part) before e =
    (ap (λ b. before ++ remnant b) (sym e), inr (inl (part, e)))
import_body_outcome src path (whole t) before e = elim (Bool-cases (src.import_sql t)) [
  | inl y ↦ rw y (t, refl, (e, y))
  | inr n ↦ rw n (ap (λ b. before ++ remnant b) (sym e), inr (inr (t, e, n)))
]

import_entry_outcome :
    (src : Sources) (path : Text) (o : Option ZipEntry) (before : List Given)
    → dump_of (src.open_zip path) ≡ body_of o
    → OutcomeOfOne src path before (import_entry src path o before)
import_entry_outcome src path none before e =
    (sym (append-nil before) ∙ ap (λ b. before ++ remnant b) (sym e), inl e)
import_entry_outcome src path (some z) before e = import_body_outcome src path z.body before e

import_opened_outcome :
    (src : Sources) (path : Text) (o : Option (List ZipEntry)) (before : List Given)
    → src.open_zip path ≡ o
    → OutcomeOfOne src path before (import_opened src path o before)
import_opened_outcome src path none before e =
    let d = ap dump_of e in (sym (append-nil before) ∙ ap (λ b. before ++ remnant b) (sym d), inl d)
import_opened_outcome src path (some es) before e =
    import_entry_outcome src path (sql_entry es) before (ap dump_of e)

restore_zip_outcome :
    (src : Sources) (path : Text) (before : List Given)
    → OutcomeOfOne src path before (restore_zip src path before)
unfolding restore_zip
restore_zip_outcome src path before = import_opened_outcome src path (src.open_zip path) before refl

-- One archive before the rest of them.
after_one :
    (src : Sources) (f : BackupFile) (fs : List BackupFile) (before : List Given)
    (r rest : Result (Unit {0}) × List Given)
    → OutcomeOfOne src f.path before r
    → Outcome src fs r.1 rest
    → Outcome src (f ∷ fs) before (next_zip r.0 f.path r.1 rest)
after_one src f fs before (ok u, texts) (ok v, more) (t, e, i) (ts, k, im) = (
  accepted t ∷ ts,
  k ∙ ap (λ x. x ++ ts) e ∙ append_assoc before (accepted t ∷ []) ts,
  taken i im,
)
after_one src f fs before (ok u, texts) (err x, more) (t, e, i)
      (gs, g, hs, ts, q, k, im, no_import) =
    (
      f ∷ gs,
      g,
      hs,
      accepted t ∷ ts,
      ap (λ x. f ∷ x) q,
      k
          ∙ ap (λ x. x ++ (ts ++ remnant (dump_of (src.open_zip g.path)))) e
          ∙ append_assoc before (accepted t ∷ []) (ts ++ remnant (dump_of (src.open_zip g.path))),
      taken i im,
      no_import,
    )
after_one src f fs before (err x, texts) rest (e, n) o = ([], f, fs, [], refl, e, none_left, n)

pub restore_zips_outcome :
    (src : Sources) (files : List BackupFile) (before : List Given)
    → Outcome src files before (restore_zips src files before)
unfolding restore_zips
restore_zips_outcome src [] before = ([], sym (append-nil before), none_left)
restore_zips_outcome src (f ∷ fs) before =
    let r = restore_zip src f.path before in
    after_one src f fs before r (restore_zips src fs r.1) (restore_zip_outcome src f.path before)
      (restore_zips_outcome src fs r.1)

-- An import of archives takes their dumps in the order of the archives, the one of each, and ends
-- well when the server took them all; else it stops at the first archive whose dump cannot be
-- read or is not taken: what was taken is the dumps of the archives before that one, and of its own
-- dump the server was given what could be read.
-- An empty list of archives is an error.
pub restore_from_zips-Outcome :
    (src : Sources) (f : BackupFile) (fs : List BackupFile)
    → (restore_from_zips src [] ≡ (err (message (codes "err.restore_no_backups") []), []))
      × Outcome src (f ∷ fs) [] (restore_from_zips src (f ∷ fs))
unfolding restore_from_zips
restore_from_zips-Outcome src f fs = (refl, restore_zips_outcome src (f ∷ fs) [])
