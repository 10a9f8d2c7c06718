-- ===== src/Main/Restores.antt =====
-- main.go, retention.go and restore.go: which archives a restore imports, and when.
use my_sql_backup.Base.{
  ℕ, zero, suc, ◌≡◌, refl, ap, sym, ◌∙◌, ◌⊎◌, inl, inr, Bool, true, false, Option, none, some, List,
  [], ◌∷◌, ◌++◌,
}
use my_sql_backup.Base.Tests.{if◌then◌else◌, Bool-cases}
use my_sql_backup.Base.Lists.{is_empty}
use my_sql_backup.Base.Texts.{Text, trim_space}
use my_sql_backup.Base.Results.{Error, Result, ok, err}
use my_sql_backup.Calendar.{Time}
use my_sql_backup.Retention.{ByDate, BackupFile, ReadDir, parse_date, last_backup_before}
use my_sql_backup.Restore.{
  Given, Sources, ReinitConfig, Steps, Step, Reinit, full_reinit, restore_from_zips,
}
use my_sql_backup.Restore.Imports.{
  dump_of, remnant, IsRefused, Imports, Outcome, restore_from_zips-Outcome,
}
use my_sql_backup.Main.{
  Restored, limit_parsed, limit_of, import_answered, after_reinit, restore_files, restore_selected,
  restore_limited, restore,
}

-- The day that a text stands for, where `none` is no limit.
abbrev pub IsDay : Text → Option Time → Type 0
IsDay date_str none = is_empty (trim_space date_str) ≡ true
IsDay date_str (some t) =
    (is_empty (trim_space date_str) ≡ false) × (parse_date (trim_space date_str) ≡ some t)

steps_import :
    (steps : List Step) (x : Result (Unit {0}) × List Given)
    → (import_answered steps x).steps ≡ steps
steps_import steps (ok u, texts) = refl
steps_import steps (err e, texts) = refl

module _ (by_date : ByDate) (sources : (password : Text) → Sources) (cfg : ReinitConfig) (a : Steps)
    (root_password : Text) where
  -- The server is as the import wants it: as it is, or set up anew by all steps.
  abbrev pub IsReady : (full : Bool) → List Step → Type 0
  IsReady false steps = steps ≡ []
  IsReady true steps = full_reinit cfg a ≡ (ok tt, steps)

  abbrev pub server_of : (full : Bool) → Sources
  server_of full = sources (if full then [] else root_password)

  -- All archives of a day were imported, or those before one that is refused.
  abbrev pub HasImported : (full : Bool) → List BackupFile → Restored → Type 0
  HasImported full files r = elim r.exit_code as (λ (n : ℕ). Type 0) [
    | zero ↦ Imports (server_of full) files r.imported
    | suc n ↦
        (fs : List BackupFile) × (f : BackupFile) × (gs : List BackupFile) × (ts : List Given)
        × (files ≡ fs ++ f ∷ gs)
        × Imports (server_of full) fs ts
        × (r.imported ≡ ts ++ remnant (dump_of ((server_of full).open_zip f.path)))
        × IsRefused (server_of full) f.path
  ]

  abbrev pub HasRestored : (date_str : Text) (full : Bool) → ReadDir → Restored → Type 0
  HasRestored date_str full backups r =
      (limit : Option Time) × (files : List BackupFile) × IsDay date_str limit
      × (last_backup_before by_date backups limit ≡ ok files)
      × IsReady full r.steps
      × HasImported full files r

  -- Nothing was imported, and the server was left alone unless a step of its set-up failed.
  abbrev pub HasRefused : (full : Bool) → Restored → Type 0
  HasRefused full r =
      (r.exit_code ≡ 1)
      × (r.imported ≡ [])
      × ((r.steps ≡ []) ⊎ (full ≡ true) × (e : Error) × (full_reinit cfg a ≡ (err e, r.steps)))

  imported_all :
      (full : Bool) (steps : List Step) (files : List BackupFile)
      (x : Result (Unit {0}) × List Given)
      → Outcome (server_of full) files [] x
      → HasImported full files (import_answered steps x)
  imported_all full steps files (ok u, texts) (ts, e, im) = rw e im
  imported_all full steps files (err x, texts) (fs, f, gs, ts, q, e, im, n) =
      (fs, f, gs, ts, q, im, e, n)

  Answered : (full : Bool) → List BackupFile → Restored → Type 0
  Answered full files r = (IsReady full r.steps × HasImported full files r) ⊎ HasRefused full r

  reinit-Answered :
      (f : BackupFile) (fs : List BackupFile) (x : Reinit)
      → full_reinit cfg a ≡ x
      → Answered true (f ∷ fs) (after_reinit by_date sources cfg a root_password x (f ∷ fs))
  unfolding Answered
  reinit-Answered f fs (err e, steps) h = inr (refl, refl, inr (refl, e, h))
  reinit-Answered f fs (ok tt, steps) h = inl (
    h
        ∙ ap (λ (l : List Step). (ok tt, l))
            (sym (steps_import steps (restore_from_zips (sources []) (f ∷ fs)))),
    imported_all true steps (f ∷ fs) (restore_from_zips (server_of true) (f ∷ fs))
        (restore_from_zips-Outcome (server_of true) f fs).1,
  )

  files-Answered :
      (full : Bool) (f : BackupFile) (fs : List BackupFile)
      → Answered full (f ∷ fs) (restore_files by_date sources cfg a root_password full (f ∷ fs))
  unfolding Answered
  files-Answered true f fs = reinit-Answered f fs (full_reinit cfg a) refl
  files-Answered false f fs = inl (
    steps_import [] (restore_from_zips (sources root_password) (f ∷ fs)),
    imported_all false [] (f ∷ fs) (restore_from_zips (server_of false) (f ∷ fs))
        (restore_from_zips-Outcome (server_of false) f fs).1,
  )

  selected_answered :
      (date_str : Text) (full : Bool) (backups : ReadDir) (limit : Option Time)
      (x : Result (List BackupFile))
      → IsDay date_str limit
      → last_backup_before by_date backups limit ≡ x
      → HasRestored date_str full backups
          (restore_selected by_date sources cfg a root_password x full)
        ⊎ HasRefused full (restore_selected by_date sources cfg a root_password x full)
  unfolding Answered
  selected_answered date_str full backups limit (err e) d h = inr (refl, refl, inl refl)
  selected_answered date_str full backups limit (ok []) d h = inr (refl, refl, inl refl)
  selected_answered date_str full backups limit (ok (f ∷ fs)) d h =
      elim (files-Answered full f fs) [
        | inl p ↦ inl (limit, f ∷ fs, d, h, p.0, p.1)
        | inr n ↦ inr n
      ]

  HasEnded : (date_str : Text) (full : Bool) → ReadDir → Restored → Type 0
  HasEnded date_str full backups r = HasRestored date_str full backups r ⊎ HasRefused full r

  parsed_answered :
      (date_str : Text) (full : Bool) (backups : ReadDir) (x : Option Time)
      → is_empty (trim_space date_str) ≡ false
      → parse_date (trim_space date_str) ≡ x
      → HasEnded date_str full backups
          (restore_limited by_date sources cfg a root_password (limit_parsed x) full backups)
  unfolding HasEnded
  parsed_answered date_str full backups none e p = inr (refl, refl, inl refl)
  parsed_answered date_str full backups (some t) e p =
      selected_answered date_str full backups (some t) (last_backup_before by_date backups (some t))
        (e, p) refl

  -- A restore that ends well has imported all backups that `LastBackupBefore` chooses for the limit
  -- that was given, in their order, into the server as it is, or, for a full restore, into one that
  -- was set up anew without an error and with no password. One that ends with an error has imported
  -- those before an archive that is refused, and given the server what could be read of that one's
  -- dump; or it has given it nothing, and the server is as it was, or a step of its set-up failed.
  pub restore-HasRestored :
      (date_str : Text) (full : Bool) (backups : ReadDir)
      → HasRestored date_str full backups
          (restore by_date sources cfg a root_password date_str full backups)
        ⊎ HasRefused full (restore by_date sources cfg a root_password date_str full backups)
  unfolding restore limit_of HasEnded
  restore-HasRestored date_str full backups = elim (Bool-cases (is_empty (trim_space date_str))) [
    | inl e ↦ rw e (
        selected_answered date_str full backups none (last_backup_before by_date backups none) e
          refl)
    | inr e ↦ rw e (parsed_answered date_str full backups (parse_date (trim_space date_str)) e refl)
  ]
