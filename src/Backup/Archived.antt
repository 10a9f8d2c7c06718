-- ===== src/Backup/Archived.antt =====
-- A run over several databases: what stands in the directory after it.
use my_sql_backup.Base.{◌≡◌, refl, ap, ◌∙◌, true, false, Option, some, List, [], ◌∷◌, ◌++◌, arith}
use mathlib.Core.List.{map}
use my_sql_backup.Base.Lists.{All}
use my_sql_backup.Base.Texts.{Text, codes, text_eq}
use my_sql_backup.Base.Keys.{has_key, Distinct}
use my_sql_backup.Base.Results.{Result, ok, err}
use my_sql_backup.Calendar.{Time}
use my_sql_backup.Storage.{Content, archive, System}
use my_sql_backup.Backup.{
  sav_of, zip_name, Dump, user_texts, backup_database, after_round, backup_all,
}
use my_sql_backup.Backup.Kept.{
  joined, Outcome, HasDumped, backup_database-HasDumped, backup_database_old,
}
use my_sql_backup.Backup.Apart.{backup_database-frame}
use my_sql_backup.Backup.Names.{zip_names_apart, sav_zip_apart, zip_sav_apart}

-- None of the names is the key.
others_differ :
    (k : Text) (ks : List Text) → has_key k ks ≡ false → All (λ x. text_eq x k ≡ false) ks
others_differ k [] h = tt
others_differ k (x ∷ xs) h = (ground arith, others_differ k xs (ground arith))

module _ (today : Time) (host : Text) (user_sql : Text → Text) (dump : Text → Dump) where
  -- The archive of a database: its dump, and the statements of its users.
  abbrev pub archive_of : Text → Content
  archive_of db =
      archive (db ++ codes ".sql") ((dump db).output ++ joined (user_texts (user_sql db)))

  abbrev pub IsArchived : System → Text → Type 0
  IsArchived s db = s.disk (zip_name today host db) ≡ some (archive_of db)

  -- The round for a database.
  abbrev pub round : Text → System → Result (Unit {0}) × System
  round db s =
      let zip = zip_name today host db in
      backup_database zip (sav_of zip) db (user_sql db) (dump db) s

  -- From `s0` on: all databases were dumped and are archived under the names that are reported; or
  -- the rounds before the one for `db` succeeded and their archives are there, and the round for
  -- `db` gave the error that is reported.
  abbrev pub AreArchived : List Text → (s0 : System) → Result (List Text) × System → Type 0
  AreArchived dbs s0 (ok zips, s) =
      (zips ≡ map (zip_name today host) dbs)
      × All (IsArchived s) dbs
      × All (λ db. (dump db).succeeded ≡ true) dbs
  AreArchived dbs s0 (err e, s) =
      (before : List Text) × (db : Text) × (after : List Text) × (t : System) × (dbs
        ≡ before ++ db ∷ after)
      × All (IsArchived s) before
      × (backup_all today host user_sql dump before s0 ≡ (ok (map (zip_name today host) before), t))
      × (round db t ≡ (err e, s))

  after_round-disk :
      (r : Result (Unit {0}) × System) (zip q : Text) (rest : Result (List Text) × System)
      → rest.1.disk q ≡ r.1.disk q
      → (after_round r zip rest).1.disk q ≡ r.1.disk q
  after_round-disk (ok u, s) zip q (r, t) h = h
  after_round-disk (err e, s) zip q (r, t) h = refl

  -- The rounds for other databases leave an archive alone.
  backup_all-frame :
      (db : Text) (dbs : List Text) (s : System)
      → All (λ x. text_eq x db ≡ false) dbs
      → (backup_all today host user_sql dump dbs s).1.disk (zip_name today host db)
        ≡ s.disk (zip_name today host db)
  unfolding backup_all
  backup_all-frame db [] s h = refl
  backup_all-frame db (x ∷ xs) s h =
      let zip = zip_name today host x in
      let r = round x s in
      after_round-disk r zip (zip_name today host db) (backup_all today host user_sql dump xs r.1)
        (backup_all-frame db xs r.1 h.1)
      ∙ backup_database-frame zip (sav_of zip) (zip_name today host db)
          (zip_names_apart today host db x h.0) (sav_zip_apart today host db x) x (user_sql x)
          (dump x) s

  RoundArchives : Text → Result (Unit {0}) × System → Type 0
  RoundArchives db (ok u, s) = IsArchived s db × ((dump db).succeeded ≡ true)
  RoundArchives db (err e, s) = Unit {0}

  round_archives : (db : Text) (s : System) → RoundArchives db (round db s)
  unfolding RoundArchives
  round_archives db s =
      let zip = zip_name today host db in
      let old =
        backup_database_old zip (sav_of zip) (zip_sav_apart today host db db)
          (sav_zip_apart today host db db) db (user_sql db) (dump db) s in
      of_outcome (backup_database zip (sav_of zip) db (user_sql db) (dump db) s) old.0 old.1 (
        backup_database-HasDumped zip (sav_of zip) (zip_sav_apart today host db db)
          (sav_zip_apart today host db db) db (user_sql db) (dump db) s)
    where
      of_outcome :
          (r : Result (Unit {0}) × System) (old : Option Content)
          → Outcome
              (zip_name today host db)
              (sav_of (zip_name today host db))
              (db ++ codes ".sql")
              ((dump db).output ++ joined (user_texts (user_sql db)))
              old
              r
          → HasDumped (dump db) r.0
          → RoundArchives db r
      of_outcome (ok u, t) old h k = (h, k)
      of_outcome (err e, t) old h k = tt

  backup_all_cons :
      (db : Text) (dbs : List Text) (s : System)
      → backup_all today host user_sql dump (db ∷ dbs) s
        ≡ after_round
            (round db s)
            (zip_name today host db)
            (backup_all today host user_sql dump dbs (round db s).1)
  unfolding backup_all
  backup_all_cons db dbs s = refl

  next-AreArchived :
      (db : Text) (dbs : List Text) (s0 : System) (r : Result (Unit {0}) × System)
      (rest : Result (List Text) × System)
      → round db s0 ≡ r
      → RoundArchives db r
      → rest.1.disk (zip_name today host db) ≡ r.1.disk (zip_name today host db)
      → AreArchived dbs r.1 rest
      → AreArchived (db ∷ dbs) s0 (after_round r (zip_name today host db) rest)
  unfolding RoundArchives backup_all
  next-AreArchived db dbs s0 (err e, s) rest q a f h = ([], db, dbs, s0, refl, tt, refl, q)
  next-AreArchived db dbs s0 (ok u, s) (ok zips, t) q a f (z, all, done) =
      (ap (λ l. zip_name today host db ∷ l) z, (f ∙ a.0, all), (a.1, done))
  next-AreArchived db dbs s0 (ok u, s) (err e, t) q a f (before, x, after, t', eq, all, p, fails) =
      (
        db ∷ before,
        x,
        after,
        t',
        ap (λ l. db ∷ l) eq,
        (f ∙ a.0, all),
        backup_all_cons db before s0
            ∙ ap
                (λ y.
                  after_round y (zip_name today host db)
                    (backup_all today host user_sql dump before y.1))
                q
            ∙ ap (after_round (ok u, s) (zip_name today host db)) p,
        fails,
      )

  -- If the names of the databases differ, then after a run each database was dumped and has its
  -- complete archive under the name that is reported for it, or the run ended with the error of the
  -- first round that failed and the databases before it have theirs.
  pub backup_all-AreArchived :
      (dbs : List Text) (s : System)
      → Distinct dbs
      → AreArchived dbs s (backup_all today host user_sql dump dbs s)
  unfolding backup_all
  backup_all-AreArchived [] s d = (refl, tt, tt)
  backup_all-AreArchived (db ∷ dbs) s d =
      let r = round db s in
      next-AreArchived db dbs s r (backup_all today host user_sql dump dbs r.1) refl
        (round_archives db s) (backup_all-frame db dbs r.1 (others_differ db dbs d.0))
        (backup_all-AreArchived dbs r.1 d.1)
