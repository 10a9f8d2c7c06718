-- ===== src/Backup/Kept.antt =====
-- What a round for one database leaves at the two names, whatever calls the system refuses.
use my_sql_backup.Base.{
  ◌≡◌, refl, sym, ap, ◌∙◌, ◌⊎◌, inl, inr, Bool, true, false, ◌&&◌, Option, none, some, List, [],
  ◌∷◌, ◌++◌, append-nil, append_assoc, arith,
}
use my_sql_backup.Base.Tests.{Bool-cases}
use my_sql_backup.Base.Texts.{Text, codes, text_eq}
use my_sql_backup.Base.Results.{Result, ok, err, info}
use my_sql_backup.Storage.{
  Content, archive, torn, System, Stat, say, stat, stat_of, rename, create, write, close_zip,
  attempt, refused, tick, found, absent, stat_error,
}
use my_sql_backup.Storage.Laws.{
  stat_disk, create_done, write_done, close_zip_done, remove_frame, create_frame, write_frame,
  close_zip_frame, attempt_disk, rename_cases,
}
use my_sql_backup.Backup.{
  restore_sav, restore_found, start_zip, safe_write_zip_streaming, open_zip, add_entry, start_found,
  start_moved, finish_file, finish, drop_sav, write_next, cancel, cancel_found, warn_restored,
  discard, write_all, Dump, user_texts, closed, with_users, dumped, opened, backup_database,
}

-- One of the two names holds `old`, if there is anything to hold.
abbrev pub Safe : (zip sav : Text) → Option Content → System → Type 0
Safe zip sav none s = Unit {0}
Safe zip sav (some c) s = (s.disk zip ≡ some c) ⊎ (s.disk sav ≡ some c)

-- On success the archive holds `body` as its entry, on an error `old` is safe.
abbrev pub Outcome :
    (zip sav entry body : Text) → Option Content → Result (Unit {0}) × System → Type 0
Outcome zip sav entry body old (ok u, s) = s.disk zip ≡ some (archive entry body)
Outcome zip sav entry body old (err e, s) = Safe zip sav old s

-- On success `mysqldump` has succeeded.
abbrev pub HasDumped : Dump → Result (Unit {0}) → Type 0
HasDumped d (ok u) = d.succeeded ≡ true
HasDumped d (err e) = Unit {0}

abbrev pub joined : List Text → Text
joined [] = []
joined (t ∷ ts) = t ++ joined ts

module _ (zip sav : Text) (apart : text_eq zip sav ≡ false) (apart' : text_eq sav zip ≡ false) where
  sav-Safe : (old : Option Content) (s : System) → s.disk sav ≡ old → Safe zip sav old s
  sav-Safe none s h = tt
  sav-Safe (some c) s h = inr h

  moved-Safe :
      (old : Option Content) (s : System) → s.disk sav ≡ old → Safe zip sav old (rename sav zip s).1
  moved-Safe none s h = tt
  moved-Safe (some c) s h = elim (rename_cases sav zip s) [
    | inl u ↦ inr (u.1 sav ∙ h)
    | inr u ↦ inl (u.1 ∙ h)
  ]

  restore_found-Safe :
      (st : Stat) (old : Option Content) (s : System)
      → s.disk sav ≡ old
      → Safe zip sav old (restore_found st zip sav s)
  restore_found-Safe (found z) old s h = moved-Safe old s h
  restore_found-Safe absent old s h = sav-Safe old s h
  restore_found-Safe stat_error old s h = sav-Safe old s h

  restore_sav-Safe :
      (old : Option Content) (s : System)
      → s.disk sav ≡ old
      → Safe zip sav old (restore_sav zip sav s)
  unfolding restore_sav
  restore_sav-Safe old s h =
      restore_found-Safe (stat sav s).0 old (stat sav s).1 (stat_disk sav sav s ∙ h)

  discard-sav : (s : System) → (discard zip s).disk sav ≡ s.disk sav
  unfolding discard
  discard-sav s =
      remove_frame zip sav apart (attempt (close_zip zip s).1).1
      ∙ (attempt_disk (close_zip zip s).1 sav ∙ close_zip_frame zip sav apart s)

  said-Safe :
      (b : Bool) (old : Option Content) (s : System)
      → Safe zip sav old s
      → Safe zip sav old (warn_restored b zip s)
  said-Safe true none s h = tt
  said-Safe true (some c) s h = h
  said-Safe false none s h = tt
  said-Safe false (some c) s h = h

  cancel_found-Safe :
      (st : Stat) (old : Option Content) (s : System)
      → s.disk sav ≡ old
      → Safe zip sav old (cancel_found st zip sav s)
  cancel_found-Safe (found z) old s h =
      said-Safe (rename sav zip s).0 old (rename sav zip s).1 (moved-Safe old s h)
  cancel_found-Safe absent old s h = sav-Safe old s h
  cancel_found-Safe stat_error old s h = sav-Safe old s h

  cancel-Safe :
      (old : Option Content) (s : System) → s.disk sav ≡ old → Safe zip sav old (cancel zip sav s)
  unfolding cancel
  cancel-Safe old s h =
      cancel_found-Safe (stat sav (discard zip s)).0 old (stat sav (discard zip s)).1
        (stat_disk sav sav (discard zip s) ∙ (discard-sav s ∙ h))

  drop_sav-Outcome :
      (done : Bool) (db entry body : Text) (old : Option Content) (s : System)
      → s.disk sav ≡ old
      → s.disk zip ≡ some (archive entry body)
      → Outcome zip sav entry body old
          (closed (drop_sav done sav s).0 zip sav db (drop_sav done sav s).1)
  drop_sav-Outcome true db entry body old s h z = remove_frame sav zip apart' s ∙ z
  drop_sav-Outcome false db entry body old s h z = cancel-Safe old s h

  finish_file-Outcome :
      (sealed : Bool) (db entry body : Text) (old : Option Content) (s : System)
      → s.disk sav ≡ old
      → (sealed ≡ true → s.disk zip ≡ some (archive entry body))
      → Outcome zip sav entry body old
          (closed (finish_file sealed sav s).0 zip sav db (finish_file sealed sav s).1)
  finish_file-Outcome false db entry body old s h z = cancel-Safe old s h
  finish_file-Outcome true db entry body old s h z =
      drop_sav-Outcome (attempt s).0 db entry body old (attempt s).1 (attempt_disk s sav ∙ h)
        (attempt_disk s zip ∙ z refl)

  -- A round while the archive is open: what its entry holds so far.
  module _ (db entry : Text) (old : Option Content) where
    abbrev Open : Text → Bool × System → Type 0
    Open body r = (r.1.disk sav ≡ old) × (r.0 ≡ true → r.1.disk zip ≡ some (torn entry body))

    write-Open :
        (text body : Text) (s : System)
        → Open body (true, s)
        → Open (body ++ text) (write zip text s)
    write-Open text body s h =
        (write_frame zip sav apart s text ∙ h.0, write_done zip text entry body s (h.1 refl))

    reassociate :
        (a b c : Text) (r : Bool × System) → Open ((a ++ b) ++ c) r → Open (a ++ (b ++ c)) r
    reassociate a b c r h = (h.0, λ t. h.1 t ∙ ap (λ x. some (torn entry x)) (append_assoc a b c))

    write_next-Open :
        (b : Bool) (body : Text) (s : System) (rest : Bool × System)
        → s.disk sav ≡ old
        → (b ≡ true → Open body rest)
        → Open body (write_next b s rest)
    write_next-Open true body s rest h k = k refl
    write_next-Open false body s rest h k = (h, λ t. ground arith)

    write_all-Open :
        (texts : List Text) (body : Text) (s : System)
        → Open body (true, s)
        → Open (body ++ joined texts) (write_all zip texts s)
    unfolding write_all
    write_all-Open [] body s h =
        (h.0, λ t. h.1 refl ∙ ap (λ x. some (torn entry x)) (sym (append-nil body)))
    write_all-Open (text ∷ texts) body s h =
        let w = write-Open text body s h in
        write_next-Open (write zip text s).0 (body ++ joined (text ∷ texts)) (write zip text s).1
          (write_all zip texts (write zip text s).1) w.0
          (λ t.
            reassociate body text (joined texts) (write_all zip texts (write zip text s).1)
              (write_all-Open texts (body ++ text) (write zip text s).1 (w.0, λ _. w.1 t)))

    with_users-Outcome :
        (done : Bool) (body : Text) (s : System)
        → Open body (done, s)
        → Outcome zip sav entry body old (with_users done zip sav db s)
    unfolding finish
    with_users-Outcome false body s h = cancel-Safe old s h.0
    with_users-Outcome true body s h =
        finish_file-Outcome (close_zip zip s).0 db entry body old (close_zip zip s).1
          (close_zip_frame zip sav apart s ∙ h.0) (close_zip_done zip entry body s (h.1 refl))

    dumped-Outcome :
        (done : Bool) (body block : Text) (s : System)
        → Open body (done, s)
        → Outcome zip sav entry
            (body ++ joined (user_texts block))
            old
            (dumped done zip sav db block s)
    dumped-Outcome false body block s h = cancel-Safe old s h.0
    dumped-Outcome true body block s h =
        let t = say (info (codes "log.msg.dumped_db") (db ∷ [])) s in
        with_users-Outcome (write_all zip (user_texts block) t).0
          (body ++ joined (user_texts block)) (write_all zip (user_texts block) t).1
          (write_all-Open (user_texts block) body t h)

    abbrev Ready : Result (Unit {0}) × System → Type 0
    Ready (ok u, s) = Open [] (true, s)
    Ready (err e, s) = Safe zip sav old s

    opened-Outcome :
        (r : Result (Unit {0})) (block : Text) (d : Dump) (s : System)
        → Ready (r, s)
        → Outcome zip sav entry
            (d.output ++ joined (user_texts block))
            old
            (opened r zip sav db block d s)
    opened-Outcome (err e) block d s h = h
    opened-Outcome (ok u) block d s h =
        let w = write-Open d.output [] s h in
        dumped-Outcome ((write zip d.output s).0 && d.succeeded) d.output block
          (write zip d.output s).1 (w.0, λ t. w.1 (ground arith))

    add_entry-Ready : (b : Bool) (s : System) → Open [] (true, s) → Ready (add_entry b zip sav s)
    add_entry-Ready true s h = h
    add_entry-Ready false s h = restore_sav-Safe old (discard zip s) (discard-sav s ∙ h.0)

    open_zip-Ready : (b : Bool) (s : System) → Open [] (b, s) → Ready (open_zip b zip sav s)
    open_zip-Ready true s h =
        add_entry-Ready (attempt s).0 (attempt s).1
          (attempt_disk s sav ∙ h.0, λ t. attempt_disk s zip ∙ h.1 refl)
    open_zip-Ready false s h = restore_sav-Safe old s h.0

    start_zip-Ready : (s : System) → s.disk sav ≡ old → Ready (start_zip zip sav entry s)
    unfolding start_zip
    start_zip-Ready s h =
        open_zip-Ready (create zip entry s).0 (create zip entry s).1
          (create_frame zip sav apart s entry ∙ h, create_done zip entry s)

    moved-Ready :
        (b : Bool) (s : System)
        → (b ≡ true → s.disk sav ≡ old)
        → (b ≡ false → Safe zip sav old s)
        → Ready (start_moved b zip sav entry s)
    moved-Ready true s h k = start_zip-Ready s (h refl)
    moved-Ready false s h k = k refl

  rename-Ready :
      (db entry : Text) (c : Content) (s : System)
      → s.disk zip ≡ some c
      → Ready db entry
          (some c)
          (start_moved (rename zip sav s).0 zip sav entry (rename zip sav s).1)
  rename-Ready db entry c s h =
      moved-Ready db entry (some c) (rename zip sav s).0 (rename zip sav s).1
        (λ t. elim (rename_cases zip sav s) [ inl u ↦ ground arith | inr u ↦ u.1 ∙ h ])
        (λ t. elim (rename_cases zip sav s) [ inl u ↦ inl (u.1 zip ∙ h) | inr u ↦ ground arith ])

  -- What must not be lost: the archive, or what an earlier run left if there is none.
  abbrev pub kept : System → Option Content
  kept s = elim (s.disk zip) [ none ↦ s.disk sav | some c ↦ some c ]

  start_found-Ready :
      (db entry : Text) (o : Option Content) (s : System)
      → s.disk zip ≡ o
      → Ready db entry
          (elim o [ none ↦ s.disk sav | some c ↦ some c ])
          (start_found (stat_of false o) zip sav entry s)
  start_found-Ready db entry none s h = start_zip-Ready db entry (s.disk sav) s refl
  start_found-Ready db entry (some c) s h = rename-Ready db entry c s h

  stat-Ready :
      (db entry : Text) (b : Bool) (s : System)
      → b ≡ false
      → Ready db entry (kept s) (start_found (stat_of b (s.disk zip)) zip sav entry (tick s))
  unfolding tick
  stat-Ready db entry false s h = start_found-Ready db entry (s.disk zip) (tick s) refl
  stat-Ready db entry true s h = ground arith

  safe_write_zip_streaming-Ready :
      (db entry : Text) (s : System)
      → refused s ≡ false
      → Ready db entry (kept s) (safe_write_zip_streaming zip sav entry s)
  unfolding safe_write_zip_streaming stat
  safe_write_zip_streaming-Ready db entry s h = stat-Ready db entry (refused s) s h

  answered-Outcome :
      (db block : Text) (d : Dump) (s : System)
      → refused s ≡ false
      → Outcome zip sav
          (db ++ codes ".sql")
          (d.output ++ joined (user_texts block))
          (kept s)
          (backup_database zip sav db block d s)
  unfolding backup_database
  answered-Outcome db block d s h =
      let entry = db ++ codes ".sql" in
      let r = safe_write_zip_streaming zip sav entry s in
      opened-Outcome db entry (kept s) r.0 block d r.1 (safe_write_zip_streaming-Ready db entry s h)

  with_users-HasDumped :
      (b : Bool) (db : Text) (d : Dump) (s : System)
      → d.succeeded ≡ true
      → HasDumped d (with_users b zip sav db s).0
  with_users-HasDumped false db d s h = tt
  with_users-HasDumped true db d s h = by_end (finish zip sav s).0
    where
      by_end : (b : Bool) → HasDumped d (closed b zip sav db (finish zip sav s).1).0
      by_end true = h
      by_end false = tt

  dumped-HasDumped :
      (b : Bool) (db block : Text) (d : Dump) (s : System)
      → (b ≡ true → d.succeeded ≡ true)
      → HasDumped d (dumped b zip sav db block s).0
  dumped-HasDumped false db block d s h = tt
  dumped-HasDumped true db block d s h =
      let t = say (info (codes "log.msg.dumped_db") (db ∷ [])) s in
      with_users-HasDumped (write_all zip (user_texts block) t).0 db d
        (write_all zip (user_texts block) t).1 (h refl)

  opened-HasDumped :
      (r : Result (Unit {0})) (db block : Text) (d : Dump) (s : System)
      → HasDumped d (opened r zip sav db block d s).0
  opened-HasDumped (err e) db block d s = tt
  opened-HasDumped (ok u) db block d s =
      dumped-HasDumped ((write zip d.output s).0 && d.succeeded) db block d (write zip d.output s).1
        (λ t. ground arith)

  pub backup_database-HasDumped :
      (db block : Text) (d : Dump) (s : System)
      → HasDumped d (backup_database zip sav db block d s).0
  unfolding backup_database
  backup_database-HasDumped db block d s =
      let r = safe_write_zip_streaming zip sav (db ++ codes ".sql") s in
      opened-HasDumped r.0 db block d r.1

  -- If the system answers the first question, then the round for a database ends with the dump and
  -- the users' statements in the archive, where the dump succeeded, or with an error and what was
  -- there before under one of the two names.
  pub backup_database-Outcome :
      (db block : Text) (d : Dump) (s : System)
      → refused s ≡ false
      → Outcome zip sav
          (db ++ codes ".sql")
          (d.output ++ joined (user_texts block))
          (kept s)
          (backup_database zip sav db block d s)
        × HasDumped d (backup_database zip sav db block d s).0
  backup_database-Outcome db block d s h =
      (answered-Outcome db block d s h, backup_database-HasDumped db block d s)

  -- Even where that question is refused, an archive that is reported is complete.
  pub backup_database_old :
      (db block : Text) (d : Dump) (s : System)
      → (old : Option Content) × Outcome zip sav
          (db ++ codes ".sql")
          (d.output ++ joined (user_texts block))
          old
          (backup_database zip sav db block d s)
  unfolding backup_database safe_write_zip_streaming stat
  backup_database_old db block d s = elim (Bool-cases (refused s)) [
    | inl y ↦
        let entry = db ++ codes ".sql" in
        (
          s.disk sav,
          rw y (
              opened-Outcome db entry (s.disk sav) (start_zip zip sav entry (tick s)).0 block d
                (start_zip zip sav entry (tick s)).1
                (start_zip-Ready db entry (s.disk sav) (tick s) (unfold tick in refl))),
        )
    | inr n ↦ (kept s, answered-Outcome db block d s n)
  ]
