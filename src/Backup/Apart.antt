-- ===== src/Backup/Apart.antt =====
-- A round for one database leaves all other names of the directory alone.
use my_sql_backup.Base.{◌≡◌, refl, ◌∙◌, Bool, true, false, ◌&&◌, List, [], ◌∷◌, ◌++◌}
use my_sql_backup.Base.Texts.{Text, codes, text_eq}
use my_sql_backup.Base.Results.{Result, ok, err, info}
use my_sql_backup.Storage.{
  System, Stat, found, absent, stat_error, say, stat, rename, create, write, close_zip, attempt,
}
use my_sql_backup.Storage.Laws.{
  stat_disk, remove_frame, create_frame, write_frame, close_zip_frame, attempt_disk, rename_frame,
}
use my_sql_backup.Backup.{
  restore_sav, restore_found, start_zip, safe_write_zip_streaming, open_zip, add_entry, start_found,
  start_moved, finish_file, finish, drop_sav, write_next, cancel, cancel_found, warn_restored,
  discard, write_all, Dump, user_texts, closed, with_users, dumped, opened, backup_database,
}

module _ (zip sav q : Text) (apart : text_eq zip q ≡ false) (apart' : text_eq sav q ≡ false) where
  restore_found-frame : (st : Stat) (s : System) → (restore_found st zip sav s).disk q ≡ s.disk q
  restore_found-frame (found c) s = rename_frame sav zip q s apart' apart
  restore_found-frame absent s = refl
  restore_found-frame stat_error s = refl

  restore_sav-frame : (s : System) → (restore_sav zip sav s).disk q ≡ s.disk q
  unfolding restore_sav
  restore_sav-frame s = restore_found-frame (stat sav s).0 (stat sav s).1 ∙ stat_disk sav q s

  discard-frame : (s : System) → (discard zip s).disk q ≡ s.disk q
  unfolding discard
  discard-frame s =
      remove_frame zip q apart (attempt (close_zip zip s).1).1
      ∙ (attempt_disk (close_zip zip s).1 q ∙ close_zip_frame zip q apart s)

  add_entry-frame : (b : Bool) (s : System) → (add_entry b zip sav s).1.disk q ≡ s.disk q
  add_entry-frame true s = refl
  add_entry-frame false s = restore_sav-frame (discard zip s) ∙ discard-frame s

  open_zip-frame : (b : Bool) (s : System) → (open_zip b zip sav s).1.disk q ≡ s.disk q
  open_zip-frame true s = add_entry-frame (attempt s).0 (attempt s).1 ∙ attempt_disk s q
  open_zip-frame false s = restore_sav-frame s

  start_zip-frame : (entry : Text) (s : System) → (start_zip zip sav entry s).1.disk q ≡ s.disk q
  unfolding start_zip
  start_zip-frame entry s =
      open_zip-frame (create zip entry s).0 (create zip entry s).1
      ∙ create_frame zip q apart s entry

  start_moved-frame :
      (b : Bool) (entry : Text) (s : System) → (start_moved b zip sav entry s).1.disk q ≡ s.disk q
  start_moved-frame true entry s = start_zip-frame entry s
  start_moved-frame false entry s = refl

  start_found-frame :
      (st : Stat) (entry : Text) (s : System) → (start_found st zip sav entry s).1.disk q ≡ s.disk q
  start_found-frame (found c) entry s =
      start_moved-frame (rename zip sav s).0 entry (rename zip sav s).1
      ∙ rename_frame zip sav q s apart apart'
  start_found-frame absent entry s = start_zip-frame entry s
  start_found-frame stat_error entry s = start_zip-frame entry s

  safe_write-frame :
      (entry : Text) (s : System) → (safe_write_zip_streaming zip sav entry s).1.disk q ≡ s.disk q
  unfolding safe_write_zip_streaming
  safe_write-frame entry s =
      start_found-frame (stat zip s).0 entry (stat zip s).1 ∙ stat_disk zip q s

  warned-frame : (b : Bool) (s : System) → (warn_restored b zip s).disk q ≡ s.disk q
  warned-frame true s = refl
  warned-frame false s = refl

  cancel_found-frame : (st : Stat) (s : System) → (cancel_found st zip sav s).disk q ≡ s.disk q
  cancel_found-frame (found c) s =
      warned-frame (rename sav zip s).0 (rename sav zip s).1 ∙ rename_frame sav zip q s apart' apart
  cancel_found-frame absent s = refl
  cancel_found-frame stat_error s = refl

  cancel-frame : (s : System) → (cancel zip sav s).disk q ≡ s.disk q
  unfolding cancel
  cancel-frame s =
      cancel_found-frame (stat sav (discard zip s)).0 (stat sav (discard zip s)).1
      ∙ (stat_disk sav q (discard zip s) ∙ discard-frame s)

  drop_sav-frame : (b : Bool) (s : System) → (drop_sav b sav s).1.disk q ≡ s.disk q
  drop_sav-frame true s = remove_frame sav q apart' s
  drop_sav-frame false s = refl

  finish_file-frame : (b : Bool) (s : System) → (finish_file b sav s).1.disk q ≡ s.disk q
  finish_file-frame true s = drop_sav-frame (attempt s).0 (attempt s).1 ∙ attempt_disk s q
  finish_file-frame false s = refl

  finish-frame : (s : System) → (finish zip sav s).1.disk q ≡ s.disk q
  unfolding finish
  finish-frame s =
      finish_file-frame (close_zip zip s).0 (close_zip zip s).1 ∙ close_zip_frame zip q apart s

  write_next-frame :
      (b : Bool) (s : System) (rest : Bool × System)
      → rest.1.disk q ≡ s.disk q
      → (write_next b s rest).1.disk q ≡ s.disk q
  write_next-frame true s rest h = h
  write_next-frame false s rest h = refl

  write_all-frame : (texts : List Text) (s : System) → (write_all zip texts s).1.disk q ≡ s.disk q
  unfolding write_all
  write_all-frame [] s = refl
  write_all-frame (t ∷ ts) s =
      let w = write zip t s in
      write_next-frame w.0 w.1 (write_all zip ts w.1) (write_all-frame ts w.1)
      ∙ write_frame zip q apart s t

  closed-frame : (b : Bool) (db : Text) (s : System) → (closed b zip sav db s).1.disk q ≡ s.disk q
  closed-frame true db s = refl
  closed-frame false db s = cancel-frame s

  with_users-frame :
      (b : Bool) (db : Text) (s : System) → (with_users b zip sav db s).1.disk q ≡ s.disk q
  with_users-frame true db s =
      closed-frame (finish zip sav s).0 db (finish zip sav s).1 ∙ finish-frame s
  with_users-frame false db s = cancel-frame s

  dumped-frame :
      (b : Bool) (db block : Text) (s : System) → (dumped b zip sav db block s).1.disk q ≡ s.disk q
  dumped-frame true db block s =
      let t = say (info (codes "log.msg.dumped_db") (db ∷ [])) s in
      let w = write_all zip (user_texts block) t in
      with_users-frame w.0 db w.1 ∙ write_all-frame (user_texts block) t
  dumped-frame false db block s = cancel-frame s

  opened-frame :
      (r : Result (Unit {0})) (db block : Text) (d : Dump) (s : System)
      → (opened r zip sav db block d s).1.disk q ≡ s.disk q
  opened-frame (err e) db block d s = refl
  opened-frame (ok u) db block d s =
      let w = write zip d.output s in
      dumped-frame (w.0 && d.succeeded) db block w.1 ∙ write_frame zip q apart s d.output

  pub backup_database-frame :
      (db block : Text) (d : Dump) (s : System)
      → (backup_database zip sav db block d s).1.disk q ≡ s.disk q
  unfolding backup_database
  backup_database-frame db block d s =
      let r = safe_write_zip_streaming zip sav (db ++ codes ".sql") s in
      opened-frame r.0 db block d r.1 ∙ safe_write-frame (db ++ codes ".sql") s
