-- ===== src/Remote/Fetched.antt =====
-- What a download by `-getfile` leaves of the local files, and what it saves.
use my_sql_backup.Base.{
  ◌≡◌, refl, sym, ap, ◌∙◌, Bool, true, false, ◌⊎◌, inl, inr, Option, none, some, List, [], ◌∷◌,
  ◌++◌,
}
use my_sql_backup.Base.Tests.{Bool-cases}
use my_sql_backup.Base.Lists.{All}
use my_sql_backup.Base.Texts.{Text, codes, text_eq, text_eq_sound}
use my_sql_backup.Base.Paths.{join}
use my_sql_backup.Base.Results.{Result, ok, err}
use my_sql_backup.Remote.{Cipher, is_backup_zip, remote_path, received}
use my_sql_backup.Remote.Fetch.{
  Local, FetchAnswers, put_file, is_decrypted, note_decrypt, file_written, file_created,
  file_received, file_opened, get_one_file, stat_found, path_for, next_saved, get_files,
}

-- The file of a path is the same before and after.
abbrev pub IsKept : Text → Local → Local → Type 0
IsKept q d e = (c : Text) → d.files q ≡ some c → e.files q ≡ some c

-- The path is not the one of the name with `.lokal` behind it.
abbrev pub IsApart : (dest path name : Text) → Type 0
IsApart dest path name = text_eq (join dest (name ++ codes ".lokal")) path ≡ false

module _ (cipher : Cipher) (a : FetchAnswers) (password : Text) (q : Text) where
  put_file-IsKept :
      (path text : Text) (d : Local) → text_eq path q ≡ false → IsKept q d (put_file path text d)
  put_file-IsKept path text d n = λ c h. rw n h

  file_written-IsKept :
      (o : Option Text) (path text : Text) (d : Local)
      → text_eq path q ≡ false
      → IsKept q d (file_written cipher a password o path text d).1
  file_written-IsKept none path text d n = put_file-IsKept path text d n
  file_written-IsKept (some part) path text d n = put_file-IsKept path part d n

  file_created-IsKept :
      (b : Bool) (path text : Text) (d : Local)
      → text_eq path q ≡ false
      → IsKept q d (file_created cipher a password b path text d).1
  file_created-IsKept false path text d n = λ c h. h
  file_created-IsKept true path text d n = file_written-IsKept (a.breaks path) path text d n

  noted_files : (b : Bool) (name : Text) (d : Local) → (note_decrypt b name d).files ≡ d.files
  noted_files false name d = refl
  noted_files true name d = refl

  file_opened-IsKept :
      (o : Option Text) (name path : Text) (d : Local)
      → text_eq path q ≡ false
      → IsKept q d (file_opened cipher a password o name path d).1
  file_opened-IsKept none name path d n = λ c h. h
  file_opened-IsKept (some content) name path d n = by_answer (received cipher password content)
    where
      by_answer :
          (r : Result Text) → IsKept q d (file_received cipher a password r name path content d).1
      by_answer (err e) = λ c h. h
      by_answer (ok text) = λ c h.
          file_created-IsKept (a.creates path) path text
            (note_decrypt (is_decrypted password content) name d) n c
            (ap (λ (f : Text → Option Text). f q)
                (noted_files (is_decrypted password content) name d)
              ∙ h)

  get_one_file-IsKept :
      (remote_dir name path : Text) (d : Local)
      → text_eq path q ≡ false
      → IsKept q d (get_one_file cipher a password remote_dir name path d).1
  unfolding get_one_file
  get_one_file-IsKept remote_dir name path d n =
      file_opened-IsKept (a.content (remote_path remote_dir name)) name path d n

  found_somewhere :
      (b : Bool) (o : Option Text) (c : Text)
      → b ≡ false
      → o ≡ some c
      → stat_found cipher a password b o ≡ some c
  found_somewhere b o c e h = rw (e, h) refl

  -- A path that is not there, or the one with `.lokal`, is not the path of another file that is.
  path_for_other :
      (o : Option Text) (dest name : Text) (d : Local) (c : Text)
      → stat_found cipher a password (a.stat_fails (join dest name)) (d.files (join dest name)) ≡ o
      → IsApart dest q name
      → d.files q ≡ some c
      → a.stat_fails q ≡ false
      → text_eq (path_for cipher a password o dest name) q ≡ false
  path_for_other none dest name d c e n h k = elim (Bool-cases (text_eq (join dest name) q)) [
    | inl y ↦
        let p = text_eq_sound (join dest name) q y in
        absurd (
          none_some (
            sym e
            ∙ found_somewhere (a.stat_fails (join dest name)) (d.files (join dest name)) c
                (ap a.stat_fails p ∙ k) (ap d.files p ∙ h)))
    | inr o ↦ o
  ]
    where
      none_some : none ≡ some c → ⊥
      none_some e = cc
  path_for_other (some x) dest name d c e n h k = n

  next_saved-IsKept :
      (b : Bool) (name path : Text) (d e : Local) (rest : Result (Unit {0}) × List Text × Local)
      → IsKept q d e
      → IsKept q e rest.2
      → IsKept q d (next_saved cipher a password b name path e rest).2
  next_saved-IsKept false name path d e rest k l = k
  next_saved-IsKept true name path d e rest k l = λ c h. l c (k c h)

  pub get_files-IsKept :
      (remote_dir dest : Text) (names : List Text) (d : Local)
      → All (IsApart dest q) names
      → a.stat_fails q ≡ false
      → IsKept q d (get_files cipher a password remote_dir dest names d).2
  unfolding get_files
  get_files-IsKept remote_dir dest [] d n k = λ c h. h
  get_files-IsKept remote_dir dest (name ∷ names) d n k = λ c h.
      let o =
        stat_found cipher a password (a.stat_fails (join dest name)) (d.files (join dest name)) in
      let path = path_for cipher a password o dest name in
      let r = get_one_file cipher a password remote_dir name path d in
      next_saved-IsKept r.0 name path d r.1 (get_files cipher a password remote_dir dest names r.1)
        (get_one_file-IsKept remote_dir name path d (path_for_other o dest name d c refl n.0 h k))
        (get_files-IsKept remote_dir dest names r.1 n.1 k) c h

-- Each path is the one of a name in the directory, or that with `.lokal` behind it.
abbrev pub AreSavedAs : (dest : Text) (names paths : List Text) → Type 0
AreSavedAs dest [] [] = Unit {0}
AreSavedAs dest [] (p ∷ ps) = ⊥
AreSavedAs dest (n ∷ ns) [] = ⊥
AreSavedAs dest (n ∷ ns) (p ∷ ps) =
    ((p ≡ join dest n) ⊎ (p ≡ join dest (n ++ codes ".lokal"))) × AreSavedAs dest ns ps

abbrev pub IsZip : Text → Type 0
IsZip name = is_backup_zip name ≡ true

abbrev pub SavesZips : (dest : Text) (paths : List Text) → Type 0
SavesZips dest paths = (names : List Text) × All IsZip names × AreSavedAs dest names paths

module _ (cipher : Cipher) (a : FetchAnswers) (password : Text) where
  AreZips : Result (List Text) → Type 0
  AreZips (ok names) = All IsZip names
  AreZips (err e) = Unit {0}

  module _ (glob : (pattern name : Text) → Option Bool) where
    -- The path is apart from all the names that are downloaded.
    abbrev pub AreApart : (dest path : Text) → Result (List Text) → Type 0
    AreApart dest path (ok names) = All (IsApart dest path) names
    AreApart dest path (err e) = Unit {0}

    abbrev pub IsCareful :
        (dest path content : Text) → Result (Unit {0}) × List Text × Local → Type 0
    IsCareful dest path content r = SavesZips dest r.1 × (r.2.files path ≡ some content)
