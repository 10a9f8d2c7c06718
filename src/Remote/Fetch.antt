-- ===== src/Remote/Fetch.antt =====
-- internal/remote/remote.go: `dial` and the download of files by a name or a pattern. The library's
-- `ssh`, `sftp` and `filepath.Match` are parameters; the local files are the state.
use my_sql_backup.Base.{
  ℕ, Bool, true, false, not, ◌&&◌, ◌||◌, Option, none, some, List, [], ◌∷◌, ◌++◌,
}
use my_sql_backup.Base.Tests.{◌==◌, if◌then◌else◌}
use my_sql_backup.Base.Lists.{length, take, is_empty}
use my_sql_backup.Base.Int.{ℤ, pos, negsuc}
use my_sql_backup.Base.Texts.{Text, codes, text_eq}
use my_sql_backup.Base.Decimal.{decimal}
use my_sql_backup.Base.Paths.{join}
use my_sql_backup.Base.Results.{message, Result, ok, err, LogLine, info}
use my_sql_backup.Remote.{
  RemoteEntry, RemoteDir, Cipher, remote_path, list_remote, is_backup_zip, contains_wildcard,
  valid_getfile_pattern, header_len, is_not_zip, received,
}

-- The methods of authentication that are offered to the server.
pub data AuthMethod : Type 0 where
  public_keys : (key : Text) → AuthMethod
  password_auth : Text → AuthMethod

-- The fields of `config.Config` for SSH.
pub record SshConfig : Type 0 where
  pub host : Text
  pub port : ℤ
  pub key_file : Text
  pub ssh_password : Text

abbrev with_password : Text → List AuthMethod
with_password p = if is_empty p then [] else password_auth p ∷ []

abbrev key_parsed : Option Text → (pw : Text) → Result (List AuthMethod)
key_parsed none pw = err (message (codes "err.parse_private_key") [])
key_parsed (some key) pw = ok (public_keys key ∷ with_password pw)

abbrev key_read :
    (parse : Text → Option Text) → Option Text → (pw : Text) → Result (List AuthMethod)
key_read parse none pw = err (message (codes "err.read_key_file") [])
key_read parse (some text) pw = key_parsed (parse text) pw

-- `read_file` is `os.ReadFile`, `parse` is `ssh.ParsePrivateKey`.
unfoldable pub auth_methods :
    (read_file parse : Text → Option Text) → SshConfig → Result (List AuthMethod)
auth_methods read_file parse cfg =
    if is_empty cfg.key_file
    then ok (with_password cfg.ssh_password)
    else key_read parse (read_file cfg.key_file) cfg.ssh_password

abbrev port_of : ℤ → ℕ
port_of (negsuc n) = 22
port_of (pos n) = if n == 0 then 22 else n

abbrev dial_with : Result (List AuthMethod) → SshConfig → Result (Text × List AuthMethod)
dial_with (err e) cfg = err e
dial_with (ok []) cfg = err (message (codes "err.no_ssh_auth") [])
dial_with (ok (a ∷ auth)) cfg = ok (cfg.host ++ (b':' ∷ decimal (port_of cfg.port)), a ∷ auth)

-- What `dial` hands to `ssh.Dial`: the address and the methods.
unfoldable pub dial :
    (read_file parse : Text → Option Text) → SshConfig → Result (Text × List AuthMethod)
dial read_file parse cfg = dial_with (auth_methods read_file parse cfg) cfg

-- The local files and the log.
pub record Local : Type 0 where
  pub files : Text → Option Text
  pub log : List LogLine

-- What the server and the local calls answer: whether there is a connection, the list, the
-- contents; whether `os.Stat` fails though the file is there; whether a file can be made, and what
-- is left of one whose writing fails, if it does.
pub record FetchAnswers : Type 0 where
  pub dialled : Bool
  pub sftp : Bool
  pub listing : RemoteDir
  pub content : Text → Option Text
  pub stat_fails : Text → Bool
  pub creates : Text → Bool
  pub breaks : Text → Option Text

abbrev pub put_file : (path content : Text) → Local → Local
put_file path content d = record {
  files = λ q. if text_eq path q then some content else d.files q;
  log = d.log;
}

unfoldable pub is_decrypted : (password content : Text) → Bool
is_decrypted password content =
    let header = take header_len content in
    not (is_empty password) && ((length header == header_len) && is_not_zip header)

abbrev pub note_decrypt : Bool → (name : Text) → Local → Local
note_decrypt false name d = d
note_decrypt true name d = record {
  files = d.files;
  log = d.log ++ info (codes "log.msg.remote_decrypt") (name ∷ []) ∷ [];
}

module _ (cipher : Cipher) (a : FetchAnswers) (password : Text) where
  abbrev pub file_written : Option Text → (path text : Text) → Local → Bool × Local
  file_written none path text d = (true, put_file path text d)
  file_written (some part) path text d = (false, put_file path part d)

  abbrev pub file_created : Bool → (path text : Text) → Local → Bool × Local
  file_created false path text d = (false, d)
  file_created true path text d = file_written (a.breaks path) path text d

  abbrev pub file_received : Result Text → (name path content : Text) → Local → Bool × Local
  file_received (err e) name path content d = (false, d)
  file_received (ok text) name path content d =
      file_created (a.creates path) path text (note_decrypt (is_decrypted password content) name d)

  abbrev pub file_opened : Option Text → (name path : Text) → Local → Bool × Local
  file_opened none name path d = (false, d)
  file_opened (some content) name path d =
      file_received (received cipher password content) name path content d

  unfoldable pub get_one_file : (remote_dir name path : Text) → Local → Bool × Local
  get_one_file remote_dir name path d =
      file_opened (a.content (remote_path remote_dir name)) name path d

  -- The file of a path as `os.Stat` sees it: the code takes an error of it for absence.
  abbrev pub stat_found : Bool → Option Text → Option Text
  stat_found true file = none
  stat_found false file = file

  abbrev pub path_for : Option Text → (dest name : Text) → Text
  path_for none dest name = join dest name
  path_for (some found) dest name = join dest (name ++ codes ".lokal")

  abbrev pub next_saved :
      Bool
      → (name path : Text) → Local
      → Result (Unit {0}) × List Text × Local
      → Result (Unit {0}) × List Text × Local
  next_saved false name path d rest = (err (message (codes "err.file_failed") (name ∷ [])), [], d)
  next_saved true name path d rest = (rest.0, path ∷ rest.1, rest.2)

  -- The second loop of `GetFile`: the error if any, the paths that were saved, and the local files.
  unfoldable pub get_files :
      (remote_dir dest : Text) → List Text → Local → Result (Unit {0}) × List Text × Local
  get_files remote_dir dest [] d = (ok tt, [], d)
  get_files remote_dir dest (name ∷ names) d =
      let path =
        path_for (stat_found (a.stat_fails (join dest name)) (d.files (join dest name))) dest
          name in
      let r = get_one_file remote_dir name path d in
      next_saved r.0 name path r.1 (get_files remote_dir dest names r.1)

  module _ (glob : (pattern name : Text) → Option Bool) where
    abbrev pub matched : Option Bool → (name : Text) → Result (List Text) → Result (List Text)
    matched none name rest = err (message (codes "err.pattern") [])
    matched (some false) name rest = rest
    matched (some true) name (ok names) = ok (name ∷ names)
    matched (some true) name (err e) = err e

    -- The first loop of `GetFile`.
    unfoldable pub matching : (pattern : Text) → List RemoteEntry → Result (List Text)
    matching pattern [] = ok []
    matching pattern (e ∷ es) = matched (glob pattern e.name) e.name (matching pattern es)

    abbrev pub some_found : (pattern : Text) → Result (List Text) → Result (List Text)
    some_found pattern (err e) = err e
    some_found pattern (ok []) = err (message (codes "err.no_remote_match") (pattern ∷ []))
    some_found pattern (ok (n ∷ ns)) = ok (n ∷ ns)

    abbrev pub found_in : (pattern : Text) → Result (List RemoteEntry) → Result (List Text)
    found_in pattern (err e) = err (message (codes "err.remote_list") [])
    found_in pattern (ok es) = some_found pattern (matching pattern es)

    -- The names that are downloaded.
    unfoldable pub to_download : (pattern : Text) → Result (List Text)
    to_download pattern =
        if contains_wildcard pattern
        then found_in pattern (list_remote a.listing)
        else if is_backup_zip pattern
        then ok (pattern ∷ [])
        else err (message (codes "err.only_backup_zip") [])

    abbrev pub get_named :
        Result (List Text)
        → (remote_dir dest : Text) → Local
        → Result (Unit {0}) × List Text × Local
    get_named (err e) remote_dir dest d = (err e, [], d)
    get_named (ok names) remote_dir dest d = get_files remote_dir dest names d

    abbrev pub get_connected :
        Bool
        → Bool
        → (remote_dir pattern dest : Text) → Local
        → Result (Unit {0}) × List Text × Local
    get_connected false sftp remote_dir pattern dest d =
        (err (message (codes "err.ssh_dial") []), [], d)
    get_connected true false remote_dir pattern dest d =
        (err (message (codes "err.sftp") []), [], d)
    get_connected true true remote_dir pattern dest d =
        get_named (to_download pattern) remote_dir dest d

    unfoldable pub get_file :
        (remote_dir remote_host pattern dest : Text) → Local → Result (Unit {0}) × List Text × Local
    get_file remote_dir remote_host pattern dest d =
        if is_empty remote_dir || is_empty remote_host
        then (err (message (codes "err.remote_not_configured") []), [], d)
        else if valid_getfile_pattern pattern
        then get_connected a.dialled a.sftp remote_dir pattern dest d
        else (err (message (codes "err.getfile_no_path") []), [], d)
