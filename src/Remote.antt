-- ===== src/Remote.antt =====
-- internal/remote/remote.go: the copy of the backups on a server. The SFTP client, SSH and the
-- cipher are parameters; a server is a state `S` that the client's calls change.
pub mod Uploads
pub mod Synced
pub mod Download
pub mod Fetch
pub mod Fetched
mod Examples
use my_sql_backup.Base.{
  ℕ, zero, suc, ◌+◌, Bool, true, false, not, ◌&&◌, ◌||◌, Option, none, some, List, [], ◌∷◌, ◌++◌,
}
use my_sql_backup.Base.Tests.{ltb, leb, ◌==◌, if◌then◌else◌}
use my_sql_backup.Base.Lists.{length, take, drop, keep, is_empty}
use my_sql_backup.Base.Texts.{Text, codes, text_eq, contains, contains_byte, trim_space, is_digit}
use my_sql_backup.Base.Paths.{base}
use my_sql_backup.Base.Results.{Error, os_error, message, Result, ok, err, LogLine, info, warn}
use my_sql_backup.Regexp.{Regexp, seq, begin_text, end_text, star, literal, times, match_string}
use my_sql_backup.Retention.{DirEntry, Stat, ReadDir, listed, not_exist, failed, ext}

abbrev pub salt_len : ℕ
salt_len = 16

abbrev pub nonce_len : ℕ
nonce_len = 16

abbrev pub encryption_overhead : ℕ
encryption_overhead = salt_len + nonce_len

-- `^mysql_backup_\d{8}_.*\.zip$`
abbrev pub backup_zip_re : Regexp
backup_zip_re = seq begin_text (
    seq (literal (codes "mysql_backup_")) (
      seq (times 8 is_digit) (
        seq (literal (codes "_"))
          (seq (star (λ c. not (c == 10))) (seq (literal (codes ".zip")) end_text)))))

pub record LocalEntry : Type 0 where
  pub name : Text
  pub mod_time : ℕ
  pub size : ℕ
  pub path : Text

pub record RemoteEntry : Type 0 where
  pub name : Text
  pub mod_time : ℕ
  pub size : ℕ

unfoldable pub is_backup_zip : Text → Bool
is_backup_zip name = text_eq (ext name) (codes ".zip") && match_string backup_zip_re name

abbrev local_of : Text → Option Stat → List LocalEntry → List LocalEntry
local_of name none rest = rest
local_of name (some st) rest =
    record { name = name; mod_time = st.mod_time; size = st.size; path = name } ∷ rest

unfoldable pub local_entries : List DirEntry → List LocalEntry
local_entries [] = []
local_entries (e ∷ es) =
    let rest = local_entries es in
    if e.is_dir || not (is_backup_zip e.name) then rest else local_of e.name e.stat rest

unfoldable pub list_local_backups : ReadDir → Result (List LocalEntry)
list_local_backups (listed es) = ok (local_entries es)
list_local_backups not_exist = ok []
list_local_backups failed = err os_error

unfoldable pub in_local : List LocalEntry → Text → Bool
in_local [] name = false
in_local (e ∷ es) name = text_eq e.name name || in_local es name

-- What the server says of a file.
pub record RemoteFile : Type 0 where
  pub name : Text
  pub is_dir : Bool
  pub mod_time : ℕ
  pub size : ℕ

pub data RemoteDir : Type 0 where
  remote_listed : List RemoteFile → RemoteDir
  remote_missing : RemoteDir
  remote_failed : RemoteDir

unfoldable pub remote_entries : List RemoteFile → List RemoteEntry
remote_entries [] = []
remote_entries (f ∷ fs) =
    let rest = remote_entries fs in
    if f.is_dir || not (is_backup_zip f.name)
    then rest
    else record { name = f.name; mod_time = f.mod_time; size = f.size } ∷ rest

unfoldable pub list_remote : RemoteDir → Result (List RemoteEntry)
list_remote (remote_listed fs) = ok (remote_entries fs)
list_remote remote_missing = ok []
list_remote remote_failed = err os_error

-- `remoteMap[name]`: a later entry of one name replaces an earlier one.
unfoldable pub remote_map : List RemoteEntry → Text → Option RemoteEntry
remote_map [] name = none
remote_map (e ∷ es) name = elim (remote_map es name) [
  | some later ↦ some later
  | none ↦ if text_eq e.name name then some e else none
]

-- Whether the loop of `Sync` uploads a file.
unfoldable pub need_upload : (encrypt : Bool) → LocalEntry → Option RemoteEntry → Bool
need_upload encrypt loc none = true
need_upload encrypt loc (some rem) =
    ltb rem.mod_time loc.mod_time || (encrypt && not (rem.size == loc.size + encryption_overhead))

-- The client's calls; a Boolean says whether the call succeeded, and for `mkdir_all` also whether
-- the directory was there already.
pub record Client (S : Type 0) : Type 0 where
  pub mkdir_all : Text → S → Bool × S
  pub read_dir : Text → S → RemoteDir
  pub create : Text → S → Bool × S
  pub write : Text → Text → S → Bool × S
  pub remove : Text → S → Bool × S

-- `pbkdf2.Key` and the key stream of AES-256 in counter mode, added to a text.
pub record Cipher : Type 0 where
  pub key : (password salt : Text) → Text
  pub ctr : (key nonce : Text) → Text → Text

-- The files that are sent, and what `rand.Read` draws for each of them.
pub record Source : Type 0 where
  pub content : Text → Option Text
  pub salt : Text → Option Text
  pub nonce : Text → Option Text

-- The fields of `config.Config` about the server.
pub record RemoteConfig : Type 0 where
  pub remote_backup_dir : Text
  pub remote_ssh_host : Text
  pub remote_aes_password : Text

abbrev pub remote_path : (dir name : Text) → Text
remote_path dir name = dir ++ (b'/' ∷ name)

unfoldable pub aes_password : RemoteConfig → Text
aes_password cfg = trim_space cfg.remote_aes_password

abbrev pub aes_line : Bool → LogLine
aes_line true = info (codes "log.msg.remote_aes_on") []
aes_line false = info (codes "log.msg.remote_aes_off") []

module _ {S : Type 0} (client : Client S) (cipher : Cipher) (source : Source) where
  abbrev pub next_part : Bool → S → Bool × S → Bool × S
  next_part true s rest = rest
  next_part false s rest = (false, s)

  unfoldable pub write_parts : (path : Text) → List Text → S → Bool × S
  write_parts path [] s = (true, s)
  write_parts path (t ∷ ts) s =
      next_part (client.write path t s).0 (client.write path t s).1
        (write_parts path ts (client.write path t s).1)

  abbrev pub encrypted : (password salt nonce text : Text) → List Text
  encrypted password salt nonce text =
      salt ∷ nonce ∷ cipher.ctr (cipher.key password salt) nonce text ∷ []

  abbrev pub stream_encrypt_upload :
      (salt nonce : Option Text) (password path text : Text) → S → Bool × S
  stream_encrypt_upload none _ password path text s = (false, s)
  stream_encrypt_upload (some salt) none password path text s = (false, s)
  stream_encrypt_upload (some salt) (some nonce) password path text s =
      write_parts path (encrypted password salt nonce text) s

  abbrev pub send_file : Bool → (password local path text : Text) → S → Bool × S
  send_file false password local path text s = client.write path text s
  send_file true password local path text s =
      stream_encrypt_upload (source.salt local) (source.nonce local) password path text s

  abbrev pub upload_created : Bool → Bool → (password local path text : Text) → S → Bool × S
  upload_created true encrypt password local path text s =
      send_file encrypt password local path text s
  upload_created false encrypt password local path text s = (false, s)

  abbrev pub upload_opened : Option Text → Bool → (password local path : Text) → S → Bool × S
  upload_opened none encrypt password local path s = (false, s)
  upload_opened (some text) encrypt password local path s =
      upload_created (client.create path s).0 encrypt password local path text
        (client.create path s).1

  unfoldable pub upload_file : (encrypt : Bool) (password local path : Text) → S → Bool × S
  upload_file encrypt password local path s =
      upload_opened (source.content local) encrypt password local path s

  -- The server and the log.
  pub record Session : Type 0 where
    pub server : S
    pub log : List LogLine

  abbrev pub note : LogLine → Session → Session
  note l s = record s { log = s.log ++ l ∷ [] }

  abbrev pub uploaded : Bool → (name : Text) → S → Session → Result (Unit {0}) × Session
  uploaded true name server s =
      (ok tt, note (info (codes "log.msg.uploaded") (name ∷ [])) (record s { server = server }))
  uploaded false name server s =
      (err (message (codes "err.upload") (name ∷ [])), record s { server = server })

  module _ (dir password : Text) (encrypt : Bool) where
    abbrev pub upload_entry : Bool → LocalEntry → Session → Result (Unit {0}) × Session
    upload_entry false loc s = (ok tt, s)
    upload_entry true loc s =
        let u = upload_file encrypt password loc.path (remote_path dir loc.name) s.server in
        uploaded u.0 loc.name u.1 s

    abbrev pub continue :
        Result (Unit {0}) → Session → Result (Unit {0}) × Session → Result (Unit {0}) × Session
    continue (ok u) s rest = rest
    continue (err e) s rest = (err e, s)

    -- The first loop of `Sync`.
    unfoldable pub upload_all :
        List RemoteEntry → List LocalEntry → Session → Result (Unit {0}) × Session
    upload_all remotes [] s = (ok tt, s)
    upload_all remotes (loc ∷ locs) s =
        let r = upload_entry (need_upload encrypt loc (remote_map remotes loc.name)) loc s in
        continue r.0 r.1 (upload_all remotes locs r.1)

  abbrev pub removed : Bool → (name : Text) → S → Session → Session
  removed true name server s =
      note (info (codes "log.msg.removed_remote") (name ∷ [])) (record s { server = server })
  removed false name server s =
      note (warn (codes "log.warn.remote_remove") (name ∷ [])) (record s { server = server })

  abbrev pub remove_entry : Bool → (dir name : Text) → Session → Session
  remove_entry true dir name s = s
  remove_entry false dir name s =
      let r = client.remove (remote_path dir name) s.server in removed r.0 name r.1 s

  -- The second loop of `Sync`.
  unfoldable pub remove_all : (dir : Text) → List LocalEntry → List RemoteEntry → Session → Session
  remove_all dir locals [] s = s
  remove_all dir locals (rem ∷ rems) s =
      remove_all dir locals rems (remove_entry (in_local locals rem.name) dir rem.name s)

  abbrev pub remove_after :
      Result (Unit {0})
      → (dir : Text) → List LocalEntry
      → List RemoteEntry
      → Session
      → Result (Unit {0}) × Session
  remove_after (ok u) dir locals remotes s = (ok tt, remove_all dir locals remotes s)
  remove_after (err e) dir locals remotes s = (err e, s)

  -- `Sync` from the two lists on.
  unfoldable pub sync_lists :
      RemoteConfig → List LocalEntry → List RemoteEntry → Session → Result (Unit {0}) × Session
  sync_lists cfg locals remotes s =
      let encrypt = not (is_empty (aes_password cfg)) in
      let r =
        upload_all cfg.remote_backup_dir (aes_password cfg) encrypt remotes locals
          (note (aes_line encrypt) s) in
      remove_after r.0 cfg.remote_backup_dir locals remotes r.1

  abbrev pub sync_listed :
      Result (List RemoteEntry)
      → RemoteConfig
      → List LocalEntry
      → Session
      → Result (Unit {0}) × Session
  sync_listed (ok remotes) cfg locals s = sync_lists cfg locals remotes s
  sync_listed (err e) cfg locals s = (err (message (codes "err.list_remote") []), s)

  abbrev pub made_dir : Bool → (dir : Text) → S → Session → Session
  made_dir true dir server s = record s { server = server }
  made_dir false dir server s =
      note (warn (codes "log.warn.sftp_mkdir") (dir ∷ [])) (record s { server = server })

  -- `Sync` with an open connection; `dialled` and `sftp` say whether there is one.
  abbrev pub sync_connected :
      Bool → Bool → RemoteConfig → List LocalEntry → Session → Result (Unit {0}) × Session
  sync_connected false sftp cfg locals s = (err (message (codes "err.ssh_dial") []), s)
  sync_connected true false cfg locals s = (err (message (codes "err.sftp") []), s)
  sync_connected true true cfg locals s =
      let m = client.mkdir_all cfg.remote_backup_dir s.server in
      let t = made_dir m.0 cfg.remote_backup_dir m.1 s in
      sync_listed (list_remote (client.read_dir cfg.remote_backup_dir t.server)) cfg locals t

  abbrev pub sync_local :
      Result (List LocalEntry)
      → (dialled sftp : Bool) → RemoteConfig
      → Session
      → Result (Unit {0}) × Session
  sync_local (err e) dialled sftp cfg s = (err (message (codes "err.list_local") []), s)
  sync_local (ok locals) dialled sftp cfg s = sync_connected dialled sftp cfg locals s

  unfoldable pub sync :
      RemoteConfig
      → (backup_dir : ReadDir) (dialled sftp : Bool) → Session
      → Result (Unit {0}) × Session
  sync cfg backup_dir dialled sftp s =
      if is_empty cfg.remote_backup_dir || is_empty cfg.remote_ssh_host
      then (ok tt, s)
      else sync_local (list_local_backups backup_dir) dialled sftp cfg s

-- The local copy of a remote file: `GetFile` and `getOneFile`.
unfoldable pub contains_wildcard : Text → Bool
contains_wildcard s = contains s (codes "*") || contains s (codes "?")

-- `validGetfilePattern` of remote.go
unfoldable pub valid_getfile_pattern : Text → Bool
valid_getfile_pattern pattern =
    if is_empty pattern || contains pattern (codes "..")
    then false
    else text_eq (base pattern) pattern
      && (not (contains pattern (codes "/")) && not (contains pattern (92 ∷ [])))

abbrev pub header_len : ℕ
header_len = salt_len + nonce_len

-- Whether `header[0] != 'P' || header[1] != 'K'`
unfoldable pub is_not_zip : Text → Bool
is_not_zip [] = true
is_not_zip (a ∷ []) = true
is_not_zip (a ∷ b ∷ s) = not (a == b'P') || not (b == b'K')

module _ (cipher : Cipher) where
  -- What `getOneFile` writes of the `content` that it read, or its error: `io.ReadFull` refuses a
  -- content that is shorter than the header, but not an empty one.
  unfoldable pub received : (password content : Text) → Result Text
  received password content =
      let header = take header_len content in
      let rest = drop header_len content in
      if ltb 0 (length content) && ltb (length content) header_len
      then err (message (codes "err.remote_read") [])
      else if not (is_empty password) && ((length header == header_len) && is_not_zip header)
      then ok (cipher.ctr (cipher.key password (take salt_len header)) (drop salt_len header) rest)
      else ok (header ++ rest)
