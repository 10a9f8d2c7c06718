-- ===== src/Remote/Examples.antt =====
-- Runs of internal/remote/remote.go over a server in memory, and the theorems at concrete data.
use my_sql_backup.Base.{◌≡◌, refl, Bool, true, false, not, Option, none, some, [], ◌∷◌, ◌++◌}
use my_sql_backup.Base.Tests.{if◌then◌else◌}
use my_sql_backup.Base.Lists.{All, is_empty}
use my_sql_backup.Base.Texts.{Text, codes, text_eq, text_eq_refl, trim_space}
use my_sql_backup.Base.Results.{ok}
use my_sql_backup.Remote.{
  Client, Cipher, Source, RemoteConfig, LocalEntry, remote_missing, Session, aes_password,
  sync_lists, received, upload_all, upload_file, remove_all, need_upload, remote_map, in_local,
  is_not_zip,
}
use my_sql_backup.Remote.Fetch.{Local, FetchAnswers}
use my_sql_backup.Remote.Uploads.{ClientLaws}
use my_sql_backup.Remote.Synced.{IsCurrent, sync_lists-IsCurrent}
use my_sql_backup.Remote.Download.{sent, received-sent}

abbrev Files : Type 0
Files = Text → Option Text

abbrev put : Text → Option Text → Files → Files
put p o s = λ q. if text_eq p q then o else s q

abbrev appended : Option Text → Text → Option Text
appended none t = none
appended (some b) t = some (b ++ t)

abbrev memory : Client Files
memory = record {
  mkdir_all = λ p s. (true, s);
  read_dir = λ p s. remote_missing;
  create = λ p s. (true, put p (some []) s);
  write = λ p t s. (true, put p (appended (s p) t) s);
  remove = λ p s. (true, put p none s);
}

abbrev holds : Files → Text → Option Text
holds s p = s p

memory_laws : ClientLaws memory holds
memory_laws = record {
  create_done = λ p s h. rw (text_eq_refl p) refl;
  create_frame = λ p q s h. rw h refl;
  write_done = λ p t b s h d. rw (text_eq_refl p, h) refl;
  write_frame = λ p q t s h. rw h refl;
  remove_frame = λ p q s h. rw h refl;
}

abbrev cipher : Cipher
cipher = record { key = λ p s. p; ctr = λ k n t. t }

abbrev source : Source
source = record { content = λ p. some (codes "PK-data"); salt = λ p. none; nonce = λ p. none }

abbrev config : RemoteConfig
config = record {
  remote_backup_dir = codes "/b";
  remote_ssh_host = codes "h";
  remote_aes_password = [];
}

abbrev entry : LocalEntry
entry = record { name = codes "x.zip"; mod_time = 5; size = 7; path = codes "x.zip" }

abbrev start : Session memory cipher source
start = record { server = λ p. none; log = [] }

-- Unfolded by name, this runs a copy.
syncing : Unit {0}
unfolding sync_lists upload_all upload_file remove_all need_upload remote_map in_local aes_password
    trim_space text_eq
syncing = tt

copied :
    (sync_lists memory cipher source config (entry ∷ []) [] start).1.server (codes "/b/x.zip")
    ≡ some (codes "PK-data")
unfolding syncing
copied = refl

sync_lists-IsCurrent_example :
    All
      (IsCurrent memory cipher source holds memory_laws start.server
        (codes "/b")
        (aes_password config)
        (not (is_empty (aes_password config)))
        []
        (sync_lists memory cipher source config (entry ∷ []) [] start).1.server)
      (entry ∷ [])
sync_lists-IsCurrent_example =
    sync_lists-IsCurrent memory cipher source holds memory_laws config (entry ∷ []) [] start
      (unfold in_local in (refl, tt)) (unfold syncing in refl)

abbrev sixteen : Text
sixteen = codes "0123456789abcdef"

received-sent_example :
    received cipher (codes "pw") (sent cipher (codes "pw") sixteen sixteen (codes "text"))
    ≡ ok (codes "text")
received-sent_example =
    received-sent cipher (codes "pw") sixteen sixteen (codes "text") refl refl refl
      (unfold is_not_zip in refl) (λ k n t. refl)

abbrev answers : FetchAnswers
answers = record {
  dialled = true;
  sftp = true;
  listing = remote_missing;
  content = λ p. some (codes "PK-new");
  stat_fails = λ p. false;
  creates = λ p. true;
  breaks = λ p. none;
}

abbrev here : Local
here = record {
  files = put (codes "/l/mysql_backup_20260131_h_a.zip") (some (codes "old")) (λ q. none);
  log = [];
}

abbrev any_name : (pattern name : Text) → Option Bool
any_name pattern name = some true
