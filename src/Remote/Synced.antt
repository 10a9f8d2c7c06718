-- ===== src/Remote/Synced.antt =====
-- The two loops of `Sync` over the files of the backup directory and of the server.
use my_sql_backup.Base.{
  ◌+◌, ◌≤◌, ◌≡◌, refl, sym, ap, ◌∙◌, ◌⊎◌, inl, inr, Bool, true, false, not, Option, none, some,
  List, [], ◌∷◌, arith,
}
use mathlib.Core.Path.{subst}
use my_sql_backup.Base.Tests.{Bool-cases, Option-cases, if◌then◌else◌}
use my_sql_backup.Base.Lists.{All, is_empty}
use my_sql_backup.Base.Texts.{Text, text_eq, text_eq_refl, text_eq_sound}
use my_sql_backup.Base.Results.{Result, ok, err}
use my_sql_backup.Remote.{
  Client, Cipher, Source, RemoteConfig, LocalEntry, RemoteEntry, in_local, remote_map, need_upload,
  remote_path, upload_file, Session, note, uploaded, upload_entry, continue, upload_all, removed,
  remove_entry, remove_all, remove_after, aes_password, aes_line, sync_lists,
}
use my_sql_backup.Remote.Uploads.{
  ClientLaws, SentFrom, upload_file-frame, upload_file-SentFrom, remote_path_apart,
}

-- The names of a list differ.
abbrev pub Distinct : List LocalEntry → Type 0
Distinct [] = Unit {0}
Distinct (e ∷ es) = (in_local es e.name ≡ false) × Distinct es

abbrev pub IsListed : RemoteEntry → List RemoteEntry → Type 0
IsListed rem [] = ⊥
IsListed rem (r ∷ rs) = (rem ≡ r) ⊎ IsListed rem rs

-- The listing has a file of the name that is not older and has the size of the encrypted one.
abbrev pub IsListedCurrent : (encrypt : Bool) → List RemoteEntry → LocalEntry → Type 0
IsListedCurrent encrypt remotes loc =
    (rem : RemoteEntry) × IsListed rem remotes
    × (rem.name ≡ loc.name)
    × (loc.mod_time ≤ rem.mod_time)
    × ((encrypt ≡ false) ⊎ (rem.size ≡ loc.size + 32))

map_choice :
    (o : Option RemoteEntry) (b : Bool) (e rem : RemoteEntry)
    → (elim o [ some later ↦ some later | none ↦ if b then some e else none ]) ≡ some rem
    → (o ≡ some rem) ⊎ ((b ≡ true) × (e ≡ rem))
map_choice (some later) b e rem h = inl h
map_choice none true e rem h = inr (refl, cc)
map_choice none false e rem h = cc

map_found :
    (remotes : List RemoteEntry) (name : Text) (rem : RemoteEntry)
    → remote_map remotes name ≡ some rem
    → IsListed rem remotes × (text_eq rem.name name ≡ true)
unfolding remote_map
map_found [] name rem h = cc
map_found (e ∷ es) name rem h =
    elim (map_choice (remote_map es name) (text_eq e.name name) e rem h) [
      | inl o ↦ let i = map_found es name rem o in (inr i.0, i.1)
      | inr (t, q) ↦ (inl (sym q), ap (λ (x : RemoteEntry). text_eq x.name name) (sym q) ∙ t)
    ]

not_needed :
    (encrypt : Bool) (loc : LocalEntry) (rem : RemoteEntry)
    → need_upload encrypt loc (some rem) ≡ false
    → (loc.mod_time ≤ rem.mod_time) × ((encrypt ≡ false) ⊎ (rem.size ≡ loc.size + 32))
unfolding need_upload
not_needed encrypt loc rem h = ground arith

needed : (encrypt : Bool) (loc : LocalEntry) → need_upload encrypt loc none ≡ false → ⊥
unfolding need_upload
needed encrypt loc h = cc

skipped-IsListedCurrent :
    (encrypt : Bool) (remotes : List RemoteEntry) (loc : LocalEntry)
    → need_upload encrypt loc (remote_map remotes loc.name) ≡ false
    → IsListedCurrent encrypt remotes loc
skipped-IsListedCurrent encrypt remotes loc h = elim (Option-cases (remote_map remotes loc.name)) [
  | inl n ↦ absurd (needed encrypt loc (ap (need_upload encrypt loc) (sym n) ∙ h))
  | inr (rem, e) ↦
      let (l, t) = map_found remotes loc.name rem e in
      let c = not_needed encrypt loc rem (ap (need_upload encrypt loc) (sym e) ∙ h) in
      (rem, l, text_eq_sound rem.name loc.name t, c.0, c.1)
]

module _ {S : Type 0} (client : Client S) (cipher : Cipher) (source : Source)
    (file : S → Text → Option Text) (laws : ClientLaws client file) where
  -- The server holds a copy of the file that was sent now; or it lists one of this name that is not
  -- older and, with encryption, as long as the encrypted file, and this one is as it was in `s0`.
  abbrev pub IsCurrent :
      (s0 : S) (dir password : Text) (encrypt : Bool) → List RemoteEntry → S → LocalEntry → Type 0
  IsCurrent s0 dir password encrypt remotes s loc =
      (IsListedCurrent encrypt remotes loc
        × (file s (remote_path dir loc.name) ≡ file s0 (remote_path dir loc.name)))
      ⊎ SentFrom client cipher source file laws (source.content loc.path) encrypt password
          (remote_path dir loc.name) s

  abbrev server_of : Result (Unit {0}) × Session client cipher source → S
  server_of r = r.1.server

  uploaded_server :
      (b : Bool) (name : Text) (t : S) (s : Session client cipher source)
      → server_of (uploaded client cipher source b name t s) ≡ t
  uploaded_server true name t s = refl
  uploaded_server false name t s = refl

  uploaded_done :
      (b : Bool) (name : Text) (t : S) (s : Session client cipher source)
      → (uploaded client cipher source b name t s).0 ≡ ok tt
      → b ≡ true
  uploaded_done true name t s h = refl
  uploaded_done false name t s h = ground arith

  module _ (s0 : S) (dir password : Text) (encrypt : Bool) (remotes : List RemoteEntry) where
    abbrev entry_after :
        Bool
        → LocalEntry
        → Session client cipher source
        → Result (Unit {0}) × Session client cipher source
    entry_after b loc s = upload_entry client cipher source dir password encrypt b loc s

    entry-frame :
        (b : Bool) (loc : LocalEntry) (name : Text) (s : Session client cipher source)
        → text_eq loc.name name ≡ false
        → file (server_of (entry_after b loc s)) (remote_path dir name)
          ≡ file s.server (remote_path dir name)
    entry-frame false loc name s h = refl
    entry-frame true loc name s h =
        let u =
          upload_file client cipher source encrypt password loc.path (remote_path dir loc.name)
            s.server in
        ap (λ t. file t (remote_path dir name)) (uploaded_server u.0 loc.name u.1 s)
        ∙ upload_file-frame client cipher source file laws encrypt password loc.path
            (remote_path dir loc.name) (remote_path dir name) s.server
            (remote_path_apart dir loc.name name h)

    continue-server :
        (r : Result (Unit {0})) (s : Session client cipher source)
        (rest : Result (Unit {0}) × Session client cipher source) (path : Text) (o : Option Text)
        → file s.server path ≡ o
        → file (server_of rest) path ≡ o
        → file (server_of (continue client cipher source dir password encrypt r s rest)) path ≡ o
    continue-server (ok u) s rest path o h k = k
    continue-server (err e) s rest path o h k = h

    -- The bytes of a file's copy, for whoever looks at the server later.
    abbrev Copied : LocalEntry → S → Type 0
    Copied loc t =
        SentFrom client cipher source file laws (source.content loc.path) encrypt password
          (remote_path dir loc.name) t

    entry-IsCurrent :
        (b : Bool) (loc : LocalEntry) (s : Session client cipher source)
        → need_upload encrypt loc (remote_map remotes loc.name) ≡ b
        → file s.server (remote_path dir loc.name) ≡ file s0 (remote_path dir loc.name)
        → (entry_after b loc s).0 ≡ ok tt
        → IsCurrent s0 dir password encrypt remotes (server_of (entry_after b loc s)) loc
    entry-IsCurrent false loc s n f h = inl (skipped-IsListedCurrent encrypt remotes loc n, f)
    entry-IsCurrent true loc s n f h =
        let u =
          upload_file client cipher source encrypt password loc.path (remote_path dir loc.name)
            s.server in
        inr (
          subst (λ t. Copied loc t) (sym (uploaded_server u.0 loc.name u.1 s))
            (upload_file-SentFrom client cipher source file laws encrypt password loc.path
              (remote_path dir loc.name) s.server (uploaded_done u.0 loc.name u.1 s h)))

    upload_all-frame :
        (locs : List LocalEntry) (name : Text) (s : Session client cipher source)
        → in_local locs name ≡ false
        → file
            (server_of (upload_all client cipher source dir password encrypt remotes locs s))
            (remote_path dir name)
          ≡ file s.server (remote_path dir name)
    unfolding upload_all in_local
    upload_all-frame [] name s h = refl
    upload_all-frame (loc ∷ locs) name s h =
        let r = entry_after (need_upload encrypt loc (remote_map remotes loc.name)) loc s in
        let f =
          entry-frame (need_upload encrypt loc (remote_map remotes loc.name)) loc name s
            (ground arith) in
        continue-server r.0 r.1
          (upload_all client cipher source dir password encrypt remotes locs r.1)
          (remote_path dir name) (file s.server (remote_path dir name)) f
          (upload_all-frame locs name r.1 (ground arith) ∙ f)

    continue-done :
        (r : Result (Unit {0})) (s : Session client cipher source)
        (rest : Result (Unit {0}) × Session client cipher source)
        → (continue client cipher source dir password encrypt r s rest).0 ≡ ok tt
        → (r ≡ ok tt)
          × (rest.0 ≡ ok tt)
          × (continue client cipher source dir password encrypt r s rest ≡ rest)
    continue-done (ok tt) s rest h = (refl, h, refl)
    continue-done (err e) s rest h = ground arith

    sent-carry :
        (o : Option Text) (path : Text) (s t : S)
        → file t path ≡ file s path
        → SentFrom client cipher source file laws o encrypt password path s
        → SentFrom client cipher source file laws o encrypt password path t
    sent-carry none path s t k h = h
    sent-carry (some text) path s t k h = (h.0, k ∙ h.1, h.2)

    -- A copy stays current while nobody touches its path.
    IsCurrent-carry :
        (loc : LocalEntry) (s t : S)
        → file t (remote_path dir loc.name) ≡ file s (remote_path dir loc.name)
        → IsCurrent s0 dir password encrypt remotes s loc
        → IsCurrent s0 dir password encrypt remotes t loc
    IsCurrent-carry loc s t k (inl (n, f)) = inl (n, k ∙ f)
    IsCurrent-carry loc s t k (inr h) =
        inr (sent-carry (source.content loc.path) (remote_path dir loc.name) s t k h)

    in_local-apart :
        (locals : List LocalEntry) (rem name : Text)
        → in_local locals name ≡ true
        → in_local locals rem ≡ false
        → text_eq rem name ≡ false
    in_local-apart locals rem name h k = elim (Bool-cases (text_eq rem name)) [
      | inr f ↦ f
      | inl t ↦ let e = text_eq_sound rem name t in cc
    ]

    -- The files of the list are on the server as they were in `s0`.
    abbrev AreAsBefore : List LocalEntry → S → Type 0
    AreAsBefore locs t =
        (name : Text)
        → in_local locs name ≡ true
        → file t (remote_path dir name) ≡ file s0 (remote_path dir name)

    upload_all-IsCurrent :
        (locs : List LocalEntry) (s : Session client cipher source)
        → Distinct locs
        → AreAsBefore locs s.server
        → (upload_all client cipher source dir password encrypt remotes locs s).0 ≡ ok tt
        → All
            (IsCurrent s0 dir password encrypt remotes
              (server_of (upload_all client cipher source dir password encrypt remotes locs s)))
            locs
    unfolding upload_all in_local
    upload_all-IsCurrent [] s d k h = tt
    upload_all-IsCurrent (loc ∷ locs) s d k h =
        let b = need_upload encrypt loc (remote_map remotes loc.name) in
        let r = entry_after b loc s in
        let rest = upload_all client cipher source dir password encrypt remotes locs r.1 in
        let n = continue-done r.0 r.1 rest h in
        subst (λ x. All (IsCurrent s0 dir password encrypt remotes (server_of x)) (loc ∷ locs))
          (sym n.2)
          (
            IsCurrent-carry loc r.1.server rest.1.server (upload_all-frame locs loc.name r.1 d.0)
                (entry-IsCurrent b loc s refl (k loc.name (rw (text_eq_refl loc.name) refl)) n.0),
            upload_all-IsCurrent locs r.1 d.1
                (λ name i.
                  entry-frame b loc name s (in_local-apart locs loc.name name i d.0)
                  ∙ k name (ground arith))
                n.1,
          )

    removed_server :
        (b : Bool) (name : Text) (t : S) (s : Session client cipher source)
        → (removed client cipher source b name t s).server ≡ t
    removed_server true name t s = refl
    removed_server false name t s = refl

    remove_entry-frame :
        (b : Bool) (rem name : Text) (s : Session client cipher source)
        → (b ≡ false → text_eq rem name ≡ false)
        → file (remove_entry client cipher source b dir rem s).server (remote_path dir name)
          ≡ file s.server (remote_path dir name)
    remove_entry-frame true rem name s h = refl
    remove_entry-frame false rem name s h =
        let r = client.remove (remote_path dir rem) s.server in
        ap (λ t. file t (remote_path dir name)) (removed_server r.0 rem r.1 s)
        ∙ laws.remove_frame (remote_path dir rem) (remote_path dir name) s.server
            (remote_path_apart dir rem name (h refl))

    remove_all-frame :
        (locals : List LocalEntry) (rems : List RemoteEntry) (name : Text)
        (s : Session client cipher source)
        → in_local locals name ≡ true
        → file (remove_all client cipher source dir locals rems s).server (remote_path dir name)
          ≡ file s.server (remote_path dir name)
    unfolding remove_all
    remove_all-frame locals [] name s h = refl
    remove_all-frame locals (rem ∷ rems) name s h =
        remove_all-frame locals rems name
          (remove_entry client cipher source (in_local locals rem.name) dir rem.name s) h
        ∙ remove_entry-frame (in_local locals rem.name) rem.name name s
            (in_local-apart locals rem.name name h)

    after_removal :
        (locals locs : List LocalEntry) (rems : List RemoteEntry) (s : Session client cipher source)
        → ((name : Text) → in_local locs name ≡ true → in_local locals name ≡ true)
        → All (IsCurrent s0 dir password encrypt remotes s.server) locs
        → All
            (IsCurrent s0 dir password encrypt remotes
              (remove_all client cipher source dir locals rems s).server)
            locs
    unfolding in_local
    after_removal locals [] rems s within h = tt
    after_removal locals (loc ∷ locs) rems s within h = (
      IsCurrent-carry loc s.server (remove_all client cipher source dir locals rems s).server
          (remove_all-frame locals rems loc.name s
            (within loc.name (rw (text_eq_refl loc.name) refl)))
          h.0,
      after_removal locals locs rems s (λ name k. within name (ground arith)) h.1,
    )

    remove_after-IsCurrent :
        (r : Result (Unit {0})) (locals : List LocalEntry) (rems : List RemoteEntry)
        (s : Session client cipher source)
        → (r ≡ ok tt → All (IsCurrent s0 dir password encrypt remotes s.server) locals)
        → (remove_after client cipher source r dir locals rems s).0 ≡ ok tt
        → All
            (IsCurrent s0 dir password encrypt remotes
              (server_of (remove_after client cipher source r dir locals rems s)))
            locals
    remove_after-IsCurrent (ok tt) locals rems s h d =
        after_removal locals locals rems s (λ name k. k) (h refl)
    remove_after-IsCurrent (err e) locals rems s h d = ground arith

  -- If the client keeps its promises and the files of the backup directory have different names,
  -- then after a copy that succeeds the server holds each of them as it was sent now, encrypted if
  -- there is a password; or the listing had a file of this name that is not older and, if there is
  -- a password, is 32 bytes longer than the local one, and that file is as it was before.
  pub sync_lists-IsCurrent :
      (cfg : RemoteConfig) (locals : List LocalEntry) (remotes : List RemoteEntry)
      (s : Session client cipher source)
      → Distinct locals
      → (sync_lists client cipher source cfg locals remotes s).0 ≡ ok tt
      → All
          (IsCurrent s.server cfg.remote_backup_dir
            (aes_password cfg)
            (not (is_empty (aes_password cfg)))
            remotes
            (server_of (sync_lists client cipher source cfg locals remotes s)))
          locals
  unfolding sync_lists
  sync_lists-IsCurrent cfg locals remotes s d h =
      let encrypt = not (is_empty (aes_password cfg)) in
      let start = note client cipher source (aes_line encrypt) s in
      let r =
        upload_all client cipher source cfg.remote_backup_dir (aes_password cfg) encrypt remotes
          locals start in
      remove_after-IsCurrent s.server cfg.remote_backup_dir (aes_password cfg) encrypt remotes r.0
        locals remotes r.1
        (upload_all-IsCurrent s.server cfg.remote_backup_dir (aes_password cfg) encrypt remotes
          locals start d (λ name k. refl))
        h
