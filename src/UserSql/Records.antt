-- ===== src/UserSql/Records.antt =====
-- What is true of the records after any number of lines.
use my_sql_backup.Base.{
  ◌≡◌, refl, ap, ◌∙◌, ◌⊎◌, inl, inr, Bool, true, false, ◌||◌, List, [], ◌∷◌, ◌++◌, arith,
}
use my_sql_backup.Base.Tests.{if◌then◌else◌}
use my_sql_backup.Base.Lists.{All, All-append, All-map, exists_in, is_empty}
use my_sql_backup.Base.Texts.{Text, text_eq, text_eq_refl, text_eq_sound, trim_space}
use my_sql_backup.Base.Keys.{
  has_key, put_key, lookup, insert, values, keys, Distinct, append-Distinct, put_key-Distinct,
  has_key-append, has_key-put_key,
}
use my_sql_backup.UserSql.{
  GrantLine, UserRecord, differs, new_user_record, add_host, set_password, add_account, add_grant,
  put_db,
}

-- A database of a grant is known, or the grant is for all databases.
abbrev pub IsPlaced : List Text → GrantLine → Type 0
IsPlaced dbs g = (is_empty g.db ≡ true) ⊎ (has_key g.db dbs ≡ true)

abbrev pub is_for : Text → GrantLine → Bool
is_for db g = text_eq g.db db

-- The record of a user: the two forms of the hosts agree, no host and no database stands twice, no
-- database has white space at an end, every password belongs to a host and none is empty, and the
-- databases are those of the grants.
pub record IsSound (u : UserRecord) : Type 0 where
  pub hosts_agree : u.host_set ≡ u.hosts
  pub hosts_distinct : Distinct u.hosts
  pub dbs_distinct : Distinct u.dbs
  pub dbs_named : All (λ d. is_empty d ≡ false) u.dbs
  pub dbs_trimmed : All (λ d. trim_space d ≡ d) u.dbs
  pub grants_placed : All (IsPlaced u.dbs) u.grants
  pub dbs_granted : All (λ d. exists_in (is_for d) u.grants ≡ true) u.dbs
  pub passwords_set : All (λ p. is_empty p ≡ false) (values u.pw_by_host)
  pub passwords_hosted : All (λ h. has_key h u.hosts ≡ true) (keys u.pw_by_host)
  pub password_first :
      (is_empty u.password ≡ true) ⊎ (has_key u.password (values u.pw_by_host) ≡ true)

pub new_user_record-IsSound : (name : Text) → IsSound (new_user_record name)
unfolding new_user_record
new_user_record-IsSound name = record {
  hosts_agree = refl;
  hosts_distinct = tt;
  dbs_distinct = tt;
  dbs_named = tt;
  dbs_trimmed = tt;
  grants_placed = tt;
  dbs_granted = tt;
  passwords_set = tt;
  passwords_hosted = tt;
  password_first = inl refl;
}

has_key_mono : (h k : Text) (ks : List Text) → has_key h ks ≡ true → has_key h (ks ++ k ∷ []) ≡ true
has_key_mono h k ks e = ground (arith, has_key-append h ks (k ∷ []))

add_host-IsSound : (host : Text) (u : UserRecord) → IsSound u → IsSound (add_host host u)
unfolding add_host
add_host-IsSound host u s = by_test (has_key host u.host_set) refl
  where
    by_test :
        (b : Bool)
        → has_key host u.host_set ≡ b
        → IsSound (
            if b
            then u
            else record u { hosts = u.hosts ++ host ∷ []; host_set = put_key host u.host_set })
    by_test true e = s
    by_test false e = record {
      hosts_agree = rw e (ap (λ x. x ++ host ∷ []) s.hosts_agree);
      hosts_distinct = append-Distinct host u.hosts s.hosts_distinct (rw s.hosts_agree at e);
      dbs_distinct = s.dbs_distinct;
      dbs_named = s.dbs_named;
      dbs_trimmed = s.dbs_trimmed;
      grants_placed = s.grants_placed;
      dbs_granted = s.dbs_granted;
      passwords_set = s.passwords_set;
      passwords_hosted =
          All-map (λ h. has_key h u.hosts ≡ true) (λ h. has_key h (u.hosts ++ host ∷ []) ≡ true)
            (keys u.pw_by_host) (λ h k. has_key_mono h host u.hosts k) s.passwords_hosted;
      password_first = s.password_first;
    }

-- After `add_host` the host is known.
add_host-host :
    (host : Text) (u : UserRecord) → IsSound u → has_key host (add_host host u).hosts ≡ true
unfolding add_host
add_host-host host u s =
    ground (arith, s.hosts_agree, has_key-append host u.hosts (host ∷ []), text_eq_refl host)

values-insert :
    (k v : Text) (m : List (Text × Text))
    → All (λ p. is_empty p ≡ false) (values m)
    → is_empty v ≡ false
    → All (λ p. is_empty p ≡ false) (values (insert k v m))
unfolding insert
values-insert k v [] a h = (h, tt)
values-insert k v ((j, w) ∷ m) a h = by_test (text_eq j k) (values-insert k v m a.1 h)
  where
    by_test :
        (b : Bool)
        → All (λ p. is_empty p ≡ false) (values (insert k v m))
        → All (λ p. is_empty p ≡ false) (values (if b then (j, v) ∷ m else (j, w) ∷ insert k v m))
    by_test true ih = (h, a.1)
    by_test false ih = (a.0, ih)

keys-insert :
    (P : Text → Type 0) (k v : Text) (m : List (Text × Text))
    → All P (keys m)
    → P k
    → All P (keys (insert k v m))
unfolding insert
keys-insert P k v [] a h = (h, tt)
keys-insert P k v ((j, w) ∷ m) a h = by_test (text_eq j k) (keys-insert P k v m a.1 h)
  where
    by_test :
        (b : Bool)
        → All P (keys (insert k v m))
        → All P (keys (if b then (j, v) ∷ m else (j, w) ∷ insert k v m))
    by_test true ih = a
    by_test false ih = (a.0, ih)

has_key-insert_new :
    (k v : Text) (m : List (Text × Text)) → has_key v (values (insert k v m)) ≡ true
unfolding insert
has_key-insert_new k v [] = ground (arith, text_eq_refl v)
has_key-insert_new k v ((j, w) ∷ m) = ground (arith, text_eq_refl v, has_key-insert_new k v m)

-- A value that is put in where there was none or the same keeps the others.
has_key-insert_old :
    (p k v : Text) (m : List (Text × Text))
    → differs (lookup k m) v ≡ false
    → has_key p (values m) ≡ true
    → has_key p (values (insert k v m)) ≡ true
unfolding insert lookup
has_key-insert_old p k v [] d h = ground arith
has_key-insert_old p k v ((j, w) ∷ m) d h =
    ground (arith, has_key-insert_old p k v m, text_eq_sound w v)

set_password-IsSound :
    (host hash : Text) (u : UserRecord)
    → has_key host u.hosts ≡ true
    → IsSound u
    → IsSound (set_password host hash u).1
unfolding set_password
set_password-IsSound host hash u k s =
    by_tests (is_empty hash) (differs (lookup host u.pw_by_host) hash) refl refl
  where
    changed : UserRecord
    changed = record u {
      pw_by_host = insert host hash u.pw_by_host;
      password = if is_empty u.password then hash else u.password;
    }

    by_tests :
        (b c : Bool)
        → is_empty hash ≡ b
        → differs (lookup host u.pw_by_host) hash ≡ c
        → IsSound
            (if◌then◌else◌ {A = Bool × UserRecord} b
              (true, u)
              (if c then (false, u) else (true, changed))).1
    by_tests true c e d = s
    by_tests false true e d = s
    by_tests false false e d = record {
      hosts_agree = s.hosts_agree;
      hosts_distinct = s.hosts_distinct;
      dbs_distinct = s.dbs_distinct;
      dbs_named = s.dbs_named;
      dbs_trimmed = s.dbs_trimmed;
      grants_placed = s.grants_placed;
      dbs_granted = s.dbs_granted;
      passwords_set = values-insert host hash u.pw_by_host s.passwords_set e;
      passwords_hosted =
          keys-insert (λ h. has_key h u.hosts ≡ true) host hash u.pw_by_host s.passwords_hosted k;
      password_first = ground (
        arith,
        s.password_first,
        has_key-insert_new host hash u.pw_by_host,
        has_key-insert_old u.password host hash u.pw_by_host,
      );
    }

set_password_hosts :
    (host hash : Text) (u : UserRecord) → (set_password host hash u).1.hosts ≡ u.hosts
unfolding set_password
set_password_hosts host hash u = ground arith

-- What holds of a record that is in the map: it has a host, too.
abbrev pub IsListed : UserRecord → Type 0
IsListed u = IsSound u × (is_empty u.hosts ≡ false)

is_empty-has_key : (k : Text) (ks : List Text) → has_key k ks ≡ true → is_empty ks ≡ false
is_empty-has_key k [] h = ground arith
is_empty-has_key k (x ∷ xs) h = refl

pub add_account-IsListed :
    (host pw : Text) (u : UserRecord) → IsSound u → IsListed (add_account host pw u)
unfolding add_account
add_account-IsListed host pw u s =
    let v = add_host host u in
    let k = add_host-host host u s in
    (
      set_password-IsSound host pw v k (add_host-IsSound host u s),
      ap is_empty (set_password_hosts host pw v) ∙ is_empty-has_key host v.hosts k,
    )

exists-append :
    (d : Text) (gs : List GrantLine) (g : GrantLine)
    → exists_in (is_for d) (gs ++ g ∷ []) ≡ (exists_in (is_for d) gs || is_for d g)
exists-append d [] g = ground arith
exists-append d (x ∷ gs) g = ground (arith, exists-append d gs g)

put_key-All :
    (P : Text → Type 0) (k : Text) (ks : List Text) → All P ks → P k → All P (put_key k ks)
put_key-All P k ks a h = by_test (has_key k ks)
  where
    by_test : (b : Bool) → All P (if b then ks else ks ++ k ∷ [])
    by_test true = a
    by_test false = All-append P ks (k ∷ []) a (h, tt)

module _ (line db : Text) (u : UserRecord) (s : IsSound u) where
  abbrev new_grant : GrantLine
  new_grant = record { raw = line; db = db }

  put_db-Distinct : Distinct (put_db db u.dbs)
  put_db-Distinct = by_test (is_empty db)
    where
      by_test : (b : Bool) → Distinct (if b then u.dbs else put_key db u.dbs)
      by_test true = s.dbs_distinct
      by_test false = put_key-Distinct db u.dbs s.dbs_distinct

  -- A property of the databases so far, and of a new one that has a name.
  put_db-All :
      (P : Text → Type 0) → All P u.dbs → (is_empty db ≡ false → P db) → All P (put_db db u.dbs)
  put_db-All P a h = by_test (is_empty db) refl
    where
      by_test : (b : Bool) → is_empty db ≡ b → All P (if b then u.dbs else put_key db u.dbs)
      by_test true e = a
      by_test false e = put_key-All P db u.dbs a (h e)

  IsPlaced-mono : (g : GrantLine) → IsPlaced u.dbs g → IsPlaced (put_db db u.dbs) g
  IsPlaced-mono g (inl e) = inl e
  IsPlaced-mono g (inr h) = inr (ground (arith, has_key-put_key g.db db u.dbs))

  new_grant-IsPlaced : IsPlaced (put_db db u.dbs) new_grant
  new_grant-IsPlaced = ground (arith, has_key-put_key db db u.dbs, text_eq_refl db)

  pub add_grant-IsSound : trim_space db ≡ db → IsSound (add_grant line db u)
  unfolding add_grant
  add_grant-IsSound t = record {
    hosts_agree = s.hosts_agree;
    hosts_distinct = s.hosts_distinct;
    dbs_distinct = put_db-Distinct;
    dbs_named = put_db-All (λ d. is_empty d ≡ false) s.dbs_named (λ e. e);
    dbs_trimmed = put_db-All (λ d. trim_space d ≡ d) s.dbs_trimmed (λ e. t);
    grants_placed =
        All-append (IsPlaced (put_db db u.dbs)) u.grants (new_grant ∷ [])
          (All-map (IsPlaced u.dbs) (IsPlaced (put_db db u.dbs)) u.grants IsPlaced-mono
            s.grants_placed)
          (new_grant-IsPlaced, tt);
    dbs_granted =
        put_db-All (λ d. exists_in (is_for d) (u.grants ++ new_grant ∷ []) ≡ true)
          (All-map (λ d. exists_in (is_for d) u.grants ≡ true)
            (λ d. exists_in (is_for d) (u.grants ++ new_grant ∷ []) ≡ true) u.dbs
            (λ d h. ground (arith, exists-append d u.grants new_grant)) s.dbs_granted)
          (λ e. ground (arith, exists-append db u.grants new_grant, text_eq_refl db));
    passwords_set = s.passwords_set;
    passwords_hosted = s.passwords_hosted;
    password_first = s.password_first;
  }
