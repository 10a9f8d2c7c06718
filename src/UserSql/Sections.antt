-- ===== src/UserSql/Sections.antt =====
-- The statements of a database in the map that `ParseUserSQL` builds.
use my_sql_backup.Base.{
  ◌≡◌, refl, sym, ap, ◌∙◌, inl, inr, Bool, true, false, ◌||◌, List, [], ◌∷◌, arith,
}
use my_sql_backup.Base.Tests.{if◌then◌else◌, Bool-cases}
use my_sql_backup.Base.Lists.{All, All-map, is_empty}
use my_sql_backup.Base.Texts.{Text, text_eq, text_eq_refl, text_eq_sound, trim_space}
use my_sql_backup.Base.Keys.{has_key, lookup, insert, Distinct, lookup-insert, All-has_key}
use mathlib.Core.List.{Permᴰ}
use mathlib.Core.Path.{subst}
use my_sql_backup.UserSql.{UserRecord, Users, parse_user_records}
use my_sql_backup.UserSql.Parsing.{parse_user_records-AreSound}
use my_sql_backup.UserSql.Records.{IsSound, IsListed}
use my_sql_backup.UserSql.Render.{
  block_of, trim_newlines, text_or_empty, joined_to, put_block, put_blocks, put_users, Orders,
  parse_user_sql,
}

-- What a user adds to the statements of a database.
abbrev pub with_section : (block existing : Text) → Text
with_section block existing =
    if is_empty block then existing else joined_to existing (trim_newlines block)

-- The statements of a database, user by user.
abbrev pub section_of : (db : Text) → Users → (existing : Text) → Text
section_of db [] existing = existing
section_of db (u ∷ us) existing =
    section_of db us (if has_key db u.dbs then with_section (block_of u db) existing else existing)

abbrev pub statements : Text → List (Text × Text) → Text
statements db m = text_or_empty (lookup db m)

if_same : (b : Bool) (x : Text) → (if b then x else x) ≡ x
if_same true x = refl
if_same false x = refl

-- A database that stands once gets a section once.
once :
    (b c : Bool)
    → (b ≡ true → c ≡ false)
    → (f : Text → Text) (x : Text)
    → (if c then f (if b then f x else x) else if b then f x else x) ≡ (if b || c then f x else x)
once true true h f x = ground (arith, h refl)
once true false h f x = refl
once false true h f x = refl
once false false h f x = refl

statements-insert :
    (d db x : Text) (m : List (Text × Text)) (z : Bool)
    → statements db (if z then m else insert d x m)
      ≡ (if z then statements db m else if text_eq d db then x else statements db m)
statements-insert d db x m z = ground (arith, lookup-insert db d x m)

put_block-statements :
    (u : UserRecord) (d db : Text) (m : List (Text × Text))
    → trim_space d ≡ d
    → is_empty d ≡ false
    → statements db (put_block u d m)
      ≡ (if text_eq d db then with_section (block_of u db) (statements db m) else statements db m)
unfolding put_block
put_block-statements u d db m t n =
    let x = joined_to (statements d m) (trim_newlines (block_of u d)) in
    rw (t, n)
      (statements-insert d db x m (is_empty (block_of u d)) ∙ elim (Bool-cases (text_eq d db)) [
        | inl e ↦ rw (e, text_eq_sound d db e) refl
        | inr f ↦ rw f (if_same (is_empty (block_of u d)) (statements db m))
      ])

put_blocks-statements :
    (u : UserRecord) (ds : List Text) (db : Text) (m : List (Text × Text))
    → All (λ d. trim_space d ≡ d) ds
    → All (λ d. is_empty d ≡ false) ds
    → Distinct ds
    → statements db (put_blocks u ds m)
      ≡ (if has_key db ds then with_section (block_of u db) (statements db m) else statements db m)
unfolding put_blocks
put_blocks-statements u [] db m t n d = refl
put_blocks-statements u (x ∷ ds) db m t n d =
    put_blocks-statements u ds db (put_block u x m) t.1 n.1 d.1
    ∙ (rw (put_block-statements u x db m t.0 n.0) (
        once (text_eq x db) (has_key db ds) (λ e. rw (text_eq_sound x db e) at d.0)
          (with_section (block_of u db)) (statements db m)))

-- An order in which a set gives its elements: no other ones, and none twice.
abbrev pub IsOrder : (List Text → List Text) → List Text → Type 0
IsOrder f ks = ((k : Text) → has_key k (f ks) ≡ has_key k ks) × Distinct (f ks)

All-order :
    (P : Text → Type 0) (ds ks : List Text)
    → ((k : Text) → has_key k ds ≡ true → has_key k ks ≡ true)
    → All P ks
    → All P ds
All-order P [] ks f a = tt
All-order P (d ∷ ds) ks f a = (
  All-has_key P d ks a (f d (ground (arith, text_eq_refl d))),
  All-order P ds ks (λ k h. f k (ground arith)) a,
)

module _ (db_order : Text → List Text → List Text) (db : Text) where
  abbrev pub IsOrdered : UserRecord → Type 0
  IsOrdered u = IsSound u × IsOrder (db_order u.name) u.dbs

  user-statements :
      (u : UserRecord) (m : List (Text × Text))
      → IsOrdered u
      → statements db (put_blocks u (db_order u.name u.dbs) m) ≡ (
          if has_key db u.dbs
          then with_section (block_of u db) (statements db m)
          else statements db m)
  user-statements u m (s, o) =
      let inside = λ (k : Text) (h : has_key k (db_order u.name u.dbs) ≡ true). sym (o.0 k) ∙ h in
      put_blocks-statements u (db_order u.name u.dbs) db m
        (All-order (λ d. trim_space d ≡ d) (db_order u.name u.dbs) u.dbs inside s.dbs_trimmed)
        (All-order (λ d. is_empty d ≡ false) (db_order u.name u.dbs) u.dbs inside s.dbs_named) o.1
      ∙ rw (o.0 db) refl

  pub put_users-statements :
      (us : Users) (m : List (Text × Text))
      → All IsOrdered us
      → statements db (put_users db_order us m) ≡ section_of db us (statements db m)
  unfolding put_users
  put_users-statements [] m a = refl
  put_users-statements (u ∷ us) m a =
      put_users-statements us (put_blocks u (db_order u.name u.dbs) m) a.1
      ∙ ap (section_of db us) (user-statements u m a.0)

All-Permᴰ : {A : Type 0} (P : A → Type 0) {xs ys : List A} → Permᴰ xs ys → All P ys → All P xs
All-Permᴰ P Permᴰ.nil a = tt
All-Permᴰ P (Permᴰ.cons e d) a = (subst P (sym e) a.0, All-Permᴰ P d a.1)
All-Permᴰ P (Permᴰ.swap e f) a = (subst P (sym e) a.1.0, (subst P (sym f) a.0, a.1.1))
All-Permᴰ P (Permᴰ.trans d d') a = All-Permᴰ P d (All-Permᴰ P d' a)

-- An order of a run: the users are those of the map, and of the databases of each none is left out
-- or given twice.
pub record IsRunOrder (o : Orders) (us : Users) : Type 0 where
  pub users_perm : Permᴰ (o.users us) us
  pub dbs_order : (name : Text) (ks : List Text) → Distinct ks → IsOrder (o.dbs name) ks

-- If the export is not empty, then in whatever order a run gets its users and their databases, the
-- statements for a database are the sections of the users that have it, in this order of users,
-- each once.
pub parse_user_sql-section_of :
    (o : Orders) (sql db : Text)
    → is_empty sql ≡ false
    → IsRunOrder o (parse_user_records sql).users
    → statements db (parse_user_sql o sql).db_to_sql
      ≡ section_of db (o.users (parse_user_records sql).users) []
unfolding parse_user_sql
parse_user_sql-section_of o sql db n r =
    let us = (parse_user_records sql).users in
    rw n (
      put_users-statements o.dbs db (o.users us) [] (
        All-Permᴰ (IsOrdered o.dbs db) r.users_perm (
          All-map IsListed (IsOrdered o.dbs db) us
            (λ u l. (l.0, r.dbs_order u.name u.dbs l.0.dbs_distinct))
            (parse_user_records-AreSound sql).0))
      ∙ ap (section_of db (o.users us)) (unfold lookup in refl))
