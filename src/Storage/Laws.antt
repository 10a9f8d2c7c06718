-- ===== src/Storage/Laws.antt =====
-- What each call does to the file at one name.
use my_sql_backup.Base.{◌≡◌, refl, ◌⊎◌, inl, inr, true, false, not, ◌&&◌, some, [], ◌++◌, arith}
use my_sql_backup.Base.Tests.{Bool-cases}
use my_sql_backup.Base.Texts.{Text, text_eq, text_eq_refl}
use my_sql_backup.Storage.{
  archive, torn, System, is_some, stat, remove, rename, create, write, close_zip, attempt, refused,
  tick,
}

-- Calls about `p` leave every other name alone.
module _ (p q : Text) (apart : text_eq p q ≡ false) (s : System) where
  pub stat_frame : (stat p s).1.disk q ≡ s.disk q
  unfolding stat tick
  stat_frame = refl

  pub remove_frame : (remove p s).1.disk q ≡ s.disk q
  unfolding remove tick
  remove_frame = ground arith

  pub create_frame : (entry : Text) → (create p entry s).1.disk q ≡ s.disk q
  unfolding create tick
  create_frame entry = ground arith

  pub write_frame : (text : Text) → (write p text s).1.disk q ≡ s.disk q
  unfolding write tick
  write_frame text = ground arith

  pub close_zip_frame : (close_zip p s).1.disk q ≡ s.disk q
  unfolding close_zip tick
  close_zip_frame = ground arith

pub rename_frame :
    (p q r : Text) (s : System)
    → text_eq p r ≡ false
    → text_eq q r ≡ false
    → (rename p q s).1.disk r ≡ s.disk r
unfolding rename tick
rename_frame p q r s a b = ground arith

pub attempt_disk : (s : System) (q : Text) → (attempt s).1.disk q ≡ s.disk q
unfolding attempt tick
attempt_disk s q = refl

-- A call of `rename` leaves the directory alone, or moves the file.
pub rename_cases :
    (p q : Text) (s : System)
    → ((rename p q s).0 ≡ false × ((r : Text) → (rename p q s).1.disk r ≡ s.disk r))
      ⊎ ((rename p q s).0 ≡ true × (rename p q s).1.disk q ≡ s.disk p)
unfolding rename tick
rename_cases p q s = elim (Bool-cases (not (refused s) && is_some (s.disk p))) [
  | inl t ↦ inr (t, ground (arith, text_eq_refl q))
  | inr f ↦ inl (f, λ r. ground arith)
]

pub stat_disk : (p q : Text) (s : System) → (stat p s).1.disk q ≡ s.disk q
unfolding stat tick
stat_disk p q s = refl

pub create_done :
    (p entry : Text) (s : System)
    → (create p entry s).0 ≡ true
    → (create p entry s).1.disk p ≡ some (torn entry [])
unfolding create tick
create_done p entry s h = ground (arith, text_eq_refl p)

pub write_done :
    (p text entry body : Text) (s : System)
    → s.disk p ≡ some (torn entry body)
    → (write p text s).0 ≡ true
    → (write p text s).1.disk p ≡ some (torn entry (body ++ text))
unfolding write tick
write_done p text entry body s h d = ground (arith, text_eq_refl p)

pub close_zip_done :
    (p entry body : Text) (s : System)
    → s.disk p ≡ some (torn entry body)
    → (close_zip p s).0 ≡ true
    → (close_zip p s).1.disk p ≡ some (archive entry body)
unfolding close_zip tick
close_zip_done p entry body s h d = ground (arith, text_eq_refl p)
