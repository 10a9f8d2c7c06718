-- ===== src/Main/Names.antt =====
-- main.go and remote.go: which names `-getfile` takes.
use my_sql_backup.Base.{◌≡◌, refl, ◌↔◌, true, false, ◌||◌, [], ◌∷◌, arith}
use my_sql_backup.Base.Texts.{Text, codes, contains, has_prefix}
use my_sql_backup.Main
use my_sql_backup.Main.{has_separator, contains_path}
use my_sql_backup.Remote

separators : (s : Text) → has_separator s ≡ (contains s (codes "/") || contains s (92 ∷ []))
unfolding contains has_prefix
separators [] = refl
separators (r ∷ s) = ground (arith, separators s)

prefix_contained : (s : Text) → has_prefix s (codes "..") ≡ true → contains s (codes "..") ≡ true
unfolding contains
prefix_contained [] h = h
prefix_contained (r ∷ s) h = rw h refl

-- The server's part takes a name exactly when the command line takes it and it has no two dots in
-- a row.
pub valid_getfile_pattern_iff :
    (s : Text)
    → (Remote.valid_getfile_pattern s ≡ true)
      ↔ ((Main.valid_getfile_pattern s ≡ true) × (contains s (codes "..") ≡ false))
unfolding Remote.valid_getfile_pattern Main.valid_getfile_pattern contains_path
valid_getfile_pattern_iff s = (
  λ h. ground (arith, separators s, prefix_contained s),
  λ h. ground (arith, separators s, prefix_contained s),
)
