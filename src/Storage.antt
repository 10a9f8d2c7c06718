-- ===== src/Storage.antt =====
-- The calls of the package `os` that the backup makes, over a directory that maps names to files.
-- Each call may be refused by the system: the schedule `faults` says which, a call for an element,
-- and is over when the system refuses no more.
pub mod Laws
use my_sql_backup.Base.{ℕ, Bool, true, false, not, ◌&&◌, Option, none, some, List, [], ◌∷◌, ◌++◌}
use my_sql_backup.Base.Tests.{if◌then◌else◌}
use my_sql_backup.Base.Texts.{Text, text_eq}
use my_sql_backup.Base.Results.{LogLine}

-- What a file holds: a complete ZIP archive with one entry, one that is still being written or
-- was given up, or anything else.
pub data Content : Type 0 where
  archive : (entry body : Text) → Content
  torn : (entry body : Text) → Content
  other : ℕ → Content

abbrev pub Disk : Type 0
Disk = Text → Option Content

abbrev pub update : Disk → Text → Option Content → Disk
update d p c = λ q. if text_eq p q then c else d q

pub record System : Type 0 where
  pub disk : Disk
  pub faults : List Bool
  pub log : List LogLine

-- Whether the next call is refused, and the state after it.
unfoldable pub refused : System → Bool
refused s = elim s.faults [ [] ↦ false | b ∷ bs ↦ b ]

unfoldable pub tick : System → System
tick s = record s { faults = elim s.faults [ [] ↦ [] | b ∷ bs ↦ bs ] }

abbrev pub set_disk : Text → Option Content → System → System
set_disk p c s = record s { disk = update s.disk p c }

abbrev pub say : LogLine → System → System
say l s = record s { log = s.log ++ l ∷ [] }

pub data Stat : Type 0 where
  found : Content → Stat
  absent : Stat
  stat_error : Stat

abbrev pub stat_of : Bool → Option Content → Stat
stat_of true c = stat_error
stat_of false none = absent
stat_of false (some c) = found c

-- `os.Stat(p)`
unfoldable pub stat : Text → System → Stat × System
stat p s = (stat_of (refused s) (s.disk p), tick s)

abbrev pub is_some : Option Content → Bool
is_some none = false
is_some (some c) = true

-- `os.Remove(p)`, and whether it succeeded.
unfoldable pub remove : Text → System → Bool × System
remove p s =
    let done = not (refused s) && is_some (s.disk p) in
    (done, if done then set_disk p none (tick s) else tick s)

-- `os.Rename(p, q)`: what stood at `q` is replaced at once.
unfoldable pub rename : Text → Text → System → Bool × System
rename p q s =
    let done = not (refused s) && is_some (s.disk p) in
    (done, if done then set_disk q (s.disk p) (set_disk p none (tick s)) else tick s)

-- `os.Create(p)` and `zip.NewWriter`: what stood at `p` is cut to nothing.
unfoldable pub create : Text → Text → System → Bool × System
create p entry s =
    let done = not (refused s) in
    (done, if done then set_disk p (some (torn entry [])) (tick s) else tick s)

abbrev pub appended : Text → Option Content → Option Content
appended text (some (torn entry body)) = some (torn entry (body ++ text))
appended text (some (archive entry body)) = some (archive entry body)
appended text (some (other n)) = some (other n)
appended text none = none

-- `io.WriteString` to the entry of the archive at `p`.
unfoldable pub write : Text → Text → System → Bool × System
write p text s =
    let done = not (refused s) in
    (done, if done then set_disk p (appended text (s.disk p)) (tick s) else tick s)

abbrev pub sealed : Option Content → Option Content
sealed (some (torn entry body)) = some (archive entry body)
sealed (some (archive entry body)) = some (archive entry body)
sealed (some (other n)) = some (other n)
sealed none = none

-- `w.Close()` of the archive's writer: the archive is complete if it succeeds.
unfoldable pub close_zip : Text → System → Bool × System
close_zip p s =
    let done = not (refused s) in
    (done, if done then set_disk p (sealed (s.disk p)) (tick s) else tick s)

-- `f.Close()`, and any other call that leaves the directory alone.
unfoldable pub attempt : System → Bool × System
attempt s = (not (refused s), tick s)
