-- ===== src/Base/Paths.antt =====
-- The package `path/filepath` where the separator is `/`: `Clean`, `Join`, `Base`, `Dir`.
use mathlib.Core.Bool.{Bool, ◌||◌}
use mathlib.Core.List.{List, [], ◌∷◌, ◌++◌, reverse}
use my_sql_backup.Base.Tests.{◌==◌, if◌then◌else◌}
use my_sql_backup.Base.Lists.{is_empty}
use my_sql_backup.Base.Texts.{Text, codes, text_eq, has_prefix}
use my_sql_backup.Base.Lines.{onto_first}

-- The parts between the separators.
unfoldable pub path_parts : Text → List Text
path_parts [] = [] ∷ []
path_parts (c ∷ s) = if c == b'/' then [] ∷ path_parts s else onto_first c (path_parts s)

abbrev pub up : Bool → List Text → List Text
up rooted [] = if rooted then [] else codes ".." ∷ []
up rooted (p ∷ ps) = if text_eq p (codes "..") then codes ".." ∷ p ∷ ps else ps

abbrev pub push_part : Bool → Text → List Text → List Text
push_part rooted p ps =
    if is_empty p || text_eq p (codes ".")
    then ps
    else if text_eq p (codes "..")
    then up rooted ps
    else p ∷ ps

-- The parts that stay, the last one first.
unfoldable pub clean_parts : Bool → List Text → List Text → List Text
clean_parts rooted [] done = done
clean_parts rooted (p ∷ ps) done = clean_parts rooted ps (push_part rooted p done)

abbrev pub join_parts : List Text → Text
join_parts [] = []
join_parts (p ∷ []) = p
join_parts (p ∷ q ∷ ps) = p ++ (b'/' ∷ join_parts (q ∷ ps))

abbrev pub is_rooted : Text → Bool
is_rooted s = has_prefix s (codes "/")

-- `filepath.Clean(s)`
unfoldable pub clean : Text → Text
clean s =
    let parts = join_parts (reverse (clean_parts (is_rooted s) (path_parts s) [])) in
    if is_rooted s then b'/' ∷ parts else if is_empty parts then codes "." else parts

-- `filepath.Join(a, b)`
unfoldable pub join : Text → Text → Text
join a b =
    if is_empty a
    then if is_empty b then [] else clean b
    else if is_empty b
    then clean a
    else clean (a ++ (b'/' ∷ b))

abbrev pub drop_slashes : Text → Text
drop_slashes [] = []
drop_slashes (c ∷ s) = if c == b'/' then drop_slashes s else c ∷ s

abbrev pub up_to_slash : Text → Text
up_to_slash [] = []
up_to_slash (c ∷ s) = if c == b'/' then [] else c ∷ up_to_slash s

-- `filepath.Base(s)`
unfoldable pub base : Text → Text
base s =
    let b = reverse (up_to_slash (drop_slashes (reverse s))) in
    if is_empty s then codes "." else if is_empty b then codes "/" else b

abbrev pub from_slash : Text → Text
from_slash [] = []
from_slash (c ∷ s) = if c == b'/' then c ∷ s else from_slash s

-- `filepath.Dir(s)`
unfoldable pub dir : Text → Text
dir s = clean (reverse (from_slash (reverse s)))
