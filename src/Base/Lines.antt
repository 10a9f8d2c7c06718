-- ===== src/Base/Lines.antt =====
-- Lines of a text: `bufio.Scanner` with its default split function and buffer, and the text that
-- a loop of `WriteString(line)` and `WriteByte('\n')` builds.
use Prim.Native.Nat.{ℕ}
use mathlib.Core.Path.{◌≡◌, refl, sym, ap, ◌∙◌}
use mathlib.Core.Bool.{Bool, true, false}
use mathlib.Core.List.{List, [], ◌∷◌, ◌++◌, append_assoc}
use my_sql_backup.Base.Tests.{leb, ◌==◌, if◌then◌else◌}
use my_sql_backup.Base.Lists.{length}
use my_sql_backup.Base.Texts.{Text, trim_suffix}

abbrev pub onto_first : ℕ → List Text → List Text
onto_first c [] = (c ∷ []) ∷ []
onto_first c (l ∷ ls) = (c ∷ l) ∷ ls

-- The lines without their `\n`; the last one needs none.
unfoldable pub split_lines : Text → List Text
split_lines [] = []
split_lines (c ∷ s) = if c == 10 then [] ∷ split_lines s else onto_first c (split_lines s)

-- What the scanner gives: lines without a `\r` at the end, up to one that does not fit into its
-- buffer, and whether there was such a line.
pub record Scan : Type 0 where
  pub found_lines : List Text
  pub too_long : Bool

abbrev pub with_line : Text → Scan → Scan
with_line l sc = record {
  found_lines = trim_suffix l (13 ∷ []) ∷ sc.found_lines;
  too_long = sc.too_long;
}

-- `capacity` is the size of the buffer, 64 KB unless `sc.Buffer` sets another.
unfoldable pub scan_lines : (capacity : ℕ) → List Text → Scan
scan_lines capacity [] = record { found_lines = []; too_long = false }
scan_lines capacity (l ∷ ls) =
    let rest = scan_lines capacity ls in
    if leb capacity (length l)
    then record { found_lines = []; too_long = true }
    else with_line l rest

unfoldable pub scan : Text → Scan
unfolding split_lines scan_lines
scan s = scan_lines 65536 (split_lines s)

-- What `sc.Scan` gives after `sc.Buffer(nil, capacity)`.
unfoldable pub scan_within : (capacity : ℕ) → Text → Scan
unfolding split_lines scan_lines
scan_within capacity s = scan_lines capacity (split_lines s)

unfoldable pub unlines : List Text → Text
unlines [] = []
unlines (l ∷ ls) = l ++ (10 ∷ unlines ls)

pub unlines-append : (xs ys : List Text) → unlines (xs ++ ys) ≡ unlines xs ++ unlines ys
unfolding unlines
unlines-append [] ys = refl
unlines-append (x ∷ xs) ys =
    ap (λ t. x ++ (10 ∷ t)) (unlines-append xs ys)
    ∙ sym (append_assoc x (10 ∷ unlines xs) (unlines ys))
