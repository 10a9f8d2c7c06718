-- ===== src/Regexp.antt =====
-- The part of Go's package `regexp` that the program uses: bytes of a class, greedy repetition of
-- a class, sequence, ordered choice, groups and the two anchors. A pattern gives its matches at
-- one place in the order of preference; a search takes the first match at the leftmost place.
use my_sql_backup.Base.{
  ℕ, zero, suc, Bool, true, false, ◌&&◌, Option, none, some, List, [], ◌∷◌, ◌++◌,
}
use my_sql_backup.Base.Tests.{◌==◌, if◌then◌else◌}
use my_sql_backup.Base.Lists.{is_empty, length}
use my_sql_backup.Base.Texts.{Text}
use mathlib.Core.List.{map, flat_map}

pub data Regexp : Type 0 where
  byte : (ℕ → Bool) → Regexp
  star : (ℕ → Bool) → Regexp
  nothing : Regexp
  seq : Regexp → Regexp → Regexp
  alt : Regexp → Regexp → Regexp
  group : ℕ → Regexp → Regexp
  begin_text : Regexp
  end_text : Regexp

pub record Found : Type 0 where
  pub consumed : Text
  pub groups : List (ℕ × Text)
  pub rest : Text

abbrev pub found : Text → List (ℕ × Text) → Text → Found
found s gs r = record { consumed = s; groups = gs; rest = r }

-- Greedy: the longest run comes first.
unfoldable pub runs : (ℕ → Bool) → Text → List Found
runs p [] = found [] [] [] ∷ []
runs p (c ∷ s) =
    let longer = map (λ (f : Found). record f { consumed = c ∷ f.consumed }) (runs p s) in
    if p c then longer ++ found [] [] (c ∷ s) ∷ [] else found [] [] (c ∷ s) ∷ []

abbrev pub join : Found → Found → Found
join f g = found (f.consumed ++ g.consumed) (f.groups ++ g.groups) g.rest

abbrev pub one_byte : (ℕ → Bool) → Text → List Found
one_byte p [] = []
one_byte p (c ∷ s) = if p c then found (c ∷ []) [] s ∷ [] else []

-- The matches at the head of a text; the flag says that the text's first byte is the input's.
unfoldable pub matches : Regexp → Bool → Text → List Found
unfolding runs
matches (byte p) first s = one_byte p s
matches (star p) first s = runs p s
matches nothing first s = found [] [] s ∷ []
matches (seq r t) first s =
    flat_map (λ (f : Found). map (join f) (matches t (first && is_empty f.consumed) f.rest))
      (matches r first s)
matches (alt r t) first s = matches r first s ++ matches t first s
matches (group n r) first s =
    map (λ (f : Found). record f { groups = (n, f.consumed) ∷ f.groups }) (matches r first s)
matches begin_text first s = if first then found [] [] s ∷ [] else []
matches end_text first s = if is_empty s then found [] [] s ∷ [] else []

abbrev pub or_found : List Found → Option Found → Option Found
or_found [] later = later
or_found (f ∷ fs) later = some f

unfoldable pub search_from : Regexp → Bool → Text → Option Found
unfolding matches
search_from r first [] = or_found (matches r first []) none
search_from r first (c ∷ s) = or_found (matches r first (c ∷ s)) (search_from r false s)

-- `r.FindStringSubmatch(s)`, with the groups that took part
unfoldable pub find_submatch : Regexp → Text → Option Found
unfolding search_from
find_submatch r s = search_from r true s

abbrev pub is_found : Option Found → Bool
is_found none = false
is_found (some f) = true

-- `r.MatchString(s)`
unfoldable pub match_string : Regexp → Text → Bool
unfolding find_submatch
match_string r s = is_found (find_submatch r s)

-- `m[n]`: the empty string where group `n` took no part
unfoldable pub submatch : ℕ → List (ℕ × Text) → Text
submatch n [] = []
submatch n ((k, s) ∷ gs) = if k == n then s else submatch n gs

-- A literal text, and a class repeated a fixed number of times.
abbrev pub literal : Text → Regexp
literal [] = nothing
literal (c ∷ s) = seq (byte (λ d. d == c)) (literal s)

abbrev pub times : ℕ → (ℕ → Bool) → Regexp
times zero p = nothing
times (suc n) p = seq (byte p) (times n p)

-- `p+`
abbrev pub plus : (ℕ → Bool) → Regexp
plus p = seq (byte p) (star p)

-- `r.ReplaceAllString(s, "")`, where the first `skip` bytes belong to a match.
unfoldable pub delete_from : Regexp → Bool → (skip : ℕ) → Text → Text
unfolding matches
delete_from r first skip [] = []
delete_from r first (suc skip) (c ∷ s) = delete_from r false skip s
delete_from r first zero (c ∷ s) = elim (matches r first (c ∷ s)) [
  | [] ↦ c ∷ delete_from r false zero s
  | f ∷ fs ↦ elim (length f.consumed) [
    | zero ↦ c ∷ delete_from r false zero s
    | suc n ↦ delete_from r false n s
  ]
]

unfoldable pub delete_all : Regexp → Text → Text
unfolding delete_from
delete_all r s = delete_from r true 0 s
