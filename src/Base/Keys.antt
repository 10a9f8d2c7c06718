-- ===== src/Base/Keys.antt =====
-- Go maps with texts as keys: a set is the list of its keys, a map the list of its entries, in the
-- order in which they were put in.
use mathlib.Core.Path.{◌≡◌, refl, subst}
use mathlib.Core.Logic.{inl, inr}
use mathlib.Core.Bool.{Bool, true, false, ◌||◌}
use mathlib.Core.Option.{Option, none, some}
use mathlib.Core.List.{List, [], ◌∷◌, ◌++◌}
use native.Mathlib.Omega.{arith}
use my_sql_backup.Base.Tests.{if◌then◌else◌, Bool-cases}
use my_sql_backup.Base.Lists.{All}
use my_sql_backup.Base.Texts.{Text, text_eq, text_eq_sound}

abbrev pub has_key : Text → List Text → Bool
has_key k [] = false
has_key k (x ∷ xs) = text_eq x k || has_key k xs

-- `m[k] = true`
abbrev pub put_key : Text → List Text → List Text
put_key k ks = if has_key k ks then ks else ks ++ k ∷ []

unfoldable pub lookup : Text → List (Text × Text) → Option Text
lookup k [] = none
lookup k ((j, v) ∷ m) = if text_eq j k then some v else lookup k m

-- `m[k] = v`
unfoldable pub insert : Text → Text → List (Text × Text) → List (Text × Text)
insert k v [] = (k, v) ∷ []
insert k v ((j, w) ∷ m) = if text_eq j k then (j, v) ∷ m else (j, w) ∷ insert k v m

abbrev pub values : List (Text × Text) → List Text
values [] = []
values ((k, v) ∷ m) = v ∷ values m

abbrev pub keys : List (Text × Text) → List Text
keys [] = []
keys ((k, v) ∷ m) = k ∷ keys m

abbrev pub Distinct : List Text → Type 0
Distinct [] = Unit {0}
Distinct (k ∷ ks) = (has_key k ks ≡ false) × Distinct ks

pub text_eq_sym : (s t : Text) → text_eq s t ≡ text_eq t s
unfolding text_eq
text_eq_sym [] [] = refl
text_eq_sym [] (b ∷ t) = refl
text_eq_sym (a ∷ s) [] = refl
text_eq_sym (a ∷ s) (b ∷ t) = ground (arith, text_eq_sym s t)

pub text_eq_trans : (s t u : Text) → text_eq s t ≡ true → text_eq t u ≡ text_eq s u
text_eq_trans s t u h = rw (text_eq_sound s t h) refl

pub has_key-append :
    (k : Text) (xs ys : List Text) → has_key k (xs ++ ys) ≡ (has_key k xs || has_key k ys)
has_key-append k [] ys = refl
has_key-append k (x ∷ xs) ys = ground (arith, has_key-append k xs ys)

pub append-Distinct :
    (k : Text) (ks : List Text) → Distinct ks → has_key k ks ≡ false → Distinct (ks ++ k ∷ [])
append-Distinct k [] d h = (refl, tt)
append-Distinct k (x ∷ xs) d h = (
  ground (arith, has_key-append x xs (k ∷ []), text_eq_sym x k),
  append-Distinct k xs d.1 (ground arith),
)

pub put_key-Distinct : (k : Text) (ks : List Text) → Distinct ks → Distinct (put_key k ks)
put_key-Distinct k ks d = by_test (has_key k ks) refl
  where
    by_test : (b : Bool) → has_key k ks ≡ b → Distinct (if b then ks else ks ++ k ∷ [])
    by_test true e = d
    by_test false e = append-Distinct k ks d e

pub has_key-put_key :
    (j k : Text) (ks : List Text) → has_key j (put_key k ks) ≡ (text_eq k j || has_key j ks)
has_key-put_key j k ks = ground (arith, has_key-append j ks (k ∷ []), has_key_eq k j ks)
  where
    has_key_eq : (k j : Text) (ks : List Text) → text_eq k j ≡ true → has_key k ks ≡ has_key j ks
    has_key_eq k j ks e = rw (text_eq_sound k j e) refl

pub lookup-insert :
    (j k v : Text) (m : List (Text × Text))
    → lookup j (insert k v m) ≡ (if text_eq k j then some v else lookup j m)
unfolding lookup insert
lookup-insert j k v [] = refl
lookup-insert j k v ((i, w) ∷ m) = ground (
  arith,
  lookup-insert j k v m,
  text_eq_trans i k j,
  text_eq_sym i k,
  text_eq_trans k i j,
  text_eq_trans k j i,
  text_eq_sym i j,
)

-- A key that all of a list fulfil is fulfilled by what the list has.
pub All-has_key :
    (P : Text → Type 0) (k : Text) (ks : List Text) → All P ks → has_key k ks ≡ true → P k
All-has_key P k [] a h = ground arith
All-has_key P k (x ∷ xs) a h = elim (Bool-cases (text_eq x k)) [
  | inl t ↦ subst P (text_eq_sound x k t) a.0
  | inr f ↦ All-has_key P k xs a.1 (ground arith)
]
