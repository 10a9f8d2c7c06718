-- ===== src/Base/Sorting.antt =====
-- `sort.Slice` rearranges a slice so that no element is less than one before it. Nothing is said
-- of the order of equal elements, so a sort is any function with those two laws.
use Prim.Native.Nat.{ℕ, ◌≤◌}
use mathlib.Core.Path.{◌≡◌, refl, ◌∙◌, ap, ap₂}
use mathlib.Core.Bool.{Bool, true, false, ◌||◌, Bool-set}
use mathlib.Core.List.{List, [], ◌∷◌, Perm, Permᴰ}
use mathlib.Core.Logic.{∥∥₁_elim}
use mathlib.Core.List.Perm
use native.Mathlib.Omega.{arith}
use my_sql_backup.Base.Tests.{ltb, if◌then◌else◌}
use my_sql_backup.Base.Lists.{All, exists_in}

module _ {A : Type 0} (rank : A → ℕ) where
  abbrev pub Ascending : List A → Type 0
  Ascending [] = Unit {0}
  Ascending (x ∷ xs) = All (λ y. rank x ≤ rank y) xs × Ascending xs

  pub record Sort : Type 0 where
    pub sort : List A → List A
    pub perm : (xs : List A) → Perm (sort xs) xs
    pub ascending : (xs : List A) → Ascending (sort xs)

  -- A sort that runs.
  unfoldable pub insert : A → List A → List A
  insert x [] = x ∷ []
  insert x (y ∷ ys) = if ltb (rank y) (rank x) then y ∷ insert x ys else x ∷ y ∷ ys

  unfoldable pub insertion : List A → List A
  insertion [] = []
  insertion (x ∷ xs) = insert x (insertion xs)

  insert-perm : (x : A) (xs : List A) → Perm (insert x xs) (x ∷ xs)
  unfolding insert
  insert-perm x [] = Perm.rfl
  insert-perm x (y ∷ ys) = go (ltb (rank y) (rank x)) (insert-perm x ys)
    where
      go :
          (b : Bool)
          → Perm (insert x ys) (x ∷ ys)
          → Perm (if b then y ∷ insert x ys else x ∷ y ∷ ys) (x ∷ y ∷ ys)
      go true ih = Perm.trans (Perm.cons y ih) (Perm.swap x y ys)
      go false ih = Perm.rfl

  pub insertion-perm : (xs : List A) → Perm (insertion xs) xs
  unfolding insertion
  insertion-perm [] = Perm.rfl
  insertion-perm (x ∷ xs) =
      Perm.trans (insert-perm x (insertion xs)) (Perm.cons x (insertion-perm xs))

  All-le_trans :
      (m n : ℕ) (xs : List A) → m ≤ n → All (λ y. n ≤ rank y) xs → All (λ y. m ≤ rank y) xs
  All-le_trans m n [] h a = tt
  All-le_trans m n (x ∷ xs) h a = (omega arith, All-le_trans m n xs h a.1)

  insert-All :
      (m : ℕ) (x : A) (xs : List A)
      → m ≤ rank x
      → All (λ y. m ≤ rank y) xs
      → All (λ y. m ≤ rank y) (insert x xs)
  unfolding insert
  insert-All m x [] h a = (h, tt)
  insert-All m x (y ∷ ys) h a = ground (arith, insert-All m x ys h a.1)

  insert-Ascending : (x : A) (xs : List A) → Ascending xs → Ascending (insert x xs)
  unfolding insert
  insert-Ascending x [] h = (tt, tt)
  insert-Ascending x (y ∷ ys) h = ground (
    arith,
    insert-Ascending x ys h.1,
    insert-All (rank y) x ys,
    All-le_trans (rank x) (rank y) ys,
  )

  pub insertion-Ascending : (xs : List A) → Ascending (insertion xs)
  unfolding insertion
  insertion-Ascending [] = tt
  insertion-Ascending (x ∷ xs) = insert-Ascending x (insertion xs) (insertion-Ascending xs)

  unfoldable pub insertion_sort : Sort
  unfolding insertion insert
  insertion_sort = record {
    sort = insertion;
    perm = insertion-perm;
    ascending = insertion-Ascending;
  }

module _ {A : Type 0} (p : A → Bool) where
  swapped :
      {a b c d : A} (l : List A) → a ≡ d → b ≡ c → exists_in p (a ∷ b ∷ l) ≡ exists_in p (c ∷ d ∷ l)
  swapped l e f = ground (arith, ap p e, ap p f)

  exists_in-permᴰ : {xs ys : List A} → Permᴰ xs ys → exists_in p xs ≡ exists_in p ys
  exists_in-permᴰ Permᴰ.nil = refl
  exists_in-permᴰ (Permᴰ.cons e h) = ap₂ (λ a b. p a || b) e (exists_in-permᴰ h)
  exists_in-permᴰ (Permᴰ.swap {l = l} e f) = swapped l e f
  exists_in-permᴰ (Permᴰ.trans h k) = exists_in-permᴰ h ∙ exists_in-permᴰ k

  -- A rearrangement holds the same elements.
  pub exists_in-perm : {xs ys : List A} → Perm xs ys → exists_in p xs ≡ exists_in p ys
  exists_in-perm h = ∥∥₁_elim h (Bool-set _ _) exists_in-permᴰ
