-- ===== src/Base/Trim.antt =====
-- `strings.TrimSpace`: what it leaves has no white space at either end.
use Prim.Native.Nat.{ℕ}
use mathlib.Core.Path.{◌≡◌, refl, ap, ◌∙◌}
use mathlib.Core.Bool.{false}
use mathlib.Core.Logic.{◌⊎◌, inl, inr}
use mathlib.Core.List.{[], ◌∷◌, ◌++◌, reverse, reverse-cons, reverse-append, reverse-reverse}
use my_sql_backup.Base.Tests.{Bool-cases}
use my_sql_backup.Base.Texts.{Text, is_space, trim_left, trim_space}

trim_left_fixed : (c : ℕ) (s : Text) → is_space c ≡ false → trim_left (c ∷ s) ≡ c ∷ s
unfolding trim_left
trim_left_fixed c s h = rw h

trim_left-snoc :
    (s : Text) (c : ℕ) → is_space c ≡ false → trim_left (s ++ c ∷ []) ≡ trim_left s ++ c ∷ []
unfolding trim_left
trim_left-snoc [] c h = rw h
trim_left-snoc (d ∷ s) c h = elim (Bool-cases (is_space d)) [
  | inl t ↦ rw t (trim_left-snoc s c h)
  | inr f ↦ rw f
]

trim_left_cases :
    (s : Text)
    → (trim_left s ≡ []) ⊎ ((c : ℕ) × (t : Text) × (trim_left s ≡ c ∷ t) × (is_space c ≡ false))
unfolding trim_left
trim_left_cases [] = inl refl
trim_left_cases (c ∷ s) = elim (Bool-cases (is_space c)) [
  | inl t ↦ rw t (trim_left_cases s)
  | inr f ↦ rw f (inr (c, s, refl, f))
]

trim_left-trim_left : (s : Text) → trim_left (trim_left s) ≡ trim_left s
trim_left-trim_left s = elim (trim_left_cases s) [
  | inl e ↦ rw e (unfold trim_left in refl)
  | inr (c, t, e, h) ↦ rw e (trim_left_fixed c t h)
]

-- A text that begins with a character keeps it when its end is trimmed.
trim_end_cons :
    (c : ℕ) (s : Text)
    → is_space c ≡ false
    → reverse (trim_left (reverse (c ∷ s))) ≡ c ∷ reverse (trim_left (reverse s))
trim_end_cons c s h =
    ap (λ x. reverse (trim_left x)) (reverse-cons c s)
    ∙ ap reverse (trim_left-snoc (reverse s) c h)
    ∙ reverse-append (trim_left (reverse s)) (c ∷ [])

pub trim_space-trim_space : (s : Text) → trim_space (trim_space s) ≡ trim_space s
unfolding trim_space
trim_space-trim_space s = elim (trim_left_cases s) [
  | inl e ↦ rw e (unfold trim_left in refl)
  | inr (c, t, e, h) ↦
      rw
        (
          e,
          trim_end_cons c t h,
          trim_left_fixed c (reverse (trim_left (reverse t))) h,
          trim_end_cons c (reverse (trim_left (reverse t))) h,
          reverse-reverse (trim_left (reverse t)),
          trim_left-trim_left (reverse t),
        )
        refl
]

-- A text without white space at its ends stays as it is.
pub trim_space_fixed :
    (c d : ℕ) (s : Text)
    → is_space c ≡ false
    → is_space d ≡ false
    → trim_space (c ∷ (s ++ d ∷ [])) ≡ c ∷ (s ++ d ∷ [])
unfolding trim_space
trim_space_fixed c d s h k =
    rw
      (
        trim_left_fixed c (s ++ d ∷ []) h,
        trim_end_cons c (s ++ d ∷ []) h,
        reverse-append s (d ∷ []),
      )
      (ap (λ x. c ∷ reverse x) (trim_left_fixed d (reverse s) k)
        ∙ ap (λ x. c ∷ x) (reverse-cons d (reverse s) ∙ ap (λ x. x ++ d ∷ []) (reverse-reverse s)))

-- A text that begins with another character keeps it.
pub trim_space_cons :
    (c : ℕ) (s : Text) → is_space c ≡ false → (t : Text) × (trim_space (c ∷ s) ≡ c ∷ t)
unfolding trim_space
trim_space_cons c s h = (
  reverse (trim_left (reverse s)),
  ap (λ x. reverse (trim_left (reverse x))) (trim_left_fixed c s h) ∙ trim_end_cons c s h,
)
