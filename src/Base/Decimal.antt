-- ===== src/Base/Decimal.antt =====
-- Decimal print, as `fmt` writes `%d`, and the number that digits spell.
use Prim.Native.Nat.{ℕ, zero, suc, ◌+◌, ◌-◌, ◌*◌, ◌/◌, ◌%◌, ◌≤◌, ◌<◌}
use mathlib.Core.Path.{◌≡◌, refl}
use mathlib.Core.List.{[], ◌∷◌, ◌++◌, foldl, foldl-append}
use mathlib.Core.Bool.{true, false}
use native.Mathlib.Omega.{arith}
use my_sql_backup.Base.Tests.{ltb, if◌then◌else◌}
use my_sql_backup.Base.Lists.{length, length-append}
use my_sql_backup.Base.Texts.{Text}

abbrev pub digit : ℕ → ℕ
digit n = b'0' + n

abbrev pub value_from : ℕ → Text → ℕ
value_from = foldl (λ n c. n * 10 + (c - b'0'))

abbrev pub value : Text → ℕ
value s = value_from 0 s

pub value_from-append : (a : ℕ) (s t : Text) → value_from a (s ++ t) ≡ value_from (value_from a s) t
value_from-append a [] t = refl
value_from-append a (c ∷ s) t = value_from-append (a * 10 + (c - b'0')) s t

unfoldable pub decimal_fuel : ℕ → ℕ → Text
decimal_fuel zero n = []
decimal_fuel (suc fuel) n = elim (ltb n 10) [
  | true ↦ digit n ∷ []
  | false ↦ decimal_fuel fuel (n / 10) ++ digit (n % 10) ∷ []
]

-- `%d` of a number that is not negative
unfoldable pub decimal : ℕ → Text
unfolding decimal_fuel
decimal n = decimal_fuel (suc n) n

-- Two digits of a number below 100, as `%02d`.
abbrev pub two_digits : ℕ → Text
two_digits n = digit (n / 10) ∷ digit (n % 10) ∷ []

-- `%04d`
unfoldable pub four_digits : ℕ → Text
unfolding decimal
four_digits n =
    if ltb n 10000
    then digit (n / 1000) ∷ digit (n / 100 % 10) ∷ digit (n / 10 % 10) ∷ digit (n % 10) ∷ []
    else decimal n

decimal_fuel-value : (fuel n : ℕ) → n < fuel → value (decimal_fuel fuel n) ≡ n
unfolding decimal_fuel
decimal_fuel-value zero n h = elim h [ ]
decimal_fuel-value (suc fuel) n h = ground (
  arith,
  decimal_fuel-value fuel (n / 10),
  foldl-append (λ (m c : ℕ). m * 10 + (c - b'0')) 0 (decimal_fuel fuel (n / 10))
      (digit (n % 10) ∷ []),
)

-- The print of a number spells it.
pub value-decimal : (n : ℕ) → value (decimal n) ≡ n
unfolding decimal
value-decimal n = decimal_fuel-value (suc n) n (omega arith)

pub value-four_digits : (n : ℕ) → value (four_digits n) ≡ n
unfolding four_digits
value-four_digits n = ground (arith, value-decimal n)

-- One digit more for a bound ten times as large.
decimal_fuel-length_step :
    (k bound : ℕ)
    → ((fuel n : ℕ) → n < bound → length (decimal_fuel fuel n) ≤ k)
    → 1 ≤ k
    → (fuel n : ℕ) → n < bound * 10
    → length (decimal_fuel fuel n) ≤ suc k
unfolding decimal_fuel
decimal_fuel-length_step k bound f g zero n h = omega arith
decimal_fuel-length_step k bound f g (suc fuel) n h =
    ground
      (arith, f fuel (n / 10), length-append (decimal_fuel fuel (n / 10)) (digit (n % 10) ∷ []))

decimal_fuel-length_1 : (fuel n : ℕ) → n < 10 → length (decimal_fuel fuel n) ≤ 1
unfolding decimal_fuel
decimal_fuel-length_1 zero n h = omega arith
decimal_fuel-length_1 (suc fuel) n h = ground arith

-- A number below 10000 has at most four digits.
pub length-decimal : (n : ℕ) → n < 10000 → length (decimal n) ≤ 4
unfolding decimal
length-decimal n h =
    let two = decimal_fuel-length_step 1 10 decimal_fuel-length_1 (omega arith) in
    let three = decimal_fuel-length_step 2 100 two (omega arith) in
    decimal_fuel-length_step 3 1000 three (omega arith) (suc n) n h

-- A number below 100 has at most two digits.
pub length-decimal_two : (n : ℕ) → n < 100 → length (decimal n) ≤ 2
unfolding decimal
length-decimal_two n h =
    decimal_fuel-length_step 1 10 decimal_fuel-length_1 (omega arith) (suc n) n h
