-- ===== src/Main/Sizes.antt =====
-- The sizes in the table of the status.
use my_sql_backup.Base.{ℕ, ◌*◌, ◌/◌, ◌%◌, ◌≤◌, ◌<◌, [], ◌∷◌, arith}
use my_sql_backup.Base.Lists.{length, length-append}
use my_sql_backup.Base.Decimal.{decimal, digit, length-decimal, length-decimal_two}
use my_sql_backup.Main.{tenths, format_unit, format_size}

-- The print of a size in a unit, where the tenths are those of a number below ten.
length-format_unit :
    (n unit letter : ℕ)
    → n / unit < 10000
    → (n < 10 * unit → tenths n unit < 1000)
    → length (format_unit n unit letter) ≤ 5
unfolding format_unit
length-format_unit n unit letter h k = ground (
  arith,
  length-decimal (n / unit) h,
  length-append (decimal (n / unit)) (letter ∷ []),
  length-decimal_two (tenths n unit / 10),
  length-append (decimal (tenths n unit / 10)) (b'.' ∷ digit (tenths n unit % 10) ∷ letter ∷ []),
)

tenths_small_k : (n : ℕ) → n < 10 * 1024 → tenths n 1024 < 1000
unfolding tenths
tenths_small_k n h = ground arith

tenths_small_m : (n : ℕ) → n < 10 * 1048576 → tenths n 1048576 < 1000
unfolding tenths
tenths_small_m n h = ground arith

tenths_small_t : (n : ℕ) → n < 10 * 1073741824 → tenths n 1073741824 < 1000
unfolding tenths
tenths_small_t n h = ground arith

-- A size below 1024 to the fourth power takes at most five characters.
pub length-format_size : (n : ℕ) → n < 1099511627776 → length (format_size n) ≤ 5
unfolding format_size
length-format_size n h = ground (
  arith,
  length-decimal n,
  length-format_unit n 1024 b'K',
  length-format_unit n 1048576 b'M',
  length-format_unit n 1073741824 b'T',
  tenths_small_k n,
  tenths_small_m n,
  tenths_small_t n,
)
