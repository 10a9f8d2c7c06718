-- ===== src/Base/Results.antt =====
-- What Go returns as `(value, error)`, and the lines that the program logs. A message is the key
-- of its translation with the arguments of `%s`.
use mathlib.Core.List.{List}
use my_sql_backup.Base.Texts.{Text}

-- An error of the operating system as it came, or a message of the program.
pub data Error : Type 0 where
  os_error : Error
  message : Text → List Text → Error

pub data Result {ℓ} (A : Type ℓ) : Type ℓ where
  ok : A → Result A
  err : Error → Result A

infixl 5 ◌>>=◌
abbrev pub ◌>>=◌ {ℓ κ} : {A : Type ℓ} {B : Type κ} → Result A → (A → Result B) → Result B
ok a >>= f = f a
err e >>= f = err e

pub data LogLine : Type 0 where
  info : Text → List Text → LogLine
  warn : Text → List Text → LogLine
