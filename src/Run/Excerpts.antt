-- ===== src/Run/Excerpts.antt =====
-- The excerpts of the log.
use my_sql_backup.Base.{ℕ, ◌≡◌, ◌++◌}
use my_sql_backup.Base.Tests.{leb, if◌then◌else◌}
use my_sql_backup.Base.Lists.{length}
use my_sql_backup.Base.Texts.{Text}

-- The end of the log: all of it where it fits, and else as much as fits.
abbrev pub IsEndOf : (limit : ℕ) (log excerpt : Text) → Type 0
IsEndOf limit log excerpt =
    (before : Text) × (before ++ excerpt ≡ log)
    × (length excerpt ≡ (if leb (length log) limit then length log else limit))
