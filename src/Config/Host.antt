-- ===== src/Config/Host.antt =====
-- The name of the host in the names of archives.
use my_sql_backup.Base.{ℕ, ◌≡◌, ◌⊎◌, Bool, true, false}
use my_sql_backup.Base.Lists.{is_empty}
use my_sql_backup.Base.Texts.{Text, codes, text_eq, contains_byte}
use my_sql_backup.Config.{Config}

-- The host of the database is this machine.
abbrev pub IsHere : Text → Type 0
IsHere host = (text_eq host (codes "localhost") ≡ true) ⊎ (text_eq host (codes "127.0.0.1") ≡ true)

abbrev pub IsElsewhere : Text → Type 0
IsElsewhere host =
    (text_eq host (codes "localhost") ≡ false) × (text_eq host (codes "127.0.0.1") ≡ false)

-- The name for a host: the configured one for this machine, the host itself where it is another
-- machine or no name is configured, and `localhost` where no host is configured.
abbrev pub IsNamed : (host name result : Text) → Type 0
IsNamed host name result =
    (IsHere host × (is_empty name ≡ false) × (result ≡ name))
    ⊎ (IsHere host × (is_empty name ≡ true) × (result ≡ host))
    ⊎ (IsElsewhere host × (is_empty host ≡ false) × (result ≡ host))
    ⊎ ((is_empty host ≡ true) × (result ≡ codes "localhost"))

-- A character that a path gives a meaning, on Linux or on Windows, or a blank.
abbrev pub is_special : ℕ → Bool
is_special c = contains_byte (codes "/\\:*?\"<>| ") c
