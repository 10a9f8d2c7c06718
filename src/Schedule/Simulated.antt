-- ===== src/Schedule/Simulated.antt =====
-- A machine that does what the laws for the programs of Windows say, and the theorems about the
-- task at concrete data.
use my_sql_backup.Base.{ℕ, Bool, Option, none, some, List, [], ◌∷◌, ◌++◌}
use my_sql_backup.Base.Tests.{◌==◌, if◌then◌else◌}
use my_sql_backup.Base.Texts.{Text, codes, text_eq, has_prefix}
use my_sql_backup.Schedule.Windows.{Tools, Filepath, run_script, Session}
use my_sql_backup.Schedule.Scripts.{assigned}

-- The argument of the task, if there is one.
abbrev Registry : Type 0
Registry = Option Text

abbrev shown : Registry → Option Text
shown none = some []
shown (some argument) = some (codes "cmd.exe " ++ argument)

abbrev queried : Registry → Option Text
queried none = none
queried (some argument) = some (codes "ok")

abbrev registered : Option (Text × Text) → Registry → Option Text × Registry
registered none m = (none, m)
registered (some (argument, work_dir)) m = (some [], some argument)

-- The machine takes only `'` for a quote.
abbrev plain_quote : ℕ → Bool
plain_quote c = c == b'\''

unfoldable run_powershell : Text → Registry → Option Text × Registry
run_powershell script m =
    if has_prefix script (codes "$arg = '")
    then registered (assigned plain_quote script) m
    else if text_eq script run_script
    then (shown m, m)
    else (some [], m)

unfoldable run_schtasks : List Text → Registry → Option Text × Registry
run_schtasks [] m = (none, m)
run_schtasks (verb ∷ args) m =
    if text_eq verb (codes "/Delete") then (some [], none) else (queried m, m)

abbrev tools : Tools Registry
tools = record { powershell = run_powershell; schtasks = run_schtasks }

abbrev filepath : Filepath
filepath = record { clean = λ p. p; dir = λ p. codes "C:\\b" }

abbrev session : Session Registry
session = record { machine = some (codes "/c old"); log = [] }
