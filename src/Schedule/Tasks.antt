-- ===== src/Schedule/Tasks.antt =====
-- internal/schedule/schedule.go, the part for Windows: the command of the scheduled task, and the
-- reading of paths from a command.
use my_sql_backup.Base.{Option, none, some, [], ◌∷◌, ◌++◌}
use my_sql_backup.Base.Tests.{◌==◌, if◌then◌else◌}
use my_sql_backup.Base.Texts.{Text, codes, replace_byte}

-- The closure `pathForTR`.
unfoldable pub path_for_tr : Text → Text
path_for_tr s = replace_byte b'"' (codes "\"\"") s

unfoldable pub cmd_argument : (work_dir exe config : Text) → Text
cmd_argument work_dir exe config =
    codes "/c cd /d \""
    ++ (path_for_tr work_dir
        ++ (codes "\" && \""
            ++ (path_for_tr exe
                ++ (codes "\" --backup -config \"" ++ (path_for_tr config ++ codes "\"")))))

-- The loop of `extractDoubleQuoted`, where `buf` has been read: the content and the rest.
unfoldable pub extract_from : Text → (buf : Text) → Option (Text × Text)
extract_from [] buf = none
extract_from (c ∷ []) buf = if c == b'"' then some (buf, []) else none
extract_from (c ∷ d ∷ s) buf =
    let doubled = extract_from s (buf ++ b'"' ∷ []) in
    let next = extract_from (d ∷ s) (buf ++ c ∷ []) in
    if c == b'"' then if d == b'"' then doubled else some (buf, d ∷ s) else next

-- `none` is the result `ok == false`.
unfoldable pub extract_double_quoted : Text → Option (Text × Text)
unfolding extract_from
extract_double_quoted [] = none
extract_double_quoted (c ∷ s) = if c == b'"' then extract_from s [] else none

unfoldable pub escape_for_ps_single_quoted : Text → Text
escape_for_ps_single_quoted s = replace_byte b'\'' (codes "''") s
