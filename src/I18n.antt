-- ===== src/I18n.antt =====
-- internal/i18n/i18n.go: the choice of the language and the lookup of a message. The files under
-- translations/ are data that the build embeds, so the messages are an argument.
use my_sql_backup.Base.{◌||◌, Option, none, some, List, [], ◌∷◌}
use my_sql_backup.Base.Tests.{◌==◌, if◌then◌else◌}
use my_sql_backup.Base.Lists.{is_empty}
use my_sql_backup.Base.Texts.{Text, codes, text_eq, trim_space, to_lower}

-- The embedded map from keys to texts.
abbrev pub Messages : Type 0
Messages = List (Text × Text)

unfoldable pub lookup : Messages → Text → Option Text
lookup [] key = none
lookup ((k, s) ∷ m) key = if text_eq k key then some s else lookup m key

-- `T`: the key itself where no text or an empty one is known.
unfoldable pub translate : Messages → Text → Text
unfolding lookup
translate m key = elim (lookup m key) [ none ↦ key | some s ↦ if is_empty s then key else s ]

-- `s[:strings.IndexAny(s, "._@")]`, or `s` where none of the three occurs
abbrev cut_at_mark : Text → Text
cut_at_mark [] = []
cut_at_mark (c ∷ s) = if (c == b'.') || (c == b'_') || (c == b'@') then [] else c ∷ cut_at_mark s

-- One round of the loop of `detectLang`: the language that a variable's value selects, if any.
unfoldable pub language_of : Text → Option Text
language_of v =
    let part = to_lower (trim_space (cut_at_mark v)) in
    if is_empty v
    then none
    else if text_eq part (codes "de")
        || text_eq part (codes "en")
        || text_eq part (codes "fr")
        || text_eq part (codes "nl")
    then some part
    else if text_eq part (codes "en_gb")
        || text_eq part (codes "en_us")
        || text_eq part (codes "en_au")
    then some (codes "en")
    else none

-- `detectLang` over the values of LC_ALL, LANG and LANGUAGE in that order.
unfoldable pub detect_lang : List Text → Text
unfolding language_of
detect_lang [] = codes "en"
detect_lang (v ∷ vs) = elim (language_of v) [ none ↦ detect_lang vs | some l ↦ l ]
