-- ===== src/Restore/Moves.antt =====
-- What a full restore does to the directory of the server.
use my_sql_backup.Base.{◌≡◌, ◌⊎◌, List, [], ◌∷◌, ◌++◌, arith}
use my_sql_backup.Base.Texts.{codes}
use my_sql_backup.Base.Results.{ok, err}
use my_sql_backup.Restore.{
  ReinitConfig, Steps, Step, stop_ran, renamed, copied, start_ran, Reinit, a_dir, missing,
  start_again, data_dir_of, template_of, full_reinit,
}

-- The steps that touch the directory of the server.
abbrev pub moves : List Step → List Step
moves [] = []
moves (stop_ran ∷ es) = moves es
moves (start_ran ∷ es) = moves es
moves (renamed p q ∷ es) = renamed p q ∷ moves es
moves (copied p q ∷ es) = copied p q ∷ moves es

module _ (cfg : ReinitConfig) (a : Steps) where
  abbrev pub moved_away : Step
  moved_away = renamed (data_dir_of cfg a) (data_dir_of cfg a ++ codes ".old")

  abbrev pub both_moves : List Step
  both_moves = moved_away ∷ copied (template_of cfg a) (data_dir_of cfg a) ∷ []

  -- There is a template, and nothing where the data goes.
  abbrev pub IsClear : Type 0
  IsClear =
      (a.kind (template_of cfg a) ≡ a_dir) × (a.kind (data_dir_of cfg a ++ codes ".old") ≡ missing)

  abbrev pub Moved : Reinit → Type 0
  Moved (ok u, es) = IsClear × (moves es ≡ both_moves)
  Moved (err e, es) = (moves es ≡ []) ⊎ (IsClear × (moves es ≡ both_moves))

  -- A full restore moves the data away and begins to copy the template in its place, or leaves the
  -- directory alone; it does the former only if there is a template and nothing where the data
  -- goes, and always if it succeeds.
  pub full_reinit-Moved : Moved (full_reinit cfg a)
  unfolding full_reinit start_again
  full_reinit-Moved = ground arith
