-- ===== src/Run/Reports.antt =====
-- What is sure of a run, whatever its parts answer.
use my_sql_backup.Base.{ℕ, ◌+◌, ◌≡◌, ◌⊎◌, Bool, true, false, ◌&&◌, List, [], ◌∷◌, arith}
use my_sql_backup.Base.Tests.{if◌then◌else◌}
use my_sql_backup.Base.Lists.{is_empty}
use my_sql_backup.Base.Texts.{Text, codes, text_eq}
use my_sql_backup.Base.Results.{ok, err}
use my_sql_backup.Run.{
  RunConfig, Answers, Event, emailed, warned, ran_start, ran_stop, dumped, applied_retention,
  synced, Run, stop_server, copy_remote, apply_retention, dump_all, back_up_server, start_server,
  backup,
}

abbrev pub emails : List Event → ℕ
emails [] = 0
emails (emailed subject ∷ es) = 1 + emails es
emails (e ∷ es) = emails es

abbrev pub starts : List Event → ℕ
starts [] = 0
starts (ran_start ∷ es) = 1 + starts es
starts (e ∷ es) = starts es

abbrev pub stops : List Event → ℕ
stops [] = 0
stops (ran_stop ∷ es) = 1 + stops es
stops (e ∷ es) = stops es

abbrev pub dumps : List Event → ℕ
dumps [] = 0
dumps (dumped dbs users done ∷ es) = 1 + dumps es
dumps (e ∷ es) = dumps es

abbrev is_last_warning : List Event → Bool
is_last_warning [] = false
is_last_warning (warned key ∷ es) = text_eq key (codes "log.warn.email") && is_empty es
is_last_warning (e ∷ es) = false

-- Whether a call of `email.Send` is the last event, or it fails and only the warning about it
-- follows.
abbrev pub ends_in_email : (sends : Text → Bool) → List Event → Bool
ends_in_email sends [] = false
ends_in_email sends (emailed subject ∷ es) =
    if sends subject then is_empty es else is_last_warning es
ends_in_email sends (e ∷ es) = ends_in_email sends es

-- After an error `email.Send` was called once, at the end, and after a success not at all.
abbrev pub Reported : (sends : Text → Bool) → Run → Type 0
Reported sends (ok u, es) = emails es ≡ 0
Reported sends (err e, es) = (emails es ≡ 1) × (ends_in_email sends es ≡ true)

-- The server was stopped as often as it was started, if the run succeeded and there was something
-- to dump, and else not at all.
abbrev pub Balanced : Run → Type 0
Balanced (ok u, es) = (dumps es ≡ 1 × stops es ≡ starts es) ⊎ (dumps es ≡ 0 × stops es ≡ 0)
Balanced (err e, es) = stops es ≡ 0

-- What was done last of the parts that touch files.
pub data Phase : Type 0 where
  begun : Phase
  has_dumped : Phase
  dump_failed : Phase
  has_retained : Phase
  has_synced : Phase

-- Whether the parts that touch files are dump, retention and copy, in this order, each at most
-- once and none without the one before, and none after a dump that failed.
abbrev pub in_order : Phase → List Event → Bool
in_order p [] = true
in_order begun (dumped dbs users true ∷ es) = in_order has_dumped es
in_order begun (dumped dbs users false ∷ es) = in_order dump_failed es
in_order has_dumped (applied_retention ∷ es) = in_order has_retained es
in_order has_retained (synced ∷ es) = in_order has_synced es
in_order has_dumped (dumped dbs users done ∷ es) = false
in_order dump_failed (dumped dbs users done ∷ es) = false
in_order has_retained (dumped dbs users done ∷ es) = false
in_order has_synced (dumped dbs users done ∷ es) = false
in_order begun (applied_retention ∷ es) = false
in_order dump_failed (applied_retention ∷ es) = false
in_order has_retained (applied_retention ∷ es) = false
in_order has_synced (applied_retention ∷ es) = false
in_order begun (synced ∷ es) = false
in_order dump_failed (synced ∷ es) = false
in_order has_dumped (synced ∷ es) = false
in_order has_synced (synced ∷ es) = false
in_order p (e ∷ es) = in_order p es

module _ (cfg : RunConfig) (a : Answers) where
  -- A run that gives an error calls `email.Send` exactly once, as its last step, and if that call
  -- fails, only a warning follows; a run without an error never calls it.
  pub backup-Reported : Reported a.email (backup cfg a)
  unfolding backup start_server back_up_server dump_all apply_retention copy_remote stop_server
      text_eq
  backup-Reported = ground arith

  -- A run that succeeds stops the server if and only if it started it and had something to dump;
  -- a run that fails never stops it.
  pub backup-Balanced : Balanced (backup cfg a)
  unfolding backup start_server back_up_server dump_all apply_retention copy_remote stop_server
  backup-Balanced = ground arith
