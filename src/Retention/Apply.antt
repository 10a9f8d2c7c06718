-- ===== src/Retention/Apply.antt =====
-- `Apply` and `ApplyToDirs` of internal/retention/retention.go. The set of keys to keep is the
-- list of the keys put in; `time.Now`, the messages and the failures of `os.Remove` are given.
use my_sql_backup.Base.{
  ℕ, zero, suc, ◌-◌, ◌*◌, Bool, true, false, not, ◌||◌, Option, none, some, List, [], ◌∷◌, ◌++◌,
}
use my_sql_backup.Base.Tests.{ltb, leb, ◌==◌, if◌then◌else◌}
use my_sql_backup.Base.Lists.{keep, exists_in, is_empty}
use my_sql_backup.Base.Int.{ℤ, pos, negsuc, pos_part, neg_ℤ}
use my_sql_backup.Base.Texts.{Text, codes, text_eq}
use my_sql_backup.Base.Results.{Error, message, Result, ok, err, ◌>>=◌, LogLine, info, warn}
use my_sql_backup.Calendar.{Time, midnight, year_of, month_of, weekday_of, add_date, before}
use my_sql_backup.I18n.{Messages}
use my_sql_backup.Retention.{
  ReadDir, listed, not_exist, failed, DirEntry, BackupFile, ByDate, classify, date_key,
  list_backups,
}

-- The four counts of the configuration; a count that is not positive keeps nothing of its kind.
pub record Windows : Type 0 where
  pub daily : ℤ
  pub weekly : ℤ
  pub monthly : ℤ
  pub yearly : ℤ

-- `for lastSunday.Weekday() != time.Sunday { lastSunday = lastSunday.AddDate(0, 0, -1) }`
unfoldable pub sunday_back : ℕ → Time → Time
sunday_back zero t = t
sunday_back (suc fuel) t = elim (weekday_of t == 0) [
  | true ↦ t
  | false ↦ sunday_back fuel (add_date t (pos 0) (negsuc 0))
]

unfoldable pub last_sunday : Time → Time
last_sunday today = sunday_back 7 today

-- Round `i` of the weekly loop, with `left` rounds to go.
unfoldable pub sunday_keys : ℕ → ℕ → Time → List Text
sunday_keys zero i sunday = []
sunday_keys (suc left) i sunday =
    let day = add_date sunday (pos 0) (pos (7 * i)) in
    elim (ltb (year_of day) 2000) [
      | true ↦ date_key day ∷ []
      | false ↦ date_key day ∷ sunday_keys left (suc i) sunday
    ]

-- The last day of the month of `m`: the first of the next month, less a day.
unfoldable pub month_end : Time → Time
month_end m =
    add_date (add_date (midnight (year_of m) (month_of m) 1) (pos 1) (pos 0)) (pos 0) (negsuc 0)

-- The monthly loop from the day `m` on, with `left` rounds to go.
unfoldable pub month_keys : ℕ → Time → List Text
month_keys zero m = []
month_keys (suc left) m = elim (ltb (year_of (month_end m)) 2000) [
  | true ↦ date_key (month_end m) ∷ []
  | false ↦ date_key (month_end m) ∷ month_keys left (add_date m (negsuc 0) (pos 0))
]

-- The yearly loop from year `y` on, with `left` rounds to go.
unfoldable pub year_keys : ℕ → ℕ → List Text
year_keys zero y = []
year_keys (suc left) y = elim (leb 2000 y) [
  | true ↦ date_key (midnight y 12 31) ∷ year_keys left (y - 1)
  | false ↦ []
]

abbrev pub mem : Text → List Text → Bool
mem key keys = exists_in (text_eq key) keys

-- `keep` in the last loop of `Apply`, for a backup of day `d`.
unfoldable pub retained : Windows → Time → Time → Bool
retained w today d =
    not (before d (add_date today (pos 0) (neg_ℤ w.daily)))
    || mem (date_key d) (sunday_keys (pos_part w.weekly) 0 (last_sunday today))
    || mem (date_key d) (month_keys (pos_part w.monthly) today)
    || mem (date_key d) (year_keys (pos_part w.yearly) (year_of today))

-- `os.Remove` where it succeeds: the entry of that name goes.
abbrev pub remove : Text → List DirEntry → List DirEntry
remove name es = keep (λ e. not (text_eq e.name name)) es

pub record Swept : Type 0 where
  pub entries : List DirEntry
  pub log : List LogLine

-- What a run of `Apply` is given: the day, the messages, and the files that cannot be removed.
pub record Setting : Type 0 where
  pub today : Time
  pub messages : Messages
  pub locked : Text → Bool

-- What the last loop of `Apply` does with a file: nothing where it is kept, a warning where
-- `os.Remove` fails, and else the file goes.
unfoldable pub dispose : (kept locked : Bool) → Setting → BackupFile → Swept → Swept
dispose true locked st f done = done
dispose false true st f done = record done {
  log = done.log ++ warn (codes "log.warn.retention_delete") (f.path ∷ []) ∷ [];
}
dispose false false st f done = record {
  entries = remove f.path done.entries;
  log =
      done.log
      ++ info (codes "log.msg.deleted_old_backup") (classify st.messages f.date ∷ f.path ∷ []) ∷ [];
}

-- One round of that loop.
unfoldable pub visit : Setting → Windows → BackupFile → Swept → Swept
visit st w f done = dispose (retained w st.today f.date) (st.locked f.path) st f done

unfoldable pub sweep : Setting → Windows → List BackupFile → Swept → Swept
sweep st w [] done = done
sweep st w (f ∷ fs) done = sweep st w fs (visit st w f done)

abbrev pub entries_of : ReadDir → List DirEntry
entries_of (listed es) = es
entries_of not_exist = []
entries_of failed = []

abbrev pub unswept : ReadDir → Swept
unswept dir = record { entries = entries_of dir; log = [] }

-- What a run leaves in both directories, and the error that it returns, if any.
pub record Outcome : Type 0 where
  pub local : Swept
  pub remote : Swept
  pub error : Option Error

module _ (s : ByDate) where
  -- `Apply` returns at once where there is no backup.
  unfoldable pub apply : Setting → Windows → ReadDir → Result Swept
  apply st w dir = do files ← list_backups s dir; ok (sweep st w files (unswept dir))

  -- The second directory is swept where its name is not empty and the first gave no error.
  unfoldable pub apply_to_dirs : Setting → Windows → ReadDir → Text → ReadDir → Outcome
  apply_to_dirs st w local remote_dir remote = elim (apply st w local) [
    | err e ↦ record {
      local = unswept local;
      remote = unswept remote;
      error = some (message (codes "err.retention_local") []);
    }
    | ok a ↦
        if is_empty remote_dir
        then record { local = a; remote = unswept remote; error = none }
        else elim (apply st w remote) [
          | err e ↦ record {
            local = a;
            remote = unswept remote;
            error = some (message (codes "err.retention_remote") []);
          }
          | ok b ↦ record { local = a; remote = b; error = none }
        ]
  ]
