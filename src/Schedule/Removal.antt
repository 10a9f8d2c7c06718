-- ===== src/Schedule/Removal.antt =====
-- The removal of the job from the tables of cron and from systemd, and what the status says then.
use my_sql_backup.Base.{
  ℕ, ◌≡◌, refl, ap, ◌∙◌, Bool, true, false, ◌&&◌, ◌||◌, ◌⊎◌, inl, inr, Option, none, some, List, [],
  ◌∷◌, ◌++◌, arith,
}
use my_sql_backup.Base.Tests.{◌==◌, if◌then◌else◌, Bool-cases}
use my_sql_backup.Base.Lists.{All, is_empty}
use my_sql_backup.Base.Texts.{Text, codes, text_eq, has_prefix, contains}
use my_sql_backup.Base.Lines.{scan}
use my_sql_backup.Base.Results.{message, Result, ok, err}
use my_sql_backup.Schedule.{
  cron_marker, Tool, ran, not_found, failed, Machine, table_text, say, system_crontab_paths,
  system_crontab_has_marker, user_table_has_marker, crontab_has_marker, unmarked_lines,
  remove_system_crontab_marker, set_unmarked, remove_crontab_marker,
}
use my_sql_backup.Schedule.Units.{
  User, Host, user_dir_of, tell, at_host, status, status_for, removed_unit, had_systemd,
  cron_removed, remove_cron, uninstall_for, uninstall,
}

-- A pattern within one line.
abbrev IsInline : Text → Type 0
IsInline p = All (λ c. (10 == c) ≡ false) p

has_prefix-line : (l rest p : Text) → IsInline p → has_prefix (l ++ (10 ∷ rest)) p ≡ has_prefix l p
unfolding has_prefix
has_prefix-line [] rest [] h = refl
has_prefix-line [] rest (b ∷ p) h = rw h.0 refl
has_prefix-line (a ∷ l) rest [] h = refl
has_prefix-line (a ∷ l) rest (b ∷ p) h = ap (λ x. (a == b) && x) (has_prefix-line l rest p h.1)

contains-line :
    (l rest : Text) (b : ℕ) (p : Text)
    → IsInline (b ∷ p)
    → contains (l ++ (10 ∷ rest)) (b ∷ p) ≡ (contains l (b ∷ p) || contains rest (b ∷ p))
unfolding contains has_prefix
contains-line [] rest b p h = rw h.0 refl
contains-line (a ∷ l) rest b p h =
    ground (arith, contains-line l rest b p h, has_prefix-line l rest p h.1)

marker-IsInline : IsInline cron_marker
marker-IsInline = (
  refl,
  (
    refl,
    (
      refl,
      (
        refl,
        (
          refl,
          (
            refl,
            (
              refl,
              (
                refl,
                (
                  refl,
                  (
                    refl,
                    (
                      refl,
                      (refl, (refl, (refl, (refl, (refl, (refl, (refl, (refl, (refl, tt))))))))),
                    ),
                  ),
                ),
              ),
            ),
          ),
        ),
      ),
    ),
  ),
)

-- What is left of a table does not name the job.
contains-unmarked_lines : (ls : List Text) → contains (unmarked_lines ls) cron_marker ≡ false
unfolding unmarked_lines
contains-unmarked_lines [] = unfold contains has_prefix in refl
contains-unmarked_lines (l ∷ ls) = elim (Bool-cases (contains l cron_marker)) [
  | inl y ↦ rw y (contains-unmarked_lines ls)
  | inr n ↦ rw n (
      contains-line l (unmarked_lines ls) b'm' (codes "ysqlbackup-schedule") marker-IsInline
      ∙ rw (n, contains-unmarked_lines ls) refl)
]

abbrev marked_text : Option Text → Bool
marked_text none = false
marked_text (some content) = contains content cron_marker

-- At most one of the system's tables names the job.
abbrev pub IsInOneTable : Machine → Type 0
IsInOneTable s =
    (marked_text (s.files (codes "/etc/crontab"))
      && marked_text (s.files (codes "/usr/etc/crontab")))
    ≡ false

abbrev Cleared : Machine → Result (Unit {0}) × Machine → Type 0
Cleared s (err e, t) = Unit {0}
Cleared s (ok u, t) =
    (system_crontab_has_marker system_crontab_paths t ≡ false)
    × (t.crontab ≡ s.crontab)
    × (t.list_tool ≡ s.list_tool)

remove_system-Cleared :
    (s : Machine) → IsInOneTable s → Cleared s (remove_system_crontab_marker system_crontab_paths s)
unfolding remove_system_crontab_marker system_crontab_has_marker text_eq
remove_system-Cleared s h =
    ground (arith, left (codes "/etc/crontab"), left (codes "/usr/etc/crontab"))
  where
    left :
        (p : Text)
        → contains (unmarked_lines (scan (table_text (s.files p))).found_lines) cron_marker ≡ false
    left p = contains-unmarked_lines (scan (table_text (s.files p))).found_lines

abbrev Unnamed : Result (Unit {0}) × Machine → Type 0
Unnamed (err e, t) = Unit {0}
Unnamed (ok u, t) = crontab_has_marker t ≡ false

Cleared-Unnamed :
    (s : Machine) (r : Result (Unit {0}) × Machine)
    → Cleared s r
    → user_table_has_marker s ≡ false
    → Unnamed r
unfolding crontab_has_marker system_crontab_has_marker
Cleared-Unnamed s (err e, t) c h = tt
Cleared-Unnamed s (ok u, t) c h = rw (c.1, c.2, h, c.0) refl

user_cleared :
    (s : Machine) (tool : Tool) (long : Bool) → IsInOneTable s → Unnamed (set_unmarked tool long s)
user_cleared s ran true h = tt
user_cleared s not_found true h = tt
user_cleared s failed true h = tt
user_cleared s not_found false h = tt
user_cleared s failed false h = tt
user_cleared s ran false h =
    let t : Machine = record s {
      crontab = some (unmarked_lines (scan (table_text s.crontab)).found_lines);
    } in
    Cleared-Unnamed t (remove_system_crontab_marker system_crontab_paths t)
      (remove_system-Cleared t h)
      (ground (arith, contains-unmarked_lines (scan (table_text s.crontab)).found_lines))

remove_crontab_marker-Unnamed : (s : Machine) → IsInOneTable s → Unnamed (remove_crontab_marker s)
unfolding remove_crontab_marker
remove_crontab_marker-Unnamed s h = elim (Bool-cases (user_table_has_marker s)) [
  | inl y ↦ rw y (user_cleared s s.set_tool (scan (table_text s.crontab)).too_long h)
  | inr n ↦ rw n (
      Cleared-Unnamed s (remove_system_crontab_marker system_crontab_paths s)
        (remove_system-Cleared s h) n)
]

module _ (user : User) (exe : Option Text) (config start_time : Text) where
  -- There is no job any more, or the removal ends with an error and says why.
  abbrev pub Removed : Result (Unit {0}) × Host → Type 0
  Removed (ok u, t) = status user exe config start_time t ≡ none
  Removed (err e, t) = (user.home ≡ none) ⊎ (e ≡ message (codes "err.remove_cron") [])

  no_status :
      (home : Option Text) (start : Text) (t : Host)
      → t.timer ≡ none
      → crontab_has_marker t.machine ≡ false
      → status_for user home exe config start t ≡ none
  no_status none start t n e = refl
  no_status (some home) start t n e = rw (n, e) refl

  told_unnamed :
      (key : Text) (args : List Text) (m : Machine)
      → crontab_has_marker m ≡ false
      → crontab_has_marker (say key args m) ≡ false
  unfolding crontab_has_marker system_crontab_has_marker
  told_unnamed key args m e = e

  answered-Removed :
      (r : Result (Unit {0}) × Machine) (h : Host)
      → h.timer ≡ none
      → Unnamed r
      → Removed (cron_removed user r h)
  unfolding status
  answered-Removed (err e, m) h n u = inr refl
  answered-Removed (ok v, m) h n u =
      no_status user.home (if is_empty start_time then codes "22:00" else start_time)
        (tell (codes "cron entry for mysqlbackup removed") [] (at_host m h)) n
        (told_unnamed (codes "cron entry for mysqlbackup removed") [] m u)

  cron-Removed :
      (named : Bool) (h : Host)
      → h.timer ≡ none
      → IsInOneTable h.machine
      → crontab_has_marker h.machine ≡ named
      → Removed (remove_cron user named h)
  unfolding status
  cron-Removed true h n o e =
      answered-Removed (remove_crontab_marker h.machine) h n
        (remove_crontab_marker-Unnamed h.machine o)
  cron-Removed false h n o e =
      no_status user.home (if is_empty start_time then codes "22:00" else start_time) h n e

  told-Removed :
      (timer : Option Text) (dir : Text) (h : Host)
      → h.timer ≡ none
      → IsInOneTable h.machine
      → Removed (
          remove_cron user
            (crontab_has_marker (had_systemd user timer dir h).machine)
            (had_systemd user timer dir h))
  told-Removed none dir h n o = cron-Removed (crontab_has_marker h.machine) h n o refl
  told-Removed (some t) dir h n o =
      let told = had_systemd user (some t) dir h in
      cron-Removed (crontab_has_marker told.machine) told n o refl

  home-Removed :
      (home : Option Text) (h : Host)
      → user.home ≡ home
      → removed_unit user user.timer_removed h.timer ≡ none
      → IsInOneTable h.machine
      → Removed (uninstall_for user home h)
  home-Removed none h e n o = inl e
  home-Removed (some home) h e n o =
      told-Removed h.timer (user_dir_of home)
        (record h {
          service = removed_unit user user.service_removed h.service;
          timer = removed_unit user user.timer_removed h.timer;
        })
        n o

  -- If the timer was not there or can be removed, and at most one of the system's tables names the
  -- job: after a removal that succeeds the status shows no job. A removal fails only where the home
  -- directory is not known or a table of cron cannot be changed.
  pub uninstall-Removed :
      (h : Host)
      → removed_unit user user.timer_removed h.timer ≡ none
      → IsInOneTable h.machine
      → Removed (uninstall user h)
  unfolding uninstall
  uninstall-Removed h n o = home-Removed user.home h refl n o
