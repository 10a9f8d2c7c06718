-- ===== src/Main/Choices.antt =====
-- main.go: which action the flags choose, and what a name for `-getfile` and a failed
-- preparation of a restore lead to.
use my_sql_backup.Base.{
  ◌≡◌, refl, ◌↔◌, inl, inr, true, false, not, ◌&&◌, some, List, [], ◌∷◌, arith,
}
use my_sql_backup.Base.Tests.{if◌then◌else◌, Bool-cases}
use my_sql_backup.Base.Lists.{is_empty}
use my_sql_backup.Base.Texts.{Text, trim_space}
use my_sql_backup.Main.{
  Flags, Action, run_init, run_clean_config, run_remove, run_status, run_backup, run_restore,
  run_getfile, act, flag_count, switch_action, choose_counted, choose_args, choose,
}

-- The flag that stands for an action is set.
abbrev pub IsAsked : Flags → Action → Type 0
IsAsked f run_init = f.do_init ≡ true
IsAsked f run_clean_config = f.do_clean_config ≡ true
IsAsked f run_remove = f.do_remove ≡ true
IsAsked f run_status = f.do_status ≡ true
IsAsked f run_backup = f.do_backup ≡ true
IsAsked f (run_restore date full) = (if full then f.do_restore_full else f.do_restore) ≡ true
IsAsked f (run_getfile name) = (name ≡ f.get_file) × (is_empty f.get_file ≡ false)

-- The day of a restore is the argument, if there is one; no other action has an argument.
abbrev pub HasDay : List Text → Action → Type 0
HasDay [] (run_restore date full) = date ≡ []
HasDay (x ∷ []) (run_restore date full) = date ≡ trim_space x
HasDay (x ∷ y ∷ more) (run_restore date full) = ⊥
HasDay args a = args ≡ []

-- The flag of the action is set, and the day of a restore is `d`.
abbrev IsAskedWith : Flags → (d : Text) → Action → Type 0
IsAskedWith f d (run_restore date full) = (date ≡ d) × IsAsked f (run_restore date full)
IsAskedWith f d a = IsAsked f a

switch_action_asked :
    (f : Flags) (d : Text) (a : Action)
    → flag_count f ≡ 1
    → switch_action f d ≡ some a
    → IsAskedWith f d a
unfolding switch_action
switch_action_asked f d run_init h e = ground arith
switch_action_asked f d run_clean_config h e = ground arith
switch_action_asked f d run_remove h e = ground arith
switch_action_asked f d run_status h e = ground arith
switch_action_asked f d run_backup h e = ground arith
switch_action_asked f d (run_restore date false) h e = ground arith
switch_action_asked f d (run_restore date true) h e = ground arith
switch_action_asked f d (run_getfile name) h e = ground arith

-- With one flag, the switch takes the action of that flag.
asked-switch_action :
    (f : Flags) (d : Text) (a : Action)
    → flag_count f ≡ 1
    → IsAskedWith f d a
    → switch_action f d ≡ some a
unfolding switch_action
asked-switch_action f d run_init h e = ground arith
asked-switch_action f d run_clean_config h e = ground arith
asked-switch_action f d run_remove h e = ground arith
asked-switch_action f d run_status h e = ground arith
asked-switch_action f d run_backup h e = ground arith
asked-switch_action f d (run_restore date false) h e = ground arith
asked-switch_action f d (run_restore date true) h e = ground arith
asked-switch_action f d (run_getfile name) h e = ground arith

counted_sound :
    (f : Flags) (d : Text) (a : Action)
    → choose_counted f d ≡ act a
    → (flag_count f ≡ 1) × (switch_action f d ≡ some a)
unfolding choose_counted
counted_sound f d a h = ground arith

counted_complete :
    (f : Flags) (d : Text) (a : Action)
    → flag_count f ≡ 1
    → switch_action f d ≡ some a
    → choose_counted f d ≡ act a
unfolding choose_counted
counted_complete f d a h e = rw (h, e) refl

no_day : (f : Flags) (a : Action) → IsAskedWith f [] a → IsAsked f a × HasDay [] a
no_day f run_init h = ground arith
no_day f run_clean_config h = ground arith
no_day f run_remove h = ground arith
no_day f run_status h = ground arith
no_day f run_backup h = ground arith
no_day f (run_restore date false) h = ground arith
no_day f (run_restore date true) h = ground arith
no_day f (run_getfile name) h = ground arith

no_day_back : (f : Flags) (a : Action) → IsAsked f a → HasDay [] a → IsAskedWith f [] a
no_day_back f run_init h d = ground arith
no_day_back f run_clean_config h d = ground arith
no_day_back f run_remove h d = ground arith
no_day_back f run_status h d = ground arith
no_day_back f run_backup h d = ground arith
no_day_back f (run_restore date false) h d = ground arith
no_day_back f (run_restore date true) h d = ground arith
no_day_back f (run_getfile name) h d = ground arith

one_day :
    (f : Flags) (x : Text) (a : Action)
    → flag_count f ≡ 1
    → (not f.do_restore && not f.do_restore_full) ≡ false
    → IsAskedWith f (trim_space x) a
    → IsAsked f a × HasDay (x ∷ []) a
one_day f x run_init n r h = ground arith
one_day f x run_clean_config n r h = ground arith
one_day f x run_remove n r h = ground arith
one_day f x run_status n r h = ground arith
one_day f x run_backup n r h = ground arith
one_day f x (run_restore date false) n r h = ground arith
one_day f x (run_restore date true) n r h = ground arith
one_day f x (run_getfile name) n r h = ground arith

one_day_back :
    (f : Flags) (x : Text) (a : Action)
    → IsAsked f a
    → HasDay (x ∷ []) a
    → ((not f.do_restore && not f.do_restore_full) ≡ false) × IsAskedWith f (trim_space x) a
one_day_back f x run_init h d = ground arith
one_day_back f x run_clean_config h d = ground arith
one_day_back f x run_remove h d = ground arith
one_day_back f x run_status h d = ground arith
one_day_back f x run_backup h d = ground arith
one_day_back f x (run_restore date false) h d = ground arith
one_day_back f x (run_restore date true) h d = ground arith
one_day_back f x (run_getfile name) h d = ground arith

too_many :
    {P : Type 0} (f : Flags) (x y : Text) (more : List Text) (a : Action)
    → HasDay (x ∷ y ∷ more) a
    → P
too_many f x y more run_init d = ground arith
too_many f x y more run_clean_config d = ground arith
too_many f x y more run_remove d = ground arith
too_many f x y more run_status d = ground arith
too_many f x y more run_backup d = ground arith
too_many f x y more (run_restore date false) d = ground arith
too_many f x y more (run_restore date true) d = ground arith
too_many f x y more (run_getfile name) d = ground arith

one_argument :
    (f : Flags) (x : Text) (a : Action)
    → choose_args f (x ∷ []) ≡ act a
    → ((not f.do_restore && not f.do_restore_full) ≡ false)
      × (choose_counted f (trim_space x) ≡ act a)
one_argument f x a h = elim (Bool-cases (not f.do_restore && not f.do_restore_full)) [
  | inl t ↦ ground arith
  | inr e ↦ ground arith
]

sound :
    (f : Flags) (args : List Text) (a : Action)
    → choose_args f args ≡ act a
    → (flag_count f ≡ 1) × IsAsked f a × HasDay args a
sound f [] a h =
    let c = counted_sound f [] a h in
    let r = no_day f a (switch_action_asked f [] a c.0 c.1) in (c.0, r.0, r.1)
sound f (x ∷ []) a h =
    let r = one_argument f x a h in
    let c = counted_sound f (trim_space x) a r.1 in
    let q = one_day f x a c.0 r.0 (switch_action_asked f (trim_space x) a c.0 c.1) in
    (c.0, q.0, q.1)
sound f (x ∷ y ∷ more) a h = ground arith

complete :
    (f : Flags) (args : List Text) (a : Action)
    → flag_count f ≡ 1
    → IsAsked f a
    → HasDay args a
    → choose_args f args ≡ act a
complete f [] a h k d =
    counted_complete f [] a h (asked-switch_action f [] a h (no_day_back f a k d))
complete f (x ∷ []) a h k d =
    let r = one_day_back f x a k d in
    rw r.0 (counted_complete f (trim_space x) a h (asked-switch_action f (trim_space x) a h r.1))
complete f (x ∷ y ∷ more) a h k d = too_many f x y more a d

-- The program runs an action exactly when one flag is set, it is the flag of this action, and the
-- arguments fit: a restore may have one, which is its day, and no other action has any.
pub choose_iff :
    (f : Flags) (a : Action)
    → (choose f ≡ act a) ↔ ((flag_count f ≡ 1) × IsAsked f a × HasDay f.args a)
unfolding choose
choose_iff f a = (λ h. sound f f.args a h, λ p. complete f f.args a p.0 p.1 p.2)
