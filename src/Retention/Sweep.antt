-- ===== src/Retention/Sweep.antt =====
-- What `Apply` leaves in a directory.
use my_sql_backup.Base.{
  ◌≡◌, refl, sym, ap, ◌∙◌, Bool, true, false, not, ◌&&◌, ◌||◌, none, some, List, [], ◌∷◌, inl, inr,
  arith,
}
use my_sql_backup.Base.Tests.{Option-cases}
use my_sql_backup.Base.Lists.{
  All, keep, keep-keep, keep_congr, keep-true, keep_pointwise, All-map, All-zip, exists_in,
}
use my_sql_backup.Base.Texts.{Text, text_eq, text_eq_refl, text_eq_iff}
use my_sql_backup.Base.Results.{ok}
use my_sql_backup.Base.Sorting.{exists_in-perm}
use my_sql_backup.Retention.{
  listed, DirEntry, BackupFile, ByDate, entry_backup, collect, list_backups,
}
use my_sql_backup.Retention.Apply.{Windows, Setting, Swept, retained, dispose, visit, sweep, apply}

-- A backup that the policy drops and that can be removed.
abbrev pub doomed : Setting → Windows → BackupFile → Bool
doomed st w f = not (retained w st.today f.date) && not (st.locked f.path)

abbrev hit : Setting → Windows → List BackupFile → Text → Bool
hit st w fs name = exists_in (λ f. text_eq name f.path && doomed st w f) fs

-- The same of an entry of the directory.
abbrev pub doomed_entry : Setting → Windows → DirEntry → Bool
doomed_entry st w e = elim (entry_backup e) [ none ↦ false | some f ↦ doomed st w f ]

-- No two entries have one name.
abbrev pub Distinct : List DirEntry → Type 0
Distinct [] = Unit {0}
Distinct (e ∷ es) = All (λ (x : DirEntry). text_eq x.name e.name ≡ false) es × Distinct es

dispose-entries :
    (kept locked : Bool) (st : Setting) (f : BackupFile) (done : Swept)
    → (dispose kept locked st f done).entries
      ≡ keep (λ e. not (text_eq e.name f.path && (not kept && not locked))) done.entries
unfolding dispose
dispose-entries true locked st f done = sym (keep-true _ _ (λ e. ground arith))
dispose-entries false true st f done = sym (keep-true _ _ (λ e. ground arith))
dispose-entries false false st f done =
    keep_pointwise (λ x. not (text_eq x.name f.path))
      (λ x. not (text_eq x.name f.path && (not false && not false))) done.entries
      (λ x. ground arith)

visit-entries :
    (st : Setting) (w : Windows) (f : BackupFile) (done : Swept)
    → (visit st w f done).entries
      ≡ keep (λ e. not (text_eq e.name f.path && doomed st w f)) done.entries
unfolding visit
visit-entries st w f done =
    dispose-entries (retained w st.today f.date) (st.locked f.path) st f done

sweep-entries :
    (st : Setting) (w : Windows) (fs : List BackupFile) (done : Swept)
    → (sweep st w fs done).entries ≡ keep (λ e. not (hit st w fs e.name)) done.entries
unfolding sweep
sweep-entries st w [] done = sym (keep-true _ _ (λ e. refl))
sweep-entries st w (f ∷ fs) done =
    sweep-entries st w fs (visit st w f done)
    ∙ ap (keep (λ e. not (hit st w fs e.name))) (visit-entries st w f done)
    ∙ keep-keep _ _ done.entries
    ∙ keep_pointwise (λ e. not (text_eq e.name f.path && doomed st w f) && not (hit st w fs e.name))
        (λ e. not (hit st w (f ∷ fs) e.name)) done.entries (λ e. ground arith)

entry_backup-path : (e : DirEntry) (f : BackupFile) → entry_backup e ≡ some f → f.path ≡ e.name
unfolding entry_backup
entry_backup-path e f h = ground arith

hit-collect :
    (st : Setting) (w : Windows) (e : DirEntry) (es : List DirEntry) (name : Text)
    → hit st w (collect (e ∷ es)) name
      ≡ (text_eq name e.name && doomed_entry st w e || hit st w (collect es) name)
unfolding collect
hit-collect st w e es name = elim (Option-cases (entry_backup e)) [
  | inl skipped ↦ ground arith
  | inr (f, found) ↦ ground (arith, entry_backup-path e f found)
]

-- A name that no entry has is hit by nothing.
hit_absent :
    (st : Setting) (w : Windows) (es : List DirEntry) (name : Text)
    → All (λ (x : DirEntry). text_eq name x.name ≡ false) es
    → hit st w (collect es) name ≡ false
hit_absent st w [] name h = unfold collect in refl
hit_absent st w (e ∷ es) name h =
    ground (arith, hit-collect st w e es name, hit_absent st w es name h.1)

text_eq_sym : (s t : Text) → text_eq s t ≡ text_eq t s
text_eq_sym s t = ground (arith, text_eq_iff s t, text_eq_iff t s)

-- Among distinct names an entry is hit exactly if it is doomed itself.
hit_self :
    (st : Setting) (w : Windows) (es : List DirEntry)
    → Distinct es
    → All (λ (e : DirEntry). hit st w (collect es) e.name ≡ doomed_entry st w e) es
hit_self st w [] h = tt
hit_self st w (e ∷ es) h = (
  ground (
    arith,
    hit-collect st w e es e.name,
    text_eq_refl e.name,
    hit_absent st w es e.name (All-map _ _ es (λ x n. text_eq_sym e.name x.name ∙ n) h.0),
  ),
  All-zip _ _ (λ (x : DirEntry). hit st w (collect (e ∷ es)) x.name ≡ doomed_entry st w x) es
      (λ x apart same. ground (arith, hit-collect st w e es x.name, apart, same)) h.0
      (hit_self st w es h.1),
)

-- In a directory whose entries have distinct names, `Apply` never fails, whatever the order
-- of the sort among equal dates. It removes exactly the entries that are backup files outside
-- every window and not locked, and leaves the others as they were, in their order.
pub apply-entries :
    (s : ByDate) (st : Setting) (w : Windows) (es : List DirEntry)
    → Distinct es
    → (r : Swept) × (apply s st w (listed es) ≡ ok r)
      × (r.entries ≡ keep (λ e. not (doomed_entry st w e)) es)
unfolding apply list_backups
apply-entries s st w es h = (
  sweep st w (s.sort (collect es)) (record { entries = es; log = [] }),
  refl,
  sweep-entries st w (s.sort (collect es)) _
      ∙ keep_congr _ _ es (
          All-map _ _ es (λ e same. ap not (exists_in-perm _ (s.perm (collect es)) ∙ same))
            (hit_self st w es h)),
)
