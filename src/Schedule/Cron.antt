-- ===== src/Schedule/Cron.antt =====
-- The loop over the lines of a table of cron.
use my_sql_backup.Base.{
  ◌≡◌, refl, sym, ap, ◌∙◌, ◌⊎◌, inl, inr, Bool, true, false, not, ◌&&◌, ◌||◌, Option, none, some,
  List, [], ◌∷◌, ◌++◌, append-nil, append_assoc, arith,
}
use my_sql_backup.Base.Tests.{if◌then◌else◌}
use my_sql_backup.Base.Lists.{keep, exists_in, keep-append}
use my_sql_backup.Base.Texts.{Text, text_eq, trim_space}
use my_sql_backup.Base.Lines.{Scan, scan, unlines, unlines-append}
use my_sql_backup.Schedule.{
  is_marked, Rewrite, rewrite_line, rewrite_lines, finish_rewrite, rewrite_table, Table, present,
  unreadable, unchanged, replaced, no_rewrite, put_cron_line, write_line, mark, table_of,
}

abbrev pub is_job : (cron_line line : Text) → Bool
is_job cron_line line = is_marked line && text_eq (trim_space line) cron_line

abbrev pub is_foreign : Text → Bool
is_foreign line = not (is_marked line)

-- The lines that the loop writes, where the line of the job is in place or not yet.
placed : Text → Bool → List Text → List Text
placed cron_line done [] = []
placed cron_line done (l ∷ ls) =
    if is_marked l
    then if done then placed cron_line true ls else cron_line ∷ placed cron_line true ls
    else l ∷ placed cron_line done ls

-- What a loop over `lines` adds to the text `t`, where the marker was found (`f`) and the line of
-- the job is in place (`b`) or not yet.
abbrev Wrote : Text → List Text → Text → (f b : Bool) → Option Rewrite → Type 0
Wrote cron_line lines t f b none = exists_in (is_job cron_line) lines ≡ true
Wrote cron_line lines t f b (some r) =
    (r.new_crontab ≡ t ++ unlines (placed cron_line b lines))
    × (r.found_marker ≡ (f || exists_in is_marked lines))
    × (r.replaced_or_appended ≡ (b || exists_in is_marked lines))
    × (exists_in (is_job cron_line) lines ≡ false)

abbrev WroteBy : Text → List Text → Rewrite → Option Rewrite → Type 0
WroteBy cron_line lines r o =
    Wrote cron_line lines r.new_crontab r.found_marker r.replaced_or_appended o

write_one :
    (t l : Text) (ls : List Text) → (t ++ (l ++ (10 ∷ []))) ++ unlines ls ≡ t ++ unlines (l ∷ ls)
unfolding unlines
write_one t l ls =
    append_assoc t (l ++ (10 ∷ [])) (unlines ls)
    ∙ ap (λ x. t ++ x) (append_assoc l (10 ∷ []) (unlines ls))

module _ (cron_line l : Text) (ls : List Text) where
  foreign-Wrote :
      (t : Text) (f b : Bool) (o : Option Rewrite)
      → is_marked l ≡ false
      → Wrote cron_line ls (t ++ (l ++ (10 ∷ []))) f b o
      → Wrote cron_line (l ∷ ls) t f b o
  unfolding placed
  foreign-Wrote t f b none u h = ground arith
  foreign-Wrote t f b (some r) u h =
      (rw u (h.0 ∙ write_one t l (placed cron_line b ls)), ground arith, ground arith, ground arith)

  placed-Wrote :
      (t : Text) (f : Bool) (o : Option Rewrite)
      → is_marked l ≡ true
      → text_eq (trim_space l) cron_line ≡ false
      → Wrote cron_line ls t true true o
      → Wrote cron_line (l ∷ ls) t f true o
  unfolding placed
  placed-Wrote t f none u n h = ground arith
  placed-Wrote t f (some r) u n h = (rw u h.0, ground arith, ground arith, ground arith)

  replaced-Wrote :
      (t : Text) (f : Bool) (o : Option Rewrite)
      → is_marked l ≡ true
      → text_eq (trim_space l) cron_line ≡ false
      → Wrote cron_line ls (t ++ (cron_line ++ (10 ∷ []))) true true o
      → Wrote cron_line (l ∷ ls) t f false o
  unfolding placed
  replaced-Wrote t f none u n h = ground arith
  replaced-Wrote t f (some r) u n h = (
    rw u (h.0 ∙ write_one t cron_line (placed cron_line true ls)),
    ground arith,
    ground arith,
    ground arith,
  )

-- The three ways a round goes.
line_cases :
    (cron_line l : Text) (r : Rewrite)
    → (is_job cron_line l ≡ true × rewrite_line cron_line l r ≡ none)
      ⊎ (is_marked l ≡ false × rewrite_line cron_line l r ≡ some (write_line l r))
      ⊎ (is_marked l ≡ true
          × text_eq (trim_space l) cron_line ≡ false
          × rewrite_line cron_line l r
            ≡ some (if r.replaced_or_appended then mark r else put_cron_line cron_line (mark r)))
unfolding rewrite_line
line_cases cron_line l r = ground arith

marked-Wrote :
    (cron_line l : Text) (ls : List Text) (t : Text) (f b : Bool) (o : Option Rewrite)
    → is_marked l ≡ true
    → text_eq (trim_space l) cron_line ≡ false
    → WroteBy cron_line ls
        (if b
          then record { new_crontab = t; found_marker = true; replaced_or_appended = b }
          else put_cron_line cron_line
              (record { new_crontab = t; found_marker = true; replaced_or_appended = b }))
        o
    → Wrote cron_line (l ∷ ls) t f b o
marked-Wrote cron_line l ls t f true o u n h = placed-Wrote cron_line l ls t f o u n h
marked-Wrote cron_line l ls t f false o u n h = replaced-Wrote cron_line l ls t f o u n h

rewrite_lines-Wrote :
    (cron_line : Text) (lines : List Text) (r : Rewrite)
    → WroteBy cron_line lines r (rewrite_lines cron_line lines r)
unfolding rewrite_lines placed unlines
rewrite_lines-Wrote cron_line [] r =
    (sym (append-nil r.new_crontab), ground arith, ground arith, refl)
rewrite_lines-Wrote cron_line (l ∷ ls) r = elim (line_cases cron_line l r) [
  | inl j ↦ rw (j.1, rewrite_lines) (ground arith)
  | inr (inl u) ↦
      rw (u.1, rewrite_lines)
        (foreign-Wrote cron_line l ls r.new_crontab r.found_marker r.replaced_or_appended
          (rewrite_lines cron_line ls (write_line l r)) u.0
          (rewrite_lines-Wrote cron_line ls (write_line l r)))
  | inr (inr m) ↦
      let r' = if r.replaced_or_appended then mark r else put_cron_line cron_line (mark r) in
      rw (m.2, rewrite_lines)
        (marked-Wrote cron_line l ls r.new_crontab r.found_marker r.replaced_or_appended
          (rewrite_lines cron_line ls r') m.0 m.1 (rewrite_lines-Wrote cron_line ls r'))
]

keep-placed_foreign :
    (cron_line : Text) (b : Bool) (lines : List Text)
    → is_marked cron_line ≡ true
    → keep is_foreign (placed cron_line b lines) ≡ keep is_foreign lines
unfolding placed
keep-placed_foreign cron_line b [] m = refl
keep-placed_foreign cron_line true (l ∷ ls) m =
    ground (arith, keep-placed_foreign cron_line true ls m)
keep-placed_foreign cron_line false (l ∷ ls) m =
    ground
      (arith, keep-placed_foreign cron_line true ls m, keep-placed_foreign cron_line false ls m)

keep-placed_done :
    (cron_line : Text) (lines : List Text) → keep is_marked (placed cron_line true lines) ≡ []
unfolding placed
keep-placed_done cron_line [] = refl
keep-placed_done cron_line (l ∷ ls) = ground (arith, keep-placed_done cron_line ls)

keep-placed_marked :
    (cron_line : Text) (lines : List Text)
    → is_marked cron_line ≡ true
    → exists_in is_marked lines ≡ true
    → keep is_marked (placed cron_line false lines) ≡ cron_line ∷ []
unfolding placed
keep-placed_marked cron_line [] m e = ground arith
keep-placed_marked cron_line (l ∷ ls) m e =
    ground (arith, keep-placed_marked cron_line ls m, keep-placed_done cron_line ls)

keep-placed_none :
    (cron_line : Text) (lines : List Text)
    → exists_in is_marked lines ≡ false
    → keep is_marked (placed cron_line false lines) ≡ []
unfolding placed
keep-placed_none cron_line [] e = refl
keep-placed_none cron_line (l ∷ ls) e = ground (arith, keep-placed_none cron_line ls)

-- What stands in a table after the job was put into it.
abbrev pub HasJobOnce : (cron_line content : Text) → List Text → Type 0
HasJobOnce cron_line content lines =
    (out : List Text) × (content ≡ unlines out)
    × (keep is_marked out ≡ cron_line ∷ [])
    × (keep is_foreign out ≡ keep is_foreign lines)

abbrev pub TableOf : (cron_line : Text) → Scan → Table → Type 0
TableOf cron_line sc present = exists_in (is_job cron_line) sc.found_lines ≡ true
TableOf cron_line sc unreadable = sc.too_long ≡ true
TableOf cron_line sc unchanged = ⊥
TableOf cron_line sc (replaced content) =
    HasJobOnce cron_line content sc.found_lines
    × (exists_in (is_job cron_line) sc.found_lines ≡ false)

module _ (cron_line : Text) (lines : List Text) (m : is_marked cron_line ≡ true) where
  abbrev OnceOf : Table → Type 0
  OnceOf (replaced content) = HasJobOnce cron_line content lines
  OnceOf present = ⊥
  OnceOf unreadable = ⊥
  OnceOf unchanged = ⊥

  finish-OnceOf :
      (f b : Bool) (t : Text)
      → t ≡ unlines (placed cron_line false lines)
      → f ≡ exists_in is_marked lines
      → b ≡ exists_in is_marked lines
      → OnceOf (
          table_of (
            finish_rewrite cron_line
              (record { new_crontab = t; found_marker = f; replaced_or_appended = b })))
  unfolding finish_rewrite unlines
  finish-OnceOf true true t w g h = (
    placed cron_line false lines,
    w,
    keep-placed_marked cron_line lines m (sym g),
    keep-placed_foreign cron_line false lines m,
  )
  finish-OnceOf true false t w g h = ground arith
  finish-OnceOf false b t w g h = (
    placed cron_line false lines ++ cron_line ∷ [],
    ap (λ x. x ++ (cron_line ++ (10 ∷ []))) w
        ∙ sym (unlines-append (placed cron_line false lines) (cron_line ∷ [])),
    keep-append is_marked (placed cron_line false lines) (cron_line ∷ [])
        ∙ ap (λ x. x ++ keep is_marked (cron_line ∷ [])) (keep-placed_none cron_line lines (sym g))
        ∙ ground arith,
    keep-append is_foreign (placed cron_line false lines) (cron_line ∷ [])
        ∙ ap (λ x. x ++ keep is_foreign (cron_line ∷ []))
            (keep-placed_foreign cron_line false lines m)
        ∙ ap (λ x. keep is_foreign lines ++ x) {y = []} (ground arith)
        ∙ append-nil (keep is_foreign lines),
  )

module _ (cron_line : Text) (m : is_marked cron_line ≡ true) where
  once-TableOf :
      (sc : Scan) (t : Table)
      → exists_in (is_job cron_line) sc.found_lines ≡ false
      → OnceOf cron_line sc.found_lines m t
      → TableOf cron_line sc t
  once-TableOf sc (replaced content) n h = (h, n)
  once-TableOf sc present n h = elim h [ ]
  once-TableOf sc unreadable n h = elim h [ ]
  once-TableOf sc unchanged n h = elim h [ ]

  end-TableOf :
      (sc : Scan) (o : Option Rewrite)
      → WroteBy cron_line sc.found_lines no_rewrite o
      → TableOf cron_line sc (elim o [
        | none ↦ present
        | some r ↦ if sc.too_long then unreadable else table_of (finish_rewrite cron_line r)
      ])
  end-TableOf sc none h = h
  end-TableOf sc (some r) h = by_length sc.too_long refl
    where
      by_length :
          (b : Bool)
          → sc.too_long ≡ b
          → TableOf cron_line sc (if b then unreadable else table_of (finish_rewrite cron_line r))
      by_length true e = e
      by_length false e = once-TableOf sc (table_of (finish_rewrite cron_line r)) h.3 (
          finish-OnceOf cron_line sc.found_lines m r.found_marker r.replaced_or_appended
            r.new_crontab h.0 h.1 h.2)

  -- If the line of the job names the marker: a table is left alone only if it has that line
  -- already, it is not read only if it has a line that is too long, and otherwise it is replaced by
  -- one where the job stands in exactly one line and all lines about anything else stand in order.
  pub rewrite_table-TableOf :
      (content : Text) → TableOf cron_line (scan content) (rewrite_table cron_line content)
  unfolding rewrite_table
  rewrite_table-TableOf content =
      end-TableOf (scan content) (rewrite_lines cron_line (scan content).found_lines no_rewrite)
        (rewrite_lines-Wrote cron_line (scan content).found_lines no_rewrite)
