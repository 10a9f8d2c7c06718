-- ===== src/Backup/Recovered.antt =====
-- What the recovery at the start of a backup leaves of a pair of files.
use my_sql_backup.Base.{ℕ, ◌≡◌, ◌∙◌, inl, inr, Bool, true, false, some}
use my_sql_backup.Base.Tests.{if◌then◌else◌, leb}
use my_sql_backup.Base.Texts.{Text, text_eq}
use my_sql_backup.Storage.{Content, System, stat, stat_of, remove, rename, refused, tick}
use my_sql_backup.Storage.Laws.{remove_frame, rename_cases}
use my_sql_backup.Backup.{
  recover_pair, recover_sav, recover_zip, recover_by_size, recover_larger, recover_smaller,
  recover_replaced, recover_absent,
}
use my_sql_backup.Backup.Kept.{Safe}

module _ (zip sav : Text) (apart : text_eq zip sav ≡ false) (apart' : text_eq sav zip ≡ false) where
  -- A message, or a call that does nothing, keeps a file where it is.
  replaced-Safe :
      (b : Bool) (c : Content) (s : System)
      → Safe zip sav (some c) s
      → Safe zip sav (some c) (recover_replaced b zip sav s)
  replaced-Safe true c s h = h
  replaced-Safe false c s h = h

  absent-Safe :
      (b : Bool) (c : Content) (s : System)
      → Safe zip sav (some c) s
      → Safe zip sav (some c) (recover_absent b zip sav s)
  absent-Safe true c s h = h
  absent-Safe false c s h = h

  smaller-Safe :
      (b : Bool) (c : Content) (s : System)
      → Safe zip sav (some c) s
      → Safe zip sav (some c) (recover_smaller b sav s)
  smaller-Safe true c s h = h
  smaller-Safe false c s h = h

  rename-Safe :
      (c : Content) (s : System) → s.disk sav ≡ some c → Safe zip sav (some c) (rename sav zip s).1
  rename-Safe c s h = elim (rename_cases sav zip s) [
    | inl u ↦ inr (u.1 sav ∙ h)
    | inr u ↦ inl (u.1 ∙ h)
  ]

  larger-Safe :
      (b : Bool) (c : Content) (s : System)
      → s.disk sav ≡ some c
      → Safe zip sav (some c) (recover_larger b zip sav s)
  larger-Safe true c s h =
      replaced-Safe (rename sav zip s).0 c (rename sav zip s).1 (rename-Safe c s h)
  larger-Safe false c s h = inr h

  by_size-Safe :
      (b : Bool) (z c : Content) (s : System)
      → s.disk zip ≡ some z
      → s.disk sav ≡ some c
      → Safe zip sav (some (if b then c else z)) (recover_by_size b zip sav s)
  by_size-Safe true z c s hz hc =
      larger-Safe (remove zip s).0 c (remove zip s).1 (remove_frame zip sav apart s ∙ hc)
  by_size-Safe false z c s hz hc =
      smaller-Safe (remove sav s).0 z (remove sav s).1 (inl (remove_frame sav zip apart' s ∙ hz))

  either-Safe :
      (b : Bool) (z c : Content) (s : System)
      → s.disk zip ≡ some z
      → s.disk sav ≡ some c
      → Safe zip sav (some (if b then c else z)) s
  either-Safe true z c s hz hc = inr hc
  either-Safe false z c s hz hc = inl hz

  module _ (size : Content → ℕ) (z c : Content) where
    zip-Safe :
        (b : Bool) (s : System)
        → s.disk zip ≡ some z
        → s.disk sav ≡ some c
        → Safe zip sav
            (some (if leb (size z) (size c) then c else z))
            (recover_zip size c (stat_of b (some z)) zip sav s)
    zip-Safe true s hz hc = either-Safe (leb (size z) (size c)) z c s hz hc
    zip-Safe false s hz hc = by_size-Safe (leb (size z) (size c)) z c s hz hc

    sav-Safe :
        (b : Bool) (s : System)
        → s.disk zip ≡ some z
        → s.disk sav ≡ some c
        → Safe zip sav
            (some (if leb (size z) (size c) then c else z))
            (recover_sav size (stat_of b (some c)) zip sav s)
    unfolding stat tick
    sav-Safe true s hz hc = either-Safe (leb (size z) (size c)) z c s hz hc
    sav-Safe false s hz hc = rw hz (zip-Safe (refused s) (tick s) hz hc)

    -- Of an archive and the file beside it, the recovery never loses the larger one, and of two
    -- files of one size the one beside the archive, whatever calls the system refuses.
    pub recover_pair-Safe :
        (s : System)
        → s.disk zip ≡ some z
        → s.disk sav ≡ some c
        → Safe zip sav (some (if leb (size z) (size c) then c else z)) (recover_pair size zip sav s)
    unfolding recover_pair stat tick
    recover_pair-Safe s hz hc = rw hc (sav-Safe (refused s) (stat sav s).1 hz hc)
