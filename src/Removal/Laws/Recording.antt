-- ===== src/Removal/Laws/Recording.antt =====
-- What the record of a removal adds to its trace.
use gwm_cli.Base.{◌≡◌, refl, sym, List, [], ◌∷◌, ◌++◌, Option, none, some, Text, codes}
use mathlib.Core.Path.{subst}
use mathlib.Core.List.{append-nil}
use gwm_cli.Trust.Gate.{Fallible, ok, err, FileRead, contents, not_found, unreadable}
use gwm_cli.History.{FilePath, OpEntry, Journal, append}
use gwm_cli.Removal.Worktrees.{Outside, save_appended, append_read, record_at, record_in_history}
use gwm_cli.Removal.Lifecycle.{Hooking, warning_of}
use gwm_cli.Removal.Laws.Traces.{Event, saved, traced, traced_hooks}
use gwm_cli.Removal.Laws.Protocol.{Recorded, unsaved, journaled, ReadAs, read_back, no_file}

module _ {W : Type 0} (o : Outside W) (w : W) where
  -- What recording an entry in `w` adds to the trace.
  pub record Noted (entry : OpEntry) (t : List Event) (r : (W × List Event) × Option Text)
      : Type 0 where
    pub records : List Event
    pub adds : r.0.1 ≡ t ++ records
    pub events : Recorded o w entry r.1 records

  no_record : (entry : OpEntry) (t : List Event) (e : Text) → Noted entry t ((w, t), some e)
  no_record entry t e = record { records = []; adds = sym (append-nil t); events = unsaved refl }

  save_appended-Noted :
      (entry : OpEntry) (t : List Event) (file : FilePath) (before : Journal) (j : Option Journal)
      → o.journal_path w ≡ ok file
      → ReadAs (o.read_journal w file) before
      → append entry before ≡ j
      → Noted entry t (save_appended (traced o) (w, t) file j)
  save_appended-Noted entry t file before none p r h = no_record entry t (codes "panic")
  save_appended-Noted entry t file before (some j) p r h = record {
    records = saved file j _ ∷ [];
    adds = refl;
    events = journaled before p r h refl;
  }

  append_read-Noted :
      (entry : OpEntry) (t : List Event) (file : FilePath) (r : FileRead Journal)
      → o.journal_path w ≡ ok file
      → o.read_journal w file ≡ r
      → Noted entry t (append_read (traced o) (w, t) file entry r)
  append_read-Noted entry t file (contents j) p e =
      save_appended-Noted entry t file j (append entry j) p
        (subst (λ r. ReadAs r j) (sym e) read_back) refl
  append_read-Noted entry t file not_found p e =
      save_appended-Noted entry t file [] (append entry []) p
        (subst (λ r. ReadAs r []) (sym e) no_file) refl
  append_read-Noted entry t file (unreadable m) p e = no_record entry t m

  record_at-Noted :
      (entry : OpEntry) (t : List Event) (file : Fallible FilePath)
      → o.journal_path w ≡ file
      → Noted entry t (record_at (traced o) (w, t) entry file)
  record_at-Noted entry t (err e) p = no_record entry t e
  record_at-Noted entry t (ok file) p =
      append_read-Noted entry t file (o.read_journal w file) p refl

  pub record_in_history-Noted :
      (entry : OpEntry) (t : List Event) → Noted entry t (record_in_history (traced o) (w, t) entry)
  unfolding record_in_history
  record_in_history-Noted entry t = record_at-Noted entry t (o.journal_path w) refl

  reworded :
      {entry : OpEntry} {e e' : Text} {t : List Event}
      → Recorded o w entry (some e) t
      → Recorded o w entry (some e') t
  reworded (unsaved h) = unsaved h
  reworded (journaled before p r h q) = journaled before p r h q

  pub warning_of-Noted :
      (k : Hooking W) (entry : OpEntry) (t : List Event) (r : (W × List Event) × Option Text)
      → Noted entry t r
      → Noted entry t (warning_of (traced o) (traced_hooks k) r)
  warning_of-Noted k entry t (s, none) n = record {
    records = n.records;
    adds = n.adds;
    events = n.events;
  }
  warning_of-Noted k entry t (s, some e) n = record {
    records = n.records;
    adds = n.adds;
    events = reworded n.events;
  }
