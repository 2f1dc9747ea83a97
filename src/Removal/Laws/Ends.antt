-- ===== src/Removal/Laws/Ends.antt =====
-- The removal proper, and the trace that it leaves.
use gwm_cli.Base.{
  ◌≡◌, ◌≢◌, refl, ap, sym, ◌∙◌, Bool, true, false, ◌&&◌, List, [], ◌∷◌, ◌++◌, Option, none, some,
  arith, Text, Bool-cases, inl, inr,
}
use mathlib.Core.Path.{subst}
use mathlib.Core.List.{append_assoc, append-nil}
use gwm_cli.History.{FilePath, path_eq}
use gwm_cli.History.Laws.Taking.{path_eq_iff}
use gwm_cli.Removal.Worktrees.{
  Head, not_opened, no_head, on_branch, off_branch, HeadBranch, Outside, Removed, branch_of_head,
  head_branch, head_name, record_in_history, drop_branch, finish, after_dir, after_prune,
  remove_found, remove_inner, remove_verified_recording,
}
use gwm_cli.Removal.Lifecycle.{
  WorktreeInfo, Hooking, branch_to_record, oid_to_record, journal_entry, note_removal,
}
use gwm_cli.Removal.Laws.Traces.{
  Event, pruned, dir_removed, branch_deleted, traced, traced_hooks, noting,
}
use gwm_cli.Removal.Laws.Protocol.{
  DirGone, absent, gone, Names, checked_out, none_out, listed_unopened, listed_headless,
  listed_unnamed, BranchGone, kept, dropped, TipOf, unnamed, tip, Describes, Gone, in_order,
  Stopped, untouched, not_pruned, dir_left,
}
use gwm_cli.Removal.Laws.Recording.{record_in_history-Noted, warning_of-Noted}

module _ {W : Type 0} (o : Outside W) (k : Hooking W) (found : WorktreeInfo) (expected : FilePath)
    (delete_branch : Bool) where
  branch_to_record-Names : (h : Head) → Names found h (branch_to_record found (branch_of_head h))
  unfolding branch_to_record branch_of_head
  branch_to_record-Names not_opened = listed_unopened
  branch_to_record-Names no_head = listed_headless
  branch_to_record-Names (on_branch none) = listed_unnamed
  branch_to_record-Names (on_branch (some b)) = checked_out
  branch_to_record-Names off_branch = none_out

  drop_branch-BranchGone :
      (head : Head) (w : W) (t : List Event)
      → (branches : List Event) × ((drop_branch
            (traced o)
            delete_branch
            (w, t)
            (head_name (branch_of_head head))).1
          ≡ t ++ branches)
        × BranchGone delete_branch head branches
  unfolding drop_branch head_name branch_of_head
  drop_branch-BranchGone (on_branch (some b)) w t =
      elim (Bool-cases (delete_branch && o.has_branch w b)) [
        | inl e ↦ (branch_deleted b ∷ [], rw e refl, dropped (ground (arith, e)) refl)
        | inr e ↦ ([], rw e (sym (append-nil t)), kept)
      ]
  drop_branch-BranchGone (on_branch none) w t = ([], sym (append-nil t), kept)
  drop_branch-BranchGone off_branch w t = ([], sym (append-nil t), kept)
  drop_branch-BranchGone not_opened w t = ([], sym (append-nil t), kept)
  drop_branch-BranchGone no_head w t = ([], sym (append-nil t), kept)

  abbrev pub note : W × List Event → HeadBranch → (W × List Event) × Option Text
  note = note_removal (traced o) (traced_hooks k) found delete_branch

  tip_of :
      (w : W) (t : List Event) (b : Option Text) → TipOf o w b (oid_to_record (traced o) (w, t) b)
  tip_of w t none = unnamed
  tip_of w t (some b) = tip

  describes :
      (w : W) (t : List Event) (head : Head)
      → Describes o found delete_branch head w (
          journal_entry
            (traced o)
            (traced_hooks k)
            (w, t)
            found
            (branch_of_head head)
            delete_branch)
  unfolding journal_entry
  describes w t head = record {
    same_kind = refl;
    same_name = refl;
    branch_named = branch_to_record-Names head;
    tip_named = tip_of w t (branch_to_record found (branch_of_head head));
    same_path = refl;
    same_flag = refl;
    undoable = refl;
  }

  -- The removal proper, begun in `at` with the trace `t`.
  module _ (at : W) (t : List Event) where
    pub data Ends (r : Removed (W × List Event)) : Type 0 where
      ended_early :
          (events : List Event)
          → r.error ≢ none
          → r.world.1 ≡ t ++ events
          → Stopped found expected events
          → Ends r
      went_through :
          (events : List Event)
          → r.error ≡ none
          → r.world.1 ≡ t ++ events
          → Gone o found expected delete_branch at r.warning events
          → Ends r

    abbrev head : Head
    head = o.read_head at expected

    finish-Ends :
        (w : W) (s : List Event) {dirs : List Event}
        → s ≡ t ++ pruned found.id true ∷ dirs
        → DirGone expected dirs
        → Ends (finish (traced o) delete_branch note (branch_of_head head) (w, s))
    unfolding finish note_removal
    finish-Ends w s {dirs} h d =
        let entry =
          journal_entry (traced o) (traced_hooks k) (w, s) found (branch_of_head head)
            delete_branch in
        let n =
          warning_of-Noted o w k entry s (record_in_history (traced o) (w, s) entry)
            (record_in_history-Noted o w entry s) in
        let v = (note (w, s) (branch_of_head head)).0 in
        let (branches, eq, b) = drop_branch-BranchGone head v.0 v.1 in
        went_through (pruned found.id true ∷ (dirs ++ (n.records ++ branches))) refl
          (eq
            ∙ ap (λ u. u ++ branches) n.adds
            ∙ append_assoc s n.records branches
            ∙ ap (λ u. u ++ (n.records ++ branches)) h
            ∙ append_assoc t (pruned found.id true ∷ dirs) (n.records ++ branches))
          (in_order d (describes w s head) n.events b)

    snoc : (us s : List Event) (x : Event) → s ≡ t ++ us → s ++ x ∷ [] ≡ t ++ (us ++ x ∷ [])
    snoc us s x h = ap (λ u. u ++ x ∷ []) h ∙ append_assoc t us (x ∷ [])

    after_dir-Ends :
        (w : W) (s : List Event) (e : Option Text)
        → s ≡ t ++ pruned found.id true ∷ []
        → Ends (
            after_dir
              (traced o)
              delete_branch
              note
              (branch_of_head head)
              (noting s (dir_removed expected) (w, e)))
    after_dir-Ends w s none h = finish-Ends w _ (snoc _ s (dir_removed expected true) h) gone
    after_dir-Ends w s (some e) h =
        ended_early _ (cc) (snoc _ s (dir_removed expected false) h) dir_left

    at_expected :
        (w : W) (e : Option Text)
        → Ends (
            after_prune
              (traced o)
              delete_branch
              note
              expected
              (branch_of_head head)
              (noting t (pruned found.id) (w, e)))
    at_expected w (some e) = ended_early _ (cc) refl not_pruned
    at_expected w none = elim (Bool-cases (o.exists w expected)) [
      | inl e ↦
          rw e
            (after_dir-Ends (o.remove_dir_all w expected).0 _ (o.remove_dir_all w expected).1 refl)
      | inr e ↦ rw e (finish-Ends w _ refl absent)
    ]

    after_prune-Ends :
        (path : FilePath) (w : W) (e : Option Text)
        → path ≡ expected
        → Ends (
            after_prune
              (traced o)
              delete_branch
              note
              path
              (branch_of_head (o.read_head at path))
              (noting t (pruned found.id) (w, e)))
    after_prune-Ends path w e h =
        subst
          (λ p. Ends (
            after_prune (traced o) delete_branch note p (branch_of_head (o.read_head at p))
              (noting t (pruned found.id) (w, e))))
          (sym h) (at_expected w e)

    remove_found-Ends :
        (actual : Option FilePath)
        → Ends (remove_found (traced o) delete_branch note (at, t) found.id (some expected) actual)
    unfolding head_branch
    remove_found-Ends none = ended_early [] (cc) (sym (append-nil t)) untouched
    remove_found-Ends (some path) = elim (Bool-cases (path_eq path expected)) [
      | inl e ↦ rw e (
          after_prune-Ends path (o.prune at found.id).0 (o.prune at found.id).1
            ((path_eq_iff path expected).0 e))
      | inr e ↦ rw e (ended_early [] (cc) (sym (append-nil t)) untouched)
    ]

    pub removal-Ends :
        Ends (remove_verified_recording (traced o) (at, t) found.id expected delete_branch note)
    unfolding remove_verified_recording remove_inner
    removal-Ends = remove_found-Ends (o.find_worktree at found.id)
