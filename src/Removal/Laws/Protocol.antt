-- ===== src/Removal/Laws/Protocol.antt =====
-- The traces that a removal may leave.
use gwm_cli.Base.{◌≡◌, ◌≢◌, Bool, true, false, List, [], ◌∷◌, ◌++◌, Option, none, some, Text}
use gwm_cli.Trust.Gate.{FileRead, contents, not_found, ok}
use gwm_cli.History.{FilePath, OpEntry, Journal, append, remove}
use gwm_cli.Hooks.Expanding.{HookContext, with_cwd}
use gwm_cli.Hooks.Phases.{HookPhase, pre_remove, post_remove}
use gwm_cli.Hooks.Running.{StepResult, PhaseEnd, run_phase_quiet}
use gwm_cli.Removal.Worktrees.{
  Outside, Head, not_opened, no_head, on_branch, off_branch, GwmError, hook_error,
}
use gwm_cli.Removal.Lifecycle.{WorktreeInfo, Hooking, RemovalEnd}
use gwm_cli.Removal.Laws.Traces.{
  Event, pruned, dir_removed, saved, branch_deleted, is_none, HooksRan, traced_hooks,
}

-- The directory was removed, or was not there.
pub data DirGone (path : FilePath) : List Event → Type 0 where
  absent : DirGone path []
  gone : DirGone path (dir_removed path true ∷ [])

-- The branch that the entry of a removal names: the one that HEAD was on, none if HEAD was on no
-- branch, and the listed one if HEAD or its name could not be read.
pub data Names (found : WorktreeInfo) : Head → Option Text → Type 0 where
  checked_out : {b : Text} → Names found (on_branch (some b)) (some b)
  none_out : Names found off_branch none
  listed_unopened : Names found not_opened found.branch
  listed_headless : Names found no_head found.branch
  listed_unnamed : Names found (on_branch none) found.branch

-- At most the branch that HEAD was on is deleted, and only on demand.
pub data BranchGone (delete_branch : Bool) (head : Head) : List Event → Type 0 where
  kept : BranchGone delete_branch head []
  dropped :
      {b : Text}
      → delete_branch ≡ true
      → head ≡ on_branch (some b)
      → BranchGone delete_branch head (branch_deleted b ∷ [])

-- The journal that a file has; a file that is not there has an empty one.
pub data ReadAs : FileRead Journal → Journal → Type 0 where
  read_back : {j : Journal} → ReadAs (contents j) j
  no_file : ReadAs not_found []

-- The tip of a named branch.
pub data TipOf {W : Type 0} (o : Outside W) (w : W) : Option Text → Option Text → Type 0 where
  unnamed : TipOf o w none none
  tip : {b : Text} → TipOf o w (some b) (o.target_oid w b)

module _ {W : Type 0} (o : Outside W) where
  -- The entry is that of a removal of `found` with this head, made in `w`, with the worktree gone
  -- and the branch still there.
  pub record Describes (found : WorktreeInfo) (delete_branch : Bool) (head : Head) (w : W)
      (entry : OpEntry) : Type 0 where
    pub same_kind : entry.kind ≡ remove
    pub same_name : entry.worktree ≡ found.name
    pub branch_named : Names found head entry.branch
    pub tip_named : TipOf o w entry.branch entry.branch_oid
    pub same_path : entry.path ≡ found.path
    pub same_flag : entry.deleted_branch ≡ delete_branch
    pub undoable : entry.undone ≡ false

  -- The journal of the file was saved with the entry appended and no warning was left, or it could
  -- not be, and a warning was left.
  pub data Recorded (w : W) (entry : OpEntry) (warning : Option Text) : List Event → Type 0 where
    unsaved : is_none warning ≡ false → Recorded w entry warning []
    journaled :
        (before : Journal) {file : FilePath} {j : Journal} {done : Bool}
        → o.journal_path w ≡ ok file
        → ReadAs (o.read_journal w file) before
        → append entry before ≡ some j
        → is_none warning ≡ done
        → Recorded w entry warning (saved file j done ∷ [])

  -- The worktree is gone: what a removal does past its point of no return. `at` is the world in
  -- which it began.
  pub data Gone (found : WorktreeInfo) (expected : FilePath) (delete_branch : Bool) (at : W)
      (warning : Option Text) : List Event → Type 0 where
    in_order :
        {w : W} {entry : OpEntry} {dirs records branches : List Event}
        → DirGone expected dirs
        → Describes found delete_branch (o.read_head at expected) w entry
        → Recorded w entry warning records
        → BranchGone delete_branch (o.read_head at expected) branches
        → Gone found expected delete_branch at warning
            (pruned found.id true ∷ (dirs ++ (records ++ branches)))

-- It stands as it was, or its removal failed on the way.
pub data Stopped (found : WorktreeInfo) (expected : FilePath) : List Event → Type 0 where
  untouched : Stopped found expected []
  not_pruned : Stopped found expected (pruned found.id false ∷ [])
  dir_left : Stopped found expected (pruned found.id true ∷ dir_removed expected false ∷ [])

-- A phase of hooks in a world with its trace, with no legacy commands.
abbrev pub phase_run :
    {W : Type 0}
    → Hooking W
    → HookPhase
    → HookContext
    → W × List Event
    → (W × List Event) × PhaseEnd
phase_run k phase ctx s =
    run_phase_quiet k.quote (traced_hooks k).exec (traced_hooks k).evaluate_when k.hooks k.commands
      phase ctx k.skips false s

abbrev pub told : Option Text → Option GwmError
told none = none
told (some e) = some (hook_error e)

-- What stands before the removal proper, with its report: nothing, or the phase before.
pub data Before {W : Type 0} (k : Hooking W) (ctx : HookContext) (w : W)
    : List Event → List StepResult → Type 0 where
  refused : Before k ctx w [] []
  phase_ran :
      {at : W} {hooks : List Event} {before : PhaseEnd}
      → phase_run k pre_remove ctx (w, []) ≡ ((at, hooks), before)
      → HooksRan ctx.cwd hooks
      → Before k ctx w hooks before.report

-- The whole trace of a removal that begins in `w`: the hooks before, what was removed, the hooks
-- behind.
pub data Ordered {W : Type 0} (o : Outside W) (k : Hooking W) (found : WorktreeInfo)
    (expected : FilePath) (delete_branch : Bool) (w : W) (end : RemovalEnd) (t : List Event)
    : Type 0 where
  -- No event stands behind those of the removal: no hook ran.
  failed :
      (hooks events : List Event)
      → t ≡ hooks ++ events
      → Before k (k.context w found.path found.branch) w hooks end.outcome.pre
      → Stopped found expected events
      → end.outcome.removed ≡ false
      → end.error ≢ none
      → end.outcome.post ≡ []
      → Ordered o k found expected delete_branch w end t
  -- The phase before ended with no error and left the world in which the removal began; the phase
  -- behind ran in the world that the removal left, in the main repository, and its report and its
  -- error are those told.
  completed :
      (at after : W) (hooks events : List Event) (before : PhaseEnd)
      → phase_run k pre_remove (k.context w found.path found.branch) (w, []) ≡ ((at, hooks), before)
      → HooksRan (k.context w found.path found.branch).cwd hooks
      → (before.error ≡ none) × (before.report ≡ end.outcome.pre)
      → Gone o found expected delete_branch at end.outcome.journal_warning events
      → (let behind =
            phase_run k post_remove
              (with_cwd (k.context w found.path found.branch) k.workdir)
              (after, hooks ++ events) in
          (behind.0.1 ≡ t)
          × (behind.1.report ≡ end.outcome.post)
          × (told behind.1.error ≡ end.error))
      → end.outcome.removed ≡ true
      → Ordered o k found expected delete_branch w end t
