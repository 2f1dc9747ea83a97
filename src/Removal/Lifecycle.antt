-- ===== src/Removal/Lifecycle.antt =====
-- src/removal.rs: the hooks before, the removal with its record in the journal, the hooks behind.
use gwm_cli.Base.{Bool, true, false, List, [], ◌++◌, Option, none, some, Text, codes}
use gwm_cli.Trust.Gate.{LifecycleHooksConfig}
use gwm_cli.History.{FilePath, OpEntry, remove}
use gwm_cli.Hooks.Phases.{HookPhase, pre_remove, post_remove}
use gwm_cli.Hooks.Expanding.{HookContext, with_cwd}
use gwm_cli.Hooks.Running.{HookStep, CommandStep, StepResult, Exec, PhaseEnd, run_phase_quiet}
use gwm_cli.Removal.Worktrees.{
  HeadBranch, attached, detached, unreadable_head, GwmError, hook_error, Outside, Removed,
  verify_path, record_in_history, remove_verified_recording,
}

-- The fields of a listed worktree that a removal reads.
pub record WorktreeInfo : Type 0 where
  pub id : Text
  pub name : Text
  pub path : FilePath
  pub branch : Option Text

pub record RemovalOutcome : Type 0 where
  pub pre : List StepResult
  pub removed : Bool
  pub journal_warning : Option Text
  pub post : List StepResult

abbrev pub default_outcome : RemovalOutcome
default_outcome = record { pre = []; removed = false; journal_warning = none; post = [] }

-- The outcome so far, and the error of a removal that stopped.
pub record RemovalEnd : Type 0 where
  pub outcome : RemovalOutcome
  pub error : Option GwmError

unfoldable pub branch_to_record : WorktreeInfo → HeadBranch → Option Text
branch_to_record found (attached b) = some b
branch_to_record found detached = none
branch_to_record found unreadable_head = found.branch

-- The configuration of the hooks, and what runs them.
pub record Hooking (W : Type 0) : Type 0 where
  pub quote : Text → Text
  pub exec : W → Text → List (Text × Text) → Text → W × Exec
  pub evaluate_when : W → Text → Text → Bool
  pub hooks : LifecycleHooksConfig HookStep
  pub commands : List CommandStep
  pub skips : List HookPhase
  pub context : W → FilePath → Option Text → HookContext
  pub workdir : Text

abbrev pub oid_to_record : {W : Type 0} → Outside W → W → Option Text → Option Text
oid_to_record o w none = none
oid_to_record o w (some b) = o.target_oid w b

module _ {W : Type 0} (o : Outside W) (k : Hooking W) where
  unfoldable pub journal_entry : W → WorktreeInfo → HeadBranch → Bool → OpEntry
  journal_entry w found head delete_branch = record {
    ts = o.now w;
    kind = remove;
    worktree = found.name;
    branch = branch_to_record found head;
    branch_oid = oid_to_record o w (branch_to_record found head);
    path = found.path;
    deleted_branch = delete_branch;
    repo_root = o.repo_root w;
    undone = false;
  }

  abbrev pub warning_of : W × Option Text → W × Option Text
  warning_of (w, none) = (w, none)
  warning_of (w, some e) = (
    w,
    some (
        codes "failed to record undo journal entry: "
        ++ (e ++ codes " (continuing with the removal anyway)")),
  )

  unfoldable pub note_removal : WorktreeInfo → Bool → W → HeadBranch → W × Option Text
  note_removal found delete_branch w head =
      warning_of (record_in_history o w (journal_entry w found head delete_branch))

  unfoldable pub run_hooks : HookPhase → HookContext → W → W × PhaseEnd
  run_hooks phase ctx w =
      run_phase_quiet k.quote k.exec k.evaluate_when k.hooks k.commands phase ctx k.skips false w

  abbrev pub hook_failure : Option Text → Option GwmError
  hook_failure none = none
  hook_failure (some e) = some (hook_error e)

  abbrev pub after_post : RemovalOutcome → W × PhaseEnd → W × RemovalEnd
  after_post outcome (w, end) =
      (w, record { outcome = record outcome { post = end.report }; error = hook_failure end.error })

  abbrev pub after_removal :
      HookContext → RemovalOutcome → Removed W → Option GwmError → W × RemovalEnd
  after_removal ctx outcome r (some e) =
      (r.world, record { outcome = record outcome { journal_warning = r.warning }; error = some e })
  after_removal ctx outcome r none =
      after_post (record outcome { journal_warning = r.warning; removed = true })
        (run_hooks post_remove (with_cwd ctx k.workdir) r.world)

  abbrev pub after_pre :
      HookContext → WorktreeInfo → FilePath → Bool → W × PhaseEnd → Option Text → W × RemovalEnd
  after_pre ctx found expected delete_branch (w, end) (some e) = (
    w,
    record { outcome = record default_outcome { pre = end.report }; error = some (hook_error e) },
  )
  after_pre ctx found expected delete_branch (w, end) none =
      let r =
        remove_verified_recording o w found.id expected delete_branch
          (note_removal found delete_branch) in
      after_removal ctx (record default_outcome { pre = end.report }) r r.error

  abbrev pub when_verified : WorktreeInfo → FilePath → Bool → W → Option GwmError → W × RemovalEnd
  when_verified found expected delete_branch w (some e) =
      (w, record { outcome = default_outcome; error = some e })
  when_verified found expected delete_branch w none =
      let ctx = k.context w found.path found.branch in
      let before = run_hooks pre_remove ctx w in
      after_pre ctx found expected delete_branch before before.1.error

  unfoldable pub remove_with_lifecycle : WorktreeInfo → FilePath → Bool → W → W × RemovalEnd
  remove_with_lifecycle found expected delete_branch w =
      when_verified found expected delete_branch w (verify_path o w found.id expected)
