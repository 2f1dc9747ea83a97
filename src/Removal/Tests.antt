-- ===== src/Removal/Tests.antt =====
-- A removal that deletes a branch.
use gwm_cli.Base.{
  ℕ, ◌≡◌, refl, true, false, [], ◌∷◌, none, some, Text, codes, text_eq, is_discrete_eq,
}
use gwm_cli.Trust.Gate.{ok, not_found}
use gwm_cli.History.{FilePath, path_eq, OpEntry, remove, append}
use gwm_cli.Hooks.Expanding.{HookContext, with_cwd, expand_shell, expand, expand_from}
use gwm_cli.Hooks.Phases.{phase_eq, skipped_in, HookPhase-discrete}
use gwm_cli.Hooks.Running.{
  HookStep, abort, exited, one_step, guarded, perform, run_step, settle_step, outcome_of,
  unless_ended, run_phase_quiet, run_steps, steps_of, steps_for,
}
use gwm_cli.Removal.Worktrees.{
  Outside, on_branch, branch_of_head, head_name, head_branch, verify_path, record_in_history,
  drop_branch, finish, remove_inner, remove_verified_recording,
}
use gwm_cli.Removal.Lifecycle.{
  WorktreeInfo, Hooking, branch_to_record, journal_entry, note_removal, run_hooks,
  remove_with_lifecycle,
}
use gwm_cli.Removal.Laws.Traces.{
  pruned, dir_removed, saved, branch_deleted, hook_ran, traced, traced_hooks,
}

abbrev place : FilePath
place = codes "trees" ∷ codes "feat-7-log" ∷ []

abbrev branch : Text
branch = codes "feat/#7-log"

-- A world with this one worktree, where every action succeeds.
abbrev outside : Outside ℕ
outside = record {
  find_worktree = λ w name. some place;
  read_head = λ w path. on_branch (some branch);
  prune = λ w name. (w, none);
  exists = λ w path. true;
  remove_dir_all = λ w path. (w, none);
  has_branch = λ w b. true;
  target_oid = λ w b. some (codes "c0ffee");
  delete = λ w b. w;
  now = λ w. w;
  repo_root = λ w. codes "gwm" ∷ [];
  journal_path = λ w. ok (codes "history.toml" ∷ []);
  read_journal = λ w file. not_found;
  save_journal = λ w file j. (w, none);
}

abbrev blank : HookContext
blank = record {
  main_repo = [];
  cwd = [];
  path = [];
  branch = [];
  branch_type = [];
  issue = [];
  desc = [];
  user = [];
  owner = [];
  repo = [];
}

abbrev say : HookStep
say = record {
  name = codes "say";
  run = codes "say bye";
  condition = none;
  env = [];
  on_fail = abort;
}

abbrev hooking : Hooking ℕ
hooking = record {
  quote = λ t. t;
  exec = λ w command env cwd. (w, exited (codes "exit status: 0") true [] []);
  evaluate_when = λ w guard cwd. true;
  hooks = record {
    pre_create = [];
    post_create = [];
    pre_bootstrap = [];
    post_bootstrap = [];
    pre_remove = say ∷ [];
    post_remove = say ∷ [];
  };
  commands = [];
  skips = [];
  context = λ w path b. blank;
  workdir = codes "gwm";
}

abbrev found : WorktreeInfo
found = record { id = codes "feat-7-log"; name = codes "feat-7-log"; path = place; branch = none }

abbrev entry : OpEntry
entry = record {
  ts = 9;
  kind = remove;
  worktree = codes "feat-7-log";
  branch = some branch;
  branch_oid = some (codes "c0ffee");
  path = place;
  deleted_branch = true;
  repo_root = codes "gwm" ∷ [];
  undone = false;
}

whole_trace :
    (remove_with_lifecycle (traced outside) (traced_hooks hooking) found place true (9, [])).0.1
    ≡ hook_ran (codes "say bye") []
      ∷ pruned (codes "feat-7-log") true
      ∷ dir_removed place true
      ∷ saved (codes "history.toml" ∷ []) (entry ∷ []) true
      ∷ branch_deleted branch
      ∷ hook_ran (codes "say bye") (codes "gwm")
      ∷ []
unfolding one_step guarded perform run_step settle_step outcome_of expand_shell expand expand_from
    unless_ended with_cwd remove_with_lifecycle verify_path path_eq text_eq run_hooks
    run_phase_quiet skipped_in run_steps steps_of steps_for phase_eq remove_verified_recording
    remove_inner head_branch branch_of_head finish note_removal record_in_history journal_entry
    branch_to_record append drop_branch head_name is_discrete_eq HookPhase-discrete
whole_trace = refl
