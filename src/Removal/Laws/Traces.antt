-- ===== src/Removal/Laws/Traces.antt =====
-- A world that keeps the list of what a removal did to it, the earliest first.
use gwm_cli.Base.{
  ◌≡◌, refl, sym, ap, ◌∙◌, Bool, true, false, List, [], ◌∷◌, ◌++◌, Option, none, some, Text,
  Bool-cases, inl, inr,
}
use mathlib.Core.List.{append_assoc, append-nil}
use gwm_cli.Trust.Gate.{LifecycleHooksConfig}
use gwm_cli.History.{FilePath, Journal}
use gwm_cli.Hooks.Phases.{HookPhase, skipped_in}
use gwm_cli.Hooks.Expanding.{HookContext}
use gwm_cli.Hooks.Running.{
  HookStep, CommandStep, StepResult, Exec, PhaseEnd, run_step, perform, guarded, one_step,
  unless_ended, run_steps, run_phase_quiet,
}
use gwm_cli.Removal.Worktrees.{Outside}
use gwm_cli.Removal.Lifecycle.{Hooking, run_hooks}

-- An action with its object, and whether it succeeded. A branch is deleted with no look at the
-- result. The command of a hook comes with its directory.
pub data Event : Type 0 where
  pruned : Text → Bool → Event
  dir_removed : FilePath → Bool → Event
  saved : FilePath → Journal → Bool → Event
  branch_deleted : Text → Event
  hook_ran : (command cwd : Text) → Event

abbrev pub is_none : Option Text → Bool
is_none none = true
is_none (some e) = false

abbrev pub noting :
    {W : Type 0} → List Event → (Bool → Event) → W × Option Text → (W × List Event) × Option Text
noting t event (w, e) = ((w, t ++ event (is_none e) ∷ []), e)

abbrev pub traced : {W : Type 0} → Outside W → Outside (W × List Event)
traced o = record {
  find_worktree = λ s name. o.find_worktree s.0 name;
  read_head = λ s path. o.read_head s.0 path;
  prune = λ s name. noting s.1 (pruned name) (o.prune s.0 name);
  exists = λ s path. o.exists s.0 path;
  remove_dir_all = λ s path. noting s.1 (dir_removed path) (o.remove_dir_all s.0 path);
  has_branch = λ s b. o.has_branch s.0 b;
  target_oid = λ s b. o.target_oid s.0 b;
  delete = λ s b. (o.delete s.0 b, s.1 ++ branch_deleted b ∷ []);
  now = λ s. o.now s.0;
  repo_root = λ s. o.repo_root s.0;
  journal_path = λ s. o.journal_path s.0;
  read_journal = λ s file. o.read_journal s.0 file;
  save_journal = λ s file j. noting s.1 (saved file j) (o.save_journal s.0 file j);
}

abbrev pub traced_hooks : {W : Type 0} → Hooking W → Hooking (W × List Event)
traced_hooks k = record {
  quote = k.quote;
  exec = λ s command env cwd.
      let r = k.exec s.0 command env cwd in ((r.0, s.1 ++ hook_ran command cwd ∷ []), r.1);
  evaluate_when = λ s guard cwd. k.evaluate_when s.0 guard cwd;
  hooks = k.hooks;
  commands = k.commands;
  skips = k.skips;
  context = λ s path branch. k.context s.0 path branch;
  workdir = k.workdir;
}

-- Nothing but commands of hooks, in one directory.
pub data HooksRan (cwd : Text) : List Event → Type 0 where
  none_ran : HooksRan cwd []
  then_ran :
      {command : Text} {t : List Event} → HooksRan cwd t → HooksRan cwd (hook_ran command cwd ∷ t)

HooksRan-append :
    {cwd : Text} {t u : List Event} → HooksRan cwd t → HooksRan cwd u → HooksRan cwd (t ++ u)
HooksRan-append none_ran k = k
HooksRan-append (then_ran h) k = then_ran (HooksRan-append h k)

-- What holds of each command of a phase, holds of the phase.
module _ {W : Type 0} (R : W → W → Type 0) (same : (w : W) → R w w)
    (over : (u v w : W) → R u v → R v w → R u w) (quote : Text → Text)
    (exec : W → Text → List (Text × Text) → Text → W × Exec)
    (evaluate_when : W → Text → Text → Bool) (phase : HookPhase) (ctx : HookContext)
    (each : (w : W) (command : Text) (env : List (Text × Text))
      → R w (exec w command env ctx.cwd).0) where
  perform_each :
      (w : W) (step : HookStep) → R w (perform quote exec evaluate_when phase ctx w step).0
  unfolding perform run_step
  perform_each w step = each w _ _

  guarded_each :
      (c : Option Text) (w : W) (step : HookStep)
      → R w (guarded quote exec evaluate_when c phase ctx w step).0
  unfolding guarded
  guarded_each none w step = perform_each w step
  guarded_each (some g) w step = elim (Bool-cases (evaluate_when w g ctx.cwd)) [
    | inl e ↦ rw e (perform_each w step)
    | inr e ↦ rw e (same w)
  ]

  unless_ended_each :
      (u w : W) (x : StepResult × Option Text) (rest : W × PhaseEnd)
      → R u w
      → R w rest.0
      → R u (unless_ended quote exec evaluate_when w x rest).0
  unfolding unless_ended
  unless_ended_each u w (r, some e) rest h k = h
  unless_ended_each u w (r, none) (w', end) h k = over u w w' h k

  run_steps_each :
      (steps : List HookStep) (w : W) → R w (run_steps quote exec evaluate_when phase ctx w steps).0
  unfolding run_steps one_step
  run_steps_each [] w = same w
  run_steps_each (step ∷ steps) w =
      let done = guarded quote exec evaluate_when step.condition phase ctx w step in
      unless_ended_each w done.0 done.1 (run_steps quote exec evaluate_when phase ctx done.0 steps)
        (guarded_each step.condition w step) (run_steps_each steps done.0)

  pub run_phase_quiet_each :
      (hooks : LifecycleHooksConfig HookStep) (commands : List CommandStep) (skips : List HookPhase)
      (include_legacy : Bool) (w : W)
      → R w
          (run_phase_quiet quote exec evaluate_when hooks commands phase ctx skips include_legacy
            w).0
  unfolding run_phase_quiet
  run_phase_quiet_each hooks commands skips include_legacy w =
      elim (Bool-cases (skipped_in phase skips)) [
        | inl e ↦ rw e (same w)
        | inr e ↦ rw e (run_steps_each _ w)
      ]

module _ {W : Type 0} where
  -- The trace has grown by commands of hooks.
  pub record Grown (cwd : Text) (s s' : W × List Event) : Type 0 where
    pub events : List Event
    pub adds : s'.1 ≡ s.1 ++ events
    pub hooks_only : HooksRan cwd events

  Grown-same : (cwd : Text) (s : W × List Event) → Grown cwd s s
  Grown-same cwd s = record { events = []; adds = sym (append-nil s.1); hooks_only = none_ran }

  Grown-over : {cwd : Text} {r s t : W × List Event} → Grown cwd r s → Grown cwd s t → Grown cwd r t
  Grown-over {r = r} g h = record {
    events = g.events ++ h.events;
    adds = h.adds ∙ ap (λ x. x ++ h.events) g.adds ∙ append_assoc r.1 g.events h.events;
    hooks_only = HooksRan-append g.hooks_only h.hooks_only;
  }

  pub run_hooks-Grown :
      (o : Outside W) (k : Hooking W) (phase : HookPhase) (ctx : HookContext) (s : W × List Event)
      → Grown ctx.cwd s (run_hooks (traced o) (traced_hooks k) phase ctx s).0
  unfolding run_hooks
  run_hooks-Grown o k phase ctx s =
      run_phase_quiet_each (Grown ctx.cwd) (Grown-same ctx.cwd) (λ _ _ _ g h. Grown-over g h)
        k.quote (traced_hooks k).exec (traced_hooks k).evaluate_when phase ctx
        (λ u command env. record {
          events = hook_ran command ctx.cwd ∷ [];
          adds = refl;
          hooks_only = then_ran none_ran;
        })
        k.hooks k.commands k.skips false s
