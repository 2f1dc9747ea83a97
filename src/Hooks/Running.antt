-- ===== src/Hooks/Running.antt =====
-- src/lifecycle.rs: the steps of a phase, one after the other. `W` is the world that the commands
-- change; running a command and evaluating a condition in it are parameters.
use gwm_cli.Base.{
  ℕ, ◌-◌, Bool, true, false, ◌&&◌, List, [], ◌∷◌, ◌++◌, Option, none, some, if◌then◌else◌, map,
  drop, length, is_empty, Text, codes, text_lines, join, trim,
}
use gwm_cli.Trust.Gate.{LifecycleHooksConfig}
use gwm_cli.Hooks.Phases.{
  HookPhase, pre_create, post_create, pre_bootstrap, post_bootstrap, pre_remove, post_remove,
  phase_name, phase_eq, skipped_in,
}
use gwm_cli.Hooks.Expanding.{HookContext, expand_shell, expand_placeholders, gwm_env}

pub data HookOnFail : Type 0 where
  abort warn ignore : HookOnFail

pub record HookStep : Type 0 where
  pub name : Text
  pub run : Text
  pub condition : Option Text
  pub env : List (Text × Text)
  pub on_fail : HookOnFail

pub record CommandStep : Type 0 where
  pub name : Text
  pub run : Text
  pub condition : Option Text
  pub env : List (Text × Text)

unfoldable pub from_command : CommandStep → HookStep
from_command step = record {
  name = step.name;
  run = step.run;
  condition = step.condition;
  env = step.env;
  on_fail = abort;
}

pub data StepStatus : Type 0 where
  ok_step skipped_step warning_step failed_step : StepStatus

pub record StepResult : Type 0 where
  pub label : Text
  pub status : StepStatus
  pub detail : Text

-- A command that was not started, or its exit with both outputs.
pub data Exec : Type 0 where
  spawn_error : Text → Exec
  exited : (status : Text) (success : Bool) (stdout stderr : Text) → Exec

pub data StepOutcome : Type 0 where
  output failure : Text → StepOutcome

-- The report of a phase, with the error of one that aborted.
pub record PhaseEnd : Type 0 where
  pub report : List StepResult
  pub error : Option Text

unfoldable pub steps_for : LifecycleHooksConfig HookStep → HookPhase → List HookStep
steps_for hooks pre_create = hooks.pre_create
steps_for hooks post_create = hooks.post_create
steps_for hooks pre_bootstrap = hooks.pre_bootstrap
steps_for hooks post_bootstrap = hooks.post_bootstrap
steps_for hooks pre_remove = hooks.pre_remove
steps_for hooks post_remove = hooks.post_remove

unfoldable pub has_steps : LifecycleHooksConfig HookStep → HookPhase → Bool
has_steps hooks phase = elim (is_empty (steps_for hooks phase)) [ true ↦ false | false ↦ true ]

unfoldable pub trailing_lines : Text → ℕ → Text
trailing_lines s n = let lines = text_lines s in join (codes "\n") (drop (length lines - n) lines)

unfoldable pub outcome_of : Exec → StepOutcome
outcome_of (spawn_error e) = failure (codes "failed to spawn: " ++ e)
outcome_of (exited status success stdout stderr) =
    let detail = if is_empty stdout then stderr else stdout in
    if success
    then output detail
    else failure (trim (codes "exited with " ++ (status ++ (codes "\n" ++ detail))))

unfoldable pub step_label : HookPhase → HookStep → Text
step_label phase step = codes "[" ++ (phase_name phase ++ (codes "] " ++ step.name))

unfoldable pub expand_env : (Text → Text) → HookContext → List (Text × Text) → List (Text × Text)
expand_env quote ctx [] = []
expand_env quote ctx ((key, value) ∷ env) =
    (key, expand_placeholders quote ctx value) ∷ expand_env quote ctx env

unfoldable pub abort_error : HookPhase → HookStep → Text → Text
abort_error phase step detail =
    codes "hook "
    ++ (phase_name phase ++ (codes " '" ++ (step.name ++ (codes "' failed: " ++ detail))))

-- What a step that failed leaves: the report's line, and the error if the phase ends here.
unfoldable pub settle_failure : HookOnFail → HookPhase → HookStep → Text → StepResult × Option Text
settle_failure abort phase step detail = (
  record { label = step_label phase step; status = failed_step; detail = detail },
  some (abort_error phase step detail),
)
settle_failure warn phase step detail =
    (record { label = step_label phase step; status = warning_step; detail = detail }, none)
settle_failure ignore phase step detail = (
  record {
    label = step_label phase step;
    status = skipped_step;
    detail = codes "ignored failure: " ++ detail;
  },
  none,
)

unfoldable pub settle_step : HookPhase → HookStep → StepOutcome → StepResult × Option Text
settle_step phase step (output out) = (
  record { label = step_label phase step; status = ok_step; detail = trailing_lines out 3 },
  none,
)
settle_step phase step (failure detail) = settle_failure step.on_fail phase step detail

module _ {W : Type 0} (quote : Text → Text) (exec : W → Text → List (Text × Text) → Text → W × Exec)
    (evaluate_when : W → Text → Text → Bool) where
  -- The step's own variables come behind the exported ones, so they win.
  unfoldable pub run_step : W → HookStep → HookContext → W × StepOutcome
  run_step w step ctx =
      let done =
        exec w (expand_shell quote ctx step.run) (gwm_env ctx ++ expand_env quote ctx step.env)
          ctx.cwd in
      (done.0, outcome_of done.1)

  unfoldable pub perform : HookPhase → HookContext → W → HookStep → W × (StepResult × Option Text)
  perform phase ctx w step =
      let done = run_step w step ctx in (done.0, settle_step phase step done.1)

  unfoldable pub when_false : HookPhase → HookStep → Text → StepResult × Option Text
  when_false phase step guard = (
    record {
      label = step_label phase step;
      status = skipped_step;
      detail = codes "when condition '" ++ (guard ++ codes "' false");
    },
    none,
  )

  unfoldable pub guarded :
      Option Text → HookPhase → HookContext → W → HookStep → W × (StepResult × Option Text)
  guarded none phase ctx w step = perform phase ctx w step
  guarded (some guard) phase ctx w step =
      if evaluate_when w guard ctx.cwd
      then perform phase ctx w step
      else (w, when_false phase step guard)

  unfoldable pub one_step : HookPhase → HookContext → W → HookStep → W × (StepResult × Option Text)
  one_step phase ctx w step = guarded step.condition phase ctx w step

  abbrev pub push_report : StepResult → W × PhaseEnd → W × PhaseEnd
  push_report r (w, end) = (w, record end { report = r ∷ end.report })

  -- An error ends the phase, whatever the later steps would do.
  unfoldable pub unless_ended : W → StepResult × Option Text → W × PhaseEnd → W × PhaseEnd
  unless_ended w (r, some e) rest = (w, record { report = r ∷ []; error = some e })
  unless_ended w (r, none) rest = push_report r rest

  unfoldable pub run_steps : HookPhase → HookContext → W → List HookStep → W × PhaseEnd
  run_steps phase ctx w [] = (w, record { report = []; error = none })
  run_steps phase ctx w (step ∷ steps) =
      let done = one_step phase ctx w step in
      let rest = run_steps phase ctx done.0 steps in unless_ended done.0 done.1 rest

  unfoldable pub steps_of :
      LifecycleHooksConfig HookStep → List CommandStep → HookPhase → Bool → List HookStep
  steps_of hooks commands phase include_legacy =
      if phase_eq phase post_create && include_legacy
      then steps_for hooks phase ++ map from_command commands
      else steps_for hooks phase

  unfoldable pub run_phase_quiet :
      LifecycleHooksConfig HookStep
      → List CommandStep
      → HookPhase
      → HookContext
      → List HookPhase
      → Bool
      → W
      → W × PhaseEnd
  run_phase_quiet hooks commands phase ctx skips include_legacy w =
      if skipped_in phase skips
      then (
        w,
        record {
          report =
              record {
                label = codes "[" ++ (phase_name phase ++ codes "] hooks");
                status = skipped_step;
                detail = codes "skipped by --skip-hooks";
              }
              ∷ [];
          error = none;
        },
      )
      else run_steps phase ctx w (steps_of hooks commands phase include_legacy)
