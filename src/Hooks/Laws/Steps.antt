-- ===== src/Hooks/Laws/Steps.antt =====
-- A phase runs its steps in order, up to the first that aborts it.
use gwm_cli.Base.{
  ◌≡◌, refl, ap, Bool, true, false, not, ◌&&◌, List, [], ◌∷◌, ◌++◌, Option, none, some, arith,
  if◌then◌else◌, map, take, length, all, Text,
}
use gwm_cli.Trust.Gate.{LifecycleHooksConfig}
use gwm_cli.Hooks.Phases.{HookPhase, skipped_in}
use gwm_cli.Hooks.Expanding.{HookContext}
use gwm_cli.Hooks.Laws.Fates.{is_none, Ran, run_steps-Ran}
use gwm_cli.Hooks.Running.{
  HookStep, HookOnFail, abort, warn, ignore, StepStatus, failed_step, StepResult, Exec, StepOutcome,
  output, failure, PhaseEnd, step_label, settle_failure, settle_step, guarded, run_step, perform,
  when_false, one_step, unless_ended, push_report, run_steps, CommandStep, steps_of,
  run_phase_quiet,
}

abbrev pub is_failed : StepStatus → Bool
is_failed failed_step = true
is_failed _ = false

-- The lines of a phase that was not aborted, or of one that its last step aborted.
abbrev pub ends_well : Option Text → List StepResult → Bool
ends_well none rs = all (λ r. not (is_failed r.status)) rs
ends_well (some e) [] = false
ends_well (some e) (r ∷ []) = is_failed r.status
ends_well (some e) (r ∷ r' ∷ rs) = not (is_failed r.status) && ends_well (some e) (r' ∷ rs)

-- The report of the steps of a phase: a line for each step that was reached, in order; with no
-- error all were reached and none failed, with one the last line is the one that failed.
pub record Reported (phase : HookPhase) (steps : List HookStep) (e : PhaseEnd) : Type 0 where
  pub labels : map (λ r. r.label) e.report ≡ take (length e.report) (map (step_label phase) steps)
  pub reached : (if is_none e.error then length e.report else length steps) ≡ length steps
  pub statuses : ends_well e.error e.report ≡ true

-- The line of a step, and whether it is the one that failed.
record Line (phase : HookPhase) (step : HookStep) (x : StepResult × Option Text) : Type 0 where
  same_label : x.0.label ≡ step_label phase step
  failed_iff : is_failed x.0.status ≡ not (is_none x.1)

settle_failure-Line :
    (o : HookOnFail) (phase : HookPhase) (step : HookStep) (detail : Text)
    → Line phase step (settle_failure o phase step detail)
unfolding settle_failure
settle_failure-Line abort phase step detail = record { same_label = refl; failed_iff = refl }
settle_failure-Line warn phase step detail = record { same_label = refl; failed_iff = refl }
settle_failure-Line ignore phase step detail = record { same_label = refl; failed_iff = refl }

settle_step-Line :
    (phase : HookPhase) (step : HookStep) (out : StepOutcome)
    → Line phase step (settle_step phase step out)
unfolding settle_step
settle_step-Line phase step (output out) = record { same_label = refl; failed_iff = refl }
settle_step-Line phase step (failure detail) = settle_failure-Line step.on_fail phase step detail

module _ {W : Type 0} (quote : Text → Text) (exec : W → Text → List (Text × Text) → Text → W × Exec)
    (evaluate_when : W → Text → Text → Bool) (phase : HookPhase) (ctx : HookContext) where
  perform-Line :
      (w : W) (step : HookStep)
      → Line phase step (perform quote exec evaluate_when phase ctx w step).1
  unfolding perform
  perform-Line w step = settle_step-Line phase step (run_step quote exec evaluate_when w step ctx).1

  if-Line :
      (b : Bool) (step : HookStep) (x y : W × (StepResult × Option Text))
      → Line phase step x.1
      → Line phase step y.1
      → Line phase step (if b then x else y).1
  if-Line true step x y l k = l
  if-Line false step x y l k = k

  guarded-Line :
      (c : Option Text) (w : W) (step : HookStep)
      → Line phase step (guarded quote exec evaluate_when c phase ctx w step).1
  unfolding guarded when_false
  guarded-Line none w step = perform-Line w step
  guarded-Line (some g) w step =
      if-Line (evaluate_when w g ctx.cwd) step (perform quote exec evaluate_when phase ctx w step)
        (w, when_false quote exec evaluate_when phase step g) (perform-Line w step)
        (record { same_label = refl; failed_iff = refl })

  one_step-Line :
      (w : W) (step : HookStep)
      → Line phase step (one_step quote exec evaluate_when phase ctx w step).1
  unfolding one_step
  one_step-Line w step = guarded-Line step.condition w step

  ends_well-cons :
      (e : Option Text) (r : StepResult) (rs : List StepResult)
      → is_failed r.status ≡ false
      → ends_well e rs ≡ true
      → ends_well e (r ∷ rs) ≡ true
  ends_well-cons none r rs n h = ground (arith, n, h)
  ends_well-cons (some e) r [] n h = absurd (ground (arith, h))
  ends_well-cons (some e) r (r' ∷ rs) n h = ground (arith, n, h)

  unless_ended-Reported :
      (w : W) (step : HookStep) (steps : List HookStep) (x : StepResult × Option Text)
      (rest : W × PhaseEnd)
      → Line phase step x
      → Reported phase steps rest.1
      → Reported phase (step ∷ steps) (unless_ended quote exec evaluate_when w x rest).1
  unfolding unless_ended
  unless_ended-Reported w step steps (r, some e) rest l h = record {
    labels = rw l.same_label refl;
    reached = refl;
    statuses = l.failed_iff;
  }
  unless_ended-Reported w step steps (r, none) (w', end) l h = record {
    labels = rw (l.same_label, h.labels) refl;
    reached = ground (arith, h.reached);
    statuses = ends_well-cons end.error r end.report l.failed_iff h.statuses;
  }

  run_steps-Reported :
      (steps : List HookStep) (w : W)
      → Reported phase steps (run_steps quote exec evaluate_when phase ctx w steps).1
  unfolding run_steps
  run_steps-Reported [] w = record { labels = refl; reached = refl; statuses = refl }
  run_steps-Reported (step ∷ steps) w =
      let done = one_step quote exec evaluate_when phase ctx w step in
      unless_ended-Reported done.0 step steps done.1
        (run_steps quote exec evaluate_when phase ctx done.0 steps) (one_step-Line w step)
        (run_steps-Reported steps done.0)

  -- A phase that is not skipped reports a line for each step that it reached, in the order of the
  -- steps. A step whose condition does not hold runs nothing and is skipped; any other runs its
  -- command in the world that the steps before it left, and its line is ok exactly if the command
  -- exited with success: else it is a failure, a warning or skipped, as on_fail says. Only a
  -- failure under abort ends the phase, with an error; with no error all steps were reached.
  pub run_phase_quiet-Reported :
      (hooks : LifecycleHooksConfig HookStep) (commands : List CommandStep) (skips : List HookPhase)
      (include_legacy : Bool) (w : W)
      → skipped_in phase skips ≡ false
      → (let steps = steps_of quote exec evaluate_when hooks commands phase include_legacy in
          let r =
            run_phase_quiet quote exec evaluate_when hooks commands phase ctx skips include_legacy
              w in
          Reported phase steps r.1
          × Ran quote exec evaluate_when ctx w steps r.0 r.1.report (not (is_none r.1.error)))
  unfolding run_phase_quiet
  run_phase_quiet-Reported hooks commands skips include_legacy w n =
      let steps = steps_of quote exec evaluate_when hooks commands phase include_legacy in
      rw (run_phase_quiet, n)
        (run_steps-Reported steps w, run_steps-Ran quote exec evaluate_when ctx phase steps w)

  unless_ended-stops :
      (w : W) (x : StepResult × Option Text) (short long : W × PhaseEnd) {e : Text}
      → (unless_ended quote exec evaluate_when w x short).1.error ≡ some e
      → (short.1.error ≡ some e → long ≡ short)
      → unless_ended quote exec evaluate_when w x long
        ≡ unless_ended quote exec evaluate_when w x short
  unfolding unless_ended
  unless_ended-stops w (r, some e) short long h k = refl
  unless_ended-stops w (r, none) short long h k = ap (push_report quote exec evaluate_when r) (k h)

  -- Steps behind one that aborts the phase do nothing: neither the report nor the world differs
  -- from a phase without them.
  pub run_steps-append :
      (steps later : List HookStep) (w : W) {e : Text}
      → (run_steps quote exec evaluate_when phase ctx w steps).1.error ≡ some e
      → run_steps quote exec evaluate_when phase ctx w (steps ++ later)
        ≡ run_steps quote exec evaluate_when phase ctx w steps
  unfolding run_steps
  run_steps-append [] later w h = absurd (ground (arith, h))
  run_steps-append (step ∷ steps) later w h =
      let done = one_step quote exec evaluate_when phase ctx w step in
      unless_ended-stops done.0 done.1 (run_steps quote exec evaluate_when phase ctx done.0 steps)
        (run_steps quote exec evaluate_when phase ctx done.0 (steps ++ later)) h
        (λ h'. run_steps-append steps later done.0 h')
