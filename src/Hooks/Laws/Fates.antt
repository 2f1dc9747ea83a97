-- ===== src/Hooks/Laws/Fates.antt =====
-- What becomes of each step of a phase, told by what its command did.
use gwm_cli.Base.{
  ◌≡◌, refl, sym, Bool, true, false, not, List, [], ◌∷◌, ◌++◌, Option, none, some, Text, Bool-cases,
  inl, inr,
}
use mathlib.Core.Path.{subst}
use gwm_cli.Hooks.Phases.{HookPhase}
use gwm_cli.Hooks.Expanding.{HookContext, expand_shell, gwm_env}
use gwm_cli.Hooks.Running.{
  HookStep, HookOnFail, abort, warn, ignore, StepStatus, ok_step, skipped_step, warning_step,
  failed_step, StepResult, Exec, spawn_error, exited, PhaseEnd, outcome_of, expand_env,
  settle_failure, settle_step, run_step, perform, when_false, guarded, one_step, unless_ended,
  run_steps,
}

abbrev pub is_none : Option Text → Bool
is_none none = true
is_none (some e) = false

-- The command was not started, or exited with no success.
pub data Fails : Exec → Type 0 where
  not_started : {e : Text} → Fails (spawn_error e)
  no_success : {status out err : Text} → Fails (exited status false out err)

module _ {W : Type 0} (quote : Text → Text) (exec : W → Text → List (Text × Text) → Text → W × Exec)
    (evaluate_when : W → Text → Text → Bool) (ctx : HookContext) where
  -- The command of a step, run in the world `w`.
  abbrev pub command_run : W → HookStep → W × Exec
  command_run w step =
      exec w (expand_shell quote ctx step.run) (gwm_env ctx ++ expand_env quote ctx step.env)
        ctx.cwd

  -- The step has no condition, or one that holds in the world `w`.
  pub data Due (w : W) (step : HookStep) : Type 0 where
    always : step.condition ≡ none → Due w step
    met :
        {guard : Text}
        → step.condition ≡ some guard
        → evaluate_when w guard ctx.cwd ≡ true
        → Due w step

  -- What a step does in the world `w`: the world that it leaves, its status, and whether the phase
  -- ends with it.
  pub data Fate (w : W) (step : HookStep) : W → StepStatus → Bool → Type 0 where
    unmet :
        {guard : Text}
        → step.condition ≡ some guard
        → evaluate_when w guard ctx.cwd ≡ false
        → Fate w step w skipped_step false
    succeeded :
        {status out err : Text}
        → Due w step
        → (command_run w step).1 ≡ exited status true out err
        → Fate w step (command_run w step).0 ok_step false
    aborted :
        Due w step
        → Fails (command_run w step).1
        → step.on_fail ≡ abort
        → Fate w step (command_run w step).0 failed_step true
    warned :
        Due w step
        → Fails (command_run w step).1
        → step.on_fail ≡ warn
        → Fate w step (command_run w step).0 warning_step false
    ignored :
        Due w step
        → Fails (command_run w step).1
        → step.on_fail ≡ ignore
        → Fate w step (command_run w step).0 skipped_step false

  -- The steps one after the other, each in the world that the one before it left, with a line each,
  -- up to the one that ends the phase.
  pub data Ran : W → List HookStep → W → List StepResult → Bool → Type 0 where
    finished : {w : W} → Ran w [] w [] false
    passed :
        {w v u : W} {step : HookStep} {steps : List HookStep} {r : StepResult}
        {rs : List StepResult} {ended : Bool}
        → Fate w step v r.status false
        → Ran v steps u rs ended
        → Ran w (step ∷ steps) u (r ∷ rs) ended
    stopped :
        {w v : W} {step : HookStep} {steps : List HookStep} {r : StepResult}
        → Fate w step v r.status true
        → Ran w (step ∷ steps) v (r ∷ []) true

  module _ (phase : HookPhase) where
    -- The fate of a step is what its line and its error tell.
    abbrev Told : W → HookStep → W × (StepResult × Option Text) → Type 0
    Told w step (v, (r, e)) = Fate w step v r.status (not (is_none e))

    failed-Told :
        (w : W) (step : HookStep) (f : HookOnFail) (detail : Text)
        → Due w step
        → Fails (command_run w step).1
        → step.on_fail ≡ f
        → Told w step ((command_run w step).0, settle_failure f phase step detail)
    unfolding settle_failure
    failed-Told w step abort detail d x h = aborted d x h
    failed-Told w step warn detail d x h = warned d x h
    failed-Told w step ignore detail d x h = ignored d x h

    settled-Told :
        (w : W) (step : HookStep) (x : Exec)
        → Due w step
        → (command_run w step).1 ≡ x
        → Told w step ((command_run w step).0, settle_step phase step (outcome_of x))
    unfolding settle_step outcome_of
    settled-Told w step (spawn_error e) d h =
        failed-Told w step step.on_fail _ d (subst Fails (sym h) not_started) refl
    settled-Told w step (exited status true out err) d h = succeeded d h
    settled-Told w step (exited status false out err) d h =
        failed-Told w step step.on_fail _ d (subst Fails (sym h) no_success) refl

    perform-Told :
        (w : W) (step : HookStep)
        → Due w step
        → Told w step (perform quote exec evaluate_when phase ctx w step)
    unfolding perform run_step
    perform-Told w step d = settled-Told w step (command_run w step).1 d refl

    guarded-Told :
        (w : W) (step : HookStep) (c : Option Text)
        → step.condition ≡ c
        → Told w step (guarded quote exec evaluate_when c phase ctx w step)
    unfolding guarded when_false
    guarded-Told w step none h = perform-Told w step (always h)
    guarded-Told w step (some g) h = elim (Bool-cases (evaluate_when w g ctx.cwd)) [
      | inl e ↦ rw e (perform-Told w step (met h e))
      | inr e ↦ rw e (unmet h e)
    ]

    unless_ended-Ran :
        (w : W) (step : HookStep) (steps : List HookStep) (x : W × (StepResult × Option Text))
        (rest : W × PhaseEnd)
        → Told w step x
        → Ran x.0 steps rest.0 rest.1.report (not (is_none rest.1.error))
        → (let r = unless_ended quote exec evaluate_when x.0 x.1 rest in
            Ran w (step ∷ steps) r.0 r.1.report (not (is_none r.1.error)))
    unfolding unless_ended
    unless_ended-Ran w step steps (v, (r, some e)) rest h k = stopped h
    unless_ended-Ran w step steps (v, (r, none)) (u, end) h k = passed h k

    pub run_steps-Ran :
        (steps : List HookStep) (w : W)
        → (let r = run_steps quote exec evaluate_when phase ctx w steps in
            Ran w steps r.0 r.1.report (not (is_none r.1.error)))
    unfolding run_steps one_step
    run_steps-Ran [] w = finished
    run_steps-Ran (step ∷ steps) w =
        let done = guarded quote exec evaluate_when step.condition phase ctx w step in
        unless_ended-Ran w step steps done
          (run_steps quote exec evaluate_when phase ctx done.0 steps)
          (guarded-Told w step step.condition refl) (run_steps-Ran steps done.0)
