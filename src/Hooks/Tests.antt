-- ===== src/Hooks/Tests.antt =====
-- The hooks at small configurations.
use gwm_cli.Base.{
  not, ℕ, suc, ◌≡◌, refl, Bool, true, false, List, [], ◌∷◌, ◌++◌, none, some, Text, codes, text_eq,
  is_whitespace, split, is_discrete_eq,
}
use gwm_cli.Trust.Gate.{LifecycleHooksConfig}
use gwm_cli.Hooks.Phases.{
  pre_remove, post_remove, HookPhase-discrete, phase_eq, skipped_in, skips, parse_skips,
  parse_skip_list, parse_phase,
}
use gwm_cli.Hooks.Expanding.{HookContext, expand}
use gwm_cli.Hooks.Running.{HookStep, abort, Exec, exited, steps_of, run_phase_quiet}
use gwm_cli.Hooks.Laws.Pieces.{Piece, literal, braces, template_of, meanings, expand-pieces}
use gwm_cli.Hooks.Laws.Fates.{is_none, Ran}
use gwm_cli.Hooks.Laws.Steps.{Reported, run_phase_quiet-Reported}

abbrev ctx : HookContext
ctx = record {
  main_repo = codes "/r";
  cwd = codes "/r/w";
  path = codes "/r/w";
  branch = codes "spike-{issue}";
  branch_type = [];
  issue = codes "7";
  desc = [];
  user = [];
  owner = [];
  repo = codes "r";
}

abbrev in_quotes : Text → Text
in_quotes t = codes "'" ++ (t ++ codes "'")

abbrev pieces : List Piece
pieces =
    literal (codes "run ")
    ∷ braces (codes "branch")
    ∷ literal (codes " }")
    ∷ braces (codes "x")
    ∷ []

expand-pieces_example :
    expand in_quotes ctx true (template_of pieces) ≡ meanings in_quotes ctx true pieces
expand-pieces_example = expand-pieces in_quotes ctx true pieces refl

-- The world counts the commands that ran; each of them fails.
abbrev fails : ℕ → Text → List (Text × Text) → Text → ℕ × Exec
fails w script env cwd = (suc w, exited (codes "1") false [] (codes "no"))

abbrev never : ℕ → Text → Text → Bool
never w guard cwd = false

abbrev step_named : Text → HookStep
step_named n = record { name = n; run = codes "x"; condition = none; env = []; on_fail = abort }

abbrev two_steps : LifecycleHooksConfig HookStep
two_steps = record {
  pre_create = [];
  post_create = [];
  pre_bootstrap = [];
  post_bootstrap = [];
  pre_remove = step_named (codes "a") ∷ step_named (codes "b") ∷ [];
  post_remove = [];
}

run_phase_quiet-Reported_example :
    let steps = steps_of in_quotes fails never two_steps [] pre_remove true in
    let r =
      run_phase_quiet in_quotes fails never two_steps [] pre_remove ctx (post_remove ∷ []) true 0 in
    Reported pre_remove steps r.1
    × Ran in_quotes fails never ctx 0 steps r.0 r.1.report (not (is_none r.1.error))
unfolding skipped_in phase_eq HookPhase-discrete is_discrete_eq
run_phase_quiet-Reported_example =
    run_phase_quiet-Reported in_quotes fails never pre_remove ctx two_steps [] (post_remove ∷ [])
      true 0 refl

two_skips :
    parse_skips (some (codes "pre_remove, post_remove,")) ≡ skips (pre_remove ∷ post_remove ∷ [])
unfolding parse_skips parse_skip_list parse_phase split text_eq is_whitespace
two_skips = refl
