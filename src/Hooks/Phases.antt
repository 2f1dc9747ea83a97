-- ===== src/Hooks/Phases.antt =====
-- src/lifecycle.rs: the phases, and the phases to skip. A set of phases is a list.
use gwm_cli.Base.{
  Bool, false, ◌||◌, List, [], ◌∷◌, Option, none, some, if◌then◌else◌, is_empty, Text, text_eq,
  codes, split, trim, is_discrete_eq,
}
use native.Mathlib.Decide.{ℕ_discrete}

pub data HookPhase : Type 0 where
  pre_create post_create pre_bootstrap post_bootstrap pre_remove post_remove : HookPhase

unfoldable pub HookPhase-discrete : Discrete HookPhase
HookPhase-discrete = hlevel ℕ_discrete

unfoldable pub phase_eq : HookPhase → HookPhase → Bool
phase_eq = is_discrete_eq HookPhase-discrete

unfoldable pub phase_name : HookPhase → Text
phase_name pre_create = codes "pre_create"
phase_name post_create = codes "post_create"
phase_name pre_bootstrap = codes "pre_bootstrap"
phase_name post_bootstrap = codes "post_bootstrap"
phase_name pre_remove = codes "pre_remove"
phase_name post_remove = codes "post_remove"

unfoldable pub parse_phase : Text → Option HookPhase
parse_phase value =
    if text_eq value (codes "pre_create")
    then some pre_create
    else if text_eq value (codes "post_create")
    then some post_create
    else if text_eq value (codes "pre_bootstrap")
    then some pre_bootstrap
    else if text_eq value (codes "post_bootstrap")
    then some post_bootstrap
    else if text_eq value (codes "pre_remove")
    then some pre_remove
    else if text_eq value (codes "post_remove")
    then some post_remove
    else none

-- The phases to skip, or the part that names no phase.
pub data Skips : Type 0 where
  skips : List HookPhase → Skips
  unknown_phase : Text → Skips

abbrev with_phase : Text → Option HookPhase → Skips → Skips
with_phase part none rest = unknown_phase part
with_phase part (some p) (skips ps) = skips (p ∷ ps)
with_phase part (some p) (unknown_phase q) = unknown_phase q

unfoldable pub parse_skip_list : List Text → Skips
parse_skip_list [] = skips []
parse_skip_list (t ∷ ts) =
    let rest = parse_skip_list ts in
    let part = trim t in if is_empty part then rest else with_phase part (parse_phase part) rest

unfoldable pub parse_skips : Option Text → Skips
parse_skips none = skips []
parse_skips (some raw) = parse_skip_list (split b',' raw)

unfoldable pub skipped_in : HookPhase → List HookPhase → Bool
skipped_in p [] = false
skipped_in p (q ∷ qs) = phase_eq p q || skipped_in p qs
