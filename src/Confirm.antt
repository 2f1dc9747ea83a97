-- ===== src/Confirm.antt =====
-- src/tui/state/confirm.rs: the safety countdown of the confirmation modal.
-- An `Instant` is a number of nanoseconds on the monotonic clock, a `Duration` a number of
-- nanoseconds; `saturating_duration_since` and `saturating_sub` stop at 0. `progress`, a
-- floating-point ratio for the gauge, is left out.
pub mod Laws
mod Tests
use gwm_cli.Base.{
  ℕ, zero, suc, ◌+◌, ◌-◌, ◌/◌, ◌%◌, Bool, true, false, Option, none, some, ◌==◌, ltb, if◌then◌else◌,
}

pub data ConfirmKeyAction : Type 0 where
  fire_now armed disarmed : ConfirmKeyAction

pub data CountdownTickOutcome : Type 0 where
  not_armed pending ready_to_fire : CountdownTickOutcome

pub data ConfirmButton : Type 0 where
  confirm cancel : ConfirmButton

pub record ConfirmModal : Type 0 where
  pub focus : ConfirmButton
  pub started_at : Option ℕ

abbrev pub is_zero : ℕ → Bool
is_zero d = d == 0

unfoldable pub new_modal : ConfirmModal
new_modal = record { focus = cancel; started_at = none }

unfoldable pub reset : ConfirmModal → ConfirmModal
reset m = record m { started_at = none; focus = cancel }

unfoldable pub focused_button : ConfirmModal → ConfirmButton
focused_button m = m.focus

unfoldable pub focus_confirm : ConfirmModal → ConfirmModal
focus_confirm m = record m { focus = confirm }

unfoldable pub focus_cancel : ConfirmModal → ConfirmModal
focus_cancel m = record m { focus = cancel }

unfoldable pub other_button : ConfirmButton → ConfirmButton
other_button confirm = cancel
other_button cancel = confirm

unfoldable pub toggle_focus : ConfirmModal → ConfirmModal
toggle_focus m = record m { focus = other_button m.focus }

unfoldable pub is_some_instant : Option ℕ → Bool
is_some_instant none = false
is_some_instant (some _) = true

unfoldable pub is_armed : ConfirmModal → Bool
is_armed m = is_some_instant m.started_at

unfoldable pub press_y : ConfirmModal → ℕ → ℕ → ConfirmModal × ConfirmKeyAction
press_y m now total =
    if is_zero total
    then (record m { started_at = none }, fire_now)
    else if is_armed m
    then (record m { started_at = none }, disarmed)
    else (record m { started_at = some now }, armed)

unfoldable pub dismiss : ConfirmModal → ConfirmModal
dismiss m = record m { started_at = none }

unfoldable pub tick_from : ConfirmModal → Option ℕ → ℕ → ℕ → ConfirmModal × CountdownTickOutcome
tick_from m none now total = (m, not_armed)
tick_from m (some started) now total =
    if is_zero total
    then (record m { started_at = none }, not_armed)
    else if ltb (now - started) total
    then (m, pending)
    else (record m { started_at = none }, ready_to_fire)

unfoldable pub tick : ConfirmModal → ℕ → ℕ → ConfirmModal × CountdownTickOutcome
tick m now total = tick_from m m.started_at now total

abbrev pub second : ℕ
second = 1000000000

-- Whole seconds, rounded up: `as_secs` plus one for a remainder of nanoseconds.
unfoldable pub seconds_up : ℕ → ℕ
seconds_up remaining =
    if is_zero remaining
    then 0
    else (remaining / second) + (if ltb 0 (remaining % second) then 1 else 0)

unfoldable pub remaining_from : Option ℕ → ℕ → ℕ → ℕ
remaining_from none now total = 0
remaining_from (some started) now total =
    if is_zero total then 0 else seconds_up (total - (now - started))

unfoldable pub remaining_secs : ConfirmModal → ℕ → ℕ → ℕ
remaining_secs m now total = remaining_from m.started_at now total
