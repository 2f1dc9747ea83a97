-- ===== src/Confirm/Tests.antt =====
-- A countdown of three seconds.
use gwm_cli.Base.{ℕ, ◌+◌, ◌*◌, ◌≤◌, ◌≡◌, refl, some, List, [], ◌∷◌, arith, ltb, if◌then◌else◌}
use gwm_cli.Confirm.{
  ConfirmModal, new_modal, press_y, tick, pending, ready_to_fire, not_armed, remaining_secs,
  remaining_from, seconds_up, second, is_armed, is_some_instant,
}
use gwm_cli.Confirm.Laws.{Wait, tab_key, tick_at, wait, countdown_fires_once}

abbrev total : ℕ
total = 3 * second

abbrev waits : List Wait
waits = tab_key ∷ tick_at (1 * second) ∷ tick_at (2 * second) ∷ []

countdown_fires_once_example :
    let waited = wait total waits (press_y new_modal 5 total).0 in
    ((tick waited total total).1 ≡ (if ltb total (5 + total) then pending else ready_to_fire))
    × (5 + total ≤ total → (tick (tick waited total total).0 (4 * second) total).1 ≡ not_armed)
unfolding press_y new_modal is_armed is_some_instant
countdown_fires_once_example =
    countdown_fires_once total (omega arith) new_modal 5 waits total (4 * second) refl
      (omega arith, (omega arith, tt))

abbrev running : ConfirmModal
running = record new_modal { started_at = some 0 }

three_left : remaining_secs running 500 total ≡ 3
unfolding remaining_secs remaining_from seconds_up
three_left = refl
