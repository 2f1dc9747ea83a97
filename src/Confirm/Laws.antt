-- ===== src/Confirm/Laws.antt =====
-- The countdown fires once, when its time is over, and shows the seconds that are left.
use gwm_cli.Base.{
  ℕ, ◌+◌, ◌-◌, ◌*◌, ◌≤◌, ◌<◌, ◌≡◌, ◌≢◌, ◌↔◌, List, [], ◌∷◌, some, ltb, if◌then◌else◌, arith,
}
use gwm_cli.Confirm.{
  ConfirmModal, armed, not_armed, pending, ready_to_fire, focus_confirm, focus_cancel, toggle_focus,
  press_y, tick, tick_from, remaining_secs, remaining_from, seconds_up, second,
}

-- What happens to a modal between the keystroke and the tick: the keys that move the focus, and
-- ticks. None of them disarms it before its time.
pub data Wait : Type 0 where
  left_key right_key tab_key : Wait
  tick_at : ℕ → Wait

abbrev wait_step : ℕ → Wait → ConfirmModal → ConfirmModal
wait_step total left_key m = focus_confirm m
wait_step total right_key m = focus_cancel m
wait_step total tab_key m = toggle_focus m
wait_step total (tick_at now) m = (tick m now total).0

abbrev pub wait : ℕ → List Wait → ConfirmModal → ConfirmModal
wait total [] m = m
wait total (w ∷ ws) m = wait total ws (wait_step total w m)

-- No tick of the wait comes at or after the deadline.
abbrev pub Before : ℕ → List Wait → Type 0
Before deadline [] = Unit
Before deadline (tick_at now ∷ ws) = (now < deadline) × Before deadline ws
Before deadline (_ ∷ ws) = Before deadline ws

module _ (total : ℕ) (positive : 0 < total) where
  wait_step-started :
      (w : Wait) (ws : List Wait) (m : ConfirmModal) (t : ℕ)
      → m.started_at ≡ some t
      → Before (t + total) (w ∷ ws)
      → (wait_step total w m).started_at ≡ some t
  unfolding focus_confirm focus_cancel toggle_focus tick tick_from
  wait_step-started left_key ws m t h b = h
  wait_step-started right_key ws m t h b = h
  wait_step-started tab_key ws m t h b = h
  wait_step-started (tick_at now) ws m t h b = rw h (ground arith)

  Before-tail : (w : Wait) (ws : List Wait) (d : ℕ) → Before d (w ∷ ws) → Before d ws
  Before-tail left_key ws d b = b
  Before-tail right_key ws d b = b
  Before-tail tab_key ws d b = b
  Before-tail (tick_at now) ws d b = b.1

  wait-started :
      (ws : List Wait) (m : ConfirmModal) (t : ℕ)
      → m.started_at ≡ some t
      → Before (t + total) ws
      → (wait total ws m).started_at ≡ some t
  wait-started [] m t h b = h
  wait-started (w ∷ ws) m t h b =
      wait-started ws (wait_step total w m) t (wait_step-started w ws m t h b)
        (Before-tail w ws (t + total) b)

  press_y-started :
      (m : ConfirmModal) (t : ℕ)
      → (press_y m t total).1 ≡ armed
      → (press_y m t total).0.started_at ≡ some t
  unfolding press_y
  press_y-started m t h = ground arith

  tick_once :
      (m : ConfirmModal) (t now later : ℕ)
      → m.started_at ≡ some t
      → ((tick m now total).1 ≡ (if ltb now (t + total) then pending else ready_to_fire))
        × (t + total ≤ now → (tick (tick m now total).0 later total).1 ≡ not_armed)
  unfolding tick tick_from
  tick_once m t now later h = rw h (ground arith)

  -- A keystroke that arms the countdown at time `t` fixes when it fires: after any keys that move
  -- the focus and any ticks before `t + total`, a tick is pending before `t + total`, and from then
  -- on it fires; the tick after that one finds the modal not armed.
  pub countdown_fires_once :
      (m : ConfirmModal) (t : ℕ) (ws : List Wait) (now later : ℕ)
      → (press_y m t total).1 ≡ armed
      → Before (t + total) ws
      → let waited = wait total ws (press_y m t total).0 in
        ((tick waited now total).1 ≡ (if ltb now (t + total) then pending else ready_to_fire))
        × (t + total ≤ now → (tick (tick waited now total).0 later total).1 ≡ not_armed)
  countdown_fires_once m t ws now later h b =
      tick_once (wait total ws (press_y m t total).0) t now later
        (wait-started ws (press_y m t total).0 t (press_y-started m t h) b)

seconds_up_ceil : (d : ℕ) → (d ≤ seconds_up d * second) × (seconds_up d * second < d + second)
unfolding seconds_up
seconds_up_ceil d = ground arith

-- An armed countdown shows the least number of whole seconds that cover what is left of it, and 0
-- exactly when a tick would not find it pending.
pub remaining_secs_ceil :
    (m : ConfirmModal) (t now total : ℕ)
    → m.started_at ≡ some t
    → (total - (now - t) ≤ remaining_secs m now total * second)
      × (remaining_secs m now total * second < total - (now - t) + second)
      × ((remaining_secs m now total ≡ 0) ↔ ((tick m now total).1 ≢ pending))
unfolding remaining_secs remaining_from tick tick_from
remaining_secs_ceil m t now total h = rw h (ground (arith, seconds_up_ceil (total - (now - t))))
