-- ===== src/CleanOverlay/Laws.antt =====
-- The picker keeps its choices and stays on one of them.
use gwm_cli.Base.{
  ℕ, zero, suc, ◌+◌, ◌-◌, ◌*◌, ◌%◌, ◌<◌, ◌≡◌, inl, inr, refl, ap, List, [], ◌∷◌, none, some, ◌==◌,
  ltb, if◌then◌else◌, arith, length, map, Text, Bool-cases, ==_iff,
}
use native.Mathlib.Nat.{mod_self, mod-lt, mod-eq_of_lt, add-mul-mod_self_left}
use gwm_cli.Confirm.{ConfirmModal}
use gwm_cli.CleanOverlay.{
  CleanOverlay, WorktreeReclaim, open_overlay, select_index, select_next, select_prev, set_scan,
}

-- What the keys and the scans do to an open overlay. `choose` is a key of the picker with its
-- re-scan on a change, as the event loop runs it.
pub data Op : Type 0 where
  next_op prev_op : Op
  index_op : ℕ → Op
  scan_op : WorktreeReclaim → List Text → Op
  confirm_op : ConfirmModal → Op

abbrev pub step : Op → CleanOverlay → CleanOverlay
step next_op o = (select_next o).0
step prev_op o = (select_prev o).0
step (index_op i) o = (select_index o i).0
step (scan_op r s) o = set_scan o r s
step (confirm_op m) o = record o { confirm = m }

abbrev pub run : List Op → CleanOverlay → CleanOverlay
run [] o = o
run (op ∷ ops) o = run ops (step op o)

-- What an open overlay keeps: its choices, its target, its configuration, its countdown's length.
record Keeps (first o : CleanOverlay) : Type 0 where
  pub choices : o.choices ≡ first.choices
  pub target : o.target ≡ first.target
  pub cfg : o.cfg ≡ first.cfg
  pub countdown_secs : o.countdown_secs ≡ first.countdown_secs
  pub selected : o.selected < length first.choices

step-Keeps :
    (first : CleanOverlay) (op : Op) (o : CleanOverlay) → Keeps first o → Keeps first (step op o)
unfolding select_next select_prev select_index set_scan
step-Keeps first next_op o k = ground arith
step-Keeps first prev_op o k = ground arith
step-Keeps first (index_op i) o k = ground arith
step-Keeps first (scan_op r s) o k = ground arith
step-Keeps first (confirm_op m) o k = ground arith

run-Keeps :
    (first : CleanOverlay) (ops : List Op) (o : CleanOverlay)
    → Keeps first o
    → Keeps first (run ops o)
run-Keeps first [] o k = k
run-Keeps first (op ∷ ops) o k = run-Keeps first ops (step op o) (step-Keeps first op o k)

-- Whatever keys and scans follow its opening, the overlay still has the target, the configuration
-- and the choices of the opening, the implicit default first, and its highlight is on a choice.
pub run-open_overlay :
    (o : CleanOverlay) (profiles : List Text) (name path : Text) (ops : List Op)
    → let now = run ops (open_overlay o profiles name path) in
      (now.target ≡ some (name, path))
      × (now.cfg ≡ o.cfg)
      × (now.countdown_secs ≡ o.countdown_secs)
      × (now.choices ≡ none ∷ map some profiles)
      × (now.selected < length now.choices)
unfolding open_overlay
run-open_overlay o profiles name path ops =
    let first = open_overlay o profiles name path in
    let k = run-Keeps first ops first (record {
      choices = refl;
      target = refl;
      cfg = refl;
      countdown_secs = refl;
      selected = omega arith;
    }) in
    (k.target, k.cfg, k.countdown_secs, k.choices, rw k.choices k.selected)

step_up : (s n : ℕ) → s < n → (s + 1) % n ≡ (if s + 1 == n then 0 else s + 1)
step_up s n h = elim (Bool-cases (s + 1 == n)) [
  | inl e ↦ ground (arith, mod_self n, ap (λ k. k % n) ((==_iff (s + 1) n).0 e))
  | inr e ↦ ground (arith, mod-eq_of_lt {n = s + 1} {m = n} (ground arith))
]

step_down : (s n : ℕ) → s < n → (s + n - 1) % n ≡ (if s == 0 then n - 1 else s - 1)
step_down zero n h = ground (arith, mod-eq_of_lt {n = n - 1} {m = n} (omega arith))
step_down (suc s) n h =
    let e : suc s + n - 1 ≡ s + n * 1 = omega arith in
    ground (
      arith,
      ap (λ k. k % n) e,
      add-mul-mod_self_left s n 1,
      mod-eq_of_lt {n = s} {m = n} (omega arith),
    )

next_prev : (s n : ℕ) → s < n → ((s + 1) % n + n - 1) % n ≡ s
next_prev s n h =
    ground (arith, step_up s n h, step_down ((s + 1) % n) n (mod-lt (s + 1) (omega arith)))

prev_next : (s n : ℕ) → s < n → ((s + n - 1) % n + 1) % n ≡ s
prev_next s n h =
    ground (arith, step_down s n h, step_up ((s + n - 1) % n) n (mod-lt (s + n - 1) (omega arith)))

-- The highlight after a key, where there are two choices or more; the choices are as before.
next_moves :
    (o : CleanOverlay)
    → ((select_next o).0.choices ≡ o.choices)
      × ((select_next o).0.selected
          ≡ (if ltb (length o.choices) 2 then o.selected else (o.selected + 1) % length o.choices))
unfolding select_next
next_moves o = ground arith

prev_moves :
    (o : CleanOverlay)
    → ((select_prev o).0.choices ≡ o.choices)
      × ((select_prev o).0.selected ≡ (
          if ltb (length o.choices) 2
          then o.selected
          else (o.selected + length o.choices - 1) % length o.choices))
unfolding select_prev
prev_moves o = ground arith

-- Down then up, and up then down, lead back to the same choice.
pub select_next-prev :
    (o : CleanOverlay)
    → o.selected < length o.choices
    → ((select_prev (select_next o).0).0.selected ≡ o.selected)
      × ((select_next (select_prev o).0).0.selected ≡ o.selected)
select_next-prev o h =
    let n = next_moves o in
    let p = prev_moves o in
    (
      rw ((prev_moves (select_next o).0).1, n.0, n.1)
          (ground (arith, next_prev o.selected (length o.choices) h)),
      rw ((next_moves (select_prev o).0).1, p.0, p.1)
          (ground (arith, prev_next o.selected (length o.choices) h)),
    )
