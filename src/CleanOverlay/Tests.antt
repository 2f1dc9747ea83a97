-- ===== src/CleanOverlay/Tests.antt =====
-- A picker with two profiles.
use gwm_cli.Base.{◌≡◌, ◌<◌, refl, none, some, List, [], ◌∷◌, codes, length, map}
use gwm_cli.Confirm.{new_modal}
use gwm_cli.CleanOverlay.{
  CleanOverlay, WorktreeReclaim, open_overlay, choice_labels, label_of, default_choice_label,
}
use gwm_cli.CleanOverlay.Laws.{Op, next_op, prev_op, index_op, scan_op, run, run-open_overlay}

abbrev fresh : CleanOverlay
fresh = record {
  choices = [];
  selected = 0;
  target = none;
  reclaim = none;
  skipped = [];
  confirm = new_modal;
  cfg = record { profiles = (codes "node", codes "node_modules" ∷ []) ∷ [] };
  countdown_secs = 3;
}

abbrev scan : WorktreeReclaim
scan = record { name = codes "feat"; path = codes "/w/feat"; artifacts = []; total_bytes = 12 }

abbrev ops : List Op
ops = next_op ∷ scan_op scan [] ∷ prev_op ∷ prev_op ∷ index_op 9 ∷ []

run-open_overlay_example :
    let now =
      run ops (open_overlay fresh (codes "node" ∷ codes "rust" ∷ []) (codes "feat") (codes "/w")) in
    (now.target ≡ some (codes "feat", codes "/w"))
    × (now.cfg ≡ fresh.cfg)
    × (now.countdown_secs ≡ fresh.countdown_secs)
    × (now.choices ≡ none ∷ map some (codes "node" ∷ codes "rust" ∷ []))
    × (now.selected < length now.choices)
run-open_overlay_example =
    run-open_overlay fresh (codes "node" ∷ codes "rust" ∷ []) (codes "feat") (codes "/w") ops

abbrev picking : CleanOverlay
picking = record fresh { choices = none ∷ some (codes "node") ∷ some (codes "rust") ∷ [] }

labels : choice_labels picking ≡ codes "(default)" ∷ codes "node" ∷ codes "rust" ∷ []
unfolding choice_labels label_of default_choice_label
labels = refl
