-- ===== src/CleanOverlay.antt =====
-- src/tui/state/clean_overlay.rs: the profile picker and the scan of the clean overlay.
-- A snapshot of a scan is the `WorktreeReclaim` of src/clean.rs, the configuration the
-- `CleanConfig` of src/config.rs; a path is its text.
pub mod Laws
mod Tests
use gwm_cli.Base.{
  ℕ, zero, suc, ◌+◌, ◌-◌, ◌%◌, Bool, true, false, ◌||◌, List, [], ◌∷◌, Option, none, some, ◌==◌,
  leb, ltb, if◌then◌else◌, length, get_elem?, map, Text, codes,
}
use gwm_cli.Confirm.{ConfirmModal, reset}

unfoldable pub default_choice_label : Text
default_choice_label = codes "(default)"

pub record Artifact : Type 0 where
  pub rel : Text
  pub bytes : ℕ

pub record WorktreeReclaim : Type 0 where
  pub name : Text
  pub path : Text
  pub artifacts : List Artifact
  pub total_bytes : ℕ

-- A profile is the set of its directory names.
pub record CleanConfig : Type 0 where
  pub profiles : List (Text × List Text)

pub record CleanOverlay : Type 0 where
  pub choices : List (Option Text)
  pub selected : ℕ
  pub target : Option (Text × Text)
  pub reclaim : Option WorktreeReclaim
  pub skipped : List Text
  pub confirm : ConfirmModal
  pub cfg : CleanConfig
  pub countdown_secs : ℕ

unfoldable pub capture_context : CleanOverlay → CleanConfig → ℕ → CleanOverlay
capture_context o cfg secs = record o { cfg = cfg; countdown_secs = secs }

unfoldable pub open_overlay : CleanOverlay → List Text → Text → Text → CleanOverlay
open_overlay o profiles name path = record o {
  choices = none ∷ map some profiles;
  selected = 0;
  target = some (name, path);
  reclaim = none;
  skipped = [];
  confirm = reset o.confirm;
}

unfoldable pub label_of : Option Text → Text
label_of none = default_choice_label
label_of (some name) = name

unfoldable pub choice_labels : CleanOverlay → List Text
choice_labels o = map label_of o.choices

unfoldable pub has_profiles : CleanOverlay → Bool
has_profiles o = ltb 1 (length o.choices)

unfoldable pub profile_at : Option (Option Text) → Option Text
profile_at none = none
profile_at (some choice) = choice

unfoldable pub selected_profile : CleanOverlay → Option Text
selected_profile o = profile_at (get_elem? o.choices o.selected)

-- The flag tells whether the choice changed.
unfoldable pub select_index : CleanOverlay → ℕ → CleanOverlay × Bool
select_index o index =
    if leb (length o.choices) index || (index == o.selected)
    then (o, false)
    else (record o { selected = index }, true)

unfoldable pub select_next : CleanOverlay → CleanOverlay × Bool
select_next o =
    if ltb (length o.choices) 2
    then (o, false)
    else (record o { selected = (o.selected + 1) % length o.choices }, true)

unfoldable pub select_prev : CleanOverlay → CleanOverlay × Bool
select_prev o =
    if ltb (length o.choices) 2
    then (o, false)
    else (record o { selected = (o.selected + length o.choices - 1) % length o.choices }, true)

unfoldable pub set_scan : CleanOverlay → WorktreeReclaim → List Text → CleanOverlay
set_scan o reclaim skipped = record o {
  reclaim = some reclaim;
  skipped = skipped;
  confirm = reset o.confirm;
}

unfoldable pub bytes_in : Option WorktreeReclaim → ℕ
bytes_in none = 0
bytes_in (some r) = r.total_bytes

unfoldable pub total_bytes : CleanOverlay → ℕ
total_bytes o = bytes_in o.reclaim

unfoldable pub is_empty_scan : CleanOverlay → Bool
is_empty_scan o = total_bytes o == 0
